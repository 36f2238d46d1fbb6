-- ===== src/Floppy.antt =====
-- Where kernel/arch/x86_64/driver/floppy.c finds a sector on the disk.
pub mod Sectors
mod Tests
use swallow_os.Prelude.{ℕ, ◌+◌, ◌*◌, ◌/◌, ◌%◌}
use swallow_os.Prelude.Words.{u8, u32}

abbrev pub sectors_per_track : ℕ
sectors_per_track = 18

abbrev pub headers_per_cylinder : ℕ
headers_per_cylinder = 2

-- The cylinder, the head, and the sector, which counts from one.
unfoldable pub lba_to_chs : ℕ → ℕ × ℕ × ℕ
lba_to_chs lba = (
  u8 (lba / (headers_per_cylinder * sectors_per_track)),
  u8 (lba % (headers_per_cylinder * sectors_per_track) / sectors_per_track),
  u8 (lba % (headers_per_cylinder * sectors_per_track) % sectors_per_track + 1),
)
