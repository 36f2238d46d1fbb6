-- ===== src/Floppy/Sectors.antt =====
-- Sector numbers and places on the disk.
use swallow_os.Prelude.{ℕ, ◌+◌, ◌-◌, ◌*◌, ◌≡◌, ◌<◌, ◌≤◌, arith}
use swallow_os.Floppy.{lba_to_chs}

-- A sector of a disk of 80 cylinders, 2 heads and 18 sectors has a place on it, and the place gives the
-- number of the sector back.
pub lba_to_chs-inverse :
    (lba : ℕ)
    → lba < 80 * 2 * 18
    → let (c, h, s) = lba_to_chs lba in
      (c < 80) × (h < 2) × (1 ≤ s) × (s ≤ 18) × ((c * 2 + h) * 18 + (s - 1) ≡ lba)
unfolding lba_to_chs
lba_to_chs-inverse lba lt = omega arith
