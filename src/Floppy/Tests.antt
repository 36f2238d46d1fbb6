-- ===== src/Floppy/Tests.antt =====
-- A place on the disk.
use swallow_os.Prelude.{◌≡◌, refl}
use swallow_os.Floppy.{lba_to_chs}

hundredth_sector : lba_to_chs 100 ≡ (2, 1, 11)
unfolding lba_to_chs
hundredth_sector = refl
