-- ===== src/Pic/Tests.antt =====
-- Interrupt masks on concrete registers.
use swallow_os.Pic.{Pic}

abbrev mixed : Pic
mixed = record { mask1 = 0xb8; mask2 = 0x8f }
