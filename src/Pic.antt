-- ===== src/Pic.antt =====
-- The interrupt mask registers of the two 8259 controllers, and the functions of
-- kernel/arch/x86_64/driver/pic.c that read and write them. `inb` of a data port reads the mask
-- register that `outb` wrote there.
pub mod Masks
mod Tests
use swallow_os.Prelude.{ℕ, ◌+◌, ◌-◌, ◌^◌, bit_and, bit_or, ltb, if◌then◌else◌, List, [], ◌∷◌}
use swallow_os.Prelude.Words.{u8}
use swallow_os.Prelude.Bits.{complement}

pub record Pic : Type 0 where
  pub mask1 : ℕ
  pub mask2 : ℕ

-- `IRQ_set_mask`
unfoldable pub irq_set_mask : ℕ → Pic → Pic
irq_set_mask line p =
    if ltb line 8
    then record p { mask1 = u8 (bit_or p.mask1 (2 ^ line)) }
    else record p { mask2 = u8 (bit_or p.mask2 (2 ^ (line - 8))) }

-- `IRQ_clear_mask`: the complement is that of a 32-bit `int`, cut to a byte.
unfoldable pub irq_clear_mask : ℕ → Pic → Pic
irq_clear_mask line p =
    if ltb line 8
    then record p { mask1 = u8 (bit_and p.mask1 (complement 32 (2 ^ line))) }
    else record p { mask2 = u8 (bit_and p.mask2 (complement 32 (2 ^ (line - 8)))) }

-- A port and the byte that is written to it.
abbrev pub PortWrite : Type 0
PortWrite = ℕ × ℕ

abbrev pub pic1_command : ℕ
pic1_command = 0x20

abbrev pub pic2_command : ℕ
pic2_command = 0xa0

abbrev pub pic_eoi : ℕ
pic_eoi = 0x20

-- `PIC_sendEOI`: the writes to the ports, in order.
unfoldable pub send_eoi : ℕ → List PortWrite
send_eoi irq =
    if ltb irq 8
    then (pic1_command, pic_eoi) ∷ []
    else (pic2_command, pic_eoi) ∷ (pic1_command, pic_eoi) ∷ []
