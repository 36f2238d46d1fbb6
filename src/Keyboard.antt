-- ===== src/Keyboard.antt =====
-- The keyboard of kernel/arch/x86_64/driver/keyboard.c: the ring buffer between the interrupt handler
-- and `sys_getchar`. A byte that `inb` reads is an argument, and a byte that `outb` writes outside the
-- mask registers is a result.
pub mod Ring
pub mod Laws
mod Tests
use swallow_os.Prelude.{
  ℕ, zero, suc, ◌+◌, ◌-◌, ◌%◌, ◌^◌, Bool, ◌&&◌, not, ltb, ◌==◌, if◌then◌else◌, List, [], ◌∷◌,
  update, Option, none, some, bit_and,
}
use swallow_os.Pic.{Pic, PortWrite, irq_set_mask, irq_clear_mask, send_eoi}

pub record Keyboard : Type 0 where
  pub keyboard_buffer : ℕ → ℕ
  pub key_buffer_start : ℕ
  pub key_buffer_end : ℕ
  pub pic : Pic

abbrev pub keyboard_buffer_size : ℕ
keyboard_buffer_size = 256

-- `layout`, the final zero of the literal included.
abbrev pub layout : List ℕ
layout =
    0 ∷ 27 ∷ 49 ∷ 50 ∷ 51 ∷ 52 ∷ 53 ∷ 54 ∷ 55 ∷ 56 ∷ 57 ∷ 48 ∷ 45 ∷ 61 ∷ 8 ∷ 9 ∷ 113 ∷ 119 ∷ 101
    ∷ 114 ∷ 116 ∷ 121 ∷ 117 ∷ 105 ∷ 111 ∷ 112 ∷ 91 ∷ 93 ∷ 10 ∷ 0 ∷ 97 ∷ 115 ∷ 100 ∷ 102 ∷ 103 ∷ 104
    ∷ 106 ∷ 107 ∷ 108 ∷ 59 ∷ 39 ∷ 96 ∷ 0 ∷ 92 ∷ 122 ∷ 120 ∷ 99 ∷ 118 ∷ 98 ∷ 110 ∷ 109 ∷ 44 ∷ 46 ∷ 47
    ∷ 0 ∷ 42 ∷ 0 ∷ 32 ∷ 0 ∷ []

at : List ℕ → ℕ → ℕ
at [] n = 0
at (x ∷ xs) zero = x
at (x ∷ xs) (suc n) = at xs n

-- A scan code past the table gives zero, as an index past the list does.
unfoldable pub scancode_to_ascii : ℕ → ℕ
unfolding at
scancode_to_ascii scancode = at layout scancode

abbrev pub successor : ℕ → ℕ
successor n = (n + 1) % keyboard_buffer_size

-- The character is stored where there is one and the ring has room.
unfoldable pub store : ℕ → Keyboard → Keyboard
store c k =
    if not (c == 0) && not (successor k.key_buffer_end == k.key_buffer_start)
    then record k {
      keyboard_buffer = update k.keyboard_buffer k.key_buffer_end c;
      key_buffer_end = successor k.key_buffer_end;
    }
    else k

unfoldable pub keyboard_handler : ℕ → Keyboard → Keyboard × List PortWrite
unfolding store scancode_to_ascii irq_set_mask irq_clear_mask
keyboard_handler scancode k =
    let masked = record k { pic = irq_set_mask 1 (irq_set_mask 0 k.pic) } in
    let stored = store (scancode_to_ascii scancode) masked in
    let opened = record stored { pic = irq_clear_mask 1 (irq_clear_mask 0 stored.pic) } in
    (if bit_and scancode 0x80 == 0 then opened else k, send_eoi 1)

-- `none` is the result -1.
unfoldable pub sys_getchar : Keyboard → Keyboard × Option ℕ
unfolding irq_set_mask irq_clear_mask
sys_getchar k =
    let masked = record k { pic = irq_set_mask 1 (irq_set_mask 0 k.pic) } in
    if masked.key_buffer_start == masked.key_buffer_end
    then (record masked { pic = irq_clear_mask 1 (irq_clear_mask 0 masked.pic) }, none)
    else (
      record masked { key_buffer_start = successor masked.key_buffer_start },
      some (masked.keyboard_buffer masked.key_buffer_start),
    )
