-- ===== src/Keyboard/Laws.antt =====
-- The interrupt handler and `sys_getchar` at the two ends of the queue of characters.
use swallow_os.Prelude.{
  ℕ, suc, ◌+◌, ◌-◌, ◌%◌, ◌≡◌, refl, ◌∙◌, true, false, ◌&&◌, not, ◌==◌, if◌then◌else◌, ltb, List, [],
  ◌∷◌, ◌++◌, length, arith, Bool-cases, inl, inr, Option, none, some, bit_and,
}
use swallow_os.Prelude.Bits.{bit, bit_and-pow}
use swallow_os.Pic.{Pic, irq_set_mask, irq_clear_mask}
use swallow_os.Pic.Masks.{mask, irq_set_mask-mask}
use swallow_os.Keyboard.{Keyboard, successor, scancode_to_ascii, keyboard_handler, sys_getchar}
use swallow_os.Keyboard.Ring.{window, waiting, contents, IsValid, contents-store}

abbrev pub first : List ℕ → Option ℕ
first [] = none
first (x ∷ xs) = some x

abbrev pub rest : List ℕ → List ℕ
rest [] = []
rest (x ∷ xs) = xs

-- The first of a list, as a list.
abbrev pub first_only : List ℕ → List ℕ
first_only [] = []
first_only (x ∷ xs) = x ∷ []

abbrev masked : Pic → Pic
masked p = irq_set_mask 1 (irq_set_mask 0 p)

module _ (k : Keyboard) (v : IsValid k) where
  -- With both positions in the array, an interrupt for a pressed key puts its character at the
  -- end of the queue, unless the key has none or 255 characters wait; an interrupt for a released
  -- key, whose scan code has bit 7 set, leaves the queue alone. The positions stay in the array.
  pub keyboard_handler-contents :
      (scancode : ℕ)
      → let c = scancode_to_ascii scancode in
        let k' = (keyboard_handler scancode k).0 in
        IsValid k'
        × (contents k' ≡ (
            if (bit 7 scancode == 0) && (not (c == 0) && ltb (length (contents k)) 255)
            then contents k ++ c ∷ []
            else contents k))
  unfolding keyboard_handler contents
  keyboard_handler-contents scancode = elim (Bool-cases (bit 7 scancode == 0)) [
    | inl pressed ↦
        let down : (bit_and scancode 0x80 == 0) ≡ true = ground (arith, bit_and-pow 7 scancode) in
        rw (pressed, down)
          (contents-store (record k { pic = irq_set_mask 1 (irq_set_mask 0 k.pic) })
            (scancode_to_ascii scancode) v)
    | inr released ↦
        let up : (bit_and scancode 0x80 == 0) ≡ false = ground (arith, bit_and-pow 7 scancode) in
        rw (released, up) (v, refl)
  ]

  -- With both positions in the array, `sys_getchar` gives the first of the characters that wait
  -- and takes it off the queue, and the positions stay in the array; where none waits it gives
  -- none. Then the timer's and the keyboard's interrupt lines are unmasked, but where it gave a
  -- character it returns with both of them masked.
  pub sys_getchar-contents :
      ((sys_getchar k).1 ≡ first (contents k))
      × (contents (sys_getchar k).0 ≡ rest (contents k))
      × IsValid (sys_getchar k).0
      × (mask (sys_getchar k).0.pic 0 ≡ length (first_only (contents k)))
      × (mask (sys_getchar k).0.pic 1 ≡ length (first_only (contents k)))
  unfolding sys_getchar contents window
  sys_getchar-contents = elim (Bool-cases (k.key_buffer_start == k.key_buffer_end)) [
    | inl empty ↦
        let none_waits : waiting k ≡ 0 = ground arith in
        rw (empty, none_waits)
          (
            refl,
            refl,
            v,
            (irq_set_mask-mask (irq_clear_mask 0 (masked k.pic)) 1 0 (omega arith) (omega arith)).1
                ∙ (irq_set_mask-mask (masked k.pic) 0 0 (omega arith) (omega arith)).1,
            (irq_set_mask-mask (irq_clear_mask 0 (masked k.pic)) 1 1 (omega arith) (omega arith)).1,
          )
    | inr more ↦
        let one_less : waiting k
            ≡ suc ((k.key_buffer_end + 256 - successor k.key_buffer_start) % 256) =
          ground arith in
        rw (more, one_less)
          (
            refl,
            refl,
            (omega arith, v.1),
            (irq_set_mask-mask (irq_set_mask 0 k.pic) 1 0 (omega arith) (omega arith)).0
                ∙ (irq_set_mask-mask k.pic 0 0 (omega arith) (omega arith)).0,
            (irq_set_mask-mask (irq_set_mask 0 k.pic) 1 1 (omega arith) (omega arith)).0,
          )
  ]
