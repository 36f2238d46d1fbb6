-- ===== src/Keyboard/Ring.antt =====
-- The ring buffer as a queue of characters.
use swallow_os.Prelude.{
  ℕ, zero, suc, ◌+◌, ◌-◌, ◌%◌, ◌≡◌, ◌<◌, refl, ◌∙◌, ap, ap₂, true, false, ◌&&◌, not, ◌==◌,
  if◌then◌else◌, ltb, List, [], ◌∷◌, ◌++◌, length, update, arith, Bool-cases, inl, inr,
}
use swallow_os.Keyboard.{Keyboard, successor, store}

-- The `n` characters from the position `s` on.
unfoldable pub window : (ℕ → ℕ) → ℕ → ℕ → List ℕ
window b s zero = []
window b s (suc n) = b s ∷ window b (successor s) n

pub length-window : (b : ℕ → ℕ) (s n : ℕ) → length (window b s n) ≡ n
unfolding window
length-window b s zero = refl
length-window b s (suc n) = omega (arith, length-window b (successor s) n)

-- How many characters wait.
abbrev pub waiting : Keyboard → ℕ
waiting k = (k.key_buffer_end + 256 - k.key_buffer_start) % 256

-- The characters that wait, the first one first.
unfoldable pub contents : Keyboard → List ℕ
unfolding window
contents k = window k.keyboard_buffer k.key_buffer_start (waiting k)

abbrev pub IsValid : Keyboard → Type 0
IsValid k = (k.key_buffer_start < 256) × (k.key_buffer_end < 256)

pub window-snoc :
    (b : ℕ → ℕ) (s n e c : ℕ)
    → s < 256
    → n < 256
    → e ≡ (s + n) % 256
    → window (update b e c) s (suc n) ≡ window b s n ++ c ∷ []
unfolding window
window-snoc b s zero e c h g q = ground arith
window-snoc b s (suc n) e c h g q =
    ap₂ (λ y z. y ∷ z) (ground arith)
      (window-snoc b (successor s) n e c (omega arith) (omega arith) (omega arith))

-- A character goes to the end of the queue, unless it is zero or 255 characters wait.
pub contents-store :
    (k : Keyboard) (c : ℕ)
    → IsValid k
    → IsValid (store c k)
      × (contents (store c k) ≡ (
          if not (c == 0) && ltb (length (contents k)) 255
          then contents k ++ c ∷ []
          else contents k))
unfolding store contents
contents-store k c v = elim (Bool-cases (c == 0)) [
  | inl none_typed ↦ rw none_typed (v, refl)
  | inr typed ↦ elim (Bool-cases (successor k.key_buffer_end == k.key_buffer_start)) [
    | inl full ↦
        let most : ltb (length (contents k)) 255 ≡ false =
          ground (arith, length-window k.keyboard_buffer k.key_buffer_start (waiting k)) in
        rw (typed, full, most) (v, refl)
    | inr room ↦
        let less : ltb (length (contents k)) 255 ≡ true =
          ground (arith, length-window k.keyboard_buffer k.key_buffer_start (waiting k)) in
        let more : (successor k.key_buffer_end + 256 - k.key_buffer_start) % 256 ≡ suc (waiting k) =
          ground arith in
        rw (typed, room, less)
          (
            (v.0, omega arith),
            ap (window (update k.keyboard_buffer k.key_buffer_end c) k.key_buffer_start) more
                ∙ window-snoc k.keyboard_buffer k.key_buffer_start (waiting k) k.key_buffer_end c
                    v.0 (omega arith) (omega arith),
          )
  ]
]
