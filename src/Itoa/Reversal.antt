-- ===== src/Itoa/Reversal.antt =====
-- The second loop turns the digits round.
use swallow_os.Prelude.{
  ℕ, zero, suc, ◌+◌, ◌-◌, ◌≡◌, ◌<◌, refl, ◌∙◌, ◌&&◌, if◌then◌else◌, ltb, leb, update, some, arith,
  Bool-cases, inl, inr,
}
use swallow_os.Itoa.{Buffer, reverse_between}

-- The bytes from `left` to `right` stand the other way round.
abbrev pub Reversed : Buffer → ℕ → ℕ → Buffer → Type 0
Reversed buf left right after =
    (a : ℕ) → after a ≡ (if leb left a && leb a right then buf (left + right - a) else buf a)

Reversed-swap :
    (buf after : Buffer) (left right : ℕ)
    → left < right
    → Reversed (update (update buf left (buf right)) right (buf left)) (left + 1) (right - 1) after
    → Reversed buf left right after
Reversed-swap buf after left right lt inner a =
    elim (Bool-cases (leb (left + 1) a && leb a (right - 1))) [
      | inl inside ↦
          let at : left + 1 + (right - 1) - a ≡ left + right - a = omega arith in
          inner a ∙ rw (inside, at) (ground arith)
      | inr outside ↦ inner a ∙ rw outside (ground arith)
    ]

-- With more fuel than the distance, the loop ends.
pub reverse_between-Reversed :
    (fuel : ℕ) (buf : Buffer) (left right : ℕ)
    → right - left < fuel
    → (after : Buffer) × (reverse_between fuel buf left right ≡ some after)
      × Reversed buf left right after
unfolding reverse_between
reverse_between-Reversed zero buf left right h = absurd (omega arith)
reverse_between-Reversed (suc fuel) buf left right h = elim (Bool-cases (ltb left right)) [
  | inl more ↦
      let (after, runs, inner) =
        reverse_between-Reversed fuel (update (update buf left (buf right)) right (buf left))
          (left + 1) (right - 1) (ground arith) in
      rw more (after, runs, Reversed-swap buf after left right (ground arith) inner)
  | inr done ↦ rw done (buf, refl, λ a. ground arith)
]
