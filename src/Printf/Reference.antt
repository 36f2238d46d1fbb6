-- ===== src/Printf/Reference.antt =====
-- What a format stands for, byte by byte.
use swallow_os.Prelude.{
  ℕ, ◌≡◌, refl, ap, ◌==◌, if◌then◌else◌, List, [], ◌∷◌, ◌++◌, length, Option, none, some, arith,
  Bool-cases, inl, inr, ◌≤◌,
}
use swallow_os.Printf.{conversion, converted, take_plain, drop_plain, next_parameter}

abbrev pub or_nothing : Option (List ℕ) → List ℕ
or_nothing none = []
or_nothing (some bytes) = bytes

-- Two percent signs stand for one, a conversion for the text of the next parameter, and an unknown one,
-- with all that follows it, for itself; every other byte stands for itself.
unfoldable pub expand : (ℕ → List ℕ) → List ℕ → (ℕ → ℕ) → List ℕ
expand text [] parameters = []
expand text (c ∷ []) parameters = c ∷ []
expand text (c ∷ d ∷ more) parameters =
    if c == b'%'
    then (if d == b'%' then b'%' ∷ expand text more parameters else elim (conversion d) [
      | none ↦ c ∷ d ∷ more
      | some k ↦
          or_nothing (converted text k (parameters 0))
          ++ expand text more (next_parameter parameters)
    ])
    else c ∷ expand text (d ∷ more) parameters

pub expand-plain :
    (text : ℕ → List ℕ) (format : List ℕ) (parameters : ℕ → ℕ)
    → expand text format parameters
      ≡ take_plain format ++ expand text (drop_plain format) parameters
unfolding expand take_plain drop_plain
expand-plain text [] parameters = refl
expand-plain text (c ∷ []) parameters = elim (Bool-cases (c == b'%')) [
  | inl sign ↦ rw sign
  | inr other ↦ rw other
]
expand-plain text (c ∷ d ∷ more) parameters = elim (Bool-cases (c == b'%')) [
  | inl sign ↦ rw (sign, sign)
  | inr other ↦ rw other (ap (λ z. c ∷ z) (expand-plain text (d ∷ more) parameters))
]

pub length-drop_plain : (format : List ℕ) → length (drop_plain format) ≤ length format
unfolding drop_plain
length-drop_plain [] = omega arith
length-drop_plain (c ∷ cs) = ground (arith, length-drop_plain cs)
