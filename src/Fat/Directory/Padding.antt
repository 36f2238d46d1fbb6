-- ===== src/Fat/Directory/Padding.antt =====
-- What the two loops of `upper_padding` write.
use swallow_os.Prelude.{
  ℕ, zero, suc, ◌+◌, ◌-◌, ◌≡◌, ◌≢◌, ◌≤◌, ◌<◌, sym, ◌∙◌, ap, subst, true, false, ◌&&◌, ◌||◌, ltb,
  leb, ◌==◌, if◌then◌else◌, update, List, arith, Bool-cases, inl, inr, ◌⊎◌,
}
use swallow_os.Fat.Directory.{char_at, upper, pad_base, pad_extension}

-- `count` characters from `i` on stand in the base name, and then it ends.
pub pad_base-run :
    (left count i : ℕ) (name : List ℕ) (name8 : ℕ → ℕ)
    → count ≤ left
    → ((k : ℕ) → k < count → (char_at name (i + k) ≢ 0) × (char_at name (i + k) ≢ b'.'))
    → (count < left → (char_at name (i + count) ≡ 0) ⊎ (char_at name (i + count) ≡ b'.'))
    → ((pad_base left name i name8).1 ≡ i + count)
      × ((a : ℕ)
          → (pad_base left name i name8).0 a
            ≡ (if leb i a && ltb a (i + count) then upper (char_at name a) else name8 a))
unfolding pad_base
pad_base-run zero count i name name8 le inside end = (omega arith, λ a. ground arith)
pad_base-run (suc left) zero i name name8 le inside end =
    let e : i + 0 ≡ i = omega arith in
    let stops : (char_at name i == 0 || char_at name i == b'.') ≡ true = elim (end (omega arith)) [
      | inl nul ↦ let h : char_at name i ≡ 0 = ap (char_at name) (sym e) ∙ nul in ground arith
      | inr dot ↦ let h : char_at name i ≡ b'.' = ap (char_at name) (sym e) ∙ dot in ground arith
    ] in
    rw stops (omega arith, λ a. ground arith)
pad_base-run (suc left) (suc count) i name name8 le inside end =
    let e : i + 0 ≡ i = omega arith in
    let (one, two) = inside 0 (omega arith) in
    let one' : char_at name i ≢ 0 = subst (λ z. char_at name z ≢ 0) e one in
    let two' : char_at name i ≢ b'.' = subst (λ z. char_at name z ≢ b'.') e two in
    let goes_on : (char_at name i == 0 || char_at name i == b'.') ≡ false = ground arith in
    let (at, bytes) =
      pad_base-run left count (i + 1) name (update name8 i (upper (char_at name i))) (omega arith)
        (λ k lt.
          let f : i + suc k ≡ i + 1 + k = omega arith in rw f at (inside (suc k) (omega arith)))
        (let f : i + suc count ≡ i + 1 + count = omega arith in
          λ lt. rw f at (end (omega arith))) in
    rw goes_on (
      omega arith,
      λ a. bytes a ∙ elim (Bool-cases (i == a)) [
        | inl here ↦ let f : i ≡ a = ground arith in rw (sym f) (ground arith)
        | inr other ↦ ground arith
      ],
    )

pub pad_extension-run :
    (left count i j : ℕ) (name : List ℕ) (ext3 : ℕ → ℕ)
    → count ≤ left
    → ((k : ℕ) → k < count → char_at name (i + k) ≢ 0)
    → (count < left → char_at name (i + count) ≡ 0)
    → (a : ℕ)
    → pad_extension left name i j ext3 a
      ≡ (if leb j a && ltb a (j + count) then upper (char_at name (i + (a - j))) else ext3 a)
unfolding pad_extension
pad_extension-run zero count i j name ext3 le inside end a = ground arith
pad_extension-run (suc left) zero i j name ext3 le inside end a =
    let e : i + 0 ≡ i = omega arith in
    let end' : char_at name i ≡ 0 = ap (char_at name) (sym e) ∙ end (omega arith) in
    let stops : (char_at name i == 0) ≡ true = ground arith in rw stops (ground arith)
pad_extension-run (suc left) (suc count) i j name ext3 le inside end a =
    let e : i + 0 ≡ i = omega arith in
    let one : char_at name i ≢ 0 = subst (λ z. char_at name z ≢ 0) e (inside 0 (omega arith)) in
    let goes_on : (char_at name i == 0) ≡ false = ground arith in
    let bytes =
      pad_extension-run left count (i + 1) (j + 1) name (update ext3 j (upper (char_at name i)))
        (omega arith)
        (λ k lt.
          let f : i + suc k ≡ i + 1 + k = omega arith in
          subst (λ z. char_at name z ≢ 0) f (inside (suc k) (omega arith)))
        (let f : i + 1 + count ≡ i + suc count = omega arith in
          λ lt. ap (char_at name) f ∙ end (omega arith)) in
    rw goes_on (
      bytes a ∙ elim (Bool-cases (j == a)) [
        | inl here ↦ let f : i + (a - j) ≡ i = ground arith in rw f (ground arith)
        | inr other ↦ elim (Bool-cases (leb (j + 1) a)) [
          | inl behind ↦
              let f : i + 1 + (a - (j + 1)) ≡ i + (a - j) = ground arith in rw f (ground arith)
          | inr before ↦ ground arith
        ]
      ])
