-- ===== src/Fat/Directory/Shortened.antt =====
-- A file name of any length in the form of a directory entry.
use swallow_os.Prelude.{
  ℕ, zero, suc, ◌+◌, ◌-◌, ◌≡◌, ◌≢◌, ◌≤◌, ◌<◌, refl, ◌∙◌, true, false, ◌&&◌, ltb, leb, ◌==◌,
  if◌then◌else◌, min, List, [], ◌∷◌, length, arith, Bool-cases, inl, inr, ◌⊎◌,
}
use swallow_os.Fat.Directory.{char_at, pad_base, pad_extension, upper_padding, upper}
use swallow_os.Fat.Directory.Padding.{pad_base-run, pad_extension-run}

-- A name has no zero byte, which ends it in memory.
abbrev pub IsName : List ℕ → Type 0
IsName name = (k : ℕ) → k < length name → char_at name k ≢ 0

-- How many characters stand before the first dot.
unfoldable pub stem : List ℕ → ℕ
stem [] = 0
stem (c ∷ name) = let rest = stem name in if c == b'.' then 0 else suc rest

abbrev pub capital : ℕ → ℕ
capital c = if leb b'a' c && leb c b'z' then c - 32 else c

-- The eight bytes of the base name and the three of the extension, which is lost where the base name is
-- longer than eight characters.
abbrev pub short_base : List ℕ → ℕ → ℕ
short_base name i = if ltb i (stem name) then capital (char_at name i) else b' '

abbrev pub short_extension : List ℕ → ℕ → ℕ
short_extension name j =
    if leb (stem name) 8 && ltb (stem name + 1 + j) (length name)
    then capital (char_at name (stem name + 1 + j))
    else b' '

char_at-behind : (name : List ℕ) (k : ℕ) → length name ≤ k → char_at name k ≡ 0
char_at-behind [] k le = refl
char_at-behind (c ∷ name) zero le = absurd (omega arith)
char_at-behind (c ∷ name) (suc k) le = char_at-behind name k (omega arith)

stem-inside : (name : List ℕ) (k : ℕ) → k < stem name → (k < length name) × (char_at name k ≢ b'.')
unfolding stem
stem-inside [] k lt = absurd (omega arith)
stem-inside (c ∷ name) zero lt = ground arith
stem-inside (c ∷ name) (suc k) lt =
    let (inside, no_dot) = stem-inside name k (ground arith) in (omega arith, no_dot)

stem-end : (name : List ℕ) → (stem name ≡ length name) ⊎ (char_at name (stem name) ≡ b'.')
unfolding stem
stem-end [] = inl refl
stem-end (c ∷ name) = elim (Bool-cases (c == b'.')) [
  | inl dot ↦ rw dot (inr (ground arith))
  | inr other ↦ rw other (elim (stem-end name) [ inl all ↦ inl (ground arith) | inr dot ↦ inr dot ])
]

upper-capital : (c : ℕ) → upper c ≡ capital c
unfolding upper
upper-capital c = refl

abbrev spaces : ℕ → ℕ
spaces i = b' '

pad_base-short :
    (name : List ℕ)
    → IsName name
    → ((pad_base 8 name 0 spaces).1 ≡ min 8 (stem name))
      × ((i : ℕ) → i < 8 → (pad_base 8 name 0 spaces).0 i ≡ short_base name i)
pad_base-short name is_name =
    let b : ℕ = stem name in
    let count : ℕ = min 8 b in
    let (at, bytes) =
      pad_base-run 8 count 0 name spaces (omega arith)
        (λ k lt.
          let e : 0 + k ≡ k = omega arith in
          let (inside, no_dot) = stem-inside name k (omega arith) in
          rw e (is_name k inside, no_dot))
        (λ lt.
          let e : 0 + count ≡ b = omega arith in
          rw e (elim (stem-end name) [
            | inl all ↦ inl (rw all (char_at-behind name (length name) (omega arith)))
            | inr dot ↦ inr dot
          ])) in
    (
      at ∙ omega arith,
      (λ i lt.
          let test : (leb 0 i && ltb i (0 + count)) ≡ ltb i b = tests i b lt in
          bytes i ∙ rw (test, upper-capital (char_at name i)) refl),
    )
  where
    tests : (i b : ℕ) → i < 8 → (leb 0 i && ltb i (0 + min 8 b)) ≡ ltb i b
    tests i b lt = ground arith

pad_extension-short :
    (name : List ℕ) (j : ℕ)
    → IsName name
    → char_at name (stem name) ≡ b'.'
    → pad_extension 3 name (stem name + 1) 0 spaces j ≡ (
        if ltb j 3 && ltb (stem name + 1 + j) (length name)
        then capital (char_at name (stem name + 1 + j))
        else b' ')
pad_extension-short name j is_name dot =
    let b : ℕ = stem name in
    let inside : b < length name = within name b dot in
    let count : ℕ = min 3 (length name - (b + 1)) in
    let bytes =
      pad_extension-run 3 count (b + 1) 0 name spaces (omega arith)
        (λ k lt. is_name (b + 1 + k) (omega arith))
        (λ lt. char_at-behind name (b + 1 + count) (omega arith)) j in
    let same : j - 0 ≡ j = omega arith in
    let test : (leb 0 j && ltb j (0 + count)) ≡ (ltb j 3 && ltb (b + 1 + j) (length name)) =
      tests b (length name) inside in
    bytes ∙ rw (test, same, upper-capital (char_at name (b + 1 + j))) refl
  where
    within : (name : List ℕ) (b : ℕ) → char_at name b ≡ b'.' → b < length name
    within name b dot = elim (Bool-cases (ltb b (length name))) [
      | inl inside ↦ ground arith
      | inr behind ↦ let nul = char_at-behind name b (ground arith) in absurd (omega arith)
    ]

    tests :
        (b n : ℕ)
        → b < n
        → (leb 0 j && ltb j (0 + min 3 (n - (b + 1)))) ≡ (ltb j 3 && ltb (b + 1 + j) n)
    tests b n inside = ground arith

-- What `upper_padding` does behind the base name, which ends at `i`.
extension-short :
    (name : List ℕ) (i j : ℕ)
    → IsName name
    → i ≡ min 8 (stem name)
    → j < 3
    → (if char_at name i == b'.' then pad_extension 3 name (i + 1) 0 spaces else spaces) j
      ≡ short_extension name j
extension-short name i j is_name e lt = elim (Bool-cases (leb (stem name) 8)) [
  | inr long ↦
      let here : i ≡ 8 = ground arith in
      let no_dot : char_at name 8 ≢ b'.' = (stem-inside name 8 (ground arith)).1 in
      let test : (char_at name 8 == b'.') ≡ false = ground arith in rw (here, test, long) refl
  | inl short ↦
      let here : i ≡ stem name = ground arith in
      let place : ltb j 3 ≡ true = ground arith in
      elim (stem-end name) [
        | inl all ↦
            let nul : char_at name (stem name) ≡ 0 =
              char_at-behind name (stem name) (omega arith) in
            let test : (char_at name (stem name) == b'.') ≡ false = ground arith in
            let none_left : ltb (stem name + 1 + j) (length name) ≡ false = ground arith in
            rw (here, test, short, none_left) refl
        | inr dot ↦
            let test : (char_at name (stem name) == b'.') ≡ true = ground arith in
            rw (here, test, short) (pad_extension-short name j is_name dot ∙ rw place refl)
      ]
]

pub upper_padding-short :
    (name : List ℕ)
    → IsName name
    → ((i : ℕ) → i < 8 → (upper_padding name).0 i ≡ short_base name i)
      × ((j : ℕ) → j < 3 → (upper_padding name).1 j ≡ short_extension name j)
unfolding upper_padding
upper_padding-short name is_name =
    let (ends, bytes) = pad_base-short name is_name in
    (bytes, λ j lt. extension-short name (pad_base 8 name 0 spaces).1 j is_name ends lt)
