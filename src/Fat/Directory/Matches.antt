-- ===== src/Fat/Directory/Matches.antt =====
-- What a directory entry is to the search for a name, by its bytes.
use swallow_os.Prelude.{
  ℕ, zero, suc, ◌+◌, ◌-◌, ◌*◌, ◌/◌, ◌%◌, ◌≡◌, ◌≢◌, ◌<◌, refl, sym, ◌∙◌, ap₂, subst, true, false,
  ◌&&◌, ◌==◌, bit_and, List, [], ◌∷◌, arith, Bool-cases, inl, inr, ◌⊎◌,
}
use swallow_os.Prelude.Bits.{and_low, and-zero, bit, bit_and-pow}
use swallow_os.Fat.Directory.{
  Outcome, stop, next, found, gather, equal_names, check_long_file_name, same_bytes, check_entry,
  upper_padding,
}
use swallow_os.Fat.Directory.Shortened.{IsName, short_base, short_extension, upper_padding-short}

-- The attributes at 11 mark a part of a long name, the order at 0 the last part, and the characters of
-- the parts give the name.
abbrev pub IsLong : (ℕ → ℕ) → ℕ → List ℕ → Type 0
IsLong mem at name =
    (mem (at + 11) % 16 ≡ 15) × (mem at / 64 % 2 ≡ 1) × (name ≡ gather mem at (mem at - 64) [])

-- The eight bytes of the base name and the three of the extension are those of the name.
abbrev pub IsShort : (ℕ → ℕ) → ℕ → List ℕ → Type 0
IsShort mem at name =
    ((i : ℕ) → i < 8 → mem (at + i) ≡ short_base name i)
    × ((j : ℕ) → j < 3 → mem (at + 8 + j) ≡ short_extension name j)

abbrev pub IsEnd : (ℕ → ℕ) → ℕ → Type 0
IsEnd mem at = mem at ≡ 0

abbrev pub IsRemoved : (ℕ → ℕ) → ℕ → Type 0
IsRemoved mem at = mem at ≡ 0xe5

abbrev pub IsUsed : (ℕ → ℕ) → ℕ → Type 0
IsUsed mem at = (mem at ≢ 0) × (mem at ≢ 0xe5)

-- The search goes on behind the entry.
abbrev pub IsOther : (ℕ → ℕ) → ℕ → List ℕ → Type 0
IsOther mem at name =
    IsRemoved mem at ⊎ (IsUsed mem at × (¬ (IsLong mem at name)) × (¬ (IsShort mem at name)))

low_nibble : (a : ℕ) → bit_and a 15 ≡ a % 16
low_nibble a = omega (
  arith,
  and_low a 15,
  and_low (a / 2) 7,
  and_low (a / 2 / 2) 3,
  and_low (a / 2 / 2 / 2) 1,
  and-zero (a / 2 / 2 / 2 / 2) (a / 2 / 2 / 2 / 2) (omega arith),
)

last_part : (a : ℕ) → bit_and a 64 ≡ a / 64 % 2 * 64
unfolding bit
last_part a = omega (arith, bit_and-pow 6 a)

equal_names-same : (xs ys : List ℕ) → equal_names xs ys ≡ true → xs ≡ ys
unfolding equal_names
equal_names-same [] [] e = refl
equal_names-same [] (y ∷ ys) e = ground arith
equal_names-same (x ∷ xs) [] e = ground arith
equal_names-same (x ∷ xs) (y ∷ ys) e =
    let head : x ≡ y = ground arith in
    ap₂ (λ a b. a ∷ b) head (equal_names-same xs ys (ground arith))

equal_names_refl : (xs : List ℕ) → equal_names xs xs ≡ true
unfolding equal_names
equal_names_refl [] = refl
equal_names_refl (x ∷ xs) = ground (arith, equal_names_refl xs)

same_bytes-all :
    (mem : ℕ → ℕ) (p : ℕ) (f : ℕ → ℕ) (n : ℕ)
    → same_bytes mem p f n ≡ true
    → (i : ℕ) → i < n
    → mem (p + i) ≡ f i
unfolding same_bytes
same_bytes-all mem p f zero e i lt = absurd (omega arith)
same_bytes-all mem p f (suc n) e i lt = elim (Bool-cases (i == n)) [
  | inl last ↦ let here : i ≡ n = ground arith in rw here (ground arith)
  | inr before ↦ same_bytes-all mem p f n (ground arith) i (ground arith)
]

all-same_bytes :
    (mem : ℕ → ℕ) (p : ℕ) (f : ℕ → ℕ) (n : ℕ)
    → ((i : ℕ) → i < n → mem (p + i) ≡ f i)
    → same_bytes mem p f n ≡ true
unfolding same_bytes
all-same_bytes mem p f zero same = refl
all-same_bytes mem p f (suc n) same =
    let before = all-same_bytes mem p f n (λ i lt. same i (omega arith)) in
    let last = same n (omega arith) in ground arith

check_long_file_name-long :
    (mem : ℕ → ℕ) (at : ℕ) (name : List ℕ)
    → check_long_file_name mem at name ≡ true
    → (mem at / 64 % 2 ≡ 1) × (name ≡ gather mem at (mem at - 64) [])
unfolding check_long_file_name
check_long_file_name-long mem at name e = elim (Bool-cases (bit_and (mem at) 64 == 0)) [
  | inl early ↦ absurd (let no = rw early at e in ground arith)
  | inr last ↦
      let same = rw last at e in
      (
        ground (arith, last_part (mem at)),
        equal_names-same name (gather mem at (mem at - 64) []) same,
      )
]

long-check_long_file_name :
    (mem : ℕ → ℕ) (at : ℕ) (name : List ℕ)
    → mem at / 64 % 2 ≡ 1
    → name ≡ gather mem at (mem at - 64) []
    → check_long_file_name mem at name ≡ true
unfolding check_long_file_name
long-check_long_file_name mem at name last same =
    let test : (bit_and (mem at) 64 == 0) ≡ false = ground (arith, last_part (mem at)) in
    rw test (subst (λ z. equal_names name z ≡ true) same (equal_names_refl name))

-- The test for a part of a long name says what `IsLong` says.
IsLong-test :
    (mem : ℕ → ℕ) (at : ℕ) (name : List ℕ)
    → (((bit_and (mem (at + 11)) 0x0f == 0x0f && check_long_file_name mem at name) ≡ true)
        × IsLong mem at name)
      ⊎ (((bit_and (mem (at + 11)) 0x0f == 0x0f && check_long_file_name mem at name) ≡ false)
          × (¬ (IsLong mem at name)))
IsLong-test mem at name =
    elim (Bool-cases (bit_and (mem (at + 11)) 0x0f == 0x0f && check_long_file_name mem at name)) [
      | inl holds ↦
          let long = check_long_file_name-long mem at name (ground arith) in
          inl (holds, (ground (arith, low_nibble (mem (at + 11))), long.0, long.1))
      | inr fails ↦ inr (
        fails,
        λ long.
            let check = long-check_long_file_name mem at name long.1 long.2 in
            let mark = low_nibble (mem (at + 11)) in ground arith,
      )
    ]

-- The comparison of the short name says what `IsShort` says.
IsShort-test :
    (mem : ℕ → ℕ) (at : ℕ) (name : List ℕ)
    → IsName name
    → let (n8, e3) = upper_padding name in
      (((same_bytes mem at n8 8 && same_bytes mem (at + 8) e3 3) ≡ true) × IsShort mem at name)
      ⊎ (((same_bytes mem at n8 8 && same_bytes mem (at + 8) e3 3) ≡ false)
          × (¬ (IsShort mem at name)))
IsShort-test mem at name is_name =
    let (n8, e3) = upper_padding name in
    let (base, extension) = upper_padding-short name is_name in
    elim (Bool-cases (same_bytes mem at n8 8 && same_bytes mem (at + 8) e3 3)) [
      | inl holds ↦ inl (
        holds,
        (
          (λ i lt. same_bytes-all mem at n8 8 (ground arith) i lt ∙ base i lt),
          (λ j lt. same_bytes-all mem (at + 8) e3 3 (ground arith) j lt ∙ extension j lt),
        ),
      )
      | inr fails ↦ inr (
        fails,
        λ short.
            let one = all-same_bytes mem at n8 8 (λ i lt. short.0 i lt ∙ sym (base i lt)) in
            let two =
              all-same_bytes mem (at + 8) e3 3 (λ j lt. short.1 j lt ∙ sym (extension j lt)) in
            ground arith,
      )
    ]

-- What the code does with the entry `j` of a sector, and what the entry is.
abbrev pub Judged : (ℕ → ℕ) → ℕ → List ℕ → Outcome → Type 0
Judged mem j name o =
    (IsOther mem (j * 32) name × (o ≡ next))
    ⊎ (IsEnd mem (j * 32) × (o ≡ stop))
    ⊎ (IsUsed mem (j * 32) × IsLong mem (j * 32) name × (o ≡ found (j + mem (j * 32) - 64)))
    ⊎ (IsUsed mem (j * 32)
        × (¬ (IsLong mem (j * 32) name))
        × IsShort mem (j * 32) name
        × (o ≡ found j))

pub check_entry-Judged :
    (mem : ℕ → ℕ) (name : List ℕ) (j : ℕ)
    → IsName name
    → Judged mem j name (check_entry mem name (upper_padding name).0 (upper_padding name).1 j)
unfolding check_entry
check_entry-Judged mem name j is_name =
    let at : ℕ = j * 32 in
    elim (Bool-cases (mem at == 0)) [
      | inl end ↦ rw (check_entry, end) (inr (inl (ground arith, refl)))
      | inr some_entry ↦ elim (Bool-cases (mem at == 0xe5)) [
        | inl gone ↦ rw (check_entry, some_entry, gone) (inl (inl (ground arith), refl))
        | inr used ↦
            let is_used : IsUsed mem at = (ground arith, ground arith) in
            elim (IsLong-test mem at name) [
              | inl (test, long) ↦
                  rw (check_entry, some_entry, used, test) (inr (inr (inl (is_used, long, refl))))
              | inr (test, not_long) ↦ elim (IsShort-test mem at name is_name) [
                | inl (same, short) ↦
                    rw (check_entry, some_entry, used, test, same)
                      (inr (inr (inr (is_used, not_long, short, refl))))
                | inr (differs, not_short) ↦
                    rw (check_entry, some_entry, used, test, differs)
                      (inl (inr (is_used, not_long, not_short), refl))
              ]
            ]
      ]
    ]
