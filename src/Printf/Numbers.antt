-- ===== src/Printf/Numbers.antt =====
-- The texts of numbers fit the buffer of 32 bytes.
use swallow_os.Prelude.{
  ℕ, zero, suc, ◌+◌, ◌-◌, ◌^◌, ◌≡◌, ◌≢◌, ◌≤◌, ◌<◌, refl, sym, subst, ◌∙◌, ap, if◌then◌else◌, leb,
  update, List, [], ◌∷◌, length, Option, some, arith, Bool-cases, inl, inr, ◌⊎◌,
}
use swallow_os.Prelude.Words.{u8, u64}
use swallow_os.Bytes.{strlen}
use swallow_os.Bytes.Compares.{strlen-some}
use swallow_os.Itoa.{Buffer, digit_char, itoa_signed, itoa_unsigned}
use swallow_os.Itoa.Numerals.{Numeral, Prints, itoa_unsigned-Prints, itoa_signed-Prints}
use swallow_os.Printf.{
  empty_buffer, bytes_from, buffer_text, sign_extend, conversion, signed_text, unsigned_text,
  Conversion, converted, character, string, signed, unsigned,
}

pub length-bytes_from : (buf : Buffer) (p n : ℕ) → length (bytes_from buf p n) ≡ n
length-bytes_from buf p zero = refl
length-bytes_from buf p (suc n) = omega (arith, length-bytes_from buf (p + 1) n)

digit_char-ne-zero : (d : ℕ) → digit_char d ≢ 0
unfolding digit_char
digit_char-ne-zero d = ground arith

-- The text in a buffer whose first zero byte has the index `n`.
abbrev pub TextOf : Option Buffer → ℕ → Type 0
TextOf result n = (bytes : List ℕ) × (buffer_text result ≡ some bytes) × (length bytes ≡ n)

buffer_text-TextOf :
    (buf : Buffer) (n : ℕ)
    → n ≤ 31
    → buf n ≡ 0
    → ((j : ℕ) → j < n → buf j ≢ 0)
    → TextOf (some buf) n
unfolding buffer_text
buffer_text-TextOf buf n le ends inside =
    let found : strlen 33 buf 0 ≡ some n =
      strlen-some 33 buf 0 n (omega arith) (let e : 0 + n ≡ n = omega arith in ap buf e ∙ ends)
        (λ j h. let e : 0 + j ≡ j = omega arith in rw e (inside j h)) in
    (bytes_from buf 0 n, rw (buffer_text, found) refl, length-bytes_from buf 0 n)

module _ (base : ℕ) (lo : 2 ≤ base) (hi : base ≤ 32) where
  digit_ne_zero :
      {buf after : Buffer} {p num n : ℕ}
      → Numeral buf p num base after n
      → (i : ℕ) → i < n
      → after (p + i) ≢ 0
  digit_ne_zero m i h = let (d, lt, is) = m.digits i h in rw is (digit_char-ne-zero d)

  Prints-TextOf :
      (result : Option Buffer) (buf : Buffer) (num k : ℕ)
      → k ≤ 31
      → Prints base lo hi result buf 0 num k
      → (n : ℕ) × (n ≤ k) × TextOf result n
  Prints-TextOf result buf num k small (after, n, runs, le, m) =
      let e : 0 + n ≡ n = omega arith in
      (
        n,
        le,
        subst (λ z. TextOf z n) (sym runs)
            (buffer_text-TextOf after n (omega arith) (ap after (sym e) ∙ m.ends) (λ j h.
              let f : 0 + j ≡ j = omega arith in subst (λ z. after z ≢ 0) f (digit_ne_zero m j h))),
      )

-- The text of an unsigned number has at most 20 bytes in base 10, and at most 16 in base 16.
unsigned_text-some :
    (base k w : ℕ)
    → 2 ≤ base
    → base ≤ 32
    → 0 < k
    → k ≤ 31
    → 2 ^ 64 ≤ base ^ k
    → (bytes : List ℕ) × (unsigned_text base w ≡ some bytes) × (length bytes ≤ k)
unfolding unsigned_text
unsigned_text-some base k w lo hi pos small wide =
    let word : u64 w < 2 ^ 64 = omega arith in
    let (n, le, (bytes, e, len)) =
      Prints-TextOf base lo hi (itoa_unsigned 65 (u64 w) empty_buffer base) empty_buffer (u64 w) k
        small
        (itoa_unsigned-Prints base lo hi k 65 (u64 w) empty_buffer pos (omega arith)
          (omega arith)) in
    (bytes, e, omega arith)

minus_ne_zero :
    {after : Buffer} {num n : ℕ}
    → Numeral (update empty_buffer 0 b'-') 1 num 10 after n
    → (j : ℕ) → j < suc n
    → after j ≢ 0
minus_ne_zero m zero h = rw (m.below 0 (omega arith)) (omega arith)
minus_ne_zero {after} m (suc j) h =
    let e : 1 + j ≡ suc j = omega arith in
    subst (λ z. after z ≢ 0) e (digit_ne_zero 10 (omega arith) (omega arith) m j (omega arith))

minus-TextOf :
    (result : Option Buffer) (num k : ℕ)
    → k ≤ 30
    → Prints 10 (omega arith) (omega arith) result (update empty_buffer 0 b'-') 1 num k
    → (n : ℕ) × (n ≤ suc k) × TextOf result n
minus-TextOf result num k small (after, n, runs, le, m) =
    let e : 1 + n ≡ suc n = omega arith in
    (
      suc n,
      omega arith,
      subst (λ z. TextOf z (suc n)) (sym runs)
          (buffer_text-TextOf after (suc n) (omega arith) (ap after (sym e) ∙ m.ends)
            (minus_ne_zero m)),
    )

signed_at :
    (value : ℕ)
    → value < 2 ^ 64
    → (if leb (2 ^ 63) value then 2 ^ 64 - value else value) < 10 ^ 10
    → (n : ℕ) × (n ≤ 11) × TextOf (itoa_signed 65 value empty_buffer 10) n
signed_at value word small =
    let printed =
      itoa_signed-Prints 10 (omega arith) (omega arith) 10 65 value empty_buffer (omega arith) word
        small (omega arith) in
    elim (Bool-cases (leb (2 ^ 63) value)) [
      | inl negative ↦
          minus-TextOf (itoa_signed 65 value empty_buffer 10) (2 ^ 64 - value) 10 (omega arith)
            (rw negative at printed)
      | inr positive ↦
          let (n, le, text) =
            Prints-TextOf 10 (omega arith) (omega arith) (itoa_signed 65 value empty_buffer 10)
              empty_buffer value 10 (omega arith) (rw positive at printed) in
          (n, omega arith, text)
    ]

-- The text of a signed number has at most 11 bytes.
signed_text-some : (w : ℕ) → (bytes : List ℕ) × (signed_text w ≡ some bytes) × (length bytes ≤ 11)
unfolding signed_text
signed_text-some w =
    let (n, le, (bytes, e, len)) = signed_at (sign_extend w) (ground arith) (ground arith) in
    (bytes, e, omega arith)

bases : (c base : ℕ) → conversion c ≡ some (unsigned base) → (base ≡ 16) ⊎ (base ≡ 10)
unfolding conversion
bases c base e = ground arith

-- How long the text of a conversion may be.
abbrev pub longest : (ℕ → List ℕ) → Conversion → ℕ → ℕ
longest text character w = 1
longest text string w = length (text w)
longest text signed w = 11
longest text (unsigned base) w = 20

-- Every conversion of a format has a text. That of a signed number has at most 11 bytes and that of an
-- unsigned one at most 20, so that they fit the buffer of 32 bytes, the zero byte included.
pub converted-some :
    (text : ℕ → List ℕ) (k : Conversion) (c w : ℕ)
    → conversion c ≡ some k
    → (bytes : List ℕ) × (converted text k w ≡ some bytes) × (length bytes ≤ longest text k w)
unfolding converted
converted-some text character c w e = (u8 w ∷ [], refl, omega arith)
converted-some text string c w e = (text w, refl, omega arith)
converted-some text signed c w e = signed_text-some w
converted-some text (unsigned base) c w e = elim (bases c base e) [
  | inl hex ↦ rw hex (
      let (bytes, f, le) =
        unsigned_text-some 16 16 w (omega arith) (omega arith) (omega arith) (omega arith)
          (omega arith) in
      (bytes, f, omega arith))
  | inr decimal ↦ rw decimal (
      unsigned_text-some 10 20 w (omega arith) (omega arith) (omega arith) (omega arith)
        (omega arith))
]
