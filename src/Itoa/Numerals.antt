-- ===== src/Itoa/Numerals.antt =====
-- The texts that the three functions leave in the buffer.
use swallow_os.Prelude.{
  ℕ, zero, suc, ◌+◌, ◌-◌, ◌*◌, ◌^◌, ◌≡◌, ◌≢◌, ◌≤◌, ◌<◌, refl, ◌∙◌, ap, true, false, ◌&&◌, ◌||◌,
  ◌==◌, if◌then◌else◌, ltb, leb, update, Option, some, arith, Bool-cases, inl, inr,
}
use swallow_os.Itoa.{Buffer, digit_char, itoa_internal, itoa_signed, itoa_unsigned}
use swallow_os.Itoa.Digits.{digit_value, backward, Emitted, emit-Emitted}
use swallow_os.Itoa.Reversal.{Reversed, reverse_between-Reversed}

-- The number whose `n` digits stand from `p` on, the first one first.
unfoldable pub forward : Buffer → ℕ → ℕ → ℕ → ℕ
forward buf p zero base = 0
forward buf p (suc n) base = forward buf p n base * base + digit_value (buf (p + n))

forward-backward :
    (a b : Buffer) (p q n base : ℕ)
    → ((i : ℕ) → i < n → a (p + i) ≡ b (q + (n - 1 - i)))
    → forward a p n base ≡ backward b q n base
unfolding forward backward
forward-backward a b p q zero base same = refl
forward-backward a b p q (suc n) base same =
    let last : a (p + n) ≡ b q =
      same n (omega arith) ∙ (let e : q + (suc n - 1 - n) ≡ q = omega arith in ap b e) in
    let others = forward-backward a b p (q + 1) n base (λ i h.
      same i (omega arith)
      ∙ (let e : q + (suc n - 1 - i) ≡ q + 1 + (n - 1 - i) = omega arith in ap b e)) in
    rw (last, others) (omega arith)

-- `n` digits of the number `num` stand from `p` on, the first one first and not zero, and a zero byte
-- behind them; the bytes below `p` are those of `buf`.
pub record Numeral (buf : Buffer) (p num base : ℕ) (after : Buffer) (n : ℕ) : Type 0 where
  pub stands_for : forward after p n base ≡ num
  pub digits : (i : ℕ) → i < n → (d : ℕ) × (d < base) × (after (p + i) ≡ digit_char d)
  pub leading : num ≢ 0 → after p ≢ b'0'
  pub some_digit : 0 < n
  pub ends : after (p + n) ≡ 0
  pub below : (a : ℕ) → a < p → after a ≡ buf a

module _ (base : ℕ) (lo : 2 ≤ base) (hi : base ≤ 32) where
  turned_around :
      (buf digits after : Buffer) (p num n : ℕ)
      → num ≢ 0
      → Emitted buf p num base digits n
      → Reversed (update digits (p + n) 0) p (p + n - 1) after
      → Numeral buf p num base after n
  turned_around buf digits after p num n positive e r = record {
    stands_for = forward-backward after digits p p n base from ∙ e.stands_for;
    digits = λ i h. let (d, lt, is) = e.digits (n - 1 - i) (omega arith) in (d, lt, from i h ∙ is);
    leading = λ _.
        let at : p + (p + n - 1) - p ≡ p + n - 1 = omega arith in
        let inside : (leb p p && leb p (p + n - 1)) ≡ true =
          ground (arith, e.some_digit positive) in
        let before : (p + n == p + n - 1) ≡ false = ground (arith, e.some_digit positive) in
        let first : after p ≡ digits (p + n - 1) = r p ∙ rw (inside, at, before) refl in
        rw first (e.leading (e.some_digit positive));
    some_digit = e.some_digit positive;
    ends = r (p + n) ∙ ground (arith, e.some_digit positive);
    below = λ a h. r a ∙ ground (arith, e.outside a);
  }
    where
      from : (i : ℕ) → i < n → after (p + i) ≡ digits (p + (n - 1 - i))
      from i h =
          let at : p + (p + n - 1) - (p + i) ≡ p + (n - 1 - i) = omega arith in
          let inside : (leb p (p + i) && leb (p + i) (p + n - 1)) ≡ true = ground arith in
          let before : (p + n == p + (n - 1 - i)) ≡ false = ground arith in
          r (p + i) ∙ rw (inside, at, before) refl

  itoa_internal-Numeral :
      (k fuel num : ℕ) (buf : Buffer) (p : ℕ)
      → num ≢ 0
      → num < base ^ k
      → k < fuel
      → (after : Buffer) × (n : ℕ) × (itoa_internal fuel num buf p base ≡ some after)
        × (n ≤ k)
        × Numeral buf p num base after n
  unfolding itoa_internal
  itoa_internal-Numeral k fuel num buf p positive small enough =
      let (digits, n, runs, le, e) = emit-Emitted base lo hi k fuel buf p num small enough in
      let (after, turns, r) =
        reverse_between-Reversed fuel (update digits (p + n) 0) p (p + n - 1) (omega arith) in
      (
        after,
        n,
        rw (itoa_internal, runs) turns,
        le,
        turned_around buf digits after p num n positive e r,
      )

  zero-Numeral : (buf : Buffer) → Numeral buf 0 0 base (update (update buf 0 b'0') 1 0) 1
  unfolding forward digit_char
  zero-Numeral buf = record {
    stands_for = omega arith;
    digits = λ i h. (0, omega arith, ground arith);
    leading = λ h. absurd (h refl);
    some_digit = omega arith;
    ends = refl;
    below = λ a h. absurd (omega arith);
  }

  abbrev pub Prints : Option Buffer → Buffer → ℕ → ℕ → ℕ → Type 0
  Prints result buf p num k =
      (after : Buffer) × (n : ℕ) × (result ≡ some after) × (n ≤ k) × Numeral buf p num base after n

  -- Printing an unsigned number below `base ^ k`, in a base from 2 to 32 and with more fuel than `k`,
  -- leaves its digits at the start of the buffer, at most `k` and at least one, the first one not zero
  -- unless the number is, and a zero byte behind them.
  pub itoa_unsigned-Prints :
      (k fuel value : ℕ) (buf : Buffer)
      → 0 < k
      → value < base ^ k
      → k < fuel
      → Prints (itoa_unsigned fuel value buf base) buf 0 value k
  unfolding itoa_unsigned
  itoa_unsigned-Prints k fuel value buf some_room small enough =
      let in_range : (ltb base 2 || ltb 32 base) ≡ false = ground arith in
      elim (Bool-cases (value == 0)) [
        | inl none_left ↦
            let e : value ≡ 0 = ground arith in
            rw (in_range, e) (update (update buf 0 b'0') 1 0, 1, refl, some_room, zero-Numeral buf)
        | inr more ↦
            rw (in_range, more)
              (itoa_internal-Numeral k fuel value buf 0 (ground arith) small enough)
      ]

  -- Printing the bit pattern of a `long` whose magnitude is below `base ^ k`, in the same way: a number
  -- that is not negative as an unsigned one; else a minus sign, and the magnitude behind it.
  pub itoa_signed-Prints :
      (k fuel value : ℕ) (buf : Buffer)
      → 0 < k
      → value < 2 ^ 64
      → (if leb (2 ^ 63) value then 2 ^ 64 - value else value) < base ^ k
      → k < fuel
      → if leb (2 ^ 63) value
        then Prints (itoa_signed fuel value buf base) (update buf 0 b'-') 1 (2 ^ 64 - value) k
        else Prints (itoa_signed fuel value buf base) buf 0 value k
  unfolding itoa_signed
  itoa_signed-Prints k fuel value buf some_room word small enough =
      let in_range : (ltb base 2 || ltb 32 base) ≡ false = ground arith in
      elim (Bool-cases (value == 0)) [
        | inl none_left ↦
            let e : value ≡ 0 = ground arith in
            rw (in_range, e) (update (update buf 0 b'0') 1 0, 1, refl, some_room, zero-Numeral buf)
        | inr more ↦ elim (Bool-cases (leb (2 ^ 63) value)) [
          | inl negative ↦
              rw (in_range, more, negative)
                (itoa_internal-Numeral k fuel (2 ^ 64 - value) (update buf 0 b'-') 1 (omega arith)
                  (rw negative at small) enough)
          | inr positive ↦
              rw (in_range, more, positive)
                (itoa_internal-Numeral k fuel value buf 0 (ground arith) (rw positive at small)
                  enough)
        ]
      ]
