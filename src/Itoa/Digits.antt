-- ===== src/Itoa/Digits.antt =====
-- The digits that the first loop writes, the last one of the number first.
use swallow_os.Prelude.{
  ℕ, zero, suc, ◌+◌, ◌-◌, ◌*◌, ◌/◌, ◌%◌, ◌^◌, ◌≡◌, ◌≢◌, ◌≤◌, ◌<◌, refl, sym, ◌∙◌, ap, true, ◌==◌,
  if◌then◌else◌, leb, update, some, arith, Bool-cases, inl, inr,
}
use native.Mathlib.Nat.{pow-zero, pow-suc}
use swallow_os.Itoa.{Buffer, digit_char, emit}

-- The number that a digit stands for.
abbrev pub digit_value : ℕ → ℕ
digit_value c = if leb b'a' c then c - b'a' + 10 else c - b'0'

pub digit_value-digit_char : (d : ℕ) → d < 32 → digit_value (digit_char d) ≡ d
unfolding digit_char
digit_value-digit_char d h = ground arith

-- The number whose digits stand from `p` on, the last one first.
unfoldable pub backward : Buffer → ℕ → ℕ → ℕ → ℕ
backward buf p zero base = 0
backward buf p (suc n) base = digit_value (buf p) + backward buf (p + 1) n base * base

-- `n` digits of the number `num` from `p` on, the last one first and the first one not zero.
pub record Emitted (buf : Buffer) (p num base : ℕ) (after : Buffer) (n : ℕ) : Type 0 where
  pub stands_for : backward after p n base ≡ num
  pub digits : (i : ℕ) → i < n → (d : ℕ) × (d < base) × (after (p + i) ≡ digit_char d)
  pub leading : 0 < n → after (p + n - 1) ≢ b'0'
  pub some_digit : num ≢ 0 → 0 < n
  pub outside : (a : ℕ) → (if leb p a then leb (p + n) a else true) ≡ true → after a ≡ buf a

shift : (buf : Buffer) (p i : ℕ) → buf (p + 1 + i) ≡ buf (p + suc i)
shift buf p i = let e : p + 1 + i ≡ p + suc i = omega arith in ap buf e

start : (buf : Buffer) (p : ℕ) → buf (p + 0) ≡ buf p
start buf p = let e : p + 0 ≡ p = omega arith in ap buf e

module _ (base : ℕ) (lo : 2 ≤ base) (hi : base ≤ 32) where
  remainder-lt : (num : ℕ) → num % base < base
  remainder-lt num = grind arith

  quotient : (num : ℕ) → num % base + num / base * base ≡ num
  quotient num = grind arith

  smaller : (k num : ℕ) → num < base ^ suc k → num / base < base ^ k
  smaller k num h = grind (arith, pow-suc base k)

  quotient_zero : (num : ℕ) → num / base ≡ 0 → num % base ≡ num
  quotient_zero num e = grind arith

  digit_char-ne : (d : ℕ) → d ≢ 0 → d < 32 → digit_char d ≢ b'0'
  unfolding digit_char
  digit_char-ne d h lt = ground arith

  leading_cons :
      (buf after : Buffer) (p num n : ℕ)
      → num ≢ 0
      → after p ≡ digit_char (num % base)
      → Emitted buf (p + 1) (num / base) base after n
      → after (p + suc n - 1) ≢ b'0'
  unfolding backward
  leading_cons buf after p num zero positive here e =
      let last : num % base ≡ num = quotient_zero num (sym e.stands_for) in
      let at : p + 1 - 1 ≡ p = omega arith in
      rw (at, here, last) (digit_char-ne num positive (omega (arith, remainder-lt num, last)))
  leading_cons buf after p num (suc n) positive here e =
      let at : p + suc (suc n) - 1 ≡ p + 1 + suc n - 1 = omega arith in
      rw at (e.leading (omega arith))

  digits_cons :
      (buf after : Buffer) (p num n : ℕ)
      → after p ≡ digit_char (num % base)
      → Emitted buf (p + 1) (num / base) base after n
      → (i : ℕ) → i < suc n
      → (d : ℕ) × (d < base) × (after (p + i) ≡ digit_char d)
  digits_cons buf after p num n here e zero h = (num % base, remainder-lt num, start after p ∙ here)
  digits_cons buf after p num n here e (suc i) h =
      let (d, lt, is) = e.digits i (omega arith) in (d, lt, sym (shift after p i) ∙ is)

  Emitted-cons :
      (buf after : Buffer) (p num n : ℕ)
      → num ≢ 0
      → Emitted (update buf p (digit_char (num % base))) (p + 1) (num / base) base after n
      → Emitted buf p num base after (suc n)
  unfolding backward
  Emitted-cons buf after p num n positive e =
      let here : after p ≡ digit_char (num % base) = e.outside p (ground arith) ∙ ground arith in
      let value = digit_value-digit_char (num % base) (omega (arith, remainder-lt num)) in
      record {
        stands_for = rw (here, value, e.stands_for) (quotient num);
        digits = digits_cons (update buf p (digit_char (num % base))) after p num n here e;
        leading = λ h.
            leading_cons (update buf p (digit_char (num % base))) after p num n positive here e;
        some_digit = λ h. omega arith;
        outside = λ a h. e.outside a (ground arith) ∙ ground arith;
      }

  abbrev pub Emits : ℕ → ℕ → Buffer → ℕ → ℕ → Type 0
  Emits k fuel buf p num =
      (after : Buffer) × (n : ℕ) × (emit fuel buf p num base ≡ some (after, p + n))
      × (n ≤ k)
      × Emitted buf p num base after n

  no_digit : (k fuel : ℕ) (buf : Buffer) (p num : ℕ) → num ≡ 0 → Emits k (suc fuel) buf p num
  unfolding emit backward
  no_digit k fuel buf p num e =
      let done : (num == 0) ≡ true = ground arith in
      rw done (
        buf,
        0,
        ap (λ z. some (buf, z)) (omega arith),
        omega arith,
        record {
          stands_for = ground arith;
          digits = λ i h. absurd (omega arith);
          leading = λ h. absurd (omega arith);
          some_digit = λ h. absurd (h e);
          outside = λ a h. refl;
        },
      )

  -- The loop ends within `k` rounds on a number below `base ^ k`, and writes the digits of the number.
  pub emit-Emitted :
      (k fuel : ℕ) (buf : Buffer) (p num : ℕ) → num < base ^ k → k < fuel → Emits k fuel buf p num
  unfolding emit
  emit-Emitted k zero buf p num small enough = absurd (omega arith)
  emit-Emitted zero (suc fuel) buf p num small enough =
      no_digit 0 fuel buf p num (ground (arith, pow-zero base))
  emit-Emitted (suc k) (suc fuel) buf p num small enough = elim (Bool-cases (num == 0)) [
    | inl done ↦ no_digit (suc k) fuel buf p num (ground arith)
    | inr more ↦
        let (after, n, runs, le, e) =
          emit-Emitted k fuel (update buf p (digit_char (num % base))) (p + 1) (num / base)
            (smaller k num small) (omega arith) in
        let at : p + 1 + n ≡ p + suc n = omega arith in
        rw more (
          after,
          suc n,
          runs ∙ ap (λ z. some (after, z)) at,
          omega arith,
          Emitted-cons buf after p num n (ground arith) e,
        )
  ]
