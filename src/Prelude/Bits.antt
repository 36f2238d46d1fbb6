-- ===== src/Prelude/Bits.antt =====
-- `&`, `|` and complements of words, bit by bit, at every width.
use Prim.Native.Nat.{
  ℕ, zero, suc, ◌+◌, ◌-◌, ◌*◌, ◌/◌, ◌%◌, ◌^◌, ◌≤◌, ◌<◌, min, max, bit_and, bit_or, digits,
  bit_and-bitwise, bit_or-bitwise, bitwise,
}
use mathlib.Core.Path.{◌≡◌, refl, ap, ◌∙◌}
use native.Mathlib.Nat.{le_refl, pow-suc, one-le-pow}
use native.Mathlib.Omega.{arith}
use swallow_os.Prelude.Tests.{◌==◌, if◌then◌else◌}

-- The bit of weight 2 ^ j.
unfoldable pub bit : ℕ → ℕ → ℕ
bit zero a = a % 2
bit (suc j) a = bit j (a / 2)

-- The native operations are recursions over binary digits with fuel; the fuel is immaterial.
module _ (z : ℕ → ℕ) (f : ℕ → ℕ → ℕ) where
  digits_enough : (n m a b : ℕ) → a ≤ n → a ≤ m → digits z f n a b ≡ digits z f m a b
  digits_enough zero zero a b p q = refl
  digits_enough zero (suc m) zero b p q = refl
  digits_enough zero (suc m) (suc a) b p q = absurd (omega arith)
  digits_enough (suc n) zero zero b p q = refl
  digits_enough (suc n) zero (suc a) b p q = absurd (omega arith)
  digits_enough (suc n) (suc m) zero b p q = refl
  digits_enough (suc n) (suc m) (suc a) b p q =
      omega (arith, digits_enough n m (suc a / 2) (b / 2) (omega arith) (omega arith))

  bitwise_low :
      (a b : ℕ)
      → bitwise z f (suc a) b ≡ bitwise z f (suc a / 2) (b / 2) * 2 + f (suc a % 2) (b % 2)
  bitwise_low a b =
      omega (arith, digits_enough a (suc a / 2) (suc a / 2) (b / 2) (omega arith) (le_refl _))

pub and_low : (a b : ℕ) → bit_and a b ≡ bit_and (a / 2) (b / 2) * 2 + min (a % 2) (b % 2)
and_low zero b = simp bit_and-bitwise (omega arith)
and_low (suc a) b = simp bit_and-bitwise (bitwise_low (λ y. 0) min a b)

pub or_low : (a b : ℕ) → bit_or a b ≡ bit_or (a / 2) (b / 2) * 2 + max (a % 2) (b % 2)
or_low zero b = simp bit_or-bitwise (omega arith)
or_low (suc a) b = simp bit_or-bitwise (bitwise_low (λ y. y) max a b)

pub bit-le-one : (j a : ℕ) → bit j a ≤ 1
unfolding bit
bit-le-one zero a = omega arith
bit-le-one (suc j) a = bit-le-one j (a / 2)

pub bit-bit_and : (j a b : ℕ) → bit j (bit_and a b) ≡ min (bit j a) (bit j b)
unfolding bit
bit-bit_and zero a b = omega (arith, and_low a b)
bit-bit_and (suc j) a b = ap (bit j) (omega (arith, and_low a b)) ∙ bit-bit_and j (a / 2) (b / 2)

pub bit-bit_or : (j a b : ℕ) → bit j (bit_or a b) ≡ max (bit j a) (bit j b)
unfolding bit
bit-bit_or zero a b = omega (arith, or_low a b)
bit-bit_or (suc j) a b = ap (bit j) (omega (arith, or_low a b)) ∙ bit-bit_or j (a / 2) (b / 2)

bit-zero : (j : ℕ) → bit j 0 ≡ 0
unfolding bit
bit-zero zero = refl
bit-zero (suc j) = bit-zero j

pub bit-pow : (j k : ℕ) → bit j (2 ^ k) ≡ (if k == j then 1 else 0)
unfolding bit
bit-pow zero zero = refl
bit-pow zero (suc k) = ground (arith, pow-suc 2 k)
bit-pow (suc j) zero = ground (arith, bit-zero j)
bit-pow (suc j) (suc k) =
    let e : 2 ^ suc k / 2 ≡ 2 ^ k = omega (arith, pow-suc 2 k) in rw e (ground (arith, bit-pow j k))

-- `~a` in a word of n bits.
unfoldable pub complement : ℕ → ℕ → ℕ
complement n a = 2 ^ n - 1 - a % 2 ^ n

pub bit-complement : (n j a : ℕ) → a < 2 ^ n → j < n → bit j (2 ^ n - 1 - a) ≡ 1 - bit j a
unfolding bit
bit-complement zero j a h lt = absurd (omega arith)
bit-complement (suc n) zero a h lt = omega (arith, pow-suc 2 n, one-le-pow n 2)
bit-complement (suc n) (suc j) a h lt =
    ap (bit j) (omega (arith, pow-suc 2 n, one-le-pow n 2))
    ∙ bit-complement n j (a / 2) (omega (arith, pow-suc 2 n)) (omega arith)

pub and-zero : (a : ℕ) → (n : ℕ) → a ≤ n → bit_and a 0 ≡ 0
and-zero zero n h = refl
and-zero (suc a) zero h = absurd (omega arith)
and-zero (suc a) (suc n) h = omega (arith, and_low (suc a) 0, and-zero (suc a / 2) n (omega arith))

-- Testing one bit by a mask.
pub bit_and-pow : (k a : ℕ) → bit_and a (2 ^ k) ≡ bit k a * 2 ^ k
unfolding bit
bit_and-pow zero a = omega (arith, and_low a 1, and-zero (a / 2) (a / 2) (le_refl _))
bit_and-pow (suc k) a = omega (
  arith,
  and_low a (2 ^ suc k),
  pow-suc 2 k,
  ap (λ (t : ℕ). bit_and (a / 2) t) (pow_half k),
  bit_and-pow k (a / 2),
  ap (λ (t : ℕ). bit k (a / 2) * t) (pow-suc 2 k),
)
  where
    pow_half : (k : ℕ) → 2 ^ suc k / 2 ≡ 2 ^ k
    pow_half k = omega (arith, pow-suc 2 k)

pub zero-bit_and : (b : ℕ) → bit_and 0 b ≡ 0
zero-bit_and b = bit_and-bitwise 0 b
