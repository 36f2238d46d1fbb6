-- ===== src/Pic/Masks.antt =====
-- Masking one interrupt line of the two controllers.
use swallow_os.Prelude.{
  ℕ, zero, suc, ◌-◌, ◌%◌, ◌^◌, ◌≡◌, ◌<◌, ◌∙◌, arith, ltb, ◌==◌, if◌then◌else◌, bit_and, bit_or,
  Bool-cases, inl, inr,
}
use swallow_os.Prelude.Words.{u8}
use swallow_os.Prelude.Bits.{
  bit, bit-bit_and, bit-bit_or, bit-pow, bit-complement, complement, bit-le-one,
}
use swallow_os.Pic.{Pic, irq_set_mask, irq_clear_mask}

-- The mask of a line: 1 keeps its interrupts away.
unfoldable pub mask : Pic → ℕ → ℕ
unfolding bit
mask p line = if ltb line 8 then bit line p.mask1 else bit (line - 8) p.mask2

bit-u8 : (j a : ℕ) → j < 8 → bit j (u8 a) ≡ bit j a
unfolding bit
bit-u8 zero a h = omega arith
bit-u8 (suc zero) a h = omega arith
bit-u8 (suc (suc zero)) a h = omega arith
bit-u8 (suc (suc (suc zero))) a h = omega arith
bit-u8 (suc (suc (suc (suc zero)))) a h = omega arith
bit-u8 (suc (suc (suc (suc (suc zero))))) a h = omega arith
bit-u8 (suc (suc (suc (suc (suc (suc zero)))))) a h = omega arith
bit-u8 (suc (suc (suc (suc (suc (suc (suc zero))))))) a h = omega arith
bit-u8 (suc (suc (suc (suc (suc (suc (suc (suc j)))))))) a h = absurd (omega arith)

byte_pow : (k : ℕ) → k < 8 → 2 ^ k < 2 ^ 8
byte_pow zero h = omega arith
byte_pow (suc zero) h = omega arith
byte_pow (suc (suc zero)) h = omega arith
byte_pow (suc (suc (suc zero))) h = omega arith
byte_pow (suc (suc (suc (suc zero)))) h = omega arith
byte_pow (suc (suc (suc (suc (suc zero))))) h = omega arith
byte_pow (suc (suc (suc (suc (suc (suc zero)))))) h = omega arith
byte_pow (suc (suc (suc (suc (suc (suc (suc zero))))))) h = omega arith
byte_pow (suc (suc (suc (suc (suc (suc (suc (suc k)))))))) h = absurd (omega arith)

bit_set : (j k a : ℕ) → j < 8 → bit j (u8 (bit_or a (2 ^ k))) ≡ (if k == j then 1 else bit j a)
bit_set j k a h =
    bit-u8 j (bit_or a (2 ^ k)) h
    ∙ ground (arith, bit-bit_or j a (2 ^ k), bit-pow j k, bit-le-one j a)

bit_cleared :
    (j k a : ℕ)
    → j < 8
    → k < 8
    → bit j (u8 (bit_and a (complement 32 (2 ^ k)))) ≡ (if k == j then 0 else bit j a)
unfolding complement
bit_cleared j k a h g =
    let small : 2 ^ k % 2 ^ 32 ≡ 2 ^ k = omega (arith, byte_pow k g) in
    bit-u8 j (bit_and a (complement 32 (2 ^ k))) h
    ∙ bit-bit_and j a (2 ^ 32 - 1 - 2 ^ k % 2 ^ 32)
    ∙ rw small (
        ground (
          arith,
          bit-complement 32 j (2 ^ k) (omega (arith, byte_pow k g)) (omega arith),
          bit-pow j k,
          bit-le-one j a,
        ))

-- `irq_set_mask` masks the line that it is given, `irq_clear_mask` unmasks it, and both leave every
-- other one of the sixteen lines as it was.
pub irq_set_mask-mask :
    (p : Pic) (line other : ℕ)
    → line < 16
    → other < 16
    → (mask (irq_set_mask line p) other ≡ (if line == other then 1 else mask p other))
      × (mask (irq_clear_mask line p) other ≡ (if line == other then 0 else mask p other))
unfolding mask irq_set_mask irq_clear_mask
irq_set_mask-mask p line other h g = elim (Bool-cases (ltb line 8)) [
  | inl low ↦ elim (Bool-cases (ltb other 8)) [
    | inl first ↦
        rw (low, first)
          (
            bit_set other line p.mask1 (ground arith),
            bit_cleared other line p.mask1 (ground arith) (ground arith),
          )
    | inr second ↦ rw (low, second) (ground arith)
  ]
  | inr high ↦ elim (Bool-cases (ltb other 8)) [
    | inl first ↦ rw (high, first) (ground arith)
    | inr second ↦
        rw (high, second)
          (
            bit_set (other - 8) (line - 8) p.mask2 (ground arith) ∙ ground arith,
            bit_cleared (other - 8) (line - 8) p.mask2 (ground arith) (ground arith) ∙ ground arith,
          )
  ]
]
