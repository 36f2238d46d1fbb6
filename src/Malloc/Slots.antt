-- ===== src/Malloc/Slots.antt =====
-- The slots of free chunks: which sizes stand in one, and which one is searched out.
use native.Mathlib.Nat.{pow-zero, pow-suc}
use swallow_os.Prelude.{
  ℕ, zero, suc, ◌+◌, ◌-◌, ◌*◌, ◌/◌, ◌^◌, ◌≡◌, ◌≢◌, ◌≤◌, ◌<◌, refl, sym, ◌∙◌, ap, ltb, leb, ◌==◌,
  Bool-cases, inl, inr, ◌⊎◌, none, some, arith,
}
use swallow_os.Prelude.Words.{u32}
use swallow_os.Malloc.{PageTag, slot_from, memory_chunk_slot}
use swallow_os.Malloc.Alloc.{past_slots, find_slot}

-- Each round counts one binary digit.
slot_from-digits :
    (bits n size : ℕ)
    → size < 2 ^ bits
    → (k : ℕ) × (slot_from bits (u32 n) size ≡ u32 (n + k))
      × (k ≤ bits)
      × (size < 2 ^ k)
      × (0 < size → 2 ^ k ≤ 2 * size)
      × (size ≡ 0 → k ≡ 0)
unfolding slot_from
slot_from-digits zero n size small =
    let one = pow-zero 2 in
    (
      0,
      (let e : n ≡ n + 0 = omega arith in ap u32 e),
      omega arith,
      small,
      (λ h. absurd (omega arith)),
      (λ _. refl),
    )
slot_from-digits (suc bits) n size small =
    let half = pow-suc 2 bits in
    let (k, runs, le, below, above, nothing) =
      slot_from-digits bits (n + 1) (size / 2) (omega arith) in
    let one = pow-zero 2 in
    elim (Bool-cases (ltb 0 size)) [
      | inl more ↦
          let next : u32 (u32 n + 1) ≡ u32 (n + 1) = omega arith in
          let count : n + 1 + k ≡ n + suc k = omega arith in
          let double = pow-suc 2 k in
          (
            suc k,
            rw (more, next) (runs ∙ ap u32 count),
            omega arith,
            omega arith,
            (λ h. elim (Bool-cases (size == 1)) [
              | inl last ↦
                  let k_zero : k ≡ 0 = nothing (ground arith) in
                  let same : 2 ^ k ≡ 2 ^ 0 = ap (λ z. 2 ^ z) k_zero in ground arith
              | inr others ↦ let inner = above (ground arith) in omega arith
            ]),
            (λ h. absurd (ground arith)),
          )
      | inr none_left ↦ (
        0,
        rw none_left (let e : n ≡ n + 0 = omega arith in ap u32 e),
        omega arith,
        ground arith,
        (λ h. absurd (ground arith)),
        (λ _. refl),
      )
    ]

-- The slot of a size that is not zero is the exponent of the greatest power of two in it.
pub memory_chunk_slot-log :
    (size : ℕ)
    → 0 < size
    → size < 2 ^ 64
    → (2 ^ memory_chunk_slot size ≤ size)
      × (size < 2 ^ (memory_chunk_slot size + 1))
      × (memory_chunk_slot size < 64)
unfolding memory_chunk_slot
memory_chunk_slot-log size some_size small =
    let (k, runs, le, below, above, nothing) = slot_from-digits 64 (2 ^ 32 - 1) size small in
    let one = pow-zero 2 in
    let k_pos : k ≢ 0 = λ h. let same : 2 ^ k ≡ 2 ^ 0 = ap (λ z. 2 ^ z) h in omega arith in
    let e : slot_from 64 (2 ^ 32 - 1) size ≡ k - 1 = runs ∙ (omega arith) in
    let k_suc : k - 1 + 1 ≡ k = omega arith in
    let k_suc' : suc (k - 1) ≡ k = omega arith in
    let double : 2 ^ k ≡ 2 ^ (k - 1) * 2 = ap (λ z. 2 ^ z) (sym k_suc') ∙ pow-suc 2 (k - 1) in
    let bound = above some_size in
    rw (memory_chunk_slot, e, k_suc) (omega arith, below, omega arith)

-- The search over the slots: it finds the first slot from `n` on with a free chunk, and fails exactly
-- where there is none.
pub find_slot-first :
    (fuel : ℕ) (tag : PageTag) (n : ℕ)
    → n < 32
    → 32 - n < fuel
    → ((find_slot fuel tag n ≡ none) × ((j : ℕ) → n ≤ j → j < 32 → tag.free_chunk j ≡ 0))
      ⊎ ((found : ℕ) × (find_slot fuel tag n ≡ some found)
          × (n ≤ found)
          × (found < 32)
          × (tag.free_chunk found ≢ 0)
          × ((j : ℕ) → n ≤ j → j < found → tag.free_chunk j ≡ 0))
unfolding find_slot
find_slot-first zero tag n lt enough = absurd (omega arith)
find_slot-first (suc fuel) tag n lt enough = elim (Bool-cases (tag.free_chunk n == 0)) [
  | inr here ↦
      rw here (inr (n, refl, omega arith, lt, ground arith, (λ j h k. absurd (omega arith))))
  | inl empty ↦
      let nothing : tag.free_chunk n ≡ 0 = ground arith in
      let at : (j : ℕ) → n ≤ j → j < n + 1 → tag.free_chunk j ≡ 0 =
        λ j h k. let e : j ≡ n = omega arith in ap tag.free_chunk e ∙ nothing in
      let next : u32 (n + 1) ≡ n + 1 = omega arith in
      elim (Bool-cases (past_slots (n + 1))) [
        | inl over ↦ rw (empty, next, over) (inl (refl, (λ j h k. at j h (ground arith))))
        | inr more ↦ elim (find_slot-first fuel tag (n + 1) (ground arith) (ground arith)) [
          | inl (runs, none_there) ↦
              rw (empty, next, more)
                (inl (
                  runs,
                  (λ j h k. elim (Bool-cases (leb j n)) [
                    | inl here ↦ at j h (ground arith)
                    | inr later ↦ none_there j (ground arith) k
                  ]),
                ))
          | inr (found, runs, le, lt', there, before) ↦
              rw (empty, next, more)
                (inr (
                  found,
                  runs,
                  omega arith,
                  lt',
                  there,
                  (λ j h k. elim (Bool-cases (leb j n)) [
                    | inl here ↦ at j h (ground arith)
                    | inr later ↦ before j (ground arith) k
                  ]),
                ))
        ]
      ]
]
