-- ===== src/Frames/Bitmap.antt =====
-- The bitmap behaves as an array of flags.
use native.Mathlib.Nat.{one-le-pow, pow-le-pow_right}
use swallow_os.Prelude.{
  ℕ, zero, suc, ◌+◌, ◌-◌, ◌*◌, ◌/◌, ◌%◌, ◌^◌, ◌≤◌, ◌<◌, ◌≡◌, ap, ◌&&◌, arith, ltb, leb, ◌==◌,
  if◌then◌else◌, inl, inr, Bool-cases, ==_iff, bit_and, bit_or,
}
use swallow_os.Prelude.Words.{u32}
use swallow_os.Prelude.Bits.{
  bit, bit-le-one, bit-bit_and, bit-bit_or, bit-pow, bit-complement, bit_and-pow,
}
use swallow_os.Frames.{FrameMap, get_frame_map, set_frame_map, set_frames}

pub get_frame_map-bit : (m : FrameMap) (i : ℕ) → get_frame_map m i ≡ bit (i % 64) (m (i / 64))
unfolding get_frame_map
get_frame_map-bit m i =
    rw (bit_and-pow (i % 64) (m (i / 64)))
      (flag (bit (i % 64) (m (i / 64))) (bit-le-one (i % 64) (m (i / 64))))
  where
    flag : (b : ℕ) → b ≤ 1 → (if b * 2 ^ (i % 64) == 0 then 0 else 1) ≡ b
    flag zero h = ground arith
    flag (suc zero) h = ground (arith, one-le-pow (i % 64) 2)
    flag (suc (suc b)) h = absurd (omega arith)

pow-lt : (k : ℕ) → k < 64 → 2 ^ k < 2 ^ 64
pow-lt k h =
    let le : 2 ^ k ≤ 2 ^ 63 = pow-le-pow_right (omega arith) {i = k} {j = 63} (omega arith) in
    omega arith

bit-set : (w k l : ℕ) → bit l (bit_or w (2 ^ k)) ≡ (if k == l then 1 else bit l w)
bit-set w k l = ground (arith, bit-bit_or l w (2 ^ k), bit-pow l k, bit-le-one l w)

bit-clear :
    (w k l : ℕ)
    → k < 64
    → l < 64
    → bit l (bit_and w (2 ^ 64 - 1 - 2 ^ k)) ≡ (if k == l then 0 else bit l w)
bit-clear w k l hk hl = ground (
  arith,
  bit-bit_and l w (2 ^ 64 - 1 - 2 ^ k),
  bit-complement 64 l (2 ^ k) (pow-lt k hk) hl,
  bit-pow l k,
  bit-le-one l w,
)

-- Writing one flag: that flag has the new value, and no other changes.
pub get_frame_map-set_frame_map :
    (m : FrameMap) (i v j : ℕ)
    → get_frame_map (set_frame_map m i v) j
      ≡ (if i == j then (if ltb 0 v then 1 else 0) else get_frame_map m j)
unfolding set_frame_map
get_frame_map-set_frame_map m i v j = elim (Bool-cases (i / 64 == j / 64)) [
  | inl same ↦ ground (
    arith,
    get_frame_map-bit (set_frame_map m i v) j,
    get_frame_map-bit m j,
    ap (λ (t : ℕ). bit (j % 64) (m t)) ((==_iff (i / 64) (j / 64)).0 same),
    bit-set (m (i / 64)) (i % 64) (j % 64),
    bit-clear (m (i / 64)) (i % 64) (j % 64) (omega arith) (omega arith),
  )
  | inr other ↦ ground (arith, get_frame_map-bit (set_frame_map m i v) j, get_frame_map-bit m j)
]

-- Writing a run of flags.
pub get_frame_map-set_frames :
    (n i v j : ℕ) (m : FrameMap)
    → i + n < 2 ^ 32
    → get_frame_map (set_frames m i n v) j
      ≡ (if leb i j && ltb j (i + n) then (if ltb 0 v then 1 else 0) else get_frame_map m j)
unfolding set_frames
get_frame_map-set_frames zero i v j m h = ground arith
get_frame_map-set_frames (suc n) i v j m h =
    let e : u32 (i + 1) ≡ i + 1 = omega arith in
    rw e (
      ground (
        arith,
        get_frame_map-set_frames n (i + 1) v j (set_frame_map m i v) (omega arith),
        get_frame_map-set_frame_map m i v j,
      ))

pub get_frame_map-le-one : (m : FrameMap) (i : ℕ) → get_frame_map m i ≤ 1
unfolding get_frame_map
get_frame_map-le-one m i = ground arith
