-- ===== src/Frames/Init.antt =====
-- The bitmap that the first call of `kalloc_frame_init` sets up: the frames lie in memory and apart
-- from it.
use swallow_os.Prelude.{
  ℕ, zero, suc, ◌+◌, ◌-◌, ◌*◌, ◌/◌, ◌%◌, ◌^◌, ◌≤◌, ◌<◌, ◌≡◌, arith, ltb, some, Bool-cases, inl, inr,
  if◌then◌else◌,
}
use swallow_os.Prelude.Words.{u64, sub64, higher_half_offset}
use swallow_os.Prelude.Bits.{zero-bit_and}
use swallow_os.Frames.{Frames, page_size, get_frame_map, shrink, first_frame, init_frame_map}
use swallow_os.Frames.Alloc.{IsValid}

shrink-fits :
    (start limit n : ℕ)
    → start ≤ limit
    → start + 8 * (page_size * n) < 2 ^ 64
    → (m : ℕ) × (shrink start limit n ≡ some m) × (m ≤ n) × (start + 8 * (page_size * m) ≤ limit)
unfolding shrink
shrink-fits start limit zero h fits = (0, ground arith, ground arith, ground arith)
shrink-fits start limit (suc n) h fits =
    let (m, e, le, inside) = shrink-fits start limit n h (omega arith) in
    elim (Bool-cases (ltb limit (u64 (start + 8 * (page_size * suc n))))) [
      | inl big ↦ (m, rw big e, omega arith, inside)
      | inr small ↦ (suc n, rw small, omega arith, ground arith)
    ]

first_frame_bounds :
    (map_at n : ℕ)
    → map_at + 8 * n + page_size < 2 ^ 64
    → (map_at + 8 * (n / 64) ≤ first_frame map_at n)
      × (first_frame map_at n < map_at + 8 * (n / 64) + page_size)
      × (first_frame map_at n % page_size ≡ 0)
unfolding first_frame
first_frame_bounds map_at n h = ground arith

abbrev laid_out : Frames → ℕ → ℕ → ℕ → Frames
laid_out s map_at start m = record s {
  frame_map = λ w. if ltb (map_at + 8 * w) start then 0 else s.frame_map w;
  npages = m;
  startframe = start;
}

cleared-free :
    (s : Frames) (map_at start m j : ℕ)
    → map_at + 8 * (j / 64) < start
    → get_frame_map (laid_out s map_at start m).frame_map j ≡ 0
unfolding get_frame_map
cleared-free s map_at start m j h = ground (arith, zero-bit_and (2 ^ (j % 64)))

-- What a kernel that ends at `kernel_end` has where the bitmap is set up, before the lower half is
-- mapped again.
pub record Laid (kernel_end ram_end : ℕ) (s : Frames) : Type 0 where
  pub valid : IsValid s
  pub aligned : s.startframe % page_size ≡ 0
  pub behind : kernel_end + 8 ≤ s.startframe
  pub covered : (j : ℕ) → j < s.npages → kernel_end + 8 + 8 * (j / 64) + 8 ≤ s.startframe
  pub inside : s.startframe + 8 * (page_size * s.npages) + page_size ≤ ram_end + higher_half_offset
  pub free : (j : ℕ) → j < s.npages → get_frame_map s.frame_map j ≡ 0

-- With the kernel in the upper half, at least 64 * 4097 bytes of memory behind it, and eight times
-- that memory still below 2 ^ 64, the block of `kalloc_frame_init` that sets up the bitmap ends,
-- and there, before `remap_lower_kernel_range` is called, the allocator is valid, its frames
-- start on a page, the words of their flags lie between the kernel and the first frame, eight
-- times their size and one page fit the memory, and every frame is free.
pub init_frame_map-Laid :
    (kernel_end ram_end : ℕ) (s : Frames)
    → ram_end + higher_half_offset < 2 ^ 64
    → kernel_end + 8 + 64 * 4097 ≤ ram_end + higher_half_offset
    → kernel_end + 8 * (ram_end + higher_half_offset - kernel_end) + 2 * page_size < 2 ^ 64
    → higher_half_offset ≤ kernel_end
    → (s' : Frames) × (init_frame_map kernel_end ram_end s ≡ some s') × Laid kernel_end ram_end s'
unfolding init_frame_map
init_frame_map-Laid kernel_end ram_end s no_wrap big small upper =
    let map_at : ℕ = kernel_end + 8 in
    let top : ℕ = ram_end + higher_half_offset in
    let guess : ℕ = (top - map_at) / 4097 in
    let start : ℕ = first_frame map_at guess in
    let (lo, hi, al) = first_frame_bounds map_at guess (omega arith) in
    let (m, e, le, fits) = shrink-fits start (top - page_size) guess (omega arith) (omega arith) in
    let e_map : u64 map_at ≡ map_at = omega arith in
    let e_top : u64 top ≡ top = omega arith in
    let e_guess : sub64 top map_at / (page_size + 1) ≡ guess = omega arith in
    let e_limit : sub64 top page_size ≡ top - page_size = omega arith in
    let s' : Frames = laid_out s map_at start m in
    (
      s',
      rw (e_map, e_top, e_guess, e_limit, e),
      record {
        valid = omega arith;
        aligned = al;
        behind = omega arith;
        covered = λ j lt. omega arith;
        inside = omega arith;
        free = λ j lt. cleared-free s map_at start m j (omega arith);
      },
    )
