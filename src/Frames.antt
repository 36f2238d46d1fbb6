-- ===== src/Frames.antt =====
-- The page frame allocator of kernel/arch/x86_64/mm/pagemanager.c: the bitmap `frame_map`,
-- `alloc_pages` and `free_pages`. An `unsigned int` index is cut to 32 bits where the code
-- computes one, and addresses to 64 bits. Memory outside the bitmap is a function from
-- addresses to bytes.
pub mod Bitmap
pub mod Alloc
pub mod Free
pub mod Init
mod Tests
use mathlib.Core.Option
use swallow_os.Prelude.{
  ℕ, zero, suc, ◌+◌, ◌-◌, ◌*◌, ◌/◌, ◌%◌, ◌^◌, bit_and, bit_or, Bool, true, false, ◌&&◌, ◌||◌, ltb,
  leb, ◌==◌, if◌then◌else◌, update, Option, none, some,
}
use swallow_os.Prelude.Words.{u32, u64, sub64, higher_half_offset}

-- `frame_map`: the 64-bit words from the pointer on.
abbrev pub FrameMap : Type 0
FrameMap = ℕ → ℕ

-- `struct page_alloc`
pub record PageAlloc : Type 0 where
  pub page : ℕ
  pub npages : ℕ

abbrev pub no_pages : PageAlloc
no_pages = record { page = 0; npages = 0 }

-- The globals of pagemanager.c, and the memory.
pub record Frames : Type 0 where
  pub frame_map : FrameMap
  pub npages : ℕ
  pub startframe : ℕ
  pub mem : ℕ → ℕ

abbrev pub page_size : ℕ
page_size = 4096

unfoldable pub get_frame_map : FrameMap → ℕ → ℕ
get_frame_map m index = if bit_and (m (index / 64)) (2 ^ (index % 64)) == 0 then 0 else 1

unfoldable pub set_frame_map : FrameMap → ℕ → ℕ → FrameMap
set_frame_map m index val =
    if ltb 0 val
    then update m (index / 64) (bit_or (m (index / 64)) (2 ^ (index % 64)))
    else update m (index / 64) (bit_and (m (index / 64)) (2 ^ 64 - 1 - 2 ^ (index % 64)))

-- The loops of `alloc_pages` and `free_pages` that mark `left` frames from `i` on.
unfoldable pub set_frames : FrameMap → ℕ → ℕ → ℕ → FrameMap
set_frames m i zero val = m
set_frames m i (suc left) val = set_frames (set_frame_map m i val) (u32 (i + 1)) left val

-- `memset`
unfoldable pub fill : (ℕ → ℕ) → ℕ → ℕ → ℕ → ℕ → ℕ
fill mem p n v a = if leb p a && ltb a (p + n) then v else mem a

-- The loop of `check_continuous_free_page`, over the frames `start + i` with `left` to go.
unfoldable pub all_free : FrameMap → ℕ → ℕ → ℕ → Bool
all_free m start i zero = true
all_free m start i (suc left) =
    let rest = all_free m start (i + 1) left in
    if get_frame_map m (u32 (start + i)) == 0 then rest else false

-- `true` is the return value 0, `false` is -1.
unfoldable pub check_continuous_free_page : Frames → ℕ → ℕ → Bool
unfolding all_free
check_continuous_free_page s start count =
    if leb s.npages (start + count) then false else all_free s.frame_map start 0 count

-- The frames from `i` on are marked, and the first page is cleared. `i * PAGE_SIZE` is a product
-- of `unsigned int`.
unfoldable pub claim : Frames → ℕ → ℕ → Frames × PageAlloc
unfolding set_frames fill
claim s i count =
    let page = u64 (s.startframe + u32 (i * page_size)) in
    (
      record s { frame_map = set_frames s.frame_map i count 1; mem = fill s.mem page page_size 0 },
      record { page = page; npages = count },
    )

-- The search of `alloc_pages`, `left` candidates to go.
unfoldable pub alloc_from : Frames → ℕ → ℕ → ℕ → Frames × PageAlloc
alloc_from s count zero i = (s, no_pages)
alloc_from s count (suc left) i =
    let rest = alloc_from s count left (u32 (i + 1)) in
    if check_continuous_free_page s i count then claim s i count else rest

unfoldable pub alloc_pages : Frames → ℕ → Frames × PageAlloc
unfolding alloc_from
alloc_pages s count =
    if leb s.npages count || count == 0
    then (s, no_pages)
    else alloc_from s count (s.npages - count + 1) 0

-- `(pa->page - startframe) / PAGE_SIZE`: the difference of two `uint64_t *` counts words of eight
-- bytes, is signed, and is cut to an `unsigned int`.
unfoldable pub frame_index : Frames → ℕ → ℕ
frame_index s page =
    if leb s.startframe page
    then u32 ((page - s.startframe) / 8 / page_size)
    else u32 (2 ^ 32 - u32 ((s.startframe - page) / 8 / page_size))

-- The loop runs `npages` rounds as long as `start + npages` stays below 2 ^ 32.
unfoldable pub free_pages : Frames → PageAlloc → Frames
unfolding frame_index fill set_frames
free_pages s pa = if pa.npages == 0 then s else record s {
  frame_map = set_frames s.frame_map (frame_index s pa.page) pa.npages 0;
  mem = fill s.mem pa.page (pa.npages * page_size) 0;
}

-- `while (startframe + PAGE_SIZE * npages > limit) npages--;`: the sum moves a `uint64_t *` and
-- counts in words. `none` is the loop that goes on below zero.
unfoldable pub shrink : ℕ → ℕ → ℕ → Option ℕ
shrink start limit zero = if ltb limit (u64 (start + 8 * (page_size * 0))) then none else some 0
shrink start limit (suc n) =
    let rest = shrink start limit n in
    if ltb limit (u64 (start + 8 * (page_size * suc n))) then rest else some (suc n)

-- `startframe` behind the bitmap, rounded up to a page.
unfoldable pub first_frame : ℕ → ℕ → ℕ
first_frame map_at n =
    let start = u64 (map_at + 8 * (n / 64)) in
    if start % page_size == 0 then start else u64 ((start / page_size + 1) * page_size)

-- The block `if (!frame_map)` of `kalloc_frame_init`, which its first call runs; the call of
-- `remap_lower_kernel_range` behind it is not modelled. `kernel_end` is the address of `_kernel_end`,
-- `ram_end` what `init_ram` found, `map_at` the address of the bitmap.
unfoldable pub init_frame_map : ℕ → ℕ → Frames → Option Frames
unfolding shrink first_frame
init_frame_map kernel_end ram_end s =
    let map_at = u64 (kernel_end + 8) in
    let top = u64 (ram_end + higher_half_offset) in
    let guess = sub64 top map_at / (page_size + 1) in
    let start = first_frame map_at guess in
    Option.map
      (λ n. record s {
        frame_map = λ w. if ltb (map_at + 8 * w) start then 0 else s.frame_map w;
        npages = n;
        startframe = start;
      })
      (shrink start (sub64 top page_size) guess)
