-- ===== src/Frames/Free.antt =====
-- `free_pages`: which frames it gives back.
use swallow_os.Prelude.{
  ℕ, ◌+◌, ◌*◌, ◌/◌, ◌≤◌, ◌<◌, ◌≡◌, ◌≢◌, refl, ◌&&◌, arith, ltb, leb, ◌==◌, if◌then◌else◌, false,
}
use swallow_os.Frames.{Frames, PageAlloc, page_size, get_frame_map, frame_index, free_pages}
use swallow_os.Frames.Bitmap.{get_frame_map-set_frames}
use swallow_os.Frames.Alloc.{IsValid, Claimed}

module _ {s : Frames} (v : IsValid s) (pa : PageAlloc) where
  -- The difference of two word pointers is an eighth of that of the addresses: the page of frame
  -- `i` is taken for frame `i / 8`.
  pub frame_index-div :
      (i : ℕ)
      → i < s.npages
      → pa.page ≡ s.startframe + i * page_size
      → frame_index s pa.page ≡ i / 8
  unfolding frame_index
  frame_index-div i h e = rw e (ground (arith, v.few))

  -- Freeing `n ≢ 0` pages at the address of frame `i` clears the flags of the `n` frames from
  -- `i / 8` on and no other, and clears all `n` pages from that address on.
  pub free_pages-frames :
      (i : ℕ)
      → pa.npages ≢ 0
      → i + pa.npages < s.npages
      → pa.page ≡ s.startframe + i * page_size
      → ((j : ℕ)
          → get_frame_map (free_pages s pa).frame_map j ≡ (
              if leb (i / 8) j && ltb j (i / 8 + pa.npages)
              then 0
              else get_frame_map s.frame_map j))
        × ((a : ℕ)
            → (free_pages s pa).mem a
              ≡ (if leb pa.page a && ltb a (pa.page + pa.npages * page_size) then 0 else s.mem a))
  unfolding free_pages
  free_pages-frames i ne h e =
      let held : (pa.npages == 0) ≡ false = ground arith in
      rw (held, frame_index-div i (omega arith) e)
        (
          (λ j. get_frame_map-set_frames pa.npages (i / 8) 0 j s.frame_map (omega (arith, v.few))),
          (λ a. refl),
        )

pub Claimed-IsValid :
    {s s' : Frames} {n k : ℕ} {pa : PageAlloc} → IsValid s → Claimed s n k s' pa → IsValid s'
Claimed-IsValid v c = ground (arith, v.few, v.fits, c.same_npages, c.same_start)

module _ {s s' : Frames} {n k : ℕ} {pa : PageAlloc} (v : IsValid s) (c : Claimed s n k s' pa)
    (ne : n ≢ 0) where
  freed :
      (j : ℕ)
      → get_frame_map (free_pages s' pa).frame_map j
        ≡ (if leb (k / 8) j && ltb j (k / 8 + n) then 0 else get_frame_map s'.frame_map j)
  freed j = ground (
    arith,
    c.npages,
    (free_pages-frames (Claimed-IsValid v c) pa k (omega (arith, c.npages))
          (omega (arith, c.in_range, c.npages, c.same_npages))
          (omega (arith, c.page, c.same_start))).0
        j,
  )

  -- Freeing what was just allocated at frame 0 gives back exactly the frames that were taken.
  pub free_pages-alloc_first :
      k ≡ 0 → (j : ℕ) → get_frame_map (free_pages s' pa).frame_map j ≡ get_frame_map s.frame_map j
  free_pages-alloc_first e j = ground (arith, freed j, c.marked j, c.free j)

  -- A run of `n` frames at `k` with `k / 8 + n ≤ k` is not given back by `free_pages`: each of its
  -- frames is still marked, and the frames from `k / 8` on are marked free in its place.
  pub free_pages-leak :
      k / 8 + n ≤ k
      → ((j : ℕ) → k ≤ j → j < k + n → get_frame_map (free_pages s' pa).frame_map j ≡ 1)
        × ((j : ℕ) → k / 8 ≤ j → j < k / 8 + n → get_frame_map (free_pages s' pa).frame_map j ≡ 0)
  free_pages-leak h =
      ((λ j lo hi. ground (arith, freed j, c.marked j)), (λ j lo hi. ground (arith, freed j)))
