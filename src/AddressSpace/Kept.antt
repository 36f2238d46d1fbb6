-- ===== src/AddressSpace/Kept.antt =====
-- What is in use stays as it is while pages are given out and written.
use swallow_os.Prelude.{
  ℕ, ◌+◌, ◌*◌, ◌%◌, ◌^◌, ◌≡◌, ◌≤◌, ◌<◌, refl, ◌∙◌, ◌==◌, false, none, some, arith, inl, inr, ◌⊎◌,
}
use swallow_os.Prelude.Words.{u64, sub64, higher_half_offset}
use swallow_os.Bytes.{memcpy}
use swallow_os.Bytes.Copies.{memcpy-outside}
use swallow_os.Frames.{Frames, alloc_pages, get_frame_map, page_size}
use swallow_os.Frames.Alloc.{IsValid, Claimed, FreeRun, found, full, alloc_pages-FirstFit}
use swallow_os.Frames.Bitmap.{get_frame_map-le-one}
use swallow_os.PageTables.{table_at, write64, entry_at}
use swallow_os.AddressSpace.{copy_table, keep_entry}

-- A byte in no frame that is free.
abbrev pub InUse : Frames → ℕ → Type 0
InUse s a =
    (k : ℕ)
    → k + 1 < s.npages
    → get_frame_map s.frame_map k ≡ 0
    → (a < s.startframe + k * 4096) ⊎ (s.startframe + k * 4096 + 4096 ≤ a)

-- What is in use stays as it is: the frames that are marked, and the bytes outside the free ones.
pub record Kept (s s' : Frames) : Type 0 where
  pub same_npages : s'.npages ≡ s.npages
  pub same_start : s'.startframe ≡ s.startframe
  pub marked : (k : ℕ) → get_frame_map s.frame_map k ≡ 1 → get_frame_map s'.frame_map k ≡ 1
  pub bytes : (a : ℕ) → InUse s a → s'.mem a ≡ s.mem a

-- The page of a frame that was free.
abbrev pub Fresh : Frames → ℕ → Type 0
Fresh s page =
    (k : ℕ) × (k + 1 < s.npages)
    × (get_frame_map s.frame_map k ≡ 0)
    × (page ≡ s.startframe + k * 4096)

-- No frame but the last one is free.
abbrev pub NoFrames : Frames → Type 0
NoFrames s = (k : ℕ) → k + 1 < s.npages → ¬ (FreeRun s k 1)

pub Kept-refl : (s : Frames) → Kept s s
Kept-refl s = record {
  same_npages = refl;
  same_start = refl;
  marked = λ k h. h;
  bytes = λ a h. refl;
}

pub Kept-IsValid : {s s' : Frames} → IsValid s → Kept s s' → IsValid s'
Kept-IsValid v kept = ground (arith, v.few, v.fits, kept.same_npages, kept.same_start)

module _ {s : Frames} (valid : IsValid s) where
  -- A write into a page that was free.
  pub Kept-write :
      {s' : Frames} (mem : ℕ → ℕ) (page : ℕ)
      → Kept s s'
      → Fresh s page
      → ((a : ℕ) → ((a < page) ⊎ (page + 4096 ≤ a)) → mem a ≡ s'.mem a)
      → Kept s (record s' { mem = mem })
  Kept-write mem page kept (k, lt, free, at) outside = record {
    same_npages = kept.same_npages;
    same_start = kept.same_start;
    marked = kept.marked;
    bytes = λ a h. outside a (omega (arith, at, h k lt free)) ∙ kept.bytes a h;
  }

  pub write64-in_page :
      (mem : ℕ → ℕ) (page index v a : ℕ)
      → Fresh s page
      → index < 512
      → (a < page) ⊎ (page + 4096 ≤ a)
      → write64 mem (u64 (page + 8 * index)) v a ≡ mem a
  unfolding write64
  write64-in_page mem page index v a (k, lt, free, at) small outside = ground (arith, valid.fits)

  -- A page given out is one that was free.
  pub Kept-Claimed :
      {s' t : Frames} {k : ℕ}
      → Kept s s'
      → Claimed s' 1 k t (alloc_pages s' 1).1
      → Kept s t × Fresh s (alloc_pages s' 1).1.page
  Kept-Claimed {s'} {t} {k} kept c =
      let free : get_frame_map s.frame_map k ≡ 0 = ground (
        arith,
        get_frame_map-le-one s.frame_map k,
        kept.marked k,
        c.free k (omega arith) (omega arith),
      ) in
      let lt : k + 1 < s.npages = omega (arith, c.in_range, kept.same_npages) in
      let page = (alloc_pages s' 1).1.page in
      let at : page ≡ s.startframe + k * 4096 = omega (arith, c.page, kept.same_start) in
      (
        record {
          same_npages = c.same_npages ∙ kept.same_npages;
          same_start = c.same_start ∙ kept.same_start;
          marked = λ j h. ground (arith, c.marked j, kept.marked j);
          bytes = λ a h.
              let apart : (a < page) ⊎ (page + 4096 ≤ a) = ground (arith, h k lt free) in
              ground (arith, c.cleared a, kept.bytes a h);
        },
        (k, lt, free, at),
      )

  -- A copy of a table or a page writes into pages that were free, and it fails where none is left.
  pub copy_table-Kept :
      (src dst index : ℕ) (s' : Frames)
      → Kept s s'
      → Fresh s dst
      → index < 512
      → ((copy_table src dst index s' ≡ none) × NoFrames s')
        ⊎ ((t : Frames) × (page : ℕ) × (from : ℕ) × (copy_table src dst index s'
              ≡ some (t, page, from))
            × Kept s t
            × Fresh s page)
  unfolding copy_table
  copy_table-Kept src dst index s' kept fresh small =
      elim (alloc_pages-FirstFit (Kept-IsValid valid kept) {n = 1} (omega arith)) [
        | full e none_free ↦ rw (copy_table, e) (inl (refl, λ j lt. none_free j (omega arith) lt))
        | found k le c first ↦
            let given : Frames = (alloc_pages s' 1).0 in
            let page : ℕ = (alloc_pages s' 1).1.page in
            let there : ((alloc_pages s' 1).1.npages == 0) ≡ false = ground (arith, c.npages) in
            let v : ℕ =
              u64 (entry_at given.mem src index % 2 ^ 3 + sub64 page higher_half_offset) in
            let mem : ℕ → ℕ = write64 given.mem (u64 (dst + 8 * index)) v in
            let from : ℕ = table_at (entry_at mem src index) in
            let (kept', fresh') = Kept-Claimed kept c in
            let written : Kept s (record given { mem = mem }) =
              Kept-write mem dst kept' fresh
                (λ a outside. write64-in_page given.mem dst index v a fresh small outside) in
            rw (copy_table, there)
              (inr (
                record given { mem = memcpy mem page from page_size },
                page,
                from,
                refl,
                Kept-write (memcpy mem page from page_size) page written fresh'
                    (λ a outside. memcpy-outside mem page from page_size a outside),
                fresh',
              ))
      ]

  pub keep_entry-Kept :
      (src dst index : ℕ) (s' : Frames)
      → Kept s s'
      → Fresh s dst
      → index < 512
      → Kept s (keep_entry src dst index s')
  unfolding keep_entry
  keep_entry-Kept src dst index s' kept fresh small =
      let v : ℕ = entry_at s'.mem src index in
      Kept-write (write64 s'.mem (u64 (dst + 8 * index)) v) dst kept fresh
        (λ a outside. write64-in_page s'.mem dst index v a fresh small outside)
