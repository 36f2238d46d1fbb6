-- ===== src/PageTables/LastLevel.antt =====
-- The last step of `do_mmap` completes the last level of the walk, and fills the page.
use swallow_os.Prelude.{
  ℕ, ◌+◌, ◌*◌, ◌%◌, ◌≡◌, ◌≤◌, ◌<◌, refl, ap, ◌∙◌, ◌==◌, true, false, List, [], ◌∷◌, some, arith,
  inl, inr, ◌⊎◌,
}
use swallow_os.Prelude.Words.{u64}
use swallow_os.Bytes.{memcpy}
use swallow_os.Bytes.Copies.{memcpy-outside}
use swallow_os.Frames.{Frames, fill, page_size}
use swallow_os.PageTables.{
  Area, Mm, page_addr, table_at, slot_in, entry_at, read64, content, map_page,
}
use swallow_os.PageTables.Entries.{bytes_value-same}
use swallow_os.PageTables.Faults.{Covers}
use swallow_os.PageTables.Walk.{Apart, InPlace, Room}
use swallow_os.PageTables.Levels.{
  IsReady, AllInUse, Step-refl, Level, entry_at-slot, table_at-page, fill_entry-Level,
}

read64-filled :
    (mem : ℕ → ℕ) (page src len b : ℕ)
    → len ≤ 4096
    → ((b + 8 ≤ page) ⊎ (page + 4096 ≤ b))
    → read64 (memcpy (fill mem page page_size 0) page src len) b ≡ read64 mem b
unfolding read64 fill
read64-filled mem page src len b le apart =
    bytes_value-same mem (memcpy (fill mem page page_size 0) page src len) b 8 (λ a lo hi.
      memcpy-outside (fill mem page page_size 0) page src len a (omega arith) ∙ ground arith)

-- No more than a page is copied for an address of the area.
content-le :
    (virtaddr : ℕ) (mm : Mm) (vma : Area)
    → Covers virtaddr vma
    → (content virtaddr mm vma).1 ≤ page_size
unfolding content
content-le virtaddr mm vma (lo, hi) = ground arith

module _ {s : Frames} (ready : IsReady s) (entry i : ℕ) (seen : List ℕ) (lt : i < 512)
    (all : AllInUse s seen) (room : Room s 0 1) where
  -- The last level is completed by `map_page`.
  pub map_page-Level :
      (virtaddr : ℕ) (mm : Mm) (vma : Area) (pml4 : ℕ)
      → Covers virtaddr vma
      → InPlace s (i ∷ []) entry seen
      → (s' : Frames) × (map_page virtaddr mm vma s pml4 (slot_in entry i) ≡ some s')
        × Level s s' entry i [] seen 0
  unfolding map_page
  map_page-Level virtaddr mm vma pml4 covers (used, apart, inr (leads, present, rest)) =
      let held : (page_addr (read64 s.mem (slot_in entry i)) == 0) ≡ false =
        ground (arith, leads, entry_at-slot s.mem entry i lt) in
      rw held (
        s,
        refl,
        record {
          step = Step-refl (table_at entry) ready;
          present = present;
          place = tt;
          room = tt;
        },
      )
  map_page-Level virtaddr mm vma pml4 covers (used, apart, inl zero_entry) =
      let empty : (page_addr (read64 s.mem (slot_in entry i)) == 0) ≡ true =
        ground (arith, zero_entry, entry_at-slot s.mem entry i lt) in
      let (t, k, e, f, level) = fill_entry-Level ready entry i [] seen 0 lt tt all room pml4 used in
      let page : ℕ = s.startframe + k * 4096 in
      let src : ℕ = (content virtaddr mm vma).0 in
      let len : ℕ = (content virtaddr mm vma).1 in
      let away : Apart (table_at entry) page =
        used k f.in_range (f.free k (omega arith) (omega arith)) in
      let same : entry_at (memcpy (fill t.mem page page_size 0) page src len) (table_at entry) i
          ≡ entry_at t.mem (table_at entry) i =
        read64-filled t.mem page src len (u64 (table_at entry + 8 * i))
          (content-le virtaddr mm vma covers) (omega (arith, table_at-page entry)) in
      rw (empty, e)
        (
          record t { mem = memcpy (fill t.mem page page_size 0) page src len },
          refl,
          record {
            step = record {
              ready = record {
                valid = record {
                  few = level.step.ready.valid.few;
                  fits = level.step.ready.valid.fits;
                };
                in_upper_half = level.step.ready.in_upper_half;
                aligned = level.step.ready.aligned;
              };
              in_use = level.step.in_use;
              words = λ p b h apart' lo hi.
                  read64-filled t.mem page src len b (content-le virtaddr mm vma covers)
                    (omega (arith, h k f.in_range (f.free k (omega arith) (omega arith))))
                  ∙ level.step.words p b h apart' lo hi;
            };
            present = ap (λ x. x % 2) same ∙ level.present;
            place = tt;
            room = tt;
          },
        )
