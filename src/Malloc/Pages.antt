-- ===== src/Malloc/Pages.antt =====
-- A page as it is first divided.
use swallow_os.Prelude.{
  ℕ, ◌+◌, ◌-◌, ◌*◌, ◌%◌, ◌^◌, ◌≡◌, ◌≤◌, ◌<◌, refl, false, leb, ==_refl, update, [], ◌∷◌, arith,
}
use swallow_os.Prelude.Words.{u64, sub64}
use swallow_os.Links.{Links, init_list_head, list_add_tail}
use swallow_os.Links.Ring.{IsRing, list_add_tail-snoc}
use swallow_os.Frames.{PageAlloc}
use swallow_os.Malloc.{
  Heap, first_chunk, last_chunk, memory_chunk_init, memory_chunk_size, memory_chunk_slot,
  kmemory_page_init, divide,
}

-- A heap whose page tag `i` has its three chunks in a ring, the middle one free, in the slot of its
-- size, and the other two used; the bytes of the pages are free, used before, or headers.
pub record Divided (h : Heap) (i page bytes used : ℕ) : Type 0 where
  pub ring : IsRing h.links page ((page + 40) ∷ (page + bytes - 40) ∷ [])
  pub ends : ((h.mm_pages i).first ≡ page) × ((h.mm_pages i).last ≡ page + bytes - 40)
  pub marks : (h.used page ≡ 1) × (h.used (page + 40) ≡ 0) × (h.used (page + bytes - 40) ≡ 1)
  pub size : memory_chunk_size h (page + 40) ≡ bytes - 80
  pub slot : (h.mm_pages i).free_chunk (memory_chunk_slot (bytes - 80)) ≡ page + 40
  pub sum : (h.mm_pages i).mem_free + (h.mm_pages i).mem_meta ≡ bytes
  pub before : (h.mm_pages i).mem_used ≡ used

-- Three chunks, one after another, in a heap.
abbrev three_chunks : Heap → ℕ → ℕ → ℕ → Heap
three_chunks h f s t = memory_chunk_init (memory_chunk_init (memory_chunk_init h f) s) t

module _ (h : Heap) (f s t : ℕ) (near : f + 40 ≡ s) (far : s + 40 ≤ t)
    (fits : t + 40 < 2 ^ 64) where
  alone : IsRing (three_chunks h f s t).links f []
  unfolding memory_chunk_init init_list_head
  alone = ground arith

  abbrev linked : Links
  linked = list_add_tail (list_add_tail (three_chunks h f s t).links s f) t f

  linked-IsRing : IsRing linked f (s ∷ t ∷ [])
  linked-IsRing =
      (list_add_tail-snoc (list_add_tail (three_chunks h f s t).links s f) f (s ∷ [])
        (list_add_tail-snoc (three_chunks h f s t).links f [] alone s (ground arith)).0 t
        (ground arith)).0

  pages_kept : (three_chunks h f s t).mm_pages ≡ h.mm_pages
  unfolding memory_chunk_init
  pages_kept = refl

  second_unused : (three_chunks h f s t).used s ≡ 0
  unfolding memory_chunk_init
  second_unused = ground arith

  chained : Heap
  chained = record (three_chunks h f s t) {
    links = linked;
    used = update (update (three_chunks h f s t).used f 1) t 1;
  }

  divide-Divided :
      (i bytes : ℕ)
      → f + bytes ≡ t + 40
      → Divided (divide h i f s t) i f bytes (h.mm_pages i).mem_used
  unfolding divide memory_chunk_size
  divide-Divided i bytes whole =
      let second : f + 40 ≡ s = near in
      let third : f + bytes - 40 ≡ t = omega arith in
      let len : sub64 t s ≡ bytes - 80 = omega arith in
      let next : linked.next s ≡ t = linked-IsRing.0.2.0 in
      record {
        ring = rw (second, third) linked-IsRing;
        ends = rw (==_refl i, third) (refl, refl);
        marks = rw (second, third) (ground (arith, second_unused));
        size = rw (second, next) len;
        slot = rw (second, ==_refl i, next, len, ==_refl (memory_chunk_slot (bytes - 80))) refl;
        sum = rw (==_refl i, next, len) (omega arith);
        before = rw (==_refl i) refl;
      }

-- Pages that are aligned and end below 2 ^ 64 are divided into a first and a last chunk, both used, and
-- a free one between them, which form a ring. The free one stands in the slot of its size, and the bytes
-- that are free and those of the headers are all there are.
pub kmemory_page_init-Divided :
    (h : Heap) (i : ℕ)
    → let pa = (h.mm_pages i).pa in
      i < 1024
      → 1 ≤ pa.npages
      → pa.page % 4096 ≡ 0
      → pa.page + pa.npages * 4096 < 2 ^ 64
      → Divided (kmemory_page_init i h) i pa.page (pa.npages * 4096) (h.mm_pages i).mem_used
unfolding kmemory_page_init
kmemory_page_init-Divided h i lt some_page aligned ends =
    let pa : PageAlloc = (h.mm_pages i).pa in
    let first : first_chunk pa ≡ pa.page = omega arith in
    let last : last_chunk pa ≡ pa.page + pa.npages * 4096 - 40 = omega arith in
    let ok : leb 1024 i ≡ false = ground arith in
    let second : u64 (first_chunk pa + 40) ≡ pa.page + 40 = omega arith in
    rw (kmemory_page_init, ok, second, first, last)
      (divide-Divided h pa.page (pa.page + 40) (pa.page + pa.npages * 4096 - 40) refl (omega arith)
        (omega arith) i (pa.npages * 4096) (omega arith))
