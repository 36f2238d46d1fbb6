-- ===== src/Malloc/Frees.antt =====
-- Freeing a chunk between two used ones.
use swallow_os.Prelude.{
  ℕ, zero, suc, ◌+◌, ◌≡◌, ◌≢◌, ◌<◌, refl, ◌∙◌, ap, Bool, true, false, ◌==◌, ==_refl, if◌then◌else◌,
  update, List, [], ◌∷◌, length, some, arith, Bool-cases, inl, inr,
}
use swallow_os.Prelude.Words.{sub64}
use swallow_os.Links.{Links, init_list_head, list_add_tail}
use swallow_os.Links.Path.{has, IsPath, IsPath-frame}
use swallow_os.Frames.{no_pages}
use swallow_os.Sched.State.{Sched}
use swallow_os.Sched.{lock_scheduler, unlock_scheduler}
use swallow_os.Malloc.{
  Heap, PageTag, with_tag, free_node, of_free_node, memory_chunk_size, memory_chunk_slot, join_slot,
}
use swallow_os.Malloc.Free.{push_free, merge_next, merge_prev, need_free_page, release, kfree}

-- No chunk of the list is used.
abbrev pub none_used : (ℕ → ℕ) → List ℕ → Bool
none_used used [] = true
none_used used (x ∷ xs) = if used x == 0 then none_used used xs else false

-- The loop over the chunks from `p` to the last one.
need_free_page-some :
    (fuel : ℕ) (h : Heap) (p : ℕ) (xs : List ℕ) (last : ℕ)
    → length xs + 1 < fuel
    → IsPath h.links p xs last
    → has last (p ∷ xs) ≡ false
    → need_free_page fuel h p last ≡ some (none_used h.used (p ∷ xs))
unfolding need_free_page
need_free_page-some zero h p xs last enough path apart = absurd (omega arith)
need_free_page-some (suc zero) h p xs last enough path apart = absurd (omega arith)
need_free_page-some (suc (suc fuel)) h p [] last enough path apart = ground (arith, path.0)
need_free_page-some (suc (suc fuel)) h p (x ∷ xs) last enough path apart =
    let rest = need_free_page-some (suc fuel) h x xs last (omega arith) path.2 (ground arith) in
    ground (arith, rest, path.0)

module _ (h : Heap) (i n ck : ℕ) where
  -- Joining a slot changes the pointers of two or three nodes.
  join_slot-links :
      (m : ℕ)
      → (m == free_node ck) ≡ false
      → ((h.mm_pages i).free_chunk n ≢ 0
          → ((m == free_node ((h.mm_pages i).free_chunk n)) ≡ false)
            × ((m == h.links.prev (free_node ((h.mm_pages i).free_chunk n))) ≡ false))
      → ((join_slot h i n ck).links.next m ≡ h.links.next m)
        × ((join_slot h i n ck).links.prev m ≡ h.links.prev m)
  unfolding join_slot init_list_head list_add_tail
  join_slot-links m a b = ground (arith, b)

  join_slot-tag :
      (j : ℕ)
      → let tag = (join_slot h i n ck).mm_pages j in
        (tag.mem_free ≡ (h.mm_pages j).mem_free)
        × (tag.mem_used ≡ (h.mm_pages j).mem_used)
        × (tag.mem_meta ≡ (h.mm_pages j).mem_meta)
        × (tag.pa ≡ (h.mm_pages j).pa)
        × (tag.first ≡ (h.mm_pages j).first)
        × (tag.last ≡ (h.mm_pages j).last)
  unfolding join_slot
  join_slot-tag j = ground arith

  join_slot-used : (join_slot h i n ck).used ≡ h.used
  unfolding join_slot
  join_slot-used = ground arith

module _ (l : Links) (x m : ℕ) (other : (m == x) ≡ false) where
  init_list_head-other :
      ((init_list_head l x).next m ≡ l.next m) × ((init_list_head l x).prev m ≡ l.prev m)
  unfolding init_list_head
  init_list_head-other = ground arith

  init_list_head-apart :
      (y : ℕ) → (m == l.prev y) ≡ false → (m == (init_list_head l x).prev y) ≡ false
  unfolding init_list_head
  init_list_head-apart y h = ground arith

module _ (h : Heap) (ck : ℕ) where
  -- The page tag of a chunk, and the heap once the chunk left the account of used bytes.
  abbrev pub tag_of : PageTag
  tag_of = h.mm_pages (h.page_tag_index ck)

  abbrev unused : Heap
  unused =
      with_tag h (h.page_tag_index ck)
        (record tag_of { mem_used = sub64 tag_of.mem_used (memory_chunk_size h ck) })

  abbrev marked : Heap
  marked = record unused {
    used = update h.used ck 0;
    links = init_list_head h.links (free_node ck);
  }

  -- The slot that a chunk joins.
  abbrev pub slot_of : ℕ
  slot_of = memory_chunk_slot (memory_chunk_size h ck)

  abbrev joined : Heap
  joined =
      join_slot marked (h.page_tag_index ck) (memory_chunk_slot (memory_chunk_size marked ck)) ck

  merges :
      h.used (h.links.next ck) ≢ 0
      → h.used (h.links.prev ck) ≢ 0
      → merge_prev
          (merge_next unused (h.page_tag_index ck) (h.links.next ck))
          (h.page_tag_index ck)
          ck
          (h.links.prev ck)
        ≡ joined
  unfolding merge_prev merge_next push_free
  merges next_used prev_used =
      let a : (h.used (h.links.next ck) == 0) ≡ false = ground arith in
      let b : (h.used (h.links.prev ck) == 0) ≡ false = ground arith in
      rw (merge_prev, merge_next, a, b) refl

-- The nodes of a page's chunks are none of those of its free chunks' slots, or of `ck`.
pub record Apart (h : Heap) (ck : ℕ) (nodes : List ℕ) : Type 0 where
  pub own : (m : ℕ) → has m nodes ≡ true → (m == free_node ck) ≡ false
  pub heads :
      (m n : ℕ)
      → has m nodes ≡ true
      → (tag_of h ck).free_chunk n ≢ 0
      → (m == free_node ((tag_of h ck).free_chunk n)) ≡ false
  pub tails :
      (m n : ℕ)
      → has m nodes ≡ true
      → (tag_of h ck).free_chunk n ≢ 0
      → (m == h.links.prev (free_node ((tag_of h ck).free_chunk n))) ≡ false

module _ (h : Heap) (ck : ℕ) (nodes : List ℕ) (apart : Apart h ck nodes) where
  joined-links :
      (m : ℕ)
      → has m nodes ≡ true
      → ((joined h ck).links.next m ≡ h.links.next m)
        × ((joined h ck).links.prev m ≡ h.links.prev m)
  joined-links m inside =
      let i : ℕ = h.page_tag_index ck in
      let n : ℕ = memory_chunk_slot (memory_chunk_size (marked h ck) ck) in
      let own : (m == free_node ck) ≡ false = apart.own m inside in
      let (next, prev) = join_slot-links (marked h ck) i n ck m own (
        rw (==_refl i) (λ some_chunk. (
          apart.heads m n inside some_chunk,
          init_list_head-apart h.links (free_node ck) m own (free_node ((tag_of h ck).free_chunk n))
              (apart.tails m n inside some_chunk),
        ))) in
      let (next', prev') = init_list_head-other h.links (free_node ck) m own in
      (next ∙ next', prev ∙ prev')

  joined-used : (joined h ck).used ≡ update h.used ck 0
  joined-used =
      join_slot-used (marked h ck) (h.page_tag_index ck)
        (memory_chunk_slot (memory_chunk_size (marked h ck) ck)) ck

joined-tag :
    (h : Heap) (ck : ℕ)
    → let tag = (joined h ck).mm_pages (h.page_tag_index ck) in
      (tag.mem_free ≡ (tag_of h ck).mem_free)
      × (tag.mem_used ≡ sub64 (tag_of h ck).mem_used (memory_chunk_size h ck))
      × (tag.mem_meta ≡ (tag_of h ck).mem_meta)
      × (tag.pa ≡ (tag_of h ck).pa)
      × (tag.first ≡ (tag_of h ck).first)
      × (tag.last ≡ (tag_of h ck).last)
joined-tag h ck =
    let i : ℕ = h.page_tag_index ck in
    rw (==_refl i) at
      (join_slot-tag (marked h ck) i (memory_chunk_slot (memory_chunk_size (marked h ck) ck)) ck i)

release-tag :
    (h : Heap) (i : ℕ)
    → let tag = (release h i).mm_pages i in
      (tag.mem_free ≡ (h.mm_pages i).mem_free)
      × (tag.mem_used ≡ (h.mm_pages i).mem_used)
      × (tag.mem_meta ≡ (h.mm_pages i).mem_meta)
      × (tag.pa ≡ no_pages)
unfolding release
release-tag h i = rw (==_refl i) (refl, refl, refl, refl)

-- Freeing a chunk between two used ones, in a page whose chunks form a path from the first to the last
-- one and share no node with the free chunks of the slots, returns, with more rounds than there are
-- chunks. The account of used bytes goes down by the whole chunk, header included, and those of free
-- bytes and of headers stay as they were. The pages go back exactly where no other chunk is used.
pub kfree-accounts :
    (fuel mem : ℕ) (h : Heap) (s : Sched) (x : ℕ) (xs : List ℕ)
    → let ck = of_free_node mem in
      let tag = tag_of h ck in
      h.used (h.links.next ck) ≢ 0
      → h.used (h.links.prev ck) ≢ 0
      → IsPath h.links tag.first (x ∷ xs) tag.last
      → has tag.last (x ∷ xs) ≡ false
      → Apart h ck (tag.first ∷ tag.last ∷ x ∷ xs)
      → length xs + 1 < fuel
      → (freed : Heap) × (kfree fuel mem h s ≡ some (freed, unlock_scheduler (lock_scheduler s)))
        × (let tag' = freed.mm_pages (h.page_tag_index ck) in
            (tag'.mem_free ≡ tag.mem_free)
            × (tag'.mem_used ≡ sub64 tag.mem_used (memory_chunk_size h ck))
            × (tag'.mem_meta ≡ tag.mem_meta)
            × (tag'.pa ≡ (if none_used (update h.used ck 0) (x ∷ xs) then no_pages else tag.pa)))
unfolding kfree
kfree-accounts fuel mem h s x xs next_used prev_used path apart_last apart enough =
    let ck : ℕ = of_free_node mem in
    let tag : PageTag = tag_of h ck in
    let merged = merges h ck next_used prev_used in
    let same = joined-links h ck (tag.first ∷ tag.last ∷ x ∷ xs) apart in
    let start : (joined h ck).links.next tag.first ≡ x =
      (same tag.first (ground arith)).0 ∙ path.0 in
    let inner : IsPath (joined h ck).links x xs tag.last =
      IsPath-frame h.links (joined h ck).links x xs tag.last (λ m k. (same m (ground arith)).0)
        (λ m k. (same m (ground arith)).1) path.2 in
    let loop : need_free_page fuel (joined h ck) x tag.last
        ≡ some (none_used (update h.used ck 0) (x ∷ xs)) =
      need_free_page-some fuel (joined h ck) x xs tag.last enough inner apart_last
      ∙ ap (λ u. some (none_used u (x ∷ xs)))
          (joined-used h ck (tag.first ∷ tag.last ∷ x ∷ xs) apart) in
    let (free, used, meta, pa, first, last) = joined-tag h ck in
    elim (Bool-cases (none_used (update h.used ck 0) (x ∷ xs))) [
      | inl all_free ↦ (
        release (joined h ck) (h.page_tag_index ck),
        rw (kfree, merged, start, loop, all_free)
            (ap (λ m. some (release m (h.page_tag_index ck), unlock_scheduler (lock_scheduler s)))
              merged),
        rw all_free (
            let (free', used', meta', pa') = release-tag (joined h ck) (h.page_tag_index ck) in
            (free' ∙ free, used' ∙ used, meta' ∙ meta, pa')),
      )
      | inr some_used ↦ (
        joined h ck,
        rw (kfree, merged, start, loop, some_used)
            (ap (λ m. some (m, unlock_scheduler (lock_scheduler s))) merged),
        (free, used, meta, rw some_used pa),
      )
    ]
