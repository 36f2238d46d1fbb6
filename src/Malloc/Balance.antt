-- ===== src/Malloc/Balance.antt =====
-- The accounts of a page: its bytes are free, used, or headers.
use swallow_os.Prelude.{
  ℕ, ◌+◌, ◌^◌, ◌≡◌, ◌<◌, refl, ◌∙◌, ap, ltb, leb, ◌||◌, ◌==◌, update, Bool-cases, ==_refl, inl, inr,
  Option-cases, arith,
}
use swallow_os.Prelude.Words.{u64, sub64}
use swallow_os.Malloc.{
  PageTag, Heap, no_index, num_sizes, header_size, memory_chunk_init, memory_chunk_size,
  memory_chunk_slot, join_slot,
}
use swallow_os.Malloc.Alloc.{
  request, past_slots, find_slot, leave_slot, cut, split, account, add_free, add_used, take_chunk,
  kmalloc_on_cur_page,
}

-- The sum of the three accounts of a page tag, which wraps.
abbrev pub total : PageTag → ℕ
total tag = u64 (tag.mem_free + tag.mem_used + tag.mem_meta)

-- The same accounts.
abbrev pub SameAccounts : PageTag → PageTag → Type 0
SameAccounts t u = (t.mem_free ≡ u.mem_free) × (t.mem_used ≡ u.mem_used) × (t.mem_meta ≡ u.mem_meta)

module _ (h : Heap) (i n j : ℕ) where
  join_slot-SameAccounts : (ck : ℕ) → SameAccounts ((join_slot h i n ck).mm_pages j) (h.mm_pages j)
  unfolding join_slot
  join_slot-SameAccounts ck = ground arith

  leave_slot-SameAccounts : SameAccounts ((leave_slot h i n).mm_pages j) (h.mm_pages j)
  unfolding leave_slot
  leave_slot-SameAccounts = ground arith

-- A chunk of `size2` bytes is taken, `len` of which become a free chunk.
balance :
    (free used meta size2 len : ℕ)
    → size2 < 2 ^ 64
    → len < 2 ^ 64
    → u64 (
        sub64 (u64 (free + sub64 len 24)) (sub64 size2 24)
        + u64 (used + sub64 (sub64 size2 len) 24)
        + u64 (meta + 24))
      ≡ u64 (free + used + meta)
balance free used meta size2 len h k = omega arith

balance_whole :
    (free used meta size2 : ℕ)
    → size2 < 2 ^ 64
    → u64 (sub64 free (sub64 size2 24) + u64 (used + sub64 (sub64 size2 0) 24) + meta)
      ≡ u64 (free + used + meta)
balance_whole free used meta size2 h = omega arith

memory_chunk_size-bound : (h : Heap) (ck : ℕ) → memory_chunk_size h ck < 2 ^ 64
unfolding memory_chunk_size
memory_chunk_size-bound h ck = omega arith

-- A page tag is changed, and its sum stays.
update-total :
    (f : ℕ → PageTag) (i j : ℕ) (tag : PageTag)
    → total tag ≡ total (f i)
    → total (update f i tag j) ≡ total (f j)
update-total f i j tag same = ground (arith, same)

twice-total :
    (f : ℕ → PageTag) (i j : ℕ) (t u : PageTag)
    → total u ≡ total (f i)
    → total (update (update f i t) i u j) ≡ total (f j)
twice-total f i j t u same = ground (arith, same)

SameAccounts-total : (t u : PageTag) → SameAccounts t u → total t ≡ total u
SameAccounts-total t u (free, used, meta) = rw (free, used, meta) refl

update-same : (f : ℕ → PageTag) (i : ℕ) (tag : PageTag) → update f i tag i ≡ tag
update-same f i tag = rw (==_refl i)

cut-mm_pages : (h : Heap) (ck size : ℕ) → (cut h ck size).0.mm_pages ≡ h.mm_pages
unfolding cut memory_chunk_init
cut-mm_pages h ck size = refl

cut-bound : (h : Heap) (ck size : ℕ) → (cut h ck size).1 < 2 ^ 64
unfolding cut memory_chunk_size
cut-bound h ck size = omega arith

module _ (h : Heap) (i ck size2 j : ℕ) (bound : size2 < 2 ^ 64) where
  account-total : total ((account h i ck size2 0).mm_pages j) ≡ total (h.mm_pages j)
  unfolding account add_used
  account-total = update-total h.mm_pages i j (add_used (h.mm_pages i) size2 0) (
      balance_whole (h.mm_pages i).mem_free (h.mm_pages i).mem_used (h.mm_pages i).mem_meta size2
        bound)

  split-total :
      (size : ℕ)
      → total ((account (split h i ck size).0 i ck size2 (split h i ck size).1).mm_pages j)
        ≡ total (h.mm_pages j)
  unfolding account split
  split-total size =
      let len : ℕ = (cut h ck size).1 in
      let joined : Heap =
        join_slot (cut h ck size).0 i (memory_chunk_slot len) (u64 (ck + header_size + size)) in
      let tag : PageTag = joined.mm_pages i in
      let sums : total (add_used (add_free tag len) size2 len) ≡ total tag =
        unfold add_used add_free in
        balance tag.mem_free tag.mem_used tag.mem_meta size2 len bound (cut-bound h ck size) in
      let kept = SameAccounts-total (joined.mm_pages j) ((cut h ck size).0.mm_pages j) (
        join_slot-SameAccounts (cut h ck size).0 i (memory_chunk_slot len) j
          (u64 (ck + header_size + size))) in
      twice-total joined.mm_pages i j (add_free tag len)
        (add_used (update joined.mm_pages i (add_free tag len) i) size2 len)
        (ap (λ t. total (add_used t size2 len)) (update-same joined.mm_pages i (add_free tag len))
          ∙ sums)
      ∙ kept
      ∙ ap (λ f. total (f j)) (cut-mm_pages h ck size)

take_chunk-total :
    (h : Heap) (size n j : ℕ) → total ((take_chunk h size n).1.mm_pages j) ≡ total (h.mm_pages j)
unfolding take_chunk
take_chunk-total h size n j =
    let i : ℕ = h.cur_page_tag_index in
    let ck : ℕ = (h.mm_pages i).free_chunk n in
    let left : Heap = leave_slot h i n in
    let size2 : ℕ = memory_chunk_size left ck in
    let kept =
      SameAccounts-total (left.mm_pages j) (h.mm_pages j) (leave_slot-SameAccounts h i n j) in
    elim (Bool-cases (leb (u64 (size + 80)) size2)) [
      | inl parted ↦
          rw (take_chunk, parted)
            (split-total left i ck size2 j (memory_chunk_size-bound left ck) size ∙ kept)
      | inr whole ↦
          rw (take_chunk, whole)
            (account-total left i ck size2 j (memory_chunk_size-bound left ck) ∙ kept)
    ]

-- Taking memory on the current page moves bytes between the accounts of page tags: the sum of what is
-- free, used and headers, modulo 2 ^ 64, stays what it was, for every page tag.
pub kmalloc_on_cur_page-total :
    (size : ℕ) (h : Heap) (j : ℕ)
    → total ((kmalloc_on_cur_page size h).1.mm_pages j) ≡ total (h.mm_pages j)
unfolding kmalloc_on_cur_page
kmalloc_on_cur_page-total size h j = elim (Bool-cases (h.cur_page_tag_index == no_index)) [
  | inl nowhere ↦ rw (kmalloc_on_cur_page, nowhere) refl
  | inr somewhere ↦
      elim (Bool-cases (
        ltb (h.mm_pages h.cur_page_tag_index).mem_free (request size)
        || past_slots (memory_chunk_slot (u64 (request size + header_size))))) [
          | inl refused ↦ rw (kmalloc_on_cur_page, somewhere, refused) refl
          | inr asked ↦
              elim (Option-cases (
                find_slot (num_sizes + 1) (h.mm_pages h.cur_page_tag_index)
                  (memory_chunk_slot (u64 (request size + header_size))))) [
                    | inl nothing ↦ rw (kmalloc_on_cur_page, somewhere, asked, nothing) refl
                    | inr (n, found) ↦
                        rw (kmalloc_on_cur_page, somewhere, asked, found)
                          (take_chunk-total h (request size) n j)
                  ]
        ]
]
