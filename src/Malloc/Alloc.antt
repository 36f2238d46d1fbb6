-- ===== src/Malloc/Alloc.antt =====
-- `kmalloc` and `kmalloc_on_cur_page`. The address 0 stands for `NULL`.
use swallow_os.Prelude.{
  ℕ, zero, suc, ◌+◌, ◌-◌, ◌*◌, ◌/◌, ◌^◌, ◌&&◌, ◌||◌, not, Bool, ltb, leb, ◌==◌, if◌then◌else◌,
  update, true, false, Option, none, some,
}
use swallow_os.Prelude.Words.{u32, u64, sub64}
use swallow_os.Links.{is_last_entry, list_add, list_del, null}
use swallow_os.Frames.{alloc_pages, page_size}
use swallow_os.Sched.State.{Sched}
use swallow_os.Sched.{lock_scheduler, unlock_scheduler}
use swallow_os.Malloc.{
  Heap, PageTag, num_sizes, align, min_size, header_size, chunk_bytes, mm_page_num, no_index,
  free_node, of_free_node, with_tag, clear, memory_chunk_init, memory_chunk_size, memory_chunk_slot,
  join_slot, kmemory_page_init,
}

-- The size rounded up.
unfoldable pub request : ℕ → ℕ
request size =
    let rounded = u64 (size + align - 1) / align * align in
    if ltb rounded min_size then min_size else rounded

-- `n >= NUM_SIZES`, of an `int`.
abbrev pub past_slots : ℕ → Bool
past_slots n = leb num_sizes n && ltb n (2 ^ 31)

-- The loop over the slots, from `n` on.
unfoldable pub find_slot : ℕ → PageTag → ℕ → Option ℕ
find_slot zero tag n = none
find_slot (suc fuel) tag n =
    let rest = find_slot fuel tag (u32 (n + 1)) in
    if not (tag.free_chunk n == null)
    then some n
    else if past_slots (u32 (n + 1))
    then none
    else rest

-- The first chunk of a slot leaves it.
unfoldable pub leave_slot : Heap → ℕ → ℕ → Heap
unfolding is_last_entry list_del
leave_slot h i n =
    let tag = h.mm_pages i in
    let node = free_node (tag.free_chunk n) in
    if is_last_entry h.links node
    then with_tag h i (record tag { free_chunk = update tag.free_chunk n 0 })
    else with_tag (record h { links = list_del h.links node }) i
        (record tag { free_chunk = update tag.free_chunk n (of_free_node (h.links.next node)) })

-- The chunk behind the header of `ck` and `size` bytes, and its size.
unfoldable pub cut : Heap → ℕ → ℕ → Heap × ℕ
unfolding memory_chunk_init list_add memory_chunk_size
cut h ck size =
    let rest = u64 (ck + header_size + size) in
    let made = memory_chunk_init h rest in
    let linked = record made { links = list_add made.links rest ck } in
    (linked, memory_chunk_size linked rest)

unfoldable pub add_free : PageTag → ℕ → PageTag
add_free tag len = record tag {
  mem_meta = u64 (tag.mem_meta + header_size);
  mem_free = u64 (tag.mem_free + sub64 len header_size);
}

-- What is left of a chunk behind `size` bytes becomes a free chunk, with the size given.
unfoldable pub split : Heap → ℕ → ℕ → ℕ → Heap × ℕ
split h i ck size =
    let (linked, len) = cut h ck size in
    let joined = join_slot linked i (memory_chunk_slot len) (u64 (ck + header_size + size)) in
    (with_tag joined i (add_free (joined.mm_pages i) len), len)

-- A chunk of `size2` bytes is used, `len` of which went to another one.
unfoldable pub add_used : PageTag → ℕ → ℕ → PageTag
add_used tag size2 len = record tag {
  mem_free = sub64 tag.mem_free (sub64 size2 header_size);
  mem_used = u64 (tag.mem_used + sub64 (sub64 size2 len) header_size);
}

unfoldable pub account : Heap → ℕ → ℕ → ℕ → ℕ → Heap
account h i ck size2 len =
    with_tag (record h { used = update h.used ck 1 }) i (add_used (h.mm_pages i) size2 len)

-- The chunk of the slot `n` is taken, and split where there is room for two more headers.
unfoldable pub take_chunk : Heap → ℕ → ℕ → ℕ × Heap
take_chunk h size n =
    let i = h.cur_page_tag_index in
    let ck = (h.mm_pages i).free_chunk n in
    let left = leave_slot h i n in
    let size2 = memory_chunk_size left ck in
    (
      free_node ck,
      if leb (u64 (size + 2 * chunk_bytes)) size2
          then (let (parted, len) = split left i ck size in account parted i ck size2 len)
          else account left i ck size2 0,
    )

unfoldable pub kmalloc_on_cur_page : ℕ → Heap → ℕ × Heap
kmalloc_on_cur_page size h =
    if h.cur_page_tag_index == no_index
    then (null, h)
    else let tag = h.mm_pages h.cur_page_tag_index in
      let wanted = request size in
      let n = memory_chunk_slot (u64 (wanted + header_size)) in
      if ltb tag.mem_free wanted || past_slots n
      then (null, h)
      else elim (find_slot (num_sizes + 1) tag n) [
        | none ↦ (null, h)
        | some found ↦ take_chunk h wanted found
      ]

-- New pages for the page tag `i`, or `none`.
unfoldable pub new_pages : ℕ → ℕ → Heap → Heap × Bool
unfolding alloc_pages kmemory_page_init clear
new_pages i size h =
    let count = u64 (3 * chunk_bytes + size + page_size - 1) / page_size in
    let (frames, pa) = alloc_pages h.frames count in
    if pa.page == null
    then (record h { frames = frames }, false)
    else let cleared = record (clear h pa.page page_size) { frames = frames } in
      let tag = cleared.mm_pages i in
      (
        kmemory_page_init i
            (record (with_tag cleared i (record tag { pa = pa })) { cur_page_tag_index = i }),
        true,
      )

-- The search for a page: the result so far, and the first page tag without pages.
pub record Search : Type 0 where
  pub p : ℕ
  pub first_free_index : ℕ
  pub heap : Heap

-- One round.
unfoldable pub try_page : ℕ → ℕ → Search → Search
unfolding kmalloc_on_cur_page
try_page i size s =
    let tag = s.heap.mm_pages i in
    if i == s.heap.cur_page_tag_index
    then s
    else if s.first_free_index == no_index && tag.pa.page == null
    then record s { first_free_index = i }
    else if ltb tag.mem_free size
    then s
    else let (p, heap) = kmalloc_on_cur_page size (record s.heap { cur_page_tag_index = i }) in
      record s { p = p; heap = heap }

unfoldable pub search_pages : ℕ → ℕ → ℕ → Search → Search
unfolding try_page
search_pages zero i size s = s
search_pages (suc left) i size s =
    let tried = try_page i size s in
    elim (tried.p == null) [ true ↦ search_pages left (i + 1) size tried | false ↦ tried ]

-- On the current page, else on another one, else on new pages.
unfoldable pub find_memory : ℕ → Heap → ℕ × Heap
unfolding kmalloc_on_cur_page search_pages new_pages
find_memory size h =
    let (p, heap) = kmalloc_on_cur_page size h in
    if not (p == null)
    then (p, heap)
    else let found =
        search_pages mm_page_num 0 size
          (record { p = null; first_free_index = no_index; heap = heap }) in
      if not (found.p == null) || found.first_free_index == no_index
      then (found.p, found.heap)
      else let (made, enough) = new_pages found.first_free_index size found.heap in
        if enough then kmalloc_on_cur_page size made else (null, made)

-- The first call takes the first pages.
unfoldable pub allocate : ℕ → Heap → ℕ × Heap
unfolding new_pages find_memory
allocate size h =
    if size == 0
    then (null, h)
    else if h.cur_page_tag_index == no_index
    then (let (made, enough) = new_pages 0 size h in
        if enough then find_memory size made else (null, made))
    else find_memory size h

-- `kmcheck` is called before the end and only reads.
unfoldable pub kmalloc : ℕ → Heap → Sched → (ℕ × Heap) × Sched
unfolding allocate clear lock_scheduler unlock_scheduler
kmalloc size h s =
    let locked = lock_scheduler s in
    let (p, heap) = allocate size h in
    ((p, if p == null then heap else clear heap p size), unlock_scheduler locked)
