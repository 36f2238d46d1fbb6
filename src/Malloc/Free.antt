-- ===== src/Malloc/Free.antt =====
-- `kfree`. `none` means that the fuel of the loop over the chunks ran out.
use swallow_os.Prelude.{
  ℕ, zero, suc, ◌+◌, ◌*◌, ◌==◌, not, if◌then◌else◌, update, Bool, true, false, Option, none, some,
}
use swallow_os.Prelude.Words.{u64, sub64}
use swallow_os.Links.{init_list_head, is_last_entry, list_del}
use swallow_os.Frames.{free_pages, no_pages, page_size}
use swallow_os.Sched.State.{Sched}
use swallow_os.Sched.{lock_scheduler, unlock_scheduler}
use swallow_os.Malloc.{
  Heap, header_size, free_node, of_free_node, with_tag, clear, memory_chunk_size, memory_chunk_slot,
  join_slot,
}

unfoldable pub remove_free : Heap → ℕ → Heap
unfolding memory_chunk_size memory_chunk_slot is_last_entry list_del
remove_free h ck =
    let i = h.page_tag_index ck in
    let tag = h.mm_pages i in
    let len = memory_chunk_size h ck in
    let n = memory_chunk_slot len in
    let mem_free = sub64 tag.mem_free (sub64 len header_size) in
    if is_last_entry h.links (free_node (tag.free_chunk n))
    then with_tag h i (record tag {
      free_chunk = if ck == tag.free_chunk n then update tag.free_chunk n 0 else tag.free_chunk;
      mem_free = mem_free;
    })
    else with_tag (record h { links = list_del h.links (free_node ck) }) i
        (record tag {
          free_chunk = update tag.free_chunk n (of_free_node (h.links.next (free_node ck)));
          mem_free = mem_free;
        })

unfoldable pub push_free : Heap → ℕ → Heap
push_free h ck = join_slot h (h.page_tag_index ck) (memory_chunk_slot (memory_chunk_size h ck)) ck

-- A free chunk behind `ck` becomes a part of it.
unfoldable pub merge_next : Heap → ℕ → ℕ → Heap
merge_next h i next =
    if h.used next == 0
    then (let removed = remove_free h next in
        let tag = removed.mm_pages i in
        with_tag (record removed { links = list_del removed.links next }) i
          (record tag {
            mem_meta = sub64 tag.mem_meta header_size;
            mem_free = u64 (tag.mem_free + header_size);
          }))
    else h

-- `ck` becomes a part of a free chunk before it, or a free chunk.
unfoldable pub merge_prev : Heap → ℕ → ℕ → ℕ → Heap
merge_prev h i ck prev =
    if h.used prev == 0
    then (let removed = remove_free h prev in
        let pushed = push_free (record removed { links = list_del removed.links ck }) prev in
        let tag = pushed.mm_pages i in
        with_tag pushed i (record tag {
          mem_meta = sub64 tag.mem_meta header_size;
          mem_free = sub64 tag.mem_free header_size;
        }))
    else push_free
        (record h { used = update h.used ck 0; links = init_list_head h.links (free_node ck) }) ck

-- The loop over the chunks from `p` to the last one of the page: none is used.
unfoldable pub need_free_page : ℕ → Heap → ℕ → ℕ → Option Bool
need_free_page zero h p last = none
need_free_page (suc fuel) h p last =
    let rest = need_free_page fuel h (h.links.next p) last in
    if p == last then some true else if not (h.used p == 0) then some false else rest

-- The pages of a page tag go back.
unfoldable pub release : Heap → ℕ → Heap
release h i =
    let tag = h.mm_pages i in
    let cleared = clear h tag.pa.page (tag.pa.npages * page_size) in
    with_tag (record cleared { frames = free_pages h.frames tag.pa }) i
      (record tag { pa = no_pages })

unfoldable pub kfree : ℕ → ℕ → Heap → Sched → Option (Heap × Sched)
kfree fuel mem h s =
    let locked = lock_scheduler s in
    let ck = of_free_node mem in
    let next = h.links.next ck in
    let prev = h.links.prev ck in
    let i = h.page_tag_index ck in
    let tag = h.mm_pages i in
    let unused =
      with_tag h i (record tag { mem_used = sub64 tag.mem_used (memory_chunk_size h ck) }) in
    let merged = merge_prev (merge_next unused i next) i ck prev in
    elim (need_free_page fuel merged (merged.links.next tag.first) tag.last) [
      | none ↦ none
      | some true ↦ some (release merged i, unlock_scheduler locked)
      | some false ↦ some (merged, unlock_scheduler locked)
    ]
