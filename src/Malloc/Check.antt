-- ===== src/Malloc/Check.antt =====
-- `kmcheck` and `km_freecheck`. The outer `none` means that the fuel of a loop around a ring ran out;
-- `true` is the return value 0, `false` is -1.
use swallow_os.Prelude.{
  ℕ, zero, suc, ◌+◌, ◌==◌, not, if◌then◌else◌, Bool, true, false, Option, none, some,
}
use swallow_os.Links.{null}
use swallow_os.Malloc.{Heap, PageTag, mm_page_num, num_sizes, free_node, of_free_node}

-- Around the ring of all chunks from `it` on, with `t` the chunk before it.
unfoldable pub check_all : ℕ → Heap → ℕ → ℕ → ℕ → Option Bool
check_all zero h start it t = none
check_all (suc fuel) h start it t =
    let rest = check_all fuel h start (h.links.next it) it in
    if not (h.links.prev it == t)
    then some false
    else if h.links.next it == start
    then some true
    else rest

-- Around a ring of free chunks; `it` and `start` are their nodes. What the source compares with is the
-- chunk before the one it compares.
unfoldable pub check_free : ℕ → Heap → ℕ → ℕ → ℕ → Option Bool
check_free zero h start it t = none
check_free (suc fuel) h start it t =
    let before = of_free_node (h.links.prev it) in
    let rest = check_free fuel h start (h.links.next it) before in
    if not (before == t) then some false else if h.links.next it == start then some true else rest

unfoldable pub and_then : Option Bool → Option Bool → Option Bool
and_then none rest = none
and_then (some true) rest = rest
and_then (some false) rest = some false

unfoldable pub check_slots : ℕ → Heap → PageTag → ℕ → ℕ → Option Bool
unfolding check_free and_then
check_slots fuel h tag n zero = some true
check_slots fuel h tag n (suc left) =
    let rest = check_slots fuel h tag (n + 1) left in
    let node = free_node (tag.free_chunk n) in
    if tag.free_chunk n == null
    then rest
    else and_then (check_free fuel h node node (of_free_node (h.links.prev node))) rest

unfoldable pub check_pages : ℕ → Heap → ℕ → ℕ → Option Bool
unfolding check_all check_slots and_then
check_pages fuel h i zero = some true
check_pages fuel h i (suc left) =
    let rest = check_pages fuel h (i + 1) left in
    let tag = h.mm_pages i in
    if tag.pa.page == null
    then rest
    else and_then (check_all fuel h tag.first tag.first tag.last)
        (and_then (check_slots fuel h tag 0 num_sizes) rest)

unfoldable pub kmcheck : ℕ → Heap → Option Bool
unfolding check_pages
kmcheck fuel h = check_pages fuel h 0 mm_page_num

-- How many times the message about a page that is not freed is printed.
unfoldable pub km_freecheck : Heap → ℕ → ℕ → ℕ
km_freecheck h i zero = 0
km_freecheck h i (suc left) =
    let rest = km_freecheck h (i + 1) left in
    if (h.mm_pages i).pa.page == null then rest else suc rest
