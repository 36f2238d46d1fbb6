-- ===== src/Malloc.antt =====
-- The kernel heap of kernel/arch/x86_64/mm/malloc.c: chunks, the pages they stand in, and the free
-- chunks of a page by size. The headers of the chunks are functions of the address: `links` has every
-- `struct list_head`, that of `all` at the chunk and that of `free` behind the rest of the header. The
-- other bytes of the memory are those of `frames`. Clearing bytes clears the fields of headers that
-- begin in them.
pub mod Alloc
pub mod Free
pub mod Check
pub mod Slots
pub mod Balance
pub mod Rings
pub mod Frees
pub mod Pages
mod Tests
use swallow_os.Prelude.{
  ℕ, zero, suc, ◌+◌, ◌-◌, ◌*◌, ◌/◌, ◌^◌, ◌&&◌, ltb, leb, ◌==◌, if◌then◌else◌, update,
}
use swallow_os.Prelude.Words.{u32, u64, sub64}
use swallow_os.Links.{Links, init_list_head, is_last_entry, list_add_tail, list_del, null}
use swallow_os.Frames.{Frames, PageAlloc, fill, page_size}

abbrev pub num_sizes : ℕ
num_sizes = 32

abbrev pub align : ℕ
align = 4

-- `sizeof(struct list_head)`
abbrev pub min_size : ℕ
min_size = 16

-- The offset of `data` and of `free`, and the size of a chunk.
abbrev pub header_size : ℕ
header_size = 24

abbrev pub chunk_bytes : ℕ
chunk_bytes = 40

abbrev pub mm_page_num : ℕ
mm_page_num = 1024

-- `page_tag`; its `prev` and `next` are not used.
pub record PageTag : Type 0 where
  pub pa : PageAlloc
  pub mem_free : ℕ
  pub mem_used : ℕ
  pub mem_meta : ℕ
  pub first : ℕ
  pub last : ℕ
  pub free_chunk : ℕ → ℕ

-- The globals, the fields of the chunks, and the page frames.
pub record Heap : Type 0 where
  pub links : Links
  pub used : ℕ → ℕ
  pub page_tag_index : ℕ → ℕ
  pub mm_pages : ℕ → PageTag
  pub cur_page_tag_index : ℕ
  pub frames : Frames

-- The bit pattern of -1.
abbrev pub no_index : ℕ
no_index = 2 ^ 32 - 1

-- `&ck->free`, and `container_of` for it.
abbrev pub free_node : ℕ → ℕ
free_node ck = u64 (ck + header_size)

abbrev pub of_free_node : ℕ → ℕ
of_free_node node = sub64 node header_size

abbrev pub with_tag : Heap → ℕ → PageTag → Heap
with_tag h i tag = record h { mm_pages = update h.mm_pages i tag }

-- `memset(p, 0, n)`
unfoldable pub clear : Heap → ℕ → ℕ → Heap
unfolding fill
clear h p n = record h {
  links = record {
    next = fill h.links.next p n 0;
    prev = λ a. fill (λ field. h.links.prev (field - 8)) p n 0 (a + 8);
  };
  used = λ ck. fill (λ field. h.used (field - 16)) p n 0 (ck + 16);
  page_tag_index = λ ck. fill (λ field. h.page_tag_index (field - 20)) p n 0 (ck + 20);
  frames = record h.frames { mem = fill h.frames.mem p n 0 };
}

unfoldable pub memory_chunk_init : Heap → ℕ → Heap
unfolding init_list_head
memory_chunk_init h ck = record h {
  links = init_list_head (init_list_head h.links ck) (free_node ck);
  used = update h.used ck 0;
  page_tag_index = update h.page_tag_index ck h.cur_page_tag_index;
}

unfoldable pub memory_chunk_size : Heap → ℕ → ℕ
memory_chunk_size h ck = sub64 (h.links.next ck) ck

-- The loop of `memory_chunk_slot`; a word has 64 bits.
unfoldable pub slot_from : ℕ → ℕ → ℕ → ℕ
slot_from zero n size = n
slot_from (suc bits) n size =
    let rest = slot_from bits (u32 (n + 1)) (size / 2) in if ltb 0 size then rest else n

unfoldable pub memory_chunk_slot : ℕ → ℕ
unfolding slot_from
memory_chunk_slot size = slot_from 64 no_index size

-- A chunk joins the free chunks of its slot.
unfoldable pub join_slot : Heap → ℕ → ℕ → ℕ → Heap
unfolding init_list_head list_add_tail
join_slot h i n ck =
    let tag = h.mm_pages i in
    if tag.free_chunk n == null
    then with_tag (record h { links = init_list_head h.links (free_node ck) }) i
        (record tag { free_chunk = update tag.free_chunk n ck })
    else record h { links = list_add_tail h.links (free_node ck) (free_node (tag.free_chunk n)) }

-- Where the first and the last chunk of a page stand.
abbrev pub first_chunk : PageAlloc → ℕ
first_chunk pa = u64 (pa.page + align - 1) / align * align

abbrev pub last_chunk : PageAlloc → ℕ
last_chunk pa = sub64 (u64 (pa.page + pa.npages * page_size) / align * align) chunk_bytes

-- The page tag `i` gets its chunks: the first one, the free one behind it, and the last one.
unfoldable pub divide : Heap → ℕ → ℕ → ℕ → ℕ → Heap
divide h i first second last =
    let tag = h.mm_pages i in
    let chunks = memory_chunk_init (memory_chunk_init (memory_chunk_init h first) second) last in
    let ring = record chunks {
      links = list_add_tail (list_add_tail chunks.links second first) last first;
      used = update (update chunks.used first 1) last 1;
      page_tag_index = update (update (update chunks.page_tag_index first i) last i) second i;
    } in
    let len = memory_chunk_size ring second in
    with_tag ring i (record tag {
      first = first;
      last = last;
      free_chunk = update tag.free_chunk (memory_chunk_slot len) second;
      mem_free = sub64 len header_size;
      mem_meta = chunk_bytes * 2 + header_size;
    })

unfoldable pub kmemory_page_init : ℕ → Heap → Heap
unfolding divide
kmemory_page_init i h =
    let pa = (h.mm_pages i).pa in
    if leb mm_page_num i
    then h
    else divide h i (first_chunk pa) (u64 (first_chunk pa + chunk_bytes)) (last_chunk pa)

unfoldable pub kmemory_init : Heap → Heap
kmemory_init h = record h {
  mm_pages = λ i. record {
    pa = record { page = 0; npages = 0 };
    mem_free = 0;
    mem_used = 0;
    mem_meta = 0;
    first = 0;
    last = 0;
    free_chunk = λ n. 0;
  };
}
