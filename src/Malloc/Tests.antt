-- ===== src/Malloc/Tests.antt =====
-- The heap on concrete states.
use swallow_os.Prelude.{
  ℕ, ◌+◌, ◌-◌, ◌≡◌, ◌≢◌, ◌≤◌, ◌<◌, refl, false, ◌==◌, if◌then◌else◌, update, [], ◌∷◌, none, some,
  arith, ◌⊎◌,
}
use swallow_os.Prelude.Words.{sub64}
use swallow_os.Links.{Links, list_add_tail}
use swallow_os.Links.Ring.{IsRing}
use swallow_os.Frames.{Frames, no_pages}
use swallow_os.Sched.State.{Sched, running}
use swallow_os.Sched.{lock_scheduler, unlock_scheduler}
use swallow_os.Malloc.{
  PageTag, Heap, of_free_node, memory_chunk_slot, memory_chunk_size, kmemory_page_init, join_slot,
  memory_chunk_init,
}
use swallow_os.Malloc.Alloc.{
  kmalloc_on_cur_page, find_slot, take_chunk, leave_slot, cut, split, account, add_free, add_used,
  request,
}
use swallow_os.Malloc.Free.{kfree}
use swallow_os.Malloc.Check.{check_free}
use swallow_os.Malloc.Slots.{find_slot-first}
use swallow_os.Malloc.Balance.{total, kmalloc_on_cur_page-total}
use swallow_os.Malloc.Pages.{Divided, kmemory_page_init-Divided}
use swallow_os.Malloc.Rings.{check_free-IsRing}
use swallow_os.Malloc.Frees.{Apart, none_used, kfree-accounts}

abbrev no_frames : Frames
no_frames = record { frame_map = λ w. 0; npages = 0; startframe = 0; mem = λ a. 0 }

abbrev no_tag : PageTag
no_tag = record {
  pa = no_pages;
  mem_free = 0;
  mem_used = 0;
  mem_meta = 0;
  first = 0;
  last = 0;
  free_chunk = λ n. 0;
}

-- One page, before its chunks are made.
abbrev page : Heap
page = record {
  links = record { next = λ a. 0; prev = λ a. 0 };
  used = λ ck. 0;
  page_tag_index = λ ck. 0;
  mm_pages =
      λ i. if i == 0 then record no_tag { pa = record { page = 0x10000; npages = 1 } } else no_tag;
  cur_page_tag_index = 0;
  frames = no_frames;
}

abbrev fresh : Heap
fresh = kmemory_page_init 0 page

fresh_accounts :
    let tag = fresh.mm_pages 0 in
    (tag.mem_free ≡ 3992)
    × (tag.mem_meta ≡ 104)
    × (tag.first ≡ 0x10000)
    × (tag.last ≡ 0x10fd8)
    × (tag.free_chunk 11 ≡ 0x10028)
unfolding kmemory_page_init memory_chunk_size memory_chunk_slot list_add_tail memory_chunk_init
fresh_accounts = (refl, refl, refl, refl, refl)

first_block : (kmalloc_on_cur_page 100 fresh).0 ≡ 0x10040
unfolding kmemory_page_init memory_chunk_init list_add_tail kmalloc_on_cur_page request
    memory_chunk_slot find_slot take_chunk leave_slot cut split account add_free add_used
    memory_chunk_size join_slot
first_block = refl

kmalloc_on_cur_page-total_example :
    total ((kmalloc_on_cur_page 100 fresh).1.mm_pages 0) ≡ total (fresh.mm_pages 0)
kmalloc_on_cur_page-total_example = kmalloc_on_cur_page-total 100 fresh 0

-- Slots 5 and 9 have a chunk.
abbrev two_slots : PageTag
two_slots = record no_tag { free_chunk = λ n. if n == 5 then 4096 else if n == 9 then 8192 else 0 }

find_slot-first_example :
    ((find_slot 33 two_slots 6 ≡ none) × ((j : ℕ) → 6 ≤ j → j < 32 → two_slots.free_chunk j ≡ 0))
    ⊎ ((found : ℕ) × (find_slot 33 two_slots 6 ≡ some found)
        × (6 ≤ found)
        × (found < 32)
        × (two_slots.free_chunk found ≢ 0)
        × ((j : ℕ) → 6 ≤ j → j < found → two_slots.free_chunk j ≡ 0))
find_slot-first_example = find_slot-first 33 two_slots 6 (omega arith) (omega arith)

-- The chunks 1000, 2000, ..., 5000 in a ring, the first and the last one and their neighbours used.
abbrev five : Links
five = record {
  next = λ a. if a == 5000 then 1000 else a + 1000;
  prev = λ a. if a == 1000 then 5000 else a - 1000;
}

abbrev five_chunks : Heap
five_chunks = record page {
  links = five;
  used = λ ck. 1;
  mm_pages = λ i. record no_tag {
    pa = record { page = 1000; npages = 1 };
    mem_used = 3000;
    first = 1000;
    last = 5000;
  };
}

five-IsRing : IsRing five 1000 (2000 ∷ 3000 ∷ 4000 ∷ 5000 ∷ [])
five-IsRing = ground arith

check_free-IsRing_example :
    check_free 9 five_chunks 1000 1000 (of_free_node (five_chunks.links.prev 1000)) ≡ some false
check_free-IsRing_example =
    check_free-IsRing 9 five_chunks 1000 2000 (3000 ∷ 4000 ∷ 5000 ∷ []) (omega arith) (omega arith)
      (omega arith) five-IsRing

five_Apart : Apart five_chunks 3000 (1000 ∷ 5000 ∷ 2000 ∷ 3000 ∷ 4000 ∷ [])
five_Apart = record {
  own = λ m inside. ground arith;
  heads = λ m n inside some_chunk. absurd (some_chunk refl);
  tails = λ m n inside some_chunk. absurd (some_chunk refl);
}

-- A processor with one task.
abbrev processor : Sched
processor = record {
  links = record { next = λ n. n; prev = λ n. n };
  state = λ n. running;
  time_used = λ n. 0;
  sleep_expiry = λ n. 0;
  task_rsp0 = λ n. 0;
  comes_back = λ n. false;
  pgd = λ n. none;
  current = 20;
  idle = 10;
  clean = 30;
  ready = 0;
  paused = 0;
  sleeping = 0;
  terminated = 0;
  postpone_counter = 0;
  postponed = 0;
  irq_disable_counter = 0;
  time_slice_remaining = 1;
  last_count = 0;
  timer_count = 0;
  tss_rsp0 = 0;
  kernel_pgd = 0x1000;
  cr3 = 0x1000;
  pic = record { mask1 = 0; mask2 = 0 };
}

kfree-accounts_example :
    (freed : Heap) × (kfree 9 3024 five_chunks processor
      ≡ some (freed, unlock_scheduler (lock_scheduler processor)))
    × (let tag' = freed.mm_pages 0 in
        (tag'.mem_free ≡ 0)
        × (tag'.mem_used ≡ sub64 3000 (memory_chunk_size five_chunks 3000))
        × (tag'.mem_meta ≡ 0)
        × (tag'.pa ≡ (
            if none_used (update five_chunks.used 3000 0) (2000 ∷ 3000 ∷ 4000 ∷ [])
            then no_pages
            else record { page = 1000; npages = 1 })))
kfree-accounts_example =
    kfree-accounts 9 3024 five_chunks processor 2000 (3000 ∷ 4000 ∷ []) (omega arith) (omega arith)
      (ground arith) refl five_Apart (omega arith)

-- A free chunk of 40 bytes, its header included, is given out for 32 bytes.
abbrev short : Heap
short = record five_chunks {
  links = record {
    next = λ a. if a == 3000 then 3040 else if a == 3024 then 3024 else five.next a;
    prev = five.prev;
  };
  mm_pages = λ i. record no_tag { mem_free = 1000; free_chunk = λ n. if n == 5 then 3000 else 0 };
}

too_short :
    ((kmalloc_on_cur_page 32 short).0 ≡ 3024)
    × (memory_chunk_size (kmalloc_on_cur_page 32 short).1 3000 ≡ 40)
unfolding kmemory_page_init memory_chunk_init list_add_tail kmalloc_on_cur_page request
    memory_chunk_slot find_slot take_chunk leave_slot cut split account add_free add_used
    memory_chunk_size join_slot
too_short = (refl, refl)

kmemory_page_init-Divided_example : Divided (kmemory_page_init 0 page) 0 0x10000 4096 0
kmemory_page_init-Divided_example =
    kmemory_page_init-Divided page 0 (omega arith) (omega arith) (omega arith) (omega arith)
