-- ===== src/Exec/Tests.antt =====
-- A program asked for on a small machine.
use swallow_os.Prelude.{
  ℕ, ◌+◌, ◌≡◌, refl, ◌==◌, ltb, if◌then◌else◌, List, [], ◌∷◌, true, none, some,
}
use swallow_os.Fat.Directory.{
  char_at, fat12_get_file_size, search_root, search_sector, check_entry, same_bytes, upper_padding,
}
use swallow_os.Frames.{no_pages}
use swallow_os.Malloc.{Heap, no_index}
use swallow_os.Sched.State.{running, Sched}
use swallow_os.Exec.{Drive}

-- A directory with the file `A.ELF` of 258 bytes.
abbrev entry_name : List ℕ
entry_name = b'A' ∷ b' ' ∷ b' ' ∷ b' ' ∷ b' ' ∷ b' ' ∷ b' ' ∷ b' ' ∷ b'E' ∷ b'L' ∷ b'F' ∷ 0x20 ∷ []

abbrev root : ℕ → ℕ
root a = if ltb a 12 then char_at entry_name a else if a == 28 then 2 else if a == 29 then 1 else 0

abbrev drive : Drive
drive = record {
  disk = λ lba. some root;
  fs = record {
    bytes_per_sector = 512;
    sectors_per_cluster = 1;
    reserved_sectors = 1;
    num_fats = 2;
    root_entry_count = 16;
    total_sectors = 2880;
    sectors_per_fat = 9;
    fat_start_sector = 1;
    root_start_lba = 19;
    data_start_lba = 20;
    root_dir_sectors = 1;
  };
  past = λ i. 7;
  behind = 0;
  fuel = 600;
  enough = λ i. true;
}

abbrev program : List ℕ
program = b'a' ∷ b'.' ∷ b'e' ∷ b'l' ∷ b'f' ∷ []

program_size : fat12_get_file_size drive.past drive.disk drive.fs program ≡ some 258
unfolding fat12_get_file_size search_root search_sector check_entry same_bytes upper_padding
program_size = refl

abbrev machine : Heap
machine = record {
  links = record { next = λ a. 0; prev = λ a. 0 };
  used = λ ck. 0;
  page_tag_index = λ ck. 0;
  mm_pages = λ i. record {
    pa = no_pages;
    mem_free = 0;
    mem_used = 0;
    mem_meta = 0;
    first = 0;
    last = 0;
    free_chunk = λ n. 0;
  };
  cur_page_tag_index = no_index;
  frames = record {
    frame_map = λ w. 0;
    npages = 64;
    startframe = 0xffff_ffff_8020_0000;
    mem = λ a. 0;
  };
}

-- Task 20 runs, without an address space of its own.
abbrev scheduler : Sched
scheduler = record {
  links = record { next = λ n. n; prev = λ n. n };
  state = λ n. running;
  time_used = λ n. 0;
  sleep_expiry = λ n. 0;
  task_rsp0 = λ n. n + 5;
  comes_back = λ n. true;
  pgd = λ n. none;
  current = 20;
  idle = 10;
  clean = 70;
  ready = 0;
  paused = 70;
  sleeping = 0;
  terminated = 0;
  postpone_counter = 0;
  postponed = 0;
  irq_disable_counter = 0;
  time_slice_remaining = 1;
  last_count = 800;
  timer_count = 1000;
  tss_rsp0 = 25;
  kernel_pgd = 0x1000;
  cr3 = 0x1000;
  pic = record { mask1 = 0; mask2 = 0 };
}
