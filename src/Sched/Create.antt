-- ===== src/Sched/Create.antt =====
-- Making tasks: `create_task` and `init_scheduler` of kernel/arch/x86_64/sched/task.c. The address that
-- `kmalloc` returns for a task is an argument, null where there is no memory. The addresses of functions
-- are arguments too.
pub mod Initial
pub mod Made
use swallow_os.Prelude.{false, ℕ, ◌+◌, ◌*◌, ◌^◌, ◌==◌, if◌then◌else◌, update, Option, none, some}
use swallow_os.Prelude.Words.{u64, sub64}
use swallow_os.Frames.{Frames, PageAlloc, alloc_pages, page_size}
use swallow_os.PageTables.{write64}
use swallow_os.Links.{Links, null, init_list_head}
use swallow_os.Sched.State.{TaskState, running, ready, Sched, enqueue, time_slice_length}

-- The scheduler, the page frames, and what else `create_task` sets: the number of a task, its stack and
-- the stack pointer that it starts with.
pub record Kernel : Type 0 where
  pub sched : Sched
  pub frames : Frames
  pub task_id_counter : ℕ
  pub task_id : ℕ → ℕ
  pub stack0 : ℕ → PageAlloc
  pub rsp0 : ℕ → ℕ

-- `KERNEL_TASK_STACK_PAGE_NUM`
abbrev pub kernel_task_stack_page_num : ℕ
kernel_task_stack_page_num = 10

-- `memset(new_task, 0, ...)`, as far as the scheduler's fields go; and a new task does not start in
-- `schedule`, but in `task_start_up`.
unfoldable pub clear_task : Sched → ℕ → Sched
clear_task s task = record s {
  links = record { next = update s.links.next task null; prev = update s.links.prev task null };
  state = update s.state task running;
  time_used = update s.time_used task 0;
  sleep_expiry = update s.sleep_expiry task 0;
  task_rsp0 = update s.task_rsp0 task 0;
  comes_back = update s.comes_back task false;
  pgd = update s.pgd task none;
}

-- The end of a stack.
abbrev pub stack_top : PageAlloc → ℕ
stack_top pa = u64 (pa.page + pa.npages * page_size)

-- `PUSH_STACK`: the memory and the stack pointer.
unfoldable pub push_stack : (ℕ → ℕ) × ℕ → ℕ → (ℕ → ℕ) × ℕ
push_stack (mem, s) v = (write64 mem (sub64 s 8) v, sub64 s 8)

-- The three words that a new task starts with.
unfoldable pub start_frame : ℕ → ℕ → (ℕ → ℕ) → ℕ → (ℕ → ℕ) × ℕ
unfolding push_stack
start_frame ent task_start_up mem top =
    push_stack (push_stack (push_stack (mem, top) ent) task_start_up) 0x202

-- A task that has a stack is numbered, started and made ready.
unfoldable pub start_task : ℕ → ℕ → Kernel → ℕ → PageAlloc → Kernel
unfolding enqueue start_frame
start_task ent task_start_up k task pa =
    let counter = u64 (k.task_id_counter + 1) in
    let (mem, top) = start_frame ent task_start_up k.frames.mem (stack_top pa) in
    let (links, head) = enqueue k.sched.links k.sched.ready task in
    record k {
      frames = record k.frames { mem = mem };
      task_id_counter = counter;
      task_id = update k.task_id task counter;
      stack0 = update k.stack0 task pa;
      rsp0 = update k.rsp0 task top;
      sched = record k.sched {
        links = links;
        ready = head;
        state = update k.sched.state task ready;
        time_used = update k.sched.time_used task 0;
        task_rsp0 = update k.sched.task_rsp0 task (stack_top pa);
      };
    }

-- The new task, or null.
unfoldable pub create_task : ℕ → ℕ → ℕ → Kernel → Kernel × ℕ
unfolding alloc_pages clear_task start_task
create_task ent task_start_up task k =
    let (frames, pa) = alloc_pages k.frames kernel_task_stack_page_num in
    let cleared = record k { sched = clear_task k.sched task; frames = frames } in
    if task == null
    then (k, null)
    else if pa.page == 0
    then (cleared, null)
    else (start_task ent task_start_up cleared task pa, task)

-- The idle task, which has a stack and is the one that runs.
unfoldable pub init_idle : ℕ → ℕ → Kernel → Kernel
unfolding alloc_pages
init_idle cr3 idle k =
    let (frames, pa) = alloc_pages k.frames kernel_task_stack_page_num in
    record k {
      frames = frames;
      task_id = update k.task_id idle 0;
      stack0 = update k.stack0 idle pa;
      rsp0 = update k.rsp0 idle (stack_top pa);
      sched = record k.sched {
        kernel_pgd = cr3;
        idle = idle;
        current = idle;
        task_rsp0 = update k.sched.task_rsp0 idle (stack_top pa);
        state = update k.sched.state idle running;
        time_used = update k.sched.time_used idle 0;
        last_count = k.sched.timer_count;
        time_slice_remaining = time_slice_length;
      };
    }

-- The ready queue is emptied again, and the clean-up task is the one task that is paused.
unfoldable pub pause_clean : Kernel → ℕ → Kernel
unfolding init_list_head
pause_clean k task = record k {
  sched = record k.sched {
    clean = task;
    ready = null;
    paused = task;
    links = init_list_head k.sched.links task;
  };
}

-- Where the clean-up task cannot be created the source goes on with the fields of a null pointer, which is
-- not modelled further.
unfoldable pub init_scheduler : ℕ → ℕ → ℕ → ℕ → ℕ → Kernel → Kernel
unfolding init_idle create_task pause_clean
init_scheduler cr3 kernel_clean_work task_start_up idle clean k =
    let made = create_task kernel_clean_work task_start_up clean (init_idle cr3 idle k) in
    pause_clean made.0 made.1
