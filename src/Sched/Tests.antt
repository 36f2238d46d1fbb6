-- ===== src/Sched/Tests.antt =====
-- The scheduler on a concrete state.
use swallow_os.Prelude.{
  ℕ, ◌+◌, ◌<◌, ◌⊎◌, ◌≡◌, refl, List, [], ◌∷◌, arith, ◌==◌, if◌then◌else◌, Option, none, some, leb,
}
use swallow_os.Frames.{Frames, no_pages}
use swallow_os.Frames.Alloc.{IsValid, FreeRun}
use swallow_os.Sched.Create.{Kernel, create_task, init_idle, init_scheduler}
use swallow_os.Sched.Create.Made.{Made, create_task-Made}
use swallow_os.Sched.Create.Initial.{no_tasks, init_scheduler-IsSched}
use swallow_os.Sched.Clean.{releases, address_space, kernel_stack, control_block, kernel_clean_work}
use swallow_os.Sched.Clean.Reaped.{all_releases, kernel_clean_work-switch}
use swallow_os.Links.{list_del}
use swallow_os.Sched.{
  lock_scheduler, unlock_scheduler, schedule, block_task, unblock_task, lock_stuff, unlock_stuff,
  nano_sleep_until, terminate_task,
}
use swallow_os.Sched.State.{running, ready, paused, sleeping, terminated, Sched, second}
use swallow_os.Sched.Holds.{Tasks, IsSched}
use swallow_os.Sched.Switch.{Switched, schedule-round_robin}
use swallow_os.Sched.Block.{joined, block_task-switch}
use swallow_os.Sched.Unblock.{Woken, unblock_task-sleeping}
use swallow_os.Sched.Sleep.{nano_sleep_until-switch, terminate_task-switch}
use swallow_os.Sched.Timer.{tick, task_hook_in_timer_handler}
use swallow_os.Sched.Timer.Drain.{due}
use swallow_os.Sched.Timer.Lists.{select, spin}
use swallow_os.Sched.Timer.Wake.{Woke}
use swallow_os.Sched.Timer.Hook.{hook-Woke, hook-preempts}

-- The rings of 30 and 40, of 50 and 60, and every other task alone.
abbrev partner : ℕ → ℕ
partner n =
    if n == 30
    then 40
    else if n == 40
    then 30
    else if n == 50
    then 60
    else if n == 60
    then 50
    else n

-- Task 20 runs, 30 and 40 are ready, 50 and 60 sleep until 900 and 2000, 70 is the clean-up task and
-- paused, and 10 is the idle task.
abbrev busy : Sched
busy = record {
  links = record { next = partner; prev = partner };
  state = λ n.
      if n == 20 then running else if leb n 40 then ready else if n == 70 then paused else sleeping;
  time_used = λ n. 0;
  sleep_expiry = λ n. if n == 50 then 900 else 2000;
  task_rsp0 = λ n. n + 5;
  comes_back = λ n. n == 30;
  pgd = λ n. none;
  current = 20;
  idle = 10;
  clean = 70;
  ready = 30;
  paused = 70;
  sleeping = 50;
  terminated = 0;
  postpone_counter = 0;
  postponed = 0;
  irq_disable_counter = 0;
  time_slice_remaining = 1;
  last_count = 800;
  timer_count = 1000;
  tss_rsp0 = 25;
  kernel_pgd = 0x1000;
  cr3 = 0x1000;
  pic = record { mask1 = 0; mask2 = 0 };
}

abbrev busy_tasks : Tasks
busy_tasks = record {
  ready = 30 ∷ 40 ∷ [];
  paused = 70 ∷ [];
  sleeping = 50 ∷ 60 ∷ [];
  terminated = [];
}

abbrev Busy : Sched → Type 0
Busy s = IsSched s busy_tasks

busy-IsSched : Busy busy
busy-IsSched = record {
  ready_queue = ground arith;
  paused_queue = ground arith;
  sleeping_queue = ground arith;
  terminated_queue = refl;
  apart = λ n. ground arith;
  idle_out = refl;
}

schedule_runs : (schedule busy).current ≡ 30
unfolding schedule
schedule_runs = refl

-- The task 50 has woken, 20 has been preempted, and 60 sleeps on.
abbrev after_hook : Option (ℕ × List ℕ × ℕ)
unfolding task_hook_in_timer_handler
after_hook = elim (task_hook_in_timer_handler 20 busy) [
  | none ↦ none
  | some s ↦
      some
        (s.current, s.ready ∷ s.links.next 40 ∷ s.links.next 50 ∷ s.links.next 20 ∷ [], s.sleeping)
]

hook_runs : after_hook ≡ some (30, 40 ∷ 50 ∷ 20 ∷ 40 ∷ [], 60)
unfolding after_hook swallow_os.Sched.Timer.drain unblock_task second list_del
hook_runs = refl

unlucky : (unblock_task busy 60).sleeping ≡ 50
unfolding unblock_task
unlucky = refl

-- The idle task runs.
abbrev idling : Sched
idling = record busy { current = 10 }

schedule-round_robin_example :
    IsSched
      (schedule busy)
      (record { ready = 40 ∷ 20 ∷ []; paused = 70 ∷ []; sleeping = 50 ∷ 60 ∷ []; terminated = [] })
    × Switched busy 30 (schedule busy)
    × ((schedule busy).state 20 ≡ ready)
schedule-round_robin_example =
    schedule-round_robin {s = busy} busy-IsSched refl refl (omega arith) (omega arith) refl

-- Nothing is ready, and the current task has just gone to sleep.
abbrev lazy : Sched
lazy = record busy { ready = 0; state = λ n. sleeping }

abbrev lazy_tasks : Tasks
lazy_tasks = record busy_tasks { ready = [] }

lazy-IsSched : IsSched lazy lazy_tasks
lazy-IsSched = record {
  ready_queue = refl;
  paused_queue = ground arith;
  sleeping_queue = ground arith;
  terminated_queue = refl;
  apart = λ n. ground arith;
  idle_out = refl;
}

-- Inside `lock_stuff`.
abbrev held : Sched
held = record busy { postpone_counter = 1 }

block_task-switch_example :
    IsSched
      (block_task busy paused)
      (record { ready = 40 ∷ []; paused = 70 ∷ 20 ∷ []; sleeping = 50 ∷ 60 ∷ []; terminated = [] })
    × ((block_task busy paused).current ≡ 30)
    × ((block_task busy paused).state 20 ≡ paused)
    × ((block_task busy paused).state 30 ≡ running)
    × ((block_task busy paused).irq_disable_counter ≡ 0)
unfolding joined
block_task-switch_example =
    block_task-switch busy {q = busy_tasks} busy-IsSched refl (omega arith) (omega arith)
      (omega arith) paused refl refl refl

unblock_task-sleeping_example :
    IsSched
      (unblock_task busy 50)
      (record { ready = 30 ∷ 40 ∷ 50 ∷ []; paused = 70 ∷ []; sleeping = 60 ∷ []; terminated = [] })
    × Woken busy 50 (unblock_task busy 50)
unblock_task-sleeping_example = unblock_task-sleeping busy (omega arith) busy-IsSched

nano_sleep_until-switch_example :
    IsSched
      (nano_sleep_until busy 1000)
      (record { ready = 40 ∷ []; paused = 70 ∷ []; sleeping = 50 ∷ 60 ∷ 20 ∷ []; terminated = [] })
    × ((nano_sleep_until busy 1000).current ≡ 30)
    × ((nano_sleep_until busy 1000).state 30 ≡ running)
    × ((nano_sleep_until busy 1000).state 20 ≡ sleeping)
nano_sleep_until-switch_example =
    nano_sleep_until-switch busy 1000 busy-IsSched refl (omega arith) (omega arith) refl
      (omega arith) (omega arith)

terminate_task-switch_example :
    IsSched
      (terminate_task busy)
      (record { ready = 40 ∷ 70 ∷ []; paused = []; sleeping = 50 ∷ 60 ∷ []; terminated = 20 ∷ [] })
    × ((terminate_task busy).current ≡ 30)
    × ((terminate_task busy).state 30 ≡ running)
    × ((terminate_task busy).state 20 ≡ terminated)
terminate_task-switch_example =
    terminate_task-switch busy busy-IsSched refl refl (omega arith) (omega arith) refl (omega arith)

hook-Woke_example :
    (w : Sched) × (task_hook_in_timer_handler 20 busy ≡ some (unlock_scheduler (tick w)))
    × Woke (due busy) (lock_scheduler busy) (30 ∷ 40 ∷ []) (70 ∷ []) (50 ∷ 60 ∷ []) [] w
hook-Woke_example = hook-Woke busy (50 ∷ 60 ∷ []) busy-IsSched (omega arith) 20 (omega arith)

hook-preempts_example :
    (turns : ℕ) × (s' : Sched) × (task_hook_in_timer_handler 20 busy ≡ some s')
    × IsSched s' (record {
      ready = 40 ∷ 50 ∷ 20 ∷ [];
      paused = 70 ∷ [];
      sleeping = spin turns (60 ∷ []);
      terminated = [];
    })
    × (s'.current ≡ 30)
    × (s'.state 30 ≡ running)
    × (s'.state 20 ≡ ready)
    × (s'.time_slice_remaining ≡ 200)
unfolding select
hook-preempts_example =
    hook-preempts busy (50 ∷ 60 ∷ []) busy-IsSched (omega arith) 20 (omega arith) refl (omega arith)
      refl refl (omega arith) (omega arith) refl

-- The two tasks that sleep in `busy` have terminated.
abbrev littered : Sched
littered = record busy {
  sleeping = 0;
  terminated = 50;
  pgd = λ n. if n == 50 then some 0x7000 else none;
}

abbrev Littered : Sched → Type 0
Littered s = IsSched s (record busy_tasks { sleeping = []; terminated = 50 ∷ 60 ∷ [] })

littered-IsSched : Littered littered
littered-IsSched = record {
  ready_queue = ground arith;
  paused_queue = ground arith;
  sleeping_queue = refl;
  terminated_queue = ground arith;
  apart = λ m. ground arith;
  idle_out = ground arith;
}

littered_released :
    all_releases littered.pgd (50 ∷ 60 ∷ [])
    ≡ address_space 50 0x7000
      ∷ kernel_stack 50
      ∷ control_block 50
      ∷ kernel_stack 60
      ∷ control_block 60
      ∷ []
unfolding all_releases releases
littered_released = refl

kernel_clean_work-switch_example :
    (s' : Sched) × (kernel_clean_work 3 littered
      ≡ some (s', all_releases littered.pgd (50 ∷ 60 ∷ [])))
    × IsSched s' (record { ready = 40 ∷ []; paused = 70 ∷ 20 ∷ []; sleeping = []; terminated = [] })
    × (s'.current ≡ 30)
    × (s'.state 30 ≡ running)
kernel_clean_work-switch_example =
    kernel_clean_work-switch 3 littered littered-IsSched refl (omega arith) (omega arith) refl
      (omega arith) (omega arith)

abbrev machine : Frames
machine = record {
  frame_map = λ w. 0;
  npages = 40;
  startframe = 0xffff_ffff_8020_0000;
  mem = λ a. 0;
}

machine-IsValid : IsValid machine
machine-IsValid = record { few = omega arith; fits = omega arith }

abbrev kernel : Kernel
kernel = record {
  sched = busy;
  frames = machine;
  task_id_counter = 5;
  task_id = λ n. 0;
  stack0 = λ n. no_pages;
  rsp0 = λ n. 0;
}

create_task-Made_example :
    let (k', new) = create_task 0x10_2000 0x10_1000 80 kernel in
    ((new ≡ 80) × Made kernel k' busy_tasks 80 0x10_2000 0x10_1000)
    ⊎ ((new ≡ 0) × IsSched k'.sched busy_tasks × ((j : ℕ) → j + 10 < 40 → ¬ (FreeRun machine j 10)))
create_task-Made_example =
    create_task-Made 0x10_2000 0x10_1000 80 kernel busy_tasks busy-IsSched machine-IsValid
      (omega arith) (omega arith) (omega arith) refl (omega arith) (omega arith)

-- Before any task was made.
abbrev blank : Kernel
blank = record kernel {
  sched = record busy {
    ready = 0;
    paused = 0;
    sleeping = 0;
    terminated = 0;
    current = 0;
    idle = 0;
  };
}

init_scheduler-IsSched_example :
    let k' = init_scheduler 0x1000 0x10_2000 0x10_1000 10 70 blank in
    ((k'.sched.clean ≡ 70)
      × (k'.sched.current ≡ k'.sched.idle)
      × IsSched k'.sched (record no_tasks { paused = 70 ∷ [] }))
    ⊎ ((k'.sched.clean ≡ 0)
        × ((j : ℕ)
            → j + 10 < (init_idle 0x1000 10 blank).frames.npages
            → ¬ (FreeRun (init_idle 0x1000 10 blank).frames j 10)))
init_scheduler-IsSched_example =
    init_scheduler-IsSched 0x1000 0x10_2000 0x10_1000 10 70 blank
      (record {
        ready_null = refl;
        paused_null = refl;
        sleeping_null = refl;
        terminated_null = refl;
      })
      machine-IsValid (omega arith) (omega arith) (omega arith) (omega arith) (omega arith)
