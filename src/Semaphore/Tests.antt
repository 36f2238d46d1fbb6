-- ===== src/Semaphore/Tests.antt =====
-- Semaphores on a concrete scheduler.
use swallow_os.Prelude.{◌+◌, ◌≡◌, refl, ◌==◌, ◌||◌, if◌then◌else◌, arith, [], ◌∷◌, none}
use swallow_os.Links.Queue.{IsQueue}
use swallow_os.Sched.State.{Sched, running, ready, waiting_for_lock, second}
use swallow_os.Sched.Holds.{Tasks, IsSched}
use swallow_os.Semaphore.{Semaphore, acquire_semaphore, release_semaphore}
use swallow_os.Semaphore.Laws.{
  Unchanged, MovedOn, release_semaphore-loses, acquire_semaphore-blocks,
}

-- Task 20 runs, 30 is ready, 40 waits for a lock, and 10 is the idle task.
abbrev waiting : Sched
waiting = record {
  links = record { next = λ n. n; prev = λ n. n };
  state = λ n. if n == 20 then running else if n == 40 then waiting_for_lock else ready;
  time_used = λ n. 0;
  sleep_expiry = λ n. 0;
  task_rsp0 = λ n. n + 5;
  comes_back = λ n. n == 30;
  pgd = λ n. none;
  current = 20;
  idle = 10;
  clean = 70;
  ready = 30;
  paused = 0;
  sleeping = 0;
  terminated = 0;
  postpone_counter = 0;
  postponed = 0;
  irq_disable_counter = 0;
  time_slice_remaining = 1;
  last_count = 800;
  timer_count = 1000;
  tss_rsp0 = 25;
  kernel_pgd = 0x1000;
  cr3 = 0x1000;
  pic = record { mask1 = 0; mask2 = 0 };
}

abbrev waiting_tasks : Tasks
waiting_tasks = record { ready = 30 ∷ []; paused = []; sleeping = []; terminated = [] }

waiting-IsSched : IsSched waiting waiting_tasks
waiting-IsSched = record {
  ready_queue = ground arith;
  paused_queue = refl;
  sleeping_queue = refl;
  terminated_queue = refl;
  apart = λ n. ground arith;
  idle_out = refl;
}

abbrev free_lock : Semaphore
free_lock = record { max_count = 2; current_count = 1; waiting_task_list = 0 }

abbrev taken_lock : Semaphore
taken_lock = record { max_count = 1; current_count = 1; waiting_task_list = 40 }

-- Task 50 waits for the lock as well, behind task 40.
abbrev both_wait : Sched
both_wait = record waiting {
  links = record {
    next = λ n. if n == 40 then 50 else if n == 50 then 40 else n;
    prev = λ n. if n == 40 then 50 else if n == 50 then 40 else n;
  };
  state = λ n. if n == 20 then running else if n == 40 || n == 50 then waiting_for_lock else ready;
}

release_semaphore-loses_example :
    ((release_semaphore taken_lock both_wait).0
      ≡ record taken_lock { waiting_task_list = second both_wait.links 40 })
    × Unchanged both_wait (release_semaphore taken_lock both_wait).1
    × MovedOn
        (release_semaphore taken_lock both_wait).1.links
        (release_semaphore taken_lock both_wait).0.waiting_task_list
        40
        (50 ∷ [])
release_semaphore-loses_example =
    release_semaphore-loses taken_lock both_wait refl refl 40 (50 ∷ []) (ground arith) (omega arith)
      (omega arith)

acquire_semaphore-blocks_example :
    ((acquire_semaphore taken_lock waiting).0.current_count ≡ 1)
    × IsQueue
        (acquire_semaphore taken_lock waiting).1.links
        (acquire_semaphore taken_lock waiting).0.waiting_task_list
        (40 ∷ 20 ∷ [])
    × IsSched
        (acquire_semaphore taken_lock waiting).1
        (record { ready = []; paused = []; sleeping = []; terminated = [] })
    × ((acquire_semaphore taken_lock waiting).1.current ≡ 30)
    × ((acquire_semaphore taken_lock waiting).1.state 30 ≡ running)
    × ((acquire_semaphore taken_lock waiting).1.state 20 ≡ waiting_for_lock)
acquire_semaphore-blocks_example =
    acquire_semaphore-blocks taken_lock waiting refl refl (40 ∷ []) waiting-IsSched (ground arith)
      (λ n h. ground arith) refl (omega arith) (omega arith) (omega arith) (omega arith)
