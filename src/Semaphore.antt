-- ===== src/Semaphore.antt =====
-- The counting semaphores and mutexes of kernel/arch/x86_64/sched/semaphore.c, over the scheduler.
pub mod Laws
mod Tests
use swallow_os.Prelude.{ℕ, zero, ◌+◌, ◌-◌, ltb, ◌==◌, if◌then◌else◌, Option, none, some}
use swallow_os.Prelude.Words.{u32}
use swallow_os.Links.{null}
use swallow_os.Sched.{lock_stuff, unlock_stuff, block_task, unblock_task}
use swallow_os.Sched.State.{Sched, waiting_for_lock, enqueue, second}

pub record Semaphore : Type 0 where
  pub max_count : ℕ
  pub current_count : ℕ
  pub waiting_task_list : ℕ

-- `address` is what `kmalloc` returned.
unfoldable pub create_semaphore : ℕ → ℕ → Option Semaphore
create_semaphore address max_count =
    if address == null
    then none
    else some (record { max_count = max_count; current_count = 0; waiting_task_list = null })

unfoldable pub create_mutex : ℕ → Option Semaphore
unfolding create_semaphore
create_mutex address = create_semaphore address 1

unfoldable pub acquire_semaphore : Semaphore → Sched → Semaphore × Sched
unfolding lock_stuff unlock_stuff enqueue block_task
acquire_semaphore m s =
    let locked = lock_stuff s in
    let (l, head) = enqueue locked.links m.waiting_task_list locked.current in
    if ltb m.current_count m.max_count
    then (record m { current_count = u32 (m.current_count + 1) }, unlock_stuff locked)
    else (
      record m { waiting_task_list = head },
      unlock_stuff (block_task (record locked { links = l }) waiting_for_lock),
    )

unfoldable pub release_semaphore : Semaphore → Sched → Semaphore × Sched
unfolding lock_stuff unlock_stuff second unblock_task
release_semaphore m s =
    let locked = lock_stuff s in
    if m.waiting_task_list == null
    then (
      (if ltb 0 m.current_count then record m { current_count = m.current_count - 1 } else m),
      unlock_stuff locked,
    )
    else (
      record m { waiting_task_list = second locked.links m.waiting_task_list },
      unlock_stuff (unblock_task locked m.waiting_task_list),
    )

unfoldable pub acquire_mutex : Semaphore → Sched → Semaphore × Sched
unfolding acquire_semaphore
acquire_mutex = acquire_semaphore

unfoldable pub release_mutex : Semaphore → Sched → Semaphore × Sched
unfolding release_semaphore
release_mutex = release_semaphore
