-- ===== src/Sched.antt =====
-- The tasks and the scheduler of kernel/arch/x86_64/sched/task.c and switch.s. A task is the address
-- of the `tcb_list` in its `struct thread_control_block`; the other fields of that structure are
-- functions of the address. The counters are 32-bit, times 64-bit.
pub mod State
pub mod Queues
pub mod Holds
pub mod Switch
pub mod Block
pub mod Unblock
pub mod Clean
pub mod Create
pub mod Sleep
pub mod Timer
mod Tests
use swallow_os.Prelude.{
  ℕ, zero, suc, ◌+◌, ◌-◌, ◌%◌, ◌^◌, Bool, true, false, ◌&&◌, ltb, leb, ◌==◌, if◌then◌else◌, not,
  update, Option, none, some,
}
use swallow_os.Prelude.Words.{u32, u64, sub64}
use swallow_os.Links.{Links, null, init_list_head, is_last_entry, list_add_tail, list_del}
use swallow_os.Pic.{irq_set_mask, irq_clear_mask}
use State.{
  TaskState, running, ready, paused, sleeping, terminated, waiting_for_lock, is_running, Sched,
  enqueue, second, time_slice_length,
}

unfoldable pub lock_scheduler : Sched → Sched
lock_scheduler s = record s {
  pic = irq_set_mask 0 s.pic;
  irq_disable_counter = u32 (s.irq_disable_counter + 1);
}

-- The last statements of `unlock_scheduler` and `unlock_stuff`.
unfoldable pub unlock_scheduler : Sched → Sched
unlock_scheduler s =
    let left = u32 (s.irq_disable_counter + 2 ^ 32 - 1) in
    record s {
      irq_disable_counter = left;
      pic = if left == 0 then irq_clear_mask 0 s.pic else s.pic;
    }

unfoldable pub update_time_used : Sched → Sched
update_time_used s = record s {
  last_count = s.timer_count;
  time_used =
      update s.time_used s.current (u64 (s.time_used s.current + sub64 s.timer_count s.last_count));
}

-- `switch_to_task` of switch.s, up to the stack pointers: what follows it runs on the other stack.
unfoldable pub switch_to_task : Sched → ℕ → Sched
unfolding update_time_used
switch_to_task s next =
    let timed = update_time_used s in
    record timed {
      current = next;
      state = update timed.state next running;
      cr3 = elim (timed.pgd next) [ none ↦ timed.kernel_pgd | some pgd ↦ pgd ];
    }

-- A call of `switch_to_task` in `schedule`, from the branch for a ready task or the other one. The task
-- that it brings back goes on behind the call that it left by itself: only behind the one in the branch
-- for a ready task is the stack for its interrupts written. A new task starts elsewhere.
unfoldable pub leave_for : Bool → Sched → ℕ → Sched
unfolding switch_to_task
leave_for for_ready s next =
    let comes_back = update s.comes_back s.current for_ready in
    let switched = switch_to_task (record s { comes_back = comes_back }) next in
    record switched {
      tss_rsp0 = if comes_back next then switched.task_rsp0 next else switched.tss_rsp0;
    }

-- A running task other than the idle task goes to the end of the ready queue.
unfoldable pub requeue_current : Sched → Sched
requeue_current s =
    if is_running (s.state s.current) && not (s.current == s.idle)
    then record s {
      state = update s.state s.current ready;
      links = list_add_tail s.links s.current s.ready;
    }
    else s

-- The first ready task is taken off its queue and made the current one.
unfoldable pub run_next : Sched → Sched
unfolding leave_for
run_next s =
    let next = s.ready in
    leave_for true
      (record s {
        state = update s.state next running;
        ready = second s.links next;
        links = list_del s.links next;
        time_slice_remaining = time_slice_length;
      })
      next

unfoldable pub schedule : Sched → Sched
unfolding requeue_current run_next leave_for
schedule s =
    if s.postpone_counter == 0
    then (if s.ready == null
        then (if is_running (s.state s.current)
            then s
            else leave_for false (record s { time_slice_remaining = 0 }) s.idle)
        else run_next (requeue_current s))
    else record s { postponed = 1 }

-- The current task joins the queue for the reason that it blocks for; there is none for a lock.
unfoldable pub park : Sched → TaskState → Sched
unfolding enqueue
park s paused =
    let (l, head) = enqueue s.links s.paused s.current in record s { links = l; paused = head }
park s sleeping =
    let (l, head) = enqueue s.links s.sleeping s.current in record s { links = l; sleeping = head }
park s terminated =
    let (l, head) = enqueue s.links s.terminated s.current in
    record s { links = l; terminated = head }
park s running = s
park s ready = s
park s waiting_for_lock = s

-- The cases of the `switch` in `block_task`; the others return at once.
abbrev pub is_reason : TaskState → Bool
is_reason running = false
is_reason ready = false
is_reason paused = true
is_reason sleeping = true
is_reason terminated = true
is_reason waiting_for_lock = true

unfoldable pub block_task : Sched → TaskState → Sched
unfolding lock_scheduler unlock_scheduler park schedule
block_task s reason =
    let locked = lock_scheduler s in
    if locked.current == locked.idle
    then unlock_scheduler locked
    else let blocked = record locked { state = update locked.state locked.current reason } in
      if is_reason reason
      then unlock_scheduler (schedule (park blocked reason))
      else unlock_scheduler blocked

-- A task that was taken off its queue, with `links` as they were, joins the ready queue.
unfoldable pub make_ready : Sched → ℕ → Sched
unfolding enqueue
make_ready s task =
    let (l, head) = enqueue (list_del s.links task) s.ready task in
    record s { links = l; ready = head; state = update s.state task ready }

-- Only the first task of the sleeping or of the paused queue is found.
unfoldable pub unblock_task : Sched → ℕ → Sched
unfolding lock_scheduler unlock_scheduler make_ready
unblock_task s task =
    let locked = lock_scheduler s in
    if not (locked.sleeping == null) && (task == locked.sleeping)
    then unlock_scheduler
        (make_ready (record locked { sleeping = second locked.links locked.sleeping }) task)
    else if not (locked.paused == null) && (task == locked.paused)
    then unlock_scheduler
        (make_ready (record locked { paused = second locked.links locked.paused }) task)
    else unlock_scheduler locked

unfoldable pub lock_stuff : Sched → Sched
unfolding lock_scheduler
lock_stuff s =
    let locked = lock_scheduler s in
    record locked { postpone_counter = u32 (locked.postpone_counter + 1) }

unfoldable pub unlock_stuff : Sched → Sched
unfolding unlock_scheduler schedule
unlock_stuff s =
    let left = record s { postpone_counter = u32 (s.postpone_counter + 2 ^ 32 - 1) } in
    unlock_scheduler (
      if (left.postpone_counter == 0) && not (left.postponed == 0)
      then schedule (record left { postponed = 0 })
      else left)

-- The final `sti` touches no state of the scheduler.
unfoldable pub nano_sleep_until : Sched → ℕ → Sched
unfolding lock_stuff unlock_stuff block_task
nano_sleep_until s time =
    let locked = lock_stuff s in
    if ltb time locked.timer_count
    then unlock_stuff locked
    else unlock_stuff (
        block_task (record locked { sleep_expiry = update locked.sleep_expiry locked.current time })
          sleeping)

unfoldable pub terminate_task : Sched → Sched
unfolding lock_stuff unlock_stuff block_task unblock_task
terminate_task s =
    let locked = lock_stuff s in
    unlock_stuff (block_task (unblock_task locked locked.clean) terminated)
