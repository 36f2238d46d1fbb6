-- ===== src/Sched/State.antt =====
-- The state of the scheduler, and the two moves on its queues that its functions share.
use swallow_os.Prelude.{ℕ, Bool, true, false, Option, ◌==◌, if◌then◌else◌}
use swallow_os.Links.{Links, null, init_list_head, is_last_entry, list_add_tail}
use swallow_os.Pic.{Pic}

-- `state_t`
pub data TaskState : Type 0 where
  running ready paused sleeping terminated waiting_for_lock : TaskState

abbrev pub is_running : TaskState → Bool
is_running running = true
is_running ready = false
is_running paused = false
is_running sleeping = false
is_running terminated = false
is_running waiting_for_lock = false

abbrev pub time_slice_length : ℕ
time_slice_length = 200

-- The fields of every task, the globals of task.c, `timer_count` of timer.c, and the interrupt
-- masks. A task with no `mm` has no page directory of its own. `comes_back` is what the stack of a task
-- that does not run says: whether the task, switched to, goes on behind the call of `switch_to_task` for
-- a ready task in `schedule`.
pub record Sched : Type 0 where
  pub links : Links
  pub state : ℕ → TaskState
  pub time_used : ℕ → ℕ
  pub sleep_expiry : ℕ → ℕ
  pub task_rsp0 : ℕ → ℕ
  pub comes_back : ℕ → Bool
  pub pgd : ℕ → Option ℕ
  pub current : ℕ
  pub idle : ℕ
  pub clean : ℕ
  pub ready : ℕ
  pub paused : ℕ
  pub sleeping : ℕ
  pub terminated : ℕ
  pub postpone_counter : ℕ
  pub postponed : ℕ
  pub irq_disable_counter : ℕ
  pub time_slice_remaining : ℕ
  pub last_count : ℕ
  pub timer_count : ℕ
  pub tss_rsp0 : ℕ
  pub kernel_pgd : ℕ
  pub cr3 : ℕ
  pub pic : Pic

-- A task joins the end of the queue that `head` points to.
unfoldable pub enqueue : Links → ℕ → ℕ → Links × ℕ
unfolding init_list_head list_add_tail
enqueue l head task =
    if head == null then (init_list_head l task, task) else (list_add_tail l task head, head)

-- What a queue's head pointer becomes when its first task leaves.
unfoldable pub second : Links → ℕ → ℕ
unfolding is_last_entry
second l head = if is_last_entry l head then null else l.next head
