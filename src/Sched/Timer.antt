-- ===== src/Sched/Timer.antt =====
-- `task_hook_in_timer_handler` of kernel/arch/x86_64/sched/task.c, and `timer_handler` of
-- driver/timer.c that calls it. The loops run on fuel, and `none` means that it ran out.
pub mod Lists
pub mod Drain
pub mod Wake
pub mod Turns
pub mod Rounds
pub mod Hook
use mathlib.Core.Option
use swallow_os.Prelude.{
  ℕ, zero, suc, ◌+◌, ◌-◌, ltb, leb, ◌==◌, if◌then◌else◌, Option, none, some, List,
}
use swallow_os.Prelude.Words.{u64}
use swallow_os.Links.{null}
use swallow_os.Pic.{PortWrite, send_eoi}
use swallow_os.Sched.{lock_scheduler, unlock_scheduler, schedule, unblock_task}
use swallow_os.Sched.State.{Sched}

-- The inner loop, with the task at the head of the sleeping queue: the state and the anchor after it.
unfoldable pub drain : ℕ → Sched → ℕ → Option (Sched × ℕ)
drain zero s anchor = none
drain (suc fuel) s anchor =
    let woken = unblock_task s s.sleeping in
    let rest = drain fuel woken woken.sleeping in
    if leb (s.sleep_expiry s.sleeping) s.timer_count
    then (if woken.sleeping == null then some (woken, anchor) else rest)
    else some (s, anchor)

-- The outer loop; `inner` is the fuel of each inner one.
unfoldable pub wake : ℕ → ℕ → Sched → ℕ → Option Sched
wake inner zero s anchor = none
wake inner (suc fuel) s anchor = elim (drain inner s anchor) [
  | none ↦ none
  | some (d, anchor') ↦
      let rotated = record d { sleeping = d.links.next d.sleeping } in
      let rest = wake inner fuel rotated anchor' in
      if d.sleeping == null
      then some d
      else if anchor' == rotated.sleeping
      then some rotated
      else rest
]

-- The time slice of the current task, where another one is ready.
unfoldable pub tick : Sched → Sched
unfolding schedule
tick s =
    if s.ready == null
    then s
    else if leb s.time_slice_remaining 1
    then schedule s
    else record s { time_slice_remaining = s.time_slice_remaining - 1 }

unfoldable pub task_hook_in_timer_handler : ℕ → Sched → Option Sched
unfolding lock_scheduler unlock_scheduler wake tick
task_hook_in_timer_handler fuel s =
    let locked = lock_scheduler s in
    Option.map (λ woken. unlock_scheduler (tick woken))
      (if locked.sleeping == null then some locked else wake fuel fuel locked locked.sleeping)

-- The interrupt is acknowledged and counted, and then the tasks have their turn.
unfoldable pub timer_handler : ℕ → Sched → Option (Sched × List PortWrite)
unfolding task_hook_in_timer_handler send_eoi
timer_handler fuel s =
    Option.map (λ woken. (woken, send_eoi 0))
      (task_hook_in_timer_handler fuel (record s { timer_count = u64 (s.timer_count + 1) }))
