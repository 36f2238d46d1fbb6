-- ===== src/Sched/Sleep.antt =====
-- The calls that block inside `lock_stuff` and `unlock_stuff`: sleeping and terminating.
use swallow_os.Prelude.{
  ℕ, ◌+◌, ◌-◌, ◌^◌, ◌<◌, ◌≤◌, ◌≡◌, ◌≢◌, refl, sym, subst, ◌∙◌, true, false, ◌&&◌, not, List, [],
  ◌∷◌, ◌++◌, arith, ◌==◌, update, inl, ltb,
}
use swallow_os.Prelude.Words.{u32}
use swallow_os.Links.{null}
use swallow_os.Links.Path.{has, has-append}
use swallow_os.Links.Ring.{SameOutside}
use swallow_os.Links.Queue.{IsQueue}
use swallow_os.Sched.Queues.{second-tail}
use swallow_os.Sched.{
  requeue_current, run_next, leave_for, schedule, block_task, unblock_task, lock_stuff,
  unlock_stuff, nano_sleep_until, terminate_task,
}
use swallow_os.Sched.State.{TaskState, is_running, running, sleeping, terminated, Sched}
use swallow_os.Sched.Holds.{Tasks, hits, IsSched}
use swallow_os.Sched.Switch.{schedule-first}
use swallow_os.Sched.Block.{joined, block_task-postponed}
use swallow_os.Sched.Unblock.{unblock_task-paused}

-- What a switch away from a task that blocked leaves: the task `t` runs, no switch is postponed any
-- more, and the counter of `lock_stuff` is down by one.
pub record Resumed (s : Sched) (t : ℕ) (s' : Sched) : Type 0 where
  pub current : s'.current ≡ t
  pub state : s'.state t ≡ running
  pub blocked : s.current ≢ t → s'.state s.current ≡ s.state s.current
  pub postpone : s'.postpone_counter ≡ 0
  pub postponed : s'.postponed ≡ 0

schedule-postpone : (s : Sched) → (schedule s).postpone_counter ≡ s.postpone_counter
unfolding schedule
schedule-postpone s = ground arith

schedule-postponed : (s : Sched) → s.postpone_counter ≡ 0 → (schedule s).postponed ≡ s.postponed
unfolding schedule
schedule-postponed s e = ground arith

-- The outermost `unlock_stuff` makes up for a postponed switch: the current task, which has blocked,
-- gives way to the first ready task.
pub unlock_stuff-first :
    (s : Sched) {t : ℕ} {ts pq sq tq : List ℕ}
    → IsSched s (record { ready = t ∷ ts; paused = pq; sleeping = sq; terminated = tq })
    → s.postpone_counter ≡ 1
    → s.postponed ≢ 0
    → s.state s.current ≢ running
    → IsSched (unlock_stuff s) (record { ready = ts; paused = pq; sleeping = sq; terminated = tq })
      × Resumed s t (unlock_stuff s)
unfolding unlock_stuff
unlock_stuff-first s {t} h one asked stopped =
    let left : Sched = record s {
      postpone_counter = u32 (s.postpone_counter + 2 ^ 32 - 1);
      postponed = 0;
    } in
    let zero_left : u32 (s.postpone_counter + 2 ^ 32 - 1) ≡ 0 = omega arith in
    let due : ((u32 (s.postpone_counter + 2 ^ 32 - 1) == 0) && not (s.postponed == 0)) ≡ true =
      ground arith in
    let (queues, switched, stays) = schedule-first {s = left} h zero_left (inl stopped) in
    rw due (
      queues,
      record {
        current = switched.current;
        state = switched.state;
        blocked = λ ne. stays ∙ ground arith;
        postpone = schedule-postpone left ∙ zero_left;
        postponed = schedule-postponed left zero_left;
      },
    )

-- The switch takes the first ready task out of its ring, and touches no other task's links.
pub unlock_stuff-links :
    (s : Sched) (t : ℕ) (ts : List ℕ)
    → IsQueue s.links s.ready (t ∷ ts)
    → s.postpone_counter ≡ 1
    → s.postponed ≢ 0
    → is_running (s.state s.current) ≡ false
    → SameOutside (t ∷ ts) s.links (unlock_stuff s).links
unfolding unlock_stuff schedule requeue_current run_next leave_for
unlock_stuff-links s t ts first one asked stays =
    let zero_left : u32 (s.postpone_counter + 2 ^ 32 - 1) ≡ 0 = omega arith in
    let wanted : (s.postponed == 0) ≡ false = ground arith in
    let head : (s.ready == null) ≡ false = ground arith in
    rw (zero_left, wanted, head, stays, first.0) (second-tail s.links s.ready t ts first).1

pub stays_blocked :
    (g f : ℕ → TaskState) (a c t : ℕ) (r : TaskState)
    → a ≡ c
    → c ≢ t
    → f c ≡ r
    → (a ≢ t → g a ≡ f a)
    → g c ≡ r
stays_blocked g f a c t r e ne fc same = subst (λ z. g z ≡ r) e (same (rw e ne) ∙ rw e fc)

-- The current task is not the idle task and is in no queue, the task `t` is the first ready one,
-- no switch is postponed, and the counter of masked interrupts is below 2 ^ 32 - 2: sleeping
-- until a time that is not past puts the current task at the end of the sleeping queue, and `t`
-- runs.
pub nano_sleep_until-switch :
    (s : Sched) (time : ℕ) {t : ℕ} {ts pq sq tq : List ℕ}
    → IsSched s (record { ready = t ∷ ts; paused = pq; sleeping = sq; terminated = tq })
    → hits s.current (record { ready = t ∷ ts; paused = pq; sleeping = sq; terminated = tq }) ≡ 0
    → s.current ≢ null
    → s.current ≢ s.idle
    → s.postpone_counter ≡ 0
    → s.irq_disable_counter < 2 ^ 32 - 2
    → s.timer_count ≤ time
    → IsSched
        (nano_sleep_until s time)
        (record { ready = ts; paused = pq; sleeping = sq ++ s.current ∷ []; terminated = tq })
      × ((nano_sleep_until s time).current ≡ t)
      × ((nano_sleep_until s time).state t ≡ running)
      × ((nano_sleep_until s time).state s.current ≡ sleeping)
unfolding nano_sleep_until joined
nano_sleep_until-switch s time {t} h out ne ni e small due =
    let locked : Sched = lock_stuff s in
    let later : (ltb time s.timer_count) ≡ false = ground arith in
    let asleep : Sched = record locked { sleep_expiry = update s.sleep_expiry s.current time } in
    let (queues, same, state, asked, count, irq) =
      block_task-postponed asleep h out ne ni (omega arith) sleeping (omega arith) refl in
    let b : Sched = block_task asleep sleeping in
    let one : b.postpone_counter ≡ 1 = count ∙ omega arith in
    let stopped : b.state b.current ≢ running = rw (same, state) (ground arith) in
    let apart : s.current ≢ t = ground arith in
    let (rest, resumed) = unlock_stuff-first b queues one (rw asked (omega arith)) stopped in
    rw later (
      rest,
      resumed.current,
      resumed.state,
      stays_blocked (unlock_stuff b).state b.state b.current s.current t sleeping same apart state
          resumed.blocked,
    )

-- The current task is not the idle task and is in no queue, the clean-up task is the first paused
-- one, no switch is postponed, and the counter of masked interrupts is below 2 ^ 32 - 2:
-- `terminate_task` makes the clean-up task ready, the current task ends up in the terminated
-- queue, and the first of the ready tasks, the clean-up task the last of them, runs.
pub terminate_task-switch :
    (s : Sched) {t : ℕ} {rq ts pq sq tq : List ℕ}
    → IsSched s (record { ready = rq; paused = s.clean ∷ pq; sleeping = sq; terminated = tq })
    → rq ++ s.clean ∷ [] ≡ t ∷ ts
    → hits s.current (record { ready = rq; paused = s.clean ∷ pq; sleeping = sq; terminated = tq })
      ≡ 0
    → s.current ≢ null
    → s.current ≢ s.idle
    → s.postpone_counter ≡ 0
    → s.irq_disable_counter < 2 ^ 32 - 2
    → IsSched
        (terminate_task s)
        (record { ready = ts; paused = pq; sleeping = sq; terminated = tq ++ s.current ∷ [] })
      × ((terminate_task s).current ≡ t)
      × ((terminate_task s).state t ≡ running)
      × ((terminate_task s).state s.current ≡ terminated)
unfolding terminate_task joined
terminate_task-switch s {t} {rq} {ts} {pq} {sq} {tq} h first out ne ni e small =
    let (woken, kept) = unblock_task-paused (lock_stuff s) (omega arith) h in
    let u : Sched = unblock_task (lock_stuff s) s.clean in
    let queues =
      subst (λ z. IsSched u (record { ready = z; paused = pq; sleeping = sq; terminated = tq }))
        first woken in
    let not_ready : has s.current (t ∷ ts) ≡ false =
      subst (λ z. has s.current z ≡ false) first
        (ground (arith, has-append s.current rq (s.clean ∷ []))) in
    let q : Tasks = record { ready = t ∷ ts; paused = pq; sleeping = sq; terminated = tq } in
    let free : hits s.current q ≡ 0 = ground arith in
    let still = subst (λ z. hits z q ≡ 0) (sym kept.current) free in
    let (parked, same, state, asked, count, irq) =
      block_task-postponed u queues still (rw kept.current ne) (rw (kept.current, kept.idle) ni)
        (rw kept.irq (omega arith)) terminated (rw kept.postpone (omega arith)) refl in
    let b : Sched = block_task u terminated in
    let here : b.current ≡ s.current = same ∙ kept.current in
    let ended : b.state s.current ≡ terminated =
      subst (λ z. b.state z ≡ terminated) kept.current state in
    let one : b.postpone_counter ≡ 1 = count ∙ kept.postpone ∙ omega arith in
    let stopped : b.state b.current ≢ running = rw (here, ended) (ground arith) in
    let apart : s.current ≢ t = ground arith in
    let (rest, resumed) =
      unlock_stuff-first b
        (subst
          (λ z.
            IsSched b
              (record { ready = t ∷ ts; paused = pq; sleeping = sq; terminated = tq ++ z ∷ [] }))
          kept.current parked)
        one (rw asked (omega arith)) stopped in
    (
      rest,
      resumed.current,
      resumed.state,
      stays_blocked (unlock_stuff b).state b.state b.current s.current t terminated here apart ended
          resumed.blocked,
    )
