-- ===== src/Sched/Block.antt =====
-- Blocking and unblocking tasks.
use swallow_os.Prelude.{
  ℕ, ◌+◌, ◌-◌, ◌^◌, ◌<◌, ◌≡◌, ◌≢◌, refl, subst, ◌∙◌, true, false, List, [], ◌∷◌, ◌++◌, arith, ◌==◌,
  if◌then◌else◌, update, inl,
}
use swallow_os.Prelude.Words.{u32}
use swallow_os.Links.{null}
use swallow_os.Sched.{lock_scheduler, schedule, park, is_reason, block_task}
use swallow_os.Sched.State.{
  TaskState, running, ready, paused, sleeping, terminated, waiting_for_lock, Sched,
}
use swallow_os.Sched.Holds.{
  Tasks, hits, IsSched, enqueue_paused, enqueue_sleeping, enqueue_terminated,
}
use swallow_os.Sched.Switch.{schedule-first}

-- The queues with a task `n` at the end of the one for `reason`.
unfoldable pub joined : Tasks → TaskState → ℕ → Tasks
joined q paused n = record q { paused = q.paused ++ n ∷ [] }
joined q sleeping n = record q { sleeping = q.sleeping ++ n ∷ [] }
joined q terminated n = record q { terminated = q.terminated ++ n ∷ [] }
joined q running n = q
joined q ready n = q
joined q waiting_for_lock n = q

module _ (s : Sched) {q : Tasks} (h : IsSched s q) (out : hits s.current q ≡ 0)
    (ne : s.current ≢ null) (ni : s.current ≢ s.idle) where
  pub park-joined : (reason : TaskState) → IsSched (park s reason) (joined q reason s.current)
  unfolding park joined
  park-joined paused = enqueue_paused h s.current out ne ni
  park-joined sleeping = enqueue_sleeping h s.current out ne ni
  park-joined terminated = enqueue_terminated h s.current out ne ni
  park-joined running = h
  park-joined ready = h
  park-joined waiting_for_lock = h

-- `park` writes queues only.
pub record Parked (s s' : Sched) : Type 0 where
  pub current : s'.current ≡ s.current
  pub idle : s'.idle ≡ s.idle
  pub state : s'.state ≡ s.state
  pub postpone : s'.postpone_counter ≡ s.postpone_counter
  pub irq : s'.irq_disable_counter ≡ s.irq_disable_counter
  pub ready : s'.ready ≡ s.ready
  pub expiry : s'.sleep_expiry ≡ s.sleep_expiry

park-Parked : (s : Sched) (reason : TaskState) → Parked s (park s reason)
unfolding park
park-Parked s paused = record {
  current = refl;
  idle = refl;
  state = refl;
  postpone = refl;
  irq = refl;
  ready = refl;
  expiry = refl;
}
park-Parked s _ = record {
  current = refl;
  idle = refl;
  state = refl;
  postpone = refl;
  irq = refl;
  ready = refl;
  expiry = refl;
}

joined-ready : (q : Tasks) (reason : TaskState) (n : ℕ) → (joined q reason n).ready ≡ q.ready
unfolding joined
joined-ready q paused n = refl
joined-ready q _ n = refl

pub schedule-irq : (s : Sched) → (schedule s).irq_disable_counter ≡ s.irq_disable_counter
unfolding schedule
schedule-irq s = ground arith

state_kept :
    (g f : ℕ → TaskState) (a c t : ℕ) (reason : TaskState)
    → a ≡ c
    → c ≢ t
    → f c ≡ reason
    → g a ≡ (if a == t then running else f a)
    → g c ≡ reason
state_kept g f a c t reason e ne fc ga = ground arith

written : (f : ℕ → TaskState) (c : ℕ) (r : TaskState) → update f c r c ≡ r
written f c r = ground arith

irq_kept : (a b c : ℕ) → a < 2 ^ 32 - 1 → c ≡ b → b ≡ u32 (a + 1) → u32 (c + 2 ^ 32 - 1) ≡ a
irq_kept a b c h e f = omega arith

module _ (s : Sched) {q : Tasks} (h : IsSched s q) (out : hits s.current q ≡ 0)
    (ne : s.current ≢ null) (ni : s.current ≢ s.idle)
    (small : s.irq_disable_counter < 2 ^ 32 - 1) where
  -- Where task switches are postponed, `block_task` only puts the current task, which is not the
  -- idle task and is in no queue, at the end of the queue for its reason, or in none for a lock,
  -- and asks for a switch: the task stays current. The counter of masked interrupts, which is
  -- below 2 ^ 32 - 1, and that of `lock_stuff` stay.
  pub block_task-postponed :
      (reason : TaskState)
      → s.postpone_counter ≢ 0
      → is_reason reason ≡ true
      → IsSched (block_task s reason) (joined q reason s.current)
        × ((block_task s reason).current ≡ s.current)
        × ((block_task s reason).state s.current ≡ reason)
        × ((block_task s reason).postponed ≡ 1)
        × ((block_task s reason).postpone_counter ≡ s.postpone_counter)
        × ((block_task s reason).irq_disable_counter ≡ s.irq_disable_counter)
  unfolding block_task joined
  block_task-postponed reason e r =
      let blocked : Sched = record (lock_scheduler s) { state = update s.state s.current reason } in
      let other : (s.current == s.idle) ≡ false = ground arith in
      let parked = park-Parked blocked reason in
      let later : ((park blocked reason).postpone_counter == 0) ≡ false =
        ground (arith, parked.postpone) in
      rw (other, r, later)
        (
          park-joined blocked h out ne ni reason,
          parked.current,
          ground (arith, parked.state),
          refl,
          parked.postpone,
          ground (arith, parked.irq),
        )

  -- Where no switch is postponed and the task `t` is the first ready one, `block_task` puts the
  -- current task, which is not the idle task and is in no queue, at the end of the queue for its
  -- reason, or in none for a lock, and `t` runs. The counter of masked interrupts, which is below
  -- 2 ^ 32 - 1, stays.
  pub block_task-switch :
      (reason : TaskState) {t : ℕ} {ts : List ℕ}
      → s.postpone_counter ≡ 0
      → is_reason reason ≡ true
      → q.ready ≡ t ∷ ts
      → IsSched (block_task s reason) (record (joined q reason s.current) { ready = ts })
        × ((block_task s reason).current ≡ t)
        × ((block_task s reason).state s.current ≡ reason)
        × ((block_task s reason).state t ≡ running)
        × ((block_task s reason).irq_disable_counter ≡ s.irq_disable_counter)
  unfolding block_task
  block_task-switch reason {t} {ts} e r first =
      let blocked : Sched = record (lock_scheduler s) { state = update s.state s.current reason } in
      let other : (s.current == s.idle) ≡ false = ground arith in
      let parked = park-Parked blocked reason in
      let p : Sched = park blocked reason in
      let queues =
        subst (λ z. IsSched p (record (joined q reason s.current) { ready = z }))
          (joined-ready q reason s.current ∙ first) (park-joined blocked h out ne ni reason) in
      let apart : s.current ≢ t = ground (arith, out, first) in
      let kept : p.state s.current ≡ reason = rw parked.state (written s.state s.current reason) in
      let not_running : p.state p.current ≢ running =
        rw (parked.current, kept) (ground (arith, r)) in
      let (rest, switched, stays) =
        schedule-first {s = p} queues (parked.postpone ∙ e) (inl not_running) in
      rw (other, r)
        (
          rest,
          switched.current,
          state_kept (schedule p).state p.state p.current s.current t reason parked.current apart
              kept stays,
          switched.state,
          irq_kept s.irq_disable_counter p.irq_disable_counter (schedule p).irq_disable_counter
              small (schedule-irq p) parked.irq,
        )
