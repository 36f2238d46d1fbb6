-- ===== src/Sched/Switch.antt =====
-- `schedule`: which task runs next.
use swallow_os.Prelude.{
  update, ℕ, ◌≡◌, ◌≢◌, refl, true, false, ◌&&◌, not, List, [], ◌∷◌, ◌++◌, arith, ◌==◌,
  if◌then◌else◌, Bool-cases, inl, inr, ◌⊎◌,
}
use swallow_os.Links.{null}
use swallow_os.Sched.{schedule}
use swallow_os.Sched.State.{running, ready, is_running, Sched, time_slice_length}
use swallow_os.Sched.Holds.{Tasks, hits, IsSched, enqueue-list_add_tail, enqueue_ready, leave_ready}

-- What a switch to the task `t` leaves: `t` is current and running, with a full time slice, and, where
-- it comes back in the branch of `schedule` for a ready task, the stack for its interrupts.
pub record Switched (s : Sched) (t : ℕ) (s' : Sched) : Type 0 where
  pub current : s'.current ≡ t
  pub state : s'.state t ≡ running
  pub slice : s'.time_slice_remaining ≡ time_slice_length
  pub stack :
      s'.tss_rsp0 ≡ (if update s.comes_back s.current true t then s.task_rsp0 t else s.tss_rsp0)
  pub others : (n : ℕ) → n ≢ t → n ≢ s.current → s'.state n ≡ s.state n

module _ {s : Sched} {t : ℕ} {ts pq sq tq : List ℕ}
    (h : IsSched s (record { ready = t ∷ ts; paused = pq; sleeping = sq; terminated = tq })) where
  -- Where no switch is postponed, the task `t` is the first ready one, and the current task has
  -- stopped running or is the idle task, `schedule` runs `t` with a full time slice and takes it
  -- off the ready queue; the other queues and the states of the other tasks stay.
  pub schedule-first :
      s.postpone_counter ≡ 0
      → (s.state s.current ≢ running) ⊎ (s.current ≡ s.idle)
      → IsSched (schedule s) (record { ready = ts; paused = pq; sleeping = sq; terminated = tq })
        × Switched s t (schedule s)
        × ((schedule s).state s.current ≡ (if s.current == t then running else s.state s.current))
  unfolding schedule
  schedule-first e stopped =
      let (rest, out, ne, ni, head) = leave_ready h in
      let now : (s.postpone_counter == 0) ≡ true = ground arith in
      let some_ready : (s.ready == null) ≡ false = ground arith in
      let same : (is_running (s.state s.current) && not (s.current == s.idle)) ≡ false =
        ground arith in
      rw (now, some_ready, same, head)
        (
          rest,
          record {
            current = refl;
            state = ground arith;
            slice = refl;
            stack = refl;
            others = λ n p p'. ground arith;
          },
          ground arith,
        )

  -- Round robin: where no switch is postponed, the task `t` is the first ready one, and the
  -- current task still runs, is not the idle task and is in no queue, `schedule` runs `t` with a
  -- full time slice, and the task that ran becomes ready and goes to the end of the ready queue.
  pub schedule-round_robin :
      s.postpone_counter ≡ 0
      → s.state s.current ≡ running
      → s.current ≢ s.idle
      → s.current ≢ null
      → hits s.current (record { ready = t ∷ ts; paused = pq; sleeping = sq; terminated = tq }) ≡ 0
      → IsSched
          (schedule s)
          (record { ready = ts ++ s.current ∷ []; paused = pq; sleeping = sq; terminated = tq })
        × Switched s t (schedule s)
        × ((schedule s).state s.current ≡ ready)
  unfolding schedule
  schedule-round_robin e runs ni ne out =
      let head : s.ready ≡ t = h.ready_queue.0 in
      let now : (s.postpone_counter == 0) ≡ true = ground arith in
      let some_ready : (s.ready == null) ≡ false = ground (arith, h.ready_queue) in
      let again : (s.current == s.idle) ≡ false = ground arith in
      let joined =
        rw (enqueue-list_add_tail s.links s.ready s.current some_ready) at
          (enqueue_ready h s.current out ne ni) in
      let (rest, out', ne', ni', head') = leave_ready joined in
      let rest' = rw (← head) at rest in
      rw (now, some_ready, runs, again)
        (
          rest',
          record {
            current = head;
            state = ground arith;
            slice = refl;
            stack = rw head;
            others = λ n p p'. ground arith;
          },
          ground arith,
        )

-- With no task ready and no switch postponed, a current task that still runs goes on and nothing
-- changes; else the idle task runs, with no time slice, and the queues stay.
pub schedule-idle :
    {s : Sched} {pq sq tq : List ℕ}
    → let q : Tasks = record { ready = []; paused = pq; sleeping = sq; terminated = tq } in
      IsSched s q
      → s.postpone_counter ≡ 0
      → ((s.state s.current ≡ running) × (schedule s ≡ s))
        ⊎ ((s.state s.current ≢ running)
            × IsSched (schedule s) q
            × ((schedule s).current ≡ s.idle)
            × ((schedule s).state s.idle ≡ running)
            × ((schedule s).time_slice_remaining ≡ 0))
unfolding schedule
schedule-idle {s} h e =
    let now : (s.postpone_counter == 0) ≡ true = ground arith in
    let none_ready : (s.ready == null) ≡ true = ground (arith, h.ready_queue) in
    elim (Bool-cases (is_running (s.state s.current))) [
      | inl runs ↦ rw (now, none_ready, runs) (inl (ground arith, refl))
      | inr stopped ↦
          rw (now, none_ready, stopped) (inr (ground arith, h, refl, ground arith, refl))
    ]
