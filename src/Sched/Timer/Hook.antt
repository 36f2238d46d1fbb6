-- ===== src/Sched/Timer/Hook.antt =====
-- The timer interrupt: which tasks it wakes, and when it switches.
use swallow_os.Prelude.{
  ℕ, zero, suc, ◌+◌, ◌-◌, ◌*◌, ◌^◌, ◌≡◌, ◌≢◌, ◌≤◌, ◌<◌, refl, sym, subst, ◌∙◌, ap, ap₂, Bool, true,
  false, not, List, [], ◌∷◌, ◌++◌, append-nil, arith, length, ◌==◌, leb, some,
}
use swallow_os.Links.{null}
use swallow_os.Links.Path.{has, has-append}
use swallow_os.Sched.{lock_scheduler, unlock_scheduler, schedule}
use swallow_os.Sched.State.{Sched, running, ready}
use swallow_os.Sched.Holds.{hits, IsSched}
use swallow_os.Sched.Switch.{schedule-round_robin}
use swallow_os.Sched.Timer.{tick, task_hook_in_timer_handler}
use swallow_os.Sched.Timer.Drain.{Kept-refl, due}
use swallow_os.Sched.Timer.Lists.{select, spin}
use swallow_os.Sched.Timer.Wake.{Woke, Woke-stop}
use swallow_os.Sched.Timer.Rounds.{rounds, wake-Woke}

length-select : (p : ℕ → Bool) (xs : List ℕ) → length (select p xs) ≤ length xs
unfolding select
length-select p [] = omega arith
length-select p (x ∷ xs) = ground (arith, length-select p xs)

squares : (a b c : ℕ) → a ≤ c → b ≤ c → a * b ≤ c * c
squares a b c h k = grind arith

not-has-select :
    (p : ℕ → Bool) (n : ℕ) (xs : List ℕ) → has n xs ≡ false → has n (select p xs) ≡ false
unfolding select
not-has-select p n [] out = refl
not-has-select p n (x ∷ xs) out = ground (arith, not-has-select p n xs)

not-has-spin : (k n : ℕ) (xs : List ℕ) → has n xs ≡ false → has n (spin k xs) ≡ false
unfolding spin
not-has-spin zero n xs out = out
not-has-spin (suc k) n [] out = not-has-spin k n [] refl
not-has-spin (suc k) n (x ∷ xs) out =
    not-has-spin k n (xs ++ x ∷ []) (ground (arith, has-append n xs (x ∷ [])))

module _ (s : Sched) {rq pq tq : List ℕ} (sq : List ℕ)
    (h : IsSched s (record { ready = rq; paused = pq; sleeping = sq; terminated = tq }))
    (small : s.irq_disable_counter < 2 ^ 32 - 2) (fuel : ℕ)
    (enough : length sq + length sq * length sq < fuel) where
  -- With more fuel than n + n * n for n sleeping tasks, and the counter of masked interrupts
  -- below 2 ^ 32 - 2, the loops of the hook end, and what is left is the part for the time slice,
  -- in a state in which the sleeping tasks that are due have joined the ready queue in order and
  -- the others sleep on in the same circular order.
  pub hook-Woke :
      (w : Sched) × (task_hook_in_timer_handler fuel s ≡ some (unlock_scheduler (tick w)))
      × Woke (due s) (lock_scheduler s) rq pq sq tq w
  unfolding task_hook_in_timer_handler
  hook-Woke = by_queue sq h enough
    where
      by_queue :
          (xs : List ℕ)
          → IsSched s (record { ready = rq; paused = pq; sleeping = xs; terminated = tq })
          → length xs + length xs * length xs < fuel
          → (w : Sched) × (task_hook_in_timer_handler fuel s ≡ some (unlock_scheduler (tick w)))
            × Woke (due s) (lock_scheduler s) rq pq xs tq w
      by_queue [] q f =
          let empty : (s.sleeping == null) ≡ true = ground (arith, q.sleeping_queue) in
          rw empty (
            lock_scheduler s,
            refl,
            Woke-stop (due s) [] (unfold select in refl) (Kept-refl (lock_scheduler s)) refl q,
          )
      by_queue (x ∷ xs) q f =
          let some_asleep : (s.sleeping == null) ≡ false = ground (arith, q.sleeping_queue) in
          let head : s.sleeping ≡ x = q.sleeping_queue.0 in
          let list : x ∷ xs ≡ s.sleeping ∷ (xs ++ []) =
            ap₂ (λ a b. a ∷ b) (sym head) (sym (append-nil xs)) in
          let bound : rounds (due s) xs (x ∷ xs) < fuel = omega (
            arith,
            squares (length (select (due s) (x ∷ xs))) (length (x ∷ xs)) (length (x ∷ xs))
                (length-select (due s) (x ∷ xs)) (omega arith),
          ) in
          let (w, runs, woke) =
            wake-Woke (due s) fuel fuel (lock_scheduler s) s.sleeping rq pq xs [] tq
              (record {
                small = omega arith;
                is_due = refl;
                queues = rw list at q;
                none_due = unfold select in refl;
                at_anchor = refl;
              })
              (rw append-nil (omega arith)) (subst (λ z. rounds (due s) xs z < fuel) list bound) in
          rw some_asleep
            (w, rw runs, subst (λ z. Woke (due s) (lock_scheduler s) rq pq z tq w) (sym list) woke)

  -- With more fuel than n + n * n for n sleeping tasks, the counter of masked interrupts below 2
  -- ^ 32 - 2 and no switch postponed, the timer interrupt ends. Where the time slice of a running
  -- task is up and a task `t` is the first of the ready ones, those counted that the interrupt
  -- has woken, `t` runs for a full time slice and the task that ran goes to the end of the ready
  -- queue. The sleeping tasks that are due have joined the ready queue in order, the others sleep
  -- on in the same circular order. The task that ran is not the idle task and was in no queue.
  pub hook-preempts :
      {t : ℕ} {ts : List ℕ}
      → rq ++ select (due s) sq ≡ t ∷ ts
      → s.time_slice_remaining ≤ 1
      → s.postpone_counter ≡ 0
      → s.state s.current ≡ running
      → s.current ≢ s.idle
      → s.current ≢ null
      → hits s.current (record { ready = rq; paused = pq; sleeping = sq; terminated = tq }) ≡ 0
      → (turns : ℕ) × (s' : Sched) × (task_hook_in_timer_handler fuel s ≡ some s')
        × IsSched s' (record {
          ready = ts ++ s.current ∷ [];
          paused = pq;
          sleeping = spin turns (select (λ n. not (due s n)) sq);
          terminated = tq;
        })
        × (s'.current ≡ t)
        × (s'.state t ≡ running)
        × (s'.state s.current ≡ ready)
        × (s'.time_slice_remaining ≡ 200)
  unfolding tick lock_scheduler unlock_scheduler
  hook-preempts {t} {ts} first up e runs ni ne out =
      let (w, ends, woke) = hook-Woke in
      let asleep : List ℕ = spin woke.turns (select (λ n. not (due s n)) sq) in
      let queues : IsSched w
          (record { ready = t ∷ ts; paused = pq; sleeping = asleep; terminated = tq }) =
        subst
          (λ z. IsSched w (record { ready = z; paused = pq; sleeping = asleep; terminated = tq }))
          first woke.queues in
      let k = woke.kept in
      let c_runs : w.state w.current ≡ running =
        ap w.state k.current ∙ woke.state_kept s.current (ground arith) ∙ runs in
      let c_ready_out : has s.current (t ∷ ts) ≡ false =
        subst (λ z. has s.current z ≡ false) first
          (ground (
            arith,
            has-append s.current rq (select (due s) sq),
            not-has-select (due s) s.current sq,
          )) in
      let c_sleep_out : has s.current asleep ≡ false =
        not-has-spin woke.turns s.current (select (λ n. not (due s n)) sq)
          (not-has-select (λ n. not (due s n)) s.current sq (ground arith)) in
      let c_out : hits s.current
            (record { ready = t ∷ ts; paused = pq; sleeping = asleep; terminated = tq })
          ≡ 0 =
        ground (arith, c_ready_out, c_sleep_out) in
      let (rest, switched, c_ready) =
        schedule-round_robin {s = w} queues (k.postpone ∙ e) c_runs (rw (k.current, k.idle) ni)
          (rw k.current ne)
          (subst
            (λ z.
              hits z (record { ready = t ∷ ts; paused = pq; sleeping = asleep; terminated = tq })
              ≡ 0)
            (sym k.current) c_out) in
      let some_ready : (w.ready == null) ≡ false = ground (arith, queues.ready_queue) in
      let due_now : leb w.time_slice_remaining 1 ≡ true = rw k.slice (ground arith) in
      (
        woke.turns,
        unlock_scheduler (schedule w),
        ends ∙ (rw (some_ready, due_now) refl),
        subst
            (λ z.
              IsSched (schedule w)
                (record { ready = ts ++ z ∷ []; paused = pq; sleeping = asleep; terminated = tq }))
            k.current rest,
        switched.current,
        switched.state,
        subst (λ z. (schedule w).state z ≡ ready) k.current c_ready,
        switched.slice,
      )
