-- ===== src/Sched/Clean/Reaped.antt =====
-- Every terminated task is released once.
use swallow_os.Prelude.{
  ℕ, zero, suc, ◌-◌, ◌^◌, ◌≡◌, ◌≢◌, ◌<◌, refl, ap, ◌∙◌, true, false, List, [], ◌∷◌, ◌++◌, length,
  arith, ◌==◌, Option, some,
}
use swallow_os.Links.{Links, null, is_last_entry, list_del}
use swallow_os.Links.Queue.{IsQueue, IsQueue-frame}
use swallow_os.Sched.{lock_stuff, block_task, unlock_stuff}
use swallow_os.Sched.State.{running, paused, Sched, second}
use swallow_os.Sched.Queues.{second-tail}
use swallow_os.Sched.Holds.{Tasks, hits, Holds, IsSched}
use swallow_os.Sched.Block.{joined, block_task-postponed}
use swallow_os.Sched.Sleep.{unlock_stuff-first}
use swallow_os.Sched.Clean.{Release, releases, take_terminated, clean_terminated, kernel_clean_work}

-- What is released of a list of tasks.
unfoldable pub all_releases : (ℕ → Option ℕ) → List ℕ → List Release
all_releases pgd [] = []
all_releases pgd (task ∷ tasks) = releases pgd task ++ all_releases pgd tasks

leave_terminated :
    {l : Links} {r p s t i x y : ℕ} {rq pq sq ys : List ℕ}
    → Holds l r p s t i (record { ready = rq; paused = pq; sleeping = sq; terminated = x ∷ y ∷ ys })
    → Holds
        (list_del l x)
        r
        p
        s
        (l.next x)
        i
        (record { ready = rq; paused = pq; sleeping = sq; terminated = y ∷ ys })
unfolding second is_last_entry
leave_terminated {l} {r} {p} {s} {t} {i} {x} {y} {rq} {pq} {sq} {ys} h =
    let k = list_del l x in
    let more : (l.next x == x) ≡ false = ground (arith, h.terminated_queue) in
    let (new, same) = second-tail l t x (y ∷ ys) h.terminated_queue in
    let new' : IsQueue k (l.next x) (y ∷ ys) = rw more at new in
    record {
      ready_queue =
          IsQueue-frame l k r rq (x ∷ y ∷ ys) same (λ m e. ground (arith, h.apart m)) h.ready_queue;
      paused_queue =
          IsQueue-frame l k p pq (x ∷ y ∷ ys) same (λ m e. ground (arith, h.apart m))
            h.paused_queue;
      sleeping_queue =
          IsQueue-frame l k s sq (x ∷ y ∷ ys) same (λ m e. ground (arith, h.apart m))
            h.sleeping_queue;
      terminated_queue = new';
      apart = λ m. ground (arith, h.apart m);
      idle_out = ground (arith, h.idle_out);
    }

-- The clean-up loop is done with some of the links changed.
abbrev Cleaned : Sched → Tasks → Option (Sched × List Release) → List Release → Type 0
Cleaned s q result calls =
    (l : Links) × (result ≡ some (record s { links = l; terminated = null }, calls))
    × IsSched (record s { links = l; terminated = null }) (record q { terminated = [] })

module _ (q : Tasks) where
  Cleaned-cons :
      (x : ℕ) (tq : List ℕ) (fuel : ℕ) (s : Sched) (k : Links) (p : ℕ)
      → (s.terminated == null) ≡ false
      → s.terminated ≡ x
      → take_terminated s ≡ record s { links = k; terminated = p }
      → Cleaned
          (record s { links = k; terminated = p })
          q
          (clean_terminated fuel (record s { links = k; terminated = p }))
          (all_releases s.pgd tq)
      → Cleaned s q (clean_terminated (suc fuel) s) (all_releases s.pgd (x ∷ tq))
  unfolding clean_terminated all_releases
  Cleaned-cons x tq fuel s k p some_task at step (l, e, h) =
      rw (some_task, step, e)
        (
          l,
          ap
              (λ task. some (
                record s { links = l; terminated = null },
                releases s.pgd task ++ all_releases s.pgd tq,
              ))
              at,
          h,
        )

  clean_terminated-Cleaned :
      (tq : List ℕ) (fuel : ℕ) (s : Sched)
      → IsSched s (record q { terminated = tq })
      → length tq < fuel
      → Cleaned s q (clean_terminated fuel s) (all_releases s.pgd tq)
  unfolding clean_terminated all_releases
  clean_terminated-Cleaned [] zero s h enough = absurd (omega arith)
  clean_terminated-Cleaned [] (suc fuel) s h enough =
      let done : (s.terminated == null) ≡ true = ground (arith, h.terminated_queue) in
      rw done (
        s.links,
        ap (λ z. some (record s { terminated = z }, [])) h.terminated_queue,
        record {
          ready_queue = h.ready_queue;
          paused_queue = h.paused_queue;
          sleeping_queue = h.sleeping_queue;
          terminated_queue = refl;
          apart = h.apart;
          idle_out = h.idle_out;
        },
      )
  clean_terminated-Cleaned (x ∷ tq) zero s h enough = absurd (omega arith)
  clean_terminated-Cleaned (x ∷ []) (suc fuel) s h enough =
      let alone : (s.terminated == s.links.next s.terminated) ≡ true =
        rw h.terminated_queue.0 (ground (arith, h.terminated_queue)) in
      Cleaned-cons x [] fuel s s.links null (ground (arith, h.terminated_queue))
        h.terminated_queue.0 (unfold take_terminated in rw alone refl)
        (clean_terminated-Cleaned [] fuel (record s { terminated = null })
          (record {
            ready_queue = h.ready_queue;
            paused_queue = h.paused_queue;
            sleeping_queue = h.sleeping_queue;
            terminated_queue = refl;
            apart = λ m. ground (arith, h.apart m);
            idle_out = ground (arith, h.idle_out);
          })
          (omega arith))
  clean_terminated-Cleaned (x ∷ y ∷ tq) (suc fuel) s h enough =
      let more : (s.terminated == s.links.next s.terminated) ≡ false =
        rw h.terminated_queue.0 (ground (arith, h.terminated_queue)) in
      Cleaned-cons x (y ∷ tq) fuel s (list_del s.links x) (s.links.next x)
        (ground (arith, h.terminated_queue)) h.terminated_queue.0
        (unfold take_terminated in rw (more, h.terminated_queue.0) refl)
        (clean_terminated-Cleaned (y ∷ tq) fuel
          (record s { links = list_del s.links x; terminated = s.links.next x })
          (leave_terminated h) (omega arith))

-- The current task is not the idle task and is in no queue, the task `t` is the first ready one, no switch
-- is postponed, and the counter of masked interrupts is below 2 ^ 32 - 2: with more rounds than
-- terminated tasks, `kernel_clean_work` releases each of these once, in their order, empties their
-- queue, and puts the current task at the end of the paused queue, and `t` runs.
pub kernel_clean_work-switch :
    (fuel : ℕ) (s : Sched) {t : ℕ} {ts pq sq tq : List ℕ}
    → IsSched s (record { ready = t ∷ ts; paused = pq; sleeping = sq; terminated = tq })
    → hits s.current (record { ready = t ∷ ts; paused = pq; sleeping = sq; terminated = tq }) ≡ 0
    → s.current ≢ null
    → s.current ≢ s.idle
    → s.postpone_counter ≡ 0
    → s.irq_disable_counter < 2 ^ 32 - 2
    → length tq < fuel
    → (s' : Sched) × (kernel_clean_work fuel s ≡ some (s', all_releases s.pgd tq))
      × IsSched s'
          (record { ready = ts; paused = pq ++ s.current ∷ []; sleeping = sq; terminated = [] })
      × (s'.current ≡ t)
      × (s'.state t ≡ running)
unfolding kernel_clean_work joined
kernel_clean_work-switch fuel s {t} {ts} {pq} {sq} {tq} h out ne ni zero_counter small enough =
    let q : Tasks = record { ready = t ∷ ts; paused = pq; sleeping = sq; terminated = tq } in
    let (l, e, cleaned) = clean_terminated-Cleaned q tq fuel (lock_stuff s) h enough in
    let c : Sched = record (lock_stuff s) { links = l; terminated = null } in
    let (queues, same, state, asked, count, irq) =
      block_task-postponed c cleaned (ground arith) ne ni (omega arith) paused (omega arith) refl in
    let b : Sched = block_task c paused in
    let stopped : b.state b.current ≢ running = rw (same, state) (ground arith) in
    let (rest, resumed) =
      unlock_stuff-first b queues (count ∙ omega arith) (rw asked (omega arith)) stopped in
    rw (kernel_clean_work, e) (unlock_stuff b, refl, rest, resumed.current, resumed.state)
