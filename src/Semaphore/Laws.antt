-- ===== src/Semaphore/Laws.antt =====
-- What acquiring and releasing a semaphore does to its count and to the tasks.
use swallow_os.Prelude.{
  ℕ, ◌+◌, ◌-◌, ◌^◌, ◌≡◌, ◌≢◌, ◌≤◌, ◌<◌, refl, sym, subst, ◌∙◌, ap, true, false, not, List, [], ◌∷◌,
  ◌++◌, arith, ltb, ◌==◌,
}
use swallow_os.Prelude.Words.{u32}
use swallow_os.Links.{Links, null, is_last_entry}
use swallow_os.Links.Path.{has, has-append}
use swallow_os.Links.Ring.{SameOutside}
use swallow_os.Links.Queue.{IsQueue, IsQueue-frame}
use swallow_os.Sched.{
  lock_scheduler, unlock_scheduler, lock_stuff, unlock_stuff, block_task, schedule, park,
}
use swallow_os.Sched.State.{Sched, running, waiting_for_lock, enqueue, second}
use swallow_os.Sched.Queues.{enqueue-snoc, IsQueue-rotate}
use swallow_os.Sched.Holds.{Tasks, Holds, hits, IsSched}
use swallow_os.Sched.Block.{joined, block_task-postponed}
use swallow_os.Sched.Unblock.{unblock_task-missed}
use swallow_os.Sched.Sleep.{unlock_stuff-first, unlock_stuff-links, stays_blocked}
use swallow_os.Semaphore.{Semaphore, acquire_semaphore, release_semaphore}

-- A call of `lock_stuff` and `unlock_stuff` with nothing postponed changes no queue and no task.
pub record Unchanged (s s' : Sched) : Type 0 where
  pub links : s'.links ≡ s.links
  pub state : s'.state ≡ s.state
  pub current : s'.current ≡ s.current
  pub ready : s'.ready ≡ s.ready
  pub paused : s'.paused ≡ s.paused
  pub sleeping : s'.sleeping ≡ s.sleeping
  pub terminated : s'.terminated ≡ s.terminated
  pub postpone : s'.postpone_counter ≡ s.postpone_counter

lock_unlock :
    (s : Sched)
    → s.postpone_counter ≡ 0
    → s.postponed ≡ 0
    → Unchanged s (unlock_stuff (lock_stuff s))
unfolding lock_stuff unlock_stuff
lock_unlock s e f =
    let calm : (not (s.postponed == 0)) ≡ false = ground arith in
    let zero_again : u32 (u32 (s.postpone_counter + 1) + 2 ^ 32 - 1) ≡ 0 = omega arith in
    rw (calm, zero_again)
      (record {
        links = refl;
        state = refl;
        current = refl;
        ready = refl;
        paused = refl;
        sleeping = refl;
        terminated = refl;
        postpone = sym e;
      })

lock_unlock_twice :
    (s : Sched)
    → s.postpone_counter ≡ 0
    → s.postponed ≡ 0
    → Unchanged s (unlock_stuff (unlock_scheduler (lock_scheduler (lock_stuff s))))
unfolding lock_stuff unlock_stuff
lock_unlock_twice s e f =
    let calm : (not (s.postponed == 0)) ≡ false = ground arith in
    let zero_again : u32 (u32 (s.postpone_counter + 1) + 2 ^ 32 - 1) ≡ 0 = omega arith in
    rw (calm, zero_again)
      (record {
        links = refl;
        state = refl;
        current = refl;
        ready = refl;
        paused = refl;
        sleeping = refl;
        terminated = refl;
        postpone = sym e;
      })

-- While switches are postponed, blocking for a lock touches no queue.
block_task-links :
    (s : Sched)
    → s.current ≢ s.idle
    → s.postpone_counter ≢ 0
    → (block_task s waiting_for_lock).links ≡ s.links
unfolding block_task schedule park
block_task-links s ni e =
    let other : (s.current == s.idle) ≡ false = ground arith in
    let later : (s.postpone_counter == 0) ≡ false = ground arith in rw (other, later) refl

-- Who waits in the ring of the task `w` and the tasks `ws` behind it once the head pointer has
-- moved on: nobody where `w` was alone, else all of them, with `w` as the last one.
abbrev pub MovedOn : Links → ℕ → ℕ → List ℕ → Type 0
MovedOn l p w [] = p ≡ null
MovedOn l p w (x ∷ ws) = IsQueue l p (x ∷ ws ++ w ∷ [])

second-MovedOn :
    (l : Links) (p w : ℕ) (ws : List ℕ) → IsQueue l p (w ∷ ws) → MovedOn l (second l p) w ws
unfolding second is_last_entry
second-MovedOn l p w [] q = ground arith
second-MovedOn l p w (x ∷ ws) q =
    let head : p ≡ w = q.0 in
    let more : (l.next w == w) ≡ false = ground arith in
    rw (head, more) (IsQueue-rotate l p w (x ∷ ws) q)

-- The queues of the scheduler survive a change of other tasks.
Holds-frame :
    {l k : Links} {r p t i w : ℕ} {q : Tasks} (ys : List ℕ)
    → SameOutside ys l k
    → ((n : ℕ) → has n ys ≡ true → hits n q ≡ 0)
    → Holds l r p t i w q
    → Holds k r p t i w q
Holds-frame {l} {k} {r} {p} {t} {i} {w} {q} ys same apart h = record {
  ready_queue = IsQueue-frame l k r q.ready ys same (λ n e. ground (arith, apart n)) h.ready_queue;
  paused_queue =
      IsQueue-frame l k p q.paused ys same (λ n e. ground (arith, apart n)) h.paused_queue;
  sleeping_queue =
      IsQueue-frame l k t q.sleeping ys same (λ n e. ground (arith, apart n)) h.sleeping_queue;
  terminated_queue =
      IsQueue-frame l k i q.terminated ys same (λ n e. ground (arith, apart n)) h.terminated_queue;
  apart = h.apart;
  idle_out = h.idle_out;
}

module _ (m : Semaphore) (s : Sched) (e : s.postpone_counter ≡ 0) (f : s.postponed ≡ 0) where
  -- Below its maximum, which is below 2 ^ 32, the count goes up by one, and no queue and no task
  -- changes, where no switch is postponed or asked for.
  pub acquire_semaphore-free :
      m.current_count < m.max_count
      → m.max_count < 2 ^ 32
      → ((acquire_semaphore m s).0 ≡ record m { current_count = m.current_count + 1 })
        × Unchanged s (acquire_semaphore m s).1
  unfolding acquire_semaphore
  acquire_semaphore-free h k =
      let free : ltb m.current_count m.max_count ≡ true = ground arith in
      rw free (ap (λ n. record m { current_count = n }) (omega arith), lock_unlock s e f)

  -- With nobody waiting, releasing lowers the count, which stops at zero, and no queue and no
  -- task changes, where no switch is postponed or asked for.
  pub release_semaphore-idle :
      m.waiting_task_list ≡ null
      → ((release_semaphore m s).0 ≡ record m { current_count = m.current_count - 1 })
        × Unchanged s (release_semaphore m s).1
  unfolding release_semaphore
  release_semaphore-idle h =
      let idle : (m.waiting_task_list == null) ≡ true = ground arith in
      rw idle (ground arith, lock_unlock s e f)

  -- The first task `w` of the waiting list is the first of neither the sleeping nor the paused
  -- queue, and no switch is postponed or asked for: then releasing wakes nobody. No queue of the
  -- scheduler and no state changes, and the count stays. Only the head of the waiting list moves:
  -- it is null where `w` waited alone, else all the tasks still wait, with `w` as the last one.
  pub release_semaphore-loses :
      (w : ℕ) (ws : List ℕ)
      → IsQueue s.links m.waiting_task_list (w ∷ ws)
      → w ≢ s.sleeping
      → w ≢ s.paused
      → ((release_semaphore m s).0
          ≡ record m { waiting_task_list = second s.links m.waiting_task_list })
        × Unchanged s (release_semaphore m s).1
        × MovedOn (release_semaphore m s).1.links (release_semaphore m s).0.waiting_task_list w ws
  unfolding release_semaphore
  release_semaphore-loses w ws ring p q =
      let waits : (m.waiting_task_list == null) ≡ false = ground arith in
      let missed =
        unblock_task-missed (lock_stuff s) m.waiting_task_list (rw ring.0 p) (rw ring.0 q) in
      let kept = subst (λ z. Unchanged s (unlock_stuff z)) (sym missed) (lock_unlock_twice s e f) in
      let left = second-MovedOn s.links m.waiting_task_list w ws ring in
      rw waits (refl, kept, rw kept.links left)

  -- At its maximum the count stays, the current task joins the end of the waiting list `ws` and
  -- waits for the lock, and the first ready task runs. The tasks of the waiting list are in no
  -- queue, and the current task is neither among them nor in a queue, and is not the idle task;
  -- no switch is postponed or asked for, and the counter of masked interrupts is below 2 ^ 32 -
  -- 2.
  pub acquire_semaphore-blocks :
      {t : ℕ} {ts pq sq tq : List ℕ} (ws : List ℕ)
      → let q : Tasks = record { ready = t ∷ ts; paused = pq; sleeping = sq; terminated = tq } in
        IsSched s q
        → IsQueue s.links m.waiting_task_list ws
        → ((n : ℕ) → has n (s.current ∷ ws) ≡ true → hits n q ≡ 0)
        → has s.current ws ≡ false
        → s.current ≢ null
        → s.current ≢ s.idle
        → m.max_count ≤ m.current_count
        → s.irq_disable_counter < 2 ^ 32 - 2
        → ((acquire_semaphore m s).0.current_count ≡ m.current_count)
          × IsQueue
              (acquire_semaphore m s).1.links
              (acquire_semaphore m s).0.waiting_task_list
              (ws ++ s.current ∷ [])
          × IsSched
              (acquire_semaphore m s).1
              (record { ready = ts; paused = pq; sleeping = sq; terminated = tq })
          × ((acquire_semaphore m s).1.current ≡ t)
          × ((acquire_semaphore m s).1.state t ≡ running)
          × ((acquire_semaphore m s).1.state s.current ≡ waiting_for_lock)
  unfolding acquire_semaphore joined
  acquire_semaphore-blocks {t} {ts} {pq} {sq} {tq} ws h waiting apart out ne ni full small =
      let taken : ltb m.current_count m.max_count ≡ false = ground arith in
      let q : Tasks = record { ready = t ∷ ts; paused = pq; sleeping = sq; terminated = tq } in
      let (line, same) = enqueue-snoc s.links m.waiting_task_list ws s.current waiting out ne in
      let l : Links = (enqueue s.links m.waiting_task_list s.current).0 in
      let c_out : hits s.current q ≡ 0 = apart s.current (ground arith) in
      let v : Sched = record (lock_stuff s) { links = l } in
      let (parked, stays, state, asked, count, irq) =
        block_task-postponed v (Holds-frame (s.current ∷ ws) same apart h) c_out ne ni (omega arith)
          waiting_for_lock (omega arith) refl in
      let b : Sched = block_task v waiting_for_lock in
      let one : b.postpone_counter ≡ 1 = count ∙ omega arith in
      let stopped : b.state b.current ≢ running = rw (stays, state) (ground arith) in
      let other : s.current ≢ t = ground arith in
      let asked' : b.postponed ≢ 0 = rw asked (omega arith) in
      let (rest, resumed) = unlock_stuff-first b parked one asked' stopped in
      let freed : SameOutside (t ∷ ts) b.links (unlock_stuff b).links =
        unlock_stuff-links b t ts parked.ready_queue one asked' (rw (stays, state) refl) in
      let still : b.links ≡ l = block_task-links v ni (omega arith) in
      let line' =
        IsQueue-frame b.links (unlock_stuff b).links
          (enqueue s.links m.waiting_task_list s.current).1 (ws ++ s.current ∷ []) (t ∷ ts) freed
          (λ n e. ground (arith, apart n, has-append n ws (s.current ∷ []))) (rw still line) in
      rw taken (
        refl,
        line',
        rest,
        resumed.current,
        resumed.state,
        stays_blocked (unlock_stuff b).state b.state b.current s.current t waiting_for_lock stays
            other state resumed.blocked,
      )
