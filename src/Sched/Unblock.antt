-- ===== src/Sched/Unblock.antt =====
-- `unblock_task`, and the calls that sleep.
use swallow_os.Prelude.{
  ℕ, ◌-◌, ◌^◌, ◌<◌, ◌≡◌, ◌≢◌, refl, true, false, ◌&&◌, not, List, [], ◌∷◌, ◌++◌, arith, ◌==◌,
}
use swallow_os.Links.{null}
use swallow_os.Links.Path.{has}
use swallow_os.Sched.{lock_scheduler, unlock_scheduler, unblock_task}
use swallow_os.Sched.State.{ready, Sched}
use swallow_os.Links.Queue.{IsQueue}
use swallow_os.Sched.Holds.{IsSched, enqueue_ready, leave_paused, leave_sleeping}

-- What waking the task `n` leaves alone, and that `n` is ready.
pub record Woken (s : Sched) (n : ℕ) (s' : Sched) : Type 0 where
  pub ready : s'.state n ≡ ready
  pub others : (m : ℕ) → m ≢ n → s'.state m ≡ s.state m
  pub current : s'.current ≡ s.current
  pub idle : s'.idle ≡ s.idle
  pub postpone : s'.postpone_counter ≡ s.postpone_counter
  pub irq : s'.irq_disable_counter ≡ s.irq_disable_counter
  pub timer : s'.timer_count ≡ s.timer_count
  pub expiry : s'.sleep_expiry ≡ s.sleep_expiry
  pub slice : s'.time_slice_remaining ≡ s.time_slice_remaining

module _ (s : Sched) {x : ℕ} {xs rq tq : List ℕ} (small : s.irq_disable_counter < 2 ^ 32 - 1) where
  -- `unblock_task` of the first sleeping task moves it to the end of the ready queue and makes it
  -- ready; the other queues and tasks, the current task and the counters stay. The counter of
  -- masked interrupts is below 2 ^ 32 - 1.
  pub unblock_task-sleeping :
      {pq : List ℕ}
      → IsSched s (record { ready = rq; paused = pq; sleeping = x ∷ xs; terminated = tq })
      → IsSched
          (unblock_task s x)
          (record { ready = rq ++ x ∷ []; paused = pq; sleeping = xs; terminated = tq })
        × Woken s x (unblock_task s x)
  unfolding unblock_task
  unblock_task-sleeping h =
      let (rest, out, ne, ni, head) = leave_sleeping h in
      let first : (not (s.sleeping == null) && (x == s.sleeping)) ≡ true = ground arith in
      rw (first, head)
        (
          enqueue_ready rest x out ne ni,
          record {
            ready = ground arith;
            others = λ m p. ground arith;
            current = refl;
            idle = refl;
            postpone = refl;
            irq = omega arith;
            timer = refl;
            expiry = refl;
            slice = refl;
          },
        )

  -- `unblock_task` of the first paused task moves it to the end of the ready queue and makes it
  -- ready; the other queues and tasks, the current task and the counters stay. The counter of
  -- masked interrupts is below 2 ^ 32 - 1.
  pub unblock_task-paused :
      {sq : List ℕ}
      → IsSched s (record { ready = rq; paused = x ∷ xs; sleeping = sq; terminated = tq })
      → IsSched
          (unblock_task s x)
          (record { ready = rq ++ x ∷ []; paused = xs; sleeping = sq; terminated = tq })
        × Woken s x (unblock_task s x)
  unfolding unblock_task
  unblock_task-paused {sq} h =
      let (rest, out, ne, ni, head) = leave_paused h in
      let other : (not (s.sleeping == null) && (x == s.sleeping)) ≡ false =
        not_head sq h.sleeping_queue (ground (arith, h.apart x)) in
      let first : (not (s.paused == null) && (x == s.paused)) ≡ true = ground arith in
      rw (other, first, head)
        (
          enqueue_ready rest x out ne ni,
          record {
            ready = ground arith;
            others = λ m p. ground arith;
            current = refl;
            idle = refl;
            postpone = refl;
            irq = omega arith;
            timer = refl;
            expiry = refl;
            slice = refl;
          },
        )
    where
      not_head :
          (ys : List ℕ)
          → IsQueue s.links s.sleeping ys
          → has x ys ≡ false
          → (not (s.sleeping == null) && (x == s.sleeping)) ≡ false
      not_head [] q e = ground arith
      not_head (y ∷ ys) q e = ground arith

pub unblock_task-missed :
    (s : Sched) (n : ℕ)
    → n ≢ s.sleeping
    → n ≢ s.paused
    → unblock_task s n ≡ unlock_scheduler (lock_scheduler s)
unfolding unblock_task
unblock_task-missed s n p q =
    let other : (not (s.sleeping == null) && (n == s.sleeping)) ≡ false = ground arith in
    let other' : (not (s.paused == null) && (n == s.paused)) ≡ false = ground arith in
    rw (other, other')

-- `unblock_task` of a task that is neither the first sleeping nor the first paused one does
-- nothing: the links, the ready, paused and sleeping queues, the states, the current task and the
-- counter of masked interrupts, which is below 2 ^ 32 - 1, stay.
pub unblock_task-other :
    (s : Sched) (n : ℕ)
    → n ≢ s.sleeping
    → n ≢ s.paused
    → s.irq_disable_counter < 2 ^ 32 - 1
    → (unblock_task s n).links ≡ s.links
      × ((unblock_task s n).ready ≡ s.ready)
      × ((unblock_task s n).paused ≡ s.paused)
      × ((unblock_task s n).sleeping ≡ s.sleeping)
      × ((unblock_task s n).state ≡ s.state)
      × ((unblock_task s n).current ≡ s.current)
      × ((unblock_task s n).irq_disable_counter ≡ s.irq_disable_counter)
unfolding unblock_task
unblock_task-other s n p q small =
    let other : (not (s.sleeping == null) && (n == s.sleeping)) ≡ false = ground arith in
    let other' : (not (s.paused == null) && (n == s.paused)) ≡ false = ground arith in
    rw (other, other') (refl, refl, refl, refl, refl, refl, omega arith)
