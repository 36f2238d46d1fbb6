-- ===== src/Sched/Holds.antt =====
-- The invariant of the scheduler's queues, and the moves of one task that keep it.
use swallow_os.Prelude.{
  ℕ, ◌+◌, ◌≡◌, ◌≢◌, ◌≤◌, false, List, [], ◌∷◌, ◌++◌, arith, ◌==◌, if◌then◌else◌,
}
use swallow_os.Links.{Links, null, list_del, list_add_tail}
use swallow_os.Links.Path.{has, has-append}
use swallow_os.Links.Queue.{IsQueue, IsQueue-frame}
use swallow_os.Sched.State.{enqueue, second, Sched}
use swallow_os.Sched.Queues.{enqueue-snoc, second-tail, IsQueue-rotate}

-- The tasks of each queue, the first one first.
pub record Tasks : Type 0 where
  pub ready : List ℕ
  pub paused : List ℕ
  pub sleeping : List ℕ
  pub terminated : List ℕ

-- How many of the queues a task is in.
abbrev pub hits : ℕ → Tasks → ℕ
hits n q =
    (if has n q.ready then 1 else 0)
    + (if has n q.paused then 1 else 0)
    + (if has n q.sleeping then 1 else 0)
    + (if has n q.terminated then 1 else 0)

-- The four head pointers stand for four queues, no task is in two of them, and the idle task is in
-- none.
pub record Holds (l : Links) (ready paused sleeping terminated idle : ℕ) (q : Tasks) : Type 0 where
  pub ready_queue : IsQueue l ready q.ready
  pub paused_queue : IsQueue l paused q.paused
  pub sleeping_queue : IsQueue l sleeping q.sleeping
  pub terminated_queue : IsQueue l terminated q.terminated
  pub apart : (n : ℕ) → hits n q ≤ 1
  pub idle_out : hits idle q ≡ 0

abbrev pub IsSched : Sched → Tasks → Type 0
IsSched s q = Holds s.links s.ready s.paused s.sleeping s.terminated s.idle q

pub enqueue-list_add_tail :
    (l : Links) (p n : ℕ) → (p == null) ≡ false → enqueue l p n ≡ (list_add_tail l n p, p)
unfolding enqueue
enqueue-list_add_tail l p n e = rw e

-- A task that is in no queue joins one.
module _ {l : Links} {r p s t i : ℕ} {q : Tasks} (h : Holds l r p s t i q) (n : ℕ)
    (out : hits n q ≡ 0) (ne : n ≢ null) (ni : n ≢ i) where
  pub enqueue_ready :
      Holds (enqueue l r n).0 (enqueue l r n).1 p s t i (record q { ready = q.ready ++ n ∷ [] })
  enqueue_ready =
      let (new, same) = enqueue-snoc l r q.ready n h.ready_queue (ground arith) ne in
      let k = (enqueue l r n).0 in
      record {
        ready_queue = new;
        paused_queue =
            IsQueue-frame l k p q.paused (n ∷ q.ready) same (λ m e. ground (arith, h.apart m))
              h.paused_queue;
        sleeping_queue =
            IsQueue-frame l k s q.sleeping (n ∷ q.ready) same (λ m e. ground (arith, h.apart m))
              h.sleeping_queue;
        terminated_queue =
            IsQueue-frame l k t q.terminated (n ∷ q.ready) same (λ m e. ground (arith, h.apart m))
              h.terminated_queue;
        apart = λ m. ground (arith, h.apart m, has-append m q.ready (n ∷ []));
        idle_out = ground (arith, h.idle_out, has-append i q.ready (n ∷ []));
      }

  pub enqueue_paused :
      Holds (enqueue l p n).0 r (enqueue l p n).1 s t i (record q { paused = q.paused ++ n ∷ [] })
  enqueue_paused =
      let (new, same) = enqueue-snoc l p q.paused n h.paused_queue (ground arith) ne in
      let k = (enqueue l p n).0 in
      record {
        ready_queue =
            IsQueue-frame l k r q.ready (n ∷ q.paused) same (λ m e. ground (arith, h.apart m))
              h.ready_queue;
        paused_queue = new;
        sleeping_queue =
            IsQueue-frame l k s q.sleeping (n ∷ q.paused) same (λ m e. ground (arith, h.apart m))
              h.sleeping_queue;
        terminated_queue =
            IsQueue-frame l k t q.terminated (n ∷ q.paused) same (λ m e. ground (arith, h.apart m))
              h.terminated_queue;
        apart = λ m. ground (arith, h.apart m, has-append m q.paused (n ∷ []));
        idle_out = ground (arith, h.idle_out, has-append i q.paused (n ∷ []));
      }

  pub enqueue_sleeping :
      Holds
        (enqueue l s n).0
        r
        p
        (enqueue l s n).1
        t
        i
        (record q { sleeping = q.sleeping ++ n ∷ [] })
  enqueue_sleeping =
      let (new, same) = enqueue-snoc l s q.sleeping n h.sleeping_queue (ground arith) ne in
      let k = (enqueue l s n).0 in
      record {
        ready_queue =
            IsQueue-frame l k r q.ready (n ∷ q.sleeping) same (λ m e. ground (arith, h.apart m))
              h.ready_queue;
        paused_queue =
            IsQueue-frame l k p q.paused (n ∷ q.sleeping) same (λ m e. ground (arith, h.apart m))
              h.paused_queue;
        sleeping_queue = new;
        terminated_queue =
            IsQueue-frame l k t q.terminated (n ∷ q.sleeping) same
              (λ m e. ground (arith, h.apart m)) h.terminated_queue;
        apart = λ m. ground (arith, h.apart m, has-append m q.sleeping (n ∷ []));
        idle_out = ground (arith, h.idle_out, has-append i q.sleeping (n ∷ []));
      }

  pub enqueue_terminated :
      Holds
        (enqueue l t n).0
        r
        p
        s
        (enqueue l t n).1
        i
        (record q { terminated = q.terminated ++ n ∷ [] })
  enqueue_terminated =
      let (new, same) = enqueue-snoc l t q.terminated n h.terminated_queue (ground arith) ne in
      let k = (enqueue l t n).0 in
      record {
        ready_queue =
            IsQueue-frame l k r q.ready (n ∷ q.terminated) same (λ m e. ground (arith, h.apart m))
              h.ready_queue;
        paused_queue =
            IsQueue-frame l k p q.paused (n ∷ q.terminated) same (λ m e. ground (arith, h.apart m))
              h.paused_queue;
        sleeping_queue =
            IsQueue-frame l k s q.sleeping (n ∷ q.terminated) same
              (λ m e. ground (arith, h.apart m)) h.sleeping_queue;
        terminated_queue = new;
        apart = λ m. ground (arith, h.apart m, has-append m q.terminated (n ∷ []));
        idle_out = ground (arith, h.idle_out, has-append i q.terminated (n ∷ []));
      }

-- The first task of a queue leaves it, and is then in none.
module _ {l : Links} {r p s t i x : ℕ} {xs : List ℕ} where
  pub leave_ready :
      {pq sq tq : List ℕ}
      → Holds l r p s t i (record { ready = x ∷ xs; paused = pq; sleeping = sq; terminated = tq })
      → let q : Tasks = record { ready = xs; paused = pq; sleeping = sq; terminated = tq } in
        Holds (list_del l x) (second l x) p s t i q
        × (hits x q ≡ 0)
        × (x ≢ null)
        × (x ≢ i)
        × (r ≡ x)
  leave_ready {pq} {sq} {tq} h =
      let (new, same) = second-tail l r x xs h.ready_queue in
      let k = list_del l x in
      (
        record {
          ready_queue = new;
          paused_queue =
              IsQueue-frame l k p pq (x ∷ xs) same (λ m e. ground (arith, h.apart m))
                h.paused_queue;
          sleeping_queue =
              IsQueue-frame l k s sq (x ∷ xs) same (λ m e. ground (arith, h.apart m))
                h.sleeping_queue;
          terminated_queue =
              IsQueue-frame l k t tq (x ∷ xs) same (λ m e. ground (arith, h.apart m))
                h.terminated_queue;
          apart = λ m. ground (arith, h.apart m);
          idle_out = ground (arith, h.idle_out);
        },
        ground (arith, h.apart x, h.ready_queue),
        ground (arith, h.ready_queue),
        ground (arith, h.idle_out),
        h.ready_queue.0,
      )

  pub leave_paused :
      {rq sq tq : List ℕ}
      → Holds l r p s t i (record { ready = rq; paused = x ∷ xs; sleeping = sq; terminated = tq })
      → let q : Tasks = record { ready = rq; paused = xs; sleeping = sq; terminated = tq } in
        Holds (list_del l x) r (second l x) s t i q
        × (hits x q ≡ 0)
        × (x ≢ null)
        × (x ≢ i)
        × (p ≡ x)
  leave_paused {rq} {sq} {tq} h =
      let (new, same) = second-tail l p x xs h.paused_queue in
      let k = list_del l x in
      (
        record {
          ready_queue =
              IsQueue-frame l k r rq (x ∷ xs) same (λ m e. ground (arith, h.apart m)) h.ready_queue;
          paused_queue = new;
          sleeping_queue =
              IsQueue-frame l k s sq (x ∷ xs) same (λ m e. ground (arith, h.apart m))
                h.sleeping_queue;
          terminated_queue =
              IsQueue-frame l k t tq (x ∷ xs) same (λ m e. ground (arith, h.apart m))
                h.terminated_queue;
          apart = λ m. ground (arith, h.apart m);
          idle_out = ground (arith, h.idle_out);
        },
        ground (arith, h.apart x, h.paused_queue),
        ground (arith, h.paused_queue),
        ground (arith, h.idle_out),
        h.paused_queue.0,
      )

  pub leave_sleeping :
      {rq pq tq : List ℕ}
      → Holds l r p s t i (record { ready = rq; paused = pq; sleeping = x ∷ xs; terminated = tq })
      → let q : Tasks = record { ready = rq; paused = pq; sleeping = xs; terminated = tq } in
        Holds (list_del l x) r p (second l x) t i q
        × (hits x q ≡ 0)
        × (x ≢ null)
        × (x ≢ i)
        × (s ≡ x)
  leave_sleeping {rq} {pq} {tq} h =
      let (new, same) = second-tail l s x xs h.sleeping_queue in
      let k = list_del l x in
      (
        record {
          ready_queue =
              IsQueue-frame l k r rq (x ∷ xs) same (λ m e. ground (arith, h.apart m)) h.ready_queue;
          paused_queue =
              IsQueue-frame l k p pq (x ∷ xs) same (λ m e. ground (arith, h.apart m))
                h.paused_queue;
          sleeping_queue = new;
          terminated_queue =
              IsQueue-frame l k t tq (x ∷ xs) same (λ m e. ground (arith, h.apart m))
                h.terminated_queue;
          apart = λ m. ground (arith, h.apart m);
          idle_out = ground (arith, h.idle_out);
        },
        ground (arith, h.apart x, h.sleeping_queue),
        ground (arith, h.sleeping_queue),
        ground (arith, h.idle_out),
        h.sleeping_queue.0,
      )

  -- The sleeping queue is seen from its second task.
  pub rotate_sleeping :
      {rq pq tq : List ℕ}
      → Holds l r p s t i (record { ready = rq; paused = pq; sleeping = x ∷ xs; terminated = tq })
      → Holds l r p
          (l.next x)
          t
          i
          (record { ready = rq; paused = pq; sleeping = xs ++ x ∷ []; terminated = tq })
  rotate_sleeping h = record {
    ready_queue = h.ready_queue;
    paused_queue = h.paused_queue;
    sleeping_queue = IsQueue-rotate l s x xs h.sleeping_queue;
    terminated_queue = h.terminated_queue;
    apart = λ m. ground (arith, h.apart m, has-append m xs (x ∷ []));
    idle_out = ground (arith, h.idle_out, has-append i xs (x ∷ []));
  }
