-- ===== src/Sched/Queues.antt =====
-- The queues of the scheduler as lists of tasks: what `enqueue` and `second` do to them.
use swallow_os.Prelude.{ℕ, ◌≡◌, ◌≢◌, refl, false, List, [], ◌∷◌, ◌++◌, arith, ◌==◌}
use swallow_os.Links.{Links, null, init_list_head, is_last_entry, list_del}
use swallow_os.Links.Path.{has, has-append}
use swallow_os.Links.Ring.{SameOutside, list_add_tail-snoc, IsRing-rotate, list_del-IsRing}
use swallow_os.Links.Queue.{IsQueue}
use swallow_os.Sched.State.{enqueue, second}

module _ (l : Links) (p : ℕ) where
  -- `enqueue` puts a task that is not in the queue behind its last one, and touches no other task.
  pub enqueue-snoc :
      (xs : List ℕ) (n : ℕ)
      → IsQueue l p xs
      → has n xs ≡ false
      → n ≢ null
      → IsQueue (enqueue l p n).0 (enqueue l p n).1 (xs ++ n ∷ [])
        × SameOutside (n ∷ xs) l (enqueue l p n).0
  unfolding enqueue init_list_head
  enqueue-snoc [] n q out ne = ground arith
  enqueue-snoc (x ∷ xs) n q out ne =
      let some_head : (p == null) ≡ false = ground arith in
      let (ring, same) = list_add_tail-snoc l x xs q.2 n out in
      rw (some_head, q.0) ((refl, ground (arith, has-append null (x ∷ xs) (n ∷ [])), ring), same)

  -- Taking the first task off a queue leaves the rest, and touches no other task.
  pub second-tail :
      (x : ℕ) (xs : List ℕ)
      → IsQueue l p (x ∷ xs)
      → IsQueue (list_del l x) (second l x) xs × SameOutside (x ∷ xs) l (list_del l x)
  unfolding second is_last_entry
  second-tail x [] q = unfold list_del in ground arith
  second-tail x (y ∷ ys) q =
      let more : (l.next x == x) ≡ false = ground arith in
      let (ring, poison1, poison2, same) = list_del-IsRing l x y ys q.2 in
      rw more ((q.2.0.0, ground arith, ring), same)

-- The queues stand at the same tasks seen one task further on.
pub IsQueue-rotate :
    (l : Links) (p x : ℕ) (xs : List ℕ) → IsQueue l p (x ∷ xs) → IsQueue l (l.next x) (xs ++ x ∷ [])
IsQueue-rotate l p x [] q = ground arith
IsQueue-rotate l p x (y ∷ ys) q =
    (q.2.0.0, ground (arith, has-append null ys (x ∷ [])), IsRing-rotate l x y ys q.2)
