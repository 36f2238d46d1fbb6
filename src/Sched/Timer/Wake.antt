-- ===== src/Sched/Timer/Wake.antt =====
-- The outer loop of the timer hook wakes every task that is due.
use swallow_os.Prelude.{
  ℕ, suc, ◌≡◌, refl, ◌∙◌, Bool, false, not, List, [], ◌∷◌, ◌++◌, append_assoc, append-nil, arith,
}
use swallow_os.Links.Path.{has, has-append}
use swallow_os.Sched.State.{Sched}
use swallow_os.Sched.Holds.{IsSched}
use swallow_os.Sched.Timer.Drain.{Kept, Kept-trans}
use swallow_os.Sched.Timer.Lists.{
  select, take_first, drop_first, select-append, select-split, select-not-drop_first, spin,
}

-- Of the sleeping queue `xs` the tasks that are due, `p`, have joined the ready queue in order; the
-- others sleep in the same circular order, seen from a task `turns` further on.
pub record Woke (p : ℕ → Bool) (s : Sched) (rq pq xs tq : List ℕ) (s' : Sched) : Type 0 where
  pub turns : ℕ
  pub queues : IsSched s' (record {
    ready = rq ++ select p xs;
    paused = pq;
    sleeping = spin turns (select (λ n. not (p n)) xs);
    terminated = tq;
  })
  pub kept : Kept s s'
  pub state_kept : (n : ℕ) → has n xs ≡ false → s'.state n ≡ s.state n

not_has-drop_first :
    (p : ℕ → Bool) (n : ℕ) (xs : List ℕ) → has n xs ≡ false → has n (drop_first p xs) ≡ false
unfolding drop_first
not_has-drop_first p n [] out = refl
not_has-drop_first p n (x ∷ xs) out = ground (arith, not_has-drop_first p n xs)

module _ (p : ℕ → Bool) where
  select-not-nil : (xs : List ℕ) → select p xs ≡ [] → select (λ n. not (p n)) xs ≡ xs
  unfolding select
  select-not-nil [] e = refl
  select-not-nil (x ∷ xs) e = ground (arith, select-not-nil xs)

  pub select_snoc : (x : ℕ) (xs : List ℕ) → p x ≡ false → select p (xs ++ x ∷ []) ≡ select p xs
  unfolding select
  select_snoc x xs later = select-append p xs (x ∷ []) ∙ (rw later (append-nil (select p xs)))

  -- Nobody in the queue is due.
  pub Woke-stop :
      {s u : Sched} {rq pq tq : List ℕ} (xs : List ℕ)
      → select p xs ≡ []
      → Kept s u
      → s.state ≡ u.state
      → IsSched u (record { ready = rq; paused = pq; sleeping = xs; terminated = tq })
      → Woke p s rq pq xs tq u
  unfolding spin
  Woke-stop xs none_due kept e h = record {
    turns = 0;
    queues = rw (none_due, select-not-nil xs none_due, append-nil) h;
    kept = kept;
    state_kept = λ n out. rw e;
  }

  -- The queue was seen from its second task.
  pub Woke-rotate :
      {s u v : Sched} {rq pq tq : List ℕ} (x : ℕ) (xs : List ℕ)
      → p x ≡ false
      → Kept s u
      → s.state ≡ u.state
      → Woke p u rq pq (xs ++ x ∷ []) tq v
      → Woke p s rq pq (x ∷ xs) tq v
  unfolding spin select
  Woke-rotate {v} {rq} {pq} {tq} x xs later kept e w =
      let here = select_snoc x xs later in
      let there : select (λ n. not (p n)) (xs ++ x ∷ []) ≡ select (λ n. not (p n)) xs ++ x ∷ [] =
        select-append (λ n. not (p n)) xs (x ∷ []) ∙ (rw later refl) in
      record {
        turns = suc w.turns;
        queues = rw later (rw (here, there) at w.queues);
        kept = Kept-trans kept w.kept;
        state_kept = λ n out. w.state_kept n (ground (arith, has-append n xs (x ∷ []))) ∙ rw e;
      }

  -- The inner loop ran first.
  pub Woke-drained :
      {s u v : Sched} {rq pq tq : List ℕ} (xs : List ℕ)
      → Kept s u
      → ((n : ℕ) → has n xs ≡ false → u.state n ≡ s.state n)
      → Woke p u (rq ++ take_first p xs) pq (drop_first p xs) tq v
      → Woke p s rq pq xs tq v
  Woke-drained xs kept same w = record {
    turns = w.turns;
    queues = rw (select-split p xs) (rw (append_assoc, select-not-drop_first p xs) at w.queues);
    kept = Kept-trans kept w.kept;
    state_kept = λ n out. w.state_kept n (not_has-drop_first p n xs out) ∙ same n out;
  }
