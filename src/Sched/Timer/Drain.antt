-- ===== src/Sched/Timer/Drain.antt =====
-- The inner loop of the timer hook: the tasks at the head of the sleeping queue that are due.
use swallow_os.Prelude.{
  ℕ, zero, suc, ◌-◌, ◌^◌, ◌≡◌, ◌<◌, refl, sym, subst, ◌∙◌, ap, ap₂, Bool, true, false, List, [],
  ◌∷◌, ◌++◌, append_assoc, append-nil, arith, if◌then◌else◌, length, inl, inr, Bool-cases, ◌==◌,
  leb, some,
}
use swallow_os.Links.{null}
use swallow_os.Links.Path.{has}
use swallow_os.Sched.{unblock_task}
use swallow_os.Sched.State.{Sched}
use swallow_os.Sched.Holds.{IsSched}
use swallow_os.Sched.Unblock.{Woken, unblock_task-sleeping}
use swallow_os.Sched.Timer.{drain}
use swallow_os.Sched.Timer.Lists.{take_first, drop_first, head_or}

-- The fields that the loops leave alone.
pub record Kept (s s' : Sched) : Type 0 where
  pub current : s'.current ≡ s.current
  pub postpone : s'.postpone_counter ≡ s.postpone_counter
  pub irq : s'.irq_disable_counter ≡ s.irq_disable_counter
  pub timer : s'.timer_count ≡ s.timer_count
  pub expiry : s'.sleep_expiry ≡ s.sleep_expiry
  pub slice : s'.time_slice_remaining ≡ s.time_slice_remaining
  pub idle : s'.idle ≡ s.idle

pub Kept-refl : (s : Sched) → Kept s s
Kept-refl s = record {
  current = refl;
  postpone = refl;
  irq = refl;
  timer = refl;
  expiry = refl;
  slice = refl;
  idle = refl;
}

pub Kept-trans : {s t u : Sched} → Kept s t → Kept t u → Kept s u
Kept-trans a b = record {
  current = b.current ∙ a.current;
  postpone = b.postpone ∙ a.postpone;
  irq = b.irq ∙ a.irq;
  timer = b.timer ∙ a.timer;
  expiry = b.expiry ∙ a.expiry;
  slice = b.slice ∙ a.slice;
  idle = b.idle ∙ a.idle;
}

-- A task whose time has come.
abbrev pub due : Sched → ℕ → Bool
due s n = leb (s.sleep_expiry n) s.timer_count

pub due-Kept : {s u : Sched} {p : ℕ → Bool} → Kept s u → due s ≡ p → due u ≡ p
due-Kept k e = ap₂ {C = ℕ → Bool} (λ f t n. leb (f n) t) k.expiry k.timer ∙ e

-- The inner loop has moved the tasks at the head of the sleeping queue `xs` that are due, `p`, to the
-- ready queue; the anchor is the first task left, if any was moved.
pub record Drained (p : ℕ → Bool) (s : Sched) (rq pq xs tq : List ℕ) (anchor : ℕ) (d : Sched)
    (after : ℕ) : Type 0 where
  pub queues : IsSched d (record {
    ready = rq ++ take_first p xs;
    paused = pq;
    sleeping = drop_first p xs;
    terminated = tq;
  })
  pub kept : Kept s d
  pub state_kept : (n : ℕ) → has n xs ≡ false → d.state n ≡ s.state n
  pub after_head :
      {z : ℕ} {zs : List ℕ}
      → drop_first p xs ≡ z ∷ zs
      → after ≡ (if p (head_or xs 0) then z else anchor)

Woken-Kept : {s u : Sched} {n : ℕ} → Woken s n u → Kept s u
Woken-Kept w = record {
  current = w.current;
  postpone = w.postpone;
  irq = w.irq;
  timer = w.timer;
  expiry = w.expiry;
  slice = w.slice;
  idle = w.idle;
}

next_head :
    (p : ℕ → Bool) (y : ℕ) (ys : List ℕ) {z after : ℕ} {zs : List ℕ}
    → drop_first p (y ∷ ys) ≡ z ∷ zs
    → after ≡ (if p y then z else y)
    → after ≡ z
unfolding drop_first
next_head p y ys e a = elim (Bool-cases (p y)) [
  | inl t ↦ rw t at a
  | inr f ↦ (rw f at a) ∙ cc (rw f at e)
]

module _ (p : ℕ → Bool) {s : Sched} {rq pq tq : List ℕ} (anchor x : ℕ) where
  Drained-stop :
      {xs : List ℕ}
      → p x ≡ false
      → IsSched s (record { ready = rq; paused = pq; sleeping = x ∷ xs; terminated = tq })
      → Drained p s rq pq (x ∷ xs) tq anchor s anchor
  unfolding take_first drop_first
  Drained-stop later h = record {
    queues = rw (later, append-nil) h;
    kept = Kept-refl s;
    state_kept = λ n out. refl;
    after_head = λ e. rw later;
  }

  Drained-last :
      {u : Sched}
      → p x ≡ true
      → Woken s x u
      → IsSched u (record { ready = rq ++ x ∷ []; paused = pq; sleeping = []; terminated = tq })
      → Drained p s rq pq (x ∷ []) tq anchor u anchor
  unfolding take_first drop_first
  Drained-last now woken h = record {
    queues = rw now h;
    kept = Woken-Kept woken;
    state_kept = λ n out. woken.others n (ground arith);
    after_head = λ e. cc (rw now at e);
  }

  Drained-cons :
      {u d : Sched} {after y : ℕ} {ys : List ℕ}
      → p x ≡ true
      → Woken s x u
      → Drained p u (rq ++ x ∷ []) pq (y ∷ ys) tq y d after
      → Drained p s rq pq (x ∷ y ∷ ys) tq anchor d after
  unfolding take_first drop_first
  Drained-cons {y} {ys} now woken r = record {
    queues = rw now (rw append_assoc at r.queues);
    kept = Kept-trans (Woken-Kept woken) r.kept;
    state_kept = λ n out. r.state_kept n (ground arith) ∙ woken.others n (ground arith);
    after_head = λ e. rw now (next_head p y ys (rw now at e) (r.after_head (rw now at e)));
  }

module _ (p : ℕ → Bool) where
  abbrev pub DrainedFrom :
      (fuel : ℕ) (s : Sched) (anchor : ℕ) (xs : List ℕ) (rq pq tq : List ℕ) → Type 0
  DrainedFrom fuel s anchor xs rq pq tq =
      (d : Sched) × (after : ℕ) × (drain fuel s anchor ≡ some (d, after))
      × Drained p s rq pq (s.sleeping ∷ xs) tq anchor d after

  pub drain-Drained :
      (fuel : ℕ) (s : Sched) (anchor : ℕ) (xs : List ℕ) (rq pq tq : List ℕ)
      → length xs < fuel
      → s.irq_disable_counter < 2 ^ 32 - 1
      → due s ≡ p
      → IsSched s (record { ready = rq; paused = pq; sleeping = s.sleeping ∷ xs; terminated = tq })
      → DrainedFrom fuel s anchor xs rq pq tq
  unfolding drain
  drain-Drained zero s anchor xs rq pq tq enough small is_due h = absurd (omega arith)
  drain-Drained (suc fuel) s anchor [] rq pq tq enough small is_due h =
      let (queues, woken) = unblock_task-sleeping s small h in
      let kept = Woken-Kept woken in
      elim (Bool-cases (p s.sleeping)) [
        | inl now ↦
            let e : due s s.sleeping ≡ true = ap (λ (f : ℕ → Bool). f s.sleeping) is_due ∙ now in
            let empty : ((unblock_task s s.sleeping).sleeping == null) ≡ true =
              ground (arith, queues.sleeping_queue) in
            rw (e, empty)
              (
                unblock_task s s.sleeping,
                anchor,
                refl,
                Drained-last p anchor s.sleeping now woken queues,
              )
        | inr later ↦
            let e : due s s.sleeping ≡ false = ap (λ (f : ℕ → Bool). f s.sleeping) is_due ∙ later in
            rw e (s, anchor, refl, Drained-stop p anchor s.sleeping later h)
      ]
  drain-Drained (suc fuel) s anchor (y ∷ ys) rq pq tq enough small is_due h =
      let (queues, woken) = unblock_task-sleeping s small h in
      let kept = Woken-Kept woken in
      let u : Sched = unblock_task s s.sleeping in
      elim (Bool-cases (p s.sleeping)) [
        | inl now ↦
            let e : due s s.sleeping ≡ true = ap (λ (f : ℕ → Bool). f s.sleeping) is_due ∙ now in
            let head : u.sleeping ≡ y = queues.sleeping_queue.0 in
            let more : (u.sleeping == null) ≡ false = ground (arith, queues.sleeping_queue) in
            let (d, after, runs, drained) =
              drain-Drained fuel u u.sleeping ys (rq ++ s.sleeping ∷ []) pq tq (omega arith)
                (rw kept.irq small) (due-Kept kept is_due)
                (subst
                  (λ z. IsSched u (record {
                    ready = rq ++ s.sleeping ∷ [];
                    paused = pq;
                    sleeping = z ∷ ys;
                    terminated = tq;
                  }))
                  (sym head) queues) in
            rw (e, more)
              (
                d,
                after,
                runs,
                Drained-cons p anchor s.sleeping now woken (
                    subst (λ z. Drained p u (rq ++ s.sleeping ∷ []) pq (z ∷ ys) tq z d after) head
                      drained),
              )
        | inr later ↦
            let e : due s s.sleeping ≡ false = ap (λ (f : ℕ → Bool). f s.sleeping) is_due ∙ later in
            rw e (s, anchor, refl, Drained-stop p anchor s.sleeping later h)
      ]
