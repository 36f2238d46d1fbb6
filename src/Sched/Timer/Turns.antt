-- ===== src/Sched/Timer/Turns.antt =====
-- One turn of the outer loop of the timer hook: what follows the inner one.
use swallow_os.Prelude.{
  ℕ, ◌≡◌, ◌≢◌, refl, sym, subst, ◌∙◌, ap, Bool, true, false, List, [], ◌∷◌, ◌++◌, arith,
  if◌then◌else◌, ◌==◌, ==_refl, Option, some,
}
use swallow_os.Links.{null}
use swallow_os.Links.Queue.{IsQueue}
use swallow_os.Sched.State.{Sched}
use swallow_os.Sched.Holds.{IsSched, rotate_sleeping}
use swallow_os.Sched.Timer.{wake}
use swallow_os.Sched.Timer.Drain.{Kept, Kept-refl}
use swallow_os.Sched.Timer.Lists.{select, head_or}
use swallow_os.Sched.Timer.Wake.{Woke, select_snoc, Woke-stop, Woke-rotate}

abbrev pub rotated : Sched → Sched
rotated d = record d { sleeping = d.links.next d.sleeping }

module _ (p : ℕ → Bool) (inner : ℕ) where
  -- The outer loop ends, and has woken the tasks that are due among `xs`.
  abbrev pub Wakes : ℕ → Sched → ℕ → List ℕ → List ℕ → List ℕ → List ℕ → Type 0
  Wakes fuel s anchor rq pq xs tq =
      (s' : Sched) × (wake inner fuel s anchor ≡ some s') × Woke p s rq pq xs tq s'

  -- What follows the inner loop.
  abbrev pub body : ℕ → Sched → ℕ → Option Sched
  body fuel d after =
      if d.sleeping == null
      then some d
      else if after == (rotated d).sleeping
      then some (rotated d)
      else wake inner fuel (rotated d) after

  abbrev pub Finishes : ℕ → Sched → ℕ → List ℕ → List ℕ → List ℕ → List ℕ → Type 0
  Finishes fuel d after rq pq xs tq =
      (s' : Sched) × (body fuel d after ≡ some s') × Woke p d rq pq xs tq s'

  module _ (fuel : ℕ) (d : Sched) (after : ℕ) {rq pq tq : List ℕ} where
    pub Finishes-nil :
        IsSched d (record { ready = rq; paused = pq; sleeping = []; terminated = tq })
        → Finishes fuel d after rq pq [] tq
    Finishes-nil h =
        let empty : (d.sleeping == null) ≡ true = ground (arith, h.sleeping_queue) in
        rw empty (d, refl, Woke-stop p [] (unfold select in refl) (Kept-refl d) refl h)

    module _ {zs : List ℕ}
        (h : IsSched d
          (record { ready = rq; paused = pq; sleeping = d.sleeping ∷ zs; terminated = tq }))
        (later : p d.sleeping ≡ false) where
      turned :
          IsSched
            (rotated d)
            (record { ready = rq; paused = pq; sleeping = zs ++ d.sleeping ∷ []; terminated = tq })
      turned = rotate_sleeping h

      rotated-Kept : Kept d (rotated d)
      rotated-Kept = record {
        current = refl;
        postpone = refl;
        irq = refl;
        timer = refl;
        expiry = refl;
        slice = refl;
        idle = refl;
      }

      head_of_turned :
          (ys : List ℕ)
          → IsQueue d.links (rotated d).sleeping (ys ++ d.sleeping ∷ [])
          → (rotated d).sleeping ≡ head_or (ys ++ d.sleeping ∷ []) 0
      head_of_turned [] q = q.0
      head_of_turned (y ∷ ys) q = q.0

      more : (d.sleeping == null) ≡ false
      more = ground (arith, h.sleeping_queue)

      pub Finishes-stop :
          select p zs ≡ []
          → after ≡ head_or (zs ++ d.sleeping ∷ []) 0
          → Finishes fuel d after rq pq (d.sleeping ∷ zs) tq
      Finishes-stop none_due e =
          let back : (after == (rotated d).sleeping) ≡ true =
            rw (e, head_of_turned zs turned.sleeping_queue) (==_refl _) in
          rw (more, back)
            (
              rotated d,
              refl,
              Woke-rotate p d.sleeping zs later rotated-Kept refl (
                  Woke-stop p (zs ++ d.sleeping ∷ []) (select_snoc p d.sleeping zs later ∙ none_due)
                    (Kept-refl (rotated d)) refl turned),
            )

      pub Finishes-next :
          (w : ℕ) (ws : List ℕ)
          → zs ≡ w ∷ ws
          → after ≢ w
          → ((rotated d).sleeping ≡ w
              → IsSched (rotated d) (record {
                ready = rq;
                paused = pq;
                sleeping = (rotated d).sleeping ∷ (ws ++ d.sleeping ∷ []);
                terminated = tq;
              })
              → Wakes fuel
                  (rotated d)
                  after
                  rq
                  pq
                  ((rotated d).sleeping ∷ (ws ++ d.sleeping ∷ []))
                  tq)
          → Finishes fuel d after rq pq (d.sleeping ∷ zs) tq
      Finishes-next w ws e ne go_on =
          let next : (rotated d).sleeping ≡ w =
            head_of_turned zs turned.sleeping_queue ∙ (rw e refl) in
          let list : zs ++ d.sleeping ∷ [] ≡ (rotated d).sleeping ∷ (ws ++ d.sleeping ∷ []) =
            ap (λ a. a ++ d.sleeping ∷ []) e ∙ ap (λ b. b ∷ (ws ++ d.sleeping ∷ [])) (sym next) in
          let (s', runs, woke) = go_on next (
            subst
              (λ z.
                IsSched (rotated d)
                  (record { ready = rq; paused = pq; sleeping = z; terminated = tq }))
              list turned) in
          let forth : (after == (rotated d).sleeping) ≡ false = rw next (ground arith) in
          rw (more, forth)
            (
              s',
              runs,
              Woke-rotate p d.sleeping zs later rotated-Kept refl
                  (subst (λ z. Woke p (rotated d) rq pq z tq s') (sym list) woke),
            )
