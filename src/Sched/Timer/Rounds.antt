-- ===== src/Sched/Timer/Rounds.antt =====
-- The outer loop of the timer hook ends: its rounds are bounded.
use swallow_os.Prelude.{
  ℕ, zero, suc, ◌+◌, ◌-◌, ◌*◌, ◌^◌, ◌≡◌, ◌≢◌, ◌≤◌, ◌<◌, refl, sym, subst, ◌∙◌, ap, ap₂, Bool, true,
  false, List, [], ◌∷◌, ◌++◌, append_assoc, append-nil, arith, length, inl, inr, Bool-cases,
  length-append,
}
use swallow_os.Links.Path.{has, has-append}
use swallow_os.Sched.State.{Sched}
use swallow_os.Sched.Holds.{IsSched}
use swallow_os.Sched.Timer.{wake}
use swallow_os.Sched.Timer.Drain.{due, due-Kept, Drained, drain-Drained}
use swallow_os.Sched.Timer.Lists.{
  select, take_first, drop_first, select-split, drop_first-head, length-drop_first, head_or,
}
use swallow_os.Sched.Timer.Wake.{select_snoc, Woke-drained}
use swallow_os.Sched.Timer.Turns.{
  rotated, Wakes, Finishes, Finishes-nil, Finishes-stop, Finishes-next,
}

-- The tasks still to be looked at, `s.sleeping ∷ t`, and those looked at since the anchor was set.
pub record Round (p : ℕ → Bool) (s : Sched) (anchor : ℕ) (rq pq t seen tq : List ℕ) : Type 0 where
  pub small : s.irq_disable_counter < 2 ^ 32 - 1
  pub is_due : due s ≡ p
  pub queues :
      IsSched s
        (record { ready = rq; paused = pq; sleeping = s.sleeping ∷ (t ++ seen); terminated = tq })
  pub none_due : select p seen ≡ []
  pub at_anchor : anchor ≡ head_or (seen ++ s.sleeping ∷ []) 0

-- How often the outer loop may go round.
abbrev pub rounds : (ℕ → Bool) → List ℕ → List ℕ → ℕ
rounds p t xs = length t + length (select p xs) * length xs

fewer : (a b m n : ℕ) → a + 1 ≤ b → m + 1 ≤ n → a * m + m + 1 ≤ b * n
fewer a b m n h k = grind arith

head_ne :
    (v x : ℕ) (t seen : List ℕ) {a : ℕ}
    → a ≡ head_or (seen ++ x ∷ []) 0
    → has v (t ++ seen) ≡ false
    → x ≢ v
    → a ≢ v
head_ne v x t [] e out ne = ground arith
head_ne v x t (y ∷ ys) e out ne = ground (arith, has-append v t (y ∷ ys))

head_kept :
    (x y : ℕ) (seen : List ℕ) → head_or (seen ++ x ∷ []) 0 ≡ head_or ((seen ++ x ∷ []) ++ y ∷ []) 0
head_kept x y [] = refl
head_kept x y (z ∷ zs) = refl

module _ (p : ℕ → Bool) (inner : ℕ) where
  rounds-next :
      (fuel x v : ℕ) (t seen : List ℕ)
      → p x ≡ false
      → rounds p (v ∷ t) (x ∷ v ∷ (t ++ seen)) < suc fuel
      → rounds p t (v ∷ (t ++ (seen ++ x ∷ []))) < fuel
  rounds-next fuel x v t seen later enough =
      let xs : List ℕ = v ∷ (t ++ seen) in
      let regroup : xs ++ x ∷ [] ≡ v ∷ (t ++ (seen ++ x ∷ [])) =
        ap (λ z. v ∷ z) (append_assoc t seen (x ∷ [])) in
      let counted : select p (x ∷ xs) ≡ select p xs = unfold select in rw later in
      let longer : length (xs ++ x ∷ []) ≡ length (x ∷ xs) =
        omega (arith, length-append xs (x ∷ [])) in
      let before : suc (length t) + length (select p xs) * length (x ∷ xs) < suc fuel =
        rw counted at enough in
      subst (λ z. rounds p t z < fuel) regroup (rw (select_snoc p x xs later, longer) (omega arith))

  -- Where the first task of the queue is not due, one more round follows, or none.
  Round-Finishes :
      (fuel : ℕ) (d : Sched) (after : ℕ) (rq pq t seen tq : List ℕ)
      → Round p d after rq pq t seen tq
      → p d.sleeping ≡ false
      → length (t ++ seen) < inner
      → rounds p t (d.sleeping ∷ (t ++ seen)) < suc fuel
      → ((v : Sched) (t' seen' : List ℕ)
          → Round p v after rq pq t' seen' tq
          → length (t' ++ seen') < inner
          → rounds p t' (v.sleeping ∷ (t' ++ seen')) < fuel
          → Wakes p inner fuel v after rq pq (v.sleeping ∷ (t' ++ seen')) tq)
      → Finishes p inner fuel d after rq pq (d.sleeping ∷ (t ++ seen)) tq
  Round-Finishes fuel d after rq pq [] seen tq r later fits enough go_on =
      Finishes-stop p inner fuel d after r.queues later r.none_due r.at_anchor
  Round-Finishes fuel d after rq pq (v ∷ t) seen tq r later fits enough go_on =
      let x : ℕ = d.sleeping in
      let regroup : (t ++ seen) ++ x ∷ [] ≡ t ++ (seen ++ x ∷ []) = append_assoc t seen (x ∷ []) in
      Finishes-next p inner fuel d after r.queues later v (t ++ seen) refl
        (head_ne v x t seen r.at_anchor r.queues.sleeping_queue.2.1.1.0 (ground arith))
        λ at_v q. rw regroup (
          go_on (rotated d) t (seen ++ x ∷ [])
            (record {
              small = r.small;
              is_due = r.is_due;
              queues = rw regroup at q;
              none_due = select_snoc p x seen later ∙ r.none_due;
              at_anchor = r.at_anchor ∙ head_kept x (rotated d).sleeping seen;
            })
            (omega (
              arith,
              length-append t seen,
              length-append t (seen ++ x ∷ []),
              length-append seen (x ∷ []),
            ))
            (rw at_v (rounds-next fuel x v t seen later enough)))

  drop_first-smaller :
      (x : ℕ) (xs : List ℕ)
      → p x ≡ true
      → (length (select p (drop_first p (x ∷ xs))) + 1 ≤ length (select p (x ∷ xs)))
        × (length (drop_first p (x ∷ xs)) + 1 ≤ length (x ∷ xs))
  unfolding drop_first select
  drop_first-smaller x xs now = (
    rw now (
        omega (
          arith,
          ap length (select-split p xs),
          length-append (take_first p xs) (select p (drop_first p xs)),
        )),
    rw now (omega (arith, length-drop_first p xs)),
  )

  Drained-Finishes :
      (fuel : ℕ) (s d : Sched) (anchor after : ℕ) (rq pq t seen tq : List ℕ)
      → Round p s anchor rq pq t seen tq
      → Drained p s rq pq (s.sleeping ∷ (t ++ seen)) tq anchor d after
      → length (t ++ seen) < inner
      → rounds p t (s.sleeping ∷ (t ++ seen)) < suc fuel
      → ((v : Sched) (t' seen' : List ℕ)
          → Round p v after (rq ++ take_first p (s.sleeping ∷ (t ++ seen))) pq t' seen' tq
          → length (t' ++ seen') < inner
          → rounds p t' (v.sleeping ∷ (t' ++ seen')) < fuel
          → Wakes p inner fuel v after
              (rq ++ take_first p (s.sleeping ∷ (t ++ seen)))
              pq
              (v.sleeping ∷ (t' ++ seen'))
              tq)
      → Finishes p inner fuel d after
          (rq ++ take_first p (s.sleeping ∷ (t ++ seen)))
          pq
          (drop_first p (s.sleeping ∷ (t ++ seen)))
          tq
  Drained-Finishes fuel s d anchor after rq pq t seen tq r dr fits enough go_on =
      elim (Bool-cases (p s.sleeping)) [
        | inl now ↦ fresh now (drop_first p xs) refl
        | inr later ↦
            let stays : drop_first p xs ≡ xs = unfold drop_first in rw later in
            let head : d.sleeping ≡ s.sleeping = (rw stays at dr.queues.sleeping_queue).0 in
            let list : drop_first p xs ≡ d.sleeping ∷ (t ++ seen) =
              stays ∙ ap (λ z. z ∷ (t ++ seen)) (sym head) in
            subst (λ z. Finishes p inner fuel d after ready pq z tq) (sym list)
              (Round-Finishes fuel d after ready pq t seen tq
                (record {
                  small = rw dr.kept.irq r.small;
                  is_due = due-Kept dr.kept r.is_due;
                  queues = rw list at dr.queues;
                  none_due = r.none_due;
                  at_anchor =
                      (rw later at (dr.after_head stays))
                      ∙ r.at_anchor
                      ∙ ap (λ z. head_or (seen ++ z ∷ []) 0) (sym head);
                })
                (rw head later) fits
                (subst (λ z. rounds p t (z ∷ (t ++ seen)) < suc fuel) (sym head) enough) go_on)
      ]
    where
      xs : List ℕ
      xs = s.sleeping ∷ (t ++ seen)

      ready : List ℕ
      ready = rq ++ take_first p xs

      fresh :
          p s.sleeping ≡ true
          → (rem : List ℕ) → drop_first p xs ≡ rem
          → Finishes p inner fuel d after ready pq (drop_first p xs) tq
      fresh now [] e = rw e (Finishes-nil p inner fuel d after (rw e at dr.queues))
      fresh now (z ∷ zs) e =
          let head : d.sleeping ≡ z = (rw e at dr.queues.sleeping_queue).0 in
          let list : drop_first p xs ≡ d.sleeping ∷ (zs ++ []) =
            e ∙ ap₂ (λ a b. a ∷ b) (sym head) (sym (append-nil zs)) in
          let (fewer_due, shorter) = drop_first-smaller s.sleeping (t ++ seen) now in
          let size : suc (length zs) ≡ length (drop_first p xs) = ap length (sym e) in
          subst (λ y. Finishes p inner fuel d after ready pq y tq) (sym list)
            (Round-Finishes fuel d after ready pq zs [] tq
              (record {
                small = rw dr.kept.irq r.small;
                is_due = due-Kept dr.kept r.is_due;
                queues = rw list at dr.queues;
                none_due = unfold select in refl;
                at_anchor = (rw now at (dr.after_head e)) ∙ sym head;
              })
              (rw head (drop_first-head p xs e)) (rw append-nil (omega arith))
              (subst (λ y. rounds p zs y < suc fuel) list
                (omega (
                  arith,
                  fewer (length (select p (drop_first p xs))) (length (select p xs))
                      (length (drop_first p xs)) (length xs) fewer_due shorter,
                )))
              go_on)

  -- With enough fuel the outer loop ends, and has woken every task that is due and no other.
  pub wake-Woke :
      (fuel : ℕ) (s : Sched) (anchor : ℕ) (rq pq t seen tq : List ℕ)
      → Round p s anchor rq pq t seen tq
      → length (t ++ seen) < inner
      → rounds p t (s.sleeping ∷ (t ++ seen)) < fuel
      → Wakes p inner fuel s anchor rq pq (s.sleeping ∷ (t ++ seen)) tq
  unfolding wake
  wake-Woke zero s anchor rq pq t seen tq r fits enough = absurd (omega arith)
  wake-Woke (suc fuel) s anchor rq pq t seen tq r fits enough =
      let xs : List ℕ = s.sleeping ∷ (t ++ seen) in
      let (d, after, runs, dr) =
        drain-Drained p inner s anchor (t ++ seen) rq pq tq fits r.small r.is_due r.queues in
      let (s', e, woke) =
        Drained-Finishes fuel s d anchor after rq pq t seen tq r dr fits enough
          (λ v t' seen' r' fits' enough'.
            wake-Woke fuel v after (rq ++ take_first p xs) pq t' seen' tq r' fits' enough') in
      (s', rw (runs, wake) e, Woke-drained p xs dr.kept dr.state_kept woke)
