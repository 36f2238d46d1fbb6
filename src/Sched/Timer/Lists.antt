-- ===== src/Sched/Timer/Lists.antt =====
-- The part of a queue that is due, the part that is not, and a queue seen from another task.
use swallow_os.Prelude.{
  ℕ, zero, suc, ◌≡◌, ◌≤◌, refl, ap, Bool, false, not, List, [], ◌∷◌, ◌++◌, arith, if◌then◌else◌,
  length, inl, inr, Bool-cases,
}

module _ (p : ℕ → Bool) where
  -- The tasks that pass the test, in order.
  unfoldable pub select : List ℕ → List ℕ
  select [] = []
  select (x ∷ xs) = if p x then x ∷ select xs else select xs

  -- The longest first part whose tasks all pass the test, and the rest.
  unfoldable pub take_first : List ℕ → List ℕ
  take_first [] = []
  take_first (x ∷ xs) = if p x then x ∷ take_first xs else []

  unfoldable pub drop_first : List ℕ → List ℕ
  drop_first [] = []
  drop_first (x ∷ xs) = if p x then drop_first xs else x ∷ xs

  pub select-append : (xs ys : List ℕ) → select (xs ++ ys) ≡ select xs ++ select ys
  unfolding select
  select-append [] ys = refl
  select-append (x ∷ xs) ys = ground (arith, select-append xs ys)

  pub select-split : (xs : List ℕ) → select xs ≡ take_first xs ++ select (drop_first xs)
  unfolding select take_first drop_first
  select-split [] = refl
  select-split (x ∷ xs) = elim (Bool-cases (p x)) [
    | inl e ↦ rw e (ap (λ z. x ∷ z) (select-split xs))
    | inr e ↦ rw (e, e)
  ]

  pub drop_first-head : (xs : List ℕ) {z : ℕ} {zs : List ℕ} → drop_first xs ≡ z ∷ zs → p z ≡ false
  unfolding drop_first
  drop_first-head [] e = cc
  drop_first-head (x ∷ xs) e = elim (Bool-cases (p x)) [
    | inl t ↦ drop_first-head xs (rw t at e)
    | inr f ↦ ground arith
  ]

  pub length-drop_first : (xs : List ℕ) → length (drop_first xs) ≤ length xs
  unfolding drop_first
  length-drop_first [] = omega arith
  length-drop_first (x ∷ xs) = ground (arith, length-drop_first xs)

pub select-not-drop_first :
    (p : ℕ → Bool) (xs : List ℕ)
    → select (λ n. not (p n)) (drop_first p xs) ≡ select (λ n. not (p n)) xs
unfolding select drop_first
select-not-drop_first p [] = refl
select-not-drop_first p (x ∷ xs) = ground (arith, select-not-drop_first p xs)

-- The queue seen from its second task, and `k` tasks further on.
abbrev pub rotate : List ℕ → List ℕ
rotate [] = []
rotate (x ∷ xs) = xs ++ x ∷ []

unfoldable pub spin : ℕ → List ℕ → List ℕ
spin zero xs = xs
spin (suc k) xs = spin k (rotate xs)

abbrev pub head_or : List ℕ → ℕ → ℕ
head_or [] d = d
head_or (x ∷ xs) d = x
