-- ===== src/Links/Queue.antt =====
-- A queue of tasks: a head pointer, null for the empty queue, into a ring.
use swallow_os.Prelude.{ℕ, ◌≡◌, true, false, List, [], ◌∷◌}
use swallow_os.Links.{Links, null}
use swallow_os.Links.Path.{has, IsPath-frame}
use swallow_os.Links.Ring.{IsRing, SameOutside}

-- The pointer `p` heads a queue of the nodes `xs`.
abbrev pub IsQueue : Links → ℕ → List ℕ → Type 0
IsQueue l p [] = p ≡ null
IsQueue l p (x ∷ xs) = (p ≡ x) × (has null (x ∷ xs) ≡ false) × IsRing l x xs

abbrev pub Disjoint : List ℕ → List ℕ → Type 0
Disjoint xs ys = (n : ℕ) → has n xs ≡ true → has n ys ≡ false

-- A queue survives a change that spares its nodes.
pub IsQueue-frame :
    (l k : Links) (p : ℕ) (xs ys : List ℕ)
    → SameOutside ys l k
    → Disjoint xs ys
    → IsQueue l p xs
    → IsQueue k p xs
IsQueue-frame l k p [] ys same apart q = q
IsQueue-frame l k p (x ∷ xs) ys same apart q = (
  q.0,
  q.1,
  (
    IsPath-frame l k x xs x (λ n h. (same n (apart n h)).0) (λ n h. (same n (apart n h)).1) q.2.0,
    q.2.1,
  ),
)
