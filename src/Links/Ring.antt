-- ===== src/Links/Ring.antt =====
-- Rings: what each operation of list.h does to a circular list.
use swallow_os.Prelude.{ℕ, ◌≡◌, refl, true, false, List, [], ◌∷◌, ◌++◌, arith}
use swallow_os.Links.{
  Links, init_list_head, is_last_entry, list_add, list_add_tail, list_del, list_replace,
}
use swallow_os.Links.Path.{
  has, AllDistinct, IsPath, prev-IsPath, has-last, AllDistinct-snoc, IsPath-frame, IsPath-snoc,
  IsPath-retarget,
}

-- The distinct nodes `x ∷ xs` form a circle, seen from `x`.
abbrev pub IsRing : Links → ℕ → List ℕ → Type 0
IsRing l x xs = IsPath l x xs x × AllDistinct (x ∷ xs)

-- Only nodes of the list change.
abbrev pub SameOutside : List ℕ → Links → Links → Type 0
SameOutside xs l k = (n : ℕ) → has n xs ≡ false → (k.next n ≡ l.next n) × (k.prev n ≡ l.prev n)

-- `INIT_LIST_HEAD` makes a ring of one node.
pub init_list_head-IsRing : (l : Links) (x : ℕ) → IsRing (init_list_head l x) x []
unfolding init_list_head
init_list_head-IsRing l x = ground arith

module _ (l : Links) (x : ℕ) (xs : List ℕ) (r : IsRing l x xs) where
  -- `is_last_entry` holds exactly of a ring of one node.
  pub is_last_entry-nil : is_last_entry l x ≡ true → xs ≡ []
  unfolding is_last_entry
  is_last_entry-nil h = alone xs r
    where
      alone : (ys : List ℕ) → IsRing l x ys → ys ≡ []
      alone [] q = refl
      alone (y ∷ ys) q = absurd (ground arith)

  -- `list_add_tail` at the head of a ring puts a node that is not in the ring behind its last node,
  -- and touches no node outside.
  pub list_add_tail-snoc :
      (n : ℕ)
      → has n (x ∷ xs) ≡ false
      → IsRing (list_add_tail l n x) x (xs ++ n ∷ [])
        × SameOutside (n ∷ x ∷ xs) l (list_add_tail l n x)
  unfolding list_add_tail
  list_add_tail-snoc n out = (
    (
      IsPath-snoc k x xs n x
          (IsPath-retarget l k x xs x n r.1 (λ m h ne. ground (arith, prev-IsPath l x xs x r.0))
            (λ m h. ground arith) (ground (arith, prev-IsPath l x xs x r.0))
            (ground (arith, prev-IsPath l x xs x r.0)) r.0)
          (ground (arith, prev-IsPath l x xs x r.0, has-last x xs)) (ground arith),
      AllDistinct-snoc (x ∷ xs) n r.1 out,
    ),
    (λ m h. ground (arith, prev-IsPath l x xs x r.0, has-last x xs)),
  )
    where
      k : Links
      k = list_add_tail l n x

  -- `list_add` at a node of a ring puts a node that is not in the ring right behind it, and touches
  -- no node outside.
  pub list_add-cons :
      (n : ℕ)
      → has n (x ∷ xs) ≡ false
      → IsRing (list_add l n x) x (n ∷ xs) × SameOutside (n ∷ x ∷ xs) l (list_add l n x)
  unfolding list_add
  list_add-cons n out = behind xs r out
    where
      behind :
          (ys : List ℕ)
          → IsRing l x ys
          → has n (x ∷ ys) ≡ false
          → IsRing (list_add l n x) x (n ∷ ys) × SameOutside (n ∷ x ∷ ys) l (list_add l n x)
      behind [] q o = (ground arith, λ m h. ground arith)
      behind (y ∷ ys) q o = (
        (
          (
            ground arith,
            ground arith,
            (
              ground arith,
              ground arith,
              IsPath-frame l (list_add l n x) y ys x (λ m h. ground arith) (λ m h. ground arith)
                  q.0.2,
            ),
          ),
          ground arith,
        ),
        (λ m h. ground arith),
      )

  -- `list_replace` puts a new node in the place of a node of a ring.
  pub list_replace-IsRing : (n : ℕ) → has n (x ∷ xs) ≡ false → IsRing (list_replace l x n) n xs
  unfolding list_replace
  list_replace-IsRing n out = swapped xs r out
    where
      swapped :
          (ys : List ℕ) → IsRing l x ys → has n (x ∷ ys) ≡ false → IsRing (list_replace l x n) n ys
      swapped [] q o = ground arith
      swapped (y ∷ ys) q o = (
        (
          ground (arith, prev-IsPath l y ys x q.0.2, has-last y ys),
          ground (arith, prev-IsPath l y ys x q.0.2, has-last y ys),
          IsPath-retarget l (list_replace l x n) y ys x n q.1.1
              (λ m h ne. ground (arith, prev-IsPath l y ys x q.0.2, has-last y ys))
              (λ m h. ground (arith, prev-IsPath l y ys x q.0.2, has-last y ys))
              (ground (arith, prev-IsPath l y ys x q.0.2, has-last y ys))
              (ground (arith, prev-IsPath l y ys x q.0.2, has-last y ys)) q.0.2,
        ),
        ground arith,
      )

module _ (l : Links) (x y : ℕ) (ys : List ℕ) (r : IsRing l x (y ∷ ys)) where
  -- A ring seen from its second node.
  pub IsRing-rotate : IsRing l y (ys ++ x ∷ [])
  IsRing-rotate =
      (IsPath-snoc l y ys x y r.0.2 r.0.0 r.0.1, AllDistinct-snoc (y ∷ ys) x r.1.1 r.1.0)

  -- `list_del` takes a node out of its ring, poisons its pointers, and touches no node outside.
  pub list_del-IsRing :
      IsRing (list_del l x) y ys
      × ((list_del l x).next x ≡ 0x100)
      × ((list_del l x).prev x ≡ 0x200)
      × SameOutside (x ∷ y ∷ ys) l (list_del l x)
  unfolding list_del
  list_del-IsRing = (
    (
      IsPath-retarget l (list_del l x) y ys x y r.1.1
          (λ m h ne. ground (arith, prev-IsPath l y ys x r.0.2))
          (λ m h. ground (arith, prev-IsPath l y ys x r.0.2))
          (ground (arith, prev-IsPath l y ys x r.0.2, has-last y ys))
          (ground (arith, prev-IsPath l y ys x r.0.2)) r.0.2,
      r.1.1,
    ),
    ground arith,
    ground arith,
    (λ m h. ground (arith, prev-IsPath l y ys x r.0.2, has-last y ys)),
  )
