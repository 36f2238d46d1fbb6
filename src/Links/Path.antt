-- ===== src/Links/Path.antt =====
-- Stretches of a doubly linked list.
use swallow_os.Prelude.{
  ℕ, ◌≡◌, ◌≢◌, refl, ◌∙◌, Bool, true, false, ◌||◌, List, [], ◌∷◌, ◌++◌, arith, ◌==◌,
}
use swallow_os.Links.{Links}

-- Membership as a test.
abbrev pub has : ℕ → List ℕ → Bool
has a [] = false
has a (x ∷ xs) = (a == x) || has a xs

abbrev pub AllDistinct : List ℕ → Type 0
AllDistinct [] = Unit {0}
AllDistinct (x ∷ xs) = (has x xs ≡ false) × AllDistinct xs

-- The node `a` is followed by the nodes `xs` and these by `b`, by `next`, and the same way back by
-- `prev`.
abbrev pub IsPath : Links → ℕ → List ℕ → ℕ → Type 0
IsPath l a [] b = (l.next a ≡ b) × (l.prev b ≡ a)
IsPath l a (x ∷ xs) b = (l.next a ≡ x) × (l.prev x ≡ a) × IsPath l x xs b

abbrev pub last : ℕ → List ℕ → ℕ
last a [] = a
last a (x ∷ xs) = last x xs

pub prev-IsPath : (l : Links) (a : ℕ) (xs : List ℕ) (b : ℕ) → IsPath l a xs b → l.prev b ≡ last a xs
prev-IsPath l a [] b p = p.1
prev-IsPath l a (x ∷ xs) b p = prev-IsPath l x xs b p.2

pub has-last : (a : ℕ) (xs : List ℕ) → has (last a xs) (a ∷ xs) ≡ true
has-last a [] = ground arith
has-last a (x ∷ xs) = ground (arith, has-last x xs)

pub has-append : (a : ℕ) (xs ys : List ℕ) → has a (xs ++ ys) ≡ (has a xs || has a ys)
has-append a [] ys = refl
has-append a (x ∷ xs) ys = ground (arith, has-append a xs ys)

pub AllDistinct-snoc :
    (xs : List ℕ) (n : ℕ) → AllDistinct xs → has n xs ≡ false → AllDistinct (xs ++ n ∷ [])
AllDistinct-snoc [] n d h = (refl, tt)
AllDistinct-snoc (x ∷ xs) n d h =
    (ground (arith, has-append x xs (n ∷ [])), AllDistinct-snoc xs n d.1 (ground arith))

-- A path survives a change that spares the `next` of its nodes but the last, and the `prev` of its
-- nodes but the first.
pub IsPath-frame :
    (l k : Links) (a : ℕ) (xs : List ℕ) (b : ℕ)
    → ((n : ℕ) → has n (a ∷ xs) ≡ true → k.next n ≡ l.next n)
    → ((n : ℕ) → has n (b ∷ xs) ≡ true → k.prev n ≡ l.prev n)
    → IsPath l a xs b
    → IsPath k a xs b
IsPath-frame l k a [] b same_next same_prev p =
    (same_next a (ground arith) ∙ p.0, same_prev b (ground arith) ∙ p.1)
IsPath-frame l k a (x ∷ xs) b same_next same_prev p = (
  same_next a (ground arith) ∙ p.0,
  same_prev x (ground arith) ∙ p.1,
  IsPath-frame l k x xs b (λ n h. same_next n (ground arith)) (λ n h. same_prev n (ground arith))
      p.2,
)

pub IsPath-snoc :
    (l : Links) (a : ℕ) (xs : List ℕ) (n b : ℕ)
    → IsPath l a xs n
    → l.next n ≡ b
    → l.prev b ≡ n
    → IsPath l a (xs ++ n ∷ []) b
IsPath-snoc l a [] n b p e f = (p.0, p.1, (e, f))
IsPath-snoc l a (x ∷ xs) n b p e f = (p.0, p.1, IsPath-snoc l x xs n b p.2 e f)

-- Only the `next` of the last node and the `prev` of the end tell where a path ends.
pub IsPath-retarget :
    (l k : Links) (a : ℕ) (xs : List ℕ) (b c : ℕ)
    → AllDistinct (a ∷ xs)
    → ((n : ℕ) → has n (a ∷ xs) ≡ true → n ≢ last a xs → k.next n ≡ l.next n)
    → ((n : ℕ) → has n xs ≡ true → k.prev n ≡ l.prev n)
    → k.next (last a xs) ≡ c
    → k.prev c ≡ last a xs
    → IsPath l a xs b
    → IsPath k a xs c
IsPath-retarget l k a [] b c d same_next same_prev e f p = (e, f)
IsPath-retarget l k a (x ∷ xs) b c d same_next same_prev e f p = (
  same_next a (ground arith) (ground (arith, has-last x xs)) ∙ p.0,
  same_prev x (ground arith) ∙ p.1,
  IsPath-retarget l k x xs b c d.1 (λ n h ne. same_next n (ground arith) ne)
      (λ n h. same_prev n (ground arith)) e f p.2,
)
