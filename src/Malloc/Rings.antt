-- ===== src/Malloc/Rings.antt =====
-- What the checks of the heap say of rings.
use swallow_os.Prelude.{
  ℕ, zero, suc, ◌^◌, ◌≡◌, ◌≢◌, ◌≤◌, ◌<◌, refl, true, false, ◌==◌, ==_refl, List, [], ◌∷◌, length,
  some, arith,
}
use swallow_os.Links.Path.{last, has, has-last, IsPath, prev-IsPath}
use swallow_os.Links.Ring.{IsRing}
use swallow_os.Malloc.{Heap, of_free_node}
use swallow_os.Malloc.Check.{check_all, check_free}

check_all-path :
    (fuel : ℕ) (h : Heap) (start it t : ℕ) (xs : List ℕ)
    → length xs < fuel
    → IsPath h.links it xs start
    → has start xs ≡ false
    → h.links.prev it ≡ t
    → check_all fuel h start it t ≡ some true
unfolding check_all
check_all-path zero h start it t xs enough path apart before = absurd (omega arith)
check_all-path (suc fuel) h start it t [] enough path apart before = ground (arith, path.0)
check_all-path (suc fuel) h start it t (x ∷ xs) enough path apart before =
    let rest = check_all-path fuel h start x it xs (omega arith) path.2 (ground arith) path.1 in
    ground (arith, rest)

-- On a ring of chunks that ends with the chunk given, the check passes, with more rounds than the ring
-- has chunks.
pub check_all-IsRing :
    (fuel : ℕ) (h : Heap) (first : ℕ) (xs : List ℕ)
    → length xs < fuel
    → IsRing h.links first xs
    → check_all fuel h first first (last first xs) ≡ some true
check_all-IsRing fuel h first xs enough ring =
    check_all-path fuel h first first (last first xs) xs enough ring.0 ring.1.0
      (prev-IsPath h.links first xs first ring.0)

-- On a ring of free chunks with two nodes or more, all below 2 ^ 64, the check fails, although nothing
-- is wrong with the ring.
pub check_free-IsRing :
    (fuel : ℕ) (h : Heap) (node second : ℕ) (xs : List ℕ)
    → 2 ≤ fuel
    → node < 2 ^ 64
    → last second xs < 2 ^ 64
    → IsRing h.links node (second ∷ xs)
    → check_free fuel h node node (of_free_node (h.links.prev node)) ≡ some false
unfolding check_free
check_free-IsRing zero h node second xs enough lt lt' ring = absurd (omega arith)
check_free-IsRing (suc zero) h node second xs enough lt lt' ring = absurd (omega arith)
check_free-IsRing (suc (suc fuel)) h node second xs enough lt lt' ring =
    let before : h.links.prev node ≡ last second xs =
      prev-IsPath h.links node (second ∷ xs) node ring.0 in
    let apart : last second xs ≢ node = ground (arith, has-last second xs, ring.1.0) in
    let differ : (of_free_node node == of_free_node (last second xs)) ≡ false = ground arith in
    let same : (of_free_node (last second xs) == of_free_node (last second xs)) ≡ true =
      ==_refl (of_free_node (last second xs)) in
    let other : (second == node) ≡ false = ground (arith, ring.1.0) in
    rw (check_free, before, ring.0.0, ring.0.1, same, other, differ) refl
