-- ===== src/Links/Tests.antt =====
-- Rings on concrete lists.
use swallow_os.Prelude.{◌==◌, if◌then◌else◌, arith, [], ◌∷◌}
use swallow_os.Links.{Links}
use swallow_os.Links.Ring.{IsRing}

-- The nodes 3, 5 and 8 in a circle, and every other node alone.
abbrev three : Links
three = record {
  next = λ n. if n == 3 then 5 else if n == 5 then 8 else if n == 8 then 3 else n;
  prev = λ n. if n == 3 then 8 else if n == 5 then 3 else if n == 8 then 5 else n;
}

three-IsRing : IsRing three 3 (5 ∷ 8 ∷ [])
three-IsRing = ground arith
