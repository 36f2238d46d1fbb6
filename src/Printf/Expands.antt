-- ===== src/Printf/Expands.antt =====
-- `vprintk_func` prints what the format stands for.
use swallow_os.Prelude.{
  ℕ, zero, suc, ◌+◌, ◌^◌, ◌≡◌, ◌<◌, refl, sym, subst, ◌∙◌, ap, false, ◌==◌, ltb, List, [], ◌∷◌,
  ◌++◌, append_assoc, append-nil, length, length-append, Option, none, some, arith, Bool-cases,
  Option-cases, inl, inr,
}
use swallow_os.Prelude.Words.{u32}
use swallow_os.Printf.{
  Printed, Conversion, conversion, converted, too_long, print, fail, maxrem, print_plain,
  take_plain, drop_plain, next_parameter, vprintk_func, character, string, signed, unsigned,
}
use swallow_os.Printf.Reference.{expand, or_nothing, expand-plain, length-drop_plain}
use swallow_os.Printf.Numbers.{converted-some}

-- The count of so many more bytes fits an `int`.
abbrev pub HasRoom : Printed → List ℕ → Type 0
HasRoom p bytes = p.written + length bytes < 2 ^ 31

abbrev Runs : Option Printed → Printed → List ℕ → Type 0
Runs result p bytes = result ≡ some (print p bytes)

print_plain-some :
    (p : Printed) (c : ℕ) (plain : List ℕ)
    → HasRoom p (c ∷ take_plain plain)
    → print_plain p c plain ≡ some (print p (c ∷ take_plain plain))
unfolding print_plain
print_plain-some p c plain room =
    let fits : ltb (maxrem p) (length (c ∷ take_plain plain)) ≡ false = ground arith in rw fits

print_append :
    (p : Printed) (xs ys : List ℕ)
    → HasRoom p (xs ++ ys)
    → print (print p xs) ys ≡ print p (xs ++ ys)
unfolding print
print_append p xs ys room =
    let e = length-append xs ys in
    let inner : u32 (p.written + length xs) ≡ p.written + length xs = omega arith in
    let count : p.written + length xs + length ys ≡ p.written + length (xs ++ ys) = omega arith in
    rw (inner, append_assoc, count)

HasRoom-append :
    (p : Printed) (xs ys : List ℕ) → HasRoom p (xs ++ ys) → HasRoom p xs × HasRoom (print p xs) ys
unfolding print
HasRoom-append p xs ys room = let e = length-append xs ys in (omega arith, omega arith)

module _ (fuel : ℕ) (parameters : ℕ → ℕ) (text : ℕ → List ℕ) (p : Printed) where
  -- The loop goes on with `format`, from any output.
  abbrev GoesOn : List ℕ → (ℕ → ℕ) → Type 0
  GoesOn format parameters' =
      (q : Printed)
      → HasRoom q (expand text format parameters')
      → Runs (vprintk_func fuel format parameters' text q) q (expand text format parameters')

  abbrev after_plain : ℕ → List ℕ → Option Printed
  after_plain c plain = elim (print_plain p c plain) [
    | none ↦ some (fail p)
    | some q ↦ vprintk_func fuel (drop_plain plain) parameters text q
  ]

  plain_run :
      (c : ℕ) (plain : List ℕ)
      → HasRoom p (c ∷ expand text plain parameters)
      → GoesOn (drop_plain plain) parameters
      → Runs (after_plain c plain) p (c ∷ expand text plain parameters)
  unfolding print
  plain_run c plain room goes =
      let shown : List ℕ = c ∷ take_plain plain in
      let tail : List ℕ = expand text (drop_plain plain) parameters in
      let whole : c ∷ expand text plain parameters ≡ shown ++ tail =
        ap (λ z. c ∷ z) (expand-plain text plain parameters) in
      let (here, there) = HasRoom-append p shown tail (subst (λ z. HasRoom p z) whole room) in
      subst (λ z. Runs (after_plain c plain) p z) (sym whole)
        (rw (after_plain, print_plain-some p c plain here)
          (goes (print p shown) there
            ∙ ap some (print_append p shown tail (subst (λ z. HasRoom p z) whole room))))

  conversion_run :
      (bytes more : List ℕ)
      → HasRoom p (bytes ++ expand text more (next_parameter parameters))
      → GoesOn more (next_parameter parameters)
      → Runs
          (vprintk_func fuel more (next_parameter parameters) text (print p bytes))
          p
          (bytes ++ expand text more (next_parameter parameters))
  unfolding print
  conversion_run bytes more room goes =
      let tail : List ℕ = expand text more (next_parameter parameters) in
      let (here, there) = HasRoom-append p bytes tail room in
      goes (print p bytes) there ∙ ap some (print_append p bytes tail room)

too_long-false :
    (text : ℕ → List ℕ) (k : Conversion) (w : ℕ) (bytes : List ℕ) (p : Printed)
    → converted text k w ≡ some bytes
    → HasRoom p bytes
    → too_long k (maxrem p) (length bytes) ≡ false
unfolding too_long converted
too_long-false text character w bytes p e room =
    let one : length bytes ≡ 1 = ap (λ o. length (or_nothing o)) (sym e) in ground arith
too_long-false text string w bytes p e room = ground arith
too_long-false text signed w bytes p e room = refl
too_long-false text (unsigned base) w bytes p e room = refl

percent_run :
    (fuel : ℕ) (parameters : ℕ → ℕ) (text : ℕ → List ℕ) (p : Printed) (d : ℕ) (more : List ℕ)
    → GoesOn fuel parameters text p (drop_plain more) parameters
    → GoesOn fuel parameters text p more (next_parameter parameters)
    → HasRoom p (expand text (b'%' ∷ d ∷ more) parameters)
    → Runs
        (vprintk_func (suc fuel) (b'%' ∷ d ∷ more) parameters text p)
        p
        (expand text (b'%' ∷ d ∷ more) parameters)
unfolding vprintk_func expand
percent_run fuel parameters text p d more plainly converting room = elim (Bool-cases (d == b'%')) [
  | inl again ↦
      rw (vprintk_func, again)
        (plain_run fuel parameters text p b'%' more (rw again at room) plainly)
  | inr lone ↦ elim (Option-cases (conversion d)) [
    | inl unknown ↦
        let fits : ltb (maxrem p) (length (b'%' ∷ d ∷ more)) ≡ false =
          let room' = rw (lone, unknown) at room in ground arith in
        rw (vprintk_func, lone, unknown, fits) (unfold print in refl)
    | inr (k, known) ↦
        let (bytes, is, le) = converted-some text k d (parameters 0) known in
        let room' = rw (lone, known, is) at room in
        let (here, there) =
          HasRoom-append p bytes (expand text more (next_parameter parameters)) room' in
        rw (vprintk_func, lone, known, is, too_long-false text k (parameters 0) bytes p is here)
          (conversion_run fuel parameters text p bytes more room' converting)
  ]
]

vprintk_func-Runs :
    (fuel : ℕ) (format : List ℕ) (parameters : ℕ → ℕ) (text : ℕ → List ℕ) (p : Printed)
    → length format < fuel
    → HasRoom p (expand text format parameters)
    → Runs (vprintk_func fuel format parameters text p) p (expand text format parameters)
unfolding vprintk_func expand
vprintk_func-Runs zero format parameters text p enough room = absurd (omega arith)
vprintk_func-Runs (suc fuel) [] parameters text p enough room =
    let same : u32 (p.written + 0) ≡ p.written = omega arith in
    unfold print in rw (append-nil, same)
vprintk_func-Runs (suc fuel) (c ∷ []) parameters text p enough room =
    rw (vprintk_func, print_plain-some p c [] (unfold take_plain in room))
      (unfold print take_plain in refl)
vprintk_func-Runs (suc fuel) (c ∷ d ∷ more) parameters text p enough room =
    elim (Bool-cases (c == b'%')) [
      | inr other ↦
          rw (vprintk_func, other)
            (plain_run fuel parameters text p c (d ∷ more) (rw other at room) (λ q.
              vprintk_func-Runs fuel (drop_plain (d ∷ more)) parameters text q
                (omega (arith, length-drop_plain (d ∷ more)))))
      | inl sign ↦
          let e : c ≡ b'%' = ground arith in
          subst
            (λ z.
              HasRoom p (expand text (z ∷ d ∷ more) parameters)
              → Runs (vprintk_func (suc fuel) (z ∷ d ∷ more) parameters text p) p
                  (expand text (z ∷ d ∷ more) parameters))
            (sym e)
            (percent_run fuel parameters text p d more
              (λ q.
                vprintk_func-Runs fuel (drop_plain more) parameters text q
                  (omega (arith, length-drop_plain more)))
              (λ q. vprintk_func-Runs fuel more (next_parameter parameters) text q (omega arith)))
            room
    ]

-- The bytes were printed and nothing failed.
abbrev pub Prints : Option Printed → Printed → List ℕ → Type 0
Prints result p bytes =
    result
    ≡ some (record { out = p.out ++ bytes; written = p.written + length bytes; failed = p.failed })

-- With more fuel than the format has bytes, and a count that fits an `int`, exactly what the format
-- stands for is printed and counted.
pub vprintk_func-expand :
    (fuel : ℕ) (format : List ℕ) (parameters : ℕ → ℕ) (text : ℕ → List ℕ) (p : Printed)
    → length format < fuel
    → HasRoom p (expand text format parameters)
    → Prints (vprintk_func fuel format parameters text p) p (expand text format parameters)
unfolding print
vprintk_func-expand fuel format parameters text p enough room =
    let fits : u32 (p.written + length (expand text format parameters))
        ≡ p.written + length (expand text format parameters) =
      omega arith in
    vprintk_func-Runs fuel format parameters text p enough room ∙ rw fits refl
