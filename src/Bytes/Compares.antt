-- ===== src/Bytes/Compares.antt =====
-- What comparing and measuring find.
use swallow_os.Prelude.{
  ℕ, zero, suc, ◌+◌, ◌≡◌, ◌≢◌, ◌<◌, ◌≤◌, ◌∙◌, ap, true, false, ◌==◌, ltb, arith, Bool-cases, inl,
  inr, some,
}
use swallow_os.Bytes.{Comparison, less, same, greater, compare_from, memcmp, strlen_from, strlen}

-- The first different bytes of the two ranges, from the index `i` on with `n` bytes to go, and how they
-- compare.
abbrev pub Compares : (ℕ → ℕ) → ℕ → ℕ → ℕ → ℕ → Comparison → Type 0
Compares mem a b i n same = (j : ℕ) → i ≤ j → j < i + n → mem (a + j) ≡ mem (b + j)
Compares mem a b i n less =
    (k : ℕ) × (i ≤ k)
    × (k < i + n)
    × (mem (a + k) < mem (b + k))
    × ((j : ℕ) → i ≤ j → j < k → mem (a + j) ≡ mem (b + j))
Compares mem a b i n greater =
    (k : ℕ) × (i ≤ k)
    × (k < i + n)
    × (mem (b + k) < mem (a + k))
    × ((j : ℕ) → i ≤ j → j < k → mem (a + j) ≡ mem (b + j))

also_first :
    (mem : ℕ → ℕ) (a b i k j : ℕ)
    → mem (a + i) ≡ mem (b + i)
    → ((j : ℕ) → suc i ≤ j → j < k → mem (a + j) ≡ mem (b + j))
    → i ≤ j
    → j < k
    → mem (a + j) ≡ mem (b + j)
also_first mem a b i k j e h u v = elim (Bool-cases (j == i)) [
  | inl here ↦ let at : j ≡ i = ground arith in rw at e
  | inr past ↦ h j (ground arith) v
]

Compares-suc :
    (mem : ℕ → ℕ) (a b i n : ℕ) (r : Comparison)
    → mem (a + i) ≡ mem (b + i)
    → Compares mem a b (suc i) n r
    → Compares mem a b i (suc n) r
Compares-suc mem a b i n same e h = λ j p q. elim (Bool-cases (j == i)) [
  | inl here ↦ let at : j ≡ i = ground arith in rw at e
  | inr past ↦ h j (ground arith) (omega arith)
]
Compares-suc mem a b i n less e (k, p, q, l, h) =
    (k, omega arith, omega arith, l, λ j u v. also_first mem a b i k j e h u v)
Compares-suc mem a b i n greater e (k, p, q, l, h) =
    (k, omega arith, omega arith, l, λ j u v. also_first mem a b i k j e h u v)

compare_from-Compares :
    (mem : ℕ → ℕ) (a b i n : ℕ) → Compares mem a b i n (compare_from mem a b i n)
unfolding compare_from
compare_from-Compares mem a b i zero = λ j p q. absurd (omega arith)
compare_from-Compares mem a b i (suc n) = elim (Bool-cases (ltb (mem (a + i)) (mem (b + i)))) [
  | inl t ↦ rw t (i, omega arith, omega arith, ground arith, λ j u v. absurd (omega arith))
  | inr f ↦ elim (Bool-cases (ltb (mem (b + i)) (mem (a + i)))) [
    | inl t ↦ rw (f, t) (i, omega arith, omega arith, ground arith, λ j u v. absurd (omega arith))
    | inr g ↦
        rw (f, g)
          (Compares-suc mem a b i n (compare_from mem a b (suc i) n) (ground arith)
            (compare_from-Compares mem a b (suc i) n))
  ]
]

-- `memcmp` finds the ranges equal where all their bytes are; else the first bytes that differ compare
-- as the result says.
pub memcmp-Compares : (mem : ℕ → ℕ) (a b size : ℕ) → Compares mem a b 0 size (memcmp mem a b size)
unfolding memcmp
memcmp-Compares mem a b size = compare_from-Compares mem a b 0 size

strlen_at :
    (fuel : ℕ) (mem : ℕ → ℕ) (str len k : ℕ)
    → k < fuel
    → mem (str + (len + k)) ≡ 0
    → ((j : ℕ) → j < k → mem (str + (len + j)) ≢ 0)
    → strlen_from fuel mem str len ≡ some (len + k)
unfolding strlen_from
strlen_at zero mem str len k h e f = absurd (omega arith)
strlen_at (suc fuel) mem str len zero h e f =
    let found : (mem (str + len) == 0) ≡ true = ground arith in rw found (ap some (omega arith))
strlen_at (suc fuel) mem str len (suc k) h e f =
    let more : (mem (str + len) == 0) ≡ false = ground (arith, f 0) in
    rw more (
      strlen_at fuel mem str (suc len) k (omega arith) (ap (λ z. mem (str + z)) (omega arith) ∙ e)
        (λ j p q. f (suc j) (omega arith) (ap (λ z. mem (str + z)) (omega arith) ∙ q))
      ∙ ap some (omega arith))

-- With fuel past the end of the text `strlen` ends and gives the index of the first zero byte.
pub strlen-some :
    (fuel : ℕ) (mem : ℕ → ℕ) (str k : ℕ)
    → k < fuel
    → mem (str + k) ≡ 0
    → ((j : ℕ) → j < k → mem (str + j) ≢ 0)
    → strlen fuel mem str ≡ some k
unfolding strlen
strlen-some fuel mem str k h e f =
    strlen_at fuel mem str 0 k h (ap (λ z. mem (str + z)) (omega arith) ∙ e)
      (λ j p q. f j p (ap (λ z. mem (str + z)) (omega arith) ∙ q))
    ∙ ap some (omega arith)
