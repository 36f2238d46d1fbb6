-- ===== src/Fat/Directory/Search.antt =====
-- The search through the sectors of the root directory as one search through its entries.
use swallow_os.Prelude.{
  ℕ, zero, suc, ◌+◌, ◌-◌, ◌*◌, ◌/◌, ◌%◌, ◌≡◌, ◌<◌, ◌≤◌, refl, sym, ◌∙◌, ap, ap₂, subst, List,
  Option, none, some, arith, ◌⊎◌, inl, inr, Bool-cases, ◌==◌,
}
use swallow_os.Prelude.Words.{u32}
use swallow_os.Fat.{Disk, Fat12}
use swallow_os.Fat.Directory.{
  Outcome, stop, next, found, upper_padding, check_entry, search_sector, search_root, in_memory,
  find_by_name,
}
use swallow_os.Fat.Directory.Shortened.{IsName}
use swallow_os.Fat.Directory.Matches.{IsEnd, IsUsed, IsLong, IsShort, IsOther, check_entry-Judged}

module _ (mems : ℕ → ℕ → ℕ) (name : List ℕ) (n8 e3 : ℕ → ℕ) where
  -- What the code does with the entry `k` of the directory; a sector has sixteen of them.
  abbrev pub outcome : ℕ → Outcome
  outcome k = check_entry (mems (k / 16)) name n8 e3 (k % 16)

  -- The entries from `k` on.
  unfoldable first_found : ℕ → ℕ → Option ((ℕ → ℕ) × ℕ)
  first_found k zero = none
  first_found k (suc left) = elim (outcome k) [
    | stop ↦ none
    | next ↦ first_found (k + 1) left
    | found j ↦ some (mems (k / 16), j)
  ]

  abbrev after_sector : ℕ → ℕ → Outcome → Option ((ℕ → ℕ) × ℕ)
  after_sector i rest result = elim result [
    | stop ↦ none
    | next ↦ first_found ((i + 1) * 16) rest
    | found j ↦ some (mems i, j)
  ]

  abbrev after_entry : ℕ → ℕ → Outcome → Option ((ℕ → ℕ) × ℕ)
  after_entry k left result = elim result [
    | stop ↦ none
    | next ↦ first_found (k + 1) left
    | found j ↦ some (mems (k / 16), j)
  ]

  sector_run :
      (i j left rest : ℕ)
      → j + left ≡ 16
      → first_found (i * 16 + j) (left + rest)
        ≡ after_sector i rest (search_sector (mems i) name n8 e3 j left)
  unfolding first_found search_sector
  sector_run i j zero rest whole =
      let a : i * 16 + j ≡ (i + 1) * 16 = omega arith in
      let b : 0 + rest ≡ rest = omega arith in rw (a, b) refl
  sector_run i j (suc left) rest whole =
      let a : suc left + rest ≡ suc (left + rest) = omega arith in
      rw a (
        step (sector_run i (j + 1) left rest (omega arith)) (check_entry (mems i) name n8 e3 j)
          (ap₂ (λ x y. check_entry (mems x) name n8 e3 y) (omega arith) (omega arith)))
    where
      step :
          first_found (i * 16 + (j + 1)) (left + rest)
            ≡ after_sector i rest (search_sector (mems i) name n8 e3 (j + 1) left)
          → (o : Outcome) → outcome (i * 16 + j) ≡ o
          → first_found (i * 16 + j) (suc (left + rest))
            ≡ after_sector i rest (elim o [
              | stop ↦ stop
              | next ↦ search_sector (mems i) name n8 e3 (j + 1) left
              | found k ↦ found k
            ])
      step h stop e = rw (first_found, e) refl
      step h next e =
          rw (first_found, e)
            ((let d : i * 16 + j + 1 ≡ i * 16 + (j + 1) = omega arith in
                ap (λ z. first_found z (left + rest)) d)
              ∙ h)
      step h (found k) e =
          rw (first_found, e)
            (let d : (i * 16 + j) / 16 ≡ i = omega arith in ap (λ z. some (mems z, k)) d)

module _ (past : ℕ → ℕ) (disk : Disk) (fs : Fat12) (name : List ℕ) (n8 e3 : ℕ → ℕ)
    (secs : ℕ → ℕ → ℕ) where
  abbrev pub mems : ℕ → ℕ → ℕ
  mems i = in_memory past (secs i)

  by_outcome :
      (i left : ℕ)
      → search_root past disk fs name n8 e3 (i + 1) left
        ≡ first_found mems name n8 e3 ((i + 1) * 16) (left * 16)
      → (o : Outcome)
      → (elim o [
        | stop ↦ none
        | next ↦ search_root past disk fs name n8 e3 (i + 1) left
        | found j ↦ some (in_memory past (secs i), j)
      ])
        ≡ after_sector mems name n8 e3 i (left * 16) o
  by_outcome i left rest stop = refl
  by_outcome i left rest next = rest
  by_outcome i left rest (found j) = refl

  root_run :
      (i left : ℕ)
      → ((k : ℕ) → k < i + left → disk (u32 (fs.root_start_lba + k)) ≡ some (secs k))
      → search_root past disk fs name n8 e3 i left
        ≡ first_found mems name n8 e3 (i * 16) (left * 16)
  unfolding search_root first_found
  root_run i zero readable =
      let e : 0 * 16 ≡ 0 = omega arith in ap (first_found mems name n8 e3 (i * 16)) (sym e)
  root_run i (suc left) readable =
      let read : disk (u32 (fs.root_start_lba + i)) ≡ some (secs i) = readable i (omega arith) in
      let e : suc left * 16 ≡ 16 + left * 16 = omega arith in
      let f : i * 16 ≡ i * 16 + 0 = omega arith in
      let rest = root_run (i + 1) left (λ k lt. readable k (omega arith)) in
      let flat : first_found mems name n8 e3 (i * 16) (suc left * 16)
          ≡ after_sector mems name n8 e3 i (left * 16) (search_sector (mems i) name n8 e3 0 16) =
        ap₂ (first_found mems name n8 e3) f e
        ∙ sector_run mems name n8 e3 i 0 16 (left * 16) refl in
      rw (search_root, read) (by_outcome i left rest (search_sector (mems i) name n8 e3 0 16))
      ∙ sym flat

-- The entry `k` of the directory stands in the sector `k / 16`.
abbrev pub sector_of : (ℕ → ℕ) → (ℕ → ℕ → ℕ) → ℕ → ℕ → ℕ
sector_of past secs k = in_memory past (secs (k / 16))

abbrev pub place : ℕ → ℕ
place k = k % 16 * 32

-- The entry `k` ends the search with `result`: it is the end of the directory, the last part of the
-- name's long form, with the parts and the file's entry behind it, or the file's entry.
abbrev pub Ending : (ℕ → ℕ) → (ℕ → ℕ → ℕ) → List ℕ → ℕ → Option ((ℕ → ℕ) × ℕ) → Type 0
Ending past secs name k result =
    let mem = sector_of past secs k in
    (IsEnd mem (place k) × (result ≡ none))
    ⊎ (IsUsed mem (place k)
        × IsLong mem (place k) name
        × (result ≡ some (mem, k % 16 + mem (place k) - 64)))
    ⊎ (IsUsed mem (place k)
        × (¬ (IsLong mem (place k) name))
        × IsShort mem (place k) name
        × (result ≡ some (mem, k % 16)))

-- No entry from `k` to before `k + left` ends the search, and nothing is found, or one of them is the
-- first to end it.
abbrev pub FirstMatch : (ℕ → ℕ) → (ℕ → ℕ → ℕ) → List ℕ → ℕ → ℕ → Option ((ℕ → ℕ) × ℕ) → Type 0
FirstMatch past secs name k left result =
    (((m : ℕ) → k ≤ m → m < k + left → IsOther (sector_of past secs m) (place m) name)
      × (result ≡ none))
    ⊎ ((n : ℕ) × (k ≤ n)
        × (n < k + left)
        × ((m : ℕ) → k ≤ m → m < n → IsOther (sector_of past secs m) (place m) name)
        × Ending past secs name n result)

module _ (past : ℕ → ℕ) (secs : ℕ → ℕ → ℕ) (name : List ℕ) (is_name : IsName name) where
  abbrev run : ℕ → ℕ → Option ((ℕ → ℕ) × ℕ)
  run k left =
      first_found (λ i. in_memory past (secs i)) name (upper_padding name).0 (upper_padding name).1
        k left

  also_first :
      (k m : ℕ)
      → IsOther (sector_of past secs k) (place k) name
      → k ≤ m
      → (k + 1 ≤ m → IsOther (sector_of past secs m) (place m) name)
      → IsOther (sector_of past secs m) (place m) name
  also_first k m other le rest = elim (Bool-cases (k == m)) [
    | inl here ↦
        let e : k ≡ m = ground arith in
        subst (λ z. IsOther (sector_of past secs z) (place z) name) e other
    | inr behind ↦ rest (ground arith)
  ]

  run-FirstMatch : (left k : ℕ) → FirstMatch past secs name k left (run k left)
  unfolding first_found
  run-FirstMatch zero k = inl ((λ m le lt. absurd (omega arith)), refl)
  run-FirstMatch (suc left) k =
      elim (check_entry-Judged (sector_of past secs k) name (k % 16) is_name) [
        | inl (other, e) ↦
            rw (first_found, e)
              (elim (run-FirstMatch left (k + 1)) [
                | inl (others, nothing) ↦
                    inl (
                      (λ m le lt. also_first k m other le (λ h. others m h (omega arith))),
                      nothing,
                    )
                | inr (n, le, lt, others, ending) ↦ inr (
                  n,
                  omega arith,
                  omega arith,
                  (λ m le' lt'. also_first k m other le' (λ h. others m h lt')),
                  ending,
                )
              ])
        | inr (inl (ends, e)) ↦
            rw (first_found, e)
              (inr
                (k, omega arith, omega arith, (λ m le lt. absurd (omega arith)), inl (ends, refl)))
        | inr (inr (inl (used, long, e))) ↦
            rw (first_found, e)
              (inr (
                k,
                omega arith,
                omega arith,
                (λ m le lt. absurd (omega arith)),
                inr (inl (used, long, refl)),
              ))
        | inr (inr (inr (used, not_long, short, e))) ↦
            rw (first_found, e)
              (inr (
                k,
                omega arith,
                omega arith,
                (λ m le lt. absurd (omega arith)),
                inr (inr (used, not_long, short, refl)),
              ))
      ]

-- Where every sector of the root directory can be read, and the name has no zero byte, the search takes
-- the entries in order, sixteen to a sector. It passes over those removed, marked 0xE5, and those whose
-- name is another one. The first entry that is neither decides: the end of the directory, marked 0,
-- gives nothing; the last part of the name in its long form gives the entry behind all its parts; the
-- name in capitals, padded to eight and three bytes with spaces, gives this entry. Where there is no
-- such entry, nothing is found.
pub find_by_name-first :
    (past : ℕ → ℕ) (disk : Disk) (fs : Fat12) (name : List ℕ) (secs : ℕ → ℕ → ℕ)
    → IsName name
    → ((i : ℕ) → i < fs.root_dir_sectors → disk (u32 (fs.root_start_lba + i)) ≡ some (secs i))
    → FirstMatch past secs name 0 (fs.root_dir_sectors * 16) (find_by_name past disk fs name)
unfolding find_by_name
find_by_name-first past disk fs name secs is_name readable =
    let flat : find_by_name past disk fs name
        ≡ first_found (λ i. in_memory past (secs i)) name (upper_padding name).0
            (upper_padding name).1 0 (fs.root_dir_sectors * 16) =
      root_run past disk fs name (upper_padding name).0 (upper_padding name).1 secs 0
        fs.root_dir_sectors (λ k lt. readable k (omega arith)) in
    subst (λ z. FirstMatch past secs name 0 (fs.root_dir_sectors * 16) z) (sym flat)
      (run-FirstMatch past secs name is_name (fs.root_dir_sectors * 16) 0)
