-- ===== src/AddressSpace/Clean.antt =====
-- Which pages `mm_clean_pgd` frees, and in which order.
use swallow_os.Prelude.{
  ℕ, zero, suc, ◌+◌, ◌%◌, ◌≡◌, ◌≤◌, ◌<◌, refl, sym, ap, ap₂, ◌∙◌, subst, if◌then◌else◌, Bool,
  Bool-cases, List, [], ◌∷◌, ◌++◌, arith, inl, inr,
}
use swallow_os.Prelude.Words.{u64, higher_half_offset}
use swallow_os.Frames.{Frames}
use swallow_os.PageTables.{table_at, entry_at}
use swallow_os.AddressSpace.{
  entry_num, each, is_huge_page, free_page, clean_pt, clean_pd, clean_pdptr, clean_pml4,
  mm_clean_pgd,
}
use swallow_os.AddressSpace.Pages.{
  collect, pages_of, pages_in, is_empty, is_empty_or_huge, is_empty_or_upper, all_entries, no_entry,
  nothing_below, pt_pages, pd_pages, pdptr_pages, user_pages, free_all, Disjoint, SamePages,
  IsTable, ApartFrom-append, Disjoint-append, SamePages-append, free_all-append, free_all-SamePage,
  ApartFrom-Between, free_all-SamePages, entry_at-same, table_at-IsTable,
}

-- What a lister of pages reads: the table and the pages that it lists.
abbrev IsLocal : ((ℕ → ℕ) → ℕ → List ℕ) → Type 0
IsLocal listed =
    (mem mem' : ℕ → ℕ) (table : ℕ)
    → IsTable table
    → SamePages mem mem' (table ∷ listed mem table)
    → listed mem' table ≡ listed mem table

-- The code for a table frees what is listed.
abbrev Frees : ((ℕ → ℕ) → ℕ → List ℕ) → (ℕ → Frames → Frames) → Type 0
Frees listed code =
    (table : ℕ) (s : Frames)
    → IsTable table
    → Disjoint (table ∷ listed s.mem table)
    → code table s ≡ free_all (listed s.mem table) s

module _ (skips : ℕ → ℕ → Bool) (is_leaf : ℕ → Bool) (below : (ℕ → ℕ) → ℕ → List ℕ)
    (local : IsLocal below) where
  pages_of-IsLocal :
      (mem mem' : ℕ → ℕ) (table i : ℕ)
      → IsTable table
      → i < 512
      → SamePages mem mem' (table ∷ pages_of skips is_leaf below mem table i)
      → pages_of skips is_leaf below mem' table i ≡ pages_of skips is_leaf below mem table i
  unfolding pages_of
  pages_of-IsLocal mem mem' table i is_table lt (here, same) =
      rw (entry_at-same mem mem' table i is_table lt here) (entry (entry_at mem table i) same)
    where
      entry :
          (e : ℕ)
          → SamePages mem mem' (
              if skips i e
              then []
              else (if is_leaf e then [] else below mem (table_at e)) ++ table_at e ∷ [])
          → (if skips i e
              then []
              else (if is_leaf e then [] else below mem' (table_at e)) ++ table_at e ∷ [])
            ≡ (if skips i e
                then []
                else (if is_leaf e then [] else below mem (table_at e)) ++ table_at e ∷ [])
      entry e h = elim (Bool-cases (skips i e)) [
        | inl skipped ↦ rw skipped refl
        | inr held ↦ elim (Bool-cases (is_leaf e)) [
          | inl leaf ↦ rw (held, leaf) refl
          | inr inner ↦
              let h' : SamePages mem mem' (below mem (table_at e) ++ table_at e ∷ []) =
                rw (held, inner) at h in
              let (left, (page, done)) =
                SamePages-append mem mem' (below mem (table_at e)) (table_at e ∷ []) h' in
              rw (held, inner)
                (ap (λ ps. ps ++ table_at e ∷ [])
                  (local mem mem' (table_at e) (table_at-IsTable e) (page, left)))
        ]
      ]

  collect-IsLocal :
      (mem mem' : ℕ → ℕ) (table n i : ℕ)
      → IsTable table
      → i + n ≤ 512
      → SamePages mem mem' (table ∷ collect (pages_of skips is_leaf below mem table) i n)
      → collect (pages_of skips is_leaf below mem' table) i n
        ≡ collect (pages_of skips is_leaf below mem table) i n
  unfolding collect
  collect-IsLocal mem mem' table zero i is_table le same = refl
  collect-IsLocal mem mem' table (suc n) i is_table le (here, same) =
      let (now, later) =
        SamePages-append mem mem' (pages_of skips is_leaf below mem table i)
          (collect (pages_of skips is_leaf below mem table) (suc i) n) same in
      ap₂ (λ ps qs. ps ++ qs) (pages_of-IsLocal mem mem' table i is_table (omega arith) (here, now))
        (collect-IsLocal mem mem' table n (suc i) is_table (omega arith) (here, later))

  pages_in-IsLocal : IsLocal (pages_in skips is_leaf below)
  unfolding pages_in
  pages_in-IsLocal mem mem' table is_table same =
      collect-IsLocal mem mem' table entry_num 0 is_table (omega arith) same

  module _ (code : ℕ → Frames → Frames) (frees : Frees below code) (body : ℕ → ℕ → Frames → Frames)
      (bodies : (table i : ℕ) (s : Frames)
        → body table i s ≡ (
            let entry = entry_at s.mem table i in
            if skips i entry
            then s
            else free_page
                (if is_leaf entry then s else code (table_at entry) s)
                (table_at entry))) where
    body-frees :
        (table i : ℕ) (s : Frames)
        → Disjoint (pages_of skips is_leaf below s.mem table i)
        → body table i s ≡ free_all (pages_of skips is_leaf below s.mem table i) s
    unfolding pages_of free_all
    body-frees table i s h = bodies table i s ∙ entry (entry_at s.mem table i) h
      where
        entry :
            (e : ℕ)
            → Disjoint (
                if skips i e
                then []
                else (if is_leaf e then [] else below s.mem (table_at e)) ++ table_at e ∷ [])
            → (if skips i e
                then s
                else free_page (if is_leaf e then s else code (table_at e) s) (table_at e))
              ≡ free_all
                  (if skips i e
                    then []
                    else (if is_leaf e then [] else below s.mem (table_at e)) ++ table_at e ∷ [])
                  s
        entry e h = elim (Bool-cases (skips i e)) [
          | inl skipped ↦ rw skipped refl
          | inr held ↦ elim (Bool-cases (is_leaf e)) [
            | inl leaf ↦ rw (held, leaf) refl
            | inr inner ↦
                let h' : Disjoint (below s.mem (table_at e) ++ table_at e ∷ []) =
                  rw (held, inner) at h in
                let (left, right, between) =
                  Disjoint-append (below s.mem (table_at e)) (table_at e ∷ []) h' in
                rw (held, inner)
                  (ap (λ t. free_page t (table_at e))
                      (frees (table_at e) s (table_at-IsTable e) (
                        ApartFrom-Between (table_at e) (below s.mem (table_at e)) [] between,
                        left,
                      ))
                    ∙ sym (free_all-append (below s.mem (table_at e)) (table_at e ∷ []) s))
          ]
        ]

    each-frees :
        (table n i : ℕ) (s : Frames)
        → IsTable table
        → i + n ≤ 512
        → Disjoint (table ∷ collect (pages_of skips is_leaf below s.mem table) i n)
        → each (body table) i n s
          ≡ free_all (collect (pages_of skips is_leaf below s.mem table) i n) s
    unfolding each collect free_all
    each-frees table zero i s is_table le h = refl
    each-frees table (suc n) i s is_table le (here, h) =
        let now : List ℕ = pages_of skips is_leaf below s.mem table i in
        let later : List ℕ = collect (pages_of skips is_leaf below s.mem table) (suc i) n in
        let (left, right, between) = Disjoint-append now later h in
        let (from_now, from_later) = ApartFrom-append table now later here in
        let same : SamePages s.mem (free_all now s).mem (table ∷ later) =
          (free_all-SamePage table now s from_now, free_all-SamePages now later s between) in
        let listed =
          collect-IsLocal s.mem (free_all now s).mem table n (suc i) is_table (omega arith) same in
        ap (each (body table) (suc i) n) (body-frees table i s left)
        ∙ each-frees table n (suc i) (free_all now s) is_table (omega arith)
            (subst (λ ps. Disjoint (table ∷ ps)) (sym listed) (from_later, right))
        ∙ ap (λ ps. free_all ps (free_all now s)) listed
        ∙ sym (free_all-append now later s)

    pages_in-Frees : Frees (pages_in skips is_leaf below) (λ table. each (body table) 0 entry_num)
    unfolding pages_in
    pages_in-Frees table s is_table h = each-frees table entry_num 0 s is_table (omega arith) h

pt_pages-IsLocal : IsLocal pt_pages
unfolding pt_pages
pt_pages-IsLocal =
    pages_in-IsLocal is_empty all_entries nothing_below (λ mem mem' table is_table same. refl)

pd_pages-IsLocal : IsLocal pd_pages
unfolding pd_pages
pd_pages-IsLocal = pages_in-IsLocal is_empty is_huge_page pt_pages pt_pages-IsLocal

pdptr_pages-IsLocal : IsLocal pdptr_pages
unfolding pdptr_pages
pdptr_pages-IsLocal = pages_in-IsLocal is_empty_or_huge no_entry pd_pages pd_pages-IsLocal

nothing-Frees : Frees nothing_below (λ table s. s)
unfolding free_all
nothing-Frees table s is_table h = refl

clean_pt-Frees : Frees pt_pages (λ table. each (clean_pt table) 0 entry_num)
unfolding pt_pages clean_pt
clean_pt-Frees =
    pages_in-Frees is_empty all_entries nothing_below (λ mem mem' table is_table same. refl)
      (λ table s. s) nothing-Frees clean_pt (λ table i s. refl)

clean_pd-Frees : Frees pd_pages (λ table. each (clean_pd table) 0 entry_num)
unfolding pd_pages clean_pd
clean_pd-Frees =
    pages_in-Frees is_empty is_huge_page pt_pages pt_pages-IsLocal
      (λ table. each (clean_pt table) 0 entry_num) clean_pt-Frees clean_pd (λ table i s. refl)

clean_pdptr-Frees : Frees pdptr_pages (λ table. each (clean_pdptr table) 0 entry_num)
unfolding pdptr_pages clean_pdptr
clean_pdptr-Frees =
    pages_in-Frees is_empty_or_huge no_entry pd_pages pd_pages-IsLocal
      (λ table. each (clean_pd table) 0 entry_num) clean_pd-Frees clean_pdptr (λ table i s. refl)

-- Where the root is aligned, and no two pages of the lower half overlap with each other or with the root, `mm_clean_pgd` frees
-- exactly these pages, each one once, and a table after all that is below it.
pub mm_clean_pgd-frees :
    (s : Frames) (pgd : ℕ)
    → pgd % 4096 ≡ 0
    → let root = u64 (pgd + higher_half_offset) in
      Disjoint (root ∷ user_pages s.mem root)
      → mm_clean_pgd s pgd ≡ free_all (user_pages s.mem root) s
unfolding mm_clean_pgd user_pages clean_pml4
mm_clean_pgd-frees s pgd aligned h =
    pages_in-Frees is_empty_or_upper is_huge_page pdptr_pages pdptr_pages-IsLocal
      (λ table. each (clean_pdptr table) 0 entry_num) clean_pdptr-Frees clean_pml4
      (λ table i s. refl) (u64 (pgd + higher_half_offset)) s (omega arith, omega arith) h
