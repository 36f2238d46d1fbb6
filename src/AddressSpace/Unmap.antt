-- ===== src/AddressSpace/Unmap.antt =====
-- `do_ummap_user` of kernel/arch/x86_64/mm/pagemanager.c, which takes the lower half of a task's address
-- space down beside that of the kernel.
use swallow_os.Prelude.{
  ℕ, zero, suc, ◌+◌, ◌*◌, ◌%◌, ◌^◌, ◌≡◌, ◌≢◌, refl, ap, ◌∙◌, ◌&&◌, ◌||◌, ◌==◌, not, if◌then◌else◌,
  Bool, false, Bool-cases, arith, inl, inr,
}
use swallow_os.Prelude.Words.{u64}
use swallow_os.Frames.{Frames, fill, page_size}
use swallow_os.PageTables.{table_at, page_addr, read64, write64, entry_at}
use swallow_os.AddressSpace.{entry_num, each, free_page}

-- `kp_pd = kp_pdptr ? ... : NULL`, and so on.
abbrev pub kernel_table : (ℕ → ℕ) → ℕ → ℕ → ℕ
kernel_table mem table index = if table == 0 then 0 else table_at (entry_at mem table index)

-- `memset(page, 0, PAGE_SIZE); free_pages(&pa);`
unfoldable pub release_page : ℕ → Frames → Frames
unfolding fill free_page
release_page page s = free_page (record s { mem = fill s.mem page page_size 0 }) page

-- `(!kp) && p`: the page is not the kernel's.
abbrev pub not_in_kernel : ℕ → ℕ → Bool
not_in_kernel kernel page = kernel == 0 && not (page == 0)

-- A table that is not the kernel's is freed, and the entry that leads to it is cleared.
unfoldable pub release_table : ℕ → ℕ → ℕ → ℕ → Frames → Frames
release_table kernel page table index s =
    if not_in_kernel kernel page
    then (let s' = release_page page s in
        record s' { mem = write64 s'.mem (u64 (table + 8 * index)) 0 })
    else s

-- The bodies of the loops, from the innermost one to the outermost: the address of the kernel's table,
-- that of the task's, and the index.
unfoldable pub ummap_pt : ℕ → ℕ → ℕ → Frames → Frames
ummap_pt kp_pt p_pt pt_index s =
    let entry = entry_at s.mem p_pt pt_index in
    if page_addr entry == 0
    then s
    else if not_in_kernel (kernel_table s.mem kp_pt pt_index) (table_at entry)
    then release_page (table_at entry) s
    else s

unfoldable pub ummap_pd : ℕ → ℕ → ℕ → Frames → Frames
ummap_pd kp_pd p_pd pd_index s =
    let entry = entry_at s.mem p_pd pd_index in
    let p_pt = table_at entry in
    let kp_pt = kernel_table s.mem kp_pd pd_index in
    if page_addr entry == 0
    then s
    else release_table kp_pt p_pt p_pd pd_index (each (ummap_pt kp_pt p_pt) 0 entry_num s)

unfoldable pub ummap_pdptr : ℕ → ℕ → ℕ → Frames → Frames
ummap_pdptr kp_pdptr p_pdptr pdptr_index s =
    let entry = entry_at s.mem p_pdptr pdptr_index in
    let p_pd = table_at entry in
    let kp_pd = kernel_table s.mem kp_pdptr pdptr_index in
    if page_addr entry == 0
    then s
    else release_table kp_pd p_pd p_pdptr pdptr_index (each (ummap_pd kp_pd p_pd) 0 entry_num s)

-- The kernel's table of the top level is read without a test.
unfoldable pub ummap_pml4 : ℕ → ℕ → ℕ → Frames → Frames
ummap_pml4 kp_pml4 p_pml4 pml4_index s =
    let entry = entry_at s.mem p_pml4 pml4_index in
    let p_pdptr = table_at entry in
    let kp_pdptr = table_at (entry_at s.mem kp_pml4 pml4_index) in
    if page_addr entry == 0
    then s
    else release_table kp_pdptr p_pdptr p_pml4 pml4_index
        (each (ummap_pdptr kp_pdptr p_pdptr) 0 entry_num s)

-- The page behind the last entry, which `mm_dup_pgd` copied.
unfoldable pub release_last : ℕ → Frames → Frames
release_last p_pml4 s =
    let entry = entry_at s.mem p_pml4 511 in
    if entry == 0 || table_at entry == 0 then s else release_page (table_at entry) s

-- `HIGHER_HALF_PML4_START_INDEX`
abbrev pub higher_half_pml4_start_index : ℕ
higher_half_pml4_start_index = 511

unfoldable pub do_ummap_user : ℕ → ℕ → Frames → Frames
do_ummap_user kernel_pgd pgd s =
    let p_pml4 = table_at pgd in
    let kp_pml4 = table_at kernel_pgd in
    release_last p_pml4 (each (ummap_pml4 kp_pml4 p_pml4) 0 higher_half_pml4_start_index s)

-- No word of the memory, read as an entry, leads to the page at 2 GiB, which is the one page whose address
-- in the upper half is 0.
abbrev pub NoneWraps : (ℕ → ℕ) → Type 0
NoneWraps mem = (a : ℕ) → a % 8 ≡ 0 → page_addr (read64 mem a) ≢ 2 ^ 31

each-nothing :
    (body : ℕ → Frames → Frames) (s : Frames)
    → ((i : ℕ) → body i s ≡ s)
    → (n i : ℕ) → each body i n s ≡ s
unfolding each
each-nothing body s nothing zero i = refl
each-nothing body s nothing (suc n) i =
    ap (each body (suc i) n) (nothing i) ∙ each-nothing body s nothing n (suc i)

abbrev IsTable : ℕ → Type 0
IsTable table = ((table == 0) ≡ false) × (table % 8 ≡ 0)

table_at-aligned : (entry : ℕ) → table_at entry % 8 ≡ 0
unfolding table_at
table_at-aligned entry = omega arith

table_at-IsTable : (entry : ℕ) → page_addr entry ≢ 2 ^ 31 → IsTable (table_at entry)
unfolding table_at
table_at-IsTable entry h = (ground arith, omega arith)

module _ (s : Frames) (none_wraps : NoneWraps s.mem) where
  entry_at-IsTable : (table i : ℕ) → table % 8 ≡ 0 → IsTable (table_at (entry_at s.mem table i))
  entry_at-IsTable table i aligned =
      table_at-IsTable (entry_at s.mem table i) (none_wraps (u64 (table + 8 * i)) (omega arith))

  kernel_table-IsTable : (table i : ℕ) → IsTable table → IsTable (kernel_table s.mem table i)
  kernel_table-IsTable table i (there, aligned) = rw there (entry_at-IsTable table i aligned)

  release_table-nothing :
      (kernel page table i : ℕ) (t : Frames)
      → (kernel == 0) ≡ false
      → release_table kernel page table i t ≡ t
  unfolding release_table
  release_table-nothing kernel page table i t h = rw h refl

  ummap_pt-nothing : (kp_pt p_pt i : ℕ) → IsTable kp_pt → ummap_pt kp_pt p_pt i s ≡ s
  unfolding ummap_pt
  ummap_pt-nothing kp_pt p_pt i h = elim (Bool-cases (page_addr (entry_at s.mem p_pt i) == 0)) [
    | inl empty ↦ rw empty refl
    | inr held ↦ rw (held, (kernel_table-IsTable kp_pt i h).0) refl
  ]

  ummap_pd-nothing : (kp_pd p_pd i : ℕ) → IsTable kp_pd → ummap_pd kp_pd p_pd i s ≡ s
  unfolding ummap_pd
  ummap_pd-nothing kp_pd p_pd i h = elim (Bool-cases (page_addr (entry_at s.mem p_pd i) == 0)) [
    | inl empty ↦ rw empty refl
    | inr held ↦
        let p_pt = table_at (entry_at s.mem p_pd i) in
        let kp_pt = kernel_table s.mem kp_pd i in
        let there = kernel_table-IsTable kp_pd i h in
        rw held (
          release_table-nothing kp_pt p_pt p_pd i (each (ummap_pt kp_pt p_pt) 0 entry_num s) there.0
          ∙ each-nothing (ummap_pt kp_pt p_pt) s (λ j. ummap_pt-nothing kp_pt p_pt j there)
              entry_num 0)
  ]

  ummap_pdptr-nothing :
      (kp_pdptr p_pdptr i : ℕ) → IsTable kp_pdptr → ummap_pdptr kp_pdptr p_pdptr i s ≡ s
  unfolding ummap_pdptr
  ummap_pdptr-nothing kp_pdptr p_pdptr i h =
      elim (Bool-cases (page_addr (entry_at s.mem p_pdptr i) == 0)) [
        | inl empty ↦ rw empty refl
        | inr held ↦
            let p_pd = table_at (entry_at s.mem p_pdptr i) in
            let kp_pd = kernel_table s.mem kp_pdptr i in
            let there = kernel_table-IsTable kp_pdptr i h in
            rw held (
              release_table-nothing kp_pd p_pd p_pdptr i (each (ummap_pd kp_pd p_pd) 0 entry_num s)
                there.0
              ∙ each-nothing (ummap_pd kp_pd p_pd) s (λ j. ummap_pd-nothing kp_pd p_pd j there)
                  entry_num 0)
      ]

  ummap_pml4-nothing : (kp_pml4 p_pml4 i : ℕ) → kp_pml4 % 8 ≡ 0 → ummap_pml4 kp_pml4 p_pml4 i s ≡ s
  unfolding ummap_pml4
  ummap_pml4-nothing kp_pml4 p_pml4 i aligned =
      elim (Bool-cases (page_addr (entry_at s.mem p_pml4 i) == 0)) [
        | inl empty ↦ rw empty refl
        | inr held ↦
            let p_pdptr = table_at (entry_at s.mem p_pml4 i) in
            let kp_pdptr = table_at (entry_at s.mem kp_pml4 i) in
            let there = entry_at-IsTable kp_pml4 i aligned in
            rw held (
              release_table-nothing kp_pdptr p_pdptr p_pml4 i
                (each (ummap_pdptr kp_pdptr p_pdptr) 0 entry_num s) there.0
              ∙ each-nothing (ummap_pdptr kp_pdptr p_pdptr) s
                  (λ j. ummap_pdptr-nothing kp_pdptr p_pdptr j there) entry_num 0)
      ]

  -- Where no entry leads to the page at 2 GiB, `do_ummap_user` frees no page of the lower half: all that
  -- it does is to clear and free the one page behind the last entry of the root, if there is one.
  pub do_ummap_user-last :
      (kernel_pgd pgd : ℕ)
      → let entry = entry_at s.mem (table_at pgd) 511 in
        do_ummap_user kernel_pgd pgd s ≡ (if entry == 0 then s else release_page (table_at entry) s)
  unfolding do_ummap_user release_last
  do_ummap_user-last kernel_pgd pgd =
      let p_pml4 = table_at pgd in
      let kp_pml4 = table_at kernel_pgd in
      ap (release_last p_pml4) (
        each-nothing (ummap_pml4 kp_pml4 p_pml4) s
          (λ i. ummap_pml4-nothing kp_pml4 p_pml4 i (table_at-aligned kernel_pgd))
          higher_half_pml4_start_index 0)
      ∙ rw (entry_at-IsTable p_pml4 511 (table_at-aligned pgd)).0 (ground arith)
