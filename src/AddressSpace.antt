-- ===== src/AddressSpace.antt =====
-- Whole address spaces: `mm_clean_pgd` and `mm_dup_pgd` of kernel/arch/x86_64/mm/mm.c, and
-- `do_ummap_user` of mm/pagemanager.c, over the page tables of `PageTables`. The loops over the 512
-- entries of a table are structural.
pub mod Clean
pub mod Duplicate
pub mod Kept
pub mod Pages
pub mod Unmap
mod Tests
use swallow_os.Prelude.{
  ℕ, zero, suc, ◌+◌, ◌*◌, ◌/◌, ◌%◌, ◌^◌, ◌&&◌, ◌||◌, ltb, leb, ◌==◌, not, if◌then◌else◌, Bool,
  Option, none, some,
}
use swallow_os.Prelude.Words.{u64, sub64, higher_half_offset}
use swallow_os.Bytes.{memcpy}
use swallow_os.Frames.{Frames, PageAlloc, alloc_pages, free_pages, fill, page_size}
use swallow_os.PageTables.{table_at, write64, entry_at}

-- `ENTRY_NUM`
abbrev pub entry_num : ℕ
entry_num = 512

-- `for (unsigned int i = start; ...; ++i)`, with `n` rounds to go.
unfoldable pub each {ℓ} : {S : Type ℓ} → (ℕ → S → S) → ℕ → ℕ → S → S
each body i zero s = s
each body i (suc n) s = each body (suc i) n (body i s)

-- `true` is the return value 0.
abbrev pub is_huge_page : ℕ → Bool
is_huge_page entry = entry / 2 ^ 7 % 2 == 1

unfoldable pub free_page : Frames → ℕ → Frames
free_page s page = free_pages s (record { page = page; npages = 1 })

-- The bodies of the loops of `mm_clean_pgd`, from the innermost one to the outermost.
unfoldable pub clean_pt : ℕ → ℕ → Frames → Frames
clean_pt pt_addr pt_index s =
    let entry = entry_at s.mem pt_addr pt_index in
    if entry == 0 then s else free_page s (table_at entry)

unfoldable pub clean_pd : ℕ → ℕ → Frames → Frames
clean_pd pd_addr pd_index s =
    let entry = entry_at s.mem pd_addr pd_index in
    let pt_addr = table_at entry in
    if entry == 0
    then s
    else free_page (if is_huge_page entry then s else each (clean_pt pt_addr) 0 entry_num s) pt_addr

unfoldable pub clean_pdptr : ℕ → ℕ → Frames → Frames
clean_pdptr pdptr_addr pdptr_index s =
    let entry = entry_at s.mem pdptr_addr pdptr_index in
    let pd_addr = table_at entry in
    if entry == 0 || is_huge_page entry
    then s
    else free_page (each (clean_pd pd_addr) 0 entry_num s) pd_addr

unfoldable pub clean_pml4 : ℕ → ℕ → Frames → Frames
clean_pml4 pgd_addr pml4_index s =
    let entry = entry_at s.mem pgd_addr pml4_index in
    let pdptr_addr = table_at entry in
    if leb 256 pml4_index || entry == 0
    then s
    else free_page (if is_huge_page entry then s else each (clean_pdptr pdptr_addr) 0 entry_num s)
        pdptr_addr

unfoldable pub mm_clean_pgd : Frames → ℕ → Frames
mm_clean_pgd s pgd = each (clean_pml4 (u64 (pgd + higher_half_offset))) 0 entry_num s

-- How a loop of `mm_dup_pgd` ends: at its end, or by `goto out` because no page is left.
pub data Copy : Type 0 where
  copied : Frames → Copy
  out : Frames → Copy

unfoldable pub each_until : (ℕ → Frames → Copy) → ℕ → ℕ → Frames → Copy
each_until body i zero s = copied s
each_until body i (suc n) s = elim (body i s) [
  | copied s' ↦ each_until body (suc i) n s'
  | out s' ↦ out s'
]

-- A new page for the entry `index` of the table `dst`, with the flags of the entry of `src` and the
-- contents of the page that it leads to: the new page, and where the contents are from.
unfoldable pub copy_table : ℕ → ℕ → ℕ → Frames → Option (Frames × ℕ × ℕ)
copy_table src dst index s =
    let (s', pa) = alloc_pages s 1 in
    let entry = entry_at s'.mem src index in
    let mem =
      write64 s'.mem (u64 (dst + 8 * index))
        (u64 (entry % 2 ^ 3 + sub64 pa.page higher_half_offset)) in
    let from = table_at (entry_at mem src index) in
    if pa.npages == 0
    then none
    else some (record s' { mem = memcpy mem pa.page from page_size }, pa.page, from)

-- `dst[index] = src[index];`
unfoldable pub keep_entry : ℕ → ℕ → ℕ → Frames → Frames
keep_entry src dst index s = record s {
  mem = write64 s.mem (u64 (dst + 8 * index)) (entry_at s.mem src index);
}

-- The bodies of the loops of `mm_dup_pgd`.
unfoldable pub dup_pt : ℕ → ℕ → ℕ → Frames → Copy
dup_pt src_pt dst_pt pt_index s =
    if entry_at s.mem src_pt pt_index == 0
    then copied s
    else elim (copy_table src_pt dst_pt pt_index s) [
      | none ↦ out s
      | some (s', dst_page, src_page) ↦ copied s'
    ]

unfoldable pub dup_pd : ℕ → ℕ → ℕ → Frames → Copy
dup_pd src_pd dst_pd pd_index s =
    if entry_at s.mem src_pd pd_index == 0
    then copied s
    else if is_huge_page (entry_at s.mem src_pd pd_index)
    then copied (keep_entry src_pd dst_pd pd_index s)
    else elim (copy_table src_pd dst_pd pd_index s) [
      | none ↦ out s
      | some (s', dst_pt, src_pt) ↦ each_until (dup_pt src_pt dst_pt) 0 entry_num s'
    ]

unfoldable pub dup_pdptr : ℕ → ℕ → ℕ → Frames → Copy
dup_pdptr src_pdptr dst_pdptr pdptr_index s =
    if entry_at s.mem src_pdptr pdptr_index == 0
    then copied s
    else if is_huge_page (entry_at s.mem src_pdptr pdptr_index)
    then copied (keep_entry src_pdptr dst_pdptr pdptr_index s)
    else elim (copy_table src_pdptr dst_pdptr pdptr_index s) [
      | none ↦ out s
      | some (s', dst_pd, src_pd) ↦ each_until (dup_pd src_pd dst_pd) 0 entry_num s'
    ]

unfoldable pub dup_pml4 : ℕ → ℕ → ℕ → Frames → Copy
dup_pml4 src_pgd dst_pgd pml4_index s =
    if entry_at s.mem src_pgd pml4_index == 0
    then copied s
    else elim (copy_table src_pgd dst_pgd pml4_index s) [
      | none ↦ out s
      | some (s', dst_pdptr, src_pdptr) ↦
          if is_huge_page (entry_at s'.mem src_pgd pml4_index)
          then copied s'
          else each_until (dup_pdptr src_pdptr dst_pdptr) 0 entry_num s'
    ]

-- The address of the copy, or 0. A copy that cannot be finished is taken down again.
unfoldable pub mm_dup_pgd : Frames → ℕ → Frames × ℕ
mm_dup_pgd s src_pgd =
    let (given, pa) = alloc_pages s 1 in
    let dst_pgd = sub64 pa.page higher_half_offset in
    if pa.npages == 0
    then (given, 0)
    else elim (each_until (dup_pml4 (u64 (src_pgd + higher_half_offset)) pa.page) 0 entry_num
        given) [
          | copied s' ↦ (s', dst_pgd)
          | out s' ↦ (free_page (mm_clean_pgd s' dst_pgd) pa.page, 0)
        ]
