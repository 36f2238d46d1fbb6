-- ===== src/AddressSpace/Tests.antt =====
-- A small address space, taken down and copied.
use swallow_os.Prelude.{
  ℕ, ◌+◌, ◌*◌, ◌-◌, ◌%◌, ◌^◌, ◌≡◌, ◌≢◌, ◌<◌, refl, sym, ap, ◌∙◌, ◌==◌, if◌then◌else◌, Bool-cases,
  [], ◌∷◌, arith, inl, inr, ◌⊎◌,
}
use swallow_os.Prelude.Words.{higher_half_offset}
use swallow_os.Frames.{Frames}
use swallow_os.Frames.Alloc.{IsValid}
use swallow_os.PageTables.{table_at, page_addr, read64, write64, entry_at}
use swallow_os.PageTables.Entries.{read64-write64, read64-other}
use swallow_os.AddressSpace.{mm_clean_pgd, mm_dup_pgd, free_page}
use swallow_os.AddressSpace.Clean.{mm_clean_pgd-frees}
use swallow_os.AddressSpace.Pages.{user_pages, free_all}
use swallow_os.AddressSpace.Duplicate.{mm_dup_pgd-outcome}
use swallow_os.AddressSpace.Kept.{Kept, Fresh, NoFrames}
use swallow_os.AddressSpace.Unmap.{do_ummap_user, do_ummap_user-last, release_page, NoneWraps}

abbrev page : ℕ → ℕ
page k = 0xffff_ffff_8020_0000 + k * 4096

-- Four tables at the frames 0 to 3, a page at frame 4, and a table at frame 5 behind the last entry.
abbrev tables : ℕ → ℕ
tables =
    write64
      (write64
        (write64 (write64 (write64 (λ a. 0) (page 0) 0x20_1007) (page 1) 0x20_2007) (page 2 + 8)
          0x20_3007)
        (page 3 + 16) 0x20_4007)
      (page 0 + 8 * 511) 0x20_5007

abbrev machine : Frames
machine = record {
  frame_map = λ w. if w == 0 then 63 else 0;
  npages = 20;
  startframe = page 0;
  mem = tables;
}

user_pages_listed : user_pages tables (page 0) ≡ page 4 ∷ page 3 ∷ page 2 ∷ page 1 ∷ []
unfolding user_pages table_at read64 write64
user_pages_listed = refl

mm_clean_pgd-frees_example :
    mm_clean_pgd machine 0x20_0000 ≡ free_all (user_pages tables (page 0)) machine
mm_clean_pgd-frees_example = mm_clean_pgd-frees machine 0x20_0000 refl (
    rw user_pages_listed (
      (inl (omega arith), (inl (omega arith), (inl (omega arith), (inl (omega arith), tt)))),
      (
        (inr (omega arith), (inr (omega arith), (inr (omega arith), tt))),
        ((inr (omega arith), (inr (omega arith), tt)), ((inr (omega arith), tt), (tt, tt))),
      ),
    ))

machine-IsValid : IsValid machine
machine-IsValid = record { few = omega arith; fits = omega arith }

-- A word that is written leads nowhere else than its value does.
NoneWraps-write64 :
    (mem : ℕ → ℕ) (slot v : ℕ)
    → NoneWraps mem
    → slot % 8 ≡ 0
    → v < 2 ^ 64
    → page_addr v ≢ 2 ^ 31
    → NoneWraps (write64 mem slot v)
NoneWraps-write64 mem slot v none_wraps aligned small apart a at = elim (Bool-cases (a == slot)) [
  | inl same ↦ λ wraps. apart (
      ap page_addr (sym (let e : a ≡ slot = ground arith in rw e (read64-write64 mem slot v small)))
      ∙ wraps)
  | inr other ↦ λ wraps.
      none_wraps a at (ap page_addr (sym (read64-other mem slot a v (ground arith))) ∙ wraps)
]

NoneWraps-empty : NoneWraps (λ a. 0)
unfolding read64
NoneWraps-empty a at = omega arith

tables-NoneWraps : NoneWraps tables
tables-NoneWraps =
    NoneWraps-write64 _ _ _
      (NoneWraps-write64 _ _ _
        (NoneWraps-write64 _ _ _
          (NoneWraps-write64 _ _ _
            (NoneWraps-write64 _ _ _ NoneWraps-empty refl (omega arith) (omega arith)) refl
            (omega arith) (omega arith))
          refl (omega arith) (omega arith))
        refl (omega arith) (omega arith))
      refl (omega arith) (omega arith)

do_ummap_user-last_example : do_ummap_user 0x10_0000 0x20_0000 machine ≡ (
    let entry = entry_at tables (table_at 0x20_0000) 511 in
    if entry == 0 then machine else release_page (table_at entry) machine)
do_ummap_user-last_example = do_ummap_user-last machine tables-NoneWraps 0x10_0000 0x20_0000

mm_dup_pgd-outcome_example :
    let (s', dst) = mm_dup_pgd machine 0x20_0000 in
    ((dst ≡ 0) × (s' ≡ machine) × NoFrames machine)
    ⊎ ((dst ≡ 0)
        × ((t : Frames) × (root : ℕ) × Fresh machine root
            × Kept machine t
            × NoFrames t
            × (s' ≡ free_page (mm_clean_pgd t (root - higher_half_offset)) root)))
    ⊎ (Kept machine s' × Fresh machine (dst + higher_half_offset))
mm_dup_pgd-outcome_example = mm_dup_pgd-outcome machine-IsValid 0x20_0000 (omega arith)
