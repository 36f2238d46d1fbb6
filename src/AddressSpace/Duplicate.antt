-- ===== src/AddressSpace/Duplicate.antt =====
-- What `mm_dup_pgd` does to the frames and to the memory that are in use.
use swallow_os.Prelude.{
  ℕ, zero, suc, ◌+◌, ◌-◌, ◌≡◌, ◌≤◌, ◌<◌, refl, ap, ◌==◌, false, Bool-cases, arith, inl, inr, ◌⊎◌,
}
use swallow_os.Prelude.Words.{u64, sub64, higher_half_offset}
use swallow_os.Frames.{Frames, alloc_pages}
use swallow_os.Frames.Alloc.{IsValid, found, full, alloc_pages-FirstFit}
use swallow_os.PageTables.{entry_at}
use swallow_os.AddressSpace.{
  entry_num, is_huge_page, free_page, mm_clean_pgd, Copy, copied, out, each_until, dup_pt, dup_pd,
  dup_pdptr, dup_pml4, mm_dup_pgd,
}
use swallow_os.AddressSpace.Kept.{
  Kept, Fresh, NoFrames, Kept-refl, Kept-Claimed, copy_table-Kept, keep_entry-Kept,
}

-- How a loop ends that keeps what is in use.
abbrev Ends : Frames → Copy → Type 0
Ends s (copied s') = Kept s s'
Ends s (out s') = Kept s s' × NoFrames s'

module _ {s : Frames} (valid : IsValid s) where
  Ends-next :
      (next : Frames → Copy) (c : Copy)
      → Ends s c
      → ((t : Frames) → Kept s t → Ends s (next t))
      → Ends s (elim c [ copied t ↦ next t | out t ↦ out t ])
  Ends-next next (copied t) ends rest = rest t ends
  Ends-next next (out t) ends rest = ends

  each_until-Ends :
      (body : ℕ → Frames → Copy)
      → ((i : ℕ) (s' : Frames) → i < 512 → Kept s s' → Ends s (body i s'))
      → (n i : ℕ) (s' : Frames) → i + n ≤ 512
      → Kept s s'
      → Ends s (each_until body i n s')
  unfolding each_until
  each_until-Ends body ends zero i s' le kept = kept
  each_until-Ends body ends (suc n) i s' le kept =
      Ends-next (each_until body (suc i) n) (body i s') (ends i s' (omega arith) kept)
        (λ t h. each_until-Ends body ends n (suc i) t (omega arith) h)

  dup_pt-Ends :
      (src dst i : ℕ) (s' : Frames)
      → Fresh s dst
      → i < 512
      → Kept s s'
      → Ends s (dup_pt src dst i s')
  unfolding dup_pt
  dup_pt-Ends src dst i s' fresh small kept = elim (Bool-cases (entry_at s'.mem src i == 0)) [
    | inl empty ↦ rw empty kept
    | inr held ↦ elim (copy_table-Kept valid src dst i s' kept fresh small) [
      | inl (e, none_free) ↦ rw (held, e) (kept, none_free)
      | inr (t, page, from, e, kept', fresh') ↦ rw (held, e) kept'
    ]
  ]

  dup_pd-Ends :
      (src dst i : ℕ) (s' : Frames)
      → Fresh s dst
      → i < 512
      → Kept s s'
      → Ends s (dup_pd src dst i s')
  unfolding dup_pd
  dup_pd-Ends src dst i s' fresh small kept = elim (Bool-cases (entry_at s'.mem src i == 0)) [
    | inl empty ↦ rw empty kept
    | inr held ↦ elim (Bool-cases (is_huge_page (entry_at s'.mem src i))) [
      | inl huge ↦ rw (held, huge) (keep_entry-Kept valid src dst i s' kept fresh small)
      | inr plain ↦ elim (copy_table-Kept valid src dst i s' kept fresh small) [
        | inl (e, none_free) ↦ rw (held, plain, e) (kept, none_free)
        | inr (t, page, from, e, kept', fresh') ↦
            rw (held, plain, e)
              (each_until-Ends (dup_pt from page)
                (λ j u lt h. dup_pt-Ends from page j u fresh' lt h) entry_num 0 t (omega arith)
                kept')
      ]
    ]
  ]

  dup_pdptr-Ends :
      (src dst i : ℕ) (s' : Frames)
      → Fresh s dst
      → i < 512
      → Kept s s'
      → Ends s (dup_pdptr src dst i s')
  unfolding dup_pdptr
  dup_pdptr-Ends src dst i s' fresh small kept = elim (Bool-cases (entry_at s'.mem src i == 0)) [
    | inl empty ↦ rw empty kept
    | inr held ↦ elim (Bool-cases (is_huge_page (entry_at s'.mem src i))) [
      | inl huge ↦ rw (held, huge) (keep_entry-Kept valid src dst i s' kept fresh small)
      | inr plain ↦ elim (copy_table-Kept valid src dst i s' kept fresh small) [
        | inl (e, none_free) ↦ rw (held, plain, e) (kept, none_free)
        | inr (t, page, from, e, kept', fresh') ↦
            rw (held, plain, e)
              (each_until-Ends (dup_pd from page)
                (λ j u lt h. dup_pd-Ends from page j u fresh' lt h) entry_num 0 t (omega arith)
                kept')
      ]
    ]
  ]

  dup_pml4-Ends :
      (src dst i : ℕ) (s' : Frames)
      → Fresh s dst
      → i < 512
      → Kept s s'
      → Ends s (dup_pml4 src dst i s')
  unfolding dup_pml4
  dup_pml4-Ends src dst i s' fresh small kept = elim (Bool-cases (entry_at s'.mem src i == 0)) [
    | inl empty ↦ rw empty kept
    | inr held ↦ elim (copy_table-Kept valid src dst i s' kept fresh small) [
      | inl (e, none_free) ↦ rw (held, e) (kept, none_free)
      | inr (t, page, from, e, kept', fresh') ↦
          elim (Bool-cases (is_huge_page (entry_at t.mem src i))) [
            | inl huge ↦ rw (held, e, huge) kept'
            | inr plain ↦
                rw (held, e, plain)
                  (each_until-Ends (dup_pdptr from page)
                    (λ j u lt h. dup_pdptr-Ends from page j u fresh' lt h) entry_num 0 t
                    (omega arith) kept')
          ]
    ]
  ]

  -- How `mm_dup_pgd` ends, on a valid allocator whose frames are in the upper half: it finds no frame at all and changes nothing; it runs out of frames on the
  -- way, takes down what it has made and returns 0; or it returns the physical address of a root in a
  -- page that was free. Up to where it takes down, no frame is given back and no byte outside the frames
  -- that were free is changed.
  pub mm_dup_pgd-outcome :
      (src_pgd : ℕ)
      → higher_half_offset ≤ s.startframe
      → let (s', dst) = mm_dup_pgd s src_pgd in
        ((dst ≡ 0) × (s' ≡ s) × NoFrames s)
        ⊎ ((dst ≡ 0)
            × ((t : Frames) × (root : ℕ) × Fresh s root
                × Kept s t
                × NoFrames t
                × (s' ≡ free_page (mm_clean_pgd t (root - higher_half_offset)) root)))
        ⊎ (Kept s s' × Fresh s (dst + higher_half_offset))
  unfolding mm_dup_pgd
  mm_dup_pgd-outcome src_pgd upper = elim (alloc_pages-FirstFit valid {n = 1} (omega arith)) [
    | full e none_free ↦ rw (mm_dup_pgd, e) (inl (refl, refl, λ j lt. none_free j (omega arith) lt))
    | found k le c first ↦
        let given : Frames = (alloc_pages s 1).0 in
        let page : ℕ = (alloc_pages s 1).1.page in
        let there : ((alloc_pages s 1).1.npages == 0) ≡ false = ground (arith, c.npages) in
        let (kept, fresh) = Kept-Claimed valid (Kept-refl s) c in
        let root : sub64 page higher_half_offset ≡ page - higher_half_offset =
          omega (arith, valid.fits, c.page, c.in_range) in
        let body = dup_pml4 (u64 (src_pgd + higher_half_offset)) page in
        rw (mm_dup_pgd, there)
          (end page (sub64 page higher_half_offset) root fresh (omega (arith, c.page))
            (each_until body 0 entry_num given)
            (each_until-Ends body
              (λ i u lt h. dup_pml4-Ends (u64 (src_pgd + higher_half_offset)) page i u fresh lt h)
              entry_num 0 given (omega arith) kept))
  ]
    where
      end :
          (page dst : ℕ)
          → dst ≡ page - higher_half_offset
          → Fresh s page
          → higher_half_offset ≤ page
          → (c : Copy) → Ends s c
          → let result : Frames × ℕ = elim c [
            | copied t ↦ (t, dst)
            | out t ↦ (free_page (mm_clean_pgd t dst) page, 0)
          ] in
            ((result.1 ≡ 0) × (result.0 ≡ s) × NoFrames s)
            ⊎ ((result.1 ≡ 0)
                × ((t : Frames) × (root : ℕ) × Fresh s root
                    × Kept s t
                    × NoFrames t
                    × (result.0 ≡ free_page (mm_clean_pgd t (root - higher_half_offset)) root)))
            ⊎ (Kept s result.0 × Fresh s (result.1 + higher_half_offset))
      end page dst e (k, lt, free, at) le (copied t) kept =
          inr (inr (kept, (k, lt, free, omega arith)))
      end page dst e fresh le (out t) (kept, none_free) = inr (
          inl (
            refl,
            (t, page, fresh, kept, none_free, ap (λ d. free_page (mm_clean_pgd t d) page) e),
          ))
