-- ===== src/PageTables/Faults.antt =====
-- How a page fault ends.
use swallow_os.Prelude.{
  ℕ, ◌/◌, ◌%◌, ◌≡◌, ◌≢◌, ◌≤◌, ◌<◌, refl, false, ◌&&◌, ◌||◌, not, ltb, leb, ◌==◌, List, [], ◌∷◌,
  ◌++◌, Option, Option-cases, none, some, arith, Bool-cases, inl, inr, ◌⊎◌,
}
use swallow_os.Prelude.Words.{sub64, higher_half_offset}
use swallow_os.Frames.{Frames}
use swallow_os.PageTables.{
  Area, Mm, contains, find_area, map_in, panic, halt, mapped, do_mmap, page_fault_handler,
}

abbrev pub Covers : ℕ → Area → Type 0
Covers address vma = (vma.vm_start ≤ address) × (address < vma.vm_end)

-- No area has the address.
abbrev pub NoneCovers : ℕ → List Area → Type 0
NoneCovers address [] = Unit {0}
NoneCovers address (vma ∷ vmas) = (contains address vma ≡ false) × NoneCovers address vmas

-- The last area that has the address.
pub record LastCovering (address : ℕ) (vmas : List Area) (vma : Area) : Type 0 where
  pub before : List Area
  pub after : List Area
  pub whole : vmas ≡ before ++ vma ∷ after
  pub covers : Covers address vma
  pub later : NoneCovers address after

pub find_area-later :
    (address : ℕ) (vmas : List Area) (valid : Option Area)
    → ((find_area address vmas valid ≡ valid) × NoneCovers address vmas)
      ⊎ ((vma : Area) × (find_area address vmas valid ≡ some vma) × LastCovering address vmas vma)
unfolding find_area
find_area-later address [] valid = inl (refl, tt)
find_area-later address (vma ∷ vmas) valid = elim (Bool-cases (contains address vma)) [
  | inr misses ↦ rw misses (elim (find_area-later address vmas valid) [
    | inl (e, none_there) ↦ inl (e, (refl, none_there))
    | inr (last, e, l) ↦ inr (
      last,
      e,
      record {
        before = vma ∷ l.before;
        after = l.after;
        whole = rw l.whole refl;
        covers = l.covers;
        later = l.later;
      },
    )
  ])
  | inl hits ↦ rw hits (elim (find_area-later address vmas (some vma)) [
    | inl (e, none_there) ↦ inr (
      vma,
      e,
      record {
        before = [];
        after = vmas;
        whole = refl;
        covers = (ground arith, ground arith);
        later = none_there;
      },
    )
    | inr (last, e, l) ↦ inr (
      last,
      e,
      record {
        before = vma ∷ l.before;
        after = l.after;
        whole = rw l.whole refl;
        covers = l.covers;
        later = l.later;
      },
    )
  ])
]

-- The address may be mapped: it is behind the kernel and below the upper half.
abbrev pub Mappable : ℕ → ℕ → Type 0
Mappable kernel_end address =
    (sub64 kernel_end higher_half_offset ≤ address) × (address < higher_half_offset)

-- A page fault panics where its error code is neither 4 nor 6 (a user's access to a page that is not
-- present), where the address cannot be mapped, or where no area has it. Else the page is mapped, for
-- the last area that has the address, or the code halts.
pub page_fault_handler-outcome :
    (kernel_end error_code address : ℕ) (mm : Mm) (s : Frames)
    → let result = page_fault_handler kernel_end error_code address mm s in
      ((result ≡ panic)
        × (((error_code ≢ 4) × (error_code ≢ 6))
            ⊎ (¬ (Mappable kernel_end address))
            ⊎ NoneCovers address mm.mmap))
      ⊎ (((error_code ≡ 4) ⊎ (error_code ≡ 6))
          × Mappable kernel_end address
          × ((vma : Area) × LastCovering address mm.mmap vma
              × (((result ≡ halt) × (map_in address mm vma s ≡ none))
                  ⊎ ((s' : Frames) × (result ≡ mapped s') × (map_in address mm vma s ≡ some s')))))
unfolding page_fault_handler do_mmap
page_fault_handler-outcome kernel_end error_code address mm s =
    elim (Bool-cases
      (error_code % 2 == 0 && not (error_code / 4 % 2 == 0) && error_code / 8 == 0)) [
        | inr other ↦ rw (page_fault_handler, other) (inl (refl, inl (ground arith, ground arith)))
        | inl user ↦
            elim (Bool-cases (
              ltb address (sub64 kernel_end higher_half_offset)
              || leb higher_half_offset address)) [
                | inl outside ↦
                    rw (page_fault_handler, user, outside)
                      (inl (refl, inr (inl (λ m. ground (arith, m)))))
                | inr within ↦ elim (find_area-later address mm.mmap none) [
                  | inl (e, nowhere) ↦
                      rw (page_fault_handler, user, within, do_mmap, e)
                        (inl (refl, inr (inr nowhere)))
                  | inr (vma, e, l) ↦ elim (Option-cases (map_in address mm vma s)) [
                    | inl full ↦
                        rw (page_fault_handler, user, within, do_mmap, e, full)
                          (inr (
                            ground arith,
                            (ground arith, ground arith),
                            (vma, l, inl (refl, full)),
                          ))
                    | inr (s', made) ↦
                        rw (page_fault_handler, user, within, do_mmap, e, made)
                          (inr (
                            ground arith,
                            (ground arith, ground arith),
                            (vma, l, inr (s', refl, made)),
                          ))
                  ]
                ]
              ]
      ]
