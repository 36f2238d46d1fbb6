-- ===== src/Ram/Choice.antt =====
-- Which entry of the memory map is chosen.
use swallow_os.Prelude.{
  ℕ, ◌+◌, ◌≡◌, refl, true, false, List, [], ◌∷◌, ◌++◌, Bool-cases, inl, inr, ◌⊎◌,
}
use swallow_os.Prelude.Words.{u64}
use swallow_os.Ram.{MemoryMap, Ram, is_available, choose_range}

-- No entry will do.
abbrev pub NoneAvailable : ℕ → List MemoryMap → Type 0
NoneAvailable here [] = Unit {0}
NoneAvailable here (mmmt ∷ mmap) = (is_available here mmmt ≡ false) × NoneAvailable here mmap

-- The first entry that will do is chosen, and nothing changes where there is none.
pub choose_range-first :
    (here : ℕ) (mmap : List MemoryMap) (ram : Ram)
    → (NoneAvailable here mmap × (choose_range here mmap ram ≡ ram))
      ⊎ ((before after : List MemoryMap) × (mmmt : MemoryMap) × (mmap ≡ before ++ mmmt ∷ after)
          × NoneAvailable here before
          × (is_available here mmmt ≡ true)
          × (choose_range here mmap ram
              ≡ record { ram_start = mmmt.addr; ram_end = u64 (mmmt.addr + mmmt.len) }))
unfolding choose_range
choose_range-first here [] ram = inl (tt, refl)
choose_range-first here (mmmt ∷ mmap) ram = elim (Bool-cases (is_available here mmmt)) [
  | inl hit ↦ rw (choose_range, hit) (inr ([], mmap, mmmt, refl, tt, hit, refl))
  | inr miss ↦
      rw (choose_range, miss)
        (elim (choose_range-first here mmap ram) [
          | inl (none_there, e) ↦ inl ((refl, none_there), e)
          | inr (before, after, chosen, whole, earlier, hit, e) ↦
              inr (mmmt ∷ before, after, chosen, rw whole refl, (miss, earlier), hit, e)
        ])
]
