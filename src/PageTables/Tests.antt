-- ===== src/PageTables/Tests.antt =====
-- Page faults on a small machine.
use swallow_os.Prelude.{
  ℕ, ◌+◌, ◌*◌, ◌≡◌, ◌≢◌, ◌<◌, refl, ◌==◌, if◌then◌else◌, [], ◌∷◌, none, some, arith, ◌⊎◌, inl, inr,
  Bool-cases, ◌≢◌,
}
use swallow_os.Frames.{Frames, get_frame_map}
use swallow_os.Frames.Alloc.{IsValid, FreeRun}
use swallow_os.PageTables.{
  Area, Mm, find_area, map_in, panic, halt, mapped, page_fault_handler, fill_entry, virtaddr2page,
  read64, table_at,
}
use swallow_os.PageTables.Levels.{IsReady}
use swallow_os.PageTables.Mapped.{page_fault_handler-translate}
use swallow_os.PageTables.Walk.{indices, translate, PageInUse, InPlace, Room}
use swallow_os.PageTables.Entries.{Filled, fill_entry-Filled}
use swallow_os.PageTables.Faults.{LastCovering, Mappable, NoneCovers, page_fault_handler-outcome}

-- Ten frames, of which the first one is taken.
abbrev machine : Frames
machine = record {
  frame_map = λ w. if w == 0 then 1 else 0;
  npages = 10;
  startframe = 0xffff_ffff_8020_0000;
  mem = λ a. 0;
}

machine-IsValid : IsValid machine
machine-IsValid = record { few = omega arith; fits = omega arith }

abbrev code : Area
code = record { vm_start = 0x40_0000; vm_end = 0x40_3000; vm_flags = 1; vm_pgoff = 64 }

abbrev stack : Area
stack = record { vm_start = 0x40_2000; vm_end = 0x40_8000; vm_flags = 1; vm_pgoff = 64 }

abbrev task : Mm
task = record { pgd = 0x20_0000; elf_content = 0xffff_ffff_8030_0000; mmap = code ∷ stack ∷ [] }

both_cover : find_area 0x40_2800 task.mmap none ≡ some stack
unfolding find_area
both_cover = refl

split_address : virtaddr2page 0x7fff_ffff_c123 ≡ (255, 511, 511, 508)
unfolding virtaddr2page
split_address = refl

fill_entry-Filled_example :
    ((fill_entry machine 0xffff_ffff_8020_0000 0xffff_ffff_8020_0008 ≡ none)
      × ((j : ℕ) → j + 1 < 10 → ¬ (FreeRun machine j 1)))
    ⊎ ((s' : Frames) × (k : ℕ) × (fill_entry machine 0xffff_ffff_8020_0000 0xffff_ffff_8020_0008
          ≡ some (s', machine.startframe + k * 4096))
        × Filled machine 0xffff_ffff_8020_0008 k s')
fill_entry-Filled_example =
    fill_entry-Filled machine machine-IsValid (omega arith) (omega arith) 0xffff_ffff_8020_0000
      0xffff_ffff_8020_0008

-- A write by a user to a page that is not present.
abbrev user_write : ℕ
user_write = 6

page_fault_handler-outcome_example :
    let result = page_fault_handler 0xffff_ffff_8010_0000 user_write 0x40_2800 task machine in
    ((result ≡ panic)
      × (((user_write ≢ 4) × (user_write ≢ 6))
          ⊎ (¬ (Mappable 0xffff_ffff_8010_0000 0x40_2800))
          ⊎ NoneCovers 0x40_2800 task.mmap))
    ⊎ (((user_write ≡ 4) ⊎ (user_write ≡ 6))
        × Mappable 0xffff_ffff_8010_0000 0x40_2800
        × ((vma : Area) × LastCovering 0x40_2800 task.mmap vma
            × (((result ≡ halt) × (map_in 0x40_2800 task vma machine ≡ none))
                ⊎ ((s' : Frames) × (result ≡ mapped s')
                    × (map_in 0x40_2800 task vma machine ≡ some s')))))
page_fault_handler-outcome_example =
    page_fault_handler-outcome 0xffff_ffff_8010_0000 user_write 0x40_2800 task machine

machine-IsReady : IsReady machine
machine-IsReady = record { valid = machine-IsValid; in_upper_half = omega arith; aligned = refl }

taken : get_frame_map machine.frame_map 0 ≡ 1
unfolding get_frame_map
taken = refl

root-PageInUse : PageInUse machine 0xffff_ffff_8020_0000
root-PageInUse k lt free = elim (Bool-cases (k == 0)) [
  | inl first ↦
      let e : k ≡ 0 = ground arith in
      absurd (let free' = rw e at free in omega (arith, taken, free'))
  | inr other ↦ let ne : k ≢ 0 = ground arith in omega arith
]

machine-Room : Room machine 0 4
unfolding get_frame_map
machine-Room = (
  1,
  omega arith,
  omega arith,
  refl,
  (
    2,
    omega arith,
    omega arith,
    refl,
    (3, omega arith, omega arith, refl, (4, omega arith, omega arith, refl, tt)),
  ),
)

machine-InPlace : InPlace machine (indices 0x40_2800) task.pgd []
unfolding read64 table_at
machine-InPlace = (root-PageInUse, tt, inl refl)

task-covers : ¬ (NoneCovers 0x40_2800 task.mmap)
task-covers (code_misses, rest) = ground arith

page_fault_handler-translate_example :
    (s' : Frames) × (page : ℕ) × (page_fault_handler 0xffff_ffff_8010_0000 user_write 0x40_2800 task
        machine
      ≡ mapped s')
    × (translate s'.mem (indices 0x40_2800) task.pgd ≡ some page)
page_fault_handler-translate_example =
    page_fault_handler-translate 0x40_2800 task machine machine-IsReady machine-Room machine-InPlace
      0xffff_ffff_8010_0000 user_write (inr refl) (omega arith, omega arith) task-covers
