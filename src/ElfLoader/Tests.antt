-- ===== src/ElfLoader/Tests.antt =====
-- A program of one segment.
use swallow_os.Prelude.{ℕ, ◌≡◌, refl, true, ◌==◌, if◌then◌else◌, [], ◌∷◌, ◌⊎◌}
use swallow_os.Frames.{Frames}
use swallow_os.PageTables.{Mm}
use swallow_os.ElfLoader.{do_load_elf, refused}
use swallow_os.ElfLoader.Outcome.{IsProgram, segments, Runs, with_areas, do_load_elf-outcome}

-- The file at the address 4096, with its program header behind the header of 64 bytes.
abbrev file : ℕ → ℕ
file a =
    if a == 4096
    then 0x7f
    else if a == 4097
    then b'E'
    else if a == 4098
    then b'L'
    else if a == 4099
    then b'F'
    else if a == 4112
    then 2
    else if a == 4114
    then 62
    else if a == 4128
    then 64
    else if a == 4152
    then 1
    else if a == 4160
    then 1
    else if a == 4178
    then 0x40
    else if a == 4201
    then 0x30
    else 0

abbrev machine : Frames
machine = record {
  frame_map = λ w. if w == 0 then 1 else 0;
  npages = 10;
  startframe = 0xffff_ffff_8020_0000;
  mem = file;
}

abbrev nothing : Mm
nothing = record { pgd = 0x20_0000; elf_content = 0; mmap = [] }

one_segment :
    segments file 4160 1
    ≡ record { vm_start = 0x40_0000; vm_end = 0x40_3000; vm_flags = 1; vm_pgoff = 0 } ∷ []
unfolding segments
one_segment = refl

do_load_elf-outcome_example :
    ((¬ (IsProgram file 4096)) × (do_load_elf (λ i. true) 4096 nothing machine ≡ refused nothing))
    ⊎ (IsProgram file 4096
        × Runs 4096
            (with_areas file 4096 nothing)
            machine
            (do_load_elf (λ i. true) 4096 nothing machine))
do_load_elf-outcome_example = do_load_elf-outcome (λ i. true) 4096 nothing machine (λ k. refl)
