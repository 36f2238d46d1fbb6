-- ===== src/ElfLoader/Outcome.antt =====
-- What a program is loaded as, by the bytes of the file and the pages of the stack.
use swallow_os.Prelude.{
  ℕ, zero, suc, ◌+◌, ◌*◌, ◌≡◌, refl, sym, ◌∙◌, subst, if◌then◌else◌, Bool, true, false, Bool-cases,
  inl, inr, ◌⊎◌, List, [], ◌∷◌, ◌++◌, append_assoc, append-nil, ◌==◌, arith,
}
use swallow_os.Prelude.Words.{u64}
use swallow_os.Frames.{Frames}
use swallow_os.PageTables.{bytes_value, Area, Mm, Fault, panic, halt, mapped, do_mmap}
use swallow_os.ElfLoader.{
  is_valid, area_of, load_segments, stack_area, map_stack, Load, refused, crashed, entered, enter,
  do_load_elf,
}

-- An executable file for x86-64: the first bytes, the type 2 and the machine 62.
abbrev pub IsProgram : (ℕ → ℕ) → ℕ → Type 0
IsProgram mem elf =
    (mem elf ≡ 0x7f)
    × (mem (elf + 1) ≡ b'E')
    × (mem (elf + 2) ≡ b'L')
    × (mem (elf + 3) ≡ b'F')
    × (mem (elf + 16) ≡ 2)
    × (mem (elf + 17) ≡ 0)
    × (mem (elf + 18) ≡ 62)
    × (mem (elf + 19) ≡ 0)

is_valid-IsProgram : (mem : ℕ → ℕ) (elf : ℕ) → is_valid mem elf ≡ true → IsProgram mem elf
unfolding is_valid bytes_value
is_valid-IsProgram mem elf good = ground arith

invalid-IsProgram : (mem : ℕ → ℕ) (elf : ℕ) → is_valid mem elf ≡ false → ¬ (IsProgram mem elf)
unfolding is_valid bytes_value
invalid-IsProgram mem elf bad program = ground arith

-- Numbers of two, four and eight bytes, the lowest first.
abbrev pub half : (ℕ → ℕ) → ℕ → ℕ
half mem a = mem a + 0x100 * mem (a + 1)

abbrev pub word : (ℕ → ℕ) → ℕ → ℕ
word mem a = half mem a + 0x1_0000 * half mem (a + 2)

abbrev pub quad : (ℕ → ℕ) → ℕ → ℕ
quad mem a = word mem a + 0x1_0000_0000 * word mem (a + 4)

half-bytes : (mem : ℕ → ℕ) (a : ℕ) → bytes_value mem a 2 ≡ half mem a
unfolding bytes_value
half-bytes mem a = omega arith

word-bytes : (mem : ℕ → ℕ) (a : ℕ) → bytes_value mem a 4 ≡ word mem a
unfolding bytes_value
word-bytes mem a = ground arith

quad-bytes : (mem : ℕ → ℕ) (a : ℕ) → bytes_value mem a 8 ≡ quad mem a
unfolding bytes_value
quad-bytes mem a = ground arith

-- The areas of the segments to load, of type 1, among the `left` program headers from `at` on, in their
-- order; a header has 56 bytes.
unfoldable pub segments : (ℕ → ℕ) → ℕ → ℕ → List Area
segments mem at zero = []
segments mem at (suc left) =
    let rest = segments mem (at + 56) left in
    if word mem at == 1
    then record {
      vm_flags = 1;
      vm_start = quad mem (at + 16);
      vm_end = u64 (quad mem (at + 16) + quad mem (at + 40));
      vm_pgoff = quad mem (at + 8);
    }
      ∷ rest
    else rest

area_of-segment :
    (mem : ℕ → ℕ) (at : ℕ)
    → word mem at ≡ 1
    → area_of mem at ≡ record {
      vm_flags = 1;
      vm_start = quad mem (at + 16);
      vm_end = u64 (quad mem (at + 16) + quad mem (at + 40));
      vm_pgoff = quad mem (at + 8);
    }
unfolding area_of
area_of-segment mem at kind =
    rw
      (
        word-bytes,
        quad-bytes mem (at + 16),
        quad-bytes mem (at + 40),
        quad-bytes mem (at + 8),
        kind,
      )
      refl

load_segments-segments :
    (enough : ℕ → Bool) (mem : ℕ → ℕ) (p_hdr i left : ℕ) (mm : Mm)
    → ((k : ℕ) → enough k ≡ true)
    → load_segments enough mem p_hdr i left mm
      ≡ (record mm { mmap = mm.mmap ++ segments mem (p_hdr + i * 56) left }, true)
unfolding load_segments segments
load_segments-segments enough mem p_hdr i zero mm all = rw append-nil refl
load_segments-segments enough mem p_hdr i (suc left) mm all =
    let here : ℕ = p_hdr + i * 56 in
    let on : p_hdr + (i + 1) * 56 ≡ here + 56 = omega arith in
    elim (Bool-cases (word mem here == 1)) [
      | inl load ↦
          let kind : word mem here ≡ 1 = ground arith in
          let next : Mm = record mm { mmap = mm.mmap ++ area_of mem here ∷ [] } in
          rw (word-bytes mem here, load, all i)
            (load_segments-segments enough mem p_hdr (i + 1) left next all
              ∙ rw (on, append_assoc, area_of-segment mem here kind) refl)
      | inr skip ↦
          rw (word-bytes mem here, skip)
            (load_segments-segments enough mem p_hdr (i + 1) left mm all ∙ rw on refl)
    ]

-- Where the page `i` of the stack begins.
abbrev pub stack_page : ℕ → ℕ
stack_page i = 0x7fff_fffd_c000 + i * 4096

-- One after another, `n` pages of the stack from the page `i` on are mapped, from `s` to `s'`.
abbrev pub StackMapped : Mm → ℕ → ℕ → Frames → Frames → Type 0
StackMapped mm i zero s s' = s ≡ s'
StackMapped mm i (suc n) s s' =
    (s1 : Frames) × (do_mmap (stack_page i) mm s ≡ mapped s1) × StackMapped mm (i + 1) n s1 s'

-- One of the `n` pages from the page `i` on cannot be mapped, after those before it were.
abbrev pub StackFails : Mm → ℕ → ℕ → Frames → Type 0
StackFails mm i zero s = ⊥
StackFails mm i (suc n) s =
    (do_mmap (stack_page i) mm s ≡ panic)
    ⊎ (do_mmap (stack_page i) mm s ≡ halt)
    ⊎ ((s1 : Frames) × (do_mmap (stack_page i) mm s ≡ mapped s1) × StackFails mm (i + 1) n s1)

-- `map_stack` does not end as a fault that maps.
abbrev Unmapped : Fault → Type 0
Unmapped fault = (fault ≡ panic) ⊎ (fault ≡ halt)

map_stack-pages :
    (i n : ℕ) (mm : Mm) (s : Frames)
    → (StackFails mm i n s × Unmapped (map_stack i n mm s))
      ⊎ ((s' : Frames) × StackMapped mm i n s s' × (map_stack i n mm s ≡ mapped s'))
unfolding map_stack
map_stack-pages i zero mm s = inr (s, refl, refl)
map_stack-pages i (suc n) mm s =
    by_fault (do_mmap (stack_page i) mm s) refl (λ s1. map_stack-pages (i + 1) n mm s1)
  where
    by_fault :
        (fault : Fault)
        → do_mmap (stack_page i) mm s ≡ fault
        → ((s1 : Frames)
            → (StackFails mm (i + 1) n s1 × Unmapped (map_stack (i + 1) n mm s1))
              ⊎ ((s' : Frames) × StackMapped mm (i + 1) n s1 s'
                  × (map_stack (i + 1) n mm s1 ≡ mapped s')))
        → (StackFails mm i (suc n) s × Unmapped (map_stack i (suc n) mm s))
          ⊎ ((s' : Frames) × StackMapped mm i (suc n) s s' × (map_stack i (suc n) mm s ≡ mapped s'))
    by_fault panic e later = inl (inl e, rw (map_stack, e) (inl refl))
    by_fault halt e later = inl (inr (inl e), rw (map_stack, e) (inr refl))
    by_fault (mapped s1) e later = elim (later s1) [
      | inl (fails, un) ↦ inl (inr (inr (s1, e, fails)), rw (map_stack, e) un)
      | inr (s', maps, runs) ↦ inr (s', (s1, e, maps), rw (map_stack, e) runs)
    ]

-- With the areas `mmap`, the call crashes where a page of the stack cannot be mapped, and else
-- enters the program.
abbrev pub Runs : ℕ → Mm → Frames → Load → Type 0
Runs elf mm s result =
    (StackFails mm 0 23 s × (result ≡ crashed))
    ⊎ ((s' : Frames) × StackMapped mm 0 23 s s'
        × (result
            ≡ entered (quad s'.mem (elf + 24)) 0x7fff_ffff_3000 (record mm { elf_content = elf })
                s'))

-- The areas that the program asks for behind those of `mm`, and the stack.
abbrev pub with_areas : (ℕ → ℕ) → ℕ → Mm → Mm
with_areas mem elf mm = record mm {
  mmap =
      (mm.mmap ++ segments mem (u64 (elf + quad mem (elf + 32))) (half mem (elf + 56)))
      ++ record {
        vm_flags = 0;
        vm_start = 0x7fff_fffd_c000;
        vm_end = 0x7fff_ffff_3000;
        vm_pgoff = 0x1_7000;
      }
        ∷ [];
}

enter-Runs :
    (elf : ℕ) (mm : Mm) (s : Frames)
    → Runs elf (record mm { mmap = mm.mmap ++ stack_area ∷ [] }) s (enter elf mm s)
unfolding enter
enter-Runs elf mm s =
    let stacked : Mm = record mm { mmap = mm.mmap ++ stack_area ∷ [] } in
    elim (map_stack-pages 0 23 stacked s) [
      | inl (fails, inl e) ↦ inl (fails, rw (enter, e) refl)
      | inl (fails, inr e) ↦ inl (fails, rw (enter, e) refl)
      | inr (s', maps, e) ↦ inr (s', maps, rw (enter, e, quad-bytes) refl)
    ]

-- With memory for every area, a file that is no executable for x86-64 is refused and changes
-- nothing. Any other one gets an area for each of its segments to load, in their order, and one for
-- the stack. Where one of the 23 pages of the stack, mapped one after another, cannot be mapped, the
-- call crashes; else the program is entered at its entry point with the stack pointer at the end of
-- the stack.
pub do_load_elf-outcome :
    (enough : ℕ → Bool) (elf : ℕ) (mm : Mm) (s : Frames)
    → ((k : ℕ) → enough k ≡ true)
    → ((¬ (IsProgram s.mem elf)) × (do_load_elf enough elf mm s ≡ refused mm))
      ⊎ (IsProgram s.mem elf × Runs elf (with_areas s.mem elf mm) s (do_load_elf enough elf mm s))
unfolding do_load_elf
do_load_elf-outcome enough elf mm s all = elim (Bool-cases (is_valid s.mem elf)) [
  | inr bad ↦ rw (do_load_elf, bad) (inl (invalid-IsProgram s.mem elf bad, refl))
  | inl good ↦
      let at : ℕ = u64 (elf + quad s.mem (elf + 32)) in
      let areas : List Area = segments s.mem at (half s.mem (elf + 56)) in
      let first : at + 0 * 56 ≡ at = omega arith in
      let loaded = load_segments-segments enough s.mem at 0 (half s.mem (elf + 56)) mm all in
      let runs : do_load_elf enough elf mm s ≡ enter elf (record mm { mmap = mm.mmap ++ areas }) s =
        rw (do_load_elf, good, quad-bytes, half-bytes, loaded, first) refl in
      inr (
        is_valid-IsProgram s.mem elf good,
        subst (λ z. Runs elf (with_areas s.mem elf mm) s z) (sym runs)
            (enter-Runs elf (record mm { mmap = mm.mmap ++ areas }) s),
      )
]
