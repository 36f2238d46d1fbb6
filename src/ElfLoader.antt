-- ===== src/ElfLoader.antt =====
-- Loading a program: `_do_load_elf` of kernel/arch/x86_64/fs/elfloader.c. The file is in the memory of
-- `Frames`, at an address, in the layout of fs/elf.h. Whether `kmalloc` gives memory for the area of the
-- program header `i` is an argument.
pub mod Outcome
mod Tests
use swallow_os.Prelude.{
  ℕ, zero, suc, ◌+◌, ◌-◌, ◌*◌, ◌^◌, ◌&&◌, ◌==◌, not, if◌then◌else◌, Bool, true, false, List, [],
  ◌∷◌, ◌++◌,
}
use swallow_os.Prelude.Words.{u64}
use swallow_os.Frames.{Frames, page_size}
use swallow_os.PageTables.{bytes_value, Area, Mm, Fault, panic, halt, mapped, do_mmap}

-- The magic number, the type and the machine.
unfoldable pub is_valid : (ℕ → ℕ) → ℕ → Bool
unfolding bytes_value
is_valid mem elf =
    mem elf == 0x7f
    && mem (elf + 1) == b'E'
    && mem (elf + 2) == b'L'
    && mem (elf + 3) == b'F'
    && bytes_value mem (elf + 16) 2 == 2
    && bytes_value mem (elf + 18) 2 == 62

-- Fields of the header.
abbrev pub e_entry : (ℕ → ℕ) → ℕ → ℕ
e_entry mem elf = bytes_value mem (elf + 24) 8

abbrev pub e_phoff : (ℕ → ℕ) → ℕ → ℕ
e_phoff mem elf = bytes_value mem (elf + 32) 8

abbrev pub e_phnum : (ℕ → ℕ) → ℕ → ℕ
e_phnum mem elf = bytes_value mem (elf + 56) 2

-- `p_hdr + i`
abbrev pub program_header : ℕ → ℕ → ℕ
program_header p_hdr i = p_hdr + i * 56

abbrev pub is_load : (ℕ → ℕ) → ℕ → Bool
is_load mem header = bytes_value mem header 4 == 1

-- The area of a program header: type, offset, address and size in memory.
unfoldable pub area_of : (ℕ → ℕ) → ℕ → Area
unfolding bytes_value
area_of mem header = record {
  vm_flags = bytes_value mem header 4;
  vm_start = bytes_value mem (header + 16) 8;
  vm_end = u64 (bytes_value mem (header + 16) 8 + bytes_value mem (header + 40) 8);
  vm_pgoff = bytes_value mem (header + 8) 8;
}

-- The loop over the program headers, from `i` on; `false` where memory is short.
unfoldable pub load_segments : (ℕ → Bool) → (ℕ → ℕ) → ℕ → ℕ → ℕ → Mm → Mm × Bool
load_segments enough mem p_hdr i zero mm = (mm, true)
load_segments enough mem p_hdr i (suc left) mm =
    let header = program_header p_hdr i in
    let next =
      if is_load mem header then record mm { mmap = mm.mmap ++ area_of mem header ∷ [] } else mm in
    let rest = load_segments enough mem p_hdr (i + 1) left next in
    if is_load mem header && not (enough i) then (mm, false) else rest

abbrev pub stack_page_num : ℕ
stack_page_num = 23

abbrev pub stack_area : Area
stack_area = record {
  vm_flags = 0;
  vm_start = 0x0000_7fff_fffd_c000;
  vm_end = 0x0000_7fff_fffd_c000 + stack_page_num * page_size;
  vm_pgoff = stack_page_num * page_size;
}

-- The loop that maps the pages of the stack.
unfoldable pub map_stack : ℕ → ℕ → Mm → Frames → Fault
map_stack pg_index zero mm s = mapped s
map_stack pg_index (suc left) mm s =
    elim (do_mmap (stack_area.vm_start + pg_index * page_size) mm s) [
      | panic ↦ panic
      | halt ↦ halt
      | mapped s' ↦ map_stack (pg_index + 1) left mm s'
    ]

-- How the call ends: -1, with the areas made so far; a page fault's end; or the program runs at an
-- address, with a stack pointer.
pub data Load : Type 0 where
  refused : Mm → Load
  crashed : Load
  entered : ℕ → ℕ → Mm → Frames → Load

-- The stack is added and mapped, and the program entered.
unfoldable pub enter : ℕ → Mm → Frames → Load
enter elf_content mm s =
    let stacked = record mm { mmap = mm.mmap ++ stack_area ∷ [] } in
    elim (map_stack 0 stack_page_num stacked s) [
      | panic ↦ crashed
      | halt ↦ crashed
      | mapped s' ↦
          entered (e_entry s'.mem elf_content) stack_area.vm_end
            (record stacked { elf_content = elf_content }) s'
    ]

unfoldable pub do_load_elf : (ℕ → Bool) → ℕ → Mm → Frames → Load
do_load_elf enough elf_content mm s =
    if not (is_valid s.mem elf_content)
    then refused mm
    else let p_hdr = u64 (elf_content + e_phoff s.mem elf_content) in
      let (loaded, ok) = load_segments enough s.mem p_hdr 0 (e_phnum s.mem elf_content) mm in
      if ok then enter elf_content loaded s else refused loaded
