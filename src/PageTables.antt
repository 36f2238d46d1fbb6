-- ===== src/PageTables.antt =====
-- The four levels of page tables, and what a page fault does: kernel/arch/x86_64/mm/pgtable.c, pgtable.h,
-- and `do_mmap` and `page_fault_handler` of mm/pagemanager.c. A page table is in the memory of `Frames`,
-- eight bytes to an entry. What the code does after `hlt` and `panic` is not modelled: they end the run.
pub mod Addresses
pub mod Entries
pub mod Faults
pub mod LastLevel
pub mod Levels
pub mod Mapped
pub mod Walk
mod Tests
use swallow_os.Prelude.{
  ℕ, zero, suc, ◌+◌, ◌-◌, ◌*◌, ◌/◌, ◌%◌, ◌^◌, ◌&&◌, ◌||◌, ltb, leb, ◌==◌, not, if◌then◌else◌, ◌>>=◌,
  Bool, true, false, List, [], ◌∷◌, Option, none, some,
}
use swallow_os.Prelude.Words.{u64, sub64, higher_half_offset}
use swallow_os.Bytes.{memcpy}
use swallow_os.Frames.{Frames, alloc_pages, fill, page_size}

-- `(address >> 39) & 0x1ff` and so on.
abbrev pub pml4_index : ℕ → ℕ
pml4_index address = address / 2 ^ 39 % 512

abbrev pub pdptr_index : ℕ → ℕ
pdptr_index address = address / 2 ^ 30 % 512

abbrev pub pd_index : ℕ → ℕ
pd_index address = address / 2 ^ 21 % 512

abbrev pub pt_index : ℕ → ℕ
pt_index address = address / 2 ^ 12 % 512

unfoldable pub virtaddr2page : ℕ → ℕ × ℕ × ℕ × ℕ
virtaddr2page virtualaddr =
    (pml4_index virtualaddr, pdptr_index virtualaddr, pd_index virtualaddr, pt_index virtualaddr)

-- `entry & ~PAGE_ADDR_MASK`, the bits 12 to 47.
abbrev pub page_addr : ℕ → ℕ
page_addr entry = entry % 2 ^ 48 / 2 ^ 12 * 2 ^ 12

-- The entry of eight bytes, the lowest one first, at an address.
unfoldable pub bytes_value : (ℕ → ℕ) → ℕ → ℕ → ℕ
bytes_value mem a zero = 0
bytes_value mem a (suc n) = mem a + 2 ^ 8 * bytes_value mem (a + 1) n

unfoldable pub read64 : (ℕ → ℕ) → ℕ → ℕ
unfolding bytes_value
read64 mem a = bytes_value mem a 8

unfoldable pub write64 : (ℕ → ℕ) → ℕ → ℕ → ℕ → ℕ
write64 mem a v b = if leb a b && ltb b (a + 8) then v / 2 ^ (8 * (b - a)) % 2 ^ 8 else mem b

-- The address of an entry of the table that an entry leads to.
unfoldable pub slot_in : ℕ → ℕ → ℕ
slot_in entry index = u64 (page_addr entry + higher_half_offset + 8 * index)

-- `p[index]`, of a table at an address.
abbrev pub entry_at : (ℕ → ℕ) → ℕ → ℕ → ℕ
entry_at mem table index = read64 mem (u64 (table + 8 * index))

-- Where an entry leads to, in the upper half: `(entry & ~PAGE_ADDR_MASK) + HIGHER_HALF_OFFSET`.
unfoldable pub table_at : ℕ → ℕ
table_at entry = u64 (page_addr entry + higher_half_offset)

-- `& ~0xFFF`
abbrev pub table_base : ℕ → ℕ
table_base entry = entry / 2 ^ 12 * 2 ^ 12

unfoldable pub get_physaddr : (ℕ → ℕ) → ℕ → ℕ → ℕ
unfolding read64
get_physaddr mem pml4 virtualaddr =
    if ltb higher_half_offset virtualaddr
    then virtualaddr - higher_half_offset
    else let pdptr = table_base (entry_at mem pml4 (pml4_index virtualaddr)) in
      let pd = table_base (entry_at mem pdptr (pdptr_index virtualaddr)) in
      let pt = table_base (entry_at mem pd (pd_index virtualaddr)) in
      u64 (page_addr (entry_at mem pt (pt_index virtualaddr)) + virtualaddr % 2 ^ 12)

-- `struct vm_area_struct`, without its links.
pub record Area : Type 0 where
  pub vm_start : ℕ
  pub vm_end : ℕ
  pub vm_flags : ℕ
  pub vm_pgoff : ℕ

-- The fields of `struct mm_struct` that a page fault reads; `mmap` is the ring of areas, from the first
-- one on, and empty where the source has `NULL`.
pub record Mm : Type 0 where
  pub pgd : ℕ
  pub elf_content : ℕ
  pub mmap : List Area

abbrev pub contains : ℕ → Area → Bool
contains virtaddr vma = leb vma.vm_start virtaddr && ltb virtaddr vma.vm_end

-- The loop over the areas: the last one that has the address.
unfoldable pub find_area : ℕ → List Area → Option Area → Option Area
find_area virtaddr [] valid = valid
find_area virtaddr (vma ∷ vmas) valid =
    find_area virtaddr vmas (if contains virtaddr vma then some vma else valid)

-- A page for an entry, present, writable and for users, or `none` where the code halts.
unfoldable pub fill_entry : Frames → ℕ → ℕ → Option (Frames × ℕ)
unfolding alloc_pages get_physaddr write64
fill_entry s pml4 slot =
    let (s', pa) = alloc_pages s 1 in
    if pa.npages == 0
    then none
    else some (
      record s' { mem = write64 s'.mem slot (u64 (get_physaddr s'.mem pml4 pa.page + 0x07)) },
      pa.page,
    )

-- A table for an entry that is `empty`.
unfoldable pub ensure_table : Bool → Frames → ℕ → ℕ → Option Frames
ensure_table empty s pml4 slot =
    if empty
    then (elim (fill_entry s pml4 slot) [ none ↦ none | some (s', page) ↦ some s' ])
    else some s

-- `ELF_PAGESTART`
abbrev pub page_start : ℕ → ℕ
page_start v = v / page_size * page_size

-- The bytes of the file that a page of an area begins with, and how many.
unfoldable pub content : ℕ → Mm → Area → ℕ × ℕ
content virtaddr mm vma = (
  if ltb vma.vm_start (page_start virtaddr)
      then sub64 (u64 (mm.elf_content + vma.vm_pgoff + page_start virtaddr)) vma.vm_start
      else u64 (mm.elf_content + vma.vm_pgoff),
  if ltb vma.vm_end (page_start virtaddr + page_size)
      then sub64 vma.vm_end (page_start virtaddr)
      else page_size,
)

-- The last step of `do_mmap`, with the address of the entry.
unfoldable pub map_page : ℕ → Mm → Area → Frames → ℕ → ℕ → Option Frames
unfolding fill_entry content fill memcpy
map_page virtaddr mm vma s pml4 slot =
    if page_addr (read64 s.mem slot) == 0
    then (elim (fill_entry s pml4 slot) [
      | none ↦ none
      | some (s', page) ↦
          let (src_start, len) = content virtaddr mm vma in
          some (record s' { mem = memcpy (fill s'.mem page page_size 0) page src_start len })
    ])
    else some s

unfoldable pub map_in : ℕ → Mm → Area → Frames → Option Frames
map_in virtaddr mm vma s = do
  let (pml4_idx, pdptr_idx, pd_idx, pt_idx) = virtaddr2page virtaddr
  let pml4 = u64 (page_addr mm.pgd + higher_half_offset)
  let slot4 = slot_in mm.pgd pml4_idx
  s3 ← ensure_table (page_addr (read64 s.mem slot4) == 0) s pml4 slot4
  let slot3 = slot_in (read64 s3.mem slot4) pdptr_idx
  s2 ← ensure_table (page_addr (read64 s3.mem slot3) == 0) s3 pml4 slot3
  let slot2 = slot_in (read64 s2.mem slot3) pd_idx
  s1 ← ensure_table (read64 s2.mem slot2 == 0) s2 pml4 slot2
  map_page virtaddr mm vma s1 pml4 (slot_in (read64 s1.mem slot2) pt_idx)

-- How a call of `do_mmap` or `page_fault_handler` ends.
pub data Fault : Type 0 where
  panic halt : Fault
  mapped : Frames → Fault

unfoldable pub do_mmap : ℕ → Mm → Frames → Fault
do_mmap virtaddr mm s = elim (find_area virtaddr mm.mmap none) [
  | none ↦ panic
  | some vma ↦ elim (map_in virtaddr mm vma s) [ none ↦ halt | some s' ↦ mapped s' ]
]

-- `address` is the contents of cr2, and `kernel_end` the address of `_kernel_end`.
unfoldable pub page_fault_handler : ℕ → ℕ → ℕ → Mm → Frames → Fault
page_fault_handler kernel_end error_code address mm s =
    if error_code % 2 == 0 && not (error_code / 4 % 2 == 0) && error_code / 8 == 0
    then (if ltb address (sub64 kernel_end higher_half_offset) || leb higher_half_offset address
        then panic
        else do_mmap address mm s)
    else panic
