-- ===== src/Ram.antt =====
-- Where the memory for page frames is: `init_ram` of kernel/arch/x86_64/mm/ram.c. The memory map of the
-- boot loader is the list of its entries.
pub mod Choice
use swallow_os.Prelude.{
  ℕ, ◌+◌, ◌-◌, ◌/◌, ◌%◌, ◌^◌, ◌&&◌, Bool, ltb, ◌==◌, if◌then◌else◌, List, [], ◌∷◌,
}
use swallow_os.Prelude.Words.{u64, sub64, higher_half_offset}

-- `multiboot_memory_map_t`
pub record MemoryMap : Type 0 where
  pub addr : ℕ
  pub len : ℕ
  pub type : ℕ

-- The fields of `multiboot_info_t` that are read.
pub record MultibootInfo : Type 0 where
  pub flags : ℕ
  pub mmap : List MemoryMap

-- `ram_start` and `ram_end`.
pub record Ram : Type 0 where
  pub ram_start : ℕ
  pub ram_end : ℕ

abbrev pub multiboot_memory_available : ℕ
multiboot_memory_available = 1

-- Available, and around the physical address `here` of `init_ram` itself.
unfoldable pub is_available : ℕ → MemoryMap → Bool
is_available here mmmt =
    mmmt.type == multiboot_memory_available
    && ltb mmmt.addr here
    && ltb here (u64 (mmmt.addr + mmmt.len))

unfoldable pub choose_range : ℕ → List MemoryMap → Ram → Ram
unfolding is_available
choose_range here [] ram = ram
choose_range here (mmmt ∷ mmap) ram =
    let rest = choose_range here mmap ram in
    if is_available here mmmt
    then record { ram_start = mmmt.addr; ram_end = u64 (mmmt.addr + mmmt.len) }
    else rest

-- `init_ram_at` is the address of the function.
unfoldable pub init_ram : ℕ → MultibootInfo → Ram → Ram
unfolding choose_range
init_ram init_ram_at mbd ram =
    if mbd.flags / 2 ^ 6 % 2 == 0
    then ram
    else choose_range (sub64 init_ram_at higher_half_offset) mbd.mmap ram
