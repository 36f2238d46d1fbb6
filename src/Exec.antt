-- ===== src/Exec.antt =====
-- Running a program from the drive: `load_elf` of kernel/arch/x86_64/fs/elfloader.c and `kernel_exec` of
-- fs/exec.c. The loops of `kfree` and of reading the file run on fuel. Whether `kmalloc` gives memory for
-- the area of a program header is an argument, as in `ElfLoader`. What a read that fails has put into the
-- buffer is not kept: the buffer is freed at once.
pub mod Balance
pub mod Loading
pub mod Locks
mod Tests
use swallow_os.Prelude.{
  ℕ, ◌+◌, ◌-◌, ◌&&◌, ltb, leb, ◌==◌, if◌then◌else◌, update, Bool, true, false, List, [], Option,
  none, some,
}
use swallow_os.Prelude.Words.{u64, higher_half_offset}
use swallow_os.Fat.{Disk, Fat12}
use swallow_os.Fat.Directory.{fat12_get_file_size, fat12_read_file}
use swallow_os.Frames.{Frames}
use swallow_os.PageTables.{Mm}
use swallow_os.AddressSpace.{free_page, mm_clean_pgd, mm_dup_pgd}
use swallow_os.ElfLoader.{Load, refused, crashed, entered, do_load_elf}
use swallow_os.Links.{null}
use swallow_os.Malloc.{Heap, clear}
use swallow_os.Malloc.Alloc.{kmalloc}
use swallow_os.Malloc.Free.{kfree}
use swallow_os.Sched.State.{Sched}
use swallow_os.Sched.{lock_scheduler, unlock_scheduler}

-- The heap, with the page frames and the memory, and the scheduler.
pub record System : Type 0 where
  pub heap : Heap
  pub sched : Sched

-- The drive, with the bytes behind its buffers; the fuel; and whether there is memory for an area.
pub record Drive : Type 0 where
  pub disk : Disk
  pub fs : Fat12
  pub past : ℕ → ℕ
  pub behind : ℕ
  pub fuel : ℕ
  pub enough : ℕ → Bool

-- How a call ends: with -1; in a panic or at `hlt`; in the program, at an address and with a stack pointer;
-- or nowhere, where the fuel runs out.
pub data Exec : Type 0 where
  failed : System → Exec
  halted looped : Exec
  running : ℕ → ℕ → Mm → System → Exec

-- `kfree(mem); r = -1;`
unfoldable pub discard : ℕ → ℕ → System → Exec
discard fuel mem t = elim (kfree fuel mem t.heap t.sched) [
  | none ↦ looped
  | some (heap, sched) ↦ failed (record { heap = heap; sched = sched })
]

-- The bytes of a file at the address of its buffer.
abbrev pub with_file : Heap → ℕ → ℕ → (ℕ → ℕ) → Heap
with_file h p size file = record h {
  frames = record h.frames {
    mem = λ a. if leb p a && ltb a (p + size) then file (a - p) else h.frames.mem a;
  };
}

-- The program in the buffer is entered, with the scheduler unlocked, or the buffer is freed.
unfoldable pub run_file : Drive → ℕ → Mm → System → Exec
unfolding discard
run_file d p mm t = elim (do_load_elf d.enough p mm t.heap.frames) [
  | refused mm' ↦ discard d.fuel p t
  | crashed ↦ halted
  | entered entry stack mm' frames ↦
      running entry stack mm'
        (record { heap = record t.heap { frames = frames }; sched = unlock_scheduler t.sched })
]

-- The file is read into a buffer of its size.
unfoldable pub read_program : Drive → List ℕ → ℕ → Mm → System → Exec
unfolding discard run_file
read_program d name size mm t =
    let ((p, heap), sched) = kmalloc (u64 (size + 1)) t.heap t.sched in
    let cleared = clear heap p size in
    if p == null
    then failed (record { heap = heap; sched = sched })
    else elim (fat12_read_file d.fuel d.behind d.past d.disk d.fs name
        (λ a. cleared.frames.mem (p + a)) size) [
          | none ↦ looped
          | some none ↦ discard d.fuel p (record { heap = cleared; sched = sched })
          | some (some (file, outlen)) ↦
              run_file d p mm (record { heap = with_file cleared p size file; sched = sched })
        ]

unfoldable pub load_elf : Drive → List ℕ → Mm → System → Exec
unfolding read_program
load_elf d name mm t = elim (fat12_get_file_size d.past d.disk d.fs name) [
  | none ↦ failed t
  | some size ↦ if size == 0 then failed t else read_program d name size mm t
]

-- `sizeof(struct mm_struct)`
abbrev pub mm_size : ℕ
mm_size = 88

abbrev pub with_pgd : Sched → Option ℕ → Sched
with_pgd s root = record s { pgd = update s.pgd s.current root }

-- The end of `kernel_exec` after a failure: the structure is freed, and the scheduler unlocked.
unfoldable pub give_up : ℕ → ℕ → System → Exec
give_up fuel mm t = elim (kfree fuel mm t.heap t.sched) [
  | none ↦ looped
  | some (heap, sched) ↦ failed (record { heap = heap; sched = unlock_scheduler sched })
]

-- The address space is freed too, and the task is left without one.
unfoldable pub undo : ℕ → ℕ → ℕ → System → Exec
unfolding give_up
undo fuel mm pgd t = give_up fuel mm (record {
  heap = record t.heap {
    frames = free_page (mm_clean_pgd t.heap.frames pgd) (u64 (pgd + higher_half_offset));
  };
  sched = with_pgd t.sched none;
})

-- The task gets a copy of the kernel's address space, and the program is loaded.
unfoldable pub exec_in : Drive → List ℕ → ℕ → System → Exec
unfolding give_up undo load_elf
exec_in d filename mm t =
    let (frames, pgd) = mm_dup_pgd t.heap.frames t.sched.kernel_pgd in
    let heap = record t.heap { frames = frames } in
    if pgd == 0
    then give_up d.fuel mm (record { heap = heap; sched = t.sched })
    else elim (load_elf d filename (record { pgd = pgd; elf_content = 0; mmap = [] })
        (record { heap = heap; sched = with_pgd t.sched (some pgd) })) [
          | failed t' ↦ undo d.fuel mm pgd t'
          | halted ↦ halted
          | looped ↦ looped
          | running entry stack mm' t' ↦ running entry stack mm' t'
        ]

unfoldable pub kernel_exec : Drive → List ℕ → System → Exec
unfolding exec_in
kernel_exec d filename t =
    let locked = lock_scheduler t.sched in
    let ((mm, heap), sched) = kmalloc mm_size t.heap locked in
    elim (t.sched.pgd t.sched.current) [
      | some pgd ↦ failed (record t { sched = unlock_scheduler locked })
      | none ↦
          if mm == null
          then failed (record { heap = heap; sched = unlock_scheduler sched })
          else exec_in d filename mm (record { heap = clear heap mm mm_size; sched = sched })
    ]
