-- ===== src/Lib.antt =====
-- SwallowOS: a small x86_64 kernel, and its C library.
--
-- The parts that are modelled, and how they meet:
--   * Links: kernel/include/kernel/list.h. The intrusive circular lists that every queue of the kernel
--     is made of. Nodes are addresses; `next` and `prev` are functions of the address.
--   * Pic: kernel/arch/x86_64/driver/pic.c. The mask registers of the two interrupt controllers, which
--     the scheduler and the keyboard write.
--   * Sched: kernel/arch/x86_64/sched/task.c and switch.s, with driver/timer.c in Sched.Timer. The
--     record `Sched` has the globals of task.c and the fields of every task as functions of the
--     address of its `tcb_list`. A function of the source is a function from state to state of the
--     same name. Sched.Holds says which lists of tasks the four head pointers stand for; Sched.Switch,
--     Sched.Block, Sched.Unblock and Sched.Sleep have the theorems on schedule, block_task,
--     unblock_task, nano_sleep_until and terminate_task, Sched.Timer.Hook those on the timer interrupt.
--     Sched.Create has create_task and init_scheduler, and Sched.Clean the work of the clean-up task, with
--     what it releases of a task as a list of calls.
--     A switch of tasks ends where the other stack is loaded: what follows the call of switch_to_task
--     in the source is run by the task that comes back, behind the call that it left by itself. The
--     field comes_back of Sched says whether that is the call for a ready task in schedule, behind
--     which tss_rsp0 is written; a new task, which starts in task_start_up, does not write it.
--   * Semaphore: kernel/arch/x86_64/sched/semaphore.c, over the scheduler's functions.
--   * Frames: kernel/arch/x86_64/mm/pagemanager.c. The bitmap of page frames, and alloc_pages,
--     free_pages and the part of kalloc_frame_init that sets up the bitmap, before it calls
--     remap_lower_kernel_range. Memory is a function of the address.
--   * Malloc: kernel/arch/x86_64/mm/malloc.c, over Links and Frames. The chunks of a page, the slots of
--     free chunks, kmalloc (Malloc.Alloc), kfree (Malloc.Free) and kmcheck (Malloc.Check). The headers
--     of chunks are functions of the address beside the other bytes of the memory.
--   * PageTables: kernel/arch/x86_64/mm/pgtable.c, and do_mmap and page_fault_handler of
--     mm/pagemanager.c. Page tables are bytes in the memory of Frames; the ring of a task's areas is the
--     list of its members. PageTables.Entries is about filling an entry, PageTables.Faults about how a
--     page fault ends, PageTables.Levels about one level of the walk from the root (PageTables.Walk), and
--     PageTables.Mapped about the whole of it.
--   * AddressSpace: kernel/arch/x86_64/mm/mm.c, mm_clean_pgd (AddressSpace.Clean, over the lists of
--     AddressSpace.Pages) and mm_dup_pgd (AddressSpace.Duplicate, over AddressSpace.Kept), and
--     do_ummap_user of mm/pagemanager.c in AddressSpace.Unmap. The loops over the 512 entries of a table
--     are structural.
--   * ElfLoader: kernel/arch/x86_64/fs/elfloader.c. _do_load_elf, from a file in memory to the areas of
--     an address space and the entry into the program, over PageTables.
--   * Exec: load_elf of fs/elfloader.c and kernel_exec of fs/exec.c, over Fat, Malloc, AddressSpace and
--     ElfLoader, with the heap and the scheduler as their state.
--   * Ram: kernel/arch/x86_64/mm/ram.c, the choice of the memory that Frames divides.
--   * Keyboard: kernel/arch/x86_64/driver/keyboard.c. The ring buffer between the interrupt handler
--     and sys_getchar.
--   * Fat: kernel/arch/x86_64/fs/fat.c. Mounting, the packed entries of the allocation table, the
--     search in the root directory (Fat.Directory; a name in the form of an entry in its Padding and
--     Shortened, an entry seen by its bytes in Matches, and the loop in Search), and reading a file over a chain of clusters. The
--     drive is a function from sector numbers to sectors; Floppy has the place of a sector on the disk,
--     from driver/floppy.c.
--   * Terminal: kernel/arch/x86_64/boot/tty.c. Printing a character on the text screen, and scrolling.
--   * Bytes: libc/string.
--   * Itoa and Printf: libc/stdio/printf.c. Numbers as text in a buffer, and vprintk_func from a format
--     and its parameters to the bytes printed; Printf.Reference says what a format stands for.
--   * Prelude: the numbers, lists, bits and machine words that the others share.
--
-- Numbers are natural numbers, and a machine word is reduced where the source's type wraps: u8, u16,
-- u32, u64 and sub64 of Prelude.Words. An `int` counter of the scheduler is kept modulo 2 ^ 32.
--
-- Loops that the source does not bound run on fuel, and `none` is the answer where it runs out: the
-- two loops of task_hook_in_timer_handler, for which more than n + n * n rounds are enough with n tasks
-- asleep; the loop of fat12_read_file, for which more rounds than bytes to copy are enough; strlen,
-- for which more rounds than characters are; the digits of a number, 65 rounds for 64 bits;
-- vprintk_func, for which more rounds than bytes of the format are; and the loops of kfree and kmcheck
-- around the chunks of a page, for which more rounds than chunks are; and the loop of kernel_clean_work,
-- for which more rounds than terminated tasks are. In Exec the fuel is that of kfree and of reading a file,
-- and a result of its own says that it ran out.
--
-- Not modelled: mm_init and mm_clean (mm/mm.c), which set and free the fields of a C struct, and
-- remap_lower_kernel_range (mm/pagemanager.c), which are left for later; read_elf, which only prints;
-- assembly, descriptor tables and port traffic with the controllers, which have no state that the rest
-- reads; and the i386 port, which repeats the same parts.
pub mod AddressSpace
pub mod Bytes
pub mod ElfLoader
pub mod Exec
pub mod Fat
pub mod Floppy
pub mod Frames
pub mod Itoa
pub mod Keyboard
pub mod Links
pub mod Malloc
pub mod PageTables
pub mod Pic
pub mod Prelude
pub mod Printf
pub mod Ram
pub mod Sched
pub mod Semaphore
pub mod Terminal
