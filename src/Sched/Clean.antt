-- ===== src/Sched/Clean.antt =====
-- The clean-up task: `kernel_clean_work` of kernel/arch/x86_64/sched/task.c. What is released of a task is
-- a list of the calls, in order. The loop runs on fuel, and `none` means that it ran out.
pub mod Reaped
use swallow_os.Prelude.{ℕ, zero, suc, ◌==◌, if◌then◌else◌, List, [], ◌∷◌, ◌++◌, Option, none, some}
use swallow_os.Links.{null, list_del}
use swallow_os.Sched.{block_task, lock_stuff, unlock_stuff}
use swallow_os.Sched.State.{paused, Sched}

-- The calls that release what a task has: `do_ummap_user` and `mm_clean` and `kfree` on its `mm`, with its
-- page directory; `free_pages` on its stack; and `kfree` on its control block.
pub data Release : Type 0 where
  address_space : ℕ → ℕ → Release
  kernel_stack control_block : ℕ → Release

unfoldable pub releases : (ℕ → Option ℕ) → ℕ → List Release
releases pgd task =
    (elim (pgd task) [ none ↦ [] | some root ↦ address_space task root ∷ [] ])
    ++ kernel_stack task ∷ control_block task ∷ []

-- The first terminated task leaves its queue; the last one stays a ring of its own.
unfoldable pub take_terminated : Sched → Sched
take_terminated s =
    let task = s.terminated in
    if task == s.links.next task
    then record s { terminated = null }
    else record s { terminated = s.links.next task; links = list_del s.links task }

unfoldable pub clean_terminated : ℕ → Sched → Option (Sched × List Release)
unfolding take_terminated releases
clean_terminated zero s = none
clean_terminated (suc fuel) s =
    let rest = clean_terminated fuel (take_terminated s) in
    if s.terminated == null then some (s, []) else elim rest [
      | none ↦ none
      | some (s', calls) ↦ some (s', releases s.pgd s.terminated ++ calls)
    ]

unfoldable pub kernel_clean_work : ℕ → Sched → Option (Sched × List Release)
unfolding clean_terminated lock_stuff block_task unlock_stuff
kernel_clean_work fuel s = elim (clean_terminated fuel (lock_stuff s)) [
  | none ↦ none
  | some (s', calls) ↦ some (unlock_stuff (block_task s' paused), calls)
]
