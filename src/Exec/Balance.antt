-- ===== src/Exec/Balance.antt =====
-- How `kernel_exec` leaves the lock of the scheduler and the address spaces of the tasks.
use swallow_os.Prelude.{
  ℕ, ◌+◌, ◌^◌, ◌≡◌, ◌≢◌, ◌<◌, refl, ◌∙◌, ◌==◌, update, Bool-cases, List, [], Option, Option-cases,
  none, some, arith, inl, inr,
}
use swallow_os.Prelude.Words.{u32}
use swallow_os.AddressSpace.{mm_dup_pgd}
use swallow_os.Links.{null}
use swallow_os.Malloc.{Heap}
use swallow_os.Malloc.Alloc.{kmalloc}
use swallow_os.Sched.State.{Sched}
use swallow_os.Sched.{lock_scheduler, unlock_scheduler}
use swallow_os.Exec.{
  System, Drive, Exec, failed, halted, looped, running, mm_size, with_pgd, give_up, undo, exec_in,
  kernel_exec,
}
use swallow_os.Exec.Locks.{
  Same, RanOut, Same-then, unlock_scheduler-Same, lock_scheduler-Same, kmalloc-Same, kfree-Same,
}
use swallow_os.Exec.Loading.{LoadEnds, load_elf-LoadEnds}

-- A running program's task has an address space of its own, and the others have theirs; where the call
-- fails all tasks do.
abbrev pub ExecEnds : Drive → Sched → Exec → Type 0
ExecEnds d s (failed t) = Same s t.sched s.irq_disable_counter
ExecEnds d s halted = Unit {0}
ExecEnds d s looped = RanOut d
ExecEnds d s (running entry stack mm t) =
    (s.pgd s.current ≡ none)
    × ((root : ℕ) × (root ≢ 0) × Same (with_pgd s (some root)) t.sched s.irq_disable_counter)

-- The scheduler was locked once.
abbrev Locked : Sched → Sched → Type 0
Locked s t = Same s t (u32 (s.irq_disable_counter + 1))

updated :
    (f g : ℕ → Option ℕ) (a b n : ℕ) (v : Option ℕ)
    → f n ≡ g n
    → a ≡ b
    → update f a v n ≡ update g b v n
updated f g a b n v same e = elim (Bool-cases (b == n)) [
  | inl here ↦ rw (e, here) refl
  | inr there ↦ rw (e, there) same
]

restored :
    (f : ℕ → Option ℕ) (c n : ℕ) (v : Option ℕ) → f c ≡ none → update (update f c v) c none n ≡ f n
restored f c n v alone = elim (Bool-cases (c == n)) [
  | inl here ↦ let e : n ≡ c = ground arith in rw (here, e, alone) refl
  | inr there ↦ rw there refl
]

module _ (d : Drive) (s : Sched) (small : s.irq_disable_counter < 2 ^ 32) where
  unlocked : (t : Sched) → Locked s t → Same s (unlock_scheduler t) s.irq_disable_counter
  unlocked t locked =
      let opened = unlock_scheduler-Same t in
      let same = Same-then locked opened in
      record {
        counter = opened.counter ∙ omega (arith, locked.counter);
        current = same.current;
        kernel_pgd = same.kernel_pgd;
        pgd = same.pgd;
      }

  give_up-ExecEnds : (mm : ℕ) (t : System) → Locked s t.sched → ExecEnds d s (give_up d.fuel mm t)
  unfolding give_up
  give_up-ExecEnds mm t locked =
      elim (kfree-Same d.fuel mm t.heap t.sched (omega (arith, locked.counter))) [
        | inl e ↦ rw (ExecEnds, e) (inl (mm, t.heap, t.sched, e))
        | inr (h, s', e, freed) ↦
            rw (ExecEnds, e)
              (unlocked s' (record {
                counter = freed.counter ∙ locked.counter;
                current = freed.current ∙ locked.current;
                kernel_pgd = freed.kernel_pgd ∙ locked.kernel_pgd;
                pgd = λ n. freed.pgd n ∙ locked.pgd n;
              }))
      ]

  -- The program is loaded for a task without an address space.
  module _ (alone : s.pgd s.current ≡ none) (root : ℕ) (made : root ≢ 0) (filename : List ℕ)
      (mm : ℕ) where
    after :
        (t : Sched)
        → Locked s t
        → (load : Exec) → LoadEnds d (with_pgd t (some root)) load
        → ExecEnds d s (elim load [
          | failed t' ↦ undo d.fuel mm root t'
          | halted ↦ halted
          | looped ↦ looped
          | running entry stack mm' t' ↦ running entry stack mm' t'
        ])
    unfolding undo
    after t locked (failed t') ends = give_up-ExecEnds mm _ (record {
      counter = ends.counter ∙ locked.counter;
      current = ends.current ∙ locked.current;
      kernel_pgd = ends.kernel_pgd ∙ locked.kernel_pgd;
      pgd = λ n.
          updated t'.sched.pgd (with_pgd t (some root)).pgd t'.sched.current t.current n none
            (ends.pgd n) ends.current
          ∙ updated (with_pgd t (some root)).pgd (with_pgd s (some root)).pgd t.current s.current n
              none
              (updated t.pgd s.pgd t.current s.current n (some root) (locked.pgd n) locked.current)
              locked.current
          ∙ restored s.pgd s.current n (some root) alone;
    })
    after t locked halted ends = tt
    after t locked looped ends = ends
    after t locked (running entry stack mm' t') ends = (
      alone,
      (
        root,
        made,
        record {
          counter = ends.counter ∙ omega (arith, locked.counter);
          current = ends.current ∙ locked.current;
          kernel_pgd = ends.kernel_pgd ∙ locked.kernel_pgd;
          pgd = λ n.
              ends.pgd n
              ∙ updated t.pgd s.pgd t.current s.current n (some root) (locked.pgd n) locked.current;
        },
      ),
    )

  exec_in-ExecEnds :
      (filename : List ℕ) (mm : ℕ) (h : Heap) (t : Sched)
      → s.pgd s.current ≡ none
      → Locked s t
      → ExecEnds d s (exec_in d filename mm (record { heap = h; sched = t }))
  unfolding exec_in
  exec_in-ExecEnds filename mm h t alone locked =
      let root = (mm_dup_pgd h.frames t.kernel_pgd).1 in
      elim (Bool-cases (root == 0)) [
        | inl short ↦ rw short (give_up-ExecEnds mm _ locked)
        | inr made ↦ rw made (
            after alone root (ground arith) filename mm t locked _ (
              load_elf-LoadEnds d (with_pgd t (some root)) (omega (arith, locked.counter)) filename
                (record { pgd = root; elf_content = 0; mmap = [] })
                (record h { frames = (mm_dup_pgd h.frames t.kernel_pgd).0 })))
      ]

  -- With the counter of masked interrupts below 2 ^ 32: where `kernel_exec` ends with -1, the lock of the
  -- scheduler and the address spaces of all tasks are as they were; where it enters the program, the lock
  -- is as it was, and its task, which had no address space, has one. Nothing is said of the other ends, a
  -- panic and a run without enough fuel.
  pub kernel_exec-ends :
      (filename : List ℕ) (h : Heap)
      → ExecEnds d s (kernel_exec d filename (record { heap = h; sched = s }))
  unfolding kernel_exec
  kernel_exec-ends filename h =
      let locked = lock_scheduler-Same s in
      let mm = (kmalloc mm_size h (lock_scheduler s)).0.0 in
      let given = kmalloc-Same mm_size h (lock_scheduler s) (omega (arith, locked.counter)) in
      let still : Locked s (kmalloc mm_size h (lock_scheduler s)).1 = record {
        counter = given.counter ∙ locked.counter;
        current = given.current ∙ locked.current;
        kernel_pgd = given.kernel_pgd ∙ locked.kernel_pgd;
        pgd = λ n. given.pgd n ∙ locked.pgd n;
      } in
      elim (Option-cases (s.pgd s.current)) [
        | inr (root, e) ↦ rw (ExecEnds, e) (unlocked (lock_scheduler s) locked)
        | inl e ↦ elim (Bool-cases (mm == null)) [
          | inl short ↦ rw (ExecEnds, e, short) (unlocked _ still)
          | inr enough ↦ rw (kernel_exec, e, enough) (exec_in-ExecEnds filename mm _ _ e still)
        ]
      ]
