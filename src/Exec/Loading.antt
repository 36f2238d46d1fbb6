-- ===== src/Exec/Loading.antt =====
-- How `load_elf` leaves the scheduler.
use swallow_os.Prelude.{
  ℕ, ◌+◌, ◌-◌, ◌^◌, ◌≡◌, ◌<◌, refl, ◌∙◌, ◌==◌, Bool-cases, List, Option, Option-cases, none, some,
  arith, inl, inr,
}
use swallow_os.Prelude.Words.{u32, u64}
use swallow_os.Fat.Directory.{fat12_get_file_size, fat12_read_file}
use swallow_os.PageTables.{Mm}
use swallow_os.ElfLoader.{Load, refused, crashed, entered, do_load_elf}
use swallow_os.Links.{null}
use swallow_os.Malloc.{Heap, clear}
use swallow_os.Malloc.Alloc.{kmalloc}
use swallow_os.Sched.State.{Sched}
use swallow_os.Sched.{unlock_scheduler}
use swallow_os.Exec.{
  System, Drive, Exec, failed, halted, looped, running, discard, with_file, run_file, read_program,
  load_elf,
}
use swallow_os.Exec.Locks.{
  Same, RanOut, Same-refl, Same-then, unlock_scheduler-Same, kmalloc-Same, kfree-Same,
}

-- How `load_elf` leaves the scheduler: as it was where it fails, and unlocked where the program runs.
abbrev pub LoadEnds : Drive → Sched → Exec → Type 0
LoadEnds d s (failed t) = Same s t.sched s.irq_disable_counter
LoadEnds d s halted = Unit {0}
LoadEnds d s looped = RanOut d
LoadEnds d s (running entry stack mm t) = Same s t.sched (u32 (s.irq_disable_counter + 2 ^ 32 - 1))

module _ (d : Drive) (s : Sched) (small : s.irq_disable_counter < 2 ^ 32) where
  discard-LoadEnds :
      (p : ℕ) (t : System)
      → Same s t.sched s.irq_disable_counter
      → LoadEnds d s (discard d.fuel p t)
  unfolding discard
  discard-LoadEnds p t same =
      elim (kfree-Same d.fuel p t.heap t.sched (omega (arith, same.counter))) [
        | inl e ↦ rw (LoadEnds, e) (inl (p, t.heap, t.sched, e))
        | inr (h, s', e, freed) ↦
            rw (LoadEnds, e)
              (record {
                counter = freed.counter ∙ same.counter;
                current = freed.current ∙ same.current;
                kernel_pgd = freed.kernel_pgd ∙ same.kernel_pgd;
                pgd = λ n. freed.pgd n ∙ same.pgd n;
              })
      ]

  run_file-LoadEnds :
      (p : ℕ) (mm : Mm) (t : System)
      → Same s t.sched s.irq_disable_counter
      → LoadEnds d s (run_file d p mm t)
  unfolding run_file
  run_file-LoadEnds p mm t same = end (do_load_elf d.enough p mm t.heap.frames)
    where
      end :
          (load : Load)
          → LoadEnds d s (elim load [
            | refused mm' ↦ discard d.fuel p t
            | crashed ↦ halted
            | entered entry stack mm' frames ↦ running entry stack mm' (record {
              heap = record t.heap { frames = frames };
              sched = unlock_scheduler t.sched;
            })
          ])
      end (refused mm') = discard-LoadEnds p t same
      end crashed = tt
      end (entered entry stack mm' frames) =
          let unlocked = Same-then same (unlock_scheduler-Same t.sched) in
          record {
            counter = unlocked.counter ∙ omega (arith, same.counter);
            current = unlocked.current;
            kernel_pgd = unlocked.kernel_pgd;
            pgd = unlocked.pgd;
          }

  read_program-LoadEnds :
      (name : List ℕ) (size : ℕ) (mm : Mm) (h : Heap)
      → LoadEnds d s (read_program d name size mm (record { heap = h; sched = s }))
  unfolding read_program
  read_program-LoadEnds name size mm h =
      let p : ℕ = (kmalloc (u64 (size + 1)) h s).0.0 in
      let given : Heap = (kmalloc (u64 (size + 1)) h s).0.1 in
      let same = kmalloc-Same (u64 (size + 1)) h s small in
      elim (Bool-cases (p == null)) [
        | inl short ↦ rw short same
        | inr enough ↦
            let out : ℕ → ℕ = λ a. (clear given p size).frames.mem (p + a) in
            rw enough (
              read p given (kmalloc (u64 (size + 1)) h s).1 same
                (fat12_read_file d.fuel d.behind d.past d.disk d.fs name out size)
                (λ e. inr (name, out, size, e)))
      ]
    where
      read :
          (p : ℕ) (given : Heap) (s' : Sched)
          → Same s s' s.irq_disable_counter
          → (result : Option (Option ((ℕ → ℕ) × ℕ))) → (result ≡ none → RanOut d)
          → LoadEnds d s (elim result [
            | none ↦ looped
            | some none ↦ discard d.fuel p (record { heap = clear given p size; sched = s' })
            | some (some (file, outlen)) ↦
                run_file d p mm
                  (record { heap = with_file (clear given p size) p size file; sched = s' })
          ])
      read p given s' same none short = short refl
      read p given s' same (some none) short = discard-LoadEnds p _ same
      read p given s' same (some (some (file, outlen))) short = run_file-LoadEnds p mm _ same

  pub load_elf-LoadEnds :
      (name : List ℕ) (mm : Mm) (h : Heap)
      → LoadEnds d s (load_elf d name mm (record { heap = h; sched = s }))
  unfolding load_elf
  load_elf-LoadEnds name mm h = elim (Option-cases (fat12_get_file_size d.past d.disk d.fs name)) [
    | inl e ↦ rw (LoadEnds, e) (Same-refl s)
    | inr (size, e) ↦ elim (Bool-cases (size == 0)) [
      | inl empty ↦ rw (LoadEnds, e, empty) (Same-refl s)
      | inr held ↦ rw (LoadEnds, e, held) (read_program-LoadEnds name size mm h)
    ]
  ]
