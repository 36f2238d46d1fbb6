-- ===== src/Exec/Locks.antt =====
-- What `kmalloc` and `kfree` leave of the scheduler: all but the interrupt masks.
use swallow_os.Prelude.{
  ℕ, ◌+◌, ◌-◌, ◌^◌, ◌≡◌, ◌<◌, refl, ◌∙◌, Bool, true, false, List, Option, none, some, arith, inl,
  inr, ◌⊎◌,
}
use swallow_os.Prelude.Words.{u32}
use swallow_os.Fat.Directory.{fat12_read_file}
use swallow_os.Malloc.{Heap}
use swallow_os.Malloc.Alloc.{kmalloc}
use swallow_os.Malloc.Free.{kfree}
use swallow_os.Sched.State.{Sched}
use swallow_os.Sched.{lock_scheduler, unlock_scheduler}
use swallow_os.Exec.{Drive}

-- Only the counter of masked interrupts may differ, and is `irq` in the second state.
pub record Same (s s' : Sched) (irq : ℕ) : Type 0 where
  pub counter : s'.irq_disable_counter ≡ irq
  pub current : s'.current ≡ s.current
  pub kernel_pgd : s'.kernel_pgd ≡ s.kernel_pgd
  pub pgd : (n : ℕ) → s'.pgd n ≡ s.pgd n

-- Fewer rounds were granted than a loop of `kfree` or of reading a file needs.
abbrev pub RanOut : Drive → Type 0
RanOut d =
    ((mem : ℕ) × (h : Heap) × (s : Sched) × (kfree d.fuel mem h s ≡ none))
    ⊎ ((name : List ℕ) × (out : ℕ → ℕ) × (size : ℕ) × (fat12_read_file d.fuel d.behind d.past d.disk
            d.fs name out size
          ≡ none))

pub Same-refl : (s : Sched) → Same s s s.irq_disable_counter
Same-refl s = record { counter = refl; current = refl; kernel_pgd = refl; pgd = λ n. refl }

pub Same-then : {s t u : Sched} {i j : ℕ} → Same s t i → Same t u j → Same s u j
Same-then a b = record {
  counter = b.counter;
  current = b.current ∙ a.current;
  kernel_pgd = b.kernel_pgd ∙ a.kernel_pgd;
  pgd = λ n. b.pgd n ∙ a.pgd n;
}

pub unlock_scheduler-Same :
    (s : Sched) → Same s (unlock_scheduler s) (u32 (s.irq_disable_counter + 2 ^ 32 - 1))
unfolding unlock_scheduler
unlock_scheduler-Same s = record {
  counter = refl;
  current = refl;
  kernel_pgd = refl;
  pgd = λ n. refl;
}

pub lock_scheduler-Same : (s : Sched) → Same s (lock_scheduler s) (u32 (s.irq_disable_counter + 1))
unfolding lock_scheduler
lock_scheduler-Same s = record {
  counter = refl;
  current = refl;
  kernel_pgd = refl;
  pgd = λ n. refl;
}

-- A call that locks and unlocks.
unlock_scheduler-lock :
    (s : Sched)
    → s.irq_disable_counter < 2 ^ 32
    → Same s (unlock_scheduler (lock_scheduler s)) s.irq_disable_counter
unlock_scheduler-lock s small =
    let locked = lock_scheduler-Same s in
    let unlocked = unlock_scheduler-Same (lock_scheduler s) in
    let same = Same-then locked unlocked in
    record {
      counter = unlocked.counter ∙ omega (arith, locked.counter);
      current = same.current;
      kernel_pgd = same.kernel_pgd;
      pgd = same.pgd;
    }

pub kmalloc-Same :
    (size : ℕ) (h : Heap) (s : Sched)
    → s.irq_disable_counter < 2 ^ 32
    → Same s (kmalloc size h s).1 s.irq_disable_counter
unfolding kmalloc
kmalloc-Same size h s small = unlock_scheduler-lock s small

pub kfree-Same :
    (fuel mem : ℕ) (h : Heap) (s : Sched)
    → s.irq_disable_counter < 2 ^ 32
    → (kfree fuel mem h s ≡ none)
      ⊎ ((h' : Heap) × (s' : Sched) × (kfree fuel mem h s ≡ some (h', s'))
          × Same s s' s.irq_disable_counter)
unfolding kfree
kfree-Same fuel mem h s small = end _ _ _
  where
    end :
        (loop : Option Bool) (released merged : Heap)
        → let result : Option (Heap × Sched) = elim loop [
          | none ↦ none
          | some true ↦ some (released, unlock_scheduler (lock_scheduler s))
          | some false ↦ some (merged, unlock_scheduler (lock_scheduler s))
        ] in
          (result ≡ none)
          ⊎ ((h' : Heap) × (s' : Sched) × (result ≡ some (h', s'))
              × Same s s' s.irq_disable_counter)
    end none released merged = inl refl
    end (some true) released merged = inr (released, _, refl, unlock_scheduler-lock s small)
    end (some false) released merged = inr (merged, _, refl, unlock_scheduler-lock s small)
