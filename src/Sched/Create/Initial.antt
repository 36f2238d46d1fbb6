-- ===== src/Sched/Create/Initial.antt =====
-- The state that `init_scheduler` sets up.
use swallow_os.Prelude.{
  ℕ, ◌+◌, ◌^◌, ◌≡◌, ◌≢◌, ◌<◌, refl, sym, ◌∙◌, subst, [], ◌∷◌, arith, inl, inr, ◌⊎◌,
}
use swallow_os.Frames.Alloc.{IsValid, FreeRun, found, full, alloc_pages-FirstFit}
use swallow_os.Frames.Free.{Claimed-IsValid}
use swallow_os.Links.{null}
use swallow_os.Links.Ring.{init_list_head-IsRing}
use swallow_os.Sched.State.{Sched}
use swallow_os.Sched.Holds.{Tasks, IsSched}
use swallow_os.Sched.Create.{Kernel, create_task, init_idle, pause_clean, init_scheduler}
use swallow_os.Sched.Create.Made.{create_task-Made}

abbrev pub no_tasks : Tasks
no_tasks = record { ready = []; paused = []; sleeping = []; terminated = [] }

-- The queues before the scheduler is set up.
pub record AllNull (s : Sched) : Type 0 where
  pub ready_null : s.ready ≡ null
  pub paused_null : s.paused ≡ null
  pub sleeping_null : s.sleeping ≡ null
  pub terminated_null : s.terminated ≡ null

pause_clean-IsSched :
    (k : Kernel) (clean : ℕ)
    → IsSched k.sched (record no_tasks { ready = clean ∷ [] })
    → clean ≢ null
    → IsSched (pause_clean k clean).sched (record no_tasks { paused = clean ∷ [] })
unfolding pause_clean
pause_clean-IsSched k clean h there = record {
  ready_queue = refl;
  paused_queue = (refl, ground arith, init_list_head-IsRing k.sched.links clean);
  sleeping_queue = h.sleeping_queue;
  terminated_queue = h.terminated_queue;
  apart = λ n. ground (arith, h.apart n);
  idle_out = ground (arith, h.idle_out);
}

module _ (cr3 work task_start_up idle clean : ℕ) (k : Kernel) (nothing : AllNull k.sched)
    (valid : IsValid k.frames) (above : 0 < k.frames.startframe) where
  init_idle-frames :
      IsValid (init_idle cr3 idle k).frames × (0 < (init_idle cr3 idle k).frames.startframe)
  unfolding init_idle
  init_idle-frames = elim (alloc_pages-FirstFit valid {n = 10} (omega arith)) [
    | full e none_free ↦ rw e (valid, above)
    | found i le c first ↦ (Claimed-IsValid valid c, omega (arith, c.same_start))
  ]

  init_idle-IsSched : IsSched (init_idle cr3 idle k).sched no_tasks
  unfolding init_idle
  init_idle-IsSched = record {
    ready_queue = nothing.ready_null;
    paused_queue = nothing.paused_null;
    sleeping_queue = nothing.sleeping_null;
    terminated_queue = nothing.terminated_null;
    apart = λ n. omega arith;
    idle_out = refl;
  }

  -- On a valid allocator whose frames do not begin at 0, with addresses of 64 bits, and for a clean-up task
  -- that is not null and not the idle task: from empty queues, `init_scheduler` ends with the idle task running and the clean-up task as the one
  -- task in a queue, that of the paused ones; or ten frames in a row were not left for its stack.
  pub init_scheduler-IsSched :
      clean ≢ null
      → clean ≢ idle
      → work < 2 ^ 64
      → task_start_up < 2 ^ 64
      → let k' = init_scheduler cr3 work task_start_up idle clean k in
        ((k'.sched.clean ≡ clean)
          × (k'.sched.current ≡ k'.sched.idle)
          × IsSched k'.sched (record no_tasks { paused = clean ∷ [] }))
        ⊎ ((k'.sched.clean ≡ null)
            × ((j : ℕ)
                → j + 10 < (init_idle cr3 idle k).frames.npages
                → ¬ (FreeRun (init_idle cr3 idle k).frames j 10)))
  unfolding init_scheduler pause_clean
  init_scheduler-IsSched there other small small' =
      let (valid', above') = init_idle-frames in
      let at : clean ≢ (init_idle cr3 idle k).sched.idle = unfold init_idle in other in
      elim (create_task-Made work task_start_up clean (init_idle cr3 idle k) no_tasks
        init_idle-IsSched valid' above' small small' refl there at) [
          | inr (e, h, none_free) ↦ inr (e, none_free)
          | inl (e, made) ↦ inl (
            e,
            made.same_current ∙ sym made.same_idle,
            subst
                (λ task.
                  IsSched
                    (pause_clean (create_task work task_start_up clean (init_idle cr3 idle k)).0
                      task).sched
                    (record no_tasks { paused = clean ∷ [] }))
                (sym e)
                (pause_clean-IsSched (create_task work task_start_up clean (init_idle cr3 idle k)).0
                  clean made.queues there),
          )
        ]
