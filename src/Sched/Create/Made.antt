-- ===== src/Sched/Create/Made.antt =====
-- What a new task is: in the ready queue, on a stack of its own.
use swallow_os.Prelude.{
  ℕ, ◌+◌, ◌-◌, ◌*◌, ◌^◌, ◌≡◌, ◌≢◌, ◌≤◌, ◌<◌, refl, sym, ◌∙◌, ◌==◌, false, ==_refl, subst, [], ◌∷◌,
  ◌++◌, arith, inl, inr, ◌⊎◌,
}
use swallow_os.Prelude.Words.{sub64}
use swallow_os.Frames.{alloc_pages, page_size}
use swallow_os.Frames.Alloc.{IsValid, Claimed, FreeRun, found, full, alloc_pages-FirstFit}
use swallow_os.PageTables.{read64, write64}
use swallow_os.PageTables.Entries.{read64-write64, read64-other}
use swallow_os.Links.{Links, null}
use swallow_os.Links.Ring.{SameOutside}
use swallow_os.Links.Queue.{IsQueue-frame}
use swallow_os.Sched.State.{ready, Sched}
use swallow_os.Sched.Holds.{Tasks, hits, Holds, IsSched, enqueue_ready}
use swallow_os.Sched.Create.{
  Kernel, clear_task, stack_top, push_stack, start_frame, start_task, create_task,
}

-- The queues stay as they are where only a task changes that is in none.
Holds-frame :
    {l k : Links} {r p s t i : ℕ} {q : Tasks} (n : ℕ)
    → SameOutside (n ∷ []) l k
    → hits n q ≡ 0
    → Holds l r p s t i q
    → Holds k r p s t i q
Holds-frame {l} {k} {r} {p} {s} {t} {i} {q} n same out h = record {
  ready_queue = IsQueue-frame l k r q.ready (n ∷ []) same (λ m e. ground arith) h.ready_queue;
  paused_queue = IsQueue-frame l k p q.paused (n ∷ []) same (λ m e. ground arith) h.paused_queue;
  sleeping_queue =
      IsQueue-frame l k s q.sleeping (n ∷ []) same (λ m e. ground arith) h.sleeping_queue;
  terminated_queue =
      IsQueue-frame l k t q.terminated (n ∷ []) same (λ m e. ground arith) h.terminated_queue;
  apart = h.apart;
  idle_out = h.idle_out;
}

clear_task-IsSched :
    (s : Sched) (n : ℕ) (q : Tasks) → hits n q ≡ 0 → IsSched s q → IsSched (clear_task s n) q
unfolding clear_task
clear_task-IsSched s n q out h = Holds-frame n (λ m e. ground arith) out h

-- A stack as a new task starts on it: the flags, the start-up function, and the function of the task.
pub record Frame (mem : ℕ → ℕ) (top rsp ent task_start_up : ℕ) : Type 0 where
  pub pointer : rsp + 24 ≡ top
  pub flags : read64 mem rsp ≡ 0x202
  pub start_up : read64 mem (rsp + 8) ≡ task_start_up
  pub entry : read64 mem (rsp + 16) ≡ ent

start_frame-Frame :
    (ent task_start_up : ℕ) (mem : ℕ → ℕ) (top : ℕ)
    → ent < 2 ^ 64
    → task_start_up < 2 ^ 64
    → 24 ≤ top
    → top < 2 ^ 64
    → Frame
        (start_frame ent task_start_up mem top).0
        top
        (start_frame ent task_start_up mem top).1
        ent
        task_start_up
unfolding start_frame push_stack
start_frame-Frame ent task_start_up mem top small small' lo hi =
    let e1 : sub64 top 8 ≡ top - 8 = omega arith in
    let e2 : sub64 (top - 8) 8 ≡ top - 16 = omega arith in
    let e3 : sub64 (top - 16) 8 ≡ top - 24 = omega arith in
    let a2 : top - 24 + 8 ≡ top - 16 = omega arith in
    let a1 : top - 24 + 16 ≡ top - 8 = omega arith in
    let m1 = write64 mem (top - 8) ent in
    let m2 = write64 m1 (top - 16) task_start_up in
    rw (e1, e2, e3)
      (record {
        pointer = omega arith;
        flags = read64-write64 m2 (top - 24) 0x202 (omega arith);
        start_up = rw a2 (
            read64-other m2 (top - 24) (top - 16) 0x202 (omega arith)
            ∙ read64-write64 m1 (top - 16) task_start_up small');
        entry = rw a1 (
            read64-other m2 (top - 24) (top - 8) 0x202 (omega arith)
            ∙ read64-other m1 (top - 16) (top - 8) task_start_up (omega arith)
            ∙ read64-write64 mem (top - 8) ent small);
      })

-- A task that was made: it is ready, behind the others, and starts on ten pages that were free.
pub record Made (k k' : Kernel) (q : Tasks) (task ent task_start_up : ℕ) : Type 0 where
  pub queues : IsSched k'.sched (record q { ready = q.ready ++ task ∷ [] })
  pub is_ready : k'.sched.state task ≡ ready
  pub same_current : k'.sched.current ≡ k.sched.current
  pub same_idle : k'.sched.idle ≡ k.sched.idle
  pub first : ℕ
  pub claimed : Claimed k.frames 10 first (alloc_pages k.frames 10).0 (k'.stack0 task)
  pub frame :
      Frame k'.frames.mem
        (k.frames.startframe + (first + 10) * page_size)
        (k'.rsp0 task)
        ent
        task_start_up

module _ (ent task_start_up task : ℕ) (k : Kernel) (q : Tasks) (holds : IsSched k.sched q)
    (valid : IsValid k.frames) (above : 0 < k.frames.startframe) (small : ent < 2 ^ 64)
    (small' : task_start_up < 2 ^ 64) (out : hits task q ≡ 0) (there : task ≢ null)
    (other : task ≢ k.sched.idle) where
  made :
      (i : ℕ)
      → Claimed k.frames 10 i (alloc_pages k.frames 10).0 (alloc_pages k.frames 10).1
      → Made k
          (start_task ent task_start_up
            (record k { sched = clear_task k.sched task; frames = (alloc_pages k.frames 10).0 })
            task
            (alloc_pages k.frames 10).1)
          q
          task
          ent
          task_start_up
  unfolding start_task clear_task
  made i c =
      let pa = (alloc_pages k.frames 10).1 in
      let mem = (alloc_pages k.frames 10).0.mem in
      let cleared = clear_task-IsSched k.sched task q out holds in
      let top = k.frames.startframe + (i + 10) * page_size in
      let at : stack_top pa ≡ top = omega (arith, c.page, c.npages, c.in_range, valid.fits) in
      let frame : Frame (start_frame ent task_start_up mem top).0 top
          (start_frame ent task_start_up mem top).1 ent task_start_up =
        start_frame-Frame ent task_start_up mem top small small' (omega arith)
          (omega (arith, c.in_range, valid.fits)) in
      record {
        queues = enqueue_ready cleared task out there other;
        is_ready = rw (==_refl task) refl;
        same_current = refl;
        same_idle = refl;
        first = i;
        claimed = rw (==_refl task) c;
        frame = rw (==_refl task) (
            subst
              (λ t.
                Frame (start_frame ent task_start_up mem t).0 top
                  (start_frame ent task_start_up mem t).1 ent task_start_up)
              (sym at) frame);
      }

  -- On a valid allocator whose frames do not begin at 0, with addresses of 64 bits, and for a task that is
  -- not null, not the idle task and in no queue: a task is made where ten frames in a row are free, and is the last one that is ready. Else null is
  -- returned, and the queues stay as they are.
  pub create_task-Made :
      let (k', new) = create_task ent task_start_up task k in
      ((new ≡ task) × Made k k' q task ent task_start_up)
      ⊎ ((new ≡ null)
          × IsSched k'.sched q
          × ((j : ℕ) → j + 10 < k.frames.npages → ¬ (FreeRun k.frames j 10)))
  unfolding create_task
  create_task-Made =
      let given : (task == null) ≡ false = ground arith in
      elim (alloc_pages-FirstFit valid {n = 10} (omega arith)) [
        | full e none_free ↦
            rw (create_task, given, e)
              (inr (
                refl,
                clear_task-IsSched k.sched task q out holds,
                λ j lt. none_free j (omega arith) lt,
              ))
        | found i le c first ↦
            let page : ((alloc_pages k.frames 10).1.page == 0) ≡ false = ground (arith, c.page) in
            rw (create_task, given, page) (inl (refl, made i c))
      ]
