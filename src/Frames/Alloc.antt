-- ===== src/Frames/Alloc.antt =====
-- `alloc_pages` is a first-fit search.
use swallow_os.Prelude.{
  ℕ, zero, suc, ◌+◌, ◌-◌, ◌*◌, ◌^◌, ◌≤◌, ◌<◌, ◌≡◌, ◌≢◌, refl, ◌&&◌, ◌||◌, arith, ltb, leb, ◌==◌,
  if◌then◌else◌, not, inl, inr, Bool, true, false, Bool-cases,
}
use swallow_os.Prelude.Words.{u32}
use swallow_os.Frames.{
  FrameMap, Frames, PageAlloc, no_pages, page_size, get_frame_map, fill, all_free,
  check_continuous_free_page, claim, alloc_from, alloc_pages,
}
use swallow_os.Frames.Bitmap.{get_frame_map-set_frames}

-- Indices and page offsets fit an `unsigned int`, and addresses 64 bits.
pub record IsValid (s : Frames) : Type 0 where
  pub few : s.npages ≤ 2 ^ 20
  pub fits : s.startframe + s.npages * page_size ≤ 2 ^ 64

-- The `n` frames from `i` on are free.
abbrev pub FreeRun : Frames → ℕ → ℕ → Type 0
FreeRun s i n = (k : ℕ) → i ≤ k → k < i + n → get_frame_map s.frame_map k ≡ 0

-- What `alloc_pages` did when it gave out the `n` frames from `i` on.
pub record Claimed (s : Frames) (n i : ℕ) (s' : Frames) (pa : PageAlloc) : Type 0 where
  pub in_range : i + n < s.npages
  pub free : FreeRun s i n
  pub page : pa.page ≡ s.startframe + i * page_size
  pub npages : pa.npages ≡ n
  pub marked :
      (j : ℕ)
      → get_frame_map s'.frame_map j
        ≡ (if leb i j && ltb j (i + n) then 1 else get_frame_map s.frame_map j)
  pub cleared :
      (a : ℕ) → s'.mem a ≡ (if leb pa.page a && ltb a (pa.page + page_size) then 0 else s.mem a)
  pub same_npages : s'.npages ≡ s.npages
  pub same_start : s'.startframe ≡ s.startframe

and_of_if : (a b : Bool) → (if a then b else false) ≡ true → (a ≡ true) × (b ≡ true)
and_of_if a b h = ground arith

false-true : (b : Bool) → b ≡ false → b ≡ true → ⊥
false-true b p q = cc

all_free_sound :
    (m : FrameMap) (start n i : ℕ)
    → start + i + n < 2 ^ 32
    → all_free m start i n ≡ true
    → (k : ℕ) → start + i ≤ k
    → k < start + i + n
    → get_frame_map m k ≡ 0
unfolding all_free
all_free_sound m start zero i h e k lo hi = absurd (omega arith)
all_free_sound m start (suc n) i h e k lo hi =
    let w : u32 (start + i) ≡ start + i = omega arith in
    let e' = rw w at e in
    let (now, later) = and_of_if (get_frame_map m (start + i) == 0) _ e' in
    elim (Bool-cases (k == start + i)) [
      | inl here ↦ ground arith
      | inr there ↦
          all_free_sound m start n (i + 1) (omega arith) later k (ground arith) (omega arith)
    ]

all_free_complete :
    (m : FrameMap) (start n i : ℕ)
    → start + i + n < 2 ^ 32
    → ((k : ℕ) → start + i ≤ k → k < start + i + n → get_frame_map m k ≡ 0)
    → all_free m start i n ≡ true
unfolding all_free
all_free_complete m start zero i h free = refl
all_free_complete m start (suc n) i h free =
    let w : u32 (start + i) ≡ start + i = omega arith in
    let now : get_frame_map m (start + i) ≡ 0 = free (start + i) (omega arith) (omega arith) in
    rw (w, now)
      (all_free_complete m start n (i + 1) (omega arith)
        (λ k lo hi. free k (omega arith) (omega arith)))

module _ {s : Frames} (v : IsValid s) where
  check_sound :
      (i n : ℕ)
      → i + n < 2 ^ 32
      → check_continuous_free_page s i n ≡ true
      → (i + n < s.npages) × FreeRun s i n
  unfolding check_continuous_free_page
  check_sound i n h e =
      let (at, run) =
        and_of_if (not (leb s.npages (i + n))) (all_free s.frame_map i 0 n) (ground arith) in
      (
        ground arith,
        λ k lo hi. all_free_sound s.frame_map i n 0 (omega arith) run k (omega arith) (omega arith),
      )

  check_complete :
      (i n : ℕ) → i + n < s.npages → FreeRun s i n → check_continuous_free_page s i n ≡ true
  unfolding check_continuous_free_page
  check_complete i n h free =
      let run =
        all_free_complete s.frame_map i n 0 (omega (arith, v.few))
          (λ k lo hi. free k (omega arith) (omega arith)) in
      ground arith

  -- Claiming a run of free frames.
  pub claim-Claimed :
      (i n : ℕ) → i + n < s.npages → FreeRun s i n → Claimed s n i (claim s i n).0 (claim s i n).1
  unfolding claim fill
  claim-Claimed i n h free = record {
    in_range = h;
    free = free;
    page = omega (arith, v.few, v.fits);
    npages = refl;
    marked = λ j. get_frame_map-set_frames n i 1 j s.frame_map (omega (arith, v.few));
    cleared = λ a. refl;
    same_npages = refl;
    same_start = refl;
  }

-- The outcome of a search from frame `i` on: the first run of `n` free frames is claimed, or there
-- is none and nothing changes.
pub data FirstFit (s : Frames) (n i : ℕ) : Frames × PageAlloc → Type 0 where
  found :
      {r : Frames × PageAlloc} (k : ℕ)
      → i ≤ k
      → Claimed s n k r.0 r.1
      → ((j : ℕ) → i ≤ j → j < k → ¬ (FreeRun s j n))
      → FirstFit s n i r
  full :
      {r : Frames × PageAlloc}
      → r ≡ (s, no_pages)
      → ((j : ℕ) → i ≤ j → j + n < s.npages → ¬ (FreeRun s j n))
      → FirstFit s n i r

FirstFit-step :
    {s : Frames} {n i : ℕ} {r : Frames × PageAlloc}
    → (i + n < s.npages → ¬ (FreeRun s i n))
    → FirstFit s n (i + 1) r
    → FirstFit s n i r
FirstFit-step {s} {n} {i} not_here (found k le c first) = found k (omega arith) c λ j lo hi.
    elim (Bool-cases (j == i)) [
      | inl at ↦ let e : j ≡ i = ground arith in rw e (not_here (omega (arith, c.in_range)))
      | inr after ↦ first j (ground arith) hi
    ]
FirstFit-step {s} {n} {i} not_here (full e none_free) = full e λ j lo hi.
    elim (Bool-cases (j == i)) [
      | inl at ↦ let e' : j ≡ i = ground arith in rw e' (not_here (omega arith))
      | inr after ↦ none_free j (ground arith) hi
    ]

module _ {s : Frames} (v : IsValid s) {n : ℕ} where
  alloc_from-FirstFit :
      (left i : ℕ) → i + left + n ≡ s.npages + 1 → FirstFit s n i (alloc_from s n left i)
  unfolding alloc_from
  alloc_from-FirstFit zero i e = full refl λ j lo hi. absurd (omega arith)
  alloc_from-FirstFit (suc left) i e =
      let w : u32 (i + 1) ≡ i + 1 = omega (arith, v.few) in
      elim (Bool-cases (check_continuous_free_page s i n)) [
        | inl fits ↦
            let (lt, free) = check_sound v i n (omega (arith, v.few)) fits in
            rw fits
              (found i (omega arith) (claim-Claimed v i n lt free) λ j lo hi. absurd (omega arith))
        | inr taken ↦
            rw (w, taken)
              (FirstFit-step
                (λ lt free. absurd (
                  false-true (check_continuous_free_page s i n) taken
                    (check_complete v i n lt free)))
                (alloc_from-FirstFit left (i + 1) (omega arith)))
      ]

  -- On a valid allocator and for `n ≢ 0`, `alloc_pages` claims the first run of `n` free frames
  -- `k .. k + n` with `k + n < npages`: it returns their address `startframe + k * 4096` and the
  -- count, marks exactly these frames and clears exactly the first page; or there is no such run,
  -- it returns `{0, 0}` and changes nothing.
  pub alloc_pages-FirstFit : n ≢ 0 → FirstFit s n 0 (alloc_pages s n)
  unfolding alloc_pages
  alloc_pages-FirstFit ne = elim (Bool-cases (leb s.npages n || n == 0)) [
    | inl small ↦ rw small (full refl λ j lo hi. absurd (ground arith))
    | inr large ↦ rw large (alloc_from-FirstFit (s.npages - n + 1) 0 (ground arith))
  ]
