-- ===== src/PageTables/Entries.antt =====
-- Entries of page tables in memory.
use swallow_os.Prelude.{
  ℕ, zero, suc, ◌+◌, ◌-◌, ◌*◌, ◌/◌, ◌%◌, ◌^◌, ◌≡◌, ◌≤◌, ◌<◌, refl, ◌∙◌, ap, ap₂, true, false, ◌&&◌,
  ltb, leb, ◌==◌, if◌then◌else◌, none, some, arith, inl, inr, ◌⊎◌,
}
use swallow_os.Prelude.Words.{u64, higher_half_offset}
use swallow_os.Frames.{Frames, alloc_pages, get_frame_map}
use swallow_os.Frames.Alloc.{IsValid, Claimed, FreeRun, found, full, alloc_pages-FirstFit}
use swallow_os.PageTables.{page_addr, bytes_value, read64, write64, get_physaddr, fill_entry}

module _ (mem : ℕ → ℕ) (a v : ℕ) where
  -- The byte `k` of the entry written.
  byte : (b k : ℕ) → b ≡ a + k → k < 8 → write64 mem a v b ≡ v / 2 ^ (8 * k) % 2 ^ 8
  unfolding write64
  byte b k at lt =
      let inside : (leb a b && ltb b (a + 8)) ≡ true = ground arith in
      let e : b - a ≡ k = omega arith in rw (inside, e) refl

  -- What is written is read back.
  pub read64-write64 : v < 2 ^ 64 → read64 (write64 mem a v) a ≡ v
  unfolding read64 bytes_value
  read64-write64 small =
      rw
        (
          byte a 0 (omega arith) (omega arith),
          byte (a + 1) 1 refl (omega arith),
          byte (a + 1 + 1) 2 (omega arith) (omega arith),
          byte (a + 1 + 1 + 1) 3 (omega arith) (omega arith),
          byte (a + 1 + 1 + 1 + 1) 4 (omega arith) (omega arith),
          byte (a + 1 + 1 + 1 + 1 + 1) 5 (omega arith) (omega arith),
          byte (a + 1 + 1 + 1 + 1 + 1 + 1) 6 (omega arith) (omega arith),
          byte (a + 1 + 1 + 1 + 1 + 1 + 1 + 1) 7 (omega arith) (omega arith),
        )
        (omega arith)

-- An entry apart from the one that is written stays.
pub read64-other :
    (mem : ℕ → ℕ) (a b v : ℕ)
    → (a + 8 ≤ b) ⊎ (b + 8 ≤ a)
    → read64 (write64 mem a v) b ≡ read64 mem b
unfolding read64 write64 bytes_value
read64-other mem a b v apart = ground arith

-- Where the page of an allocation stands in physical memory.
get_physaddr-page :
    (mem : ℕ → ℕ) (pml4 page : ℕ)
    → higher_half_offset < page
    → get_physaddr mem pml4 page ≡ page - higher_half_offset
unfolding get_physaddr
get_physaddr-page mem pml4 page lt =
    let test : ltb higher_half_offset page ≡ true = ground arith in rw test refl

pub bytes_value-same :
    (mem mem' : ℕ → ℕ) (b n : ℕ)
    → ((a : ℕ) → b ≤ a → a < b + n → mem' a ≡ mem a)
    → bytes_value mem' b n ≡ bytes_value mem b n
unfolding bytes_value
bytes_value-same mem mem' b zero same = refl
bytes_value-same mem mem' b (suc n) same =
    ap₂ (λ x y. x + 2 ^ 8 * y) (same b (omega arith) (omega arith))
      (bytes_value-same mem mem' (b + 1) n (λ a lo hi. same a (omega arith) (omega arith)))

-- What a page for an entry is: the frame `k`, free before and taken now; the entry leads to it and says
-- that it is present, writable and for users; the page behind it is all zero.
pub record Filled (s : Frames) (slot k : ℕ) (s' : Frames) : Type 0 where
  pub in_range : k + 1 < s.npages
  pub free : FreeRun s k 1
  pub marked :
      (j : ℕ)
      → get_frame_map s'.frame_map j
        ≡ (if leb k j && ltb j (k + 1) then 1 else get_frame_map s.frame_map j)
  pub same_npages : s'.npages ≡ s.npages
  pub same_start : s'.startframe ≡ s.startframe
  pub leads : page_addr (read64 s'.mem slot) + higher_half_offset ≡ s.startframe + k * 4096
  pub flags : read64 s'.mem slot % 2 ^ 12 ≡ 7
  pub same :
      (b : ℕ)
      → ((slot + 8 ≤ b) ⊎ (b + 8 ≤ slot))
      → ((s.startframe + k * 4096 + 4096 ≤ b) ⊎ (b + 8 ≤ s.startframe + k * 4096))
      → read64 s'.mem b ≡ read64 s.mem b
  pub zeroed :
      (b : ℕ)
      → ((slot + 8 ≤ b) ⊎ (b + 8 ≤ slot))
      → s.startframe + k * 4096 ≤ b
      → b + 8 ≤ s.startframe + k * 4096 + 4096
      → read64 s'.mem b ≡ 0

module _ (s : Frames) (valid : IsValid s) (upper : higher_half_offset < s.startframe)
    (aligned : s.startframe % 4096 ≡ 0) where
  entry_value :
      (k : ℕ)
      → k + 1 < s.npages
      → let v = u64 (s.startframe + k * 4096 - higher_half_offset + 7) in
        (v ≡ s.startframe + k * 4096 - higher_half_offset + 7)
        × (page_addr v + higher_half_offset ≡ s.startframe + k * 4096)
        × (v % 2 ^ 12 ≡ 7)
  entry_value k lt = let fits = valid.fits in (omega arith, omega arith, omega arith)

  read64-cleared :
      (mem mem' : ℕ → ℕ) (page b : ℕ)
      → ((a : ℕ) → mem' a ≡ (if leb page a && ltb a (page + 4096) then 0 else mem a))
      → ((page + 4096 ≤ b) ⊎ (b + 8 ≤ page))
      → read64 mem' b ≡ read64 mem b
  unfolding read64
  read64-cleared mem mem' page b cleared apart = bytes_value-same mem mem' b 8 (λ a lo hi.
      let outside : (leb page a && ltb a (page + 4096)) ≡ false = ground arith in
      cleared a ∙ rw outside refl)

  read64-zeroed :
      (mem mem' : ℕ → ℕ) (page b : ℕ)
      → ((a : ℕ) → mem' a ≡ (if leb page a && ltb a (page + 4096) then 0 else mem a))
      → page ≤ b
      → b + 8 ≤ page + 4096
      → read64 mem' b ≡ 0
  unfolding read64
  read64-zeroed mem mem' page b cleared lo hi =
      bytes_value-same (λ a. 0) mem' b 8
        (λ a lo' hi'.
          let within : (leb page a && ltb a (page + 4096)) ≡ true = ground arith in
          cleared a ∙ rw within refl)

  filled :
      (pml4 slot k : ℕ)
      → Claimed s 1 k (alloc_pages s 1).0 (alloc_pages s 1).1
      → (s' : Frames) × (frame : ℕ) × (fill_entry s pml4 slot
          ≡ some (s', s.startframe + frame * 4096))
        × Filled s slot frame s'
  unfolding fill_entry
  filled pml4 slot k c =
      let given : Frames = (alloc_pages s 1).0 in
      let page : ℕ = (alloc_pages s 1).1.page in
      let some_pages : ((alloc_pages s 1).1.npages == 0) ≡ false = ground (arith, c.npages) in
      let physical : get_physaddr given.mem pml4 page ≡ page - higher_half_offset =
        get_physaddr-page given.mem pml4 page (omega (arith, c.page)) in
      let v : ℕ = u64 (get_physaddr given.mem pml4 page + 7) in
      let value : v ≡ u64 (s.startframe + k * 4096 - higher_half_offset + 7) =
        ap (λ z. u64 (z + 7)) (physical ∙ ap (λ z. z - higher_half_offset) c.page) in
      let back : read64 (write64 given.mem slot v) slot
          ≡ u64 (s.startframe + k * 4096 - higher_half_offset + 7) =
        read64-write64 given.mem slot v (omega arith) ∙ value in
      let (plain, leads, flags) = entry_value k c.in_range in
      (
        record given { mem = write64 given.mem slot v },
        k,
        rw (fill_entry, some_pages)
            (ap (λ z. some (record given { mem = write64 given.mem slot v }, z)) c.page),
        record {
          in_range = c.in_range;
          free = c.free;
          marked = c.marked;
          same_npages = c.same_npages;
          same_start = c.same_start;
          leads = ap (λ z. page_addr z + higher_half_offset) back ∙ leads;
          flags = ap (λ z. z % 2 ^ 12) back ∙ flags;
          same = λ b apart outside.
              read64-other given.mem slot b v apart
              ∙ read64-cleared s.mem given.mem page b c.cleared (omega (arith, outside, c.page));
          zeroed = λ b apart lo hi.
              read64-other given.mem slot b v apart
              ∙ read64-zeroed s.mem given.mem page b c.cleared (omega (arith, lo, c.page))
                  (omega (arith, hi, c.page));
        },
      )

  -- Filling an entry with a new page fails exactly where no frame but the last one is free, and else
  -- takes a frame for it and changes no other entry outside that frame.
  pub fill_entry-Filled :
      (pml4 slot : ℕ)
      → ((fill_entry s pml4 slot ≡ none) × ((j : ℕ) → j + 1 < s.npages → ¬ (FreeRun s j 1)))
        ⊎ ((s' : Frames) × (k : ℕ) × (fill_entry s pml4 slot ≡ some (s', s.startframe + k * 4096))
            × Filled s slot k s')
  unfolding fill_entry
  fill_entry-Filled pml4 slot = elim (alloc_pages-FirstFit valid {n = 1} (omega arith)) [
    | full e none_free ↦ rw (fill_entry, e) (inl (refl, λ j lt. none_free j (omega arith) lt))
    | found k le c first ↦ inr (filled pml4 slot k c)
  ]
