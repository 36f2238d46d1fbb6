-- ===== src/PageTables/Walk.antt =====
-- The walk from the root of an address space to a page, as the processor does it, and what it takes for
-- `do_mmap` to complete one.
use swallow_os.Prelude.{
  ℕ, zero, suc, ◌+◌, ◌*◌, ◌%◌, ◌≡◌, ◌≢◌, ◌≤◌, ◌<◌, ◌==◌, if◌then◌else◌, List, [], ◌∷◌, Option, none,
  some, ◌⊎◌,
}
use swallow_os.Frames.{Frames, get_frame_map}
use swallow_os.PageTables.{
  page_addr, table_at, entry_at, pml4_index, pdptr_index, pd_index, pt_index,
}

-- The index of an address at each level, the root's first.
abbrev pub indices : ℕ → List ℕ
indices address =
    pml4_index address ∷ pdptr_index address ∷ pd_index address ∷ pt_index address ∷ []

-- The page that an entry leads to over the tables below, where every entry on the way is present.
unfoldable pub translate : (ℕ → ℕ) → List ℕ → ℕ → Option ℕ
translate mem [] entry = some (table_at entry)
translate mem (i ∷ is) entry =
    let next = entry_at mem (table_at entry) i in
    let rest = translate mem is next in if next % 2 == 0 then none else rest

-- Two pages do not overlap.
abbrev pub Apart : ℕ → ℕ → Type 0
Apart p q = (p + 4096 ≤ q) ⊎ (q + 4096 ≤ p)

abbrev pub ApartFrom : ℕ → List ℕ → Type 0
ApartFrom p [] = Unit {0}
ApartFrom p (q ∷ qs) = Apart p q × ApartFrom p qs

-- A page is in no frame that is free.
abbrev pub PageInUse : Frames → ℕ → Type 0
PageInUse s p =
    (k : ℕ) → k + 1 < s.npages → get_frame_map s.frame_map k ≡ 0 → Apart p (s.startframe + k * 4096)

-- As far as there are tables on the way, they are in use, no two of them overlap, and an entry is zero, or
-- it is present and leads somewhere.
abbrev pub InPlace : Frames → List ℕ → ℕ → List ℕ → Type 0
InPlace s [] entry seen = Unit {0}
InPlace s (i ∷ is) entry seen =
    let table = table_at entry in
    let next = entry_at s.mem table i in
    PageInUse s table
    × ApartFrom table seen
    × ((next ≡ 0) ⊎ ((page_addr next ≢ 0) × (next % 2 ≡ 1) × InPlace s is next (table ∷ seen)))

-- At least `n` frames are free, from `lo` on and without the last one.
abbrev pub Room : Frames → ℕ → ℕ → Type 0
Room s lo zero = Unit {0}
Room s lo (suc n) =
    (k : ℕ) × (lo ≤ k) × (k + 1 < s.npages) × (get_frame_map s.frame_map k ≡ 0) × Room s (k + 1) n
