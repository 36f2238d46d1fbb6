-- ===== src/PageTables/Levels.antt =====
-- What one step of `do_mmap` does to the walk from the root: it completes one level of it.
use swallow_os.Prelude.{
  ℕ, zero, suc, ◌+◌, ◌*◌, ◌%◌, ◌^◌, ◌≡◌, ◌≢◌, ◌≤◌, ◌<◌, refl, sym, ap, ◌∙◌, subst, ◌&&◌, ltb, leb,
  ◌==◌, if◌then◌else◌, Bool, true, false, Bool-cases, List, [], ◌∷◌, some, arith, inl, inr, ◌⊎◌,
}
use swallow_os.Prelude.Words.{u64, higher_half_offset}
use swallow_os.Frames.{Frames, get_frame_map}
use swallow_os.Frames.Alloc.{IsValid}
use swallow_os.PageTables.{page_addr, table_at, slot_in, entry_at, read64, fill_entry, ensure_table}
use swallow_os.PageTables.Entries.{Filled, fill_entry-Filled}
use swallow_os.PageTables.Walk.{Apart, ApartFrom, PageInUse, InPlace, Room}

-- What `PageTables.Entries` asks of the allocator.
pub record IsReady (s : Frames) : Type 0 where
  pub valid : IsValid s
  pub in_upper_half : higher_half_offset < s.startframe
  pub aligned : s.startframe % 4096 ≡ 0

abbrev pub AllInUse : Frames → List ℕ → Type 0
AllInUse s [] = Unit {0}
AllInUse s (p ∷ ps) = PageInUse s p × AllInUse s ps

abbrev pub Small : List ℕ → Type 0
Small [] = Unit {0}
Small (i ∷ is) = (i < 512) × Small is

-- What a step changes: words of one table, and of pages that were free.
pub record Step (s s' : Frames) (table : ℕ) : Type 0 where
  pub ready : IsReady s'
  pub in_use : (p : ℕ) → PageInUse s p → PageInUse s' p
  pub words :
      (p b : ℕ)
      → PageInUse s p
      → Apart p table
      → p ≤ b
      → b + 8 ≤ p + 4096
      → read64 s'.mem b ≡ read64 s.mem b

pub Step-refl : {s : Frames} (table : ℕ) → IsReady s → Step s s table
Step-refl table ready = record {
  ready = ready;
  in_use = λ p h. h;
  words = λ p b h apart lo hi. refl;
}

pub slot_in-table : (entry i : ℕ) → i < 512 → slot_in entry i ≡ table_at entry + 8 * i
unfolding slot_in table_at
slot_in-table entry i lt = omega arith

pub entry_at-slot :
    (mem : ℕ → ℕ) (entry i : ℕ)
    → i < 512
    → entry_at mem (table_at entry) i ≡ read64 mem (slot_in entry i)
unfolding slot_in table_at
entry_at-slot mem entry i lt = ap (read64 mem) (omega arith)

Room-less : (s : Frames) (n lo : ℕ) → Room s lo (suc n) → Room s lo n
Room-less s zero lo room = tt
Room-less s (suc n) lo (k, le, lt, free, room) = (k, le, lt, free, Room-less s n (k + 1) room)

module _ (s s' : Frames) (j : ℕ) (same : s'.npages ≡ s.npages)
    (marked : (k : ℕ)
      → get_frame_map s'.frame_map k
        ≡ (if leb j k && ltb k (j + 1) then 1 else get_frame_map s.frame_map k)) where
  still_free : (k : ℕ) → k ≢ j → get_frame_map s'.frame_map k ≡ get_frame_map s.frame_map k
  still_free k ne = ground (arith, marked k)

  Room-behind : (n lo : ℕ) → j < lo → Room s lo n → Room s' lo n
  Room-behind zero lo lt room = tt
  Room-behind (suc n) lo lt (k, le, in_range, free, room) = (
    k,
    le,
    omega (arith, in_range, same),
    still_free k (omega arith) ∙ free,
    Room-behind n (k + 1) (omega arith) room,
  )

  Room-from : (n lo lo' : ℕ) → lo ≤ lo' → Room s' lo' n → Room s' lo n
  Room-from zero lo lo' le room = tt
  Room-from (suc n) lo lo' le (k, le', lt, free, rest) = (k, omega arith, lt, free, rest)

  -- A frame is taken, and all but one of those that were free are.
  Room-taken : (n lo : ℕ) → Room s lo (suc n) → Room s' lo n
  Room-taken zero lo room = tt
  Room-taken (suc n) lo (k, le, in_range, free, room) = elim (Bool-cases (k == j)) [
    | inl here ↦
        Room-from (suc n) lo (k + 1) (omega arith) (Room-behind (suc n) (k + 1) (ground arith) room)
    | inr there ↦ (
      k,
      le,
      omega (arith, in_range, same),
      still_free k (ground arith) ∙ free,
      Room-taken n (k + 1) room,
    )
  ]

-- An entry of a table is filled, in a state with a frame left.
module _ {s s' : Frames} {slot k : ℕ} (ready : IsReady s) (f : Filled s slot k s') where
  page_of : ℕ
  page_of = s.startframe + k * 4096

  free_before : get_frame_map s.frame_map k ≡ 0
  free_before = f.free k (omega arith) (omega arith)

  filled-IsReady : IsReady s'
  filled-IsReady = record {
    valid = record {
      few = omega (arith, ready.valid.few, f.same_npages);
      fits = omega (arith, ready.valid.fits, f.same_npages, f.same_start);
    };
    in_upper_half = omega (arith, ready.in_upper_half, f.same_start);
    aligned = ap (λ x. x % 4096) f.same_start ∙ ready.aligned;
  }

  was_free :
      (j : ℕ) → get_frame_map s'.frame_map j ≡ 0 → (get_frame_map s.frame_map j ≡ 0) × (j ≢ k)
  was_free j free = (ground (arith, f.marked j), ground (arith, f.marked j))

  filled-PageInUse : (p : ℕ) → PageInUse s p → PageInUse s' p
  filled-PageInUse p h j lt free =
      let was = was_free j free in
      omega (arith, h j (omega (arith, lt, f.same_npages)) was.0, f.same_start)

  -- The new page is in use now.
  page-PageInUse : PageInUse s' (s.startframe + k * 4096)
  page-PageInUse j lt free = let was = was_free j free in omega (arith, was.1, f.same_start)

  page-Apart : (p : ℕ) → PageInUse s p → Apart (s.startframe + k * 4096) p
  page-Apart p h = omega (arith, h k f.in_range free_before)

  page-ApartFrom : (ps : List ℕ) → AllInUse s ps → ApartFrom (s.startframe + k * 4096) ps
  page-ApartFrom [] all = tt
  page-ApartFrom (p ∷ ps) (here, all) = (page-Apart p here, page-ApartFrom ps all)

  filled-Step :
      (table : ℕ) → PageInUse s table → table ≤ slot → slot + 8 ≤ table + 4096 → Step s s' table
  filled-Step table used lo hi = record {
    ready = filled-IsReady;
    in_use = filled-PageInUse;
    words =
        λ p b h apart lo' hi'. f.same b (omega arith) (omega (arith, h k f.in_range free_before));
  }

  leads_to : table_at (read64 s'.mem slot) ≡ s.startframe + k * 4096
  unfolding table_at
  leads_to = omega (arith, f.leads, ready.valid.fits, f.in_range)

  -- The table behind the entry is empty.
  filled-InPlace :
      (is seen : List ℕ) (table : ℕ)
      → Small is
      → AllInUse s (table ∷ seen)
      → table ≤ slot
      → slot + 8 ≤ table + 4096
      → InPlace s' is (read64 s'.mem slot) (table ∷ seen)
  filled-InPlace [] seen table small used lo hi = tt
  filled-InPlace (i ∷ is) seen table (lt, small) (used, all) lo hi =
      subst
        (λ t.
          PageInUse s' t
          × ApartFrom t (table ∷ seen)
          × ((entry_at s'.mem t i ≡ 0)
              ⊎ ((page_addr (entry_at s'.mem t i) ≢ 0)
                  × (entry_at s'.mem t i % 2 ≡ 1)
                  × InPlace s' is (entry_at s'.mem t i) (t ∷ table ∷ seen))))
        (sym leads_to)
        (
          page-PageInUse,
          (page-Apart table used, page-ApartFrom seen all),
          inl (
              f.zeroed (u64 (s.startframe + k * 4096 + 8 * i))
                (omega (arith, page-Apart table used, ready.valid.fits, f.in_range))
                (omega (arith, ready.valid.fits, f.in_range))
                (omega (arith, ready.valid.fits, f.in_range))),
        )

-- One level of the walk is there after a step.
pub record Level (s s' : Frames) (entry i : ℕ) (is seen : List ℕ) (n : ℕ) : Type 0 where
  pub step : Step s s' (table_at entry)
  pub present : entry_at s'.mem (table_at entry) i % 2 ≡ 1
  pub place : InPlace s' is (entry_at s'.mem (table_at entry) i) (table_at entry ∷ seen)
  pub room : Room s' 0 n

pub table_at-page : (entry : ℕ) → (table_at entry % 4096 ≡ 0) × (table_at entry < 2 ^ 64)
unfolding table_at
table_at-page entry = (omega arith, omega arith)

module _ {s : Frames} (ready : IsReady s) (entry i : ℕ) (is seen : List ℕ) (n : ℕ) (lt : i < 512)
    (small : Small is) (all : AllInUse s seen) (room : Room s 0 (suc n)) where
  slot : ℕ
  slot = slot_in entry i

  -- An entry that is empty is filled.
  pub fill_entry-Level :
      (pml4 : ℕ)
      → PageInUse s (table_at entry)
      → (s' : Frames) × (k : ℕ) × (fill_entry s pml4 (slot_in entry i)
          ≡ some (s', s.startframe + k * 4096))
        × Filled s (slot_in entry i) k s'
        × Level s s' entry i is seen n
  fill_entry-Level pml4 used =
      elim (fill_entry-Filled s ready.valid ready.in_upper_half ready.aligned pml4
        (slot_in entry i)) [
          | inl (e, none_free) ↦
              let (k, le, in_range, free, rest) = room in
              absurd
                (none_free k in_range (λ j lo hi. let same : j ≡ k = omega arith in rw same free))
          | inr (s', k, e, f) ↦
              let at = slot_in-table entry i lt in
              let lo : table_at entry ≤ slot_in entry i = omega arith in
              let hi : slot_in entry i + 8 ≤ table_at entry + 4096 = omega arith in
              let read = entry_at-slot s'.mem entry i lt in
              (
                s',
                k,
                e,
                f,
                record {
                  step = filled-Step ready f (table_at entry) used lo hi;
                  present = rw read (omega (arith, f.flags));
                  place =
                      rw read
                        (filled-InPlace ready f is seen (table_at entry) small (used, all) lo hi);
                  room = Room-taken s s' k f.same_npages f.marked n 0 room;
                },
              )
        ]

  -- A level is completed by `ensure_table`.
  pub ensure_table-Level :
      (pml4 : ℕ) (empty : Bool)
      → (entry_at s.mem (table_at entry) i ≡ 0 → empty ≡ true)
      → (page_addr (entry_at s.mem (table_at entry) i) ≢ 0 → empty ≡ false)
      → InPlace s (i ∷ is) entry seen
      → (s' : Frames) × (ensure_table empty s pml4 (slot_in entry i) ≡ some s')
        × Level s s' entry i is seen n
  unfolding ensure_table
  ensure_table-Level pml4 empty when not_when (used, apart, inl zero_entry) =
      let (s', k, e, f, level) = fill_entry-Level pml4 used in
      rw (when zero_entry, e) (s', refl, level)
  ensure_table-Level pml4 empty when not_when (used, apart, inr (leads, present, rest)) =
      rw (not_when leads) (
        s,
        refl,
        record {
          step = Step-refl (table_at entry) ready;
          present = present;
          place = rest;
          room = Room-less s n 0 room;
        },
      )
