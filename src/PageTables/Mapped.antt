-- ===== src/PageTables/Mapped.antt =====
-- `do_mmap` completes the walk from the root to a page.
use swallow_os.Prelude.{
  ℕ, suc, ◌+◌, ◌*◌, ◌/◌, ◌%◌, ◌≡◌, ◌≢◌, ◌≤◌, ◌<◌, refl, sym, ap, subst, ◌∙◌, ◌&&◌, ◌||◌, not, ltb,
  leb, ◌==◌, Bool, true, false, List, [], ◌∷◌, Option, none, some, arith, inl, inr, ◌⊎◌, ◌>>=◌,
}
use swallow_os.Prelude.Words.{u64, sub64, higher_half_offset}
use swallow_os.Frames.{Frames}
use swallow_os.PageTables.{
  Area, Mm, page_addr, table_at, slot_in, entry_at, read64, ensure_table, map_page, map_in,
  page_fault_handler, do_mmap, mapped, pml4_index, pdptr_index, pd_index, pt_index, virtaddr2page,
}
use swallow_os.PageTables.Faults.{Covers, Mappable, NoneCovers, find_area-later}
use swallow_os.PageTables.Walk.{indices, translate, Apart, ApartFrom, PageInUse, InPlace, Room}
use swallow_os.PageTables.Levels.{
  IsReady, AllInUse, Small, Step, Level, entry_at-slot, table_at-page, ensure_table-Level,
}
use swallow_os.PageTables.LastLevel.{map_page-Level}

translate-step :
    (mem : ℕ → ℕ) (entry i v : ℕ) (is : List ℕ) (page : ℕ)
    → entry_at mem (table_at entry) i ≡ v
    → v % 2 ≡ 1
    → translate mem is v ≡ some page
    → translate mem (i ∷ is) entry ≡ some page
unfolding translate
translate-step mem entry i v is page e odd rest =
    let present : (v % 2 == 0) ≡ false = ground arith in rw (e, present) rest

abbrev Among : ℕ → List ℕ → Type 0
Among p [] = ⊥
Among p (q ∷ qs) = (p ≡ q) ⊎ Among p qs

Among-Apart : (p table : ℕ) (seen : List ℕ) → ApartFrom table seen → Among p seen → Apart p table
Among-Apart p table [] apart among = absurd among
Among-Apart p table (q ∷ seen) (far, apart) (inl e) = omega arith
Among-Apart p table (q ∷ seen) (far, apart) (inr among) = Among-Apart p table seen apart among

-- The walk from an entry on finds a page in the end, and the tables seen before stay as they are.
record Completed (s s' : Frames) (is : List ℕ) (entry : ℕ) (seen : List ℕ) : Type 0 where
  page : ℕ
  found : translate s'.mem is entry ≡ some page
  kept :
      (p b : ℕ)
      → PageInUse s p
      → Among p seen
      → p ≤ b
      → b + 8 ≤ p + 4096
      → read64 s'.mem b ≡ read64 s.mem b

Completed-end : (s : Frames) (entry : ℕ) (seen : List ℕ) → Completed s s [] entry seen
unfolding translate
Completed-end s entry seen = record {
  page = table_at entry;
  found = refl;
  kept = λ p b used among lo hi. refl;
}

-- The entry that a level leads to, as `map_in` reads it.
module _ {s s' : Frames} {entry i : ℕ} {is seen : List ℕ} {n : ℕ} (lt : i < 512)
    (level : Level s s' entry i is seen n) where
  Level-present : read64 s'.mem (slot_in entry i) % 2 ≡ 1
  Level-present = ap (λ v. v % 2) (sym (entry_at-slot s'.mem entry i lt)) ∙ level.present

  Level-InPlace : InPlace s' is (read64 s'.mem (slot_in entry i)) (table_at entry ∷ seen)
  Level-InPlace =
      subst (λ v. InPlace s' is v (table_at entry ∷ seen)) (entry_at-slot s'.mem entry i lt)
        level.place

Level-Completed :
    {s t s' : Frames} {entry i : ℕ} {is seen : List ℕ} {n : ℕ}
    → i < 512
    → PageInUse s (table_at entry)
    → ApartFrom (table_at entry) seen
    → Level s t entry i is seen n
    → Completed t s' is (read64 t.mem (slot_in entry i)) (table_at entry ∷ seen)
    → Completed s s' (i ∷ is) entry seen
Level-Completed {s} {t} {s'} {entry} {i} {is} {seen} lt used apart level done =
    let (aligned, small) = table_at-page entry in
    let same : entry_at s'.mem (table_at entry) i ≡ entry_at t.mem (table_at entry) i =
      done.kept (table_at entry) (u64 (table_at entry + 8 * i))
        (level.step.in_use (table_at entry) used) (inl refl) (omega arith) (omega arith) in
    record {
      page = done.page;
      found =
          translate-step s'.mem entry i (read64 t.mem (slot_in entry i)) is done.page
            (same ∙ entry_at-slot t.mem entry i lt) (Level-present lt level) done.found;
      kept = λ p b h among lo hi.
          done.kept p b (level.step.in_use p h) (inr among) lo hi
          ∙ level.step.words p b h (Among-Apart p (table_at entry) seen apart among) lo hi;
    }

Empty-when :
    (s : Frames) (entry i : ℕ)
    → i < 512
    → ((entry_at s.mem (table_at entry) i ≡ 0
          → (page_addr (read64 s.mem (slot_in entry i)) == 0) ≡ true)
        × (page_addr (entry_at s.mem (table_at entry) i) ≢ 0
            → (page_addr (read64 s.mem (slot_in entry i)) == 0) ≡ false))
Empty-when s entry i lt =
    let e = entry_at-slot s.mem entry i lt in rw e ((λ h. ground arith), (λ h. ground arith))

Zero-when :
    (s : Frames) (entry i : ℕ)
    → i < 512
    → ((entry_at s.mem (table_at entry) i ≡ 0 → (read64 s.mem (slot_in entry i) == 0) ≡ true)
        × (page_addr (entry_at s.mem (table_at entry) i) ≢ 0
            → (read64 s.mem (slot_in entry i) == 0) ≡ false))
Zero-when s entry i lt =
    let e = entry_at-slot s.mem entry i lt in rw e ((λ h. ground arith), (λ h. ground arith))

AllInUse-Step :
    {s s' : Frames} {table : ℕ} (ps : List ℕ) → Step s s' table → AllInUse s ps → AllInUse s' ps
AllInUse-Step [] step all = tt
AllInUse-Step (p ∷ ps) step (used, all) = (step.in_use p used, AllInUse-Step ps step all)

-- The walk has come to the table of an entry, and there is room for the tables from there on.
record Before (s : Frames) (entry i : ℕ) (is seen : List ℕ) (n : ℕ) : Type 0 where
  ready : IsReady s
  place : InPlace s (i ∷ is) entry seen
  small : Small (i ∷ is)
  all : AllInUse s seen
  room : Room s 0 (suc n)

Level-Before :
    {s s' : Frames} {entry i j : ℕ} {is seen : List ℕ} {n : ℕ}
    → Before s entry i (j ∷ is) seen (suc n)
    → Level s s' entry i (j ∷ is) seen (suc n)
    → Before s' (read64 s'.mem (slot_in entry i)) j is (table_at entry ∷ seen) n
Level-Before {s} {s'} {entry} {i} {j} {is} {seen} b level = record {
  ready = level.step.ready;
  place = Level-InPlace b.small.0 level;
  small = b.small.1;
  all = AllInUse-Step (table_at entry ∷ seen) level.step (b.place.0, b.all);
  room = level.room;
}

-- The walk is completed by one level, and by what completes the levels below it.
ensure_table-Completed :
    {s : Frames} {entry i : ℕ} {is seen : List ℕ} {n : ℕ} (pml4 : ℕ) (empty : Bool)
    (rest : Frames → Option Frames)
    → Before s entry i is seen n
    → (entry_at s.mem (table_at entry) i ≡ 0 → empty ≡ true)
      × (page_addr (entry_at s.mem (table_at entry) i) ≢ 0 → empty ≡ false)
    → ((t : Frames)
        → Level s t entry i is seen n
        → (s' : Frames) × (rest t ≡ some s')
          × Completed t s' is (read64 t.mem (slot_in entry i)) (table_at entry ∷ seen))
    → (s' : Frames) × ((ensure_table empty s pml4 (slot_in entry i) >>= rest) ≡ some s')
      × Completed s s' (i ∷ is) entry seen
ensure_table-Completed {s} {entry} {i} {is} {seen} {n} pml4 empty rest b (when, not_when) below =
    let (lt, small) = b.small in
    let (t, e, level) =
      ensure_table-Level b.ready entry i is seen n lt small b.all b.room pml4 empty when not_when
        b.place in
    let (s', e', done) = below t level in
    (s', ap (λ o. o >>= rest) e ∙ e', Level-Completed lt b.place.0 b.place.1 level done)

map_page-Completed :
    {s : Frames} {entry i : ℕ} {seen : List ℕ} (virtaddr : ℕ) (mm : Mm) (vma : Area) (pml4 : ℕ)
    → Before s entry i [] seen 0
    → Covers virtaddr vma
    → (s' : Frames) × (map_page virtaddr mm vma s pml4 (slot_in entry i) ≡ some s')
      × Completed s s' (i ∷ []) entry seen
map_page-Completed {s} {entry} {i} {seen} virtaddr mm vma pml4 b covers =
    let (s', e, level) =
      map_page-Level b.ready entry i seen b.small.0 b.all b.room virtaddr mm vma pml4 covers
        b.place in
    (
      s',
      e,
      Level-Completed b.small.0 b.place.0 b.place.1 level
          (Completed-end s' (read64 s'.mem (slot_in entry i)) (table_at entry ∷ seen)),
    )

module _ (virtaddr : ℕ) (mm : Mm) (s : Frames) (ready : IsReady s) (room : Room s 0 4)
    (place : InPlace s (indices virtaddr) mm.pgd []) where
  map_in-Completed :
      (vma : Area)
      → Covers virtaddr vma
      → (s' : Frames) × (map_in virtaddr mm vma s ≡ some s')
        × Completed s s' (indices virtaddr) mm.pgd []
  unfolding map_in virtaddr2page
  map_in-Completed vma covers =
      let pml4 = u64 (page_addr mm.pgd + higher_half_offset) in
      let i4 = pml4_index virtaddr in
      let i3 = pdptr_index virtaddr in
      let i2 = pd_index virtaddr in
      let l4 : i4 < 512 = omega arith in
      let l3 : i3 < 512 = omega arith in
      let l2 : i2 < 512 = omega arith in
      let slot4 = slot_in mm.pgd i4 in
      let b4 : Before s mm.pgd i4 (i3 ∷ i2 ∷ pt_index virtaddr ∷ []) [] 3 = record {
        ready = ready;
        place = place;
        small = (l4, (l3, (l2, (omega arith, tt))));
        all = tt;
        room = room;
      } in
      ensure_table-Completed pml4 (page_addr (read64 s.mem slot4) == 0) _ b4
        (Empty-when s mm.pgd i4 l4)
        (λ s3 v3.
          let w4 = read64 s3.mem slot4 in
          let b3 = Level-Before b4 v3 in
          ensure_table-Completed pml4 (page_addr (read64 s3.mem (slot_in w4 i3)) == 0) _ b3
            (Empty-when s3 w4 i3 l3)
            (λ s2 v2.
              let w3 = read64 s2.mem (slot_in w4 i3) in
              let b2 = Level-Before b3 v2 in
              ensure_table-Completed pml4 (read64 s2.mem (slot_in w3 i2) == 0) _ b2
                (Zero-when s2 w3 i2 l2)
                (λ s1 v1. map_page-Completed virtaddr mm vma pml4 (Level-Before b2 v1) covers)))

  -- On a valid allocator whose frames are aligned and in the upper half, a user's access to a page that is not present, at an address that may be mapped and that an area has,
  -- ends with a page that the walk from the root finds for the address, where four frames are left and
  -- the tables on the way are in place.
  pub page_fault_handler-translate :
      (kernel_end error_code : ℕ)
      → (error_code ≡ 4) ⊎ (error_code ≡ 6)
      → Mappable kernel_end virtaddr
      → ¬ (NoneCovers virtaddr mm.mmap)
      → (s' : Frames) × (page : ℕ) × (page_fault_handler kernel_end error_code virtaddr mm s
          ≡ mapped s')
        × (translate s'.mem (indices virtaddr) mm.pgd ≡ some page)
  unfolding page_fault_handler do_mmap
  page_fault_handler-translate kernel_end error_code access mappable covered =
      elim (find_area-later virtaddr mm.mmap none) [
        | inl (e, nowhere) ↦ absurd (covered nowhere)
        | inr (vma, e, l) ↦
            let (s', made, done) = map_in-Completed vma l.covers in
            let user : (error_code % 2 == 0 && not (error_code / 4 % 2 == 0) && error_code / 8 == 0)
                ≡ true =
              ground arith in
            let within : (ltb virtaddr (sub64 kernel_end higher_half_offset)
                  || leb higher_half_offset virtaddr)
                ≡ false =
              ground (arith, mappable) in
            rw (page_fault_handler, user, within, do_mmap, e, made)
              (s', done.page, refl, done.found)
      ]
