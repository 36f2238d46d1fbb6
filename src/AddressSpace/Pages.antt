-- ===== src/AddressSpace/Pages.antt =====
-- The pages of an address space, as lists, and which memories agree on them.
use swallow_os.Prelude.{
  ℕ, zero, suc, ◌+◌, ◌*◌, ◌%◌, ◌^◌, ◌≡◌, ◌≤◌, ◌<◌, refl, ◌∙◌, ◌||◌, leb, ◌==◌, if◌then◌else◌, Bool,
  true, false, List, [], ◌∷◌, ◌++◌, arith,
}
use swallow_os.Prelude.Words.{u64}
use swallow_os.Frames.{Frames, free_pages}
use swallow_os.PageTables.{table_at, read64, entry_at}
use swallow_os.PageTables.Entries.{bytes_value-same}
use swallow_os.PageTables.Walk.{Apart, ApartFrom}
use swallow_os.AddressSpace.{entry_num, is_huge_page, free_page}

-- What the loop over the entries of a table lists.
unfoldable pub collect : (ℕ → List ℕ) → ℕ → ℕ → List ℕ
collect listed i zero = []
collect listed i (suc n) = listed i ++ collect listed (suc i) n

-- The pages under the entries of one level, those of a page before the page itself: which entries are
-- passed over, which lead to no table, and the pages under a table of the level below.
unfoldable pub pages_of :
    (ℕ → ℕ → Bool) → (ℕ → Bool) → ((ℕ → ℕ) → ℕ → List ℕ) → (ℕ → ℕ) → ℕ → ℕ → List ℕ
pages_of skips is_leaf below mem table i =
    let entry = entry_at mem table i in
    if skips i entry
    then []
    else (if is_leaf entry then [] else below mem (table_at entry)) ++ table_at entry ∷ []

unfoldable pub pages_in :
    (ℕ → ℕ → Bool) → (ℕ → Bool) → ((ℕ → ℕ) → ℕ → List ℕ) → (ℕ → ℕ) → ℕ → List ℕ
unfolding pages_of collect
pages_in skips is_leaf below mem table =
    collect (pages_of skips is_leaf below mem table) 0 entry_num

-- Which entries a level passes over, and which ones lead to no table.
abbrev pub is_empty : ℕ → ℕ → Bool
is_empty i entry = entry == 0

abbrev pub is_empty_or_huge : ℕ → ℕ → Bool
is_empty_or_huge i entry = entry == 0 || is_huge_page entry

abbrev pub is_empty_or_upper : ℕ → ℕ → Bool
is_empty_or_upper i entry = leb 256 i || entry == 0

abbrev pub all_entries : ℕ → Bool
all_entries entry = true

abbrev pub no_entry : ℕ → Bool
no_entry entry = false

abbrev pub nothing_below : (ℕ → ℕ) → ℕ → List ℕ
nothing_below mem table = []

unfoldable pub pt_pages : (ℕ → ℕ) → ℕ → List ℕ
unfolding pages_in
pt_pages = pages_in is_empty all_entries nothing_below

unfoldable pub pd_pages : (ℕ → ℕ) → ℕ → List ℕ
unfolding pages_in pt_pages
pd_pages = pages_in is_empty is_huge_page pt_pages

unfoldable pub pdptr_pages : (ℕ → ℕ) → ℕ → List ℕ
unfolding pages_in pd_pages
pdptr_pages = pages_in is_empty_or_huge no_entry pd_pages

-- The pages of the lower half of an address space.
unfoldable pub user_pages : (ℕ → ℕ) → ℕ → List ℕ
unfolding pages_in pdptr_pages
user_pages = pages_in is_empty_or_upper is_huge_page pdptr_pages

unfoldable pub free_all : List ℕ → Frames → Frames
free_all [] s = s
free_all (page ∷ pages) s = free_all pages (free_page s page)

-- No two pages of a list overlap.
abbrev pub Disjoint : List ℕ → Type 0
Disjoint [] = Unit {0}
Disjoint (p ∷ ps) = ApartFrom p ps × Disjoint ps

abbrev Between : List ℕ → List ℕ → Type 0
Between [] qs = Unit {0}
Between (p ∷ ps) qs = ApartFrom p qs × Between ps qs

-- A page has the same bytes in both memories.
abbrev SamePage : (ℕ → ℕ) → (ℕ → ℕ) → ℕ → Type 0
SamePage mem mem' p = (a : ℕ) → p ≤ a → a < p + 4096 → mem' a ≡ mem a

abbrev pub SamePages : (ℕ → ℕ) → (ℕ → ℕ) → List ℕ → Type 0
SamePages mem mem' [] = Unit {0}
SamePages mem mem' (p ∷ ps) = SamePage mem mem' p × SamePages mem mem' ps

abbrev pub IsTable : ℕ → Type 0
IsTable table = (table % 4096 ≡ 0) × (table < 2 ^ 64)

pub ApartFrom-append :
    (p : ℕ) (ps qs : List ℕ) → ApartFrom p (ps ++ qs) → ApartFrom p ps × ApartFrom p qs
ApartFrom-append p [] qs h = (tt, h)
ApartFrom-append p (x ∷ ps) qs (here, h) =
    let (left, right) = ApartFrom-append p ps qs h in ((here, left), right)

pub Disjoint-append :
    (ps qs : List ℕ) → Disjoint (ps ++ qs) → Disjoint ps × Disjoint qs × Between ps qs
Disjoint-append [] qs h = (tt, h, tt)
Disjoint-append (p ∷ ps) qs (here, h) =
    let (left, right, between) = Disjoint-append ps qs h in
    let (in_left, in_right) = ApartFrom-append p ps qs here in
    ((in_left, left), right, (in_right, between))

pub SamePages-append :
    (mem mem' : ℕ → ℕ) (ps qs : List ℕ)
    → SamePages mem mem' (ps ++ qs)
    → SamePages mem mem' ps × SamePages mem mem' qs
SamePages-append mem mem' [] qs h = (tt, h)
SamePages-append mem mem' (p ∷ ps) qs (here, h) =
    let (left, right) = SamePages-append mem mem' ps qs h in ((here, left), right)

pub free_all-append :
    (ps qs : List ℕ) (s : Frames) → free_all (ps ++ qs) s ≡ free_all qs (free_all ps s)
unfolding free_all
free_all-append [] qs s = refl
free_all-append (p ∷ ps) qs s = free_all-append ps qs (free_page s p)

free_page-SamePage : (s : Frames) (p q : ℕ) → Apart p q → SamePage s.mem (free_page s q).mem p
unfolding free_page free_pages
free_page-SamePage s p q apart a lo hi = ground arith

pub free_all-SamePage :
    (p : ℕ) (ps : List ℕ) (s : Frames) → ApartFrom p ps → SamePage s.mem (free_all ps s).mem p
unfolding free_all
free_all-SamePage p [] s apart a lo hi = refl
free_all-SamePage p (q ∷ ps) s (here, apart) a lo hi =
    free_all-SamePage p ps (free_page s q) apart a lo hi ∙ free_page-SamePage s p q here a lo hi

Apart-sym : (p q : ℕ) → Apart p q → Apart q p
Apart-sym p q h = ground arith

pub ApartFrom-Between : (p : ℕ) (ps qs : List ℕ) → Between ps (p ∷ qs) → ApartFrom p ps
ApartFrom-Between p [] qs h = tt
ApartFrom-Between p (q ∷ ps) qs ((here, there), h) =
    (Apart-sym q p here, ApartFrom-Between p ps qs h)

Between-tail : (p : ℕ) (ps qs : List ℕ) → Between ps (p ∷ qs) → Between ps qs
Between-tail p [] qs h = tt
Between-tail p (q ∷ ps) qs ((here, there), h) = (there, Between-tail p ps qs h)

pub free_all-SamePages :
    (ps qs : List ℕ) (s : Frames) → Between ps qs → SamePages s.mem (free_all ps s).mem qs
free_all-SamePages ps [] s between = tt
free_all-SamePages ps (q ∷ qs) s between = (
  free_all-SamePage q ps s (ApartFrom-Between q ps qs between),
  free_all-SamePages ps qs s (Between-tail q ps qs between),
)

pub entry_at-same :
    (mem mem' : ℕ → ℕ) (table i : ℕ)
    → IsTable table
    → i < 512
    → SamePage mem mem' table
    → entry_at mem' table i ≡ entry_at mem table i
unfolding read64
entry_at-same mem mem' table i is_table lt same =
    bytes_value-same mem mem' (u64 (table + 8 * i)) 8
      (λ a lo hi. same a (omega arith) (omega arith))

pub table_at-IsTable : (entry : ℕ) → IsTable (table_at entry)
unfolding table_at
table_at-IsTable entry = (omega arith, omega arith)
