-- ===== src/Fat/Directory.antt =====
-- The root directory of the volume: `upper_padding`, `check_long_file_name`, `find_by_name`,
-- `fat12_get_file_size` and `fat12_read_file` of fs/fat.c. A file name is the list of its bytes before
-- the zero byte. `past` has the bytes in memory behind the buffer of a sector, which an entry beyond
-- the sector's last one is read from. `kmalloc` is taken to give the buffer for a long name.
pub mod Matches
pub mod Padding
pub mod Shortened
pub mod Search
mod Tests
use swallow_os.Prelude.{
  ℕ, zero, suc, ◌+◌, ◌-◌, ◌*◌, ◌/◌, ◌%◌, ◌^◌, ◌&&◌, ◌||◌, ltb, leb, ◌==◌, not, if◌then◌else◌,
  bit_and, update, Bool, true, false, List, [], ◌∷◌, ◌++◌, length, Option, none, some,
}
use swallow_os.Prelude.Words.{u8, u32}
use swallow_os.Fat.{Disk, Fat12, bytes_per_sector, bytes_per_entry, word16, word32, read_clusters}

abbrev pub last_long_entry : ℕ
last_long_entry = 0x40

-- `name[i]`, with the zero byte behind the name.
abbrev pub char_at : List ℕ → ℕ → ℕ
char_at [] i = 0
char_at (c ∷ name) zero = c
char_at (c ∷ name) (suc i) = char_at name i

unfoldable pub upper : ℕ → ℕ
upper c = if leb b'a' c && leb c b'z' then c - 32 else c

-- The loop over the base name, from the index `i` on with `left` places: the places, and where it ends.
unfoldable pub pad_base : ℕ → List ℕ → ℕ → (ℕ → ℕ) → (ℕ → ℕ) × ℕ
unfolding upper
pad_base zero name i name8 = (name8, i)
pad_base (suc left) name i name8 =
    let c = char_at name i in
    let rest = pad_base left name (i + 1) (update name8 i (upper c)) in
    if c == 0 || c == b'.' then (name8, i) else rest

-- The loop over the extension.
unfoldable pub pad_extension : ℕ → List ℕ → ℕ → ℕ → (ℕ → ℕ) → ℕ → ℕ
unfolding upper
pad_extension zero name i j ext3 = ext3
pad_extension (suc left) name i j ext3 =
    let c = char_at name i in
    let rest = pad_extension left name (i + 1) (j + 1) (update ext3 j (upper c)) in
    if c == 0 then ext3 else rest

unfoldable pub upper_padding : List ℕ → (ℕ → ℕ) × (ℕ → ℕ)
unfolding pad_base pad_extension
upper_padding name =
    let spaces : ℕ → ℕ = λ i. b' ' in
    let (name8, i) = pad_base 8 name 0 spaces in
    (name8, if char_at name i == b'.' then pad_extension 3 name (i + 1) 0 spaces else spaces)

-- Where the characters stand in a long entry.
abbrev pub low_and_mid : List ℕ
low_and_mid = 1 ∷ 3 ∷ 5 ∷ 7 ∷ 9 ∷ 14 ∷ 16 ∷ 18 ∷ 20 ∷ 22 ∷ 24 ∷ []

abbrev pub high : List ℕ
high = 28 ∷ 30 ∷ []

-- `CHECK_AND_ASSIGN_LONG_NAME` at each place, up to a character that ends the name; `padding` is what
-- the test against 0xFF, of an unsigned byte, can be true of.
unfoldable pub assign : (ℕ → ℕ) → ℕ → List ℕ → (ℕ → Bool) → List ℕ → List ℕ × Bool
assign mem ent [] padding buffer = (buffer, true)
assign mem ent (offset ∷ offsets) padding buffer =
    let ch = mem (ent + offset) in
    let rest = assign mem ent offsets padding (buffer ++ ch ∷ []) in
    if ch == 0 || padding ch then (buffer, false) else rest

-- The entries `i - 1`, …, 0 behind `ent`: the buffer. `name_low` and `name_mid` are arrays of a signed
-- `char`, which never equals 0xFF.
unfoldable pub gather : (ℕ → ℕ) → ℕ → ℕ → List ℕ → List ℕ
unfolding assign
gather mem ent zero buffer = buffer
gather mem ent (suc i) buffer =
    let (low, go_on) = assign mem (ent + i * bytes_per_entry) low_and_mid (λ ch. false) buffer in
    let (all, go_on') = assign mem (ent + i * bytes_per_entry) high (λ ch. ch == 0xff) low in
    let rest = gather mem ent i all in if not go_on then low else if not go_on' then all else rest

unfoldable pub equal_names : List ℕ → List ℕ → Bool
equal_names [] [] = true
equal_names [] (d ∷ ds) = false
equal_names (c ∷ cs) [] = false
equal_names (c ∷ cs) (d ∷ ds) = (c == d) && equal_names cs ds

-- `true` is the return value 0.
unfoldable pub check_long_file_name : (ℕ → ℕ) → ℕ → List ℕ → Bool
unfolding gather equal_names
check_long_file_name mem ent name =
    if bit_and (mem ent) last_long_entry == 0
    then false
    else equal_names name (gather mem ent (mem ent - last_long_entry) [])

-- `memcmp(…) == 0`
unfoldable pub same_bytes : (ℕ → ℕ) → ℕ → (ℕ → ℕ) → ℕ → Bool
same_bytes mem p other zero = true
same_bytes mem p other (suc n) = same_bytes mem p other n && (mem (p + n) == other n)

-- What the loop over the entries does with one of them.
pub data Outcome : Type 0 where
  stop next : Outcome
  found : ℕ → Outcome

unfoldable pub check_entry : (ℕ → ℕ) → List ℕ → (ℕ → ℕ) → (ℕ → ℕ) → ℕ → Outcome
check_entry mem name n8 e3 j =
    let ent = j * bytes_per_entry in
    let short = same_bytes mem ent n8 8 && same_bytes mem (ent + 8) e3 3 in
    if mem ent == 0
    then stop
    else if mem ent == 0xe5
    then next
    else if bit_and (mem (ent + 11)) 0x0f == 0x0f && check_long_file_name mem ent name
    then found (j + mem ent - last_long_entry)
    else if short
    then found j
    else next

-- The loop over the entries of a sector, from `j` on.
unfoldable pub search_sector : (ℕ → ℕ) → List ℕ → (ℕ → ℕ) → (ℕ → ℕ) → ℕ → ℕ → Outcome
search_sector mem name n8 e3 j zero = next
search_sector mem name n8 e3 j (suc left) = elim (check_entry mem name n8 e3 j) [
  | stop ↦ stop
  | next ↦ search_sector mem name n8 e3 (j + 1) left
  | found k ↦ found k
]

-- The buffer of a sector, and the memory behind it.
abbrev pub in_memory : (ℕ → ℕ) → (ℕ → ℕ) → ℕ → ℕ
in_memory past sec i = if ltb i bytes_per_sector then sec i else past i

-- The loop over the sectors of the directory: the memory and the number of the entry found.
unfoldable pub search_root :
    (ℕ → ℕ) → Disk → Fat12 → List ℕ → (ℕ → ℕ) → (ℕ → ℕ) → ℕ → ℕ → Option ((ℕ → ℕ) × ℕ)
search_root past disk fs name n8 e3 i zero = none
search_root past disk fs name n8 e3 i (suc left) = elim (disk (u32 (fs.root_start_lba + i))) [
  | none ↦ none
  | some sec ↦
      elim (search_sector (in_memory past sec) name n8 e3 0 (bytes_per_sector / bytes_per_entry)) [
        | stop ↦ none
        | next ↦ search_root past disk fs name n8 e3 (i + 1) left
        | found j ↦ some (in_memory past sec, j)
      ]
]

unfoldable pub find_by_name : (ℕ → ℕ) → Disk → Fat12 → List ℕ → Option ((ℕ → ℕ) × ℕ)
find_by_name past disk fs name =
    let (n8, e3) = upper_padding name in search_root past disk fs name n8 e3 0 fs.root_dir_sectors

-- `none` is the return value -1.
unfoldable pub fat12_get_file_size : (ℕ → ℕ) → Disk → Fat12 → List ℕ → Option ℕ
unfolding find_by_name
fat12_get_file_size past disk fs name = elim (find_by_name past disk fs name) [
  | none ↦ none
  | some (mem, j) ↦ some (word32 mem (j * bytes_per_entry + 28))
]

-- The result is that of `read_clusters`; `behind` is the byte behind the buffer of `read_fat_entry`.
unfoldable pub fat12_read_file :
    ℕ → ℕ → (ℕ → ℕ) → Disk → Fat12 → List ℕ → (ℕ → ℕ) → ℕ → Option (Option ((ℕ → ℕ) × ℕ))
unfolding find_by_name read_clusters
fat12_read_file fuel behind past disk fs name out max_len = elim (find_by_name past disk fs name) [
  | none ↦ some none
  | some (mem, j) ↦
      read_clusters fuel behind disk fs max_len (word16 mem (j * bytes_per_entry + 26)) 0
        (word32 mem (j * bytes_per_entry + 28)) out
]
