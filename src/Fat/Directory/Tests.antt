-- ===== src/Fat/Directory/Tests.antt =====
-- A directory of one sector.
use swallow_os.Prelude.{
  ℕ, zero, suc, ◌-◌, ◌≡◌, refl, ◌==◌, leb, ltb, ◌&&◌, if◌then◌else◌, List, [], ◌∷◌, ◌++◌, some,
  arith,
}
use swallow_os.Fat.{Disk, Fat12}
use swallow_os.Fat.Directory.{
  char_at, upper_padding, check_entry, search_sector, search_root, find_by_name,
  fat12_get_file_size, check_long_file_name, same_bytes,
}
use swallow_os.Fat.Directory.Shortened.{IsName}
use swallow_os.Fat.Directory.Search.{FirstMatch, find_by_name-first}

abbrev read_me : List ℕ
read_me = b'r' ∷ b'e' ∷ b'a' ∷ b'd' ∷ []

abbrev text : List ℕ
text = b't' ∷ b'x' ∷ b't' ∷ []

abbrev entry_name : List ℕ
entry_name = b'R' ∷ b'E' ∷ b'A' ∷ b'D' ∷ b' ' ∷ b' ' ∷ b' ' ∷ b' ' ∷ b'T' ∷ b'X' ∷ b'T' ∷ 0x20 ∷ []

-- A removed entry, then a file of 258 bytes, then the end.
abbrev root : ℕ → ℕ
root a =
    if a == 0
    then 0xe5
    else if leb 32 a && ltb a 44
    then char_at entry_name (a - 32)
    else if a == 60
    then 2
    else if a == 61
    then 1
    else 0

abbrev volume : Disk
volume lba = some root

abbrev fs : Fat12
fs = record {
  bytes_per_sector = 512;
  sectors_per_cluster = 1;
  reserved_sectors = 1;
  num_fats = 2;
  root_entry_count = 16;
  total_sectors = 2880;
  sectors_per_fat = 9;
  fat_start_sector = 1;
  root_start_lba = 19;
  data_start_lba = 20;
  root_dir_sectors = 1;
}

abbrev past : ℕ → ℕ
past i = 7

size_of_read_me : fat12_get_file_size past volume fs (read_me ++ b'.' ∷ text) ≡ some 258
unfolding fat12_get_file_size find_by_name search_root search_sector check_entry
    check_long_file_name same_bytes upper_padding
size_of_read_me = refl

read_me-IsName : IsName (read_me ++ b'.' ∷ text)
read_me-IsName zero lt = omega arith
read_me-IsName (suc zero) lt = omega arith
read_me-IsName (suc (suc zero)) lt = omega arith
read_me-IsName (suc (suc (suc zero))) lt = omega arith
read_me-IsName (suc (suc (suc (suc zero)))) lt = omega arith
read_me-IsName (suc (suc (suc (suc (suc zero))))) lt = omega arith
read_me-IsName (suc (suc (suc (suc (suc (suc zero)))))) lt = omega arith
read_me-IsName (suc (suc (suc (suc (suc (suc (suc zero))))))) lt = omega arith
read_me-IsName (suc (suc (suc (suc (suc (suc (suc (suc k)))))))) lt = absurd (omega arith)

find_by_name-first_example :
    FirstMatch past
      (λ i. root)
      (read_me ++ b'.' ∷ text)
      0
      16
      (find_by_name past volume fs (read_me ++ b'.' ∷ text))
find_by_name-first_example =
    find_by_name-first past volume fs (read_me ++ b'.' ∷ text) (λ i. root) read_me-IsName
      (λ i lt. refl)
