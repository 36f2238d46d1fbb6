-- ===== src/Fat/Tests.antt =====
-- The file system on a concrete disk.
use swallow_os.Prelude.{
  ℕ, zero, suc, ◌+◌, ◌-◌, ◌*◌, ◌/◌, ◌≡◌, ◌≢◌, ◌<◌, refl, ap, ◌==◌, if◌then◌else◌, ltb, arith, none,
  some, ◌⊎◌, true, false,
}
use swallow_os.Prelude.Words.{u32}
use swallow_os.Fat.{
  Disk, Fat12, geometry, fat12_mount, word16, cluster_to_lba, read_fat_entry, read_clusters,
}
use swallow_os.Fat.Entries.{packed, HoldsTable, read_fat_entry-some}
use swallow_os.Fat.Chains.{follow, Usable, FilledFrom, read_clusters-FilledFrom}
use swallow_os.Fat.Volume.{Laid, fat12_mount-Laid}

-- The boot sector of a disk of 2880 sectors, with two tables of nine sectors.
abbrev boot : ℕ → ℕ
boot i =
    if i == 12
    then 2
    else if i == 13
    then 1
    else if i == 14
    then 1
    else if i == 16
    then 2
    else if i == 17
    then 224
    else if i == 19
    then 64
    else if i == 20
    then 11
    else if i == 22
    then 9
    else if i == 510
    then 0x55
    else if i == 511
    then 0xaa
    else 0

-- Every cluster is followed by the next one.
abbrev link : ℕ → ℕ
link c = if ltb c 4000 then c + 1 else 0xfff

-- The bytes of a file's sector are the sector's number.
abbrev disk : Disk
disk lba =
    if lba == 0
    then some boot
    else if ltb lba 20
    then some (λ j. packed link ((lba - 1) * 512 + j))
    else some (λ j. lba)

abbrev volume : Fat12
volume = record {
  bytes_per_sector = 512;
  sectors_per_cluster = 1;
  reserved_sectors = 1;
  num_fats = 2;
  root_entry_count = 224;
  total_sectors = 2880;
  sectors_per_fat = 9;
  fat_start_sector = 1;
  root_start_lba = 19;
  data_start_lba = 33;
  root_dir_sectors = 14;
}

mounted : fat12_mount disk ≡ some volume
unfolding fat12_mount geometry
mounted = refl

disk-HoldsTable : HoldsTable disk volume link
disk-HoldsTable k lt =
    let not_boot : (u32 (1 + k / 512) == 0) ≡ false = ground arith in
    let in_table : ltb (u32 (1 + k / 512)) 20 ≡ true = ground arith in
    (
      (λ j. packed link ((u32 (1 + k / 512) - 1) * 512 + j)),
      rw (not_boot, in_table) refl,
      λ j h.
          let at : (u32 (1 + k / 512) - 1) * 512 + j ≡ k / 512 * 512 + j = omega arith in
          ap (packed link) at,
    )

fat12_mount-Laid_example :
    ((fat12_mount disk ≡ none)
      × ((word16 boot 11 ≢ 512) ⊎ (word16 boot 510 ≢ 0xaa55) ⊎ (word16 boot 22 ≡ 0)))
    ⊎ ((word16 boot 11 ≡ 512)
        × (word16 boot 510 ≡ 0xaa55)
        × (word16 boot 22 ≢ 0)
        × ((fs : Fat12) × (fat12_mount disk ≡ some fs) × Laid fs))
fat12_mount-Laid_example = fat12_mount-Laid disk boot refl (λ i. ground arith)

read_fat_entry-some_example : read_fat_entry 77 disk volume 5 ≡ some (link 5)
read_fat_entry-some_example =
    read_fat_entry-some 77 disk volume link (λ c. ground arith) disk-HoldsTable 5 (omega arith)
      (omega arith)

abbrev contents : ℕ → ℕ → ℕ
contents c j = 31 + c

two-Usable : (k : ℕ) → 512 * k < 700 → Usable 77 disk volume link contents (follow link 2 k)
unfolding follow cluster_to_lba read_fat_entry
two-Usable zero h = (omega arith, omega arith, refl, refl)
two-Usable (suc zero) h = (omega arith, omega arith, refl, refl)
two-Usable (suc (suc k)) h = absurd (omega arith)

read_clusters-FilledFrom_example :
    (out' : ℕ → ℕ) × (read_clusters 701 77 disk volume 1000 2 0 700 (λ a. 0)
      ≡ some (some (out', 700)))
    × FilledFrom link contents 2 0 700 (λ a. 0) out'
read_clusters-FilledFrom_example =
    read_clusters-FilledFrom link contents 77 disk volume 1000 (omega arith) 701 2 0 700 (λ a. 0)
      (omega arith) (omega arith) two-Usable
