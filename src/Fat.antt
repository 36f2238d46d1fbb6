-- ===== src/Fat.antt =====
-- The FAT12 file system of kernel/arch/x86_64/fs/fat.c: mounting, the entries of the allocation table,
-- and the loop of `fat12_read_file` over a chain of clusters. `disk` is `read_sector`: it gives the
-- bytes of a sector, or `none` where the drive fails. `fat12_read_file` finds its directory entry
-- before the loop.
pub mod Entries
pub mod Chains
pub mod Volume
pub mod Directory
mod Tests
use swallow_os.Prelude.{
  ℕ, zero, suc, ◌+◌, ◌-◌, ◌*◌, ◌/◌, ◌%◌, ◌^◌, ◌&&◌, ltb, leb, ◌==◌, not, if◌then◌else◌, bit_and,
  Option, none, some,
}
use swallow_os.Prelude.Words.{u8, u16, u32}

abbrev pub Disk : Type 0
Disk = ℕ → Option (ℕ → ℕ)

abbrev pub bytes_per_sector : ℕ
bytes_per_sector = 512

abbrev pub bytes_per_entry : ℕ
bytes_per_entry = 32

-- `fat12_t`
pub record Fat12 : Type 0 where
  pub bytes_per_sector : ℕ
  pub sectors_per_cluster : ℕ
  pub reserved_sectors : ℕ
  pub num_fats : ℕ
  pub root_entry_count : ℕ
  pub total_sectors : ℕ
  pub sectors_per_fat : ℕ
  pub fat_start_sector : ℕ
  pub root_start_lba : ℕ
  pub data_start_lba : ℕ
  pub root_dir_sectors : ℕ

unfoldable pub cluster_to_lba : Fat12 → ℕ → ℕ
cluster_to_lba fs cluster =
    u32 (fs.data_start_lba + u32 (cluster + 2 ^ 32 - 2) * fs.sectors_per_cluster)

-- A little-endian word of a buffer.
abbrev pub word16 : (ℕ → ℕ) → ℕ → ℕ
word16 sec i = sec i + 2 ^ 8 * sec (i + 1)

abbrev pub word32 : (ℕ → ℕ) → ℕ → ℕ
word32 sec i = word16 sec i + 2 ^ 16 * word16 sec (i + 2)

-- Where an entry begins in the table.
abbrev pub entry_offset : ℕ → ℕ
entry_offset cluster = cluster + cluster / 2

-- `past` is the byte in memory behind the buffer `sec`, which an entry at its last byte reads too.
unfoldable pub read_fat_entry : ℕ → Disk → Fat12 → ℕ → Option ℕ
read_fat_entry past disk fs cluster =
    let fat_sector = u32 (fs.fat_start_sector + entry_offset cluster / bytes_per_sector) in
    let ent_offset = entry_offset cluster % bytes_per_sector in
    elim (disk fat_sector) [
      | none ↦ none
      | some bytes ↦
          let sec : ℕ → ℕ = λ i. if i == bytes_per_sector then past else bytes i in
          let val = word16 sec ent_offset in
          some (if bit_and cluster 1 == 0 then bit_and val 0x0fff else val / 2 ^ 4)
    ]

-- The geometry of the volume, from its boot sector.
unfoldable pub geometry : (ℕ → ℕ) → Fat12
geometry boot =
    let reserved = word16 boot 14 in
    let root = u32 (reserved + boot 16 * word16 boot 22) in
    let dir = u32 ((word16 boot 17 * bytes_per_entry + (word16 boot 11 - 1)) / word16 boot 11) in
    record {
      bytes_per_sector = word16 boot 11;
      sectors_per_cluster = boot 13;
      reserved_sectors = reserved;
      num_fats = boot 16;
      root_entry_count = word16 boot 17;
      total_sectors = if word16 boot 19 == 0 then u16 (word32 boot 32) else word16 boot 19;
      sectors_per_fat = word16 boot 22;
      fat_start_sector = reserved;
      root_start_lba = root;
      data_start_lba = u32 (root + dir);
      root_dir_sectors = dir;
    }

unfoldable pub fat12_mount : Disk → Option Fat12
unfolding geometry
fat12_mount disk = elim (disk 0) [
  | none ↦ none
  | some boot ↦
      if not (word16 boot 11 == bytes_per_sector)
      then none
      else if not (word16 boot 510 == 0xaa55)
      then none
      else if word16 boot 22 == 0
      then none
      else some (geometry boot)
]

-- How many bytes one turn of the loop copies.
unfoldable pub to_copy : ℕ → ℕ → ℕ → ℕ
to_copy pos remaining max_len =
    let tocpy = if ltb bytes_per_sector remaining then bytes_per_sector else remaining in
    if ltb max_len (u32 (pos + tocpy)) then max_len - pos else tocpy

-- The bytes of `out`, a function of the index, and how many were copied; the outer `none` means that
-- the fuel ran out, the inner one that a sector could not be read.
unfoldable pub read_clusters :
    ℕ → ℕ → Disk → Fat12 → ℕ → ℕ → ℕ → ℕ → (ℕ → ℕ) → Option (Option ((ℕ → ℕ) × ℕ))
unfolding cluster_to_lba read_fat_entry to_copy
read_clusters zero past disk fs max_len cl pos remaining out = none
read_clusters (suc fuel) past disk fs max_len cl pos remaining out =
    if leb 2 cl && ltb cl 0xff8 && ltb 0 remaining && ltb pos max_len
    then elim (disk (cluster_to_lba fs cl)) [
      | none ↦ some none
      | some sec ↦
          let tocpy = to_copy pos remaining max_len in
          let copied : ℕ → ℕ =
            λ a. if leb pos a && ltb a (pos + tocpy) then sec (a - pos) else out a in
          elim (read_fat_entry past disk fs cl) [
            | none ↦ some none
            | some next ↦
                read_clusters fuel past disk fs max_len next (u32 (pos + tocpy)) (remaining - tocpy)
                  copied
          ]
    ]
    else some (some (out, pos))
