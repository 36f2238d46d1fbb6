-- ===== src/Fat/Volume.antt =====
-- The regions of a mounted volume.
use swallow_os.Prelude.{
  ℕ, ◌+◌, ◌-◌, ◌*◌, ◌/◌, ◌^◌, ◌≡◌, ◌≢◌, ◌<◌, ◌≤◌, refl, ◌==◌, arith, none, some, Bool-cases, inl,
  inr, ◌⊎◌,
}
use swallow_os.Prelude.Words.{u32}
use swallow_os.Fat.{Disk, Fat12, geometry, fat12_mount, word16}

abbrev pub IsBytes : (ℕ → ℕ) → Type 0
IsBytes boot = (i : ℕ) → boot i < 2 ^ 8

-- The tables, the root directory and the clusters follow one another without a gap, and the directory's
-- sectors are as many as its entries of 32 bytes need.
pub record Laid (fs : Fat12) : Type 0 where
  pub sectors : fs.bytes_per_sector ≡ 512
  pub some_table : fs.sectors_per_fat ≢ 0
  pub tables : fs.root_start_lba ≡ fs.fat_start_sector + fs.num_fats * fs.sectors_per_fat
  pub directory : fs.data_start_lba ≡ fs.root_start_lba + fs.root_dir_sectors
  pub enough : 32 * fs.root_entry_count ≤ 512 * fs.root_dir_sectors
  pub no_more : 512 * fs.root_dir_sectors < 32 * fs.root_entry_count + 512

product_le : (a b c d : ℕ) → a ≤ c → b ≤ d → a * b ≤ c * d
product_le a b c d h k = grind arith

-- The arithmetic of the regions, on the numbers of the boot sector.
no_wrap :
    (r n t d : ℕ)
    → r < 2 ^ 16
    → n < 2 ^ 8
    → t < 2 ^ 16
    → d < 2 ^ 16
    → (u32 (r + n * t) ≡ r + n * t) × (u32 (u32 (r + n * t) + u32 d) ≡ u32 (r + n * t) + u32 d)
no_wrap r n t d h k l m =
    let small : n * t ≤ 255 * 65535 = product_le n t 255 65535 (omega arith) (omega arith) in
    (omega arith, omega arith)

geometry-Laid :
    (boot : ℕ → ℕ) → IsBytes boot → word16 boot 11 ≡ 512 → word16 boot 22 ≢ 0 → Laid (geometry boot)
unfolding geometry
geometry-Laid boot bytes size table =
    let entries : word16 boot 17 < 2 ^ 16 = omega (arith, bytes 17, bytes 18) in
    let (tables, directory) =
      no_wrap (word16 boot 14) (boot 16) (word16 boot 22) ((word16 boot 17 * 32 + (512 - 1)) / 512)
        (omega (arith, bytes 14, bytes 15)) (bytes 16) (omega (arith, bytes 22, bytes 23))
        (omega arith) in
    record {
      sectors = size;
      some_table = table;
      tables = tables;
      directory = rw size directory;
      enough = rw size (omega arith);
      no_more = rw size (omega arith);
    }

-- With a boot sector that can be read, mounting either fails, and then one of the three checks of
-- the sector fails, or the three checks pass and it gives a volume whose regions are laid out one
-- after another: the sector size is 512, the mark at the end is 0xAA55, and a table has sectors.
pub fat12_mount-Laid :
    (disk : Disk) (boot : ℕ → ℕ)
    → disk 0 ≡ some boot
    → IsBytes boot
    → ((fat12_mount disk ≡ none)
        × ((word16 boot 11 ≢ 512) ⊎ (word16 boot 510 ≢ 0xaa55) ⊎ (word16 boot 22 ≡ 0)))
      ⊎ ((word16 boot 11 ≡ 512)
          × (word16 boot 510 ≡ 0xaa55)
          × (word16 boot 22 ≢ 0)
          × ((fs : Fat12) × (fat12_mount disk ≡ some fs) × Laid fs))
unfolding fat12_mount geometry
fat12_mount-Laid disk boot e bytes = elim (Bool-cases (word16 boot 11 == 512)) [
  | inr size ↦ rw (fat12_mount, e, size) (inl (refl, inl (ground arith)))
  | inl size ↦ elim (Bool-cases (word16 boot 510 == 0xaa55)) [
    | inr mark ↦ rw (fat12_mount, e, size, mark) (inl (refl, inr (inl (ground arith))))
    | inl mark ↦ elim (Bool-cases (word16 boot 22 == 0)) [
      | inl no_table ↦
          rw (fat12_mount, e, size, mark, no_table) (inl (refl, inr (inr (ground arith))))
      | inr table ↦
          rw (fat12_mount, e, size, mark, table)
            (inr (
              ground arith,
              ground arith,
              ground arith,
              (geometry boot, refl, geometry-Laid boot bytes (ground arith) (ground arith)),
            ))
    ]
  ]
]
