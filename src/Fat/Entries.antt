-- ===== src/Fat/Entries.antt =====
-- The allocation table as a sequence of twelve-bit entries, two of them in three bytes.
use swallow_os.Prelude.{
  ℕ, zero, suc, ◌+◌, ◌-◌, ◌*◌, ◌/◌, ◌%◌, ◌^◌, ◌≡◌, ◌<◌, ◌≤◌, refl, ◌∙◌, ap, ap₂, true, false, ◌==◌,
  if◌then◌else◌, bit_and, arith, some, Bool-cases, inl, inr,
}
use swallow_os.Prelude.Bits.{and_low}
use swallow_os.Prelude.Words.{u32}
use swallow_os.Fat.{Disk, Fat12, entry_offset, read_fat_entry}

-- The byte `k` of the table that holds the entries `e`.
abbrev pub packed : (ℕ → ℕ) → ℕ → ℕ
packed e k =
    if k % 3 == 0
    then e (2 * (k / 3)) % 2 ^ 8
    else if k % 3 == 1
    then e (2 * (k / 3)) / 2 ^ 8 + 2 ^ 4 * (e (2 * (k / 3) + 1) % 2 ^ 4)
    else e (2 * (k / 3) + 1) / 2 ^ 4

-- The disk holds the table `e` where the file system `fs` has it.
abbrev pub HoldsTable : Disk → Fat12 → (ℕ → ℕ) → Type 0
HoldsTable disk fs e =
    (k : ℕ)
    → k < 0x1800
    → (sec : ℕ → ℕ) × (disk (u32 (fs.fat_start_sector + k / 512)) ≡ some sec)
      × ((j : ℕ) → j < 512 → sec j ≡ packed e (k / 512 * 512 + j))

-- Both bytes of the entry stand in one sector.
abbrev pub WithinSector : ℕ → Type 0
WithinSector cluster = entry_offset cluster % 512 < 511

-- `& 1` and `& 0x0fff` are remainders.
and_zero : (n a : ℕ) → a ≤ n → bit_and a 0 ≡ 0
and_zero n zero h = refl
and_zero zero (suc a) h = absurd (omega arith)
and_zero (suc n) (suc a) h = omega (arith, and_low (suc a) 0, and_zero n (suc a / 2) (omega arith))

mask1 : (a : ℕ) → bit_and a 1 ≡ a % 2
mask1 a = omega (arith, and_low a 1, and_zero (a / 2) (a / 2) (omega arith))

mask2 : (a : ℕ) → bit_and a 3 ≡ a % 4
mask2 a = omega (arith, and_low a 3, mask1 (a / 2))

mask3 : (a : ℕ) → bit_and a 7 ≡ a % 8
mask3 a = omega (arith, and_low a 7, mask2 (a / 2))

mask4 : (a : ℕ) → bit_and a 15 ≡ a % 16
mask4 a = omega (arith, and_low a 15, mask3 (a / 2))

mask5 : (a : ℕ) → bit_and a 31 ≡ a % 32
mask5 a = omega (arith, and_low a 31, mask4 (a / 2))

mask6 : (a : ℕ) → bit_and a 63 ≡ a % 64
mask6 a = omega (arith, and_low a 63, mask5 (a / 2))

mask7 : (a : ℕ) → bit_and a 127 ≡ a % 128
mask7 a = omega (arith, and_low a 127, mask6 (a / 2))

mask8 : (a : ℕ) → bit_and a 255 ≡ a % 256
mask8 a = omega (arith, and_low a 255, mask7 (a / 2))

mask9 : (a : ℕ) → bit_and a 511 ≡ a % 512
mask9 a = omega (arith, and_low a 511, mask8 (a / 2))

mask10 : (a : ℕ) → bit_and a 1023 ≡ a % 1024
mask10 a = omega (arith, and_low a 1023, mask9 (a / 2))

mask11 : (a : ℕ) → bit_and a 2047 ≡ a % 2048
mask11 a = omega (arith, and_low a 2047, mask10 (a / 2))

mask12 : (a : ℕ) → bit_and a 4095 ≡ a % 4096
mask12 a = omega (arith, and_low a 4095, mask11 (a / 2))

module _ (e : ℕ → ℕ) (c : ℕ) where
  -- The two bytes of an entry with an even number, and with an odd one.
  even_low : c % 2 ≡ 0 → packed e (entry_offset c) ≡ e c % 2 ^ 8
  even_low h =
      let here : (entry_offset c % 3 == 0) ≡ true = ground arith in
      rw here (ap (λ z. e z % 2 ^ 8) (omega arith))

  even_high : c % 2 ≡ 0 → packed e (entry_offset c + 1) ≡ e c / 2 ^ 8 + 2 ^ 4 * (e (c + 1) % 2 ^ 4)
  even_high h =
      let first : ((entry_offset c + 1) % 3 == 0) ≡ false = ground arith in
      let here : ((entry_offset c + 1) % 3 == 1) ≡ true = ground arith in
      rw (first, here)
        (ap₂ (λ y z. e y / 2 ^ 8 + 2 ^ 4 * (e z % 2 ^ 4)) (omega arith) (omega arith))

  odd_low : c % 2 ≡ 1 → packed e (entry_offset c) ≡ e (c - 1) / 2 ^ 8 + 2 ^ 4 * (e c % 2 ^ 4)
  odd_low h =
      let first : (entry_offset c % 3 == 0) ≡ false = ground arith in
      let here : (entry_offset c % 3 == 1) ≡ true = ground arith in
      rw (first, here)
        (ap₂ (λ y z. e y / 2 ^ 8 + 2 ^ 4 * (e z % 2 ^ 4)) (omega arith) (omega arith))

  odd_high : c % 2 ≡ 1 → packed e (entry_offset c + 1) ≡ e c / 2 ^ 4
  odd_high h =
      let first : ((entry_offset c + 1) % 3 == 0) ≡ false = ground arith in
      let second : ((entry_offset c + 1) % 3 == 1) ≡ false = ground arith in
      rw (first, second) (ap (λ z. e z / 2 ^ 4) (omega arith))

entry_value :
    (e : ℕ → ℕ) (c : ℕ)
    → e c < 2 ^ 12
    → e (c - 1) < 2 ^ 12
    → (if bit_and c 1 == 0
        then bit_and (packed e (entry_offset c) + 2 ^ 8 * packed e (entry_offset c + 1)) 0x0fff
        else (packed e (entry_offset c) + 2 ^ 8 * packed e (entry_offset c + 1)) / 2 ^ 4)
      ≡ e c
entry_value e c h g = elim (Bool-cases (bit_and c 1 == 0)) [
  | inl even ↦
      let m : c % 2 ≡ 0 = ground (arith, mask1 c) in
      rw
        (
          even,
          mask12 (packed e (entry_offset c) + 2 ^ 8 * packed e (entry_offset c + 1)),
          even_low e c m,
          even_high e c m,
        )
        (omega arith)
  | inr odd ↦
      let m : c % 2 ≡ 1 = ground (arith, mask1 c) in
      rw (odd, odd_low e c m, odd_high e c m) (omega arith)
]

-- Reading an entry of a table of twelve-bit entries gives that entry, where both of its bytes stand in
-- one sector, whatever stands behind the buffer.
pub read_fat_entry-some :
    (past : ℕ) (disk : Disk) (fs : Fat12) (e : ℕ → ℕ)
    → ((c : ℕ) → e c < 2 ^ 12)
    → HoldsTable disk fs e
    → (cluster : ℕ) → cluster < 2 ^ 12
    → WithinSector cluster
    → read_fat_entry past disk fs cluster ≡ some (e cluster)
unfolding read_fat_entry
read_fat_entry-some past disk fs e small holds cluster lt within =
    let (sec, found, bytes) = holds (entry_offset cluster) (omega arith) in
    let o : ℕ = entry_offset cluster % 512 in
    let first_in : (o == 512) ≡ false = ground arith in
    let second_in : (o + 1 == 512) ≡ false = ground arith in
    let at : entry_offset cluster / 512 * 512 + o ≡ entry_offset cluster = omega arith in
    let next : entry_offset cluster / 512 * 512 + (o + 1) ≡ entry_offset cluster + 1 =
      omega arith in
    let low : sec o ≡ packed e (entry_offset cluster) = bytes o (omega arith) ∙ ap (packed e) at in
    let high : sec (o + 1) ≡ packed e (entry_offset cluster + 1) =
      bytes (o + 1) (omega arith) ∙ ap (packed e) next in
    rw (read_fat_entry, found, first_in, second_in, low, high)
      (ap some (entry_value e cluster (small cluster) (small (cluster - 1))))
