-- ===== src/Fat/Chains.antt =====
-- Reading along a chain of clusters.
use swallow_os.Prelude.{
  ℕ, zero, suc, ◌+◌, ◌-◌, ◌*◌, ◌/◌, ◌%◌, ◌^◌, ◌≡◌, ◌<◌, ◌≤◌, refl, subst, ◌∙◌, ap, true, false,
  ◌&&◌, if◌then◌else◌, ltb, leb, arith, Option, none, some, Bool-cases, ◌⊎◌, inl, inr, min,
}
use swallow_os.Prelude.Words.{u32}
use swallow_os.Fat.{Disk, Fat12, cluster_to_lba, read_fat_entry, to_copy, read_clusters}

-- The cluster `k` links further on.
unfoldable pub follow : (ℕ → ℕ) → ℕ → ℕ → ℕ
follow link c zero = c
follow link c (suc k) = follow link (link c) k

-- The cluster `c` has a number in the range of the loop, `contents c` is the bytes of its first sector, and its entry
-- can be read and is `link c`.
abbrev pub Usable : ℕ → Disk → Fat12 → (ℕ → ℕ) → (ℕ → ℕ → ℕ) → ℕ → Type 0
Usable past disk fs link contents c =
    (2 ≤ c)
    × (c < 0xff8)
    × (disk (cluster_to_lba fs c) ≡ some (contents c))
    × (read_fat_entry past disk fs c ≡ some (link c))

to_copy_lem :
    (pos remaining max_len : ℕ)
    → pos ≤ max_len
    → max_len < 2 ^ 32 - 512
    → to_copy pos remaining max_len ≡ min 512 (min remaining (max_len - pos))
unfolding to_copy
to_copy_lem pos remaining max_len h g = ground arith

-- The bytes from `pos` on are those of the first sectors of the clusters that follow `cl`.
abbrev pub FilledFrom : (ℕ → ℕ) → (ℕ → ℕ → ℕ) → ℕ → ℕ → ℕ → (ℕ → ℕ) → (ℕ → ℕ) → Type 0
FilledFrom link contents cl pos total out out' =
    (a : ℕ)
    → out' a ≡ (
        if leb pos a && ltb a (pos + total)
        then contents (follow link cl ((a - pos) / 512)) ((a - pos) % 512)
        else out a)

arrives :
    {r : Option (Option ((ℕ → ℕ) × ℕ))} {out : ℕ → ℕ} {a b : ℕ}
    → r ≡ some (some (out, a))
    → a ≡ b
    → r ≡ some (some (out, b))
arrives {out} runs e = runs ∙ ap (λ z. some (some (out, z))) e

module _ (link : ℕ → ℕ) (contents : ℕ → ℕ → ℕ) where
  FilledFrom-suc :
      (cl pos t total : ℕ) (out out' : ℕ → ℕ)
      → t ≡ min 512 total
      → FilledFrom link contents
          (link cl)
          (pos + t)
          (total - t)
          (λ a. if leb pos a && ltb a (pos + t) then contents cl (a - pos) else out a)
          out'
      → FilledFrom link contents cl pos total out out'
  unfolding follow
  FilledFrom-suc cl pos t total out out' e h a =
      elim (Bool-cases (leb (pos + t) a && ltb a (pos + t + (total - t)))) [
        | inl later ↦
            let inside : (leb pos a && ltb a (pos + total)) ≡ true = ground arith in
            let one : (a - pos) / 512 ≡ suc ((a - (pos + t)) / 512) = ground arith in
            let same : (a - (pos + t)) % 512 ≡ (a - pos) % 512 = ground arith in
            h a ∙ rw (later, inside, one, same) refl
        | inr not_later ↦ elim (Bool-cases (leb pos a && ltb a (pos + t))) [
          | inl here ↦
              let inside : (leb pos a && ltb a (pos + total)) ≡ true = ground arith in
              let none_on : (a - pos) / 512 ≡ 0 = ground arith in
              let same : (a - pos) % 512 ≡ a - pos = ground arith in
              h a ∙ rw (not_later, here, inside, none_on, same) refl
          | inr outside ↦
              let out_too : (leb pos a && ltb a (pos + total)) ≡ false = ground arith in
              h a ∙ rw (not_later, outside, out_too) refl
        ]
      ]

  module _ (past : ℕ) (disk : Disk) (fs : Fat12) (max_len : ℕ) (room : max_len < 2 ^ 32 - 512) where
    abbrev pub Reads : ℕ → ℕ → ℕ → ℕ → ℕ → (ℕ → ℕ) → Type 0
    Reads fuel cl pos remaining total out =
        (out' : ℕ → ℕ) × (read_clusters fuel past disk fs max_len cl pos remaining out
          ≡ some (some (out', pos + total)))
        × FilledFrom link contents cl pos total out out'

    -- With room for fewer than 2 ^ 32 - 512 bytes, a position in that room, more fuel than bytes to
    -- copy, and every cluster that these bytes need with a number in the loop's range, a sector and
    -- a table entry that can be read: the loop ends having copied as many bytes as remain and as
    -- have room, from the first sectors of the clusters of the chain, and no other byte changes.
    pub read_clusters-FilledFrom :
        (fuel cl pos remaining : ℕ) (out : ℕ → ℕ)
        → pos ≤ max_len
        → min remaining (max_len - pos) < fuel
        → ((k : ℕ)
            → 512 * k < min remaining (max_len - pos)
            → Usable past disk fs link contents (follow link cl k))
        → Reads fuel cl pos remaining (min remaining (max_len - pos)) out
    unfolding read_clusters follow
    read_clusters-FilledFrom zero cl pos remaining out le enough usable = absurd (omega arith)
    read_clusters-FilledFrom (suc fuel) cl pos remaining out le enough usable =
        elim (Bool-cases (ltb 0 remaining && ltb pos max_len)) [
          | inr stop ↦
              let ends : (leb 2 cl && ltb cl 0xff8 && ltb 0 remaining && ltb pos max_len) ≡ false =
                ground arith in
              let nothing : min remaining (max_len - pos) ≡ 0 = ground arith in
              rw (ends, nothing)
                (out, ap (λ z. some (some (out, z))) (omega arith), λ a. ground arith)
          | inl go ↦
              let total : ℕ = min remaining (max_len - pos) in
              let t : ℕ = to_copy pos remaining max_len in
              let size : t ≡ min 512 total = to_copy_lem pos remaining max_len le room in
              let (lo, hi, sector, entry) = usable 0 (ground arith) in
              let at : u32 (pos + t) ≡ pos + t = ground arith in
              let goes : (leb 2 cl && ltb cl 0xff8 && ltb 0 remaining && ltb pos max_len) ≡ true =
                ground arith in
              let less : min (remaining - t) (max_len - (pos + t)) ≡ total - t = ground arith in
              let copied : ℕ → ℕ =
                λ a. if leb pos a && ltb a (pos + t) then contents cl (a - pos) else out a in
              let (out', runs, filled) =
                read_clusters-FilledFrom fuel (link cl) (pos + t) (remaining - t) copied
                  (ground arith) (ground arith) (λ k h. usable (suc k) (ground arith)) in
              rw (goes, sector, entry, at)
                (
                  out',
                  arrives {out = out'} runs (ground arith),
                  FilledFrom-suc cl pos t total out out' size (
                      subst (λ z. FilledFrom link contents (link cl) (pos + t) z copied out') less
                        filled),
                )
        ]

-- A sector cannot be read, or the loop ends at a position between `pos` and `pos + total`, with the
-- bytes outside those two positions as they were.
abbrev pub Ends : ℕ → Disk → Fat12 → ℕ → ℕ → ℕ → ℕ → ℕ → ℕ → (ℕ → ℕ) → Type 0
Ends past disk fs max_len fuel cl pos remaining total out =
    (read_clusters fuel past disk fs max_len cl pos remaining out ≡ some none)
    ⊎ ((out' : ℕ → ℕ) × (n : ℕ) × (read_clusters fuel past disk fs max_len cl pos remaining out
          ≡ some (some (out', n)))
        × (pos ≤ n)
        × (n ≤ pos + total)
        × ((a : ℕ) → (leb pos a && ltb a n) ≡ false → out' a ≡ out a))
