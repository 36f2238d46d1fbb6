-- ===== src/Bytes/Copies.antt =====
-- What the copies leave at every address.
use swallow_os.Prelude.{
  ℕ, zero, suc, ◌+◌, ◌-◌, ◌≡◌, ◌≤◌, ◌<◌, refl, ◌∙◌, ◌&&◌, if◌then◌else◌, ltb, leb, update, arith,
  ◌⊎◌, inl, inr, Bool-cases,
}
use swallow_os.Bytes.{copy_up, copy_down, memcpy, memmove}

-- The bytes that were at `src` are now at `dst`; every other byte is as it was.
abbrev pub Copied : (ℕ → ℕ) → ℕ → ℕ → ℕ → (ℕ → ℕ) → Type 0
Copied mem dst src size mem' =
    (a : ℕ) → mem' a ≡ (if leb dst a && ltb a (dst + size) then mem (src + (a - dst)) else mem a)

copy_up_at :
    (mem : ℕ → ℕ) (dst src i n a : ℕ)
    → (dst ≤ src) ⊎ (src + i + n ≤ dst)
    → copy_up mem dst src i n a
      ≡ (if leb (dst + i) a && ltb a (dst + i + n) then mem (src + (a - dst)) else mem a)
unfolding copy_up
copy_up_at mem dst src i zero a h = ground arith
copy_up_at mem dst src i (suc n) a h =
    copy_up_at (update mem (dst + i) (mem (src + i))) dst src (suc i) n a (ground arith)
    ∙ ground arith

copy_down_at :
    (mem : ℕ → ℕ) (dst src i a : ℕ)
    → src ≤ dst
    → copy_down mem dst src i a
      ≡ (if leb dst a && ltb a (dst + i) then mem (src + (a - dst)) else mem a)
unfolding copy_down
copy_down_at mem dst src zero a h = ground arith
copy_down_at mem dst src (suc i) a h =
    copy_down_at (update mem (dst + i) (mem (src + i))) dst src i a h ∙ ground arith

copy_up-Copied :
    (mem : ℕ → ℕ) (dst src size : ℕ)
    → (dst ≤ src) ⊎ (src + size ≤ dst)
    → Copied mem dst src size (copy_up mem dst src 0 size)
copy_up-Copied mem dst src size h a = copy_up_at mem dst src 0 size a (ground arith) ∙ ground arith

-- `memmove` copies, whether or not the two ranges overlap.
pub memmove-Copied :
    (mem : ℕ → ℕ) (dst src size : ℕ) → Copied mem dst src size (memmove mem dst src size)
unfolding memmove
memmove-Copied mem dst src size a = elim (Bool-cases (ltb dst src)) [
  | inl up ↦ rw up (copy_up-Copied mem dst src size (inl (ground arith)) a)
  | inr down ↦ rw down (copy_down_at mem dst src size a (ground arith))
]

-- `memcpy` copies where the target does not start above the source or the two ranges do not overlap.
pub memcpy-Copied :
    (mem : ℕ → ℕ) (dst src size : ℕ)
    → (dst ≤ src) ⊎ (src + size ≤ dst)
    → Copied mem dst src size (memcpy mem dst src size)
unfolding memcpy
memcpy-Copied mem dst src size h a = copy_up-Copied mem dst src size h a

copy_up-outside :
    (mem : ℕ → ℕ) (dst src i n a : ℕ)
    → (a < dst + i) ⊎ (dst + i + n ≤ a)
    → copy_up mem dst src i n a ≡ mem a
unfolding copy_up
copy_up-outside mem dst src i zero a h = refl
copy_up-outside mem dst src i (suc n) a h =
    copy_up-outside (update mem (dst + i) (mem (src + i))) dst src (suc i) n a (ground arith)
    ∙ ground arith

-- `memcpy` leaves what is outside the target, wherever the source is.
pub memcpy-outside :
    (mem : ℕ → ℕ) (dst src size a : ℕ)
    → (a < dst) ⊎ (dst + size ≤ a)
    → memcpy mem dst src size a ≡ mem a
unfolding memcpy
memcpy-outside mem dst src size a h = copy_up-outside mem dst src 0 size a (ground arith)
