-- ===== src/Bytes.antt =====
-- The byte functions of libc/string, on a memory that is a function of the address. Addresses do not
-- wrap. Characters are unsigned bytes.
pub mod Copies
pub mod Compares
mod Tests
use swallow_os.Prelude.{
  ℕ, zero, suc, ◌+◌, Bool, ltb, ◌==◌, if◌then◌else◌, update, Option, none, some,
}

-- The loop of `memcpy` and the first one of `memmove`, from the index `i`, with `n` bytes to go.
unfoldable pub copy_up : (ℕ → ℕ) → ℕ → ℕ → ℕ → ℕ → ℕ → ℕ
copy_up mem dst src i zero = mem
copy_up mem dst src i (suc n) = copy_up (update mem (dst + i) (mem (src + i))) dst src (suc i) n

-- The second loop of `memmove`, with the bytes below the index to go.
unfoldable pub copy_down : (ℕ → ℕ) → ℕ → ℕ → ℕ → ℕ → ℕ
copy_down mem dst src zero = mem
copy_down mem dst src (suc i) = copy_down (update mem (dst + i) (mem (src + i))) dst src i

unfoldable pub memcpy : (ℕ → ℕ) → ℕ → ℕ → ℕ → ℕ → ℕ
unfolding copy_up
memcpy mem dst src size = copy_up mem dst src 0 size

unfoldable pub memmove : (ℕ → ℕ) → ℕ → ℕ → ℕ → ℕ → ℕ
unfolding copy_up copy_down
memmove mem dst src size =
    if ltb dst src then copy_up mem dst src 0 size else copy_down mem dst src size

-- The results -1, 0 and 1.
pub data Comparison : Type 0 where
  less same greater : Comparison

unfoldable pub compare_from : (ℕ → ℕ) → ℕ → ℕ → ℕ → ℕ → Comparison
compare_from mem a b i zero = same
compare_from mem a b i (suc n) =
    let rest = compare_from mem a b (suc i) n in
    if ltb (mem (a + i)) (mem (b + i))
    then less
    else if ltb (mem (b + i)) (mem (a + i))
    then greater
    else rest

unfoldable pub memcmp : (ℕ → ℕ) → ℕ → ℕ → ℕ → Comparison
unfolding compare_from
memcmp mem aptr bptr size = compare_from mem aptr bptr 0 size

-- The loop runs on fuel, and `none` means that it ran out.
unfoldable pub strlen_from : ℕ → (ℕ → ℕ) → ℕ → ℕ → Option ℕ
strlen_from zero mem str len = none
strlen_from (suc fuel) mem str len =
    let rest = strlen_from fuel mem str (suc len) in if mem (str + len) == 0 then some len else rest

unfoldable pub strlen : ℕ → (ℕ → ℕ) → ℕ → Option ℕ
unfolding strlen_from
strlen fuel mem str = strlen_from fuel mem str 0
