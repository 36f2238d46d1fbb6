-- ===== src/Bytes/Tests.antt =====
-- The byte functions on a concrete memory.
use swallow_os.Prelude.{ℕ, ◌≡◌, refl, ltb, if◌then◌else◌}
use swallow_os.Bytes.{Comparison, less, memcpy, memmove, memcmp, strlen}
use swallow_os.Bytes.Copies.{Copied, memmove-Copied}

-- Every byte is its address, up to address 9.
abbrev mem : ℕ → ℕ
mem a = if ltb a 10 then a else 0

overlap : memmove mem 3 2 4 6 ≡ 5
unfolding memmove swallow_os.Bytes.copy_up swallow_os.Bytes.copy_down
overlap = refl

smaller : memcmp mem 2 3 2 ≡ less
unfolding memcmp swallow_os.Bytes.compare_from
smaller = refl

memmove-Copied_example : Copied mem 3 2 4 (memmove mem 3 2 4)
memmove-Copied_example = memmove-Copied mem 3 2 4
