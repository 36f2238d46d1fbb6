-- ===== src/Itoa.antt =====
-- Numbers as text: `itoa_internal`, `itoa_signed` and `itoa_unsigned` of libc/stdio/printf.c. A buffer is
-- a function of the index, and a pointer into it is an index. `none` means that the fuel ran out.
pub mod Digits
pub mod Reversal
pub mod Numerals
mod Tests
use swallow_os.Prelude.{
  ℕ, zero, suc, ◌+◌, ◌-◌, ◌*◌, ◌/◌, ◌%◌, ◌^◌, ◌||◌, ltb, leb, ◌==◌, if◌then◌else◌, update, Option,
  none, some,
}
use swallow_os.Prelude.Words.{u64}

abbrev pub Buffer : Type 0
Buffer = ℕ → ℕ

-- `'0' + num % base`, or `'a' + num % base - 10`.
unfoldable pub digit_char : ℕ → ℕ
digit_char d = if ltb d 10 then b'0' + d else b'a' + (d - 10)

-- The first loop: the digits from the right to the left, and where they end.
unfoldable pub emit : ℕ → Buffer → ℕ → ℕ → ℕ → Option (Buffer × ℕ)
unfolding digit_char
emit zero buf str num base = none
emit (suc fuel) buf str num base =
    let rest = emit fuel (update buf str (digit_char (num % base))) (str + 1) (num / base) base in
    if num == 0 then some (buf, str) else rest

-- The second loop.
unfoldable pub reverse_between : ℕ → Buffer → ℕ → ℕ → Option Buffer
reverse_between zero buf left right = none
reverse_between (suc fuel) buf left right =
    let rest =
      reverse_between fuel (update (update buf left (buf right)) right (buf left)) (left + 1)
        (right - 1) in
    if ltb left right then rest else some buf

-- Its caller has tested that the value is not zero: there is a digit before `str - 1`.
unfoldable pub itoa_internal : ℕ → ℕ → Buffer → ℕ → ℕ → Option Buffer
unfolding emit reverse_between
itoa_internal fuel value buf start base = elim (emit fuel buf start value base) [
  | none ↦ none
  | some (digits, str) ↦ reverse_between fuel (update digits str 0) start (str - 1)
]

-- `value` is the bit pattern of a `long`; its negation is that of the unsigned word.
unfoldable pub itoa_signed : ℕ → ℕ → Buffer → ℕ → Option Buffer
unfolding itoa_internal
itoa_signed fuel value buf base =
    if ltb base 2 || ltb 32 base
    then some buf
    else if value == 0
    then some (update (update buf 0 b'0') 1 0)
    else if leb (2 ^ 63) value
    then itoa_internal fuel (2 ^ 64 - value) (update buf 0 b'-') 1 base
    else itoa_internal fuel value buf 0 base

unfoldable pub itoa_unsigned : ℕ → ℕ → Buffer → ℕ → Option Buffer
unfolding itoa_internal
itoa_unsigned fuel value buf base =
    if ltb base 2 || ltb 32 base
    then some buf
    else if value == 0
    then some (update (update buf 0 b'0') 1 0)
    else itoa_internal fuel value buf 0 base
