-- ===== src/Printf.antt =====
-- `vprintk_func` of libc/stdio/printf.c. The format is the list of its bytes before the zero byte, the
-- parameters are 64-bit words, and `text` gives the bytes of the string at an address. `putchar` of the
-- kernel's library always succeeds, so `print` adds to the output. `none` means that the fuel ran out.
pub mod Reference
pub mod Numbers
pub mod Expands
mod Tests
use swallow_os.Prelude.{
  ℕ, zero, suc, ◌+◌, ◌-◌, ◌%◌, ◌^◌, ◌&&◌, ◌||◌, not, ltb, leb, ◌==◌, if◌then◌else◌, Bool, true,
  false, List, [], ◌∷◌, ◌++◌, length, Option, none, some,
}
use swallow_os.Prelude.Words.{u8, u32, u64}
use swallow_os.Bytes.{strlen}
use swallow_os.Itoa.{Buffer, itoa_signed, itoa_unsigned}

-- What was printed, how many bytes, and whether `-1` was returned.
pub record Printed : Type 0 where
  pub out : List ℕ
  pub written : ℕ
  pub failed : Bool

-- `char str[32]` after `memset`.
abbrev pub empty_buffer : Buffer
empty_buffer i = 0

abbrev pub buffer_size : ℕ
buffer_size = 32

-- The first `n` bytes of a buffer from the index `p` on.
abbrev pub bytes_from : Buffer → ℕ → ℕ → List ℕ
bytes_from buf p zero = []
bytes_from buf p (suc n) = buf p ∷ bytes_from buf (p + 1) n

-- The text of a buffer up to its first zero byte; the rounds are more than the buffer has bytes.
unfoldable pub buffer_text : Option Buffer → Option (List ℕ)
unfolding strlen
buffer_text none = none
buffer_text (some buf) = elim (strlen (buffer_size + 1) buf 0) [
  | none ↦ none
  | some len ↦ some (bytes_from buf 0 len)
]

-- `int num = (long) …`: the low 32 bits, and their sign.
abbrev pub sign_extend : ℕ → ℕ
sign_extend w = if leb (2 ^ 31) (u32 w) then 2 ^ 64 - 2 ^ 32 + u32 w else u32 w

unfoldable pub signed_text : ℕ → Option (List ℕ)
unfolding buffer_text itoa_signed
signed_text w = buffer_text (itoa_signed 65 (sign_extend w) empty_buffer 10)

unfoldable pub unsigned_text : ℕ → ℕ → Option (List ℕ)
unfolding buffer_text itoa_unsigned
unsigned_text base w = buffer_text (itoa_unsigned 65 (u64 w) empty_buffer base)

-- The conversions that the function knows.
pub data Conversion : Type 0 where
  character string signed : Conversion
  unsigned : ℕ → Conversion

unfoldable pub conversion : ℕ → Option Conversion
conversion c =
    if c == b'c'
    then some character
    else if c == b's'
    then some string
    else if c == b'd'
    then some signed
    else if c == b'x'
    then some (unsigned 16)
    else if c == b'u'
    then some (unsigned 10)
    else none

unfoldable pub converted : (ℕ → List ℕ) → Conversion → ℕ → Option (List ℕ)
unfolding signed_text unsigned_text
converted text character w = some (u8 w ∷ [])
converted text string w = some (text w)
converted text signed w = signed_text w
converted text (unsigned base) w = unsigned_text base w

-- The test on the bytes that may still be written; numbers have none.
unfoldable pub too_long : Conversion → ℕ → ℕ → Bool
too_long character maxrem len = maxrem == 0
too_long string maxrem len = ltb maxrem len
too_long signed maxrem len = false
too_long (unsigned base) maxrem len = false

-- `written` is an `int`, here its bit pattern.
abbrev pub maxrem : Printed → ℕ
maxrem p = 2 ^ 64 - 1 - sign_extend p.written

-- `print`, and `written += …`
unfoldable pub print : Printed → List ℕ → Printed
print p bytes = record p { out = p.out ++ bytes; written = u32 (p.written + length bytes) }

abbrev pub fail : Printed → Printed
fail p = record p { failed = true }

-- Up to the next percent sign, and from there on.
unfoldable pub take_plain : List ℕ → List ℕ
take_plain [] = []
take_plain (c ∷ cs) = if c == b'%' then [] else c ∷ take_plain cs

unfoldable pub drop_plain : List ℕ → List ℕ
drop_plain [] = []
drop_plain (c ∷ cs) = if c == b'%' then c ∷ cs else drop_plain cs

abbrev pub next_parameter : (ℕ → ℕ) → ℕ → ℕ
next_parameter parameters i = parameters (i + 1)

-- The bytes `c` and `plain`, up to a percent sign, are printed as they are. So is a last percent sign.
unfoldable pub print_plain : Printed → ℕ → List ℕ → Option Printed
unfolding print take_plain
print_plain p c plain =
    if ltb (maxrem p) (length (c ∷ take_plain plain))
    then none
    else some (print p (c ∷ take_plain plain))

unfoldable pub vprintk_func : ℕ → List ℕ → (ℕ → ℕ) → (ℕ → List ℕ) → Printed → Option Printed
unfolding print_plain print converted conversion too_long drop_plain
vprintk_func zero format parameters text p = none
vprintk_func (suc fuel) [] parameters text p = some p
vprintk_func (suc fuel) (c ∷ []) parameters text p = elim (print_plain p c []) [
  | none ↦ some (fail p)
  | some q ↦ some q
]
vprintk_func (suc fuel) (c ∷ d ∷ more) parameters text p = elim (c == b'%') [
  | false ↦ elim (print_plain p c (d ∷ more)) [
    | none ↦ some (fail p)
    | some q ↦ vprintk_func fuel (drop_plain (d ∷ more)) parameters text q
  ]
  | true ↦ elim (d == b'%') [
    | true ↦ elim (print_plain p c more) [
      | none ↦ some (fail p)
      | some q ↦ vprintk_func fuel (drop_plain more) parameters text q
    ]
    | false ↦ elim (conversion d) [
      | none ↦
          some (if ltb (maxrem p) (length (c ∷ d ∷ more)) then fail p else print p (c ∷ d ∷ more))
      | some k ↦ elim (converted text k (parameters 0)) [
        | none ↦ none
        | some bytes ↦ elim (too_long k (maxrem p) (length bytes)) [
          | true ↦ some (fail p)
          | false ↦ vprintk_func fuel more (next_parameter parameters) text (print p bytes)
        ]
      ]
    ]
  ]
]
