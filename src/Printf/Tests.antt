-- ===== src/Printf/Tests.antt =====
-- Formats at work.
use swallow_os.Prelude.{
  ℕ, ◌-◌, ◌^◌, ◌≡◌, ◌≤◌, ◌==◌, if◌then◌else◌, refl, false, List, [], ◌∷◌, length, some, arith,
}
use swallow_os.Printf.{Printed, vprintk_func, conversion, converted, unsigned}
use swallow_os.Printf.Numbers.{converted-some, longest}
use swallow_os.Printf.Reference.{expand}
use swallow_os.Printf.Expands.{Prints, vprintk_func-expand}

abbrev nothing : Printed
nothing = record { out = []; written = 0; failed = false }

-- The string `hi` at every address.
abbrev hi : ℕ → List ℕ
hi address = b'h' ∷ b'i' ∷ []

-- `%s%%%d.`, with a number as the second parameter.
abbrev greeting : List ℕ
greeting = b'%' ∷ b's' ∷ b'%' ∷ b'%' ∷ b'%' ∷ b'd' ∷ b'.' ∷ []

abbrev arguments : ℕ → ℕ
arguments i = if i == 0 then 4096 else 2 ^ 64 - 42

greeting_text : expand hi greeting arguments ≡ b'h' ∷ b'i' ∷ b'%' ∷ b'-' ∷ b'4' ∷ b'2' ∷ b'.' ∷ []
unfolding expand conversion converted
greeting_text = refl

greeting_run :
    vprintk_func 8 greeting arguments hi nothing
    ≡ some (record {
      out = b'h' ∷ b'i' ∷ b'%' ∷ b'-' ∷ b'4' ∷ b'2' ∷ b'.' ∷ [];
      written = 7;
      failed = false;
    })
unfolding vprintk_func
greeting_run = refl

vprintk_func-expand_example :
    Prints (vprintk_func 8 greeting arguments hi nothing) nothing (expand hi greeting arguments)
vprintk_func-expand_example =
    vprintk_func-expand 8 greeting arguments hi nothing (omega arith)
      (rw greeting_text (omega arith))

converted-some_example :
    (bytes : List ℕ) × (converted hi (unsigned 16) 0xbeef ≡ some bytes)
    × (length bytes ≤ longest hi (unsigned 16) 0xbeef)
converted-some_example = converted-some hi (unsigned 16) b'x' 0xbeef (unfold conversion in refl)
