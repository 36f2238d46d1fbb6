-- ===== src/Terminal.antt =====
-- The text screen of kernel/arch/x86_64/boot/tty.c. Memory is a function of the address, and the screen
-- stands at `vga_memory`, which the build defines. The copy of every character on the serial line and
-- the hardware's cursor are port traffic and not modelled.
pub mod Scrolling
pub mod Screen
mod Tests
use swallow_os.Prelude.{
  ℕ, zero, suc, ◌+◌, ◌-◌, ◌*◌, ◌^◌, ◌%◌, ◌/◌, ◌==◌, if◌then◌else◌, update, bit_or, List, [], ◌∷◌,
}
use swallow_os.Prelude.Words.{u8, u16}

abbrev pub vga_width : ℕ
vga_width = 80

abbrev pub vga_height : ℕ
vga_height = 25

pub record Terminal : Type 0 where
  pub terminal_row : ℕ
  pub terminal_column : ℕ
  pub terminal_color : ℕ
  pub mem : ℕ → ℕ

-- The code of the new-line character.
abbrev pub newline : ℕ
newline = 10

module _ (vga_memory : ℕ) where
  -- The character is the low byte of `vga_entry`, and the color the high one.
  unfoldable pub put_cell : (ℕ → ℕ) → ℕ → ℕ → ℕ → ℕ → ℕ
  put_cell mem index c color =
      update (update mem (vga_memory + 2 * index) (u8 c)) (vga_memory + 2 * index + 1) (u8 color)

  unfoldable pub terminal_putentryat : Terminal → ℕ → ℕ → ℕ → ℕ → Terminal
  terminal_putentryat t c color x y = record t { mem = put_cell t.mem (y * vga_width + x) c color }

  -- The loop of `terminal_scroll`, with `n` bytes to go.
  unfoldable pub scroll_bytes : (ℕ → ℕ) → ℕ → ℕ → ℕ → ℕ
  scroll_bytes mem loop zero = mem
  scroll_bytes mem loop (suc n) =
      scroll_bytes (update mem (loop - vga_width * 2) (mem loop)) (loop + 1) n

  unfoldable pub terminal_scroll : (ℕ → ℕ) → ℕ → ℕ → ℕ
  terminal_scroll mem line = scroll_bytes mem (line * (vga_width * 2) + vga_memory) (vga_width * 2)

  -- The loop over the lines in `terminal_putchar`, with `n` lines to go.
  unfoldable pub scroll_lines : (ℕ → ℕ) → ℕ → ℕ → ℕ → ℕ
  scroll_lines mem line zero = mem
  scroll_lines mem line (suc n) = scroll_lines (terminal_scroll mem line) (line + 1) n

  -- A `uint64_t` zero is written, eight bytes.
  unfoldable pub write_zero64 : (ℕ → ℕ) → ℕ → ℕ → ℕ → ℕ
  write_zero64 mem ptr zero = mem
  write_zero64 mem ptr (suc n) = write_zero64 (update mem ptr 0) (ptr + 1) n

  -- The loop of `terminal_delete_last_line`, with `n` rounds to go.
  unfoldable pub delete_from : (ℕ → ℕ) → ℕ → ℕ → ℕ → ℕ
  delete_from mem x zero = mem
  delete_from mem x (suc n) =
      delete_from (write_zero64 mem (vga_memory + vga_width * 2 * (vga_height - 1) + x) 8) (x + 1) n

  unfoldable pub terminal_delete_last_line : (ℕ → ℕ) → ℕ → ℕ
  terminal_delete_last_line mem = delete_from mem 0 (vga_width * 2)

  -- The cursor has moved past the end of a line: it goes to the next one, or the screen scrolls.
  unfoldable pub next_line : Terminal → Terminal
  next_line t =
      if t.terminal_row + 1 == vga_height
      then record t {
        terminal_column = 0;
        terminal_row = vga_height - 1;
        mem = terminal_delete_last_line (scroll_lines t.mem 1 (vga_height - 1));
      }
      else record t { terminal_column = 0; terminal_row = t.terminal_row + 1 }

  unfoldable pub terminal_putchar : Terminal → ℕ → Terminal
  terminal_putchar t c =
      let put =
        if c == newline
        then record t { terminal_column = vga_width - 1 }
        else terminal_putentryat t c t.terminal_color t.terminal_column t.terminal_row in
      if put.terminal_column + 1 == vga_width
      then next_line put
      else record put { terminal_column = put.terminal_column + 1 }

  unfoldable pub terminal_write : Terminal → List ℕ → Terminal
  terminal_write t [] = t
  terminal_write t (c ∷ rest) = terminal_write (terminal_putchar t c) rest
