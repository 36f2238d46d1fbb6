-- ===== src/Terminal/Screen.antt =====
-- The screen as a sequence of 2000 cells with a cursor: what printing a character does to it.
use swallow_os.Prelude.{
  ℕ, ◌+◌, ◌*◌, ◌≡◌, ◌<◌, refl, ◌∙◌, true, false, ◌&&◌, ◌==◌, if◌then◌else◌, ltb, leb, arith,
  Bool-cases, inl, inr,
}
use swallow_os.Prelude.Words.{u8}
use swallow_os.Terminal.{
  Terminal, newline, put_cell, terminal_putentryat, next_line, terminal_putchar, scroll_lines,
  terminal_delete_last_line,
}
use swallow_os.Terminal.Scrolling.{scrolled}

-- The cursor stands on the screen.
abbrev pub IsValid : Terminal → Type 0
IsValid t = (t.terminal_row < 25) × (t.terminal_column < 80)

abbrev pub position : Terminal → ℕ
position t = t.terminal_row * 80 + t.terminal_column

-- Where the cursor goes, before the screen scrolls.
abbrev pub after : Terminal → ℕ → ℕ
after t c = if c == newline then (t.terminal_row + 1) * 80 else position t + 1

module _ (v : ℕ) where
  -- The byte `b` of the screen with the character in its cell; a new line has none.
  abbrev pub typed : Terminal → ℕ → ℕ → ℕ
  typed t c b =
      if c == newline
      then t.mem (v + b)
      else if b == 2 * position t
      then u8 c
      else if b == 2 * position t + 1
      then u8 t.terminal_color
      else t.mem (v + b)

  -- The character is in its cell, and the cursor one further or at the next line. Past the last cell
  -- the lines have moved up by one, the last one is zero, and the cursor stands at its start.
  pub record Put (t : Terminal) (c : ℕ) (t' : Terminal) : Type 0 where
    pub valid : IsValid t'
    pub cursor : position t' ≡ (if after t c == 2000 then 1920 else after t c)
    pub cells :
        (b : ℕ)
        → b < 4000
        → t'.mem (v + b) ≡ (
            if after t c == 2000
            then (if ltb b 3840 then typed t c (b + 160) else 0)
            else typed t c b)
    pub color : t'.terminal_color ≡ t.terminal_color

  put_cell_at :
      (t : Terminal) (c b : ℕ)
      → (c == newline) ≡ false
      → put_cell v t.mem (position t) c t.terminal_color (v + b) ≡ typed t c b
  unfolding put_cell
  put_cell_at t c b e = ground arith

  moved_up :
      (t u : Terminal) (c b : ℕ)
      → b < 4000
      → ((b : ℕ) → u.mem (v + b) ≡ typed t c b)
      → terminal_delete_last_line v (scroll_lines v u.mem 1 24) (v + b)
        ≡ (if ltb b 3840 then typed t c (b + 160) else 0)
  moved_up t u c b h cells = elim (Bool-cases (ltb b 3840)) [
    | inl upper ↦
        let inside : (leb v (v + b) && ltb (v + b) (v + 3840)) ≡ true = ground arith in
        let below : v + b + 160 ≡ v + (b + 160) = omega arith in
        scrolled v u.mem (v + b) ∙ rw (inside, upper, below) (cells (b + 160))
    | inr last ↦
        let outside : (leb v (v + b) && ltb (v + b) (v + 3840)) ≡ false = ground arith in
        let inside : (leb (v + 3840) (v + b) && ltb (v + b) (v + 4007)) ≡ true = ground arith in
        scrolled v u.mem (v + b) ∙ rw (outside, inside, last) refl
  ]

  -- What the end of a line does, to a screen whose cells are `m`.
  next_line_lem :
      (t u : Terminal) (c : ℕ)
      → u.terminal_row ≡ t.terminal_row
      → u.terminal_color ≡ t.terminal_color
      → t.terminal_row < 25
      → after t c ≡ (t.terminal_row + 1) * 80
      → ((b : ℕ) → u.mem (v + b) ≡ typed t c b)
      → Put t c (next_line v u)
  unfolding next_line
  next_line_lem t u c same color lt goes cells = elim (Bool-cases (u.terminal_row + 1 == 25)) [
    | inl bottom ↦
        let past : (after t c == 2000) ≡ true = rw goes (ground arith) in
        rw bottom (record {
          valid = (omega arith, omega arith);
          cursor = rw past refl;
          cells = λ b h. rw past (moved_up t u c b h cells);
          color = color;
        })
    | inr more ↦
        let on : (after t c == 2000) ≡ false = rw goes (ground arith) in
        rw more (record {
          valid = (ground arith, omega arith);
          cursor = rw (on, same, goes) (omega arith);
          cells = λ b h. rw on (cells b);
          color = color;
        })
  ]

  -- With the cursor on the screen, printing a character keeps it there, writes the character and
  -- its color in the cursor's cell, or nothing for a new line, moves the cursor one cell on or to
  -- the next line, and scrolls the screen by one line where that is past the last cell.
  pub terminal_putchar-Put : (t : Terminal) (c : ℕ) → IsValid t → Put t c (terminal_putchar v t c)
  unfolding terminal_putchar terminal_putentryat
  terminal_putchar-Put t c valid = elim (Bool-cases (c == newline)) [
    | inl ends ↦ rw ends (
        next_line_lem t (record t { terminal_column = 79 }) c refl refl valid.0 (rw ends refl)
          (λ b. rw ends refl))
    | inr prints ↦
        let put : Terminal =
          terminal_putentryat v t c t.terminal_color t.terminal_column t.terminal_row in
        elim (Bool-cases (t.terminal_column + 1 == 80)) [
          | inl line_end ↦
              rw (prints, line_end)
                (next_line_lem t put c refl refl valid.0 (rw prints (ground arith))
                  (λ b. put_cell_at t c b prints))
          | inr more ↦
              let on : (after t c == 2000) ≡ false = rw prints (ground arith) in
              rw (prints, more)
                (record {
                  valid = (valid.0, ground arith);
                  cursor = rw (on, prints) (omega arith);
                  cells = λ b h. rw on (put_cell_at t c b prints);
                  color = refl;
                })
        ]
  ]
