-- ===== src/Terminal/Scrolling.antt =====
-- What the loops that scroll the screen leave at every address.
use swallow_os.Prelude.{
  ℕ, zero, suc, ◌+◌, ◌-◌, ◌*◌, ◌≡◌, ◌≤◌, refl, ◌∙◌, true, false, ◌&&◌, if◌then◌else◌, ltb, leb,
  update, arith, Bool-cases, inl, inr,
}
use swallow_os.Terminal.{
  scroll_bytes, terminal_scroll, scroll_lines, write_zero64, delete_from, terminal_delete_last_line,
}

module _ (v : ℕ) where
  scroll_bytes_at :
      (mem : ℕ → ℕ) (loop n a : ℕ)
      → 160 ≤ loop
      → n ≤ 160
      → scroll_bytes v mem loop n a
        ≡ (if leb loop (a + 160) && ltb (a + 160) (loop + n) then mem (a + 160) else mem a)
  unfolding scroll_bytes
  scroll_bytes_at mem loop zero a h g = ground arith
  scroll_bytes_at mem loop (suc n) a h g =
      scroll_bytes_at (update mem (loop - 160) (mem loop)) (loop + 1) n a (omega arith)
        (omega arith)
      ∙ ground arith

  scroll_lines_at :
      (mem : ℕ → ℕ) (line n a : ℕ)
      → 1 ≤ line
      → scroll_lines v mem line n a ≡ (
          if leb (line * 160 + v) (a + 160) && ltb (a + 160) ((line + n) * 160 + v)
          then mem (a + 160)
          else mem a)
  unfolding scroll_lines terminal_scroll
  scroll_lines_at mem line zero a h = ground arith
  scroll_lines_at mem line (suc n) a h =
      elim (Bool-cases
        (leb ((line + 1) * 160 + v) (a + 160) && ltb (a + 160) ((line + 1 + n) * 160 + v))) [
          | inl later ↦
              let inside : (leb (line * 160 + v) (a + 160)
                    && ltb (a + 160) ((line + suc n) * 160 + v))
                  ≡ true =
                ground arith in
              let spared : (leb (line * 160 + v) (a + 160 + 160)
                    && ltb (a + 160 + 160) (line * 160 + v + 160))
                  ≡ false =
                ground arith in
              scroll_lines_at (terminal_scroll v mem line) (line + 1) n a (omega arith)
              ∙ rw
                  (
                    later,
                    inside,
                    scroll_bytes_at mem (line * 160 + v) 160 (a + 160) (omega arith) (omega arith),
                    spared,
                  )
                  refl
          | inr other ↦
              elim (Bool-cases
                (leb (line * 160 + v) (a + 160) && ltb (a + 160) (line * 160 + v + 160))) [
                  | inl here ↦
                      let inside : (leb (line * 160 + v) (a + 160)
                            && ltb (a + 160) ((line + suc n) * 160 + v))
                          ≡ true =
                        ground arith in
                      scroll_lines_at (terminal_scroll v mem line) (line + 1) n a (omega arith)
                      ∙ rw
                          (
                            other,
                            inside,
                            scroll_bytes_at mem (line * 160 + v) 160 a (omega arith) (omega arith),
                            here,
                          )
                          refl
                  | inr outside ↦
                      let out_too : (leb (line * 160 + v) (a + 160)
                            && ltb (a + 160) ((line + suc n) * 160 + v))
                          ≡ false =
                        ground arith in
                      scroll_lines_at (terminal_scroll v mem line) (line + 1) n a (omega arith)
                      ∙ rw
                          (
                            other,
                            out_too,
                            scroll_bytes_at mem (line * 160 + v) 160 a (omega arith) (omega arith),
                            outside,
                          )
                          refl
                ]
        ]

  write_zero64_at :
      (mem : ℕ → ℕ) (ptr n a : ℕ)
      → write_zero64 v mem ptr n a ≡ (if leb ptr a && ltb a (ptr + n) then 0 else mem a)
  unfolding write_zero64
  write_zero64_at mem ptr zero a = ground arith
  write_zero64_at mem ptr (suc n) a =
      write_zero64_at (update mem ptr 0) (ptr + 1) n a ∙ ground arith

  delete_from_at :
      (mem : ℕ → ℕ) (x n a : ℕ)
      → delete_from v mem x (suc n) a
        ≡ (if leb (v + 3840 + x) a && ltb a (v + 3840 + x + n + 8) then 0 else mem a)
  unfolding delete_from
  delete_from_at mem x zero a = write_zero64_at mem (v + 3840 + x) 8 a ∙ ground arith
  delete_from_at mem x (suc n) a =
      delete_from_at (write_zero64 v mem (v + 3840 + x) 8) (x + 1) n a
      ∙ ground (arith, write_zero64_at mem (v + 3840 + x) 8 a)

  -- The screen has moved up by one line of 160 bytes; the last line, and seven bytes behind it, are
  -- zero.
  pub scrolled :
      (mem : ℕ → ℕ) (a : ℕ)
      → terminal_delete_last_line v (scroll_lines v mem 1 24) a ≡ (
          if leb v a && ltb a (v + 3840)
          then mem (a + 160)
          else if leb (v + 3840) a && ltb a (v + 4007)
          then 0
          else mem a)
  unfolding terminal_delete_last_line
  scrolled mem a =
      delete_from_at (scroll_lines v mem 1 24) 0 159 a
      ∙ ground (arith, scroll_lines_at mem 1 24 a (omega arith))
