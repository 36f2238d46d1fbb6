-- ===== src/Keyboard/Tests.antt =====
-- The keyboard on a concrete buffer.
use swallow_os.Prelude.{
  ◌≡◌, refl, ◌==◌, ◌&&◌, not, ltb, if◌then◌else◌, [], ◌∷◌, ◌++◌, length, arith,
}
use swallow_os.Prelude.Bits.{bit}
use swallow_os.Pic.Masks.{mask}
use swallow_os.Keyboard.{Keyboard, scancode_to_ascii, keyboard_handler, sys_getchar}
use swallow_os.Keyboard.Ring.{contents, IsValid}
use swallow_os.Keyboard.Laws.{
  first, rest, first_only, keyboard_handler-contents, sys_getchar-contents,
}

-- Two characters wait, across the end of the array.
abbrev typed : Keyboard
typed = record {
  keyboard_buffer = λ n. if n == 0 then 66 else 65;
  key_buffer_start = 255;
  key_buffer_end = 1;
  pic = record { mask1 = 0; mask2 = 0 };
}

-- The key of the letter a.
letter : contents (keyboard_handler 30 typed).0 ≡ 65 ∷ 66 ∷ 97 ∷ []
unfolding contents swallow_os.Keyboard.Ring.window keyboard_handler swallow_os.Keyboard.store
    scancode_to_ascii swallow_os.Keyboard.at
letter = refl

keyboard_handler-contents_example :
    IsValid (keyboard_handler 30 typed).0
    × (contents (keyboard_handler 30 typed).0 ≡ (
        if (bit 7 30 == 0) && (not (scancode_to_ascii 30 == 0) && ltb (length (contents typed)) 255)
        then contents typed ++ scancode_to_ascii 30 ∷ []
        else contents typed))
keyboard_handler-contents_example = keyboard_handler-contents typed (omega arith, omega arith) 30

sys_getchar-contents_example :
    ((sys_getchar typed).1 ≡ first (contents typed))
    × (contents (sys_getchar typed).0 ≡ rest (contents typed))
    × IsValid (sys_getchar typed).0
    × (mask (sys_getchar typed).0.pic 0 ≡ length (first_only (contents typed)))
    × (mask (sys_getchar typed).0.pic 1 ≡ length (first_only (contents typed)))
sys_getchar-contents_example = sys_getchar-contents typed (omega arith, omega arith)
