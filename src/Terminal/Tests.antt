-- ===== src/Terminal/Tests.antt =====
-- The screen on concrete characters.
use swallow_os.Prelude.{arith}
use swallow_os.Terminal.{Terminal, terminal_putchar}
use swallow_os.Terminal.Screen.{Put, terminal_putchar-Put}

-- The cursor stands in the last cell of the screen.
abbrev full : Terminal
full = record { terminal_row = 24; terminal_column = 79; terminal_color = 7; mem = λ a. 32 }

terminal_putchar-Put_example :
    Put 0xffff_ffff_c00b_8000 full 65 (terminal_putchar 0xffff_ffff_c00b_8000 full 65)
terminal_putchar-Put_example =
    terminal_putchar-Put 0xffff_ffff_c00b_8000 full 65 (omega arith, omega arith)
