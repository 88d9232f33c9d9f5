-- ===== src/Drivers/Console.antt =====
-- The terminal of drivers/tty-line.c with the VT100 of drivers/vt100.c, as in `default_tty`: the
-- VT100 and the screen of drivers/vga.c are an emulator of the line discipline.
use os0_kernel.Prelude.{ℕ, ap, true, false, Option, [], ◌∷◌, get_or, replicate}
use os0_kernel.Prelude.Ends.{Ends}
use os0_kernel.Drivers.Vga.{Display, default_color, erase_char, erase_line}
use os0_kernel.Drivers.Vga.Putchar.{IsValid}
use os0_kernel.Drivers.Vga.Blank.{erase_char-IsValid, erase_line-IsValid}
use os0_kernel.Drivers.Vt100.{Terminal, rest, statebuf_items, with_display, write_char}
use os0_kernel.Drivers.Vt100.Safety.{IsSafe, write_char-IsSafe}
use os0_kernel.Drivers.Input.{Termios}
use os0_kernel.Drivers.Tty.{Emulator, Keeps, Tty}

-- `vt100_write_char`, and the functions of drivers/vga.c that erase
abbrev pub vt100 : Emulator Terminal
vt100 = record {
  write_char = write_char;
  erase_char = λ t. with_display t (erase_char t.display);
  erase_line = λ t n. with_display t (erase_line t.display n);
  column = λ t. t.display.column;
}

with_display-IsSafe :
    (t : Terminal) (o : Option Display) → IsSafe t → Ends IsValid o → Ends IsSafe (with_display t o)
with_display-IsSafe t o w (d, e, v) = (
  record t { display = d },
  ap (with_display t) e,
  record { display = v; items = w.items; item = w.item },
)

-- The VT100 fills the interface of the line discipline: each of its operations ends and keeps the
-- cursor and all writes on the screen.
pub vt100-Keeps : Keeps vt100 IsSafe
vt100-Keeps = record {
  write_char = λ t c w. write_char-IsSafe t c w;
  erase_char = λ t w. with_display-IsSafe t _ w (erase_char-IsValid t.display w.display);
  erase_line = λ t n w. with_display-IsSafe t _ w (erase_line-IsValid t.display n w.display);
}

-- The control characters of `default_tty`, by their index; the others are 0.
abbrev pub default_cc : ℕ → ℕ
default_cc i =
    get_or
      (3
        ∷ (28
            ∷ (31
                ∷ (21
                    ∷ (4
                        ∷ (0
                            ∷ (1
                                ∷ (17
                                    ∷ (19
                                        ∷ (26
                                            ∷ (0xff
                                                ∷ (18 ∷ (15 ∷ (23 ∷ (22 ∷ (0xff ∷ []))))))))))))))))
      i 0

-- DEFAULT_IFLAG and DEFAULT_LFLAG
abbrev pub default_termios : Termios
default_termios = record { c_iflag = 0x2d22; c_lflag = 0x8a1b; c_cc = default_cc }

-- `default_tty`, as the current terminal and with the memory of the hardware
abbrev pub default_tty : (ℕ → ℕ) → Tty Terminal
default_tty hardware = record {
  screen = record {
    display = record {
      cells = λ j. 0;
      hardware = hardware;
      cursor = 0;
      active = true;
      iflag = 0x2d22;
      row = 0;
      column = 0;
      color = default_color;
      reverse = false;
    };
    state = rest;
    statebuf = replicate statebuf_items 0;
    curritem = 0;
    alt_keypad = false;
  };
  input = record { tb_data = λ i. 0; tb_start = 0; tb_end = 0; ready = false; beeps = 0 };
  termios = default_termios;
  fg_pgid = 0;
  quoted = false;
  sent = [];
}
