-- ===== src/Tests/Terminals.antt =====
-- The terminal: its screen, its escape sequences, its input buffer and its line discipline.
use os0_kernel.Prelude.{
  ◌≡◌, ◌<◌, ℕ, refl, some, [], ◌∷◌, ◌++◌, ◌+◌, ◌-◌, ◌%◌, ltb, if◌then◌else◌, arith,
}
use os0_kernel.Prelude.Ends.{Ends}
use os0_kernel.Libk.Numbers.Decimal.{spelled, value}
use os0_kernel.Drivers.Vga.{Display, height, screen_cells, width, putchar}
use os0_kernel.Drivers.Vga.Cells.{blank}
use os0_kernel.Drivers.Vga.Putchar.{newline_scrolls}
use os0_kernel.Drivers.Vt100.{Terminal, reset_state, write_data}
use os0_kernel.Drivers.Vt100.Safety.{IsSafe, write_data-IsSafe}
use os0_kernel.Drivers.Vt100.Position.{at_position, named, cursor_addressed}
use os0_kernel.Drivers.Tty.{Tty}
use os0_kernel.Drivers.Console.{default_tty}

-- The hardware is blank before the start.
abbrev pub started : Tty Terminal
started = default_tty (λ j. 0)

pub started-IsSafe : IsSafe started.screen
started-IsSafe = record {
  display = record {
    inside = record { row = omega arith; column = omega arith; shows = λ j h a. refl };
    cursor = refl;
  };
  items = refl;
  item = omega arith;
}

-- "A", and the first bytes of a sequence
write_data-IsSafe_example :
    Ends IsSafe (write_data started.screen (b'A' ∷ (27 ∷ (b'[' ∷ (b'9' ∷ [])))))
write_data-IsSafe_example =
    write_data-IsSafe started.screen (b'A' ∷ (27 ∷ (b'[' ∷ (b'9' ∷ [])))) started-IsSafe

-- The cursor at the start of the last row
abbrev last_row : Display
last_row = record started.screen.display { row = 24 }

newline_scrolls_example :
    (d' : Display) × (putchar last_row 10 ≡ some d')
    × (d'.row ≡ height - 1)
    × (d'.column ≡ 0)
    × ((j : ℕ)
        → j < screen_cells
        → d'.cells j
          ≡ (if ltb j (screen_cells - width) then last_row.cells (j + width) else blank last_row))
newline_scrolls_example = newline_scrolls last_row refl refl

-- ESC [ 12 ; 7 H
cursor_addressed_example :
    write_data
      (reset_state started.screen)
      (27 ∷ (b'[' ∷ (spelled (1 ∷ (2 ∷ [])) ++ (b';' ∷ (spelled (7 ∷ []) ++ (b'H' ∷ []))))))
    ≡ write_data
        (reset_state (record started.screen {
          display =
              at_position started.screen.display
                (named height (value 0 (1 ∷ (2 ∷ [])) % 256))
                (named width (value 0 (7 ∷ []) % 256));
        }))
        []
cursor_addressed_example =
    cursor_addressed started.screen (1 ∷ (2 ∷ [])) (7 ∷ []) [] (omega arith, (omega arith, tt))
      (omega arith, tt)
