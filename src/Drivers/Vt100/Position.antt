-- ===== src/Drivers/Vt100/Position.antt =====
-- The escape sequences of drivers/vt100.c that place the cursor and set the colors.
use mathlib.Core.List.{append_assoc}
use os0_kernel.Prelude.{
  ℕ, ◌*◌, ◌<◌, leb, ◌==◌, if◌then◌else◌, ◌+◌, ◌-◌, ◌%◌, ◌≡◌, refl, ◌∙◌, ap, sym, Bool, some, List,
  [], ◌∷◌, ◌++◌, arith, get_or, replicate,
}
use os0_kernel.Libk.Numbers.Decimal.{AllDigits, value, spelled}
use os0_kernel.Drivers.Vga.{Display, width, height, setcurs}
use os0_kernel.Drivers.Vga.Putchar.{setcurs-placed}
use os0_kernel.Drivers.Vt100.{
  Terminal, statebuf_items, reset_state, sgr, clamped, set_cursor_pos, after_csi,
  handle_escaped_char, write_char, write_data,
}
use os0_kernel.Drivers.Vt100.Sequences.{
  reading, joined, write_data-cons, write_data-csi, write_data-joined,
}

write_char-cursor :
    (d : Display) (a : Bool) (buf : List ℕ) (i : ℕ)
    → write_char (reading d a buf i) b'H'
      ≡ some (
          reset_state (
            reading
              (setcurs (record d {
                row = clamped height (get_or buf 0 0);
                column = clamped width (get_or buf 1 0);
              }))
              a
              buf
              i))
unfolding write_char handle_escaped_char after_csi set_cursor_pos
write_char-cursor d a buf i = refl

-- The row or column of a screen with `limit` of them that a number names: they are counted from 1, 0
-- stands for 1, and a number beyond the last one for the last one.
pub named : ℕ → ℕ → ℕ
named limit n = if n == 0 then 0 else if leb n limit then n - 1 else limit - 1

clamped-named : (limit n : ℕ) → 0 < limit → clamped limit n ≡ named limit n
unfolding named
clamped-named limit n h = ground arith

named_lt : (limit n : ℕ) → 0 < limit → named limit n < limit
unfolding named
named_lt limit n h = ground arith

-- The display with the cursor at a row and a column
abbrev pub at_position : Display → ℕ → ℕ → Display
at_position d row column = record d { row = row; column = column; cursor = row * width + column }

setcurs-named :
    (d : Display) (r c : ℕ)
    → setcurs (record d { row = clamped height r; column = clamped width c })
      ≡ at_position d (named height r) (named width c)
setcurs-named d r c =
    ap (λ m. setcurs (record d { row = m; column = clamped width c }))
      (clamped-named height r (omega arith))
    ∙ ap (λ m. setcurs (record d { row = named height r; column = m }))
        (clamped-named width c (omega arith))
    ∙ setcurs-placed (record d { row = named height r; column = named width c })
        (named_lt height r (omega arith)) (named_lt width c (omega arith))

-- The sequence ESC [ row ; column H, its numbers in decimal, places the cursor at that row and
-- column of the screen, counted from 1, and so on the hardware; a number goes modulo 256, 0 stands
-- for 1, and one beyond the screen for its last row or column. Nothing else of the display changes,
-- and the terminal is at rest before and after.
pub cursor_addressed :
    (t : Terminal) (rows columns s : List ℕ)
    → AllDigits rows
    → AllDigits columns
    → write_data
        (reset_state t)
        (27 ∷ (b'[' ∷ (spelled rows ++ (b';' ∷ (spelled columns ++ (b'H' ∷ s))))))
      ≡ write_data
          (reset_state (record t {
            display =
                at_position t.display
                  (named height (value 0 rows % 256))
                  (named width (value 0 columns % 256));
          }))
          s
unfolding joined
cursor_addressed t rows columns s h k =
    write_data-csi t _
    ∙ ap (write_data (reading t.display t.alt_keypad (replicate statebuf_items 0) 0))
        (sym (append_assoc (spelled rows) (b';' ∷ spelled columns) (b'H' ∷ s)))
    ∙ write_data-joined t.display t.alt_keypad (columns ∷ []) rows [] (b'H' ∷ s) 7 refl
        (omega arith) h (k, tt)
    ∙ write_data-cons _ _ _ _ (write_char-cursor t.display t.alt_keypad _ 1)
    ∙ ap (λ d. write_data (reset_state (record t { display = d })) s)
        (setcurs-named t.display (value 0 rows % 256) (value 0 columns % 256))

-- The display with the attributes of each number in turn
pub colored : Display → List ℕ → Display
colored d [] = d
colored d (n ∷ ns) = colored (sgr d n) ns
