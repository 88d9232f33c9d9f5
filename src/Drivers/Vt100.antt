-- ===== src/Drivers/Vt100.antt =====
-- drivers/vt100.c: the escape sequences of a VT100, with `tty_reset_state`, `tty_add_digit_char`
-- and `tty_set_alt_keypad` of drivers/tty-line.c. A fault is `none`.
pub mod Screen
pub mod Safety
pub mod Sequences
pub mod Position
use os0_kernel.Prelude.{
  ℕ, zero, suc, ◌+◌, ◌-◌, ◌*◌, ◌%◌, Bool, true, false, ◌||◌, ◌&&◌, Option, none, some, List, [],
  ◌∷◌, ltb, leb, ◌==◌, if◌then◌else◌, get_or, get_elem?, set, replicate, length,
}
use os0_kernel.Libk.Ctype.{isdigit, isspace, isgraph}
use os0_kernel.Libk.Numbers.{to_char}
use os0_kernel.Drivers.Vga.{
  Display, width, height, default_color, setfg, setbg, setcurs, blank_from, blank_rows,
  update_display, putchar,
}

-- `t_state`: 0, and then the constants VT100_STATE_ESC to VT100_STATE_BQ.
pub data State : Type 0 where
  rest esc csi lp rp bq : State

-- The terminal: its display, `t_state`, `t_statebuf`, `t_curritem`, and TTY_ALT_KEYPAD of
-- `t_flags`.
pub record Terminal : Type 0 where
  pub display : Display
  pub state : State
  pub statebuf : List ℕ
  pub curritem : ℕ
  pub alt_keypad : Bool

-- The length of `t_statebuf`
abbrev pub statebuf_items : ℕ
statebuf_items = 8

-- `tty_reset_state`
abbrev pub reset_state : Terminal → Terminal
reset_state t = record t { state = State.rest; statebuf = replicate statebuf_items 0; curritem = 0 }

-- `tty_add_digit_char`, in an `unsigned char`
pub add_digit_char : Terminal → ℕ → Option Terminal
add_digit_char t c = elim (get_elem? t.statebuf t.curritem) [
  | none ↦ none
  | some n ↦ some (record t { statebuf = set t.statebuf t.curritem ((n * 10 + (c - b'0')) % 256) })
]

-- `tty_set_alt_keypad`
pub set_alt_keypad : Terminal → Bool → Terminal
set_alt_keypad t on = reset_state (record t { alt_keypad = on })

-- The colors that `vt100_set_sgr` sets for the numbers 30 to 37 and 40 to 47, less 30 or 40.
pub sgr_color : ℕ → ℕ
sgr_color zero = 0
sgr_color (suc zero) = 4
sgr_color (suc (suc zero)) = 2
sgr_color (suc (suc (suc zero))) = 14
sgr_color (suc (suc (suc (suc zero)))) = 1
sgr_color (suc (suc (suc (suc (suc zero))))) = 5
sgr_color (suc (suc (suc (suc (suc (suc zero)))))) = 3
sgr_color (suc (suc (suc (suc (suc (suc (suc n))))))) = 15

-- The `switch` of `vt100_set_sgr` for one number
pub sgr : Display → ℕ → Display
sgr d n =
    if n == 0
    then record d { reverse = false; color = default_color }
    else if n == 7
    then record d { reverse = true }
    else if leb 30 n && leb n 37
    then record d { color = setfg d.color (sgr_color (n - 30)) }
    else if leb 40 n && leb n 47
    then record d { color = setbg d.color (sgr_color (n - 40)) }
    else d

-- The loop of `vt100_set_sgr`, with `n` rounds left from the number at the index `i` on
pub sgr_from : ℕ → List ℕ → Display → ℕ → Option Display
sgr_from zero buf d i = some d
sgr_from (suc n) buf d i = elim (get_elem? buf i) [
  | none ↦ none
  | some x ↦ sgr_from n buf (sgr d x) (i + 1)
]

-- What a sequence that is complete leaves: the display, and the state at rest.
abbrev pub finished : Terminal → Option Display → Option Terminal
finished t none = none
finished t (some d) = some (reset_state (record t { display = d }))

-- `vt100_set_sgr`
pub set_sgr : Terminal → Option Terminal
set_sgr t = finished t (sgr_from (t.curritem + 1) t.statebuf t.display 0)

-- A position counted from 1, and 0 for the first one, within a limit.
abbrev pub clamped : ℕ → ℕ → ℕ
clamped limit n = let m = (if ltb 0 n then n - 1 else n) in if leb limit m then limit - 1 else m

-- `vt100_set_cursor_pos`
pub set_cursor_pos : Terminal → Option Terminal
set_cursor_pos t = finished t (
    some (
      setcurs (record t.display {
        row = clamped height (get_or t.statebuf 0 0);
        column = clamped width (get_or t.statebuf 1 0);
      })))

-- The blanks, and then the display brought up to date
abbrev pub updated : Option Display → Option Display
updated none = none
updated (some d) = some (update_display d)

abbrev pub then_rows : ℕ → ℕ → Option Display → Option Display
then_rows n y none = none
then_rows n y (some d) = blank_rows n d y

-- The `switch` of `vt100_clear_screen`; rows are blanked from the cursor on, up to it, or all.
pub cleared_screen : Display → ℕ → Option Display
cleared_screen d n =
    if n == 0
    then then_rows (height - (d.row + 1)) (d.row + 1)
        (blank_from (width - d.column) d d.column d.row)
    else if n == 1
    then then_rows d.row 0 (blank_from d.column d 0 d.row)
    else if n == 2
    then blank_rows height d 0
    else some d

-- The `switch` of `vt100_clear_line`
pub cleared_line : Display → ℕ → Option Display
cleared_line d n =
    if n == 0
    then blank_from (width - d.column) d d.column d.row
    else if n == 1
    then blank_from d.column d 0 d.row
    else if n == 2
    then blank_from width d 0 d.row
    else some d

-- `vt100_clear_screen` and `vt100_clear_line`
pub clear_screen : Terminal → Option Terminal
clear_screen t = finished t (updated (cleared_screen t.display (get_or t.statebuf 0 0)))

pub clear_line : Terminal → Option Terminal
clear_line t = finished t (updated (cleared_line t.display (get_or t.statebuf 0 0)))

-- The case VT100_STATE_ESC of `vt100_handle_escaped_char`
pub after_esc : Terminal → ℕ → Option Terminal
after_esc t c =
    if c == b'['
    then some (record t { state = csi })
    else if c == b'('
    then some (record t { state = lp })
    else if c == b')'
    then some (record t { state = rp })
    else if c == b'='
    then some (set_alt_keypad t true)
    else if c == b'>'
    then some (set_alt_keypad t false)
    else some (reset_state t)

-- A digit of a number, or the end of the sequence
abbrev pub number : Terminal → ℕ → Option Terminal
number t c = if isdigit (to_char c) then add_digit_char t c else some (reset_state t)

-- The case VT100_STATE_CSI; `vt100_set_dec`, `vt100_reset_dec` and `r` only end the sequence.
pub after_csi : Terminal → ℕ → Option Terminal
after_csi t c =
    if c == b'?'
    then some (record t { state = bq })
    else if c == b'h' || c == b'l' || c == b'r'
    then some (reset_state t)
    else if c == b'm'
    then set_sgr t
    else if c == b'H'
    then set_cursor_pos t
    else if c == b'J'
    then clear_screen t
    else if c == b'K'
    then clear_line t
    else if c == b';'
    then (if t.curritem + 1 == statebuf_items
        then some (reset_state t)
        else some (record t { curritem = t.curritem + 1 }))
    else number t c

-- `vt100_handle_escaped_char`; a character set is chosen or not, the sequence ends.
pub handle_escaped_char : Terminal → State → ℕ → Option Terminal
handle_escaped_char t rest c = some (reset_state t)
handle_escaped_char t esc c = after_esc t c
handle_escaped_char t csi c = after_csi t c
handle_escaped_char t lp c = some (reset_state t)
handle_escaped_char t rp c = some (reset_state t)
handle_escaped_char t bq c = number t c

abbrev pub with_display : Terminal → Option Display → Option Terminal
with_display t none = none
with_display t (some d) = some (record t { display = d })

-- The other cases of `vt100_write_char`
pub plain_char : Terminal → ℕ → Option Terminal
plain_char t c =
    if c == 27
    then some (record t { state = esc })
    else if isspace (to_char c) || isgraph (to_char c)
    then with_display t (putchar t.display c)
    else some t

-- `t_state == 0`
abbrev pub at_rest : State → Bool
at_rest rest = true
at_rest esc = false
at_rest csi = false
at_rest lp = false
at_rest rp = false
at_rest bq = false

-- `vt100_write_char`
pub write_char : Terminal → ℕ → Option Terminal
write_char t c = if at_rest t.state then plain_char t c else handle_escaped_char t t.state c

-- `tty_write_data`
pub write_data : Terminal → List ℕ → Option Terminal
write_data t [] = some t
write_data t (c ∷ s) = elim (write_char t c) [ none ↦ none | some t' ↦ write_data t' s ]
