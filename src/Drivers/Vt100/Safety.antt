-- ===== src/Drivers/Vt100/Safety.antt =====
-- Output on the VT100 of drivers/vt100.c: the screen and the numbers of a sequence.
use os0_kernel.Prelude.{
  ℕ, ◌+◌, ◌-◌, ◌*◌, ◌<◌, ◌≡◌, refl, ◌∙◌, ap, Bool, true, false, ◌||◌, Option, some, List, [], ◌∷◌,
  arith, ◌==◌, if◌then◌else◌, length, set, length-set, ◌%◌, get_or, get_elem?-get_or, inl, inr,
  Bool-cases,
}
use os0_kernel.Prelude.Ends.{Ends, Ends-if}
use os0_kernel.Libk.Ctype.{isdigit, isspace, isgraph}
use os0_kernel.Libk.Numbers.{to_char}
use os0_kernel.Drivers.Vga.{Display, width, height}
use os0_kernel.Drivers.Vga.Putchar.{IsValid, setcurs-IsValid, putchar-IsValid, moved-Inside}
use os0_kernel.Drivers.Vt100.{
  State, rest, at_rest, esc, csi, lp, rp, bq, Terminal, statebuf_items, reset_state, add_digit_char,
  set_alt_keypad, finished, set_sgr, clamped, set_cursor_pos, clear_screen, clear_line, after_esc,
  number, after_csi, handle_escaped_char, with_display, plain_char, write_char, write_data,
}
use os0_kernel.Drivers.Vt100.Screen.{
  sgr_from-IsValid, clamped_lt, updated-IsValid, cleared_screen-KeepsRest, cleared_line-KeepsRest,
}

-- The display is valid, and the number that is read is one of `t_statebuf`.
pub record IsSafe (t : Terminal) : Type 0 where
  pub display : IsValid t.display
  pub items : length t.statebuf ≡ statebuf_items
  pub item : t.curritem < statebuf_items

abbrev EndsSafe : Option Terminal → Type 0
EndsSafe = Ends IsSafe

reset_state-IsSafe : (t : Terminal) → IsValid t.display → IsSafe (reset_state t)
reset_state-IsSafe t w = record { display = w; items = refl; item = omega arith }

finished-IsSafe : (t : Terminal) (o : Option Display) → Ends IsValid o → EndsSafe (finished t o)
finished-IsSafe t o (d, e, w) =
    (_, ap (finished t) e, reset_state-IsSafe (record t { display = d }) w)

module _ (t : Terminal) (w : IsSafe t) where
  ended : EndsSafe (some (reset_state t))
  ended = (_, refl, reset_state-IsSafe t w.display)

  in_state : (s : State) → EndsSafe (some (record t { state = s }))
  in_state s = (_, refl, record { display = w.display; items = w.items; item = w.item })

  set_alt_keypad-IsSafe : (on : Bool) → EndsSafe (some (set_alt_keypad t on))
  unfolding set_alt_keypad
  set_alt_keypad-IsSafe on = (_, refl, reset_state-IsSafe (record t { alt_keypad = on }) w.display)

  add_digit_char-IsSafe : (c : ℕ) → EndsSafe (add_digit_char t c)
  unfolding add_digit_char
  add_digit_char-IsSafe c =
      rw (get_elem?-get_or t.statebuf t.curritem 0 (omega (arith, w.item, w.items)), add_digit_char)
        (
          record t {
            statebuf =
                set t.statebuf t.curritem
                  ((get_or t.statebuf t.curritem 0 * 10 + (c - b'0')) % 256);
          },
          refl,
          record {
            display = w.display;
            items = length-set t.statebuf t.curritem _ ∙ w.items;
            item = w.item;
          },
        )

  number-IsSafe : (c : ℕ) → EndsSafe (number t c)
  number-IsSafe c = Ends-if (isdigit (to_char c)) (add_digit_char-IsSafe c) ended

  set_sgr-IsSafe : EndsSafe (set_sgr t)
  unfolding set_sgr
  set_sgr-IsSafe = finished-IsSafe t _ (
      sgr_from-IsValid (t.curritem + 1) t.statebuf t.display 0 (omega (arith, w.item, w.items))
        w.display)

  set_cursor_pos-IsSafe : EndsSafe (set_cursor_pos t)
  unfolding set_cursor_pos
  set_cursor_pos-IsSafe = finished-IsSafe t _ (
    _,
    refl,
    setcurs-IsValid _ (
        moved-Inside t.display (clamped height (get_or t.statebuf 0 0))
          (clamped width (get_or t.statebuf 1 0)) w.display.inside
          (clamped_lt height (get_or t.statebuf 0 0) (omega arith))
          (clamped_lt width (get_or t.statebuf 1 0) (omega arith))),
  )

  clear_screen-IsSafe : EndsSafe (clear_screen t)
  unfolding clear_screen
  clear_screen-IsSafe =
      finished-IsSafe t _
        (updated-IsValid t.display _ w.display (cleared_screen-KeepsRest t.display w.display _))

  clear_line-IsSafe : EndsSafe (clear_line t)
  unfolding clear_line
  clear_line-IsSafe =
      finished-IsSafe t _
        (updated-IsValid t.display _ w.display (cleared_line-KeepsRest t.display w.display _))

  next_item : EndsSafe (
      if t.curritem + 1 == statebuf_items
      then some (reset_state t)
      else some (record t { curritem = t.curritem + 1 }))
  next_item = elim (Bool-cases (t.curritem + 1 == statebuf_items)) [
    | inl full ↦ rw full ended
    | inr more ↦ rw more (
      record t { curritem = t.curritem + 1 },
      refl,
      record { display = w.display; items = w.items; item = ground (arith, w.item) },
    )
  ]

  after_esc-IsSafe : (c : ℕ) → EndsSafe (after_esc t c)
  unfolding after_esc
  after_esc-IsSafe c = Ends-if (c == b'[') (in_state csi) (
      Ends-if (c == b'(') (in_state lp) (
        Ends-if (c == b')') (in_state rp) (
          Ends-if (c == b'=') (set_alt_keypad-IsSafe true)
            (Ends-if (c == b'>') (set_alt_keypad-IsSafe false) ended))))

  after_csi-IsSafe : (c : ℕ) → EndsSafe (after_csi t c)
  unfolding after_csi
  after_csi-IsSafe c = Ends-if (c == b'?') (in_state bq) (
      Ends-if (c == b'h' || c == b'l' || c == b'r') ended (
        Ends-if (c == b'm') set_sgr-IsSafe (
          Ends-if (c == b'H') set_cursor_pos-IsSafe (
            Ends-if (c == b'J') clear_screen-IsSafe (
              Ends-if (c == b'K') clear_line-IsSafe
                (Ends-if (c == b';') next_item (number-IsSafe c)))))))

  plain_char-IsSafe : (c : ℕ) → EndsSafe (plain_char t c)
  unfolding plain_char
  plain_char-IsSafe c =
      let (d, e, v) = putchar-IsValid t.display c w.display in
      Ends-if (c == 27) (in_state esc) (
        Ends-if (isspace (to_char c) || isgraph (to_char c))
          (
            record t { display = d },
            ap (with_display t) e,
            record { display = v; items = w.items; item = w.item },
          )
          (t, refl, w))

  escaped-IsSafe : (s : State) (c : ℕ) → EndsSafe (handle_escaped_char t s c)
  unfolding handle_escaped_char
  escaped-IsSafe rest c = ended
  escaped-IsSafe esc c = after_esc-IsSafe c
  escaped-IsSafe csi c = after_csi-IsSafe c
  escaped-IsSafe lp c = ended
  escaped-IsSafe rp c = ended
  escaped-IsSafe bq c = number-IsSafe c

-- `vt100_write_char` with any byte, in any state of a sequence, writes inside the screen and
-- inside `t_statebuf`: from a valid display it ends, and the display is valid again, the cursor on
-- the screen and all the cells shown by the hardware.
pub write_char-IsSafe : (t : Terminal) (c : ℕ) → IsSafe t → Ends IsSafe (write_char t c)
unfolding write_char
write_char-IsSafe t c w =
    Ends-if (at_rest t.state) (plain_char-IsSafe t w c) (escaped-IsSafe t w t.state c)

-- Writing any bytes to a VT100 terminal in a safe state, complete escape sequences or not, stays
-- inside the screen and inside `t_statebuf`: it ends, and the terminal is in a safe state again, the
-- cursor on the screen and all the cells shown by the hardware.
pub write_data-IsSafe : (t : Terminal) (s : List ℕ) → IsSafe t → Ends IsSafe (write_data t s)
unfolding write_data
write_data-IsSafe t [] w = (t, refl, w)
write_data-IsSafe t (c ∷ s) w =
    let (t', e, w') = write_char-IsSafe t c w in
    let (t'', e', w'') = write_data-IsSafe t' s w' in (t'', rw (e, write_data) e', w'')
