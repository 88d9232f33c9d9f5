-- ===== src/Drivers/Tty/Typing.antt =====
-- Typing at the terminal of drivers/tty-line.c: what the characters do to the input buffer.
use os0_kernel.Prelude.{
  ℕ, ◌≡◌, refl, ◌∙◌, ap, true, false, not, ◌||◌, ◌&&◌, Option, some, List, [], ◌∷◌, ltb, ◌==◌, ◌!=◌,
  if◌then◌else◌, inl, inr, Bool-cases,
}
use os0_kernel.Prelude.Ends.{Ends, Ends-if}
use os0_kernel.Libk.Ctype.{iscntrl}
use os0_kernel.Libk.Numbers.{to_char}
use os0_kernel.Drivers.Input.{Termios, has_lflag, icanon, veof, char_match}
use os0_kernel.Drivers.Tty.{
  Emulator, Keeps, Tty, Processes, signal_of, then_write, show_char, process_output, onward, raw,
  signalled, ends_line, after_edit, edit, edit_extended, process_input, echoe, echok, echoke,
  echoctl, isig, iexten, verase, vkill, vwerase, vreprint, vlnext,
}

-- Showing never faults on an emulator that keeps `P`.
module _ {S : Type 0} (e : Emulator S) (P : S → Type 0) (k : Keeps e P) (tm : Termios) where
  pub then_write-Ends : (o : Option S) (c : ℕ) → Ends P o → Ends P (then_write e o c)
  then_write-Ends o c (s, eq, p) =
      let (s', eq', p') = k.write_char s c p in (s', ap (λ x. then_write e x c) eq ∙ eq', p')

  pub show_char-Ends : (s : S) (c : ℕ) → P s → Ends P (show_char e tm s c)
  unfolding show_char
  show_char-Ends s c p = Ends-if (c == 10 || c == 9) (k.write_char s c p) (
      Ends-if (iscntrl (to_char c) && has_lflag tm echoctl)
        (Ends-if (not (char_match tm c veof) || ltb 0 (e.column s))
          (then_write-Ends _ _ (k.write_char s b'^' p)) (s, refl, p))
        (k.write_char s c p))

  pub process_output-Ends : (s : S) (c arg : ℕ) → P s → Ends P (process_output e tm s c arg)
  unfolding process_output
  process_output-Ends s c arg p =
      Ends-if (has_lflag tm icanon && (char_match tm c _ && has_lflag tm echoe))
        (Ends-if (arg != 0) (k.erase_char s p) (s, refl, p))
        (Ends-if (has_lflag tm icanon && (char_match tm c _ && has_lflag tm echoe))
          (k.erase_line s arg p)
          (Ends-if
            (has_lflag tm icanon
              && (char_match tm c _ && (has_lflag tm echok || has_lflag tm echoke)))
            (k.erase_line s arg p) (show_char-Ends s c p)))

-- The character does not edit the input in canonical mode.
pub record Unedited (tm : Termios) (c : ℕ) : Type 0 where
  pub line : ends_line tm c ≡ false
  pub eof : char_match tm c veof ≡ false
  pub erase : char_match tm c verase ≡ false
  pub kill : char_match tm c vkill ≡ false
  pub werase : char_match tm c vwerase ≡ false
  pub reprint : char_match tm c vreprint ≡ false
  pub lnext : char_match tm c vlnext ≡ false

-- The character means nothing to the line discipline.
pub record Ordinary (tm : Termios) (c : ℕ) : Type 0 where
  pub unedited : Unedited tm c
  pub signal : signal_of tm c ≡ 0

abbrev pub AllOrdinary : Termios → List ℕ → Type 0
AllOrdinary tm [] = Unit
AllOrdinary tm (c ∷ s) = Ordinary tm c × AllOrdinary tm s

module _ {S : Type 0} (e : Emulator S) (ps : Processes) (t : Tty S) (c : ℕ) where
  pub Unedited-edit : Unedited t.termios c → edit e t c ≡ some onward
  unfolding edit edit_extended
  Unedited-edit o =
      rw (o.line, o.eof, o.erase, o.kill, o.werase, o.reprint, o.lnext)
        (elim (Bool-cases (has_lflag t.termios iexten)) [
          | inl on ↦ rw on refl
          | inr off ↦ rw off refl
        ])

  pub signalled-raw : signal_of t.termios c ≡ 0 → signalled e ps t c ≡ raw e t c
  unfolding signalled
  signalled-raw h =
      rw h (elim (Bool-cases (has_lflag t.termios isig)) [
        | inl on ↦ rw on refl
        | inr off ↦ rw off refl
      ])

  -- Such a character goes to the label `raw`.
  pub Ordinary-process_input :
      t.quoted ≡ false
      → has_lflag t.termios icanon ≡ true
      → Ordinary t.termios c
      → process_input e ps t c ≡ raw e t c
  unfolding process_input
  Ordinary-process_input q canon o =
      ap
        (λ b.
          if b
          then raw e (record t { quoted = false }) c
          else if has_lflag t.termios icanon
          then after_edit e ps t c (edit e t c)
          else signalled e ps t c)
        q
      ∙ rw (canon, Unedited-edit o.unedited) (signalled-raw o.signal)
