-- ===== src/Drivers/Tty/Erasing.antt =====
-- VERASE at the terminal of drivers/tty-line.c.
use os0_kernel.Prelude.{
  ℕ, ◌-◌, ◌<◌, ◌≡◌, refl, ◌∙◌, ap, true, false, some, [], ◌∷◌, arith, if◌then◌else◌,
}
use os0_kernel.Drivers.Input.{
  Termios, has_lflag, icanon, veof, char_match, buffer_size, erase_input,
}
use os0_kernel.Drivers.Input.Contents.{IsValid, contents, add_char-Appended}
use os0_kernel.Drivers.Input.Editing.{Appended-erase}
use os0_kernel.Drivers.Tty.{
  Emulator, Keeps, Tty, Processes, with_erased, raw, signalled, ends_line, edit, after_edit,
  process_input, typed, verase,
}
use os0_kernel.Drivers.Tty.Typing.{Ordinary, Ordinary-process_input}
use os0_kernel.Drivers.Tty.Lines.{ending-Ends, typed-cons, typed-one}

-- The character erases, and does nothing else.
pub record Erases (tm : Termios) (v : ℕ) : Type 0 where
  pub line : ends_line tm v ≡ false
  pub eof : char_match tm v veof ≡ false
  pub erase : char_match tm v verase ≡ true

module _ {S : Type 0} (e : Emulator S) (P : S → Type 0) (k : Keeps e P) (ps : Processes) where
  Erases-process_input :
      (t : Tty S) (v : ℕ)
      → t.quoted ≡ false
      → has_lflag t.termios icanon ≡ true
      → Erases t.termios v
      → process_input e ps t v ≡ after_edit e ps t v (with_erased t (erase_input t.termios t.input))
  unfolding process_input edit
  Erases-process_input t v q canon o =
      ap
        (λ x.
          if x
          then raw e (record t { quoted = false }) v
          else if has_lflag t.termios icanon
          then after_edit e ps t v (edit e t v)
          else signalled e ps t v)
        q
      ∙ rw (canon, o.line, o.eof, o.erase) refl

  -- In canonical mode, where the input buffer is valid and has room for more than a newline, and no
  -- character is quoted, the erase character takes back an ordinary character that was typed before
  -- it: the unread characters are again those before both.
  pub erase_takes_back :
      (t : Tty S) (c v : ℕ)
      → P t.screen
      → IsValid t.input
      → t.input.tb_end < buffer_size - 1
      → t.quoted ≡ false
      → has_lflag t.termios icanon ≡ true
      → Ordinary t.termios c
      → Erases t.termios v
      → (t' : Tty S) × (typed e ps t (c ∷ (v ∷ [])) ≡ some t')
        × (contents t'.input ≡ contents t.input)
        × (t'.sent ≡ t.sent)
        × P t'.screen
  unfolding raw
  erase_takes_back t c v p w h q canon o z =
      let (b, eq, a) = add_char-Appended t.termios t.input c h in
      let (s, eq', p') = ending-Ends e P k (record t { input = b }) c 0 p in
      let t' : Tty S = record t { input = b; screen = s } in
      let (b', eq'', same, x, y) =
        Appended-erase t.termios t.input b c w (omega arith) a o.unedited.eof in
      let (s', eq''', p'') = ending-Ends e P k (record t' { input = b' }) v 1 p' in
      (
        record t' { input = b'; screen = s' },
        typed-cons e ps c (v ∷ []) t t'
              (Ordinary-process_input e ps t c q canon o ∙ rw (eq, raw) eq')
            ∙ typed-one e ps v t' _ (
                Erases-process_input t' v q canon z
                ∙ ap (λ r. after_edit e ps t' v (with_erased t' r)) eq''
                ∙ eq'''),
        same,
        refl,
        p'',
      )
