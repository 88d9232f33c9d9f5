-- ===== src/Drivers/Tty/Safety.antt =====
-- The line discipline of drivers/tty-line.c as a whole: every character, in every mode.
use os0_kernel.Prelude.{
  ℕ, zero, suc, ◌+◌, ◌-◌, ◌≤◌, ◌<◌, ◌≡◌, refl, ◌∙◌, ap, true, false, ◌&&◌, Option, arith, ltb, ◌==◌,
  ◌!=◌,
}
use os0_kernel.Prelude.Ends.{Ends, Ends-if}
use os0_kernel.Drivers.Input.{
  Termios, Input, has_lflag, icanon, veof, char_match, buffer_size, kill_input,
}
use os0_kernel.Drivers.Input.Bounds.{
  FromFront, add_char-FromFront, flush_input_line-FromFront, FirstFromFront, erase_input-FromFront,
  kill_input-FromFront,
}
use os0_kernel.Drivers.Tty.{
  Emulator, Keeps, Tty, Processes, signal_of, reprint_from, Next, at_end, onward, with_input,
  with_erased, reprinted, ending, raw, signalled, ends_line, edit, edit_extended, after_edit,
  process_input, isig, iexten, verase, vkill, vwerase, vreprint, vlnext,
}
use os0_kernel.Drivers.Tty.Typing.{process_output-Ends}
use os0_kernel.Drivers.Tty.Lines.{ending-Ends}

module _ {S : Type 0} (e : Emulator S) (P : S → Type 0) (k : Keeps e P) where
  -- The screen keeps `P`, and the buffer has been read to its end.
  pub record IsSafe (t : Tty S) : Type 0 where
    pub screen : P t.screen
    pub input : FromFront t.input

  abbrev NextSafe : Next S → Type 0
  NextSafe (at_end t n) = IsSafe t
  NextSafe onward = Unit

  reprint_from-Ends :
      (n : ℕ) (tm : Termios) (b : Input) (s : S) (i : ℕ)
      → i + n ≤ buffer_size
      → P s
      → Ends P (reprint_from e n tm b s i)
  unfolding reprint_from
  reprint_from-Ends zero tm b s i h p = (s, refl, p)
  reprint_from-Ends (suc n) tm b s i h p =
      let (s', eq, p') = process_output-Ends e P k tm s (b.tb_data i) 0 p in
      let (s'', eq', p'') = reprint_from-Ends n tm b s' (i + 1) (omega arith) p' in
      (s'', rw (inside, eq, reprint_from) eq', p'')
    where
      inside : ltb i buffer_size ≡ true
      inside = ground arith

  module _ (t : Tty S) (c : ℕ) (w : IsSafe t) where
    with_input-Ends : (o : Option Input) → Ends FromFront o → Ends NextSafe (with_input t o)
    with_input-Ends o (b, eq, f) = (
      at_end (record t { input = b }) 0,
      ap (with_input t) eq,
      record { screen = w.screen; input = f },
    )

    with_erased-Ends :
        (o : Option (Input × ℕ)) → Ends FirstFromFront o → Ends NextSafe (with_erased t o)
    with_erased-Ends o ((b, n), eq, f) = (
      at_end (record t { input = b }) n,
      ap (with_erased t) eq,
      record { screen = w.screen; input = f },
    )

    reprinted-Ends : (o : Option S) → Ends P o → Ends NextSafe (reprinted t o)
    reprinted-Ends o (s, eq, p) = (
      at_end (record t { screen = s }) 0,
      ap (reprinted t) eq,
      record { screen = p; input = w.input },
    )

    edit_extended-Ends :
        char_match t.termios c vwerase ≡ false → Ends NextSafe (edit_extended e t c)
    unfolding edit_extended
    edit_extended-Ends word = rw word (
        Ends-if (char_match t.termios c vreprint)
          (reprinted-Ends _ (
            reprint_from-Ends (t.input.tb_end - t.input.tb_start) t.termios t.input t.screen
              t.input.tb_start (omega (arith, w.input.tb_start, w.input.tb_end)) w.screen))
          (Ends-if (char_match t.termios c vlnext)
            (
              at_end (record t { quoted = true }) 0,
              refl,
              record { screen = w.screen; input = w.input },
            )
            (onward, refl, tt)))

    edit-Ends :
        char_match t.termios c vwerase ≡ false
        → t.input.tb_end < buffer_size
        → Ends NextSafe (edit e t c)
    unfolding edit
    edit-Ends word h =
        Ends-if (ends_line t.termios c)
          (with_input-Ends _ (flush_input_line-FromFront t.termios t.input c w.input h))
          (Ends-if (char_match t.termios c veof && t.input.tb_end == 0)
            (with_input-Ends _ (flush_input_line-FromFront t.termios t.input 0 w.input h))
            (Ends-if (char_match t.termios c verase)
              (with_erased-Ends _ (erase_input-FromFront t.termios t.input w.input))
              (Ends-if (char_match t.termios c vkill) (_, refl, kill)
                (Ends-if (has_lflag t.termios iexten) (edit_extended-Ends word)
                  (onward, refl, tt)))))
      where
        kill : IsSafe (record t { input = (kill_input t.termios t.input).0 })
        kill = record { screen = w.screen; input = kill_input-FromFront t.termios t.input w.input }

  ending-IsSafe : (t : Tty S) (c n : ℕ) → IsSafe t → Ends IsSafe (ending e t c n)
  ending-IsSafe t c n w =
      let (s, eq, p) = ending-Ends e P k t c n w.screen in
      (record t { screen = s }, eq, record { screen = p; input = w.input })

  raw-IsSafe :
      (t : Tty S) (c : ℕ) → IsSafe t → t.input.tb_end < buffer_size → Ends IsSafe (raw e t c)
  unfolding raw
  raw-IsSafe t c w h =
      let (b, eq, f) = add_char-FromFront t.termios t.input c w.input h in
      let (t', eq', w') =
        ending-IsSafe (record t { input = b }) c 0 (record { screen = w.screen; input = f }) in
      (t', rw (eq, raw) eq', w')

  module _ (ps : Processes) (t : Tty S) (c : ℕ) (w : IsSafe t)
      (h : t.input.tb_end < buffer_size) where
    signalled-IsSafe : Ends IsSafe (signalled e ps t c)
    unfolding signalled
    signalled-IsSafe =
        Ends-if (has_lflag t.termios isig && signal_of t.termios c != 0)
          (_, refl, record { screen = w.screen; input = w.input }) (raw-IsSafe t c w h)

    after_edit-IsSafe :
        (o : Option (Next S)) → Ends NextSafe o → Ends IsSafe (after_edit e ps t c o)
    after_edit-IsSafe o (at_end t' n, eq, w') =
        let (t'', eq', w'') = ending-IsSafe t' c n w' in
        (t'', ap (after_edit e ps t c) eq ∙ eq', w'')
    after_edit-IsSafe o (onward, eq, w') =
        let (t'', eq', w'') = signalled-IsSafe in (t'', ap (after_edit e ps t c) eq ∙ eq', w'')

    -- Where nothing at the front of the buffer has been read and the buffer is not full to its
    -- last place, `tty_process_input` of any character but VWERASE, in any mode, stays inside the
    -- buffer and ends, on every emulator whose operations do; the unread characters still start
    -- the buffer.
    pub process_input-IsSafe :
        char_match t.termios c vwerase ≡ false → Ends IsSafe (process_input e ps t c)
    unfolding process_input
    process_input-IsSafe word =
        Ends-if t.quoted
          (raw-IsSafe (record t { quoted = false }) c
            (record { screen = w.screen; input = w.input }) h)
          (Ends-if (has_lflag t.termios icanon)
            (after_edit-IsSafe (edit e t c) (edit-Ends t c w word h)) signalled-IsSafe)
