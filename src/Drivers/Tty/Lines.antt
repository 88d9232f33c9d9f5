-- ===== src/Drivers/Tty/Lines.antt =====
-- Characters that are typed at the terminal of drivers/tty-line.c, one after the other.
use mathlib.Core.List.{append_assoc, append-nil}
use os0_kernel.Prelude.{
  ℕ, ◌+◌, ◌-◌, ◌≤◌, ◌<◌, ◌≡◌, refl, ◌∙◌, ap, sym, subst, true, false, ◌&&◌, none, some, List, [],
  ◌∷◌, ◌++◌, arith, ◌==◌, length, inl, inr, Bool-cases,
}
use os0_kernel.Prelude.Ends.{Ends}
use os0_kernel.Drivers.Input.{has_lflag, icanon, buffer_size}
use os0_kernel.Drivers.Input.Contents.{
  IsValid, Appended-IsValid, contents, add_char-Appended, Appended-contents,
}
use os0_kernel.Drivers.Tty.{
  Emulator, Keeps, Tty, Processes, with_screen, ending, raw, process_input, typed, echo, echonl,
}
use os0_kernel.Drivers.Tty.Typing.{AllOrdinary, Ordinary-process_input, process_output-Ends}

module _ {S : Type 0} (e : Emulator S) (P : S → Type 0) (k : Keeps e P) where
  -- What is at the label `end` changes the screen alone.
  pub ending-Ends :
      (t : Tty S) (c arg : ℕ)
      → P t.screen
      → (s : S) × (ending e t c arg ≡ some (record t { screen = s })) × P s
  unfolding ending
  ending-Ends t c arg p = elim (Bool-cases (has_lflag t.termios echo)) [
    | inl on ↦
        let (s, eq, q) = process_output-Ends e P k t.termios t.screen c arg p in
        (s, rw on (ap (with_screen t) eq), q)
    | inr off ↦ elim (Bool-cases (c == 10 && has_lflag t.termios echonl)) [
      | inl newline ↦
          let (s, eq, q) = process_output-Ends e P k t.termios t.screen 10 arg p in
          (s, rw (off, newline) (ap (with_screen t) eq), q)
      | inr silent ↦ (t.screen, rw (off, silent) refl, p)
    ]
  ]

  -- The terminal `t'` is `t` with the characters `s` behind its input, and another screen.
  pub record Received (t t' : Tty S) (s : List ℕ) : Type 0 where
    pub screen : P t'.screen
    pub termios : t'.termios ≡ t.termios
    pub quoted : t'.quoted ≡ t.quoted
    pub sent : t'.sent ≡ t.sent
    pub valid : IsValid t'.input
    pub tb_start : t'.input.tb_start ≡ t.input.tb_start
    pub tb_end : t'.input.tb_end ≡ t.input.tb_end + length s
    pub characters : contents t'.input ≡ contents t.input ++ s

  pub raw-Received :
      (t : Tty S) (c : ℕ)
      → P t.screen
      → IsValid t.input
      → t.input.tb_end < buffer_size - 1
      → Ends (λ t'. Received t t' (c ∷ [])) (raw e t c)
  unfolding raw
  raw-Received t c p w h =
      let (b, eq, a) = add_char-Appended t.termios t.input c h in
      let (s, eq', q) = ending-Ends (record t { input = b }) c 0 p in
      (
        record t { input = b; screen = s },
        rw (eq, raw) eq',
        record {
          screen = q;
          termios = refl;
          quoted = refl;
          sent = refl;
          valid = Appended-IsValid t.input b c w (omega arith) a;
          tb_start = a.tb_start;
          tb_end = a.tb_end;
          characters = Appended-contents t.input b c w a;
        },
      )

  module _ (ps : Processes) where
    pub typed-Received :
        (s : List ℕ) (t : Tty S)
        → P t.screen
        → IsValid t.input
        → t.input.tb_end + length s ≤ buffer_size - 1
        → t.quoted ≡ false
        → has_lflag t.termios icanon ≡ true
        → AllOrdinary t.termios s
        → Ends (λ t'. Received t t' s) (typed e ps t s)
    unfolding typed
    typed-Received [] t p w h q canon o = (
      t,
      refl,
      record {
        screen = p;
        termios = refl;
        quoted = refl;
        sent = refl;
        valid = w;
        tb_start = refl;
        tb_end = omega arith;
        characters = sym (append-nil _);
      },
    )
    typed-Received (c ∷ s) t p w h q canon (o, os) =
        let (t', eq, r) = raw-Received t c p w (omega arith) in
        let (t'', eq', r') =
          typed-Received s t' r.screen r.valid (omega (arith, r.tb_end)) (r.quoted ∙ q)
            (ap (λ tm. has_lflag tm icanon) r.termios ∙ canon)
            (subst (λ tm. AllOrdinary tm s) (sym r.termios) os) in
        (
          t'',
          rw (Ordinary-process_input e ps t c q canon o, eq, typed) eq',
          record {
            screen = r'.screen;
            termios = r'.termios ∙ r.termios;
            quoted = r'.quoted ∙ r.quoted;
            sent = r'.sent ∙ r.sent;
            valid = r'.valid;
            tb_start = r'.tb_start ∙ r.tb_start;
            tb_end = omega (arith, r.tb_end, r'.tb_end);
            characters =
                r'.characters
                ∙ ap (λ xs. xs ++ s) r.characters
                ∙ append_assoc (contents t.input) (c ∷ []) s;
          },
        )

pub typed-cons :
    {S : Type 0} (e : Emulator S) (ps : Processes) (c : ℕ) (s : List ℕ) (t t' : Tty S)
    → process_input e ps t c ≡ some t'
    → typed e ps t (c ∷ s) ≡ typed e ps t' s
unfolding typed
typed-cons e ps c s t t' eq = rw (eq, typed) refl

pub typed-nil :
    {S : Type 0} (e : Emulator S) (ps : Processes) (t : Tty S) → typed e ps t [] ≡ some t
unfolding typed
typed-nil e ps t = refl

pub typed-fault :
    {S : Type 0} (e : Emulator S) (ps : Processes) (c : ℕ) (s : List ℕ) (t : Tty S)
    → process_input e ps t c ≡ none
    → typed e ps t (c ∷ s) ≡ none
unfolding typed
typed-fault e ps c s t eq = rw (eq, typed) refl

pub typed-one :
    {S : Type 0} (e : Emulator S) (ps : Processes) (c : ℕ) (t t' : Tty S)
    → process_input e ps t c ≡ some t'
    → typed e ps t (c ∷ []) ≡ some t'
unfolding typed
typed-one e ps c t t' eq = rw (eq, typed) refl
