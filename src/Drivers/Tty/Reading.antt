-- ===== src/Drivers/Tty/Reading.antt =====
-- `tty_read` of a line that was typed at the terminal of drivers/tty-line.c.
use os0_kernel.Prelude.{
  ℕ, ◌+◌, ◌-◌, ◌≤◌, ◌<◌, ◌≡◌, refl, ◌∙◌, ap, Bool, true, false, Option, none, some, List, [], ◌∷◌,
  ◌++◌, arith, if◌then◌else◌, length, inl, inr, Option-cases,
}
use os0_kernel.Drivers.Input.{Input, has_lflag, icanon, buffer_size, slice}
use os0_kernel.Drivers.Input.Contents.{
  IsValid, Appended-IsValid, contents, Appended-contents, read_ready-all, flush_input_line-Appended,
}
use os0_kernel.Drivers.Tty.{
  Emulator, Keeps, Tty, Processes, raw, signalled, edit, after_edit, process_input, typed,
}
use os0_kernel.Drivers.Tty.Typing.{AllOrdinary}
use os0_kernel.Drivers.Tty.Calls.{reads, read, read-ready_line}
use os0_kernel.Drivers.Tty.Lines.{ending-Ends, Received, typed-Received, typed-one}

abbrev then_typed : {S : Type 0} → Emulator S → Processes → List ℕ → Option (Tty S) → Option (Tty S)
then_typed e ps u none = none
then_typed e ps u (some t) = typed e ps t u

typed-append :
    {S : Type 0} (e : Emulator S) (ps : Processes) (s u : List ℕ) (t : Tty S)
    → typed e ps t (s ++ u) ≡ then_typed e ps u (typed e ps t s)
unfolding typed
typed-append e ps [] u t = refl
typed-append e ps (c ∷ s) u t = elim (Option-cases (process_input e ps t c)) [
  | inl fault ↦ rw (fault, typed) refl
  | inr (t', eq) ↦ rw (eq, typed) (typed-append e ps s u t')
]

module _ {S : Type 0} (e : Emulator S) (P : S → Type 0) (k : Keeps e P) (ps : Processes) where
  -- A newline makes the line ready.
  newline-Received :
      (t : Tty S)
      → P t.screen
      → IsValid t.input
      → t.input.tb_end < buffer_size - 1
      → t.quoted ≡ false
      → has_lflag t.termios icanon ≡ true
      → (t' : Tty S) × (process_input e ps t 10 ≡ some t')
        × Received e P k t t' (10 ∷ [])
        × (t'.input.ready ≡ true)
  unfolding process_input edit
  newline-Received t p w h q canon =
      let (b, eq, a, ready) = flush_input_line-Appended t.termios t.input 10 refl h in
      let (s, eq', r) = ending-Ends e P k (record t { input = b }) 10 0 p in
      (
        record t { input = b; screen = s },
        ap
              (λ x.
                if x
                then raw e (record t { quoted = false }) 10
                else if has_lflag t.termios icanon
                then after_edit e ps t 10 (edit e t 10)
                else signalled e ps t 10)
              q
            ∙ rw (canon, eq, edit) eq',
        record {
          screen = r;
          termios = refl;
          quoted = refl;
          sent = refl;
          valid = Appended-IsValid t.input b 10 w (omega arith) a;
          tb_start = a.tb_start;
          tb_end = a.tb_end;
          characters = Appended-contents t.input b 10 w a;
        },
        ready,
      )

  -- A line of ordinary characters that is typed into an empty buffer with room for it, in
  -- canonical mode with no quote pending, and its newline are what `tty_read` then answers, all of
  -- it to a call that asks for as much; the buffer is empty again and waits for the next line. The emulator is any
  -- whose operations end.
  pub typed_line_is_read :
      (t : Tty S) (s : List ℕ) (nonblock : Bool) (tick : ℕ) (polls : List ℕ) (len : ℕ)
      → P t.screen
      → t.input.tb_start ≡ 0
      → t.input.tb_end ≡ 0
      → t.quoted ≡ false
      → has_lflag t.termios icanon ≡ true
      → AllOrdinary t.termios s
      → length s < buffer_size - 1
      → length s + 1 ≤ len
      → (t' : Tty S) × (b : Input) × (typed e ps t (s ++ (10 ∷ [])) ≡ some t')
        × (read t' nonblock tick polls len ≡ some (reads (s ++ (10 ∷ [])) b))
        × (b.tb_start ≡ 0)
        × (b.tb_end ≡ 0)
        × (b.ready ≡ false)
  typed_line_is_read t s nonblock tick polls len p z z' q canon o fits asks =
      let empty : IsValid t.input = record {
        order = omega (arith, z, z');
        fits = omega (arith, z');
      } in
      let (t₁, e₁, r₁) = typed-Received e P k ps s t p empty (omega (arith, z')) q canon o in
      let canon₁ = ap (λ tm. has_lflag tm icanon) r₁.termios ∙ canon in
      let (t₂, e₂, r₂, ready) =
        newline-Received t₁ r₁.screen r₁.valid (omega (arith, r₁.tb_end, z')) (r₁.quoted ∙ q)
          canon₁ in
      let whole : contents t₂.input ≡ s ++ (10 ∷ []) =
        r₂.characters
        ∙ ap (λ xs. xs ++ (10 ∷ []))
            (r₁.characters
              ∙ ap (λ n. slice t.input.tb_data n t.input.tb_start ++ s)
                  {x = t.input.tb_end - t.input.tb_start} {y = 0} (omega (arith, z'))) in
      (
        t₂,
        record t₂.input { tb_start = 0; tb_end = 0; ready = false },
        typed-append e ps s (10 ∷ []) t
            ∙ ap (then_typed e ps (10 ∷ [])) e₁
            ∙ typed-one e ps 10 t₁ t₂ e₂,
        read-ready_line t₂ nonblock tick polls len _ _
            (ap (λ tm. has_lflag tm icanon) r₂.termios ∙ canon₁) ready
            (read_ready-all t₂.input len r₂.valid (omega (arith, r₁.tb_end, r₂.tb_end, z'))
              ∙ ap (λ xs. some (xs, record t₂.input { tb_start = 0; tb_end = 0; ready = false }))
                  whole),
        refl,
        refl,
        refl,
      )
