-- ===== src/Drivers/Tty.antt =====
-- drivers/tty-line.c: the line discipline. What shows the characters, `t_write_char` and the
-- functions of drivers/vga.c that erase, is an interface, `Emulator`, which Drivers.Console fills.
pub mod Calls
pub mod Typing
pub mod Lines
pub mod Reading
pub mod Safety
pub mod Control
pub mod Erasing
pub use os0_kernel.Drivers.Emulator.{Emulator, Keeps}
pub use os0_kernel.Drivers.Flags.{
  isig, echo, echoe, echok, echonl, tostop, echoctl, echoke, iexten, vintr, vquit, verase, vkill,
  vtime, vmin, vsusp, veol, vreprint, vwerase, vlnext, veol2,
}
use os0_kernel.Prelude.{
  ℕ, zero, suc, ◌+◌, ◌-◌, ◌*◌, ◌%◌, ◌^◌, Bool, true, false, not, ◌||◌, ◌&&◌, Option, none, some,
  List, [], ◌∷◌, ◌++◌, ltb, leb, ◌==◌, ◌!=◌, if◌then◌else◌, length,
}
use os0_kernel.Prelude.Ends.{Ends}
use os0_kernel.Libk.Ctype.{iscntrl}
use os0_kernel.Libk.Numbers.{to_char}
use os0_kernel.Drivers.Input.{
  Termios, Input, has_lflag, icanon, veof, char_match, buffer_size, sub32, add_char,
  flush_input_line, erase_input, erase_input_word, kill_input, read_ready,
}

-- A terminal: its screen, `t_inbuf`, `t_termios`, `t_fg_pgid`, TTY_QUOTE_INPUT of `t_flags`, and
-- the calls of `process_send_signal`, a process and a signal each.
pub record Tty (S : Type 0) : Type 0 where
  pub screen : S
  pub input : Input
  pub termios : Termios
  pub fg_pgid : ℕ
  pub quoted : Bool
  pub sent : List (ℕ × ℕ)

-- PROCESS_LIMIT, and `p_pgid` in the process table
pub record Processes : Type 0 where
  pub limit : ℕ
  pub p_pgid : ℕ → ℕ

-- The processes of a group among `n` from the number `i` on
abbrev pub members : (ℕ → ℕ) → ℕ → ℕ → ℕ → List ℕ
members pgid g zero i = []
members pgid g (suc n) i =
    let others = members pgid g n (i + 1) in if pgid i == g then i ∷ others else others

abbrev pub each_sent : ℕ → List ℕ → List (ℕ × ℕ)
each_sent sig [] = []
each_sent sig (i ∷ is) = (i, sig) ∷ each_sent sig is

-- The signal that a character stands for, or 0: SIGINT, SIGTSTP and SIGQUIT
abbrev pub signal_of : Termios → ℕ → ℕ
signal_of tm c =
    if char_match tm c vintr
    then 2
    else if char_match tm c vsusp
    then 20
    else if char_match tm c vquit
    then 3
    else 0

module _ {S : Type 0} (e : Emulator S) where
  abbrev pub then_write : Option S → ℕ → Option S
  then_write none c = none
  then_write (some s) c = e.write_char s c

  -- The `switch` of `tty_process_output`
  pub show_char : Termios → S → ℕ → Option S
  show_char tm s c =
      if c == 10 || c == 9
      then e.write_char s c
      else if iscntrl (to_char c) && has_lflag tm echoctl
      then (if not (char_match tm c veof) || ltb 0 (e.column s)
          then then_write (e.write_char s b'^') ((c + 0x40) % 256)
          else some s)
      else e.write_char s c

  -- `tty_process_output`
  pub process_output : Termios → S → ℕ → ℕ → Option S
  process_output tm s c arg =
      if has_lflag tm icanon && (char_match tm c verase && has_lflag tm echoe)
      then (if arg != 0 then e.erase_char s else some s)
      else if has_lflag tm icanon && (char_match tm c vwerase && has_lflag tm echoe)
      then e.erase_line s arg
      else if has_lflag tm icanon
          && (char_match tm c vkill && (has_lflag tm echok || has_lflag tm echoke))
      then e.erase_line s arg
      else show_char tm s c

  -- The loop of `tty_reprint_input`, with `n` rounds left from the index `i` on
  pub reprint_from : ℕ → Termios → Input → S → ℕ → Option S
  reprint_from zero tm b s i = some s
  reprint_from (suc n) tm b s i =
      if ltb i buffer_size
      then elim (process_output tm s (b.tb_data i) 0) as (λ x. Option S) [
        | none ↦ none
        | some s' ↦ reprint_from n tm b s' (i + 1)
      ]
      else none

abbrev pub ends_line : Termios → ℕ → Bool
ends_line tm c = c == 10 || (char_match tm c veol || char_match tm c veol2)

-- What follows the part of `tty_process_input` for ICANON: the label `end` with its `arg`, or the
-- tests for signals.
pub data Next (S : Type 0) : Type 0 where
  at_end : Tty S → ℕ → Next S
  onward : Next S

module _ {S : Type 0} where
  abbrev with_input : Tty S → Option Input → Option (Next S)
  with_input t none = none
  with_input t (some b) = some (at_end (record t { input = b }) 0)

  abbrev with_erased : Tty S → Option (Input × ℕ) → Option (Next S)
  with_erased t none = none
  with_erased t (some (b, n)) = some (at_end (record t { input = b }) n)

  abbrev with_screen : Tty S → Option S → Option (Tty S)
  with_screen t none = none
  with_screen t (some s) = some (record t { screen = s })

  abbrev reprinted : Tty S → Option S → Option (Next S)
  reprinted t none = none
  reprinted t (some s) = some (at_end (record t { screen = s }) 0)

module _ {S : Type 0} (e : Emulator S) where
  -- The characters of IEXTEN
  pub edit_extended : Tty S → ℕ → Option (Next S)
  edit_extended t c =
      if char_match t.termios c vwerase
      then with_erased t (erase_input_word t.termios t.input)
      else if char_match t.termios c vreprint
      then reprinted t (
          reprint_from e (t.input.tb_end - t.input.tb_start) t.termios t.input t.screen
            t.input.tb_start)
      else if char_match t.termios c vlnext
      then some (at_end (record t { quoted = true }) 0)
      else some onward

  -- The part of `tty_process_input` for ICANON
  pub edit : Tty S → ℕ → Option (Next S)
  edit t c =
      if ends_line t.termios c
      then with_input t (flush_input_line t.termios t.input c)
      else if char_match t.termios c veof && t.input.tb_end == 0
      then with_input t (flush_input_line t.termios t.input 0)
      else if char_match t.termios c verase
      then with_erased t (erase_input t.termios t.input)
      else if char_match t.termios c vkill
      then (let (b, n) = kill_input t.termios t.input in some (at_end (record t { input = b }) n))
      else if has_lflag t.termios iexten
      then edit_extended t c
      else some onward

  -- From the label `end` of `tty_process_input` on
  pub ending : Tty S → ℕ → ℕ → Option (Tty S)
  ending t c arg =
      if has_lflag t.termios echo
      then with_screen t (process_output e t.termios t.screen c arg)
      else if c == 10 && has_lflag t.termios echonl
      then with_screen t (process_output e t.termios t.screen 10 arg)
      else some t

  -- From the label `raw` on
  pub raw : Tty S → ℕ → Option (Tty S)
  raw t c = elim (add_char t.termios t.input c) [
    | none ↦ none
    | some b ↦ ending (record t { input = b }) c 0
  ]

  -- The part for ISIG, and what follows it
  pub signalled : Processes → Tty S → ℕ → Option (Tty S)
  signalled ps t c =
      let sig = signal_of t.termios c in
      if has_lflag t.termios isig && sig != 0
      then some (record t {
        sent = t.sent ++ each_sent sig (members ps.p_pgid t.fg_pgid (ps.limit - 1) 1);
      })
      else raw t c

  abbrev after_edit : Processes → Tty S → ℕ → Option (Next S) → Option (Tty S)
  after_edit ps t c none = none
  after_edit ps t c (some (at_end t' n)) = ending t' c n
  after_edit ps t c (some onward) = signalled ps t c

  -- `tty_process_input` of a terminal
  pub process_input : Processes → Tty S → ℕ → Option (Tty S)
  process_input ps t c =
      if t.quoted
      then raw (record t { quoted = false }) c
      else if has_lflag t.termios icanon
      then after_edit ps t c (edit t c)
      else signalled ps t c

  -- The characters that the keyboard gives, one after the other
  pub typed : Processes → Tty S → List ℕ → Option (Tty S)
  typed ps t [] = some t
  typed ps t (c ∷ s) = elim (process_input ps t c) as (λ x. Option (Tty S)) [
    | none ↦ none
    | some t' ↦ typed ps t' s
  ]
