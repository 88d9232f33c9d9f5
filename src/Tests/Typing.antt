-- ===== src/Tests/Typing.antt =====
-- What is typed at the terminal: the input buffer and the line discipline.
use os0_kernel.Prelude.{
  inl, ◌≡◌, ◌<◌, ℕ, refl, true, false, none, some, List, [], ◌∷◌, ◌++◌, ◌+◌, ◌-◌, inr, ◌&&◌, ◌||◌,
  ltb, leb, ◌==◌, if◌then◌else◌, length, get_or, arith,
}
use os0_kernel.Prelude.Ends.{Ends}
use os0_kernel.Drivers.Vt100.{Terminal}
use os0_kernel.Drivers.Vt100.Safety.{IsSafe}
use os0_kernel.Drivers.Input.{
  Input, buffer_size, has_lflag, has_iflag, icanon, imaxbel, update, add_char, read_ready,
  erase_input, erase_input_word, kill_input,
}
use os0_kernel.Drivers.Input.Contents.{IsValid, contents, amount, read_ready-splits, add_char-cases}
use os0_kernel.Drivers.Input.Editing.{Kills, kill_input-Erased, erase-below_start}
use os0_kernel.Drivers.Input.Words.{erase_input_word-first}
use os0_kernel.Drivers.Tty.{Tty, Processes, process_input, typed, each_sent}
use os0_kernel.Drivers.Tty.Calls.{reads, read}
use os0_kernel.Drivers.Tty.Typing.{Unedited, Ordinary}
use os0_kernel.Drivers.Tty.Reading.{typed_line_is_read}
use os0_kernel.Drivers.Tty.Safety as TtySafety
use os0_kernel.Drivers.Tty.Control.{signals_group, contains}
use os0_kernel.Drivers.Tty.Erasing.{erase_takes_back}
use os0_kernel.Drivers.Console.{vt100, vt100-Keeps, default_termios}
use os0_kernel.Tests.Terminals.{started, started-IsSafe}

-- A buffer with the characters of a list, of which some have been read
abbrev holding : List ℕ → ℕ → Input
holding s start = record {
  tb_data = λ i. get_or s i 0;
  tb_start = start;
  tb_end = length s;
  ready = true;
  beeps = 0;
}

-- "ls a", the newline, and "b"
abbrev text : List ℕ
text = b'l' ∷ (b's' ∷ (b' ' ∷ (b'a' ∷ (10 ∷ (b'b' ∷ [])))))

abbrev held : Input
held = holding text 1

held-IsValid : IsValid held
held-IsValid = record { order = omega arith; fits = omega arith }

read_ready-splits_example :
    (s : List ℕ) × (b' : Input) × (read_ready held 3 ≡ some (s, b'))
    × (length s ≡ amount held 3)
    × (s ++ contents b' ≡ contents held)
    × IsValid b'
read_ready-splits_example = read_ready-splits held 3 held-IsValid

-- A full buffer, and a newline
abbrev full : Input
full = record (holding [] 0) { tb_end = 4096 }

add_char-cases_example : add_char default_termios full 10 ≡ (
    if ltb full.tb_end (buffer_size - 1)
      || (full.tb_end == buffer_size - 1 && (has_lflag default_termios icanon && 10 == 10))
    then some
        (record full { tb_data = update full.tb_data full.tb_end 10; tb_end = full.tb_end + 1 })
    else if has_lflag default_termios icanon && 10 == 10
    then none
    else some (
        if has_iflag default_termios imaxbel then record full { beeps = full.beeps + 1 } else full))
add_char-cases_example = add_char-cases default_termios full 10 refl (omega arith)

kill_input-Erased_example : Kills default_termios held (kill_input default_termios held)
kill_input-Erased_example = kill_input-Erased default_termios held held-IsValid

erase_input_word-first_example : erase_input_word default_termios (holding [] 0) ≡ none
erase_input_word-first_example =
    erase_input_word-first default_termios (holding [] 0) 0 refl (omega arith) (omega arith)
      (λ j h. absurd (omega arith)) (λ j h k. absurd (omega arith))

-- All that was typed has been read but for the last character, which was erased.
abbrev read_out : Input
read_out = record held { tb_end = 1 }

erase-below_start_example :
    (b' : Input) × (erase_input default_termios read_out ≡ some (b', 1))
    × (b'.tb_end < b'.tb_start)
    × (buffer_size < b'.tb_start + 5000 → read_ready b' 5000 ≡ none)
erase-below_start_example =
    erase-below_start default_termios read_out 5000 (omega arith) refl (omega arith) refl
      (omega arith)

-- Four processes, of which 1 and 3 are in the foreground
abbrev pub few : Processes
few = record { limit = 4; p_pgid = λ i. if i == 2 then 9 else 0 }

letter-Ordinary : Ordinary default_termios b'a'
letter-Ordinary = record {
  unedited = record {
    line = refl;
    eof = refl;
    erase = refl;
    kill = refl;
    werase = refl;
    reprint = refl;
    lnext = refl;
  };
  signal = refl;
}

interrupt-Unedited : Unedited default_termios 3
interrupt-Unedited = record {
  line = refl;
  eof = refl;
  erase = refl;
  kill = refl;
  werase = refl;
  reprint = refl;
  lnext = refl;
}

typed_line_is_read_example :
    (t' : Tty Terminal) × (b : Input) × (typed vt100 few started ((b'a' ∷ (b'a' ∷ [])) ++ (10 ∷ []))
      ≡ some t')
    × (read t' false 0 [] 80 ≡ some (reads ((b'a' ∷ (b'a' ∷ [])) ++ (10 ∷ [])) b))
    × (b.tb_start ≡ 0)
    × (b.tb_end ≡ 0)
    × (b.ready ≡ false)
typed_line_is_read_example =
    typed_line_is_read vt100 IsSafe vt100-Keeps few started (b'a' ∷ (b'a' ∷ [])) false 0 [] 80
      started-IsSafe refl refl refl refl (letter-Ordinary, (letter-Ordinary, tt)) (omega arith)
      (omega arith)

process_input-IsSafe_example :
    Ends (TtySafety.IsSafe vt100 IsSafe vt100-Keeps) (process_input vt100 few started 18)
process_input-IsSafe_example =
    TtySafety.process_input-IsSafe vt100 IsSafe vt100-Keeps few started 18
      (record { screen = started-IsSafe; input = record { tb_start = refl; tb_end = omega arith } })
      (omega arith) refl

-- ^C
signals_group_example :
    (group : List ℕ) × (process_input vt100 few (record started { fg_pgid = 9 }) 3
      ≡ some (record started { fg_pgid = 9; sent = [] ++ each_sent 2 group }))
    × ((j : ℕ) → contains j group ≡ (leb 1 j && (ltb j few.limit && few.p_pgid j == 9)))
signals_group_example =
    signals_group vt100 few (record started { fg_pgid = 9 }) 3 2 refl (inr interrupt-Unedited) refl
      (inl (refl, refl))

erase_takes_back_example :
    (t' : Tty Terminal) × (typed vt100 few started (b'a' ∷ (31 ∷ [])) ≡ some t')
    × (contents t'.input ≡ contents started.input)
    × (t'.sent ≡ started.sent)
    × IsSafe t'.screen
erase_takes_back_example =
    erase_takes_back vt100 IsSafe vt100-Keeps few started b'a' 31 started-IsSafe
      (record { order = omega arith; fits = omega arith }) (omega arith) refl refl letter-Ordinary
      (record { line = refl; eof = refl; erase = refl })
