-- ===== src/Drivers/Tty/Calls.antt =====
-- drivers/tty-line.c: `tty_read` and `tty_write`, which processes call on the current terminal.
use os0_kernel.Prelude.{
  ◌≡◌, ap, ℕ, ◌+◌, ◌*◌, ◌%◌, ◌^◌, Bool, true, false, ◌&&◌, Option, none, some, List, [], ◌∷◌, ◌++◌,
  ltb, ◌==◌, ◌!=◌, if◌then◌else◌,
}
use os0_kernel.Drivers.Input.{Input, has_lflag, icanon, sub32, read_ready}
use os0_kernel.Drivers.Tty.{Emulator, Tty, Processes, tostop, vmin, vtime}

-- The answer of `tty_read`: it still waits, or the characters copied and the buffer afterwards. A
-- loop that waits on the buffer waits when its condition holds of it.
pub data Answer : Type 0 where
  waits : Answer
  reads : List ℕ → Input → Answer

abbrev at_once : Option (List ℕ × Input) → Option Answer
at_once none = none
at_once (some (s, b)) = some (reads s b)

abbrev no_data : Input → Option Answer
no_data b = some (reads [] b)

-- The loops with a time, whose limit is `tick + time * 100`, over the values of `timer_poll` so
-- far: whether the loop goes on, while the buffer does not change.
pub timed : ℕ → List ℕ → Bool
timed limit [] = true
timed limit (now ∷ polls) = if ltb limit now then timed limit polls else false

-- The last loop has the number of characters in a local variable.
pub timed_min : ℕ → Input → ℕ → ℕ → List ℕ → ℕ → Bool
timed_min limit b min len [] bytes = true
timed_min limit b min len (now ∷ polls) bytes =
    let more =
      timed_min limit b min len polls
        (if ltb bytes (sub32 b.tb_start b.tb_end) then sub32 b.tb_start b.tb_end else bytes) in
    if ltb bytes min && (ltb bytes len && ltb limit now) then more else false

-- `tty_read`, with VI_FLAG_NONBLOCK, the first value of `timer_poll` and the later ones
pub read : {S : Type 0} → Tty S → Bool → ℕ → List ℕ → ℕ → Option Answer
read t nonblock tick polls len =
    let b = t.input in
    let min = t.termios.c_cc vmin in
    let time = t.termios.c_cc vtime in
    let limit = (tick + time * 100) % 2 ^ 32 in
    if has_lflag t.termios icanon
    then (if b.ready then at_once (read_ready b len) else some waits)
    else if nonblock
    then at_once (read_ready b len)
    else if min == 0 && time == 0
    then (if ltb b.tb_start b.tb_end then at_once (read_ready b len) else no_data b)
    else if time == 0
    then (if ltb (sub32 b.tb_end b.tb_start) min then some waits else at_once (read_ready b len))
    else if min == 0
    then (if b.tb_start == b.tb_end
        then (if timed limit polls then some waits else no_data b)
        else at_once (read_ready b len))
    else if timed_min limit b min len polls (sub32 b.tb_end b.tb_start)
    then some waits
    else at_once (read_ready b len)

-- `tty_write_data`
pub write_data : {S : Type 0} → Emulator S → S → List ℕ → Option S
write_data e s [] = some s
write_data e s (c ∷ cs) = elim (e.write_char s c) [ none ↦ none | some s' ↦ write_data e s' cs ]

abbrev written : {S : Type 0} → Tty S → Option S → Option (Tty S)
written t none = none
written t (some s) = some (record t { screen = s })

-- `tty_write` by the process `pid`: SIGTTOU is 22.
pub write : {S : Type 0} → Emulator S → Processes → ℕ → Tty S → List ℕ → Option (Tty S)
write e ps pid t cs =
    if has_lflag t.termios tostop && ps.p_pgid pid != t.fg_pgid
    then written (record t { sent = t.sent ++ ((pid, 22) ∷ []) }) (write_data e t.screen cs)
    else written t (write_data e t.screen cs)

-- In canonical mode a call answers as soon as a line is ready.
pub read-ready_line :
    {S : Type 0} (t : Tty S) (nonblock : Bool) (tick : ℕ) (polls : List ℕ) (len : ℕ) (s : List ℕ)
    (b : Input)
    → has_lflag t.termios icanon ≡ true
    → t.input.ready ≡ true
    → read_ready t.input len ≡ some (s, b)
    → read t nonblock tick polls len ≡ some (reads s b)
unfolding read
read-ready_line t nonblock tick polls len s b canon ready e =
    rw (canon, e) (ap (λ r. if r then some (reads s b) else some waits) ready)
