-- ===== src/Fs/Pipe.antt =====
-- fs/pipe.c: pipes. The buffer `bytes` is the memory of PIPE_LENGTH bytes that `p_data` points to,
-- and an access outside it is a fault. A call that has to wait is polled again: `read_wait` and
-- `write_wait` are one round of the loops in which the calls wait, in which nothing else runs.
pub mod Fifo
pub mod Reads
pub mod Writes
pub mod Runs
use os0_kernel.Prelude.{
  ℕ, ◌+◌, ◌-◌, ◌%◌, ◌^◌, Bool, true, false, Option, none, some, List, [], ◌++◌, bit_and, bit_or,
  ltb, leb, ◌==◌, ◌!=◌, if◌then◌else◌, length, take, drop,
}
use os0_kernel.Process.State.{Kernel}
use os0_kernel.Process.Signal.{Outcome, send}

-- `Pipe`
pub record Pipe : Type 0 where
  pub readptr : ℕ
  pub writeptr : ℕ
  pub bytes : List ℕ
  pub flags : ℕ

abbrev pub pipe_length : ℕ
pipe_length = 16384

abbrev pub read_closed : ℕ
read_closed = 0x01

abbrev pub write_closed : ℕ
write_closed = 0x02

abbrev pub data_end : ℕ
data_end = 0x04

abbrev pub has_flag : Pipe → ℕ → Bool
has_flag p m = bit_and p.flags m != 0

abbrev pub sigpipe : ℕ
sigpipe = 13

-- `pipe_destroy_inode` for the write or the read end; `none` is a pipe that is freed.
unfoldable pub destroy_inode : Pipe → Bool → Option Pipe
destroy_inode p write_end =
    let q = record p { flags = bit_or p.flags (if write_end then write_closed else read_closed) } in
    if has_flag q read_closed then (if has_flag q write_closed then none else some q) else some q

-- `memcpy` out of and into the buffer.
unfoldable pub copy_out : List ℕ → ℕ → ℕ → Option (List ℕ)
copy_out bytes i n = if leb (i + n) (length bytes) then some (take n (drop i bytes)) else none

unfoldable pub copy_in : List ℕ → ℕ → List ℕ → Option (List ℕ)
copy_in bytes i src =
    if leb (i + length src) (length bytes)
    then some (take i bytes ++ (src ++ drop (i + length src) bytes))
    else none

pub data Read : Type 0 where
  got : List ℕ → Pipe → Read
  waits faults : Read

-- The end of `pipe_read`.
unfoldable pub read_out : Pipe → ℕ → Read
read_out p len = elim (copy_out p.bytes p.readptr len) [
  | none ↦ faults
  | some bytes ↦ got bytes (record p { readptr = (p.readptr + len) % 2 ^ 32 })
]

-- One round of the loop of `pipe_read`.
unfoldable pub read_wait : Pipe → ℕ → Read
read_wait p len =
    if ltb p.writeptr ((p.readptr + len) % 2 ^ 32)
    then (if has_flag p write_closed
        then read_out (record p { flags = bit_or p.flags data_end })
            ((p.writeptr + 2 ^ 32 - p.readptr) % 2 ^ 32)
        else waits)
    else read_out p len

-- `pipe_read`
unfoldable pub read : Pipe → ℕ → Read
read p len = if has_flag p data_end then got [] p else read_wait p len

-- A write that fails sends SIGPIPE to the caller and answers EPIPE.
pub data Write : Type 0 where
  wrote : Pipe → Write
  broken : Outcome → Write
  waits faults : Write

-- The end of `pipe_write`.
unfoldable pub write_in : Pipe → List ℕ → Write
write_in p src = elim (copy_in p.bytes p.writeptr src) [
  | none ↦ faults
  | some bytes ↦ wrote (record p { bytes = bytes; writeptr = (p.writeptr + length src) % 2 ^ 32 })
]

-- What was not read yet, moved to the front of the buffer.
pub compact : Pipe → Option Pipe
compact p = elim (copy_out p.bytes p.readptr (pipe_length - p.readptr)) [
  | none ↦ none
  | some moved ↦ elim (copy_in p.bytes 0 moved) [
    | none ↦ none
    | some bytes ↦ some (record p {
      bytes = bytes;
      writeptr = (p.writeptr + 2 ^ 32 - p.readptr) % 2 ^ 32;
      readptr = 0;
    })
  ]
]

module _ (yield : Kernel → Kernel) (fuel : ℕ) (k : Kernel) where
  abbrev pub break : Write
  break = broken (send yield fuel k k.current sigpipe)

  -- One round of the loop of `pipe_write`, and what follows it.
  pub write_wait : Pipe → List ℕ → Write
  write_wait p src =
      if ltb p.readptr ((pipe_length + 2 ^ 32 - p.writeptr) % 2 ^ 32)
      then (if has_flag p read_closed then break else waits)
      else elim (compact p) [ none ↦ faults | some q ↦ write_in q src ]

  -- `pipe_write`
  unfoldable pub write : Pipe → List ℕ → Write
  write p src =
      if has_flag p read_closed
      then break
      else if ltb pipe_length ((p.writeptr + length src) % 2 ^ 32)
      then write_wait p src
      else write_in p src
