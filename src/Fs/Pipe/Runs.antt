-- ===== src/Fs/Pipe/Runs.antt =====
-- The order of bytes over any run of calls on a pipe.
use os0_kernel.Prelude.{
  ℕ, ◌+◌, ◌^◌, ◌<◌, ◌≡◌, ◌∙◌, ap, sym, subst, Bool, Bool-cases, inl, inr, bit_or, if◌then◌else◌,
  Option, none, some, List, [], ◌∷◌, ◌++◌, arith, length,
}
use mathlib.Core.List.{append_assoc}
use os0_kernel.Process.State.{Kernel}
use os0_kernel.Fs.Pipe.{
  Pipe, pipe_length, Read, got, read, Write, wrote, broken, write, destroy_inode, has_flag,
  read_closed, write_closed,
}
use os0_kernel.Fs.Pipe.Fifo.{IsValid, contents}
use os0_kernel.Fs.Pipe.Reads.{ReadAnswer, read-ReadAnswer}
use os0_kernel.Fs.Pipe.Writes.{WriteAnswer, write-WriteAnswer}

-- A call by some process: a write, a read, or the close of the write end (`true`) or the read end.
pub data Event : Type 0 where
  writes : List ℕ → Event
  reads : ℕ → Event
  closes : Bool → Event

-- The pipe with all bytes that writes have put in and that reads have given.
pub record Log : Type 0 where
  pub pipe : Pipe
  pub sent : List ℕ
  pub received : List ℕ

abbrev pub after_write : Log → List ℕ → Write → Option Log
after_write s src (wrote q) = some (record s { pipe = q; sent = s.sent ++ src })
after_write s src (broken o) = some s
after_write s src Write.waits = some s
after_write s src Write.faults = none

abbrev pub after_read : Log → Read → Option Log
after_read s (got bytes q) = some (record s { pipe = q; received = s.received ++ bytes })
after_read s Read.waits = some s
after_read s Read.faults = none

abbrev pub after_close : Log → Option Pipe → Option Log
after_close s none = none
after_close s (some q) = some (record s { pipe = q })

-- The lengths that the calls are given do not come near 2^32.
abbrev pub Small : Event → Type 0
Small (writes src) = pipe_length + length src < 2 ^ 32
Small (reads len) = pipe_length + len < 2 ^ 32
Small (closes end) = Unit

abbrev pub AllSmall : List Event → Type 0
AllSmall [] = Unit
AllSmall (e ∷ es) = Small e × AllSmall es

-- What was written is what was read, and then what is in the pipe.
pub record InOrder (s : Log) : Type 0 where
  pub valid : IsValid s.pipe
  pub order : s.sent ≡ s.received ++ contents s.pipe

-- What holds of a run that ends, of which `none` is no such run.
abbrev pub Ends : Option Log → Type 0
Ends none = Unit
Ends (some s) = InOrder s

module _ (yield : Kernel → Kernel) (fuel : ℕ) (k : Kernel) where
  -- A call that waits or fails leaves the log as it was. `none` is a write outside the buffer, or a
  -- pipe that is freed.
  unfoldable pub step : Log → Event → Option Log
  step s (writes src) = after_write s src (write yield fuel k s.pipe src)
  step s (reads len) = after_read s (read s.pipe len)
  step s (closes end) = after_close s (destroy_inode s.pipe end)

  unfoldable pub run : Option Log → List Event → Option Log
  run none es = none
  run (some s) [] = some s
  run (some s) (e ∷ es) = run (step s e) es

  module _ (s : Log) (inv : InOrder s) where
    after_write-Ends :
        (src : List ℕ) (w : Write)
        → WriteAnswer yield fuel k s.pipe src w
        → Ends (after_write s src w)
    after_write-Ends src (wrote q) (same, v) = record {
      valid = v;
      order =
          ap (λ ys. ys ++ src) inv.order
          ∙ append_assoc s.received (contents s.pipe) src
          ∙ ap (λ ys. s.received ++ ys) (sym same);
    }
    after_write-Ends src (broken o) a = inv
    after_write-Ends src Write.waits a = inv
    after_write-Ends src Write.faults a = tt

    after_read-Ends : (len : ℕ) (r : Read) → ReadAnswer s.pipe len r → Ends (after_read s r)
    after_read-Ends len (got bytes q) (same, v, n, m) = record {
      valid = v;
      order =
          inv.order
          ∙ ap (λ ys. s.received ++ ys) same
          ∙ sym (append_assoc s.received bytes (contents q));
    }
    after_read-Ends len Read.waits a = inv
    after_read-Ends len Read.faults a = tt

    flagged : ℕ → Pipe
    flagged f = record (s.pipe) { flags = f }

    flagged-InOrder : (f : ℕ) → InOrder (record s { pipe = flagged f })
    unfolding flagged
    flagged-InOrder f = record {
      valid = record {
        room = inv.valid.room;
        in_order = inv.valid.in_order;
        within = inv.valid.within;
      };
      order = inv.order;
    }

    after_close-Ends : (end : Bool) → Ends (after_close s (destroy_inode s.pipe end))
    unfolding destroy_inode flagged
    after_close-Ends end =
        let f : ℕ = bit_or s.pipe.flags (if end then write_closed else read_closed) in
        elim (Bool-cases (has_flag (flagged f) read_closed)) [
          | inl e ↦ elim (Bool-cases (has_flag (flagged f) write_closed)) [
            | inl e' ↦ rw (e, e') tt
            | inr e' ↦ rw (e, e') (flagged-InOrder f)
          ]
          | inr e ↦ rw e (flagged-InOrder f)
        ]

    step-Ends : (e : Event) → Small e → Ends (step s e)
    unfolding step
    step-Ends (writes src) h =
        after_write-Ends src _
          (write-WriteAnswer yield fuel k s.pipe src inv.valid (omega (arith, inv.valid.within)))
    step-Ends (reads len) h =
        after_read-Ends len _ (
          read-ReadAnswer s.pipe len inv.valid
            (omega (arith, inv.valid.in_order, inv.valid.within)))
    step-Ends (closes end) h = after_close-Ends end

  run-Ends : (es : List Event) (o : Option Log) → AllSmall es → Ends o → Ends (run o es)
  unfolding run
  run-Ends es none h i = tt
  run-Ends [] (some s) h i = i
  run-Ends (e ∷ es) (some s) (h, hs) i = run-Ends es (step s e) hs (step-Ends s i e h)

  -- A pipe keeps the order of its bytes: after any sequence of writes, reads and closes, of lengths
  -- well below 2^32, none of which wrote outside the buffer or freed the pipe, the bytes written
  -- so far are the bytes read so far followed by those in the pipe, if it was so at first.
  pub run-InOrder :
      (es : List Event) (s : Log) {t : Log}
      → AllSmall es
      → InOrder s
      → run (some s) es ≡ some t
      → InOrder t
  run-InOrder es s h i e = subst Ends e (run-Ends es (some s) h i)
