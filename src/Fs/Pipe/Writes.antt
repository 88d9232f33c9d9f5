-- ===== src/Fs/Pipe/Writes.antt =====
-- Every outcome of `pipe_write` of fs/pipe.c.
use os0_kernel.Prelude.{
  ℕ, ◌+◌, ◌^◌, ◌≤◌, ◌<◌, ◌≡◌, refl, ◌∙◌, ap, sym, true, false, none, List, ◌++◌, arith, ltb, leb,
  ltb→lt, length, Bool-cases, inl, inr,
}
use os0_kernel.Process.State.{Kernel}
use os0_kernel.Process.Signal.{send}
use os0_kernel.Fs.Pipe.{
  Pipe, pipe_length, has_flag, read_closed, copy_in, Write, wrote, broken, write_in, write_wait,
  write, sigpipe,
}
use os0_kernel.Fs.Pipe.Fifo.{
  IsValid, contents, length-contents, write_in-wrote, extended-IsValid, contents-extended, moved,
  compact-moved, moved-IsValid, contents-moved,
}

-- What a write may answer: all its bytes behind those that are there; a broken pipe, after SIGPIPE
-- for the caller, where the read end is closed; or, where the bytes do not fit behind the others,
-- it waits or leaves the buffer, as the positions say.
abbrev pub WriteAnswer : (Kernel → Kernel) → ℕ → Kernel → Pipe → List ℕ → Write → Type 0
WriteAnswer yield fuel k p src (wrote q) = (contents q ≡ contents p ++ src) × IsValid q
WriteAnswer yield fuel k p src (broken o) =
    (has_flag p read_closed ≡ true) × (o ≡ send yield fuel k k.current sigpipe)
WriteAnswer yield fuel k p src Write.waits =
    (has_flag p read_closed ≡ false)
    × (pipe_length < p.writeptr + length src)
    × (p.readptr + p.writeptr < pipe_length)
WriteAnswer yield fuel k p src Write.faults =
    (pipe_length < length (contents p) + length src) × (pipe_length ≤ p.readptr + p.writeptr)

copy_in-none :
    (bytes : List ℕ) (i : ℕ) (src : List ℕ)
    → length bytes < i + length src
    → copy_in bytes i src ≡ none
unfolding copy_in
copy_in-none bytes i src h = ground arith

write_in-faults :
    (p : Pipe) (src : List ℕ)
    → IsValid p
    → pipe_length < p.writeptr + length src
    → write_in p src ≡ Write.faults
unfolding write_in
write_in-faults p src v h =
    ground (arith, copy_in-none p.bytes p.writeptr src (omega (arith, v.room)))

module _ (yield : Kernel → Kernel) (fuel : ℕ) (k : Kernel) where
  module _ (p : Pipe) (src : List ℕ) (v : IsValid p) (fits : p.writeptr + length src < 2 ^ 32) where
    write-closed :
        has_flag p read_closed ≡ true
        → write yield fuel k p src ≡ broken (send yield fuel k k.current sigpipe)
    unfolding write
    write-closed c = rw c

    module _ (open_end : has_flag p read_closed ≡ false) where
      write-fits : p.writeptr + length src ≤ pipe_length → write yield fuel k p src ≡ write_in p src
      unfolding write
      write-fits h = ground arith

      module _ (long : pipe_length < p.writeptr + length src) where
        write-waits : p.readptr + p.writeptr < pipe_length → write yield fuel k p src ≡ Write.waits
        unfolding write write_wait
        write-waits h = ground (arith, v.within)

        write-compacts :
            pipe_length ≤ p.readptr + p.writeptr
            → write yield fuel k p src ≡ write_in (moved p v) src
        unfolding write write_wait
        write-compacts h = ground (arith, v.within, compact-moved p v)

        moved_position : (moved p v).writeptr ≡ length (contents p)
        moved_position = unfold moved in sym (length-contents p v)

        -- A write leaves the buffer where the bytes in the pipe and the new ones are more than
        -- PIPE_LENGTH, and no fewer bytes were read than there is room behind the others: the read
        -- end being open, the new bytes not fitting behind the others and their end below 2^32.
        pub write-faults :
            pipe_length ≤ p.readptr + p.writeptr
            → pipe_length < length (contents p) + length src
            → write yield fuel k p src ≡ Write.faults
        write-faults h over =
            write-compacts h
            ∙ write_in-faults (moved p v) src (moved-IsValid p v) (omega (arith, moved_position))

    -- `pipe_write` appends all its bytes to those that are there; where the read end is closed it
    -- sends SIGPIPE to the caller instead; it waits only where the bytes do not fit behind the
    -- others and less was read than there is room behind them; and it leaves the buffer only where
    -- what is there and the new bytes are more than PIPE_LENGTH.
    pub write-WriteAnswer : WriteAnswer yield fuel k p src (write yield fuel k p src)
    write-WriteAnswer = elim (Bool-cases (has_flag p read_closed)) [
      | inl c ↦ rw (write-closed c) (c, refl)
      | inr o ↦ elim (Bool-cases (leb (p.writeptr + length src) pipe_length)) [
        | inl b ↦
            let room : p.writeptr + length src ≤ pipe_length = ground arith in
            rw (write-fits o room, write_in-wrote p src v room)
              (contents-extended p src v room, extended-IsValid p src v room)
        | inr b ↦
            let long : pipe_length < p.writeptr + length src = ground arith in
            elim (Bool-cases (ltb (p.readptr + p.writeptr) pipe_length)) [
              | inl w ↦ rw (write-waits o long (ltb→lt _ _ w)) (o, long, ltb→lt _ _ w)
              | inr w ↦ compacted o long (ground arith)
            ]
      ]
    ]
      where
        compacted :
            has_flag p read_closed ≡ false
            → pipe_length < p.writeptr + length src
            → pipe_length ≤ p.readptr + p.writeptr
            → WriteAnswer yield fuel k p src (write yield fuel k p src)
        compacted o long h =
            elim (Bool-cases (leb (length (contents p) + length src) pipe_length)) [
              | inl b ↦
                  let room : (moved p v).writeptr + length src ≤ pipe_length =
                    ground (arith, moved_position o long) in
                  rw
                    (
                      write-compacts o long h,
                      write_in-wrote (moved p v) src (moved-IsValid p v) room,
                    )
                    (
                      contents-extended (moved p v) src (moved-IsValid p v) room
                          ∙ ap (λ ys. ys ++ src) (contents-moved p v),
                      extended-IsValid (moved p v) src (moved-IsValid p v) room,
                    )
              | inr b ↦
                  let over : pipe_length < length (contents p) + length src = ground arith in
                  rw (write-faults o long h over) (over, h)
            ]
