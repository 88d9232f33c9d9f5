-- ===== src/Fs/Pipe/Reads.antt =====
-- Every outcome of `pipe_read` of fs/pipe.c.
use os0_kernel.Prelude.{
  ℕ, ◌+◌, ◌-◌, ◌%◌, ◌^◌, ◌≤◌, ◌<◌, ◌≡◌, ◌⊎◌, refl, true, false, [], ◌++◌, arith, leb, length, take,
  drop, Bool-cases, inl, inr, bit_or, length-take, length-drop,
}
use os0_kernel.Fs.Pipe.{
  Pipe, has_flag, data_end, write_closed, Read, got, read_out, read_wait, read,
}
use os0_kernel.Fs.Pipe.Fifo.{
  IsValid, contents, length-contents, read_out-got, taken-IsValid, contents-taken,
}

-- What a read may answer: bytes from the front of what is there, all that it asked for unless the
-- write end is closed; or it waits, since fewer are there and the write end is open.
abbrev pub ReadAnswer : Pipe → ℕ → Read → Type 0
ReadAnswer p len (got bytes q) =
    (contents p ≡ bytes ++ contents q)
    × IsValid q
    × (length bytes ≤ len)
    × ((length bytes ≡ len) ⊎ ((has_flag p write_closed ≡ true) ⊎ (has_flag p data_end ≡ true)))
ReadAnswer p len Read.waits = (length (contents p) < len) × (has_flag p write_closed ≡ false)
ReadAnswer p len Read.faults = ⊥

-- The end of the data: the pipe is marked.
abbrev pub ended : Pipe → Pipe
ended p = record p { flags = bit_or p.flags data_end }

module _ (p : Pipe) (len : ℕ) (v : IsValid p) (fits : p.readptr + len < 2 ^ 32) where
  read-end : has_flag p data_end ≡ true → read p len ≡ got [] p
  unfolding read
  read-end e = rw e

  module _ (open_end : has_flag p data_end ≡ false) where
    read-enough : p.readptr + len ≤ p.writeptr → read p len ≡ read_out p len
    unfolding read read_wait
    read-enough h = ground (arith, v.within)

    read-short :
        p.writeptr < p.readptr + len
        → has_flag p write_closed ≡ true
        → read p len ≡ read_out (ended p) (p.writeptr - p.readptr)
    unfolding read read_wait
    read-short h c =
        let rest : (p.writeptr + 2 ^ 32 - p.readptr) % 2 ^ 32 ≡ p.writeptr - p.readptr =
          omega (arith, v.in_order, v.within) in
        let whole : (p.readptr + len) % 2 ^ 32 ≡ p.readptr + len = omega arith in ground arith

    read-waits :
        p.writeptr < p.readptr + len → has_flag p write_closed ≡ false → read p len ≡ Read.waits
    unfolding read read_wait
    read-waits h c = ground arith

  -- On a valid pipe, for a length whose sum with the read position is below 2^32, `pipe_read` takes
  -- bytes in the order in which they were written and leaves the rest: it gives as many as it was
  -- asked for, or fewer where the write end is closed or the end was met before; it waits only where
  -- fewer are there and the write end is open; and it reads nothing outside the buffer.
  pub read-ReadAnswer : ReadAnswer p len (read p len)
  read-ReadAnswer = elim (Bool-cases (has_flag p data_end)) [
    | inl e ↦ rw (read-end e) (refl, v, omega arith, inr (inr e))
    | inr e ↦ elim (Bool-cases (leb (p.readptr + len) p.writeptr)) [
      | inl h ↦
          let enough : p.readptr + len ≤ p.writeptr = ground arith in
          rw (read-enough e enough, read_out-got p len v enough)
            (
              contents-taken p len v enough,
              taken-IsValid p len v enough,
              omega (arith, length_taken enough),
              inl (length_taken enough),
            )
      | inr h ↦
          let short : p.writeptr < p.readptr + len = ground arith in
          elim (Bool-cases (has_flag p write_closed)) [
            | inl c ↦
                let all : p.readptr + (p.writeptr - p.readptr) ≤ p.writeptr =
                  omega (arith, v.in_order) in
                rw
                  (
                    read-short e short c,
                    read_out-got (ended p) (p.writeptr - p.readptr) ended_valid all,
                  )
                  (
                    contents-taken (ended p) (p.writeptr - p.readptr) ended_valid all,
                    taken-IsValid (ended p) (p.writeptr - p.readptr) ended_valid all,
                    omega (arith, length_taken_all),
                    inr (inl c),
                  )
            | inr c ↦ rw (read-waits e short c) (omega (arith, length-contents p v, v.in_order), c)
          ]
    ]
  ]
    where
      length_taken : p.readptr + len ≤ p.writeptr → length (take len (drop p.readptr p.bytes)) ≡ len
      length_taken h =
          length-take len (drop p.readptr p.bytes)
            (omega (arith, length-drop p.readptr p.bytes, v.room, v.within))

      length_taken_all :
          length (take (p.writeptr - p.readptr) (drop p.readptr p.bytes)) ≡ p.writeptr - p.readptr
      length_taken_all = length-contents p v

      ended_valid : IsValid (ended p)
      ended_valid = record { room = v.room; in_order = v.in_order; within = v.within }
