-- ===== src/Fs/Pipe/Fifo.antt =====
-- `pipe_read` and `pipe_write` against a queue of bytes.
use os0_kernel.Prelude.{
  ℕ, ◌+◌, ◌-◌, ◌≤◌, ◌≡◌, ◌∙◌, ap, some, List, ◌++◌, arith, length, take, drop, length-append,
  length-take, length-drop, drop-drop, take-split, take-length, take-append, take-append_le,
  drop-take_append,
}
use os0_kernel.Fs.Pipe.{
  Pipe, pipe_length, copy_out, copy_in, got, read_out, wrote, write_in, compact,
}

-- The positions are in the buffer, which has PIPE_LENGTH bytes.
pub record IsValid (p : Pipe) : Type 0 where
  pub room : length p.bytes ≡ pipe_length
  pub in_order : p.readptr ≤ p.writeptr
  pub within : p.writeptr ≤ pipe_length

-- The bytes that were written and not read yet.
abbrev pub contents : Pipe → List ℕ
contents p = take (p.writeptr - p.readptr) (drop p.readptr p.bytes)

pub length-contents : (p : Pipe) → IsValid p → length (contents p) ≡ p.writeptr - p.readptr
length-contents p v =
    length-take (p.writeptr - p.readptr) (drop p.readptr p.bytes)
      (omega (arith, length-drop p.readptr p.bytes, v.room, v.in_order, v.within))

copy_out-some :
    (bytes : List ℕ) (i n : ℕ)
    → i + n ≤ length bytes
    → copy_out bytes i n ≡ some (take n (drop i bytes))
unfolding copy_out
copy_out-some bytes i n h = ground arith

copy_in-some :
    (bytes : List ℕ) (i : ℕ) (src : List ℕ)
    → i + length src ≤ length bytes
    → copy_in bytes i src ≡ some (take i bytes ++ (src ++ drop (i + length src) bytes))
unfolding copy_in
copy_in-some bytes i src h = ground arith

length-copied :
    (bytes : List ℕ) (i : ℕ) (src : List ℕ)
    → i + length src ≤ length bytes
    → length (take i bytes ++ (src ++ drop (i + length src) bytes)) ≡ length bytes
length-copied bytes i src h = omega (
  arith,
  length-append (take i bytes) (src ++ drop (i + length src) bytes),
  length-append src (drop (i + length src) bytes),
  length-take i bytes (omega arith),
  length-drop (i + length src) bytes,
)

-- Reading `n` bytes that are there takes them from the front.
module _ (p : Pipe) (n : ℕ) (v : IsValid p) (h : p.readptr + n ≤ p.writeptr) where
  unfoldable pub taken : Pipe
  taken = record p { readptr = p.readptr + n }

  pub read_out-got : read_out p n ≡ got (take n (drop p.readptr p.bytes)) taken
  unfolding read_out taken
  read_out-got =
      ground (arith, copy_out-some p.bytes p.readptr n (omega (arith, v.room, v.within)), v.within)

  pub taken-IsValid : IsValid taken
  unfolding taken
  taken-IsValid = record { room = v.room; in_order = h; within = v.within }

  pub contents-taken : contents p ≡ take n (drop p.readptr p.bytes) ++ contents taken
  unfolding taken
  contents-taken =
      ap (λ m. take m (drop p.readptr p.bytes)) (omega (arith, v.in_order))
      ∙ take-split n (p.writeptr - (p.readptr + n)) (drop p.readptr p.bytes)
      ∙ ap (λ ys. take n (drop p.readptr p.bytes) ++ take (p.writeptr - (p.readptr + n)) ys)
          (drop-drop p.readptr n p.bytes)

-- Writing bytes that fit behind the others appends them.
module _ (p : Pipe) (src : List ℕ) (v : IsValid p) (h : p.writeptr + length src ≤ pipe_length) where
  unfoldable pub extended : Pipe
  extended = record p {
    bytes = take p.writeptr p.bytes ++ (src ++ drop (p.writeptr + length src) p.bytes);
    writeptr = p.writeptr + length src;
  }

  pub write_in-wrote : write_in p src ≡ wrote extended
  unfolding write_in extended
  write_in-wrote = ground (arith, copy_in-some p.bytes p.writeptr src (omega (arith, v.room)))

  pub extended-IsValid : IsValid extended
  unfolding extended
  extended-IsValid = record {
    room = length-copied p.bytes p.writeptr src (omega (arith, v.room)) ∙ v.room;
    in_order = omega (arith, v.in_order);
    within = h;
  }

  pub contents-extended : contents extended ≡ contents p ++ src
  unfolding extended
  contents-extended =
      ap (take (p.writeptr + length src - p.readptr)) (
        drop-take_append p.readptr p.writeptr p.bytes
          (src ++ drop (p.writeptr + length src) p.bytes) v.in_order
          (omega (arith, v.room, v.within)))
      ∙ ap (λ m. take m (contents p ++ (src ++ drop (p.writeptr + length src) p.bytes)))
          (omega (arith, length-contents p v, v.in_order))
      ∙ take-append (contents p) (src ++ drop (p.writeptr + length src) p.bytes) (length src)
      ∙ ap (λ ys. contents p ++ ys)
          (take-append_le (length src) src (drop (p.writeptr + length src) p.bytes) (omega arith)
            ∙ take-length src)

-- What is not read yet is moved to the front, and stays the same.
module _ (p : Pipe) (v : IsValid p) where
  unfoldable pub moved : Pipe
  moved =
      let rest = take (pipe_length - p.readptr) (drop p.readptr p.bytes) in
      record p {
        bytes = rest ++ drop (0 + length rest) p.bytes;
        writeptr = p.writeptr - p.readptr;
        readptr = 0;
      }

  length-unread :
      length (take (pipe_length - p.readptr) (drop p.readptr p.bytes)) ≡ pipe_length - p.readptr
  length-unread =
      length-take (pipe_length - p.readptr) (drop p.readptr p.bytes)
        (omega (arith, length-drop p.readptr p.bytes, v.room))

  pub compact-moved : compact p ≡ some moved
  unfolding compact moved
  compact-moved = ground (
    arith,
    copy_out-some p.bytes p.readptr (pipe_length - p.readptr)
        (omega (arith, v.room, v.in_order, v.within)),
    copy_in-some p.bytes 0 (take (pipe_length - p.readptr) (drop p.readptr p.bytes))
        (omega (arith, length-unread, v.room)),
    v.in_order,
    v.within,
  )

  pub moved-IsValid : IsValid moved
  unfolding moved
  moved-IsValid = record {
    room =
        length-copied p.bytes 0 (take (pipe_length - p.readptr) (drop p.readptr p.bytes))
          (omega (arith, length-unread, v.room))
        ∙ v.room;
    in_order = omega arith;
    within = omega (arith, v.within);
  }

  pub contents-moved : contents moved ≡ contents p
  unfolding moved
  contents-moved =
      let rest = take (pipe_length - p.readptr) (drop p.readptr p.bytes) in
      ap (λ m. take m (rest ++ drop (0 + length rest) p.bytes)) (omega arith)
      ∙ take-append_le (p.writeptr - p.readptr) rest (drop (0 + length rest) p.bytes)
          (omega (arith, length-unread, v.within))
      ∙ ap (take (p.writeptr - p.readptr)) all_of_it
    where
      all_of_it : take (pipe_length - p.readptr) (drop p.readptr p.bytes) ≡ drop p.readptr p.bytes
      all_of_it =
          ap (λ m. take m (drop p.readptr p.bytes))
            (omega (arith, length-drop p.readptr p.bytes, v.room))
          ∙ take-length (drop p.readptr p.bytes)
