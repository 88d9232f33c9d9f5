-- ===== src/Drivers/Input/Contents.antt =====
-- What the input buffer of drivers/tty-line.c holds, and the characters that are added and read.
use mathlib.Core.List.{append-nil}
use os0_kernel.Prelude.{
  ℕ, zero, suc, ◌+◌, ◌-◌, ◌^◌, ◌≤◌, ◌<◌, ◌≡◌, refl, ◌∙◌, ap, sym, true, false, ◌||◌, ◌&&◌, none,
  some, List, [], ◌∷◌, ◌++◌, arith, ltb, leb, ◌==◌, if◌then◌else◌, length, inl, inr, Bool-cases,
  ==→eq,
}
use os0_kernel.Prelude.Ends.{Ends}
use os0_kernel.Drivers.Input.{
  Termios, Input, buffer_size, has_lflag, has_iflag, icanon, imaxbel, sub32, update, make_room,
  add_or_drop, add_char, flush_input_line, slice, read_ready,
}

-- The part that is read starts before it ends, inside the buffer.
pub record IsValid (b : Input) : Type 0 where
  pub order : b.tb_start ≤ b.tb_end
  pub fits : b.tb_end ≤ buffer_size

-- The characters that are not read yet
abbrev pub contents : Input → List ℕ
contents b = slice b.tb_data (b.tb_end - b.tb_start) b.tb_start

-- The buffer `b'` is `b` with the character `c` behind it.
pub record Appended (b b' : Input) (c : ℕ) : Type 0 where
  pub tb_start : b'.tb_start ≡ b.tb_start
  pub tb_end : b'.tb_end ≡ b.tb_end + 1
  pub last : b'.tb_data b.tb_end ≡ c
  pub others : (j : ℕ) → j < b.tb_end → b'.tb_data j ≡ b.tb_data j

pub slice-cong :
    (f g : ℕ → ℕ) (n i : ℕ) → ((j : ℕ) → i ≤ j → j < i + n → f j ≡ g j) → slice f n i ≡ slice g n i
slice-cong f g zero i h = refl
slice-cong f g (suc n) i h =
    ap (λ x. x ∷ slice f n (i + 1)) (h i (omega arith) (omega arith))
    ∙ ap (λ xs. g i ∷ xs) (slice-cong f g n (i + 1) (λ j p q. h j (omega arith) (omega arith)))

pub slice-split : (f : ℕ → ℕ) (m n i : ℕ) → slice f (m + n) i ≡ slice f m i ++ slice f n (i + m)
slice-split f zero n i = ap (λ k. slice f k i) (omega arith) ∙ ap (slice f n) (omega arith)
slice-split f (suc m) n i =
    ap (λ k. slice f k i) {x = suc m + n} {y = suc (m + n)} (omega arith)
    ∙ ap (λ xs. f i ∷ xs)
        (slice-split f m n (i + 1) ∙ ap (λ k. slice f m (i + 1) ++ slice f n k) (omega arith))

pub length-slice : (f : ℕ → ℕ) (n i : ℕ) → length (slice f n i) ≡ n
length-slice f zero i = refl
length-slice f (suc n) i = ap suc (length-slice f n (i + 1))

-- One character more at the end
slice-last : (f : ℕ → ℕ) (n i : ℕ) → slice f (n + 1) i ≡ slice f n i ++ (f (i + n) ∷ [])
slice-last f n i = slice-split f n 1 i

pub Appended-contents :
    (b b' : Input) (c : ℕ) → IsValid b → Appended b b' c → contents b' ≡ contents b ++ (c ∷ [])
Appended-contents b b' c w a =
    ap (λ n. slice b'.tb_data n b'.tb_start) more
    ∙ ap (slice b'.tb_data (n + 1)) a.tb_start
    ∙ slice-last b'.tb_data n b.tb_start
    ∙ ap (λ x. slice b'.tb_data n b.tb_start ++ (b'.tb_data x ∷ [])) {x = b.tb_start + n}
        {y = b.tb_end} (omega (arith, w.order))
    ∙ ap (λ x. slice b'.tb_data n b.tb_start ++ (x ∷ [])) a.last
    ∙ ap (λ xs. xs ++ (c ∷ []))
        (slice-cong b'.tb_data b.tb_data n b.tb_start
          (λ j p q. a.others j (omega (arith, w.order))))
  where
    n : ℕ
    n = b.tb_end - b.tb_start

    more : b'.tb_end - b'.tb_start ≡ n + 1
    more = omega (arith, a.tb_start, a.tb_end, w.order)

pub Appended-IsValid :
    (b b' : Input) (c : ℕ) → IsValid b → b.tb_end < buffer_size → Appended b b' c → IsValid b'
Appended-IsValid b b' c w h a = record {
  order = omega (arith, a.tb_start, a.tb_end, w.order);
  fits = omega (arith, a.tb_start, a.tb_end);
}

-- Where there is room, `tty_input_buffer_add_char` adds the character.
pub add_char-Appended :
    (tm : Termios) (b : Input) (c : ℕ)
    → b.tb_end < buffer_size - 1
    → Ends (λ b'. Appended b b' c) (add_char tm b c)
unfolding add_char make_room add_or_drop
add_char-Appended tm b c h = (
  record b { tb_data = update b.tb_data b.tb_end c; tb_end = b.tb_end + 1 },
  ground arith,
  record { tb_start = refl; tb_end = refl; last = ground arith; others = λ j p. ground arith },
)

pub sub32-sub : (a b : ℕ) → b ≤ a → a < 2 ^ 32 → sub32 a b ≡ a - b
sub32-sub a b p q = omega arith

-- The number of characters that a call for `len` of them reads
abbrev pub amount : Input → ℕ → ℕ
amount b len = if ltb (b.tb_end - b.tb_start) len then b.tb_end - b.tb_start else len

rest_of : Input → ℕ → Input
rest_of b n =
    if b.tb_start + n == b.tb_end
    then record b { tb_start = 0; tb_end = 0; ready = false }
    else record b { tb_start = b.tb_start + n }

rest_of-contents :
    (b : Input) (n : ℕ)
    → IsValid b
    → n ≤ b.tb_end - b.tb_start
    → (slice b.tb_data n b.tb_start ++ contents (rest_of b n) ≡ contents b) × IsValid (rest_of b n)
unfolding rest_of
rest_of-contents b n w h = elim (Bool-cases (b.tb_start + n == b.tb_end)) [
  | inl all ↦ rw all (
    append-nil _
        ∙ ap (λ k. slice b.tb_data k b.tb_start)
            (omega (arith, ==→eq (b.tb_start + n) b.tb_end all)),
    record { order = omega arith; fits = omega arith },
  )
  | inr some_left ↦ rw some_left (
    sym (slice-split b.tb_data n (b.tb_end - (b.tb_start + n)) b.tb_start)
        ∙ ap (λ k. slice b.tb_data k b.tb_start) (omega (arith, w.order)),
    record { order = omega (arith, w.order); fits = w.fits },
  )
]

-- On a buffer whose unread characters start before they end, and end inside it, `tty_read` with data
-- ready copies the first unread characters, as many as there are or as asked for, and leaves the
-- others, in order, in such a buffer: nothing is lost, read twice, or read from outside the buffer.
pub read_ready-splits :
    (b : Input) (len : ℕ)
    → IsValid b
    → (s : List ℕ) × (b' : Input) × (read_ready b len ≡ some (s, b'))
      × (length s ≡ amount b len)
      × (s ++ contents b' ≡ contents b)
      × IsValid b'
unfolding read_ready rest_of
read_ready-splits b len w =
    let (e, v) = rest_of-contents b (amount b len) w few in
    (
      slice b.tb_data (amount b len) b.tb_start,
      rest_of b (amount b len),
      rw (sub32-sub b.tb_end b.tb_start w.order (omega (arith, w.fits)), inside) refl,
      length-slice b.tb_data (amount b len) b.tb_start,
      e,
      v,
    )
  where
    few : amount b len ≤ b.tb_end - b.tb_start
    few = ground arith

    inside : leb (b.tb_start + amount b len) buffer_size ≡ true
    inside = ground (arith, few, w.order, w.fits)

-- Where nothing before the unread characters has been read, `tty_input_buffer_add_char` adds a
-- character while a place is left over for the newline of a line in canonical mode, and the
-- newline there; any other character is dropped, with the bell where IMAXBEL asks for it. It
-- writes past the buffer exactly for a newline in canonical mode when that place is taken too.
pub add_char-cases :
    (tm : Termios) (b : Input) (c : ℕ)
    → b.tb_start ≡ 0
    → b.tb_end ≤ buffer_size
    → add_char tm b c ≡ (
        if ltb b.tb_end (buffer_size - 1)
          || (b.tb_end == buffer_size - 1 && (has_lflag tm icanon && c == 10))
        then some (record b { tb_data = update b.tb_data b.tb_end c; tb_end = b.tb_end + 1 })
        else if has_lflag tm icanon && c == 10
        then none
        else some (if has_iflag tm imaxbel then record b { beeps = b.beeps + 1 } else b))
unfolding add_char make_room add_or_drop
add_char-cases tm b c z h = ground arith

-- A call for at least the characters that there are reads all of them.
pub read_ready-all :
    (b : Input) (len : ℕ)
    → IsValid b
    → b.tb_end - b.tb_start ≤ len
    → read_ready b len ≡ some (contents b, record b { tb_start = 0; tb_end = 0; ready = false })
unfolding read_ready
read_ready-all b len w h =
    rw (sub32-sub b.tb_end b.tb_start w.order (omega (arith, w.fits)), all, inside, whole) refl
  where
    n : ℕ
    n = b.tb_end - b.tb_start

    all : (if ltb n len then n else len) ≡ n
    all = ground arith

    inside : leb (b.tb_start + n) buffer_size ≡ true
    inside = ground (arith, w.order, w.fits)

    whole : (b.tb_start + n == b.tb_end) ≡ true
    whole = ground (arith, w.order)

-- A delimiter is added, and then the line is ready.
pub flush_input_line-Appended :
    (tm : Termios) (b : Input) (delim : ℕ)
    → (delim == 0) ≡ false
    → b.tb_end < buffer_size - 1
    → (b' : Input) × (flush_input_line tm b delim ≡ some b')
      × Appended b b' delim
      × (b'.ready ≡ true)
unfolding flush_input_line
flush_input_line-Appended tm b delim z h =
    let (b', e, a) = add_char-Appended tm b delim h in
    (
      record b' { ready = true },
      rw (z, e, flush_input_line) refl,
      record { tb_start = a.tb_start; tb_end = a.tb_end; last = a.last; others = a.others },
      refl,
    )
