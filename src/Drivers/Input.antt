-- ===== src/Drivers/Input.antt =====
-- drivers/tty-line.c: the input buffer of a terminal, which the line discipline fills and edits,
-- and which `tty_read` empties. An index outside the buffer is a fault, `none`.
pub mod Contents
pub mod Editing
pub mod Words
pub mod Bounds
use os0_kernel.Prelude.{
  ℕ, zero, suc, ◌+◌, ◌-◌, ◌*◌, ◌%◌, ◌^◌, Bool, true, false, not, ◌||◌, ◌&&◌, Option, none, some,
  List, [], ◌∷◌, bit_and, ltb, leb, ◌==◌, ◌!=◌, if◌then◌else◌,
}
use os0_kernel.Libk.Ctype.{isspace}
use os0_kernel.Libk.Numbers.{to_char}

-- TTY_BUFFER_SIZE
abbrev pub buffer_size : ℕ
buffer_size = 4096

-- The fields of `struct termios` that the line discipline uses
pub record Termios : Type 0 where
  pub c_iflag : ℕ
  pub c_lflag : ℕ
  pub c_cc : ℕ → ℕ

-- `TTYInputBuffer`, with TTY_INPUT_READY of `t_flags` and the number of calls of `speaker_beep`
pub record Input : Type 0 where
  pub tb_data : ℕ → ℕ
  pub tb_start : ℕ
  pub tb_end : ℕ
  pub ready : Bool
  pub beeps : ℕ

abbrev pub has_lflag : Termios → ℕ → Bool
has_lflag tm m = bit_and tm.c_lflag m != 0

abbrev pub has_iflag : Termios → ℕ → Bool
has_iflag tm m = bit_and tm.c_iflag m != 0

abbrev pub imaxbel : ℕ
imaxbel = 0x2000

abbrev pub icanon : ℕ
icanon = 0x2

abbrev pub veof : ℕ
veof = 4

-- A `char`, which is signed, compared with an `unsigned char`
abbrev pub same_char : ℕ → ℕ → Bool
same_char c x = ltb c 128 && c == x

-- CHAR_MATCH, for the character `c`
abbrev pub char_match : Termios → ℕ → ℕ → Bool
char_match tm c match = same_char c (tm.c_cc match) && tm.c_cc match != 0xff

-- `a - b` in a `size_t`
abbrev pub sub32 : ℕ → ℕ → ℕ
sub32 a b = (a + 2 ^ 32 - b) % 2 ^ 32

abbrev pub update : (ℕ → ℕ) → ℕ → ℕ → ℕ → ℕ
update f i v j = if j == i then v else f j

-- The `memmove` of `tty_input_buffer_add_char`, and the `tb_end` that follows it; `tb_start` stays.
pub compacted : Input → Option Input
compacted b =
    if leb b.tb_start b.tb_end && leb b.tb_end buffer_size
    then some (record b {
      tb_data =
          λ i. if ltb i (b.tb_end - b.tb_start) then b.tb_data (b.tb_start + i) else b.tb_data i;
      tb_end = b.tb_end - b.tb_start;
    })
    else none

pub make_room : Input → Option Input
make_room b = if leb (buffer_size - 1) b.tb_end && ltb 0 b.tb_start then compacted b else some b

-- `buffer->tb_data[buffer->tb_end++] = c`
abbrev pub stored : Input → ℕ → Option Input
stored b c =
    if ltb b.tb_end buffer_size
    then some (record b { tb_data = update b.tb_data b.tb_end c; tb_end = b.tb_end + 1 })
    else none

-- What `tty_input_buffer_add_char` does once it has tried to make room.
pub add_or_drop : Termios → Input → ℕ → Option Input
add_or_drop tm b c =
    if leb (buffer_size - 1) b.tb_end && (not (has_lflag tm icanon) || c != 10)
    then some (if has_iflag tm imaxbel then record b { beeps = b.beeps + 1 } else b)
    else stored b c

-- `tty_input_buffer_add_char`
pub add_char : Termios → Input → ℕ → Option Input
add_char tm b c = elim (make_room b) [ none ↦ none | some b' ↦ add_or_drop tm b' c ]

abbrev set_ready : Option Input → Option Input
set_ready none = none
set_ready (some b) = some (record b { ready = true })

-- `tty_flush_input_line`
pub flush_input_line : Termios → Input → ℕ → Option Input
flush_input_line tm b delim = set_ready (if delim != 0 then add_char tm b delim else some b)

-- The end-of-file character, where there is one
abbrev pub is_eof : Termios → ℕ → Bool
is_eof tm c = char_match tm c veof

-- `tty_erase_input`: the buffer, and the number of characters that it erased
pub erase_input : Termios → Input → Option (Input × ℕ)
erase_input tm b =
    if b.tb_end == 0
    then some (b, 0)
    else if leb b.tb_end buffer_size
    then (if is_eof tm (b.tb_data (b.tb_end - 1))
        then some (b, 0)
        else some (record b { tb_end = b.tb_end - 1 }, 1))
    else none

abbrev in_word : Bool → ℕ → Bool
in_word space c = if space then isspace (to_char c) else not (isspace (to_char c))

abbrev pub goes_on : Termios → Bool → ℕ → Bool
goes_on tm space c = in_word space c && not (is_eof tm c)

-- A loop of `tty_erase_input_word` over the characters that are spaces, or that are not, from the
-- index `i - 1` down, with the index after the one that it stops at. `tb_start` is a `size_t`, and
-- so `i >= tb_start` holds of the index -1, which is outside the buffer.
pub word_loop : Termios → Input → Bool → ℕ → Option ℕ
word_loop tm b space zero = none
word_loop tm b space (suc i) =
    let next = word_loop tm b space i in
    if ltb i b.tb_start
    then some (suc i)
    else if leb buffer_size i
    then none
    else if goes_on tm space (b.tb_data i)
    then next
    else some (suc i)

-- `tty_erase_input_word`
pub erase_input_word : Termios → Input → Option (Input × ℕ)
erase_input_word tm b = elim (word_loop tm b true b.tb_end) [
  | none ↦ none
  | some i ↦ elim (word_loop tm b false i) [
    | none ↦ none
    | some j ↦ some (record b { tb_end = j }, sub32 b.tb_end j)
  ]
]

-- `memrchr` of the first `n` characters: the index after the last one that is `c`, or 0.
pub last_index : (ℕ → ℕ) → ℕ → ℕ → Option ℕ
last_index f c zero = none
last_index f c (suc n) = let before = last_index f c n in if f n == c then some n else before

abbrev pub last_eof : Termios → Input → Option ℕ
last_eof tm b = if tm.c_cc veof == 0xff then none else last_index b.tb_data (tm.c_cc veof) b.tb_end

-- `tty_kill_input` with what `memrchr` finds
abbrev pub all_killed : Input → Input × ℕ
all_killed b = (record b { tb_start = 0; tb_end = 0 }, sub32 b.tb_end b.tb_start)

abbrev pub killed : Input → Option ℕ → Input × ℕ
killed b none = all_killed b
killed b (some i) =
    if ltb i b.tb_start then all_killed b else (record b { tb_end = i }, sub32 b.tb_end i)

-- `tty_kill_input`
pub kill_input : Termios → Input → Input × ℕ
kill_input tm b = killed b (last_eof tm b)

-- `n` characters from the index `i` on
abbrev pub slice : (ℕ → ℕ) → ℕ → ℕ → List ℕ
slice f zero i = []
slice f (suc n) i = f i ∷ slice f n (i + 1)

-- The label `data_ready` of `tty_read`: the characters copied, and the buffer afterwards
pub read_ready : Input → ℕ → Option (List ℕ × Input)
read_ready b len =
    let n = (if ltb (sub32 b.tb_end b.tb_start) len then sub32 b.tb_end b.tb_start else len) in
    if leb (b.tb_start + n) buffer_size
    then some (
      slice b.tb_data n b.tb_start,
      if b.tb_start + n == b.tb_end
          then record b { tb_start = 0; tb_end = 0; ready = false }
          else record b { tb_start = b.tb_start + n },
    )
    else none
