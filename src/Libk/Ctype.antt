-- ===== src/Libk/Ctype.antt =====
-- libk/ctype.c: classes of characters. A character is an `int`, which may be negative.
pub mod Classes
use os0_kernel.Prelude.{
  ℕ, ◌+◌, ◌-◌, ◌%◌, Bool, true, false, not, ◌&&◌, ◌||◌, bit_and, ltb, leb, ◌==◌, if◌then◌else◌,
}
use os0_kernel.Prelude.Int.{ℤ, pos, negsuc}

-- `c >= n`, `c <= n` and `c == n` for a number `n` that is not negative.
abbrev pub ge : ℤ → ℕ → Bool
ge (pos c) n = leb n c
ge (negsuc c) n = false

abbrev pub le : ℤ → ℕ → Bool
le (pos c) n = leb c n
le (negsuc c) n = true

abbrev pub is : ℤ → ℕ → Bool
is (pos c) n = c == n
is (negsuc c) n = false

-- `(unsigned char) c`
abbrev pub to_uchar : ℤ → ℕ
to_uchar (pos c) = c % 256
to_uchar (negsuc c) = 255 - c % 256

unfoldable pub islower : ℤ → Bool
islower c = ge c b'a' && le c b'z'

unfoldable pub isupper : ℤ → Bool
isupper c = ge c b'A' && le c b'Z'

unfoldable pub isalpha : ℤ → Bool
unfolding islower isupper
isalpha c = islower c || isupper c

unfoldable pub isdigit : ℤ → Bool
isdigit c = ge c b'0' && le c b'9'

unfoldable pub isalnum : ℤ → Bool
unfolding isalpha isdigit
isalnum c = isalpha c || isdigit c

unfoldable pub isascii : ℤ → Bool
isascii c = ge c 0 && not (ge c 0x80)

unfoldable pub isblank : ℤ → Bool
isblank c = is c 0x20 || is c 0x09

unfoldable pub iscntrl : ℤ → Bool
iscntrl c = ltb (to_uchar c) 0x20 || is c 0x7f

unfoldable pub isgraph : ℤ → Bool
isgraph c = not (le c 0x20) && le c 0x7e

unfoldable pub isprint : ℤ → Bool
unfolding isgraph
isprint c = is c 0x20 || isgraph c

unfoldable pub ispunct : ℤ → Bool
unfolding isgraph isalnum
ispunct c = isgraph c && not (isalnum c)

unfoldable pub isspace : ℤ → Bool
unfolding isblank
isspace c = isblank c || (is c 0x0a || (is c 0x0b || (is c 0x0c || is c 0x0d)))

unfoldable pub isxdigit : ℤ → Bool
unfolding isdigit
isxdigit c = isdigit c || (ge c b'a' && le c b'f' || ge c b'A' && le c b'F')

-- `c & 0x7f`, of a negative number in two's complement.
unfoldable pub toascii : ℤ → ℤ
toascii (pos c) = pos (bit_and c 0x7f)
toascii (negsuc c) = pos (0x7f - bit_and c 0x7f)

-- `c + n` and `c - n`
abbrev pub plus : ℤ → ℕ → ℤ
plus (pos c) n = pos (c + n)
plus (negsuc c) n = if ltb c n then pos (n - c - 1) else negsuc (c - n)

abbrev pub minus : ℤ → ℕ → ℤ
minus (pos c) n = if leb n c then pos (c - n) else negsuc (n - c - 1)
minus (negsuc c) n = negsuc (c + n)

unfoldable pub tolower : ℤ → ℤ
unfolding isupper
tolower c = if isupper c then plus c 0x20 else c

unfoldable pub toupper : ℤ → ℤ
unfolding islower
toupper c = if islower c then minus c 0x20 else c
