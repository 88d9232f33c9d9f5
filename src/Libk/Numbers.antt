-- ===== src/Libk/Numbers.antt =====
-- libk/atoi.c: decimal numbers from text. A pointer is the list of the bytes from it to the end of
-- its object, and an access behind the end is `none`. Numbers are kept as the bits of an integer of
-- `w` bits, which wraps.
pub mod Decimal
use os0_kernel.Prelude.{
  ℕ, ◌+◌, ◌-◌, ◌*◌, ◌%◌, ◌^◌, Bool, true, false, Option, none, some, List, [], ◌∷◌, ltb, ◌==◌,
  if◌then◌else◌,
}
use os0_kernel.Prelude.Int.{ℤ, pos, negsuc}
use os0_kernel.Libk.Ctype.{isspace, isdigit}

-- A byte as a `char`, which is signed.
abbrev pub to_char : ℕ → ℤ
to_char c = if ltb c 128 then pos c else negsuc (255 - c)

-- `while (isspace (*str)) str++;`
pub skip_spaces : List ℕ → Option (List ℕ)
skip_spaces [] = none
skip_spaces (c ∷ s) = if isspace (to_char c) then skip_spaces s else some (c ∷ s)

-- The loop over the digits.
pub read_digits : ℕ → List ℕ → ℕ → Option ℕ
read_digits w [] val = none
read_digits w (c ∷ s) val =
    if isdigit (to_char c) then read_digits w s ((val * 10 + (c - b'0')) % 2 ^ w) else some val

-- `*str == '-'`
abbrev pub is_minus : List ℕ → Bool
is_minus [] = false
is_minus (c ∷ s) = c == b'-'

abbrev pub with_sign : ℕ → Bool → Option ℕ → Option ℕ
with_sign w neg none = none
with_sign w neg (some val) = some (if neg then (2 ^ w - val) % 2 ^ w else val)

abbrev pub read_number : ℕ → Option (List ℕ) → Option ℕ
read_number w none = none
read_number w (some s) = with_sign w (is_minus s) (read_digits w s 0)

-- `atoi` and `atol`, whose numbers have 32 bits, and `atoll`, whose numbers have 64.
pub atoi : List ℕ → Option ℕ
atoi s = read_number 32 (skip_spaces s)

pub atol : List ℕ → Option ℕ
atol s = read_number 32 (skip_spaces s)

pub atoll : List ℕ → Option ℕ
atoll s = read_number 64 (skip_spaces s)
