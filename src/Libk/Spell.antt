-- ===== src/Libk/Spell.antt =====
-- libk/itoa.c: numbers to text in a base. The text is the bytes before the terminator that the
-- code writes behind it.
pub mod Decimals
pub mod Signs
use os0_kernel.Prelude.{
  ℕ, zero, suc, ◌+◌, ◌-◌, ◌/◌, ◌%◌, Bool, true, false, ◌||◌, Option, none, some, List, [], ◌∷◌,
  ◌++◌, ltb, ◌==◌, if◌then◌else◌, get_or, length,
}
use os0_kernel.Prelude.Int.{ℤ, pos, negsuc}

-- `n` bytes that count up from `c`, and that count down from `c + n - 1`.
abbrev upward : ℕ → ℕ → List ℕ
upward zero c = []
upward (suc n) c = c ∷ upward n (c + 1)

abbrev downward : ℕ → ℕ → List ℕ
downward zero c = []
downward (suc n) c = (c + n) ∷ downward n c

-- The 71 digits from -35 to 35, with the letters from `a` on.
abbrev digit_table : ℕ → List ℕ
digit_table a = downward 26 a ++ (downward 9 (b'0' + 1) ++ (upward 10 b'0' ++ upward 26 a))

unfoldable pub lower_digits : List ℕ
lower_digits = digit_table b'a'

unfoldable pub upper_digits : List ℕ
upper_digits = digit_table b'A'

-- `digits[35 + (temp - value * base)]`, where the remainder has the sign of the number.
pub digit : List ℕ → Bool → ℕ → ℕ
digit digits negative r = get_or digits (if negative then 35 - r else 35 + r) 0

-- The first loop: the digits of the number with the absolute value `m`, the lowest one first.
-- Each round divides by 2 or more, so that 33 rounds are enough for 32 bits.
pub digits_of : ℕ → List ℕ → Bool → ℕ → ℕ → List ℕ
digits_of zero digits negative base m = []
digits_of (suc rounds) digits negative base m =
    let rest = digits_of rounds digits negative base (m / base) in
    digit digits negative (m % base) ∷ (if m / base == 0 then [] else rest)

-- All but the last byte, and the last one.
pub unsnoc : List ℕ → Option (List ℕ × ℕ)
unsnoc [] = none
unsnoc (x ∷ s) = elim (unsnoc s) [ none ↦ some ([], x) | some (m, y) ↦ some (x ∷ m, y) ]

-- The second loop on the bytes from `rev` to `ptr`: it swaps the first and the last one, and goes on
-- with those between them.
pub swap_ends : ℕ → List ℕ → List ℕ
swap_ends zero s = s
swap_ends (suc rounds) [] = []
swap_ends (suc rounds) (x ∷ s) = elim (unsnoc s) [
  | none ↦ x ∷ []
  | some (m, y) ↦ y ∷ (swap_ends rounds m ++ (x ∷ []))
]

abbrev pub turned : List ℕ → List ℕ
turned s = swap_ends (length s) s

abbrev bad_base : ℕ → Bool
bad_base base = ltb base 2 || ltb 36 base

-- `_itoa` and `_utoa`, for a base that is not negative; `_utoa` does not use its digits.
pub itoa_with : List ℕ → ℤ → ℕ → List ℕ
itoa_with digits (pos n) base =
    if bad_base base then [] else turned (digits_of 33 digits false base n)
itoa_with digits (negsuc n) base =
    if bad_base base then [] else turned (digits_of 33 digits true base (suc n) ++ (b'-' ∷ []))

pub utoa_with : List ℕ → ℕ → ℕ → List ℕ
utoa_with digits n base =
    if bad_base base then [] else turned (digits_of 33 lower_digits false base n)

-- `itoa`, `itoa_u`, `utoa` and `utoa_u`
pub itoa : ℤ → ℕ → List ℕ
itoa value base = itoa_with lower_digits value base

pub itoa_u : ℤ → ℕ → List ℕ
itoa_u value base = itoa_with upper_digits value base

pub utoa : ℕ → ℕ → List ℕ
utoa value base = utoa_with lower_digits value base

pub utoa_u : ℕ → ℕ → List ℕ
utoa_u value base = utoa_with upper_digits value base
