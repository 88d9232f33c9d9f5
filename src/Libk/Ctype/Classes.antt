-- ===== src/Libk/Ctype/Classes.antt =====
-- How the classes of libk/ctype.c lie to one another, and the two conversions.
use os0_kernel.Prelude.{◌≡◌, true, false, not, ◌&&◌, ◌||◌, arith}
use os0_kernel.Prelude.Int.{ℤ, pos, negsuc}
use os0_kernel.Libk.Ctype.{
  isascii, iscntrl, isprint, isgraph, isalnum, ispunct, isalpha, isdigit, islower, isupper, tolower,
  toupper,
}

-- An ASCII character is either a control character or printable, and not both; a graphic one is
-- either alphanumeric or punctuation, and not both; no character is alphabetic and a digit; and none
-- is of lower and of upper case.
pub classes_partition :
    (c : ℤ)
    → isascii c ≡ true
    → (iscntrl c ≡ not (isprint c))
      × (isgraph c ≡ (isalnum c || ispunct c))
      × ((isalnum c && ispunct c) ≡ false)
      × ((isalpha c && isdigit c) ≡ false)
      × ((islower c && isupper c) ≡ false)
unfolding isascii iscntrl isprint isalnum ispunct
classes_partition (negsuc c) h = ground arith
classes_partition (pos c) h = (ground arith, ground arith, ground arith, ground arith, ground arith)

-- `toupper` undoes `tolower` on the characters of upper case and `tolower` undoes `toupper` on those
-- of lower case; each leaves no character of the case that it converts.
pub case_conversions :
    (c : ℤ)
    → (isupper c ≡ true → toupper (tolower c) ≡ c)
      × (islower c ≡ true → tolower (toupper c) ≡ c)
      × (isupper (tolower c) ≡ false)
      × (islower (toupper c) ≡ false)
unfolding tolower toupper
case_conversions (negsuc c) = (λ h. ground arith, λ h. ground arith, ground arith, ground arith)
case_conversions (pos c) = (λ h. ground arith, λ h. ground arith, ground arith, ground arith)
