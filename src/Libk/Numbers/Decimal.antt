-- ===== src/Libk/Numbers/Decimal.antt =====
-- What `atoi` and `atoll` of libk/atoi.c answer on decimal numbers.
use native.Mathlib.Nat.{add-mul-mod_self_right, zero-mod, div-add-mod'}
use os0_kernel.Prelude.{
  ℕ, ◌+◌, ◌-◌, ◌*◌, ◌%◌, ◌^◌, ◌<◌, ◌≡◌, refl, ◌∙◌, sym, ◌/◌, ap, true, false, some, List, [], ◌∷◌,
  ◌++◌, arith, ◌==◌,
}
use os0_kernel.Libk.Ctype.{isspace, isdigit}
use os0_kernel.Libk.Numbers.{to_char, skip_spaces, read_digits, read_number, is_minus, atoi, atoll}

abbrev pub AllSpaces : List ℕ → Type 0
AllSpaces [] = Unit
AllSpaces (c ∷ s) = (isspace (to_char c) ≡ true) × AllSpaces s

abbrev pub AllDigits : List ℕ → Type 0
AllDigits [] = Unit
AllDigits (d ∷ ds) = (d < 10) × AllDigits ds

-- The number that digits stand for, the first one the highest, after `acc`.
unfoldable pub value : ℕ → List ℕ → ℕ
value acc [] = acc
value acc (d ∷ ds) = value (acc * 10 + d) ds

-- The digits as text.
unfoldable pub spelled : List ℕ → List ℕ
spelled [] = []
spelled (d ∷ ds) = (b'0' + d) ∷ spelled ds

skip_spaces-append :
    (spaces s : List ℕ) → AllSpaces spaces → skip_spaces (spaces ++ s) ≡ skip_spaces s
unfolding skip_spaces
skip_spaces-append [] s h = refl
skip_spaces-append (c ∷ spaces) s (h, t) = rw h (skip_spaces-append spaces s t)

pub digit_test : (d : ℕ) → d < 10 → isdigit (to_char (b'0' + d)) ≡ true
unfolding isdigit
digit_test d h = ground arith

module _ (w : ℕ) where
  -- The wrapping of the sum so far does not change the wrapped result.
  pub wrap_step : (acc d : ℕ) → (acc % 2 ^ w * 10 + d) % 2 ^ w ≡ (acc * 10 + d) % 2 ^ w
  wrap_step acc d =
      sym (add-mul-mod_self_right (acc % 2 ^ w * 10 + d) (acc / 2 ^ w * 10) (2 ^ w))
      ∙ ap (λ n. n % 2 ^ w) whole
    where
      whole : acc % 2 ^ w * 10 + d + acc / 2 ^ w * 10 * 2 ^ w ≡ acc * 10 + d
      whole = omega (arith, div-add-mod' acc (2 ^ w))

  read_digits-spelled :
      (ds : List ℕ) (stop acc : ℕ) (rest : List ℕ)
      → AllDigits ds
      → isdigit (to_char stop) ≡ false
      → read_digits w (spelled ds ++ (stop ∷ rest)) (acc % 2 ^ w) ≡ some (value acc ds % 2 ^ w)
  unfolding read_digits spelled value
  read_digits-spelled [] stop acc rest h n = rw n refl
  read_digits-spelled (d ∷ ds) stop acc rest (h, t) n = rw (digit_test d h) (
      ap (read_digits w (spelled ds ++ (stop ∷ rest))) (
        ap (λ n. (acc % 2 ^ w * 10 + n) % 2 ^ w) {x = b'0' + d - b'0'} {y = d} (omega arith)
        ∙ wrap_step acc d)
      ∙ read_digits-spelled ds stop (acc * 10 + d) rest t n)

no_space : (d : ℕ) → d < 10 → isspace (to_char (b'0' + d)) ≡ false
unfolding isspace
no_space d h = ground arith

no_minus : (d : ℕ) → d < 10 → (b'0' + d == b'-') ≡ false
no_minus d h = ground arith

module _ (w d : ℕ) (ds : List ℕ) (stop : ℕ) (rest : List ℕ) (lt : d < 10) (t : AllDigits ds)
    (n : isdigit (to_char stop) ≡ false) where
  spaces_over :
      skip_spaces (spelled (d ∷ ds) ++ (stop ∷ rest)) ≡ some (spelled (d ∷ ds) ++ (stop ∷ rest))
  unfolding skip_spaces spelled
  spaces_over = rw (no_space d lt)

  all_digits : read_digits w (spelled (d ∷ ds) ++ (stop ∷ rest)) 0 ≡ some (value 0 (d ∷ ds) % 2 ^ w)
  all_digits =
      ap (read_digits w (spelled (d ∷ ds) ++ (stop ∷ rest))) (sym (zero-mod (2 ^ w)))
      ∙ read_digits-spelled w (d ∷ ds) stop 0 rest (lt, t) n

  unsigned : is_minus (spelled (d ∷ ds) ++ (stop ∷ rest)) ≡ false
  unfolding spelled
  unsigned = no_minus d lt

  read_number-spelled :
      read_number w (skip_spaces (spelled (d ∷ ds) ++ (stop ∷ rest)))
      ≡ some (value 0 (d ∷ ds) % 2 ^ w)
  read_number-spelled = ap (read_number w) spaces_over ∙ rw (unsigned, all_digits)

-- `atoi` of white space, one or more decimal digits and then a byte that is no digit answers the
-- number that the digits stand for, modulo 2^32; `atoll` answers it modulo 2^64.
pub atoi-spelled :
    (spaces : List ℕ) (d : ℕ) (ds : List ℕ) (stop : ℕ) (rest : List ℕ)
    → AllSpaces spaces
    → AllDigits (d ∷ ds)
    → isdigit (to_char stop) ≡ false
    → (atoi (spaces ++ (spelled (d ∷ ds) ++ (stop ∷ rest))) ≡ some (value 0 (d ∷ ds) % 2 ^ 32))
      × (atoll (spaces ++ (spelled (d ∷ ds) ++ (stop ∷ rest))) ≡ some (value 0 (d ∷ ds) % 2 ^ 64))
unfolding atoi atoll
atoi-spelled spaces d ds stop rest h (lt, t) n = (
  rw (skip_spaces-append spaces (spelled (d ∷ ds) ++ (stop ∷ rest)) h) (number 32),
  rw (skip_spaces-append spaces (spelled (d ∷ ds) ++ (stop ∷ rest)) h) (number 64),
)
  where
    number :
        (w : ℕ)
        → read_number w (skip_spaces (spelled (d ∷ ds) ++ (stop ∷ rest)))
          ≡ some (value 0 (d ∷ ds) % 2 ^ w)
    number w = read_number-spelled w d ds stop rest lt t n

-- `atoi` and `atoll` do not pass over a minus sign, so that every number with one, after any white
-- space, reads as 0.
pub atoi-minus :
    (spaces s : List ℕ)
    → AllSpaces spaces
    → (atoi (spaces ++ (b'-' ∷ s)) ≡ some 0) × (atoll (spaces ++ (b'-' ∷ s)) ≡ some 0)
unfolding atoi atoll
atoi-minus spaces s h = (
  rw (skip_spaces-append spaces (b'-' ∷ s) h)
      (unfold skip_spaces read_digits isspace isdigit in refl),
  rw (skip_spaces-append spaces (b'-' ∷ s) h)
      (unfold skip_spaces read_digits isspace isdigit in refl),
)
