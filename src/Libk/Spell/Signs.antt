-- ===== src/Libk/Spell/Signs.antt =====
-- Negative numbers as text: libk/itoa.c.
use os0_kernel.Prelude.{
  ℕ, zero, suc, ◌/◌, ◌%◌, ◌≤◌, ◌<◌, ◌≡◌, refl, ◌∙◌, ap, sym, Bool, true, false, ◌&&◌, List, [], ◌∷◌,
  ◌++◌, arith, ◌==◌, if◌then◌else◌, ==→eq, subst,
}
use native.Mathlib.Nat.{mod-lt}
use native.Mathlib.Decide.{ℕ_discrete}
use os0_kernel.Prelude.Int.{negsuc}
use os0_kernel.Libk.Spell.{
  lower_digits, digit, digits_of, bad_base, itoa, itoa_with, utoa, utoa_with,
}
use os0_kernel.Libk.Spell.Decimals.{backward, backward-snoc, swap_ends-backward}

-- The digits of the remainders below `n` are the same for both signs.
same_below : ℕ → Bool
same_below zero = true
same_below (suc n) = digit lower_digits true n == digit lower_digits false n && same_below n

same_below_sound :
    (n r : ℕ) → same_below n ≡ true → r < n → digit lower_digits true r ≡ digit lower_digits false r
unfolding same_below
same_below_sound zero r e h = absurd (omega arith)
same_below_sound (suc n) r e h = elim (ℕ_discrete r n) [
  | yes here ↦
      subst (λ n. digit lower_digits true n ≡ digit lower_digits false n) (sym here)
        (==→eq _ _ (ground arith))
  | no ne ↦ same_below_sound n r (ground arith) (omega arith)
]

same_digits : same_below 36 ≡ true
unfolding same_below digit lower_digits
same_digits = refl

digits_of-sign :
    (rounds base m : ℕ)
    → 2 ≤ base
    → base ≤ 36
    → digits_of rounds lower_digits true base m ≡ digits_of rounds lower_digits false base m
unfolding digits_of
digits_of-sign zero base m p q = refl
digits_of-sign (suc rounds) base m p q =
    let below : m % base < 36 = omega (arith, mod-lt m {m = base} (omega arith)) in
    rw (digits_of-sign rounds base (m / base) p q, same_below_sound 36 (m % base) same_digits below)

-- In a base from 2 to 36, `itoa` of a negative number is a minus sign and then what `utoa` writes for
-- the absolute value.
pub itoa-negsuc :
    (n base : ℕ) → 2 ≤ base → base ≤ 36 → itoa (negsuc n) base ≡ b'-' ∷ utoa (suc n) base
unfolding itoa itoa_with utoa utoa_with
itoa-negsuc n base p q =
    rw (good, if◌then◌else◌)
      (swap_ends-backward _ (digits ++ (b'-' ∷ [])) (omega arith)
        ∙ backward-snoc digits b'-'
        ∙ ap (λ t. b'-' ∷ backward t) (digits_of-sign 33 base (suc n) p q)
        ∙ ap (λ t. b'-' ∷ t) (sym (swap_ends-backward _ unsigned (omega arith))))
  where
    good : bad_base base ≡ false
    good = ground arith

    digits : List ℕ
    digits = digits_of 33 lower_digits true base (suc n)

    unsigned : List ℕ
    unsigned = digits_of 33 lower_digits false base (suc n)
