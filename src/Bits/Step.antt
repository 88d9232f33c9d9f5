-- ===== src/Bits/Step.antt =====
-- The equations of `bit_or` and `bit_and` for the lowest digit, without the fuel by which the
-- library defines them.
use Prim.Native.Nat.{max, digits, bitwise, bit_and-bitwise, bit_or-bitwise}
use os0_kernel.Prelude.{
  ℕ, zero, suc, ◌+◌, ◌*◌, ◌/◌, ◌%◌, ◌≤◌, min, bit_and, bit_or, ◌≡◌, refl, arith,
}

module _ (z : ℕ → ℕ) (op : ℕ → ℕ → ℕ) where
  -- Any fuel that reaches the number gives the same digits.
  digits_enough : (m n a b : ℕ) → a ≤ m → a ≤ n → digits z op m a b ≡ digits z op n a b
  digits_enough zero zero zero b p q = refl
  digits_enough zero (suc n) zero b p q = refl
  digits_enough (suc m) zero zero b p q = refl
  digits_enough (suc m) (suc n) zero b p q = refl
  digits_enough zero n (suc a) b p q = absurd (omega arith)
  digits_enough (suc m) zero (suc a) b p q = absurd (omega arith)
  digits_enough (suc m) (suc n) (suc a) b p q =
      rw (digits_enough m n (suc a / 2) (b / 2) (omega arith) (omega arith))

  low_digit :
      (x y : ℕ)
      → bitwise z op (suc x) y ≡ op (suc x % 2) (y % 2) + 2 * bitwise z op (suc x / 2) (y / 2)
  low_digit x y =
      omega (arith, digits_enough x (suc x / 2) (suc x / 2) (y / 2) (omega arith) (omega arith))

pub bit_and_step : (x y : ℕ) → bit_and x y ≡ min (x % 2) (y % 2) + 2 * bit_and (x / 2) (y / 2)
bit_and_step (suc x) y = simp bit_and-bitwise (low_digit (λ low. 0) min x y)
bit_and_step zero y = simp bit_and-bitwise (omega arith)

pub bit_or_step : (x y : ℕ) → bit_or x y ≡ max (x % 2) (y % 2) + 2 * bit_or (x / 2) (y / 2)
bit_or_step (suc x) y = simp bit_or-bitwise (low_digit (λ low. low) max x y)
bit_or_step zero y = simp bit_or-bitwise (omega arith)
