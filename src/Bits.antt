-- ===== src/Bits.antt =====
-- Single bits of a machine word, and what `&`, `|`, `~` and `1 << k` do to them.
pub mod Step
pub mod Masks
use Step.{bit_or_step, bit_and_step}
use Prim.Native.Nat.{bit_and-bitwise}
use native.Mathlib.Nat.{pow-suc, one-le-pow}
use os0_kernel.Prelude.{
  ℕ, zero, suc, ◌+◌, ◌-◌, ◌*◌, ◌/◌, ◌%◌, ◌^◌, ◌≤◌, ◌<◌, bit_and, bit_or, ◌≡◌, refl, Bool, true,
  false, not, ◌&&◌, ◌||◌, arith, ◌==◌, ◌!=◌, ap, ◌∙◌, if◌then◌else◌,
}

-- Bit `k` of `a`.
unfoldable pub bit : ℕ → ℕ → Bool
bit a zero = a % 2 == 1
bit a (suc k) = bit (a / 2) k

pub bit-zero : (k : ℕ) → bit 0 k ≡ false
unfolding bit
bit-zero zero = refl
bit-zero (suc k) = bit-zero k

pub bit-bit_or : (k a b : ℕ) → bit (bit_or a b) k ≡ (bit a k || bit b k)
unfolding bit
bit-bit_or zero a b = ground (arith, bit_or_step a b)
bit-bit_or (suc k) a b =
    ap (λ n. bit n k) (omega (arith, bit_or_step a b)) ∙ bit-bit_or k (a / 2) (b / 2)

pub bit-bit_and : (k a b : ℕ) → bit (bit_and a b) k ≡ (bit a k && bit b k)
unfolding bit
bit-bit_and zero a b = ground (arith, bit_and_step a b)
bit-bit_and (suc k) a b =
    ap (λ n. bit n k) (omega (arith, bit_and_step a b)) ∙ bit-bit_and k (a / 2) (b / 2)

half_two_pow : (k : ℕ) → 2 ^ suc k / 2 ≡ 2 ^ k
half_two_pow k = omega (arith, pow-suc 2 k)

-- `1 << k` has the bit `k` alone.
pub bit-two_pow : (k j : ℕ) → bit (2 ^ k) j ≡ (k == j)
unfolding bit
bit-two_pow zero zero = refl
bit-two_pow zero (suc j) = bit-zero j ∙ ground arith
bit-two_pow (suc k) zero = ground (arith, pow-suc 2 k)
bit-two_pow (suc k) (suc j) = ap (λ n. bit n j) (half_two_pow k) ∙ bit-two_pow k j ∙ ground arith

-- `~m` on a word of `w` bits.
pub bit-complement : (w k m : ℕ) → k < w → m < 2 ^ w → bit (2 ^ w - 1 - m) k ≡ not (bit m k)
unfolding bit
bit-complement zero k m h lt = elim h [ ]
bit-complement (suc w) zero m h lt = ground (arith, pow-suc 2 w)
bit-complement (suc w) (suc k) m h lt =
    ap (λ n. bit n k) (omega (arith, pow-suc 2 w))
    ∙ bit-complement w k (m / 2) (omega arith) (omega (arith, pow-suc 2 w))

-- The digits of 0 are 0, so the others do not matter.
and-zero_bound : (bound x : ℕ) → x ≤ bound → bit_and x 0 ≡ 0
and-zero_bound zero x h = ap (λ n. bit_and n 0) {y = 0} (omega arith)
and-zero_bound (suc bound) x h =
    omega (arith, bit_and_step x 0, and-zero_bound bound (x / 2) (omega arith))

pub bit_and-zero : (x : ℕ) → bit_and x 0 ≡ 0
bit_and-zero x = and-zero_bound x x (omega arith)

-- The C test `a & (1 << k)`.
pub and_two_pow : (k a : ℕ) → bit_and a (2 ^ k) ≡ (if bit a k then 2 ^ k else 0)
unfolding bit
and_two_pow zero a = ground (arith, bit_and_step a 1, bit_and-zero (a / 2))
and_two_pow (suc k) a =
    ground (arith, bit_and_step a (2 ^ suc k), half_two_pow k, pow-suc 2 k, and_two_pow k (a / 2))

pub and_two_pow-ne-zero : (k a : ℕ) → (bit_and a (2 ^ k) != 0) ≡ bit a k
and_two_pow-ne-zero k a = ground (arith, and_two_pow k a, one-le-pow k 2)

lt_one : (a : ℕ) → a < 1 → a ≡ 0
lt_one a h = omega arith

zero-bit_and : (b : ℕ) → bit_and 0 b ≡ 0
zero-bit_and b = bit_and-bitwise 0 b

-- The results of `|` and `&` stay in the word.
pub bit_or-lt : (w a b : ℕ) → a < 2 ^ w → b < 2 ^ w → bit_or a b < 2 ^ w
bit_or-lt zero a b p q = ground (arith, lt_one a p, lt_one b q)
bit_or-lt (suc w) a b p q = omega (
  arith,
  bit_or_step a b,
  pow-suc 2 w,
  bit_or-lt w (a / 2) (b / 2) (omega (arith, pow-suc 2 w)) (omega (arith, pow-suc 2 w)),
)

pub bit_and-lt : (w a b : ℕ) → a < 2 ^ w → bit_and a b < 2 ^ w
bit_and-lt zero a b p = ground (arith, lt_one a p, zero-bit_and b)
bit_and-lt (suc w) a b p = omega (
  arith,
  bit_and_step a b,
  pow-suc 2 w,
  bit_and-lt w (a / 2) (b / 2) (omega (arith, pow-suc 2 w)),
)
