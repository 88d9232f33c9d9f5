-- ===== src/Bits/Masks.antt =====
-- `&` with masks of ones, as arithmetic.
use native.Mathlib.Nat.{pow-suc, one-le-pow, div-div-eq-div-mul}
use os0_kernel.Prelude.{ℕ, zero, suc, ◌-◌, ◌*◌, ◌/◌, ◌^◌, ◌<◌, bit_and, ◌≡◌, ◌∙◌, arith, ap}
use os0_kernel.Bits.{bit_and-zero}
use os0_kernel.Bits.Step.{bit_and_step}

lt_one : (a : ℕ) → a < 1 → a ≡ 0
lt_one a h = omega arith

half_ones : (w : ℕ) → (2 ^ suc w - 1) / 2 ≡ 2 ^ w - 1
half_ones w = omega (arith, pow-suc 2 w, one-le-pow w 2)

-- A mask of `w` ones keeps the result below 2^w.
pub bit_and_ones-lt : (w a : ℕ) → bit_and a (2 ^ w - 1) < 2 ^ w
bit_and_ones-lt zero a = omega (arith, bit_and-zero a)
bit_and_ones-lt (suc w) a = omega (
  arith,
  bit_and_step a (2 ^ suc w - 1),
  pow-suc 2 w,
  one-le-pow w 2,
  ap (bit_and (a / 2)) (half_ones w),
  bit_and_ones-lt w (a / 2),
)

-- A mask of `w` ones changes nothing in a word of `w` bits.
pub bit_and_ones : (w a : ℕ) → a < 2 ^ w → bit_and a (2 ^ w - 1) ≡ a
bit_and_ones zero a h = rw (lt_one a h)
bit_and_ones (suc w) a h = omega (
  arith,
  bit_and_step a (2 ^ suc w - 1),
  pow-suc 2 w,
  one-le-pow w 2,
  ap (bit_and (a / 2)) (half_ones w),
  bit_and_ones w (a / 2) (omega (arith, pow-suc 2 w)),
)

div-two_pow : (k a : ℕ) → a / 2 / 2 ^ k ≡ a / 2 ^ suc k
div-two_pow k a = div-div-eq-div-mul a 2 (2 ^ k) ∙ ap (λ n. a / n) (omega (arith, pow-suc 2 k))

-- A mask with `k` zeros at its low end.
pub bit_and_high : (k a m : ℕ) → bit_and a (m * 2 ^ k) ≡ bit_and (a / 2 ^ k) m * 2 ^ k
bit_and_high zero a m = ground arith
bit_and_high (suc k) a m = omega (
  arith,
  bit_and_step a (m * 2 ^ suc k),
  ap (λ n. m * n) (pow-suc 2 k),
  ap (λ n. bit_and (a / 2 ^ suc k) m * n) (pow-suc 2 k),
  ap (λ n. bit_and n m * 2 ^ k) (div-two_pow k a),
  ap (bit_and (a / 2)) (half k),
  bit_and_high k (a / 2) m,
)
  where
    half : (k : ℕ) → m * 2 ^ suc k / 2 ≡ m * 2 ^ k
    half k = omega (arith, ap (λ n. m * n) (pow-suc 2 k))

-- The address of the page that `a` lies in, `a & 0xfffff000`.
pub bit_and-page : (a : ℕ) → a < 2 ^ 32 → bit_and a 0xfffff000 ≡ a / 4096 * 4096
bit_and-page a h =
    bit_and_high 12 a 0xfffff ∙ ap (λ n. n * 4096) (bit_and_ones 20 (a / 4096) (omega arith))
