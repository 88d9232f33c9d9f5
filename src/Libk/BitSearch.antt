-- ===== src/Libk/BitSearch.antt =====
-- libk/bitsearch.c: the lowest and the highest bit set. Words are the bits of an `int` or a `long`,
-- of 32 each.
pub mod Positions
use os0_kernel.Prelude.{ℕ, zero, suc, ◌+◌, ◌^◌, bit_and, ◌!=◌, if◌then◌else◌}

-- The loop of `ffs`, with `n` rounds left from bit `i` on.
pub ffs_from : ℕ → ℕ → ℕ → ℕ
ffs_from zero i value = 0
ffs_from (suc n) i value =
    let rest = ffs_from n (i + 1) value in if bit_and value (2 ^ i) != 0 then i + 1 else rest

-- `ffs`
pub ffs : ℕ → ℕ
ffs value = ffs_from 32 0 value

-- `ffsl`
pub ffsl : ℕ → ℕ
ffsl value = ffs_from 32 0 value

-- The loop of `fls`, with the bits below `n` left.
pub fls_below : ℕ → ℕ → ℕ
fls_below zero value = 0
fls_below (suc n) value =
    let rest = fls_below n value in if bit_and value (2 ^ n) != 0 then n + 1 else rest

-- `fls`
pub fls : ℕ → ℕ
fls value = fls_below 32 value

-- `flsl`
pub flsl : ℕ → ℕ
flsl value = fls_below 32 value
