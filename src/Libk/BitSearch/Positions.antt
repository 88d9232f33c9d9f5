-- ===== src/Libk/BitSearch/Positions.antt =====
-- What `ffs` and `fls` of libk/bitsearch.c answer.
use native.Mathlib.Nat.{pow-suc}
use os0_kernel.Prelude.{
  ℕ, zero, suc, ◌+◌, ◌/◌, ◌^◌, ◌≤◌, ◌<◌, ◌≡◌, Option, none, some, true, false, arith, leb,
  Bool-cases, inl, inr, ◌∙◌, ap,
}
use os0_kernel.Prelude.First.{First, First-here, First-later}
use os0_kernel.Bits.{bit, and_two_pow-ne-zero}
use os0_kernel.Libk.BitSearch.{ffs_from, ffs, fls_below, fls}

-- The top bit of a word tells its size.
bit-top : (n v : ℕ) → v < 2 ^ suc n → bit v n ≡ leb (2 ^ n) v
unfolding bit
bit-top zero v h = ground arith
bit-top (suc n) v h =
    bit-top n (v / 2) (omega (arith, pow-suc 2 (suc n))) ∙ ground (arith, pow-suc 2 n)

-- `fls` as the number of binary digits.
abbrev pub IsLength : ℕ → ℕ → Type 0
IsLength v zero = v ≡ 0
IsLength v (suc k) = (2 ^ k ≤ v) × (v < 2 ^ suc k)

fls_below-set : (n v : ℕ) → bit v n ≡ true → fls_below (suc n) v ≡ suc n
unfolding fls_below
fls_below-set n v e = ground (arith, and_two_pow-ne-zero n v)

fls_below-clear : (n v : ℕ) → bit v n ≡ false → fls_below (suc n) v ≡ fls_below n v
unfolding fls_below
fls_below-clear n v e = ground (arith, and_two_pow-ne-zero n v)

fls_below-IsLength : (n v : ℕ) → v < 2 ^ n → IsLength v (fls_below n v)
fls_below-IsLength zero v h = unfold fls_below in omega arith
fls_below-IsLength (suc n) v h = elim (Bool-cases (bit v n)) [
  | inl e ↦ rw (fls_below-set n v e) (ground (arith, bit-top n v h), h)
  | inr e ↦ rw (fls_below-clear n v e) (fls_below-IsLength n v (ground (arith, bit-top n v h)))
]

-- `fls` of a word is the number of its binary digits: 0 for 0, and else the `k` for which the word
-- is at least 2^(k - 1) and less than 2^k.
pub fls-IsLength : (v : ℕ) → v < 2 ^ 32 → IsLength v (fls v)
unfolding fls
fls-IsLength v h = fls_below-IsLength 32 v h

-- The position, from 0 on, that an answer from 1 on stands for.
abbrev pub position : ℕ → Option ℕ
position zero = none
position (suc k) = some k

ffs_from-set : (n i v : ℕ) → bit v i ≡ true → ffs_from (suc n) i v ≡ suc i
unfolding ffs_from
ffs_from-set n i v e = ground (arith, and_two_pow-ne-zero i v)

ffs_from-clear : (n i v : ℕ) → bit v i ≡ false → ffs_from (suc n) i v ≡ ffs_from n (suc i) v
unfolding ffs_from
ffs_from-clear n i v e =
    ground (
      arith,
      and_two_pow-ne-zero i v,
      ap (λ m. ffs_from n m v) {x = i + 1} {y = suc i} (omega arith),
    )

ffs_from-First : (n i v : ℕ) → First (bit v) n i (position (ffs_from n i v))
ffs_from-First zero i v = unfold ffs_from in λ j p q. absurd (omega arith)
ffs_from-First (suc n) i v = elim (Bool-cases (bit v i)) [
  | inl e ↦ rw (ffs_from-set n i v e) (First-here (bit v) n i e)
  | inr e ↦ rw (ffs_from-clear n i v e) (First-later (bit v) n i _ e (ffs_from-First n (suc i) v))
]

-- `ffs` answers one more than the position of the lowest of the 32 bits that is set, and 0 where none
-- of them is.
pub ffs-First : (v : ℕ) → First (bit v) 32 0 (position (ffs v))
unfolding ffs
ffs-First v = ffs_from-First 32 0 v
