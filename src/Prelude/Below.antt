-- ===== src/Prelude/Below.antt =====
-- A test that holds of all numbers below a small bound, by evaluation.
use native.Mathlib.Decide.{ℕ_discrete}
use Prim.Native.Nat.{ℕ, zero, suc, ◌<◌}
use mathlib.Core.Path.{◌≡◌, subst, sym}
use mathlib.Core.Bool.{Bool, true, ◌&&◌}
use native.Mathlib.Omega.{arith}

unfoldable pub all_below : (ℕ → Bool) → ℕ → Bool
all_below test zero = true
all_below test (suc n) = test n && all_below test n

pub all_below_sound : (test : ℕ → Bool) (n i : ℕ) → all_below test n ≡ true → i < n → test i ≡ true
unfolding all_below
all_below_sound test zero i e h = absurd (omega arith)
all_below_sound test (suc n) i e h = elim (ℕ_discrete i n) [
  | yes here ↦ subst (λ m. test m ≡ true) (sym here) (ground arith)
  | no ne ↦ all_below_sound test n i (ground arith) (omega arith)
]
