-- ===== src/Prelude/First.antt =====
-- What a search from one index on for the first that passes a test finds.
use native.Mathlib.Decide.{ℕ_discrete}
use Prim.Native.Nat.{ℕ, suc, ◌+◌, ◌≤◌, ◌<◌}
use mathlib.Core.Path.{◌≡◌, subst}
use mathlib.Core.Bool.{Bool, true, false}
use mathlib.Core.Option.{Option, none, some}
use native.Mathlib.Omega.{arith}

-- The first index among `n` from `i` on that passes the test, or that none does.
abbrev pub First : (ℕ → Bool) → ℕ → ℕ → Option ℕ → Type 0
First test n i none = (j : ℕ) → i ≤ j → j < i + n → test j ≡ false
First test n i (some f) =
    (i ≤ f) × (f < i + n) × (test f ≡ true) × ((j : ℕ) → i ≤ j → j < f → test j ≡ false)

module _ (test : ℕ → Bool) (n i : ℕ) where
  pub First-here : test i ≡ true → First test (suc n) i (some i)
  First-here e = (omega arith, omega arith, e, λ j p q. absurd (omega arith))

  -- What holds from `suc i` on and at `i` holds from `i` on.
  from_next : (P : ℕ → Type 0) → P i → ((j : ℕ) → suc i ≤ j → P j) → (j : ℕ) → i ≤ j → P j
  from_next P h k j p = elim (ℕ_discrete i j) [
    | yes same ↦ subst P same h
    | no ne ↦ k j (omega arith)
  ]

  pub First-later :
      (o : Option ℕ) → test i ≡ false → First test n (suc i) o → First test (suc n) i o
  First-later none e h = λ j p.
      from_next (λ m. m < i + suc n → test m ≡ false) (λ q. e) (λ m r q. h m r (omega arith)) j p
  First-later (some f) e (p, q, d, h) = (
    omega arith,
    omega arith,
    d,
    λ j r. from_next (λ m. m < f → test m ≡ false) (λ s. e) (λ m s t. h m s t) j r,
  )
