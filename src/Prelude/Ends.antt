-- ===== src/Prelude/Ends.antt =====
-- Code that may fault and does not: the result that it has, with a property of the result.
use mathlib.Core.Path.{◌≡◌}
use mathlib.Core.Bool.{Bool, true, false}
use mathlib.Core.Option.{Option, some}
use os0_kernel.Prelude.Tests.{if◌then◌else◌}

-- The computation `o` has a result, and the property `P` holds of it.
abbrev pub Ends : {A : Type 0} → (A → Type 0) → Option A → Type 0
Ends {A} P o = (a : A) × (o ≡ some a) × P a

pub Ends-if :
    {A : Type 0} {P : A → Type 0} {x y : Option A} (b : Bool)
    → Ends P x
    → Ends P y
    → Ends P (if b then x else y)
Ends-if true p q = p
Ends-if false p q = q
