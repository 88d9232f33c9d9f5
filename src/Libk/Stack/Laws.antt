-- ===== src/Libk/Stack/Laws.antt =====
-- A stack as the list of its elements, the top first.
use native.Mathlib.Decide.{ℕ_discrete}
use mathlib.Core.Option
use os0_kernel.Prelude.{
  ◌∙◌, sym, length, ◌==◌, if◌then◌else◌, ℕ, zero, suc, ◌+◌, ◌-◌, ◌≤◌, ◌<◌, ◌≡◌, ◌≢◌, refl, ap, none,
  some, List, [], ◌∷◌, arith,
}
use os0_kernel.Libk.Stack.{Stack, write, push, pop, drain, destroy}

pub record IsValid (s : Stack) : Type 0 where
  pub in_step : s.ptr ≡ s.size
  pub within : s.size ≤ s.max

-- The `n` cells below index `n`, from the last one down.
abbrev pub cells : (ℕ → ℕ) → ℕ → List ℕ
cells base zero = []
cells base (suc n) = base n ∷ cells base n

abbrev pub contents : Stack → List ℕ
contents s = cells s.base s.size

cells-write : (base : ℕ → ℕ) (n i v : ℕ) → n ≤ i → cells (write base i v) n ≡ cells base n
cells-write base zero i v h = refl
cells-write base (suc n) i v h = ground (arith, cells-write base n i v (omega arith))

cells-pred : (base : ℕ → ℕ) (n : ℕ) → n ≢ 0 → cells base n ≡ base (n - 1) ∷ cells base (n - 1)
cells-pred base zero h = absurd (h refl)
cells-pred base (suc n) h = ap (λ k. base k ∷ cells base k) (omega arith)

length-cells : (base : ℕ → ℕ) (n : ℕ) → length (cells base n) ≡ n
length-cells base zero = refl
length-cells base (suc n) = ap suc (length-cells base n)

-- What a push does to a valid stack.
pub push_lem :
    (s : Stack) (v : ℕ)
    → IsValid s
    → s.size < s.max
    → (t : Stack) × (push (some s) v ≡ some t)
      × (contents t ≡ v ∷ contents s)
      × IsValid t
      × (t.max ≡ s.max)
unfolding push
push_lem s v h room = (
  record s { base = write s.base s.ptr v; ptr = s.ptr + 1; size = s.size + 1 },
  ground arith,
  ground (
    arith,
    h.in_step,
    cells-write s.base s.size s.ptr v (omega arith),
    cells-pred (write s.base s.ptr v) (s.size + 1) (omega arith),
  ),
  ground arith,
  refl,
)

pub push-full : (s : Stack) (v : ℕ) → s.size ≡ s.max → push (some s) v ≡ none
unfolding push
push-full s v h = ground arith

pub pop-empty : (s : Stack) → s.size ≡ 0 → pop (some s) ≡ (0, some s)
unfolding pop
pop-empty s h = ground arith

pub pop_lem :
    (s : Stack)
    → IsValid s
    → s.size ≢ 0
    → (v : ℕ) × (t : Stack) × (pop (some s) ≡ (v, some t))
      × (contents s ≡ v ∷ contents t)
      × IsValid t
      × (t.max ≡ s.max)
unfolding pop
pop_lem s h ne = (
  s.base (s.size - 1),
  record s { ptr = s.ptr - 1; size = s.size - 1 },
  ground (arith, h.in_step),
  cells-pred s.base s.size ne,
  ground arith,
  refl,
)

-- The elements down to the first that is NULL.
pub before_null : List ℕ → List ℕ
before_null [] = []
before_null (x ∷ xs) = if x == 0 then [] else x ∷ before_null xs

drain-empty : (fuel : ℕ) (s : Stack) → s.size ≡ 0 → drain (suc fuel) (some s) ≡ some []
unfolding drain
drain-empty fuel s e = rw (pop-empty s e) refl

drain-step :
    (fuel : ℕ) (s t : Stack) (v : ℕ)
    → pop (some s) ≡ (v, some t)
    → drain (suc fuel) (some s)
      ≡ (if v == 0 then some [] else Option.map (λ xs. v ∷ xs) (drain fuel (some t)))
unfolding drain
drain-step fuel s t v e = rw e refl

drain-before_null :
    (fuel : ℕ) (s : Stack)
    → IsValid s
    → s.size < fuel
    → drain fuel (some s) ≡ some (before_null (contents s))
unfolding before_null
drain-before_null zero s h lt = absurd (omega arith)
drain-before_null (suc fuel) s h lt = elim (ℕ_discrete s.size 0) [
  | yes e ↦ drain-empty fuel s e ∙ ap (λ n. some (before_null (cells s.base n))) (sym e)
  | no ne ↦
      let (v, t, popped, cs, valid, m) = pop_lem s h ne in
      let smaller : t.size < fuel =
        omega (arith, lt, ap length cs, length-cells s.base s.size, length-cells t.base t.size) in
      drain-step fuel s t v popped ∙ rw (drain-before_null fuel t valid smaller, cs) (ground arith)
]

-- `stack_destroy` calls the function for the elements from the top down to the first that is NULL,
-- which pops read as the end of the stack; fuel above the size is enough.
pub destroy-before_null :
    (fuel : ℕ) (s : Stack)
    → IsValid s
    → s.size < fuel
    → destroy fuel (some s) ≡ some (before_null (contents s))
unfolding destroy
destroy-before_null fuel s h lt = drain-before_null fuel s h lt
