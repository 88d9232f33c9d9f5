-- ===== src/Process/Files/Counts.antt =====
-- References to a file, counted over the descriptors of all processes.
use native.Mathlib.Decide.{ℕ_discrete}
use os0_kernel.Prelude.{
  ℕ, zero, suc, ◌+◌, ◌≤◌, ◌<◌, ◌≡◌, ◌≢◌, refl, ap, sym, ◌∙◌, Option, none, some, arith, ◌==◌,
  if◌then◌else◌,
}
use os0_kernel.Process.State.{Descriptors}

pub sum_below : ℕ → (ℕ → ℕ) → ℕ
sum_below zero g = 0
sum_below (suc n) g = g n + sum_below n g

pub sum_below-same :
    (n : ℕ) (g h : ℕ → ℕ) → ((j : ℕ) → j < n → h j ≡ g j) → sum_below n h ≡ sum_below n g
unfolding sum_below
sum_below-same zero g h e = refl
sum_below-same (suc n) g h e =
    omega (arith, e n (omega arith), sum_below-same n g h (λ j p. e j (omega arith)))

-- A sum with one summand given anew.
pub sum_below-change :
    (n i : ℕ) (g h : ℕ → ℕ)
    → i < n
    → ((j : ℕ) → j ≢ i → h j ≡ g j)
    → sum_below n h + g i ≡ sum_below n g + h i
unfolding sum_below
sum_below-change zero i g h lt e = absurd (omega arith)
sum_below-change (suc n) i g h lt e = elim (ℕ_discrete i n) [
  | yes same ↦ omega (
    arith,
    sum_below-same n g h (λ j p. e j (λ q. absurd (omega (arith, q, same)))),
    ap g same,
    ap h same,
  )
  | no ne ↦ omega (arith, e n (λ q. ne (sym q)), sum_below-change n i g h (omega arith) e)
]

-- 1 for a descriptor of the file.
abbrev pub hit : ℕ → Option ℕ → ℕ
hit f none = 0
hit f (some g) = if g == f then 1 else 0

-- The descriptors below `limit` that hold the file, and those of the processes below `procs`.
pub refs_of : ℕ → ℕ → Descriptors → ℕ
refs_of f limit d = sum_below limit (λ fd. hit f (d.files fd))

pub refs : ℕ → ℕ → ℕ → (ℕ → Descriptors) → ℕ
refs f limit procs ds = sum_below procs (λ pid. refs_of f limit (ds pid))

-- One descriptor of one process given anew.
pub refs-change :
    (f limit procs pid fd : ℕ) (ds es : ℕ → Descriptors)
    → pid < procs
    → fd < limit
    → ((j : ℕ) → j ≢ pid → es j ≡ ds j)
    → ((j : ℕ) → j ≢ fd → (es pid).files j ≡ (ds pid).files j)
    → refs f limit procs es + hit f ((ds pid).files fd)
      ≡ refs f limit procs ds + hit f ((es pid).files fd)
unfolding refs refs_of
refs-change f limit procs pid fd ds es p q others same = omega (
  arith,
  sum_below-change procs pid (λ j. refs_of f limit (ds j)) (λ j. refs_of f limit (es j)) p
      (λ j ne. ap (refs_of f limit) (others j ne)),
  sum_below-change limit fd (λ j. hit f ((ds pid).files j)) (λ j. hit f ((es pid).files j)) q
      (λ j ne. ap (hit f) (same j ne)),
)

le-sum_below : (n i : ℕ) (g : ℕ → ℕ) → i < n → g i ≤ sum_below n g
unfolding sum_below
le-sum_below zero i g h = absurd (omega arith)
le-sum_below (suc n) i g h = elim (ℕ_discrete i n) [
  | yes same ↦ omega (arith, ap g same)
  | no ne ↦ omega (arith, le-sum_below n i g (omega arith))
]

-- A file that some descriptor holds has a reference.
pub refs-pos :
    (f limit procs pid fd : ℕ) (ds : ℕ → Descriptors)
    → pid < procs
    → fd < limit
    → (ds pid).files fd ≡ some f
    → 0 < refs f limit procs ds
unfolding refs refs_of
refs-pos f limit procs pid fd ds p q e =
    let one : hit f ((ds pid).files fd) ≡ 1 = ground arith in
    omega (
      arith,
      one,
      le-sum_below limit fd (λ j. hit f ((ds pid).files j)) q,
      le-sum_below procs pid (λ j. sum_below limit (λ fd. hit f ((ds j).files fd))) p,
    )

pub refs-same :
    (f limit procs : ℕ) (ds es : ℕ → Descriptors)
    → ((pid fd : ℕ) → (es pid).files fd ≡ (ds pid).files fd)
    → refs f limit procs es ≡ refs f limit procs ds
unfolding refs refs_of
refs-same f limit procs ds es h =
    sum_below-same procs _ _ (λ pid p. sum_below-same limit _ _ (λ fd q. ap (hit f) (h pid fd)))

sum_below-zero : (n : ℕ) → sum_below n (λ j. 0) ≡ 0
unfolding sum_below
sum_below-zero zero = refl
sum_below-zero (suc n) = omega (arith, sum_below-zero n)

-- Where no descriptor is open, no file has a reference.
pub refs-none :
    (f limit procs : ℕ) (ds : ℕ → Descriptors)
    → ((pid fd : ℕ) → (ds pid).files fd ≡ none)
    → refs f limit procs ds ≡ 0
unfolding refs refs_of
refs-none f limit procs ds h =
    sum_below-same procs (λ pid. 0) _
      (λ pid p.
        sum_below-same limit (λ fd. 0) _ (λ fd q. ap (hit f) (h pid fd)) ∙ sum_below-zero limit)
    ∙ sum_below-zero procs
