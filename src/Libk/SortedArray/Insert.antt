-- ===== src/Libk/SortedArray/Insert.antt =====
-- `sorted_array_insert` against insertion into a list.
use mathlib.Core.Option
use os0_kernel.Prelude.{
  ℕ, zero, suc, ◌+◌, ◌-◌, ◌≤◌, ◌<◌, ◌≡◌, refl, ◌∙◌, Bool, true, false, Option, none, some, List, [],
  ◌∷◌, ◌++◌, inl, inr, arith, if◌then◌else◌, set, get_elem?, length, length-append, length-take,
  length-drop, take-length-append, take, drop, subst, Bool-cases, Option-cases,
}
use os0_kernel.Libk.SortedArray.{
  SortedArray, scan, shift, insert_at, insert_found, insert_elems, insert,
}

-- The elements in use.
abbrev pub contents : SortedArray → List ℕ
contents array = take array.size array.elems

-- The counters are in range, and the buffer has room for `max` elements.
pub record IsValid (array : SortedArray) : Type 0 where
  pub within : array.size ≤ array.max
  pub room : length array.elems ≡ array.max
  pub word : array.max < 4294967296

-- Insertion before the first element that does not come before the item.
unfoldable pub ordered_insert : (ℕ → ℕ → Bool) → ℕ → List ℕ → List ℕ
ordered_insert cmp item [] = item ∷ []
ordered_insert cmp item (x ∷ xs) =
    if cmp x item then x ∷ ordered_insert cmp item xs else item ∷ x ∷ xs

module _ (cmp : ℕ → ℕ → Bool) (item : ℕ) where
  scan-cons :
      (n i x : ℕ) (xs : List ℕ)
      → scan cmp (x ∷ xs) item n (suc i) ≡ Option.map suc (scan cmp xs item n i)
  unfolding scan
  scan-cons zero i x xs = refl
  scan-cons (suc n) i x xs = ground (arith, scan-cons n (suc i) x xs)

shift-cons :
    (n i temp x : ℕ) (xs : List ℕ)
    → shift n (suc i) temp (x ∷ xs) ≡ Option.map (λ ys. x ∷ ys) (shift n i temp xs)
unfolding shift
shift-cons zero i temp x xs = refl
shift-cons (suc n) i temp x xs = elim (Option-cases (get_elem? xs (suc i))) [
  | inl e ↦ rw (e, shift)
  | inr (y, e) ↦ rw (e, shift) (shift-cons n (suc i) y x (set xs (suc i) temp))
]

shift-start :
    (n temp x : ℕ) (xs : List ℕ)
    → n ≤ length xs
    → shift n 0 temp (x ∷ xs) ≡ some (x ∷ (take n (temp ∷ xs) ++ drop n xs))
unfolding shift
shift-start zero temp x xs h = refl
shift-start (suc n) temp x [] h = absurd (omega arith)
shift-start (suc n) temp x (y ∷ ys) h =
    shift-cons n 0 y x (temp ∷ ys) ∙ rw (shift-start n y temp ys (omega arith))

-- The last round reads the cell behind the elements in use.
shift-overrun : (n temp x : ℕ) (xs : List ℕ) → length xs < n → shift n 0 temp (x ∷ xs) ≡ none
unfolding shift
shift-overrun zero temp x xs h = absurd (omega arith)
shift-overrun (suc n) temp x [] h = refl
shift-overrun (suc n) temp x (y ∷ ys) h =
    shift-cons n 0 y x (temp ∷ ys) ∙ rw (shift-overrun n y temp ys (omega arith))

insert_at-cons :
    (xs : List ℕ) (n item i x : ℕ)
    → insert_at (x ∷ xs) (suc n) item (suc i) ≡ Option.map (λ ys. x ∷ ys) (insert_at xs n item i)
unfolding insert_at
insert_at-cons xs n item i x = elim (Option-cases (get_elem? xs i)) [
  | inl e ↦ ground arith
  | inr (y, e) ↦ ground (arith, shift-cons (n - i) i y x (set xs i item))
]

insert_found-cons :
    (xs : List ℕ) (n item x : ℕ) (found : Option ℕ)
    → insert_found (x ∷ xs) (suc n) item (Option.map suc found)
      ≡ Option.map (λ ys. x ∷ ys) (insert_found xs n item found)
insert_found-cons xs n item x none = refl
insert_found-cons xs n item x (some i) = insert_at-cons xs n item i x

-- The search passes over an element that comes before the item.
insert_elems-cons_before :
    (cmp : ℕ → ℕ → Bool) (x : ℕ) (xs : List ℕ) (n item : ℕ)
    → cmp x item ≡ true
    → insert_elems cmp (x ∷ xs) (suc n) item
      ≡ Option.map (λ ys. x ∷ ys) (insert_elems cmp xs n item)
unfolding insert_elems scan insert_at
insert_elems-cons_before cmp x xs n item e =
    rw (e, insert_elems, scan, scan-cons cmp item n 0 x xs) (insert_found-cons xs n item x _)

insert_elems-cons_here :
    (cmp : ℕ → ℕ → Bool) (x : ℕ) (xs : List ℕ) (n item : ℕ)
    → cmp x item ≡ false
    → n < length xs
    → insert_elems cmp (x ∷ xs) (suc n) item
      ≡ some (item ∷ (take (suc n) (x ∷ xs) ++ drop (suc n) xs))
unfolding insert_elems scan insert_at
insert_elems-cons_here cmp x xs n item e h = ground (arith, shift-start (suc n) x item xs h)

insert_elems_lem :
    (cmp : ℕ → ℕ → Bool) (xs : List ℕ) (n item : ℕ)
    → n < length xs
    → insert_elems cmp xs n item ≡ some (ordered_insert cmp item (take n xs) ++ drop (suc n) xs)
unfolding ordered_insert
insert_elems_lem cmp [] n item h = absurd (omega arith)
insert_elems_lem cmp (x ∷ xs) zero item h = unfold insert_elems insert_at scan in refl
insert_elems_lem cmp (x ∷ xs) (suc n) item h = elim (Bool-cases (cmp x item)) [
  | inl e ↦
      insert_elems-cons_before cmp x xs n item e
      ∙ ground (arith, insert_elems_lem cmp xs n item (omega arith))
  | inr e ↦ insert_elems-cons_here cmp x xs n item e (omega arith) ∙ ground arith
]

length-ordered_insert :
    (cmp : ℕ → ℕ → Bool) (item : ℕ) (xs : List ℕ)
    → length (ordered_insert cmp item xs) ≡ suc (length xs)
unfolding ordered_insert
length-ordered_insert cmp item [] = refl
length-ordered_insert cmp item (x ∷ xs) = ground (arith, length-ordered_insert cmp item xs)

module _ (cmp : ℕ → ℕ → Bool) (item : ℕ) (xs : List ℕ) (n : ℕ) (h : n < length xs) where
  length-inserted : length (ordered_insert cmp item (take n xs) ++ drop (suc n) xs) ≡ length xs
  length-inserted = omega (
    arith,
    length-append (ordered_insert cmp item (take n xs)) (drop (suc n) xs),
    length-ordered_insert cmp item (take n xs),
    length-take n xs (omega arith),
    length-drop (suc n) xs,
  )

  take-inserted :
      take (n + 1) (ordered_insert cmp item (take n xs) ++ drop (suc n) xs)
      ≡ ordered_insert cmp item (take n xs)
  take-inserted =
      subst
        (λ k.
          take k (ordered_insert cmp item (take n xs) ++ drop (suc n) xs)
          ≡ ordered_insert cmp item (take n xs))
        (omega (arith, length-ordered_insert cmp item (take n xs), length-take n xs (omega arith)))
        (take-length-append (ordered_insert cmp item (take n xs)) (drop (suc n) xs))

-- The array that holds the ordered insertion.
abbrev inserted : SortedArray → ℕ → SortedArray
inserted array item = record array {
  elems = ordered_insert array.cmp item (contents array) ++ drop (suc array.size) array.elems;
  size = array.size + 1;
}

-- While there is room, `sorted_array_insert` makes no access outside the buffer. It inserts the
-- item before the first element that the comparison does not put before it, and keeps the
-- counters in range, the capacity and the comparison.
pub insert_lem :
    {array : SortedArray} (item : ℕ)
    → IsValid array
    → array.size < array.max
    → (array' : SortedArray) × (insert array item ≡ some array')
      × (contents array' ≡ ordered_insert array.cmp item (contents array))
      × IsValid array'
      × (array'.max ≡ array.max)
      × (array'.cmp ≡ array.cmp)
unfolding insert
insert_lem {array} item v room = (
  inserted array item,
  ground (arith, insert_elems_lem array.cmp array.elems array.size item (omega arith)),
  take-inserted array.cmp item array.elems array.size (omega arith),
  ground (arith, length-inserted array.cmp item array.elems array.size (omega arith)),
  refl,
  refl,
)

-- Insertion into a full array always goes outside its buffer.
insert_elems-full :
    (cmp : ℕ → ℕ → Bool) (xs : List ℕ) (item : ℕ) → insert_elems cmp xs (length xs) item ≡ none
unfolding insert_elems insert_at
insert_elems-full cmp [] item = unfold scan in refl
insert_elems-full cmp (x ∷ xs) item = elim (Bool-cases (cmp x item)) [
  | inl e ↦
      insert_elems-cons_before cmp x xs (length xs) item e ∙ rw (insert_elems-full cmp xs item)
  | inr e ↦ unfold scan in ground (arith, shift-overrun (suc (length xs)) x item xs (omega arith))
]

-- `sorted_array_insert` makes no check of the capacity: on a full array it goes outside the buffer.
pub insert-full :
    {array : SortedArray} (item : ℕ)
    → IsValid array
    → array.size ≡ array.max
    → insert array item ≡ none
unfolding insert
insert-full {array} item v full = ground (arith, overflow)
  where
    overflow : insert_elems array.cmp array.elems array.size item ≡ none
    overflow =
        subst (λ n. insert_elems array.cmp array.elems n item ≡ none) (omega arith)
          (insert_elems-full array.cmp array.elems item)
