-- ===== src/Libk/SortedArray/Order.antt =====
-- Sortedness of the sorted arrays of libk/array.c under insertion and removal.
use mathlib.Core.List.{Perm}
use mathlib.Core.List.Perm
use os0_kernel.Prelude.{
  ℕ, zero, suc, ◌<◌, ◌≡◌, Bool, true, false, some, List, [], ◌∷◌, inl, inr, arith, ltb, Bool-cases,
}
use os0_kernel.Libk.SortedArray.{SortedArray, insert, remove}
use os0_kernel.Libk.SortedArray.Insert.{contents, IsValid, ordered_insert, insert_lem}
use os0_kernel.Libk.SortedArray.Remove.{erase_at, remove_lem}

-- What the callers' comparisons satisfy: "comes before" is a strict weak order.
pub record IsOrder (cmp : ℕ → ℕ → Bool) : Type 0 where
  pub asymmetric : (x y : ℕ) → cmp x y ≡ true → cmp y x ≡ false
  pub steps : (x y z : ℕ) → cmp y x ≡ false → cmp z y ≡ false → cmp z x ≡ false

-- A comparison of keys, as `heap_cmp` and `process_mregion_cmp` are.
pub key-IsOrder : (key : ℕ → ℕ) → IsOrder (λ a b. ltb (key a) (key b))
key-IsOrder key = record { asymmetric = λ x y h. ground arith; steps = λ x y z h k. ground arith }

-- No element of the list comes before `x`.
abbrev pub NoneBefore : (ℕ → ℕ → Bool) → ℕ → List ℕ → Type 0
NoneBefore cmp x [] = Unit
NoneBefore cmp x (y ∷ ys) = (cmp y x ≡ false) × NoneBefore cmp x ys

abbrev pub IsSorted : (ℕ → ℕ → Bool) → List ℕ → Type 0
IsSorted cmp [] = Unit
IsSorted cmp (x ∷ xs) = NoneBefore cmp x xs × IsSorted cmp xs

module _ (cmp : ℕ → ℕ → Bool) (o : IsOrder cmp) where
  NoneBefore-step :
      (x y : ℕ) (zs : List ℕ) → cmp y x ≡ false → NoneBefore cmp y zs → NoneBefore cmp x zs
  NoneBefore-step x y [] h n = tt
  NoneBefore-step x y (z ∷ zs) h (k, n) = (o.steps x y z h k, NoneBefore-step x y zs h n)

  NoneBefore-ordered_insert :
      (x item : ℕ) (xs : List ℕ)
      → cmp item x ≡ false
      → NoneBefore cmp x xs
      → NoneBefore cmp x (ordered_insert cmp item xs)
  unfolding ordered_insert
  NoneBefore-ordered_insert x item [] h n = (h, tt)
  NoneBefore-ordered_insert x item (y ∷ ys) h (k, n) = elim (Bool-cases (cmp y item)) [
    | inl e ↦ rw e (k, NoneBefore-ordered_insert x item ys h n)
    | inr e ↦ rw e (h, (k, n))
  ]

  ordered_insert-IsSorted :
      (item : ℕ) (xs : List ℕ) → IsSorted cmp xs → IsSorted cmp (ordered_insert cmp item xs)
  unfolding ordered_insert
  ordered_insert-IsSorted item [] s = (tt, tt)
  ordered_insert-IsSorted item (x ∷ xs) (n, s) = elim (Bool-cases (cmp x item)) [
    | inl e ↦ rw e (
      NoneBefore-ordered_insert x item xs (o.asymmetric x item e) n,
      ordered_insert-IsSorted item xs s,
    )
    | inr e ↦ rw e ((e, NoneBefore-step item x xs e n), (n, s))
  ]

  NoneBefore-erase_at :
      (x : ℕ) (xs : List ℕ) (i : ℕ) → NoneBefore cmp x xs → NoneBefore cmp x (erase_at xs i)
  NoneBefore-erase_at x [] i n = tt
  NoneBefore-erase_at x (y ∷ ys) zero (k, n) = n
  NoneBefore-erase_at x (y ∷ ys) (suc i) (k, n) = (k, NoneBefore-erase_at x ys i n)

  erase_at-IsSorted : (xs : List ℕ) (i : ℕ) → IsSorted cmp xs → IsSorted cmp (erase_at xs i)
  erase_at-IsSorted [] i s = tt
  erase_at-IsSorted (x ∷ xs) zero (n, s) = s
  erase_at-IsSorted (x ∷ xs) (suc i) (n, s) =
      (NoneBefore-erase_at x xs i n, erase_at-IsSorted xs i s)

ordered_insert-perm :
    (cmp : ℕ → ℕ → Bool) (item : ℕ) (xs : List ℕ) → Perm (ordered_insert cmp item xs) (item ∷ xs)
unfolding ordered_insert
ordered_insert-perm cmp item [] = Perm.refl (item ∷ [])
ordered_insert-perm cmp item (x ∷ xs) = elim (Bool-cases (cmp x item)) [
  | inl e ↦ rw e (Perm.trans (Perm.cons x (ordered_insert-perm cmp item xs)) (Perm.swap item x xs))
  | inr e ↦ rw e (Perm.refl (item ∷ x ∷ xs))
]

-- Insertion into a valid sorted array with room, whose comparison is a strict weak order, answers a
-- valid array with the same comparison and the same room, sorted by it, which holds the old elements
-- and the item, each as often as before.
pub insert-IsSorted :
    {array : SortedArray} (item : ℕ)
    → IsOrder array.cmp
    → IsValid array
    → IsSorted array.cmp (contents array)
    → array.size < array.max
    → (array' : SortedArray) × (insert array item ≡ some array')
      × (array'.cmp ≡ array.cmp)
      × (array'.max ≡ array.max)
      × IsSorted array.cmp (contents array')
      × Perm (contents array') (item ∷ contents array)
      × IsValid array'
insert-IsSorted {array} item o v s room =
    let (array', eq, same, v', m, c) = insert_lem item v room in
    (
      array',
      eq,
      c,
      m,
      rw same (ordered_insert-IsSorted array.cmp o item (contents array) s),
      rw same (ordered_insert-perm array.cmp item (contents array)),
      v',
    )

-- Removal of an index in use from a sorted array that is not full keeps it sorted and valid, and
-- takes out the element at that index alone.
pub remove-IsSorted :
    {array : SortedArray} (i : ℕ)
    → IsOrder array.cmp
    → IsValid array
    → IsSorted array.cmp (contents array)
    → i < array.size
    → array.size < array.max
    → (array' : SortedArray) × (remove array i ≡ some array')
      × IsSorted array'.cmp (contents array')
      × (contents array' ≡ erase_at (contents array) i)
      × IsValid array'
remove-IsSorted {array} i o v s h room =
    let (array', eq, same, v', m, c) = remove_lem i v h room in
    (array', eq, rw (c, same) (erase_at-IsSorted array.cmp o (contents array) i s), same, v')
