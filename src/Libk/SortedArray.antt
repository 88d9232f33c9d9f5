-- ===== src/Libk/SortedArray.antt =====
-- libk/array.c: the sorted arrays that hold the heap's index and a process's memory regions.
-- Elements are pointers, numbers with 0 for NULL. `elems` is the whole buffer, unused cells
-- included, and an access outside it is `none`.
pub mod Insert
pub mod Remove
pub mod Order
use os0_kernel.Prelude.{
  ℕ, zero, suc, ◌+◌, ◌-◌, ◌%◌, ◌^◌, Bool, true, false, ◌&&◌, Option, none, some, List, [], ◌∷◌, ltb,
  leb, ◌==◌, ◌||◌, if◌then◌else◌, set, replicate, get_elem?, Result, ok, err, einval,
}
use os0_kernel.Libk.Array.{released}

-- `SortedArray`; the length of `elems` is the room that the buffer has.
pub record SortedArray : Type 0 where
  pub elems : List ℕ
  pub size : ℕ
  pub max : ℕ
  pub cmp : ℕ → ℕ → Bool
  pub alloc : Bool

-- `sorted_array_place` at the buffer `addr`, whose cells it clears. A null pointer for the array,
-- the buffer or the comparison is `none`.
pub place : Option SortedArray → Option ℕ → ℕ → Option (ℕ → ℕ → Bool) → Result SortedArray
place (some array) (some addr) max (some cmp) =
    ok (record { elems = replicate max 0; size = 0; max = max; cmp = cmp; alloc = false })
place _ _ _ _ = err einval

-- `sorted_array_new`, where `header` and `buffer` say whether the two calls of `kmalloc` succeed.
pub new : Bool → Bool → ℕ → (ℕ → ℕ → Bool) → Option SortedArray
new header buffer max cmp =
    if header && buffer
    then some (record { elems = replicate max 0; size = 0; max = max; cmp = cmp; alloc = true })
    else none

-- `sorted_array_destroy` with a function to call: the elements that it is called for, and whether
-- the buffer is freed with the array.
pub destroy : Option SortedArray → Option (List ℕ × Bool)
destroy none = some ([], false)
destroy (some array) = elim (released array.elems array.size 0) [
  | none ↦ none
  | some xs ↦ some (xs, array.alloc)
]

-- The search of `sorted_array_insert`, with `n = size - i` rounds left.
pub scan : (ℕ → ℕ → Bool) → List ℕ → ℕ → ℕ → ℕ → Option ℕ
scan cmp elems item zero i = some i
scan cmp elems item (suc n) i = elim (get_elem? elems i) [
  | none ↦ none
  | some x ↦ elim (cmp x item) [ true ↦ scan cmp elems item n (suc i) | false ↦ some i ]
]

-- The loop that moves the later elements up by one cell, with `n = size - i` rounds left.
pub shift : ℕ → ℕ → ℕ → List ℕ → Option (List ℕ)
shift zero i temp elems = some elems
shift (suc n) i temp elems = elim (get_elem? elems (suc i)) [
  | none ↦ none
  | some x ↦ shift n (suc i) x (set elems (suc i) temp)
]

-- A write into the buffer.
abbrev pub store : List ℕ → ℕ → ℕ → Option (List ℕ)
store elems i v = elim (get_elem? elems i) [ none ↦ none | some x ↦ some (set elems i v) ]

-- What follows the search in `sorted_array_insert`, at the place `i` that it found.
pub insert_at : List ℕ → ℕ → ℕ → ℕ → Option (List ℕ)
insert_at elems size item i =
    if i == size then store elems size item else elim (get_elem? elems i) [
      | none ↦ none
      | some temp ↦ shift (size - i) i temp (set elems i item)
    ]

abbrev pub insert_found : List ℕ → ℕ → ℕ → Option ℕ → Option (List ℕ)
insert_found elems size item none = none
insert_found elems size item (some i) = insert_at elems size item i

pub insert_elems : (ℕ → ℕ → Bool) → List ℕ → ℕ → ℕ → Option (List ℕ)
insert_elems cmp elems size item = insert_found elems size item (scan cmp elems item size 0)

-- `sorted_array_insert`; both branches add one to the size.
pub insert : SortedArray → ℕ → Option SortedArray
insert array item = elim (insert_elems array.cmp array.elems array.size item) [
  | none ↦ none
  | some elems ↦ some (record array { elems = elems; size = (array.size + 1) % 2 ^ 32 })
]

-- `sorted_array_lookup`; 0 is NULL. The outer option is an access out of bounds.
pub lookup : Option SortedArray → ℕ → Option ℕ
lookup none i = some 0
lookup (some array) i = if leb array.size i then some 0 else get_elem? array.elems i

-- The loop of `sorted_array_remove`, with `n = size - i` rounds left.
pub close : ℕ → ℕ → List ℕ → Option (List ℕ)
close zero i elems = some elems
close (suc n) i elems = elim (get_elem? elems (suc i)) [
  | none ↦ none
  | some x ↦ close n (suc i) (set elems i x)
]

-- `sorted_array_remove`; the size is unsigned and wraps below 0.
pub remove : SortedArray → ℕ → Option SortedArray
remove array i = elim (close (array.size - i) i array.elems) [
  | none ↦ none
  | some elems ↦ some (record array { elems = elems; size = (array.size + 2 ^ 32 - 1) % 2 ^ 32 })
]
