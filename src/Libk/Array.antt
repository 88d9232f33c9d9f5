-- ===== src/Libk/Array.antt =====
-- libk/array.c: the unsorted arrays. Elements are pointers, numbers with 0 for NULL; `elems` is the
-- whole buffer, and an access outside it is `none`.
pub mod Appends
use os0_kernel.Prelude.{
  ℕ, zero, suc, ◌+◌, ◌%◌, ◌^◌, Bool, Option, none, some, List, [], ◌∷◌, ltb, ◌==◌, if◌then◌else◌,
  set, replicate, get_elem?,
}

-- `default_cmp`
pub default_cmp : ℕ → ℕ → Bool
default_cmp a b = ltb a b

-- `Array`
pub record Array : Type 0 where
  pub elems : List ℕ
  pub size : ℕ
  pub max : ℕ

-- `array_new`, where `header` and `buffer` are what the two calls of `kmalloc` return; the cells of
-- the buffer are those of the memory that the second one gives.
pub new : Bool → Option (List ℕ) → ℕ → Option Array
new header none max = none
new header (some cells) max =
    if header then some (record { elems = cells; size = 0; max = max }) else none

-- What a call of `array_append` does: the array with the element, the result -1, or an access
-- outside the buffer.
pub data Append : Type 0 where
  appended : Array → Append
  refused faults : Append

-- `array_append`
pub append : Option Array → ℕ → Append
append none elem = refused
append (some array) elem =
    if array.size == array.max then refused else elim (get_elem? array.elems array.size) [
      | none ↦ faults
      | some old ↦ appended (record array {
        elems = set array.elems array.size elem;
        size = (array.size + 1) % 2 ^ 32;
      })
    ]

-- The loop of `array_destroy` and `sorted_array_destroy`, with `n` rounds left from index `i` on:
-- the elements that the given function is called for.
pub released : List ℕ → ℕ → ℕ → Option (List ℕ)
released elems zero i = some []
released elems (suc n) i = elim (get_elem? elems i) [
  | none ↦ none
  | some x ↦ elim (released elems n (suc i)) [ none ↦ none | some xs ↦ some (x ∷ xs) ]
]

-- `array_destroy` with a function to call; the array itself is freed.
pub destroy : Option Array → Option (List ℕ)
destroy none = some []
destroy (some array) = released array.elems array.size 0
