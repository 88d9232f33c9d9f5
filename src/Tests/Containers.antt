-- ===== src/Tests/Containers.antt =====
-- Sorted arrays of libk/array.c with three elements.
use os0_kernel.Prelude.{◌≡◌, ℕ, refl, some, true, [], ◌∷◌, ltb, arith}
use mathlib.Core.List.{Perm}
use os0_kernel.Libk.SortedArray.{SortedArray, insert, remove}
use os0_kernel.Libk.SortedArray.Insert.{contents, IsValid}
use os0_kernel.Libk.SortedArray.Remove.{erase_at}
use os0_kernel.Libk.SortedArray.Order.{IsSorted, key-IsOrder, insert-IsSorted, remove-IsSorted}

-- The elements are their own keys.
abbrev own_key : ℕ → ℕ
own_key x = x

abbrev three : SortedArray
three = record {
  elems = 10 ∷ 20 ∷ 30 ∷ 0 ∷ [];
  size = 3;
  max = 4;
  cmp = λ a b. ltb (own_key a) (own_key b);
  alloc = true;
}

abbrev full : SortedArray
full = record three { elems = 10 ∷ 20 ∷ 30 ∷ []; max = 3 }

three-IsValid : IsValid three
three-IsValid = record { within = omega arith; room = refl; word = omega arith }

three-IsSorted : IsSorted three.cmp (contents three)
three-IsSorted = ((refl, (refl, tt)), ((refl, tt), (tt, tt)))

full-IsValid : IsValid full
full-IsValid = record { within = omega arith; room = refl; word = omega arith }

insert-IsSorted_example :
    (array' : SortedArray) × (insert three 25 ≡ some array')
    × (array'.cmp ≡ three.cmp)
    × (array'.max ≡ three.max)
    × IsSorted three.cmp (contents array')
    × Perm (contents array') (25 ∷ contents three)
    × IsValid array'
insert-IsSorted_example =
    insert-IsSorted {array = three} 25 (key-IsOrder own_key) three-IsValid three-IsSorted
      (omega arith)

remove-IsSorted_example :
    (array' : SortedArray) × (remove three 1 ≡ some array')
    × IsSorted array'.cmp (contents array')
    × (contents array' ≡ erase_at (contents three) 1)
    × IsValid array'
remove-IsSorted_example =
    remove-IsSorted {array = three} 1 (key-IsOrder own_key) three-IsValid three-IsSorted
      (omega arith) (omega arith)
