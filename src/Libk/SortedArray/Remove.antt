-- ===== src/Libk/SortedArray/Remove.antt =====
-- `sorted_array_remove` against removal from a list.
use os0_kernel.Prelude.{
  ℕ, zero, suc, ◌+◌, ◌-◌, ◌≤◌, ◌<◌, ◌≡◌, refl, ◌∙◌, none, some, List, [], ◌∷◌, ◌++◌, arith, length,
  length-set, get_elem?, set, take, Option-cases, inl, inr, subst, ap,
}
use mathlib.Core.Option
use os0_kernel.Libk.SortedArray.{SortedArray, close, remove}
use os0_kernel.Libk.SortedArray.Insert.{contents, IsValid}

-- The list without its element at `i`.
abbrev pub erase_at : List ℕ → ℕ → List ℕ
erase_at [] i = []
erase_at (x ∷ xs) zero = xs
erase_at (x ∷ xs) (suc i) = x ∷ erase_at xs i

close-cons :
    (n i x : ℕ) (xs : List ℕ) → close n (suc i) (x ∷ xs) ≡ Option.map (λ ys. x ∷ ys) (close n i xs)
unfolding close
close-cons zero i x xs = refl
close-cons (suc n) i x xs = elim (Option-cases (get_elem? xs (suc i))) [
  | inl e ↦ rw (e, close)
  | inr (y, e) ↦ rw (e, close) (close-cons n (suc i) x (set xs i y))
]

-- From the front the loop moves `n` cells down by one.
close-start :
    (n x : ℕ) (xs : List ℕ)
    → n ≤ length xs
    → (rest : List ℕ) × (close n 0 (x ∷ xs) ≡ some (take n xs ++ rest))
      × (length (take n xs ++ rest) ≡ suc (length xs))
unfolding close
close-start zero x xs h = (x ∷ xs, refl, refl)
close-start (suc n) x [] h = absurd (omega arith)
close-start (suc n) x (y ∷ ys) h =
    let (rest, eq, len) = close-start n y ys (omega arith) in
    (rest, close-cons n 0 y (y ∷ ys) ∙ rw eq, ap suc len)

take-take :
    (n : ℕ) (xs rest : List ℕ) → n < length xs → take n (take (suc n) xs ++ rest) ≡ take n xs
take-take zero xs rest h = refl
take-take (suc n) [] rest h = absurd (omega arith)
take-take (suc n) (x ∷ xs) rest h = ap (λ ys. x ∷ ys) (take-take n xs rest (omega arith))

-- What the loop leaves of `suc n` elements in use, one of which it removes.
record Closed (i n : ℕ) (xs ys : List ℕ) : Type 0 where
  runs : close (suc n - i) i xs ≡ some ys
  same_room : length ys ≡ length xs
  erased : take n ys ≡ erase_at (take (suc n) xs) i

close_lem : (i n : ℕ) (xs : List ℕ) → i ≤ n → suc n < length xs → (ys : List ℕ) × Closed i n xs ys
close_lem i n [] h k = absurd (omega arith)
close_lem zero n (x ∷ xs) h k =
    let (rest, eq, len) = close-start (suc n) x xs (omega arith) in
    (
      take (suc n) xs ++ rest,
      record {
        runs = subst (λ m. close m 0 (x ∷ xs) ≡ some (take (suc n) xs ++ rest)) (omega arith) eq;
        same_room = len;
        erased = take-take n xs rest (omega arith);
      },
    )
close_lem (suc i) zero (x ∷ xs) h k = absurd (omega arith)
close_lem (suc i) (suc n) (x ∷ xs) h k =
    let (ys, c) = close_lem i n xs (omega arith) (omega arith) in
    (
      x ∷ ys,
      record {
        runs =
            subst (λ m. close m (suc i) (x ∷ xs) ≡ some (x ∷ ys)) (omega arith)
              (close-cons (suc n - i) i x xs ∙ rw (c.runs));
        same_room = ap suc c.same_room;
        erased = ap (λ zs. x ∷ zs) c.erased;
      },
    )

-- Where the array is not full, `sorted_array_remove` of an index in use stays inside the buffer,
-- takes out exactly the element at that index and keeps the order of the others, the counters in
-- range, the capacity and the comparison.
pub remove_lem :
    {array : SortedArray} (i : ℕ)
    → IsValid array
    → i < array.size
    → array.size < array.max
    → (array' : SortedArray) × (remove array i ≡ some array')
      × (contents array' ≡ erase_at (contents array) i)
      × IsValid array'
      × (array'.max ≡ array.max)
      × (array'.cmp ≡ array.cmp)
unfolding remove
remove_lem {array} i v h room =
    let e : suc (array.size - 1) ≡ array.size = omega arith in
    let (ys, c) = close_lem i (array.size - 1) array.elems (omega arith) (omega arith) in
    (
      record array { elems = ys; size = array.size - 1 },
      ground (arith, c, e),
      ground (arith, c, e),
      ground (arith, c),
      refl,
      refl,
    )

get_elem?-past : (xs : List ℕ) (i : ℕ) → length xs ≤ i → get_elem? xs i ≡ none
get_elem?-past [] i h = refl
get_elem?-past (x ∷ xs) zero h = absurd (omega arith)
get_elem?-past (x ∷ xs) (suc i) h = get_elem?-past xs i (omega arith)

-- The last round reads the cell behind the buffer.
close-overrun : (n i : ℕ) (xs : List ℕ) → suc n + i ≡ length xs → close (suc n) i xs ≡ none
unfolding close
close-overrun zero i xs e = rw (get_elem?-past xs (suc i) (omega arith), close)
close-overrun (suc n) i xs e = elim (Option-cases (get_elem? xs (suc i))) [
  | inl none_there ↦ rw (none_there, close)
  | inr (y, there) ↦
      rw (there, close) (close-overrun n (suc i) (set xs i y) (omega (arith, length-set xs i y)))
]

-- Removal from a full array reads the cell behind the buffer, whatever index is removed.
pub remove-full :
    {array : SortedArray} (i : ℕ)
    → IsValid array
    → i < array.size
    → array.size ≡ array.max
    → remove array i ≡ none
unfolding remove
remove-full {array} i v h full = ground (arith, overrun)
  where
    overrun : close (array.size - i) i array.elems ≡ none
    overrun =
        subst (λ m. close m i array.elems ≡ none) (omega arith)
          (close-overrun (array.size - i - 1) i array.elems (omega arith))
