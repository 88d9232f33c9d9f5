-- ===== src/Libk/Array/Appends.antt =====
-- Arrays of libk/array.c as the list of their elements.
use native.Mathlib.Decide.{ℕ_discrete}
use os0_kernel.Prelude.{
  ℕ, zero, suc, ◌+◌, ◌^◌, ◌≤◌, ◌<◌, ◌≡◌, ◌≢◌, refl, ◌∙◌, ap, some, List, [], ◌∷◌, ◌++◌, arith,
  length, length-set, set, take, get_elem?, Option-cases, inl, inr,
}
use os0_kernel.Libk.Array.{Array, Append, appended, refused, faults, append, released, destroy}

-- The elements in use.
abbrev pub contents : Array → List ℕ
contents array = take array.size array.elems

pub record IsValid (array : Array) : Type 0 where
  pub within : array.size ≤ array.max
  pub room : length array.elems ≡ array.max
  pub word : array.max < 2 ^ 32

get_elem?-some : (xs : List ℕ) (i : ℕ) → i < length xs → (x : ℕ) × (get_elem? xs i ≡ some x)
get_elem?-some [] i h = absurd (omega arith)
get_elem?-some (x ∷ xs) zero h = (x, refl)
get_elem?-some (x ∷ xs) (suc i) h = get_elem?-some xs i (omega arith)

take-set :
    (xs : List ℕ) (i v : ℕ) → i < length xs → take (suc i) (set xs i v) ≡ take i xs ++ (v ∷ [])
take-set [] i v h = absurd (omega arith)
take-set (x ∷ xs) zero v h = refl
take-set (x ∷ xs) (suc i) v h = ap (λ ys. x ∷ ys) (take-set xs i v (omega arith))

grown : Array → ℕ → Array
grown array elem = record array { elems = set array.elems array.size elem; size = array.size + 1 }

append-grown :
    (array : Array) (elem : ℕ)
    → IsValid array
    → array.size ≢ array.max
    → append (some array) elem ≡ appended (grown array elem)
unfolding append grown
append-grown array elem v ne =
    let (old, e) = get_elem?-some array.elems array.size (omega (arith, v.within, v.room)) in
    ground (arith, e, v.within, v.word)

append-full :
    (array : Array) (elem : ℕ) → array.size ≡ array.max → append (some array) elem ≡ refused
unfolding append
append-full array elem e = ground arith

released-cons : (x : ℕ) (xs : List ℕ) (n i : ℕ) → released (x ∷ xs) n (suc i) ≡ released xs n i
unfolding released
released-cons x xs zero i = refl
released-cons x xs (suc n) i = elim (Option-cases (get_elem? xs i)) [
  | inl e ↦ rw (e, released)
  | inr (y, e) ↦ rw (e, released) (rw (released-cons x xs n (suc i)))
]

released-take : (xs : List ℕ) (n : ℕ) → n ≤ length xs → released xs n 0 ≡ some (take n xs)
unfolding released
released-take xs zero h = refl
released-take [] (suc n) h = absurd (omega arith)
released-take (x ∷ xs) (suc n) h = rw (released-cons x xs n 0, released-take xs n (omega arith))

-- What an append answers.
abbrev pub AppendAnswer : Array → ℕ → Append → Type 0
AppendAnswer array elem (appended array') =
    (contents array' ≡ contents array ++ (elem ∷ [])) × IsValid array' × (array'.max ≡ array.max)
AppendAnswer array elem refused = array.size ≡ array.max
AppendAnswer array elem faults = ⊥

-- `array_append` puts the element behind the others and keeps the array valid; it refuses only a
-- full array, and it never goes outside the buffer.
pub append-AppendAnswer :
    (array : Array) (elem : ℕ) → IsValid array → AppendAnswer array elem (append (some array) elem)
unfolding grown
append-AppendAnswer array elem v = elim (ℕ_discrete array.size array.max) [
  | yes full ↦ rw (append-full array elem full) full
  | no room ↦ rw (append-grown array elem v room) (
    contents_grown room,
    record {
      within = omega (arith, v.within);
      room = length-set array.elems array.size elem ∙ v.room;
      word = v.word;
    },
    refl,
  )
]
  where
    contents_grown :
        array.size ≢ array.max → contents (grown array elem) ≡ contents array ++ (elem ∷ [])
    contents_grown ne =
        ap (λ n. take n (set array.elems array.size elem)) {x = array.size + 1} {y = suc array.size}
          (omega arith)
        ∙ take-set array.elems array.size elem (omega (arith, v.within, v.room))

-- `array_destroy` calls the function for every element of the array, in order, and for nothing else.
pub destroy-contents :
    (array : Array) → IsValid array → destroy (some array) ≡ some (contents array)
unfolding destroy
destroy-contents array v = released-take array.elems array.size (omega (arith, v.within, v.room))
