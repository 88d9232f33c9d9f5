-- ===== src/Libk/SigSet/Laws.antt =====
-- The operations of libk/signal.c against sets of the signals 0 to 47.
use os0_kernel.Prelude.{
  ℕ, zero, suc, ◌-◌, ◌/◌, ◌%◌, ◌^◌, ◌≤◌, ◌<◌, ◌≡◌, refl, ◌∙◌, ap, not, ◌&&◌, ◌||◌, List, [], ◌∷◌,
  arith, bit_and, bit_or, ◌==◌, get_or, set, length, length-set, get_or-set_self, get_or-set_ne,
  if◌then◌else◌,
}
use native.Mathlib.Decide.{ℕ_discrete}
use native.Mathlib.Nat.{pow-le-pow_right}
use os0_kernel.Bits.{
  bit, bit-bit_or, bit-bit_and, bit-two_pow, bit-complement, and_two_pow-ne-zero, bit_or-lt,
  bit_and-lt,
}
use os0_kernel.Libk.SigSet.{SigSet, nsig, sigset_bytes, mask, add, del, member, union, minus}

abbrev AllBytes : List ℕ → Type 0
AllBytes [] = Unit
AllBytes (b ∷ s) = (b < 2 ^ 8) × AllBytes s

pub record IsValid (s : SigSet) : Type 0 where
  pub room : length s ≡ sigset_bytes
  pub bytes : AllBytes s

AllBytes-get : (s : List ℕ) (i : ℕ) → AllBytes s → get_or s i 0 < 2 ^ 8
AllBytes-get [] i h = omega arith
AllBytes-get (b ∷ s) zero (h, t) = h
AllBytes-get (b ∷ s) (suc i) (h, t) = AllBytes-get s i t

AllBytes-set : (s : List ℕ) (i v : ℕ) → AllBytes s → v < 2 ^ 8 → AllBytes (set s i v)
AllBytes-set [] i v h lt = tt
AllBytes-set (b ∷ s) zero v (h, t) lt = (lt, t)
AllBytes-set (b ∷ s) (suc i) v (h, t) lt = (h, AllBytes-set s i v t lt)

-- Membership as a bit of a byte.
member-bit : (s : SigSet) (i : ℕ) → member s i ≡ bit (get_or s (i / 8) 0) (7 - i % 8)
unfolding member
member-bit s i = and_two_pow-ne-zero (7 - i % 8) (get_or s (i / 8) 0)

same_bit : (i j : ℕ) → i / 8 ≡ j / 8 → (7 - i % 8 == 7 - j % 8) ≡ (i == j)
same_bit i j h = ground arith

-- A set with one byte given anew.
byte_set :
    (s : SigSet) (i j v : ℕ)
    → IsValid s
    → i < nsig
    → get_or (set s (i / 8) v) (j / 8) 0 ≡ (if i / 8 == j / 8 then v else get_or s (j / 8) 0)
byte_set s i j v w lt = elim (ℕ_discrete (i / 8) (j / 8)) [
  | yes e ↦ ground (arith, get_or-set_self s (i / 8) v 0 (omega (arith, w.room)))
  | no ne ↦ ground (arith, get_or-set_ne s (i / 8) (j / 8) v 0 ne)
]

pub member-add :
    (s : SigSet) (i j : ℕ) → IsValid s → i < nsig → member (add s i) j ≡ ((i == j) || member s j)
unfolding add
member-add s i j w lt =
    rw (member-bit, member-bit, byte_set s i j _ w lt)
      (ground (
        arith,
        bit-bit_or (7 - j % 8) (get_or s (i / 8) 0) (mask i),
        bit-two_pow (7 - i % 8) (7 - j % 8),
        same_bit i j,
      ))

mask-lt : (i : ℕ) → mask i < 2 ^ 8
mask-lt i =
    let h : 2 ^ (7 - i % 8) ≤ 2 ^ 7 =
      pow-le-pow_right {n = 2} (omega arith) {i = 7 - i % 8} {j = 7} (omega arith) in
    omega (arith, h)

pub member-del :
    (s : SigSet) (i j : ℕ)
    → IsValid s
    → i < nsig
    → member (del s i) j ≡ (not (i == j) && member s j)
unfolding del
member-del s i j w lt =
    rw (member-bit, member-bit, byte_set s i j _ w lt)
      (ground (
        arith,
        bit-bit_and (7 - j % 8) (get_or s (i / 8) 0) (2 ^ 8 - 1 - mask i),
        bit-complement 8 (7 - j % 8) (mask i) (omega arith) (mask-lt i),
        bit-two_pow (7 - i % 8) (7 - j % 8),
        same_bit i j,
      ))

get-union :
    (s t : SigSet) (i : ℕ)
    → length s ≡ length t
    → get_or (union s t) i 0 ≡ bit_or (get_or s i 0) (get_or t i 0)
unfolding union
get-union [] [] i h = refl
get-union [] (c ∷ t) i h = absurd (omega arith)
get-union (b ∷ s) [] i h = absurd (omega arith)
get-union (b ∷ s) (c ∷ t) zero h = refl
get-union (b ∷ s) (c ∷ t) (suc i) h = get-union s t i (omega arith)

get-minus :
    (s t : SigSet) (i : ℕ)
    → length s ≡ length t
    → i < length s
    → get_or (minus s t) i 0 ≡ bit_and (get_or s i 0) (2 ^ 8 - 1 - get_or t i 0)
unfolding minus
get-minus [] [] i h lt = absurd (omega arith)
get-minus [] (c ∷ t) i h lt = absurd (omega arith)
get-minus (b ∷ s) [] i h lt = absurd (omega arith)
get-minus (b ∷ s) (c ∷ t) zero h lt = refl
get-minus (b ∷ s) (c ∷ t) (suc i) h lt = get-minus s t i (omega arith) (omega arith)

pub member-union :
    (s t : SigSet) (j : ℕ)
    → IsValid s
    → IsValid t
    → member (union s t) j ≡ (member s j || member t j)
member-union s t j v w =
    member-bit (union s t) j
    ∙ rw (get-union s t (j / 8) (omega (arith, v.room, w.room)), member-bit s j, member-bit t j)
        (bit-bit_or (7 - j % 8) (get_or s (j / 8) 0) (get_or t (j / 8) 0))

pub member-minus :
    (s t : SigSet) (j : ℕ)
    → IsValid s
    → IsValid t
    → j < nsig
    → member (minus s t) j ≡ (member s j && not (member t j))
member-minus s t j v w lt =
    member-bit (minus s t) j
    ∙ rw
        (
          get-minus s t (j / 8) (omega (arith, v.room, w.room)) (omega (arith, v.room)),
          member-bit s j,
          member-bit t j,
        )
        (bit-bit_and (7 - j % 8) (get_or s (j / 8) 0) (2 ^ 8 - 1 - get_or t (j / 8) 0)
          ∙ rw (
              bit-complement 8 (7 - j % 8) (get_or t (j / 8) 0) (omega arith)
                (AllBytes-get t (j / 8) w.bytes)))

pub add-IsValid : (s : SigSet) (i : ℕ) → IsValid s → IsValid (add s i)
unfolding add
add-IsValid s i w = record {
  room = omega (arith, length-set s (i / 8) (bit_or (get_or s (i / 8) 0) (mask i)), w.room);
  bytes =
      AllBytes-set s (i / 8) _ w.bytes
        (bit_or-lt 8 (get_or s (i / 8) 0) (mask i) (AllBytes-get s (i / 8) w.bytes) (mask-lt i));
}

pub del-IsValid : (s : SigSet) (i : ℕ) → IsValid s → IsValid (del s i)
unfolding del
del-IsValid s i w = record {
  room =
      omega
        (arith, length-set s (i / 8) (bit_and (get_or s (i / 8) 0) (2 ^ 8 - 1 - mask i)), w.room);
  bytes =
      AllBytes-set s (i / 8) _ w.bytes
        (bit_and-lt 8 (get_or s (i / 8) 0) (2 ^ 8 - 1 - mask i) (AllBytes-get s (i / 8) w.bytes));
}

AllBytes-union : (s t : SigSet) → AllBytes s → AllBytes t → AllBytes (union s t)
unfolding union
AllBytes-union [] t h k = tt
AllBytes-union (b ∷ s) [] h k = h
AllBytes-union (b ∷ s) (c ∷ t) (h, hs) (k, ks) = (bit_or-lt 8 b c h k, AllBytes-union s t hs ks)

AllBytes-minus : (s t : SigSet) → AllBytes s → AllBytes (minus s t)
unfolding minus
AllBytes-minus [] t h = tt
AllBytes-minus (b ∷ s) [] h = h
AllBytes-minus (b ∷ s) (c ∷ t) (h, hs) = (bit_and-lt 8 b (2 ^ 8 - 1 - c) h, AllBytes-minus s t hs)

length-union : (s t : SigSet) → length (union s t) ≡ length s
unfolding union
length-union [] t = refl
length-union (b ∷ s) [] = refl
length-union (b ∷ s) (c ∷ t) = ap suc (length-union s t)

length-minus : (s t : SigSet) → length (minus s t) ≡ length s
unfolding minus
length-minus [] t = refl
length-minus (b ∷ s) [] = refl
length-minus (b ∷ s) (c ∷ t) = ap suc (length-minus s t)

pub union-IsValid : (s t : SigSet) → IsValid s → IsValid t → IsValid (union s t)
union-IsValid s t v w = record {
  room = length-union s t ∙ v.room;
  bytes = AllBytes-union s t v.bytes w.bytes;
}

pub minus-IsValid : (s t : SigSet) → IsValid s → IsValid (minus s t)
minus-IsValid s t v = record {
  room = length-minus s t ∙ v.room;
  bytes = AllBytes-minus s t v.bytes;
}
