-- ===== src/Libk/Strings/Compares.antt =====
-- Comparisons of strings: `strcmp` and `strncmp` of libk/string.c.
use os0_kernel.Prelude.{
  ℕ, zero, suc, ◌+◌, ◌<◌, ◌≡◌, ◌≢◌, ◌↔◌, refl, some, List, [], ◌∷◌, arith, length, ap, ◌∙◌, ltb,
  sym, if◌then◌else◌,
}
use os0_kernel.Prelude.Int.{ℤ, pos, negsuc}
use os0_kernel.Libk.Strings.{rank, strcmp, strncmp}
use os0_kernel.Libk.Strings.Copies.{terminated}

-- The bytes of a string: none is a terminator, and all are below 256.
abbrev pub IsText : List ℕ → Type 0
IsText [] = Unit
IsText (c ∷ s) = (c ≢ 0) × (c < 256) × IsText s

-- How the string `s` compares with `t`, byte by byte as signed numbers, the end as a byte 0.
pub compare_text : List ℕ → List ℕ → ℤ
compare_text [] [] = pos 0
compare_text [] (b ∷ t) = if ltb (rank b) (rank 0) then pos 1 else negsuc 0
compare_text (a ∷ s) [] = if ltb (rank 0) (rank a) then pos 1 else negsuc 0
compare_text (a ∷ s) (b ∷ t) =
    if ltb (rank b) (rank a)
    then pos 1
    else if ltb (rank a) (rank b)
    then negsuc 0
    else compare_text s t

strcmp-terminated :
    (s t r q : List ℕ)
    → IsText s
    → IsText t
    → strcmp (terminated s r) (terminated t q) ≡ some (compare_text s t)
unfolding strcmp compare_text
strcmp-terminated [] [] r q h k = refl
strcmp-terminated [] (b ∷ t) r q h (kn, kb, k) = ground arith
strcmp-terminated (a ∷ s) [] r q (hn, hb, h) k = ground arith
strcmp-terminated (a ∷ s) (b ∷ t) r q (hn, hb, h) (kn, kb, k) =
    ground (arith, strcmp-terminated s t r q h k)

compare_text_refl : (s : List ℕ) → compare_text s s ≡ pos 0
unfolding compare_text
compare_text_refl [] = refl
compare_text_refl (a ∷ s) = ground (arith, compare_text_refl s)

compare_text-eq : (s t : List ℕ) → IsText s → IsText t → compare_text s t ≡ pos 0 → s ≡ t
unfolding compare_text
compare_text-eq [] [] h k e = refl
compare_text-eq [] (b ∷ t) h k e = ground arith
compare_text-eq (a ∷ s) [] h k e = ground arith
compare_text-eq (a ∷ s) (b ∷ t) (hn, hb, h) (kn, kb, k) e = ground (arith, compare_text-eq s t h k)

abbrev pub opposite : ℤ → ℤ
opposite (pos zero) = pos 0
opposite (pos (suc n)) = negsuc n
opposite (negsuc n) = pos (n + 1)

compare_text-opposite :
    (s t : List ℕ) → IsText s → IsText t → compare_text t s ≡ opposite (compare_text s t)
unfolding compare_text
compare_text-opposite [] [] h k = refl
compare_text-opposite [] (b ∷ t) h (kn, kb, k) = ground arith
compare_text-opposite (a ∷ s) [] (hn, hb, h) k = ground arith
compare_text-opposite (a ∷ s) (b ∷ t) (hn, hb, h) (kn, kb, k) =
    ground (arith, compare_text-opposite s t h k)

-- `strcmp` of two strings ends and reads nothing behind their terminators: it answers 0 exactly
-- where they are equal, and with the arguments swapped it answers the opposite.
pub strcmp_lem :
    (s t r q : List ℕ)
    → IsText s
    → IsText t
    → (n : ℤ) × (strcmp (terminated s r) (terminated t q) ≡ some n)
      × ((n ≡ pos 0) ↔ (s ≡ t))
      × (strcmp (terminated t q) (terminated s r) ≡ some (opposite n))
strcmp_lem s t r q h k = (
  compare_text s t,
  strcmp-terminated s t r q h k,
  (compare_text-eq s t h k, λ e. ap (compare_text s) (sym e) ∙ compare_text_refl s),
  strcmp-terminated t s q r k h ∙ ap some (compare_text-opposite s t h k),
)

strncmp-skip :
    (s r q : List ℕ) (m n : ℕ)
    → m ≡ length s + n
    → strncmp (terminated s r) (terminated s q) (suc m) ≡ strncmp r q n
unfolding strncmp
strncmp-skip [] r q m n e = ap (strncmp r q) (omega arith)
strncmp-skip (a ∷ s) r q zero n e = absurd (omega arith)
strncmp-skip (a ∷ s) r q (suc m) n e = ground (arith, strncmp-skip s r q m n (omega arith))

-- `strncmp` goes on behind the terminators: of two equal strings it compares what lies behind them,
-- for as many bytes as the count still leaves.
pub strncmp-past_end :
    (s r q : List ℕ) (n : ℕ)
    → strncmp (terminated s r) (terminated s q) (suc (length s) + n) ≡ strncmp r q n
strncmp-past_end s r q n =
    ap (strncmp (terminated s r) (terminated s q)) same_count
    ∙ strncmp-skip s r q (length s + n) n refl
  where
    same_count : suc (length s) + n ≡ suc (length s + n)
    same_count = omega arith
