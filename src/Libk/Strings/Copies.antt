-- ===== src/Libk/Strings/Copies.antt =====
-- Lengths and copies of terminated strings: `strlen`, `strnlen`, `strcpy`, `stpcpy` and `strncpy`
-- of libk/string.c.
use os0_kernel.Prelude.{
  ℕ, zero, suc, ◌+◌, ◌-◌, ◌≤◌, ◌<◌, ◌≡◌, ◌≢◌, refl, ◌∙◌, ap, none, some, List, [], ◌∷◌, ◌++◌, arith,
  length, take, drop, replicate, ==-ne,
}
use os0_kernel.Libk.Strings.{
  strlen_from, strlen, strnlen_from, strnlen, stpcpy_from, stpcpy, strcpy, pad, strncpy,
}

-- No byte of the list is a terminator.
abbrev pub AllNonzero : List ℕ → Type 0
AllNonzero [] = Unit
AllNonzero (c ∷ s) = (c ≢ 0) × AllNonzero s

-- A string in memory, with what lies behind its terminator.
abbrev pub terminated : List ℕ → List ℕ → List ℕ
terminated s rest = s ++ (0 ∷ rest)

strlen_from-terminated :
    (s rest : List ℕ) (i : ℕ)
    → AllNonzero s
    → strlen_from (terminated s rest) i ≡ some (i + length s)
unfolding strlen_from
strlen_from-terminated [] rest i h = ground arith
strlen_from-terminated (c ∷ s) rest i (h, t) =
    rw (==-ne c 0 h) (strlen_from-terminated s rest (i + 1) t ∙ ap some (omega arith))

-- The copy of a string into a destination with room for it and its terminator.
strcpy-terminated :
    (dest s rest : List ℕ)
    → AllNonzero s
    → length s < length dest
    → strcpy dest (terminated s rest) ≡ some (terminated s (drop (suc (length s)) dest))
unfolding strcpy
strcpy-terminated [] s rest h lt = absurd (omega arith)
strcpy-terminated (d ∷ dest) [] rest h lt = refl
strcpy-terminated (d ∷ dest) (c ∷ s) rest (h, t) lt =
    rw (==-ne c 0 h, strcpy-terminated dest s rest t (omega arith))

-- `strcpy` of a string into a destination with room for it and its terminator copies both and
-- leaves the rest; `strlen` of the result is the length of the string.
pub strlen-strcpy :
    (dest s rest : List ℕ)
    → AllNonzero s
    → length s < length dest
    → (copy : List ℕ) × (strcpy dest (terminated s rest) ≡ some copy)
      × (copy ≡ terminated s (drop (suc (length s)) dest))
      × (strlen copy ≡ some (length s))
unfolding strlen
strlen-strcpy dest s rest h lt = (
  terminated s (drop (suc (length s)) dest),
  strcpy-terminated dest s rest h lt,
  refl,
  strlen_from-terminated s (drop (suc (length s)) dest) 0 h ∙ ap some (omega arith),
)

-- `strcpy` knows nothing of the room: where the string and its terminator do not fit, it writes
-- behind the destination.
pub strcpy-overflow :
    (dest s rest : List ℕ)
    → AllNonzero s
    → length dest ≤ length s
    → strcpy dest (terminated s rest) ≡ none
unfolding strcpy
strcpy-overflow [] s rest h le = refl
strcpy-overflow (d ∷ dest) [] rest h le = absurd (omega arith)
strcpy-overflow (d ∷ dest) (c ∷ s) rest (h, t) le =
    rw (==-ne c 0 h, strcpy-overflow dest s rest t (omega arith))

stpcpy_from-terminated :
    (dest s rest : List ℕ) (i : ℕ)
    → AllNonzero s
    → length s < length dest
    → stpcpy_from dest (terminated s rest) i
      ≡ some (i + length s, terminated s (drop (suc (length s)) dest))
unfolding stpcpy_from
stpcpy_from-terminated [] s rest i h lt = absurd (omega arith)
stpcpy_from-terminated (d ∷ dest) [] rest i h lt = ground arith
stpcpy_from-terminated (d ∷ dest) (c ∷ s) rest i (h, t) lt =
    rw (==-ne c 0 h, stpcpy_from-terminated dest s rest (i + 1) t (omega arith)) (ground arith)

-- `stpcpy` of a string into a destination with room leaves the same destination as `strcpy`, and
-- answers the index of the terminator there.
pub stpcpy-strcpy :
    (dest s rest : List ℕ)
    → AllNonzero s
    → length s < length dest
    → (copy : List ℕ) × (strcpy dest (terminated s rest) ≡ some copy)
      × (stpcpy dest (terminated s rest) ≡ some (length s, copy))
unfolding stpcpy
stpcpy-strcpy dest s rest h lt = (
  terminated s (drop (suc (length s)) dest),
  strcpy-terminated dest s rest h lt,
  stpcpy_from-terminated dest s rest 0 h lt
      ∙ ap (λ n. some (n, terminated s (drop (suc (length s)) dest))) (omega arith),
)

pad-zeros :
    (dest : List ℕ) (n : ℕ) → n ≤ length dest → pad dest n ≡ some (replicate n 0 ++ drop n dest)
unfolding pad
pad-zeros dest zero h = refl
pad-zeros [] (suc n) h = absurd (omega arith)
pad-zeros (d ∷ dest) (suc n) h = rw (pad-zeros dest n (omega arith))

-- `strncpy` into a destination of at least `n` bytes writes exactly `n`: the first `n` of the
-- string, then zeros for those that the string does not fill. A string of `n` bytes or more is left
-- without a terminator.
pub strncpy-terminated :
    (dest s rest : List ℕ) (n : ℕ)
    → AllNonzero s
    → n ≤ length dest
    → strncpy dest (terminated s rest) n
      ≡ some (take n s ++ (replicate (n - length s) 0 ++ drop n dest))
unfolding strncpy
strncpy-terminated dest s rest zero h le =
    ap (λ n. some (replicate n 0 ++ dest)) {x = 0} {y = 0 - length s} (omega arith)
strncpy-terminated [] s rest (suc n) h le = absurd (omega arith)
strncpy-terminated (d ∷ dest) [] rest (suc n) h le =
    pad-zeros (0 ∷ dest) (suc n) le
    ∙ ap (λ m. some (replicate m 0 ++ drop n dest)) {x = suc n} {y = suc n - 0} (omega arith)
strncpy-terminated (d ∷ dest) (c ∷ s) rest (suc n) (h, t) le =
    rw (==-ne c 0 h, strncpy-terminated dest s rest n t (omega arith))
      (ap (λ m. some (c ∷ (take n s ++ (replicate m 0 ++ drop n dest)))) {x = n - length s}
        {y = suc n - suc (length s)} (omega arith))

strnlen_from-unterminated :
    (s : List ℕ) (i : ℕ) → AllNonzero s → strnlen_from s i (i + length s) ≡ none
unfolding strnlen_from
strnlen_from-unterminated [] i h = refl
strnlen_from-unterminated (c ∷ s) i (h, t) = rw (==-ne c 0 h) (
    ground (
      arith,
      ap (strnlen_from s (i + 1)) (moved i (length s)),
      strnlen_from-unterminated s (i + 1) t,
    ))
  where
    moved : (i n : ℕ) → i + suc n ≡ i + 1 + n
    moved i n = omega arith

-- `strnlen` reads one byte too many: on an object of `len` bytes with no terminator it reads the
-- byte behind the object.
pub strnlen-overrun : (s : List ℕ) → AllNonzero s → strnlen s (length s) ≡ none
unfolding strnlen
strnlen-overrun s h = ap (strnlen_from s 0) (omega arith) ∙ strnlen_from-unterminated s 0 h
