-- ===== src/Libk/Strings.antt =====
-- libk/string.c: the functions on strings. A pointer is the list of the bytes from it to the end of
-- its object, and an access behind the end is `none`; source and destination do not overlap.
pub mod Copies
pub mod Compares
pub mod Finds
use mathlib.Core.Option
use os0_kernel.Prelude.{
  ℕ, zero, suc, ◌+◌, ◌-◌, ◌%◌, ◌^◌, Bool, ◌&&◌, Option, none, some, List, [], ◌∷◌, ltb, ◌==◌, ◌!=◌,
  if◌then◌else◌,
}
use os0_kernel.Prelude.Int.{ℤ, pos, negsuc}

-- The loop of `strlen`, with `i` bytes passed.
pub strlen_from : List ℕ → ℕ → Option ℕ
strlen_from [] i = none
strlen_from (c ∷ s) i = if c == 0 then some i else strlen_from s (i + 1)

-- `strlen`
pub strlen : List ℕ → Option ℕ
strlen s = strlen_from s 0

-- The loop of `strnlen`; the byte is read before the count is compared.
pub strnlen_from : List ℕ → ℕ → ℕ → Option ℕ
strnlen_from [] i len = none
strnlen_from (c ∷ s) i len = if c != 0 && ltb i len then strnlen_from s (i + 1) len else some i

-- `strnlen`
pub strnlen : List ℕ → ℕ → Option ℕ
strnlen s len = strnlen_from s 0 len

-- `stpcpy`, `i` bytes on: the index of the terminator, and the destination.
pub stpcpy_from : List ℕ → List ℕ → ℕ → Option (ℕ × List ℕ)
stpcpy_from [] src i = none
stpcpy_from (d ∷ dest) [] i = none
stpcpy_from (d ∷ dest) (c ∷ src) i =
    if c == 0
    then some (i, c ∷ dest)
    else Option.map (λ r. (r.0, c ∷ r.1)) (stpcpy_from dest src (i + 1))

pub stpcpy : List ℕ → List ℕ → Option (ℕ × List ℕ)
stpcpy dest src = stpcpy_from dest src 0

-- `strcpy`: the destination.
pub strcpy : List ℕ → List ℕ → Option (List ℕ)
strcpy [] src = none
strcpy (d ∷ dest) [] = none
strcpy (d ∷ dest) (c ∷ src) =
    if c == 0 then some (c ∷ dest) else Option.map (λ m. c ∷ m) (strcpy dest src)

-- The second loop of `strncpy`, with `n` bytes left.
pub pad : List ℕ → ℕ → Option (List ℕ)
pad dest zero = some dest
pad [] (suc n) = none
pad (d ∷ dest) (suc n) = Option.map (λ m. 0 ∷ m) (pad dest n)

-- `strncpy`: the destination.
pub strncpy : List ℕ → List ℕ → ℕ → Option (List ℕ)
strncpy dest src zero = some dest
strncpy [] src (suc n) = none
strncpy (d ∷ dest) [] (suc n) = none
strncpy (d ∷ dest) (c ∷ src) (suc n) =
    if c == 0 then pad (c ∷ dest) (suc n) else Option.map (λ m. c ∷ m) (strncpy dest src n)

-- `stpncpy`: the index of the last byte written, whatever the string's length, and the destination.
pub stpncpy : List ℕ → List ℕ → ℕ → Option (ℕ × List ℕ)
stpncpy dest src len = Option.map (λ m. ((len + 2 ^ 32 - 1) % 2 ^ 32, m)) (strncpy dest src len)

-- A number that orders bytes as `char`, which is signed, does.
abbrev pub rank : ℕ → ℕ
rank c = (c + 128) % 256

-- `strcmp`
pub strcmp : List ℕ → List ℕ → Option ℤ
strcmp [] t = none
strcmp (a ∷ s) [] = none
strcmp (a ∷ s) (b ∷ t) =
    if ltb (rank b) (rank a)
    then some (pos 1)
    else if ltb (rank a) (rank b)
    then some (negsuc 0)
    else if a == 0 && b == 0
    then some (pos 0)
    else strcmp s t

-- `strncmp`; a terminator does not end it.
pub strncmp : List ℕ → List ℕ → ℕ → Option ℤ
strncmp s t zero = some (pos 0)
strncmp [] t (suc n) = none
strncmp (a ∷ s) [] (suc n) = none
strncmp (a ∷ s) (b ∷ t) (suc n) =
    if ltb (rank b) (rank a)
    then some (pos 1)
    else if ltb (rank a) (rank b)
    then some (negsuc 0)
    else strncmp s t n

-- `*ptr == c` for an `int` that is not negative: a byte from 128 on is negative as a `char`.
abbrev pub is_char : ℕ → ℕ → Bool
is_char x c = x == c && ltb x 128

-- `strchr`, `i` bytes on: the index, or `none` for NULL, under the option for the access.
pub strchr_from : List ℕ → ℕ → ℕ → Option (Option ℕ)
strchr_from [] c i = none
strchr_from (x ∷ s) c i =
    if is_char x c then some (some i) else if x == 0 then some none else strchr_from s c (i + 1)

pub strchr : List ℕ → ℕ → Option (Option ℕ)
strchr s c = strchr_from s c 0

-- `strrchr`, `i` bytes on, with `save` the last index found.
pub strrchr_from : List ℕ → ℕ → ℕ → Option ℕ → Option (Option ℕ)
strrchr_from [] c i save = none
strrchr_from (x ∷ s) c i save =
    let rest = strrchr_from s c (i + 1) (if is_char x c then some i else save) in
    if is_char x c
    then (if c == 0 then some (some i) else rest)
    else if x == 0
    then some save
    else rest

pub strrchr : List ℕ → ℕ → Option (Option ℕ)
strrchr s c = strrchr_from s c 0 none
