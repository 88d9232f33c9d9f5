-- ===== src/Libk/Strings/Finds.antt =====
-- Searches for a byte: `strchr` and `strrchr` of libk/string.c.
use os0_kernel.Prelude.{
  ℕ, ◌+◌, ◌≤◌, ◌≡◌, ◌≢◌, refl, false, Option, none, some, List, [], ◌∷◌, arith, ==-ne,
  if◌then◌else◌,
}
use os0_kernel.Libk.Strings.{is_char, strchr_from, strchr, strrchr_from, strrchr}
use os0_kernel.Libk.Strings.Copies.{AllNonzero, terminated}

-- The first and the last index, `i` on, of a byte that matches; `none` if there is none.
pub first_index : List ℕ → ℕ → ℕ → Option ℕ
first_index [] c i = none
first_index (x ∷ s) c i = if is_char x c then some i else first_index s c (i + 1)

pub last_index : List ℕ → ℕ → ℕ → Option ℕ → Option ℕ
last_index [] c i save = save
last_index (x ∷ s) c i save = last_index s c (i + 1) (if is_char x c then some i else save)

zero_is_char : (c : ℕ) → c ≢ 0 → is_char 0 c ≡ false
zero_is_char c ne = ground arith

strchr_from-terminated :
    (s rest : List ℕ) (c i : ℕ)
    → AllNonzero s
    → c ≢ 0
    → strchr_from (terminated s rest) c i ≡ some (first_index s c i)
unfolding strchr_from first_index
strchr_from-terminated [] rest c i h ne = rw (zero_is_char c ne) refl
strchr_from-terminated (x ∷ s) rest c i (h, t) ne =
    ground (arith, ==-ne x 0 h, strchr_from-terminated s rest c (i + 1) t ne)

-- `strchr` of a byte that is no terminator, in a string, answers the index of its first occurrence,
-- or NULL where there is none, and reads nothing behind the terminator.
pub strchr-first_index :
    (s rest : List ℕ) (c : ℕ)
    → AllNonzero s
    → c ≢ 0
    → strchr (terminated s rest) c ≡ some (first_index s c 0)
unfolding strchr
strchr-first_index s rest c h ne = strchr_from-terminated s rest c 0 h ne

strrchr_from-terminated :
    (s rest : List ℕ) (c i : ℕ) (save : Option ℕ)
    → AllNonzero s
    → c ≢ 0
    → strrchr_from (terminated s rest) c i save ≡ some (last_index s c i save)
unfolding strrchr_from last_index
strrchr_from-terminated [] rest c i save h ne = rw (zero_is_char c ne) refl
strrchr_from-terminated (x ∷ s) rest c i save (h, t) ne = ground (
  arith,
  ==-ne x 0 h,
  strrchr_from-terminated s rest c (i + 1) (if is_char x c then some i else save) t ne,
)

-- `strrchr` of a byte that is no terminator, in a string, answers the index of its last occurrence,
-- or NULL where there is none, and reads nothing behind the terminator.
pub strrchr-last_index :
    (s rest : List ℕ) (c : ℕ)
    → AllNonzero s
    → c ≢ 0
    → strrchr (terminated s rest) c ≡ some (last_index s c 0 none)
unfolding strrchr
strrchr-last_index s rest c h ne = strrchr_from-terminated s rest c 0 none h ne

-- A byte from 128 on is not found, though it stands in the string.
first_index-high : (s : List ℕ) (c i : ℕ) → 128 ≤ c → first_index s c i ≡ none
unfolding first_index
first_index-high [] c i h = refl
first_index-high (x ∷ s) c i h = ground (arith, first_index-high s c (i + 1) h)
