-- ===== src/Fs/Path.antt =====
-- fs/path.c: `vfs_path_resolve`, which makes a path absolute and removes the names `.` and `..`. A
-- string is the list of its bytes before the terminator; a read before a buffer is `none`.
pub mod Stacks
pub mod Resolved
pub mod Twice
use os0_kernel.Prelude.{
  ℕ, zero, suc, ◌+◌, ◌-◌, Bool, true, false, not, ◌&&◌, ◌||◌, Option, none, some, List, [], ◌∷◌,
  ◌++◌, ltb, ◌==◌, if◌then◌else◌, length, take,
}

-- The strings at `bufptr`, one for each round of the loop: `strchr` ends each at the next slash.
pub components : List ℕ → List (List ℕ)
components [] = [] ∷ []
components (c ∷ s) = elim (components s) [
  | [] ↦ []
  | name ∷ names ↦ if c == b'/' then [] ∷ (name ∷ names) else (c ∷ name) ∷ names
]

abbrev pub is_dot : List ℕ → Bool
is_dot [] = false
is_dot (c ∷ []) = c == b'.'
is_dot (c ∷ (d ∷ s)) = false

abbrev pub is_dot_dot : List ℕ → Bool
is_dot_dot [] = false
is_dot_dot (c ∷ []) = false
is_dot_dot (c ∷ (d ∷ [])) = c == b'.' && d == b'.'
is_dot_dot (c ∷ (d ∷ (e ∷ s))) = false

abbrev pub is_empty : List ℕ → Bool
is_empty [] = true
is_empty (c ∷ s) = false

-- The bytes up to the last slash, with it: where `strrchr` finds it
pub to_slash : List ℕ → Option (List ℕ)
to_slash [] = none
to_slash (c ∷ s) = elim (to_slash s) [
  | none ↦ if c == b'/' then some (c ∷ []) else none
  | some t ↦ some (c ∷ t)
]

-- The result while it is built: its text, and the largest number of bytes of its buffer that were
-- written so far.
pub record Built : Type 0 where
  pub text : List ℕ
  pub written : ℕ

abbrev pub larger : ℕ → ℕ → ℕ
larger a b = if ltb a b then b else a

-- The case of `..`: the text goes back to the slash before its last name.
pub ascend : Built → Option Built
ascend r = elim (to_slash r.text) [
  | none ↦ some r
  | some start ↦
      if length start == 1
      then some r
      else elim (to_slash (take (length start - 1) start)) as (λ x. Option Built) [
        | none ↦ none
        | some t ↦ some (record r { text = t })
      ]
]

-- The other names: the name, a slash and the terminator are written behind the text.
pub append_name : Built → List ℕ → Built
append_name r name =
    let text : List ℕ = r.text ++ (name ++ (b'/' ∷ [])) in
    record { text = text; written = larger r.written (length text + 1) }

-- A round of the loop
pub round : Built → List ℕ → Option Built
round r name =
    if is_empty name || is_dot name
    then some r
    else if is_dot_dot name
    then ascend r
    else some (append_name r name)

pub rounds : Built → List (List ℕ) → Option Built
rounds r [] = some r
rounds r (name ∷ names) = elim (round r name) [ none ↦ none | some r' ↦ rounds r' names ]

-- `resptr[-1] == '/'`
abbrev pub is_slash_last : List ℕ → Bool
is_slash_last [] = false
is_slash_last (c ∷ []) = c == b'/'
is_slash_last (c ∷ (d ∷ s)) = is_slash_last (d ∷ s)

-- The last slash is removed, unless it is the text.
abbrev pub trimmed : Built → Built
trimmed r = record r {
  text =
      if length r.text == 1
      then r.text
      else if is_slash_last r.text
      then take (length r.text - 1) r.text
      else r.text;
}

-- `buffer`
abbrev pub absolute : List ℕ → List ℕ → List ℕ
absolute cwd [] = cwd ++ (b'/' ∷ [])
absolute cwd (c ∷ s) = if c == b'/' then c ∷ s else cwd ++ (b'/' ∷ (c ∷ s))

-- The room for the result: `strdup` of the path, or what is allocated for both
abbrev pub room : List ℕ → List ℕ → ℕ
room cwd path = length (absolute cwd path) + 1

abbrev finished : Option Built → Option (Option Built)
finished none = none
finished (some r) = some (some (trimmed r))

-- `vfs_path_resolve`, from the path of the working directory, the path, and whether the
-- memory is there
pub path_resolve : List ℕ → List ℕ → Bool → Option (Option Built)
path_resolve cwd path memory =
    if memory
    then finished
        (rounds (record { text = b'/' ∷ []; written = 2 }) (components (absolute cwd path)))
    else some none
