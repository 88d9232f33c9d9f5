-- ===== src/Fs/Path/Resolved.antt =====
-- What `vfs_path_resolve` of fs/path.c answers, and how much of its buffer it writes.
use os0_kernel.Prelude.{
  ℕ, ◌+◌, ◌≤◌, ◌≡◌, refl, ◌∙◌, ap, sym, true, ◌||◌, some, List, [], ◌∷◌, ◌++◌, arith, ◌==◌,
  if◌then◌else◌, length, inl, inr, Bool-cases,
}
use os0_kernel.Fs.Path.{
  components, is_dot, is_dot_dot, is_empty, is_slash_last, Built, larger, append_name, round,
  rounds, trimmed, absolute, room, finished, path_resolve,
}
use os0_kernel.Fs.Path.Stacks.{
  NoSlash, AllNoSlash, spelled, spelled-slash, length-append_name, long_name, front-spelled, parent,
  walked, components-AllNoSlash, ascend-spelled,
}

abbrev pub built : List (List ℕ) → ℕ → Built
built names w = record { text = spelled names; written = w }

-- The bytes of names with a slash behind each
abbrev total : List (List ℕ) → ℕ
total [] = 0
total (name ∷ names) = length name + 1 + total names

parent-AllNoSlash : (names : List (List ℕ)) → AllNoSlash names → AllNoSlash (parent names)
parent-AllNoSlash [] h = tt
parent-AllNoSlash (name ∷ names) (h, hs) = hs

length-parent : (names : List (List ℕ)) → length (spelled (parent names)) ≤ length (spelled names)
length-parent [] = omega arith
length-parent (name ∷ names) = omega (arith, length-append_name names name)

-- The names that a round leaves
abbrev next : List (List ℕ) → List ℕ → List (List ℕ)
next names name =
    if is_empty name || is_dot name
    then names
    else if is_dot_dot name
    then parent names
    else name ∷ names

pub append_name-built :
    (names : List (List ℕ)) (name : List ℕ) (w : ℕ)
    → some (append_name (built names w) name)
      ≡ some (built (name ∷ names) (larger w (length (spelled (name ∷ names)) + 1)))
unfolding append_name spelled
append_name-built names name w = refl

-- A round of the loop, with the limit `limit` on the bytes written
round-next :
    (names : List (List ℕ)) (name : List ℕ) (w limit more : ℕ)
    → AllNoSlash names
    → NoSlash name
    → w ≤ limit
    → length (spelled names) + (length name + 1 + more) + 1 ≤ limit
    → (w' : ℕ) × (round (built names w) name ≡ some (built (next names name) w'))
      × (w' ≤ limit)
      × AllNoSlash (next names name)
      × (length (spelled (next names name)) + more + 1 ≤ limit)
unfolding round
round-next names name w limit more hs h p q = elim (Bool-cases (is_empty name || is_dot name)) [
  | inl nothing ↦ rw nothing (w, refl, p, hs, omega arith)
  | inr some_name ↦ elim (Bool-cases (is_dot_dot name)) [
    | inl up ↦
        rw (some_name, up)
          (
            w,
            ascend-spelled names w hs,
            p,
            parent-AllNoSlash names hs,
            omega (arith, length-parent names),
          )
    | inr down ↦
        rw (some_name, down)
          (
            larger w (length (spelled (name ∷ names)) + 1),
            append_name-built names name w,
            ground (arith, length-append_name names name),
            (h, hs),
            omega (arith, length-append_name names name),
          )
  ]
]

rounds-walked :
    (path : List (List ℕ)) (names : List (List ℕ)) (w limit : ℕ)
    → AllNoSlash names
    → AllNoSlash path
    → w ≤ limit
    → length (spelled names) + total path + 1 ≤ limit
    → (w' : ℕ) × (rounds (built names w) path ≡ some (built (walked names path) w')) × (w' ≤ limit)
unfolding rounds walked
rounds-walked [] names w limit h k p q = (w, refl, p)
rounds-walked (name ∷ path) names w limit h (k, ks) p q =
    let (w', e, p', h', q') = round-next names name w limit (total path) h k p q in
    let (w'', e', p'') = rounds-walked path (next names name) w' limit h' ks p' q' in
    (w'', rw (e, rounds) e', p'')

-- The path of a stack of names: a slash, or each name behind a slash
unfoldable pub canonical : List (List ℕ) → List ℕ
canonical [] = b'/' ∷ []
canonical (name ∷ names) = spelled names ++ name

is_slash_last-append : (s : List ℕ) → is_slash_last (s ++ (b'/' ∷ [])) ≡ true
is_slash_last-append [] = refl
is_slash_last-append (c ∷ []) = refl
is_slash_last-append (c ∷ (d ∷ s)) = is_slash_last-append (d ∷ s)

trimmed_root : (w : ℕ) → trimmed (built [] w) ≡ record { text = canonical []; written = w }
unfolding spelled canonical
trimmed_root w = refl

pub trimmed-canonical :
    (names : List (List ℕ)) (w : ℕ)
    → trimmed (built names w) ≡ record { text = canonical names; written = w }
unfolding canonical
trimmed-canonical [] w = trimmed_root w
trimmed-canonical (name ∷ names) w = rw (long_name names name, slash, front-spelled names name) refl
  where
    slash : is_slash_last (spelled (name ∷ names)) ≡ true
    slash = let (s, e) = spelled-slash (name ∷ names) in ap is_slash_last e ∙ is_slash_last-append s

components-cons :
    (s : List ℕ) → (name : List ℕ) × (names : List (List ℕ)) × (components s ≡ name ∷ names)
unfolding components
components-cons [] = ([], [], refl)
components-cons (c ∷ s) =
    let (name, names, e) = components-cons s in
    elim (Bool-cases (c == b'/')) [
      | inl slash ↦ ([], name ∷ names, rw (e, components, slash) refl)
      | inr other ↦ (c ∷ name, names, rw (e, components, other) refl)
    ]

pub components-slash : (s : List ℕ) → components (b'/' ∷ s) ≡ [] ∷ components s
unfolding components
components-slash s = let (name, names, e) = components-cons s in rw (e, components) refl

total-components : (s : List ℕ) → total (components s) ≡ length s + 1
unfolding components
total-components [] = refl
total-components (c ∷ s) =
    let (name, names, e) = components-cons s in
    let sum : length name + 1 + total names ≡ length s + 1 =
      ap total (sym e) ∙ total-components s in
    elim (Bool-cases (c == b'/')) [
      | inl slash ↦ rw (e, components, slash) (omega (arith, sum))
      | inr other ↦ rw (e, components, other) (omega (arith, sum))
    ]

-- The empty name before the first slash
pub rounds-start :
    (names : List (List ℕ))
    → rounds (record { text = b'/' ∷ []; written = 2 }) ([] ∷ names) ≡ rounds (built [] 2) names
unfolding rounds round spelled
rounds-start names = refl

pub walked-start : (names : List (List ℕ)) → walked [] ([] ∷ names) ≡ walked [] names
unfolding walked
walked-start names = refl

pub root_length : length (spelled []) ≡ 1
unfolding spelled
root_length = refl

-- `vfs_path_resolve` with memory answers the path of the names that are left when `.` and empty
-- names are taken out and `..` takes the name before it away, the root being its own parent; the
-- path is taken from the working directory where it does not start with a slash. From a path that
-- starts with one it writes at most one byte more than the room for its result.
pub path_resolve-canonical :
    (cwd path s : List ℕ)
    → absolute cwd path ≡ b'/' ∷ s
    → (w : ℕ) × (path_resolve cwd path true
        ≡ some (
            some (record {
              text = canonical (walked [] (components (absolute cwd path)));
              written = w;
            })))
      × (w ≤ room cwd path + 1)
unfolding path_resolve
path_resolve-canonical cwd path s e =
    let (w, eq, p) =
      rounds-walked (components s) [] 2 (length s + 3) tt (components-AllNoSlash s) (omega arith)
        (omega (arith, total-components s, root_length)) in
    (
      w,
      ap (λ a. finished (rounds (record { text = b'/' ∷ []; written = 2 }) (components a))) e
          ∙ ap (λ names. finished (rounds (record { text = b'/' ∷ []; written = 2 }) names))
              (components-slash s)
          ∙ ap finished (rounds-start (components s) ∙ eq)
          ∙ ap (λ r. some (some r)) (trimmed-canonical (walked [] (components s)) w)
          ∙ ap (λ names. some (some (record { text = canonical names; written = w })))
              (sym meaning),
      omega (arith, p, ap length e),
    )
  where
    meaning : walked [] (components (absolute cwd path)) ≡ walked [] (components s)
    meaning =
        ap (λ a. walked [] (components a)) e
        ∙ ap (walked []) (components-slash s)
        ∙ walked-start (components s)
