-- ===== src/Fs/Path/Twice.antt =====
-- Paths that `vfs_path_resolve` of fs/path.c leaves as they are, and paths of one name.
use mathlib.Core.List.{append_assoc}
use os0_kernel.Prelude.{
  ℕ, suc, ◌+◌, ◌≡◌, refl, ◌∙◌, ap, sym, true, false, ◌||◌, some, List, [], ◌∷◌, ◌++◌, arith, length,
  inl, inr, Bool-cases,
}
use os0_kernel.Fs.Path.{
  components, is_dot, is_dot_dot, is_empty, Built, larger, append_name, round, rounds, absolute,
  room, finished, path_resolve,
}
use os0_kernel.Fs.Path.Stacks.{
  NoSlash, AllNoSlash, spelled, parent, walked, components-AllNoSlash, length-append_name,
}
use os0_kernel.Fs.Path.Resolved.{
  built, canonical, components-slash, rounds-start, append_name-built, walked-start,
  trimmed-canonical, root_length, path_resolve-canonical,
}

-- A name that is put on the stack
pub record Plain (name : List ℕ) : Type 0 where
  pub slashless : NoSlash name
  pub other : (is_empty name || is_dot name) ≡ false
  pub down : is_dot_dot name ≡ false

abbrev AllPlain : List (List ℕ) → Type 0
AllPlain [] = Unit
AllPlain (name ∷ names) = Plain name × AllPlain names

components-append :
    (name s : List ℕ) → NoSlash name → components (name ++ (b'/' ∷ s)) ≡ name ∷ components s
unfolding components
components-append [] s h = components-slash s
components-append (c ∷ name) s (h, hs) = rw (components-append name s hs, components, h) refl

components-NoSlash : (name : List ℕ) → NoSlash name → components name ≡ name ∷ []
unfolding components
components-NoSlash [] h = refl
components-NoSlash (c ∷ name) (h, hs) = rw (components-NoSlash name hs, components, h) refl

-- The names of a stack before others, in the order of the path
abbrev onto : List (List ℕ) → List (List ℕ) → List (List ℕ)
onto [] path = path
onto (name ∷ names) path = onto names (name ∷ path)

components-spelled :
    (names : List (List ℕ)) (s : List ℕ)
    → AllPlain names
    → components (spelled names ++ s) ≡ [] ∷ onto names (components s)
unfolding spelled
components-spelled [] s h = components-slash s
components-spelled (name ∷ names) s (h, hs) =
    ap components (
      append_assoc (spelled names) (name ++ (b'/' ∷ [])) s
      ∙ ap (λ t. spelled names ++ t) (append_assoc name (b'/' ∷ []) s))
    ∙ components-spelled names (name ++ (b'/' ∷ s)) hs
    ∙ ap (λ path. [] ∷ onto names path) (components-append name s h.slashless)

walked-Plain_cons :
    (names path : List (List ℕ)) (name : List ℕ)
    → Plain name
    → walked names (name ∷ path) ≡ walked (name ∷ names) path
unfolding walked
walked-Plain_cons names path name h = rw (h.other, h.down) refl

walked-onto :
    (names path : List (List ℕ)) → AllPlain names → walked [] (onto names path) ≡ walked names path
walked-onto [] path h = refl
walked-onto (name ∷ names) path (h, hs) =
    walked-onto names (name ∷ path) hs ∙ walked-Plain_cons names path name h

walked_root : walked [] (components (b'/' ∷ [])) ≡ []
unfolding walked components
walked_root = refl

walked_end : (names : List (List ℕ)) → walked names [] ≡ names
unfolding walked
walked_end names = refl

-- The names of the path of a stack
walked-canonical :
    (names : List (List ℕ)) → AllPlain names → walked [] (components (canonical names)) ≡ names
unfolding canonical
walked-canonical [] h = walked_root
walked-canonical (name ∷ names) (h, hs) =
    ap (walked []) (components-spelled names name hs)
    ∙ walked-start (onto names (components name))
    ∙ walked-onto names (components name) hs
    ∙ ap (walked names) (components-NoSlash name h.slashless)
    ∙ walked-Plain_cons names [] name h
    ∙ walked_end (name ∷ names)

walked-AllPlain :
    (path names : List (List ℕ)) → AllPlain names → AllNoSlash path → AllPlain (walked names path)
unfolding walked
walked-AllPlain [] names h k = h
walked-AllPlain (name ∷ path) names h (k, ks) = elim (Bool-cases (is_empty name || is_dot name)) [
  | inl nothing ↦ rw nothing (walked-AllPlain path names h ks)
  | inr other ↦ elim (Bool-cases (is_dot_dot name)) [
    | inl up ↦ rw (other, up) (walked-AllPlain path (parent names) (parents names h) ks)
    | inr down ↦
        rw (other, down)
          (walked-AllPlain path (name ∷ names)
            (record { slashless = k; other = other; down = down }, h) ks)
  ]
]
  where
    parents : (names : List (List ℕ)) → AllPlain names → AllPlain (parent names)
    parents [] h = tt
    parents (name ∷ names) (h, hs) = hs

spelled-start : (names : List (List ℕ)) → (s : List ℕ) × (spelled names ≡ b'/' ∷ s)
unfolding spelled
spelled-start [] = ([], refl)
spelled-start (name ∷ names) =
    let (s, e) = spelled-start names in
    (s ++ (name ++ (b'/' ∷ [])), ap (λ t. t ++ (name ++ (b'/' ∷ []))) e)

canonical-start : (names : List (List ℕ)) → (s : List ℕ) × (canonical names ≡ b'/' ∷ s)
unfolding canonical
canonical-start [] = ([], refl)
canonical-start (name ∷ names) =
    let (s, e) = spelled-start names in (s ++ name, ap (λ t. t ++ name) e)

-- What `vfs_path_resolve` answers for a path that starts with a slash, or is taken from a working
-- directory that does, is left as it is when it is resolved again, from any directory.
pub path_resolve-twice :
    (cwd other path s : List ℕ)
    → absolute cwd path ≡ b'/' ∷ s
    → (text : List ℕ) × (w : ℕ) × (w' : ℕ) × (path_resolve cwd path true
        ≡ some (some (record { text = text; written = w })))
      × (path_resolve other text true ≡ some (some (record { text = text; written = w' })))
path_resolve-twice cwd other path s e =
    let (w, eq, p) = path_resolve-canonical cwd path s e in
    let (s', e') = canonical-start names in
    let whole : absolute other (canonical names) ≡ canonical names =
      ap (absolute other) e' ∙ sym e' in
    let (w', eq', p') = path_resolve-canonical other (canonical names) s' (whole ∙ e') in
    (
      canonical names,
      w,
      w',
      eq,
      eq'
          ∙ ap
              (λ a.
                some (some (record { text = canonical (walked [] (components a)); written = w' })))
              whole
          ∙ ap (λ st. some (some (record { text = canonical st; written = w' })))
              (walked-canonical names (
                walked-AllPlain (components (absolute cwd path)) [] tt
                  (components-AllNoSlash (absolute cwd path)))),
    )
  where
    names : List (List ℕ)
    names = walked [] (components (absolute cwd path))

round-Plain : (r : Built) (name : List ℕ) → Plain name → round r name ≡ some (append_name r name)
unfolding round
round-Plain r name h = rw (h.other, h.down) refl

rounds-Plain :
    (r : Built) (name : List ℕ) → Plain name → rounds r (name ∷ []) ≡ some (append_name r name)
unfolding rounds
rounds-Plain r name h = rw (round-Plain r name h, rounds) refl

-- A single name that is no `.` or `..`, behind a slash: the path is its own result, and the slash
-- and the terminator behind the name go one byte beyond the room for it.
pub path_resolve-overruns :
    (cwd name : List ℕ)
    → Plain name
    → path_resolve cwd (b'/' ∷ name) true
      ≡ some (some (record { text = b'/' ∷ name; written = room cwd (b'/' ∷ name) + 1 }))
unfolding path_resolve spelled canonical
path_resolve-overruns cwd name h =
    ap (λ path. finished (rounds (built [] 2) path))
      (components-slash name ∙ ap (λ path. [] ∷ path) (components-NoSlash name h.slashless))
    ∙ ap finished
        (rounds-start (name ∷ []) ∙ rounds-Plain (built [] 2) name h ∙ append_name-built [] name 2)
    ∙ ap (λ r. some (some r)) (trimmed-canonical (name ∷ []) _)
    ∙ ap (λ w. some (some (record { text = b'/' ∷ name; written = w }))) count
  where
    count : larger 2 (length (spelled (name ∷ [])) + 1) ≡ suc (length name) + 1 + 1
    count = ground (arith, length-append_name [] name, root_length)
