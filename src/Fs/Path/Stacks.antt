-- ===== src/Fs/Path/Stacks.antt =====
-- The text of `vfs_path_resolve` in fs/path.c, as the text of a stack of names.
use mathlib.Core.List.{append_assoc, append-nil}
use os0_kernel.Prelude.{
  ℕ, ◌+◌, ◌-◌, ◌≤◌, ◌≡◌, refl, ◌∙◌, ap, sym, false, ◌||◌, none, some, List, [], ◌∷◌, ◌++◌, arith,
  ◌==◌, if◌then◌else◌, length, take, length-append, take-length-append, inl, inr, Bool-cases,
}
use os0_kernel.Fs.Path.{components, is_dot, is_dot_dot, is_empty, to_slash, ascend}

abbrev pub NoSlash : List ℕ → Type 0
NoSlash [] = Unit
NoSlash (c ∷ s) = ((c == b'/') ≡ false) × NoSlash s

abbrev pub AllNoSlash : List (List ℕ) → Type 0
AllNoSlash [] = Unit
AllNoSlash (s ∷ ss) = NoSlash s × AllNoSlash ss

-- A stack of names, the last one of the path first, as text: each name with a slash behind it
unfoldable pub spelled : List (List ℕ) → List ℕ
spelled [] = b'/' ∷ []
spelled (name ∷ names) = spelled names ++ (name ++ (b'/' ∷ []))

-- The meaning of the names of a path, in order: `.` and empty names mean nothing, `..` takes the
-- last name away, where there is one, and any other name is put on the stack.
abbrev pub parent : List (List ℕ) → List (List ℕ)
parent [] = []
parent (name ∷ names) = names

unfoldable pub walked : List (List ℕ) → List (List ℕ) → List (List ℕ)
walked names [] = names
walked names (name ∷ path) =
    walked
      (if is_empty name || is_dot name
        then names
        else if is_dot_dot name
        then parent names
        else name ∷ names)
      path

pub components-AllNoSlash : (s : List ℕ) → AllNoSlash (components s)
unfolding components
components-AllNoSlash [] = (tt, tt)
components-AllNoSlash (c ∷ s) = with_first c (components s) (components-AllNoSlash s)
  where
    with_first :
        (c : ℕ) (names : List (List ℕ))
        → AllNoSlash names
        → AllNoSlash (elim names as (λ x. List (List ℕ)) [
          | [] ↦ []
          | name ∷ names ↦ if c == b'/' then [] ∷ (name ∷ names) else (c ∷ name) ∷ names
        ])
    with_first c [] h = tt
    with_first c (name ∷ names) (h, hs) = elim (Bool-cases (c == b'/')) [
      | inl slash ↦ rw slash (tt, (h, hs))
      | inr other ↦ rw other ((other, h), hs)
    ]

to_slash-NoSlash : (s : List ℕ) → NoSlash s → to_slash s ≡ none
unfolding to_slash
to_slash-NoSlash [] h = refl
to_slash-NoSlash (c ∷ s) (h, hs) = rw (to_slash-NoSlash s hs, h) refl

to_slash-append :
    (s name : List ℕ) → NoSlash name → to_slash (s ++ (b'/' ∷ name)) ≡ some (s ++ (b'/' ∷ []))
unfolding to_slash
to_slash-append [] name h = rw (to_slash-NoSlash name h) refl
to_slash-append (c ∷ s) name h = rw (to_slash-append s name h) refl

-- All such texts end in a slash.
pub spelled-slash : (names : List (List ℕ)) → (s : List ℕ) × (spelled names ≡ s ++ (b'/' ∷ []))
unfolding spelled
spelled-slash [] = ([], refl)
spelled-slash (name ∷ names) =
    (spelled names ++ name, sym (append_assoc (spelled names) name (b'/' ∷ [])))

to_slash-spelled :
    (names : List (List ℕ)) (name : List ℕ)
    → NoSlash name
    → to_slash (spelled names ++ name) ≡ some (spelled names)
to_slash-spelled names name h =
    let (s, e) = spelled-slash names in
    ap (λ t. to_slash (t ++ name)) e
    ∙ ap to_slash (append_assoc s (b'/' ∷ []) name)
    ∙ to_slash-append s name h
    ∙ ap some (sym e)

whole : (names : List (List ℕ)) → to_slash (spelled names) ≡ some (spelled names)
whole names = ap to_slash (sym (append-nil (spelled names))) ∙ to_slash-spelled names [] tt

pub length-spelled : (names : List (List ℕ)) → 1 ≤ length (spelled names)
length-spelled names =
    let (s, e) = spelled-slash names in omega (arith, ap length e, length-append s (b'/' ∷ []))

pub length-append_name :
    (names : List (List ℕ)) (name : List ℕ)
    → length (spelled (name ∷ names)) ≡ length (spelled names) + (length name + 1)
unfolding spelled
length-append_name names name =
    length-append (spelled names) (name ++ (b'/' ∷ []))
    ∙ ap (λ n. length (spelled names) + n) (length-append name (b'/' ∷ []))

pub long_name :
    (names : List (List ℕ)) (name : List ℕ) → (length (spelled (name ∷ names)) == 1) ≡ false
long_name names name = ground (arith, length-append_name names name, length-spelled names)

-- The text without its last slash
pub front-spelled :
    (names : List (List ℕ)) (name : List ℕ)
    → take (length (spelled (name ∷ names)) - 1) (spelled (name ∷ names)) ≡ spelled names ++ name
unfolding spelled
front-spelled names name =
    ap (λ n. take n (spelled (name ∷ names))) {x = length (spelled (name ∷ names)) - 1}
      {y = length (spelled names ++ name)}
      (omega (arith, length-append_name names name, length-append (spelled names) name))
    ∙ ap (take (length (spelled names ++ name)))
        (sym (append_assoc (spelled names) name (b'/' ∷ [])))
    ∙ take-length-append (spelled names ++ name) (b'/' ∷ [])

-- The root has no parent.
ascend_root :
    (w : ℕ)
    → ascend (record { text = spelled []; written = w })
      ≡ some (record { text = spelled []; written = w })
unfolding ascend to_slash spelled
ascend_root w = refl

pub ascend-spelled :
    (names : List (List ℕ)) (w : ℕ)
    → AllNoSlash names
    → ascend (record { text = spelled names; written = w })
      ≡ some (record { text = spelled (parent names); written = w })
unfolding ascend
ascend-spelled [] w h = ascend_root w
ascend-spelled (name ∷ names) w (h, hs) =
    rw
      (
        whole (name ∷ names),
        ascend,
        long_name names name,
        front-spelled names name,
        to_slash-spelled names name h,
      )
      refl
