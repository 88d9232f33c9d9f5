-- ===== src/Tests/Paths.antt =====
-- Path resolution.
use os0_kernel.Prelude.{◌≡◌, ℕ, refl, ◌≤◌, ◌+◌, true, some, List, [], ◌∷◌}
use os0_kernel.Fs.Path.{path_resolve, components, absolute, room}
use os0_kernel.Fs.Path.Stacks.{walked}
use os0_kernel.Fs.Path.Resolved.{canonical, path_resolve-canonical}
use os0_kernel.Fs.Path.Twice.{Plain, path_resolve-twice, path_resolve-overruns}

-- "/", "a/../b", and "b"
abbrev root : List ℕ
root = b'/' ∷ []

abbrev climbing : List ℕ
climbing = b'a' ∷ (b'/' ∷ (b'.' ∷ (b'.' ∷ (b'/' ∷ (b'b' ∷ [])))))

abbrev name : List ℕ
name = b'b' ∷ []

name-Plain : Plain name
name-Plain = record { slashless = (refl, tt); other = refl; down = refl }

path_resolve-canonical_example :
    (w : ℕ) × (path_resolve root climbing true
      ≡ some (
          some (record {
            text = canonical (walked [] (components (absolute root climbing)));
            written = w;
          })))
    × (w ≤ room root climbing + 1)
path_resolve-canonical_example = path_resolve-canonical root climbing (b'/' ∷ climbing) refl

path_resolve-twice_example :
    (text : List ℕ) × (w : ℕ) × (w' : ℕ) × (path_resolve root climbing true
      ≡ some (some (record { text = text; written = w })))
    × (path_resolve name text true ≡ some (some (record { text = text; written = w' })))
path_resolve-twice_example = path_resolve-twice root name climbing (b'/' ∷ climbing) refl

path_resolve-overruns_example :
    path_resolve root (b'/' ∷ name) true
    ≡ some (some (record { text = b'/' ∷ name; written = room root (b'/' ∷ name) + 1 }))
path_resolve-overruns_example = path_resolve-overruns root name name-Plain
