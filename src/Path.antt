-- ===== src/Path.antt =====
-- The path names of kernel/fs.c: `skipelem`, and the loop that `namex` runs over it. A path is the
-- list of its bytes before the NUL.
pub mod Elements
mod Tests
use ntu_sc2005_xv.Prelude.{
  ℕ, zero, suc, Option, none, some, List, [], ◌∷◌, take, ◌==◌, if◌then◌else◌,
}

abbrev pub dirsiz : ℕ
dirsiz = 14

abbrev pub slash : ℕ
slash = b'/'

-- `while(*path == '/') path++;`
pub skip_slashes : List ℕ → List ℕ
skip_slashes [] = []
skip_slashes (c ∷ path) =
    let further = skip_slashes path in if c == slash then further else c ∷ path

-- `while(*path != '/' && *path != 0) path++;`: the element, and where it ends.
pub split_elem : List ℕ → List ℕ × List ℕ
split_elem [] = ([], [])
split_elem (c ∷ path) =
    let (s, end) = split_elem path in if c == slash then ([], c ∷ path) else (c ∷ s, end)

-- The name, cut off at DIRSIZ bytes, and the rest of the path. `none` is the null pointer.
pub skipelem : List ℕ → Option (List ℕ × List ℕ)
skipelem path = elim (skip_slashes path) [
  | [] ↦ none
  | c ∷ s ↦ let (name, end) = split_elem (c ∷ s) in some (take dirsiz name, skip_slashes end)
]

-- The names that `while((path = skipelem(path, name)) != 0)` goes through, with fuel.
pub names : ℕ → List ℕ → List (List ℕ)
names zero path = []
names (suc fuel) path = elim (skipelem path) [
  | none ↦ []
  | some (name, rest) ↦ name ∷ names fuel rest
]
