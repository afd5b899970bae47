-- ===== src/Path/Elements.antt =====
-- What the path names of kernel/fs.c mean: the elements between the slashes.
use ntu_sc2005_xv.Prelude.{
  ℕ, zero, suc, ◌<◌, ◌≡◌, ◌≢◌, refl, ◌∙◌, ap, some, List, [], ◌∷◌, ◌++◌, length, take, replicate,
  map, arith,
}
use ntu_sc2005_xv.Path.{dirsiz, slash, skip_slashes, split_elem, skipelem, names}

-- A path is elements, each after some slashes, and slashes at its end.
abbrev pub path_of : List (ℕ × List ℕ) → ℕ → List ℕ
path_of [] k = replicate k slash
path_of ((j, e) ∷ ps) k = replicate j slash ++ (e ++ path_of ps k)

abbrev pub NoSlash : List ℕ → Type 0
NoSlash [] = Unit
NoSlash (c ∷ cs) = (c ≢ slash) × NoSlash cs

-- Elements are not empty and have no slash, and there is a slash before each that follows another.
abbrev pub Follow : List (ℕ × List ℕ) → Type 0
Follow [] = Unit
Follow ((j, e) ∷ ps) = (0 < j) × (e ≢ []) × NoSlash e × Follow ps

abbrev pub IsPath : List (ℕ × List ℕ) → Type 0
IsPath [] = Unit
IsPath ((j, e) ∷ ps) = (e ≢ []) × NoSlash e × Follow ps

skip_replicate : (j : ℕ) (xs : List ℕ) → skip_slashes (replicate j slash ++ xs) ≡ skip_slashes xs
unfolding skip_slashes
skip_replicate zero xs = refl
skip_replicate (suc j) xs = skip_replicate j xs

skip_twice : (xs : List ℕ) → skip_slashes (skip_slashes xs) ≡ skip_slashes xs
unfolding skip_slashes
skip_twice [] = refl
skip_twice (c ∷ xs) = ground (arith, skip_twice xs)

-- An element ends at the end of the path or before a slash.
abbrev Ends : List ℕ → Type 0
Ends [] = Unit
Ends (c ∷ cs) = c ≡ slash

split_elem_lem : (e rest : List ℕ) → NoSlash e → Ends rest → split_elem (e ++ rest) ≡ (e, rest)
unfolding split_elem
split_elem_lem [] [] n h = refl
split_elem_lem [] (c ∷ rest) n h = ground (arith, h)
split_elem_lem (c ∷ e) rest n h = ground (arith, n.0, split_elem_lem e rest n.1 h)

Ends-path_of : (ps : List (ℕ × List ℕ)) (k : ℕ) → Follow ps → Ends (path_of ps k)
Ends-path_of [] zero f = tt
Ends-path_of [] (suc k) f = refl
Ends-path_of ((zero, e) ∷ ps) k f = absurd (omega (arith, f.0))
Ends-path_of ((suc j, e) ∷ ps) k f = refl

skip_element : (c : ℕ) (xs : List ℕ) → c ≢ slash → skip_slashes (c ∷ xs) ≡ c ∷ xs
unfolding skip_slashes
skip_element c xs n = ground (arith, n)

skipelem_lem :
    (j : ℕ) (e rest : List ℕ)
    → e ≢ []
    → NoSlash e
    → Ends rest
    → skipelem (replicate j slash ++ (e ++ rest)) ≡ some (take dirsiz e, skip_slashes rest)
unfolding skipelem
skipelem_lem j [] rest ne n h = absurd (ne refl)
skipelem_lem j (c ∷ e) rest ne n h =
    rw
      (
        skipelem,
        skip_replicate j (c ∷ e ++ rest),
        skip_element c (e ++ rest) n.0,
        split_elem_lem (c ∷ e) rest n h,
      )
      refl

-- Leading slashes make no difference.
names-skip_slashes : (fuel : ℕ) (path : List ℕ) → names fuel (skip_slashes path) ≡ names fuel path
unfolding names skipelem
names-skip_slashes zero path = refl
names-skip_slashes (suc fuel) path = rw (names, skipelem, skip_twice path) refl

skip_all : (k : ℕ) → skip_slashes (replicate k slash) ≡ []
unfolding skip_slashes
skip_all zero = refl
skip_all (suc k) = skip_all k

names_none : (fuel k : ℕ) → names fuel (replicate k slash) ≡ []
unfolding names skipelem
names_none zero k = refl
names_none (suc fuel) k = rw (names, skipelem, skip_all k) refl

Follow-IsPath : (ps : List (ℕ × List ℕ)) → Follow ps → IsPath ps
Follow-IsPath [] f = tt
Follow-IsPath ((j, e) ∷ ps) f = (f.1, f.2, f.3)

-- Going through a path name by name visits its elements, in order and each cut off at DIRSIZ bytes,
-- however many slashes stand before, between and after them, and needs one round for each element.
pub names-path_of :
    (ps : List (ℕ × List ℕ)) (k fuel : ℕ)
    → IsPath ps
    → length ps < fuel
    → names fuel (path_of ps k) ≡ map (λ (p : ℕ × List ℕ). take dirsiz p.1) ps
unfolding names
names-path_of ps k zero h lt = absurd (omega arith)
names-path_of [] k (suc fuel) h lt = names_none (suc fuel) k
names-path_of ((j, e) ∷ ps) k (suc fuel) h lt =
    rw (names, skipelem_lem j e (path_of ps k) h.0 h.1 (Ends-path_of ps k h.2))
      (ap (λ ns. take dirsiz e ∷ ns)
        (names-skip_slashes fuel (path_of ps k)
          ∙ names-path_of ps k fuel (Follow-IsPath ps h.2) (omega arith)))
