-- ===== src/Path/Tests.antt =====
-- Examples of the comment on `skipelem` in kernel/fs.c.
use ntu_sc2005_xv.Prelude.{ℕ, ◌≡◌, refl, none, some, List, [], ◌∷◌, replicate, arith}
use ntu_sc2005_xv.Path.{slash, skip_slashes, split_elem, skipelem, names}
use ntu_sc2005_xv.Path.Elements.{path_of, names-path_of}

-- "///a//bb"
abbrev two_names : List (ℕ × List ℕ)
two_names = (3, b'a' ∷ []) ∷ (2, b'b' ∷ b'b' ∷ []) ∷ []

takes_first : skipelem (path_of two_names 0) ≡ some (b'a' ∷ [], b'b' ∷ b'b' ∷ [])
unfolding skipelem skip_slashes split_elem
takes_first = refl

only_slashes : skipelem (replicate 4 slash) ≡ none
unfolding skipelem skip_slashes
only_slashes = refl

names-path_of_example : names 3 (path_of two_names 1) ≡ (b'a' ∷ []) ∷ (b'b' ∷ b'b' ∷ []) ∷ []
names-path_of_example =
    names-path_of two_names 1 3
      (
        λ e. ground (arith, e),
        (omega arith, tt),
        (omega arith, λ e. ground (arith, e), (omega arith, (omega arith, tt)), tt),
      )
      (omega arith)
