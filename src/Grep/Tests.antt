-- ===== src/Grep/Tests.antt =====
-- user/grep.c on small patterns and files.
use ntu_sc2005_xv.Prelude.{ℕ, ◌≡◌, ◌↔◌, refl, arith, true, false, List, [], ◌∷◌, replicate}
use ntu_sc2005_xv.Grep.{
  matchstar, matchhere, match_loop, match_re, find_newline, line_loop, grep_loop, grep,
}
use ntu_sc2005_xv.Grep.Matching.{Means, match_re_lem}
use ntu_sc2005_xv.Grep.Reads.{text_of, selected, grep_lem}

-- ^a.*c$
abbrev pattern : List ℕ
pattern = b'^' ∷ b'a' ∷ b'.' ∷ b'*' ∷ b'c' ∷ b'$' ∷ []

abbrev abbc : List ℕ
abbc = b'a' ∷ b'b' ∷ b'b' ∷ b'c' ∷ []

match_re_lem_example : (match_re pattern abbc ≡ true) ↔ Means pattern abbc
match_re_lem_example = match_re_lem pattern abbc

matches : match_re pattern abbc ≡ true
unfolding match_re match_loop matchhere matchstar
matches = refl

no_match : match_re pattern (b'b' ∷ abbc) ≡ false
unfolding match_re match_loop matchhere matchstar
no_match = refl

anywhere : match_re (b'b' ∷ b'c' ∷ []) abbc ≡ true
unfolding match_re match_loop matchhere matchstar
anywhere = refl

-- A file of two lines, read byte by byte.
abbrev two_lines : List (List ℕ)
two_lines = (b'b' ∷ b'c' ∷ []) ∷ (b'a' ∷ b'c' ∷ []) ∷ []

grep_lem_example : grep pattern (replicate 6 1) (text_of two_lines) ≡ selected pattern two_lines
grep_lem_example =
    grep_lem pattern (replicate 6 1) two_lines
      (omega arith, (omega arith, (omega arith, (omega arith, (omega arith, (omega arith, tt))))))
      (omega arith)
      (
        (((omega arith, omega arith), ((omega arith, omega arith), tt)), omega arith),
        ((((omega arith, omega arith), ((omega arith, omega arith), tt)), omega arith), tt),
      )

prints_one : grep pattern (4 ∷ 2 ∷ 9 ∷ []) (text_of two_lines) ≡ b'a' ∷ b'c' ∷ 10 ∷ []
unfolding grep grep_loop line_loop find_newline match_re match_loop matchhere matchstar
prints_one = refl
