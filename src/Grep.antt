-- ===== src/Grep.antt =====
-- user/grep.c. A string is the list of its bytes before the NUL. `read` of the kernel is the number
-- of bytes that each call would return, which the size of the buffer limits.
pub mod Matching
pub mod Reads
mod Tests
use ntu_sc2005_xv.Prelude.{
  ℕ, zero, suc, ◌+◌, ◌-◌, min, Bool, true, false, not, ◌&&◌, ◌||◌, Option, none, some, List, [],
  ◌∷◌, ◌++◌, length, take, drop, ◌==◌, if◌then◌else◌,
}

abbrev pub caret : ℕ
caret = b'^'

abbrev pub dot : ℕ
dot = b'.'

abbrev pub star : ℕ
star = b'*'

abbrev pub dollar : ℕ
dollar = b'$'

abbrev pub newline : ℕ
newline = 10

-- The loop of `matchstar`, with `here` for `matchhere` of the rest of the pattern.
pub matchstar : (List ℕ → Bool) → ℕ → List ℕ → Bool
matchstar here c [] = here []
matchstar here c (t ∷ text) =
    let further = matchstar here c text in
    if here (t ∷ text) then true else if t == c || c == dot then further else false

abbrev pub is_end : List ℕ → Bool
is_end [] = true
is_end (t ∷ text) = false

-- `*text!='\0' && (re[0]=='.' || re[0]==*text)`, and what then matches the text after it
abbrev pub match_one : (List ℕ → Bool) → ℕ → List ℕ → Bool
match_one here c [] = false
match_one here c (t ∷ text) = if c == dot || c == t then here text else false

pub matchhere : List ℕ → List ℕ → Bool
matchhere [] text = true
matchhere (c ∷ []) text = if c == dollar then is_end text else match_one (λ t. true) c text
matchhere (c ∷ d ∷ re) text =
    if d == star
    then matchstar (λ t. matchhere re t) c text
    else match_one (λ t. matchhere (d ∷ re) t) c text

-- The loop of `match` over the ends of the text.
pub match_loop : List ℕ → List ℕ → Bool
match_loop re [] = matchhere re []
match_loop re (t ∷ text) =
    let further = match_loop re text in if matchhere re (t ∷ text) then true else further

pub match_re : List ℕ → List ℕ → Bool
match_re [] text = match_loop [] text
match_re (c ∷ re) text = if c == caret then matchhere re text else match_loop (c ∷ re) text

-- `strchr(p, '\n')`: the bytes before the newline, and those after it
pub find_newline : List ℕ → Option (List ℕ × List ℕ)
find_newline [] = none
find_newline (c ∷ p) = elim (find_newline p) [
  | none ↦ if c == newline then some ([], p) else none
  | some (l, q) ↦ if c == newline then some ([], p) else if c == 0 then none else some (c ∷ l, q)
]

-- The inner loop of `grep` over the bytes of the buffer from `p` on, with fuel for its lines: what it
-- writes, and what is left of the buffer.
pub line_loop : ℕ → List ℕ → List ℕ → List ℕ × List ℕ
line_loop zero pattern p = ([], p)
line_loop (suc fuel) pattern p = elim (find_newline p) [
  | none ↦ ([], p)
  | some (l, q) ↦
      let (out, left) = line_loop fuel pattern q in
      (if match_re pattern l then l ++ newline ∷ out else out, left)
]

-- sizeof(buf)
abbrev pub buf_size : ℕ
buf_size = 1024

-- The outer loop of `grep`, for the `sizes` that the reads would return: `kept` is the start of the
-- buffer, of `m` bytes, and `input` the rest of the file.
pub grep_loop : List ℕ → List ℕ → List ℕ → List ℕ → List ℕ
grep_loop pattern [] kept input = []
grep_loop pattern (size ∷ sizes) kept input =
    let n = min size (buf_size - length kept - 1) in
    let (out, left) = line_loop buf_size pattern (kept ++ take n input) in
    let further = grep_loop pattern sizes left (drop n input) in
    if length (take n input) == 0 then [] else out ++ further

pub grep : List ℕ → List ℕ → List ℕ → List ℕ
grep pattern sizes input = grep_loop pattern sizes [] input
