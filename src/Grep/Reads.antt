-- ===== src/Grep/Reads.antt =====
-- The loop of user/grep.c over the reads of a file: what it prints does not depend on how the kernel
-- cuts the file into reads.
use mathlib.Core.List.{nil≢cons, head-eq_of_cons-eq, tail-eq_of_cons-eq}
use ntu_sc2005_xv.Prelude.{
  ℕ, zero, suc, ◌+◌, ◌-◌, ◌≤◌, ◌<◌, ◌≡◌, ◌≢◌, ◌⊎◌, refl, sym, ap, subst, ◌∙◌, min, true, false,
  Bool-cases, inl, inr, Option-cases, none, some, List, [], ◌∷◌, ◌++◌, append_assoc, length,
  length-append, take, drop, All, ◌==◌, ne→==, if◌then◌else◌, arith,
}
use ntu_sc2005_xv.Grep.{newline, buf_size, match_re, find_newline, line_loop, grep_loop, grep}

abbrev pub text_of : List (List ℕ) → List ℕ
text_of [] = []
text_of (l ∷ ls) = l ++ newline ∷ text_of ls

-- The lines that the pattern matches, with their newlines.
abbrev pub selected : List ℕ → List (List ℕ) → List ℕ
selected pattern [] = []
selected pattern (l ∷ ls) =
    if match_re pattern l then l ++ newline ∷ selected pattern ls else selected pattern ls

abbrev pub IsChar : ℕ → Type 0
IsChar c = (c ≢ newline) × (c ≢ 0)

-- A line fits into the buffer, and has neither a newline nor a NUL in it.
abbrev pub IsLine : List ℕ → Type 0
IsLine l = All IsChar l × (length l + 1 < buf_size)

abbrev pub Lines : List (List ℕ) → Type 0
Lines [] = Unit
Lines (l ∷ ls) = IsLine l × Lines ls

find_newline_lem : (l q : List ℕ) → All IsChar l → find_newline (l ++ newline ∷ q) ≡ some (l, q)
unfolding find_newline
find_newline_lem [] q h = elim (Option-cases (find_newline q)) [
  | inl e ↦ rw (find_newline, e) refl
  | inr (r, e) ↦ rw (find_newline, e) refl
]
find_newline_lem (c ∷ l) q h =
    rw (find_newline_lem l q h.1, ne→== c newline h.0.0, ne→== c 0 h.0.1) refl

no_newline : (p : List ℕ) → All IsChar p → find_newline p ≡ none
unfolding find_newline
no_newline [] h = refl
no_newline (c ∷ p) h = rw (no_newline p h.1, ne→== c newline h.0.0) refl

-- A part of the file ends in its first line, or has this line.
first_line :
    (p rest l ys : List ℕ)
    → p ++ rest ≡ l ++ newline ∷ ys
    → ((p' : List ℕ) × (p ≡ l ++ newline ∷ p') × (p' ++ rest ≡ ys))
      ⊎ ((l' : List ℕ) × (l ≡ p ++ l') × (rest ≡ l' ++ newline ∷ ys))
first_line [] rest l ys e = inr (l, refl, e)
first_line (c ∷ p) rest [] ys e =
    inl (p, ap (λ x. x ∷ p) (head-eq_of_cons-eq e), tail-eq_of_cons-eq e)
first_line (c ∷ p) rest (d ∷ l) ys e =
    let same : c ≡ d = head-eq_of_cons-eq e in
    elim (first_line p rest l ys (tail-eq_of_cons-eq e)) [
      | inl (p', a, b) ↦ inl (p', rw same (ap (λ w. d ∷ w) a), b)
      | inr (l', a, b) ↦ inr (l', rw same (ap (λ w. d ∷ w) a), b)
    ]

All-prefix : (P : ℕ → Type 0) (xs ys : List ℕ) → All P (xs ++ ys) → All P xs
All-prefix P [] ys h = tt
All-prefix P (x ∷ xs) ys h = (h.0, All-prefix P xs ys h.1)

-- `kept` is the start of the first of the lines, if there is one.
abbrev pub Starts : List ℕ → List (List ℕ) → Type 0
Starts kept [] = kept ≡ []
Starts kept (l ∷ ls) = (l' : List ℕ) × (l ≡ kept ++ l')

-- What the inner loop makes of the bytes `p` of the buffer, when `rest` is still to be read.
record Splits (pattern p rest : List ℕ) (ls : List (List ℕ)) (r : List ℕ × List ℕ) : Type 0 where
  pub later : List (List ℕ)
  pub lines : Lines later
  pub prints : (out : List ℕ) → out ≡ selected pattern later → r.0 ++ out ≡ selected pattern ls
  pub left : r.1 ++ rest ≡ text_of later
  pub starts : Starts r.1 later

-- No whole line.
nothing_found : (fuel : ℕ) (pattern p : List ℕ) → All IsChar p → line_loop fuel pattern p ≡ ([], p)
unfolding line_loop
nothing_found zero pattern p h = refl
nothing_found (suc fuel) pattern p h = rw (line_loop, no_newline p h) refl

one_found :
    (fuel : ℕ) (pattern l p : List ℕ)
    → All IsChar l
    → let r = line_loop fuel pattern p in
      line_loop (suc fuel) pattern (l ++ newline ∷ p)
      ≡ (if match_re pattern l then l ++ newline ∷ r.0 else r.0, r.1)
unfolding line_loop
one_found fuel pattern l p h = rw (line_loop, find_newline_lem l p h) refl

stay :
    (fuel : ℕ) (pattern p rest : List ℕ) (ls : List (List ℕ))
    → Lines ls
    → p ++ rest ≡ text_of ls
    → All IsChar p
    → Starts p ls
    → Splits pattern p rest ls (line_loop fuel pattern p)
stay fuel pattern p rest ls o e h s =
    subst (Splits pattern p rest ls) (sym (nothing_found fuel pattern p h))
      (record { later = ls; lines = o; prints = λ out q. q; left = e; starts = s })

nil_append : (p rest : List ℕ) → p ++ rest ≡ [] → p ≡ []
nil_append [] rest e = refl
nil_append (x ∷ p) rest e = absurd (nil≢cons (sym e))

length_line : (l p : List ℕ) → length (l ++ newline ∷ p) ≡ suc (length l + length p)
length_line l p = omega (arith, length-append {0} l (newline ∷ p))

-- A line that was found, and then the others.
print_line :
    (pattern l p' rest : List ℕ) (ls : List (List ℕ)) (r : List ℕ × List ℕ)
    → Splits pattern p' rest ls r
    → Splits pattern
        (l ++ newline ∷ p')
        rest
        (l ∷ ls)
        (if match_re pattern l then l ++ newline ∷ r.0 else r.0, r.1)
print_line pattern l p' rest ls r d = record {
  later = d.later;
  lines = d.lines;
  prints = λ out q. printed out (d.prints out q);
  left = d.left;
  starts = d.starts;
}
  where
    printed :
        (out : List ℕ)
        → r.0 ++ out ≡ selected pattern ls
        → (if match_re pattern l then l ++ newline ∷ r.0 else r.0) ++ out
          ≡ selected pattern (l ∷ ls)
    printed out e = elim (Bool-cases (match_re pattern l)) [
      | inl yes' ↦ rw yes' (append_assoc l (newline ∷ r.0) out ∙ ap (λ w. l ++ newline ∷ w) e)
      | inr no' ↦ rw no' e
    ]

line_loop_lem :
    (fuel : ℕ) (pattern p rest : List ℕ) (ls : List (List ℕ))
    → length p ≤ fuel
    → Lines ls
    → p ++ rest ≡ text_of ls
    → Splits pattern p rest ls (line_loop fuel pattern p)
line_loop_lem fuel pattern p rest [] h o e =
    let nothing = nil_append p rest e in
    stay fuel pattern p rest [] o e (subst (All IsChar) (sym nothing) tt) nothing
line_loop_lem fuel pattern p rest (l ∷ ls) h o e = elim (first_line p rest l (text_of ls) e) [
  | inr (l', a, b) ↦
      stay fuel pattern p rest (l ∷ ls) o e (All-prefix IsChar p l' (subst (All IsChar) a o.0.0))
        (l', a)
  | inl (p', a, b) ↦
      elim fuel
          as (λ fuel. length p ≤ fuel → Splits pattern p rest (l ∷ ls) (line_loop fuel pattern p)) [
            | zero ↦
                λ h. absurd (omega (arith, h, length_line l p', ap (λ (w : List ℕ). length w) a))
            | suc fuel' ↦ λ h.
                let d =
                  line_loop_lem fuel' pattern p' rest ls
                    (omega (arith, h, length_line l p', ap (λ (w : List ℕ). length w) a)) o.1 b in
                subst
                  (λ (w : List ℕ). Splits pattern w rest (l ∷ ls) (line_loop (suc fuel') pattern w))
                  (sym a)
                  (subst (Splits pattern (l ++ newline ∷ p') rest (l ∷ ls))
                    (sym (one_found fuel' pattern l p' o.0.0))
                    (print_line pattern l p' rest ls _ d))
          ]
        h
]

module _ {ℓ} {A : Type ℓ} where
  take-drop : (n : ℕ) (xs : List A) → take n xs ++ drop n xs ≡ xs
  take-drop zero xs = refl
  take-drop (suc n) [] = refl
  take-drop (suc n) (x ∷ xs) = ap (λ w. x ∷ w) (take-drop n xs)

  length-drop : (n : ℕ) (xs : List A) → length (drop n xs) ≡ length xs - n
  length-drop zero xs = omega arith
  length-drop (suc n) [] = omega arith
  length-drop (suc n) (x ∷ xs) = omega (arith, length-drop n xs)

  length-take_le : (n : ℕ) (xs : List A) → length (take n xs) ≤ n
  length-take_le zero xs = omega arith
  length-take_le (suc n) [] = omega arith
  length-take_le (suc n) (x ∷ xs) = omega (arith, length-take_le n xs)

-- At the end of the file no line is open.
no_lines : (kept : List ℕ) (ls : List (List ℕ)) → kept ++ [] ≡ text_of ls → Starts kept ls → ls ≡ []
no_lines kept [] e s = refl
no_lines kept (l ∷ ls) e (l', s) = absurd (
    omega (
      arith,
      length-append {0} kept [],
      length-append {0} kept l',
      length_line l (text_of ls),
      ap (λ (w : List ℕ). length w) e,
      ap (λ (w : List ℕ). length w) s,
    ))

short_start :
    (kept : List ℕ) (ls : List (List ℕ)) → Lines ls → Starts kept ls → length kept + 1 < buf_size
short_start kept [] o s = rw s (omega arith)
short_start kept (l ∷ ls) o (l', s) =
    omega (arith, o.0.1, length-append {0} kept l', ap (λ (w : List ℕ). length w) s)

nothing_printed : (pattern : List ℕ) (ls : List (List ℕ)) → ls ≡ [] → [] ≡ selected pattern ls
nothing_printed pattern ls e = sym (ap (selected pattern) e)

nil_read : (n : ℕ) → (length (take {A = ℕ} n []) == 0) ≡ true
nil_read zero = refl
nil_read (suc n) = refl

grep_loop_lem :
    (pattern sizes kept input : List ℕ) (ls : List (List ℕ))
    → All (λ s. 0 < s) sizes
    → length input ≤ length sizes
    → Lines ls
    → kept ++ input ≡ text_of ls
    → Starts kept ls
    → grep_loop pattern sizes kept input ≡ selected pattern ls
unfolding grep_loop
grep_loop_lem pattern [] kept [] ls pos h o e s = nothing_printed pattern ls (no_lines kept ls e s)
grep_loop_lem pattern [] kept (c ∷ input) ls pos h o e s = absurd (omega (arith, h))
grep_loop_lem pattern (size ∷ sizes) kept [] ls pos h o e s =
    rw (grep_loop, nil_read (min size (buf_size - length kept - 1)))
      (nothing_printed pattern ls (no_lines kept ls e s))
grep_loop_lem pattern (size ∷ sizes) kept (c ∷ input) ls pos h o e s =
    let n = min size (buf_size - length kept - 1) in
    let short = short_start kept ls o s in
    let some_bytes : 0 < n = omega (arith, short, pos.0) in
    let all = take-drop n (c ∷ input) in
    let read : (length (take n (c ∷ input)) == 0) ≡ false = ground (
      arith,
      some_bytes,
      length-append {0} (take n (c ∷ input)) (drop n (c ∷ input)),
      ap (λ (w : List ℕ). length w) all,
      length-drop n (c ∷ input),
    ) in
    let d =
      line_loop_lem buf_size pattern (kept ++ take n (c ∷ input)) (drop n (c ∷ input)) ls
        (omega
          (arith, short, length-append {0} kept (take n (c ∷ input)), length-take_le n (c ∷ input)))
        o
        (append_assoc kept (take n (c ∷ input)) (drop n (c ∷ input))
          ∙ ap (λ w. kept ++ w) all
          ∙ e) in
    rw (grep_loop, read)
      (d.prints _ (
        grep_loop_lem pattern sizes _ (drop n (c ∷ input)) d.later pos.1
          (omega (arith, h, length-drop n (c ∷ input), some_bytes)) d.lines d.left d.starts))

-- On a file of lines that fit into the buffer, grep prints exactly the lines that the pattern matches,
-- in order, however the kernel cuts the file into reads; each read returns something, and there are
-- as many of them as the file may need.
pub grep_lem :
    (pattern sizes : List ℕ) (ls : List (List ℕ))
    → All (λ s. 0 < s) sizes
    → length (text_of ls) ≤ length sizes
    → Lines ls
    → grep pattern sizes (text_of ls) ≡ selected pattern ls
unfolding grep
grep_lem pattern sizes ls pos h o =
    grep_loop_lem pattern sizes [] (text_of ls) ls pos h o refl (at_start ls)
  where
    at_start : (ls : List (List ℕ)) → Starts [] ls
    at_start [] = refl
    at_start (l ∷ ls) = (l, refl)
