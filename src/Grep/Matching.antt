-- ===== src/Grep/Matching.antt =====
-- The matcher of user/grep.c decides what its patterns mean.
use mathlib.Core.Bool.{false≢true}
use mathlib.Core.List.{nil≢cons, tail-eq_of_cons-eq}
use ntu_sc2005_xv.Prelude.{
  ℕ, ◌≡◌, ◌≢◌, ◌⊎◌, ◌↔◌, refl, sym, ap, subst, ◌∙◌, Bool, true, false, ◌||◌, Bool-cases, inl, inr,
  List, [], ◌∷◌, ◌++◌, ◌==◌, eq→==, ne→==, if◌then◌else◌, arith, ℕ_discrete,
}
use ntu_sc2005_xv.Grep.{
  caret, dot, star, dollar, matchstar, is_end, match_one, matchhere, match_loop, match_re,
}

-- The parts of a pattern: a character, any number of a character, and the end of the text.
pub data Item : Type 0 where
  one many : ℕ → Item
  end : Item

pub items : List ℕ → List Item
items [] = []
items (c ∷ []) = if c == dollar then end ∷ [] else one c ∷ []
items (c ∷ d ∷ re) = if d == star then many c ∷ items re else one c ∷ items (d ∷ re)

abbrev pub Fits : ℕ → ℕ → Type 0
Fits c t = (c ≡ dot) ⊎ (c ≡ t)

-- A text starts with what the pattern stands for.
pub data Matches : List Item → List ℕ → Type 0 where
  done : {text : List ℕ} → Matches [] text
  at_end : Matches (end ∷ []) []
  step :
      {c : ℕ} {is : List Item} {t : ℕ} {text : List ℕ}
      → Fits c t
      → Matches is text
      → Matches (one c ∷ is) (t ∷ text)
  enough : {c : ℕ} {is : List Item} {text : List ℕ} → Matches is text → Matches (many c ∷ is) text
  more :
      {c : ℕ} {is : List Item} {t : ℕ} {text : List ℕ}
      → Fits c t
      → Matches (many c ∷ is) text
      → Matches (many c ∷ is) (t ∷ text)

-- A function on texts that decides what the items mean.
Decides : List Item → (List ℕ → Bool) → Type 0
Decides is here = (text : List ℕ) → (here text ≡ true) ↔ Matches is text

star_Fits : (c t : ℕ) → (t == c || c == dot) ≡ true → Fits c t
star_Fits c t h = elim (ℕ_discrete c dot) [
  | yes any ↦ inl any
  | no ne ↦ inr (ground (arith, h, ne))
]

test_star : (c t : ℕ) → Fits c t → (t == c || c == dot) ≡ true
test_star c t (inl e) = ground (arith, e)
test_star c t (inr e) = ground (arith, e)

one_Fits : (c t : ℕ) → (c == dot || c == t) ≡ true → Fits c t
one_Fits c t h = elim (ℕ_discrete c dot) [ yes any ↦ inl any | no ne ↦ inr (ground (arith, h, ne)) ]

test_one : (c t : ℕ) → Fits c t → (c == dot || c == t) ≡ true
test_one c t (inl e) = ground (arith, e)
test_one c t (inr e) = ground (arith, e)

-- What a match of the first item comes to.
many_nil : {c : ℕ} {is : List Item} → Matches (many c ∷ is) [] → Matches is []
many_nil (enough m) = m

many_cons :
    {c : ℕ} {is : List Item} {t : ℕ} {text : List ℕ}
    → Matches (many c ∷ is) (t ∷ text)
    → Matches is (t ∷ text) ⊎ (Fits c t × Matches (many c ∷ is) text)
many_cons (enough m) = inl m
many_cons (more f m) = inr (f, m)

one_nil : {c : ℕ} {is : List Item} → Matches (one c ∷ is) [] → ⊥
one_nil m = elim m [ ]

one_cons :
    {c : ℕ} {is : List Item} {t : ℕ} {text : List ℕ}
    → Matches (one c ∷ is) (t ∷ text)
    → Fits c t × Matches is text
one_cons (step f m) = (f, m)

end_cons : {t : ℕ} {text : List ℕ} → Matches (end ∷ []) (t ∷ text) → ⊥
end_cons m = elim m [ ]

matchstar-Decides :
    (is : List Item) (here : List ℕ → Bool) (c : ℕ)
    → Decides is here
    → Decides (many c ∷ is) (matchstar here c)
unfolding Decides matchstar
matchstar-Decides is here c d [] = (λ h. enough ((d []).0 h), λ m. (d []).1 (many_nil m))
matchstar-Decides is here c d (t ∷ text) =
    let ih = matchstar-Decides is here c d text in
    elim (Bool-cases (here (t ∷ text))) [
      | inl yes' ↦ rw yes' (λ h. enough ((d (t ∷ text)).0 yes'), λ m. refl)
      | inr no' ↦ elim (Bool-cases (t == c || c == dot)) [
        | inl fits ↦
            rw (no', fits)
              (
                λ h. more (star_Fits c t fits) (ih.0 h),
                λ m. elim (many_cons m) [
                  | inl m' ↦ absurd (false≢true (sym no' ∙ (d (t ∷ text)).1 m'))
                  | inr (f, m') ↦ ih.1 m'
                ],
              )
        | inr other ↦
            rw (no', other)
              (
                λ h. absurd (false≢true h),
                λ m. elim (many_cons m) [
                  | inl m' ↦ absurd (false≢true (sym no' ∙ (d (t ∷ text)).1 m'))
                  | inr (f, m') ↦ absurd (false≢true (sym other ∙ test_star c t f))
                ],
              )
      ]
    ]

match_one-Decides :
    (is : List Item) (here : List ℕ → Bool) (c : ℕ)
    → Decides is here
    → Decides (one c ∷ is) (match_one here c)
unfolding Decides
match_one-Decides is here c d [] = (λ h. absurd (false≢true h), λ m. absurd (one_nil m))
match_one-Decides is here c d (t ∷ text) = elim (Bool-cases (c == dot || c == t)) [
  | inl fits ↦
      rw fits (λ h. step (one_Fits c t fits) ((d text).0 h), λ m. (d text).1 (one_cons m).1)
  | inr other ↦ rw other (
    λ h. absurd (false≢true h),
    λ m. absurd (false≢true (sym other ∙ test_one c t (one_cons m).0)),
  )
]

end-Decides : Decides (end ∷ []) is_end
unfolding Decides
end-Decides [] = (λ h. at_end, λ m. refl)
end-Decides (t ∷ text) = (λ h. absurd (false≢true h), λ m. absurd (end_cons m))

nil-Decides : Decides [] (λ t. true)
unfolding Decides
nil-Decides text = (λ h. done, λ m. refl)

matchhere-Decides : (re : List ℕ) → Decides (items re) (matchhere re)
unfolding Decides items matchhere
matchhere-Decides [] text = (λ h. done, λ m. refl)
matchhere-Decides (c ∷ []) text = elim (Bool-cases (c == dollar)) [
  | inl at ↦ rw at (end-Decides text)
  | inr other ↦ rw other (match_one-Decides [] (λ t. true) c nil-Decides text)
]
matchhere-Decides (c ∷ d ∷ re) text = elim (Bool-cases (d == star)) [
  | inl starred ↦
      rw starred (matchstar-Decides (items re) (λ t. matchhere re t) c (matchhere-Decides re) text)
  | inr other ↦ rw other (
      match_one-Decides (items (d ∷ re)) (λ t. matchhere (d ∷ re) t) c (matchhere-Decides (d ∷ re))
        text)
]

-- The pattern matches at some place of the text.
abbrev pub Somewhere : List ℕ → List ℕ → Type 0
Somewhere re text =
    (front : List ℕ) × ((rest : List ℕ) × (text ≡ front ++ rest) × Matches (items re) rest)

match_later :
    (re : List ℕ) (t : ℕ) (text : List ℕ)
    → matchhere re (t ∷ text) ≡ false
    → (Somewhere re text → match_loop re text ≡ true)
    → (front rest : List ℕ) → t ∷ text ≡ front ++ rest
    → Matches (items re) rest
    → match_loop re text ≡ true
unfolding Decides
match_later re t text not_here ih [] rest e m =
    let here = (matchhere-Decides re (t ∷ text)).1 (subst (Matches (items re)) (sym e) m) in
    absurd (false≢true (sym not_here ∙ here))
match_later re t text not_here ih (x ∷ front) rest e m = ih (front, (rest, tail-eq_of_cons-eq e, m))

match_loop_lem : (re text : List ℕ) → (match_loop re text ≡ true) ↔ Somewhere re text
unfolding Decides match_loop
match_loop_lem re [] =
    (λ h. ([], ([], refl, (matchhere-Decides re []).0 h)), λ m. at_nil m.0 m.1.0 m.1.1 m.1.2)
  where
    at_nil :
        (front rest : List ℕ)
        → [] ≡ front ++ rest
        → Matches (items re) rest
        → matchhere re [] ≡ true
    at_nil [] rest e m = (matchhere-Decides re []).1 (subst (Matches (items re)) (sym e) m)
    at_nil (x ∷ front) rest e m = absurd (nil≢cons e)
match_loop_lem re (t ∷ text) = elim (Bool-cases (matchhere re (t ∷ text))) [
  | inl here ↦
      rw here (λ h. ([], (t ∷ text, refl, (matchhere-Decides re (t ∷ text)).0 here)), λ m. refl)
  | inr not_here ↦ rw not_here (
    λ h. let m = (match_loop_lem re text).0 h in (t ∷ m.0, (m.1.0, ap (λ l. t ∷ l) m.1.1, m.1.2)),
    λ m. match_later re t text not_here (match_loop_lem re text).1 m.0 m.1.0 m.1.1 m.1.2,
  )
]

-- A pattern that starts with a caret is to match at the start of the text, another one anywhere.
abbrev pub Means : List ℕ → List ℕ → Type 0
Means [] text = Somewhere [] text
Means (c ∷ re) text =
    ((c ≡ caret) × Matches (items re) text) ⊎ ((c ≢ caret) × Somewhere (c ∷ re) text)

-- The matcher terminates on every pattern and text, and answers 1 exactly if the text has what the
-- pattern stands for, where a star that follows a character stands for any number of it.
pub match_re_lem : (re text : List ℕ) → (match_re re text ≡ true) ↔ Means re text
unfolding match_re Decides
match_re_lem [] text = match_loop_lem [] text
match_re_lem (c ∷ re) text = elim (ℕ_discrete c caret) [
  | yes at ↦
      rw (match_re, eq→== c caret at)
        (
          λ h. inl (at, (matchhere-Decides re text).0 h),
          λ m. elim m [
            | inl (at, m') ↦ (matchhere-Decides re text).1 m'
            | inr (ne, m') ↦ absurd (ne at)
          ],
        )
  | no ne ↦
      rw (match_re, ne→== c caret ne)
        (
          λ h. inr (ne, (match_loop_lem (c ∷ re) text).0 h),
          λ m. elim m [
            | inl (at, m') ↦ absurd (ne at)
            | inr (ne, m') ↦ (match_loop_lem (c ∷ re) text).1 m'
          ],
        )
]
