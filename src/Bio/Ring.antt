-- ===== src/Bio/Ring.antt =====
-- The list of kernel/bio.c that the pointers `next` and `prev` make.
use ntu_sc2005_xv.Prelude.{
  ℕ, zero, suc, ◌+◌, ◌≤◌, ◌<◌, ◌≡◌, ◌≢◌, ◌⊎◌, inl, inr, refl, ◌∙◌, List, [], ◌∷◌, ◌++◌, count,
  count-append, length, length-append, ◌==◌, ltb, arith, if◌then◌else◌, Bool, Option, none, some,
}
use ntu_sc2005_xv.Prelude.Maps.{update}
use ntu_sc2005_xv.Bio.{Bcache, head_at, nbuf, insert_front, unlink, search}

-- From `a` the pointers lead through `xs` to `b`, and back.
abbrev pub Linked : (ℕ → ℕ) → (ℕ → ℕ) → ℕ → List ℕ → ℕ → Type 0
Linked next prev a [] b = (next a ≡ b) × (prev b ≡ a)
Linked next prev a (x ∷ xs) b = (next a ≡ x) × (prev x ≡ a) × Linked next prev x xs b

module _ (next prev : ℕ → ℕ) where
  pub Linked-split :
      (a b x : ℕ) (ys zs : List ℕ)
      → Linked next prev a (ys ++ x ∷ zs) b
      → Linked next prev a ys x × Linked next prev x zs b
  Linked-split a b x [] zs h = ((h.0, h.1), h.2)
  Linked-split a b x (y ∷ ys) zs h =
      let (before, after) = Linked-split y b x ys zs h.2 in ((h.0, h.1, before), after)

  pub Linked-join :
      (a b x : ℕ) (ys zs : List ℕ)
      → Linked next prev a ys x
      → Linked next prev x zs b
      → Linked next prev a (ys ++ x ∷ zs) b
  Linked-join a b x [] zs h k = (h.0, h.1, k)
  Linked-join a b x (y ∷ ys) zs h k = (h.0, h.1, Linked-join y b x ys zs h.2 k)

  -- The pointer before the end is the start or in the list.
  last_in :
      (a x : ℕ) (ys : List ℕ) → Linked next prev a ys x → (prev x ≡ a) ⊎ (count (prev x) ys ≢ 0)
  last_in a x [] h = inl h.1
  last_in a x (y ∷ ys) h = inr (ground (arith, last_in y x ys h.2))

  next_in :
      (a b : ℕ) (ys : List ℕ) → Linked next prev a ys b → (next a ≡ b) ⊎ (count (next a) ys ≢ 0)
  next_in a b [] h = inl h.0
  next_in a b (y ∷ ys) h = inr (ground arith)

-- Pointers that agree along the list make the same list.
pub Linked-congr :
    (n p n' p' : ℕ → ℕ) (a b : ℕ) (xs : List ℕ)
    → ((c : ℕ) → (c ≡ a) ⊎ (count c xs ≢ 0) → n' c ≡ n c)
    → ((c : ℕ) → (c ≡ b) ⊎ (count c xs ≢ 0) → p' c ≡ p c)
    → Linked n p a xs b
    → Linked n' p' a xs b
Linked-congr n p n' p' a b [] hn hp h = (hn a (inl refl) ∙ h.0, hp b (inl refl) ∙ h.1)
Linked-congr n p n' p' a b (x ∷ xs) hn hp h = (
  hn a (inl refl) ∙ h.0,
  hp x (inr (ground arith)) ∙ h.1,
  Linked-congr n p n' p' x b xs (λ c k. hn c (inr (ground (arith, k))))
      (λ c k. hp c (elim k [ inl e ↦ inl e | inr m ↦ inr (ground arith) ])) h.2,
)

-- Taking `x` out of the list.
pub Linked-skip :
    (n p : ℕ → ℕ) (a b x : ℕ) (ys zs : List ℕ)
    → ((c : ℕ) → count c (a ∷ ys ++ x ∷ zs) ≤ 1)
    → count b (ys ++ x ∷ zs) ≡ 0
    → Linked n p a ys x
    → Linked n p x zs b
    → Linked (update n (p x) (n x)) (update p (n x) (p x)) a (ys ++ zs) b
Linked-skip n p a b x [] [] one out h k = (ground arith, ground arith)
Linked-skip n p a b x [] (z ∷ zs) one out h k = (
  ground arith,
  ground arith,
  Linked-congr n p (update n (p x) (n x)) (update p (n x) (p x)) z b zs
      (λ c m. ground (arith, one c, one a)) (λ c m. ground (arith, one c, one z)) k.2,
)
Linked-skip n p a b x (y ∷ ys) zs one out h k = (
  ground (
    arith,
    last_in n p y x ys h.2,
    one (p x),
    one a,
    count-append a ys (x ∷ zs),
    count-append (p x) ys (x ∷ zs),
  ),
  ground (arith, next_in n p x b zs k, one y, out, count-append y ys (x ∷ zs)),
  Linked-skip n p y b x ys zs (λ c. omega (arith, one c)) (omega arith) h.2 k,
)

-- The list holds the first `n` buffers, each once.
pub record IsRing (n : ℕ) (s : Bcache) (xs : List ℕ) : Type 0 where
  pub linked : Linked s.next s.prev head_at xs head_at
  pub once : (a : ℕ) → count a xs ≡ (if ltb a n then 1 else 0)
  pub size : length xs ≡ n

insert-Linked :
    (b : ℕ) (s : Bcache) (xs : List ℕ)
    → b ≢ head_at
    → count b xs ≡ 0
    → count head_at xs ≡ 0
    → ((c : ℕ) → count c xs ≤ 1)
    → Linked s.next s.prev head_at xs head_at
    → Linked (insert_front b s).next (insert_front b s).prev head_at (b ∷ xs) head_at
unfolding insert_front
insert-Linked b s [] ne out stop one h = (ground arith, ground arith, (ground arith, ground arith))
insert-Linked b s (x ∷ xs) ne out stop one h = (
  ground arith,
  ground arith,
  (
    ground arith,
    ground (arith, one x),
    Linked-congr s.next s.prev (insert_front b s).next (insert_front b s).prev x head_at xs
        (λ c m. ground arith) (λ c m. ground (arith, one c, one x)) h.2,
  ),
)

unlink-Linked :
    (b : ℕ) (s : Bcache) (ys zs : List ℕ)
    → ((c : ℕ) → count c (head_at ∷ ys ++ b ∷ zs) ≤ 1)
    → Linked s.next s.prev head_at (ys ++ b ∷ zs) head_at
    → Linked (unlink b s).next (unlink b s).prev head_at (ys ++ zs) head_at
unfolding unlink
unlink-Linked b s ys zs one h =
    let (before, after) = Linked-split s.next s.prev head_at head_at b ys zs h in
    let other : s.next b ≢ b =
      ground (arith, next_in s.next s.prev b head_at zs after, one b, count-append b ys (b ∷ zs)) in
    let same : update s.prev (s.next b) (s.prev b) b ≡ s.prev b = ground arith in
    rw same (
      Linked-skip s.next s.prev head_at head_at b ys zs one (omega (arith, one head_at)) before
        after)

module _ (b : ℕ) (s : Bcache) where
  pub insert_front-IsRing :
      (xs : List ℕ) → b < nbuf → IsRing b s xs → IsRing (b + 1) (insert_front b s) (b ∷ xs)
  insert_front-IsRing xs lt r = record {
    linked =
        insert-Linked b s xs (omega arith) (ground (arith, r.once b))
          (ground (arith, r.once head_at)) (λ c. ground (arith, r.once c)) r.linked;
    once = λ a. ground (arith, r.once a);
    size = omega (arith, r.size);
  }

  -- `brelse` moves a buffer that nobody uses to the front.
  pub move_front-IsRing :
      (ys zs : List ℕ)
      → IsRing nbuf s (ys ++ b ∷ zs)
      → IsRing nbuf (insert_front b (unlink b s)) (b ∷ ys ++ zs)
  move_front-IsRing ys zs r = record {
    linked =
        insert-Linked b (unlink b s) (ys ++ zs) (ground (arith, split b, r.once b))
          (ground (arith, split b, r.once b)) (ground (arith, split head_at, r.once head_at))
          (λ c. ground (arith, split c, r.once c))
          (unlink-Linked b s ys zs (λ c. ground (arith, r.once c)) r.linked);
    once = λ a. ground (arith, split a, r.once a);
    size = omega (arith, r.size, length-append {0} ys (b ∷ zs), length-append {0} ys zs);
  }
    where
      split : (c : ℕ) → count c (ys ++ b ∷ zs) ≡ count c (ys ++ zs) + (if c == b then 1 else 0)
      split c = ground (arith, count-append c ys (b ∷ zs), count-append c ys zs)

-- The first element that passes a test.
abbrev pub first : (ℕ → Bool) → List ℕ → Option ℕ
first test [] = none
first test (x ∷ xs) = if test x then some x else first test xs

abbrev pub reverse : List ℕ → List ℕ
reverse [] = []
reverse (x ∷ xs) = reverse xs ++ x ∷ []

-- The pointers `prev` lead through the list the other way round.
pub Linked-reverse :
    (n p : ℕ → ℕ) (a b : ℕ) (xs : List ℕ) → Linked n p a xs b → Linked p n b (reverse xs) a
Linked-reverse n p a b [] h = (h.1, h.0)
Linked-reverse n p a b (x ∷ xs) h =
    Linked-join p n b a x (reverse xs) [] (Linked-reverse n p x b xs h.2) (h.1, h.0)

pub count-reverse : (a : ℕ) (xs : List ℕ) → count a (reverse xs) ≡ count a xs
count-reverse a [] = refl
count-reverse a (x ∷ xs) = omega (arith, count-append a (reverse xs) (x ∷ []), count-reverse a xs)

-- A loop over the list finds the first buffer that passes its test, and has fuel enough.
pub search_lem :
    (test : ℕ → Bool) (step back : ℕ → ℕ) (a fuel : ℕ) (xs : List ℕ)
    → length xs < fuel
    → count head_at xs ≡ 0
    → Linked step back a xs head_at
    → search test step fuel (step a) ≡ first test xs
unfolding search
search_lem test step back a zero xs lt out h = absurd (omega arith)
search_lem test step back a (suc fuel) [] lt out h = ground arith
search_lem test step back a (suc fuel) (x ∷ xs) lt out h =
    ground (arith, search_lem test step back x fuel xs, h.2)
