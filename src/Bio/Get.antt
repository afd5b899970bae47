-- ===== src/Bio/Get.antt =====
-- `binit` and `bget` of kernel/bio.c: the search of the list and the recycling of buffers.
use ntu_sc2005_xv.Prelude.{
  ℕ, zero, suc, ◌+◌, ◌<◌, ◌≡◌, ◌≢◌, ◌⊎◌, inl, inr, refl, ◌∙◌, ap, sym, subst, List, [], ◌∷◌, ◌++◌,
  count, count-append, length, length-append, ltb, arith, if◌then◌else◌, Bool, true, false, Option,
  none, some, Bool-cases,
}
use ntu_sc2005_xv.Prelude.Maps.{update}
use ntu_sc2005_xv.Prelude.Int.{u32}
use ntu_sc2005_xv.Bio.{Bcache, head_at, nbuf, init_loop, binit, search, matches, unused, bget}
use ntu_sc2005_xv.Bio.Ring.{
  IsRing, insert_front-IsRing, first, reverse, Linked-reverse, count-reverse, search_lem,
}

init_loop-IsRing :
    (rest b : ℕ) (s : Bcache) (xs : List ℕ)
    → b + rest ≡ nbuf
    → IsRing b s xs
    → (ys : List ℕ) × IsRing nbuf (init_loop rest b s) ys
unfolding init_loop
init_loop-IsRing zero b s xs e r =
    let e' : b ≡ nbuf = omega arith in (xs, subst (λ n. IsRing n s xs) e' r)
init_loop-IsRing (suc rest) b s xs e r = init_loop-IsRing rest (b + 1) _ (b ∷ xs) (omega arith) (
    insert_front-IsRing b _ xs (omega arith)
      (record { linked = r.linked; once = r.once; size = r.size }))

-- `binit` links every buffer into the list, each once.
pub binit-IsRing : (xs : List ℕ) × IsRing nbuf binit xs
unfolding binit
binit-IsRing =
    init_loop-IsRing nbuf 0 _ [] refl
      (record { linked = (refl, refl); once = λ a. ground arith; size = refl })

first-none :
    (test : ℕ → Bool) (xs : List ℕ) (a : ℕ) → first test xs ≡ none → count a xs ≢ 0 → test a ≡ false
first-none test [] a h m = absurd (omega arith)
first-none test (x ∷ xs) a h m = ground (arith, first-none test xs a)

-- Where `first` stops.
pub record Stops (test : ℕ → Bool) (xs : List ℕ) (b : ℕ) : Type 0 where
  pub before : List ℕ
  pub after : List ℕ
  pub split : xs ≡ before ++ b ∷ after
  pub passes : test b ≡ true
  pub earlier : (a : ℕ) → count a before ≢ 0 → test a ≡ false

first-some : (test : ℕ → Bool) (xs : List ℕ) (b : ℕ) → first test xs ≡ some b → Stops test xs b
first-some test [] b h = absurd (ground arith)
first-some test (x ∷ xs) b h = elim (Bool-cases (test x)) [
  | inl hit ↦
      let e : x ≡ b = ground arith in
      record {
        before = [];
        after = xs;
        split = ap (λ z. z ∷ xs) e;
        passes = ap test (sym e) ∙ hit;
        earlier = λ a m. absurd (omega arith);
      }
  | inr miss ↦
      let s = first-some test xs b (ground arith) in
      record {
        before = x ∷ s.before;
        after = s.after;
        split = ap (λ z. x ∷ z) s.split;
        passes = s.passes;
        earlier = λ a m. ground (arith, s.earlier a);
      }
]

Stops-inside :
    {n : ℕ} {test : ℕ → Bool} {xs : List ℕ} {b : ℕ}
    → ((a : ℕ) → count a xs ≡ (if ltb a n then 1 else 0))
    → Stops test xs b
    → b < n
Stops-inside {b = b} once st =
    ground (arith, once b, ap (count b) st.split, count-append b st.before (b ∷ st.after))

-- The block is in a buffer: the first one of the list that has it gets one more reference.
pub record Hit (dev blockno : ℕ) (s : Bcache) (xs : List ℕ) (b : ℕ) (t : Bcache) : Type 0 where
  pub found : Stops (matches s dev blockno) xs b
  pub inside : b < nbuf
  pub after : t ≡ record s { refcnt = update s.refcnt b (u32 (s.refcnt b + 1)) }

-- It is in none: of the buffers that nobody uses the least recently used one is recycled.
pub record Recycled (dev blockno : ℕ) (s : Bcache) (xs : List ℕ) (b : ℕ) (t : Bcache) : Type 0 where
  pub absent : (c : ℕ) → c < nbuf → matches s dev blockno c ≡ false
  pub oldest : Stops (unused s) (reverse xs) b
  pub inside : b < nbuf
  pub after : t ≡ record s {
    dev = update s.dev b dev;
    blockno = update s.blockno b blockno;
    valid = update s.valid b false;
    refcnt = update s.refcnt b 1;
  }

module _ (dev blockno : ℕ) (s : Bcache) (xs : List ℕ) (r : IsRing nbuf s xs) where
  stop_out : count head_at xs ≡ 0
  stop_out = ground (arith, r.once head_at)

  forward :
      search (matches s dev blockno) s.next (suc nbuf) (s.next head_at)
      ≡ first (matches s dev blockno) xs
  forward =
      search_lem (matches s dev blockno) s.next s.prev head_at (suc nbuf) xs (omega (arith, r.size))
        stop_out r.linked

  length-reverse : (ys : List ℕ) → length (reverse ys) ≡ length ys
  length-reverse [] = refl
  length-reverse (y ∷ ys) =
      omega (arith, length-append {0} (reverse ys) (y ∷ []), length-reverse ys)

  backward : search (unused s) s.prev (suc nbuf) (s.prev head_at) ≡ first (unused s) (reverse xs)
  backward =
      search_lem (unused s) s.prev s.next head_at (suc nbuf) (reverse xs)
        (omega (arith, r.size, length-reverse xs))
        (omega (arith, count-reverse head_at xs, stop_out))
        (Linked-reverse s.next s.prev head_at head_at xs r.linked)

  abbrev Result : Type 0
  Result =
      ((b : ℕ) × (t : Bcache) × (bget dev blockno s ≡ some (b, t))
        × (Hit dev blockno s xs b t ⊎ Recycled dev blockno s xs b t))
      ⊎ ((bget dev blockno s ≡ none)
          × ((c : ℕ) → c < nbuf → (matches s dev blockno c ≡ false) × (unused s c ≡ false)))

  -- What `bget` returns for each result of its two loops.
  hit : (b : ℕ) → first (matches s dev blockno) xs ≡ some b → Result
  unfolding bget
  hit b e =
      let st = first-some (matches s dev blockno) xs b e in
      inl (
        b,
        _,
        rw (bget, forward, e) refl,
        inl (record { found = st; inside = Stops-inside r.once st; after = refl }),
      )

  absent :
      first (matches s dev blockno) xs ≡ none → (c : ℕ) → c < nbuf → matches s dev blockno c ≡ false
  absent e c lt = first-none (matches s dev blockno) xs c e (ground (arith, r.once c))

  recycle :
      (b : ℕ)
      → first (matches s dev blockno) xs ≡ none
      → first (unused s) (reverse xs) ≡ some b
      → Result
  unfolding bget
  recycle b e f =
      let st = first-some (unused s) (reverse xs) b f in
      inl (
        b,
        _,
        rw (bget, forward, e, backward, f) refl,
        inr (record {
          absent = absent e;
          oldest = st;
          inside = Stops-inside {n = nbuf} (λ a. count-reverse a xs ∙ r.once a) st;
          after = refl;
        }),
      )

  panic : first (matches s dev blockno) xs ≡ none → first (unused s) (reverse xs) ≡ none → Result
  unfolding bget
  panic e f = inr (
    rw (bget, forward, e, backward, f) refl,
    λ c lt. (
      absent e c lt,
      first-none (unused s) (reverse xs) c f (ground (arith, count-reverse c xs, r.once c)),
    ),
  )

  Option-cases : (o : Option ℕ) → (o ≡ none) ⊎ ((b : ℕ) × (o ≡ some b))
  Option-cases none = inl refl
  Option-cases (some b) = inr (b, refl)

  -- `bget` on a well-formed cache: a buffer that has the block if there is one, else the least
  -- recently used buffer that nobody uses, which is then this block's and not valid; it panics
  -- exactly when neither exists. Nothing else changes.
  pub bget_lem :
      ((b : ℕ) × (t : Bcache) × (bget dev blockno s ≡ some (b, t))
        × (Hit dev blockno s xs b t ⊎ Recycled dev blockno s xs b t))
      ⊎ ((bget dev blockno s ≡ none)
          × ((c : ℕ) → c < nbuf → (matches s dev blockno c ≡ false) × (unused s c ≡ false)))
  bget_lem = elim (Option-cases (first (matches s dev blockno) xs)) [
    | inr (b, e) ↦ hit b e
    | inl e ↦ elim (Option-cases (first (unused s) (reverse xs))) [
      | inr (b, f) ↦ recycle b e f
      | inl f ↦ panic e f
    ]
  ]
