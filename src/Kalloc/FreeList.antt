-- ===== src/Kalloc/FreeList.antt =====
-- The free list of kernel/kalloc.c as the list of pages that it links.
use mathlib.Core.Option.{none-ne-some, some-injective}
use ntu_sc2005_xv.Prelude.{
  ℕ, zero, suc, ◌+◌, ◌-◌, ◌/◌, ◌%◌, ◌≤◌, ◌<◌, ◌≡◌, ◌≢◌, refl, sym, ◌∙◌, ap, Bool-cases, true, false,
  none, some, List, [], ◌∷◌, arith, leb, ltb, ◌==◌, not, ◌||◌, inl, inr,
}
use ntu_sc2005_xv.Prelude.Maps.{update, update_self}
use ntu_sc2005_xv.Kalloc.{pgsize, phystop, Kmem, fill_page, kfree, kalloc, free_loop}

-- A page that the allocator may hand out.
pub record IsPage (kend pa : ℕ) : Type 0 where
  pub aligned : pa % pgsize ≡ 0
  pub above : kend ≤ pa
  pub below : pa < phystop

-- The pointers from `p` on link the pages `xs` and end with null.
abbrev pub Chain : (ℕ → ℕ) → ℕ → List ℕ → Type 0
Chain mem p [] = p ≡ 0
Chain mem p (x ∷ xs) = (p ≡ x) × (x ≢ 0) × Chain mem (mem x) xs

abbrev pub All : (ℕ → Type 0) → List ℕ → Type 0
All P [] = Unit
All P (x ∷ xs) = P x × All P xs

abbrev pub Distinct : List ℕ → Type 0
Distinct [] = Unit
Distinct (x ∷ xs) = All (λ y. x ≢ y) xs × Distinct xs

-- The free list holds the pages `xs`, each once.
pub record IsValid (kend : ℕ) (k : Kmem) (xs : List ℕ) : Type 0 where
  pub linked : Chain k.mem k.freelist xs
  pub pages : All (IsPage kend) xs
  pub distinct : Distinct xs

-- Filling or linking one page leaves the words at other pages alone.
pub Chain-congr :
    (m m' : ℕ → ℕ) (p : ℕ) (xs : List ℕ) → All (λ x. m' x ≡ m x) xs → Chain m p xs → Chain m' p xs
Chain-congr m m' p [] h c = c
Chain-congr m m' p (x ∷ xs) h c = (c.0, c.1, Chain-congr m m' (m' x) xs h.1 (rw h.0 c.2))

fill_page_other :
    (kend pa v : ℕ) (m : ℕ → ℕ) (x : ℕ)
    → IsPage kend pa
    → IsPage kend x
    → pa ≢ x
    → fill_page pa v m x ≡ m x
fill_page_other kend pa v m x hp hx ne = ground arith

fill_page_others :
    (kend pa v : ℕ) (m : ℕ → ℕ) (xs : List ℕ)
    → IsPage kend pa
    → All (IsPage kend) xs
    → All (λ x. pa ≢ x) xs
    → All (λ x. fill_page pa v m x ≡ m x) xs
fill_page_others kend pa v m [] hp h ne = tt
fill_page_others kend pa v m (x ∷ xs) hp h ne =
    (fill_page_other kend pa v m x hp h.0 ne.0, fill_page_others kend pa v m xs hp h.1 ne.1)

-- What another write, at the page itself, adds to that.
linked_others :
    (pa q : ℕ) (m m' : ℕ → ℕ) (xs : List ℕ)
    → All (λ x. pa ≢ x) xs
    → All (λ x. m' x ≡ m x) xs
    → All (λ x. update m' pa q x ≡ m x) xs
linked_others pa q m m' [] ne h = tt
linked_others pa q m m' (x ∷ xs) ne h =
    (ground (arith, h.0, ne.0), linked_others pa q m m' xs ne.1 h.1)

-- kfree of a page that is not on the list puts it in front; anything else panics.
pub kfree_lem :
    (kend pa : ℕ) (k : Kmem) (xs : List ℕ)
    → 0 < kend
    → IsValid kend k xs
    → IsPage kend pa
    → All (λ x. pa ≢ x) xs
    → (k' : Kmem) × (kfree kend pa k ≡ some k') × IsValid kend k' (pa ∷ xs)
unfolding kfree
kfree_lem kend pa k xs pos v hp ne = (
  record { freelist = pa; mem = update filled pa k.freelist },
  ground arith,
  record {
    linked = (
      refl,
      omega arith,
      Chain-congr k.mem _ _ xs
          (linked_others pa k.freelist k.mem filled xs ne
            (fill_page_others kend pa 0x0101010101010101 k.mem xs hp v.pages ne))
          (rw (update_self filled pa k.freelist) v.linked),
    );
    pages = (hp, v.pages);
    distinct = (ne, v.distinct);
  },
)
  where
    filled : ℕ → ℕ
    filled = fill_page pa 0x0101010101010101 k.mem

abbrev freed : ℕ → ℕ → Kmem → Kmem
freed kend pa k = record {
  freelist = pa;
  mem = update (fill_page pa 0x0101010101010101 k.mem) pa k.freelist;
}

-- kfree writes to no other page.
pub kfree_elsewhere :
    (kend pa : ℕ) (k k' : Kmem) (a : ℕ)
    → kfree kend pa k ≡ some k'
    → ((pa ≤ a) → (a < pa + pgsize) → ⊥)
    → k'.mem a ≡ k.mem a
unfolding kfree
kfree_elsewhere kend pa k k' a e h =
    elim (Bool-cases (not (pa % pgsize == 0) || ltb pa kend || leb phystop pa)) [
      | inl bad ↦ absurd (none-ne-some k' (sym (rw bad refl) ∙ e))
      | inr good ↦
          let eq : some (freed kend pa k) ≡ some k' = sym (rw good refl) ∙ e in
          ap (λ (j : Kmem). j.mem a) (sym (some-injective (freed kend pa k) k' eq))
          ∙ ground (arith, h)
    ]

-- kfree panics at any other address.
pub kfree_panics : (kend pa : ℕ) (k : Kmem) → ¬ IsPage kend pa → kfree kend pa k ≡ none
unfolding kfree
kfree_panics kend pa k h =
    elim (Bool-cases (not (pa % pgsize == 0) || ltb pa kend || leb phystop pa)) [
      | inl bad ↦ rw bad
      | inr good ↦ absurd (h (ground arith))
    ]

-- kalloc returns 0, and changes nothing, when no page is free.
pub kalloc-nil : (kend : ℕ) (k : Kmem) → IsValid kend k [] → kalloc k ≡ (0, k)
unfolding kalloc
kalloc-nil kend k v = ground (arith, v.linked)

-- Otherwise kalloc takes the first page off the list.
pub kalloc-cons :
    (kend : ℕ) (k : Kmem) (x : ℕ) (xs : List ℕ)
    → IsValid kend k (x ∷ xs)
    → ((kalloc k).0 ≡ x) × IsValid kend (kalloc k).1 xs
unfolding kalloc
kalloc-cons kend k x xs v =
    let (at, pos, rest) = v.linked in
    let some_page : (k.freelist == 0) ≡ false = ground arith in
    rw some_page (
      at,
      rw at (record {
        linked =
            Chain-congr k.mem _ _ xs
              (fill_page_others kend x 0x0505050505050505 k.mem xs v.pages.0 v.pages.1 v.distinct.0)
              rest;
        pages = v.pages.1;
        distinct = v.distinct.1;
      }),
    )

-- It writes to no other page.
pub kalloc_elsewhere :
    (kend : ℕ) (k : Kmem) (x : ℕ) (xs : List ℕ) (a : ℕ)
    → IsValid kend k (x ∷ xs)
    → ((x ≤ a) → (a < x + pgsize) → ⊥)
    → (kalloc k).1.mem a ≡ k.mem a
unfolding kalloc
kalloc_elsewhere kend k x xs a v h =
    let (at, pos, rest) = v.linked in
    let some_page : (k.freelist == 0) ≡ false = ground arith in
    rw (kalloc, some_page, at) (ground (arith, h))

-- The pages that `freerange` pushes, `n` of them from `p` on, on top of `xs`.
abbrev pub stack : ℕ → ℕ → List ℕ → List ℕ
stack p zero xs = xs
stack p (suc n) xs = stack (p + pgsize) n (p ∷ xs)

above-All : (p q : ℕ) (xs : List ℕ) → p ≤ q → All (λ x. x < p) xs → All (λ x. x < q) xs
above-All p q [] h a = tt
above-All p q (x ∷ xs) h a = (omega arith, above-All p q xs h a.1)

fresh_above : (p : ℕ) (xs : List ℕ) → All (λ x. x < p) xs → All (λ x. p ≢ x) xs
fresh_above p [] a = tt
fresh_above p (x ∷ xs) a = (omega (arith, a.0), fresh_above p xs a.1)

pub free_loop_lem :
    (kend : ℕ) (fuel n p pa_end : ℕ) (k : Kmem) (xs : List ℕ)
    → 0 < kend
    → n ≤ fuel
    → n ≡ (pa_end - p) / pgsize
    → p % pgsize ≡ 0
    → kend ≤ p
    → pa_end ≤ phystop
    → All (λ x. x < p) xs
    → IsValid kend k xs
    → (k' : Kmem) × (free_loop kend fuel p pa_end k ≡ some k') × IsValid kend k' (stack p n xs)
unfolding free_loop
free_loop_lem kend zero zero p pa_end k xs pos f e a l u o v = (k, refl, v)
free_loop_lem kend zero (suc n) p pa_end k xs pos f e a l u o v = absurd (omega arith)
free_loop_lem kend (suc fuel) zero p pa_end k xs pos f e a l u o v =
    let stop : leb (p + pgsize) pa_end ≡ false = ground arith in (k, rw (free_loop, stop), v)
free_loop_lem kend (suc fuel) (suc n) p pa_end k xs pos f e a l u o v =
    let more : leb (p + pgsize) pa_end ≡ true = ground arith in
    let page : IsPage kend p = record { aligned = a; above = l; below = omega arith } in
    let (k₁, r, v₁) = kfree_lem kend p k xs pos v page (fresh_above p xs o) in
    let (k', r', v') =
      free_loop_lem kend fuel n (p + pgsize) pa_end k₁ (p ∷ xs) pos (omega arith) (omega arith)
        (omega arith) (omega arith) u (omega arith, above-All p (p + pgsize) xs (omega arith) o)
        v₁ in
    (k', rw (free_loop, more, r) r', v')
