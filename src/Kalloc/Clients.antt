-- ===== src/Kalloc/Clients.antt =====
-- The allocator of kernel/kalloc.c seen by its clients: every page is free or handed out, once.
use ntu_sc2005_xv.Prelude.{
  ℕ, zero, suc, ◌+◌, ◌-◌, ◌*◌, ◌/◌, ◌%◌, ◌≤◌, ◌<◌, ◌≡◌, ◌≢◌, refl, Bool, none, some, List, [], ◌∷◌,
  arith, leb, ltb, ◌==◌, ◌&&◌, if◌then◌else◌, ap, count,
}
use ntu_sc2005_xv.Kalloc.{pgsize, phystop, pgroundup, Kmem, kfree, kalloc, freerange, kinit}
use ntu_sc2005_xv.Kalloc.FreeList.{
  IsPage, All, IsValid, kfree_lem, kalloc-nil, kalloc-cons, stack, free_loop_lem,
}

-- Takes one `a` off the list.
abbrev pub erase : ℕ → List ℕ → List ℕ
erase a [] = []
erase a (x ∷ xs) = if a == x then xs else x ∷ erase a xs

-- The pages between the end of the kernel and PHYSTOP.
abbrev pub is_free_page : ℕ → ℕ → Bool
is_free_page kend a = a % pgsize == 0 && leb kend a && ltb a phystop

count-stack :
    (a p n : ℕ) (xs : List ℕ)
    → p % pgsize ≡ 0
    → count a (stack p n xs)
      ≡ count a xs + (if a % pgsize == 0 && leb p a && ltb a (p + n * pgsize) then 1 else 0)
count-stack a p zero xs h = ground arith
count-stack a p (suc n) xs h = ground (arith, count-stack a (p + pgsize) n (p ∷ xs))

-- If the kernel ends after address 0 and at PHYSTOP at most, booting puts every page between `end`
-- and PHYSTOP on the free list, exactly once, and no other.
pub kinit_lem :
    (kend : ℕ) (mem : ℕ → ℕ)
    → 0 < kend
    → kend ≤ phystop
    → (k : Kmem) × (xs : List ℕ) × (kinit kend mem ≡ some k)
      × IsValid kend k xs
      × ((a : ℕ) → count a xs ≡ (if is_free_page kend a then 1 else 0))
unfolding kinit freerange
kinit_lem kend mem pos h =
    let p = pgroundup kend in
    let n = (phystop - p) / pgsize in
    let (k, r, v) =
      free_loop_lem kend (phystop / pgsize) n p phystop (record { freelist = 0; mem = mem }) [] pos
        (omega arith) refl (omega arith) (omega arith) (omega arith) tt
        (record { linked = refl; pages = tt; distinct = tt }) in
    (k, stack p n [], r, v, λ a. ground (arith, count-stack a p n []))

-- The allocator, and the pages that its clients hold.
pub record System : Type 0 where
  pub kmem : Kmem
  pub used : List ℕ

abbrev pub after_alloc : System → System
after_alloc s =
    let (r, k) = kalloc s.kmem in record { kmem = k; used = if r == 0 then s.used else r ∷ s.used }

-- A client asks for a page, or gives back one that it holds.
pub data Step (kend : ℕ) (s : System) : System → Type 0 where
  alloc : Step kend s (after_alloc s)
  free :
      (pa : ℕ) {k : Kmem}
      → count pa s.used ≢ 0
      → kfree kend pa s.kmem ≡ some k
      → Step kend s (record { kmem = k; used = erase pa s.used })

pub data Reach (kend : ℕ) (mem : ℕ → ℕ) : System → Type 0 where
  boot : {k : Kmem} → kinit kend mem ≡ some k → Reach kend mem (record { kmem = k; used = [] })
  next : {s t : System} → Reach kend mem s → Step kend s t → Reach kend mem t

-- The pages `xs` are free.
record Inv (kend : ℕ) (s : System) (xs : List ℕ) : Type 0 where
  valid : IsValid kend s.kmem xs
  once : (a : ℕ) → count a xs + count a s.used ≡ (if is_free_page kend a then 1 else 0)

count-erase :
    (a b : ℕ) (xs : List ℕ)
    → count a xs ≢ 0
    → count b (erase a xs) + (if b == a then 1 else 0) ≡ count b xs
count-erase a b [] h = absurd (h refl)
count-erase a b (x ∷ xs) h = ground (arith, count-erase a b xs)

fresh_of_count : (a : ℕ) (xs : List ℕ) → count a xs ≡ 0 → All (λ x. a ≢ x) xs
fresh_of_count a [] h = tt
fresh_of_count a (x ∷ xs) h = (ground arith, fresh_of_count a xs (ground arith))

-- A page that a client holds is not on the free list, and kfree takes it.
free_lem :
    {kend : ℕ} {s : System} {xs : List ℕ} (pa : ℕ)
    → 0 < kend
    → Inv kend s xs
    → count pa s.used ≢ 0
    → (k : Kmem) × (kfree kend pa s.kmem ≡ some k) × IsValid kend k (pa ∷ xs)
free_lem {kend} {s} {xs} pa pos inv h =
    kfree_lem kend pa s.kmem xs pos inv.valid (ground (arith, inv.once pa))
      (fresh_of_count pa xs (ground (arith, inv.once pa)))

alloc-Inv :
    {kend : ℕ} (s : System) (xs : List ℕ)
    → Inv kend s xs
    → (ys : List ℕ) × Inv kend (after_alloc s) ys
alloc-Inv {kend} s [] inv = ([], rw (kalloc-nil kend s.kmem inv.valid) inv)
alloc-Inv {kend} s (x ∷ xs) inv =
    let (at, v) = kalloc-cons kend s.kmem x xs inv.valid in
    let (_, pos, _) = inv.valid.linked in
    (xs, record { valid = v; once = λ a. ground (arith, inv.once a) })

Step-Inv :
    {kend : ℕ} {s t : System} (xs : List ℕ)
    → 0 < kend
    → Step kend s t
    → Inv kend s xs
    → (ys : List ℕ) × Inv kend t ys
Step-Inv {s} xs pos alloc inv = alloc-Inv s xs inv
Step-Inv {s} xs pos (free pa {k} h e) inv =
    let (k', e', v) = free_lem pa pos inv h in
    let same : k' ≡ k = cc in
    (
      pa ∷ xs,
      record {
        valid = rw (← same) v;
        once = λ a. ground (arith, inv.once a, count-erase pa a s.used);
      },
    )

Reach-Inv :
    {kend : ℕ} {mem : ℕ → ℕ} {s : System}
    → 0 < kend
    → kend ≤ phystop
    → Reach kend mem s
    → (xs : List ℕ) × Inv kend s xs
Reach-Inv {kend} {mem} pos low (boot {k} e) =
    let (k', xs, e', v, once) = kinit_lem kend mem pos low in
    let same : k' ≡ k = cc in
    (xs, record { valid = rw (← same) v; once = λ a. omega (arith, once a) })
Reach-Inv pos low (next r st) = let (xs, inv) = Reach-Inv pos low r in Step-Inv xs pos st inv

alloc_exclusive :
    {kend : ℕ} (s : System) (xs : List ℕ)
    → Inv kend s xs
    → (kalloc s.kmem).0 ≢ 0
    → (count (kalloc s.kmem).0 s.used ≡ 0) × IsPage kend (kalloc s.kmem).0
alloc_exclusive {kend} s [] inv h =
    absurd (h (ap (λ (r : ℕ × Kmem). r.0) (kalloc-nil kend s.kmem inv.valid)))
alloc_exclusive {kend} s (x ∷ xs) inv h =
    let (at, _) = kalloc-cons kend s.kmem x xs inv.valid in
    rw at (ground (arith, inv.once x), inv.valid.pages.0)

module _ {kend : ℕ} {mem : ℕ → ℕ} {s : System} (pos : 0 < kend) (low : kend ≤ phystop) where
  -- In every reachable state each page between `end` and PHYSTOP is either free or in the hands of
  -- a client, exactly once, and nothing else is.
  pub partition :
      Reach kend mem s
      → (xs : List ℕ) × IsValid kend s.kmem xs
        × ((a : ℕ) → count a xs + count a s.used ≡ (if is_free_page kend a then 1 else 0))
  partition r = let (xs, inv) = Reach-Inv pos low r in (xs, inv.valid, inv.once)

  -- In every reachable state kalloc returns null or a page between `end` and PHYSTOP that no
  -- client holds.
  pub kalloc-exclusive :
      Reach kend mem s → let r = (kalloc s.kmem).0 in r ≢ 0 → (count r s.used ≡ 0) × IsPage kend r
  kalloc-exclusive r h = let (xs, inv) = Reach-Inv pos low r in alloc_exclusive s xs inv h

  -- In every reachable state kfree does not panic on a page that a client holds.
  pub kfree-used : (pa : ℕ) → Reach kend mem s → count pa s.used ≢ 0 → kfree kend pa s.kmem ≢ none
  kfree-used pa r h e =
      let (xs, inv) = Reach-Inv pos low r in let (k, ok, _) = free_lem pa pos inv h in cc
