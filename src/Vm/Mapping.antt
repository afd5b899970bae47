-- ===== src/Vm/Mapping.antt =====
-- mappages of kernel/vm.c, as a change of the entries that its page table stands for.
use mathlib.Core.Option.{none-ne-some, some-injective}
use ntu_sc2005_xv.Prelude.{
  ℕ, zero, suc, ◌+◌, ◌-◌, ◌*◌, ◌/◌, ◌%◌, ◌^◌, ◌≤◌, ◌<◌, ◌≡◌, ◌≢◌, ◌⊎◌, refl, sym, ◌∙◌, ap, subst,
  inl, inr, true, false, Option, none, some, List, [], Option-cases, arith, ◌==◌, leb, ltb, eq→==,
  ne→==, ◌&&◌, if◌then◌else◌,
}
use ntu_sc2005_xv.Prelude.Int.{ℤ, pos, minus_one, u64}
use ntu_sc2005_xv.Kalloc.{Kmem, pgsize}
use ntu_sc2005_xv.Vm.{
  pte_v, pa2pte, or_pte_v, entry, px, maxva, set_pte, map_page, map_loop, mappages,
}
use ntu_sc2005_xv.Vm.Tree.{table, leaf}
use ntu_sc2005_xv.Vm.Walk.{Out, IsSpace}
use ntu_sc2005_xv.Vm.Lookup.{slot, Walks, walk_lem}
use ntu_sc2005_xv.Vm.Entry.{set_leaf, set_leaf-IsSpace, leaf-set_leaf, set_leaf-Out, was-Out}

abbrev pub new_pte : ℕ → ℕ → ℕ
new_pte pa perm = pa2pte pa + or_pte_v perm

-- The entries after `n` pages from the virtual page `vpn` on are mapped to memory from `pa` on.
abbrev pub mapped : ℕ → ℕ → ℕ → ℕ → (ℕ → ℕ) → ℕ → ℕ
mapped n vpn pa perm old v =
    if leb vpn v && ltb v (vpn + n) then new_pte (pa + (v - vpn) * pgsize) perm else old v

abbrev pub Same : (ℕ → ℕ) → (ℕ → ℕ) → Type 0
Same now old = (v : ℕ) → v < 512 ^ 3 → now v ≡ old v

-- What mapping `n` pages comes to: all of them, or some of them because memory is used up.
pub record Maps (kend root n vpn pa perm : ℕ) (xs : List ℕ) (k : Kmem) (r : ℤ × Kmem) : Type 0 where
  pub free : List ℕ
  pub space : IsSpace kend root r.1 free
  pub outside : (y : ℕ) → Out k.mem root xs y → Out r.1.mem root free y
  pub none_lost : (y : ℕ) → Out r.1.mem root free y → Out k.mem root xs y
  pub done :
      ((r.0 ≡ pos 0) × Same (leaf r.1.mem root) (mapped n vpn pa perm (leaf k.mem root)))
      ⊎ ((r.0 ≡ minus_one)
          × (free ≡ [])
          × ((m : ℕ) × (m < n) × Same (leaf r.1.mem root) (mapped m vpn pa perm (leaf k.mem root))))

set_pte_lem :
    (kend root va pa perm : ℕ) (xs : List ℕ) (k : Kmem) (r : Option ℕ × Kmem)
    → va < maxva
    → pte_v (leaf k.mem root (va / 2 ^ 12)) ≡ false
    → Walks kend root va true xs k r
    → (r' : ℤ × Kmem) × (set_pte pa perm r ≡ some r')
      × Maps kend root 1 (va / 2 ^ 12) pa perm xs k r'
unfolding leaf
set_pte_lem kend root va pa perm xs k (none, k') below u w = (
  (minus_one, k'),
  refl,
  record {
    free = w.free;
    space = w.keeps.space;
    outside = w.keeps.outside;
    none_lost = w.keeps.none_lost;
    done =
        inr (refl, w.starved refl refl, (0, omega arith, λ v h. w.keeps.leaves v h ∙ ground arith));
  },
)
set_pte_lem kend root va pa perm xs k (some pte, k') below u w =
    elim (Option-cases (table k'.mem root 2 (va / 2 ^ 21))) [
      | inl e ↦ absurd (none-ne-some pte (sym (w.same ∙ ap (slot va) e)))
      | inr (p, e) ↦
          let at : pte ≡ entry p (px 0 va) = some-injective _ _ (w.same ∙ ap (slot va) e) in
          let q : va / 2 ^ 12 / 512 ≡ va / 2 ^ 21 = omega arith in
          let now : leaf k'.mem root (va / 2 ^ 12) ≡ k'.mem pte = rw (leaf, q, e, at) refl in
          let unused : pte_v (k'.mem pte) ≡ false =
            rw (sym now) (rw (w.keeps.leaves (va / 2 ^ 12) (omega arith)) u) in
          let vpn = va / 2 ^ 12 in
          let e' : table k'.mem root 2 (vpn / 512) ≡ some p = rw q e in
          let w' = new_pte pa perm in
          (
            (pos 0, set_leaf kend root vpn p w' w.free k' w.keeps.space (omega arith) e'),
            rw unused (rw at refl),
            record {
              free = w.free;
              space = set_leaf-IsSpace kend root vpn p w' w.free k' w.keeps.space (omega arith) e';
              outside = λ y o.
                  set_leaf-Out kend root vpn p w' w.free k' w.keeps.space (omega arith) e' y
                    (w.keeps.outside y o);
              none_lost = λ y o.
                  w.keeps.none_lost y
                    (was-Out kend root vpn p w' w.free k' w.keeps.space (omega arith) e' y o);
              done = inl (
                refl,
                λ v h.
                    leaf-set_leaf kend root vpn p w' w.free k' w.keeps.space (omega arith) e' v h
                    ∙ ground (arith, w.keeps.leaves v h),
              );
            },
          )
    ]

map_page_lem :
    (kend root a pa perm : ℕ) (xs : List ℕ) (k : Kmem)
    → a < maxva
    → IsSpace kend root k xs
    → pte_v (leaf k.mem root (a / 2 ^ 12)) ≡ false
    → (r : ℤ × Kmem) × (map_page root a pa perm k ≡ some r)
      × Maps kend root 1 (a / 2 ^ 12) pa perm xs k r
unfolding map_page
map_page_lem kend root a pa perm xs k below s u =
    let (r, e, w) = walk_lem kend root a true xs k below s in
    let (r', e', m) = set_pte_lem kend root a pa perm xs k r below u w in
    (r', rw (map_page, e) e', m)

unfoldable pub Unused : (ℕ → ℕ) → ℕ → ℕ → Type 0
Unused old vpn n = (j : ℕ) → vpn ≤ j → j < vpn + n → pte_v (old j) ≡ false

-- One page and then the rest.
Maps-cons :
    (kend root n vpn pa pa' perm : ℕ) (xs ys : List ℕ) (k k' : Kmem) (r : ℤ × Kmem)
    → ((y : ℕ) → Out k.mem root xs y → Out k'.mem root ys y)
    → ((y : ℕ) → Out k'.mem root ys y → Out k.mem root xs y)
    → pa' ≡ pa + pgsize
    → Same (leaf k'.mem root) (mapped 1 vpn pa perm (leaf k.mem root))
    → Maps kend root n (vpn + 1) pa' perm ys k' r
    → Maps kend root (suc n) vpn pa perm xs k r
Maps-cons kend root n vpn pa pa' perm xs ys k k' r out lost next one m = record {
  free = m.free;
  space = m.space;
  outside = λ y o. m.outside y (out y o);
  none_lost = λ y o. lost y (m.none_lost y o);
  done = elim m.done [
    | inl (z, same) ↦ inl (z, both n same)
    | inr (z, f, (j, l, same)) ↦ inr (z, f, (suc j, omega (arith, l), both j same))
  ];
}
  where
    both :
        (j : ℕ)
        → Same (leaf r.1.mem root) (mapped j (vpn + 1) pa' perm (leaf k'.mem root))
        → Same (leaf r.1.mem root) (mapped (suc j) vpn pa perm (leaf k.mem root))
    both j same v h = ground (arith, next, same v h, one v h)

-- No page at all.
mapped_none :
    (vpn pa perm : ℕ) (old now : ℕ → ℕ) → Same now old → Same now (mapped 0 vpn pa perm old)
mapped_none vpn pa perm old now same v h = same v h ∙ ground arith

still-Unused :
    (vpn n pa perm : ℕ) (old now : ℕ → ℕ)
    → vpn + n < 2 ^ 26
    → Same now (mapped 1 vpn pa perm old)
    → Unused old vpn (suc n)
    → Unused now (vpn + 1) n
unfolding Unused
still-Unused vpn n pa perm old now b same u j l h =
    ground (arith, same j (omega arith), u j (omega arith) (omega arith))

-- One round, for a page that is not mapped.
map_round :
    (kend root vpn a pa perm : ℕ) (xs : List ℕ) (k : Kmem)
    → a ≡ vpn * pgsize
    → vpn < 2 ^ 26
    → IsSpace kend root k xs
    → pte_v (leaf k.mem root vpn) ≡ false
    → (r : ℤ × Kmem) × (map_page root a pa perm k ≡ some r) × Maps kend root 1 vpn pa perm xs k r
map_round kend root vpn a pa perm xs k at b s u =
    let q : a / 2 ^ 12 ≡ vpn = omega (arith, at) in
    let (r, e, m) =
      map_page_lem kend root a pa perm xs k (omega (arith, at)) s
        (subst (λ j. pte_v (leaf k.mem root j) ≡ false) (sym q) u) in
    (r, e, subst (λ j. Maps kend root 1 j pa perm xs k r) q m)

map_stop :
    (fuel root a last pa perm : ℕ) (k : Kmem) (r : ℤ × Kmem)
    → map_page root a pa perm k ≡ some r
    → r.0 ≡ minus_one
    → map_loop (suc fuel) root a last pa perm k ≡ some (minus_one, r.1)
unfolding map_loop
map_stop fuel root a last pa perm k r e z = rw (map_loop, e, z) refl

map_last :
    (fuel root a last pa perm : ℕ) (k : Kmem) (r : ℤ × Kmem)
    → map_page root a pa perm k ≡ some r
    → r.0 ≡ pos 0
    → a ≡ last
    → map_loop (suc fuel) root a last pa perm k ≡ some (pos 0, r.1)
unfolding map_loop
map_last fuel root a last pa perm k r e z at = rw (map_loop, e, z, eq→== a last at) refl

map_next :
    (fuel root a last pa perm : ℕ) (k : Kmem) (r : ℤ × Kmem)
    → map_page root a pa perm k ≡ some r
    → r.0 ≡ pos 0
    → a ≢ last
    → map_loop (suc fuel) root a last pa perm k
      ≡ map_loop fuel root (u64 (a + pgsize)) last (u64 (pa + pgsize)) perm r.1
unfolding map_loop
map_next fuel root a last pa perm k r e z ne = rw (map_loop, e, z, ne→== a last ne) refl

starved_Maps :
    (kend root n vpn pa perm : ℕ) (xs : List ℕ) (k : Kmem) (r : ℤ × Kmem)
    → (m : Maps kend root 1 vpn pa perm xs k r) → m.free ≡ []
    → ((j : ℕ) × (j < 1) × Same (leaf r.1.mem root) (mapped j vpn pa perm (leaf k.mem root)))
    → Maps kend root (suc n) vpn pa perm xs k (minus_one, r.1)
starved_Maps kend root n vpn pa perm xs k r m f (j, l, same) = record {
  free = m.free;
  space = m.space;
  outside = m.outside;
  none_lost = m.none_lost;
  done = inr (refl, f, (j, omega (arith, l), same));
}

map_loop_lem :
    (kend root n vpn a last pa perm : ℕ) (xs : List ℕ) (k : Kmem)
    → a ≡ vpn * pgsize
    → last ≡ (vpn + n) * pgsize
    → vpn + n < 2 ^ 26
    → pa + (n + 1) * pgsize < 2 ^ 64
    → IsSpace kend root k xs
    → Unused (leaf k.mem root) vpn (suc n)
    → (r : ℤ × Kmem) × (map_loop (suc n) root a last pa perm k ≡ some r)
      × Maps kend root (suc n) vpn pa perm xs k r
unfolding Unused
map_loop_lem kend root zero vpn a last pa perm xs k at end b₁ b₂ s u =
    let (r, e, m) =
      map_round kend root vpn a pa perm xs k at (omega arith) s
        (u vpn (omega arith) (omega arith)) in
    elim m.done [
      | inr (z, f, some_pages) ↦ (
        (minus_one, r.1),
        map_stop 0 root a last pa perm k r e z,
        starved_Maps kend root 0 vpn pa perm xs k r m f some_pages,
      )
      | inl (z, same) ↦ (
        (pos 0, r.1),
        map_last 0 root a last pa perm k r e z (omega (arith, at, end)),
        record {
          free = m.free;
          space = m.space;
          outside = m.outside;
          none_lost = m.none_lost;
          done = inl (refl, same);
        },
      )
    ]
map_loop_lem kend root (suc n) vpn a last pa perm xs k at end b₁ b₂ s u =
    let (r, e, m) =
      map_round kend root vpn a pa perm xs k at (omega arith) s
        (u vpn (omega arith) (omega arith)) in
    elim m.done [
      | inr (z, f, some_pages) ↦ (
        (minus_one, r.1),
        map_stop (suc n) root a last pa perm k r e z,
        starved_Maps kend root (suc n) vpn pa perm xs k r m f some_pages,
      )
      | inl (z, same) ↦
          let (r', e', m') =
            map_loop_lem kend root n (vpn + 1) (u64 (a + pgsize)) last (u64 (pa + pgsize)) perm
              m.free r.1 (omega (arith, at)) (omega (arith, end)) (omega arith) (omega arith)
              m.space
              (still-Unused vpn (suc n) pa perm (leaf k.mem root) (leaf r.1.mem root) (omega arith)
                same u) in
          (
            r',
            map_next (suc n) root a last pa perm k r e z (omega (arith, at, end)) ∙ e',
            Maps-cons kend root (suc n) vpn pa (u64 (pa + pgsize)) perm xs m.free k r.1 r' m.outside
                m.none_lost (omega arith) same m',
          )
    ]

enters_loop :
    (root n vpn pa perm : ℕ) (k : Kmem)
    → mappages root (vpn * pgsize) (suc n * pgsize) pa perm k
      ≡ map_loop
          (suc n)
          root
          (vpn * pgsize)
          (u64 (vpn * pgsize + suc n * pgsize - pgsize))
          pa
          perm
          k
unfolding mappages
enters_loop root n vpn pa perm k =
    let va_ok : (vpn * pgsize % pgsize == 0) ≡ true = ground arith in
    let size_ok : (suc n * pgsize % pgsize == 0) ≡ true = ground arith in
    let some_size : (suc n * pgsize == 0) ≡ false = ground arith in
    let fuel : suc n * pgsize / pgsize ≡ suc n = omega arith in
    rw (mappages, va_ok, size_ok, some_size, fuel) refl

-- mappages on pages that are not mapped yet never panics. It returns 0 and has changed the entries of
-- these pages alone, or -1 when no page is left for a table, with a first part of them mapped. The
-- page table stays a tree of pages that are not free, and a page that is neither a table nor free was
-- so before, and the other way round. Addresses are aligned and below MAXVA.
pub mappages_lem :
    (kend root n vpn pa perm : ℕ) (xs : List ℕ) (k : Kmem)
    → 0 < n
    → vpn + n ≤ 2 ^ 26
    → pa + n * pgsize < 2 ^ 64
    → IsSpace kend root k xs
    → Unused (leaf k.mem root) vpn n
    → (r : ℤ × Kmem) × (mappages root (vpn * pgsize) (n * pgsize) pa perm k ≡ some r)
      × Maps kend root n vpn pa perm xs k r
mappages_lem kend root zero vpn pa perm xs k h b₁ b₂ s u = absurd (omega (arith, h))
mappages_lem kend root (suc n) vpn pa perm xs k h b₁ b₂ s u =
    let (r, e, m) =
      map_loop_lem kend root n vpn (vpn * pgsize) (u64 (vpn * pgsize + suc n * pgsize - pgsize)) pa
        perm xs k refl (omega (arith, b₁)) (omega (arith, b₁)) (omega (arith, b₂)) s u in
    (r, enters_loop root n vpn pa perm k ∙ e, m)
