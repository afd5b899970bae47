-- ===== src/Vm/Claim.antt =====
-- A round of uvmalloc of kernel/vm.c gives the process one page more, or none.
use mathlib.Core.Bool.{false≢true}
use ntu_sc2005_xv.Prelude.{
  ℕ, ◌+◌, ◌-◌, ◌*◌, ◌%◌, ◌^◌, ◌≤◌, ◌<◌, ◌≡◌, ◌≢◌, refl, sym, ◌∙◌, ap, subst, inl, inr, Bool, true,
  false, some, List, [], ◌∷◌, length, arith, ◌==◌, ltb, leb, ◌&&◌, ◌||◌, if◌then◌else◌, ℕ_discrete,
  eq→==, ne→==,
}
use ntu_sc2005_xv.Prelude.Maps.{update, update_ne, update_self}
use ntu_sc2005_xv.Prelude.Int.{ℤ, pos, minus_one}
use ntu_sc2005_xv.Kalloc.{Kmem, pgsize, kalloc, kfree}
use ntu_sc2005_xv.Kalloc.FreeList.{IsPage, kalloc-nil, kalloc-cons}
use ntu_sc2005_xv.Vm.{pte_v, pte2pa, pte_flags, mappages}
use ntu_sc2005_xv.Vm.Tree.{leaf}
use ntu_sc2005_xv.Vm.Walk.{IsSpace, Out}
use ntu_sc2005_xv.Vm.Mapping.{new_pte, mapped, Unused, mappages_lem}
use ntu_sc2005_xv.Vm.Space.{zero_page, alloc_page}
use ntu_sc2005_xv.Vm.Agree.{agree-leaf, agree-Apart, was-Apart, take_page, give_page}
use ntu_sc2005_xv.Vm.Owned.{IsData, Owns}

abbrev pub plus : (ℕ → Bool) → ℕ → ℕ → Bool
plus own v u = own u || u == v

-- What `uvmalloc` asks of the flags: some access, and no bits of an address.
abbrev pub IsPerm : ℕ → Type 0
IsPerm perm = (2 ≤ perm) × (perm < 1024)

new_entry :
    (x perm : ℕ)
    → x % pgsize ≡ 0
    → x < 2 ^ 64
    → IsPerm perm
    → (pte_v (new_pte x perm) ≡ true)
      × ((pte_flags (new_pte x perm) == 1) ≡ false)
      × (pte2pa (new_pte x perm) ≡ x)
new_entry x perm al b p = (
  ground (arith, al, b, p.0, p.1),
  ground (arith, al, b, p.0, p.1),
  ground (arith, al, b, p.0, p.1),
)

-- The same pages, in a memory that holds them apart from tables and free pages.
keep_owned :
    (kend root lim : ℕ) (own : ℕ → Bool) (k k' : Kmem) (xs ys : List ℕ)
    → Owns kend root lim own k xs
    → IsSpace kend root k' ys
    → ((u : ℕ) → u < lim → leaf k'.mem root u ≡ leaf k.mem root u)
    → ((y : ℕ) → Out k.mem root xs y → Out k'.mem root ys y)
    → Owns kend root lim own k' ys
keep_owned kend root lim own k k' xs ys o s leaves out = record {
  space = s;
  held = λ u h e.
      let d = o.held u h e in
      subst (IsData kend root k'.mem ys) (sym (leaves u h)) (record {
        valid = d.valid;
        no_table = d.no_table;
        page = d.page;
        outside = out (pte2pa (leaf k.mem root u)) d.outside;
      });
  unused = λ u h e. rw (leaves u h) (o.unused u h e);
  once = λ u w hu hw eu ew p.
      o.once u w hu hw eu ew (ap pte2pa (sym (leaves u hu)) ∙ p ∙ ap pte2pa (leaves w hw));
}

-- A page more, at `x`.
add_owned :
    (kend root lim v x perm : ℕ) (own : ℕ → Bool) (k k' : Kmem) (xs ys : List ℕ)
    → v < lim
    → own v ≡ false
    → IsPage kend x
    → x < 2 ^ 64
    → IsPerm perm
    → Owns kend root lim own k xs
    → IsSpace kend root k' ys
    → ((u : ℕ) → u < lim → leaf k'.mem root u ≡ update (leaf k.mem root) v (new_pte x perm) u)
    → ((y : ℕ) → Out k.mem root xs y → Out k'.mem root ys y × (y ≢ x))
    → Out k'.mem root ys x
    → Owns kend root lim (plus own v) k' ys
add_owned kend root lim v x perm own k k' xs ys hv mine page big perm_ok o s leaves out outx =
    record {
      space = s;
      held = λ u h e. elim (ℕ_discrete v u) [
        | yes at ↦
            let (va, nt, pa) = new_entry x perm page.aligned big perm_ok in
            subst (IsData kend root k'.mem ys) (sym (new u h at))
              (record { valid = va; no_table = nt; page = rw pa page; outside = rw pa outx })
        | no ne ↦
            let d = o.held u h (was u ne e) in
            subst (IsData kend root k'.mem ys) (sym (old u h ne)) (record {
              valid = d.valid;
              no_table = d.no_table;
              page = d.page;
              outside = (out (pte2pa (leaf k.mem root u)) d.outside).0;
            })
      ];
      unused = λ u h e. let (ne, eu) = not_there u e in rw (old u h ne) (o.unused u h eu);
      once = λ u w hu hw eu ew p. elim (ℕ_discrete v u) [
        | yes at ↦ elim (ℕ_discrete v w) [
          | yes at' ↦ sym at ∙ at'
          | no ne ↦ absurd (clash u w hu hw at ne ew p)
        ]
        | no ne ↦ elim (ℕ_discrete v w) [
          | yes at' ↦ absurd (clash w u hw hu at' ne eu (sym p))
          | no ne' ↦
              o.once u w hu hw (was u ne eu) (was w ne' ew)
                (ap pte2pa (sym (old u hu ne)) ∙ p ∙ ap pte2pa (old w hw ne'))
        ]
      ];
    }
  where
    new : (u : ℕ) → u < lim → v ≡ u → leaf k'.mem root u ≡ new_pte x perm
    new u h at =
        leaves u h
        ∙ subst (λ j. update (leaf k.mem root) v (new_pte x perm) j ≡ new_pte x perm) at
            (update_self (leaf k.mem root) v (new_pte x perm))

    old : (u : ℕ) → u < lim → v ≢ u → leaf k'.mem root u ≡ leaf k.mem root u
    old u h ne = leaves u h ∙ update_ne (leaf k.mem root) v u (new_pte x perm) ne

    was : (u : ℕ) → v ≢ u → plus own v u ≡ true → own u ≡ true
    was u ne e = ground (arith, e, ne)

    not_there : (u : ℕ) → plus own v u ≡ false → (v ≢ u) × (own u ≡ false)
    not_there u e = (ground (arith, e), ground (arith, e))

    pa_of : (u : ℕ) → u < lim → v ≡ u → pte2pa (leaf k'.mem root u) ≡ x
    pa_of u h at = ap pte2pa (new u h at) ∙ (new_entry x perm page.aligned big perm_ok).2

    clash :
        (u w : ℕ)
        → u < lim
        → w < lim
        → v ≡ u
        → v ≢ w
        → plus own v w ≡ true
        → pte2pa (leaf k'.mem root u) ≡ pte2pa (leaf k'.mem root w)
        → ⊥
    clash u w hu hw at ne ew p =
        let d = o.held w hw (was w ne ew) in
        (out (pte2pa (leaf k.mem root w)) d.outside).1
          (ap pte2pa (sym (old w hw ne)) ∙ sym p ∙ pa_of u hu at)

alloc_none :
    (kend root a perm : ℕ) (k : Kmem)
    → kalloc k ≡ (0, k)
    → alloc_page kend root a perm k ≡ some (false, k)
unfolding alloc_page
alloc_none kend root a perm k e = rw (alloc_page, e) refl

alloc_some :
    (kend root a perm x : ℕ) (k k' : Kmem)
    → (kalloc k).0 ≡ x
    → x ≢ 0
    → mappages root a pgsize x perm (zero_page x (kalloc k).1) ≡ some (pos 0, k')
    → alloc_page kend root a perm k ≡ some (true, k')
unfolding alloc_page
alloc_some kend root a perm x k k' e ne m = rw (alloc_page, e, ne→== x 0 ne, m) refl

alloc_fail :
    (kend root a perm x : ℕ) (k k₁ k' : Kmem)
    → (kalloc k).0 ≡ x
    → x ≢ 0
    → mappages root a pgsize x perm (zero_page x (kalloc k).1) ≡ some (minus_one, k₁)
    → kfree kend x k₁ ≡ some k'
    → alloc_page kend root a perm k ≡ some (false, k')
unfolding alloc_page
alloc_fail kend root a perm x k k₁ k' e ne m f =
    let freed = subst (λ y. kfree kend y k₁ ≡ some k') (sym e) f in
    rw (alloc_page, e, ne→== x 0 ne, m, freed) refl

-- One round of the loop of `uvmalloc`: a page more, or no memory and the same pages. No page is lost:
-- one that is neither a table, nor free, nor the new page was so before.
pub alloc_page_lem :
    (kend root lim v perm : ℕ) (own : ℕ → Bool) (k : Kmem) (xs : List ℕ)
    → 0 < kend
    → lim ≤ 2 ^ 26
    → v < lim
    → own v ≡ false
    → IsPerm perm
    → Owns kend root lim own k xs
    → (b : Bool) × ((k' : Kmem) × ((ys : List ℕ) × (alloc_page kend root (v * pgsize) perm k
            ≡ some (b, k'))
          × Owns kend root lim (if b then plus own v else own) k' ys
          × ((u : ℕ) → u < lim → u ≢ v → leaf k'.mem root u ≡ leaf k.mem root u)
          × ((y : ℕ)
              → Out k'.mem root ys y
              → (b ≡ true → y ≢ pte2pa (leaf k'.mem root v))
              → Out k.mem root xs y)
          × (b ≡ false → length ys ≤ 1)
          × (b ≡ true → leaf k'.mem root v ≡ new_pte (pte2pa (leaf k'.mem root v)) perm)))
unfolding Unused
alloc_page_lem kend root lim v perm own k [] kp hl hv mine p o = (
  false,
  (
    k,
    (
      [],
      alloc_none kend root (v * pgsize) perm k (kalloc-nil kend k o.space.valid),
      o,
      λ u hu ne. refl,
      λ y out new. out,
      λ none_left. omega arith,
      λ h. absurd (false≢true h),
    ),
  ),
)
alloc_page_lem kend root lim v perm own k (x ∷ xs) kp hl hv mine p o =
    let s = o.space in
    let at : (kalloc k).0 ≡ x = (kalloc-cons kend k x xs s.valid).0 in
    let ne : x ≢ 0 = s.valid.linked.1 in
    let k₁ = zero_page x (kalloc k).1 in
    let (agree, s₁) = take_page kend root x k xs s in
    let leaves₁ : (u : ℕ) → u < lim → leaf k₁.mem root u ≡ leaf k.mem root u =
      λ u h. agree-leaf k.mem k₁.mem root agree u (omega (arith, h, hl)) in
    let free : Unused (leaf k₁.mem root) v 1 = still_free v k₁ leaves₁ hv (o.unused v hv mine) in
    let (r, e, m) =
      mappages_lem kend root 1 v x perm xs k₁ (omega arith) (omega (arith, hv, hl))
        (omega (arith, s.valid.pages.0.below)) s₁ free in
    let outx : Out r.1.mem root m.free x =
      m.outside x (agree-Apart k.mem k₁.mem root agree x s.apart.0, s.valid.distinct.0) in
    let out : (y : ℕ) → Out k.mem root (x ∷ xs) y → Out r.1.mem root m.free y × (y ≢ x) =
      λ y (oy : Out k.mem root (x ∷ xs) y).
        (m.outside y (agree-Apart k.mem k₁.mem root agree y oy.0, oy.1.1), oy.1.0) in
    let back : (y : ℕ) → y ≢ x → Out r.1.mem root m.free y → Out k.mem root (x ∷ xs) y = λ y ney oy.
      let was = m.none_lost y oy in (was-Apart k.mem k₁.mem root agree y was.0, (ney, was.1)) in
    elim m.done [
      | inl (z, same) ↦ (
        true,
        (
          r.1,
          (
            m.free,
            alloc_some kend root (v * pgsize) perm x k r.1 at ne
                (e ∙ ap (λ (i : ℤ). some (i, r.1)) z),
            add_owned kend root lim v x perm own k r.1 (x ∷ xs) m.free hv mine s.valid.pages.0
                (omega (arith, s.valid.pages.0.below)) p o m.space
                (λ u h. same u (omega (arith, h, hl)) ∙ one_more v x u k₁ (leaves₁ u h)) out outx,
            λ u h neu.
                same u (omega (arith, h, hl))
                ∙ one_more v x u k₁ (leaves₁ u h)
                ∙ update_ne (leaf k.mem root) v u (new_pte x perm) (λ q. neu (sym q)),
            λ y oy new.
                let there : leaf r.1.mem root v ≡ new_pte x perm =
                  same v (omega (arith, hv, hl))
                  ∙ one_more v x v k₁ (leaves₁ v hv)
                  ∙ update_self (leaf k.mem root) v (new_pte x perm) in
                let (_, _, pa) =
                  new_entry x perm s.valid.pages.0.aligned (omega (arith, s.valid.pages.0.below))
                    p in
                back y (λ q. new refl (q ∙ sym (ap pte2pa there ∙ pa))) oy,
            λ h. absurd (false≢true (sym h)),
            λ h.
                let (_, _, pa) =
                  new_entry x perm s.valid.pages.0.aligned (omega (arith, s.valid.pages.0.below))
                    p in
                there r.1 (same v (omega (arith, hv, hl)) ∙ one_more v x v k₁ (leaves₁ v hv)) pa,
          ),
        ),
      )
      | inr (z, f, (j, l, same)) ↦
          let (k', freed, agree', s') =
            give_page kend root x r.1 m.free kp m.space s.valid.pages.0 outx in
          (
            false,
            (
              k',
              (
                x ∷ m.free,
                alloc_fail kend root (v * pgsize) perm x k r.1 k' at ne
                    (e ∙ ap (λ (i : ℤ). some (i, r.1)) z) freed,
                keep_owned kend root lim own k k' (x ∷ xs) (x ∷ m.free) o s'
                    (λ u h.
                      agree-leaf r.1.mem k'.mem root agree' u (omega (arith, h, hl))
                      ∙ same u (omega (arith, h, hl))
                      ∙ no_more j v x u k₁ l (leaves₁ u h))
                    (λ y oy.
                      let oy' = out y oy in
                      (agree-Apart r.1.mem k'.mem root agree' y oy'.0.0, (oy'.1, oy'.0.1))),
                λ u h neu.
                    agree-leaf r.1.mem k'.mem root agree' u (omega (arith, h, hl))
                    ∙ same u (omega (arith, h, hl))
                    ∙ no_more j v x u k₁ l (leaves₁ u h),
                λ y oy new. back y oy.1.0 (was-Apart r.1.mem k'.mem root agree' y oy.0, oy.1.1),
                λ h. omega (arith, ap length f),
                λ h. absurd (false≢true h),
              ),
            ),
          )
    ]
  where
    there :
        {x : ℕ} (k' : Kmem)
        → leaf k'.mem root v ≡ update (leaf k.mem root) v (new_pte x perm) v
        → pte2pa (new_pte x perm) ≡ x
        → leaf k'.mem root v ≡ new_pte (pte2pa (leaf k'.mem root v)) perm
    there {x} k' e pa =
        let at : leaf k'.mem root v ≡ new_pte x perm =
          e ∙ update_self (leaf k.mem root) v (new_pte x perm) in
        at ∙ ap (λ y. new_pte y perm) (sym (ap pte2pa at ∙ pa))

    still_free :
        (v : ℕ) (k₁ : Kmem)
        → ((u : ℕ) → u < lim → leaf k₁.mem root u ≡ leaf k.mem root u)
        → v < lim
        → pte_v (leaf k.mem root v) ≡ false
        → Unused (leaf k₁.mem root) v 1
    still_free v k₁ same hv u j l h =
        let q : v ≡ j = omega arith in
        subst (λ i. pte_v (leaf k₁.mem root i) ≡ false) q (rw (same v hv) u)

    one_more :
        (v x u : ℕ) (k₁ : Kmem)
        → leaf k₁.mem root u ≡ leaf k.mem root u
        → mapped 1 v x perm (leaf k₁.mem root) u ≡ update (leaf k.mem root) v (new_pte x perm) u
    one_more v x u k₁ e = elim (ℕ_discrete v u) [
      | yes at ↦
          let base : x + (u - v) * pgsize ≡ x = omega (arith, at) in
          let inside : (leb v u && ltb u (v + 1)) ≡ true = ground (arith, at) in
          rw (inside, base, eq→== v u at) refl
      | no ne ↦
          let outside : (leb v u && ltb u (v + 1)) ≡ false = ground (arith, ne) in
          rw (outside, ne→== v u ne) e
    ]

    no_more :
        (j v x u : ℕ) (k₁ : Kmem)
        → j < 1
        → leaf k₁.mem root u ≡ leaf k.mem root u
        → mapped j v x perm (leaf k₁.mem root) u ≡ leaf k.mem root u
    no_more j v x u k₁ l e = ground (arith, l, e)
