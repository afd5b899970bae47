-- ===== src/Vm/Release.antt =====
-- uvmunmap and uvmdealloc of kernel/vm.c give pages of user memory back.
use mathlib.Core.Bool.{false≢true}
use ntu_sc2005_xv.Prelude.{
  ℕ, zero, suc, ◌+◌, ◌-◌, ◌*◌, ◌/◌, ◌%◌, ◌^◌, ◌≤◌, ◌<◌, ◌≡◌, ◌≢◌, refl, sym, ◌∙◌, ap, subst, inl,
  inr, Bool, true, false, none, some, Option-cases, List, ◌∷◌, length, arith, ◌==◌, ltb, ℕ_discrete,
}
use ntu_sc2005_xv.Prelude.Maps.{update, update_ne}
use ntu_sc2005_xv.Prelude.Int.{u64}
use ntu_sc2005_xv.Kalloc.{Kmem, pgsize, kfree}
use ntu_sc2005_xv.Vm.{
  pte_v, pte2pa, pte_flags, entry, walk, clear_pte, unmap_page, unmap_loop, uvmunmap,
}
use ntu_sc2005_xv.Vm.Tree.{table, leaf}
use ntu_sc2005_xv.Vm.Walk.{IsSpace, Out}
use ntu_sc2005_xv.Vm.Entry.{
  walk_read, set_leaf, set_leaf-IsSpace, set_leaf-Out, leaf-set_leaf, was-Out,
}
use ntu_sc2005_xv.Vm.Agree.{agree-table, agree-leaf, agree-Apart, was-Apart, give_page}
use ntu_sc2005_xv.Vm.Owned.{IsData, Owns, Owns-congr, without, span, upto}

-- A valid entry stands in a table.
valid_leaf :
    (root v : ℕ) (k : Kmem)
    → pte_v (leaf k.mem root v) ≡ true
    → (p : ℕ) × (table k.mem root 2 (v / 512) ≡ some p)
      × (leaf k.mem root v ≡ k.mem (entry p (v % 512)))
unfolding leaf
valid_leaf root v k h = elim (Option-cases (table k.mem root 2 (v / 512))) [
  | inl e ↦ absurd (false≢true (no_entry e))
  | inr (p, e) ↦ (p, e, rw (leaf, e) refl)
]
  where
    no_entry : table k.mem root 2 (v / 512) ≡ none → false ≡ true
    no_entry e = rw (leaf, e) at h

unmap_eq :
    (kend root a pte : ℕ) (k k₁ : Kmem)
    → walk root a false k ≡ some (some pte, k)
    → pte_v (k.mem pte) ≡ true
    → (pte_flags (k.mem pte) == 1) ≡ false
    → kfree kend (pte2pa (k.mem pte)) k ≡ some k₁
    → unmap_page kend root a true k ≡ some (record k₁ { mem = update k₁.mem pte 0 })
unfolding unmap_page
unmap_eq kend root a pte k k₁ w v f e = rw (unmap_page, w, v, f, clear_pte, e) refl

-- A page less.
drop_owned :
    (kend root lim v : ℕ) (own : ℕ → Bool) (k k' : Kmem) (xs : List ℕ)
    → v < lim
    → own v ≡ true
    → Owns kend root lim own k xs
    → IsSpace kend root k' (pte2pa (leaf k.mem root v) ∷ xs)
    → ((u : ℕ) → u < lim → leaf k'.mem root u ≡ update (leaf k.mem root) v 0 u)
    → ((y : ℕ)
        → Out k.mem root xs y
        → y ≢ pte2pa (leaf k.mem root v)
        → Out k'.mem root (pte2pa (leaf k.mem root v) ∷ xs) y)
    → Owns kend root lim (without own v) k' (pte2pa (leaf k.mem root v) ∷ xs)
drop_owned kend root lim v own k k' xs hv mine o s leaves out = record {
  space = s;
  held = λ u h e.
      let (ne, eu) = was u e in
      let same = kept u h ne in
      let d = o.held u h eu in
      subst (IsData kend root k'.mem (pte2pa (leaf k.mem root v) ∷ xs)) (sym same) (record {
        valid = d.valid;
        no_table = d.no_table;
        page = d.page;
        outside = out (pte2pa (leaf k.mem root u)) d.outside (λ p. ne (o.once u v h hv eu mine p));
      });
  unused = λ u h e. elim (ℕ_discrete v u) [
    | yes at ↦ ground (arith, leaves u h, at)
    | no ne ↦ rw (kept u h (λ q. ne (sym q))) (o.unused u h (gone u (λ q. ne (sym q)) e))
  ];
  once = λ u w hu hw eu ew p.
      let (nu, ou) = was u eu in
      let (nw, ow) = was w ew in
      o.once u w hu hw ou ow (ap pte2pa (sym (kept u hu nu)) ∙ p ∙ ap pte2pa (kept w hw nw));
}
  where
    was : (u : ℕ) → without own v u ≡ true → (u ≢ v) × (own u ≡ true)
    was u e = (ground (arith, e), ground (arith, e))

    gone : (u : ℕ) → u ≢ v → without own v u ≡ false → own u ≡ false
    gone u ne e = ground (arith, ne, e)

    kept : (u : ℕ) → u < lim → u ≢ v → leaf k'.mem root u ≡ leaf k.mem root u
    kept u h ne = leaves u h ∙ update_ne (leaf k.mem root) v u 0 (λ q. ne (sym q))

table_walk :
    (kend root v p : ℕ) (k : Kmem) (xs : List ℕ)
    → v < 2 ^ 26
    → IsSpace kend root k xs
    → table k.mem root 2 (v / 512) ≡ some p
    → walk root (v * pgsize) false k ≡ some (some (entry p (v % 512)), k)
table_walk kend root v p k xs h s e =
    let q : v * pgsize / 2 ^ 21 ≡ v / 512 = omega arith in
    let r : v * pgsize / 2 ^ 12 % 512 ≡ v % 512 = omega arith in
    walk_read kend root (v * pgsize) xs k (omega (arith, h)) s ∙ rw (q, e, r) refl

-- The physical page that an entry of virtual page `u` names.
abbrev pub pa_at : ℕ → Kmem → ℕ → ℕ
pa_at root k u = pte2pa (leaf k.mem root u)

-- The free list after the pages of `n` virtual pages from `v` on have been freed, one by one.
abbrev pub released : (ℕ → ℕ) → ℕ → ℕ → List ℕ → List ℕ
released pa zero v xs = xs
released pa (suc n) v xs = released pa n (v + 1) (pa v ∷ xs)

released-congr :
    (pa pa' : ℕ → ℕ) (n v : ℕ) (xs : List ℕ)
    → ((u : ℕ) → v ≤ u → u < v + n → pa u ≡ pa' u)
    → released pa n v xs ≡ released pa' n v xs
released-congr pa pa' zero v xs same = refl
released-congr pa pa' (suc n) v xs same =
    released-congr pa pa' n (v + 1) (pa v ∷ xs)
      (λ u l h. same u (omega (arith, l)) (omega (arith, h)))
    ∙ ap (λ y. released pa' n (v + 1) (y ∷ xs)) (same v (omega arith) (omega arith))

pub length-released :
    (pa : ℕ → ℕ) (n v : ℕ) (xs : List ℕ) → length (released pa n v xs) ≡ n + length xs
length-released pa zero v xs = omega arith
length-released pa (suc n) v xs = omega (arith, length-released pa n (v + 1) (pa v ∷ xs))

-- Unmapping the virtual pages from `m` to `n`: their pages, and no others, are put on the free list;
-- the entries below `m` stay; and a page that is neither a table nor free was so before, and is none
-- of those that were unmapped.
pub record Shrinks (kend root lim m n : ℕ) (k : Kmem) (xs : List ℕ) (k' : Kmem) (ys : List ℕ)
    : Type 0 where
  pub owns : Owns kend root lim (upto m) k' ys
  pub list : ys ≡ released (pa_at root k) (n - m) m xs
  pub kept : (u : ℕ) → u < lim → u < m → leaf k'.mem root u ≡ leaf k.mem root u
  pub none_lost :
      (y : ℕ)
      → Out k'.mem root ys y
      → Out k.mem root xs y × ((u : ℕ) → m ≤ u → u < n → y ≢ pa_at root k u)

-- One round of the loop of `uvmunmap`, at a page that the process has.
pub unmap_page_lem :
    (kend root lim v : ℕ) (own : ℕ → Bool) (k : Kmem) (xs : List ℕ)
    → 0 < kend
    → lim ≤ 2 ^ 26
    → v < lim
    → own v ≡ true
    → Owns kend root lim own k xs
    → (k' : Kmem) × (unmap_page kend root (v * pgsize) true k ≡ some k')
      × Owns kend root lim (without own v) k' (pte2pa (leaf k.mem root v) ∷ xs)
      × ((u : ℕ) → u < lim → leaf k'.mem root u ≡ update (leaf k.mem root) v 0 u)
      × ((y : ℕ)
          → Out k'.mem root (pte2pa (leaf k.mem root v) ∷ xs) y
          → Out k.mem root xs y × (y ≢ pte2pa (leaf k.mem root v)))
unmap_page_lem kend root lim v own k xs pos hl hv mine o =
    let d = o.held v hv mine in
    let (p, e, at) = valid_leaf root v k d.valid in
    let (k₁, freed, agree, s₁) =
      give_page kend root (pte2pa (leaf k.mem root v)) k xs pos o.space d.page d.outside in
    let e₁ : table k₁.mem root 2 (v / 512) ≡ some p =
      agree-table k.mem k₁.mem root agree 2 (v / 512) (omega arith, omega (arith, hl, hv)) ∙ e in
    let h : v < 512 ^ 3 = omega (arith, hv, hl) in
    let x = pte2pa (leaf k.mem root v) in
    let k₂ = set_leaf kend root v p 0 (x ∷ xs) k₁ s₁ h e₁ in
    let leaves : (u : ℕ) → u < lim → leaf k₂.mem root u ≡ update (leaf k.mem root) v 0 u = λ u hu.
      leaf-set_leaf kend root v p 0 (x ∷ xs) k₁ s₁ h e₁ u (omega (arith, hu, hl))
      ∙ still k₁ u (agree-leaf k.mem k₁.mem root agree u (omega (arith, hu, hl))) in
    let found : walk root (v * pgsize) false k ≡ some (some (entry p (v % 512)), k) =
      table_walk kend root v p k xs (omega (arith, hv, hl)) o.space e in
    (
      k₂,
      unmap_eq kend root (v * pgsize) (entry p (v % 512)) k k₁ found
          (subst (λ w. pte_v w ≡ true) at d.valid)
          (subst (λ w. (pte_flags w == 1) ≡ false) at d.no_table)
          (subst (λ w. kfree kend (pte2pa w) k ≡ some k₁) at freed),
      drop_owned kend root lim v own k k₂ xs hv mine o
          (set_leaf-IsSpace kend root v p 0 (x ∷ xs) k₁ s₁ h e₁) leaves
          (λ y out ne.
            set_leaf-Out kend root v p 0 (x ∷ xs) k₁ s₁ h e₁ y
              (agree-Apart k.mem k₁.mem root agree y out.0, (ne, out.1))),
      leaves,
      λ y o'.
          let was = was-Out kend root v p 0 (x ∷ xs) k₁ s₁ h e₁ y o' in
          ((was-Apart k.mem k₁.mem root agree y was.0, was.1.1), was.1.0),
    )
  where
    still :
        (k₁ : Kmem) (u : ℕ)
        → leaf k₁.mem root u ≡ leaf k.mem root u
        → update (leaf k₁.mem root) v 0 u ≡ update (leaf k.mem root) v 0 u
    still k₁ u e = ground (arith, e)

-- The loop of `uvmunmap`, from page `v` to page `n`.
unmap_loop_lem :
    (kend root lim fuel m v n a end : ℕ) (k : Kmem) (xs : List ℕ)
    → 0 < kend
    → lim ≤ 2 ^ 26
    → m ≤ v
    → v + fuel ≡ n
    → n ≤ lim
    → a ≡ v * pgsize
    → end ≡ n * pgsize
    → Owns kend root lim (span m v n) k xs
    → (k' : Kmem) × ((ys : List ℕ) × (unmap_loop fuel kend root a end true k ≡ some k')
        × Owns kend root lim (span m n n) k' ys
        × (ys ≡ released (pa_at root k) fuel v xs)
        × ((u : ℕ) → u < lim → u < v → leaf k'.mem root u ≡ leaf k.mem root u)
        × ((y : ℕ)
            → Out k'.mem root ys y
            → Out k.mem root xs y × ((u : ℕ) → v ≤ u → u < n → y ≢ pa_at root k u)))
unfolding unmap_loop
unmap_loop_lem kend root lim zero m v n a end k xs pos hl hm f hn at to o = (
  k,
  (
    xs,
    refl,
    Owns-congr kend root lim (span m v n) (span m n n) k xs (λ u h. ground (arith, f)) o,
    refl,
    λ u hu l. refl,
    λ y out. (out, λ u l h. absurd (omega (arith, f, l, h))),
  ),
)
unmap_loop_lem kend root lim (suc fuel) m v n a end k xs pos hl hm f hn at to o =
    let (k₁, e, o₁, leaves, lost) =
      unmap_page_lem kend root lim v (span m v n) k xs pos hl (omega (arith, f, hn))
        (ground (arith, f)) o in
    let o₂ =
      Owns-congr kend root lim (without (span m v n) v) (span m (v + 1) n) k₁ _
        (λ u h. ground (arith, hm, f)) o₁ in
    let (k', (ys, e', o', list, kept, lost')) =
      unmap_loop_lem kend root lim fuel m (v + 1) n (u64 (a + pgsize)) end k₁ _ pos hl
        (omega (arith, hm)) (omega (arith, f)) hn (omega (arith, at, hl, hn, f)) to o₂ in
    let more : ltb a end ≡ true = ground (arith, at, to, f) in
    let here : unmap_page kend root a true k ≡ some k₁ =
      subst (λ b. unmap_page kend root b true k ≡ some k₁) (sym at) e in
    let old : (u : ℕ) → u < lim → u ≢ v → leaf k₁.mem root u ≡ leaf k.mem root u =
      λ u hu ne. leaves u hu ∙ update_ne (leaf k.mem root) v u 0 (λ q. ne (sym q)) in
    (
      k',
      (
        ys,
        rw (unmap_loop, more, here) e',
        o',
        list
            ∙ released-congr (pa_at root k₁) (pa_at root k) fuel (v + 1) _
                (λ u l h. ap pte2pa (old u (omega (arith, h, f, hn)) (λ q. omega (arith, q, l)))),
        λ u hu l. kept u hu (omega (arith, l)) ∙ old u hu (λ q. omega (arith, q, l)),
        λ y out.
            let (out₁, others) = lost' y out in
            let (out₀, ne) = lost y out₁ in
            (
              out₀,
              λ u l h. elim (ℕ_discrete v u) [
                | yes at_v ↦ subst (λ w. y ≢ pa_at root k w) at_v ne
                | no differ ↦
                    subst (λ w. y ≢ w)
                      (ap pte2pa (old u (omega (arith, h, hn)) (λ q. differ (sym q))))
                      (others u (omega (arith, l, differ)) h)
              ],
            ),
      ),
    )

uvmunmap_eq :
    (kend root m npages : ℕ) (k : Kmem)
    → uvmunmap kend root (m * pgsize) npages true k
      ≡ unmap_loop npages kend root (m * pgsize) (u64 (m * pgsize + u64 (npages * pgsize))) true k
unfolding uvmunmap
uvmunmap_eq kend root m npages k =
    let ok : (m * pgsize % pgsize == 0) ≡ true = ground arith in rw (uvmunmap, ok) refl

-- uvmunmap, when it is to free pages that the process has, never panics: it unmaps and frees
-- exactly these.
pub uvmunmap_lem :
    (kend root lim m n : ℕ) (k : Kmem) (xs : List ℕ)
    → 0 < kend
    → lim ≤ 2 ^ 26
    → m ≤ n
    → n ≤ lim
    → Owns kend root lim (upto n) k xs
    → (k' : Kmem) × ((ys : List ℕ) × (uvmunmap kend root (m * pgsize) (n - m) true k ≡ some k')
        × Shrinks kend root lim m n k xs k' ys)
uvmunmap_lem kend root lim m n k xs pos hl h hn o =
    let (k', (ys, e, o', list, kept, lost)) =
      unmap_loop_lem kend root lim (n - m) m m n (m * pgsize)
        (u64 (m * pgsize + u64 ((n - m) * pgsize))) k xs pos hl (omega arith) (omega (arith, h)) hn
        refl (omega (arith, h, hn, hl))
        (Owns-congr kend root lim (upto n) (span m m n) k xs (λ u hu. ground (arith, h)) o) in
    (
      k',
      (
        ys,
        uvmunmap_eq kend root m (n - m) k ∙ e,
        record {
          owns = Owns-congr kend root lim (span m n n) (upto m) k' ys (λ u hu. ground arith) o';
          list = list;
          kept = kept;
          none_lost = lost;
        },
      ),
    )
