-- ===== src/Vm/Walk.antt =====
-- What walk of kernel/vm.c does to a page table that is a tree, in a memory with a free list.
use mathlib.Core.Bool.{false≢true}
use mathlib.Core.Option.{none-ne-some}
use ntu_sc2005_xv.Prelude.{
  ℕ, suc, ◌+◌, ◌*◌, ◌/◌, ◌%◌, ◌^◌, ◌≤◌, ◌<◌, ◌≡◌, ◌≢◌, refl, sym, ◌∙◌, ap, subst, inl, inr, Bool,
  true, false, Option, none, some, List, [], ◌∷◌, Bool-cases, arith, ◌==◌,
}
use ntu_sc2005_xv.Prelude.Maps.{update, update_self}
use ntu_sc2005_xv.Kalloc.{Kmem, kalloc, fill_page, pgsize}
use ntu_sc2005_xv.Kalloc.FreeList.{
  All, IsPage, IsValid, Chain-congr, kalloc-nil, kalloc_elsewhere, kalloc-cons,
}
use ntu_sc2005_xv.Vm.{pte_v, pa2pte, pte2pa, or_pte_v, entry, next_table}
use ntu_sc2005_xv.Vm.Tree.{
  child, table, leaf, IsNode, IsTree, Apart, entry_inj, IsNode-child, table_step, Grows, at_new,
  table-grow,
}
use ntu_sc2005_xv.Vm.Grow.{was-Apart, Grows-IsTree, Grows-Apart, leaf-grow}

-- The page table is a tree of pages that are not free.
pub record IsSpace (kend root : ℕ) (k : Kmem) (xs : List ℕ) : Type 0 where
  pub valid : IsValid kend k xs
  pub tree : IsTree kend k.mem root
  pub apart : All (Apart k.mem root) xs

-- The page at `y` is no table and not free: it holds something else.
abbrev pub Out : (ℕ → ℕ) → ℕ → List ℕ → ℕ → Type 0
Out mem root xs y = Apart mem root y × All (λ x. y ≢ x) xs

-- `k'` is such a memory too, with the translations of `k`. No page is lost: one that is neither a
-- table nor free was so before.
pub record Keeps (kend root : ℕ) (k : Kmem) (xs : List ℕ) (k' : Kmem) (ys : List ℕ) : Type 0 where
  pub space : IsSpace kend root k' ys
  pub outside : (y : ℕ) → Out k.mem root xs y → Out k'.mem root ys y
  pub none_lost : (y : ℕ) → Out k'.mem root ys y → Out k.mem root xs y
  pub leaves : (vpn : ℕ) → vpn < 512 ^ 3 → leaf k'.mem root vpn ≡ leaf k.mem root vpn

-- A memory that agrees on the free pages has the same free list.
pub IsValid-congr :
    (kend : ℕ) (k : Kmem) (mem : ℕ → ℕ) (xs : List ℕ)
    → All (λ y. mem y ≡ k.mem y) xs
    → IsValid kend k xs
    → IsValid kend (record k { mem = mem }) xs
IsValid-congr kend k mem xs same v = record {
  linked = Chain-congr k.mem mem k.freelist xs same v.linked;
  pages = v.pages;
  distinct = v.distinct;
}

pub All-zip :
    (P Q R : ℕ → Type 0) (xs : List ℕ)
    → ((y : ℕ) → P y → Q y → R y)
    → All P xs
    → All Q xs
    → All R xs
All-zip P Q R [] f p q = tt
All-zip P Q R (y ∷ xs) f p q = (f y p.0 q.0, All-zip P Q R xs f p.1 q.1)

-- The word that makes a page the next table.
link_lem :
    (kend x : ℕ)
    → IsPage kend x
    → (pte_v (or_pte_v (pa2pte x)) ≡ true) × (pte2pa (or_pte_v (pa2pte x)) ≡ x)
link_lem kend x h = (ground (arith, h.aligned, h.below), ground (arith, h.aligned, h.below))

-- The memory after `walk` has added the page `x`, that kalloc has filled, at the entry `a`.
abbrev added : ℕ → ℕ → Kmem → Kmem
added a x k = record k { mem = update (fill_page x 0 k.mem) a (or_pte_v (pa2pte x)) }

pub outside_page :
    (kend x p i : ℕ)
    → IsPage kend x
    → IsPage kend p
    → x ≢ p
    → i < 512
    → x ≤ entry p i
    → entry p i < x + pgsize
    → ⊥
outside_page kend x p i hx hp ne h l u = omega (arith, hx.aligned, hp.aligned)

added_elsewhere :
    (kend x a a' : ℕ) (xs : List ℕ) (k : Kmem)
    → IsValid kend k (x ∷ xs)
    → a' ≢ a
    → (x ≤ a' → a' < x + pgsize → ⊥)
    → (added a x (kalloc k).1).mem a' ≡ k.mem a'
added_elsewhere kend x a a' xs k v ne out =
    ground (arith, kalloc_elsewhere kend k x xs a' v out, out)

-- What holds for the new table that the page `x` becomes.
added-Grows :
    (kend root d₀ key₀ p₀ i₀ x : ℕ) (xs : List ℕ) (k : Kmem)
    → IsSpace kend root k (x ∷ xs)
    → d₀ < 2
    → IsNode d₀ key₀
    → i₀ < 512
    → table k.mem root d₀ key₀ ≡ some p₀
    → pte_v (k.mem (entry p₀ i₀)) ≡ false
    → Grows kend k.mem (added (entry p₀ i₀) x (kalloc k).1).mem root d₀ key₀ p₀ i₀ x
added-Grows kend root d₀ key₀ p₀ i₀ x xs k s dd n ii e u = record {
  depth = dd;
  node = n;
  index = ii;
  parent = e;
  unused = u;
  page = s.valid.pages.0;
  apart = s.apart.0;
  link =
      let (v, at) = link_lem kend x s.valid.pages.0 in
      rw (update_self (fill_page x 0 (kalloc k).1.mem) (entry p₀ i₀) (or_pte_v (pa2pte x)), v, at)
        refl;
  zeros = λ i h.
      let page₀ = s.tree.pages d₀ key₀ p₀ n e in
      let ne = s.apart.0 d₀ key₀ p₀ n e in
      let out : entry p₀ i₀ ≢ entry x i =
        λ same. ne (entry_inj kend p₀ x i₀ i page₀ s.valid.pages.0 ii h same).0 in
      ground (arith, out);
  others = λ d key p i n' e' h ne.
      added_elsewhere kend x (entry p₀ i₀) (entry p i) xs k s.valid ne (
        outside_page kend x p i s.valid.pages.0 (s.tree.pages d key p n' e')
          (λ same. s.apart.0 d key p n' e' (sym same)) h);
}

added-IsValid :
    (kend root d₀ key₀ p₀ i₀ x : ℕ) (xs : List ℕ) (k : Kmem)
    → IsSpace kend root k (x ∷ xs)
    → IsNode d₀ key₀
    → i₀ < 512
    → table k.mem root d₀ key₀ ≡ some p₀
    → IsValid kend (added (entry p₀ i₀) x (kalloc k).1) xs
added-IsValid kend root d₀ key₀ p₀ i₀ x xs k s n ii e =
    let page₀ = s.tree.pages d₀ key₀ p₀ n e in
    let (at, v) = kalloc-cons kend k x xs s.valid in
    IsValid-congr kend (kalloc k).1 _ xs
      (All-zip (λ y. x ≢ y) (λ y. IsPage kend y × Apart k.mem root y) _ xs
        (λ y ne hy.
          let out : entry p₀ i₀ ≢ y = λ same.
            hy.1 d₀ key₀ p₀ n e
              (entry_inj kend p₀ y i₀ 0 page₀ hy.0 ii (omega arith) (omega (arith, same))).0 in
          ground (arith, out, outside_page kend x y 0 s.valid.pages.0 hy.0 ne (omega arith)))
        s.valid.distinct.0
        (All-zip (IsPage kend) (Apart k.mem root) _ xs (λ y a b. (a, b)) s.valid.pages.1 s.apart.1))
      v

pub Keeps-refl :
    (kend root : ℕ) (xs : List ℕ) (k : Kmem) → IsSpace kend root k xs → Keeps kend root k xs k xs
Keeps-refl kend root xs k s = record {
  space = s;
  outside = λ y o. o;
  none_lost = λ y o. o;
  leaves = λ vpn h. refl;
}

Keeps-added :
    (kend root d₀ key₀ p₀ i₀ x : ℕ) (xs : List ℕ) (k : Kmem)
    → IsSpace kend root k (x ∷ xs)
    → d₀ < 2
    → IsNode d₀ key₀
    → i₀ < 512
    → table k.mem root d₀ key₀ ≡ some p₀
    → pte_v (k.mem (entry p₀ i₀)) ≡ false
    → Keeps kend root k (x ∷ xs) (added (entry p₀ i₀) x (kalloc k).1) xs
Keeps-added kend root d₀ key₀ p₀ i₀ x xs k s dd n ii e u =
    let k' = added (entry p₀ i₀) x (kalloc k).1 in
    let g = added-Grows kend root d₀ key₀ p₀ i₀ x xs k s dd n ii e u in
    record {
      space = record {
        valid = added-IsValid kend root d₀ key₀ p₀ i₀ x xs k s n ii e;
        tree = Grows-IsTree kend k.mem k'.mem root d₀ key₀ p₀ i₀ x s.tree g;
        apart =
            All-zip (λ y. x ≢ y) (Apart k.mem root) (Apart k'.mem root) xs
              (λ y ne a. Grows-Apart kend k.mem k'.mem root d₀ key₀ p₀ i₀ x s.tree g y ne a)
              s.valid.distinct.0 s.apart.1;
      };
      outside = λ y (o : Out k.mem root (x ∷ xs) y). (
        Grows-Apart kend k.mem k'.mem root d₀ key₀ p₀ i₀ x s.tree g y (λ e'. o.1.0 (sym e')) o.0,
        o.1.1,
      );
      none_lost = λ y (o : Out k'.mem root xs y).
          let (was, ne) = was-Apart kend k.mem k'.mem root d₀ key₀ p₀ i₀ x s.tree g y o.0 in
          (was, (ne, o.1));
      leaves = leaf-grow kend k.mem k'.mem root d₀ key₀ p₀ i₀ x s.tree g;
    }

-- What a part of `walk` leaves and returns: the table at a node, as the tree has it afterwards.
pub record Steps (kend root d key : ℕ) (alloc : Bool) (xs : List ℕ) (k : Kmem) (r : Option ℕ × Kmem)
    : Type 0 where
  pub free : List ℕ
  pub keeps : Keeps kend root k xs r.1 free
  pub reads : alloc ≡ false → r.1 ≡ k
  pub same : r.0 ≡ table r.1.mem root d key
  pub starved : r.0 ≡ none → alloc ≡ true → free ≡ []

valid_entry :
    (a : ℕ) (alloc : Bool) (k : Kmem)
    → pte_v (k.mem a) ≡ true
    → next_table a alloc k ≡ (some (pte2pa (k.mem a)), k)
valid_entry a alloc k v = rw v

no_alloc : (a : ℕ) (k : Kmem) → pte_v (k.mem a) ≡ false → next_table a false k ≡ (none, k)
no_alloc a k u = rw u

no_page :
    (kend a : ℕ) (k : Kmem)
    → IsValid kend k []
    → pte_v (k.mem a) ≡ false
    → next_table a true k ≡ (none, k)
no_page kend a k v u = rw (u, kalloc-nil kend k v) refl

one_page :
    (kend a x : ℕ) (xs : List ℕ) (k : Kmem)
    → IsValid kend k (x ∷ xs)
    → pte_v (k.mem a) ≡ false
    → next_table a true k ≡ (some x, added a x (kalloc k).1)
one_page kend a x xs k v u =
    let at : (kalloc k).0 ≡ x = (kalloc-cons kend k x xs v).0 in
    let some_page : (x == 0) ≡ false = ground (arith, v.linked.1) in rw (u, at, some_page) refl

pub next_table_lem :
    (kend root d key p i : ℕ) (alloc : Bool) (xs : List ℕ) (k : Kmem)
    → IsSpace kend root k xs
    → d < 2
    → IsNode d key
    → i < 512
    → table k.mem root d key ≡ some p
    → Steps kend root (suc d) (key * 512 + i) alloc xs k (next_table (entry p i) alloc k)
next_table_lem kend root d key p i alloc xs k s dd n ii e =
    elim (Bool-cases (pte_v (k.mem (entry p i)))) [
      | inl v ↦
          subst (λ r. Steps kend root (suc d) (key * 512 + i) alloc xs k r)
            (sym (valid_entry (entry p i) alloc k v))
            (record {
              free = xs;
              keeps = Keeps-refl kend root xs k s;
              reads = λ h. refl;
              same = sym (below ∙ rw v);
              starved = λ h. absurd (none-ne-some _ (sym h));
            })
      | inr u ↦ unused alloc xs s u
    ]
  where
    below : table k.mem root (suc d) (key * 512 + i) ≡ child k.mem (entry p i)
    below =
        let q : (key * 512 + i) / 512 ≡ key = omega arith in
        let r : (key * 512 + i) % 512 ≡ i = omega arith in
        table_step k.mem root d (key * 512 + i) p (rw q e) ∙ ap (λ j. child k.mem (entry p j)) r

    unused :
        (alloc : Bool) (xs : List ℕ)
        → IsSpace kend root k xs
        → pte_v (k.mem (entry p i)) ≡ false
        → Steps kend root (suc d) (key * 512 + i) alloc xs k (next_table (entry p i) alloc k)
    unused false xs s u =
        subst (λ r. Steps kend root (suc d) (key * 512 + i) false xs k r)
          (sym (no_alloc (entry p i) k u))
          (record {
            free = xs;
            keeps = Keeps-refl kend root xs k s;
            reads = λ h. refl;
            same = sym (below ∙ rw u);
            starved = λ h f. absurd (false≢true f);
          })
    unused true [] s u =
        subst (λ r. Steps kend root (suc d) (key * 512 + i) true [] k r)
          (sym (no_page kend (entry p i) k s.valid u))
          (record {
            free = [];
            keeps = Keeps-refl kend root [] k s;
            reads = λ h. refl;
            same = sym (below ∙ rw u);
            starved = λ h f. refl;
          })
    unused true (x ∷ xs) s u =
        subst (λ r. Steps kend root (suc d) (key * 512 + i) true (x ∷ xs) k r)
          (sym (one_page kend (entry p i) x xs k s.valid u))
          (record {
            free = xs;
            keeps = Keeps-added kend root d key p i x xs k s dd n ii e u;
            reads = λ h. absurd (false≢true (sym h));
            same =
                let k' = added (entry p i) x (kalloc k).1 in
                let g = added-Grows kend root d key p i x xs k s dd n ii e u in
                let new : at_new kend k.mem k'.mem root d key p i x s.tree g (suc d) (key * 512 + i)
                    ≡ true =
                  ground arith in
                sym (
                  table-grow kend k.mem k'.mem root d key p i x s.tree g (suc d) (key * 512 + i)
                    (IsNode-child d key i dd n ii)
                  ∙ rw new);
            starved = λ h. absurd (none-ne-some _ (sym h));
          })
