-- ===== src/Vm/Lookup.antt =====
-- The whole walk of kernel/vm.c, and walkaddr, against the entries of the tree.
use mathlib.Core.Option.{none-ne-some}
use ntu_sc2005_xv.Prelude.{
  ℕ, ◌+◌, ◌*◌, ◌/◌, ◌^◌, ◌<◌, ◌≡◌, refl, sym, ◌∙◌, ap, subst, Bool, true, false, Option, none, some,
  List, [], arith, leb,
}
use ntu_sc2005_xv.Kalloc.{Kmem}
use ntu_sc2005_xv.Vm.{entry, px, maxva, next_table, walk_loop, walk}
use ntu_sc2005_xv.Vm.Tree.{table, table_stop}
use ntu_sc2005_xv.Vm.Walk.{IsSpace, Keeps, Steps, next_table_lem}

-- The address of the last entry for `va`, under the table for it.
abbrev pub slot : ℕ → Option ℕ → Option ℕ
slot va none = none
slot va (some p) = some (entry p (px 0 va))

-- What the walk leaves and returns.
pub record Walks (kend root va : ℕ) (alloc : Bool) (xs : List ℕ) (k : Kmem) (r : Option ℕ × Kmem)
    : Type 0 where
  pub free : List ℕ
  pub keeps : Keeps kend root k xs r.1 free
  pub reads : alloc ≡ false → r.1 ≡ k
  pub same : r.0 ≡ slot va (table r.1.mem root 2 (va / 2 ^ 21))
  pub starved : r.0 ≡ none → alloc ≡ true → free ≡ []

pub Keeps-trans :
    (kend root : ℕ) (xs ys zs : List ℕ) (k k' k'' : Kmem)
    → Keeps kend root k xs k' ys
    → Keeps kend root k' ys k'' zs
    → Keeps kend root k xs k'' zs
Keeps-trans kend root xs ys zs k k' k'' a b = record {
  space = b.space;
  outside = λ y o. b.outside y (a.outside y o);
  none_lost = λ y o. a.none_lost y (b.none_lost y o);
  leaves = λ vpn h. b.leaves vpn h ∙ a.leaves vpn h;
}

module _ (kend root va : ℕ) (alloc : Bool) (below : va < maxva) where
  -- From the table of the last level that one round has found.
  last_table :
      (xs : List ℕ) (k : Kmem) (r : Option ℕ × Kmem)
      → Steps kend root 2 (va / 2 ^ 21) alloc xs k r
      → Walks kend root va alloc xs k
          (elim r.0 [ none ↦ (none, r.1) | some p ↦ (some (entry p (px 0 va)), r.1) ])
  last_table xs k (none, k') w = record {
    free = w.free;
    keeps = w.keeps;
    reads = w.reads;
    same = ap (slot va) w.same;
    starved = w.starved;
  }
  last_table xs k (some p, k') w = record {
    free = w.free;
    keeps = w.keeps;
    reads = w.reads;
    same = ap (slot va) w.same;
    starved = λ h. absurd (none-ne-some _ (sym h));
  }

  -- From the table of the middle level that a round has found.
  middle_table :
      (xs : List ℕ) (k : Kmem) (r : Option ℕ × Kmem)
      → Steps kend root 1 (va / 2 ^ 30) alloc xs k r
      → Walks kend root va alloc xs k
          (elim r.0 [ none ↦ (none, r.1) | some p ↦ walk_loop 1 p va alloc r.1 ])
  unfolding walk_loop
  middle_table xs k (none, k') w = record {
    free = w.free;
    keeps = w.keeps;
    reads = w.reads;
    same = sym (
        ap (slot va) (
          table_stop k'.mem root 1 (va / 2 ^ 21)
            (subst (λ j. table k'.mem root 1 j ≡ none) (omega arith) (sym w.same))));
    starved = w.starved;
  }
  middle_table xs k (some p, k') w =
      let key : va / 2 ^ 30 * 512 + px 1 va ≡ va / 2 ^ 21 = omega arith in
      let step =
        next_table_lem kend root 1 (va / 2 ^ 30) p (px 1 va) alloc w.free k' w.keeps.space
          (omega arith) (omega arith, omega (arith, below)) (omega arith) (sym w.same) in
      let rest = last_table w.free k' (next_table (entry p (px 1 va)) alloc k') (
        subst (λ j. Steps kend root 2 j alloc w.free k' (next_table (entry p (px 1 va)) alloc k'))
          key step) in
      record {
        free = rest.free;
        keeps = Keeps-trans kend root xs w.free rest.free k k' _ w.keeps rest.keeps;
        reads = λ h. rest.reads h ∙ w.reads h;
        same = rest.same;
        starved = rest.starved;
      }

  walk_loop_lem :
      (xs : List ℕ) (k : Kmem)
      → IsSpace kend root k xs
      → Walks kend root va alloc xs k (walk_loop 2 root va alloc k)
  unfolding walk_loop table
  walk_loop_lem xs k s =
      let key : 0 * 512 + px 2 va ≡ va / 2 ^ 30 = omega (arith, below) in
      let step =
        next_table_lem kend root 0 0 root (px 2 va) alloc xs k s (omega arith)
          (omega arith, omega arith) (omega arith) refl in
      middle_table xs k (next_table (entry root (px 2 va)) alloc k) (
        subst (λ j. Steps kend root 1 j alloc xs k (next_table (entry root (px 2 va)) alloc k)) key
          step)

pub walk_lem :
    (kend root va : ℕ) (alloc : Bool) (xs : List ℕ) (k : Kmem)
    → va < maxva
    → IsSpace kend root k xs
    → (r : Option ℕ × Kmem) × (walk root va alloc k ≡ some r) × Walks kend root va alloc xs k r
unfolding walk
walk_lem kend root va alloc xs k below s =
    let ok : leb maxva va ≡ false = ground (arith, below) in
    (walk_loop 2 root va alloc k, rw ok refl, walk_loop_lem kend root va alloc below xs k s)
