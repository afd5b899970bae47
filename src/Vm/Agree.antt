-- ===== src/Vm/Agree.antt =====
-- Writes to pages that are no tables, as kalloc, kfree and memset of kernel/vm.c make them, leave the
-- page table alone.
use ntu_sc2005_xv.Prelude.{
  ℕ, ◌+◌, ◌/◌, ◌%◌, ◌^◌, ◌≤◌, ◌<◌, ◌≡◌, ◌≢◌, refl, sym, ◌∙◌, inl, inr, some, Option-cases, List,
  ◌∷◌, arith,
}
use ntu_sc2005_xv.Kalloc.{Kmem, pgsize, kalloc, kfree}
use ntu_sc2005_xv.Kalloc.FreeList.{
  IsPage, kalloc-cons, kalloc_elsewhere, kfree_lem, kfree_elsewhere,
}
use ntu_sc2005_xv.Vm.{entry}
use ntu_sc2005_xv.Vm.Tree.{table, leaf, IsNode, IsTree, Apart, table-congr}
use ntu_sc2005_xv.Vm.Walk.{IsSpace, Out, IsValid-congr, All-zip, outside_page}
use ntu_sc2005_xv.Vm.Space.{zero_page}

-- The memories have the same tables with the same entries.
abbrev pub Agrees : (ℕ → ℕ) → (ℕ → ℕ) → ℕ → Type 0
Agrees mem mem' root =
    (d key p i : ℕ)
    → IsNode d key
    → table mem root d key ≡ some p
    → i < 512
    → mem' (entry p i) ≡ mem (entry p i)

module _ (mem mem' : ℕ → ℕ) (root : ℕ) (agree : Agrees mem mem' root) where
  pub agree-table : (d key : ℕ) → IsNode d key → table mem' root d key ≡ table mem root d key
  agree-table d key n =
      table-congr mem mem' root 2 d key (omega arith)
        (λ d' key' p i l n' e h. agree d' key' p i n' e h) n.0 n

  pub agree-leaf : (vpn : ℕ) → vpn < 512 ^ 3 → leaf mem' root vpn ≡ leaf mem root vpn
  unfolding leaf
  agree-leaf vpn h =
      let n : IsNode 2 (vpn / 512) = (omega arith, omega (arith, h)) in
      let same = agree-table 2 (vpn / 512) n in
      elim (Option-cases (table mem root 2 (vpn / 512))) [
        | inl e ↦ rw (leaf, same, e) refl
        | inr (p, e) ↦ rw (leaf, same, e) (agree 2 (vpn / 512) p (vpn % 512) n e (omega arith))
      ]

  pub agree-IsTree : (kend : ℕ) → IsTree kend mem root → IsTree kend mem' root
  agree-IsTree kend t = record {
    pages = λ d key p n e. t.pages d key p n (sym (agree-table d key n) ∙ e);
    once = λ d key d' key' p n n' e e'.
        t.once d key d' key' p n n' (sym (agree-table d key n) ∙ e)
          (sym (agree-table d' key' n') ∙ e');
  }

  pub agree-Apart : (y : ℕ) → Apart mem root y → Apart mem' root y
  agree-Apart y a d key p n e = a d key p n (sym (agree-table d key n) ∙ e)

  pub was-Apart : (y : ℕ) → Apart mem' root y → Apart mem root y
  was-Apart y a d key p n e = a d key p n (agree-table d key n ∙ e)

-- Two pages, one of which is a table.
pub table_page :
    (kend root x : ℕ) (k : Kmem) (xs : List ℕ)
    → IsSpace kend root k xs
    → IsPage kend x
    → Apart k.mem root x
    → (d key p i : ℕ) → IsNode d key
    → table k.mem root d key ≡ some p
    → i < 512
    → x ≤ entry p i
    → entry p i < x + pgsize
    → ⊥
table_page kend root x k xs s page apart d key p i n e h l u =
    outside_page kend x p i page (s.tree.pages d key p n e) (λ same. apart d key p n e (sym same)) h
      l u

-- A page from kalloc that is then filled with zeros.
pub take_page :
    (kend root x : ℕ) (k : Kmem) (xs : List ℕ)
    → IsSpace kend root k (x ∷ xs)
    → Agrees k.mem (zero_page x (kalloc k).1).mem root
      × IsSpace kend root (zero_page x (kalloc k).1) xs
take_page kend root x k xs s =
    let k' = zero_page x (kalloc k).1 in
    let agree : Agrees k.mem k'.mem root = λ d key p i n e h.
      let away = table_page kend root x k (x ∷ xs) s s.valid.pages.0 s.apart.0 d key p i n e h in
      ground (arith, kalloc_elsewhere kend k x xs (entry p i) s.valid away, away) in
    (
      agree,
      record {
        valid =
            IsValid-congr kend (kalloc k).1 k'.mem xs
              (All-zip (λ y. x ≢ y) (IsPage kend) _ xs
                (λ y ne page.
                  ground (arith, outside_page kend x y 0 s.valid.pages.0 page ne (omega arith)))
                s.valid.distinct.0 s.valid.pages.1)
              (kalloc-cons kend k x xs s.valid).1;
        tree = agree-IsTree k.mem k'.mem root agree kend s.tree;
        apart =
            All-zip (Apart k.mem root) (Apart k.mem root) _ xs
              (λ y a b. agree-Apart k.mem k'.mem root agree y a) s.apart.1 s.apart.1;
      },
    )

-- kfree of a page that is neither free nor a table.
pub give_page :
    (kend root x : ℕ) (k : Kmem) (xs : List ℕ)
    → 0 < kend
    → IsSpace kend root k xs
    → IsPage kend x
    → Out k.mem root xs x
    → (k' : Kmem) × (kfree kend x k ≡ some k')
      × Agrees k.mem k'.mem root
      × IsSpace kend root k' (x ∷ xs)
give_page kend root x k xs pos s page out =
    let (k', e, v) = kfree_lem kend x k xs pos s.valid page out.1 in
    let agree : Agrees k.mem k'.mem root = λ d key p i n e' h.
      let away = table_page kend root x k xs s page out.0 d key p i n e' h in
      kfree_elsewhere kend x k k' (entry p i) e away in
    (
      k',
      e,
      agree,
      record {
        valid = v;
        tree = agree-IsTree k.mem k'.mem root agree kend s.tree;
        apart = (
          agree-Apart k.mem k'.mem root agree x out.0,
          All-zip (Apart k.mem root) (Apart k.mem root) _ xs
              (λ y a b. agree-Apart k.mem k'.mem root agree y a) s.apart s.apart,
        );
      },
    )
