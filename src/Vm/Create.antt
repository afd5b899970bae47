-- ===== src/Vm/Create.antt =====
-- uvmcreate of kernel/vm.c: the empty page table.
use mathlib.Core.Option.{none-ne-some, some-injective}
use ntu_sc2005_xv.Prelude.{
  ℕ, zero, suc, ◌/◌, ◌%◌, ◌<◌, ◌≡◌, ◌≢◌, refl, sym, ◌∙◌, subst, none, some, false, List, ◌∷◌, arith,
  ◌==◌,
}
use ntu_sc2005_xv.Kalloc.{Kmem, kalloc}
use ntu_sc2005_xv.Kalloc.FreeList.{IsPage, IsValid, kalloc-cons}
use ntu_sc2005_xv.Vm.{entry}
use ntu_sc2005_xv.Vm.Tree.{table, leaf, IsNode, IsTree, Apart, table_stop}
use ntu_sc2005_xv.Vm.Walk.{IsSpace, IsValid-congr, All-zip, outside_page}
use ntu_sc2005_xv.Vm.Space.{zero_page, uvmcreate}

module _ (mem : ℕ → ℕ) (root : ℕ) (zeros : (i : ℕ) → i < 512 → mem (entry root i) ≡ 0) where
  -- A table of zeros leads to no other table.
  pub no_table : (d key : ℕ) → table mem root (suc d) key ≡ none
  unfolding table
  no_table zero key = rw (zeros (key % 512) (omega arith)) refl
  no_table (suc d) key = table_stop mem root (suc d) key (no_table d (key / 512))

  zeros-IsTree : (kend : ℕ) → IsPage kend root → IsTree kend mem root
  unfolding table
  zeros-IsTree kend page = record { pages = pages; once = once }
    where
      no_child : (d key p : ℕ) → table mem root (suc d) key ≡ some p → ⊥
      no_child d key p e = none-ne-some p (sym (no_table d key) ∙ e)

      pages : (d key p : ℕ) → IsNode d key → table mem root d key ≡ some p → IsPage kend p
      pages zero key p n e = subst (IsPage kend) (some-injective root p e) page
      pages (suc d) key p n e = absurd (no_child d key p e)

      once :
          (d key d' key' p : ℕ)
          → IsNode d key
          → IsNode d' key'
          → table mem root d key ≡ some p
          → table mem root d' key' ≡ some p
          → (d ≡ d') × (key ≡ key')
      once zero key zero key' p n n' e e' = (refl, omega (arith, n, n'))
      once zero key (suc d') key' p n n' e e' = absurd (no_child d' key' p e')
      once (suc d) key d' key' p n n' e e' = absurd (no_child d key p e)

  root_alone : (y : ℕ) → root ≢ y → Apart mem root y
  unfolding table
  root_alone y ne zero key p n e = λ z. ne (some-injective root p e ∙ z)
  root_alone y ne (suc d) key p n e = absurd (none-ne-some p (sym (no_table d key) ∙ e))

  no_leaf : (vpn : ℕ) → leaf mem root vpn ≡ 0
  unfolding leaf
  no_leaf vpn = rw (leaf, no_table 1 (vpn / 512)) refl

-- With a page to spare, uvmcreate returns one: a page table with no translation at all, a tree of
-- pages that are not free.
pub uvmcreate_lem :
    (kend x : ℕ) (xs : List ℕ) (k : Kmem)
    → IsValid kend k (x ∷ xs)
    → ((uvmcreate k).0 ≡ x)
      × IsSpace kend x (uvmcreate k).1 xs
      × ((vpn : ℕ) → leaf (uvmcreate k).1.mem x vpn ≡ 0)
unfolding uvmcreate
uvmcreate_lem kend x xs k v =
    let (at, v') = kalloc-cons kend k x xs v in
    let some_page : (x == 0) ≡ false = ground (arith, v.linked.1) in
    let made : uvmcreate k ≡ (x, zero_page x (kalloc k).1) = rw (uvmcreate, at, some_page) refl in
    subst
      (λ (r : ℕ × Kmem). (r.0 ≡ x) × IsSpace kend x r.1 xs × ((vpn : ℕ) → leaf r.1.mem x vpn ≡ 0))
      (sym made)
      (
        refl,
        record {
          valid =
              IsValid-congr kend (kalloc k).1 (zero_page x (kalloc k).1).mem xs
                (All-zip (λ y. x ≢ y) (IsPage kend) _ xs
                  (λ y ne page.
                    ground (arith, outside_page kend x y 0 v.pages.0 page ne (omega arith)))
                  v.distinct.0 v.pages.1)
                v';
          tree = zeros-IsTree (zero_page x (kalloc k).1).mem x zeros kend v.pages.0;
          apart =
              All-zip (λ y. x ≢ y) (λ y. x ≢ y) _ xs
                (λ y ne ne'. root_alone (zero_page x (kalloc k).1).mem x zeros y ne) v.distinct.0
                v.distinct.0;
        },
        no_leaf (zero_page x (kalloc k).1).mem x zeros,
      )
  where
    zeros : (i : ℕ) → i < 512 → (zero_page x (kalloc k).1).mem (entry x i) ≡ 0
    zeros i h = ground arith
