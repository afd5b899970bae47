-- ===== src/Vm/Tree.antt =====
-- The tree of the tables that a page table of kernel/vm.c reaches, and what one new table changes.
use ntu_sc2005_xv.Prelude.{
  ℕ, zero, suc, ◌+◌, ◌*◌, ◌/◌, ◌%◌, ◌^◌, ◌≤◌, ◌<◌, ◌≡◌, ◌≢◌, refl, sym, ◌∙◌, inl, inr, Bool, true,
  false, ℕ_discrete, ◌&&◌, Option, none, some, Option-cases, Bool-cases, arith, ◌==◌, if◌then◌else◌,
}
use mathlib.Core.Option.{some-injective, none-ne-some}
use ntu_sc2005_xv.Kalloc.FreeList.{IsPage}
use ntu_sc2005_xv.Vm.{pte_v, pte2pa, entry}

-- The table that a valid entry points to.
abbrev pub child : (ℕ → ℕ) → ℕ → Option ℕ
child mem a = if pte_v (mem a) then some (pte2pa (mem a)) else none

-- The table at a depth below the root, for the bits `key` of the addresses that lead to it.
unfoldable pub table : (ℕ → ℕ) → ℕ → ℕ → ℕ → Option ℕ
table mem root zero key = some root
table mem root (suc d) key = elim (table mem root d (key / 512)) [
  | none ↦ none
  | some p ↦ child mem (entry p (key % 512))
]

-- The last-level entry for a virtual page, or 0 where there is none.
unfoldable pub leaf : (ℕ → ℕ) → ℕ → ℕ → ℕ
leaf mem root vpn = elim (table mem root 2 (vpn / 512)) [
  | none ↦ 0
  | some p ↦ mem (entry p (vpn % 512))
]

abbrev pub IsNode : ℕ → ℕ → Type 0
IsNode d key = (d ≤ 2) × (key < 512 ^ d)

-- Every table is a page, and no page is the table of two nodes.
pub record IsTree (kend : ℕ) (mem : ℕ → ℕ) (root : ℕ) : Type 0 where
  pub pages : (d key p : ℕ) → IsNode d key → table mem root d key ≡ some p → IsPage kend p
  pub once :
      (d key d' key' p : ℕ)
      → IsNode d key
      → IsNode d' key'
      → table mem root d key ≡ some p
      → table mem root d' key' ≡ some p
      → (d ≡ d') × (key ≡ key')

-- `x` is the page of no table.
abbrev pub Apart : (ℕ → ℕ) → ℕ → ℕ → Type 0
Apart mem root x = (d key p : ℕ) → IsNode d key → table mem root d key ≡ some p → p ≢ x

pub IsNode-parent : (d key : ℕ) → IsNode (suc d) key → IsNode d (key / 512)
IsNode-parent zero key n = (omega arith, omega (arith, n))
IsNode-parent (suc zero) key n = (omega arith, omega (arith, n))
IsNode-parent (suc (suc d)) key n = absurd (omega (arith, n.0))

pub IsNode-child : (d key i : ℕ) → d < 2 → IsNode d key → i < 512 → IsNode (suc d) (key * 512 + i)
IsNode-child zero key i l n h = (omega arith, omega (arith, n))
IsNode-child (suc zero) key i l n h = (omega arith, omega (arith, n))
IsNode-child (suc (suc d)) key i l n h = absurd (omega arith)

pub entry_inj :
    (kend p q i j : ℕ)
    → IsPage kend p
    → IsPage kend q
    → i < 512
    → j < 512
    → entry p i ≡ entry q j
    → (p ≡ q) × (i ≡ j)
entry_inj kend p q i j hp hq hi hj e =
    (omega (arith, hp.aligned, hq.aligned), omega (arith, hp.aligned, hq.aligned))

pub table_step :
    (mem : ℕ → ℕ) (root d key p : ℕ)
    → table mem root d (key / 512) ≡ some p
    → table mem root (suc d) key ≡ child mem (entry p (key % 512))
unfolding table
table_step mem root d key p h = rw h

pub table_stop :
    (mem : ℕ → ℕ) (root d key : ℕ)
    → table mem root d (key / 512) ≡ none
    → table mem root (suc d) key ≡ none
unfolding table
table_stop mem root d key h = rw h

-- Memories that agree on the entries of all tables above depth `n` have the same tables down to it.
pub table-congr :
    (mem mem' : ℕ → ℕ) (root n d key : ℕ)
    → n ≤ 2
    → ((d' key' p i : ℕ)
        → d' < n
        → IsNode d' key'
        → table mem root d' key' ≡ some p
        → i < 512
        → mem' (entry p i) ≡ mem (entry p i))
    → d ≤ n
    → IsNode d key
    → table mem' root d key ≡ table mem root d key
unfolding table
table-congr mem mem' root n zero key l same h node = refl
table-congr mem mem' root n (suc d) key l same h node =
    let parent : IsNode d (key / 512) = IsNode-parent d key node in
    let above = table-congr mem mem' root n d (key / 512) l same (omega arith) parent in
    elim (Option-cases (table mem root d (key / 512))) [
      | inl e ↦ rw (table, above, e)
      | inr (p, e) ↦
          rw
            (table, above, e, same d (key / 512) p (key % 512) (omega arith) parent e (omega arith))
    ]

-- A new table at the page `x` for entry `i₀` of the table `p₀` at depth `d₀`.
pub record Grows (kend : ℕ) (mem mem' : ℕ → ℕ) (root d₀ key₀ p₀ i₀ x : ℕ) : Type 0 where
  pub depth : d₀ < 2
  pub node : IsNode d₀ key₀
  pub index : i₀ < 512
  pub parent : table mem root d₀ key₀ ≡ some p₀
  pub unused : pte_v (mem (entry p₀ i₀)) ≡ false
  pub page : IsPage kend x
  pub apart : Apart mem root x
  pub link : child mem' (entry p₀ i₀) ≡ some x
  pub zeros : (i : ℕ) → i < 512 → mem' (entry x i) ≡ 0
  pub others :
      (d key p i : ℕ)
      → IsNode d key
      → table mem root d key ≡ some p
      → i < 512
      → entry p i ≢ entry p₀ i₀
      → mem' (entry p i) ≡ mem (entry p i)

module _ (kend : ℕ) (mem mem' : ℕ → ℕ) (root d₀ key₀ p₀ i₀ x : ℕ) (t : IsTree kend mem root)
    (g : Grows kend mem mem' root d₀ key₀ p₀ i₀ x) where
  abbrev pub at_new : ℕ → ℕ → Bool
  at_new d key = d == suc d₀ && key == key₀ * 512 + i₀

  -- The entry of a table is the new one only at the new node.
  new_entry :
      (d key p : ℕ)
      → IsNode d (key / 512)
      → table mem root d (key / 512) ≡ some p
      → entry p (key % 512) ≡ entry p₀ i₀
      → (d ≡ d₀) × (key ≡ key₀ * 512 + i₀)
  new_entry d key p n e same =
      let (pp, ii) =
        entry_inj kend p p₀ (key % 512) i₀ (t.pages d (key / 512) p n e)
          (t.pages d₀ key₀ p₀ g.node g.parent) (omega arith) g.index same in
      let (dd, kk) = t.once d (key / 512) d₀ key₀ p₀ n g.node (rw (sym pp) e) g.parent in
      (dd, omega (arith, ii, kk))

  pub was_none : (d key : ℕ) → at_new d key ≡ true → table mem root d key ≡ none
  was_none d key h =
      let dd : d ≡ suc d₀ = ground (arith, h) in
      let kk : key ≡ key₀ * 512 + i₀ = ground (arith, h) in
      let q : key / 512 ≡ key₀ = omega (arith, kk, g.index) in
      let r : key % 512 ≡ i₀ = omega (arith, kk, g.index) in
      rw dd (table_step mem root d₀ key p₀ (rw q g.parent) ∙ rw (r, g.unused))

  -- An entry that is not the one at `i₀` of `p₀` leads to an old node.
  not_new :
      (d key : ℕ)
      → (table mem root d (key / 512) ≡ some p₀ → key % 512 ≡ i₀ → ⊥)
      → at_new (suc d) key ≡ false
  not_new d key h = elim (Bool-cases (at_new (suc d) key)) [
    | inr old ↦ old
    | inl new ↦
        let dd : d ≡ d₀ = ground (arith, new) in
        let kk : key ≡ key₀ * 512 + i₀ = ground (arith, new) in
        let q : key / 512 ≡ key₀ = omega (arith, kk, g.index) in
        let r : key % 512 ≡ i₀ = omega (arith, kk, g.index) in absurd (h (rw (dd, q) g.parent) r)
  ]

  pub table-grow :
      (d key : ℕ)
      → IsNode d key
      → table mem' root d key ≡ (if at_new d key then some x else table mem root d key)
  unfolding table
  table-grow zero key n = let old : at_new 0 key ≡ false = ground arith in rw (table, old)
  table-grow (suc d) key n =
      let np : IsNode d (key / 512) = IsNode-parent d key n in
      let ih = table-grow d (key / 512) np in
      elim (Bool-cases (at_new d (key / 512))) [
        | inl below ↦
            let here : table mem' root d (key / 512) ≡ some x = ih ∙ rw below in
            let deep : at_new (suc d) key ≡ false = ground (arith, below) in
            rw (table, here, was_none d (key / 512) below, deep, g.zeros (key % 512) (omega arith))
        | inr old ↦
            let here : table mem' root d (key / 512) ≡ table mem root d (key / 512) = ih ∙ rw old in
            elim (Option-cases (table mem root d (key / 512))) [
              | inl e ↦ rw (
                table,
                here,
                e,
                not_new d key
                    (λ (same : table mem root d (key / 512) ≡ some p₀) (r : key % 512 ≡ i₀).
                      none-ne-some p₀ (sym e ∙ same)),
              )
              | inr (p, e) ↦ elim (ℕ_discrete (entry p (key % 512)) (entry p₀ i₀)) [
                | yes same ↦
                    let (dd, kk) = new_entry d key p np e same in
                    let new : at_new (suc d) key ≡ true = ground (arith, dd, kk) in
                    rw (table, here, e, same, new, g.link)
                | no differ ↦ rw (
                  table,
                  here,
                  e,
                  not_new d key
                      (λ (same : table mem root d (key / 512) ≡ some p₀) (r : key % 512 ≡ i₀).
                        differ (rw (some-injective p p₀ (sym e ∙ same), r))),
                  g.others d (key / 512) p (key % 512) np e (omega arith) differ,
                )
              ]
            ]
      ]
