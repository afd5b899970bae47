-- ===== src/Vm/Grow.antt =====
-- A new table leaves the page table of kernel/vm.c a tree, and changes no translation.
use mathlib.Core.Option.{some-injective, none-ne-some}
use ntu_sc2005_xv.Prelude.{
  ℕ, suc, ◌+◌, ◌*◌, ◌/◌, ◌%◌, ◌^◌, ◌<◌, ◌≡◌, ◌≢◌, ◌⊎◌, refl, true, sym, ◌∙◌, inl, inr, some,
  Option-cases, Bool-cases, arith,
}
use ntu_sc2005_xv.Vm.Tree.{
  table, leaf, IsNode, IsNode-child, IsTree, Apart, entry_inj, Grows, at_new, was_none, table-grow,
}

module _ (kend : ℕ) (mem mem' : ℕ → ℕ) (root d₀ key₀ p₀ i₀ x : ℕ) (t : IsTree kend mem root)
    (g : Grows kend mem mem' root d₀ key₀ p₀ i₀ x) where
  -- A table after the change is the new one, at the new node, or one from before.
  old_or_new :
      (d key p : ℕ)
      → IsNode d key
      → table mem' root d key ≡ some p
      → ((d ≡ suc d₀) × (key ≡ key₀ * 512 + i₀) × (x ≡ p)) ⊎ (table mem root d key ≡ some p)
  old_or_new d key p n e =
      let now = table-grow kend mem mem' root d₀ key₀ p₀ i₀ x t g d key n in
      elim (Bool-cases (at_new kend mem mem' root d₀ key₀ p₀ i₀ x t g d key)) [
        | inl new ↦
            inl (
              ground (arith, new),
              ground (arith, new),
              some-injective x p (sym (now ∙ rw new) ∙ e),
            )
        | inr old ↦ inr (sym (now ∙ rw old) ∙ e)
      ]

  pub Grows-IsTree : IsTree kend mem' root
  Grows-IsTree = record {
    pages = λ d key p n e. elim (old_or_new d key p n e) [
      | inl (dd, kk, same) ↦ rw (sym same) g.page
      | inr old ↦ t.pages d key p n old
    ];
    once = λ d key d' key' p n n' e e'. elim (old_or_new d key p n e) [
      | inl (dd, kk, same) ↦ elim (old_or_new d' key' p n' e') [
        | inl (dd', kk', same') ↦ (dd ∙ sym dd', kk ∙ sym kk')
        | inr old' ↦ absurd (g.apart d' key' p n' old' (sym same))
      ]
      | inr old ↦ elim (old_or_new d' key' p n' e') [
        | inl (dd', kk', same') ↦ absurd (g.apart d key p n old (sym same'))
        | inr old' ↦ t.once d key d' key' p n n' old old'
      ]
    ];
  }

  pub Grows-Apart : (y : ℕ) → x ≢ y → Apart mem root y → Apart mem' root y
  Grows-Apart y ne apart d key p n e = elim (old_or_new d key p n e) [
    | inl (dd, kk, same) ↦ λ z. ne (same ∙ z)
    | inr old ↦ apart d key p n old
  ]

  -- A page that is no table afterwards was none before, and is not the new one.
  pub was-Apart : (y : ℕ) → Apart mem' root y → Apart mem root y × (y ≢ x)
  was-Apart y apart = (
    λ d key p n e.
        let now = table-grow kend mem mem' root d₀ key₀ p₀ i₀ x t g d key n in
        elim (Bool-cases (at_new kend mem mem' root d₀ key₀ p₀ i₀ x t g d key)) [
          | inl new ↦
              absurd (
                none-ne-some p
                  (sym (was_none kend mem mem' root d₀ key₀ p₀ i₀ x t g d key new) ∙ e))
          | inr old ↦ apart d key p n (now ∙ rw old e)
        ],
    λ same.
        let key = key₀ * 512 + i₀ in
        let n : IsNode (suc d₀) key = IsNode-child d₀ key₀ i₀ g.depth g.node g.index in
        let now = table-grow kend mem mem' root d₀ key₀ p₀ i₀ x t g (suc d₀) key n in
        let new : at_new kend mem mem' root d₀ key₀ p₀ i₀ x t g (suc d₀) key ≡ true =
          ground arith in
        apart (suc d₀) key x n (now ∙ rw new refl) (sym same),
  )

  pub leaf-grow : (vpn : ℕ) → vpn < 512 ^ 3 → leaf mem' root vpn ≡ leaf mem root vpn
  unfolding leaf
  leaf-grow vpn h =
      let n : IsNode 2 (vpn / 512) = (omega arith, omega (arith, h)) in
      let now = table-grow kend mem mem' root d₀ key₀ p₀ i₀ x t g 2 (vpn / 512) n in
      elim (Bool-cases (at_new kend mem mem' root d₀ key₀ p₀ i₀ x t g 2 (vpn / 512))) [
        | inl new ↦ rw (
          leaf,
          now,
          new,
          was_none kend mem mem' root d₀ key₀ p₀ i₀ x t g 2 (vpn / 512) new,
          g.zeros (vpn % 512) (omega arith),
        )
        | inr old ↦ elim (Option-cases (table mem root 2 (vpn / 512))) [
          | inl e ↦ rw (leaf, now, old, e)
          | inr (p, e) ↦ rw (
            leaf,
            now,
            old,
            e,
            g.others 2 (vpn / 512) p (vpn % 512) n e (omega arith) (λ same.
                let (pp, ii) =
                  entry_inj kend p p₀ (vpn % 512) i₀ (t.pages 2 (vpn / 512) p n e)
                    (t.pages d₀ key₀ p₀ g.node g.parent) (omega arith) g.index same in
                let (dd, kk) = t.once 2 (vpn / 512) d₀ key₀ p₀ n g.node (rw (sym pp) e) g.parent in
                omega (arith, dd, g.depth)),
          )
        ]
      ]
