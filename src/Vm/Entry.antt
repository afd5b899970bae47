-- ===== src/Vm/Entry.antt =====
-- Setting one last-level entry of a page table of kernel/vm.c, and what walkaddr reads from it.
use ntu_sc2005_xv.Prelude.{
  ℕ, ◌/◌, ◌%◌, ◌^◌, ◌<◌, ◌≡◌, ◌≢◌, refl, sym, ◌∙◌, ap, ap₂, subst, inl, inr, false, Option, none,
  some, List, Option-cases, Bool-cases, arith, leb, ◌&&◌, if◌then◌else◌, leb→lt, ℕ_discrete,
}
use ntu_sc2005_xv.Prelude.Maps.{update, update_self}
use ntu_sc2005_xv.Kalloc.{Kmem}
use ntu_sc2005_xv.Kalloc.FreeList.{IsPage}
use ntu_sc2005_xv.Vm.{pte_v, pte_u, pte2pa, entry, maxva, walk, walkaddr, user_pa}
use ntu_sc2005_xv.Vm.Tree.{table, leaf, IsNode, Apart, entry_inj, table-congr}
use ntu_sc2005_xv.Vm.Walk.{IsSpace, Out, IsValid-congr, All-zip}
use ntu_sc2005_xv.Vm.Lookup.{slot, walk_lem}

-- The physical page that user code reaches through an entry, or 0.
abbrev pub leaf_pa : ℕ → ℕ
leaf_pa w = if pte_v w && pte_u w then pte2pa w else 0

slot_pa :
    (root va : ℕ) (k : Kmem) (o : Option ℕ)
    → table k.mem root 2 (va / 2 ^ 21) ≡ o
    → user_pa (some (slot va o, k)) ≡ leaf_pa (leaf k.mem root (va / 2 ^ 12))
unfolding leaf
slot_pa root va k none e =
    let q : va / 2 ^ 12 / 512 ≡ va / 2 ^ 21 = omega arith in rw (leaf, q, e) refl
slot_pa root va k (some p) e =
    let q : va / 2 ^ 12 / 512 ≡ va / 2 ^ 21 = omega arith in rw (leaf, q, e) (ground arith)

-- A walk that may not allocate reads the tree, and changes nothing.
pub walk_read :
    (kend root va : ℕ) (xs : List ℕ) (k : Kmem)
    → va < maxva
    → IsSpace kend root k xs
    → walk root va false k ≡ some (slot va (table k.mem root 2 (va / 2 ^ 21)), k)
walk_read kend root va xs k below s =
    let (r, e, w) = walk_lem kend root va false xs k below s in
    let o = w.same ∙ ap (λ (j : Kmem). slot va (table j.mem root 2 (va / 2 ^ 21))) (w.reads refl) in
    e ∙ ap₂ (λ (o : Option ℕ) (j : Kmem). some (o, j)) o (w.reads refl)

-- walkaddr reads the entry of the page, and finds nothing beyond MAXVA.
pub walkaddr_lem :
    (kend root va : ℕ) (xs : List ℕ) (k : Kmem)
    → IsSpace kend root k xs
    → walkaddr root va k ≡ (if leb maxva va then 0 else leaf_pa (leaf k.mem root (va / 2 ^ 12)))
unfolding walkaddr
walkaddr_lem kend root va xs k s = elim (Bool-cases (leb maxva va)) [
  | inl beyond ↦ rw (walkaddr, beyond) refl
  | inr ok ↦
      rw (walkaddr, ok)
        (ap user_pa (walk_read kend root va xs k (leb→lt maxva va ok) s)
          ∙ slot_pa root va k (table k.mem root 2 (va / 2 ^ 21)) refl)
]

module _ (kend root vpn p w : ℕ) (xs : List ℕ) (k : Kmem) (s : IsSpace kend root k xs)
    (h : vpn < 512 ^ 3) (e : table k.mem root 2 (vpn / 512) ≡ some p) where
  abbrev pub set_leaf : Kmem
  set_leaf = record k { mem = update k.mem (entry p (vpn % 512)) w }

  n₀ : IsNode 2 (vpn / 512)
  n₀ = (omega arith, omega (arith, h))

  other_entry :
      (d key q i : ℕ)
      → IsNode d key
      → table k.mem root d key ≡ some q
      → i < 512
      → ((d ≡ 2) → (key ≡ vpn / 512) → (i ≡ vpn % 512) → ⊥)
      → entry p (vpn % 512) ≢ entry q i
  other_entry d key q i n e' hi ne same =
      let (pp, ii) =
        entry_inj kend p q (vpn % 512) i (s.tree.pages 2 (vpn / 512) p n₀ e)
          (s.tree.pages d key q n e') (omega arith) hi same in
      let (dd, kk) = s.tree.once 2 (vpn / 512) d key q n₀ n (rw (sym pp) e) e' in
      ne (sym dd) (sym kk) (sym ii)

  same_tables : (d key : ℕ) → IsNode d key → table set_leaf.mem root d key ≡ table k.mem root d key
  same_tables d key n =
      table-congr k.mem set_leaf.mem root 2 d key (omega arith)
        (λ d' key' q i l n' e' hi.
          let out = other_entry d' key' q i n' e' hi (λ dd kk ii. omega (arith, dd, l)) in
          ground (arith, out))
        n.0 n

  pub set_leaf-IsSpace : IsSpace kend root set_leaf xs
  set_leaf-IsSpace = record {
    valid =
        IsValid-congr kend k set_leaf.mem xs
          (All-zip (IsPage kend) (Apart k.mem root) _ xs
            (λ y page apart.
              let out : entry p (vpn % 512) ≢ y = λ same.
                apart 2 (vpn / 512) p n₀ e
                  (entry_inj kend p y (vpn % 512) 0 (s.tree.pages 2 (vpn / 512) p n₀ e) page
                    (omega arith) (omega arith) (omega (arith, same))).0 in
              ground (arith, out))
            s.valid.pages s.apart)
          s.valid;
    tree = record {
      pages = λ d key q n e'. s.tree.pages d key q n (sym (same_tables d key n) ∙ e');
      once = λ d key d' key' q n n' e' e''.
          s.tree.once d key d' key' q n n' (sym (same_tables d key n) ∙ e')
            (sym (same_tables d' key' n') ∙ e'');
    };
    apart =
        All-zip (Apart k.mem root) (Apart k.mem root) (Apart set_leaf.mem root) xs
          (λ y a b d key q n e'. a d key q n (sym (same_tables d key n) ∙ e')) s.apart s.apart;
  }

  pub set_leaf-Out : (y : ℕ) → Out k.mem root xs y → Out set_leaf.mem root xs y
  set_leaf-Out y o = (λ d key q n e'. o.0 d key q n (sym (same_tables d key n) ∙ e'), o.1)

  pub was-Out : (y : ℕ) → Out set_leaf.mem root xs y → Out k.mem root xs y
  was-Out y o = (λ d key q n e'. o.0 d key q n (same_tables d key n ∙ e'), o.1)

  leaf_at : leaf set_leaf.mem root vpn ≡ w
  unfolding leaf
  leaf_at = rw (leaf, same_tables 2 (vpn / 512) n₀, e) (update_self k.mem (entry p (vpn % 512)) w)

  pub leaf-set_leaf :
      (v : ℕ) → v < 512 ^ 3 → leaf set_leaf.mem root v ≡ update (leaf k.mem root) vpn w v
  unfolding leaf
  leaf-set_leaf v hv =
      let n : IsNode 2 (v / 512) = (omega arith, omega (arith, hv)) in
      let same = same_tables 2 (v / 512) n in
      elim (ℕ_discrete vpn v) [
        | yes at ↦
            subst (λ j. leaf set_leaf.mem root j ≡ update (leaf k.mem root) vpn w j) at
              (leaf_at ∙ sym (update_self (leaf k.mem root) vpn w))
        | no ne ↦ elim (Option-cases (table k.mem root 2 (v / 512))) [
          | inl e' ↦ rw (leaf, same, e') (ground (arith, ne))
          | inr (q, e') ↦
              let out =
                other_entry 2 (v / 512) q (v % 512) n e' (omega arith)
                  (λ dd kk ii. ne (omega (arith, kk, ii))) in
              rw (leaf, same, e') (ground (arith, ne, out))
        ]
      ]
