-- ===== src/Vm/Translate.antt =====
-- What user code reaches after mappages of kernel/vm.c.
use mathlib.Core.Option.{some-injective}
use ntu_sc2005_xv.Prelude.{
  ℕ, ◌+◌, ◌-◌, ◌*◌, ◌/◌, ◌%◌, ◌^◌, ◌≤◌, ◌<◌, ◌≡◌, refl, sym, ◌∙◌, ap, subst, inl, inr, true, false,
  some, List, Bool-cases, arith, leb, ltb, ◌&&◌, if◌then◌else◌,
}
use ntu_sc2005_xv.Prelude.Int.{ℤ, pos, minus_one}
use ntu_sc2005_xv.Kalloc.{Kmem, pgsize}
use ntu_sc2005_xv.Vm.{pte_u, maxva, mappages, walkaddr}
use ntu_sc2005_xv.Vm.Tree.{leaf}
use ntu_sc2005_xv.Vm.Walk.{IsSpace}
use ntu_sc2005_xv.Vm.Entry.{leaf_pa, walkaddr_lem}
use ntu_sc2005_xv.Vm.Mapping.{new_pte, mapped, Unused, Maps, mappages_lem}

pos≢minus_one : pos 0 ≡ minus_one → ⊥
pos≢minus_one z = ground (arith, z)

new_pte_pa :
    (pa perm : ℕ)
    → pa % pgsize ≡ 0
    → pa < 2 ^ 64
    → perm < 1024
    → pte_u perm ≡ true
    → leaf_pa (new_pte pa perm) ≡ pa
new_pte_pa pa perm al b p u = ground (arith, al, b, p, u)

-- After a mappages for user pages that returned 0, walkaddr finds the given memory behind these pages
-- and behind every other address what it found before.
pub walkaddr-mappages :
    (kend root n vpn pa perm : ℕ) (xs : List ℕ) (k k' : Kmem)
    → 0 < n
    → vpn + n ≤ 2 ^ 26
    → pa + n * pgsize < 2 ^ 64
    → pa % pgsize ≡ 0
    → perm < 1024
    → pte_u perm ≡ true
    → IsSpace kend root k xs
    → Unused (leaf k.mem root) vpn n
    → mappages root (vpn * pgsize) (n * pgsize) pa perm k ≡ some (pos 0, k')
    → (va : ℕ)
    → walkaddr root va k' ≡ (
        if leb vpn (va / pgsize) && ltb (va / pgsize) (vpn + n)
        then pa + (va / pgsize - vpn) * pgsize
        else walkaddr root va k)
walkaddr-mappages kend root n vpn pa perm xs k k' h b₁ b₂ al p u s un e va =
    let (r, e', m) = mappages_lem kend root n vpn pa perm xs k h b₁ b₂ s un in
    let rr : r ≡ (pos 0, k') = some-injective _ _ (sym e' ∙ e) in
    let m' = subst (λ (r : ℤ × Kmem). Maps kend root n vpn pa perm xs k r) rr m in
    elim m'.done [
      | inr (z, f, some_pages) ↦ absurd (pos≢minus_one z)
      | inl (z, same) ↦ elim (Bool-cases (leb maxva va)) [
        | inl beyond ↦
            let out : (leb vpn (va / pgsize) && ltb (va / pgsize) (vpn + n)) ≡ false =
              ground arith in
            walkaddr_lem kend root va m'.free k' m'.space
            ∙ rw (beyond, out) (sym (walkaddr_lem kend root va xs k s ∙ rw beyond refl))
        | inr inside ↦
            let here = same (va / pgsize) (ground (arith, inside)) in
            let now : walkaddr root va k' ≡ leaf_pa (leaf k'.mem root (va / 2 ^ 12)) =
              walkaddr_lem kend root va m'.free k' m'.space ∙ rw inside refl in
            let before : walkaddr root va k ≡ leaf_pa (leaf k.mem root (va / 2 ^ 12)) =
              walkaddr_lem kend root va xs k s ∙ rw inside refl in
            elim (Bool-cases (leb vpn (va / pgsize) && ltb (va / pgsize) (vpn + n))) [
              | inl new ↦
                  let hit : mapped n vpn pa perm (leaf k.mem root) (va / pgsize)
                      ≡ new_pte (pa + (va / pgsize - vpn) * pgsize) perm =
                    rw new refl in
                  let to =
                    new_pte_pa (pa + (va / pgsize - vpn) * pgsize) perm (omega (arith, al))
                      (ground (arith, new, b₂)) p u in
                  now ∙ ap leaf_pa (here ∙ hit) ∙ to ∙ rw new refl
              | inr old ↦
                  let miss : mapped n vpn pa perm (leaf k.mem root) (va / pgsize)
                      ≡ leaf k.mem root (va / pgsize) =
                    rw old refl in
                  now ∙ ap leaf_pa (here ∙ miss) ∙ sym before ∙ rw old refl
            ]
      ]
    ]
