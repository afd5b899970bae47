-- ===== src/Proc/Birth.antt =====
-- `fork` of kernel/proc.c: the slot that it takes.
use ntu_sc2005_xv.Prelude.{
  ℕ, ◌+◌, ◌^◌, ◌≤◌, ◌<◌, ◌≡◌, ◌⊎◌, inl, inr, refl, ◌∙◌, ap, sym, subst, Bool, true, false, Option,
  none, some, ◌==◌, if◌then◌else◌, arith, Bool-cases,
}
use ntu_sc2005_xv.Prelude.Int.{pos, u32}
use ntu_sc2005_xv.Proc.{
  State, unused, used, sleeping, runnable, running, zombie, is_unused, nproc, Proc, Table, Frees,
  no_frees, set_proc, find_unused, freeproc, allocpid, found, allocproc, fork_from, fork,
}
use ntu_sc2005_xv.Proc.Wait.{first_at-some, find_unused_lem, Option-cases}
use ntu_sc2005_xv.Proc.Family.{is_live, Inv, Inv-congr, put_at-Inv}

unused-dead : (s : State) → is_unused s ≡ true → is_live s ≡ false
unused-dead unused h = refl
unused-dead used h = absurd (ground arith)
unused-dead sleeping h = absurd (ground arith)
unused-dead runnable h = absurd (ground arith)
unused-dead running h = absurd (ground arith)
unused-dead zombie h = refl

-- The table after `fork`: as it was, or with one slot that was free in use or cleaned up.
record Forked (me : ℕ) (t u : Table) : Type 0 where
  slot : ℕ
  child : Proc
  inside : slot < nproc
  free : is_unused (t.proc slot).state ≡ true
  others : (q : ℕ) → u.proc q ≡ (if slot == q then child else t.proc q)
  nextpid : u.nextpid ≡ u32 (t.nextpid + 1)
  root : u.initproc ≡ t.initproc
  kind :
      ((child.pid ≡ 0) × (child.state ≡ unused))
      ⊎ ((child.pid ≡ t.nextpid) × (child.parent ≡ some me) × (child.state ≡ runnable))

module _ (me : ℕ) (t : Table) where
  -- The slot `p` cleaned up again, or in use by the child.
  cleaned :
      (p : ℕ) (x : Proc)
      → p < nproc
      → is_unused (t.proc p).state ≡ true
      → x.pid ≡ 0
      → x.state ≡ unused
      → (u : Table) → ((q : ℕ) → u.proc q ≡ (if p == q then x else t.proc q))
      → u.nextpid ≡ u32 (t.nextpid + 1)
      → u.initproc ≡ t.initproc
      → Forked me t u
  cleaned p x lt free z s u o n i = record {
    slot = p;
    child = x;
    inside = lt;
    free = free;
    others = o;
    nextpid = n;
    root = i;
    kind = inl (z, s);
  }

  -- The table when `allocproc` succeeds with slot `p`.
  abbrev claimed : ℕ → ℕ → ℕ → Table
  claimed p frame pagetable =
      set_proc p
        (record (t.proc p) {
          pid = t.nextpid;
          state = used;
          trapframe = frame;
          pagetable = pagetable;
        })
        (record t { nextpid = u32 (t.nextpid + 1) })

  from_claimed :
      (p frame pagetable : ℕ) (copied : Bool)
      → p < nproc
      → is_unused (t.proc p).state ≡ true
      → Forked me t (fork_from me copied (some p, no_frees, claimed p frame pagetable)).2
  unfolding fork_from freeproc
  from_claimed p frame pagetable false lt free =
      cleaned p ((freeproc ((claimed p frame pagetable).proc p)).0) lt free refl refl _
        (λ q. ground arith) refl refl
  from_claimed p frame pagetable true lt free =
      let u = claimed p frame pagetable in
      record {
        slot = p;
        child = record (u.proc p) { sz = (u.proc me).sz; parent = some me; state = runnable };
        inside = lt;
        free = free;
        others = λ q. ground arith;
        nextpid = refl;
        root = refl;
        kind = inr (ground arith, refl, refl);
      }

  -- The table when it fails after it chose slot `p`.
  abbrev given_up : ℕ → Table
  given_up p =
      set_proc p
        (record {
          state = unused;
          chan = 0;
          killed = false;
          xstate = pos 0;
          pid = 0;
          parent = none;
          sz = 0;
          pagetable = 0;
          trapframe = 0;
        })
        (record t { nextpid = u32 (t.nextpid + 1) })

  from_none :
      (p : ℕ) (copied : Bool) (r : Option ℕ × Frees × Table)
      → p < nproc
      → is_unused (t.proc p).state ≡ true
      → r.0 ≡ none
      → r.2 ≡ given_up p
      → Forked me t (fork_from me copied r).2
  unfolding fork_from
  from_none p copied (none, f, u) lt free n e =
      subst (Forked me t) (sym e) (cleaned p _ lt free refl refl _ (λ q. refl) refl refl)
  from_none p copied (some _, f, u) lt free n e = absurd (ground (arith, n))

  found_lem :
      (p frame pagetable : ℕ) (copied : Bool)
      → p < nproc
      → is_unused (t.proc p).state ≡ true
      → Forked me t (fork_from me copied (found p frame pagetable t)).2
  unfolding found allocpid freeproc
  found_lem p frame pagetable copied lt free = elim (Bool-cases (frame == 0)) [
    | inl z ↦
        from_none p copied (found p frame pagetable t) lt free (ground (arith, z))
          (ground (arith, z))
    | inr nz ↦ elim (Bool-cases (pagetable == 0)) [
      | inl z ↦
          from_none p copied (found p frame pagetable t) lt free (ground (arith, nz, z))
            (ground (arith, nz, z))
      | inr nz' ↦
          let e : found p frame pagetable t ≡ (some p, no_frees, claimed p frame pagetable) =
            ground (arith, nz, nz') in
          subst (λ r. Forked me t (fork_from me copied r).2) (sym e)
            (from_claimed p frame pagetable copied lt free)
    ]
  ]

fork_lem :
    (me frame pagetable : ℕ) (copied : Bool) (t : Table)
    → let u = (fork me frame pagetable copied t).2 in (u ≡ t) ⊎ Forked me t u
unfolding fork allocproc fork_from
fork_lem me frame pagetable copied t = elim (Option-cases (find_unused nproc 0 t)) [
  | inl e ↦ inl (rw (allocproc, e) refl)
  | inr (p, e) ↦
      let (_, lt, free) =
        first_at-some (λ q. is_unused (t.proc q).state) nproc 0 p
          (sym (find_unused_lem nproc 0 t) ∙ e) in
      let same : allocproc frame pagetable t ≡ found p frame pagetable t = rw (allocproc, e) refl in
      inr (
        subst (λ r. Forked me t (fork_from me copied r).2) (sym same)
          (found_lem me t p frame pagetable copied lt free))
]

Forked-Inv :
    (few few' : Bool) (me : ℕ) (t u : Table)
    → me < nproc
    → (t.proc me).state ≡ running
    → Forked me t u
    → (few' ≡ true → (few ≡ true) × (t.nextpid + 1 < 2 ^ 31))
    → Inv few t
    → Inv few' u
Forked-Inv few few' me t u lt up f le inv =
    put_at-Inv few few' f.slot f.child t u f.inside (unused-dead _ f.free) f.others f.root
      (λ ok.
        let (was, small) = le ok in
        (was, omega (arith, f.nextpid, small), ground (arith, f.nextpid, small, f.kind)))
      kind inv
  where
    kind :
        ((f.child.pid ≡ 0) × (f.child.state ≡ unused))
        ⊎ ((few' ≡ true → t.nextpid ≤ f.child.pid)
            × ((q : ℕ) × (q < nproc)
                × (f.child.parent ≡ some q)
                × (is_live (t.proc q).state ≡ true)))
    kind = elim f.kind [
      | inl h ↦ inl h
      | inr (e, par, _) ↦ inr (λ ok. omega (arith, e), (me, lt, par, ap is_live up))
    ]

pub fork-Inv :
    (few few' : Bool) (me frame pagetable : ℕ) (copied : Bool) (t : Table)
    → me < nproc
    → (t.proc me).state ≡ running
    → (few' ≡ true → (few ≡ true) × (t.nextpid + 1 < 2 ^ 31))
    → Inv few t
    → Inv few' (fork me frame pagetable copied t).2
fork-Inv few few' me frame pagetable copied t lt up le inv =
    elim (fork_lem me frame pagetable copied t) [
      | inl same ↦ subst (Inv few') (sym same) (Inv-congr t (λ ok. (le ok).0) inv)
      | inr f ↦ Forked-Inv few few' me t _ lt up f le inv
    ]
