-- ===== src/Proc/Family.antt =====
-- The processes of kernel/proc.c through any sequence of its operations.
use ntu_sc2005_xv.Prelude.{
  ℕ, ◌≤◌, ◌<◌, ◌≡◌, ◌≢◌, ◌⊎◌, inl, inr, refl, ◌∙◌, ap, sym, subst, fun_ext, Bool, true, false,
  Option, some, ◌==◌, if◌then◌else◌, arith, ℕ_discrete,
}
use ntu_sc2005_xv.Prelude.Int.{ℤ}
use ntu_sc2005_xv.Proc.{
  State, unused, running, zombie, is_unused, nproc, Proc, Table, Frees, set_proc, userinit, fork,
  wakeup, exit, returned, wait, schedule, yield, sleep, awake, kill, setkilled,
}

pub data Step (t : Table) : Table → Type 0 where
  forks :
      (me frame pagetable : ℕ) (copied : Bool)
      → me < nproc
      → (t.proc me).state ≡ running
      → Step t (fork me frame pagetable copied t).2
  exits :
      (me : ℕ) (status : ℤ) {u : Table}
      → me < nproc
      → (t.proc me).state ≡ running
      → exit me status t ≡ some u
      → Step t u
  reaped :
      (me addr : ℕ) (copied : Bool) {r : ℤ} {f : Frees} {u : Table}
      → wait me addr copied t ≡ returned r f u
      → Step t u
  kills : (pid : ℕ) → Step t (kill pid t).1
  marks : (p : ℕ) → Step t (setkilled p t)
  wakes : (me : Option ℕ) (chan : ℕ) → Step t (wakeup me chan t)
  runs : (p : ℕ) → Step t (schedule p t)
  naps : (me chan : ℕ) → (t.proc me).state ≡ running → Step t (sleep me chan t)
  resumes : (me : ℕ) → Step t (awake me t)
  yields : (me : ℕ) → (t.proc me).state ≡ running → Step t (yield me t)

pub data Reach : Table → Type 0 where
  boot : (frame pagetable : ℕ) {t : Table} → userinit frame pagetable ≡ some t → Reach t
  next : {t u : Table} → Reach t → Step t u → Reach u

-- Neither free nor exited.
abbrev pub is_live : State → Bool
is_live unused = false
is_live zombie = false
is_live _ = true

-- `few` tells whether `nextpid` has kept below 2^31, where it stays positive and does not wrap.
pub record Inv (few : Bool) (t : Table) : Type 0 where
  pub root : (t.initproc < nproc) × (is_live (t.proc t.initproc).state ≡ true)
  pub parents :
      (p : ℕ)
      → p < nproc
      → is_unused (t.proc p).state ≡ false
      → p ≢ t.initproc
      → (q : ℕ) × (q < nproc) × ((t.proc p).parent ≡ some q) × (is_live (t.proc q).state ≡ true)
  pub below : few ≡ true → (p : ℕ) → p < nproc → (t.proc p).pid < t.nextpid
  pub unique :
      few ≡ true
      → (p q : ℕ) → p < nproc
      → q < nproc
      → (t.proc p).pid ≢ 0
      → (t.proc p).pid ≡ (t.proc q).pid
      → p ≡ q
  pub named :
      few ≡ true → (p : ℕ) → p < nproc → is_unused (t.proc p).state ≡ false → (t.proc p).pid ≢ 0
  pub counted : few ≡ true → 0 < t.nextpid

-- What steps that neither create nor end a process keep.
pub record Kept (v u : Proc) : Type 0 where
  pub parent : u.parent ≡ v.parent
  pub pid : u.pid ≡ v.pid
  pub free : is_unused u.state ≡ is_unused v.state
  pub live : is_live u.state ≡ is_live v.state

pub Kept-Inv :
    {few : Bool} (t u : Table)
    → ((q : ℕ) → Kept (t.proc q) (u.proc q))
    → u.nextpid ≡ t.nextpid
    → u.initproc ≡ t.initproc
    → Inv few t
    → Inv few u
Kept-Inv t u k n i inv = record {
  root = rw i (inv.root.0, (k t.initproc).live ∙ inv.root.1);
  parents = λ p lt busy other.
      let (q, lq, par, live) = inv.parents p lt (sym (k p).free ∙ busy) (rw i at other) in
      (q, lq, (k p).parent ∙ par, (k q).live ∙ live);
  below = λ ok p lt. ground (arith, n, (k p).pid, inv.below ok p lt);
  unique = λ ok p q lp lq nz e.
      inv.unique ok p q lp lq (ground (arith, (k p).pid)) (ground (arith, (k p).pid, (k q).pid));
  named = λ ok p lt busy. ground (arith, (k p).pid, (k p).free, inv.named ok p lt);
  counted = λ ok. ground (arith, n, inv.counted ok);
}

pub Inv-congr : {few few' : Bool} (t : Table) → (few' ≡ true → few ≡ true) → Inv few t → Inv few' t
Inv-congr t le inv = record {
  root = inv.root;
  parents = inv.parents;
  below = λ ok. inv.below (le ok);
  unique = λ ok. inv.unique (le ok);
  named = λ ok. inv.named (le ok);
  counted = λ ok. inv.counted (le ok);
}

pub same-Kept : (v : Proc) → Kept v v
same-Kept v = record { parent = refl; pid = refl; free = refl; live = refl }

set-Kept :
    (p : ℕ) (x : Proc) (t : Table) (q : ℕ)
    → Kept (t.proc p) x
    → Kept (t.proc q) ((set_proc p x t).proc q)
set-Kept p x t q k = elim (ℕ_discrete p q) [
  | yes e ↦
      subst (λ z. Kept (t.proc z) ((set_proc p x t).proc z)) e
        (subst (Kept (t.proc p)) (ground arith) k)
  | no ne ↦ subst (Kept (t.proc q)) (ground arith) (same-Kept (t.proc q))
]

pub set-Inv :
    {few : Bool} (p : ℕ) (x : Proc) (t : Table)
    → Kept (t.proc p) x
    → Inv few t
    → Inv few (set_proc p x t)
set-Inv p x t k inv = Kept-Inv t (set_proc p x t) (λ q. set-Kept p x t q k) refl refl inv

-- Steps that end the use of slot `p`, which is nobody's parent, or begin a new one there.
put-Inv :
    (few few' : Bool) (p : ℕ) (x : Proc) (t : Table) (nextpid : ℕ)
    → p < nproc
    → is_live (t.proc p).state ≡ false
    → (few' ≡ true → (few ≡ true) × (t.nextpid ≤ nextpid) × (x.pid < nextpid))
    → ((x.pid ≡ 0) × (x.state ≡ unused))
      ⊎ ((few' ≡ true → t.nextpid ≤ x.pid)
          × ((q : ℕ) × (q < nproc) × (x.parent ≡ some q) × (is_live (t.proc q).state ≡ true)))
    → Inv few t
    → Inv few' (record (set_proc p x t) { nextpid = nextpid })
put-Inv few few' p x t nextpid lp dead le kind inv = record {
  root = (inv.root.0, other t.initproc inv.root.1);
  parents = λ q lq busy no_root. elim (ℕ_discrete p q) [
    | yes e ↦ elim kind [
      | inl (z, free) ↦ absurd (ground (arith, free, busy))
      | inr (_, (r, lr, par, live)) ↦ (r, lr, ground (arith, par), other r live)
    ]
    | no ne ↦
        let (r, lr, par, live) = inv.parents q lq (ground (arith, busy)) no_root in
        (r, lr, ground (arith, par), other r live)
  ];
  below = λ ok q lq. ground (arith, le ok, inv.below (le ok).0 q lq);
  unique = λ ok q r lq lr nz e.
      let was = (le ok).0 in
      ground (
        arith,
        inv.unique was q r lq lr,
        inv.below was q lq,
        inv.below was r lr,
        fresh ok,
        inv.counted was,
      );
  named = λ ok q lq busy.
      let was = (le ok).0 in ground (arith, inv.named was q lq, fresh ok, inv.counted was);
  counted = λ ok. omega (arith, (le ok).1, inv.counted (le ok).0);
}
  where
    fresh : few' ≡ true → ((x.pid ≡ 0) × (x.state ≡ unused)) ⊎ (t.nextpid ≤ x.pid)
    fresh ok = elim kind [ inl h ↦ inl h | inr (h, _) ↦ inr (h ok) ]

    other :
        (q : ℕ) → is_live (t.proc q).state ≡ true → is_live ((set_proc p x t).proc q).state ≡ true
    other q live = elim (ℕ_discrete p q) [
      | yes e ↦ absurd (ground (arith, dead, ap (λ z. is_live (t.proc z).state) e))
      | no ne ↦ ground arith
    ]

-- A table that differs from one that keeps the invariant as `put-Inv` says.
pub put_at-Inv :
    (few few' : Bool) (p : ℕ) (x : Proc) (t u : Table)
    → p < nproc
    → is_live (t.proc p).state ≡ false
    → ((q : ℕ) → u.proc q ≡ (if p == q then x else t.proc q))
    → u.initproc ≡ t.initproc
    → (few' ≡ true → (few ≡ true) × (t.nextpid ≤ u.nextpid) × (x.pid < u.nextpid))
    → ((x.pid ≡ 0) × (x.state ≡ unused))
      ⊎ ((few' ≡ true → t.nextpid ≤ x.pid)
          × ((q : ℕ) × (q < nproc) × (x.parent ≡ some q) × (is_live (t.proc q).state ≡ true)))
    → Inv few t
    → Inv few' u
put_at-Inv few few' p x t u lp dead others root le kind inv =
    subst (Inv few') (sym same) (put-Inv few few' p x t u.nextpid lp dead le kind inv)
  where
    same : u ≡ record (set_proc p x t) { nextpid = u.nextpid }
    same =
        ap (λ (f : ℕ → Proc). record u { proc = f }) (fun_ext others)
        ∙ ap (λ (i : ℕ). record (set_proc p x t) { nextpid = u.nextpid; initproc = i }) root
