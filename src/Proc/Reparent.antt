-- ===== src/Proc/Reparent.antt =====
-- `reparent` of kernel/proc.c, against what it does to one process.
use ntu_sc2005_xv.Prelude.{
  ℕ, zero, suc, ◌+◌, ◌≡◌, ◌≢◌, ◌⊎◌, inl, inr, refl, ◌∙◌, ap, sym, Bool, true, false, not, ◌&&◌,
  Option, some, ◌==◌, leb, ltb, if◌then◌else◌, arith, Bool-cases, ℕ_discrete, subst,
}
use ntu_sc2005_xv.Prelude.Maps.{update}
use ntu_sc2005_xv.Proc.{
  runnable, is_sleeping, nproc, Proc, Table, set_proc, points, chan_of, wakeup, reparent_loop,
  reparent,
}
use ntu_sc2005_xv.Proc.Loops.{wakeup_lem}

-- A process `u` that was `v` before `reparent`, with this parent now.
pub record Adopted (init : ℕ) (new : Option ℕ) (v u : Proc) : Type 0 where
  pub parent : u.parent ≡ new
  pub pid : u.pid ≡ v.pid
  pub chan : u.chan ≡ v.chan
  pub killed : u.killed ≡ v.killed
  pub xstate : u.xstate ≡ v.xstate
  pub sz : u.sz ≡ v.sz
  pub pages : (u.pagetable ≡ v.pagetable) × (u.trapframe ≡ v.trapframe)
  pub state :
      (u.state ≡ v.state)
      ⊎ ((is_sleeping v.state ≡ true) × (v.chan ≡ suc init) × (u.state ≡ runnable))

Adopted-trans :
    {init : ℕ} {a b : Option ℕ} {v u w : Proc}
    → Adopted init a v u
    → Adopted init b u w
    → Adopted init b v w
Adopted-trans h k = record {
  parent = k.parent;
  pid = k.pid ∙ h.pid;
  chan = k.chan ∙ h.chan;
  killed = k.killed ∙ h.killed;
  xstate = k.xstate ∙ h.xstate;
  sz = k.sz ∙ h.sz;
  pages = (k.pages.0 ∙ h.pages.0, k.pages.1 ∙ h.pages.1);
  state = ground (arith, h.state, k.state, h.chan);
}

-- One round for a child.
abbrev adopt : ℕ → ℕ → Table → Table
adopt me pp t =
    wakeup (some me) (chan_of (some t.initproc))
      (set_proc pp (record (t.proc pp) { parent = some t.initproc }) t)

Adopted-wake :
    (init : ℕ) (new : Option ℕ) (v w : Proc) (inside other : Bool)
    → Adopted init new v w
    → Adopted init new v (
        if inside && other && is_sleeping w.state && w.chan == suc init
        then record w { state = runnable }
        else w)
Adopted-wake init new v w inside other h = record {
  parent = ground (arith, h.parent);
  pid = ground (arith, h.pid);
  chan = ground (arith, h.chan);
  killed = ground (arith, h.killed);
  xstate = ground (arith, h.xstate);
  sz = ground (arith, h.sz);
  pages = ground (arith, h.pages);
  state = ground (arith, h.state, h.chan);
}

given :
    (init pp : ℕ) (t : Table) (q : ℕ)
    → Adopted init
        (if pp == q then some init else (t.proc q).parent)
        (t.proc q)
        (update t.proc pp (record (t.proc pp) { parent = some init }) q)
given init pp t q = elim (ℕ_discrete pp q) [
  | yes e ↦
      subst
        (λ x.
          Adopted init (if pp == x then some init else (t.proc x).parent) (t.proc x)
            (update t.proc pp (record (t.proc pp) { parent = some init }) x))
        e
        (record {
          parent = ground arith;
          pid = ground arith;
          chan = ground arith;
          killed = ground arith;
          xstate = ground arith;
          sz = ground arith;
          pages = ground arith;
          state = inl (ground arith);
        })
  | no ne ↦ record {
    parent = ground arith;
    pid = ground arith;
    chan = ground arith;
    killed = ground arith;
    xstate = ground arith;
    sz = ground arith;
    pages = ground arith;
    state = inl (ground arith);
  }
]

adopt_lem :
    (me pp : ℕ) (t : Table) (q : ℕ)
    → Adopted t.initproc
        (if pp == q then some t.initproc else (t.proc q).parent)
        (t.proc q)
        ((adopt me pp t).proc q)
adopt_lem me pp t q =
    let u = set_proc pp (record (t.proc pp) { parent = some t.initproc }) t in
    let (h, _, _) = wakeup_lem (some me) (chan_of (some t.initproc)) u in
    let new = if pp == q then some t.initproc else (t.proc q).parent in
    let k =
      Adopted-wake t.initproc new (t.proc q) (u.proc q) (ltb q nproc) (not (points (some me) q))
        (given t.initproc pp t q) in
    subst (Adopted t.initproc new (t.proc q)) (sym (h q)) k

same-Adopted : (init : ℕ) (v : Proc) → Adopted init v.parent v v
same-Adopted init v = record {
  parent = refl;
  pid = refl;
  chan = refl;
  killed = refl;
  xstate = refl;
  sz = refl;
  pages = (refl, refl);
  state = inl refl;
}

-- The parent that the rest of the loop gives.
abbrev heir : ℕ → ℕ → ℕ → Table → ℕ → Option ℕ
heir rest pp me t q =
    if leb pp q && ltb q (pp + rest) && points (t.proc q).parent me
    then some t.initproc
    else (t.proc q).parent

fixed_adopt :
    (me pp : ℕ) (t : Table)
    → ((adopt me pp t).nextpid ≡ t.nextpid) × ((adopt me pp t).initproc ≡ t.initproc)
fixed_adopt me pp t =
    let (_, n, i) =
      wakeup_lem (some me) (chan_of (some t.initproc))
        (set_proc pp (record (t.proc pp) { parent = some t.initproc }) t) in
    (n, i)

reparent_loop_lem :
    (rest pp me : ℕ) (t : Table)
    → me ≢ t.initproc
    → ((q : ℕ)
        → Adopted t.initproc (heir rest pp me t q) (t.proc q) ((reparent_loop rest pp me t).proc q))
      × ((reparent_loop rest pp me t).nextpid ≡ t.nextpid)
      × ((reparent_loop rest pp me t).initproc ≡ t.initproc)
unfolding reparent_loop
reparent_loop_lem zero pp me t ne = (
  λ q.
      subst (λ o. Adopted t.initproc o (t.proc q) (t.proc q)) (ground arith)
        (same-Adopted t.initproc (t.proc q)),
  refl,
  refl,
)
reparent_loop_lem (suc rest) pp me t ne = elim (Bool-cases (points (t.proc pp).parent me)) [
  | inl child ↦
      let u = adopt me pp t in
      let (n, i) = fixed_adopt me pp t in
      let (h, n', i') = reparent_loop_lem rest (pp + 1) me u (λ e. ne (e ∙ i)) in
      rw (reparent_loop, child)
        (
          λ q.
              subst
                (λ o. Adopted t.initproc o (t.proc q) ((reparent_loop rest (pp + 1) me u).proc q))
                (take child q)
                (Adopted-trans (adopt_lem me pp t q) (
                  subst
                    (λ x.
                      Adopted x (heir rest (pp + 1) me u q) (u.proc q)
                        ((reparent_loop rest (pp + 1) me u).proc q))
                    i (h q))),
          n' ∙ n,
          i' ∙ i,
        )
  | inr other ↦
      let (h, n, i) = reparent_loop_lem rest (pp + 1) me t ne in
      rw (reparent_loop, other)
        (
          λ q.
              subst
                (λ o. Adopted t.initproc o (t.proc q) ((reparent_loop rest (pp + 1) me t).proc q))
                (skip other q) (h q),
          n,
          i,
        )
]
  where
    skip :
        points (t.proc pp).parent me ≡ false
        → (q : ℕ) → heir rest (pp + 1) me t q ≡ heir (suc rest) pp me t q
    skip other q = elim (ℕ_discrete pp q) [
      | yes e ↦ ground (arith, other, ap (λ x. points (t.proc x).parent me) e)
      | no n ↦ ground arith
    ]

    take :
        points (t.proc pp).parent me ≡ true
        → (q : ℕ) → heir rest (pp + 1) me (adopt me pp t) q ≡ heir (suc rest) pp me t q
    take child q = elim (ℕ_discrete pp q) [
      | yes e ↦ ground (
        arith,
        child,
        ap (λ x. points (t.proc x).parent me) e,
        (adopt_lem me pp t q).parent,
        (fixed_adopt me pp t).1,
      )
      | no n ↦ ground (arith, (adopt_lem me pp t q).parent, (fixed_adopt me pp t).1)
    ]

-- After `reparent` by a process other than init every child of the caller is a child of init. Other
-- parents stay, no process changes otherwise but those asleep in init's `wait`, which may run.
pub reparent_lem :
    (me : ℕ) (t : Table)
    → me ≢ t.initproc
    → ((q : ℕ)
        → Adopted t.initproc
            (if ltb q nproc && points (t.proc q).parent me
              then some t.initproc
              else (t.proc q).parent)
            (t.proc q)
            ((reparent me t).proc q))
      × ((reparent me t).nextpid ≡ t.nextpid)
      × ((reparent me t).initproc ≡ t.initproc)
unfolding reparent
reparent_lem me t ne =
    let (h, n, i) = reparent_loop_lem nproc 0 me t ne in
    (
      λ q.
          subst (λ o. Adopted t.initproc o (t.proc q) ((reparent_loop nproc 0 me t).proc q))
            (ground arith) (h q),
      n,
      i,
    )
