-- ===== src/Proc/Death.antt =====
-- `exit` and `wait` of kernel/proc.c keep every process in the care of a live one.
use ntu_sc2005_xv.Prelude.{
  ℕ, ◌<◌, ◌≡◌, ◌≢◌, inl, inr, refl, ◌∙◌, ap, sym, subst, Bool, true, false, some, if◌then◌else◌,
  arith, ℕ_discrete,
}
use ntu_sc2005_xv.Prelude.Int.{ℤ}
use ntu_sc2005_xv.Proc.{
  State, unused, used, sleeping, runnable, running, zombie, is_unused, is_zombie, is_sleeping,
  nproc, Proc, Table, points, exit, WaitResult, returned, sleeps,
}
use ntu_sc2005_xv.Proc.Wait.{free_slot, Waits, reaps, refused, childless, dies, waits}
use ntu_sc2005_xv.Proc.Exit.{Left, exit_lem}
use ntu_sc2005_xv.Proc.Family.{is_live, Inv, put_at-Inv}

zombie-dead : (s : State) → is_zombie s ≡ true → is_live s ≡ false
zombie-dead zombie h = refl
zombie-dead unused h = absurd (ground arith)
zombie-dead used h = absurd (ground arith)
zombie-dead sleeping h = absurd (ground arith)
zombie-dead runnable h = absurd (ground arith)
zombie-dead running h = absurd (ground arith)

-- The invariant for the table that `wait` returns, if it does.
abbrev pub After : Bool → WaitResult → Type 0
After few (returned r f u) = Inv few u
After few (sleeps c) = Unit

pub wait-Inv :
    {few : Bool} (me addr : ℕ) (copied : Bool) (t : Table) (w : WaitResult)
    → Inv few t
    → Waits me addr copied t w
    → After few w
wait-Inv {few} me addr copied t w inv (reaps p lt par z ok) =
    put_at-Inv few few p free_slot t _ lt (zombie-dead _ z) (λ q. refl) refl
      (λ f. (f, omega arith, omega (arith, inv.counted f))) (inl (refl, refl)) inv
wait-Inv me addr copied t w inv (refused _ _ _ _ _ _) = inv
wait-Inv me addr copied t w inv (childless _) = inv
wait-Inv me addr copied t w inv (dies _ _) = inv
wait-Inv me addr copied t w inv (waits _ _ _ _ _) = tt

pub sleeping-live : (s : State) → is_sleeping s ≡ true → (is_live s ≡ true) × (is_unused s ≡ false)
sleeping-live sleeping h = (refl, refl)
sleeping-live unused h = absurd (ground arith)
sleeping-live used h = absurd (ground arith)
sleeping-live runnable h = absurd (ground arith)
sleeping-live running h = absurd (ground arith)
sleeping-live zombie h = absurd (ground arith)

Left-live :
    {me init : ℕ} {v u : Proc}
    → Left me init v u
    → (is_live u.state ≡ is_live v.state) × (is_unused u.state ≡ is_unused v.state)
Left-live {v = v} h = elim h.state [
  | inl e ↦ (ap is_live e, ap is_unused e)
  | inr (sl, e) ↦ (
    ap is_live e ∙ sym (sleeping-live v.state sl).0,
    ap is_unused e ∙ sym (sleeping-live v.state sl).1,
  )
]

module _ {few : Bool} (me : ℕ) (t u : Table) (inv : Inv few t) (lm : me < nproc)
    (up : (t.proc me).state ≡ running) (ne : me ≢ t.initproc) (dead : (u.proc me).state ≡ zombie)
    (pid : (u.proc me).pid ≡ (t.proc me).pid)
    (mine : (u.proc me).parent
      ≡ (if points (t.proc me).parent me then some t.initproc else (t.proc me).parent))
    (left : (q : ℕ) → q < nproc → q ≢ me → Left me t.initproc (t.proc q) (u.proc q))
    (n : u.nextpid ≡ t.nextpid) (i : u.initproc ≡ t.initproc) where
  still_live :
      (q : ℕ)
      → q < nproc
      → q ≢ me
      → is_live (t.proc q).state ≡ true
      → is_live (u.proc q).state ≡ true
  still_live q lq other live = (Left-live (left q lq other)).0 ∙ live

  pids : (q : ℕ) → q < nproc → (u.proc q).pid ≡ (t.proc q).pid
  pids q lq = elim (ℕ_discrete q me) [
    | yes e ↦ subst (λ x. (u.proc x).pid ≡ (t.proc x).pid) (sym e) pid
    | no other ↦ (left q lq other).pid
  ]

  parent_of :
      (p : ℕ)
      → p < nproc
      → (u.proc p).parent
        ≡ (if points (t.proc p).parent me then some t.initproc else (t.proc p).parent)
  parent_of p lp = elim (ℕ_discrete p me) [
    | yes e ↦
        subst
          (λ x.
            (u.proc x).parent
            ≡ (if points (t.proc x).parent me then some t.initproc else (t.proc x).parent))
          (sym e) mine
    | no other ↦ (left p lp other).parent
  ]

  was_busy :
      (p : ℕ) → p < nproc → is_unused (u.proc p).state ≡ false → is_unused (t.proc p).state ≡ false
  was_busy p lp busy = elim (ℕ_discrete p me) [
    | yes e ↦ subst (λ x. is_unused (t.proc x).state ≡ false) (sym e) (ap is_unused up)
    | no other ↦ sym (Left-live (left p lp other)).1 ∙ busy
  ]

  exited-Inv : Inv few u
  exited-Inv = record {
    root = rw i (inv.root.0, still_live t.initproc inv.root.0 (λ e. ne (sym e)) inv.root.1);
    parents = λ p lp busy other.
        let (q, lq, par, live) = inv.parents p lp (was_busy p lp busy) (rw i at other) in
        elim (ℕ_discrete q me) [
          | yes e ↦ (
            t.initproc,
            inv.root.0,
            ground (arith, parent_of p lp, par, e),
            still_live t.initproc inv.root.0 (λ e. ne (sym e)) inv.root.1,
          )
          | no far ↦ (q, lq, ground (arith, parent_of p lp, par, far), still_live q lq far live)
        ];
    below = λ ok p lp. ground (arith, pids p, inv.below ok p, n);
    unique = λ ok p q lp lq nz e.
        inv.unique ok p q lp lq (ground (arith, pids p)) (ground (arith, pids p, pids q));
    named = λ ok p lp busy. ground (arith, pids p, inv.named ok p, was_busy p);
    counted = λ ok. ground (arith, inv.counted ok, n);
  }

pub exit-Inv :
    {few : Bool} (me : ℕ) (status : ℤ) (t : Table) {u : Table}
    → me < nproc
    → (t.proc me).state ≡ running
    → exit me status t ≡ some u
    → Inv few t
    → Inv few u
exit-Inv {few} me status t {u} lm up e inv = elim (ℕ_discrete me t.initproc) [
  | yes bad ↦ absurd (ground (arith, (exit_lem me status t lm).0 bad, e))
  | no ne ↦
      let (s, done, (dead, _, pid, mine), left, _, n, i) = (exit_lem me status t lm).1 ne in
      let same : s ≡ u = ground (arith, done, e) in
      subst (Inv few) same (exited-Inv me t s inv lm up ne dead pid mine left n i)
]
