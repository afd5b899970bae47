-- ===== src/Proc/Lineage.antt =====
-- Every process of kernel/proc.c has a name of its own and a live parent.
use ntu_sc2005_xv.Prelude.{
  ℕ, ◌+◌, ◌^◌, ◌<◌, ◌≡◌, inl, inr, refl, ◌∙◌, ap, sym, subst, fun_ext, ap₂, Bool, true, false, not,
  ◌&&◌, Option, none, some, ◌==◌, ltb, if◌then◌else◌, arith, Bool-cases,
}
use ntu_sc2005_xv.Prelude.Int.{ℤ, pos, as_int}
use ntu_sc2005_xv.Proc.{
  State, unused, used, sleeping, runnable, running, zombie, is_unused, is_zombie, is_sleeping,
  is_runnable, nproc, Proc, Table, Frees, points, find_unused, freeproc, allocpid, found, allocproc,
  userinit, wakeup, WaitResult, returned, wait, schedule, yield, sleep, awake, kill, setkilled,
}
use ntu_sc2005_xv.Proc.Loops.{wakeup_lem}
use ntu_sc2005_xv.Proc.Wait.{
  killed_proc, kill_lem, Waits, reaps, refused, childless, dies, waits, wait_lem,
}
use ntu_sc2005_xv.Proc.Family.{
  Step, forks, exits, reaped, kills, marks, wakes, runs, naps, resumes, yields, Reach, boot, next,
  is_live, Inv, Inv-congr, Kept, Kept-Inv, same-Kept, set-Inv,
}
use ntu_sc2005_xv.Proc.Birth.{fork-Inv}
use ntu_sc2005_xv.Proc.Death.{After, wait-Inv, exit-Inv, sleeping-live}

running-Kept :
    {v u : Proc}
    → v.state ≡ running
    → is_live u.state ≡ true
    → is_unused u.state ≡ false
    → u.parent ≡ v.parent
    → u.pid ≡ v.pid
    → Kept v u
running-Kept up live busy par pid = record {
  parent = par;
  pid = pid;
  free = busy ∙ sym (ap is_unused up);
  live = live ∙ sym (ap is_live up);
}

runnable-live : (s : State) → is_runnable s ≡ true → (is_live s ≡ true) × (is_unused s ≡ false)
runnable-live runnable h = (refl, refl)
runnable-live unused h = absurd (ground arith)
runnable-live used h = absurd (ground arith)
runnable-live sleeping h = absurd (ground arith)
runnable-live running h = absurd (ground arith)
runnable-live zombie h = absurd (ground arith)

woken-Kept :
    (v : Proc) (yes_no : Bool)
    → Kept v (if yes_no && is_sleeping v.state then record v { state = runnable } else v)
woken-Kept v yes_no = elim (Bool-cases (yes_no && is_sleeping v.state)) [
  | inl w ↦
      let (l, b) = sleeping-live v.state (ground (arith, w)) in
      rw w (record { parent = refl; pid = refl; free = sym b; live = sym l })
  | inr w ↦ rw w (same-Kept v)
]

wakeup-Inv :
    {few : Bool} (me : Option ℕ) (chan : ℕ) (t : Table) → Inv few t → Inv few (wakeup me chan t)
wakeup-Inv me chan t inv =
    let (w, n, i) = wakeup_lem me chan t in
    Kept-Inv t (wakeup me chan t)
      (λ q.
        subst (Kept (t.proc q)) (ground (arith, w q))
          (woken-Kept (t.proc q) (ltb q nproc && not (points me q) && (t.proc q).chan == chan)))
      n i inv

killed-Kept : (v : Proc) → Kept v (killed_proc v)
killed-Kept v = elim (Bool-cases (is_sleeping v.state)) [
  | inl w ↦
      let (l, b) = sleeping-live v.state w in
      rw w (record { parent = refl; pid = refl; free = sym b; live = sym l })
  | inr w ↦ rw w (record { parent = refl; pid = refl; free = refl; live = refl })
]

kill-Inv : {few : Bool} (pid : ℕ) (t : Table) → Inv few t → Inv few (kill pid t).1
kill-Inv {few} pid t inv = elim (kill_lem pid t) [
  | inl (p, _, _, e) ↦
      subst (λ r. Inv few r.1) (sym e)
        (set-Inv p (killed_proc (t.proc p)) t (killed-Kept (t.proc p)) inv)
  | inr (_, e) ↦ subst (λ (r : ℤ × Table). Inv few r.1) (sym e) inv
]

schedule-Inv : {few : Bool} (p : ℕ) (t : Table) → Inv few t → Inv few (schedule p t)
unfolding schedule
schedule-Inv p t inv = elim (Bool-cases (is_runnable (t.proc p).state)) [
  | inl w ↦
      let (l, b) = runnable-live (t.proc p).state w in
      rw w (set-Inv p _ t (record { parent = refl; pid = refl; free = sym b; live = sym l }) inv)
  | inr w ↦ rw w inv
]

-- After a step from `t`, whether `nextpid` has kept below 2^31.
abbrev pub still_few : Bool → Table → Bool
still_few few t = few && ltb (t.nextpid + 1) (2 ^ 31)

few_before :
    (few : Bool) (t : Table) → still_few few t ≡ true → (few ≡ true) × (t.nextpid + 1 < 2 ^ 31)
few_before few t h = (ground (arith, h), ground (arith, h))

Step-Inv : {few : Bool} {t u : Table} → Step t u → Inv few t → Inv (still_few few t) u
unfolding setkilled sleep awake yield
Step-Inv {few} {t} (forks me frame pagetable copied lt up) inv =
    fork-Inv few (still_few few t) me frame pagetable copied t lt up (few_before few t) inv
Step-Inv {few} {t} {u} (exits me status lt up e) inv =
    Inv-congr u (λ ok. (few_before few t ok).0) (exit-Inv me status t lt up e inv)
Step-Inv {few} {t} {u} (reaped me addr copied e) inv =
    Inv-congr u (λ ok. (few_before few t ok).0)
      (subst (After few) e
        (wait-Inv me addr copied t (wait me addr copied t) inv (wait_lem me addr copied t)))
Step-Inv {few} {t} (kills pid) inv =
    Inv-congr _ (λ ok. (few_before few t ok).0) (kill-Inv pid t inv)
Step-Inv {few} {t} (marks p) inv =
    Inv-congr _ (λ ok. (few_before few t ok).0)
      (set-Inv p _ t (record { parent = refl; pid = refl; free = refl; live = refl }) inv)
Step-Inv {few} {t} (wakes me chan) inv =
    Inv-congr _ (λ ok. (few_before few t ok).0) (wakeup-Inv me chan t inv)
Step-Inv {few} {t} (runs p) inv = Inv-congr _ (λ ok. (few_before few t ok).0) (schedule-Inv p t inv)
Step-Inv {few} {t} (naps me chan up) inv =
    Inv-congr _ (λ ok. (few_before few t ok).0)
      (set-Inv me _ t (running-Kept up refl refl refl refl) inv)
Step-Inv {few} {t} (resumes me) inv =
    Inv-congr _ (λ ok. (few_before few t ok).0)
      (set-Inv me _ t (record { parent = refl; pid = refl; free = refl; live = refl }) inv)
Step-Inv {few} {t} (yields me up) inv =
    Inv-congr _ (λ ok. (few_before few t ok).0)
      (set-Inv me _ t (running-Kept up refl refl refl refl) inv)

-- The table after `userinit`.
abbrev booted : ℕ → ℕ → Table
booted frame pagetable =
    let clear : Proc = record {
      state = unused;
      chan = 0;
      killed = false;
      xstate = pos 0;
      pid = 0;
      parent = none;
      sz = 0;
      pagetable = 0;
      trapframe = 0;
    } in
    let init : Proc = record clear {
      pid = 1;
      state = runnable;
      trapframe = frame;
      pagetable = pagetable;
      sz = 4096;
    } in
    record { proc = λ q. if 0 == q then init else clear; nextpid = 2; initproc = 0 }

booted-Inv : (frame pagetable : ℕ) → Inv true (booted frame pagetable)
booted-Inv frame pagetable = record {
  root = (omega arith, refl);
  parents = λ p lp busy other. absurd (ground (arith, busy, other));
  below = λ ok p lp. ground arith;
  unique = λ ok p q lp lq nz e. ground (arith, nz, e);
  named = λ ok p lp busy. ground (arith, busy);
  counted = λ ok. omega arith;
}

userinit-Inv : (frame pagetable : ℕ) {t : Table} → userinit frame pagetable ≡ some t → Inv true t
unfolding userinit allocproc found find_unused allocpid freeproc
userinit-Inv frame pagetable {t} e = elim (Bool-cases (frame == 0)) [
  | inl z ↦ absurd (ground (arith, z, e))
  | inr nz ↦ elim (Bool-cases (pagetable == 0)) [
    | inl z ↦ absurd (ground (arith, nz, z, e))
    | inr nz' ↦
        let at : (q : ℕ) → t.proc q ≡ (booted frame pagetable).proc q =
          λ q. ground (arith, nz, nz', e) in
        let same : t ≡ booted frame pagetable =
          ap (λ (f : ℕ → Proc). record t { proc = f }) (fun_ext at)
          ∙ ap₂ (λ (n i : ℕ). record (booted frame pagetable) { nextpid = n; initproc = i })
              (ground (arith, nz, nz', e)) (ground (arith, nz, nz', e)) in
        subst (Inv true) (sym same) (booted-Inv frame pagetable)
  ]
]

-- Whether `nextpid` has been below 2^31 - 1 in every state before this one.
abbrev pub few_pids : {t : Table} → Reach t → Bool
few_pids (boot frame pagetable e) = true
few_pids (next {t} r st) = still_few (few_pids r) t

Reach-Inv : {t : Table} (r : Reach t) → Inv (few_pids r) t
Reach-Inv (boot frame pagetable e) = userinit-Inv frame pagetable e
Reach-Inv (next r st) = Step-Inv st (Reach-Inv r)

-- In every state that is reached without an overflow of `nextpid`, which is an `int`, two processes
-- never have the same pid; and init is neither free nor a zombie.
pub unique_pids :
    {t : Table} (p q : ℕ) (r : Reach t)
    → few_pids r ≡ true
    → p < nproc
    → q < nproc
    → is_unused (t.proc p).state ≡ false
    → ((t.proc p).pid ≡ (t.proc q).pid → p ≡ q) × (is_live (t.proc t.initproc).state ≡ true)
unique_pids p q r few lp lq busy =
    let inv = Reach-Inv r in (inv.unique few p q lp lq (inv.named few p lp busy), inv.root.1)

-- What `wait` finds when there is a zombie child.
abbrev Found : ℕ → Table → WaitResult → Type 0
Found q t w =
    (c : ℕ) × (f : Frees) × (u : Table) × ((t.proc c).parent ≡ some q)
    × (is_zombie (t.proc c).state ≡ true)
    × (w ≡ returned (as_int (t.proc c).pid) f u)

finds :
    (q p : ℕ) (copied : Bool) (t : Table) (w : WaitResult)
    → p < nproc
    → (t.proc p).parent ≡ some q
    → is_zombie (t.proc p).state ≡ true
    → Waits q 0 copied t w
    → Found q t w
finds q p copied t w lp par z (reaps c _ mine zc _) = (c, _, _, mine, zc, refl)
finds q p copied t w lp par z (refused _ _ _ _ addr _) = absurd (addr refl)
finds q p copied t w lp par z (childless none_of) = absurd (none_of p lp par)
finds q p copied t w lp par z (dies _ alive) = absurd (ground (arith, z, alive p lp par))
finds q p copied t w lp par z (waits _ _ _ _ alive) = absurd (ground (arith, z, alive p lp par))

-- No process is an orphan: a zombie has a parent that is alive, and a `wait` of that parent without
-- an address finds a zombie child and returns its pid.
pub no_orphan :
    {t : Table} (p : ℕ) (copied : Bool)
    → Reach t
    → p < nproc
    → is_zombie (t.proc p).state ≡ true
    → (q : ℕ) × ((t.proc p).parent ≡ some q)
      × (is_live (t.proc q).state ≡ true)
      × ((c : ℕ) × (f : Frees) × (u : Table) × ((t.proc c).parent ≡ some q)
          × (is_zombie (t.proc c).state ≡ true)
          × (wait q 0 copied t ≡ returned (as_int (t.proc c).pid) f u))
no_orphan {t} p copied r lp z =
    let inv = Reach-Inv r in
    let (q, lq, par, live) =
      inv.parents p lp (ground (arith, z))
        (λ e. ground (arith, z, ap (λ x. is_live (t.proc x).state) e, inv.root.1)) in
    (q, par, live, finds q p copied t (wait q 0 copied t) lp par z (wait_lem q 0 copied t))
