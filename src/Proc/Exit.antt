-- ===== src/Proc/Exit.antt =====
-- `exit` of kernel/proc.c.
use ntu_sc2005_xv.Prelude.{
  ℕ, suc, ◌<◌, ◌≡◌, ◌≢◌, ◌⊎◌, ◌∙◌, ap, sym, subst, Bool, true, not, ◌&&◌, none, some, ◌==◌, ltb,
  if◌then◌else◌, arith,
}
use ntu_sc2005_xv.Prelude.Int.{ℤ}
use ntu_sc2005_xv.Proc.{
  runnable, zombie, is_sleeping, nproc, Proc, Table, set_proc, points, chan_of, wakeup, reparent,
  exit,
}
use ntu_sc2005_xv.Proc.Loops.{wakeup_lem}
use ntu_sc2005_xv.Proc.Reparent.{Adopted, reparent_lem}

-- What `exit` of process `me` does to another process, `v` before and `u` after.
pub record Left (me init : ℕ) (v u : Proc) : Type 0 where
  pub parent : u.parent ≡ (if points v.parent me then some init else v.parent)
  pub pid : u.pid ≡ v.pid
  pub killed : u.killed ≡ v.killed
  pub state : (u.state ≡ v.state) ⊎ ((is_sleeping v.state ≡ true) × (u.state ≡ runnable))

Left-woken :
    (me init : ℕ) (v w : Proc) (inside other : Bool) (chan : ℕ)
    → Adopted init (if points v.parent me then some init else v.parent) v w
    → Left me init v (
        if inside && other && is_sleeping w.state && w.chan == chan
        then record w { state = runnable }
        else w)
Left-woken me init v w inside other chan h = record {
  parent = ground (arith, h.parent);
  pid = ground (arith, h.pid);
  killed = ground (arith, h.killed);
  state = ground (arith, h.state);
}

-- The states in `exit` before it turns the caller into a zombie.
abbrev before : ℕ → Table → Table
before me t = wakeup (some me) (chan_of ((reparent me t).proc me).parent) (reparent me t)

module _ (me : ℕ) (t : Table) (ne : me ≢ t.initproc) where
  before-Left : (q : ℕ) → q < nproc → Left me t.initproc (t.proc q) ((before me t).proc q)
  before-Left q lt =
      let (h, _, _) = reparent_lem me t ne in
      let u = reparent me t in
      let (w, _, _) = wakeup_lem (some me) (chan_of (u.proc me).parent) u in
      let a = subst (λ o. Adopted t.initproc o (t.proc q) (u.proc q)) (ground arith) (h q) in
      subst (Left me t.initproc (t.proc q)) (sym (w q)) (
        Left-woken me t.initproc (t.proc q) (u.proc q) (ltb q nproc) (not (points (some me) q))
          (chan_of (u.proc me).parent) a)

  fixed : ((before me t).nextpid ≡ t.nextpid) × ((before me t).initproc ≡ t.initproc)
  fixed =
      let (_, n, i) = reparent_lem me t ne in
      let (_, n', i') =
        wakeup_lem (some me) (chan_of ((reparent me t).proc me).parent) (reparent me t) in
      (n' ∙ n, i' ∙ i)

  -- The parent sleeps in `wait` no longer.
  parent_wakes :
      (p : ℕ)
      → me < nproc
      → p < nproc
      → p ≢ me
      → (t.proc me).parent ≡ some p
      → (t.proc p).chan ≡ suc p
      → is_sleeping (t.proc p).state ≡ true
      → ((before me t).proc p).state ≡ runnable
  parent_wakes p lm lp other par ch sl =
      let (h, _, _) = reparent_lem me t ne in
      let u = reparent me t in
      let (w, _, _) = wakeup_lem (some me) (chan_of (u.proc me).parent) u in
      let mine : (u.proc me).parent ≡ some p = (h me).parent ∙ ground (arith, par) in
      ap (λ (x : Proc). x.state) (w p) ∙ ground (arith, (h p).state, (h p).chan, ap chan_of mine)

-- What `exit` of a process of the table does. Init panics. Any other process becomes a zombie with
-- its status and keeps its pid; all its children are init's afterwards; its parent, if another
-- process asleep in `wait`, is runnable; and the other processes keep their pid, parent, mark of
-- `kill` and state but for sleepers that are made runnable.
pub exit_lem :
    (me : ℕ) (status : ℤ) (t : Table)
    → me < nproc
    → (me ≡ t.initproc → exit me status t ≡ none)
      × (me ≢ t.initproc
          → (u : Table) × (exit me status t ≡ some u)
            × (((u.proc me).state ≡ zombie)
                × ((u.proc me).xstate ≡ status)
                × ((u.proc me).pid ≡ (t.proc me).pid)
                × ((u.proc me).parent ≡ (
                    if points (t.proc me).parent me then some t.initproc else (t.proc me).parent)))
            × ((q : ℕ) → q < nproc → q ≢ me → Left me t.initproc (t.proc q) (u.proc q))
            × ((p : ℕ)
                → p < nproc
                → p ≢ me
                → (t.proc me).parent ≡ some p
                → (t.proc p).chan ≡ suc p
                → is_sleeping (t.proc p).state ≡ true
                → (u.proc p).state ≡ runnable)
            × (u.nextpid ≡ t.nextpid)
            × (u.initproc ≡ t.initproc))
unfolding exit
exit_lem me status t lt = (
  λ e. ground (arith, e),
  λ ne.
      let s = before me t in
      (
        set_proc me (record (s.proc me) { xstate = status; state = zombie }) s,
        ground (arith, ne),
        (
          ground arith,
          ground arith,
          ground (arith, (before-Left me t ne me lt).pid),
          ground (arith, (before-Left me t ne me lt).parent),
        ),
        λ q lq other.
            subst (Left me t.initproc (t.proc q)) (ground arith) (before-Left me t ne q lq),
        λ p lp other par ch sl. ground (arith, parent_wakes me t ne p lt lp other par ch sl),
        (fixed me t ne).0,
        (fixed me t ne).1,
      ),
)
