-- ===== src/Proc/Tests.antt =====
-- Runs of kernel/proc.c, and its theorems at concrete tables.
use ntu_sc2005_xv.Prelude.{
  ℕ, suc, ◌<◌, ◌≡◌, ◌≢◌, refl, true, false, Option, none, some, if◌then◌else◌, arith,
}
use ntu_sc2005_xv.Prelude.Int.{pos, as_int}
use ntu_sc2005_xv.Proc.{
  runnable, running, zombie, is_sleeping, is_unused, is_zombie, nproc, Table, Frees, points,
  find_unused, allocpid, found, allocproc, fork_from, fork, freeproc, userinit, wake_loop, wakeup,
  reparent_loop, reparent, exit, returned, wait, schedule,
}
use ntu_sc2005_xv.Proc.Wait.{Waits, wait_lem}
use ntu_sc2005_xv.Proc.Exit.{Left, exit_lem}
use ntu_sc2005_xv.Proc.Family.{forks, exits, runs, Reach, boot, next, is_live}
use ntu_sc2005_xv.Proc.Lineage.{few_pids, unique_pids, no_orphan}

abbrev table_of : Option Table → Table
table_of none = record {
  proc = λ _. record {
    state = zombie;
    chan = 0;
    killed = false;
    xstate = pos 0;
    pid = 0;
    parent = none;
    sz = 0;
    pagetable = 0;
    trapframe = 0;
  };
  nextpid = 0;
  initproc = 0;
}
table_of (some t) = t

abbrev booted : Table
booted = table_of (userinit 7 8)

abbrev init_runs : Table
init_runs = schedule 0 booted

abbrev forked : Table
forked = (fork 0 9 10 true init_runs).2

abbrev child_runs : Table
child_runs = schedule 1 forked

abbrev exited : Table
exited = table_of (exit 1 (pos 5) child_runs)

boots : userinit 7 8 ≡ some booted
unfolding userinit allocproc found find_unused allocpid freeproc
boots = refl

child_pid : (forked.proc 1).pid ≡ 2
unfolding userinit allocproc found find_unused allocpid freeproc schedule fork fork_from
child_pid = refl

init_up : (init_runs.proc 0).state ≡ running
unfolding userinit allocproc found find_unused allocpid freeproc schedule
init_up = refl

child_up : (child_runs.proc 1).state ≡ running
unfolding userinit allocproc found find_unused allocpid freeproc schedule fork fork_from
child_up = refl

child_exits : exit 1 (pos 5) child_runs ≡ some exited
unfolding userinit allocproc found find_unused allocpid freeproc schedule fork fork_from exit
    reparent reparent_loop wakeup wake_loop
child_exits = refl

child_dead : is_zombie (exited.proc 1).state ≡ true
unfolding userinit allocproc found find_unused allocpid freeproc schedule fork fork_from exit
    reparent reparent_loop wakeup wake_loop
child_dead = refl

child_runs_reached : Reach child_runs
child_runs_reached =
    next (next (next (boot 7 8 boots) (runs 0)) (forks 0 9 10 true (omega arith) init_up)) (runs 1)

exited_reached : Reach exited
exited_reached = next child_runs_reached (exits 1 (pos 5) (omega arith) child_up child_exits)

no_orphan_example :
    (q : ℕ) × ((exited.proc 1).parent ≡ some q)
    × (is_live (exited.proc q).state ≡ true)
    × ((c : ℕ) × (f : Frees) × (u : Table) × ((exited.proc c).parent ≡ some q)
        × (is_zombie (exited.proc c).state ≡ true)
        × (wait q 0 true exited ≡ returned (as_int (exited.proc c).pid) f u))
no_orphan_example = no_orphan 1 true exited_reached (omega arith) child_dead

child_used : is_unused (child_runs.proc 1).state ≡ false
unfolding userinit allocproc found find_unused allocpid freeproc schedule fork fork_from
child_used = refl

few : few_pids child_runs_reached ≡ true
unfolding userinit allocproc found find_unused allocpid freeproc schedule fork fork_from
    child_runs_reached
few = refl

unique_pids_example :
    ((child_runs.proc 1).pid ≡ (child_runs.proc 0).pid → ◌≡◌ {A = ℕ} 1 0)
    × (is_live (child_runs.proc child_runs.initproc).state ≡ true)
unique_pids_example = unique_pids 1 0 child_runs_reached few (omega arith) (omega arith) child_used

wait_lem_example : Waits 0 0 true exited (wait 0 0 true exited)
wait_lem_example = wait_lem 0 0 true exited

not_init : 1 ≢ forked.initproc
unfolding userinit allocproc found find_unused allocpid freeproc schedule fork fork_from
not_init = λ e. absurd (omega arith)

abbrev After : Table → Type 0
After t =
    (u : Table) × (exit 1 (pos 5) t ≡ some u)
    × (((u.proc 1).state ≡ zombie)
        × ((u.proc 1).xstate ≡ pos 5)
        × ((u.proc 1).pid ≡ (t.proc 1).pid)
        × ((u.proc 1).parent
            ≡ (if points (t.proc 1).parent 1 then some t.initproc else (t.proc 1).parent)))
    × ((q : ℕ) → q < nproc → q ≢ 1 → Left 1 t.initproc (t.proc q) (u.proc q))
    × ((p : ℕ)
        → p < nproc
        → p ≢ 1
        → (t.proc 1).parent ≡ some p
        → (t.proc p).chan ≡ suc p
        → is_sleeping (t.proc p).state ≡ true
        → (u.proc p).state ≡ runnable)
    × (u.nextpid ≡ t.nextpid)
    × (u.initproc ≡ t.initproc)

exit_lem_example :
    (1 ≡ forked.initproc → exit 1 (pos 5) forked ≡ none) × (1 ≢ forked.initproc → After forked)
exit_lem_example = exit_lem 1 (pos 5) forked (omega arith)
