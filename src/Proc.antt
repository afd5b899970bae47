-- ===== src/Proc.antt =====
-- kernel/proc.c: the process table. A piece of code that holds `wait_lock` or the lock of a process
-- is one step; `fork`, `exit` and a pass of `wait` are one step each. A pointer to a process is its
-- index in `proc`. A pid is the 32 bits of an `int`. Open files, the working directory and the saved
-- registers are left out.
pub mod Loops
pub mod Reparent
pub mod Wait
pub mod Exit
pub mod Family
pub mod Birth
pub mod Death
pub mod Lineage
pub mod Sleep
pub mod Waiting
pub mod Waking
pub mod Wakeups
mod SleepTests
mod Tests
use ntu_sc2005_xv.Prelude.{
  ℕ, zero, suc, ◌+◌, Bool, true, false, not, ◌&&◌, ◌||◌, Option, none, some, ◌==◌, if◌then◌else◌,
  List, [],
}
use ntu_sc2005_xv.Prelude.Maps.{update}
use ntu_sc2005_xv.Prelude.Int.{ℤ, pos, minus_one, u32, as_int}

abbrev pub nproc : ℕ
nproc = 64

-- `enum procstate`
pub data State : Type 0 where
  unused used sleeping runnable running zombie : State

abbrev pub is_unused : State → Bool
is_unused unused = true
is_unused _ = false

abbrev pub is_sleeping : State → Bool
is_sleeping sleeping = true
is_sleeping _ = false

abbrev pub is_runnable : State → Bool
is_runnable runnable = true
is_runnable _ = false

abbrev pub is_zombie : State → Bool
is_zombie zombie = true
is_zombie _ = false

-- `struct proc`; `trapframe` and `pagetable` are addresses, and 0 is null, as for `chan`.
pub record Proc : Type 0 where
  pub state : State
  pub chan : ℕ
  pub killed : Bool
  pub xstate : ℤ
  pub pid : ℕ
  pub parent : Option ℕ
  pub sz : ℕ
  pub pagetable : ℕ
  pub trapframe : ℕ

pub record Table : Type 0 where
  pub proc : ℕ → Proc
  pub nextpid : ℕ
  pub initproc : ℕ

abbrev pub set_proc : ℕ → Proc → Table → Table
set_proc p x t = record t { proc = update t.proc p x }

-- Whether a pointer is to process `p`.
abbrev pub points : Option ℕ → ℕ → Bool
points none p = false
points (some q) p = q == p

-- The channel that a pointer to a process is: a number that is not 0.
abbrev pub chan_of : Option ℕ → ℕ
chan_of none = 0
chan_of (some p) = suc p

-- `nextpid` wraps on the machine; C leaves open what follows 2^31 - 1.
pub allocpid : Table → ℕ × Table
allocpid t = (t.nextpid, record t { nextpid = u32 (t.nextpid + 1) })

-- What `freeproc` passes to `kfree` and `proc_freepagetable`.
pub record Frees : Type 0 where
  pub frame : Option ℕ
  pub table : Option (ℕ × ℕ)

abbrev pub no_frees : Frees
no_frees = record { frame = none; table = none }

pub freeproc : Proc → Proc × Frees
freeproc p = (
  record p {
    trapframe = 0;
    pagetable = 0;
    sz = 0;
    pid = 0;
    parent = none;
    chan = 0;
    killed = false;
    xstate = pos 0;
    state = unused;
  },
  record {
    frame = if p.trapframe == 0 then none else some p.trapframe;
    table = if p.pagetable == 0 then none else some (p.pagetable, p.sz);
  },
)

-- The loop of `allocproc` at process `p`, with `rest` to go.
pub find_unused : ℕ → ℕ → Table → Option ℕ
find_unused zero p t = none
find_unused (suc rest) p t =
    let further = find_unused rest (p + 1) t in
    if is_unused (t.proc p).state then some p else further

-- `allocproc` from its label `found` on. `frame` and `pagetable` are what kalloc and
-- proc_pagetable return, 0 if they fail.
pub found : ℕ → ℕ → ℕ → Table → Option ℕ × Frees × Table
found p frame pagetable t =
    let (pid, t₁) = allocpid t in
    let x = record (t₁.proc p) { pid = pid; state = used; trapframe = frame } in
    if frame == 0
    then (none, (freeproc x).1, set_proc p (freeproc x).0 t₁)
    else (let y = record x { pagetable = pagetable } in
        if pagetable == 0
        then (none, (freeproc y).1, set_proc p (freeproc y).0 t₁)
        else (some p, no_frees, set_proc p y t₁))

pub allocproc : ℕ → ℕ → Table → Option ℕ × Frees × Table
allocproc frame pagetable t = elim (find_unused nproc 0 t) [
  | none ↦ (none, no_frees, t)
  | some p ↦ found p frame pagetable t
]

-- `fork` by process `me` after its `allocproc`; `copied` tells whether `uvmcopy` succeeds.
pub fork_from : ℕ → Bool → Option ℕ × Frees × Table → ℤ × Frees × Table
fork_from me copied (none, frees, t) = (minus_one, frees, t)
fork_from me copied (some np, _, t) =
    let x = t.proc np in
    if not copied
    then (minus_one, (freeproc x).1, set_proc np (freeproc x).0 t)
    else (let y = record x { sz = (t.proc me).sz; parent = some me; state = runnable } in
        (as_int x.pid, no_frees, set_proc np y t))

pub fork : ℕ → ℕ → ℕ → Bool → Table → ℤ × Frees × Table
fork me frame pagetable copied t = fork_from me copied (allocproc frame pagetable t)

-- `userinit`, on a table of zeros; `none` where it would follow the null pointer of `allocproc`.
pub userinit : ℕ → ℕ → Option Table
userinit frame pagetable =
    let clear : Proc = record {
      state = unused;
      chan = 0;
      killed = false;
      xstate = pos 0;
      pid = 0;
      parent = none;
      sz = 0;
      pagetable = 0;
      trapframe = 0;
    } in
    let zeros : Table = record { proc = λ _. clear; nextpid = 1; initproc = 0 } in
    let (p, _, t) = allocproc frame pagetable zeros in
    elim p [
      | none ↦ none
      | some p ↦ some (record (set_proc p (record (t.proc p) { sz = 4096; state = runnable }) t) {
        initproc = p;
      })
    ]

-- The body of the loop of `wakeup` for a process other than the caller's.
abbrev pub wake : ℕ → Proc → Proc
wake chan p = if is_sleeping p.state && p.chan == chan then record p { state = runnable } else p

pub wake_loop : ℕ → ℕ → Option ℕ → ℕ → Table → Table
wake_loop zero p me chan t = t
wake_loop (suc rest) p me chan t =
    wake_loop rest (p + 1) me chan (if points me p then t else set_proc p (wake chan (t.proc p)) t)

pub wakeup : Option ℕ → ℕ → Table → Table
wakeup me chan t = wake_loop nproc 0 me chan t

-- The loop of `reparent` of process `me`.
pub reparent_loop : ℕ → ℕ → ℕ → Table → Table
reparent_loop zero pp me t = t
reparent_loop (suc rest) pp me t = reparent_loop rest (pp + 1) me (
    if points (t.proc pp).parent me
    then wakeup (some me) (chan_of (some t.initproc))
        (set_proc pp (record (t.proc pp) { parent = some t.initproc }) t)
    else t)

pub reparent : ℕ → Table → Table
reparent me t = reparent_loop nproc 0 me t

-- `exit` from `acquire(&wait_lock)` on, and the panic of init, `none`.
pub exit : ℕ → ℤ → Table → Option Table
exit me status t =
    if me == t.initproc
    then none
    else (let t₁ = reparent me t in
        let t₂ = wakeup (some me) (chan_of (t₁.proc me).parent) t₁ in
        some (set_proc me (record (t₂.proc me) { xstate = status; state = zombie }) t₂))

-- What the loop over the table in `wait` finds.
pub data Scan : Type 0 where
  child : ℕ → Scan  -- the first zombie among the children
  havekids : Bool → Scan

pub scan : ℕ → ℕ → ℕ → Bool → Table → Scan
scan zero pp me kids t = havekids kids
scan (suc rest) pp me kids t =
    let further = scan rest (pp + 1) me kids t in
    let further_kids = scan rest (pp + 1) me true t in
    if points (t.proc pp).parent me
    then if is_zombie (t.proc pp).state then child pp else further_kids
    else further

pub data WaitResult : Type 0 where
  returned : ℤ → Frees → Table → WaitResult
  sleeps : ℕ → WaitResult  -- on the channel, with `wait_lock`

-- One pass of the loop of `wait` by process `me`; `copied` tells whether `copyout` succeeds.
pub wait : ℕ → ℕ → Bool → Table → WaitResult
wait me addr copied t = elim (scan nproc 0 me false t) [
  | child pp ↦
      if not (addr == 0) && not copied
      then returned minus_one no_frees t
      else returned (as_int (t.proc pp).pid) (freeproc (t.proc pp)).1
          (set_proc pp (freeproc (t.proc pp)).0 t)
  | havekids kids ↦
      if not kids || (t.proc me).killed
      then returned minus_one no_frees t
      else sleeps (chan_of (some me))
]

-- `scheduler` when it looks at process `p`.
pub schedule : ℕ → Table → Table
schedule p t =
    if is_runnable (t.proc p).state then set_proc p (record (t.proc p) { state = running }) t else t

pub yield : ℕ → Table → Table
yield me t = set_proc me (record (t.proc me) { state = runnable }) t

-- `sleep` up to `sched`, and from there on.
pub sleep : ℕ → ℕ → Table → Table
sleep me chan t = set_proc me (record (t.proc me) { chan = chan; state = sleeping }) t

pub awake : ℕ → Table → Table
awake me t = set_proc me (record (t.proc me) { chan = 0 }) t

-- The loop of `kill`.
pub kill_loop : ℕ → ℕ → ℕ → Table → ℤ × Table
kill_loop zero p pid t = (minus_one, t)
kill_loop (suc rest) p pid t =
    let further = kill_loop rest (p + 1) pid t in
    if (t.proc p).pid == pid
    then (
      pos 0,
      set_proc p
          (if is_sleeping (t.proc p).state
            then record (t.proc p) { killed = true; state = runnable }
            else record (t.proc p) { killed = true })
          t,
    )
    else further

pub kill : ℕ → Table → ℤ × Table
kill pid t = kill_loop nproc 0 pid t

pub setkilled : ℕ → Table → Table
setkilled p t = set_proc p (record (t.proc p) { killed = true }) t
