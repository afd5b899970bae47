-- ===== src/Spinlock.antt =====
-- kernel/spinlock.c: the spin lock, a step at a time on every CPU, and the nesting of push_off and
-- pop_off. A step is one access to shared memory or one change of the CPU's own state.
pub mod Nesting
pub mod Exclusion
mod Tests
use ntu_sc2005_xv.Prelude.{
  ℕ, ◌+◌, ◌-◌, ◌≡◌, ◌≢◌, Bool, true, false, ◌&&◌, Option, none, some, ltb, ◌==◌, if◌then◌else◌,
}
use ntu_sc2005_xv.Prelude.Maps.{update}

-- The fields of `struct cpu` that the lock uses, with the CPU's interrupt-enable bit (`intr_get`).
pub record Cpu : Type 0 where
  pub intr : Bool
  pub noff : ℕ
  pub intena : Bool

pub push_off : Cpu → Cpu
push_off c =
    if c.noff == 0
    then record c { intr = false; intena = c.intr; noff = c.noff + 1 }
    else record c { noff = c.noff + 1 }

-- `none` is a panic.
pub pop_off : Cpu → Option Cpu
pop_off c =
    if c.intr
    then none
    else if ltb c.noff 1
    then none
    else some (
        if c.noff - 1 == 0 && c.intena
        then record c { noff = c.noff - 1; intr = true }
        else record c { noff = c.noff - 1 })

-- `struct spinlock`; `cpu` is the index of the owner's `struct cpu`, and `none` the null pointer.
pub record Spinlock : Type 0 where
  pub locked : Bool
  pub cpu : Option ℕ

pub initlock : Spinlock
initlock = record { locked = false; cpu = none }

-- Where a CPU stands in `acquire` or `release`.
pub data Pc : Type 0 where
  idle : Pc  -- outside
  acq_locked : Pc  -- in `holding` of `acquire`, before it reads `lk->locked`
  acq_cpu : Pc  -- before it reads `lk->cpu`
  spin : Pc  -- before the atomic swap
  own : Pc  -- before `lk->cpu = mycpu()`
  critical : Pc  -- between `acquire` and `release`
  rel_locked : Pc  -- in `holding` of `release`, before it reads `lk->locked`
  rel_cpu : Pc  -- before it reads `lk->cpu`
  rel_clear : Pc  -- before `lk->cpu = 0`
  rel_unlock : Pc  -- before the store of 0 to `lk->locked`
  rel_pop : Pc  -- before `pop_off`
  panicked : Pc

-- One step of CPU `i`. From `idle` it may start `acquire` at any time, or switch its interrupts on
-- or off while no `push_off` is pending, as the scheduler and the trap handlers do.
pub data Move (i : ℕ) (lk : Spinlock) (c : Cpu) : Pc → Spinlock → Cpu → Pc → Type 0 where
  toggle : (b : Bool) → c.noff ≡ 0 → Move i lk c idle lk (record c { intr = b }) idle
  start : Move i lk c idle lk (push_off c) acq_locked
  acq_free : lk.locked ≡ false → Move i lk c acq_locked lk c spin
  acq_busy : lk.locked ≡ true → Move i lk c acq_locked lk c acq_cpu
  acq_self : lk.cpu ≡ some i → Move i lk c acq_cpu lk c panicked
  acq_other : lk.cpu ≢ some i → Move i lk c acq_cpu lk c spin
  swap_busy : lk.locked ≡ true → Move i lk c spin lk c spin
  swap_free : lk.locked ≡ false → Move i lk c spin (record lk { locked = true }) c own
  take : Move i lk c own (record lk { cpu = some i }) c critical
  leave : Move i lk c critical lk c rel_locked
  rel_free : lk.locked ≡ false → Move i lk c rel_locked lk c panicked
  rel_busy : lk.locked ≡ true → Move i lk c rel_locked lk c rel_cpu
  rel_other : lk.cpu ≢ some i → Move i lk c rel_cpu lk c panicked
  rel_self : lk.cpu ≡ some i → Move i lk c rel_cpu lk c rel_clear
  clear : Move i lk c rel_clear (record lk { cpu = none }) c rel_unlock
  unlock : Move i lk c rel_unlock (record lk { locked = false }) c rel_pop
  pop_fails : pop_off c ≡ none → Move i lk c rel_pop lk c panicked
  pop : {d : Cpu} → pop_off c ≡ some d → Move i lk c rel_pop lk d idle

-- One lock and every CPU.
pub record Machine : Type 0 where
  pub lock : Spinlock
  pub cpus : ℕ → Cpu
  pub pc : ℕ → Pc

pub data Step (s : Machine) : Machine → Type 0 where
  pick :
      (i : ℕ) {lk : Spinlock} {c : Cpu} {p : Pc}
      → Move i s.lock (s.cpus i) (s.pc i) lk c p
      → Step s (record { lock = lk; cpus = update s.cpus i c; pc = update s.pc i p })

-- A fresh lock; no CPU is in it, and none has a `push_off` pending.
pub boot : Bool → Machine
boot b = record {
  lock = initlock;
  cpus = λ _. record { intr = b; noff = 0; intena = false };
  pc = λ _. idle;
}

pub data Reach (b : Bool) : Machine → Type 0 where
  here : Reach b (boot b)
  next : {s t : Machine} → Reach b s → Step s t → Reach b t
