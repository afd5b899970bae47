-- ===== src/Spinlock/Exclusion.antt =====
-- The spin lock of kernel/spinlock.c excludes.
use ntu_sc2005_xv.Prelude.{ℕ, ◌<◌, ◌≡◌, ◌≢◌, refl, Bool, true, false, some, arith}
use ntu_sc2005_xv.Prelude.Maps.{update}
use ntu_sc2005_xv.Spinlock.{
  Cpu, push_off, pop_off, Spinlock, initlock, Pc, idle, own, critical, rel_locked, rel_cpu,
  rel_clear, rel_unlock, panicked, Move, toggle, start, acq_self, swap_free, take, rel_free,
  rel_other, clear, unlock, pop_fails, pop, Machine, Step, pick, boot, Reach, here, next,
}

-- Between the swap that wins and the store that unlocks.
abbrev pub owner : Pc → Bool
owner own = true
owner critical = true
owner rel_locked = true
owner rel_cpu = true
owner rel_clear = true
owner rel_unlock = true
owner _ = false

-- Where `lk->cpu` names this CPU.
abbrev pub named : Pc → Bool
named critical = true
named rel_locked = true
named rel_cpu = true
named rel_clear = true
named _ = false

-- Between `push_off` and `pop_off`.
abbrev pub busy : Pc → Bool
busy idle = false
busy _ = true

pub record Inv (s : Machine) : Type 0 where
  pub owned : (i : ℕ) → owner (s.pc i) ≡ true → s.lock.locked ≡ true
  pub unique : (i j : ℕ) → owner (s.pc i) ≡ true → owner (s.pc j) ≡ true → i ≡ j
  pub names : (i : ℕ) → named (s.pc i) ≡ true → s.lock.cpu ≡ some i
  pub only : (i : ℕ) → s.lock.cpu ≡ some i → named (s.pc i) ≡ true
  pub held : s.lock.locked ≡ true → (i : ℕ) × (owner (s.pc i) ≡ true)
  pub off : (i : ℕ) → 0 < (s.cpus i).noff → (s.cpus i).intr ≡ false
  pub nested : (i : ℕ) → busy (s.pc i) ≡ true → 0 < (s.cpus i).noff
  pub sane : (i : ℕ) → s.pc i ≢ panicked

Inv-boot : (b : Bool) → Inv (boot b)
unfolding boot initlock
Inv-boot b = record {
  owned = λ i h. cc;
  unique = λ i j h k. cc;
  names = λ i h. cc;
  only = λ i h. cc;
  held = λ h. cc;
  off = λ i h. absurd (omega arith);
  nested = λ i h. cc;
  sane = λ i h. cc;
}

module _ {s : Machine} (inv : Inv s) (i : ℕ) where
  open inv use {owned, unique, names, only, held, off, nested, sane}

  Move-owned :
      {lk : Spinlock} {c : Cpu} {p q : Pc}
      → Move i s.lock (s.cpus i) p lk c q
      → s.pc i ≡ p
      → (j : ℕ) → owner (update s.pc i q j) ≡ true
      → lk.locked ≡ true
  Move-owned start e j h = ground (arith, owned j, unique i j)
  Move-owned _ e j h = ground (arith, owned j, unique i j)

  Move-unique :
      {lk : Spinlock} {c : Cpu} {p q : Pc}
      → Move i s.lock (s.cpus i) p lk c q
      → s.pc i ≡ p
      → (j k : ℕ) → owner (update s.pc i q j) ≡ true
      → owner (update s.pc i q k) ≡ true
      → j ≡ k
  Move-unique start e j k h h' = ground (arith, unique j k)
  Move-unique (swap_free f) e j k h h' = ground (arith, owned j, owned k)
  Move-unique _ e j k h h' = ground (arith, unique j k)

  Move-names :
      {lk : Spinlock} {c : Cpu} {p q : Pc}
      → Move i s.lock (s.cpus i) p lk c q
      → s.pc i ≡ p
      → (j : ℕ) → named (update s.pc i q j) ≡ true
      → lk.cpu ≡ some j
  Move-names start e j h = ground (arith, names j)
  Move-names take e j h = ground (arith, names j, unique i j)
  Move-names clear e j h = ground (arith, names j, unique i j)
  Move-names _ e j h = ground (arith, names j, names i)

  Move-only :
      {lk : Spinlock} {c : Cpu} {p q : Pc}
      → Move i s.lock (s.cpus i) p lk c q
      → s.pc i ≡ p
      → (j : ℕ) → lk.cpu ≡ some j
      → named (update s.pc i q j) ≡ true
  Move-only start e j h = ground (arith, only j)
  Move-only (rel_free f) e j h = ground (arith, only j, owned i)
  Move-only (rel_other f) e j h = ground (arith, only j)
  Move-only (acq_self f) e j h = ground (arith, only j)
  Move-only _ e j h = ground (arith, only j)

  Move-held :
      {lk : Spinlock} {c : Cpu} {p q : Pc}
      → Move i s.lock (s.cpus i) p lk c q
      → s.pc i ≡ p
      → lk.locked ≡ true
      → (j : ℕ) × (owner (update s.pc i q j) ≡ true)
  Move-held (swap_free f) e h = (i, ground arith)
  Move-held unlock e h = cc
  Move-held start e h = let (j, o) = held h in (j, ground arith)
  Move-held (rel_free f) e h = cc
  Move-held (rel_other f) e h = absurd (ground (arith, names i))
  Move-held (acq_self f) e h = let (j, o) = held h in (j, ground (arith, only i))
  Move-held _ e h = let (j, o) = held h in (j, ground arith)

  Move-off :
      {lk : Spinlock} {c : Cpu} {p q : Pc}
      → Move i s.lock (s.cpus i) p lk c q
      → s.pc i ≡ p
      → (j : ℕ) → 0 < (update s.cpus i c j).noff
      → (update s.cpus i c j).intr ≡ false
  unfolding push_off pop_off
  Move-off (toggle b z) e j h = ground (arith, off j)
  Move-off start e j h = ground (arith, off j)
  Move-off (pop f) e j h = ground (arith, off j, off i)
  Move-off _ e j h = ground (arith, off j, off i)

  Move-nested :
      {lk : Spinlock} {c : Cpu} {p q : Pc}
      → Move i s.lock (s.cpus i) p lk c q
      → s.pc i ≡ p
      → (j : ℕ) → busy (update s.pc i q j) ≡ true
      → 0 < (update s.cpus i c j).noff
  unfolding push_off
  Move-nested start e j h = ground (arith, nested j)
  Move-nested _ e j h = ground (arith, nested j, nested i)

  Move-sane :
      {lk : Spinlock} {c : Cpu} {p q : Pc}
      → Move i s.lock (s.cpus i) p lk c q
      → s.pc i ≡ p
      → (j : ℕ) → update s.pc i q j ≢ panicked
  unfolding pop_off
  Move-sane start e j h = ground (arith, sane j)
  Move-sane (acq_self f) e j h = ground (arith, only i)
  Move-sane (rel_free f) e j h = ground (arith, owned i)
  Move-sane (rel_other f) e j h = ground (arith, names i)
  Move-sane (pop_fails f) e j h = ground (arith, off i, nested i)
  Move-sane _ e j h = ground (arith, sane j)

  Move-Inv :
      {lk : Spinlock} {c : Cpu} {q : Pc}
      → Move i s.lock (s.cpus i) (s.pc i) lk c q
      → Inv (record { lock = lk; cpus = update s.cpus i c; pc = update s.pc i q })
  Move-Inv mv = record {
    owned = Move-owned mv refl;
    unique = Move-unique mv refl;
    names = Move-names mv refl;
    only = Move-only mv refl;
    held = Move-held mv refl;
    off = Move-off mv refl;
    nested = Move-nested mv refl;
    sane = Move-sane mv refl;
  }

Step-Inv : {s t : Machine} → Step s t → Inv s → Inv t
Step-Inv (pick i mv) inv = Move-Inv inv i mv

pub Reach-Inv : {b : Bool} {s : Machine} → Reach b s → Inv s
Reach-Inv {b} here = Inv-boot b
Reach-Inv (next r st) = Step-Inv st (Reach-Inv r)

-- However the CPUs interleave, two are never between `acquire` and `release` of one lock.
pub mutual_exclusion :
    {b : Bool} {s : Machine} → Reach b s → (i j : ℕ) → s.pc i ≡ critical → s.pc j ≡ critical → i ≡ j
mutual_exclusion r i j hi hj = (Reach-Inv r).unique i j (ground arith) (ground arith)

-- In every reachable state no check of `acquire`, `release` or `pop_off` has panicked, although
-- `holding` reads `lk->locked` and `lk->cpu` without the lock; and a CPU in the critical section
-- has its interrupts off.
pub no_panic :
    {b : Bool} {s : Machine}
    → Reach b s
    → (i : ℕ) → (s.pc i ≢ panicked) × (s.pc i ≡ critical → (s.cpus i).intr ≡ false)
no_panic r i = (sane i, λ e. off i (nested i (ground arith)))
  where
    open (Reach-Inv r) use {sane, off, nested}

-- The lock is not lost: where a swap would fail, some CPU is on its way to unlock, and where none
-- is, the swap wins.
pub lock_not_lost :
    {b : Bool} {s : Machine}
    → Reach b s
    → (s.lock.locked ≡ true → (i : ℕ) × (owner (s.pc i) ≡ true))
      × ((i : ℕ) → owner (s.pc i) ≡ true → s.lock.locked ≡ true)
lock_not_lost r = ((Reach-Inv r).held, (Reach-Inv r).owned)
