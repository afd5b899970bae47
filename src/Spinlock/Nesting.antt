-- ===== src/Spinlock/Nesting.antt =====
-- push_off and pop_off of kernel/spinlock.c nest.
use ntu_sc2005_xv.Prelude.{
  ℕ, zero, suc, ◌-◌, ◌<◌, ◌≡◌, refl, Bool, false, Option, none, some, List, [], ◌∷◌, arith, leb,
  if◌then◌else◌,
}
use ntu_sc2005_xv.Spinlock.{Cpu, push_off, pop_off}

pub data Call : Type 0 where
  push : Call
  pop : Call

call : Call → Cpu → Option Cpu
call push c = some (push_off c)
call pop c = pop_off c

pub run : List Call → Cpu → Option Cpu
unfolding call
run [] c = some c
run (push ∷ cs) c = run cs (push_off c)
run (pop ∷ cs) c = elim (pop_off c) [ none ↦ none | some d ↦ run cs d ]

-- The calls that are pending at the end; `none` where a pop has no push before it.
abbrev pub depth : List Call → ℕ → Option ℕ
depth [] k = some k
depth (push ∷ cs) k = depth cs (suc k)
depth (pop ∷ cs) zero = none
depth (pop ∷ cs) (suc k) = depth cs k

-- `k` calls of push_off are pending, and the first found the interrupt bit at `b`.
pub record Pending (b : Bool) (k : ℕ) (c : Cpu) : Type 0 where
  pub count : c.noff ≡ k
  pub now : c.intr ≡ (if leb 1 k then false else b)
  pub saved : 0 < k → c.intena ≡ b

push_off-Pending : {b : Bool} {c : Cpu} (k : ℕ) → Pending b k c → Pending b (suc k) (push_off c)
unfolding push_off
push_off-Pending k h = ground (arith, h.saved)

pop_off-Pending :
    {b : Bool} {c : Cpu} (k : ℕ)
    → Pending b (suc k) c
    → (d : Cpu) × (pop_off c ≡ some d) × Pending b k d
unfolding pop_off
pop_off-Pending {b} {c} zero h =
    (record c { noff = c.noff - 1; intr = b }, ground (arith, h.saved), ground (arith, h.saved))
pop_off-Pending {c} (suc k) h =
    (record c { noff = c.noff - 1 }, ground (arith, h.saved), ground (arith, h.saved))

-- Calls that nest never panic; while one is pending interrupts are off, and when none is the
-- interrupt bit is what it was before the first.
pub run-Pending :
    (b : Bool) (cs : List Call) (j k : ℕ) (c : Cpu)
    → Pending b j c
    → depth cs j ≡ some k
    → (d : Cpu) × (run cs c ≡ some d) × Pending b k d
unfolding run
run-Pending b [] j k c h e = let same : j ≡ k = cc in (c, refl, rw (← same) h)
run-Pending b (push ∷ cs) j k c h e =
    run-Pending b cs (suc j) k (push_off c) (push_off-Pending j h) e
run-Pending b (pop ∷ cs) zero k c h e = cc
run-Pending b (pop ∷ cs) (suc j) k c h e =
    let (d, p, h') = pop_off-Pending j h in rw (run, p) (run-Pending b cs j k d h' e)
