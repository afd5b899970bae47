-- ===== src/Spinlock/Tests.antt =====
-- Two CPUs at one lock of kernel/spinlock.c.
use ntu_sc2005_xv.Prelude.{ℕ, ◌≡◌, ◌≢◌, refl, true, false, List, [], ◌∷◌, arith}
use ntu_sc2005_xv.Spinlock.{
  Cpu, push_off, initlock, critical, panicked, start, acq_free, swap_free, take, Machine, pick,
  boot, Reach, here, next,
}
use ntu_sc2005_xv.Spinlock.Nesting.{Call, push, pop, Pending}
use ntu_sc2005_xv.Spinlock.Exclusion.{owner, mutual_exclusion, no_panic, lock_not_lost}

abbrev fresh_cpu : Cpu
fresh_cpu = record { intr = true; noff = 0; intena = false }

-- CPU 0 has acquired the lock, with interrupts on before.
acquired : (s : Machine) × Reach true s × (s.pc 0 ≡ critical)
unfolding boot initlock push_off
acquired = (
  _,
  next (next (next (next here (pick 0 start)) (pick 0 (acq_free refl))) (pick 0 (swap_free refl)))
      (pick 0 take),
  refl,
)

mutual_exclusion_example : ◌≡◌ {A = ℕ} 0 0
mutual_exclusion_example = mutual_exclusion acquired.1 0 0 acquired.2 acquired.2

no_panic_example :
    (acquired.0.pc 0 ≢ panicked) × (acquired.0.pc 0 ≡ critical → (acquired.0.cpus 0).intr ≡ false)
no_panic_example = no_panic acquired.1 0

lock_not_lost_example :
    (acquired.0.lock.locked ≡ true → (i : ℕ) × (owner (acquired.0.pc i) ≡ true))
    × ((i : ℕ) → owner (acquired.0.pc i) ≡ true → acquired.0.lock.locked ≡ true)
lock_not_lost_example = lock_not_lost acquired.1

abbrev nested : List Call
nested = push ∷ push ∷ pop ∷ push ∷ pop ∷ pop ∷ []

fresh-Pending : Pending true 0 fresh_cpu
fresh-Pending = record { count = refl; now = refl; saved = λ h. absurd (omega arith) }
