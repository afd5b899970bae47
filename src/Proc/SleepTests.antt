-- ===== src/Proc/SleepTests.antt =====
-- A run of `sleep` and `wakeup` of kernel/proc.c, with process 1 asleep and process 0 waking it.
use ntu_sc2005_xv.Prelude.{ℕ, zero, suc, ◌+◌, ◌<◌, ◌≡◌, ◌≢◌, refl, true, false, none, arith}
use ntu_sc2005_xv.Proc.{nproc}
use ntu_sc2005_xv.Proc.Sleep.{
  idle, committed, parking, switching, waking, Sleepers, go, enter, block, lock_self, unlock, park,
  switched, enter_waker, set_cond, skip, touch, wake, leave, Reach, here, next,
}
use ntu_sc2005_xv.Proc.Wakeups.{no_lost_wakeup}

asleep_one :
    (s : Sleepers) × Reach s
    × (s.holder ≡ none)
    × (s.pc 0 ≡ idle)
    × ((k : ℕ) → s.plock k ≡ none)
    × (s.asleep 1 ≡ true)
asleep_one = (
  _,
  next 1
      (next 1
        (next 1
          (next 1 (next 1 (next 1 (here false) (enter refl refl)) (block refl refl))
            (lock_self refl refl))
          (unlock refl))
        (park refl))
      (switched refl),
  refl,
  refl,
  λ k. ground arith,
  refl,
)

-- The loop of the waker from process `k` on.
wakes_rest :
    (n k : ℕ) {s : Sleepers}
    → k + n ≡ nproc
    → 0 < k
    → Reach s
    → s.pc 0 ≡ waking k
    → s.cond ≡ true
    → ((j : ℕ) → s.plock j ≡ none)
    → (t : Sleepers) × Reach t × (t.pc 0 ≡ waking nproc) × (t.cond ≡ true)
wakes_rest zero k {s} e lo r at on free = (s, r, ground (arith, at, e), on)
wakes_rest (suc n) k {s} e lo r at on free =
    wakes_rest n (suc k) (omega arith) (omega arith)
      (next 0 (next 0 r (touch k at (omega arith) (omega arith) (free k))) (wake k refl)) refl on
      (λ j. ground (arith, free j))

woken_all : (t : Sleepers) × Reach t × (t.pc 0 ≡ waking nproc) × (t.cond ≡ true)
woken_all =
    let (s, r, free, at, locks, _) = asleep_one in
    let r₁ = next 0 (next 0 (next 0 r (enter_waker at free)) (set_cond refl)) (skip refl) in
    wakes_rest 63 1 refl (omega arith) r₁ refl refl (λ j. locks j)

no_lost_wakeup_example :
    let t = go 0 idle woken_all.0 in
    (t.asleep 1 ≡ false) × (t.pc 1 ≢ parking) × (t.pc 1 ≢ switching)
no_lost_wakeup_example =
    no_lost_wakeup 1 (next 0 woken_all.1 (leave nproc woken_all.2 (omega arith))) refl woken_all.3
      (omega arith)

about_to_sleep : (s : Sleepers) × Reach s × (s.pc 1 ≡ committed)
about_to_sleep = (
  _,
  next 1 (next 1 (next 1 (here false) (enter refl refl)) (block refl refl)) (lock_self refl refl),
  refl,
)
