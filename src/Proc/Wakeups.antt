-- ===== src/Proc/Wakeups.antt =====
-- No wakeup of kernel/proc.c is lost.
use ntu_sc2005_xv.Prelude.{ℕ, ◌<◌, ◌≡◌, ◌≢◌, inl, inr, ap, true, false, none, arith, Bool-cases}
use ntu_sc2005_xv.Proc.{nproc}
use ntu_sc2005_xv.Proc.Sleep.{
  committed, parking, switching, Sleepers, Step, enter, pass, block, lock_self, unlock, park,
  switched, dispatch, tidy, relock, spurious, enter_waker, set_cond, skip, touch, wake, leave,
  Reach, here, next,
}
use ntu_sc2005_xv.Proc.Waiting.{
  inside, dry, at_risk, Inv, enter-Inv, enter_waker-Inv, relock-Inv, pass-Inv, block-Inv,
  lock_self-Inv, unlock-Inv, park-Inv, switched-Inv, dispatch-Inv, tidy-Inv, spurious-Inv,
}
use ntu_sc2005_xv.Proc.Waking.{set_cond-Inv, skip-Inv, touch-Inv, wake-Inv, leave-Inv}

Step-Inv : {s : Sleepers} (i : ℕ) {t : Sleepers} → Step s i t → Inv s → Inv t
Step-Inv i (enter at free) v = enter-Inv i at free v
Step-Inv i (enter_waker at free) v = enter_waker-Inv i at free v
Step-Inv i (relock at free) v = relock-Inv i at free v
Step-Inv i (pass b at on) v = pass-Inv i b at on v
Step-Inv i (block at off) v = block-Inv i at off v
Step-Inv i (lock_self at free) v = lock_self-Inv i at free v
Step-Inv i (unlock at) v = unlock-Inv i at v
Step-Inv i (park at) v = park-Inv i at v
Step-Inv i (switched at) v = switched-Inv i at v
Step-Inv i (dispatch at up free) v = dispatch-Inv i at up free v
Step-Inv i (tidy at) v = tidy-Inv i at v
Step-Inv i (spurious free) v = spurious-Inv i free v
Step-Inv i (set_cond at) v = set_cond-Inv i at v
Step-Inv i (skip at) v = skip-Inv i at v
Step-Inv i (touch k at ne _ free) v = touch-Inv i k at ne free v
Step-Inv i (wake k at) v = wake-Inv i k at v
Step-Inv i (leave k at far) v = leave-Inv i k at far v

Reach-Inv : {s : Sleepers} → Reach s → Inv s
Reach-Inv (here b) = record {
  locked = λ i h. absurd (ground arith);
  owned = λ i h. absurd (ground arith);
  touched = λ i k h. absurd (ground arith);
  not_self = λ i h. ground arith;
  tested = λ i h. absurd (ground arith);
  resting = λ i h. absurd (ground arith);
  covered = λ j on lt r. absurd (ground arith);
}
Reach-Inv (next i r st) = Step-Inv i st (Reach-Inv r)

-- No wakeup is lost: whenever the condition holds and nobody has `lk`, no process sleeps on the
-- channel, nor is one between the release of `lk` in `sleep` and its sleep, however the processes
-- interleave.
pub no_lost_wakeup :
    {s : Sleepers} (j : ℕ)
    → Reach s
    → s.holder ≡ none
    → s.cond ≡ true
    → j < nproc
    → (s.asleep j ≡ false) × (s.pc j ≢ parking) × (s.pc j ≢ switching)
no_lost_wakeup {s} j r free on lt =
    (awake, λ e. risky (ground (arith, e)), λ e. risky (ground (arith, e)))
  where
    v : Inv s
    v = Reach-Inv r

    risky : at_risk (s.pc j) (s.asleep j) ≢ true
    risky h = let (i, held, _) = v.covered j on lt h in ground (arith, held, free)

    awake : s.asleep j ≡ false
    awake = elim (Bool-cases (s.asleep j)) [
      | inr e ↦ e
      | inl e ↦ absurd (risky (ground (arith, e, v.resting j e)))
    ]

-- In every reachable state the condition that `sleep` was called for is still false when the
-- process has taken its own lock and is to release `lk`; and two processes never hold `lk`.
pub sleep_tested :
    {s : Sleepers} (i j : ℕ)
    → Reach s
    → (s.pc i ≡ committed → s.cond ≡ false)
      × (inside (s.pc i) ≡ true → inside (s.pc j) ≡ true → i ≡ j)
sleep_tested i j r =
    let v = Reach-Inv r in
    (λ e. v.tested i (ap dry e), λ e f. ground (arith, v.locked i e, v.locked j f))
