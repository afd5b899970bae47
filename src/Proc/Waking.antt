-- ===== src/Proc/Waking.antt =====
-- What the steps of `wakeup` in kernel/proc.c keep.
use ntu_sc2005_xv.Prelude.{
  ℕ, suc, ◌≤◌, ◌<◌, ◌≡◌, ◌≢◌, inl, inr, ap, subst, true, false, none, some, arith, Bool-cases,
  ℕ_discrete,
}
use ntu_sc2005_xv.Prelude.Maps.{update}
use ntu_sc2005_xv.Proc.{nproc}
use ntu_sc2005_xv.Proc.Sleep.{Pc, idle, setting, waking, touching, Sleepers, go}
use ntu_sc2005_xv.Proc.Waiting.{inside, own, at_risk, ahead, Inv}

pub set_cond-Inv :
    {s : Sleepers} (i : ℕ)
    → s.pc i ≡ setting
    → Inv s
    → Inv (record (go i (waking 0) s) { cond = true })
set_cond-Inv {s} i at v = record {
  locked = λ j h. ground (arith, v.locked j, v.locked i);
  owned = λ j h. ground (arith, v.owned j, v.locked i);
  touched = λ j k' h. ground (arith, v.touched j k', v.locked i);
  not_self = λ j h. ground (arith, v.not_self j);
  tested = λ j h. ground (arith, v.locked j, v.locked i);
  resting = λ j h. ground (arith, v.resting j, v.locked i);
  covered = λ j on' lt r. ground (arith, v.covered j, v.locked i);
}

pub skip-Inv : {s : Sleepers} (i : ℕ) → s.pc i ≡ waking i → Inv s → Inv (go i (waking (suc i)) s)
skip-Inv {s} i at v = record {
  locked = λ j h. ground (arith, v.locked j, v.locked i, v.resting i);
  owned = λ j h. ground (arith, v.owned j, v.locked i, v.resting i);
  touched = λ j k' h. ground (arith, v.touched j k', v.locked i, v.resting i);
  not_self = λ j h. ground (arith, v.not_self j);
  tested = λ j h. ground (arith, v.tested j, v.locked i, v.resting i);
  resting = λ j h. ground (arith, v.resting j, v.locked i, v.resting i);
  covered = λ j on' lt r. ground (arith, v.covered j, v.locked i, v.resting i);
}

pub touch-Inv :
    {s : Sleepers} (i k : ℕ)
    → s.pc i ≡ waking k
    → k ≢ i
    → s.plock k ≡ none
    → Inv s
    → Inv (record (go i (touching k) s) { plock = update s.plock k (some i) })
touch-Inv {s} i k at ne free v = record {
  locked = λ j h. ground (arith, v.locked j, v.locked i);
  owned = λ j h. ground (arith, v.owned j, v.locked i);
  touched = λ j k' h. ground (arith, v.touched j k', v.locked i);
  not_self = λ j h. ground (arith, v.not_self j);
  tested = λ j h. ground (arith, v.tested j, v.locked i);
  resting = λ j h. ground (arith, v.resting j, v.locked i);
  covered = λ j on' lt r. ground (arith, v.covered j, v.locked i);
}

risk_owns : (p : Pc) → at_risk p false ≡ true → own p ≡ true
risk_owns p h = ground arith

-- The process that a waker has just woken is not about to sleep, since the waker had its lock.
woken_safe :
    {s : Sleepers} (i k : ℕ)
    → s.pc i ≡ touching k
    → Inv s
    → at_risk (update s.pc i (waking (suc k)) k) false ≡ false
woken_safe {s} i k at v = elim (Bool-cases (at_risk (update s.pc i (waking (suc k)) k) false)) [
  | inr safe ↦ safe
  | inl risk ↦ elim (ℕ_discrete i k) [
    | yes e ↦ ground (arith, e)
    | no ne ↦
        let mine = v.owned k (risk_owns (s.pc k) (ground (arith, risk))) in
        absurd (ground (arith, mine, v.touched i k at))
  ]
]

-- A process that is not woken yet stays ahead of the waker.
still_covered :
    {s : Sleepers} (i k j : ℕ)
    → s.pc i ≡ touching k
    → Inv s
    → s.cond ≡ true
    → j < nproc
    → k ≢ j
    → at_risk (update s.pc i (waking (suc k)) j) (s.asleep j) ≡ true
    → (x : ℕ) × (s.holder ≡ some x) × (ahead (update s.pc i (waking (suc k)) x) j ≡ true)
still_covered {s} i k j at v on lt ne r =
    let other : i ≢ j = λ e. ground (arith, r, e) in
    let holds = v.locked i (ap inside at) in
    let (x, held, before) = v.covered j on lt (ground (arith, r, other)) in
    let same : x ≡ i = ground (arith, holds, held) in
    let before' : ahead (s.pc i) j ≡ true = subst (λ y. ahead (s.pc y) j ≡ true) same before in
    (i, holds, ground (arith, before', at))

pub wake-Inv :
    {s : Sleepers} (i k : ℕ)
    → s.pc i ≡ touching k
    → Inv s
    → Inv (record (go i (waking (suc k)) s) {
      asleep = update s.asleep k false;
      plock = update s.plock k none;
    })
wake-Inv {s} i k at v = record {
  locked = λ j h. ground (arith, v.locked j, v.locked i, v.touched i k, v.not_self i);
  owned = λ j h. ground (arith, v.owned j, v.locked i, v.touched i k, v.not_self i);
  touched = λ j k' h. ground (arith, v.touched j k', v.locked i, v.touched i k, v.not_self i);
  not_self = λ j h. ground (arith, v.not_self j);
  tested = λ j h. ground (arith, v.tested j, v.locked i, v.touched i k, v.not_self i);
  resting = λ j h. ground (arith, v.resting j, v.locked i, v.touched i k, v.not_self i);
  covered = λ j on' lt r. elim (ℕ_discrete k j) [
    | yes e ↦ absurd (ground (arith, r, woken_safe i k at v, e))
    | no ne ↦ still_covered i k j at v on' lt ne (ground (arith, r))
  ];
}

pub leave-Inv :
    {s : Sleepers} (i k : ℕ)
    → s.pc i ≡ waking k
    → nproc ≤ k
    → Inv s
    → Inv (record (go i idle s) { holder = none })
leave-Inv {s} i k at far v = record {
  locked = λ j h. ground (arith, v.locked j, v.locked i);
  owned = λ j h. ground (arith, v.owned j, v.locked i);
  touched = λ j k' h. ground (arith, v.touched j k', v.locked i);
  not_self = λ j h. ground (arith, v.not_self j);
  tested = λ j h. ground (arith, v.tested j, v.locked i);
  resting = λ j h. ground (arith, v.resting j, v.locked i);
  covered = λ j on' lt r. ground (arith, v.covered j, v.locked i);
}
