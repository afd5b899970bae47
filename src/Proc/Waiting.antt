-- ===== src/Proc/Waiting.antt =====
-- What the steps of `sleep` in kernel/proc.c keep.
use ntu_sc2005_xv.Prelude.{ℕ, ◌<◌, ◌≡◌, ◌≢◌, Bool, true, false, none, some, leb, arith}
use ntu_sc2005_xv.Prelude.Maps.{update}
use ntu_sc2005_xv.Proc.{nproc}
use ntu_sc2005_xv.Proc.Sleep.{
  Pc, idle, testing, entering, committed, parking, switching, parked, tidying, relocking, setting,
  waking, touching, Sleepers, go,
}

-- Who holds `lk`.
abbrev pub inside : Pc → Bool
inside testing = true
inside entering = true
inside committed = true
inside setting = true
inside (waking k) = true
inside (touching k) = true
inside _ = false

-- Who holds its own `p->lock`.
abbrev pub own : Pc → Bool
own committed = true
own parking = true
own switching = true
own tidying = true
own _ = false

-- In `sleep`, with the condition found false under `lk`.
abbrev pub dry : Pc → Bool
dry entering = true
dry committed = true
dry _ = false

-- Asleep, or on the way to it without `lk`.
abbrev pub at_risk : Pc → Bool → Bool
at_risk parking a = true
at_risk switching a = true
at_risk parked a = a
at_risk _ a = false

-- Whether a waker has process `j` still before it.
abbrev pub ahead : Pc → ℕ → Bool
ahead (waking k) j = leb k j
ahead (touching k) j = leb k j
ahead _ j = false

abbrev pub sleeps_at : Pc → Bool
sleeps_at switching = true
sleeps_at parked = true
sleeps_at _ = false

pub record Inv (s : Sleepers) : Type 0 where
  pub locked : (i : ℕ) → inside (s.pc i) ≡ true → s.holder ≡ some i
  pub owned : (i : ℕ) → own (s.pc i) ≡ true → s.plock i ≡ some i
  pub touched : (i k : ℕ) → s.pc i ≡ touching k → s.plock k ≡ some i
  pub not_self : (i : ℕ) → s.pc i ≢ touching i
  pub tested : (i : ℕ) → dry (s.pc i) ≡ true → s.cond ≡ false
  pub resting : (i : ℕ) → s.asleep i ≡ true → sleeps_at (s.pc i) ≡ true
  pub covered :
      (j : ℕ)
      → s.cond ≡ true
      → j < nproc
      → at_risk (s.pc j) (s.asleep j) ≡ true
      → (i : ℕ) × (s.holder ≡ some i) × (ahead (s.pc i) j ≡ true)

pub enter-Inv :
    {s : Sleepers} (i : ℕ)
    → s.pc i ≡ idle
    → s.holder ≡ none
    → Inv s
    → Inv (record (go i testing s) { holder = some i })
enter-Inv {s} i at free v = record {
  locked = λ j h. ground (arith, v.locked j);
  owned = λ j h. ground (arith, v.owned j);
  touched = λ j k' h. ground (arith, v.touched j k');
  not_self = λ j h. ground (arith, v.not_self j);
  tested = λ j h. ground (arith, v.tested j);
  resting = λ j h. ground (arith, v.resting j);
  covered = λ j on' lt r. ground (arith, v.covered j);
}

pub enter_waker-Inv :
    {s : Sleepers} (i : ℕ)
    → s.pc i ≡ idle
    → s.holder ≡ none
    → Inv s
    → Inv (record (go i setting s) { holder = some i })
enter_waker-Inv {s} i at free v = record {
  locked = λ j h. ground (arith, v.locked j);
  owned = λ j h. ground (arith, v.owned j);
  touched = λ j k' h. ground (arith, v.touched j k');
  not_self = λ j h. ground (arith, v.not_self j);
  tested = λ j h. ground (arith, v.tested j);
  resting = λ j h. ground (arith, v.resting j);
  covered = λ j on' lt r. ground (arith, v.covered j);
}

pub relock-Inv :
    {s : Sleepers} (i : ℕ)
    → s.pc i ≡ relocking
    → s.holder ≡ none
    → Inv s
    → Inv (record (go i testing s) { holder = some i })
relock-Inv {s} i at free v = record {
  locked = λ j h. ground (arith, v.locked j);
  owned = λ j h. ground (arith, v.owned j);
  touched = λ j k' h. ground (arith, v.touched j k');
  not_self = λ j h. ground (arith, v.not_self j);
  tested = λ j h. ground (arith, v.tested j);
  resting = λ j h. ground (arith, v.resting j);
  covered = λ j on' lt r. ground (arith, v.covered j);
}

pub pass-Inv :
    {s : Sleepers} (i : ℕ) (b : Bool)
    → s.pc i ≡ testing
    → s.cond ≡ true
    → Inv s
    → Inv (record (go i idle s) { holder = none; cond = b })
pass-Inv {s} i b at on v = record {
  locked = λ j h. ground (arith, v.locked j, v.locked i);
  owned = λ j h. ground (arith, v.owned j, v.locked i);
  touched = λ j k' h. ground (arith, v.touched j k', v.locked i);
  not_self = λ j h. ground (arith, v.not_self j);
  tested = λ j h. ground (arith, v.tested j, v.locked i);
  resting = λ j h. ground (arith, v.resting j, v.locked i);
  covered = λ j on' lt r. ground (arith, v.covered j, v.locked i);
}

pub block-Inv :
    {s : Sleepers} (i : ℕ) → s.pc i ≡ testing → s.cond ≡ false → Inv s → Inv (go i entering s)
block-Inv {s} i at off v = record {
  locked = λ j h. ground (arith, v.locked j);
  owned = λ j h. ground (arith, v.owned j);
  touched = λ j k' h. ground (arith, v.touched j k');
  not_self = λ j h. ground (arith, v.not_self j);
  tested = λ j h. ground (arith, v.tested j);
  resting = λ j h. ground (arith, v.resting j);
  covered = λ j on' lt r. ground (arith, v.covered j);
}

pub lock_self-Inv :
    {s : Sleepers} (i : ℕ)
    → s.pc i ≡ entering
    → s.plock i ≡ none
    → Inv s
    → Inv (record (go i committed s) { plock = update s.plock i (some i) })
lock_self-Inv {s} i at free v = record {
  locked = λ j h. ground (arith, v.locked j, v.tested i);
  owned = λ j h. ground (arith, v.owned j, v.tested i);
  touched = λ j k' h. ground (arith, v.touched j k', v.tested i);
  not_self = λ j h. ground (arith, v.not_self j);
  tested = λ j h. ground (arith, v.tested j, v.tested i);
  resting = λ j h. ground (arith, v.resting j, v.tested i);
  covered = λ j on' lt r. ground (arith, v.covered j, v.tested i);
}

pub unlock-Inv :
    {s : Sleepers} (i : ℕ)
    → s.pc i ≡ committed
    → Inv s
    → Inv (record (go i parking s) { holder = none })
unlock-Inv {s} i at v = record {
  locked = λ j h. ground (arith, v.locked j, v.tested i, v.locked i);
  owned = λ j h. ground (arith, v.owned j, v.tested i, v.locked i);
  touched = λ j k' h. ground (arith, v.touched j k', v.tested i, v.locked i);
  not_self = λ j h. ground (arith, v.not_self j);
  tested = λ j h. ground (arith, v.tested j, v.tested i, v.locked i);
  resting = λ j h. ground (arith, v.resting j, v.tested i, v.locked i);
  covered = λ j on' lt r. ground (arith, v.covered j, v.tested i, v.locked i);
}

pub park-Inv :
    {s : Sleepers} (i : ℕ)
    → s.pc i ≡ parking
    → Inv s
    → Inv (record (go i switching s) { asleep = update s.asleep i true })
park-Inv {s} i at v = record {
  locked = λ j h. ground (arith, v.locked j);
  owned = λ j h. ground (arith, v.owned j);
  touched = λ j k' h. ground (arith, v.touched j k');
  not_self = λ j h. ground (arith, v.not_self j);
  tested = λ j h. ground (arith, v.tested j);
  resting = λ j h. ground (arith, v.resting j);
  covered = λ j on' lt r. ground (arith, v.covered j);
}

pub switched-Inv :
    {s : Sleepers} (i : ℕ)
    → s.pc i ≡ switching
    → Inv s
    → Inv (record (go i parked s) { plock = update s.plock i none })
switched-Inv {s} i at v = record {
  locked = λ j h. ground (arith, v.locked j, v.owned i);
  owned = λ j h. ground (arith, v.owned j, v.owned i);
  touched = λ j k' h. ground (arith, v.touched j k', v.owned i);
  not_self = λ j h. ground (arith, v.not_self j);
  tested = λ j h. ground (arith, v.tested j, v.owned i);
  resting = λ j h. ground (arith, v.resting j, v.owned i);
  covered = λ j on' lt r. ground (arith, v.covered j, v.owned i);
}

pub dispatch-Inv :
    {s : Sleepers} (i : ℕ)
    → s.pc i ≡ parked
    → s.asleep i ≡ false
    → s.plock i ≡ none
    → Inv s
    → Inv (record (go i tidying s) { plock = update s.plock i (some i) })
dispatch-Inv {s} i at up free v = record {
  locked = λ j h. ground (arith, v.locked j);
  owned = λ j h. ground (arith, v.owned j);
  touched = λ j k' h. ground (arith, v.touched j k');
  not_self = λ j h. ground (arith, v.not_self j);
  tested = λ j h. ground (arith, v.tested j);
  resting = λ j h. ground (arith, v.resting j);
  covered = λ j on' lt r. ground (arith, v.covered j);
}

pub tidy-Inv :
    {s : Sleepers} (i : ℕ)
    → s.pc i ≡ tidying
    → Inv s
    → Inv (record (go i relocking s) { plock = update s.plock i none })
tidy-Inv {s} i at v = record {
  locked = λ j h. ground (arith, v.locked j, v.owned i, v.resting i);
  owned = λ j h. ground (arith, v.owned j, v.owned i, v.resting i);
  touched = λ j k' h. ground (arith, v.touched j k', v.owned i, v.resting i);
  not_self = λ j h. ground (arith, v.not_self j);
  tested = λ j h. ground (arith, v.tested j, v.owned i, v.resting i);
  resting = λ j h. ground (arith, v.resting j, v.owned i, v.resting i);
  covered = λ j on' lt r. ground (arith, v.covered j, v.owned i, v.resting i);
}

pub spurious-Inv :
    {s : Sleepers} (i : ℕ)
    → s.plock i ≡ none
    → Inv s
    → Inv (record s { asleep = update s.asleep i false })
spurious-Inv {s} i free v = record {
  locked = λ j h. ground (arith, v.locked j, v.owned i);
  owned = λ j h. ground (arith, v.owned j, v.owned i);
  touched = λ j k' h. ground (arith, v.touched j k', v.owned i);
  not_self = λ j h. ground (arith, v.not_self j);
  tested = λ j h. ground (arith, v.tested j, v.owned i);
  resting = λ j h. ground (arith, v.resting j, v.owned i);
  covered = λ j on' lt r. ground (arith, v.covered j, v.owned i);
}
