-- ===== src/Proc/Sleep.antt =====
-- `sleep` and `wakeup` of kernel/proc.c a lock at a time, on one channel with its condition lock
-- `lk`, as pipe.c, log.c and sleeplock.c use them: `acquire(lk); while(!cond) sleep(chan, lk); …
-- release(lk)` on one side, and `acquire(lk); cond = 1; wakeup(chan); release(lk)` on the other.
use ntu_sc2005_xv.Prelude.{ℕ, suc, ◌≤◌, ◌<◌, ◌≡◌, ◌≢◌, Bool, true, false, Option, none, some}
use ntu_sc2005_xv.Prelude.Maps.{update}
use ntu_sc2005_xv.Proc.{nproc}

-- Where a process stands.
pub data Pc : Type 0 where
  idle : Pc
  testing : Pc  -- holds `lk`, before the test of the condition
  entering : Pc  -- in `sleep`, before `acquire(&p->lock)`
  committed : Pc  -- holds both locks, before `release(lk)`
  parking : Pc  -- holds `p->lock`, before `p->state = SLEEPING`
  switching : Pc  -- in `sched`; the scheduler releases `p->lock`
  parked : Pc  -- off the CPU
  tidying : Pc  -- scheduled again, with `p->lock`
  relocking : Pc  -- before the `acquire(lk)` at the end of `sleep`
  setting : Pc  -- the other side: holds `lk`, before it sets the condition
  waking : ℕ → Pc  -- in the loop of `wakeup`, before process `k`
  touching : ℕ → Pc  -- with the lock of process `k`

pub record Sleepers : Type 0 where
  pub holder : Option ℕ  -- of `lk`
  pub cond : Bool
  pub plock : ℕ → Option ℕ  -- the holder of each `p->lock`
  pub asleep : ℕ → Bool  -- `p->state == SLEEPING && p->chan == chan`
  pub pc : ℕ → Pc

abbrev pub go : ℕ → Pc → Sleepers → Sleepers
go i p s = record s { pc = update s.pc i p }

-- A step of process `i`; `spurious` is `kill`, which may wake a sleeper at any time.
pub data Step (s : Sleepers) (i : ℕ) : Sleepers → Type 0 where
  enter : s.pc i ≡ idle → s.holder ≡ none → Step s i (record (go i testing s) { holder = some i })
  pass :
      (b : Bool)
      → s.pc i ≡ testing
      → s.cond ≡ true
      → Step s i (record (go i idle s) { holder = none; cond = b })
  block : s.pc i ≡ testing → s.cond ≡ false → Step s i (go i entering s)
  lock_self :
      s.pc i ≡ entering
      → s.plock i ≡ none
      → Step s i (record (go i committed s) { plock = update s.plock i (some i) })
  unlock : s.pc i ≡ committed → Step s i (record (go i parking s) { holder = none })
  park : s.pc i ≡ parking → Step s i (record (go i switching s) { asleep = update s.asleep i true })
  switched :
      s.pc i ≡ switching → Step s i (record (go i parked s) { plock = update s.plock i none })
  dispatch :
      s.pc i ≡ parked
      → s.asleep i ≡ false
      → s.plock i ≡ none
      → Step s i (record (go i tidying s) { plock = update s.plock i (some i) })
  tidy : s.pc i ≡ tidying → Step s i (record (go i relocking s) { plock = update s.plock i none })
  relock :
      s.pc i ≡ relocking → s.holder ≡ none → Step s i (record (go i testing s) { holder = some i })
  spurious : s.plock i ≡ none → Step s i (record s { asleep = update s.asleep i false })
  enter_waker :
      s.pc i ≡ idle → s.holder ≡ none → Step s i (record (go i setting s) { holder = some i })
  set_cond : s.pc i ≡ setting → Step s i (record (go i (waking 0) s) { cond = true })
  skip : s.pc i ≡ waking i → Step s i (go i (waking (suc i)) s)
  touch :
      (k : ℕ)
      → s.pc i ≡ waking k
      → k ≢ i
      → k < nproc
      → s.plock k ≡ none
      → Step s i (record (go i (touching k) s) { plock = update s.plock k (some i) })
  wake :
      (k : ℕ)
      → s.pc i ≡ touching k
      → Step s i (record (go i (waking (suc k)) s) {
        asleep = update s.asleep k false;
        plock = update s.plock k none;
      })
  leave :
      (k : ℕ) → s.pc i ≡ waking k → nproc ≤ k → Step s i (record (go i idle s) { holder = none })

pub data Reach : Sleepers → Type 0 where
  here :
      (b : Bool)
      → Reach (record {
        holder = none;
        cond = b;
        plock = λ _. none;
        asleep = λ _. false;
        pc = λ _. idle;
      })
  next : {s t : Sleepers} (i : ℕ) → Reach s → Step s i t → Reach t
