-- ===== src/Sleeplock.antt =====
-- kernel/sleeplock.c. The inner spin lock is held through each pass of a loop and each function, so
-- these are single steps; `none` means that the caller goes to sleep in `acquiresleep`.
use ntu_sc2005_xv.Prelude.{ℕ, ◌==◌, Bool, true, false, ◌&&◌, Option, none, some, if◌then◌else◌}

-- `struct sleeplock` without its inner lock and name.
pub record Sleeplock : Type 0 where
  pub locked : Bool
  pub pid : ℕ

unfoldable pub initsleeplock : Sleeplock
initsleeplock = record { locked = false; pid = 0 }

-- One pass of the loop of `acquiresleep`, by process `me`.
unfoldable pub acquiresleep : ℕ → Sleeplock → Option Sleeplock
acquiresleep me lk = if lk.locked then none else some (record lk { locked = true; pid = me })

unfoldable pub releasesleep : Sleeplock → Sleeplock
releasesleep lk = record lk { locked = false; pid = 0 }

unfoldable pub holdingsleep : ℕ → Sleeplock → Bool
holdingsleep me lk = lk.locked && lk.pid == me
