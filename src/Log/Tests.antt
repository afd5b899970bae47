-- ===== src/Log/Tests.antt =====
-- Runs of kernel/log.c on a small disk, with and without a crash.
use ntu_sc2005_xv.Prelude.{
  ℕ, ◌+◌, ◌<◌, ◌≡◌, ◌≢◌, ◌⊎◌, inl, inr, ◌-◌, refl, true, false, some, none, [], ◌∷◌, arith, ◌==◌,
  ◌||◌, if◌then◌else◌,
}
use ntu_sc2005_xv.Prelude.Maps.{update}
use ntu_sc2005_xv.Log.{
  Block, Fs, Log, logsize, peek, bread, bwrite, bpin, bunpin, install_loop, install_trans,
  load_blocks, store_blocks, read_head, write_head, recover_from_log, initlog, write_loop,
  write_log, commit, begin_op, end_op_start, log_write, find_block,
}
use ntu_sc2005_xv.Log.Recover.{Holds, Settled, boots, recover_lem}
use ntu_sc2005_xv.Log.Commit.{Ready, commit_lem, crash_safe}
use ntu_sc2005_xv.Log.Absorb.{modify, Pinned, log_write_lem, log_write-Ready}
use ntu_sc2005_xv.Log.Reserve.{System, here, Reach, IsReserved, reserve_safe}
use ntu_sc2005_xv.Log.Shortage.{reserve_short}

-- Every word of block `b` is `b`, but the header of the log, in block 2, is clear.
abbrev old_disk : ℕ → Block
old_disk b w = if b == 2 then 0 else b

abbrev open_log : ℕ → Log
open_log size = record {
  start = 2;
  size = size;
  outstanding = 1;
  committing = false;
  n = 0;
  block = λ _. 0;
}

abbrev idle_fs : ℕ → Fs
idle_fs power = record {
  disk = old_disk;
  power = power;
  cache = λ _. none;
  pins = λ _. 0;
  log = open_log 31;
}

-- Blocks 50 and 51 are in the transaction, with new contents.
abbrev busy_fs : ℕ → Fs
busy_fs power = record {
  disk = old_disk;
  power = power;
  cache = λ b. if b == 50 then some (λ _. 7) else if b == 51 then some (λ _. 8) else none;
  pins = λ b. if b == 50 || b == 51 then 1 else 0;
  log = record {
    start = 2;
    size = 31;
    outstanding = 0;
    committing = true;
    n = 2;
    block = λ i. 50 + i;
  };
}

crash_before_header : (initlog 2 31 9 (commit (busy_fs 2)).disk).disk 50 0 ≡ 50
unfolding initlog recover_from_log read_head write_head install_trans install_loop write_log
    write_loop commit bread bwrite bunpin load_blocks store_blocks
crash_before_header = refl

crash_after_header : (initlog 2 31 9 (commit (busy_fs 3)).disk).disk 51 0 ≡ 8
unfolding initlog recover_from_log read_head write_head install_trans install_loop write_log
    write_loop commit bread bwrite bunpin load_blocks store_blocks
crash_after_header = refl

busy-Ready : (power : ℕ) → Ready (busy_fs power)
busy-Ready power = record {
  fits = record { room = omega arith; homes = λ i lt. inr (omega arith) };
  empty = refl;
  clean = λ c home none_of. grind (arith, none_of 0, none_of 1);
}

commit_lem_example :
    (Holds 2 31 old_disk (commit (busy_fs 6)).disk
      ⊎ Holds 2 31 (peek (busy_fs 6)) (commit (busy_fs 6)).disk)
    × (5 < 6 → Settled 2 31 (peek (busy_fs 6)) (commit (busy_fs 6)).disk)
commit_lem_example = commit_lem (busy_fs 6) (busy-Ready 6)

-- The power fails after the header is written, and again in the first recovery.
crash_safe_example :
    let d = (initlog 2 31 31 (boots 2 31 (1 ∷ []) (commit (busy_fs 3)).disk)).disk in
    Settled 2 31 old_disk d ⊎ Settled 2 31 (peek (busy_fs 3)) d
crash_safe_example = crash_safe (busy_fs 3) (1 ∷ []) 31 (busy-Ready 3) (omega arith)

-- A log of one entry, block 50, which is in block 3 of the disk.
abbrev logged_disk : ℕ → Block
logged_disk b w = if b == 2 then (if w == 0 then 1 else 50) else b

abbrev recovered : ℕ → Block
recovered b = if b == 50 then logged_disk 3 else logged_disk b

logged_disk-Holds : Holds 2 31 recovered logged_disk
logged_disk-Holds = record {
  ok = record { room = omega arith; homes = λ i lt. inr (grind arith) };
  keeps = λ c home. ground arith;
}

recover_lem_example :
    let s = initlog 2 31 3 logged_disk in
    Holds 2 31 recovered s.disk × (1 < 3 → Settled 2 31 recovered s.disk)
recover_lem_example = recover_lem 2 31 3 logged_disk recovered logged_disk-Holds

-- The idle state once block 50, with the contents `λ _. 7`, is in the transaction.
abbrev one_block : Fs
one_block =
    let s = modify 50 (λ _. 7) (idle_fs 9) in
    record s {
      pins = update s.pins 50 1;
      log = record (open_log 31) { n = 1; block = update (λ _. 0) 0 50 };
    }

runs : log_write 50 (modify 50 (λ _. 7) (idle_fs 9)) ≡ some one_block
unfolding log_write find_block bpin
runs = refl

log_write_lem_example :
    (0 < logsize)
    × (0 < 30)
    × (0 < 1)
    × ((one_block.log.start ≡ (idle_fs 9).log.start)
        × (one_block.log.size ≡ (idle_fs 9).log.size)
        × (one_block.log.outstanding ≡ (idle_fs 9).log.outstanding)
        × (one_block.log.committing ≡ (idle_fs 9).log.committing))
    × ((i : ℕ) → i < 0 → one_block.log.block i ≡ (idle_fs 9).log.block i)
    × ((i : ℕ) × (i < 1) × (one_block.log.block i ≡ 50))
    × ((((i : ℕ) × (i < 0) × ((idle_fs 9).log.block i ≡ 50))
          × (one_block.log.n ≡ 0)
          × ((c : ℕ) → one_block.pins c ≡ (idle_fs 9).pins c))
        ⊎ (((i : ℕ) → i < 0 → (idle_fs 9).log.block i ≢ 50)
            × (one_block.log.n ≡ 0 + 1)
            × ((c : ℕ)
                → one_block.pins c
                  ≡ (if 50 == c then (idle_fs 9).pins c + 1 else (idle_fs 9).pins c))))
    × ((c : ℕ) → peek one_block c ≡ (if 50 == c then (λ _. 7) else old_disk c))
    × (one_block.disk ≡ old_disk)
log_write_lem_example = log_write_lem 50 (λ _. 7) (idle_fs 9) one_block runs

idle-Ready : Ready (idle_fs 9)
idle-Ready = record {
  fits = record { room = omega arith; homes = λ i lt. absurd (omega arith) };
  empty = refl;
  clean = λ c home none_of. refl;
}

idle-Pinned : Pinned (idle_fs 9)
idle-Pinned = record {
  distinct = λ i j li lj e. absurd (omega arith);
  entries = λ i lt. absurd (omega arith);
  others = λ c none_of. refl;
}

log_write-Ready_example : Ready one_block
log_write-Ready_example =
    log_write-Ready 50 (λ _. 7) (idle_fs 9) one_block runs idle-Ready (inr (omega arith))

-- One operation is outstanding, with two calls of `log_write` left.
abbrev two_left : System
two_left = record { fs = idle_fs 9; left = 2 ∷ [] }

two_left-IsReserved : IsReserved two_left
two_left-IsReserved = record {
  ops = refl;
  idle = inl refl;
  fits = omega arith;
  quotas = (omega arith, tt);
}

reserve_safe_example :
    (two_left.left ≡ 2 ∷ [] → log_write 50 (idle_fs 9) ≢ none)
    × (two_left.left ≡ 1 ∷ [] → end_op_start (idle_fs 9).log ≢ none)
reserve_safe_example = reserve_safe [] [] 1 50 two_left-IsReserved (omega arith) here

-- A log of LOGSIZE blocks, and no operation.
abbrev short_log : System
short_log = record {
  fs = record (idle_fs 9) { log = record (open_log 30) { outstanding = 0 } };
  left = [];
}

abbrev from_40 : ℕ → ℕ
from_40 i = 40 + i

from_40_distinct : (i j : ℕ) → from_40 i ≡ from_40 j → i ≡ j
from_40_distinct i j e = omega (arith, e)

reserve_short_example :
    (t : System) × Reach short_log t
    × (t.left ≡ 0 ∷ 0 ∷ 1 ∷ [])
    × (t.fs.log.n ≡ logsize - 1)
    × ((i : ℕ) → i < logsize - 1 → t.fs.log.block i ≡ from_40 i)
    × ((b : ℕ) → log_write b t.fs ≡ none)
reserve_short_example = reserve_short from_40 from_40_distinct short_log refl refl refl refl refl

-- The last operation leaves, and no other enters before the commit is over.
leaves :
    end_op_start (idle_fs 9).log
    ≡ some (true, record (idle_fs 9).log { outstanding = 0; committing = true })
unfolding end_op_start
leaves = refl

waits_for_commit : begin_op (record (idle_fs 9).log { outstanding = 0; committing = true }) ≡ none
unfolding begin_op
waits_for_commit = refl
