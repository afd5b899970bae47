-- ===== src/Log.antt =====
-- kernel/log.c: the redo log of the file system, over the buffers of kernel/bio.c. A block is its
-- 32-bit words, by index. The disk keeps what `bwrite` has put there; `power` is the number of
-- block writes that still reach it, so that a run with any `power` is a run up to a crash. Writing
-- one block is atomic.
pub mod Replay
pub mod Steps
pub mod Install
pub mod Recover
pub mod Append
pub mod Commit
pub mod Absorb
pub mod Reserve
pub mod Shortage
mod Tests
use ntu_sc2005_xv.Prelude.{
  ℕ, zero, suc, ◌+◌, ◌-◌, ◌*◌, ◌<◌, Bool, true, false, ◌||◌, Option, none, some, ltb, leb, ◌==◌,
  if◌then◌else◌,
}
use ntu_sc2005_xv.Prelude.Maps.{update}

abbrev pub maxopblocks : ℕ
maxopblocks = 10

abbrev pub logsize : ℕ
logsize = maxopblocks * 3

abbrev pub Block : Type 0
Block = ℕ → ℕ

-- `struct log` with its `struct logheader`. `block` has LOGSIZE places in C: the model is that of the
-- code as long as `n` is at most LOGSIZE.
pub record Log : Type 0 where
  pub start : ℕ
  pub size : ℕ
  pub outstanding : ℕ
  pub committing : Bool
  pub n : ℕ
  pub block : ℕ → ℕ

-- The disk, the buffer cache (the data of the blocks that are in it, and the pins that `bpin` put
-- on them) and the log.
pub record Fs : Type 0 where
  pub disk : ℕ → Block
  pub power : ℕ
  pub cache : ℕ → Option Block
  pub pins : ℕ → ℕ
  pub log : Log

abbrev pub cached_or : Option Block → Block → Block
cached_or none d = d
cached_or (some c) d = c

-- The data that `bread` returns.
abbrev pub peek : Fs → ℕ → Block
peek s b = cached_or (s.cache b) (s.disk b)

pub bread : ℕ → Fs → Block × Fs
bread b s = (peek s b, record s { cache = update s.cache b (some (peek s b)) })

-- `bwrite` of the buffer of block `b`, in which the caller has put `x`.
pub bwrite : ℕ → Block → Fs → Fs
bwrite b x s = record s {
  cache = update s.cache b (some x);
  disk = if s.power == 0 then s.disk else update s.disk b x;
  power = s.power - 1;
}

pub bpin : ℕ → Fs → Fs
bpin b s = record s { pins = update s.pins b (s.pins b + 1) }

pub bunpin : ℕ → Fs → Fs
bunpin b s = record s { pins = update s.pins b (s.pins b - 1) }

-- The loop of `install_trans` from `tail` on, with `rest` rounds to go.
pub install_loop : Bool → ℕ → ℕ → Fs → Fs
install_loop recovering zero tail s = s
install_loop recovering (suc rest) tail s =
    let (lbuf, s₁) = bread (s.log.start + tail + 1) s in
    let dst = s.log.block tail in
    let (_, s₂) = bread dst s₁ in
    let s₃ = bwrite dst lbuf s₂ in
    install_loop recovering rest (tail + 1) (if recovering then s₃ else bunpin dst s₃)

pub install_trans : Bool → Fs → Fs
install_trans recovering s = install_loop recovering s.log.n 0 s

-- `for (i = 0; i < log.lh.n; i++) log.lh.block[i] = lh->block[i];`
pub load_blocks : ℕ → ℕ → Block → (ℕ → ℕ) → ℕ → ℕ
load_blocks zero i lh block = block
load_blocks (suc rest) i lh block = load_blocks rest (i + 1) lh (update block i (lh (i + 1)))

pub read_head : Fs → Fs
read_head s =
    let (lh, s₁) = bread s.log.start s in
    record s₁ { log = record s₁.log { n = lh 0; block = load_blocks (lh 0) 0 lh s₁.log.block } }

-- `for (i = 0; i < log.lh.n; i++) hb->block[i] = log.lh.block[i];`
pub store_blocks : ℕ → ℕ → (ℕ → ℕ) → Block → Block
store_blocks zero i block hb = hb
store_blocks (suc rest) i block hb = store_blocks rest (i + 1) block (update hb (i + 1) (block i))

pub write_head : Fs → Fs
write_head s =
    let (hb, s₁) = bread s.log.start s in
    bwrite s.log.start (store_blocks s.log.n 0 s.log.block (update hb 0 s.log.n)) s₁

abbrev pub clear_n : Fs → Fs
clear_n s = record s { log = record s.log { n = 0 } }

pub recover_from_log : Fs → Fs
recover_from_log s = write_head (clear_n (install_trans true (read_head s)))

-- `initlog` after a boot: the cache is empty, and `struct log` is zero.
pub initlog : ℕ → ℕ → ℕ → (ℕ → Block) → Fs
initlog start size power disk = recover_from_log (record {
  disk = disk;
  power = power;
  cache = λ _. none;
  pins = λ _. 0;
  log = record {
    start = start;
    size = size;
    outstanding = 0;
    committing = false;
    n = 0;
    block = λ _. 0;
  };
})

-- The loop of `write_log` from `tail` on, with `rest` rounds to go.
pub write_loop : ℕ → ℕ → Fs → Fs
write_loop zero tail s = s
write_loop (suc rest) tail s =
    let (_, s₁) = bread (s.log.start + tail + 1) s in
    let (from, s₂) = bread (s.log.block tail) s₁ in
    write_loop rest (tail + 1) (bwrite (s.log.start + tail + 1) from s₂)

pub write_log : Fs → Fs
write_log s = write_loop s.log.n 0 s

pub commit : Fs → Fs
commit s =
    if ltb 0 s.log.n
    then write_head (clear_n (install_trans false (write_head (write_log s))))
    else s

-- One pass of the loop of `begin_op`; `none` means that it sleeps.
pub begin_op : Log → Option Log
begin_op l =
    if l.committing
    then none
    else if ltb logsize (l.n + (l.outstanding + 1) * maxopblocks)
    then none
    else some (record l { outstanding = l.outstanding + 1 })

-- `end_op` up to its first `release`, with `do_commit`; `none` is a panic. `outstanding` is an
-- `int`, and a call has a `begin_op` before it.
pub end_op_start : Log → Option (Bool × Log)
end_op_start l =
    if l.committing
    then none
    else if l.outstanding - 1 == 0
    then some (true, record l { outstanding = l.outstanding - 1; committing = true })
    else some (false, record l { outstanding = l.outstanding - 1 })

-- `end_op` from `commit` on, when its first part has set `do_commit`. The lock is not held during
-- `commit`, but `committing` is set.
pub end_op_commit : Fs → Fs
end_op_commit s = let s₁ = commit s in record s₁ { log = record s₁.log { committing = false } }

-- The loop of `log_write`: the index where it stops.
pub find_block : ℕ → ℕ → (ℕ → ℕ) → ℕ → ℕ
find_block zero i block b = i
find_block (suc rest) i block b =
    let further = find_block rest (i + 1) block b in if block i == b then i else further

-- `log_write` of the buffer of block `b`; `none` is a panic.
pub log_write : ℕ → Fs → Option Fs
log_write b s =
    let l = s.log in
    if leb logsize l.n || leb (l.size - 1) l.n
    then none
    else if ltb l.outstanding 1
    then none
    else (let i = find_block l.n 0 l.block b in
        let s₁ = record s { log = record l { block = update l.block i b } } in
        if i == l.n
        then (let s₂ = bpin b s₁ in some (record s₂ { log = record s₂.log { n = s₂.log.n + 1 } }))
        else some s₁)
