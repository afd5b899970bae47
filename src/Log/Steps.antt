-- ===== src/Log/Steps.antt =====
-- The steps of kernel/log.c: what one buffer operation or one round of a loop changes.
use ntu_sc2005_xv.Prelude.{ℕ, suc, ◌+◌, ◌-◌, ◌<◌, ◌≡◌, ◌≢◌, refl, Bool, ◌==◌, if◌then◌else◌, arith}
use ntu_sc2005_xv.Prelude.Maps.{update}
use ntu_sc2005_xv.Log.{
  Block, Fs, peek, bread, bwrite, bunpin, install_loop, write_loop, read_head, write_head,
  store_blocks,
}
use ntu_sc2005_xv.Log.Replay.{load_blocks_lem, store_blocks_lem}

-- What one `bread` or `bwrite` does to what a later `bread` returns, and to the disk.
pub peek-bread : (b c : ℕ) (s : Fs) → peek (bread b s).1 c ≡ peek s c
unfolding bread
peek-bread b c s = ground arith

pub peek-bwrite : (b : ℕ) (x : Block) (s : Fs) (c : ℕ) → b ≢ c → peek (bwrite b x s) c ≡ peek s c
unfolding bwrite
peek-bwrite b x s c h = ground arith

pub peek-bwrite_self : (b : ℕ) (x : Block) (s : Fs) → peek (bwrite b x s) b ≡ x
unfolding bwrite
peek-bwrite_self b x s = ground arith

pub disk-bwrite :
    (b : ℕ) (x : Block) (s : Fs) (c : ℕ)
    → (bwrite b x s).disk c ≡ (if s.power == 0 then s.disk c else update s.disk b x c)
unfolding bwrite
disk-bwrite b x s c = ground arith

-- One round of `install_trans`.
pub install_step : Bool → ℕ → Fs → Fs
unfolding bread bwrite bunpin
install_step recovering tail s =
    let (lbuf, s₁) = bread (s.log.start + tail + 1) s in
    let dst = s.log.block tail in
    let (_, s₂) = bread dst s₁ in
    let s₃ = bwrite dst lbuf s₂ in if recovering then s₃ else bunpin dst s₃

pub install_loop-suc :
    (r : Bool) (rest tail : ℕ) (s : Fs)
    → install_loop r (suc rest) tail s ≡ install_loop r rest (tail + 1) (install_step r tail s)
unfolding install_loop install_step
install_loop-suc r rest tail s = refl

module _ (r : Bool) (tail : ℕ) (s : Fs) where
  pub log-install_step : (install_step r tail s).log ≡ s.log
  unfolding install_step
  log-install_step = ground arith

  pub power-install_step : (install_step r tail s).power ≡ s.power - 1
  unfolding install_step
  power-install_step = ground arith

  pub disk-install_step :
      (c : ℕ)
      → (install_step r tail s).disk c ≡ (
          if s.power == 0
          then s.disk c
          else update s.disk (s.log.block tail) (peek s (s.log.start + tail + 1)) c)
  unfolding install_step
  disk-install_step c = ground arith

  pub peek-install_step : (c : ℕ) → s.log.block tail ≢ c → peek (install_step r tail s) c ≡ peek s c
  unfolding install_step
  peek-install_step c h = ground arith

-- The header block that `write_head` writes.
pub header : Fs → Block
header s = store_blocks s.log.n 0 s.log.block (update (peek s s.log.start) 0 s.log.n)

module _ (s : Fs) where
  pub header_n : header s 0 ≡ s.log.n
  unfolding header
  header_n =
      ground
        (arith, store_blocks_lem s.log.n 0 s.log.block (update (peek s s.log.start) 0 s.log.n) 0)

  pub header_block : (i : ℕ) → i < s.log.n → header s (i + 1) ≡ s.log.block i
  unfolding header
  header_block i h = ground (
    arith,
    store_blocks_lem s.log.n 0 s.log.block (update (peek s s.log.start) 0 s.log.n) (i + 1),
  )

  pub disk-write_head :
      (c : ℕ)
      → (write_head s).disk c
        ≡ (if s.power == 0 then s.disk c else update s.disk s.log.start (header s) c)
  unfolding write_head header bread bwrite
  disk-write_head c = ground arith

  pub log-write_head : (write_head s).log ≡ s.log
  unfolding write_head bread bwrite
  log-write_head = refl

  pub power-write_head : (write_head s).power ≡ s.power - 1
  unfolding write_head bread bwrite
  power-write_head = refl

  pub peek-write_head : (c : ℕ) → s.log.start ≢ c → peek (write_head s) c ≡ peek s c
  unfolding write_head bread bwrite
  peek-write_head c h = ground arith

  pub disk-read_head : (read_head s).disk ≡ s.disk
  unfolding read_head bread
  disk-read_head = refl

  pub power-read_head : (read_head s).power ≡ s.power
  unfolding read_head bread
  power-read_head = refl

  pub peek-read_head : (c : ℕ) → peek (read_head s) c ≡ peek s c
  unfolding read_head bread
  peek-read_head c = ground arith

  pub start-read_head : (read_head s).log.start ≡ s.log.start
  unfolding read_head bread
  start-read_head = refl

  pub size-read_head : (read_head s).log.size ≡ s.log.size
  unfolding read_head bread
  size-read_head = refl

  pub n-read_head : (read_head s).log.n ≡ peek s s.log.start 0
  unfolding read_head bread
  n-read_head = refl

  pub block-read_head :
      (i : ℕ) → i < peek s s.log.start 0 → (read_head s).log.block i ≡ peek s s.log.start (i + 1)
  unfolding read_head bread
  block-read_head i h =
      ground (arith, load_blocks_lem (peek s s.log.start 0) 0 (peek s s.log.start) s.log.block i)

-- One round of `write_log`.
pub write_step : ℕ → Fs → Fs
unfolding bread bwrite
write_step tail s =
    let (_, s₁) = bread (s.log.start + tail + 1) s in
    let (from, s₂) = bread (s.log.block tail) s₁ in bwrite (s.log.start + tail + 1) from s₂

pub write_loop-suc :
    (rest tail : ℕ) (s : Fs)
    → write_loop (suc rest) tail s ≡ write_loop rest (tail + 1) (write_step tail s)
unfolding write_loop write_step
write_loop-suc rest tail s = refl

module _ (tail : ℕ) (s : Fs) where
  pub log-write_step : (write_step tail s).log ≡ s.log
  unfolding write_step
  log-write_step = refl

  pub power-write_step : (write_step tail s).power ≡ s.power - 1
  unfolding write_step
  power-write_step = refl

  pub disk-write_step :
      (c : ℕ)
      → (write_step tail s).disk c ≡ (
          if s.power == 0
          then s.disk c
          else update s.disk (s.log.start + tail + 1) (peek s (s.log.block tail)) c)
  unfolding write_step
  disk-write_step c = ground arith

  pub peek-write_step :
      (c : ℕ)
      → peek (write_step tail s) c
        ≡ (if s.log.start + tail + 1 == c then peek s (s.log.block tail) else peek s c)
  unfolding write_step
  peek-write_step c = ground arith
