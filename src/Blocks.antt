-- ===== src/Blocks.antt =====
-- The block allocator of kernel/fs.c. A disk is a function from block number and index to byte, as
-- the buffer cache and the log show it: `bread` reads it and `log_write` keeps what was changed.
-- Block numbers stay below 2^31, so that sums of them do not wrap.
pub mod Bits
pub mod Bitmap
pub mod Alloc
mod Tests
use ntu_sc2005_xv.Prelude.{
  ℕ, zero, suc, ◌+◌, ◌-◌, ◌*◌, ◌/◌, ◌%◌, Bool, true, false, not, Option, none, some, ltb, ◌==◌,
  if◌then◌else◌,
}
use ntu_sc2005_xv.Prelude.Maps.{update}

abbrev pub Disk : Type 0
Disk = ℕ → ℕ → ℕ

abbrev pub bsize : ℕ
bsize = 1024

-- Bitmap bits per block
abbrev pub bpb : ℕ
bpb = bsize * 8

-- The fields of `struct superblock` that the allocator reads.
pub record Superblock : Type 0 where
  pub size : ℕ
  pub bmapstart : ℕ

-- Block of free map containing bit for block b
abbrev pub bblock : ℕ → Superblock → ℕ
bblock b sb = b / bpb + sb.bmapstart

-- `(w & (1 << i)) != 0`, `w | (1 << i)` and `w & ~(1 << i)`
abbrev pub test_bit : ℕ → ℕ → Bool
test_bit zero w = w % 2 == 1
test_bit (suc i) w = test_bit i (w / 2)

abbrev pub set_bit : ℕ → ℕ → ℕ
set_bit zero w = w / 2 * 2 + 1
set_bit (suc i) w = set_bit i (w / 2) * 2 + w % 2

abbrev pub clear_bit : ℕ → ℕ → ℕ
clear_bit zero w = w / 2 * 2
clear_bit (suc i) w = clear_bit i (w / 2) * 2 + w % 2

pub bzero : ℕ → Disk → Disk
bzero bno disk = update disk bno (λ i. if ltb i bsize then 0 else disk bno i)

-- The inner loop of `balloc` over the bits of one bitmap block, `n` of them from `bi` on.
pub scan_block : ℕ → ℕ → ℕ → ℕ → (ℕ → ℕ) → Option ℕ
scan_block zero size b bi bits = none
scan_block (suc n) size b bi bits =
    let further = scan_block n size b (bi + 1) bits in
    if not (ltb (b + bi) size)
    then none
    else if not (test_bit (bi % 8) (bits (bi / 8)))
    then some bi
    else further

-- What `balloc` does with the free bit that it has found.
pub take_block : Superblock → ℕ → ℕ → Disk → ℕ × Disk
take_block sb b bi disk =
    let bits = disk (bblock b sb) in
    let marked = update bits (bi / 8) (set_bit (bi % 8) (bits (bi / 8))) in
    (b + bi, bzero (b + bi) (update disk (bblock b sb) marked))

-- The outer loop of `balloc`, with fuel for the blocks of the bitmap.
pub balloc_loop : ℕ → Superblock → ℕ → Disk → ℕ × Disk
balloc_loop zero sb b disk = (0, disk)
balloc_loop (suc fuel) sb b disk = elim (ltb b sb.size) [
  | false ↦ (0, disk)
  | true ↦ elim (scan_block bpb sb.size b 0 (disk (bblock b sb))) [
    | some bi ↦ take_block sb b bi disk
    | none ↦ balloc_loop fuel sb (b + bpb) disk
  ]
]

-- A block, or 0 if all are in use.
pub balloc : Superblock → Disk → ℕ × Disk
balloc sb disk = balloc_loop (sb.size / bpb + 1) sb 0 disk

-- `none` is the panic.
pub bfree : Superblock → ℕ → Disk → Option Disk
bfree sb b disk =
    let bits = disk (bblock b sb) in
    let bi = b % bpb in
    if not (test_bit (bi % 8) (bits (bi / 8)))
    then none
    else some
        (update disk (bblock b sb) (update bits (bi / 8) (clear_bit (bi % 8) (bits (bi / 8)))))
