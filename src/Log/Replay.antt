-- ===== src/Log/Replay.antt =====
-- What a disk means to the log of kernel/log.c: the contents that recovery would leave.
use ntu_sc2005_xv.Prelude.{
  ℕ, zero, suc, ◌+◌, ◌-◌, ◌≤◌, ◌<◌, ◌≡◌, ◌⊎◌, inl, inr, ◌==◌, leb, ltb, ◌&&◌, Bool-cases,
  if◌then◌else◌, arith,
}
use native.Mathlib.Numerals.{add-one}
use ntu_sc2005_xv.Prelude.Maps.{update}
use ntu_sc2005_xv.Log.{Block, load_blocks, store_blocks}

-- Block `b` after the first `n` entries of a log are installed on the disk `d`.
abbrev pub replay : ℕ → (ℕ → ℕ) → (ℕ → Block) → (ℕ → Block) → ℕ → Block
replay zero target logged d b = d b
replay (suc k) target logged d b = if target k == b then logged k else replay k target logged d b

-- The header of the log and its blocks, on a disk.
abbrev pub head_n : ℕ → (ℕ → Block) → ℕ
head_n start d = d start 0

abbrev pub head_block : ℕ → (ℕ → Block) → ℕ → ℕ
head_block start d i = d start (i + 1)

abbrev pub log_block : ℕ → (ℕ → Block) → ℕ → Block
log_block start d i = d (start + i + 1)

-- The durable contents of block `b`.
abbrev pub durable : ℕ → (ℕ → Block) → ℕ → Block
durable start d b = replay (head_n start d) (head_block start d) (log_block start d) d b

-- Outside the log.
abbrev pub IsHome : ℕ → ℕ → ℕ → Type 0
IsHome start size b = (b < start) ⊎ (start + size ≤ b)

pub replay-add_one :
    (k : ℕ) (target : ℕ → ℕ) (logged d : ℕ → Block) (b : ℕ)
    → replay (k + 1) target logged d b
      ≡ (if target k == b then logged k else replay k target logged d b)
replay-add_one k target logged d b = rw add-one

-- What an installation may do to a block without changing the outcome of the replay.
pub replay-absorb :
    (n : ℕ) (target : ℕ → ℕ) (logged d d' : ℕ → Block) (b : ℕ)
    → (d' b ≡ d b) ⊎ ((i : ℕ) × (i < n) × (target i ≡ b))
    → replay n target logged d' b ≡ replay n target logged d b
replay-absorb zero target logged d d' b (inl e) = e
replay-absorb zero target logged d d' b (inr (i, lt, e)) = absurd (omega arith)
replay-absorb (suc n) target logged d d' b (inl e) =
    ground (arith, replay-absorb n target logged d d' b (inl e))
replay-absorb (suc n) target logged d d' b (inr (i, lt, e)) = elim (Bool-cases (target n == b)) [
  | inl last ↦ rw last
  | inr other ↦ rw other (replay-absorb n target logged d d' b (inr (i, ground arith, e)))
]

-- Only the entries below `n`, and the disk at `b`, matter.
pub replay-congr :
    (n : ℕ) (target target' : ℕ → ℕ) (logged logged' d d' : ℕ → Block) (b : ℕ)
    → ((i : ℕ) → i < n → target i ≡ target' i)
    → ((i : ℕ) → i < n → logged i ≡ logged' i)
    → d b ≡ d' b
    → replay n target logged d b ≡ replay n target' logged' d' b
replay-congr zero t t' l l' d d' b ht hl hd = hd
replay-congr (suc n) t t' l l' d d' b ht hl hd = ground (
  arith,
  ht n,
  hl n,
  replay-congr n t t' l l' d d' b (λ i lt. ht i (omega arith)) (λ i lt. hl i (omega arith)) hd,
)

-- A log that holds the new contents of each of its blocks brings the disk to them.
pub replay-contents :
    (n : ℕ) (target : ℕ → ℕ) (logged d new : ℕ → Block) (b : ℕ)
    → ((i : ℕ) → i < n → logged i ≡ new (target i))
    → (d b ≡ new b) ⊎ ((i : ℕ) × (i < n) × (target i ≡ b))
    → replay n target logged d b ≡ new b
replay-contents zero t l d new b h (inl e) = e
replay-contents zero t l d new b h (inr (i, lt, e)) = absurd (omega arith)
replay-contents (suc n) t l d new b h (inl e) =
    ground (arith, h n, replay-contents n t l d new b (λ i lt. h i (omega arith)) (inl e))
replay-contents (suc n) t l d new b h (inr (i, lt, e)) = elim (Bool-cases (t n == b)) [
  | inl last ↦ rw last (ground (arith, h n))
  | inr other ↦
      rw other
        (replay-contents n t l d new b (λ j l'. h j (omega arith)) (inr (i, ground arith, e)))
]

pub load_blocks_lem :
    (rest i : ℕ) (lh : Block) (block : ℕ → ℕ) (j : ℕ)
    → load_blocks rest i lh block j ≡ (if leb i j && ltb j (i + rest) then lh (j + 1) else block j)
unfolding load_blocks
load_blocks_lem zero i lh block j = ground arith
load_blocks_lem (suc rest) i lh block j =
    ground (arith, load_blocks_lem rest (i + 1) lh (update block i (lh (i + 1))) j)

pub store_blocks_lem :
    (rest i : ℕ) (block : ℕ → ℕ) (hb : Block) (j : ℕ)
    → store_blocks rest i block hb j ≡ (if ltb i j && leb j (i + rest) then block (j - 1) else hb j)
unfolding store_blocks
store_blocks_lem zero i block hb j = ground arith
store_blocks_lem (suc rest) i block hb j =
    ground (arith, store_blocks_lem rest (i + 1) block (update hb (i + 1) (block i)) j)
