-- ===== src/Log/Absorb.antt =====
-- `log_write` of kernel/log.c: a block enters the transaction once.
use ntu_sc2005_xv.Prelude.{
  ℕ, zero, suc, ◌+◌, ◌-◌, ◌≤◌, ◌<◌, ◌≡◌, ◌≢◌, ◌⊎◌, inl, inr, ◌∙◌, ap, sym, dec_lt, ℕ_discrete, some,
  ◌==◌, if◌then◌else◌, arith, ◌&&◌,
}
use ntu_sc2005_xv.Prelude.Maps.{update}
use ntu_sc2005_xv.Log.{Block, Fs, peek, bpin, logsize, find_block, log_write}
use ntu_sc2005_xv.Log.Replay.{IsHome}
use ntu_sc2005_xv.Log.Commit.{Ready}

-- The caller puts `x` into the buffer of block `b` before it calls `log_write`.
abbrev pub modify : ℕ → Block → Fs → Fs
modify b x s = record s { cache = update s.cache b (some x) }

-- The blocks of the transaction are distinct, and just these are pinned, once each.
pub record Pinned (s : Fs) : Type 0 where
  pub distinct : (i j : ℕ) → i < s.log.n → j < s.log.n → s.log.block i ≡ s.log.block j → i ≡ j
  pub entries : (i : ℕ) → i < s.log.n → s.pins (s.log.block i) ≡ 1
  pub others : (c : ℕ) → ((i : ℕ) → i < s.log.n → s.log.block i ≢ c) → s.pins c ≡ 0

pub find_block-le :
    (rest i : ℕ) (block : ℕ → ℕ) (b : ℕ)
    → (i ≤ find_block rest i block b) × (find_block rest i block b ≤ i + rest)
unfolding find_block
find_block-le zero i block b = omega arith
find_block-le (suc rest) i block b = ground (arith, find_block-le rest (i + 1) block b)

pub find_block-found :
    (rest i : ℕ) (block : ℕ → ℕ) (b : ℕ)
    → find_block rest i block b < i + rest
    → block (find_block rest i block b) ≡ b
unfolding find_block
find_block-found zero i block b h = absurd (omega arith)
find_block-found (suc rest) i block b h = ground (arith, find_block-found rest (i + 1) block b)

find_block-missed :
    (rest i : ℕ) (block : ℕ → ℕ) (b j : ℕ) → i ≤ j → j < find_block rest i block b → block j ≢ b
unfolding find_block
find_block-missed zero i block b j lo hi = absurd (omega arith)
find_block-missed (suc rest) i block b j lo hi =
    ground (arith, find_block-missed rest (i + 1) block b j)

module _ (b : ℕ) (x : Block) (s : Fs) (t : Fs) (done : log_write b (modify b x s) ≡ some t) where
  open s.log use {n, block}

  pub index : ℕ
  index = find_block n 0 block b

  -- The log after the call: `b` is in it, at the index where the loop stopped.
  record After : Type 0 where
    guard : (n < logsize) × (n < s.log.size - 1) × (0 < s.log.outstanding)
    fields :
        (t.log.start ≡ s.log.start)
        × (t.log.size ≡ s.log.size)
        × (t.log.outstanding ≡ s.log.outstanding)
        × (t.log.committing ≡ s.log.committing)
    count : t.log.n ≡ (if index == n then n + 1 else n)
    entry : (i : ℕ) → t.log.block i ≡ (if index == i then b else block i)
    pins : (c : ℕ) → t.pins c ≡ (if index == n && b == c then s.pins c + 1 else s.pins c)
    seen : (c : ℕ) → peek t c ≡ (if b == c then x else peek s c)
    disk : t.disk ≡ s.disk

  after : After
  unfolding log_write bpin index
  after = record {
    guard = ground arith;
    fields = ground arith;
    count = ground arith;
    entry = λ i. ground arith;
    pins = λ c. ground arith;
    seen = λ c. ground arith;
    disk = ground arith;
  }

  open after use {guard, fields, count, entry, pins, seen, disk}

  index_le : index ≤ n
  unfolding index
  index_le = omega (arith, find_block-le n 0 block b)

  found : index < n → block index ≡ b
  unfolding index
  found h = find_block-found n 0 block b (omega arith)

  missed : (j : ℕ) → j < index → block j ≢ b
  unfolding index
  missed j h = find_block-missed n 0 block b j (omega arith) h

  -- The entries that were there stay, and `b` is an entry.
  kept : (i : ℕ) → i < n → t.log.block i ≡ block i
  kept i lt = ground (arith, entry i, found)

  added : (index < t.log.n) × (t.log.block index ≡ b)
  added = (ground (arith, count, index_le), ground (arith, entry index))

  -- Every entry is an old one, or the new block at the end.
  entry_cases :
      (i : ℕ)
      → i < t.log.n
      → ((i < n) × (t.log.block i ≡ block i)) ⊎ ((index ≡ n) × (i ≡ n) × (t.log.block i ≡ b))
  entry_cases i lt = elim (dec_lt i n) [
    | yes old ↦ inl (old, kept i old)
    | no new ↦ inr (
      ground (arith, count, index_le),
      ground (arith, count),
      ground (arith, count, entry i, index_le),
    )
  ]

  not_old : (c : ℕ) → ((i : ℕ) → i < t.log.n → t.log.block i ≢ c) → (i : ℕ) → i < n → block i ≢ c
  not_old c none_of i lt e = none_of i (ground (arith, count)) (kept i lt ∙ e)

  not_new : (c : ℕ) → ((i : ℕ) → i < t.log.n → t.log.block i ≢ c) → b ≢ c
  not_new c none_of e = none_of index added.0 (added.1 ∙ e)

  -- A successful `log_write` of a home block keeps the invariant of the log between system calls:
  -- the entries are home blocks and fit, the log on the disk is empty, and what is not an entry is
  -- on the disk as readers see it.
  pub log_write-Ready : Ready s → IsHome s.log.start s.log.size b → Ready t
  log_write-Ready r home = record {
    fits = record {
      room = ground (arith, guard, fields, count);
      homes = λ i lt. ground (arith, entry_cases i lt, r.fits.homes i, home, fields);
    };
    empty = ap (λ (d : ℕ → Block). d t.log.start 0) disk ∙ ap (λ k. s.disk k 0) fields.0 ∙ r.empty;
    clean = λ c h none_of.
        let old = r.clean c (ground (arith, fields)) (not_old c none_of) in
        ap (λ (d : ℕ → Block). d c) disk ∙ old ∙ sym (ground (arith, seen c, not_new c none_of));
  }

  -- A successful `log_write` keeps the entries of the transaction distinct, the blocks of the
  -- entries pinned once each, and no other block pinned.
  pub log_write-Pinned : Pinned s → Pinned t
  log_write-Pinned p = record {
    distinct = λ i j li lj e.
        ground (arith, entry_cases i li, entry_cases j lj, p.distinct i j, missed i, missed j);
    entries = λ i lt. elim (entry_cases i lt) [
      | inl (old, e) ↦ ground (arith, pins (t.log.block i), p.entries i, missed i)
      | inr (last, at, e) ↦
          ground (arith, pins (t.log.block i), p.others b (λ j l. missed j (omega arith)))
    ];
    others = λ c none_of. ground (arith, pins c, p.others c (not_old c none_of), not_new c none_of);
  }

  -- What a successful `log_write` does: it needs an operation outstanding and room in the log, below
  -- LOGSIZE and below the blocks that the log has on the disk after its header. In the log only `n` and
  -- `block` change, and the entries that were there stay. The block is in the transaction afterwards;
  -- if it was not before, n grows by one and the block is pinned once more. No other pin changes.
  -- Readers see the block's new data at once; no other block changes for them, and the disk does not
  -- change at all.
  pub log_write_lem :
      (n < logsize)
      × (n < s.log.size - 1)
      × (0 < s.log.outstanding)
      × ((t.log.start ≡ s.log.start)
          × (t.log.size ≡ s.log.size)
          × (t.log.outstanding ≡ s.log.outstanding)
          × (t.log.committing ≡ s.log.committing))
      × ((i : ℕ) → i < n → t.log.block i ≡ block i)
      × ((i : ℕ) × (i < t.log.n) × (t.log.block i ≡ b))
      × ((((i : ℕ) × (i < n) × (block i ≡ b)) × (t.log.n ≡ n) × ((c : ℕ) → t.pins c ≡ s.pins c))
          ⊎ (((i : ℕ) → i < n → block i ≢ b)
              × (t.log.n ≡ n + 1)
              × ((c : ℕ) → t.pins c ≡ (if b == c then s.pins c + 1 else s.pins c))))
      × ((c : ℕ) → peek t c ≡ (if b == c then x else peek s c))
      × (t.disk ≡ s.disk)
  log_write_lem = (
    guard.0,
    guard.1,
    guard.2,
    fields,
    kept,
    (index, added.0, added.1),
    new_or_old (ℕ_discrete index n),
    seen,
    disk,
  )
    where
      new_or_old :
          Dec (index ≡ n)
          → (((i : ℕ) × (i < n) × (block i ≡ b)) × (t.log.n ≡ n) × ((c : ℕ) → t.pins c ≡ s.pins c))
            ⊎ (((i : ℕ) → i < n → block i ≢ b)
                × (t.log.n ≡ n + 1)
                × ((c : ℕ) → t.pins c ≡ (if b == c then s.pins c + 1 else s.pins c)))
      new_or_old (yes e) =
          inr
            (λ i lt. missed i (omega arith), ground (arith, count), λ c. ground (arith, e, pins c))
      new_or_old (no ne) = inl (
        (index, omega (arith, index_le), found (omega (arith, index_le))),
        ground (arith, count),
        λ c. ground (arith, ne, pins c),
      )
