-- ===== src/Bio.antt =====
-- kernel/bio.c: the buffer cache, with its doubly linked list of buffers as pointers. A pointer to
-- a buffer is its index in `bcache.buf`, and `head_at` is the pointer to `bcache.head`. Each piece
-- of code under `bcache.lock` is one step. The field `disk` of `struct buf` belongs to the driver.
pub mod Ring
pub mod Get
pub mod Release
pub mod Clients
pub mod Holders
pub mod Obtain
pub mod Keeps
pub mod Invariant
pub mod Exclusion
mod Tests
use ntu_sc2005_xv.Prelude.{
  ℕ, zero, suc, ◌+◌, ◌*◌, ◌^◌, ◌-◌, Bool, true, false, not, ◌&&◌, Option, none, some, ◌==◌,
  if◌then◌else◌,
}
use ntu_sc2005_xv.Prelude.Maps.{update}
use ntu_sc2005_xv.Prelude.Int.{u32}
use ntu_sc2005_xv.Sleeplock.{Sleeplock, initsleeplock, releasesleep, holdingsleep}

abbrev pub nbuf : ℕ
nbuf = 30

abbrev pub head_at : ℕ
head_at = nbuf

-- The bytes of a block.
abbrev pub Block : Type 0
Block = ℕ → ℕ

-- `bcache`: each field of `struct buf` for every pointer.
pub record Bcache : Type 0 where
  pub valid : ℕ → Bool
  pub dev : ℕ → ℕ
  pub blockno : ℕ → ℕ
  pub lock : ℕ → Sleeplock
  pub refcnt : ℕ → ℕ
  pub prev : ℕ → ℕ
  pub next : ℕ → ℕ
  pub bytes : ℕ → Block

-- The four assignments that put `b` behind `bcache.head`.
pub insert_front : ℕ → Bcache → Bcache
insert_front b s =
    let s₁ = record s { next = update s.next b (s.next head_at) } in
    let s₂ = record s₁ { prev = update s₁.prev b head_at } in
    let s₃ = record s₂ { prev = update s₂.prev (s₂.next head_at) b } in
    record s₃ { next = update s₃.next head_at b }

-- `b->next->prev = b->prev; b->prev->next = b->next;`
pub unlink : ℕ → Bcache → Bcache
unlink b s =
    let s₁ = record s { prev = update s.prev (s.next b) (s.prev b) } in
    record s₁ { next = update s₁.next (s₁.prev b) (s₁.next b) }

-- The loop of `binit` at buffer `b`, with `rest` buffers to go.
pub init_loop : ℕ → ℕ → Bcache → Bcache
init_loop zero b s = s
init_loop (suc rest) b s =
    init_loop rest (b + 1) (insert_front b (record s { lock = update s.lock b initsleeplock }))

-- `bcache` is zero at boot, its pointers null, and `binit` makes the list.
pub binit : Bcache
binit = init_loop nbuf 0 (record {
  valid = λ _. false;
  dev = λ _. 0;
  blockno = λ _. 0;
  lock = λ _. initsleeplock;
  refcnt = λ _. 0;
  prev = λ _. head_at;
  next = λ _. head_at;
  bytes = λ _ _. 0;
})

-- `for(; b != &bcache.head; b = step(b)) if(test(b)) …` from `b` on, with fuel.
pub search : (ℕ → Bool) → (ℕ → ℕ) → ℕ → ℕ → Option ℕ
search test step zero b = none
search test step (suc fuel) b =
    let further = search test step fuel (step b) in
    if b == head_at then none else if test b then some b else further

abbrev pub matches : Bcache → ℕ → ℕ → ℕ → Bool
matches s dev blockno b = s.dev b == dev && s.blockno b == blockno

abbrev pub unused : Bcache → ℕ → Bool
unused s b = s.refcnt b == 0

-- `bget` up to its `acquiresleep`: the buffer, whose lock comes next, or `none` for the panic.
pub bget : ℕ → ℕ → Bcache → Option (ℕ × Bcache)
bget dev blockno s = elim (search (matches s dev blockno) s.next (suc nbuf) (s.next head_at)) [
  | some b ↦ some (b, record s { refcnt = update s.refcnt b (u32 (s.refcnt b + 1)) })
  | none ↦ elim (search (unused s) s.prev (suc nbuf) (s.prev head_at)) [
    | some b ↦ some (
      b,
      record s {
        dev = update s.dev b dev;
        blockno = update s.blockno b blockno;
        valid = update s.valid b false;
        refcnt = update s.refcnt b 1;
      },
    )
    | none ↦ none
  ]
]

-- `bread` after its `bget`: reads the block from the disk if the buffer is not valid.
pub fill : (ℕ → ℕ → Block) → ℕ → Bcache → Bcache
fill disk b s = if s.valid b then s else record s {
  bytes = update s.bytes b (disk (s.dev b) (s.blockno b));
  valid = update s.valid b true;
}

-- `bwrite` by process `me`: the disk after it; `none` is a panic.
pub bwrite : ℕ → ℕ → Bcache → (ℕ → ℕ → Block) → Option (ℕ → ℕ → Block)
bwrite me b s disk =
    if not (holdingsleep me (s.lock b))
    then none
    else some (update disk (s.dev b) (update (disk (s.dev b)) (s.blockno b) (s.bytes b)))

-- `refcnt--` on a `uint`
abbrev pub dec32 : ℕ → ℕ
dec32 n = u32 (n + (2 ^ 32 - 1))

pub brelse : ℕ → ℕ → Bcache → Option Bcache
brelse me b s =
    if not (holdingsleep me (s.lock b))
    then none
    else (let s₁ = record s { lock = update s.lock b (releasesleep (s.lock b)) } in
        let s₂ = record s₁ { refcnt = update s₁.refcnt b (dec32 (s₁.refcnt b)) } in
        some (if s₂.refcnt b == 0 then insert_front b (unlink b s₂) else s₂))

pub bpin : ℕ → Bcache → Bcache
bpin b s = record s { refcnt = update s.refcnt b (u32 (s.refcnt b + 1)) }

pub bunpin : ℕ → Bcache → Bcache
bunpin b s = record s { refcnt = update s.refcnt b (dec32 (s.refcnt b)) }
