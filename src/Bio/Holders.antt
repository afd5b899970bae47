-- ===== src/Bio/Holders.antt =====
-- What the processes that hold references to the buffers of kernel/bio.c rely on.
use ntu_sc2005_xv.Prelude.{
  ℕ, ◌+◌, ◌^◌, ◌≤◌, ◌<◌, ◌≡◌, ◌≢◌, ◌⊎◌, refl, ◌∙◌, ap, List, [], ◌∷◌, ◌++◌, count, length, All,
  arith, if◌then◌else◌, Bool, true,
}
use ntu_sc2005_xv.Sleeplock.{holdingsleep}
use ntu_sc2005_xv.Bio.{Bcache, Block, nbuf}
use ntu_sc2005_xv.Bio.Ring.{IsRing}
use ntu_sc2005_xv.Bio.Clients.{Ref, System, refs_of, owners, total}

-- A reference is to a buffer that has its block, and its owner holds the lock.
pub record RefOk (c : Bcache) (r : Ref) : Type 0 where
  pub inside : r.buf < nbuf
  pub device : 0 < r.dev
  pub dev : c.dev r.buf ≡ r.dev
  pub blockno : c.blockno r.buf ≡ r.blockno
  pub held : r.owns ≡ true → holdingsleep r.pid (c.lock r.buf) ≡ true

pub record Inv (s : System) : Type 0 where
  pub order : List ℕ
  pub ring : IsRing nbuf s.cache order
  pub counts : (b : ℕ) → b < nbuf → s.cache.refcnt b ≡ refs_of b s.refs + count b s.pins
  pub few : total s < 2 ^ 32
  pub pinned : All (λ b. b < nbuf) s.pins
  pub refs : All (RefOk s.cache) s.refs
  pub owned : (b : ℕ) → b < nbuf → owners b s.refs ≡ (if (s.cache.lock b).locked then 1 else 0)
  pub unique :
      (b c : ℕ)
      → b < nbuf
      → c < nbuf
      → s.cache.dev b ≢ 0
      → s.cache.dev b ≡ s.cache.dev c
      → s.cache.blockno b ≡ s.cache.blockno c
      → b ≡ c

pub refs_of-append : (b : ℕ) (xs ys : List Ref) → refs_of b (xs ++ ys) ≡ refs_of b xs + refs_of b ys
refs_of-append b [] ys = omega arith
refs_of-append b (x ∷ xs) ys = omega (arith, refs_of-append b xs ys)

pub owners-append : (b : ℕ) (xs ys : List Ref) → owners b (xs ++ ys) ≡ owners b xs + owners b ys
owners-append b [] ys = omega arith
owners-append b (x ∷ xs) ys = omega (arith, owners-append b xs ys)

pub refs_of_le : (b : ℕ) (rs : List Ref) → refs_of b rs ≤ length rs
refs_of_le b [] = omega arith
refs_of_le b (r ∷ rs) = ground (arith, refs_of_le b rs)

-- References stay good where only buffer `b` changes, if none of them owns it, and none is to it or
-- it keeps its block.
pub keep :
    (c c' : Bcache) (b : ℕ) (rs : List Ref)
    → ((x : ℕ)
        → x ≢ b
        → (c'.dev x ≡ c.dev x) × (c'.blockno x ≡ c.blockno x) × (c'.lock x ≡ c.lock x))
    → owners b rs ≡ 0
    → (refs_of b rs ≡ 0) ⊎ ((c'.dev b ≡ c.dev b) × (c'.blockno b ≡ c.blockno b))
    → All (RefOk c) rs
    → All (RefOk c') rs
keep c c' b [] same free key h = tt
keep c c' b (r ∷ rs) same free key h = (
  record {
    inside = h.0.inside;
    device = h.0.device;
    dev = ground (arith, same r.buf, key, h.0.dev);
    blockno = ground (arith, same r.buf, key, h.0.blockno);
    held = λ own. ground (arith, same r.buf, h.0.held);
  },
  keep c c' b rs same (omega arith) (ground (arith, key)) h.1,
)

-- And where no buffer changes its block or its lock.
pub keep-All :
    (c c' : Bcache) (rs : List Ref)
    → c'.dev ≡ c.dev
    → c'.blockno ≡ c.blockno
    → c'.lock ≡ c.lock
    → All (RefOk c) rs
    → All (RefOk c') rs
keep-All c c' [] d n l h = tt
keep-All c c' (r ∷ rs) d n l h = (
  record {
    inside = h.0.inside;
    device = h.0.device;
    dev = ap (λ f. f r.buf) d ∙ h.0.dev;
    blockno = ap (λ f. f r.buf) n ∙ h.0.blockno;
    held = λ own. ap (λ f. holdingsleep r.pid (f r.buf)) l ∙ h.0.held own;
  },
  keep-All c c' rs d n l h.1,
)

-- A state that differs from one with the invariant in the data, the disk or valid bits only.
pub content-Inv :
    {s : System} (bytes : ℕ → Block) (valid : ℕ → Bool) (disk : ℕ → ℕ → Block)
    → Inv s
    → Inv (record s { cache = record s.cache { bytes = bytes; valid = valid }; disk = disk })
content-Inv {s} bytes valid disk i = record {
  order = i.order;
  ring = record { linked = i.ring.linked; once = i.ring.once; size = i.ring.size };
  counts = i.counts;
  few = i.few;
  pinned = i.pinned;
  refs = keep-All s.cache _ s.refs refl refl refl i.refs;
  owned = i.owned;
  unique = i.unique;
}

pub owners_le : (b : ℕ) (rs : List Ref) → owners b rs ≤ refs_of b rs
owners_le b [] = omega arith
owners_le b (r ∷ rs) = ground (arith, owners_le b rs)
