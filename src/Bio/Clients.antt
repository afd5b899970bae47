-- ===== src/Bio/Clients.antt =====
-- Processes that share the buffer cache of kernel/bio.c, interleaved in any way.
use ntu_sc2005_xv.Prelude.{
  ℕ, ◌+◌, ◌^◌, ◌<◌, ◌≡◌, List, [], ◌∷◌, ◌++◌, length, ◌==◌, ◌&&◌, if◌then◌else◌, Bool, true, false,
  some,
}
use ntu_sc2005_xv.Prelude.Maps.{update}
use ntu_sc2005_xv.Sleeplock.{Sleeplock, acquiresleep}
use ntu_sc2005_xv.Bio.{Bcache, Block, binit, bget, fill, bwrite, brelse, bpin, bunpin}

-- What `bget` gave a process: buffer `buf` for a block. `owns` says that `acquiresleep` is done.
pub record Ref : Type 0 where
  pub pid : ℕ
  pub buf : ℕ
  pub dev : ℕ
  pub blockno : ℕ
  pub owns : Bool

pub record System : Type 0 where
  pub cache : Bcache
  pub disk : ℕ → ℕ → Block
  pub refs : List Ref
  pub pins : List ℕ

-- The references that are out, those to one buffer, and those that own it.
abbrev pub refs_of : ℕ → List Ref → ℕ
refs_of b [] = 0
refs_of b (r ∷ rs) = (if r.buf == b then 1 else 0) + refs_of b rs

abbrev pub owners : ℕ → List Ref → ℕ
owners b [] = 0
owners b (r ∷ rs) = (if r.buf == b && r.owns then 1 else 0) + owners b rs

abbrev pub total : System → ℕ
total s = length s.refs + length s.pins

-- Device numbers are not 0, and there are fewer than 2^32 references.
pub data Step (s : System) : System → Type 0 where
  get :
      (pid dev blockno : ℕ) {b : ℕ} {t : Bcache}
      → 0 < dev
      → total s + 1 < 2 ^ 32
      → bget dev blockno s.cache ≡ some (b, t)
      → Step s (record s {
        cache = t;
        refs = record { pid = pid; buf = b; dev = dev; blockno = blockno; owns = false } ∷ s.refs;
      })
  lock :
      (xs ys : List Ref) (r : Ref) {l : Sleeplock}
      → s.refs ≡ xs ++ r ∷ ys
      → r.owns ≡ false
      → acquiresleep r.pid (s.cache.lock r.buf) ≡ some l
      → Step s (record s {
        cache = record s.cache { lock = update s.cache.lock r.buf l };
        refs = xs ++ record r { owns = true } ∷ ys;
      })
  read :
      (xs ys : List Ref) (r : Ref)
      → s.refs ≡ xs ++ r ∷ ys
      → r.owns ≡ true
      → Step s (record s { cache = fill s.disk r.buf s.cache })
  modify :
      (xs ys : List Ref) (r : Ref) (x : Block)
      → s.refs ≡ xs ++ r ∷ ys
      → r.owns ≡ true
      → Step s (record s { cache = record s.cache { bytes = update s.cache.bytes r.buf x } })
  write :
      (xs ys : List Ref) (r : Ref) {d : ℕ → ℕ → Block}
      → s.refs ≡ xs ++ r ∷ ys
      → r.owns ≡ true
      → bwrite r.pid r.buf s.cache s.disk ≡ some d
      → Step s (record s { disk = d })
  release :
      (xs ys : List Ref) (r : Ref) {t : Bcache}
      → s.refs ≡ xs ++ r ∷ ys
      → r.owns ≡ true
      → brelse r.pid r.buf s.cache ≡ some t
      → Step s (record s { cache = t; refs = xs ++ ys })
  pin :
      (xs ys : List Ref) (r : Ref)
      → s.refs ≡ xs ++ r ∷ ys
      → total s + 1 < 2 ^ 32
      → Step s (record s { cache = bpin r.buf s.cache; pins = r.buf ∷ s.pins })
  unpin :
      (xs ys : List ℕ) (b : ℕ)
      → s.pins ≡ xs ++ b ∷ ys
      → Step s (record s { cache = bunpin b s.cache; pins = xs ++ ys })

pub data Reach (disk : ℕ → ℕ → Block) : System → Type 0 where
  here : Reach disk (record { cache = binit; disk = disk; refs = []; pins = [] })
  next : {s t : System} → Reach disk s → Step s t → Reach disk t
