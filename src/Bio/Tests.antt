-- ===== src/Bio/Tests.antt =====
-- Runs of kernel/bio.c, and its theorems at concrete caches.
use ntu_sc2005_xv.Prelude.{
  ℕ, ◌<◌, ◌≡◌, ◌⊎◌, refl, [], ◌∷◌, true, false, Option, none, some, arith, ◌==◌, if◌then◌else◌,
}
use ntu_sc2005_xv.Sleeplock.{acquiresleep, holdingsleep, initsleeplock}
use ntu_sc2005_xv.Bio.{
  Bcache, Block, nbuf, binit, init_loop, insert_front, search, bget, brelse, matches, unused,
}
use ntu_sc2005_xv.Bio.Get.{binit-IsRing, bget_lem, Hit, Recycled}
use ntu_sc2005_xv.Bio.Release.{brelse_lem, Released}
use ntu_sc2005_xv.Bio.Clients.{Ref, System, get, lock, Reach, here, next}
use ntu_sc2005_xv.Bio.Exclusion.{one_copy}

abbrev cache_of : Option (ℕ × Bcache) → Bcache
cache_of none = binit
cache_of (some (b, t)) = t

abbrev once : Bcache
once = cache_of (bget 1 5 binit)

abbrev twice : Bcache
twice = cache_of (bget 1 5 once)

recycles : bget 1 5 binit ≡ some (0, once)
unfolding bget search binit init_loop insert_front
recycles = refl

hits : bget 1 5 once ≡ some (0, twice)
unfolding bget search binit init_loop insert_front
hits = refl

bget_lem_example :
    let xs = binit-IsRing.0 in
    ((b : ℕ) × (t : Bcache) × (bget 1 5 binit ≡ some (b, t))
      × (Hit 1 5 binit xs b t ⊎ Recycled 1 5 binit xs b t))
    ⊎ ((bget 1 5 binit ≡ none)
        × ((c : ℕ) → c < nbuf → (matches binit 1 5 c ≡ false) × (unused binit c ≡ false)))
bget_lem_example = bget_lem 1 5 binit binit-IsRing.0 binit-IsRing.1

brelse_lem_example :
    (holdingsleep 1 (binit.lock 4) ≡ false → brelse 1 4 binit ≡ none)
    × (holdingsleep 1 (binit.lock 4) ≡ true
        → (t : Bcache) × (brelse 1 4 binit ≡ some t) × Released 4 binit binit-IsRing.0 t)
brelse_lem_example = brelse_lem 1 4 binit binit-IsRing.0 (omega arith) binit-IsRing.1

abbrev zeros : ℕ → ℕ → Block
zeros _ _ _ = 0

abbrev first_ref : Ref
first_ref = record { pid = 1; buf = 0; dev = 1; blockno = 5; owns = false }

abbrev second_ref : Ref
second_ref = record { pid = 2; buf = 0; dev = 1; blockno = 5; owns = false }

two_refs :
    Reach zeros
      (record { cache = twice; disk = zeros; refs = second_ref ∷ first_ref ∷ []; pins = [] })
two_refs =
    next (next here (get 1 1 5 (omega arith) (omega arith) recycles))
      (get 2 1 5 (omega arith) (omega arith) hits)

one_copy_example :
    (second_ref.buf ≡ first_ref.buf) × (second_ref.owns ≡ true → first_ref.owns ≡ false)
one_copy_example = one_copy [] [] [] second_ref first_ref two_refs refl refl refl

abbrev locked : System
locked = record {
  cache = record once {
    lock = λ b. if 0 == b then record { locked = true; pid = 1 } else once.lock b;
  };
  disk = zeros;
  refs = record first_ref { owns = true } ∷ [];
  pins = [];
}

takes : acquiresleep 1 (once.lock 0) ≡ some (record { locked = true; pid = 1 })
unfolding acquiresleep bget search binit init_loop insert_front initsleeplock
takes = refl

locked_reached : Reach zeros locked
locked_reached =
    next (next here (get 1 1 5 (omega arith) (omega arith) recycles))
      (lock [] [] first_ref refl refl takes)
