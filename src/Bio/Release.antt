-- ===== src/Bio/Release.antt =====
-- `brelse` of kernel/bio.c: the list stays well formed, and is kept in order of last use.
use ntu_sc2005_xv.Prelude.{
  ℕ, ◌<◌, ◌≡◌, ◌≢◌, ◌⊎◌, inl, inr, refl, ap, sym, subst, List, [], ◌∷◌, ◌++◌, count, arith, true,
  false, none, some, ℕ_discrete,
}
use ntu_sc2005_xv.Prelude.Maps.{update}
use ntu_sc2005_xv.Sleeplock.{holdingsleep, releasesleep}
use ntu_sc2005_xv.Bio.{Bcache, nbuf, insert_front, unlink, dec32, brelse}
use ntu_sc2005_xv.Bio.Ring.{IsRing, move_front-IsRing}

pub split_at :
    (b : ℕ) (xs : List ℕ)
    → count b xs ≢ 0
    → (before : List ℕ) × (after : List ℕ) × (xs ≡ before ++ b ∷ after)
split_at b [] h = absurd (h refl)
split_at b (x ∷ xs) h = elim (ℕ_discrete b x) [
  | yes e ↦ ([], xs, ap (λ z. z ∷ xs) (sym e))
  | no ne ↦ let (ys, zs, e) = split_at b xs (ground arith) in (x ∷ ys, zs, ap (λ z. x ∷ z) e)
]

-- The cache after `brelse` of buffer `b` by its holder.
pub record Released (b : ℕ) (s : Bcache) (xs : List ℕ) (t : Bcache) : Type 0 where
  pub dev : t.dev ≡ s.dev
  pub blockno : t.blockno ≡ s.blockno
  pub valid : t.valid ≡ s.valid
  pub bytes : t.bytes ≡ s.bytes
  pub lock : t.lock ≡ update s.lock b (releasesleep (s.lock b))
  pub refcnt : t.refcnt ≡ update s.refcnt b (dec32 (s.refcnt b))
  pub order :
      ((dec32 (s.refcnt b) ≢ 0) × IsRing nbuf t xs)
      ⊎ ((dec32 (s.refcnt b) ≡ 0)
          × ((ys : List ℕ) × (zs : List ℕ) × (xs ≡ ys ++ b ∷ zs) × IsRing nbuf t (b ∷ ys ++ zs)))

-- The cache when the lock is released and the reference dropped.
abbrev dropped : ℕ → Bcache → Bcache
dropped b s = record s {
  lock = update s.lock b (releasesleep (s.lock b));
  refcnt = update s.refcnt b (dec32 (s.refcnt b));
}

move_front_fields :
    (b : ℕ) (s : Bcache)
    → let t = insert_front b (unlink b s) in
      (t.dev ≡ s.dev)
      × (t.blockno ≡ s.blockno)
      × (t.valid ≡ s.valid)
      × (t.bytes ≡ s.bytes)
      × (t.lock ≡ s.lock)
      × (t.refcnt ≡ s.refcnt)
unfolding insert_front unlink
move_front_fields b s = (refl, refl, refl, refl, refl, refl)

module _ (me b : ℕ) (s : Bcache) (xs : List ℕ) (own : holdingsleep me (s.lock b) ≡ true) where
  release_last :
      (ys zs : List ℕ)
      → dec32 (s.refcnt b) ≡ 0
      → xs ≡ ys ++ b ∷ zs
      → IsRing nbuf s (ys ++ b ∷ zs)
      → (t : Bcache) × (brelse me b s ≡ some t) × Released b s xs t
  unfolding brelse
  release_last ys zs last e r =
      let (d, n, v, k, l, c) = move_front_fields b (dropped b s) in
      let r' : IsRing nbuf (dropped b s) (ys ++ b ∷ zs) = record {
        linked = r.linked;
        once = r.once;
        size = r.size;
      } in
      (
        insert_front b (unlink b (dropped b s)),
        ground (arith, own, last),
        record {
          dev = d;
          blockno = n;
          valid = v;
          bytes = k;
          lock = l;
          refcnt = c;
          order = inr (last, (ys, zs, e, move_front-IsRing b (dropped b s) ys zs r'));
        },
      )

  release_more :
      dec32 (s.refcnt b) ≢ 0
      → IsRing nbuf s xs
      → (t : Bcache) × (brelse me b s ≡ some t) × Released b s xs t
  unfolding brelse
  release_more more r = (
    dropped b s,
    ground (arith, own, more),
    record {
      dev = refl;
      blockno = refl;
      valid = refl;
      bytes = refl;
      lock = refl;
      refcnt = refl;
      order = inl (more, record { linked = r.linked; once = r.once; size = r.size });
    },
  )

-- `brelse` panics just when the caller does not hold the buffer's lock. Otherwise it unlocks the
-- buffer and drops one reference; with the last one the buffer moves to the front of the list, the
-- most recently used, and the other buffers keep their order.
pub brelse_lem :
    (me b : ℕ) (s : Bcache) (xs : List ℕ)
    → b < nbuf
    → IsRing nbuf s xs
    → (holdingsleep me (s.lock b) ≡ false → brelse me b s ≡ none)
      × (holdingsleep me (s.lock b) ≡ true
          → (t : Bcache) × (brelse me b s ≡ some t) × Released b s xs t)
unfolding brelse
brelse_lem me b s xs lt r = (
  λ out. rw out refl,
  λ own. elim (ℕ_discrete (dec32 (s.refcnt b)) 0) [
    | yes last ↦
        let (ys, zs, e) = split_at b xs (ground (arith, r.once b)) in
        release_last me b s xs own ys zs last e (subst (IsRing nbuf s) e r)
    | no more ↦ release_more me b s xs own more r
  ],
)
