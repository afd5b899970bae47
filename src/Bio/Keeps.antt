-- ===== src/Bio/Keeps.antt =====
-- The other steps of a process on the cache of kernel/bio.c keep the invariant.
use ntu_sc2005_xv.Prelude.{
  ℕ, ◌+◌, ◌^◌, ◌<◌, ◌≡◌, inl, inr, refl, ◌∙◌, ap, subst, List, ◌∷◌, ◌++◌, count, count-append,
  count_le, length, length-append, All, All-at, All-drop, All-put, arith, true, false, some,
}
use ntu_sc2005_xv.Prelude.Maps.{update}
use ntu_sc2005_xv.Sleeplock.{Sleeplock, acquiresleep, releasesleep, holdingsleep}
use ntu_sc2005_xv.Bio.{Bcache, nbuf, brelse, bpin, bunpin}
use ntu_sc2005_xv.Bio.Ring.{IsRing}
use ntu_sc2005_xv.Bio.Release.{brelse_lem, Released}
use ntu_sc2005_xv.Bio.Clients.{Ref, System, refs_of, owners, total}
use ntu_sc2005_xv.Bio.Holders.{
  RefOk, Inv, refs_of-append, owners-append, refs_of_le, keep, keep-All,
}

pub lock-Inv :
    {s : System} (xs ys : List Ref) (r : Ref) {l : Sleeplock}
    → s.refs ≡ xs ++ r ∷ ys
    → r.owns ≡ false
    → acquiresleep r.pid (s.cache.lock r.buf) ≡ some l
    → Inv s
    → Inv (record s {
      cache = record s.cache { lock = update s.cache.lock r.buf l };
      refs = xs ++ record r { owns = true } ∷ ys;
    })
unfolding acquiresleep holdingsleep
lock-Inv {s} xs ys r {l} e wait got i =
    let r' = record r { owns = true } in
    let c' = record s.cache { lock = update s.cache.lock r.buf l } in
    let old = subst (All (RefOk s.cache)) e i.refs in
    let mine = All-at (RefOk s.cache) xs r ys old in
    let free : owners r.buf (xs ++ ys) ≡ 0 = ground (
      arith,
      i.owned r.buf mine.inside,
      ap (owners r.buf) e,
      owners-append r.buf xs (r ∷ ys),
      owners-append r.buf xs ys,
      got,
    ) in
    record {
      order = i.order;
      ring = record { linked = i.ring.linked; once = i.ring.once; size = i.ring.size };
      counts = λ c lt. ground (
        arith,
        i.counts c lt,
        ap (refs_of c) e,
        refs_of-append c xs (r ∷ ys),
        refs_of-append c xs (r' ∷ ys),
      );
      few = omega (
        arith,
        i.few,
        ap length e,
        length-append {0} xs (r ∷ ys),
        length-append {0} xs (r' ∷ ys),
      );
      pinned = i.pinned;
      refs =
          All-put (RefOk c') xs r' ys
            (record {
              inside = mine.inside;
              device = mine.device;
              dev = mine.dev;
              blockno = mine.blockno;
              held = λ own. ground (arith, got);
            })
            (keep s.cache c' r.buf (xs ++ ys) (λ x ne. (refl, refl, ground arith)) free
              (inr (refl, refl)) (All-drop (RefOk s.cache) xs r ys old));
      owned = λ c lt. ground (
        arith,
        i.owned c lt,
        ap (owners c) e,
        owners-append c xs (r ∷ ys),
        owners-append c xs (r' ∷ ys),
        free,
        owners-append r.buf xs ys,
        got,
      );
      unique = i.unique;
    }

ring_after :
    {s : System} {b : ℕ} {t : Bcache} (i : Inv s)
    → Released b s.cache i.order t
    → (xs : List ℕ) × IsRing nbuf t xs
ring_after i rel = elim rel.order [ inl (_, r) ↦ (i.order, r) | inr (_, (ys, zs, _, r)) ↦ (_, r) ]

Released-Inv :
    {s : System} (xs ys : List Ref) (r : Ref) {t : Bcache}
    → s.refs ≡ xs ++ r ∷ ys
    → r.owns ≡ true
    → (i : Inv s) → Released r.buf s.cache i.order t
    → Inv (record s { cache = t; refs = xs ++ ys })
unfolding holdingsleep releasesleep
Released-Inv {s} xs ys r {t} e own i rel =
    let old = subst (All (RefOk s.cache)) e i.refs in
    let mine = All-at (RefOk s.cache) xs r ys old in
    let held = mine.held own in
    let free : owners r.buf (xs ++ ys) ≡ 0 = ground (
      arith,
      i.owned r.buf mine.inside,
      ap (owners r.buf) e,
      owners-append r.buf xs (r ∷ ys),
      owners-append r.buf xs ys,
      held,
    ) in
    let (order, ring) = ring_after i rel in
    record {
      order = order;
      ring = ring;
      counts = λ c lt. ground (
        arith,
        rel.refcnt,
        i.counts c lt,
        i.few,
        ap (refs_of c) e,
        ap length e,
        refs_of-append c xs (r ∷ ys),
        refs_of-append c xs ys,
        refs_of_le c s.refs,
        count_le c s.pins,
      );
      few =
          omega (arith, i.few, ap length e, length-append {0} xs (r ∷ ys), length-append {0} xs ys);
      pinned = i.pinned;
      refs =
          keep s.cache t r.buf (xs ++ ys)
            (λ x ne. (
              ap (λ f. f x) rel.dev,
              ap (λ f. f x) rel.blockno,
              ap (λ f. f x) rel.lock ∙ ground arith,
            ))
            free (inr (ap (λ f. f r.buf) rel.dev, ap (λ f. f r.buf) rel.blockno))
            (All-drop (RefOk s.cache) xs r ys old);
      owned = λ c lt. ground (
        arith,
        ap (λ f. f c) rel.lock,
        i.owned c lt,
        ap (owners c) e,
        owners-append c xs (r ∷ ys),
        owners-append c xs ys,
        free,
        held,
      );
      unique = rw (rel.dev, rel.blockno) i.unique;
    }

pub pin-Inv :
    {s : System} (b : ℕ)
    → b < nbuf
    → total s + 1 < 2 ^ 32
    → Inv s
    → Inv (record s { cache = bpin b s.cache; pins = b ∷ s.pins })
unfolding bpin
pin-Inv {s} b lt small i = record {
  order = i.order;
  ring = record { linked = i.ring.linked; once = i.ring.once; size = i.ring.size };
  counts = λ c l. ground (arith, i.counts c, refs_of_le c s.refs, count_le c s.pins);
  few = omega (arith, small);
  pinned = (lt, i.pinned);
  refs = keep-All s.cache _ s.refs refl refl refl i.refs;
  owned = i.owned;
  unique = i.unique;
}

pub unpin-Inv :
    {s : System} (xs ys : List ℕ) (b : ℕ)
    → s.pins ≡ xs ++ b ∷ ys
    → Inv s
    → Inv (record s { cache = bunpin b s.cache; pins = xs ++ ys })
unfolding bunpin
unpin-Inv {s} xs ys b e i = record {
  order = i.order;
  ring = record { linked = i.ring.linked; once = i.ring.once; size = i.ring.size };
  counts = λ c l. ground (
    arith,
    i.counts c,
    i.few,
    ap (count c) e,
    count-append c xs (b ∷ ys),
    count-append c xs ys,
    refs_of_le c s.refs,
    count_le c s.pins,
  );
  few = omega (arith, i.few, ap length e, length-append {0} xs (b ∷ ys), length-append {0} xs ys);
  pinned = All-drop (λ x. x < nbuf) xs b ys (subst (All (λ x. x < nbuf)) e i.pinned);
  refs = keep-All s.cache _ s.refs refl refl refl i.refs;
  owned = i.owned;
  unique = i.unique;
}

pub release-Inv :
    (s : System) (xs ys : List Ref) (r : Ref) {t : Bcache}
    → s.refs ≡ xs ++ r ∷ ys
    → r.owns ≡ true
    → brelse r.pid r.buf s.cache ≡ some t
    → Inv s
    → Inv (record s { cache = t; refs = xs ++ ys })
release-Inv s xs ys r {t} e own done i =
    let mine = All-at (RefOk s.cache) xs r ys (subst (All (RefOk s.cache)) e i.refs) in
    let (t', done', rel) =
      (brelse_lem r.pid r.buf s.cache i.order mine.inside i.ring).1 (mine.held own) in
    let same : t' ≡ t = ground (arith, done, done') in
    subst (λ c. Inv (record s { cache = c; refs = xs ++ ys })) same
      (Released-Inv xs ys r e own i rel)
