-- ===== src/Bio/Exclusion.antt =====
-- What the lock of a buffer of kernel/bio.c gives its holder.
use ntu_sc2005_xv.Prelude.{
  ℕ, ◌≡◌, ◌≢◌, sym, subst, ap, List, ◌∷◌, ◌++◌, All, All-at, append_assoc, true, false, none, arith,
}
use ntu_sc2005_xv.Bio.{Block, bwrite, brelse}
use ntu_sc2005_xv.Bio.Release.{brelse_lem}
use ntu_sc2005_xv.Bio.Clients.{Ref, System, owners, Reach}
use ntu_sc2005_xv.Bio.Holders.{RefOk, owners-append}
use ntu_sc2005_xv.Bio.Invariant.{Reach-Inv}

-- In every reachable state two references to one block are to one buffer, and not both own it:
-- however the processes interleave, at most one process works on a block.
pub one_copy :
    {disk : ℕ → ℕ → Block} {s : System} (xs ys zs : List Ref) (r r' : Ref)
    → Reach disk s
    → s.refs ≡ xs ++ r ∷ (ys ++ r' ∷ zs)
    → r.dev ≡ r'.dev
    → r.blockno ≡ r'.blockno
    → (r.buf ≡ r'.buf) × (r.owns ≡ true → r'.owns ≡ false)
one_copy {s = s} xs ys zs r r' reach e dev blockno =
    let i = Reach-Inv reach in
    let all = subst (All (RefOk s.cache)) e i.refs in
    let a = All-at (RefOk s.cache) xs r (ys ++ r' ∷ zs) all in
    let b =
      All-at (RefOk s.cache) (xs ++ r ∷ ys) r' zs
        (subst (All (RefOk s.cache)) (sym (append_assoc xs (r ∷ ys) (r' ∷ zs))) all) in
    let same : r.buf ≡ r'.buf =
      i.unique r.buf r'.buf a.inside b.inside (ground (arith, a.dev, a.device))
        (ground (arith, a.dev, b.dev)) (ground (arith, a.blockno, b.blockno)) in
    (
      same,
      λ own. ground (
        arith,
        i.owned r.buf a.inside,
        ap (owners r.buf) e,
        owners-append r.buf xs (r ∷ (ys ++ r' ∷ zs)),
        owners-append r.buf ys (r' ∷ zs),
      ),
    )

-- In every reachable state a process that owns a buffer can write it and release it: neither call
-- panics.
pub owner_no_panic :
    {disk : ℕ → ℕ → Block} {s : System} (xs ys : List Ref) (r : Ref)
    → Reach disk s
    → s.refs ≡ xs ++ r ∷ ys
    → r.owns ≡ true
    → (bwrite r.pid r.buf s.cache s.disk ≢ none) × (brelse r.pid r.buf s.cache ≢ none)
unfolding bwrite
owner_no_panic {s = s} xs ys r reach e own =
    let i = Reach-Inv reach in
    let mine = All-at (RefOk s.cache) xs r ys (subst (All (RefOk s.cache)) e i.refs) in
    let held = mine.held own in
    let (t, done, _) = (brelse_lem r.pid r.buf s.cache i.order mine.inside i.ring).1 held in
    (λ bad. ground (arith, held), λ bad. ground (arith, done))
