-- ===== src/Bio/Invariant.antt =====
-- The invariant of the cache of kernel/bio.c in every reachable state.
use ntu_sc2005_xv.Prelude.{
  ℕ, zero, suc, ◌+◌, ◌≡◌, inl, inr, refl, subst, [], All, All-at, arith, false, Bool-cases,
}
use ntu_sc2005_xv.Sleeplock.{initsleeplock}
use ntu_sc2005_xv.Bio.{init_loop, insert_front, Bcache, Block, nbuf, binit, fill}
use ntu_sc2005_xv.Bio.Get.{binit-IsRing}
use ntu_sc2005_xv.Bio.Clients.{
  System, Step, get, lock, read, modify, write, release, pin, unpin, Reach, here, next,
}
use ntu_sc2005_xv.Bio.Holders.{RefOk, Inv, content-Inv}
use ntu_sc2005_xv.Bio.Obtain.{After, get-Inv}
use ntu_sc2005_xv.Bio.Keeps.{lock-Inv, release-Inv, pin-Inv, unpin-Inv}

pub Step-Inv : {s t : System} → Step s t → Inv s → Inv t
unfolding fill
Step-Inv {s} (get pid dev blockno pos small e) i =
    subst (After s pid dev blockno) e (get-Inv s pid dev blockno pos small i)
Step-Inv (lock xs ys r e wait got) i = lock-Inv xs ys r e wait got i
Step-Inv {s} (read xs ys r e own) i = elim (Bool-cases (s.cache.valid r.buf)) [
  | inl v ↦ rw v i
  | inr v ↦ rw v (content-Inv _ _ s.disk i)
]
Step-Inv {s} (modify xs ys r x e own) i = content-Inv _ s.cache.valid s.disk i
Step-Inv {s} (write xs ys r {d} e own done) i = content-Inv s.cache.bytes s.cache.valid d i
Step-Inv {s} (release xs ys r e own done) i = release-Inv s xs ys r e own done i
Step-Inv {s} (pin xs ys r e small) i =
    pin-Inv r.buf (All-at (RefOk s.cache) xs r ys (subst (All (RefOk s.cache)) e i.refs)).inside
      small i
Step-Inv (unpin xs ys b e) i = unpin-Inv xs ys b e i

init_loop-zero :
    (rest b : ℕ) (s : Bcache) (c : ℕ)
    → ((c : ℕ) → (s.dev c ≡ 0) × (s.refcnt c ≡ 0) × ((s.lock c).locked ≡ false))
    → let t = init_loop rest b s in (t.dev c ≡ 0) × (t.refcnt c ≡ 0) × ((t.lock c).locked ≡ false)
unfolding init_loop insert_front initsleeplock
init_loop-zero zero b s c h = h c
init_loop-zero (suc rest) b s c h =
    init_loop-zero rest (b + 1) _ c (λ c. ((h c).0, (h c).1, ground (arith, h c)))

boot-Inv :
    (disk : ℕ → ℕ → Block) → Inv (record { cache = binit; disk = disk; refs = []; pins = [] })
unfolding binit initsleeplock
boot-Inv disk =
    let clear = λ (c : ℕ). init_loop-zero nbuf 0 _ c (λ c. (refl, refl, refl)) in
    record {
      order = binit-IsRing.0;
      ring = binit-IsRing.1;
      counts = λ b lt. (clear b).1;
      few = omega arith;
      pinned = tt;
      refs = tt;
      owned = λ b lt. ground (arith, clear b);
      unique = λ b c lb lc nz ed en. absurd (nz (clear b).0);
    }

pub Reach-Inv : {disk : ℕ → ℕ → Block} {s : System} → Reach disk s → Inv s
Reach-Inv {disk} here = boot-Inv disk
Reach-Inv (next r st) = Step-Inv st (Reach-Inv r)
