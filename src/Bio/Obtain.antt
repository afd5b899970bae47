-- ===== src/Bio/Obtain.antt =====
-- `bget` of kernel/bio.c keeps the invariant of the processes that use the cache.
use ntu_sc2005_xv.Prelude.{
  ℕ, ◌+◌, ◌^◌, ◌<◌, ◌≡◌, inl, inr, refl, sym, subst, ◌∷◌, count, count_le, arith, false, Option,
  none, some,
}
use ntu_sc2005_xv.Bio.{Bcache, bget}
use ntu_sc2005_xv.Bio.Get.{bget_lem, Hit, Recycled}
use ntu_sc2005_xv.Bio.Clients.{System, refs_of, total}
use ntu_sc2005_xv.Bio.Holders.{Inv, refs_of_le, owners_le, keep, keep-All}

Hit-Inv :
    {s : System} (pid dev blockno b : ℕ) {t : Bcache}
    → 0 < dev
    → total s + 1 < 2 ^ 32
    → (i : Inv s) → Hit dev blockno s.cache i.order b t
    → Inv (record s {
      cache = t;
      refs = record { pid = pid; buf = b; dev = dev; blockno = blockno; owns = false } ∷ s.refs;
    })
Hit-Inv {s} pid dev blockno b pos small i h =
    let key = h.found.passes in
    subst
      (λ t. Inv (record s {
        cache = t;
        refs = record { pid = pid; buf = b; dev = dev; blockno = blockno; owns = false } ∷ s.refs;
      }))
      (sym h.after)
      (record {
        order = i.order;
        ring = record { linked = i.ring.linked; once = i.ring.once; size = i.ring.size };
        counts = λ c lt. ground (arith, i.counts c, refs_of_le c s.refs, count_le c s.pins);
        few = omega (arith, small);
        pinned = i.pinned;
        refs = (
          record {
            inside = h.inside;
            device = pos;
            dev = ground (arith, key);
            blockno = ground (arith, key);
            held = λ own. absurd (ground arith);
          },
          keep-All s.cache _ s.refs refl refl refl i.refs,
        );
        owned = λ c lt. ground (arith, i.owned c);
        unique = i.unique;
      })

Recycled-Inv :
    {s : System} (pid dev blockno b : ℕ) {t : Bcache}
    → 0 < dev
    → total s + 1 < 2 ^ 32
    → (i : Inv s) → Recycled dev blockno s.cache i.order b t
    → Inv (record s {
      cache = t;
      refs = record { pid = pid; buf = b; dev = dev; blockno = blockno; owns = false } ∷ s.refs;
    })
Recycled-Inv {s} pid dev blockno b pos small i h =
    let idle : s.cache.refcnt b ≡ 0 = ground (arith, h.oldest.passes) in
    let none_of : refs_of b s.refs + count b s.pins ≡ 0 =
      omega (arith, idle, i.counts b h.inside) in
    subst
      (λ t. Inv (record s {
        cache = t;
        refs = record { pid = pid; buf = b; dev = dev; blockno = blockno; owns = false } ∷ s.refs;
      }))
      (sym h.after)
      (record {
        order = i.order;
        ring = record { linked = i.ring.linked; once = i.ring.once; size = i.ring.size };
        counts = λ c lt. ground (arith, i.counts c, none_of);
        few = omega (arith, small);
        pinned = i.pinned;
        refs = (
          record {
            inside = h.inside;
            device = pos;
            dev = ground arith;
            blockno = ground arith;
            held = λ own. absurd (ground arith);
          },
          keep s.cache _ b s.refs (λ x ne. (ground arith, ground arith, refl))
              (omega (arith, none_of, owners_le b s.refs)) (inl (omega (arith, none_of))) i.refs,
        );
        owned = λ c lt. ground (arith, i.owned c);
        unique = λ x y lx ly nz ed en. ground (arith, i.unique x y, h.absent x, h.absent y);
      })

-- The invariant after a call of `bget` with this result.
abbrev pub After : System → ℕ → ℕ → ℕ → Option (ℕ × Bcache) → Type 0
After s pid dev blockno none = Unit
After s pid dev blockno (some (b, t)) = Inv (record s {
  cache = t;
  refs = record { pid = pid; buf = b; dev = dev; blockno = blockno; owns = false } ∷ s.refs;
})

pub get-Inv :
    (s : System) (pid dev blockno : ℕ)
    → 0 < dev
    → total s + 1 < 2 ^ 32
    → Inv s
    → After s pid dev blockno (bget dev blockno s.cache)
get-Inv s pid dev blockno pos small i = elim (bget_lem dev blockno s.cache i.order i.ring) [
  | inl (b, t, e, inl h) ↦
      subst (After s pid dev blockno) (sym e) (Hit-Inv pid dev blockno b pos small i h)
  | inl (b, t, e, inr h) ↦
      subst (After s pid dev blockno) (sym e) (Recycled-Inv pid dev blockno b pos small i h)
  | inr (e, _) ↦ subst (After s pid dev blockno) (sym e) tt
]
