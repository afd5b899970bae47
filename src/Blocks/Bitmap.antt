-- ===== src/Blocks/Bitmap.antt =====
-- The bitmap of kernel/fs.c as the set of blocks that are in use.
use ntu_sc2005_xv.Prelude.{
  ℕ, zero, suc, ◌+◌, ◌*◌, ◌/◌, ◌%◌, ◌≤◌, ◌<◌, ◌≡◌, ◌⊎◌, refl, subst, Bool, true, false, inl, inr,
  Bool-cases, Option, none, some, ltb, ltb→lt, ltb→le, arith, ℕ_discrete, dec_lt,
}
use ntu_sc2005_xv.Blocks.{
  Disk, bpb, Superblock, bblock, test_bit, scan_block, take_block, balloc_loop, balloc,
}

-- Block `b` is in use: its bit is set.
unfoldable pub in_use : Superblock → Disk → ℕ → Bool
in_use sb disk b = test_bit (b % 8) (disk (bblock b sb) (b % bpb / 8))

-- The test of the inner loop.
bit_of :
    (sb : Superblock) (disk : Disk) (b bi : ℕ)
    → b % bpb ≡ 0
    → bi < bpb
    → test_bit (bi % 8) (disk (bblock b sb) (bi / 8)) ≡ in_use sb disk (b + bi)
unfolding in_use
bit_of sb disk b bi al h =
    let q : (b + bi) / bpb ≡ b / bpb = omega (arith, al, h) in
    let r : (b + bi) % bpb ≡ bi = omega (arith, al, h) in
    let s : (b + bi) % 8 ≡ bi % 8 = omega (arith, al, h) in rw (in_use, q, r, s) refl

-- What the loops find: the first block from `b` on that is not in use, before `end`.
pub record Finds (sb : Superblock) (disk : Disk) (b end c : ℕ) : Type 0 where
  pub above : b ≤ c
  pub below : c < end
  pub fits : c < sb.size
  pub unused : in_use sb disk c ≡ false
  pub first : (j : ℕ) → b ≤ j → j < c → in_use sb disk j ≡ true

unfoldable pub AllUsed : Superblock → Disk → ℕ → ℕ → Type 0
AllUsed sb disk b end = (j : ℕ) → b ≤ j → j < end → j < sb.size → in_use sb disk j ≡ true

abbrev Scanned : Superblock → Disk → ℕ → ℕ → ℕ → Option ℕ → Type 0
Scanned sb disk b from end none = AllUsed sb disk (b + from) end
Scanned sb disk b from end (some bi) = (bi < bpb) × Finds sb disk (b + from) end (b + bi)

scan_block_lem :
    (n : ℕ) (sb : Superblock) (b bi : ℕ) (disk : Disk)
    → b % bpb ≡ 0
    → bi + n ≡ bpb
    → Scanned sb disk b bi (b + bpb) (scan_block n sb.size b bi (disk (bblock b sb)))
unfolding scan_block AllUsed
scan_block_lem zero sb b bi disk al h = λ j l u s. absurd (omega (arith, l, u, h))
scan_block_lem (suc n) sb b bi disk al h = elim (Bool-cases (ltb (b + bi) sb.size)) [
  | inr beyond ↦
      rw (scan_block, beyond)
        (λ j l u s. absurd (omega (arith, l, s, ltb→le (b + bi) sb.size beyond)))
  | inl inside ↦
      let bit = bit_of sb disk b bi al (omega (arith, h)) in
      elim (Bool-cases (in_use sb disk (b + bi))) [
        | inr free ↦
            rw (scan_block, inside, bit, free)
              (
                omega (arith, h),
                record {
                  above = omega arith;
                  below = omega (arith, h);
                  fits = ltb→lt (b + bi) sb.size inside;
                  unused = free;
                  first = λ j l u. absurd (omega (arith, l, u));
                },
              )
        | inl used ↦
            rw (scan_block, inside, bit, used)
              (one_more sb b bi disk used _
                (scan_block_lem n sb b (bi + 1) disk al (omega (arith, h))))
      ]
]
  where
    one_more :
        (sb : Superblock) (b bi : ℕ) (disk : Disk)
        → in_use sb disk (b + bi) ≡ true
        → (o : Option ℕ) → Scanned sb disk b (bi + 1) (b + bpb) o
        → Scanned sb disk b bi (b + bpb) o
    one_more sb b bi disk used none all = λ j l u s. elim (ℕ_discrete (b + bi) j) [
      | yes here ↦ subst (λ i. in_use sb disk i ≡ true) here used
      | no ne ↦ all j (omega (arith, l, ne)) u s
    ]
    one_more sb b bi disk used (some k) (kb, f) = (
      kb,
      record {
        above = omega (arith, f.above);
        below = f.below;
        fits = f.fits;
        unused = f.unused;
        first = λ j l u. elim (ℕ_discrete (b + bi) j) [
          | yes here ↦ subst (λ i. in_use sb disk i ≡ true) here used
          | no ne ↦ f.first j (omega (arith, l, ne)) u
        ];
      },
    )

-- What `balloc` returns: the first block that is not in use, marked and zeroed, or 0 if there is none.
abbrev pub Allocates : Superblock → Disk → ℕ → ℕ × Disk → Type 0
Allocates sb disk b r =
    ((r ≡ (0, disk)) × AllUsed sb disk b sb.size)
    ⊎ ((c : ℕ) × Finds sb disk b sb.size c × (r ≡ take_block sb (c / bpb * bpb) (c % bpb) disk))

-- A block of the bitmap with no free bit, and what the loop does with those after it.
later_blocks :
    (sb : Superblock) (disk : Disk) (b : ℕ) (r : ℕ × Disk)
    → AllUsed sb disk b (b + bpb)
    → Allocates sb disk (b + bpb) r
    → Allocates sb disk b r
unfolding AllUsed
later_blocks sb disk b r used (inl (none_free, all)) = inl (
  none_free,
  λ j l u s. elim (dec_lt j (b + bpb)) [
    | yes here ↦ used j l here s
    | no there ↦ all j (omega (arith, there)) u s
  ],
)
later_blocks sb disk b r used (inr (c, f, e)) = inr (
  c,
  record {
    above = omega (arith, f.above);
    below = f.below;
    fits = f.fits;
    unused = f.unused;
    first = λ j l u. elim (dec_lt j (b + bpb)) [
      | yes here ↦ used j l here (omega (arith, u, f.fits))
      | no there ↦ f.first j (omega (arith, there)) u
    ];
  },
  e,
)

found_block :
    (sb : Superblock) (disk : Disk) (b bi : ℕ)
    → b % bpb ≡ 0
    → bi < bpb
    → Finds sb disk (b + 0) (b + bpb) (b + bi)
    → Allocates sb disk b (take_block sb b bi disk)
found_block sb disk b bi al h f =
    let q : (b + bi) / bpb * bpb ≡ b = omega (arith, al, h) in
    let r : (b + bi) % bpb ≡ bi = omega (arith, al, h) in
    inr (
      b + bi,
      record {
        above = omega arith;
        below = f.fits;
        fits = f.fits;
        unused = f.unused;
        first = λ j l u. f.first j (omega (arith, l)) u;
      },
      rw (q, r) refl,
    )

balloc_loop_lem :
    (fuel : ℕ) (sb : Superblock) (b : ℕ) (disk : Disk)
    → b % bpb ≡ 0
    → sb.size ≤ b + fuel * bpb
    → Allocates sb disk b (balloc_loop fuel sb b disk)
unfolding balloc_loop AllUsed
balloc_loop_lem zero sb b disk al h = inl (refl, λ j l u s. absurd (omega (arith, h, l, u)))
balloc_loop_lem (suc fuel) sb b disk al h = elim (Bool-cases (ltb b sb.size)) [
  | inr beyond ↦
      rw (balloc_loop, beyond)
        (inl (refl, λ j l u s. absurd (omega (arith, l, u, ltb→le b sb.size beyond))))
  | inl inside ↦
      rw (balloc_loop, inside)
        (next (scan_block bpb sb.size b 0 (disk (bblock b sb)))
          (scan_block_lem bpb sb b 0 disk al (omega arith))
          (balloc_loop_lem fuel sb (b + bpb) disk (omega (arith, al)) (omega (arith, h))))
]
  where
    next :
        (o : Option ℕ)
        → Scanned sb disk b 0 (b + bpb) o
        → Allocates sb disk (b + bpb) (balloc_loop fuel sb (b + bpb) disk)
        → Allocates sb disk b (elim o [
          | some bi ↦ take_block sb b bi disk
          | none ↦ balloc_loop fuel sb (b + bpb) disk
        ])
    next none used rest =
        let here : b + 0 ≡ b = omega arith in
        later_blocks sb disk b _ (subst (λ i. AllUsed sb disk i (b + bpb)) here used) rest
    next (some bi) (h, f) rest = found_block sb disk b bi al h f

pub balloc-Allocates : (sb : Superblock) (disk : Disk) → Allocates sb disk 0 (balloc sb disk)
unfolding balloc
balloc-Allocates sb disk = balloc_loop_lem (sb.size / bpb + 1) sb 0 disk (omega arith) (omega arith)
