-- ===== src/Blocks/Alloc.antt =====
-- What balloc and bfree of kernel/fs.c change: one block.
use mathlib.Core.Bool.{false≢true}
use ntu_sc2005_xv.Prelude.{
  ℕ, ◌+◌, ◌*◌, ◌/◌, ◌%◌, ◌<◌, ◌≡◌, ◌≢◌, ◌⊎◌, refl, sym, ap, subst, ◌∙◌, true, false, not, inl, inr,
  Bool-cases, none, some, ltb, if◌then◌else◌, arith, ℕ_discrete,
}
use ntu_sc2005_xv.Prelude.Maps.{update, update_ne, update_self}
use ntu_sc2005_xv.Blocks.{
  Disk, bsize, bpb, Superblock, bblock, test_bit, set_bit, clear_bit, bzero, take_block, balloc,
  bfree,
}
use ntu_sc2005_xv.Blocks.Bits.{test-set_bit, test-set_bit_ne, test-clear_bit, test-clear_bit_ne}
use ntu_sc2005_xv.Blocks.Bitmap.{in_use, Finds, AllUsed, balloc-Allocates}

-- The disk with the bits of block `b` changed.
abbrev pub with_byte : Superblock → ℕ → ℕ → Disk → Disk
with_byte sb b w disk = update disk (bblock b sb) (update (disk (bblock b sb)) (b % bpb / 8) w)

abbrev pub byte_of : Superblock → ℕ → Disk → ℕ
byte_of sb b disk = disk (bblock b sb) (b % bpb / 8)

with_byte_self :
    (sb : Superblock) (b w : ℕ) (disk : Disk) → byte_of sb b (with_byte sb b w disk) ≡ w
with_byte_self sb b w disk =
    ap (λ (m : ℕ → ℕ). m (b % bpb / 8))
      (update_self disk (bblock b sb) (update (disk (bblock b sb)) (b % bpb / 8) w))
    ∙ update_self (disk (bblock b sb)) (b % bpb / 8) w

-- Another block has another bit: its bit changes only with a byte that holds both.
with_byte_ne :
    (sb : Superblock) (b j w : ℕ) (disk : Disk)
    → b ≢ j
    → (b % 8 ≢ j % 8 → test_bit (j % 8) w ≡ test_bit (j % 8) (byte_of sb b disk))
    → in_use sb (with_byte sb b w disk) j ≡ in_use sb disk j
unfolding in_use
with_byte_ne sb b j w disk ne bit = elim (ℕ_discrete (bblock b sb) (bblock j sb)) [
  | no other ↦
      ap (λ (m : ℕ → ℕ). test_bit (j % 8) (m (j % bpb / 8)))
        (update_ne disk (bblock b sb) (bblock j sb) new other)
  | yes block ↦
      let here : with_byte sb b w disk (bblock j sb) (j % bpb / 8) ≡ new (j % bpb / 8) =
        subst (λ c. with_byte sb b w disk c (j % bpb / 8) ≡ new (j % bpb / 8)) block
          (ap (λ (m : ℕ → ℕ). m (j % bpb / 8)) (update_self disk (bblock b sb) new)) in
      elim (ℕ_discrete (b % bpb / 8) (j % bpb / 8)) [
        | no other ↦ ap (test_bit (j % 8)) (
            here
            ∙ update_ne (disk (bblock b sb)) (b % bpb / 8) (j % bpb / 8) w other
            ∙ ap (λ c. disk c (j % bpb / 8)) block)
        | yes byte ↦
            let apart : b % 8 ≢ j % 8 = λ r. ne (omega (arith, block, byte, r)) in
            let now : new (j % bpb / 8) ≡ w =
              subst (λ i. new i ≡ w) byte (update_self (disk (bblock b sb)) (b % bpb / 8) w) in
            let before : byte_of sb b disk ≡ disk (bblock j sb) (j % bpb / 8) =
              ap (λ c. disk c (b % bpb / 8)) block ∙ ap (disk (bblock j sb)) byte in
            ap (test_bit (j % 8)) (here ∙ now) ∙ bit apart ∙ ap (test_bit (j % 8)) before
      ]
]
  where
    new : ℕ → ℕ
    new = update (disk (bblock b sb)) (b % bpb / 8) w

-- A block of the bitmap that stays the same.
bzero-in_use :
    (sb : Superblock) (c j : ℕ) (disk : Disk)
    → c ≢ bblock j sb
    → in_use sb (bzero c disk) j ≡ in_use sb disk j
unfolding in_use bzero
bzero-in_use sb c j disk ne =
    ap (λ (m : ℕ → ℕ). test_bit (j % 8) (m (j % bpb / 8))) (update_ne disk c (bblock j sb) _ ne)

-- The blocks that no file may have, the boot block and the bitmap, are marked as in use.
pub record IsReserved (sb : Superblock) (disk : Disk) : Type 0 where
  pub boot : in_use sb disk 0 ≡ true
  pub bitmap : (b : ℕ) → b < sb.size → in_use sb disk (bblock b sb) ≡ true

-- What marking and zeroing block `c` changes.
pub record Takes (sb : Superblock) (disk : Disk) (c : ℕ) (disk' : Disk) : Type 0 where
  pub marked : in_use sb disk' c ≡ true
  pub others : (j : ℕ) → j < sb.size → c ≢ j → in_use sb disk' j ≡ in_use sb disk j
  pub zeroed : (i : ℕ) → i < bsize → disk' c i ≡ 0
  pub kept : (b i : ℕ) → b ≢ c → b ≢ bblock c sb → disk' b i ≡ disk b i

take_block_eq :
    (sb : Superblock) (c : ℕ) (disk : Disk)
    → take_block sb (c / bpb * bpb) (c % bpb) disk
      ≡ (c, bzero c (with_byte sb c (set_bit (c % 8) (byte_of sb c disk)) disk))
unfolding take_block
take_block_eq sb c disk =
    let whole : c / bpb * bpb + c % bpb ≡ c = omega arith in
    let block : c / bpb * bpb / bpb ≡ c / bpb = omega arith in
    let bit : c % bpb % 8 ≡ c % 8 = omega arith in rw (take_block, whole, block, bit) refl

marks :
    (sb : Superblock) (c : ℕ) (disk : Disk)
    → in_use sb (with_byte sb c (set_bit (c % 8) (byte_of sb c disk)) disk) c ≡ true
unfolding in_use
marks sb c disk =
    ap (test_bit (c % 8)) (with_byte_self sb c (set_bit (c % 8) (byte_of sb c disk)) disk)
    ∙ test-set_bit (c % 8) (byte_of sb c disk)

clears :
    (sb : Superblock) (b : ℕ) (disk : Disk)
    → in_use sb (with_byte sb b (clear_bit (b % 8) (byte_of sb b disk)) disk) b ≡ false
unfolding in_use
clears sb b disk =
    ap (test_bit (b % 8)) (with_byte_self sb b (clear_bit (b % 8) (byte_of sb b disk)) disk)
    ∙ test-clear_bit (b % 8) (byte_of sb b disk)

bzero-zero : (c : ℕ) (disk : Disk) (i : ℕ) → i < bsize → bzero c disk c i ≡ 0
unfolding bzero
bzero-zero c disk i h =
    ap (λ (m : ℕ → ℕ). m i) (update_self disk c (λ i. if ltb i bsize then 0 else disk c i))
    ∙ ground (arith, h)

bzero-kept : (c b i : ℕ) (disk : Disk) → b ≢ c → bzero c disk b i ≡ disk b i
unfolding bzero
bzero-kept c b i disk ne = ap (λ (m : ℕ → ℕ). m i) (update_ne disk c b _ (λ e. ne (sym e)))

bfree_eq :
    (sb : Superblock) (b : ℕ) (disk : Disk)
    → bfree sb b disk ≡ (
        if not (in_use sb disk b)
        then none
        else some (with_byte sb b (clear_bit (b % 8) (byte_of sb b disk)) disk))
unfolding bfree in_use
bfree_eq sb b disk = let bit : b % bpb % 8 ≡ b % 8 = omega arith in rw (bfree, bit) refl

take_block_lem :
    (sb : Superblock) (c : ℕ) (disk : Disk)
    → c < sb.size
    → in_use sb disk c ≡ false
    → IsReserved sb disk
    → ((take_block sb (c / bpb * bpb) (c % bpb) disk).0 ≡ c)
      × Takes sb disk c (take_block sb (c / bpb * bpb) (c % bpb) disk).1
take_block_lem sb c disk h free r =
    let apart : (j : ℕ) → j < sb.size → c ≢ bblock j sb = λ j hj same.
      false≢true (sym free ∙ subst (λ i. in_use sb disk i ≡ true) (sym same) (r.bitmap j hj)) in
    let w = set_bit (c % 8) (byte_of sb c disk) in
    let d = with_byte sb c w disk in
    subst (λ (r : ℕ × Disk). (r.0 ≡ c) × Takes sb disk c r.1) (sym (take_block_eq sb c disk))
      (
        refl,
        record {
          marked = bzero-in_use sb c c d (apart c h) ∙ marks sb c disk;
          others = λ j hj ne.
              bzero-in_use sb c j d (apart j hj)
              ∙ with_byte_ne sb c j w disk ne
                  (λ bits. test-set_bit_ne (c % 8) (j % 8) (byte_of sb c disk) bits);
          zeroed = bzero-zero c d;
          kept = λ b i ne ne'.
              bzero-kept c b i d ne
              ∙ ap (λ (m : ℕ → ℕ). m i) (update_ne disk (bblock c sb) b _ (λ e. ne' (sym e)));
        },
      )

-- balloc on a disk whose boot block and bitmap are in use returns the first block that is not in use,
-- never 0: it marks this block, fills it with zeros, and changes the mark of no other block and
-- nothing else on the disk. It returns 0, and changes nothing, exactly when all blocks are in use.
pub balloc_lem :
    (sb : Superblock) (disk : Disk)
    → IsReserved sb disk
    → ((balloc sb disk ≡ (0, disk)) × AllUsed sb disk 0 sb.size)
      ⊎ ((c : ℕ) × Finds sb disk 0 sb.size c
          × (c ≢ 0)
          × ((balloc sb disk).0 ≡ c)
          × Takes sb disk c (balloc sb disk).1)
balloc_lem sb disk r = elim (balloc-Allocates sb disk) [
  | inl all ↦ inl all
  | inr (c, f, e) ↦
      let (at, t) = take_block_lem sb c disk f.fits f.unused r in
      inr (
        c,
        f,
        (λ z. false≢true (sym f.unused ∙ subst (λ i. in_use sb disk i ≡ true) (sym z) r.boot)),
        ap (λ (r : ℕ × Disk). r.0) e ∙ at,
        subst (λ (r : ℕ × Disk). Takes sb disk c r.1) (sym e) t,
      )
]

-- bfree of a block that is in use clears its mark, and no other; it panics on any other block.
pub bfree_lem :
    (sb : Superblock) (b : ℕ) (disk : Disk)
    → ((in_use sb disk b ≡ false) × (bfree sb b disk ≡ none))
      ⊎ ((in_use sb disk b ≡ true)
          × ((disk' : Disk) × (bfree sb b disk ≡ some disk')
              × (in_use sb disk' b ≡ false)
              × ((j : ℕ) → b ≢ j → in_use sb disk' j ≡ in_use sb disk j)
              × ((c i : ℕ) → c ≢ bblock b sb → disk' c i ≡ disk c i)))
bfree_lem sb b disk = elim (Bool-cases (in_use sb disk b)) [
  | inr free ↦ inl (free, bfree_eq sb b disk ∙ rw free refl)
  | inl used ↦
      let w = clear_bit (b % 8) (byte_of sb b disk) in
      inr (
        used,
        (
          with_byte sb b w disk,
          bfree_eq sb b disk ∙ rw used refl,
          clears sb b disk,
          λ j ne.
              with_byte_ne sb b j w disk ne
                (λ bits. test-clear_bit_ne (b % 8) (j % 8) (byte_of sb b disk) bits),
          λ c i ne. ap (λ (m : ℕ → ℕ). m i) (update_ne disk (bblock b sb) c _ (λ e. ne (sym e))),
        ),
      )
]
