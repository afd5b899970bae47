-- ===== src/Blocks/Tests.antt =====
-- The allocator of kernel/fs.c on a disk of 100 blocks, of which the first 48 are in use.
use ntu_sc2005_xv.Prelude.{
  ℕ, ◌<◌, ◌*◌, ◌≡◌, ◌≢◌, ◌⊎◌, refl, subst, arith, true, false, none, some, ltb, ◌==◌, ◌&&◌,
  if◌then◌else◌,
}
use ntu_sc2005_xv.Blocks.{
  Disk, Superblock, bblock, bzero, scan_block, take_block, balloc_loop, balloc, bfree,
}
use ntu_sc2005_xv.Blocks.Bitmap.{in_use, Finds, AllUsed}
use ntu_sc2005_xv.Blocks.Alloc.{IsReserved, Takes, balloc_lem, bfree_lem}

abbrev sb : Superblock
sb = record { size = 100; bmapstart = 45 }

abbrev disk : Disk
disk b i = if b == 45 && ltb i 6 then 0xff else 7 * (if b == 45 then 0 else 1)

disk-IsReserved : IsReserved sb disk
unfolding in_use
disk-IsReserved = record {
  boot = refl;
  bitmap = λ b h. subst (λ c. in_use sb disk c ≡ true) (one_block b h) refl;
}
  where
    one_block : (b : ℕ) → b < 100 → 45 ≡ bblock b sb
    one_block b h = omega (arith, h)

balloc_lem_example :
    ((balloc sb disk ≡ (0, disk)) × AllUsed sb disk 0 sb.size)
    ⊎ ((c : ℕ) × Finds sb disk 0 sb.size c
        × (c ≢ 0)
        × ((balloc sb disk).0 ≡ c)
        × Takes sb disk c (balloc sb disk).1)
balloc_lem_example = balloc_lem sb disk disk-IsReserved

takes_48 : ((balloc sb disk).0 ≡ 48) × ((balloc sb disk).1 48 3 ≡ 0)
unfolding balloc balloc_loop scan_block take_block bzero
takes_48 = (refl, refl)

bfree_lem_example :
    ((in_use sb disk 47 ≡ false) × (bfree sb 47 disk ≡ none))
    ⊎ ((in_use sb disk 47 ≡ true)
        × ((disk' : Disk) × (bfree sb 47 disk ≡ some disk')
            × (in_use sb disk' 47 ≡ false)
            × ((j : ℕ) → 47 ≢ j → in_use sb disk' j ≡ in_use sb disk j)
            × ((c i : ℕ) → c ≢ bblock 47 sb → disk' c i ≡ disk c i)))
bfree_lem_example = bfree_lem sb 47 disk

panics : bfree sb 48 disk ≡ none
unfolding bfree
panics = refl
