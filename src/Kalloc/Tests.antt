-- ===== src/Kalloc/Tests.antt =====
-- The allocator of kernel/kalloc.c with the last three pages of memory.
use ntu_sc2005_xv.Prelude.{
  count, ℕ, ◌+◌, ◌-◌, ◌*◌, ◌≡◌, ◌≢◌, refl, some, List, if◌then◌else◌, arith,
}
use ntu_sc2005_xv.Kalloc.{phystop, Kmem, kfree, kalloc, freerange, free_loop, kinit}
use ntu_sc2005_xv.Kalloc.FreeList.{IsValid}
use ntu_sc2005_xv.Kalloc.Clients.{System, alloc, Reach, boot, next, is_free_page, partition}

-- The kernel ends a little before the last three pages.
abbrev kend : ℕ
kend = phystop - 3 * 4096 - 100

abbrev dirty : ℕ → ℕ
dirty _ = 7

booted : (k : Kmem) × (kinit kend dirty ≡ some k)
unfolding kinit freerange free_loop kfree
booted = (_, refl)

-- One page is handed out, the last of memory.
one_out : (s : System) × Reach kend dirty s × (count (phystop - 4096) s.used ≢ 0)
unfolding booted kalloc
one_out = (_, next (boot booted.1) alloc, omega arith)

partition_example :
    (xs : List ℕ) × IsValid kend one_out.0.kmem xs
    × ((a : ℕ) → count a xs + count a one_out.0.used ≡ (if is_free_page kend a then 1 else 0))
partition_example = partition (omega arith) (omega arith) one_out.1
