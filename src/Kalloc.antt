-- ===== src/Kalloc.antt =====
-- kernel/kalloc.c: the allocator of physical pages. Each function holds `kmem.lock` while it uses
-- the free list, so a call is one step. Memory is read and written as 64-bit words: `mem` holds the
-- word at each address, and `r->next` is the first word of the page at `r`.
pub mod FreeList
pub mod Clients
mod Tests
use ntu_sc2005_xv.Prelude.{
  ℕ, zero, suc, ◌+◌, ◌-◌, ◌*◌, ◌/◌, ◌%◌, not, ◌&&◌, ◌||◌, true, false, Option, none, some, ltb, leb,
  ◌==◌, if◌then◌else◌,
}
use ntu_sc2005_xv.Prelude.Maps.{update}

abbrev pub pgsize : ℕ
pgsize = 4096

-- KERNBASE + 128 MB
abbrev pub phystop : ℕ
phystop = 0x80000000 + 128 * 1024 * 1024

abbrev pub pgroundup : ℕ → ℕ
pgroundup sz = (sz + pgsize - 1) / pgsize * pgsize

pub record Kmem : Type 0 where
  pub freelist : ℕ
  pub mem : ℕ → ℕ

-- `memset(pa, c, PGSIZE)`, for a word `v` made of eight bytes `c`
abbrev pub fill_page : ℕ → ℕ → (ℕ → ℕ) → ℕ → ℕ
fill_page pa v mem a = if leb pa a && ltb a (pa + pgsize) then v else mem a

-- `kend` is the address of the linker's symbol `end`; `none` is a panic.
unfoldable pub kfree : ℕ → ℕ → Kmem → Option Kmem
kfree kend pa k =
    if not (pa % pgsize == 0) || ltb pa kend || leb phystop pa
    then none
    else some (record {
      freelist = pa;
      mem = update (fill_page pa 0x0101010101010101 k.mem) pa k.freelist;
    })

-- The address of the page, or 0.
unfoldable pub kalloc : Kmem → ℕ × Kmem
kalloc k =
    let r = k.freelist in
    if r == 0
    then (r, k)
    else (r, record { freelist = k.mem r; mem = fill_page r 0x0505050505050505 k.mem })

-- The loop of `freerange`, with fuel; it stops by its own test when the fuel suffices.
pub free_loop : ℕ → ℕ → ℕ → ℕ → Kmem → Option Kmem
free_loop kend zero p pa_end k = some k
free_loop kend (suc fuel) p pa_end k = elim (leb (p + pgsize) pa_end) [
  | true ↦ elim (kfree kend p k) [
    | none ↦ none
    | some k' ↦ free_loop kend fuel (p + pgsize) pa_end k'
  ]
  | false ↦ some k
]

pub freerange : ℕ → ℕ → ℕ → Kmem → Option Kmem
freerange kend pa_start pa_end k = free_loop kend (pa_end / pgsize) (pgroundup pa_start) pa_end k

-- At boot `kmem.freelist` is 0, and memory holds anything.
pub kinit : ℕ → (ℕ → ℕ) → Option Kmem
kinit kend mem = freerange kend kend phystop (record { freelist = 0; mem = mem })
