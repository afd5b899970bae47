-- ===== src/Vm.antt =====
-- kernel/vm.c and the page-table macros of kernel/riscv.h: Sv39 page tables in the memory of
-- kernel/kalloc.c, a word at each address. This file has the walk and the mappings.
pub mod Tree
pub mod Grow
pub mod Walk
pub mod Lookup
pub mod Entry
pub mod Mapping
pub mod Translate
pub mod Chunks
pub mod Strings
pub mod Create
pub mod Agree
pub mod Owned
pub mod Release
pub mod Claim
pub mod Resize
pub mod Enlarge
mod Tests
pub mod Space
pub mod Copy
use ntu_sc2005_xv.Prelude.{
  ℕ, zero, suc, ◌+◌, ◌-◌, ◌*◌, ◌/◌, ◌%◌, ◌^◌, Bool, true, false, not, ◌&&◌, Option, none, some, ltb,
  leb, ◌==◌, if◌then◌else◌,
}
use ntu_sc2005_xv.Prelude.Maps.{update}
use ntu_sc2005_xv.Prelude.Int.{ℤ, pos, negsuc, minus_one, u64}
use ntu_sc2005_xv.Kalloc.{pgsize, Kmem, fill_page, kalloc, kfree}

-- 1L << (9 + 9 + 9 + 12 - 1)
abbrev pub maxva : ℕ
maxva = 2 ^ 38

abbrev pub pgrounddown : ℕ → ℕ
pgrounddown a = a / pgsize * pgsize

-- The flags of a page-table entry.
abbrev pub pte_v : ℕ → Bool
pte_v pte = pte % 2 == 1

abbrev pub pte_r : ℕ → Bool
pte_r pte = pte / 2 % 2 == 1

abbrev pub pte_w : ℕ → Bool
pte_w pte = pte / 4 % 2 == 1

abbrev pub pte_x : ℕ → Bool
pte_x pte = pte / 8 % 2 == 1

abbrev pub pte_u : ℕ → Bool
pte_u pte = pte / 16 % 2 == 1

abbrev pub pa2pte : ℕ → ℕ
pa2pte pa = u64 (pa / 2 ^ 12 * 2 ^ 10)

abbrev pub pte2pa : ℕ → ℕ
pte2pa pte = u64 (pte / 2 ^ 10 * 2 ^ 12)

abbrev pub pte_flags : ℕ → ℕ
pte_flags pte = pte % 1024

-- `flags | PTE_V`
abbrev pub or_pte_v : ℕ → ℕ
or_pte_v flags = if flags % 2 == 1 then flags else flags + 1

abbrev pub pxshift : ℕ → ℕ
pxshift level = 12 + 9 * level

abbrev pub px : ℕ → ℕ → ℕ
px level va = va / 2 ^ pxshift level % 512

-- `&pagetable[i]`
abbrev pub entry : ℕ → ℕ → ℕ
entry pagetable i = pagetable + 8 * i

-- What `walk` does with the page that kalloc returned, or 0, for the entry at `pte`.
abbrev pub new_table : ℕ → ℕ × Kmem → Option ℕ × Kmem
new_table pte (page, k) = if page == 0 then (none, k) else (
  some page,
  record k { mem = update (fill_page page 0 k.mem) pte (or_pte_v (pa2pte page)) },
)

-- One round of the loop of `walk`: the next table.
abbrev pub next_table : ℕ → Bool → Kmem → Option ℕ × Kmem
next_table pte alloc k =
    if pte_v (k.mem pte)
    then (some (pte2pa (k.mem pte)), k)
    else if not alloc
    then (none, k)
    else new_table pte (kalloc k)

unfoldable pub walk_loop : ℕ → ℕ → ℕ → Bool → Kmem → Option ℕ × Kmem
walk_loop zero pagetable va alloc k = (some (entry pagetable (px 0 va)), k)
walk_loop (suc level) pagetable va alloc k =
    let (table, k') = next_table (entry pagetable (px (suc level) va)) alloc k in
    elim table [ none ↦ (none, k') | some pagetable' ↦ walk_loop level pagetable' va alloc k' ]

-- The address of the entry, or a null pointer; `none` in front is a panic.
unfoldable pub walk : ℕ → ℕ → Bool → Kmem → Option (Option ℕ × Kmem)
walk pagetable va alloc k = if leb maxva va then none else some (walk_loop 2 pagetable va alloc k)

-- The tests of `walkaddr` on what `walk` returned.
abbrev pub user_pa : Option (Option ℕ × Kmem) → ℕ
user_pa none = 0
user_pa (some (none, k)) = 0
user_pa (some (some pte, k)) =
    if not (pte_v (k.mem pte)) then 0 else if not (pte_u (k.mem pte)) then 0 else pte2pa (k.mem pte)

unfoldable pub walkaddr : ℕ → ℕ → Kmem → ℕ
walkaddr pagetable va k = if leb maxva va then 0 else user_pa (walk pagetable va false k)

-- `*pte = PA2PTE(pa) | perm | PTE_V;` for `perm` below 1024, if the entry is not in use
abbrev pub set_pte : ℕ → ℕ → Option ℕ × Kmem → Option (ℤ × Kmem)
set_pte pa perm (none, k) = some (minus_one, k)
set_pte pa perm (some pte, k) =
    if pte_v (k.mem pte)
    then none
    else some (pos 0, record k { mem = update k.mem pte (pa2pte pa + or_pte_v perm) })

-- One round of the loop of `mappages`.
unfoldable pub map_page : ℕ → ℕ → ℕ → ℕ → Kmem → Option (ℤ × Kmem)
map_page pagetable a pa perm k = elim (walk pagetable a true k) [
  | none ↦ none
  | some r ↦ set_pte pa perm r
]

-- The loop of `mappages`, with fuel for its rounds.
unfoldable pub map_loop : ℕ → ℕ → ℕ → ℕ → ℕ → ℕ → Kmem → Option (ℤ × Kmem)
map_loop zero pagetable a last pa perm k = some (pos 0, k)
map_loop (suc fuel) pagetable a last pa perm k = elim (map_page pagetable a pa perm k) [
  | none ↦ none
  | some (negsuc e, k') ↦ some (negsuc e, k')
  | some (pos r, k') ↦ elim (a == last) [
    | true ↦ some (pos 0, k')
    | false ↦ map_loop fuel pagetable (u64 (a + pgsize)) last (u64 (pa + pgsize)) perm k'
  ]
]

unfoldable pub mappages : ℕ → ℕ → ℕ → ℕ → ℕ → Kmem → Option (ℤ × Kmem)
mappages pagetable va size pa perm k =
    if not (va % pgsize == 0)
    then none
    else if not (size % pgsize == 0)
    then none
    else if size == 0
    then none
    else map_loop (size / pgsize) pagetable va (u64 (va + size - pgsize)) pa perm k

-- `kfree((void*)pa)` if `do_free` is set, for the entry at `pte`, and `*pte = 0;`
abbrev pub clear_pte : ℕ → ℕ → Bool → Kmem → Option Kmem
clear_pte kend pte do_free k =
    elim (if do_free then kfree kend (pte2pa (k.mem pte)) k else some k) [
      | none ↦ none
      | some k' ↦ some (record k' { mem = update k'.mem pte 0 })
    ]

-- One round of the loop of `uvmunmap`.
unfoldable pub unmap_page : ℕ → ℕ → ℕ → Bool → Kmem → Option Kmem
unmap_page kend pagetable a do_free k = elim (walk pagetable a false k) [
  | none ↦ none
  | some (none, k') ↦ none
  | some (some pte, k') ↦
      if not (pte_v (k'.mem pte))
      then none
      else if pte_flags (k'.mem pte) == 1
      then none
      else clear_pte kend pte do_free k'
]

-- The loop of `uvmunmap`, with fuel for its rounds.
unfoldable pub unmap_loop : ℕ → ℕ → ℕ → ℕ → ℕ → Bool → Kmem → Option Kmem
unmap_loop zero kend pagetable a end do_free k = some k
unmap_loop (suc fuel) kend pagetable a end do_free k = elim (ltb a end) [
  | false ↦ some k
  | true ↦ elim (unmap_page kend pagetable a do_free k) [
    | none ↦ none
    | some k' ↦ unmap_loop fuel kend pagetable (u64 (a + pgsize)) end do_free k'
  ]
]

unfoldable pub uvmunmap : ℕ → ℕ → ℕ → ℕ → Bool → Kmem → Option Kmem
uvmunmap kend pagetable va npages do_free k =
    if not (va % pgsize == 0)
    then none
    else unmap_loop npages kend pagetable va (u64 (va + u64 (npages * pgsize))) do_free k
