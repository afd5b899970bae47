-- ===== src/Vm/Space.antt =====
-- The user address spaces of kernel/vm.c: creating, growing, shrinking, copying and freeing them.
use ntu_sc2005_xv.Prelude.{
  ℕ, zero, suc, ◌+◌, ◌-◌, ◌/◌, ◌%◌, ◌^◌, Bool, true, false, not, ◌&&◌, ◌||◌, Option, none, some,
  ltb, leb, ◌==◌, if◌then◌else◌,
}
use ntu_sc2005_xv.Prelude.Maps.{update}
use ntu_sc2005_xv.Prelude.Int.{ℤ, pos, negsuc, minus_one, u64}
use ntu_sc2005_xv.Kalloc.{pgsize, Kmem, fill_page, kalloc, kfree}
use ntu_sc2005_xv.Vm.{
  pgrounddown, pte_v, pte_r, pte_w, pte_x, pte_u, pte2pa, pte_flags, entry, walk, mappages,
  uvmunmap,
}

-- PGROUNDUP of a 64-bit size
abbrev pub pgroundup64 : ℕ → ℕ
pgroundup64 sz = pgrounddown (u64 (sz + pgsize - 1))

-- The 64-bit argument that an `int` becomes.
abbrev pub int_arg : ℕ → ℕ
int_arg n = if ltb (n % 2 ^ 32) (2 ^ 31) then n % 2 ^ 32 else 2 ^ 64 - 2 ^ 32 + n % 2 ^ 32

abbrev pub zero_page : ℕ → Kmem → Kmem
zero_page page k = record k { mem = fill_page page 0 k.mem }

unfoldable pub uvmcreate : Kmem → ℕ × Kmem
uvmcreate k = let (page, k') = kalloc k in if page == 0 then (0, k') else (page, zero_page page k')

unfoldable pub uvmdealloc : ℕ → ℕ → ℕ → ℕ → Kmem → Option (ℕ × Kmem)
uvmdealloc kend pagetable oldsz newsz k =
    if leb oldsz newsz
    then some (oldsz, k)
    else elim (if ltb (pgroundup64 newsz) (pgroundup64 oldsz)
        then uvmunmap kend pagetable (pgroundup64 newsz)
            (int_arg ((pgroundup64 oldsz - pgroundup64 newsz) / pgsize)) true k
        else some k) [ none ↦ none | some k' ↦ some (newsz, k') ]

-- `uvmdealloc(pagetable, a, oldsz); return 0;`
abbrev pub give_up : ℕ → ℕ → ℕ → ℕ → Kmem → Option (ℕ × Kmem)
give_up kend pagetable a oldsz k = elim (uvmdealloc kend pagetable a oldsz k) [
  | none ↦ none
  | some (r, k') ↦ some (0, k')
]

-- One round of the loop of `uvmalloc`: whether the page at `a` was mapped.
unfoldable pub alloc_page : ℕ → ℕ → ℕ → ℕ → Kmem → Option (Bool × Kmem)
alloc_page kend pagetable a perm k =
    let (page, k') = kalloc k in
    if page == 0
    then some (false, k')
    else elim (mappages pagetable a pgsize page perm (zero_page page k')) [
      | none ↦ none
      | some (pos r, k'') ↦ some (true, k'')
      | some (negsuc e, k'') ↦ elim (kfree kend page k'') [
        | none ↦ none
        | some freed ↦ some (false, freed)
      ]
    ]

-- The loop of `uvmalloc`, with fuel for its rounds; `oldsz` is rounded up.
unfoldable pub grow_loop : ℕ → ℕ → ℕ → ℕ → ℕ → ℕ → ℕ → Kmem → Option (ℕ × Kmem)
grow_loop zero kend pagetable oldsz a newsz perm k = some (newsz, k)
grow_loop (suc fuel) kend pagetable oldsz a newsz perm k = elim (ltb a newsz) [
  | false ↦ some (newsz, k)
  | true ↦ elim (alloc_page kend pagetable a perm k) [
    | none ↦ none
    | some (false, k') ↦ give_up kend pagetable a oldsz k'
    | some (true, k') ↦ grow_loop fuel kend pagetable oldsz (u64 (a + pgsize)) newsz perm k'
  ]
]

-- `perm` is `PTE_R|PTE_U|xperm`.
unfoldable pub uvmalloc : ℕ → ℕ → ℕ → ℕ → ℕ → Kmem → Option (ℕ × Kmem)
uvmalloc kend pagetable oldsz newsz perm k =
    if ltb newsz oldsz
    then some (oldsz, k)
    else grow_loop (newsz / pgsize + 1) kend pagetable (pgroundup64 oldsz) (pgroundup64 oldsz) newsz
        perm k

-- One round of the loop of `freewalk`, for entry `i`, with `free_child` for the call of itself.
abbrev pub free_entry : (ℕ → Kmem → Option Kmem) → ℕ → ℕ → Kmem → Option Kmem
free_entry free_child pagetable i k =
    let pte = k.mem (entry pagetable i) in
    if pte_v pte && not (pte_r pte || pte_w pte || pte_x pte)
    then elim (free_child (pte2pa pte) k) [
      | none ↦ none
      | some k' ↦ some (record k' { mem = update k'.mem (entry pagetable i) 0 })
    ]
    else if pte_v pte
    then none
    else some k

-- The loop of `freewalk`, from entry `i` on, `n` of them.
pub free_entries : (ℕ → Kmem → Option Kmem) → ℕ → ℕ → ℕ → Kmem → Option Kmem
free_entries free_child zero pagetable i k = some k
free_entries free_child (suc n) pagetable i k = elim (free_entry free_child pagetable i k) [
  | none ↦ none
  | some k' ↦ free_entries free_child n pagetable (i + 1) k'
]

-- `freewalk` of a table with `depth` levels of tables below it. A table of the last level points
-- to no table; if it does all the same, that is taken for a panic.
pub freewalk : ℕ → ℕ → ℕ → Kmem → Option Kmem
freewalk zero kend pagetable k = elim (free_entries (λ child k'. none) 512 pagetable 0 k) [
  | none ↦ none
  | some k' ↦ kfree kend pagetable k'
]
freewalk (suc depth) kend pagetable k =
    elim (free_entries (λ child k'. freewalk depth kend child k') 512 pagetable 0 k) [
      | none ↦ none
      | some k' ↦ kfree kend pagetable k'
    ]

pub uvmfree : ℕ → ℕ → ℕ → Kmem → Option Kmem
uvmfree kend pagetable sz k =
    elim (if ltb 0 sz then uvmunmap kend pagetable 0 (pgroundup64 sz / pgsize) true k else some k) [
      | none ↦ none
      | some k' ↦ freewalk 2 kend pagetable k'
    ]

-- `memmove` of a page, word by word: two pages are equal or apart.
abbrev pub copy_page : ℕ → ℕ → Kmem → Kmem
copy_page to from k = record k {
  mem = λ a. if leb to a && ltb a (to + pgsize) then k.mem (from + (a - to)) else k.mem a;
}

-- One round of the loop of `uvmcopy`, after its tests: whether the page was copied.
abbrev pub copy_to : ℕ → ℕ → ℕ → ℕ → Kmem → Option (Bool × Kmem)
copy_to kend new i pte k =
    let (page, k') = kalloc k in
    if page == 0
    then some (false, k')
    else elim (mappages new i pgsize page (pte_flags pte) (copy_page page (pte2pa pte) k')) [
      | none ↦ none
      | some (pos r, k'') ↦ some (true, k'')
      | some (negsuc e, k'') ↦ elim (kfree kend page k'') [
        | none ↦ none
        | some freed ↦ some (false, freed)
      ]
    ]

pub share_page : ℕ → ℕ → ℕ → ℕ → Kmem → Option (Bool × Kmem)
share_page kend old new i k = elim (walk old i false k) [
  | none ↦ none
  | some (none, k') ↦ none
  | some (some pte, k') ↦
      if not (pte_v (k'.mem pte)) then none else copy_to kend new i (k'.mem pte) k'
]

-- The loop of `uvmcopy` and what it does at `err`, with fuel for its rounds.
pub copy_loop : ℕ → ℕ → ℕ → ℕ → ℕ → ℕ → Kmem → Option (ℤ × Kmem)
copy_loop zero kend old new i sz k = some (pos 0, k)
copy_loop (suc fuel) kend old new i sz k = elim (ltb i sz) [
  | false ↦ some (pos 0, k)
  | true ↦ elim (share_page kend old new i k) [
    | none ↦ none
    | some (false, k') ↦ elim (uvmunmap kend new 0 (i / pgsize) true k') [
      | none ↦ none
      | some k'' ↦ some (minus_one, k'')
    ]
    | some (true, k') ↦ copy_loop fuel kend old new (u64 (i + pgsize)) sz k'
  ]
]

pub uvmcopy : ℕ → ℕ → ℕ → ℕ → Kmem → Option (ℤ × Kmem)
uvmcopy kend old new sz k = copy_loop (sz / pgsize + 1) kend old new 0 sz k

-- `*pte &= ~PTE_U;`
pub uvmclear : ℕ → ℕ → Kmem → Option Kmem
uvmclear pagetable va k = elim (walk pagetable va false k) [
  | none ↦ none
  | some (none, k') ↦ none
  | some (some pte, k') ↦
      let w = k'.mem pte in
      some (record k' { mem = update k'.mem pte (if pte_u w then w - 16 else w) })
]
