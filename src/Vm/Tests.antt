-- ===== src/Vm/Tests.antt =====
-- kernel/vm.c with five pages of free memory: a page table, and two pages mapped in it.
use ntu_sc2005_xv.Prelude.{
  Option, none, List, ap, sym, ◌∙◌, ◌^◌, inl, inr, ℕ, ◌<◌, ◌+◌, ◌-◌, ◌*◌, ◌/◌, ◌≡◌, refl, arith,
  some, [], ◌∷◌, ◌==◌, leb, ltb, ◌&&◌, if◌then◌else◌,
}
use ntu_sc2005_xv.Prelude.Int.{ℤ, pos, minus_one}
use ntu_sc2005_xv.Kalloc.{pgsize, phystop, Kmem, kalloc, kfree}
use ntu_sc2005_xv.Kalloc.FreeList.{IsPage, IsValid}
use ntu_sc2005_xv.Vm.{
  uvmunmap, unmap_loop, unmap_page, walk_loop, walk, walkaddr, map_page, map_loop, mappages,
}
use ntu_sc2005_xv.Vm.Tree.{leaf}
use ntu_sc2005_xv.Vm.Walk.{IsSpace}
use ntu_sc2005_xv.Vm.Mapping.{Unused, Maps, mappages_lem}
use ntu_sc2005_xv.Vm.Translate.{walkaddr-mappages}
use ntu_sc2005_xv.Vm.Space.{uvmcreate, uvmalloc, uvmdealloc, grow_loop, alloc_page}
use ntu_sc2005_xv.Vm.Owned.{Owns, upto, no_pages}
use ntu_sc2005_xv.Vm.Release.{Shrinks}
use ntu_sc2005_xv.Vm.Resize.{pages, uvmdealloc_lem}
use ntu_sc2005_xv.Vm.Enlarge.{uvmalloc_lem}
use ntu_sc2005_xv.Vm.Create.{uvmcreate_lem}
use ntu_sc2005_xv.Vm.Copy.{copyin, copyin_loop, load, copyinstr, copyinstr_loop, string_bytes}
use ntu_sc2005_xv.Vm.Chunks.{copy_bytes, copyin_lem}
use ntu_sc2005_xv.Vm.Strings.{copy_string, copyinstr_lem}

abbrev kend : ℕ
kend = phystop - 5 * 4096

abbrev page : ℕ → ℕ
page i = kend + i * 4096

abbrev links : ℕ → ℕ
links a =
    if a == page 0
    then page 1
    else if a == page 1
    then page 2
    else if a == page 2
    then page 3
    else if a == page 3
    then page 4
    else 0

abbrev five_free : Kmem
five_free = record { freelist = page 0; mem = links }

a_page : (i : ℕ) → i < 5 → IsPage kend (page i)
a_page i h = record { aligned = omega arith; above = omega arith; below = omega (arith, h) }

five_free-IsValid : IsValid kend five_free (page 0 ∷ page 1 ∷ page 2 ∷ page 3 ∷ page 4 ∷ [])
five_free-IsValid = record {
  linked = (
    refl,
    omega arith,
    (refl, omega arith, (refl, omega arith, (refl, omega arith, (refl, omega arith, refl)))),
  );
  pages = (
    a_page 0 (omega arith),
    (
      a_page 1 (omega arith),
      (a_page 2 (omega arith), (a_page 3 (omega arith), (a_page 4 (omega arith), tt))),
    ),
  );
  distinct = (
    (omega arith, (omega arith, (omega arith, (omega arith, tt)))),
    (
      (omega arith, (omega arith, (omega arith, tt))),
      ((omega arith, (omega arith, tt)), ((omega arith, tt), (tt, tt))),
    ),
  );
}

-- uvmcreate takes the first page.
root : ℕ
root = page 0

created : Kmem
created = (uvmcreate five_free).1

abbrev free_pages : List ℕ
free_pages = page 1 ∷ page 2 ∷ page 3 ∷ page 4 ∷ []

first_page :
    ((uvmcreate five_free).0 ≡ page 0)
    × IsSpace kend (page 0) (uvmcreate five_free).1 free_pages
    × ((vpn : ℕ) → leaf (uvmcreate five_free).1.mem (page 0) vpn ≡ 0)
first_page = uvmcreate_lem kend (page 0) free_pages five_free five_free-IsValid

created-IsSpace : IsSpace kend root created free_pages
unfolding root created
created-IsSpace = first_page.1

no_leaves : (vpn : ℕ) → leaf created.mem root vpn ≡ 0
unfolding root created
no_leaves = first_page.2

created-Unused : (n vpn : ℕ) → Unused (leaf created.mem root) vpn n
unfolding Unused root created
created-Unused n vpn j l h = rw (first_page.2 j) refl

-- PTE_W | PTE_R | PTE_U, at the virtual page 5
mappages_lem_example :
    (r : ℤ × Kmem) × (mappages root (5 * pgsize) (2 * pgsize) 0x87000000 22 created ≡ some r)
    × Maps kend root 2 5 0x87000000 22 free_pages created r
mappages_lem_example =
    mappages_lem kend root 2 5 0x87000000 22 free_pages created (omega arith) (omega arith)
      (omega arith) created-IsSpace (created-Unused 2 5)

two_pages :
    (k : Kmem) × (mappages root (5 * pgsize) (2 * pgsize) 0x87000000 22 created ≡ some (pos 0, k))
unfolding mappages map_loop map_page walk walk_loop created root uvmcreate kalloc
two_pages = (_, refl)

walkaddr-mappages_example : walkaddr root (6 * 4096 + 100) two_pages.0 ≡ (
    if leb 5 ((6 * 4096 + 100) / pgsize) && ltb ((6 * 4096 + 100) / pgsize) (5 + 2)
    then 0x87000000 + ((6 * 4096 + 100) / pgsize - 5) * pgsize
    else walkaddr root (6 * 4096 + 100) created)
walkaddr-mappages_example =
    walkaddr-mappages kend root 2 5 0x87000000 22 free_pages created two_pages.0 (omega arith)
      (omega arith) (omega arith) (omega arith) (omega arith) refl created-IsSpace
      (created-Unused 2 5) two_pages.1 (6 * 4096 + 100)

copyin_lem_example :
    copyin root (5 * 4096 + 4090) 10 two_pages.0 ≡ copy_bytes root (5 * 4096 + 4090) 10 two_pages.0
copyin_lem_example = copyin_lem root (5 * 4096 + 4090) 10 two_pages.0

-- Ten bytes, the last four of them from the second page; and the seventh page is not mapped.
copyin_runs : (copyin root (5 * 4096 + 4090) 10 two_pages.0).0 ≡ pos 0
unfolding copyin copyin_loop walkaddr mappages map_loop map_page walk walk_loop two_pages created
    root uvmcreate kalloc
copyin_runs = refl

copyin_fails : (copyin root (6 * 4096 + 4090) 10 two_pages.0).0 ≡ minus_one
unfolding copyin copyin_loop walkaddr mappages map_loop map_page walk walk_loop two_pages created
    root uvmcreate kalloc
copyin_fails = refl

copyinstr_lem_example :
    copyinstr root (5 * 4096 + 4090) 10 two_pages.0
    ≡ copy_string root (5 * 4096 + 4090) 10 two_pages.0
copyinstr_lem_example = copyinstr_lem root (5 * 4096 + 4090) 10 two_pages.0

-- The memory is zero, so the string is empty.
copyinstr_runs : copyinstr root (5 * 4096 + 4090) 10 two_pages.0 ≡ (pos 0, 0 ∷ [])
unfolding copyinstr copyinstr_loop string_bytes load walkaddr mappages map_loop map_page walk
    walk_loop two_pages created root uvmcreate kalloc
copyinstr_runs = refl

created-Owns : Owns kend root (2 ^ 26 - 2) (upto 0) created free_pages
created-Owns = no_pages kend root (2 ^ 26 - 2) created free_pages created-IsSpace no_leaves

abbrev size_of : Option (ℕ × Kmem) → ℕ
size_of none = 0
size_of (some r) = r.0

uvmalloc_runs : size_of (uvmalloc kend root 0 5000 22 created) ≡ 5000
unfolding uvmalloc grow_loop alloc_page mappages map_loop map_page walk walk_loop created root
    uvmcreate kalloc
uvmalloc_runs = refl

-- For another page there is no memory.
uvmalloc_fails : size_of (uvmalloc kend root 0 9000 22 created) ≡ 0
unfolding uvmalloc grow_loop alloc_page mappages map_loop map_page walk walk_loop created root
    uvmcreate kalloc kfree uvmdealloc uvmunmap unmap_loop unmap_page
uvmalloc_fails = refl

grown : (k : Kmem) × ((xs : List ℕ) × Owns kend root (2 ^ 26 - 2) (upto (pages 5000)) k xs)
grown =
    let (r, e, d) =
      uvmalloc_lem kend root (2 ^ 26 - 2) 0 5000 22 created free_pages (omega arith) (omega arith)
        (omega arith) (omega arith) (omega arith, omega arith) created-Owns in
    let size : r.0 ≡ 5000 = ap size_of (sym e) ∙ uvmalloc_runs in
    elim d.done [
      | inl (z, o, _, _) ↦ (r.1, (d.free, o))
      | inr (z, _, _, _) ↦ absurd (omega (arith, size, z))
    ]

uvmdealloc_lem_example :
    let sz : ℕ = (if leb 5000 100 then 5000 else 100) in
    (k' : Kmem) × ((ys : List ℕ) × (uvmdealloc kend root 5000 100 grown.0 ≡ some (sz, k'))
      × Shrinks kend root (2 ^ 26 - 2) (pages sz) (pages 5000) grown.0 grown.1.0 k' ys)
uvmdealloc_lem_example =
    uvmdealloc_lem kend root (2 ^ 26 - 2) 5000 100 grown.0 grown.1.0 (omega arith) (omega arith)
      (omega arith) grown.1.1
