-- ===== src/Vm/Copy.antt =====
-- copyout, copyin and copyinstr of kernel/vm.c, and the bytes of the words in memory. The kernel's
-- buffer is the list of bytes that the call reads from it or writes to it.
use ntu_sc2005_xv.Prelude.{
  ℕ, zero, suc, ◌+◌, ◌-◌, ◌*◌, ◌/◌, ◌%◌, min, Bool, true, false, not, ◌||◌, Option, none, some,
  List, [], ◌∷◌, ◌++◌, length, take, drop, leb, ◌==◌, if◌then◌else◌,
}
use ntu_sc2005_xv.Prelude.Maps.{update}
use ntu_sc2005_xv.Prelude.Int.{ℤ, pos, minus_one, u64}
use ntu_sc2005_xv.Kalloc.{pgsize, Kmem, kalloc}
use ntu_sc2005_xv.Vm.{maxva, pgrounddown, pte_v, pte_u, pte_w, pte2pa, walk, walkaddr, mappages}
use ntu_sc2005_xv.Vm.Space.{zero_page}

-- Byte `i` of a little-endian word, and a word with that byte replaced.
abbrev pub get_byte : ℕ → ℕ → ℕ
get_byte zero w = w % 256
get_byte (suc i) w = get_byte i (w / 256)

abbrev pub put_byte : ℕ → ℕ → ℕ → ℕ
put_byte zero c w = w / 256 * 256 + c
put_byte (suc i) c w = put_byte i c (w / 256) * 256 + w % 256

unfoldable pub load : (ℕ → ℕ) → ℕ → ℕ
load mem a = get_byte (a % 8) (mem (a / 8 * 8))

pub store : (ℕ → ℕ) → ℕ → ℕ → ℕ → ℕ
store mem a c = update mem (a / 8 * 8) (put_byte (a % 8) c (mem (a / 8 * 8)))

-- `memmove` from and to a buffer of the kernel
pub write_bytes : ℕ → List ℕ → (ℕ → ℕ) → ℕ → ℕ
write_bytes a [] mem = mem
write_bytes a (c ∷ cs) mem = write_bytes (a + 1) cs (store mem a c)

unfoldable pub read_bytes : ℕ → ℕ → (ℕ → ℕ) → List ℕ
read_bytes a zero mem = []
read_bytes a (suc n) mem = load mem a ∷ read_bytes (a + 1) n mem

pub uvmfirst : ℕ → List ℕ → Kmem → Option Kmem
uvmfirst pagetable src k =
    if leb pgsize (length src)
    then none
    else let (page, k') = kalloc k in
      elim (mappages pagetable 0 pgsize page 30 (zero_page page k')) [
        | none ↦ none
        | some (r, k'') ↦ some (record k'' { mem = write_bytes page src k''.mem })
      ]

-- The page that `copyout` may write at `va0`.
pub writable_page : ℕ → ℕ → Kmem → Option ℕ
writable_page pagetable va0 k = if leb maxva va0 then none else elim (walk pagetable va0 false k) [
  | none ↦ none
  | some (none, k') ↦ none
  | some (some pte, k') ↦
      let w = k'.mem pte in
      if not (pte_v w) || not (pte_u w) || not (pte_w w) then none else some (pte2pa w)
]

-- `n` of a round of the loops: to the end of the page, at most `len`
abbrev pub chunk : ℕ → ℕ → ℕ
chunk va len = min (pgsize - (va - pgrounddown va)) len

-- The address after a round.
abbrev pub page_after : ℕ → ℕ
page_after va = u64 (pgrounddown va + pgsize)

pub copyout_loop : ℕ → ℕ → ℕ → List ℕ → Kmem → ℤ × Kmem
copyout_loop fuel pagetable dstva [] k = (pos 0, k)
copyout_loop zero pagetable dstva (c ∷ src) k = (minus_one, k)
copyout_loop (suc fuel) pagetable dstva (c ∷ src) k =
    elim (writable_page pagetable (pgrounddown dstva) k) [
      | none ↦ (minus_one, k)
      | some pa0 ↦
          let n = chunk dstva (length (c ∷ src)) in
          copyout_loop fuel pagetable (page_after dstva) (drop n (c ∷ src)) (record k {
            mem = write_bytes (pa0 + (dstva - pgrounddown dstva)) (take n (c ∷ src)) k.mem;
          })
    ]

pub copyout : ℕ → ℕ → List ℕ → Kmem → ℤ × Kmem
copyout pagetable dstva src k = copyout_loop (length src) pagetable dstva src k

-- With the bytes that the loop has put at `dst`.
unfoldable pub copyin_loop : ℕ → ℕ → ℕ → ℕ → Kmem → ℤ × List ℕ
copyin_loop fuel pagetable srcva zero k = (pos 0, [])
copyin_loop zero pagetable srcva (suc len) k = (minus_one, [])
copyin_loop (suc fuel) pagetable srcva (suc len) k =
    let pa0 = walkaddr pagetable (pgrounddown srcva) k in
    let n = chunk srcva (suc len) in
    let (r, bytes) = copyin_loop fuel pagetable (page_after srcva) (suc len - n) k in
    if pa0 == 0
    then (minus_one, [])
    else (r, read_bytes (pa0 + (srcva - pgrounddown srcva)) n k.mem ++ bytes)

unfoldable pub copyin : ℕ → ℕ → ℕ → Kmem → ℤ × List ℕ
copyin pagetable srcva len k = copyin_loop len pagetable srcva len k

-- The inner loop of `copyinstr`, `n` bytes from `p` on: whether it got a NUL, and what it stored.
unfoldable pub string_bytes : ℕ → ℕ → (ℕ → ℕ) → Bool × List ℕ
string_bytes p zero mem = (false, [])
string_bytes p (suc n) mem =
    let (got_null, bytes) = string_bytes (p + 1) n mem in
    if load mem p == 0 then (true, 0 ∷ []) else (got_null, load mem p ∷ bytes)

unfoldable pub copyinstr_loop : ℕ → ℕ → ℕ → ℕ → Kmem → ℤ × List ℕ
copyinstr_loop fuel pagetable srcva zero k = (minus_one, [])
copyinstr_loop zero pagetable srcva (suc max) k = (minus_one, [])
copyinstr_loop (suc fuel) pagetable srcva (suc max) k =
    let pa0 = walkaddr pagetable (pgrounddown srcva) k in
    let n = chunk srcva (suc max) in
    let (got_null, bytes) = string_bytes (pa0 + (srcva - pgrounddown srcva)) n k.mem in
    let (r, more) = copyinstr_loop fuel pagetable (page_after srcva) (suc max - n) k in
    if pa0 == 0 then (minus_one, []) else if got_null then (pos 0, bytes) else (r, bytes ++ more)

unfoldable pub copyinstr : ℕ → ℕ → ℕ → Kmem → ℤ × List ℕ
copyinstr pagetable srcva max k = copyinstr_loop max pagetable srcva max k
