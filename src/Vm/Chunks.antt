-- ===== src/Vm/Chunks.antt =====
-- copyin and copyinstr of kernel/vm.c go page by page; here they are compared to reading byte by byte.
use ntu_sc2005_xv.Prelude.{
  ℕ, zero, suc, ◌+◌, ◌-◌, ◌%◌, ◌≤◌, ◌<◌, ◌≡◌, refl, sym, ◌∙◌, ap, inl, inr, true, false, List, [],
  ◌∷◌, ◌++◌, Bool-cases, arith, ◌==◌, leb, if◌then◌else◌, ==→ne, leb→le, leb→lt, ℕ_discrete,
}
use ntu_sc2005_xv.Prelude.Int.{ℤ, pos, minus_one}
use ntu_sc2005_xv.Kalloc.{Kmem, pgsize}
use ntu_sc2005_xv.Vm.{maxva, pgrounddown, walkaddr}
use ntu_sc2005_xv.Vm.Copy.{load, read_bytes, chunk, page_after, copyin_loop, copyin}

-- The byte that user code reads at a virtual address whose page is at `pa0`.
abbrev pub user_byte : ℕ → ℕ → Kmem → ℕ
user_byte pa0 va k = load k.mem (pa0 + va % pgsize)

-- `len` bytes from `va` on, one at a time, up to the first page that is not mapped for user code
-- (its bytes are not there); reading ends at the first byte that user code could not read.
pub copy_bytes : ℕ → ℕ → ℕ → Kmem → ℤ × List ℕ
copy_bytes root va zero k = (pos 0, [])
copy_bytes root va (suc len) k =
    let pa0 = walkaddr root (pgrounddown va) k in
    let (r, bytes) = copy_bytes root (va + 1) len k in
    if pa0 == 0 then (minus_one, []) else (r, user_byte pa0 va k ∷ bytes)

-- Nothing is mapped beyond MAXVA.
pub walkaddr_beyond : (root va : ℕ) (k : Kmem) → maxva ≤ va → walkaddr root va k ≡ 0
unfolding walkaddr
walkaddr_beyond root va k h = let beyond : leb maxva va ≡ true = ground (arith, h) in rw beyond refl

same_place :
    (pa0 va n : ℕ) (mem : ℕ → ℕ)
    → va % pgsize + suc n ≤ pgsize
    → read_bytes (pa0 + (va + 1) % pgsize) n mem ≡ read_bytes (pa0 + va % pgsize + 1) n mem
unfolding read_bytes
same_place pa0 va zero mem h = refl
same_place pa0 va (suc n) mem h =
    let q : pa0 + (va + 1) % pgsize ≡ pa0 + va % pgsize + 1 = omega (arith, h) in rw q refl

-- `n` bytes of one page, and then the others.
copy_bytes_page :
    (root va n len pa0 : ℕ) (k : Kmem)
    → va % pgsize + n ≤ pgsize
    → (0 < n → walkaddr root (pgrounddown va) k ≡ pa0)
    → (pa0 == 0) ≡ false
    → copy_bytes root va (n + len) k ≡ (
      (copy_bytes root (va + n) len k).0,
      read_bytes (pa0 + va % pgsize) n k.mem ++ (copy_bytes root (va + n) len k).1,
    )
unfolding copy_bytes read_bytes
copy_bytes_page root va zero len pa0 k h e u =
    let here : va + 0 ≡ va = omega arith in
    let all : 0 + len ≡ len = omega arith in rw (here, all) refl
copy_bytes_page root va (suc n) len pa0 k h e u =
    let page : 0 < n → pgrounddown (va + 1) ≡ pgrounddown va = λ m. omega (arith, h, m) in
    let ih =
      copy_bytes_page root (va + 1) n len pa0 k (omega (arith, h))
        (λ m. rw (page m) (e (omega arith))) u in
    let l : suc n + len ≡ suc (n + len) = omega arith in
    let v : va + 1 + n ≡ va + suc n = omega arith in
    rw (l, copy_bytes, e (omega arith), u, ih, same_place pa0 va n k.mem h, v) refl

pub mapped_below : (root va : ℕ) (k : Kmem) → (walkaddr root va k == 0) ≡ false → va < maxva
mapped_below root va k h = elim (Bool-cases (leb maxva va)) [
  | inl beyond ↦
      absurd (==→ne (walkaddr root va k) 0 h (walkaddr_beyond root va k (leb→le maxva va beyond)))
  | inr below ↦ leb→lt maxva va below
]

-- Where a round of the loops ends, if anything is left to do there.
pub next_bytes :
    (f : ℕ → ℕ → ℤ × List ℕ) (va len : ℕ)
    → ((v w : ℕ) → f v 0 ≡ f w 0)
    → pgrounddown va < maxva
    → f (va + chunk va len) (len - chunk va len) ≡ f (page_after va) (len - chunk va len)
next_bytes f va len ends h = elim (ℕ_discrete (len - chunk va len) 0) [
  | yes done ↦ rw done (ends (va + chunk va len) (page_after va))
  | no more ↦
      let q : va + chunk va len ≡ page_after va = omega (arith, h, more) in
      ap (λ v. f v (len - chunk va len)) q
]

first_page :
    (root va len : ℕ) (k : Kmem)
    → (walkaddr root (pgrounddown va) k == 0) ≡ false
    → copy_bytes root va len k ≡ (
      (copy_bytes root (page_after va) (len - chunk va len) k).0,
      read_bytes (walkaddr root (pgrounddown va) k + va % pgsize) (chunk va len) k.mem
          ++ (copy_bytes root (page_after va) (len - chunk va len) k).1,
    )
unfolding copy_bytes
first_page root va len k u =
    let n = chunk va len in
    let l : len ≡ n + (len - n) = omega arith in
    let next =
      next_bytes (λ v j. copy_bytes root v j k) va len (λ v w. refl)
        (mapped_below root (pgrounddown va) k u) in
    let page =
      copy_bytes_page root va n (len - n) (walkaddr root (pgrounddown va) k) k (omega arith)
        (λ m. refl) u in
    ap (λ j. copy_bytes root va j k) l
    ∙ page
    ∙ ap
        (λ (r : ℤ × List ℕ).
          (r.0, read_bytes (walkaddr root (pgrounddown va) k + va % pgsize) n k.mem ++ r.1))
        next

-- The loop on enough fuel reads the bytes one by one.
copyin_loop_lem :
    (root fuel va len : ℕ) (k : Kmem)
    → len ≤ fuel
    → copyin_loop fuel root va len k ≡ copy_bytes root va len k
unfolding copyin_loop copy_bytes
copyin_loop_lem root zero va zero k h = refl
copyin_loop_lem root (suc fuel) va zero k h = refl
copyin_loop_lem root zero va (suc len) k h = absurd (omega (arith, h))
copyin_loop_lem root (suc fuel) va (suc len) k h =
    let pa0 = walkaddr root (pgrounddown va) k in
    let n = chunk va (suc len) in
    elim (Bool-cases (pa0 == 0)) [
      | inl out ↦ rw out refl
      | inr u ↦
          let ih = copyin_loop_lem root fuel (page_after va) (suc len - n) k (omega (arith, h)) in
          let at : va - pgrounddown va ≡ va % pgsize = omega arith in
          let chunks : copyin_loop (suc fuel) root va (suc len) k ≡ (
            (copy_bytes root (page_after va) (suc len - n) k).0,
            read_bytes (pa0 + va % pgsize) n k.mem
                ++ (copy_bytes root (page_after va) (suc len - n) k).1,
          ) =
            rw (u, ih, at) refl in
          chunks ∙ sym (first_page root va (suc len) k u)
    ]

-- copyin, which goes from page to page, returns and stores what copying byte by byte does: every
-- byte up to the first page that user code cannot reach, and then -1.
pub copyin_lem : (root va len : ℕ) (k : Kmem) → copyin root va len k ≡ copy_bytes root va len k
unfolding copyin
copyin_lem root va len k = copyin_loop_lem root len va len k (omega arith)
