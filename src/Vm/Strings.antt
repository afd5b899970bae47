-- ===== src/Vm/Strings.antt =====
-- copyinstr of kernel/vm.c, compared to reading a string byte by byte.
use ntu_sc2005_xv.Prelude.{
  ℕ, zero, suc, ◌+◌, ◌-◌, ◌%◌, ◌≤◌, ◌<◌, ◌≡◌, refl, sym, ◌∙◌, ap, inl, inr, Bool, false, List, [],
  ◌∷◌, ◌++◌, Bool-cases, arith, ◌==◌, if◌then◌else◌,
}
use ntu_sc2005_xv.Prelude.Int.{ℤ, pos, minus_one}
use ntu_sc2005_xv.Kalloc.{Kmem, pgsize}
use ntu_sc2005_xv.Vm.{pgrounddown, walkaddr}
use ntu_sc2005_xv.Vm.Copy.{load, string_bytes, chunk, page_after, copyinstr_loop, copyinstr}
use ntu_sc2005_xv.Vm.Chunks.{user_byte, mapped_below, next_bytes}

-- A string from `va` on, one byte at a time: up to its NUL, a page that is not mapped for user code,
-- or `max` bytes.
pub copy_string : ℕ → ℕ → ℕ → Kmem → ℤ × List ℕ
copy_string root va zero k = (minus_one, [])
copy_string root va (suc max) k =
    let pa0 = walkaddr root (pgrounddown va) k in
    let c = user_byte pa0 va k in
    let (r, bytes) = copy_string root (va + 1) max k in
    if pa0 == 0 then (minus_one, []) else if c == 0 then (pos 0, 0 ∷ []) else (r, c ∷ bytes)

-- What a round of the loop leaves, with what the rounds after it return.
abbrev after : Bool × List ℕ → ℤ × List ℕ → ℤ × List ℕ
after (got_null, bytes) (r, more) = if got_null then (pos 0, bytes) else (r, bytes ++ more)

same_string :
    (pa0 va n : ℕ) (mem : ℕ → ℕ)
    → va % pgsize + suc n ≤ pgsize
    → string_bytes (pa0 + (va + 1) % pgsize) n mem ≡ string_bytes (pa0 + va % pgsize + 1) n mem
unfolding string_bytes
same_string pa0 va zero mem h = refl
same_string pa0 va (suc n) mem h =
    let q : pa0 + (va + 1) % pgsize ≡ pa0 + va % pgsize + 1 = omega (arith, h) in rw q refl

copy_string_page :
    (root va n len pa0 : ℕ) (k : Kmem)
    → va % pgsize + n ≤ pgsize
    → (0 < n → walkaddr root (pgrounddown va) k ≡ pa0)
    → (pa0 == 0) ≡ false
    → copy_string root va (n + len) k
      ≡ after (string_bytes (pa0 + va % pgsize) n k.mem) (copy_string root (va + n) len k)
unfolding copy_string string_bytes
copy_string_page root va zero len pa0 k h e u =
    let here : va + 0 ≡ va = omega arith in
    let all : 0 + len ≡ len = omega arith in rw (here, all) refl
copy_string_page root va (suc n) len pa0 k h e u =
    let page : 0 < n → pgrounddown (va + 1) ≡ pgrounddown va = λ m. omega (arith, h, m) in
    let ih =
      copy_string_page root (va + 1) n len pa0 k (omega (arith, h))
        (λ m. rw (page m) (e (omega arith))) u in
    let l : suc n + len ≡ suc (n + len) = omega arith in
    let v : va + 1 + n ≡ va + suc n = omega arith in
    elim (Bool-cases (load k.mem (pa0 + va % pgsize) == 0)) [
      | inl nul ↦ rw (l, copy_string, e (omega arith), u, nul) refl
      | inr c ↦ elim (Bool-cases (string_bytes (pa0 + va % pgsize + 1) n k.mem).0) [
        | inl g ↦
            rw (l, copy_string, e (omega arith), u, ih, same_string pa0 va n k.mem h, v, c, g) refl
        | inr g ↦
            rw (l, copy_string, e (omega arith), u, ih, same_string pa0 va n k.mem h, v, c, g) refl
      ]
    ]

first_string :
    (root va len : ℕ) (k : Kmem)
    → (walkaddr root (pgrounddown va) k == 0) ≡ false
    → copy_string root va len k
      ≡ after
          (string_bytes (walkaddr root (pgrounddown va) k + va % pgsize) (chunk va len) k.mem)
          (copy_string root (page_after va) (len - chunk va len) k)
unfolding copy_string
first_string root va len k u =
    let n = chunk va len in
    let pa0 = walkaddr root (pgrounddown va) k in
    let l : len ≡ n + (len - n) = omega arith in
    let next =
      next_bytes (λ v j. copy_string root v j k) va len (λ v w. refl)
        (mapped_below root (pgrounddown va) k u) in
    let page = copy_string_page root va n (len - n) pa0 k (omega arith) (λ m. refl) u in
    ap (λ j. copy_string root va j k) l
    ∙ page
    ∙ ap (λ (r : ℤ × List ℕ). after (string_bytes (pa0 + va % pgsize) n k.mem) r) next

copyinstr_loop_lem :
    (root fuel va len : ℕ) (k : Kmem)
    → len ≤ fuel
    → copyinstr_loop fuel root va len k ≡ copy_string root va len k
unfolding copyinstr_loop copy_string
copyinstr_loop_lem root zero va zero k h = refl
copyinstr_loop_lem root (suc fuel) va zero k h = refl
copyinstr_loop_lem root zero va (suc len) k h = absurd (omega (arith, h))
copyinstr_loop_lem root (suc fuel) va (suc len) k h =
    let pa0 = walkaddr root (pgrounddown va) k in
    let n = chunk va (suc len) in
    elim (Bool-cases (pa0 == 0)) [
      | inl out ↦ rw out refl
      | inr u ↦
          let ih =
            copyinstr_loop_lem root fuel (page_after va) (suc len - n) k (omega (arith, h)) in
          let at : va - pgrounddown va ≡ va % pgsize = omega arith in
          let chunks : copyinstr_loop (suc fuel) root va (suc len) k
              ≡ after (string_bytes (pa0 + va % pgsize) n k.mem)
                  (copy_string root (page_after va) (suc len - n) k) =
            rw (u, ih, at) refl in
          chunks ∙ sym (first_string root va (suc len) k u)
    ]

-- copyinstr, which goes from page to page, returns and stores what copying byte by byte does: 0 with
-- the string and its NUL, or -1 with the bytes before a page that user code cannot reach or with
-- `max` bytes and no NUL among them.
pub copyinstr_lem :
    (root va max : ℕ) (k : Kmem) → copyinstr root va max k ≡ copy_string root va max k
unfolding copyinstr
copyinstr_lem root va max k = copyinstr_loop_lem root max va max k (omega arith)
