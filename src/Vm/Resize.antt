-- ===== src/Vm/Resize.antt =====
-- uvmdealloc of kernel/vm.c makes a process smaller.
use ntu_sc2005_xv.Prelude.{
  ℕ, ◌+◌, ◌-◌, ◌*◌, ◌/◌, ◌^◌, ◌≤◌, ◌<◌, ◌≡◌, refl, sym, ap, subst, inl, inr, true, false, some,
  Bool-cases, List, arith, ltb, leb, if◌then◌else◌, ℕ_discrete, leb→le, leb→lt,
}
use ntu_sc2005_xv.Kalloc.{Kmem, pgsize}
use ntu_sc2005_xv.Vm.{uvmunmap}
use ntu_sc2005_xv.Vm.Space.{pgroundup64, int_arg, uvmdealloc}
use ntu_sc2005_xv.Vm.Owned.{Owns, Owns-congr, upto}
use ntu_sc2005_xv.Vm.Release.{Shrinks, released, pa_at, uvmunmap_lem}

-- The pages that a process of `sz` bytes has.
abbrev pub pages : ℕ → ℕ
pages sz = (sz + pgsize - 1) / pgsize

pub pgroundup64_lem : (sz : ℕ) → sz ≤ 2 ^ 38 → pgroundup64 sz ≡ pages sz * pgsize
pgroundup64_lem sz h = omega (arith, h)

same_size :
    (kend root oldsz newsz : ℕ) (k : Kmem)
    → oldsz ≤ newsz
    → uvmdealloc kend root oldsz newsz k ≡ some (oldsz, k)
unfolding uvmdealloc
same_size kend root oldsz newsz k h =
    let larger : leb oldsz newsz ≡ true = ground (arith, h) in rw (uvmdealloc, larger) refl

same_pages :
    (kend root oldsz newsz : ℕ) (k : Kmem)
    → newsz < oldsz
    → oldsz ≤ 2 ^ 38
    → pages newsz ≡ pages oldsz
    → uvmdealloc kend root oldsz newsz k ≡ some (newsz, k)
unfolding uvmdealloc
same_pages kend root oldsz newsz k h b p =
    let less : leb oldsz newsz ≡ false = ground (arith, h) in
    let same : ltb (pgroundup64 newsz) (pgroundup64 oldsz) ≡ false = ground (arith, p, b, h) in
    rw (uvmdealloc, less, same) refl

fewer_pages :
    (kend root oldsz newsz : ℕ) (k k' : Kmem)
    → newsz < oldsz
    → oldsz ≤ 2 ^ 38
    → pages newsz < pages oldsz
    → uvmunmap kend root (pages newsz * pgsize) (pages oldsz - pages newsz) true k ≡ some k'
    → uvmdealloc kend root oldsz newsz k ≡ some (newsz, k')
unfolding uvmdealloc
fewer_pages kend root oldsz newsz k k' h b p e =
    let less : leb oldsz newsz ≡ false = ground (arith, h) in
    let some_pages : ltb (pgroundup64 newsz) (pgroundup64 oldsz) ≡ true = ground (arith, p, b, h) in
    let from : pgroundup64 newsz ≡ pages newsz * pgsize = omega (arith, b, h) in
    let count : int_arg ((pgroundup64 oldsz - pgroundup64 newsz) / pgsize)
        ≡ pages oldsz - pages newsz =
      ground (arith, b, h) in
    let unmapped : uvmunmap kend root (pgroundup64 newsz)
          (int_arg ((pgroundup64 oldsz - pgroundup64 newsz) / pgsize)) true k
        ≡ some k' =
      subst
        (λ a.
          uvmunmap kend root a (int_arg ((pgroundup64 oldsz - pgroundup64 newsz) / pgsize)) true k
          ≡ some k')
        (sym from)
        (subst (λ n. uvmunmap kend root (pages newsz * pgsize) n true k ≡ some k') (sym count) e) in
    rw (uvmdealloc, less, some_pages, unmapped) refl

-- Nothing is unmapped.
no_change :
    (kend root lim m n : ℕ) (k : Kmem) (xs : List ℕ)
    → m ≡ n
    → Owns kend root lim (upto n) k xs
    → Shrinks kend root lim m n k xs k xs
no_change kend root lim m n k xs e o = record {
  owns = Owns-congr kend root lim (upto n) (upto m) k xs (λ u hu. ap (λ w. ltb u w) e) o;
  list =
      let none_freed : 0 ≡ n - m = omega (arith, e) in
      ap (λ w. released (pa_at root k) w m xs) none_freed;
  kept = λ u hu l. refl;
  none_lost = λ y out. (out, λ u l h. absurd (omega (arith, e, l, h)));
}

-- uvmdealloc on a process of `oldsz` bytes never panics. It returns the smaller size, and the process
-- has exactly the pages of that size, with their entries unchanged. The pages behind the others, and
-- no more, have been put on the free list, on top of what was free. No other page is lost.
pub uvmdealloc_lem :
    (kend root lim oldsz newsz : ℕ) (k : Kmem) (xs : List ℕ)
    → 0 < kend
    → lim ≤ 2 ^ 26
    → oldsz ≤ lim * pgsize
    → Owns kend root lim (upto (pages oldsz)) k xs
    → let sz = (if leb oldsz newsz then oldsz else newsz) in
      (k' : Kmem) × ((ys : List ℕ) × (uvmdealloc kend root oldsz newsz k ≡ some (sz, k'))
        × Shrinks kend root lim (pages sz) (pages oldsz) k xs k' ys)
uvmdealloc_lem kend root lim oldsz newsz k xs pos hl h o = elim (Bool-cases (leb oldsz newsz)) [
  | inl larger ↦ rw larger (
    k,
    (
      xs,
      same_size kend root oldsz newsz k (leb→le oldsz newsz larger),
      no_change kend root lim (pages oldsz) (pages oldsz) k xs refl o,
    ),
  )
  | inr smaller ↦
      let less : newsz < oldsz = leb→lt oldsz newsz smaller in
      elim (ℕ_discrete (pages newsz) (pages oldsz)) [
        | yes same ↦ rw smaller (
          k,
          (
            xs,
            same_pages kend root oldsz newsz k less (omega (arith, h, hl)) same,
            no_change kend root lim (pages newsz) (pages oldsz) k xs same o,
          ),
        )
        | no differ ↦
            let p : pages newsz < pages oldsz = omega (arith, less, differ) in
            let (k', (ys, e, o')) =
              uvmunmap_lem kend root lim (pages newsz) (pages oldsz) k xs pos hl (omega (arith, p))
                (omega (arith, h)) o in
            rw smaller
              (k', (ys, fewer_pages kend root oldsz newsz k k' less (omega (arith, h, hl)) p e, o'))
      ]
]
