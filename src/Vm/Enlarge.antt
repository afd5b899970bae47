-- ===== src/Vm/Enlarge.antt =====
-- uvmalloc of kernel/vm.c makes a process larger.
use mathlib.Core.Bool.{false≢true}
use ntu_sc2005_xv.Prelude.{
  ℕ, zero, suc, ◌+◌, ◌-◌, ◌*◌, ◌/◌, ◌^◌, ◌≤◌, ◌<◌, ◌≡◌, ◌⊎◌, refl, sym, ◌∙◌, ap, subst, inl, inr,
  Bool, true, false, some, List, length, ◌≢◌, arith, ltb, leb, if◌then◌else◌, ℕ_discrete,
}
use ntu_sc2005_xv.Prelude.Int.{u64}
use ntu_sc2005_xv.Kalloc.{Kmem, pgsize}
use ntu_sc2005_xv.Vm.{pte2pa}
use ntu_sc2005_xv.Vm.Space.{pgroundup64, uvmdealloc, give_up, alloc_page, grow_loop, uvmalloc}
use ntu_sc2005_xv.Vm.Mapping.{new_pte}
use ntu_sc2005_xv.Vm.Claim.{IsPerm, plus, alloc_page_lem}
use ntu_sc2005_xv.Vm.Owned.{Owns, Owns-congr, upto}
use ntu_sc2005_xv.Vm.Tree.{leaf}
use ntu_sc2005_xv.Vm.Walk.{Out}
use ntu_sc2005_xv.Vm.Release.{Shrinks, length-released, pa_at}
use ntu_sc2005_xv.Vm.Resize.{pages, pgroundup64_lem, uvmdealloc_lem}

-- A process that had `n` pages, when `k₀` was the memory and `xs₀` was free, and now has `v`: the
-- entries of the `n` pages are unchanged, and a page that is neither a table, nor free, nor mapped
-- since was so before.
record Grown (kend root lim n v perm : ℕ) (k₀ : Kmem) (xs₀ : List ℕ) (k : Kmem) (xs : List ℕ)
    : Type 0 where
  owns : Owns kend root lim (upto v) k xs
  kept : (u : ℕ) → u < lim → u < n → leaf k.mem root u ≡ leaf k₀.mem root u
  none_lost :
      (y : ℕ)
      → Out k.mem root xs y
      → ((u : ℕ) → n ≤ u → u < v → y ≢ pa_at root k u)
      → Out k₀.mem root xs₀ y
  made : (u : ℕ) → n ≤ u → u < v → leaf k.mem root u ≡ new_pte (pa_at root k u) perm

-- What growing a process from `n` pages to `newsz` bytes comes to. `done`: all the pages, or none more
-- than before, with too few pages free for those that were asked for. In both cases no page is lost:
-- one that is neither a table, nor free, nor newly mapped was so before.
pub record Resized (kend root lim n newsz perm : ℕ) (k : Kmem) (xs : List ℕ) (r : ℕ × Kmem)
    : Type 0 where
  pub free : List ℕ
  pub kept : (u : ℕ) → u < lim → u < n → leaf r.1.mem root u ≡ leaf k.mem root u
  pub done :
      ((r.0 ≡ newsz)
        × Owns kend root lim (upto (pages newsz)) r.1 free
        × ((y : ℕ)
            → Out r.1.mem root free y
            → ((u : ℕ) → n ≤ u → u < pages newsz → y ≢ pa_at root r.1 u)
            → Out k.mem root xs y)
        × ((u : ℕ)
            → n ≤ u
            → u < pages newsz
            → leaf r.1.mem root u ≡ new_pte (pa_at root r.1 u) perm))
      ⊎ ((r.0 ≡ 0)
          × Owns kend root lim (upto n) r.1 free
          × (length free ≤ pages newsz - n)
          × ((y : ℕ) → Out r.1.mem root free y → Out k.mem root xs y))

-- An entry that stays is one that was made for its page.
still_made :
    (root perm u : ℕ) (k k' : Kmem)
    → leaf k'.mem root u ≡ leaf k.mem root u
    → leaf k.mem root u ≡ new_pte (pa_at root k u) perm
    → leaf k'.mem root u ≡ new_pte (pa_at root k' u) perm
still_made root perm u k k' e m = e ∙ m ∙ ap (λ w. new_pte (pte2pa w) perm) (sym e)

give_up_eq :
    (kend root a oldsz : ℕ) (k : Kmem) (sz : ℕ) (k' : Kmem)
    → uvmdealloc kend root a oldsz k ≡ some (sz, k')
    → give_up kend root a oldsz k ≡ some (0, k')
give_up_eq kend root a oldsz k sz k' e = rw (give_up, e) refl

-- `uvmdealloc(pagetable, a, oldsz); return 0;` takes back what was allocated.
give_up_lem :
    (kend root lim n v a oldsz newsz perm : ℕ) (k₀ : Kmem) (xs₀ : List ℕ) (k : Kmem) (xs : List ℕ)
    → 0 < kend
    → lim ≤ 2 ^ 26
    → n ≤ v
    → v < pages newsz
    → v ≤ lim
    → a ≡ v * pgsize
    → oldsz ≡ n * pgsize
    → length xs ≤ 1
    → Grown kend root lim n v perm k₀ xs₀ k xs
    → (r : ℕ × Kmem) × (give_up kend root a oldsz k ≡ some r)
      × Resized kend root lim n newsz perm k₀ xs₀ r
give_up_lem kend root lim n v a oldsz newsz perm k₀ xs₀ k xs kp hl h hn hv at from few g =
    let all : pages a ≡ v = omega (arith, at) in
    let (k', (ys, e, s)) = uvmdealloc_lem kend root lim a oldsz k xs kp hl (omega (arith, at, hv)) (
      Owns-congr kend root lim (upto v) (upto (pages a)) k xs (λ u hu. ap (λ n. ltb u n) all)
        g.owns) in
    let shrinks : Shrinks kend root lim n v k xs k' ys =
      subst (λ w. Shrinks kend root lim n w k xs k' ys) all
        (subst (λ w. Shrinks kend root lim w (pages a) k xs k' ys) (sym back) s) in
    (
      (0, k'),
      give_up_eq kend root a oldsz k _ k' e,
      record {
        free = ys;
        kept = λ u hu l. shrinks.kept u hu l ∙ g.kept u hu l;
        done = inr (
          refl,
          shrinks.owns,
          omega (
            arith,
            ap length shrinks.list,
            length-released (pa_at root k) (v - n) n xs,
            few,
            h,
            hn,
          ),
          λ y out. let (was, others) = shrinks.none_lost y out in g.none_lost y was others,
        );
      },
    )
  where
    back : n ≡ pages (if leb a oldsz then a else oldsz)
    back = ground (arith, h, at, from)

grow_stop :
    (kend root fuel oldsz a newsz perm : ℕ) (k : Kmem)
    → newsz ≤ a
    → grow_loop fuel kend root oldsz a newsz perm k ≡ some (newsz, k)
unfolding grow_loop
grow_stop kend root zero oldsz a newsz perm k h = refl
grow_stop kend root (suc fuel) oldsz a newsz perm k h =
    let done : ltb a newsz ≡ false = ground (arith, h) in rw (grow_loop, done) refl

grow_next :
    (kend root fuel oldsz a newsz perm : ℕ) (k k' : Kmem)
    → a < newsz
    → alloc_page kend root a perm k ≡ some (true, k')
    → grow_loop (suc fuel) kend root oldsz a newsz perm k
      ≡ grow_loop fuel kend root oldsz (u64 (a + pgsize)) newsz perm k'
unfolding grow_loop
grow_next kend root fuel oldsz a newsz perm k k' h e =
    let more : ltb a newsz ≡ true = ground (arith, h) in rw (grow_loop, more, e) refl

grow_fail :
    (kend root fuel oldsz a newsz perm : ℕ) (k k' : Kmem)
    → a < newsz
    → alloc_page kend root a perm k ≡ some (false, k')
    → grow_loop (suc fuel) kend root oldsz a newsz perm k ≡ give_up kend root a oldsz k'
unfolding grow_loop
grow_fail kend root fuel oldsz a newsz perm k k' h e =
    let more : ltb a newsz ≡ true = ground (arith, h) in rw (grow_loop, more, e) refl

-- A page more.
one_more :
    (kend root lim n v perm : ℕ) (k₀ : Kmem) (xs₀ : List ℕ) (k : Kmem) (xs : List ℕ) (k' : Kmem)
    (ys : List ℕ)
    → n ≤ v
    → v < lim
    → Grown kend root lim n v perm k₀ xs₀ k xs
    → Owns kend root lim (plus (upto v) v) k' ys
    → ((u : ℕ) → u < lim → u ≢ v → leaf k'.mem root u ≡ leaf k.mem root u)
    → ((y : ℕ) → Out k'.mem root ys y → y ≢ pa_at root k' v → Out k.mem root xs y)
    → leaf k'.mem root v ≡ new_pte (pa_at root k' v) perm
    → Grown kend root lim n (v + 1) perm k₀ xs₀ k' ys
one_more kend root lim n v perm k₀ xs₀ k xs k' ys h hv g o leaves lost new = record {
  owns = Owns-congr kend root lim (plus (upto v) v) (upto (v + 1)) k' ys (λ u hu. ground arith) o;
  kept = λ u hu l. leaves u hu (λ q. omega (arith, q, l, h)) ∙ g.kept u hu l;
  none_lost = λ y out others. g.none_lost y (lost y out (others v h (omega arith))) (λ u l hu.
      subst (λ w. y ≢ w) (ap pte2pa (leaves u (omega (arith, hu, hv)) (λ q. omega (arith, q, hu))))
        (others u l (omega (arith, hu))));
  made = λ u l hu. elim (ℕ_discrete v u) [
    | yes at ↦ subst (λ w. leaf k'.mem root w ≡ new_pte (pa_at root k' w) perm) at new
    | no ne ↦
        still_made root perm u k k' (leaves u (omega (arith, hu, hv)) (λ q. ne (sym q)))
          (g.made u l (omega (arith, hu, ne)))
  ];
}

-- A page that was not to be had.
no_more :
    (kend root lim n v perm : ℕ) (k₀ : Kmem) (xs₀ : List ℕ) (k : Kmem) (xs : List ℕ) (k' : Kmem)
    (ys : List ℕ)
    → n ≤ v
    → v < lim
    → Grown kend root lim n v perm k₀ xs₀ k xs
    → Owns kend root lim (upto v) k' ys
    → ((u : ℕ) → u < lim → u ≢ v → leaf k'.mem root u ≡ leaf k.mem root u)
    → ((y : ℕ) → Out k'.mem root ys y → Out k.mem root xs y)
    → Grown kend root lim n v perm k₀ xs₀ k' ys
no_more kend root lim n v perm k₀ xs₀ k xs k' ys h hv g o leaves lost = record {
  owns = o;
  kept = λ u hu l. leaves u hu (λ q. omega (arith, q, l, h)) ∙ g.kept u hu l;
  none_lost = λ y out others. g.none_lost y (lost y out) (λ u l hu.
      subst (λ w. y ≢ w) (ap pte2pa (leaves u (omega (arith, hu, hv)) (λ q. omega (arith, q, hu))))
        (others u l hu));
  made = λ u l hu.
      still_made root perm u k k' (leaves u (omega (arith, hu, hv)) (λ q. omega (arith, q, hu)))
        (g.made u l hu);
}

-- One round, and then the others, which `rest` stands for.
grow_round :
    (kend root lim fuel n v oldsz a newsz perm : ℕ) (k₀ : Kmem) (xs₀ : List ℕ) (k : Kmem)
    (xs : List ℕ)
    → 0 < kend
    → lim ≤ 2 ^ 26
    → n ≤ v
    → v < lim
    → v < pages newsz
    → a < newsz
    → a ≡ v * pgsize
    → oldsz ≡ n * pgsize
    → Grown kend root lim n v perm k₀ xs₀ k xs
    → ((k' : Kmem) (ys : List ℕ)
        → Grown kend root lim n (v + 1) perm k₀ xs₀ k' ys
        → (r : ℕ × Kmem) × (grow_loop fuel kend root oldsz (u64 (a + pgsize)) newsz perm k'
            ≡ some r)
          × Resized kend root lim n newsz perm k₀ xs₀ r)
    → (b : Bool) → (k' : Kmem) (ys : List ℕ) → alloc_page kend root a perm k ≡ some (b, k')
    → Owns kend root lim (if b then plus (upto v) v else upto v) k' ys
    → ((u : ℕ) → u < lim → u ≢ v → leaf k'.mem root u ≡ leaf k.mem root u)
    → ((y : ℕ) → Out k'.mem root ys y → (b ≡ true → y ≢ pa_at root k' v) → Out k.mem root xs y)
    → (b ≡ false → length ys ≤ 1)
    → (b ≡ true → leaf k'.mem root v ≡ new_pte (pa_at root k' v) perm)
    → (r : ℕ × Kmem) × (grow_loop (suc fuel) kend root oldsz a newsz perm k ≡ some r)
      × Resized kend root lim n newsz perm k₀ xs₀ r
grow_round kend root lim fuel n v oldsz a newsz perm k₀ xs₀ k xs kp hl h hv hn l at from g rest true
      k' ys e o leaves lost few new =
    let (r, e', d) = rest k' ys (
      one_more kend root lim n v perm k₀ xs₀ k xs k' ys h hv g o leaves
        (λ y out ne. lost y out (λ b. ne)) (new refl)) in
    (r, grow_next kend root fuel oldsz a newsz perm k k' l e ∙ e', d)
grow_round kend root lim fuel n v oldsz a newsz perm k₀ xs₀ k xs kp hl h hv hn l at from g rest
      false k' ys e o leaves lost few new =
    let (r, e', d) =
      give_up_lem kend root lim n v a oldsz newsz perm k₀ xs₀ k' ys kp hl h hn (omega (arith, hv))
        at from (few refl)
        (no_more kend root lim n v perm k₀ xs₀ k xs k' ys h hv g o leaves
          (λ y out. lost y out (λ b. absurd (false≢true b)))) in
    (r, grow_fail kend root fuel oldsz a newsz perm k k' l e ∙ e', d)

grow_done :
    (kend root lim fuel n v oldsz a newsz perm : ℕ) (k₀ : Kmem) (xs₀ : List ℕ) (k : Kmem)
    (xs : List ℕ)
    → v ≡ pages newsz
    → a ≡ v * pgsize
    → Grown kend root lim n v perm k₀ xs₀ k xs
    → (r : ℕ × Kmem) × (grow_loop fuel kend root oldsz a newsz perm k ≡ some r)
      × Resized kend root lim n newsz perm k₀ xs₀ r
grow_done kend root lim fuel n v oldsz a newsz perm k₀ xs₀ k xs all at g = (
  (newsz, k),
  grow_stop kend root fuel oldsz a newsz perm k (omega (arith, all, at)),
  record {
    free = xs;
    kept = g.kept;
    done = inl (
      refl,
      Owns-congr kend root lim (upto v) (upto (pages newsz)) k xs
          (λ u hu. ap (λ m. ltb u m) (sym all)) g.owns,
      λ y out others. g.none_lost y out (λ u l hu. others u l (omega (arith, all, hu))),
      λ u l hu. g.made u l (omega (arith, all, hu)),
    );
  },
)

grow_loop_lem :
    (kend root lim fuel n v oldsz a newsz perm : ℕ) (k₀ : Kmem) (xs₀ : List ℕ) (k : Kmem)
    (xs : List ℕ)
    → 0 < kend
    → lim ≤ 2 ^ 26
    → newsz ≤ lim * pgsize
    → IsPerm perm
    → n ≤ v
    → v ≤ pages newsz
    → pages newsz ≤ v + fuel
    → a ≡ v * pgsize
    → oldsz ≡ n * pgsize
    → Grown kend root lim n v perm k₀ xs₀ k xs
    → (r : ℕ × Kmem) × (grow_loop fuel kend root oldsz a newsz perm k ≡ some r)
      × Resized kend root lim n newsz perm k₀ xs₀ r
grow_loop_lem kend root lim zero n v oldsz a newsz perm k₀ xs₀ k xs kp hl hs p h h' hf at from g =
    grow_done kend root lim 0 n v oldsz a newsz perm k₀ xs₀ k xs (omega (arith, h', hf)) at g
grow_loop_lem kend root lim (suc fuel) n v oldsz a newsz perm k₀ xs₀ k xs kp hl hs p h h' hf at from
      g =
    elim (ℕ_discrete v (pages newsz)) [
      | yes all ↦ grow_done kend root lim (suc fuel) n v oldsz a newsz perm k₀ xs₀ k xs all at g
      | no some_left ↦
          let hv : v < lim = omega (arith, h', some_left, hs) in
          let (b, (k', (ys, e, o, leaves, lost, few, new))) =
            alloc_page_lem kend root lim v perm (upto v) k xs kp hl hv (ground arith) p g.owns in
          grow_round kend root lim fuel n v oldsz a newsz perm k₀ xs₀ k xs kp hl h hv
            (omega (arith, h', some_left)) (omega (arith, at, h', some_left)) at from g
            (λ k' ys g'.
              grow_loop_lem kend root lim fuel n (v + 1) oldsz (u64 (a + pgsize)) newsz perm k₀ xs₀
                k' ys kp hl hs p (omega (arith, h)) (omega (arith, h', some_left))
                (omega (arith, hf)) (omega (arith, at, hv, hl)) from g')
            b k' ys (subst (λ c. alloc_page kend root c perm k ≡ some (b, k')) (sym at) e) o leaves
            lost few new
    ]

uvmalloc_eq :
    (kend root oldsz newsz perm : ℕ) (k : Kmem)
    → oldsz ≤ newsz
    → uvmalloc kend root oldsz newsz perm k
      ≡ grow_loop
          (newsz / pgsize + 1)
          kend
          root
          (pgroundup64 oldsz)
          (pgroundup64 oldsz)
          newsz
          perm
          k
unfolding uvmalloc
uvmalloc_eq kend root oldsz newsz perm k h =
    let grows : ltb newsz oldsz ≡ false = ground (arith, h) in rw (uvmalloc, grows) refl

pub uvmalloc_lem :
    (kend root lim oldsz newsz perm : ℕ) (k : Kmem) (xs : List ℕ)
    → 0 < kend
    → lim ≤ 2 ^ 26
    → oldsz ≤ newsz
    → newsz ≤ lim * pgsize
    → IsPerm perm
    → Owns kend root lim (upto (pages oldsz)) k xs
    → (r : ℕ × Kmem) × (uvmalloc kend root oldsz newsz perm k ≡ some r)
      × Resized kend root lim (pages oldsz) newsz perm k xs r
uvmalloc_lem kend root lim oldsz newsz perm k xs kp hl h hs p o =
    let (r, e, d) =
      grow_loop_lem kend root lim (newsz / pgsize + 1) (pages oldsz) (pages oldsz)
        (pgroundup64 oldsz) (pgroundup64 oldsz) newsz perm k xs k xs kp hl hs p (omega arith)
        (omega (arith, h)) (omega arith) (pgroundup64_lem oldsz (omega (arith, h, hs, hl)))
        (pgroundup64_lem oldsz (omega (arith, h, hs, hl)))
        (record {
          owns = o;
          kept = λ u hu l. refl;
          none_lost = λ y out others. out;
          made = λ u l hu. absurd (omega (arith, l, hu));
        }) in
    (r, uvmalloc_eq kend root oldsz newsz perm k h ∙ e, d)
