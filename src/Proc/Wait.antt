-- ===== src/Proc/Wait.antt =====
-- The searches of kernel/proc.c: `allocproc`, `kill` and `wait`.
use ntu_sc2005_xv.Prelude.{
  ℕ, zero, suc, ◌+◌, ◌≤◌, ◌<◌, ◌≡◌, ◌≢◌, ◌⊎◌, inl, inr, refl, ◌∙◌, ap, sym, subst, Bool, true,
  false, not, ◌&&◌, ◌||◌, Option, none, some, ◌==◌, if◌then◌else◌, arith, Bool-cases, ℕ_discrete,
}
use ntu_sc2005_xv.Prelude.Int.{ℤ, pos, minus_one, as_int}
use ntu_sc2005_xv.Proc.{
  runnable, is_unused, is_sleeping, is_zombie, nproc, Proc, unused, Frees, Table, no_frees,
  freeproc, set_proc, points, find_unused, kill_loop, kill, Scan, child, havekids, scan, WaitResult,
  returned, sleeps, wait,
}

-- The first index that passes a test, from `p` on.
pub first_at : (ℕ → Bool) → ℕ → ℕ → Option ℕ
first_at test zero p = none
first_at test (suc rest) p =
    let further = first_at test rest (p + 1) in if test p then some p else further

pub first_at-none :
    (test : ℕ → Bool) (rest p q : ℕ)
    → first_at test rest p ≡ none
    → p ≤ q
    → q < p + rest
    → test q ≡ false
unfolding first_at
first_at-none test zero p q h lo hi = absurd (omega arith)
first_at-none test (suc rest) p q h lo hi = elim (ℕ_discrete p q) [
  | yes e ↦ ap test (sym e) ∙ ground arith
  | no ne ↦ ground (arith, first_at-none test rest (p + 1) q)
]

pub first_at-some :
    (test : ℕ → Bool) (rest p q : ℕ)
    → first_at test rest p ≡ some q
    → (p ≤ q) × (q < p + rest) × (test q ≡ true)
unfolding first_at
first_at-some test zero p q h = absurd (ground arith)
first_at-some test (suc rest) p q h = elim (Bool-cases (test p)) [
  | inl pass ↦ let e : p ≡ q = ground arith in (omega arith, omega arith, ap test (sym e) ∙ pass)
  | inr miss ↦ ground (arith, first_at-some test rest (p + 1) q)
]

pub Option-cases : (o : Option ℕ) → (o ≡ none) ⊎ ((b : ℕ) × (o ≡ some b))
Option-cases none = inl refl
Option-cases (some b) = inr (b, refl)

pub find_unused_lem :
    (rest p : ℕ) (t : Table)
    → find_unused rest p t ≡ first_at (λ q. is_unused (t.proc q).state) rest p
unfolding find_unused first_at
find_unused_lem zero p t = refl
find_unused_lem (suc rest) p t = ground (arith, find_unused_lem rest (p + 1) t)

-- The process that `kill` leaves of `x`.
abbrev pub killed_proc : Proc → Proc
killed_proc x =
    if is_sleeping x.state
    then record x { killed = true; state = runnable }
    else record x { killed = true }

abbrev kill_result : Table → Option ℕ → ℤ × Table
kill_result t none = (minus_one, t)
kill_result t (some p) = (pos 0, set_proc p (killed_proc (t.proc p)) t)

kill_loop_lem :
    (rest p pid : ℕ) (t : Table)
    → kill_loop rest p pid t ≡ kill_result t (first_at (λ q. (t.proc q).pid == pid) rest p)
unfolding kill_loop first_at
kill_loop_lem zero p pid t = refl
kill_loop_lem (suc rest) p pid t = elim (Bool-cases ((t.proc p).pid == pid)) [
  | inl hit ↦ rw (kill_loop, hit) (ground (arith, hit))
  | inr miss ↦
      rw (kill_loop, miss)
        (kill_loop_lem rest (p + 1) pid t ∙ ap (kill_result t) (ground (arith, miss)))
]

-- `kill` marks one process with the pid and wakes it if it sleeps, and returns 0; or no process has
-- the pid, and it changes nothing and returns -1.
pub kill_lem :
    (pid : ℕ) (t : Table)
    → ((p : ℕ) × (p < nproc)
        × ((t.proc p).pid ≡ pid)
        × (kill pid t ≡ (pos 0, set_proc p (killed_proc (t.proc p)) t)))
      ⊎ (((q : ℕ) → q < nproc → (t.proc q).pid ≢ pid) × (kill pid t ≡ (minus_one, t)))
unfolding kill
kill_lem pid t =
    let test = λ (q : ℕ). (t.proc q).pid == pid in
    elim (Option-cases (first_at test nproc 0)) [
      | inr (p, e) ↦
          let (_, lt, hit) = first_at-some test nproc 0 p e in
          inl (p, lt, ground (arith, hit), kill_loop_lem nproc 0 pid t ∙ ap (kill_result t) e)
      | inl e ↦ inr (
        λ q lt same. ground (arith, first_at-none test nproc 0 q e),
        kill_loop_lem nproc 0 pid t ∙ ap (kill_result t) e,
      )
    ]

abbrev zombie_child : ℕ → Table → ℕ → Bool
zombie_child me t q = points (t.proc q).parent me && is_zombie (t.proc q).state

has_child : ℕ → Table → ℕ → ℕ → Bool
has_child me t zero p = false
has_child me t (suc rest) p = points (t.proc p).parent me || has_child me t rest (p + 1)

abbrev scanned : Bool → Option ℕ → Scan
scanned kids none = havekids kids
scanned kids (some p) = child p

scan_lem :
    (rest p me : ℕ) (kids : Bool) (t : Table)
    → scan rest p me kids t
      ≡ scanned (kids || has_child me t rest p) (first_at (zombie_child me t) rest p)
unfolding scan first_at has_child
scan_lem zero p me kids t = ground arith
scan_lem (suc rest) p me kids t =
    ground (arith, scan_lem rest (p + 1) me kids t, scan_lem rest (p + 1) me true t)

no_child :
    (rest p me : ℕ) (t : Table) (q : ℕ)
    → has_child me t rest p ≡ false
    → p ≤ q
    → q < p + rest
    → points (t.proc q).parent me ≡ false
unfolding has_child
no_child zero p me t q h lo hi = absurd (omega arith)
no_child (suc rest) p me t q h lo hi = elim (ℕ_discrete p q) [
  | yes e ↦ ap (λ x. points (t.proc x).parent me) (sym e) ∙ ground arith
  | no ne ↦ no_child rest (p + 1) me t q (ground arith) (omega arith) (omega arith)
]

some_child :
    (rest p me : ℕ) (t : Table)
    → has_child me t rest p ≡ true
    → (q : ℕ) × (q < p + rest) × (points (t.proc q).parent me ≡ true)
unfolding has_child
some_child zero p me t h = absurd (ground arith)
some_child (suc rest) p me t h = elim (Bool-cases (points (t.proc p).parent me)) [
  | inl mine ↦ (p, omega arith, mine)
  | inr other ↦
      let (q, lt, mine) = some_child rest (p + 1) me t (ground arith) in (q, omega arith, mine)
]

-- A free slot of the table, and the memory that a process gives back.
abbrev pub free_slot : Proc
free_slot = record {
  state = unused;
  chan = 0;
  killed = false;
  xstate = pos 0;
  pid = 0;
  parent = none;
  sz = 0;
  pagetable = 0;
  trapframe = 0;
}

abbrev pub given_back : Proc → Frees
given_back x = record {
  frame = if x.trapframe == 0 then none else some x.trapframe;
  table = if x.pagetable == 0 then none else some (x.pagetable, x.sz);
}

freeproc_lem : (x : Proc) → freeproc x ≡ (free_slot, given_back x)
unfolding freeproc
freeproc_lem x = refl

-- What a pass of `wait` by `me` may do. `refused`: copyout of a zombie's status fails, and the
-- zombie stays. `dies` and `waits`: there is no zombie child.
pub data Waits (me addr : ℕ) (copied : Bool) (t : Table) : WaitResult → Type 0 where
  reaps :
      (p : ℕ)
      → p < nproc
      → (t.proc p).parent ≡ some me
      → is_zombie (t.proc p).state ≡ true
      → (addr ≡ 0) ⊎ (copied ≡ true)
      → Waits me addr copied t
          (returned (as_int (t.proc p).pid) (given_back (t.proc p)) (set_proc p free_slot t))
  refused :
      (p : ℕ)
      → p < nproc
      → (t.proc p).parent ≡ some me
      → is_zombie (t.proc p).state ≡ true
      → addr ≢ 0
      → copied ≡ false
      → Waits me addr copied t (returned minus_one no_frees t)
  childless :
      ((q : ℕ) → q < nproc → (t.proc q).parent ≢ some me)
      → Waits me addr copied t (returned minus_one no_frees t)
  dies :
      (t.proc me).killed ≡ true
      → ((c : ℕ) → c < nproc → (t.proc c).parent ≡ some me → is_zombie (t.proc c).state ≡ false)
      → Waits me addr copied t (returned minus_one no_frees t)
  waits :
      (q : ℕ)
      → q < nproc
      → (t.proc q).parent ≡ some me
      → (t.proc me).killed ≡ false
      → ((c : ℕ) → c < nproc → (t.proc c).parent ≡ some me → is_zombie (t.proc c).state ≡ false)
      → Waits me addr copied t (sleeps (suc me))

pub points-some : (o : Option ℕ) (p : ℕ) → points o p ≡ true → o ≡ some p
points-some none p h = absurd (ground arith)
points-some (some q) p h = ap some (ground arith)

points_none : (o : Option ℕ) (p : ℕ) → points o p ≡ false → o ≢ some p
points_none o p h e = ground (arith, h, ap (λ x. points x p) e)

module _ (me addr : ℕ) (copied : Bool) (t : Table) where
  scanned_none :
      first_at (zombie_child me t) nproc 0 ≡ none
      → (c : ℕ) → c < nproc
      → (t.proc c).parent ≡ some me
      → is_zombie (t.proc c).state ≡ false
  scanned_none e c lt mine =
      ground (arith, first_at-none (zombie_child me t) nproc 0 c e, ap (λ x. points x me) mine)

  abbrev finish : Bool → WaitResult
  finish kids =
      if not kids || (t.proc me).killed then returned minus_one no_frees t else sleeps (suc me)

  finish_lem :
      first_at (zombie_child me t) nproc 0 ≡ none
      → Waits me addr copied t (finish (has_child me t nproc 0))
  finish_lem e = elim (Bool-cases (has_child me t nproc 0)) [
    | inr none_of ↦ subst (Waits me addr copied t) (ground (arith, none_of)) (
        childless (λ q lt.
          points_none (t.proc q).parent me
            (no_child nproc 0 me t q none_of (omega arith) (omega arith))))
    | inl kids ↦ elim (Bool-cases (t.proc me).killed) [
      | inl k ↦ subst (Waits me addr copied t) (ground (arith, k)) (dies k (scanned_none e))
      | inr k ↦
          let (q, lt, mine) = some_child nproc 0 me t kids in
          subst (Waits me addr copied t) (ground (arith, k, kids))
            (waits q (omega arith) (points-some (t.proc q).parent me mine) k (scanned_none e))
    ]
  ]

  abbrev collect : ℕ → WaitResult
  collect p =
      if not (addr == 0) && not copied
      then returned minus_one no_frees t
      else returned (as_int (t.proc p).pid) (freeproc (t.proc p)).1
          (set_proc p (freeproc (t.proc p)).0 t)

  collected :
      (p : ℕ)
      → (not (addr == 0) && not copied) ≡ false
      → returned (as_int (t.proc p).pid) (given_back (t.proc p)) (set_proc p free_slot t)
        ≡ collect p
  collected p good =
      ap (λ (r : Proc × Frees). returned (as_int (t.proc p).pid) r.1 (set_proc p r.0 t))
        (sym (freeproc_lem (t.proc p)))
      ∙ rw good refl

  collect_lem :
      (p : ℕ) → first_at (zombie_child me t) nproc 0 ≡ some p → Waits me addr copied t (collect p)
  collect_lem p e =
      let (_, lt, hit) = first_at-some (zombie_child me t) nproc 0 p e in
      elim (Bool-cases (not (addr == 0) && not copied)) [
        | inl bad ↦ subst (Waits me addr copied t) (ground (arith, bad)) (
            refused p lt (points-some (t.proc p).parent me (ground (arith, hit)))
              (ground (arith, hit)) (ground (arith, bad)) (ground (arith, bad)))
        | inr good ↦ subst (Waits me addr copied t) (collected p good) (
            reaps p lt (points-some (t.proc p).parent me (ground (arith, hit)))
              (ground (arith, hit)) (ground (arith, good)))
      ]

  -- A pass of `wait` comes to one of five ends. With a zombie child it empties the slot of one of
  -- them, gives back its trapframe and its page table, and returns its pid, when no status is asked
  -- for or copyout succeeds; or it returns -1 and changes nothing, when a status is asked for and
  -- copyout fails. Without a zombie child it returns -1 and changes nothing, when there is no child at
  -- all or the caller is killed; or it sleeps on the caller's own channel, when there is a child and
  -- the caller is not killed.
  pub wait_lem : Waits me addr copied t (wait me addr copied t)
  unfolding wait
  wait_lem = elim (Option-cases (first_at (zombie_child me t) nproc 0)) [
    | inl e ↦ rw (wait, scan_lem nproc 0 me false t, e) (finish_lem e)
    | inr (p, e) ↦ rw (wait, scan_lem nproc 0 me false t, e) (collect_lem p e)
  ]
