-- ===== src/File/Refs.antt =====
-- The descriptors that refer to the files of kernel/file.c.
use ntu_sc2005_xv.Prelude.{
  ℕ, zero, suc, ◌+◌, ◌-◌, ◌≤◌, ◌<◌, ◌≡◌, ◌≢◌, ◌⊎◌, inl, inr, refl, ◌∙◌, ap, sym, subst, List, [],
  ◌∷◌, ◌++◌, count, count-append, Option, none, some, ◌==◌, ltb, if◌then◌else◌, arith, Bool-cases,
  ℕ_discrete,
}
use ntu_sc2005_xv.Prelude.Maps.{update}
use ntu_sc2005_xv.File.{
  nfile, fd_none, File, Ftable, alloc_loop, filealloc, filedup, Last, nothing, last_close,
  fileclose,
}

-- The table, and the file of each descriptor that is open in some process.
pub record System : Type 0 where
  pub table : Ftable
  pub fds : List ℕ

-- A system call sets up the fields of a file it got; the count stays.
pub data Step (s : System) : System → Type 0 where
  open_file :
      (f : ℕ) {t : Ftable}
      → filealloc s.table ≡ (some f, t)
      → Step s (record { table = t; fds = f ∷ s.fds })
  set_up :
      (f : ℕ) (x : File)
      → x.ref ≡ (s.table f).ref
      → Step s (record s { table = update s.table f x })
  duplicate :
      (xs ys : List ℕ) (f : ℕ) {t : Ftable}
      → s.fds ≡ xs ++ f ∷ ys
      → filedup f s.table ≡ some t
      → Step s (record { table = t; fds = f ∷ s.fds })
  close :
      (xs ys : List ℕ) (f : ℕ) {last : Last} {t : Ftable}
      → s.fds ≡ xs ++ f ∷ ys
      → fileclose f s.table ≡ some (last, t)
      → Step s (record { table = t; fds = xs ++ ys })

pub data Reach : System → Type 0 where
  here : (t : Ftable) → ((f : ℕ) → (t f).ref ≡ 0) → Reach (record { table = t; fds = [] })
  next : {s t : System} → Reach s → Step s t → Reach t

-- What `filealloc` returns: a file without references, which now has one.
alloc_loop_lem :
    (rest f : ℕ) (t : Ftable)
    → let r = alloc_loop rest f t in
      ((g : ℕ) × (r.0 ≡ some g)
        × ((t g).ref ≡ 0)
        × ((h : ℕ) → (r.1 h).ref ≡ (if g == h then 1 else (t h).ref)))
      ⊎ ((r.0 ≡ none) × (r.1 ≡ t) × ((h : ℕ) → f ≤ h → h < f + rest → (t h).ref ≢ 0))
unfolding alloc_loop
alloc_loop_lem zero f t = inr (refl, refl, λ h lo hi. absurd (omega arith))
alloc_loop_lem (suc rest) f t = elim (Bool-cases ((t f).ref == 0)) [
  | inl free ↦ rw (alloc_loop, free) (inl (f, refl, ground (arith, free), λ h. ground arith))
  | inr used ↦ elim (alloc_loop_lem rest (f + 1) t) [
    | inl (g, e, z, k) ↦ rw (alloc_loop, used) (inl (g, e, z, k))
    | inr (e, same, none_of) ↦
        rw (alloc_loop, used)
          (inr (
            e,
            same,
            λ h lo hi. elim (ℕ_discrete f h) [
              | yes eq ↦ ground (arith, used, ap (λ x. (t x).ref) eq)
              | no ne ↦ none_of h (omega arith) (omega arith)
            ],
          ))
  ]
]

-- The count of a file in a table that may not be there.
abbrev ref_in : Option Ftable → ℕ → ℕ
ref_in none g = 0
ref_in (some u) g = (u g).ref

abbrev table_of : Option (Last × Ftable) → Option Ftable
table_of none = none
table_of (some (_, u)) = some u

ref-filedup :
    (f : ℕ) (t : Ftable) {u : Ftable} (g : ℕ)
    → filedup f t ≡ some u
    → (u g).ref ≡ (if f == g then (t f).ref + 1 else (t g).ref)
unfolding filedup
ref-filedup f t g e = elim (Bool-cases (ltb (t f).ref 1)) [
  | inl bad ↦ absurd (ground (arith, e, bad))
  | inr good ↦
      let done : some (update t f (record (t f) { ref = (t f).ref + 1 })) ≡ some _ =
        rw (filedup, good) at e in
      subst (λ (o : Option Ftable). ref_in o g ≡ (if f == g then (t f).ref + 1 else (t g).ref)) done
        (ground arith)
]

fileclose-refs :
    (f : ℕ) (t : Ftable) (g : ℕ)
    → 0 < (t f).ref
    → ref_in (table_of (fileclose f t)) g ≡ (if f == g then (t f).ref - 1 else (t g).ref)
unfolding fileclose
fileclose-refs f t g used = elim (Bool-cases (ltb 0 ((t f).ref - 1))) [
  | inl more ↦ rw (fileclose, more) (ground (arith, used, more))
  | inr gone ↦ rw (fileclose, gone) (ground (arith, used, gone))
]

fileclose-none : (f : ℕ) (t : Ftable) → (t f).ref ≡ 0 → fileclose f t ≡ none
unfolding fileclose
fileclose-none f t z = ground (arith, z)

fileclose-some : (f : ℕ) (t : Ftable) → (t f).ref ≢ 0 → fileclose f t ≢ none
unfolding fileclose
fileclose-some f t used = elim (Bool-cases (ltb 0 ((t f).ref - 1))) [
  | inl more ↦ λ e. ground (arith, used, more, e)
  | inr gone ↦ λ e. ground (arith, used, gone, e)
]

ref-fileclose :
    (f : ℕ) (t : Ftable) {last : Last} {u : Ftable} (g : ℕ)
    → fileclose f t ≡ some (last, u)
    → (0 < (t f).ref) × ((u g).ref ≡ (if f == g then (t f).ref - 1 else (t g).ref))
ref-fileclose f t g e = elim (ℕ_discrete (t f).ref 0) [
  | yes z ↦ absurd (ground (arith, fileclose-none f t z, e))
  | no nz ↦
      let used : 0 < (t f).ref = omega arith in
      (
        used,
        ap (λ (o : Option (Last × Ftable)). ref_in (table_of o) g) (sym e)
            ∙ fileclose-refs f t g used,
      )
]

-- Each file has one reference for each descriptor.
pub Counts : System → Type 0
Counts s = (f : ℕ) → (s.table f).ref ≡ count f s.fds

Step-Counts : {s t : System} → Step s t → Counts s → Counts t
unfolding Counts filealloc filedup fileclose
Step-Counts {s} (open_file f e) h = λ g. elim (alloc_loop_lem nfile 0 s.table) [
  | inl (f', e', z, k) ↦ ground (arith, k g, h g, ap (λ r. r.0) e, ap (λ r. (r.1 g).ref) e, e')
  | inr (e', _, _) ↦ absurd (ground (arith, ap (λ (r : Option ℕ × Ftable). r.0) e, e'))
]
Step-Counts {s} (set_up f x same) h = λ g. elim (ℕ_discrete f g) [
  | yes eq ↦ ground (arith, same, h g, ap (λ z. (s.table z).ref) eq)
  | no ne ↦ ground (arith, h g)
]
Step-Counts {s} (duplicate xs ys f e done) h =
    λ g. ground (arith, h g, h f, ref-filedup f s.table g done)
Step-Counts {s} (close xs ys f e done) h = λ g. ground (
  arith,
  h g,
  h f,
  ref-fileclose f s.table g done,
  ap (count g) e,
  count-append g xs (f ∷ ys),
  count-append g xs ys,
)

Reach-Counts : {s : System} → Reach s → Counts s
unfolding Counts
Reach-Counts (here t z) = λ f. z f
Reach-Counts (next r st) = Step-Counts st (Reach-Counts r)

-- In every reachable state the reference count of a file is the number of descriptors that refer to
-- it; so `filedup` and `fileclose` of an open descriptor do not panic, and `filealloc` returns a file
-- that no descriptor refers to, or none if every file is in use.
pub file_refs :
    {s : System} (f : ℕ)
    → Reach s
    → ((s.table f).ref ≡ count f s.fds)
      × (count f s.fds ≢ 0 → (filedup f s.table ≢ none) × (fileclose f s.table ≢ none))
      × ((g : ℕ) → (filealloc s.table).0 ≡ some g → count g s.fds ≡ 0)
      × ((filealloc s.table).0 ≡ none → f < nfile → count f s.fds ≢ 0)
unfolding Counts filedup filealloc
file_refs {s} f r =
    let h = Reach-Counts r in
    (
      h f,
      λ refers. (
        λ e. ground (arith, h f, refers, e),
        fileclose-some f s.table (λ z. refers (sym (h f) ∙ z)),
      ),
      λ g e. elim (alloc_loop_lem nfile 0 s.table) [
        | inl (g', e', z, _) ↦ ground (arith, e, e', z, h g)
        | inr (e', _, _) ↦ absurd (ground (arith, e, e'))
      ],
      λ e lt z. elim (alloc_loop_lem nfile 0 s.table) [
        | inl (g', e', _, _) ↦ absurd (ground (arith, e, e'))
        | inr (_, _, used) ↦ used f (omega arith) (omega arith) (h f ∙ z)
      ],
    )

-- Closing a file: only the last of its descriptors closes the pipe or puts the inode, and it leaves
-- the file free.
pub fileclose_last :
    {s : System} (f k : ℕ)
    → Reach s
    → count f s.fds ≡ suc k
    → (t : Ftable) × (fileclose f s.table
        ≡ some (if k == 0 then last_close (s.table f) (s.table f).kind else nothing, t))
      × ((t f).ref ≡ k)
      × (k ≡ 0 → (t f).kind ≡ fd_none)
unfolding Counts fileclose
fileclose_last {s} f k r e =
    let n : (s.table f).ref ≡ suc k = Reach-Counts r f ∙ e in
    elim (ℕ_discrete k 0) [
      | yes z ↦ (
        update s.table f (record (s.table f) { ref = 0; kind = fd_none }),
        ground (arith, n, z),
        ground (arith, z),
        λ _. ground arith,
      )
      | no nz ↦ (
        update s.table f (record (s.table f) { ref = (s.table f).ref - 1 }),
        ground (arith, n, nz),
        ground (arith, n),
        λ z. absurd (nz z),
      )
    ]
