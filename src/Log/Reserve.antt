-- ===== src/Log/Reserve.antt =====
-- The reservations of kernel/log.c: `begin_op` lets an operation in only if MAXOPBLOCKS blocks for
-- each outstanding operation still fit the log.
use ntu_sc2005_xv.Prelude.{
  ℕ, zero, suc, ◌+◌, ◌-◌, ◌*◌, ◌≤◌, ◌<◌, ◌≡◌, ◌≢◌, refl, ◌∙◌, ap, Bool, true, false, none, some,
  List, [], ◌∷◌, ◌++◌, length, ltb, arith, sym, ◌⊎◌, Bool-cases, inl, inr, length-append,
}
use ntu_sc2005_xv.Log.{
  Fs, Log, logsize, maxopblocks, begin_op, end_op_start, end_op_commit, commit, write_log,
  install_trans, write_head, clear_n, log_write, bpin, write_loop, install_loop,
}
use ntu_sc2005_xv.Log.Steps.{
  log-install_step, install_loop-suc, install_step, write_step, write_loop-suc, log-write_step,
  log-write_head,
}

-- The file system, and for each outstanding operation the log_write calls that it has left. `leave`
-- is end_op up to where it releases the lock; the others go on while it commits, up to `commits`.
pub record System : Type 0 where
  pub fs : Fs
  pub left : List ℕ

pub data Step (s : System) : System → Type 0 where
  enter :
      {l : Log}
      → begin_op s.fs.log ≡ some l
      → Step s (record { fs = record s.fs { log = l }; left = maxopblocks ∷ s.left })
  write :
      (xs ys : List ℕ) (k b : ℕ) {t : Fs}
      → s.left ≡ xs ++ suc k ∷ ys
      → log_write b s.fs ≡ some t
      → Step s (record { fs = t; left = xs ++ k ∷ ys })
  leave :
      (xs ys : List ℕ) (k : ℕ) {do_commit : Bool} {l : Log}
      → s.left ≡ xs ++ k ∷ ys
      → end_op_start s.fs.log ≡ some (do_commit, l)
      → Step s (record { fs = record s.fs { log = l }; left = xs ++ ys })
  commits : s.fs.log.committing ≡ true → Step s (record { fs = end_op_commit s.fs; left = s.left })

pub data Reach (s : System) : System → Type 0 where
  here : Reach s s
  next : {t u : System} → Reach s t → Step t u → Reach s u

abbrev pub sum : List ℕ → ℕ
sum [] = 0
sum (x ∷ xs) = x + sum xs

sum-append : (xs ys : List ℕ) → sum (xs ++ ys) ≡ sum xs + sum ys
sum-append [] ys = omega arith
sum-append (x ∷ xs) ys = omega (arith, sum-append xs ys)

abbrev pub Quotas : List ℕ → Type 0
Quotas [] = Unit
Quotas (x ∷ xs) = (x ≤ maxopblocks) × Quotas xs

sum-Quotas : (xs : List ℕ) → Quotas xs → sum xs ≤ length xs * maxopblocks
sum-Quotas [] q = omega arith
sum-Quotas (x ∷ xs) q = omega (arith, sum-Quotas xs q.1)

Quotas-write : (xs ys : List ℕ) (k : ℕ) → Quotas (xs ++ suc k ∷ ys) → Quotas (xs ++ k ∷ ys)
Quotas-write [] ys k q = (omega arith, q.1)
Quotas-write (x ∷ xs) ys k q = (q.0, Quotas-write xs ys k q.1)

Quotas-leave : (xs ys : List ℕ) (k : ℕ) → Quotas (xs ++ k ∷ ys) → Quotas (xs ++ ys)
Quotas-leave [] ys k q = q.1
Quotas-leave (x ∷ xs) ys k q = (q.0, Quotas-leave xs ys k q.1)

-- Every block that an operation may still log has its place.
pub record IsReserved (s : System) : Type 0 where
  pub ops : s.fs.log.outstanding ≡ length s.left
  pub idle : (s.fs.log.committing ≡ false) ⊎ (s.left ≡ [])
  pub fits : s.fs.log.n + sum s.left ≤ logsize
  pub quotas : Quotas s.left

log-install_loop : (r : Bool) (rest tail : ℕ) (s : Fs) → (install_loop r rest tail s).log ≡ s.log
unfolding install_loop
log-install_loop r zero tail s = refl
log-install_loop r (suc rest) tail s =
    rw (install_loop-suc r rest tail s)
      (log-install_loop r rest (tail + 1) (install_step r tail s) ∙ log-install_step r tail s)

log-write_loop : (rest tail : ℕ) (s : Fs) → (write_loop rest tail s).log ≡ s.log
unfolding write_loop
log-write_loop zero tail s = refl
log-write_loop (suc rest) tail s =
    rw (write_loop-suc rest tail s)
      (log-write_loop rest (tail + 1) (write_step tail s) ∙ log-write_step tail s)

-- Whatever crash there is, `commit` leaves an empty transaction, and the rest of `struct log`.
pub log-commit : (s : Fs) → (commit s).log ≡ record s.log { n = 0 }
unfolding commit write_log install_trans
log-commit s = elim (Bool-cases (ltb 0 s.log.n)) [
  | inl more ↦
      let s₁ = write_loop s.log.n 0 s in
      let s₂ = write_head s₁ in
      let s₃ = install_loop false s₂.log.n 0 s₂ in
      rw more (
        log-write_head (clear_n s₃)
        ∙ ap (λ (l : Log). record l { n = 0 })
            (log-install_loop false s₂.log.n 0 s₂ ∙ log-write_head s₁ ∙ log-write_loop s.log.n 0 s))
  | inr no_block ↦ rw no_block (ground arith)
]

-- What `log_write` does to the fields that the reservations are about.
log_write-counts :
    (b : ℕ) (s : Fs) {t : Fs}
    → log_write b s ≡ some t
    → (t.log.outstanding ≡ s.log.outstanding)
      × (t.log.committing ≡ s.log.committing)
      × (t.log.size ≡ s.log.size)
      × (t.log.n ≤ s.log.n + 1)
unfolding log_write bpin
log_write-counts b s e = ground arith

-- And what `end_op` does.
end_op_start-counts :
    (l : Log) {do_commit : Bool} {m : Log}
    → end_op_start l ≡ some (do_commit, m)
    → (m.outstanding ≡ l.outstanding - 1)
      × ((m.committing ≡ false) ⊎ (m.outstanding ≡ 0))
      × (m.size ≡ l.size)
      × (m.n ≡ l.n)
unfolding end_op_start
end_op_start-counts l e = (ground arith, ground arith, ground arith, ground arith)

log-end_op_commit : (s : Fs) → (end_op_commit s).log ≡ record s.log { n = 0; committing = false }
unfolding end_op_commit
log-end_op_commit s = ap (λ (l : Log). record l { committing = false }) (log-commit s)

no_operation : (l : List ℕ) → length l ≡ 0 → l ≡ []
no_operation [] h = refl
no_operation (x ∷ l) h = absurd (omega (arith, h))

some_operation : (xs ys : List ℕ) (k : ℕ) → xs ++ k ∷ ys ≢ []
some_operation xs ys k e = omega (arith, ap length e, length-append {0} xs (k ∷ ys))

Step-size : {s t : System} → Step s t → t.fs.log.size ≡ s.fs.log.size
unfolding begin_op
Step-size (enter e) = ground arith
Step-size {s} (write xs ys k b h e) = (log_write-counts b s.fs e).2
Step-size {s} (leave xs ys k h e) = (end_op_start-counts s.fs.log e).2
Step-size {s} (commits c) = ap (λ (l : Log). l.size) (log-end_op_commit s.fs)

Step-IsReserved : {s t : System} → Step s t → IsReserved s → IsReserved t
unfolding begin_op
Step-IsReserved {s} (enter e) r = record {
  ops = ground (arith, r.ops);
  idle = inl (ground arith);
  fits = ground (arith, r.ops, sum-Quotas s.left r.quotas);
  quotas = (omega arith, r.quotas);
}
Step-IsReserved {s} (write xs ys k b h e) r =
    let (out, busy, _, few) = log_write-counts b s.fs e in
    record {
      ops = omega (
        arith,
        out,
        r.ops,
        ap length h,
        length-append {0} xs (suc k ∷ ys),
        length-append {0} xs (k ∷ ys),
      );
      idle = elim r.idle [
        | inl i ↦ inl (busy ∙ i)
        | inr none_left ↦ absurd (some_operation xs ys (suc k) (sym h ∙ none_left))
      ];
      fits =
          omega (arith, few, r.fits, ap sum h, sum-append xs (suc k ∷ ys), sum-append xs (k ∷ ys));
      quotas = Quotas-write xs ys k (rw h at r.quotas);
    }
Step-IsReserved {s} (leave xs ys k h e) r =
    let (out, busy, _, same) = end_op_start-counts s.fs.log e in
    let fewer : length s.left ≡ length (xs ++ ys) + 1 =
      omega (arith, ap length h, length-append {0} xs (k ∷ ys), length-append {0} xs ys) in
    record {
      ops = omega (arith, out, r.ops, fewer);
      idle = elim busy [
        | inl i ↦ inl i
        | inr last ↦ inr (no_operation (xs ++ ys) (omega (arith, last, out, r.ops, fewer)))
      ];
      fits = omega (arith, same, r.fits, ap sum h, sum-append xs (k ∷ ys), sum-append xs ys);
      quotas = Quotas-leave xs ys k (rw h at r.quotas);
    }
Step-IsReserved {s} (commits c) r =
    let same = log-end_op_commit s.fs in
    record {
      ops = ap (λ (l : Log). l.outstanding) same ∙ r.ops;
      idle = inl (ap (λ (l : Log). l.committing) same);
      fits = omega (arith, ap (λ (l : Log). l.n) same, r.fits);
      quotas = r.quotas;
    }

Reach-IsReserved : {s t : System} → Reach s t → IsReserved s → IsReserved t
Reach-IsReserved here h = h
Reach-IsReserved (next r st) h = Step-IsReserved st (Reach-IsReserved r h)

Reach-size : {s t : System} → Reach s t → t.fs.log.size ≡ s.fs.log.size
Reach-size here = refl
Reach-size (next r st) = Step-size st ∙ Reach-size r

write_fits :
    (b : ℕ) (s : Fs)
    → s.log.n < logsize
    → s.log.n < s.log.size - 1
    → 0 < s.log.outstanding
    → log_write b s ≢ none
unfolding log_write
write_fits b s small room out e = ground arith

-- With an on-disk log of more than LOGSIZE blocks, from a state whose reservations fit, let operations
-- that each make at most MAXOPBLOCKS calls of `log_write` enter, write and leave in whatever order,
-- also while the last one to leave commits. Then none of the panics of kernel/log.c comes about:
-- `log_write` of an operation with calls left has room and a transaction, and `end_op` of an
-- outstanding operation never finds the log committing. Commits are taken to find the buffers that
-- they need.
pub reserve_safe :
    {s t : System} (xs ys : List ℕ) (k b : ℕ)
    → IsReserved s
    → logsize < s.fs.log.size
    → Reach s t
    → (t.left ≡ xs ++ suc k ∷ ys → log_write b t.fs ≢ none)
      × (t.left ≡ xs ++ k ∷ ys → end_op_start t.fs.log ≢ none)
unfolding end_op_start
reserve_safe {s} {t} xs ys k b res big r =
    let inv = Reach-IsReserved r res in
    let size = Reach-size r in
    (
      λ own.
          let few : t.fs.log.n < logsize =
            omega (arith, inv.fits, ap sum own, sum-append xs (suc k ∷ ys)) in
          write_fits b t.fs few (omega arith)
            (omega (arith, inv.ops, ap length own, length-append {0} xs (suc k ∷ ys))),
      λ own e. elim inv.idle [
        | inl i ↦ ground (arith, i)
        | inr none_left ↦ some_operation xs ys k (sym own ∙ none_left)
      ],
    )
