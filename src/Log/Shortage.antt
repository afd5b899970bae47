-- ===== src/Log/Shortage.antt =====
-- The reservations of kernel/log.c against the room of a log that is made as mkfs makes it.
use ntu_sc2005_xv.Prelude.{
  ℕ, zero, suc, ◌+◌, ◌-◌, ◌*◌, ◌<◌, ◌≡◌, refl, sym, ◌∙◌, ap, false, none, some, List, [], ◌∷◌, ◌++◌,
  eq→==, ltb, leb, ◌||◌, arith, ℕ_discrete,
}
use ntu_sc2005_xv.Prelude.Maps.{update}
use ntu_sc2005_xv.Log.{Fs, logsize, maxopblocks, begin_op, bpin, find_block, log_write}
use ntu_sc2005_xv.Log.Absorb.{find_block-le, find_block-found}
use ntu_sc2005_xv.Log.Reserve.{System, enter, write, Reach, next, here}

-- `log_write` of a block that is not logged yet.
abbrev logged : ℕ → Fs → Fs
logged b s = record s {
  pins = update s.pins b (s.pins b + 1);
  log = record s.log { n = s.log.n + 1; block = update s.log.block s.log.n b };
}

log_write-new :
    (b : ℕ) (s : Fs)
    → s.log.n < logsize
    → s.log.n < s.log.size - 1
    → 0 < s.log.outstanding
    → find_block s.log.n 0 s.log.block b ≡ s.log.n
    → log_write b s ≡ some (logged b s)
unfolding log_write bpin
log_write-new b s small room out new =
    let fits : (leb logsize s.log.n || leb (s.log.size - 1) s.log.n) ≡ false =
      ground (arith, small, room) in
    let open_now : ltb s.log.outstanding 1 ≡ false = ground (arith, out) in
    rw (log_write, fits, open_now, new, eq→== s.log.n s.log.n refl) refl

module _ (blocks : ℕ → ℕ) (distinct : (i j : ℕ) → blocks i ≡ blocks j → i ≡ j) where
  -- Three operations are outstanding, and the first `i` blocks are logged.
  record Holding (i : ℕ) (s : Fs) : Type 0 where
    count : s.log.n ≡ i
    entries : (j : ℕ) → j < i → s.log.block j ≡ blocks j
    size : s.log.size ≡ logsize
    out : s.log.outstanding ≡ 3

  not_logged :
      (i : ℕ) (s : Fs) → Holding i s → find_block s.log.n 0 s.log.block (blocks i) ≡ s.log.n
  not_logged i s h =
      let at = find_block s.log.n 0 s.log.block (blocks i) in
      let le = find_block-le s.log.n 0 s.log.block (blocks i) in
      elim (ℕ_discrete at s.log.n) [
        | yes e ↦ e
        | no ne ↦
            let inside : at < s.log.n = omega (arith, le, ne) in
            let found = find_block-found s.log.n 0 s.log.block (blocks i) (omega (arith, inside)) in
            let same =
              distinct at i (sym (h.entries at (omega (arith, inside, h.count))) ∙ found) in
            absurd (omega (arith, same, inside, h.count))
      ]

  logged-Holding : (i : ℕ) (s : Fs) → Holding i s → Holding (suc i) (logged (blocks i) s)
  logged-Holding i s h = record {
    count = omega (arith, h.count);
    entries = λ j l. elim (ℕ_discrete s.log.n j) [
      | yes e ↦ let last : i ≡ j = omega (arith, e, h.count) in ground (arith, e, ap blocks last)
      | no ne ↦ ground (arith, ne, h.entries j (omega (arith, ne, l, h.count)))
    ];
    size = h.size;
    out = h.out;
  }

  -- `m` calls of `log_write` by one of the operations.
  write_many :
      (m i j k : ℕ) (xs ys : List ℕ) {s : System} (t : System)
      → Reach s t
      → Holding i t.fs
      → t.left ≡ xs ++ j ∷ ys
      → j ≡ m + k
      → i + m < logsize
      → (u : System) × Reach s u × (u.left ≡ xs ++ k ∷ ys) × Holding (i + m) u.fs
  write_many zero i j k xs ys {s} t r h own e small =
      let same : j ≡ k = omega (arith, e) in
      let none_more : i ≡ i + 0 = omega arith in
      (t, r, own ∙ ap (λ w. xs ++ w ∷ ys) same, rw (← none_more) h)
  write_many (suc m) i j k xs ys {s} t r h own e small =
      let (u, r', own', h') =
        write_many m i j (suc k) xs ys t r h own (omega (arith, e)) (omega (arith, small)) in
      let b = blocks (i + m) in
      let more : suc (i + m) ≡ i + suc m = omega arith in
      let ok =
        log_write-new b u.fs (omega (arith, h'.count, small))
          (omega (arith, h'.count, h'.size, small)) (omega (arith, h'.out))
          (not_logged (i + m) u.fs h') in
      (
        record { fs = logged b u.fs; left = xs ++ k ∷ ys },
        next r' (write xs ys k b own' ok),
        refl,
        rw (← more) (logged-Holding (i + m) u.fs h'),
      )

  -- One more operation.
  abbrev entered : System → System
  entered s = record {
    fs = record s.fs { log = record s.fs.log { outstanding = s.fs.log.outstanding + 1 } };
    left = maxopblocks ∷ s.left;
  }

  enter_next :
      {s : System} (t : System)
      → Reach s t
      → t.fs.log.committing ≡ false
      → t.fs.log.n ≡ 0
      → t.fs.log.outstanding < 3
      → Reach s (entered t)
  unfolding begin_op
  enter_next t r idle empty few =
      let room : ltb logsize (t.fs.log.n + (t.fs.log.outstanding + 1) * maxopblocks) ≡ false =
        ground (arith, empty, few) in
      next r (enter (rw (begin_op, idle, room) refl))

  -- In a log of LOGSIZE blocks, one of them for the header, as mkfs makes it, with no operation
  -- outstanding and no block logged, `begin_op` lets three operations in; and they can log LOGSIZE - 1
  -- distinct blocks so that one of them has a call of `log_write` left, in which it panics, whatever
  -- its block is.
  pub reserve_short :
      (s : System)
      → s.left ≡ []
      → s.fs.log.outstanding ≡ 0
      → s.fs.log.committing ≡ false
      → s.fs.log.n ≡ 0
      → s.fs.log.size ≡ logsize
      → (t : System) × Reach s t
        × (t.left ≡ 0 ∷ 0 ∷ 1 ∷ [])
        × (t.fs.log.n ≡ logsize - 1)
        × ((i : ℕ) → i < logsize - 1 → t.fs.log.block i ≡ blocks i)
        × ((b : ℕ) → log_write b t.fs ≡ none)
  unfolding log_write
  reserve_short s free out idle empty size =
      let s₁ = entered s in
      let r₁ : Reach s s₁ = enter_next s here idle empty (omega (arith, out)) in
      let s₂ = entered s₁ in
      let r₂ : Reach s s₂ = enter_next s₁ r₁ idle empty (omega (arith, out)) in
      let s₃ = entered s₂ in
      let r₃ : Reach s s₃ = enter_next s₂ r₂ idle empty (omega (arith, out)) in
      let h₃ : Holding 0 s₃.fs = record {
        count = empty;
        entries = λ j l. absurd (omega (arith, l));
        size = size;
        out = omega (arith, out);
      } in
      let own : s₃.left ≡ 10 ∷ 10 ∷ 10 ∷ [] = ap (λ l. 10 ∷ 10 ∷ 10 ∷ l) free in
      let (s₄, r₄, own₄, h₄) =
        write_many 10 0 10 0 [] (10 ∷ 10 ∷ []) s₃ r₃ h₃ own refl (omega arith) in
      let (s₅, r₅, own₅, h₅) =
        write_many 10 10 10 0 (0 ∷ []) (10 ∷ []) s₄ r₄ h₄ own₄ refl (omega arith) in
      let (t, r, own', h) = write_many 9 20 10 1 (0 ∷ 0 ∷ []) [] s₅ r₅ h₅ own₅ refl (omega arith) in
      (t, r, own', h.count, h.entries, λ b. ground (arith, h.count, h.size))
