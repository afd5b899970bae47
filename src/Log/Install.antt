-- ===== src/Log/Install.antt =====
-- The rounds of `install_trans` of kernel/log.c.
use ntu_sc2005_xv.Prelude.{
  ℕ, zero, suc, ◌+◌, ◌-◌, ◌≤◌, ◌<◌, ◌≡◌, ◌⊎◌, inl, inr, refl, ◌∙◌, ap, subst, Bool, ◌==◌,
  Bool-cases, arith,
}
use ntu_sc2005_xv.Log.{Block, Fs, Log, peek, install_loop}
use ntu_sc2005_xv.Log.Replay.{
  replay, durable, head_n, head_block, log_block, IsHome, replay-absorb, replay-congr,
  replay-add_one,
}
use ntu_sc2005_xv.Log.Steps.{
  install_step, install_loop-suc, log-install_step, power-install_step, disk-install_step,
  peek-install_step,
}

-- A log header in memory that a crash may find: its entries are home blocks and fit the log.
pub record Fits (l : Log) : Type 0 where
  pub room : l.n + 1 ≤ l.size
  pub homes : (i : ℕ) → i < l.n → IsHome l.start l.size (l.block i)

-- The header on the disk is the one in memory.
pub record Committed (s : Fs) : Type 0 where
  pub same_n : head_n s.log.start s.disk ≡ s.log.n
  pub same_block : (i : ℕ) → i < s.log.n → head_block s.log.start s.disk i ≡ s.log.block i

-- Two disks that agree on the log and differ at a home block only where the log has an entry.
durable-install :
    (start : ℕ) (d d' : ℕ → Block) (c : ℕ)
    → d' start ≡ d start
    → ((i : ℕ) → i < head_n start d → log_block start d' i ≡ log_block start d i)
    → (d' c ≡ d c) ⊎ ((i : ℕ) × (i < head_n start d) × (head_block start d i ≡ c))
    → durable start d' c ≡ durable start d c
durable-install start d d' c h l hit =
    ap (λ (b : Block). replay (b 0) (head_block start d') (log_block start d') d' c) h
    ∙ replay-congr (head_n start d) (head_block start d') (head_block start d) (log_block start d')
        (log_block start d) d' d' c (λ i lt. ap (λ (b : Block). b (i + 1)) h) l refl
    ∙ replay-absorb (head_n start d) (head_block start d) (log_block start d) d d' c hit

module _ (r : Bool) (tail : ℕ) (s : Fs) (fits : Fits s.log) (lt : tail < s.log.n) where
  -- A round of `install_trans` leaves the log and its header on the disk alone.
  step_outside :
      (c : ℕ)
      → s.log.start ≤ c
      → c < s.log.start + s.log.size
      → ((install_step r tail s).disk c ≡ s.disk c) × (peek (install_step r tail s) c ≡ peek s c)
  step_outside c lo hi =
      ground (arith, disk-install_step r tail s c, peek-install_step r tail s c, fits.homes tail lt)

  step_durable :
      (s.power ≡ 0) ⊎ Committed s
      → (c : ℕ) → durable s.log.start (install_step r tail s).disk c ≡ durable s.log.start s.disk c
  step_durable (inl off) c =
      durable-install s.log.start s.disk (install_step r tail s).disk c (same s.log.start)
        (λ i l. same (s.log.start + i + 1)) (inl (same c))
    where
      same : (x : ℕ) → (install_step r tail s).disk x ≡ s.disk x
      same x = ground (arith, disk-install_step r tail s x)
  step_durable (inr done) c =
      durable-install s.log.start s.disk (install_step r tail s).disk c
        (step_outside s.log.start (omega arith) (omega (arith, fits.room))).0
        (λ i l.
          (step_outside (s.log.start + i + 1) (omega arith)
            (omega (arith, fits.room, done.same_n))).0)
        hit
    where
      hit :
          ((install_step r tail s).disk c ≡ s.disk c)
          ⊎ ((i : ℕ) × (i < head_n s.log.start s.disk) × (head_block s.log.start s.disk i ≡ c))
      hit = elim (Bool-cases (s.log.block tail == c)) [
        | inl e ↦ inr (tail, ground (arith, done.same_n), ground (arith, done.same_block tail))
        | inr e ↦ inl (ground (arith, disk-install_step r tail s c))
      ]

  step_kept :
      (s.power ≡ 0) ⊎ Committed s
      → ((install_step r tail s).power ≡ 0) ⊎ Committed (install_step r tail s)
  step_kept (inl off) = inl (omega (arith, power-install_step r tail s))
  step_kept (inr done) =
      let at_start = step_outside s.log.start (omega arith) (omega (arith, fits.room)) in
      inr (record {
        same_n = rw log-install_step (ap (λ (b : Block). b 0) at_start.0 ∙ done.same_n);
        same_block =
            rw log-install_step
              (λ i l. ap (λ (b : Block). b (i + 1)) at_start.0 ∙ done.same_block i l);
      })

-- What the rest of the loop keeps, from `tail` on.
pub record Installed (s t : Fs) : Type 0 where
  pub log_same : t.log ≡ s.log
  pub outside :
      (c : ℕ)
      → s.log.start ≤ c
      → c < s.log.start + s.log.size
      → (t.disk c ≡ s.disk c) × (peek t c ≡ peek s c)
  pub keeps : (c : ℕ) → durable s.log.start t.disk c ≡ durable s.log.start s.disk c
  pub kept : (t.power ≡ 0) ⊎ Committed t

Installed-step :
    (r : Bool) (tail : ℕ) (s : Fs)
    → Fits s.log
    → tail < s.log.n
    → (s.power ≡ 0) ⊎ Committed s
    → Installed s (install_step r tail s)
Installed-step r tail s fits lt k = record {
  log_same = log-install_step r tail s;
  outside = step_outside r tail s fits lt;
  keeps = step_durable r tail s fits lt k;
  kept = step_kept r tail s fits lt k;
}

Installed-trans : {s t u : Fs} → Installed s t → Installed t u → Installed s u
Installed-trans {s} {t} {u} p q =
    let e = p.log_same in
    record {
      log_same = q.log_same ∙ e;
      outside = λ c lo hi.
          let (d, k) = q.outside c (rw e lo) (rw e hi) in
          let (d', k') = p.outside c lo hi in (d ∙ d', k ∙ k');
      keeps = λ c. rw e at (q.keeps c) ∙ p.keeps c;
      kept = q.kept;
    }

pub install_loop_lem :
    (r : Bool) (rest tail : ℕ) (s : Fs)
    → Fits s.log
    → tail + rest ≡ s.log.n
    → (s.power ≡ 0) ⊎ Committed s
    → Installed s (install_loop r rest tail s)
unfolding install_loop
install_loop_lem r zero tail s fits e k = record {
  log_same = refl;
  outside = λ c lo hi. (refl, refl);
  keeps = λ c. refl;
  kept = k;
}
install_loop_lem r (suc rest) tail s fits e k =
    let p = Installed-step r tail s fits (omega arith) k in
    let e' = p.log_same in
    rw (install_loop-suc r rest tail s) (
      Installed-trans p (
        install_loop_lem r rest (tail + 1) (install_step r tail s) (rw e' fits)
          (rw e' (omega arith)) p.kept))

-- With the power for all of its writes, the loop installs every entry.
pub install_loop_disk :
    (r : Bool) (rest tail : ℕ) (s : Fs) (logged d₀ : ℕ → Block)
    → Fits s.log
    → tail + rest ≡ s.log.n
    → rest ≤ s.power
    → ((i : ℕ) → i < s.log.n → peek s (s.log.start + i + 1) ≡ logged i)
    → ((c : ℕ) → s.disk c ≡ replay tail s.log.block logged d₀ c)
    → let t = install_loop r rest tail s in
      (t.power ≡ s.power - rest) × ((c : ℕ) → t.disk c ≡ replay s.log.n s.log.block logged d₀ c)
unfolding install_loop
install_loop_disk r zero tail s l d₀ fits e p hl hd = (
  omega arith,
  λ c. let e' : tail ≡ s.log.n = omega arith in hd c ∙ ap (λ k. replay k s.log.block l d₀ c) e',
)
install_loop_disk r (suc rest) tail s l d₀ fits e p hl hd =
    let t = install_step r tail s in
    let e' = log-install_step r tail s in
    let (q, hd') =
      install_loop_disk r rest (tail + 1) t l d₀ (rw e' fits) (rw e' (omega arith))
        (omega (arith, power-install_step r tail s))
        (rw e' (λ i lt.
          (step_outside r tail s fits (omega arith) (s.log.start + i + 1) (omega arith)
            (omega (arith, fits.room))).1
          ∙ hl i lt))
        (rw e' (λ c. one_more c)) in
    rw (install_loop-suc r rest tail s) (
      omega (arith, q, power-install_step r tail s),
      subst
          (λ (m : Log).
            (c : ℕ) → (install_loop r rest (tail + 1) t).disk c ≡ replay m.n m.block l d₀ c)
          e' hd',
    )
  where
    one_more : (c : ℕ) → (install_step r tail s).disk c ≡ replay (tail + 1) s.log.block l d₀ c
    one_more c =
        rw (replay-add_one tail s.log.block l d₀ c)
          (ground (arith, disk-install_step r tail s c, hd c, hl tail (omega arith)))
