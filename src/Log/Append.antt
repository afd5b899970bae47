-- ===== src/Log/Append.antt =====
-- The rounds of `write_log` of kernel/log.c.
use ntu_sc2005_xv.Prelude.{
  ℕ, zero, suc, ◌+◌, ◌-◌, ◌≤◌, ◌<◌, ◌≡◌, ◌≢◌, ◌⊎◌, refl, ◌∙◌, ap, subst, arith,
}
use ntu_sc2005_xv.Log.{Block, Fs, Log, peek, write_loop, write_log}
use ntu_sc2005_xv.Log.Steps.{
  write_step, write_loop-suc, log-write_step, power-write_step, disk-write_step, peek-write_step,
}
use ntu_sc2005_xv.Log.Install.{Fits}

-- The first `tail` blocks of the transaction are in the log, as `new` has them.
pub record Logged (new : ℕ → Block) (tail : ℕ) (s t : Fs) : Type 0 where
  pub log_same : t.log ≡ s.log
  pub others :
      (c : ℕ)
      → (c ≤ s.log.start) ⊎ (s.log.start + s.log.size ≤ c)
      → (t.disk c ≡ s.disk c) × (peek t c ≡ peek s c)
  pub in_cache : (i : ℕ) → i < tail → peek t (s.log.start + i + 1) ≡ new (s.log.block i)
  pub on_disk :
      t.power ≢ 0 → (i : ℕ) → i < tail → t.disk (s.log.start + i + 1) ≡ new (s.log.block i)

Logged-step :
    (s t : Fs) (tail : ℕ)
    → Fits s.log
    → tail < s.log.n
    → Logged (peek s) tail s t
    → Logged (peek s) (tail + 1) s (write_step tail t)
Logged-step s t tail fits lt l = record {
  log_same = log-write_step tail t ∙ l.log_same;
  others = λ c o. (
    ground (arith, disk-write_step tail t c, l.others c o),
    ground (arith, peek-write_step tail t c, l.others c o),
  );
  in_cache =
      λ i h. ground (arith, peek-write_step tail t (s.log.start + i + 1), l.in_cache i, from);
  on_disk = λ on i h. ground (
    arith,
    disk-write_step tail t (s.log.start + i + 1),
    power-write_step tail t,
    λ (on' : t.power ≢ 0). l.on_disk on' i,
    from,
  );
}
  where
    at : t.log.start ≡ s.log.start
    at = ap (λ (l : Log). l.start) l.log_same

    from : peek t (t.log.block tail) ≡ peek s (s.log.block tail)
    from =
        ap (λ (l : Log). peek t (l.block tail)) l.log_same
        ∙ (l.others (s.log.block tail) (ground (arith, fits.homes tail lt))).1

write_loop_lem :
    (s : Fs) (rest tail : ℕ) (t : Fs)
    → Fits s.log
    → tail + rest ≡ s.log.n
    → Logged (peek s) tail s t
    → Logged (peek s) s.log.n s (write_loop rest tail t)
unfolding write_loop
write_loop_lem s zero tail t fits e l =
    let e' : tail ≡ s.log.n = omega arith in subst (λ k. Logged (peek s) k s t) e' l
write_loop_lem s (suc rest) tail t fits e l = rw (write_loop-suc rest tail t) (
    write_loop_lem s rest (tail + 1) (write_step tail t) fits (omega arith)
      (Logged-step s t tail fits (omega arith) l))

pub power-write_loop : (rest tail : ℕ) (s : Fs) → (write_loop rest tail s).power ≡ s.power - rest
unfolding write_loop
power-write_loop zero tail s = omega arith
power-write_loop (suc rest) tail s =
    rw (write_loop-suc rest tail s)
      (omega (arith, power-write_step tail s, power-write_loop rest (tail + 1) (write_step tail s)))

pub write_log_lem : (s : Fs) → Fits s.log → Logged (peek s) s.log.n s (write_log s)
unfolding write_log
write_log_lem s fits = write_loop_lem s s.log.n 0 s fits (omega arith) (record {
  log_same = refl;
  others = λ c o. (refl, refl);
  in_cache = λ i h. absurd (omega arith);
  on_disk = λ on i h. absurd (omega arith);
})
