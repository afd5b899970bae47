-- ===== src/Log/Commit.antt =====
-- `commit` of kernel/log.c, up to any crash.
use ntu_sc2005_xv.Prelude.{
  ℕ, zero, suc, ◌+◌, ◌-◌, ◌*◌, ◌≤◌, ◌<◌, ◌≡◌, ◌≢◌, ◌⊎◌, inl, inr, ◌∙◌, ap, sym, subst, ℕ_discrete,
  List, false, ltb, Bool-cases, arith,
}
use ntu_sc2005_xv.Log.{
  Block, Fs, Log, peek, write_log, install_trans, write_head, clear_n, commit, initlog,
}
use ntu_sc2005_xv.Log.Replay.{replay, head_n, head_block, log_block, IsHome, replay-contents}
use ntu_sc2005_xv.Log.Steps.{
  header, header_n, header_block, disk-write_head, log-write_head, power-write_head,
  peek-write_head,
}
use ntu_sc2005_xv.Log.Recover.{
  boots, boots_lem, recover_lem, Holds, Settled, Settled-Holds, clear_at, log-install_trans,
  power-install_trans, install_trans-Holds, install_trans_placed,
}
use ntu_sc2005_xv.Log.Install.{Fits, Committed}
use ntu_sc2005_xv.Log.Append.{Logged, power-write_loop, write_log_lem}

-- Between system calls: the log on the disk is empty, and a home block that is not in the
-- transaction is on the disk as readers see it.
pub record Ready (s : Fs) : Type 0 where
  pub fits : Fits s.log
  pub empty : head_n s.log.start s.disk ≡ 0
  pub clean :
      (c : ℕ)
      → IsHome s.log.start s.log.size c
      → ((i : ℕ) → i < s.log.n → s.log.block i ≢ c)
      → s.disk c ≡ peek s c

-- Whether the transaction holds block `c`.
find_entry :
    (n : ℕ) (block : ℕ → ℕ) (c : ℕ)
    → ((i : ℕ) × (i < n) × (block i ≡ c)) ⊎ ((i : ℕ) → i < n → block i ≢ c)
find_entry zero block c = inr (λ i lt. absurd (omega arith))
find_entry (suc n) block c = elim (ℕ_discrete (block n) c) [
  | yes e ↦ inl (n, omega arith, e)
  | no ne ↦ elim (find_entry n block c) [
    | inl (i, lt, e) ↦ inl (i, omega arith, e)
    | inr none_of ↦ inr (λ i lt. grind (arith, none_of, ne))
  ]
]

module _ (s : Fs) (ready : Ready s) where
  open s.log use {start, size, n, block}
  open ready use {fits, empty, clean}

  s₁ : Fs
  s₁ = write_log s

  abbrev s₂ : Fs
  s₂ = write_head s₁

  logged : Logged (peek s) n s s₁
  unfolding s₁
  logged = write_log_lem s fits

  power₁ : s₁.power ≡ s.power - n
  unfolding s₁ write_log
  power₁ = power-write_loop n 0 s

  log₂ : s₂.log ≡ s.log
  log₂ = log-write_head s₁ ∙ logged.log_same

  start₁ : s₁.log.start ≡ start
  start₁ = ap (λ (l : Log). l.start) logged.log_same

  fits₂ : Fits s₂.log
  fits₂ = rw log₂ fits

  -- The power failed before the header was written.
  early : s₁.power ≡ 0 → Holds start size s.disk s₂.disk
  early off = Settled-Holds (omega (arith, fits.room)) (record {
    empty = ap (λ (b : Block). b 0) (same start (inl (omega arith))) ∙ empty;
    in_place = λ c home. same c (ground arith);
  })
    where
      same : (c : ℕ) → (c ≤ start) ⊎ (start + size ≤ c) → s₂.disk c ≡ s.disk c
      same c o = ground (arith, disk-write_head s₁ c, logged.others c o)

  -- The header was written: this is the point of the commit.
  module _ (on : s₁.power ≢ 0) where
    at_start : s₂.disk start ≡ header s₁
    at_start = ground (arith, disk-write_head s₁ start, start₁)

    at_n : head_n start s₂.disk ≡ n
    at_n = ap (λ (b : Block). b 0) at_start ∙ header_n s₁ ∙ ap (λ (l : Log). l.n) logged.log_same

    at_block : (i : ℕ) → i < n → head_block start s₂.disk i ≡ block i
    at_block i lt =
        ap (λ (b : Block). b (i + 1)) at_start
        ∙ header_block s₁ i (subst (λ (l : Log). i < l.n) (sym logged.log_same) lt)
        ∙ ap (λ (l : Log). l.block i) logged.log_same

    at_log : (i : ℕ) → i < n → log_block start s₂.disk i ≡ peek s (block i)
    at_log i lt = ground (arith, disk-write_head s₁ (start + i + 1), start₁, logged.on_disk on i)

    committed : Committed s₂
    committed = record {
      same_n = subst (λ (l : Log). head_n l.start s₂.disk ≡ l.n) (sym log₂) at_n;
      same_block =
          subst (λ (l : Log). (i : ℕ) → i < l.n → head_block l.start s₂.disk i ≡ l.block i)
            (sym log₂) at_block;
    }

    in_log :
        (c : ℕ)
        → IsHome start size c
        → (s₂.disk c ≡ peek s c) ⊎ ((i : ℕ) × (i < n) × (head_block start s₂.disk i ≡ c))
    in_log c home = elim (find_entry n block c) [
      | inl (i, lt, e) ↦ inr (i, lt, at_block i lt ∙ e)
      | inr none_of ↦ inl (
          ground (
            arith,
            disk-write_head s₁ c,
            start₁,
            logged.others c (ground arith),
            clean c home none_of,
          ))
    ]

    late : Holds start size (peek s) s₂.disk
    late = record {
      ok = record {
        room = subst (λ k. k + 1 ≤ size) (sym at_n) fits.room;
        homes = λ i lt.
            let lt' : i < n = subst (λ k. i < k) at_n lt in
            subst (IsHome start size) (sym (at_block i lt')) (fits.homes i lt');
      };
      keeps = λ c home.
          ap (λ k. replay k (head_block start s₂.disk) (log_block start s₂.disk) s₂.disk c) at_n
          ∙ replay-contents n (head_block start s₂.disk) (log_block start s₂.disk) s₂.disk (peek s)
              c (λ i lt. at_log i lt ∙ ap (peek s) (sym (at_block i lt))) (in_log c home);
    }

    same_log :
        (i : ℕ) → i < s₂.log.n → peek s₂ (s₂.log.start + i + 1) ≡ log_block s₂.log.start s₂.disk i
    same_log =
        subst
          (λ (l : Log). (i : ℕ) → i < l.n → peek s₂ (l.start + i + 1) ≡ log_block l.start s₂.disk i)
          (sym log₂)
          λ i lt.
            ground (arith, peek-write_head s₁ (start + i + 1), start₁, logged.in_cache i, at_log i)

  -- The rest of `commit`, from a header that is on the disk or a power failure.
  module _ (new : ℕ → Block) (k : (s₂.power ≡ 0) ⊎ Committed s₂)
      (holds : Holds start size new s₂.disk) where
    holds₂ : Holds s₂.log.start s₂.log.size new s₂.disk
    holds₂ = subst (λ (l : Log). Holds l.start l.size new s₂.disk) (sym log₂) holds

    log₃ : (install_trans false s₂).log ≡ s.log
    log₃ = log-install_trans false s₂ new fits₂ k holds₂ ∙ log₂

    finish :
        ((install_trans false s₂).power ≢ 0
          → (c : ℕ) → IsHome start size c
          → (install_trans false s₂).disk c ≡ new c)
        → let t = write_head (clear_n (install_trans false s₂)) in
          Holds start size new t.disk
          × ((install_trans false s₂).power ≢ 0 → Settled start size new t.disk)
    finish =
        clear_at start size (install_trans false s₂) new (ap (λ (l : Log). l.start) log₃)
          (ap (λ (l : Log). l.size) log₃)
          (subst (λ (l : Log). Holds l.start l.size new (install_trans false s₂).disk) log₂
            (install_trans-Holds false s₂ new fits₂ k holds₂))

  abbrev s₃ : Fs
  s₃ = install_trans false s₂

  power₃ : s₃.power ≡ s.power - n - 1 - n
  power₃ =
      omega (
        arith,
        power-install_trans false s₂,
        power-write_head s₁,
        power₁,
        ap (λ (l : Log). l.n) log₂,
      )

  finish_early : s₁.power ≡ 0 → Holds start size s.disk (write_head (clear_n s₃)).disk
  finish_early off =
      let dead : s₂.power ≡ 0 = omega (arith, power-write_head s₁) in
      (finish s.disk (inl dead) (early off)
        (λ on. absurd (on (power-install_trans false s₂ ∙ omega arith)))).0

  finish_late :
      s₁.power ≢ 0
      → Holds start size (peek s) (write_head (clear_n s₃)).disk
        × (s₃.power ≢ 0 → Settled start size (peek s) (write_head (clear_n s₃)).disk)
  finish_late on =
      let k = inr (committed on) in
      finish (peek s) k (late on) (
        subst (λ (l : Log). s₃.power ≢ 0 → (c : ℕ) → IsHome l.start l.size c → s₃.disk c ≡ peek s c)
          log₂
          (install_trans_placed false s₂ (peek s) fits₂ k (holds₂ (peek s) k (late on))
            (same_log on)))

  outcome :
      let t = write_head (clear_n s₃) in
      (Holds start size s.disk t.disk ⊎ Holds start size (peek s) t.disk)
      × (2 * n + 1 < s.power → Settled start size (peek s) t.disk)
  outcome = elim (ℕ_discrete s₁.power 0) [
    | yes off ↦ (inl (finish_early off), λ enough. absurd (omega (arith, power₁)))
    | no on ↦
        let (holds, settled) = finish_late on in
        (inr holds, λ enough. settled (omega (arith, power₃)))
  ]

  nothing_to_do : n ≡ 0 → Settled start size (peek s) s.disk
  nothing_to_do z = record {
    empty = empty;
    in_place = λ c home. clean c home (λ i lt. absurd (omega arith));
  }

-- `commit` in a state between system calls is atomic: wherever a crash stops it, recovery finds
-- either the disk as it was before or every block as readers see it, and nothing in between; and
-- with the power for its 2n + 2 writes it leaves every block in place and the log empty.
pub commit_lem :
    (s : Fs)
    → Ready s
    → (Holds s.log.start s.log.size s.disk (commit s).disk
        ⊎ Holds s.log.start s.log.size (peek s) (commit s).disk)
      × (2 * s.log.n + 1 < s.power → Settled s.log.start s.log.size (peek s) (commit s).disk)
unfolding commit s₁
commit_lem s ready = elim (Bool-cases (ltb 0 s.log.n)) [
  | inl some_blocks ↦ rw some_blocks (outcome s ready)
  | inr no_block ↦
      let settled = nothing_to_do s ready (ground arith) in
      rw no_block (inr (Settled-Holds (omega (arith, ready.fits.room)) settled), λ _. settled)
]

-- Crash safety: from a state between system calls, cut off `commit` anywhere, then cut off any
-- number of recoveries anywhere; a recovery with at least as much power as the log has blocks ends
-- with an empty log and every home block as it was before the transaction, or every home block as
-- the transaction left it.
pub crash_safe :
    (s : Fs) (powers : List ℕ) (power : ℕ)
    → Ready s
    → s.log.size ≤ power
    → let start = s.log.start in
      let size = s.log.size in
      let d = (initlog start size power (boots start size powers (commit s).disk)).disk in
      Settled start size s.disk d ⊎ Settled start size (peek s) d
crash_safe s powers power ready enough = elim (commit_lem s ready).0 [
  | inl old ↦ inl (last s.disk (boots_lem s.log.start s.log.size powers (commit s).disk s.disk old))
  | inr new ↦
      inr (last (peek s) (boots_lem s.log.start s.log.size powers (commit s).disk (peek s) new))
]
  where
    last :
        (new : ℕ → Block)
        → Holds s.log.start s.log.size new (boots s.log.start s.log.size powers (commit s).disk)
        → Settled s.log.start s.log.size new
            (initlog s.log.start s.log.size power
              (boots s.log.start s.log.size powers (commit s).disk)).disk
    last new h =
        (recover_lem s.log.start s.log.size power
            (boots s.log.start s.log.size powers (commit s).disk) new h).1
          (omega (arith, h.ok.room))
