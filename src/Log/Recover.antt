-- ===== src/Log/Recover.antt =====
-- Recovery of kernel/log.c, up to any crash.
use ntu_sc2005_xv.Prelude.{
  ℕ, zero, suc, ◌+◌, ◌-◌, ◌≤◌, ◌<◌, ◌≡◌, ◌≢◌, ◌⊎◌, inl, inr, refl, ◌∙◌, ap, sym, subst, fun_ext,
  ℕ_discrete, List, [], ◌∷◌, Bool, true, arith,
}
use ntu_sc2005_xv.Log.{
  Block, Fs, Log, peek, bread, install_loop, install_trans, read_head, write_head, clear_n,
  recover_from_log, initlog,
}
use ntu_sc2005_xv.Log.Replay.{replay, durable, head_n, head_block, log_block, IsHome, replay-congr}
use ntu_sc2005_xv.Log.Steps.{
  install_step, install_loop-suc, power-install_step, header, header_n, disk-write_head,
  disk-read_head, power-read_head, peek-read_head, start-read_head, size-read_head, n-read_head,
  block-read_head,
}
use ntu_sc2005_xv.Log.Install.{Fits, Committed, Installed, install_loop_lem, install_loop_disk}

-- The header on a disk has room in the log, and names home blocks.
pub record DiskOk (start size : ℕ) (d : ℕ → Block) : Type 0 where
  pub room : head_n start d + 1 ≤ size
  pub homes : (i : ℕ) → i < head_n start d → IsHome start size (head_block start d i)

pub DiskOk-congr :
    {start size : ℕ} {d d' : ℕ → Block}
    → d' start ≡ d start
    → DiskOk start size d
    → DiskOk start size d'
DiskOk-congr {start} {size} e ok = record {
  room = subst (λ (b : Block). b 0 + 1 ≤ size) (sym e) ok.room;
  homes = subst (λ (b : Block). (i : ℕ) → i < b 0 → IsHome start size (b (i + 1))) (sym e) ok.homes;
}

-- A disk on which recovery would give the home blocks the contents `new`.
pub record Holds (start size : ℕ) (new : ℕ → Block) (d : ℕ → Block) : Type 0 where
  pub ok : DiskOk start size d
  pub keeps : (c : ℕ) → IsHome start size c → durable start d c ≡ new c

-- A disk with an empty log, and the contents `new` in place.
pub record Settled (start size : ℕ) (new : ℕ → Block) (d : ℕ → Block) : Type 0 where
  pub empty : head_n start d ≡ 0
  pub in_place : (c : ℕ) → IsHome start size c → d c ≡ new c

pub Settled-Holds :
    {start size : ℕ} {new d : ℕ → Block}
    → 1 ≤ size
    → Settled start size new d
    → Holds start size new d
Settled-Holds {start} {size} {new} {d} h s = record {
  ok = record { room = omega (arith, s.empty); homes = λ i lt. absurd (omega (arith, s.empty)) };
  keeps = λ c home.
      ap (λ n. replay n (head_block start d) (log_block start d) d c) s.empty ∙ s.in_place c home;
}

pub power-install_loop :
    (r : Bool) (rest tail : ℕ) (s : Fs) → (install_loop r rest tail s).power ≡ s.power - rest
unfolding install_loop
power-install_loop r zero tail s = omega arith
power-install_loop r (suc rest) tail s = rw (install_loop-suc r rest tail s) (
    omega (
      arith,
      power-install_step r tail s,
      power-install_loop r rest (tail + 1) (install_step r tail s),
    ))

module _ (s : Fs) (new : ℕ → Block) where
  open s.log use {start, size}

  clear_off : s.power ≡ 0 → (write_head (clear_n s)).disk ≡ s.disk
  clear_off off = fun_ext λ c. ground (arith, disk-write_head (clear_n s) c)

  clear_on :
      1 ≤ size
      → s.power ≢ 0
      → ((c : ℕ) → IsHome start size c → s.disk c ≡ new c)
      → Settled start size new (write_head (clear_n s)).disk
  clear_on room on placed = record {
    empty = ap (λ (b : Block). b 0) at_start ∙ header_n (clear_n s);
    in_place = λ c home. ground (arith, disk-write_head (clear_n s) c, placed c home);
  }
    where
      at_start : (write_head (clear_n s)).disk start ≡ header (clear_n s)
      at_start = ground (arith, disk-write_head (clear_n s) start)

  -- Clearing the header at the end, once the blocks are in place.
  pub clear_lem :
      Holds start size new s.disk
      → (s.power ≢ 0 → (c : ℕ) → IsHome start size c → s.disk c ≡ new c)
      → Holds start size new (write_head (clear_n s)).disk
        × (s.power ≢ 0 → Settled start size new (write_head (clear_n s)).disk)
  clear_lem holds placed = elim (ℕ_discrete s.power 0) [
    | yes off ↦ (rw (clear_off off) holds, λ on. absurd (on off))
    | no on ↦
        let room : 1 ≤ size = omega (arith, holds.ok.room) in
        let settled = clear_on room on (placed on) in (Settled-Holds room settled, λ _. settled)
  ]

-- The same, where the place of the log is known by equations.
pub clear_at :
    (start size : ℕ) (t : Fs) (new : ℕ → Block)
    → t.log.start ≡ start
    → t.log.size ≡ size
    → Holds start size new t.disk
    → (t.power ≢ 0 → (c : ℕ) → IsHome start size c → t.disk c ≡ new c)
    → Holds start size new (write_head (clear_n t)).disk
      × (t.power ≢ 0 → Settled start size new (write_head (clear_n t)).disk)
clear_at start size t new e f = rw (← e, ← f) (clear_lem t new)

pub power-install_trans : (r : Bool) (s : Fs) → (install_trans r s).power ≡ s.power - s.log.n
unfolding install_trans
power-install_trans r s = power-install_loop r s.log.n 0 s

-- The state after `install_trans` of a log whose header is on the disk, if there is power left.
module _ (r : Bool) (s : Fs) (new : ℕ → Block) (fits : Fits s.log) (k : (s.power ≡ 0) ⊎ Committed s)
    (holds : Holds s.log.start s.log.size new s.disk) where
  open s.log use {start, size}

  installed : Installed s (install_trans r s)
  unfolding install_trans
  installed = install_loop_lem r s.log.n 0 s fits (omega arith) k

  pub log-install_trans : (install_trans r s).log ≡ s.log
  log-install_trans = installed.log_same

  pub install_trans-Holds : Holds start size new (install_trans r s).disk
  install_trans-Holds = record {
    ok = DiskOk-congr at_start holds.ok;
    keeps = λ c home. installed.keeps c ∙ holds.keeps c home;
  }
    where
      at_start : (install_trans r s).disk start ≡ s.disk start
      at_start = (installed.outside start (omega arith) (omega (arith, fits.room))).0

  -- With power left at the end every entry is installed.
  pub install_trans_placed :
      ((i : ℕ) → i < s.log.n → peek s (start + i + 1) ≡ log_block start s.disk i)
      → (install_trans r s).power ≢ 0
      → (c : ℕ) → IsHome start size c
      → (install_trans r s).disk c ≡ new c
  unfolding install_trans
  install_trans_placed same on c home =
      (install_loop_disk r s.log.n 0 s (log_block start s.disk) s.disk fits (omega arith)
          (omega (arith, power-install_trans r s)) same (λ x. refl)).1
        c
      ∙ sym (durable-committed k)
      ∙ holds.keeps c home
    where
      durable-committed :
          (s.power ≡ 0) ⊎ Committed s
          → durable start s.disk c ≡ replay s.log.n s.log.block (log_block start s.disk) s.disk c
      durable-committed (inl off) = absurd (omega (arith, power-install_trans r s))
      durable-committed (inr done) =
          ap (λ m. replay m (head_block start s.disk) (log_block start s.disk) s.disk c) done.same_n
          ∙ replay-congr s.log.n (head_block start s.disk) s.log.block (log_block start s.disk)
              (log_block start s.disk) s.disk s.disk c done.same_block (λ i lt. refl) refl

-- The log that `read_head` makes, before anything is cached.
module _ (s : Fs) (new : ℕ → Block) (holds : Holds s.log.start s.log.size new s.disk)
    (cold : (c : ℕ) → peek s c ≡ s.disk c) where
  open s.log use {start, size}

  head_read : peek s start ≡ s.disk start
  head_read = cold start

  read_n : (read_head s).log.n ≡ head_n start s.disk
  read_n = n-read_head s ∙ ap (λ (b : Block). b 0) head_read

  read_block :
      (i : ℕ) → i < (read_head s).log.n → (read_head s).log.block i ≡ head_block start s.disk i
  read_block i lt =
      block-read_head s i (rw (n-read_head s) at lt) ∙ ap (λ (b : Block). b (i + 1)) head_read

  read-Fits : Fits (read_head s).log
  read-Fits = record {
    room = rw (read_n, size-read_head s) holds.ok.room;
    homes = λ i lt.
        rw (start-read_head s, size-read_head s, read_block i lt)
          (holds.ok.homes i (rw read_n at lt));
  }

  read-Committed : Committed (read_head s)
  read-Committed = record {
    same_n = rw (start-read_head s, disk-read_head s) (sym read_n);
    same_block = λ i lt. rw (start-read_head s, disk-read_head s) (sym (read_block i lt));
  }

  read-Holds : Holds (read_head s).log.start (read_head s).log.size new (read_head s).disk
  read-Holds = rw (start-read_head s, size-read_head s, disk-read_head s) holds

  read_cold :
      (i : ℕ)
      → i < (read_head s).log.n
      → peek (read_head s) ((read_head s).log.start + i + 1)
        ≡ log_block (read_head s).log.start (read_head s).disk i
  read_cold i lt = peek-read_head s _ ∙ cold _ ∙ rw (disk-read_head s)

  pub recover_from_log_lem :
      Holds start size new (recover_from_log s).disk
      × (head_n start s.disk < s.power → Settled start size new (recover_from_log s).disk)
  unfolding recover_from_log read_head bread
  recover_from_log_lem =
      let s₁ = read_head s in
      let k : (s₁.power ≡ 0) ⊎ Committed s₁ = inr read-Committed in
      let e = log-install_trans true s₁ new read-Fits k read-Holds in
      let (kept, settled) =
        clear_at start size (install_trans true s₁) new
          (ap (λ (l : Log). l.start) e ∙ start-read_head s)
          (ap (λ (l : Log). l.size) e ∙ size-read_head s)
          (rw (start-read_head s, size-read_head s) at
            (install_trans-Holds true s₁ new read-Fits k read-Holds))
          (rw (start-read_head s, size-read_head s) at
            (install_trans_placed true s₁ new read-Fits k read-Holds read_cold)) in
      (
        kept,
        λ enough. settled (omega (arith, power-install_trans true s₁, power-read_head s, read_n)),
      )

-- A recovery of a disk that holds certain contents, in place or in its log, keeps them whatever
-- the crash; with the power for its writes it puts them in place and leaves the log empty.
pub recover_lem :
    (start size power : ℕ) (d : ℕ → Block) (new : ℕ → Block)
    → Holds start size new d
    → let s = initlog start size power d in
      Holds start size new s.disk × (head_n start d < power → Settled start size new s.disk)
unfolding initlog
recover_lem start size power d new holds = recover_from_log_lem _ new holds (λ c. refl)

-- Boots that are cut off one after the other, each after its number of block writes.
pub boots : ℕ → ℕ → List ℕ → (ℕ → Block) → ℕ → Block
boots start size [] d = d
boots start size (power ∷ powers) d = boots start size powers (initlog start size power d).disk

pub boots_lem :
    (start size : ℕ) (powers : List ℕ) (d new : ℕ → Block)
    → Holds start size new d
    → Holds start size new (boots start size powers d)
unfolding boots
boots_lem start size [] d new h = h
boots_lem start size (power ∷ powers) d new h =
    boots_lem start size powers (initlog start size power d).disk new
      (recover_lem start size power d new h).0
