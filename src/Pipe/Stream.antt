-- ===== src/Pipe/Stream.antt =====
-- Readers and writers of one pipe of kernel/pipe.c, interleaved in any way.
use ntu_sc2005_xv.Prelude.{
  ℕ, ◌≤◌, ◌≡◌, inl, inr, refl, sym, Option, List, [], ◌++◌, length, append_assoc, Bool, true, false,
  arith,
}
use ntu_sc2005_xv.Pipe.{Pipe, pipesize, init, pipeclose, WriteRun, pipewrite, ReadRun, piperead}
use ntu_sc2005_xv.Pipe.Contents.{contents, count, IsValid, init-IsValid, length-window}
use ntu_sc2005_xv.Pipe.Write.{pipewrite_lem}
use ntu_sc2005_xv.Pipe.Read.{piperead_lem}

-- The pipe, the bytes that writers have put in so far, and those that readers have taken out.
pub record System : Type 0 where
  pub pipe : Pipe
  pub sent : List ℕ
  pub received : List ℕ

abbrev pub after_write : System → WriteRun → System
after_write s r = record s { pipe = r.pipe; sent = s.sent ++ r.moved }

abbrev pub after_read : {M : Type 0} → System → ReadRun M → System
after_read s r = record s { pipe = r.pipe; received = s.received ++ r.moved }

module _ {M : Type 0} (copyout : M → ℕ → ℕ → Option M) where
  -- Any process runs `pipewrite` or `piperead` up to its return or its sleep, or closes an end.
  pub data Step (s : System) : System → Type 0 where
    write :
        (copyin : ℕ → Option ℕ) (killed : ℕ → Bool) (addr n i : ℕ)
        → Step s (after_write s (pipewrite copyin killed addr n i s.pipe))
    read :
        (addr : ℕ) (killed : Bool) (n : ℕ) (m : M)
        → Step s (after_read s (piperead copyout addr killed n s.pipe m))
    close : (writable : Bool) → Step s (record s { pipe = (pipeclose s.pipe writable).0 })

  pub data Reach (page : List ℕ) : System → Type 0 where
    here : Reach page (record { pipe = init page; sent = []; received = [] })
    next : {s t : System} → Reach page s → Step s t → Reach page t

  record Inv (s : System) : Type 0 where
    valid : IsValid s.pipe
    flow : s.sent ≡ s.received ++ contents s.pipe

  close-Inv : (s : System) (w : Bool) → Inv s → Inv (record s { pipe = (pipeclose s.pipe w).0 })
  unfolding pipeclose
  close-Inv s true v = record { valid = ground (arith, v.valid); flow = v.flow }
  close-Inv s false v = record { valid = ground (arith, v.valid); flow = v.flow }

  write-Inv :
      (s : System) (r : WriteRun)
      → IsValid r.pipe
      → contents r.pipe ≡ contents s.pipe ++ r.moved
      → Inv s
      → Inv (after_write s r)
  write-Inv s r v q inv = record {
    valid = v;
    flow = rw (inv.flow, q) (append_assoc s.received (contents s.pipe) r.moved);
  }

  read-Inv :
      (s : System) (r : ReadRun M)
      → IsValid r.pipe
      → contents s.pipe ≡ r.moved ++ contents r.pipe
      → Inv s
      → Inv (after_read s r)
  read-Inv s r v q inv = record {
    valid = v;
    flow = rw (inv.flow, q) (sym (append_assoc s.received r.moved (contents r.pipe)));
  }

  Step-Inv : {s t : System} → Step s t → Inv s → Inv t
  Step-Inv {s} (write copyin killed addr n i) inv =
      let r = pipewrite copyin killed addr n i s.pipe in
      let w = pipewrite_lem copyin killed addr n i s.pipe inv.valid in
      write-Inv s r w.valid w.queue inv
  Step-Inv {s} (read addr killed n m) inv =
      let r = piperead copyout addr killed n s.pipe m in
      elim (piperead_lem copyout addr killed n s.pipe m inv.valid) [
        | inl (_, _, same, _, none_moved, _) ↦
            read-Inv s r (rw same inv.valid) (rw (none_moved, same)) inv
        | inr (_, c) ↦ read-Inv s r c.valid c.queue inv
      ]
  Step-Inv {s} (close w) inv = close-Inv s w inv

  Reach-Inv : {page : List ℕ} {s : System} → length page ≡ pipesize → Reach page s → Inv s
  unfolding init
  Reach-Inv {page} h here = record { valid = init-IsValid page h; flow = refl }
  Reach-Inv h (next r st) = Step-Inv st (Reach-Inv h r)

  -- From a fresh pipe, whatever the interleaving, the bytes taken out of the pipe are those put
  -- in, in order: what was sent is what was received, followed by what the pipe holds, and that is
  -- at most 512 bytes.
  pub stream :
      {page : List ℕ} {s : System}
      → length page ≡ pipesize
      → Reach page s
      → (s.sent ≡ s.received ++ contents s.pipe) × (length (contents s.pipe) ≤ pipesize)
  stream {s} h r =
      let inv = Reach-Inv h r in
      (
        inv.flow,
        omega (arith, length-window s.pipe.buf s.pipe.nread (count s.pipe), inv.valid.room),
      )
