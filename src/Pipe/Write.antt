-- ===== src/Pipe/Write.antt =====
-- `pipewrite` of kernel/pipe.c appends to the queue of bytes that the pipe holds.
use ntu_sc2005_xv.Prelude.{
  ℕ, zero, suc, ◌+◌, ◌-◌, ◌≤◌, ◌<◌, ◌≡◌, ◌⊎◌, inl, inr, refl, ap, sym, ◌∙◌, true, false, Option,
  none, some, List, [], ◌∷◌, ◌++◌, append-nil, append_assoc, length, Bool, Bool-cases, Option-cases,
  not, ◌||◌, arith,
}
use mathlib.Core.Path.{subst₂}
use ntu_sc2005_xv.Prelude.Int.{pos, negsuc}
use ntu_sc2005_xv.Prelude.Int.{u64}
use ntu_sc2005_xv.Pipe.{
  Pipe, pipesize, Chan, nread_chan, nwrite_chan, Outcome, returned, asleep, full, put, WriteRun,
  write_loop, pipewrite,
}
use ntu_sc2005_xv.Pipe.Contents.{
  contents, count, IsValid, full→count, full→lt, put-IsValid, contents-put,
}

readopen-put : (pi : Pipe) (ch : ℕ) → (put pi ch).readopen ≡ pi.readopen
unfolding put
readopen-put pi ch = refl

module _ (copyin : ℕ → Option ℕ) (killed : ℕ → Bool) (addr : ℕ) where
  -- The bytes are those of the caller's buffer from index `i` on, all of them mapped.
  abbrev pub Fetched : ℕ → List ℕ → Type 0
  Fetched i [] = Unit
  Fetched i (ch ∷ rest) = (copyin (u64 (addr + i)) ≡ some ch) × Fetched (i + 1) rest

  -- Why the run ended, `i` being the index that it reached with `left` bytes to go.
  abbrev pub Ended : Pipe → List Chan → ℕ → ℕ → Outcome → Type 0
  Ended pi wakes i left (returned (pos r)) =
      (r ≡ i) × ((left ≡ 0) ⊎ (copyin (u64 (addr + i)) ≡ none)) × (wakes ≡ nread_chan ∷ [])
  Ended pi wakes i left (returned (negsuc r)) =
      (r ≡ 0) × ((pi.readopen ≡ false) ⊎ (killed i ≡ true)) × (wakes ≡ [])
  Ended pi wakes i left (asleep c r) =
      (r ≡ i) × (c ≡ nwrite_chan) × (count pi ≡ pipesize) × (wakes ≡ nread_chan ∷ [])

  pub record Wrote (rest i : ℕ) (pi : Pipe) (r : WriteRun) : Type 0 where
    pub valid : IsValid r.pipe
    pub queue : contents r.pipe ≡ contents pi ++ r.moved
    pub bytes : Fetched i r.moved
    pub some_of : length r.moved ≤ rest
    pub ends : r.pipe.readopen ≡ pi.readopen
    pub ended : Ended r.pipe r.wakes (i + length r.moved) (rest - length r.moved) r.outcome

  Wrote-cons :
      (rest i ch : ℕ) (pi : Pipe) (r : WriteRun)
      → IsValid pi
      → count pi < pipesize
      → copyin (u64 (addr + i)) ≡ some ch
      → Wrote rest (i + 1) (put pi ch) r
      → Wrote (suc rest) i pi (record r { moved = ch ∷ r.moved })
  Wrote-cons rest i ch pi r v room e w =
      let at_index : i + 1 + length r.moved ≡ i + suc (length r.moved) = omega arith in
      let at_left : rest - length r.moved ≡ suc rest - suc (length r.moved) = omega arith in
      record {
        valid = w.valid;
        queue =
            w.queue
            ∙ ap (λ (q : List ℕ). q ++ r.moved) (contents-put v ch room)
            ∙ append_assoc (contents pi) (ch ∷ []) r.moved;
        bytes = (e, w.bytes);
        some_of = omega (arith, w.some_of);
        ends = w.ends ∙ readopen-put pi ch;
        ended = subst₂ (λ k l. Ended r.pipe r.wakes k l r.outcome) at_index at_left w.ended;
      }

  write_loop_lem :
      (rest i : ℕ) (pi : Pipe)
      → IsValid pi
      → Wrote rest i pi (write_loop copyin killed addr rest i pi)
  unfolding write_loop
  write_loop_lem zero i pi v = record {
    valid = v;
    queue = sym (append-nil (contents pi));
    bytes = tt;
    some_of = omega arith;
    ends = refl;
    ended = (ground arith, ground arith, refl);
  }
  write_loop_lem (suc rest) i pi v = elim (Bool-cases (not pi.readopen || killed i)) [
    | inl stop ↦ rw stop (record {
      valid = v;
      queue = sym (append-nil (contents pi));
      bytes = tt;
      some_of = omega arith;
      ends = refl;
      ended = (refl, ground arith, refl);
    })
    | inr go ↦ elim (Bool-cases (full pi)) [
      | inl f ↦
          rw (go, f)
            (record {
              valid = v;
              queue = sym (append-nil (contents pi));
              bytes = tt;
              some_of = omega arith;
              ends = refl;
              ended = (omega arith, refl, full→count v f, refl);
            })
      | inr f ↦ elim (Option-cases (copyin (u64 (addr + i)))) [
        | inl e ↦
            rw (go, f, e)
              (record {
                valid = v;
                queue = sym (append-nil (contents pi));
                bytes = tt;
                some_of = omega arith;
                ends = refl;
                ended = (omega arith, ground arith, refl);
              })
        | inr (ch, e) ↦
            let room = full→lt v f in
            let w = write_loop_lem rest (i + 1) (put pi ch) (put-IsValid v ch room) in
            rw (go, f, e) (Wrote-cons rest i ch pi _ v room e w)
      ]
    ]
  ]

  -- A run of `pipewrite` from index `i` appends to the queue of the pipe, in order, bytes that
  -- copyin fetched from the caller's buffer at `i` and after, at most n - i of them, and keeps the
  -- invariant. It returns n or stops at the first byte that copyin refuses, with the readers woken;
  -- it returns -1 only if the read end is closed or the caller is killed; and it goes to sleep on
  -- the writers' channel only with the pipe full and the readers woken.
  pub pipewrite_lem :
      (n i : ℕ) (pi : Pipe) → IsValid pi → Wrote (n - i) i pi (pipewrite copyin killed addr n i pi)
  unfolding pipewrite
  pipewrite_lem n i pi v = write_loop_lem (n - i) i pi v
