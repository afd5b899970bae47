-- ===== src/Pipe/Read.antt =====
-- `piperead` of kernel/pipe.c takes from the front of the queue of bytes that the pipe holds.
use ntu_sc2005_xv.Prelude.{
  ℕ, zero, suc, ◌+◌, ◌≤◌, ◌<◌, ◌≡◌, ◌⊎◌, inl, inr, refl, ap, ◌∙◌, true, false, Option, none, some,
  List, [], ◌∷◌, ◌++◌, length, Bool, Bool-cases, Option-cases, ◌&&◌, if◌then◌else◌, arith,
}
use ntu_sc2005_xv.Prelude.Int.{pos, minus_one}
use ntu_sc2005_xv.Prelude.Int.{u64}
use ntu_sc2005_xv.Pipe.{
  Pipe, nread_chan, nwrite_chan, returned, asleep, empty, head, advance, ReadRun, read_loop,
  piperead,
}
use ntu_sc2005_xv.Pipe.Contents.{
  contents, count, IsValid, empty→count, empty→pos, advance-IsValid, contents-advance,
}

ends-advance :
    (pi : Pipe) → ((advance pi).readopen ≡ pi.readopen) × ((advance pi).writeopen ≡ pi.writeopen)
unfolding advance
ends-advance pi = (refl, refl)

module _ {M : Type 0} (copyout : M → ℕ → ℕ → Option M) (addr : ℕ) where
  -- Storing the bytes one after the other from index `i` of the caller's buffer takes `m` to `m'`;
  -- the last may be one that copyout refused.
  abbrev pub Stored : ℕ → M → List ℕ → M → ℕ → Type 0
  Stored i m [] m' r = (m ≡ m') × (r ≡ i)
  Stored i m (ch ∷ rest) m' r =
      ((copyout m (u64 (addr + i)) ch ≡ none) × (rest ≡ []) × (m ≡ m') × (r ≡ i))
      ⊎ ((m₁ : M) × (copyout m (u64 (addr + i)) ch ≡ some m₁) × Stored (i + 1) m₁ rest m' r)

  -- The result `k` counts the bytes moved, and all are there or the pipe is empty; or copyout
  -- refused the last of them, which is not counted.
  abbrev pub Stopped : ℕ → ℕ → ℕ → ReadRun M → Type 0
  Stopped rest i k r =
      ((k ≡ i + length r.moved) × ((length r.moved ≡ rest) ⊎ (count r.pipe ≡ 0)))
      ⊎ (k + 1 ≡ i + length r.moved)

  pub record Copied (rest i : ℕ) (pi : Pipe) (m : M) (r : ReadRun M) : Type 0 where
    pub valid : IsValid r.pipe
    pub queue : contents pi ≡ r.moved ++ contents r.pipe
    pub some_of : length r.moved ≤ rest
    pub result :
        (k : ℕ) × (r.outcome ≡ returned (pos k)) × Stored i m r.moved r.mem k × Stopped rest i k r
    pub woken : r.wakes ≡ nwrite_chan ∷ []

  Copied-cons :
      (rest i : ℕ) (pi : Pipe) (m m' : M) (r : ReadRun M)
      → IsValid pi
      → 0 < count pi
      → copyout m (u64 (addr + i)) (head pi) ≡ some m'
      → Copied rest (i + 1) (advance pi) m' r
      → Copied (suc rest) i pi m (record r { moved = head pi ∷ r.moved })
  Copied-cons rest i pi m m' r v p f w =
      let (k, o, st, stop) = w.result in
      record {
        valid = w.valid;
        queue = contents-advance v p ∙ ap (λ (q : List ℕ). head pi ∷ q) w.queue;
        some_of = omega (arith, w.some_of);
        result = (k, o, inr (m', f, st), ground (arith, stop));
        woken = w.woken;
      }

  read_loop_lem :
      (rest i : ℕ) (pi : Pipe) (m : M)
      → IsValid pi
      → Copied rest i pi m (read_loop copyout addr rest i pi m)
  unfolding read_loop
  read_loop_lem zero i pi m v = record {
    valid = v;
    queue = refl;
    some_of = omega arith;
    result = (i, refl, (refl, refl), inl (omega arith, inl refl));
    woken = refl;
  }
  read_loop_lem (suc rest) i pi m v = elim (Bool-cases (empty pi)) [
    | inl e ↦ rw e (record {
      valid = v;
      queue = refl;
      some_of = omega arith;
      result = (i, refl, (refl, refl), inl (omega arith, inr (empty→count v e)));
      woken = refl;
    })
    | inr ne ↦ elim (Option-cases (copyout m (u64 (addr + i)) (head pi))) [
      | inl f ↦
          rw (ne, f)
            (record {
              valid = advance-IsValid v (empty→pos v ne);
              queue = contents-advance v (empty→pos v ne);
              some_of = omega arith;
              result = (i, refl, inl (f, refl, refl, refl), inr (omega arith));
              woken = refl;
            })
      | inr (m', f) ↦
          let w = read_loop_lem rest (i + 1) (advance pi) m' (advance-IsValid v (empty→pos v ne)) in
          rw (ne, f) (Copied-cons rest i pi m m' _ v (empty→pos v ne) f w)
    ]
  ]

  -- A run of `piperead` on a valid pipe that is empty, with the write end open, moves nothing: the
  -- caller goes to sleep on the readers' channel, or gets -1 if it is killed. Any other run takes
  -- bytes from the front of the queue, in order, until it has n or the pipe is empty or copyout
  -- refuses one, stores them one after the other in the caller's buffer, returns their number (a
  -- refused byte is lost and not counted), and wakes the writers.
  pub piperead_lem :
      (killed : Bool) (n : ℕ) (pi : Pipe) (m : M)
      → IsValid pi
      → let r = piperead copyout addr killed n pi m in
        ((count pi ≡ 0)
          × (pi.writeopen ≡ true)
          × (r.pipe ≡ pi)
          × (r.mem ≡ m)
          × (r.moved ≡ [])
          × (r.outcome ≡ (if killed then returned minus_one else asleep nread_chan 0)))
        ⊎ (((count pi ≡ 0) → pi.writeopen ≡ false) × Copied n 0 pi m r)
  unfolding piperead
  piperead_lem killed n pi m v = elim (Bool-cases (empty pi && pi.writeopen)) [
    | inl e ↦ rw e (inl (ground arith, ground arith, refl, refl, refl, refl))
    | inr e ↦ rw e (inr (λ z. ground arith, read_loop_lem n 0 pi m v))
  ]
