-- ===== src/Pipe/Tests.antt =====
-- Runs of kernel/pipe.c, and its theorems at a pipe whose counters are about to wrap.
use ntu_sc2005_xv.Prelude.{
  ℕ, ◌+◌, ◌-◌, ◌^◌, ◌≤◌, ◌≡◌, ◌⊎◌, refl, Bool, true, false, Option, some, none, List, [], ◌∷◌, ◌++◌,
  length, replicate, ltb, if◌then◌else◌, arith,
}
use ntu_sc2005_xv.Prelude.Maps.{update}
use ntu_sc2005_xv.Prelude.Int.{pos}
use ntu_sc2005_xv.Pipe.{
  Pipe, pipesize, put, returned, asleep, nread_chan, pipewrite, write_loop, piperead,
}
use ntu_sc2005_xv.Pipe.Contents.{contents, count, IsValid}
use ntu_sc2005_xv.Pipe.Write.{Wrote, pipewrite_lem}
use ntu_sc2005_xv.Pipe.Read.{Copied, piperead_lem}
use ntu_sc2005_xv.Pipe.Stream.{System, write, read, Reach, here, next, stream}

abbrev page : List ℕ
page = replicate 512 5

-- User memory: every address below 4096 is mapped.
abbrev copyin : ℕ → Option ℕ
copyin a = if ltb a 4096 then some (a + 1) else none

abbrev copyout : (ℕ → ℕ) → ℕ → ℕ → Option (ℕ → ℕ)
copyout m a v = if ltb a 4096 then some (update m a v) else none

abbrev alive : ℕ → Bool
alive _ = false

-- Two bytes before the counters wrap.
abbrev late : Pipe
late = record {
  buf = page;
  nread = 2 ^ 32 - 2;
  nwrite = 2 ^ 32 - 2;
  readopen = true;
  writeopen = true;
}

late-IsValid : IsValid late
late-IsValid = record {
  page = refl;
  nread_fits = omega arith;
  nwrite_fits = omega arith;
  room = omega arith;
}

three_round_the_wrap : contents (pipewrite copyin alive 10 3 0 late).pipe ≡ 11 ∷ 12 ∷ 13 ∷ []
unfolding pipewrite write_loop put
three_round_the_wrap = refl

stops_at_unmapped : (pipewrite copyin alive 4094 5 0 late).outcome ≡ returned (pos 2)
unfolding pipewrite write_loop put
stops_at_unmapped = refl

pipewrite_lem_example : Wrote copyin alive 10 3 0 late (pipewrite copyin alive 10 3 0 late)
pipewrite_lem_example = pipewrite_lem copyin alive 10 3 0 late late-IsValid

piperead_lem_example :
    let r = piperead copyout 10 false 3 late (λ _. 0) in
    ((count late ≡ 0)
      × (true ≡ true)
      × (r.pipe ≡ late)
      × (r.mem ≡ (λ _. 0))
      × (r.moved ≡ [])
      × (r.outcome ≡ asleep nread_chan 0))
    ⊎ ((count late ≡ 0 → true ≡ false) × Copied copyout 10 3 0 late (λ _. 0) r)
piperead_lem_example = piperead_lem copyout 10 false 3 late (λ _. 0) late-IsValid

exchange : (s : System) × Reach copyout page s
exchange = (_, next (next here (write copyin alive 10 3 0)) (read 10 false 2 (λ _. 0)))

stream_example :
    (exchange.0.sent ≡ exchange.0.received ++ contents exchange.0.pipe)
    × (length (contents exchange.0.pipe) ≤ pipesize)
stream_example = stream copyout {page = page} refl exchange.1
