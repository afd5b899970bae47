-- ===== src/Pipe.antt =====
-- kernel/pipe.c. What runs between `acquire(&pi->lock)` and the next `release` or `sleep` is one
-- atomic run of the model: it ends with a return value or asleep on a channel. A process that is
-- woken from `sleep` goes on with another run.
pub mod Contents
pub mod Write
pub mod Read
pub mod Stream
mod Tests
use ntu_sc2005_xv.Prelude.{
  ℕ, zero, suc, ◌+◌, ◌-◌, ◌%◌, ◌^◌, Bool, true, false, not, ◌&&◌, ◌||◌, Option, none, some, List,
  [], ◌∷◌, ◌++◌, get_or, set, ◌==◌, if◌then◌else◌,
}
use ntu_sc2005_xv.Prelude.Int.{ℤ, pos, minus_one, u32, u64}

abbrev pub pipesize : ℕ
pipesize = 512

-- `struct pipe` without its lock. `buf` is `data`, of `pipesize` bytes.
pub record Pipe : Type 0 where
  pub buf : List ℕ
  pub nread : ℕ
  pub nwrite : ℕ
  pub readopen : Bool
  pub writeopen : Bool

-- The channels that readers (`&pi->nread`) and writers (`&pi->nwrite`) sleep on.
pub data Chan : Type 0 where
  nread_chan nwrite_chan : Chan

pub data Outcome : Type 0 where
  returned : ℤ → Outcome
  asleep : Chan → ℕ → Outcome  -- with the bytes that the call has moved so far

-- What `pipealloc` makes of the page `page` that kalloc returned.
pub init : List ℕ → Pipe
init page = record { buf = page; nread = 0; nwrite = 0; readopen = true; writeopen = true }

-- What `pipeclose` leaves, the channel it wakes, and whether it frees the pipe.
pub pipeclose : Pipe → Bool → Pipe × Chan × Bool
pipeclose pi writable =
    if writable
    then (record pi { writeopen = false }, nread_chan, not pi.readopen)
    else (record pi { readopen = false }, nwrite_chan, not pi.writeopen)

abbrev pub full : Pipe → Bool
full pi = pi.nwrite == u32 (pi.nread + pipesize)

abbrev pub empty : Pipe → Bool
empty pi = pi.nread == pi.nwrite

-- `pi->data[pi->nwrite++ % PIPESIZE] = ch;`
pub put : Pipe → ℕ → Pipe
put pi ch = record pi { buf = set pi.buf (pi.nwrite % pipesize) ch; nwrite = u32 (pi.nwrite + 1) }

-- `pi->data[pi->nread % PIPESIZE]`, and the increment of `pi->nread`
pub head : Pipe → ℕ
head pi = get_or pi.buf (pi.nread % pipesize) 0

pub advance : Pipe → Pipe
advance pi = record pi { nread = u32 (pi.nread + 1) }

-- One run of `pipewrite`. `moved` records the bytes that went into the pipe, in order.
pub record WriteRun : Type 0 where
  pub pipe : Pipe
  pub wakes : List Chan
  pub moved : List ℕ
  pub outcome : Outcome

-- The byte that `copyin` of kernel/vm.c fetches from the writer's page table, `none` for -1, and
-- what `killed(pr)` answers when the loop stands at each index: another process may set it at any
-- time.
module _ (copyin : ℕ → Option ℕ) (killed : ℕ → Bool) (addr : ℕ) where
  -- The loop at index `i` with `rest` = n - i bytes to go, and what follows the loop.
  pub write_loop : ℕ → ℕ → Pipe → WriteRun
  write_loop zero i pi = record {
    pipe = pi;
    wakes = nread_chan ∷ [];
    moved = [];
    outcome = returned (pos i);
  }
  write_loop (suc rest) i pi =
      if not pi.readopen || killed i
      then record { pipe = pi; wakes = []; moved = []; outcome = returned minus_one }
      else if full pi
      then record { pipe = pi; wakes = nread_chan ∷ []; moved = []; outcome = asleep nwrite_chan i }
      else elim (copyin (u64 (addr + i))) [
        | none ↦ record {
          pipe = pi;
          wakes = nread_chan ∷ [];
          moved = [];
          outcome = returned (pos i);
        }
        | some ch ↦ let r = write_loop rest (i + 1) (put pi ch) in record r { moved = ch ∷ r.moved }
      ]

  -- A run from the call, or from the `sleep` of a run that went asleep at index `i`.
  pub pipewrite : ℕ → ℕ → Pipe → WriteRun
  pipewrite n i pi = write_loop (n - i) i pi

-- One run of `piperead` by a process with user memory `M`. `moved` records the bytes that left the
-- pipe, in order.
pub record ReadRun (M : Type 0) : Type 0 where
  pub pipe : Pipe
  pub mem : M
  pub wakes : List Chan
  pub moved : List ℕ
  pub outcome : Outcome

-- `copyout` of kernel/vm.c, for one byte; `none` is its -1.
module _ {M : Type 0} (copyout : M → ℕ → ℕ → Option M) (addr : ℕ) where
  -- `for(i = 0; i < n; i++)` at index `i` with `rest` = n - i rounds to go, and what follows it.
  pub read_loop : ℕ → ℕ → Pipe → M → ReadRun M
  read_loop zero i pi m = record {
    pipe = pi;
    mem = m;
    wakes = nwrite_chan ∷ [];
    moved = [];
    outcome = returned (pos i);
  }
  read_loop (suc rest) i pi m =
      if empty pi
      then record {
        pipe = pi;
        mem = m;
        wakes = nwrite_chan ∷ [];
        moved = [];
        outcome = returned (pos i);
      }
      else elim (copyout m (u64 (addr + i)) (head pi)) [
        | none ↦ record {
          pipe = advance pi;
          mem = m;
          wakes = nwrite_chan ∷ [];
          moved = head pi ∷ [];
          outcome = returned (pos i);
        }
        | some m' ↦
            let r = read_loop rest (i + 1) (advance pi) m' in record r { moved = head pi ∷ r.moved }
      ]

  -- A run from the call, or from its `sleep`: either way the test of the first loop comes next.
  pub piperead : Bool → ℕ → Pipe → M → ReadRun M
  piperead killed n pi m =
      if empty pi && pi.writeopen
      then record {
        pipe = pi;
        mem = m;
        wakes = [];
        moved = [];
        outcome = if killed then returned minus_one else asleep nread_chan 0;
      }
      else read_loop n 0 pi m
