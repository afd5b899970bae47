-- ===== src/Console.antt =====
-- kernel/console.c. Each handler runs under `cons.lock`, so that a call is one step; `consoleread`
-- is a run that ends with a return value or asleep. Characters are bytes, `char` being unsigned.
pub mod Lines
pub mod Input
pub mod Reading
mod Tests
use ntu_sc2005_xv.Prelude.{
  ℕ, zero, suc, ◌+◌, ◌-◌, ◌%◌, ◌^◌, Bool, true, false, not, ◌&&◌, ◌||◌, Option, none, some, List,
  [], ◌∷◌, ◌++◌, get_or, set, ltb, ◌==◌, if◌then◌else◌,
}
use ntu_sc2005_xv.Prelude.Int.{ℤ, pos, minus_one, u32, u64}

abbrev pub input_buf_size : ℕ
input_buf_size = 128

abbrev pub backspace : ℕ
backspace = 0x100

-- C(x), Control-x
abbrev pub ctrl : ℕ → ℕ
ctrl x = x - b'@'

abbrev pub newline : ℕ
newline = 10

abbrev pub carriage_return : ℕ
carriage_return = 13

-- `cons` without its lock: read, write and edit index.
pub record Cons : Type 0 where
  pub buf : List ℕ
  pub r : ℕ
  pub w : ℕ
  pub e : ℕ

-- What `consputc` sends to the uart, `uartputc_sync` by `uartputc_sync`.
pub consputc : ℕ → List ℕ
consputc c = if c == backspace then 8 ∷ b' ' ∷ 8 ∷ [] else c ∷ []

-- What a call of `consoleintr` leaves, echoes and wakes.
pub record Interrupt : Type 0 where
  pub cons : Cons
  pub echo : List ℕ
  pub wakes : Bool

-- `cons.e - 1`
abbrev pub before : ℕ → ℕ
before e = u32 (e + 2 ^ 32 - 1)

-- The loop that kills a line, with fuel for the characters of the buffer.
pub kill_line : ℕ → Cons → List ℕ → Cons × List ℕ
kill_line zero c echo = (c, echo)
kill_line (suc fuel) c echo =
    let rest = kill_line fuel (record c { e = before c.e }) (echo ++ consputc backspace) in
    if not (c.e == c.w) && not (get_or c.buf (before c.e % input_buf_size) 0 == newline)
    then rest
    else (c, echo)

-- The case of a character that is kept.
pub store_char : ℕ → Cons → Interrupt
store_char ch c =
    let c' = record c { buf = set c.buf (c.e % input_buf_size) ch; e = u32 (c.e + 1) } in
    if ch == newline || ch == ctrl b'D' || u32 (c'.e + 2 ^ 32 - c'.r) == input_buf_size
    then record { cons = record c' { w = c'.e }; echo = consputc ch; wakes = true }
    else record { cons = c'; echo = consputc ch; wakes = false }

pub consoleintr : ℕ → Cons → Interrupt
consoleintr ch c =
    if ch == ctrl b'P'
    then record { cons = c; echo = []; wakes = false }
    else if ch == ctrl b'U'
    then (let (c', echo) = kill_line input_buf_size c [] in
        record { cons = c'; echo = echo; wakes = false })
    else if ch == ctrl b'H' || ch == 0x7f
    then (if c.e == c.w then record { cons = c; echo = []; wakes = false } else record {
      cons = record c { e = before c.e };
      echo = consputc backspace;
      wakes = false;
    })
    else if not (ch == 0) && ltb (u32 (c.e + 2 ^ 32 - c.r)) input_buf_size
    then store_char (if ch == carriage_return then newline else ch) c
    else record { cons = c; echo = []; wakes = false }

pub data Outcome : Type 0 where
  returned : ℤ → Outcome
  asleep : Outcome  -- on `&cons.r`

-- A run of `consoleread` with user memory `M`: `left` is `n`, and `moved` what was copied out.
pub record ReadRun (M : Type 0) : Type 0 where
  pub cons : Cons
  pub mem : M
  pub left : ℕ
  pub moved : List ℕ
  pub outcome : Outcome

-- `either_copyout` of kernel/proc.c, for one byte; `none` is its -1. `killed` is what
-- `killed(myproc())` answers before the run goes to sleep.
module _ {M : Type 0} (copyout : M → ℕ → ℕ → Option M) (killed : Bool) (target : ℕ) where
  -- The return at `target - n`.
  abbrev pub done_at : ℕ → Cons → M → ReadRun M
  done_at n c m = record {
    cons = c;
    mem = m;
    left = n;
    moved = [];
    outcome = returned (pos (target - n));
  }

  -- The outer loop with `n` bytes to go.
  pub read_chars : ℕ → ℕ → Cons → M → ReadRun M
  read_chars zero dst c m = done_at 0 c m
  read_chars (suc n) dst c m =
      let ch = get_or c.buf (c.r % input_buf_size) 0 in
      let c' = record c { r = u32 (c.r + 1) } in
      if c.r == c.w
      then record {
        cons = c;
        mem = m;
        left = suc n;
        moved = [];
        outcome = if killed then returned minus_one else asleep;
      }
      else if ch == ctrl b'D'
      then (if ltb (suc n) target
          then done_at (suc n) (record c' { r = before c'.r }) m
          else done_at (suc n) c' m)
      else elim (copyout m dst ch) [
        | none ↦ done_at (suc n) c' m
        | some m' ↦
            let rest = read_chars n (u64 (dst + 1)) c' m' in
            let run = if ch == newline then done_at n c' m' else rest in
            record run { moved = ch ∷ run.moved }
      ]

-- A run from the call, or from the `sleep` of a run that went asleep with `n` bytes left.
pub consoleread :
    {M : Type 0} (copyout : M → ℕ → ℕ → Option M) (killed : Bool) (target n dst : ℕ)
    → Cons
    → M
    → ReadRun M
consoleread copyout killed target n dst c m = read_chars copyout killed target n dst c m

-- `either_copyin` for the bytes at `src`, and what goes to `uartputc`.
module _ (copyin : ℕ → Option ℕ) (src : ℕ) where
  -- The loop at index `i` with `n` rounds to go.
  pub write_chars : ℕ → ℕ → ℕ × List ℕ
  write_chars i zero = (i, [])
  write_chars i (suc n) = elim (copyin (u64 (src + i))) [
    | none ↦ (i, [])
    | some c ↦ let (j, out) = write_chars (i + 1) n in (j, c ∷ out)
  ]

  pub consolewrite : ℕ → ℕ × List ℕ
  consolewrite n = write_chars 0 n
