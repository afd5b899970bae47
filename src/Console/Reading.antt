-- ===== src/Console/Reading.antt =====
-- consoleread of kernel/console.c against the lines that are ready.
use ntu_sc2005_xv.Prelude.{
  ℕ, zero, suc, ◌+◌, ◌-◌, ◌≤◌, ◌<◌, ◌≡◌, ◌≢◌, ◌⊎◌, Bool, Option, none, some, List, [], ◌∷◌, ◌++◌,
  length, if◌then◌else◌,
}
use ntu_sc2005_xv.Prelude.Int.{pos, minus_one, u32, u64}
use ntu_sc2005_xv.Console.{ctrl, newline, Cons, returned, asleep, ReadRun}
use ntu_sc2005_xv.Console.Lines.{ready, line, IsValid}

-- A newline is the last of the characters, if there is one.
abbrev pub OneLine : List ℕ → Type 0
OneLine [] = Unit
OneLine (x ∷ []) = Unit
OneLine (x ∷ y ∷ ys) = (x ≢ newline) × OneLine (y ∷ ys)

abbrev pub EndsLine : List ℕ → Type 0
EndsLine [] = ⊥
EndsLine (x ∷ []) = x ≡ newline
EndsLine (x ∷ y ∷ ys) = EndsLine (y ∷ ys)

abbrev pub StartsWith : ℕ → List ℕ → Type 0
StartsWith c [] = ⊥
StartsWith c (x ∷ xs) = x ≡ c

-- The memory after the characters have been copied out, one at a time, from `dst` on.
abbrev pub store_all : {M : Type 0} → (M → ℕ → ℕ → Option M) → M → ℕ → List ℕ → Option M
store_all copyout m dst [] = some m
store_all copyout m dst (ch ∷ chs) = elim (copyout m dst ch) [
  | none ↦ none
  | some m' ↦ store_all copyout m' (u64 (dst + 1)) chs
]

-- The address `n` bytes on.
abbrev pub address_after : ℕ → ℕ → ℕ
address_after dst zero = dst
address_after dst (suc n) = address_after (u64 (dst + 1)) n

-- How a run ends, in terms of what was ready before, what it delivered and what is ready after it.
pub data Ends {M : Type 0} (copyout : M → ℕ → ℕ → Option M) (killed : Bool) (target dst : ℕ)
    (lines : List ℕ) (run : ReadRun M) : Type 0 where
  -- The buffer of the caller is full, or a line is at its end, or an end of file comes next.
  full :
      run.outcome ≡ returned (pos (target - run.left))
      → lines ≡ run.moved ++ ready run.cons
      → (run.left ≡ 0)
        ⊎ (EndsLine run.moved ⊎ ((run.left < target) × StartsWith (ctrl b'D') (ready run.cons)))
      → Ends copyout killed target dst lines run
  -- An end of file at the start is taken, and nothing delivered.
  end_of_file :
      run.outcome ≡ returned (pos (target - run.left))
      → lines ≡ run.moved ++ ctrl b'D' ∷ ready run.cons
      → target ≤ run.left
      → Ends copyout killed target dst lines run
  -- A character that is no end of file and cannot be copied out is lost.
  lost :
      run.outcome ≡ returned (pos (target - run.left))
      → (ch : ℕ) → lines ≡ run.moved ++ ch ∷ ready run.cons
      → ch ≢ ctrl b'D'
      → copyout run.mem (address_after dst (length run.moved)) ch ≡ none
      → Ends copyout killed target dst lines run
  -- Everything is taken, and the caller waits for more.
  waits :
      run.outcome ≡ (if killed then returned minus_one else asleep)
      → lines ≡ run.moved
      → ready run.cons ≡ []
      → Ends copyout killed target dst lines run

pub record Delivers {M : Type 0} (copyout : M → ℕ → ℕ → Option M) (killed : Bool) (target n dst : ℕ)
    (c : Cons) (m : M) (run : ReadRun M) : Type 0 where
  pub valid : IsValid run.cons
  pub typed : line run.cons ≡ line c
  pub count : run.left + length run.moved ≡ n
  pub one_line : OneLine run.moved
  pub stored : store_all copyout m dst run.moved ≡ some run.mem
  pub ends : Ends copyout killed target dst (ready c) run

abbrev next_char : Cons → Cons
next_char c = record c { r = u32 (c.r + 1) }
