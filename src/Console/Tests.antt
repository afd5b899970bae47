-- ===== src/Console/Tests.antt =====
-- kernel/console.c with indices that are about to wrap.
use ntu_sc2005_xv.Prelude.{
  ℕ, ◌+◌, ◌-◌, ◌^◌, ◌≡◌, refl, arith, Option, some, false, List, [], ◌∷◌, ◌++◌, replicate,
}
use ntu_sc2005_xv.Prelude.Int.{pos}
use ntu_sc2005_xv.Console.{
  Cons, newline, kill_line, store_char, consoleintr, returned, read_chars, consoleread, write_chars,
  consolewrite,
}
use ntu_sc2005_xv.Console.Lines.{ready, line, IsValid}
use ntu_sc2005_xv.Console.Input.{Shows, Plain, type_char, consoleintr_lem}

-- One character is ready, and one is being typed.
abbrev wrapping : Cons
wrapping = record { buf = replicate 128 b'x'; r = 2 ^ 32 - 2; w = 2 ^ 32 - 1; e = 0 }

wrapping-IsValid : IsValid wrapping
wrapping-IsValid = record {
  size = refl;
  r_fits = omega arith;
  w_fits = omega arith;
  e_fits = omega arith;
  room = omega arith;
}

wrapping-Plain : Plain wrapping
wrapping-Plain = (omega arith, tt)

consoleintr_lem_example :
    Shows (consoleintr newline wrapping).cons (type_char newline (ready wrapping, line wrapping))
consoleintr_lem_example = consoleintr_lem newline wrapping wrapping-IsValid wrapping-Plain

-- The line ends, and both characters and the newline can be read.
abbrev ended : Cons
ended = (consoleintr newline wrapping).cons

ended_ready : ready ended ≡ b'x' ∷ b'x' ∷ newline ∷ []
unfolding consoleintr store_char
ended_ready = refl

abbrev append_byte : List ℕ → ℕ → ℕ → Option (List ℕ)
append_byte m dst ch = some (m ++ ch ∷ [])

reads_line :
    ((consoleread append_byte false 10 10 0 ended []).mem ≡ b'x' ∷ b'x' ∷ newline ∷ [])
    × ((consoleread append_byte false 10 10 0 ended []).outcome ≡ returned (pos 3))
unfolding consoleread read_chars consoleintr store_char
reads_line = (refl, refl)

kills_line : line (consoleintr 21 wrapping).cons ≡ []
unfolding consoleintr kill_line
kills_line = refl

writes : consolewrite (λ a. some (a + 65)) 3 2 ≡ (2, 68 ∷ 69 ∷ [])
unfolding consolewrite write_chars
writes = refl
