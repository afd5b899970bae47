-- ===== src/Printf/Pieces.antt =====
-- What printf of the kernel prints, for a format that is put together from pieces.
use ntu_sc2005_xv.Prelude.{
  ℕ, zero, suc, ◌≤◌, ◌≡◌, ◌≢◌, refl, ap, ◌∙◌, Bool, true, false, Option, none, some, List, [], ◌∷◌,
  ◌++◌, length, length-append, ◌==◌, ne→==, arith,
}
use ntu_sc2005_xv.Printf.{Base, dec, hex, kernel_printint}
use ntu_sc2005_xv.Printf.Format.{
  Arg, num, str, sign_extend, printptr, string_text, prefix, format_loop, printf,
}

pub data Size : Type 0 where
  int_size long_size long_long_size : Size

pub data Letter : Type 0 where
  letter_d letter_u letter_x : Letter

-- A byte of text, a number with the size and the letter of its conversion, a pointer, a string, and
-- a percent sign.
pub data Piece : Type 0 where
  text : ℕ → Piece
  number : Size → Letter → ℕ → Piece
  address : ℕ → Piece
  words : Option (List ℕ) → Piece
  percent_sign : Piece

abbrev pub letter_byte : Letter → ℕ
letter_byte letter_d = b'd'
letter_byte letter_u = b'u'
letter_byte letter_x = b'x'

abbrev pub base_by : Letter → Base
base_by letter_d = dec
base_by letter_u = dec
base_by letter_x = hex

abbrev pub sign_by : Letter → Bool
sign_by letter_d = true
sign_by letter_u = false
sign_by letter_x = false

abbrev pub spelled_number : Size → Letter → List ℕ
spelled_number int_size l = b'%' ∷ letter_byte l ∷ []
spelled_number long_size l = b'%' ∷ b'l' ∷ letter_byte l ∷ []
spelled_number long_long_size l = b'%' ∷ b'l' ∷ b'l' ∷ letter_byte l ∷ []

-- The value of the argument that a conversion of this size prints.
abbrev pub taken : Size → ℕ → ℕ
taken int_size w = sign_extend w
taken long_size w = w
taken long_long_size w = w

-- How a piece stands in the format.
abbrev pub spelled : Piece → List ℕ
spelled (text c) = c ∷ []
spelled (number size l w) = spelled_number size l
spelled (address w) = b'%' ∷ b'p' ∷ []
spelled (words s) = b'%' ∷ b's' ∷ []
spelled percent_sign = b'%' ∷ b'%' ∷ []

-- The argument of a piece.
abbrev pub given : Piece → List Arg
given (text c) = []
given (number size l w) = num w ∷ []
given (address w) = num w ∷ []
given (words s) = str s ∷ []
given percent_sign = []

-- What a piece puts on the console.
abbrev pub shown : Piece → List ℕ
shown (text c) = c ∷ []
shown (number size l w) = kernel_printint (taken size w) (base_by l) (sign_by l)
shown (address w) = printptr w
shown (words s) = string_text s
shown percent_sign = b'%' ∷ []

unfoldable pub format_of : List Piece → List ℕ
format_of [] = []
format_of (p ∷ ps) = spelled p ++ format_of ps

unfoldable pub args_of : List Piece → List Arg
args_of [] = []
args_of (p ∷ ps) = given p ++ args_of ps

pub output_of : List Piece → List ℕ
output_of [] = []
output_of (p ∷ ps) = shown p ++ output_of ps

-- The bytes of a string: none is NUL.
abbrev pub NoNul : List ℕ → Type 0
NoNul [] = Unit
NoNul (c ∷ cs) = (c ≢ 0) × NoNul cs

-- Text has no percent sign of its own, and no NUL, at which the format would end; nor have strings.
abbrev pub Plain : List Piece → Type 0
Plain [] = Unit
Plain (text c ∷ ps) = (c ≢ 0) × (c ≢ b'%') × Plain ps
Plain (number size l w ∷ ps) = Plain ps
Plain (address w ∷ ps) = Plain ps
Plain (words none ∷ ps) = Plain ps
Plain (words (some s) ∷ ps) = NoNul s × Plain ps
Plain (percent_sign ∷ ps) = Plain ps

step_number :
    (size : Size) (l : Letter) (w fuel : ℕ) (fmt : List ℕ) (args : List Arg)
    → format_loop (suc fuel) (spelled_number size l ++ fmt) (num w ∷ args)
      ≡ prefix (kernel_printint (taken size w) (base_by l) (sign_by l)) (format_loop fuel fmt args)
unfolding format_loop
step_number int_size letter_d w fuel fmt args = refl
step_number int_size letter_u w fuel fmt args = refl
step_number int_size letter_x w fuel fmt args = refl
step_number long_size letter_d w fuel fmt args = refl
step_number long_size letter_u w fuel fmt args = refl
step_number long_size letter_x w fuel fmt args = refl
step_number long_long_size letter_d w fuel fmt args = refl
step_number long_long_size letter_u w fuel fmt args = refl
step_number long_long_size letter_x w fuel fmt args = refl

step_text :
    (c fuel : ℕ) (fmt : List ℕ) (args : List Arg)
    → (c == b'%') ≡ false
    → format_loop (suc fuel) (c ∷ fmt) args ≡ prefix (c ∷ []) (format_loop fuel fmt args)
unfolding format_loop
step_text c fuel fmt args e = rw (format_loop, e) refl

spelled-length : (p : Piece) → 1 ≤ length (spelled p)
spelled-length (text c) = omega arith
spelled-length (number int_size l w) = omega arith
spelled-length (number long_size l w) = omega arith
spelled-length (number long_long_size l w) = omega arith
spelled-length (address w) = omega arith
spelled-length (words s) = omega arith
spelled-length percent_sign = omega arith

format_loop_lem :
    (ps : List Piece) (fuel : ℕ)
    → Plain ps
    → length (format_of ps) ≤ fuel
    → format_loop fuel (format_of ps) (args_of ps) ≡ some (output_of ps)
unfolding format_loop format_of args_of output_of
format_loop_lem [] fuel plain enough = refl
format_loop_lem (p ∷ ps) zero plain enough =
    let all = length-append {0} (spelled p) (format_of ps) in
    let too_short : ⊥ = omega (arith, enough, all, spelled-length p) in elim too_short [ ]
format_loop_lem (text c ∷ ps) (suc fuel) (_, ordinary, plain) enough =
    step_text c fuel (format_of ps) (args_of ps) (ne→== c b'%' ordinary)
    ∙ ap (prefix (c ∷ [])) (format_loop_lem ps fuel plain (omega (arith, enough)))
format_loop_lem (number size l w ∷ ps) (suc fuel) plain enough =
    let longer = spelled-length (number size l w) in
    let all = length-append {0} (spelled_number size l) (format_of ps) in
    step_number size l w fuel (format_of ps) (args_of ps)
    ∙ ap (prefix (kernel_printint (taken size w) (base_by l) (sign_by l)))
        (format_loop_lem ps fuel plain (omega (arith, enough, longer, all)))
format_loop_lem (address w ∷ ps) (suc fuel) plain enough =
    ap (prefix (printptr w)) (format_loop_lem ps fuel plain (omega (arith, enough)))
format_loop_lem (words none ∷ ps) (suc fuel) plain enough =
    ap (prefix (string_text none)) (format_loop_lem ps fuel plain (omega (arith, enough)))
format_loop_lem (words (some s) ∷ ps) (suc fuel) (_, plain) enough =
    ap (prefix (s)) (format_loop_lem ps fuel plain (omega (arith, enough)))
format_loop_lem (percent_sign ∷ ps) (suc fuel) plain enough =
    ap (prefix (b'%' ∷ [])) (format_loop_lem ps fuel plain (omega (arith, enough)))

-- printf prints a format of text, of numbers of the three sizes and letters, of pointers, strings
-- and percent signs, with an argument of the right type for every piece that takes one, as the
-- outputs of the pieces in their order. Numbers of `int` size are extended by their sign.
pub printf_lem :
    (ps : List Piece) → Plain ps → printf (format_of ps) (args_of ps) ≡ some (output_of ps)
unfolding printf
printf_lem ps plain = format_loop_lem ps (length (format_of ps)) plain (omega arith)
