-- ===== src/Printf/Library.antt =====
-- printptr and vprintf in user/printf.c, with what is written to the file as a list of bytes. The loop
-- is structural: `skip` counts the bytes that `i += 1` or `i += 2` leaves out.
use ntu_sc2005_xv.Prelude.{
  ℕ, zero, suc, ◌*◌, ◌/◌, ◌^◌, ◌≡◌, refl, ap, ◌∙◌, Bool, true, false, Option, none, some, List, [],
  ◌∷◌, ◌++◌, ◌==◌, if◌then◌else◌, ne→==,
}
use ntu_sc2005_xv.Prelude.Int.{u64}
use ntu_sc2005_xv.Printf.{digit, user_printint}
use ntu_sc2005_xv.Printf.Format.{
  Arg, num, str, Conversion, integer, pointer, string, percent, unknown, conversion, sign_extend,
  string_text, skipped, peek, prefix, printf,
}
use ntu_sc2005_xv.Printf.Pieces.{
  int_size, long_size, long_long_size, letter_d, letter_u, letter_x, Piece, text, number, address,
  words, percent_sign, base_by, sign_by, taken, spelled, given, format_of, args_of, output_of,
  Plain, printf_lem,
}

pub user_ptr_loop : ℕ → ℕ → List ℕ
user_ptr_loop zero x = []
user_ptr_loop (suc n) x = digit b'A' (x / 2 ^ 60) ∷ user_ptr_loop n (u64 (x * 16))

pub user_printptr : ℕ → List ℕ
user_printptr x = b'0' ∷ b'x' ∷ user_ptr_loop 16 x

abbrev pub user_convert : Conversion → ℕ → List Arg → Option (List ℕ × List Arg)
user_convert (integer long base sign skip) c0 [] = none
user_convert (integer long base sign skip) c0 (str s ∷ ap) = none
user_convert (integer long base sign skip) c0 (num w ∷ ap) =
    some (user_printint (if long then w else sign_extend w) base sign, ap)
user_convert pointer c0 [] = none
user_convert pointer c0 (str s ∷ ap) = none
user_convert pointer c0 (num w ∷ ap) = some (user_printptr w, ap)
user_convert string c0 [] = none
user_convert string c0 (num w ∷ ap) = none
user_convert string c0 (str s ∷ ap) = some (string_text s, ap)
user_convert percent c0 ap = some (b'%' ∷ [], ap)
user_convert unknown c0 ap = some (b'%' ∷ c0 ∷ [], ap)

-- `after_percent`: whether `state` is '%'
unfoldable pub vprintf_loop :
    (after_percent : Bool) (skip : ℕ) → List ℕ → List Arg → Option (List ℕ)
vprintf_loop after_percent skip [] ap = some []
vprintf_loop after_percent (suc skip) (c0 ∷ fmt) ap = vprintf_loop after_percent skip fmt ap
vprintf_loop false zero (c0 ∷ fmt) ap = elim (c0 == b'%') [
  | true ↦ vprintf_loop true zero fmt ap
  | false ↦ prefix (c0 ∷ []) (vprintf_loop false zero fmt ap)
]
vprintf_loop true zero (c0 ∷ fmt) ap =
    let what = conversion c0 (peek 0 fmt) (peek 1 fmt) in
    elim (user_convert what c0 ap) [
      | none ↦ none
      | some (out, ap') ↦ prefix out (vprintf_loop false (skipped what) fmt ap')
    ]

unfoldable pub vprintf : List ℕ → List Arg → Option (List ℕ)
vprintf fmt ap = vprintf_loop false zero fmt ap

-- What a piece puts into the file.
abbrev pub user_shown : Piece → List ℕ
user_shown (text c) = c ∷ []
user_shown (number size l w) = user_printint (taken size w) (base_by l) (sign_by l)
user_shown (address w) = user_printptr w
user_shown (words s) = string_text s
user_shown percent_sign = b'%' ∷ []

pub user_output_of : List Piece → List ℕ
user_output_of [] = []
user_output_of (p ∷ ps) = user_shown p ++ user_output_of ps

step_text :
    (c : ℕ) (fmt : List ℕ) (args : List Arg)
    → (c == b'%') ≡ false
    → vprintf_loop false 0 (c ∷ fmt) args ≡ prefix (c ∷ []) (vprintf_loop false 0 fmt args)
unfolding vprintf_loop
step_text c fmt args e = rw (vprintf_loop, e) refl

step_piece :
    (p : Piece) (fmt : List ℕ) (args : List Arg)
    → Plain (p ∷ [])
    → vprintf_loop false 0 (spelled p ++ fmt) (given p ++ args)
      ≡ prefix (user_shown p) (vprintf_loop false 0 fmt args)
unfolding vprintf_loop
step_piece (text c) fmt args (_, ordinary, _) = step_text c fmt args (ne→== c b'%' ordinary)
step_piece (number int_size letter_d w) fmt args plain = refl
step_piece (number int_size letter_u w) fmt args plain = refl
step_piece (number int_size letter_x w) fmt args plain = refl
step_piece (number long_size letter_d w) fmt args plain = refl
step_piece (number long_size letter_u w) fmt args plain = refl
step_piece (number long_size letter_x w) fmt args plain = refl
step_piece (number long_long_size letter_d w) fmt args plain = refl
step_piece (number long_long_size letter_u w) fmt args plain = refl
step_piece (number long_long_size letter_x w) fmt args plain = refl
step_piece (address w) fmt args plain = refl
step_piece (words s) fmt args plain = refl
step_piece percent_sign fmt args plain = refl

Plain-cons : (p : Piece) (ps : List Piece) → Plain (p ∷ ps) → Plain (p ∷ []) × Plain ps
Plain-cons (text c) ps (not_nul, ordinary, plain) = ((not_nul, ordinary, tt), plain)
Plain-cons (number size l w) ps plain = (tt, plain)
Plain-cons (address w) ps plain = (tt, plain)
Plain-cons (words none) ps plain = (tt, plain)
Plain-cons (words (some s)) ps (no_nul, plain) = ((no_nul, tt), plain)
Plain-cons percent_sign ps plain = (tt, plain)

vprintf_loop_lem :
    (ps : List Piece)
    → Plain ps
    → vprintf_loop false 0 (format_of ps) (args_of ps) ≡ some (user_output_of ps)
unfolding vprintf_loop format_of args_of user_output_of
vprintf_loop_lem [] plain = refl
vprintf_loop_lem (p ∷ ps) plain =
    let (here, others) = Plain-cons p ps plain in
    step_piece p (format_of ps) (args_of ps) here
    ∙ ap (prefix (user_shown p)) (vprintf_loop_lem ps others)

-- printf of the kernel and vprintf of the library both print a format of text, of numbers of the
-- three sizes and letters, of pointers, strings and percent signs, with an argument of the right type
-- for every piece that takes one, as the outputs of the pieces in their order, each with its own
-- printint and printptr. Numbers of `int` size are extended by their sign.
pub printf-vprintf :
    (ps : List Piece)
    → Plain ps
    → (printf (format_of ps) (args_of ps) ≡ some (output_of ps))
      × (vprintf (format_of ps) (args_of ps) ≡ some (user_output_of ps))
unfolding vprintf
printf-vprintf ps plain = (printf_lem ps plain, vprintf_loop_lem ps plain)
