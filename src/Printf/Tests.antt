-- ===== src/Printf/Tests.antt =====
-- printint and atoi on concrete numbers.
use ntu_sc2005_xv.Prelude.{
  none, some, ℕ, ◌+◌, ◌-◌, ◌^◌, ◌≤◌, ◌≡◌, ◌≢◌, inl, refl, true, false, ◌&&◌, List, [], ◌∷◌, ◌++◌,
  length, arith,
}
use ntu_sc2005_xv.Printf.{
  dec, hex, digit_loop, send, negative, kernel_buf, kernel_printint, user_buf, user_printint,
  atoi_loop, atoi,
}
use ntu_sc2005_xv.Printf.Format.{num, printptr, ptr_loop, format_loop, printf}
use ntu_sc2005_xv.Printf.Pieces.{
  Piece, text, number, int_size, long_long_size, letter_d, letter_x, address, words, percent_sign,
  format_of, args_of, output_of,
}
use ntu_sc2005_xv.Printf.Library.{vprintf_loop, vprintf, user_output_of, printf-vprintf}
use ntu_sc2005_xv.Printf.Digits.{
  Numeral, value, minus_sign, magnitude, kernel_buf_lem, atoi-user_printint,
}

-- The least number, printed signed.
kernel_buf_lem_example :
    (digits : List ℕ) × (kernel_buf (2 ^ 63) dec true
      ≡ digits ++ minus_sign (true && negative (2 ^ 63)))
    × Numeral dec digits
    × (value b'a' dec digits ≡ magnitude (true && negative (2 ^ 63)) (2 ^ 63))
    × (length (kernel_buf (2 ^ 63) dec true) ≤ 20)
kernel_buf_lem_example = kernel_buf_lem (2 ^ 63) dec true (omega arith)

atoi-user_printint_example : atoi (user_printint 2005 dec false ++ b' ' ∷ b'7' ∷ []) ≡ 2005
atoi-user_printint_example =
    atoi-user_printint 2005 (b' ' ∷ b'7' ∷ []) (omega arith) (inl (omega arith))

prints_negative : kernel_printint (2 ^ 64 - 42) dec true ≡ b'-' ∷ b'4' ∷ b'2' ∷ []
unfolding kernel_printint kernel_buf digit_loop send
prints_negative = refl

prints_hex : kernel_printint 2748 hex false ≡ b'a' ∷ b'b' ∷ b'c' ∷ []
unfolding kernel_printint kernel_buf digit_loop send
prints_hex = refl

prints_zero : user_printint 0 dec true ≡ b'0' ∷ []
unfolding user_printint user_buf digit_loop send
prints_zero = refl

-- The library prints the low 32 bits of a longer number.
prints_low_bits : user_printint (2 ^ 32 + 7) dec false ≡ b'7' ∷ []
unfolding user_printint user_buf digit_loop send
prints_low_bits = refl

reads_nothing : atoi (b'-' ∷ b'1' ∷ []) ≡ 0
unfolding atoi atoi_loop
reads_nothing = refl

abbrev pieces : List Piece
pieces =
    text b'x'
    ∷ number int_size letter_d (2 ^ 64 - 5)
    ∷ percent_sign
    ∷ words none
    ∷ number long_long_size letter_x (2 ^ 40)
    ∷ address 4096
    ∷ []

not_nul : ◌≢◌ {A = ℕ} b'x' 0
not_nul = omega arith

ordinary : ◌≢◌ {A = ℕ} b'x' b'%'
ordinary = omega arith

printf-vprintf_example :
    (printf (format_of pieces) (args_of pieces) ≡ some (output_of pieces))
    × (vprintf (format_of pieces) (args_of pieces) ≡ some (user_output_of pieces))
printf-vprintf_example = printf-vprintf pieces (not_nul, ordinary, tt)

-- An unknown conversion is printed, and a percent sign at the end is not.
prints_unknown : printf (b'%' ∷ b'q' ∷ b'%' ∷ []) [] ≡ some (b'%' ∷ b'q' ∷ [])
unfolding printf format_loop
prints_unknown = refl

prints_pointer :
    printf (b'%' ∷ b'p' ∷ []) (num 31 ∷ [])
    ≡ some (
        b'0' ∷ b'x' ∷ b'0' ∷ b'0' ∷ b'0' ∷ b'0' ∷ b'0' ∷ b'0' ∷ b'0' ∷ b'0' ∷ b'0' ∷ b'0' ∷ b'0'
        ∷ b'0' ∷ b'0' ∷ b'0' ∷ b'1' ∷ b'f' ∷ [])
unfolding printf format_loop printptr ptr_loop
prints_pointer = refl

-- An unsigned `int` of 2^32 - 1 is printed as 2^64 - 1.
prints_extended :
    printf (b'%' ∷ b'u' ∷ []) (num (2 ^ 32 - 1) ∷ [])
    ≡ some (kernel_printint (2 ^ 64 - 1) dec false)
unfolding printf format_loop kernel_printint kernel_buf digit_loop send
prints_extended = refl

writes_low_bits :
    vprintf (b'%' ∷ b'u' ∷ b'!' ∷ []) (num (2 ^ 32 - 1) ∷ [])
    ≡ some (user_printint (2 ^ 32 - 1) dec false ++ b'!' ∷ [])
unfolding vprintf vprintf_loop user_printint user_buf digit_loop send
writes_low_bits = refl
