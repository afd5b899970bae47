-- ===== src/Printf/Format.antt =====
-- printptr and the format loop of printf in kernel/printf.c, with what goes to the console as a list
-- of bytes. A format and a string are the bytes before the NUL. `pr.lock` and panic are left out.
use ntu_sc2005_xv.Prelude.{
  ℕ, zero, suc, ◌+◌, ◌-◌, ◌*◌, ◌/◌, ◌^◌, Bool, true, false, ◌&&◌, Option, none, some, List, [], ◌∷◌,
  ◌++◌, length, drop, leb, ◌==◌, if◌then◌else◌,
}
use ntu_sc2005_xv.Prelude.Int.{u32, u64}
use ntu_sc2005_xv.Printf.{Base, dec, hex, digit, kernel_printint}

-- One argument of the call: a register with a number, or a pointer to a string that may be null.
pub data Arg : Type 0 where
  num : ℕ → Arg
  str : Option (List ℕ) → Arg

-- What a % and the bytes after it ask for; `integer` also says how many of them `i` still skips.
pub data Conversion : Type 0 where
  integer : (long : Bool) (base : Base) (sign : Bool) (skip : ℕ) → Conversion
  pointer string percent unknown : Conversion

abbrev pub conversion : ℕ → ℕ → ℕ → Conversion
conversion c0 c1 c2 =
    if c0 == b'd'
    then integer false dec true 0
    else if c0 == b'l' && c1 == b'd'
    then integer true dec true 1
    else if c0 == b'l' && c1 == b'l' && c2 == b'd'
    then integer true dec true 2
    else if c0 == b'u'
    then integer false dec false 0
    else if c0 == b'l' && c1 == b'u'
    then integer true dec false 1
    else if c0 == b'l' && c1 == b'l' && c2 == b'u'
    then integer true dec false 2
    else if c0 == b'x'
    then integer false hex false 0
    else if c0 == b'l' && c1 == b'x'
    then integer true hex false 1
    else if c0 == b'l' && c1 == b'l' && c2 == b'x'
    then integer true hex false 2
    else if c0 == b'p'
    then pointer
    else if c0 == b's'
    then string
    else if c0 == b'%'
    then percent
    else unknown

-- An `int` argument as the `long long` parameter of printint: the sign is extended.
abbrev pub sign_extend : ℕ → ℕ
sign_extend w = if leb (2 ^ 31) (u32 w) then u32 w + (2 ^ 64 - 2 ^ 32) else u32 w

-- `for (i = 0; i < 16; i++, x <<= 4) consputc(digits[x >> 60]);`
unfoldable pub ptr_loop : ℕ → ℕ → List ℕ
ptr_loop zero x = []
ptr_loop (suc n) x = digit b'a' (x / 2 ^ 60) ∷ ptr_loop n (u64 (x * 16))

unfoldable pub printptr : ℕ → List ℕ
printptr x = b'0' ∷ b'x' ∷ ptr_loop 16 x

abbrev pub null_text : List ℕ
null_text = b'(' ∷ b'n' ∷ b'u' ∷ b'l' ∷ b'l' ∷ b')' ∷ []

abbrev pub string_text : Option (List ℕ) → List ℕ
string_text none = null_text
string_text (some s) = s

-- What a conversion prints, with the arguments that are left. An argument that is missing or of
-- another type is undefined in C.
abbrev pub convert : Conversion → ℕ → List Arg → Option (List ℕ × List Arg)
convert (integer long base sign skip) c0 [] = none
convert (integer long base sign skip) c0 (str s ∷ ap) = none
convert (integer long base sign skip) c0 (num w ∷ ap) =
    some (kernel_printint (if long then w else sign_extend w) base sign, ap)
convert pointer c0 [] = none
convert pointer c0 (str s ∷ ap) = none
convert pointer c0 (num w ∷ ap) = some (printptr w, ap)
convert string c0 [] = none
convert string c0 (num w ∷ ap) = none
convert string c0 (str s ∷ ap) = some (string_text s, ap)
convert percent c0 ap = some (b'%' ∷ [], ap)
convert unknown c0 ap = some (b'%' ∷ c0 ∷ [], ap)

abbrev pub skipped : Conversion → ℕ
skipped (integer long base sign skip) = skip
skipped pointer = 0
skipped string = 0
skipped percent = 0
skipped unknown = 0

-- `fmt[i + n]`, which is the NUL at the end.
abbrev pub peek : ℕ → List ℕ → ℕ
peek n [] = 0
peek zero (c ∷ fmt) = c
peek (suc n) (c ∷ fmt) = peek n fmt

abbrev pub prefix : List ℕ → Option (List ℕ) → Option (List ℕ)
prefix l none = none
prefix l (some out) = some (l ++ out)

-- The loop over `fmt + i`, with fuel for its rounds.
unfoldable pub format_loop : ℕ → List ℕ → List Arg → Option (List ℕ)
format_loop fuel [] ap = some []
format_loop zero (cx ∷ fmt) ap = none
format_loop (suc fuel) (cx ∷ fmt) ap = elim (cx == b'%') [
  | false ↦ prefix (cx ∷ []) (format_loop fuel fmt ap)
  | true ↦ elim fmt [
    | [] ↦ some []
    | c0 ∷ rest ↦
        let what = conversion c0 (peek 0 rest) (peek 1 rest) in
        elim (convert what c0 ap) [
          | none ↦ none
          | some (out, ap') ↦ prefix out (format_loop fuel (drop (skipped what) rest) ap')
        ]
  ]
]

unfoldable pub printf : List ℕ → List Arg → Option (List ℕ)
printf fmt ap = format_loop (length fmt) fmt ap
