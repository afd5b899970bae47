-- ===== src/Printf.antt =====
-- The conversion of numbers in kernel/printf.c and user/printf.c, and atoi of user/ulib.c. A 64-bit
-- integer is its bit pattern, below 2^64.
pub mod Digits
pub mod Format
pub mod Pieces
pub mod Library
mod Tests
use ntu_sc2005_xv.Prelude.{
  ℕ, zero, suc, ◌+◌, ◌-◌, ◌*◌, ◌/◌, ◌%◌, ◌^◌, Bool, true, false, ◌&&◌, List, [], ◌∷◌, ◌++◌, ltb,
  leb, ◌==◌, if◌then◌else◌,
}
use ntu_sc2005_xv.Prelude.Int.{u32, u64}

-- The bases of the formats: %d and %u, %x.
pub data Base : Type 0 where
  dec hex : Base

abbrev pub base_of : Base → ℕ
base_of dec = 10
base_of hex = 16

-- `digits[d]`, with the first letter of the table: 'a' in the kernel, 'A' in the library
abbrev pub digit : ℕ → ℕ → ℕ
digit letter d = if ltb d 10 then b'0' + d else letter + (d - 10)

-- `do { buf[i++] = digits[x % base]; } while((x /= base) != 0);`, with fuel
unfoldable pub digit_loop : ℕ → ℕ → Base → ℕ → List ℕ
digit_loop zero letter base x = []
digit_loop (suc fuel) letter base x =
    let rest = digit_loop fuel letter base (x / base_of base) in
    let d = digit letter (x % base_of base) in if x / base_of base == 0 then d ∷ [] else d ∷ rest

-- `while(--i >= 0) consputc(buf[i]);`
unfoldable pub send : List ℕ → List ℕ
send [] = []
send (c ∷ buf) = send buf ++ c ∷ []

-- xx < 0
abbrev pub negative : ℕ → Bool
negative xx = leb (2 ^ 63) xx

-- `buf` of printint of the kernel
unfoldable pub kernel_buf : ℕ → Base → Bool → List ℕ
kernel_buf xx base sign =
    if sign && negative xx
    then digit_loop 64 b'a' base (u64 (2 ^ 64 - xx)) ++ b'-' ∷ []
    else digit_loop 64 b'a' base xx

unfoldable pub kernel_printint : ℕ → Base → Bool → List ℕ
kernel_printint xx base sign = send (kernel_buf xx base sign)

-- `buf` of printint of the library, where `x` is a `uint`
unfoldable pub user_buf : ℕ → Base → Bool → List ℕ
user_buf xx base sgn =
    if sgn && negative xx
    then digit_loop 64 b'A' base (u32 (2 ^ 64 - xx)) ++ b'-' ∷ []
    else digit_loop 64 b'A' base (u32 xx)

unfoldable pub user_printint : ℕ → Base → Bool → List ℕ
user_printint xx base sgn = send (user_buf xx base sgn)

-- The loop of atoi, with the low 32 bits of `n`: C leaves open what an `int` does beyond 2^31, the
-- machine wraps.
unfoldable pub atoi_loop : ℕ → List ℕ → ℕ
atoi_loop n [] = n
atoi_loop n (c ∷ s) =
    let further = atoi_loop (u32 (n * 10 + c - b'0')) s in
    if leb b'0' c && leb c b'9' then further else n

unfoldable pub atoi : List ℕ → ℕ
atoi s = atoi_loop 0 s
