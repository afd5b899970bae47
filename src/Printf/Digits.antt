-- ===== src/Printf/Digits.antt =====
-- Numbers that are printed: how long they are, and that atoi reads them back.
use ntu_sc2005_xv.Prelude.{
  ℕ, zero, suc, ◌+◌, ◌-◌, ◌*◌, ◌/◌, ◌%◌, ◌^◌, ◌≤◌, ◌<◌, ◌≡◌, ◌≢◌, ◌⊎◌, inl, inr, refl, sym, ap, ◌∙◌,
  Bool, true, false, ◌&&◌, Bool-cases, List, [], ◌∷◌, ◌++◌, append_assoc, append-nil, length,
  length-append, ltb, leb, ◌==◌, eq→==, ==→eq, ==→ne, if◌then◌else◌, arith,
}
use ntu_sc2005_xv.Prelude.Int.{u32, u64}
use ntu_sc2005_xv.Printf.{
  Base, dec, hex, base_of, digit, digit_loop, send, negative, kernel_buf, user_buf, user_printint,
  atoi_loop, atoi,
}

abbrev power : Base → ℕ → ℕ
power base zero = 1
power base (suc k) = base_of base * power base k

shorter : (base : Base) (k x : ℕ) → x < power base (suc k) → x / base_of base < power base k
shorter dec k x h = omega (arith, h)
shorter hex k x h = omega (arith, h)

one_digit : (base : Base) (x : ℕ) → x < power base 1 → x / base_of base ≡ 0
one_digit dec x h = omega (arith, h)
one_digit hex x h = omega (arith, h)

-- A number below the k-th power of the base has at most k digits.
digit_loop-length :
    (fuel k letter : ℕ) (base : Base) (x : ℕ)
    → x < power base (suc k)
    → length (digit_loop fuel letter base x) ≤ suc k
unfolding digit_loop
digit_loop-length zero k letter base x h = omega arith
digit_loop-length (suc fuel) zero letter base x h =
    rw (eq→== (x / base_of base) 0 (one_digit base x h)) (omega arith)
digit_loop-length (suc fuel) (suc k) letter base x h = elim (Bool-cases (x / base_of base == 0)) [
  | inl last ↦ rw last (omega arith)
  | inr more ↦
      let ih = digit_loop-length fuel k letter base (x / base_of base) (shorter base (suc k) x h) in
      rw more (omega (arith, ih))
]

pub length-send : (buf : List ℕ) → length (send buf) ≡ length buf
unfolding send
length-send [] = refl
length-send (c ∷ buf) = omega (arith, length-send buf, length-append {0} (send buf) (c ∷ []))

-- The number that digits, the lowest first, stand for.
abbrev pub digit_value : ℕ → ℕ → ℕ
digit_value letter c = if ltb c letter then c - b'0' else c - letter + 10

pub value : ℕ → Base → List ℕ → ℕ
value letter base [] = 0
value letter base (c ∷ buf) = digit_value letter c + base_of base * value letter base buf

digit_value-digit : (d : ℕ) → d < 16 → digit_value b'a' (digit b'a' d) ≡ d
digit_value-digit d h = ground (arith, h)

low_digit : (base : Base) (x : ℕ) → x % base_of base < 16
low_digit dec x = omega arith
low_digit hex x = omega arith

halves : (base : Base) (fuel x : ℕ) → x < 2 ^ suc fuel → x / base_of base < 2 ^ fuel
halves dec fuel x h = omega (arith, h)
halves hex fuel x h = omega (arith, h)

recompose : (base : Base) (x : ℕ) → x % base_of base + base_of base * (x / base_of base) ≡ x
recompose dec x = omega arith
recompose hex x = omega arith

value-digit_loop :
    (fuel : ℕ) (base : Base) (x : ℕ)
    → x < 2 ^ fuel
    → value b'a' base (digit_loop fuel b'a' base x) ≡ x
unfolding value digit_loop
value-digit_loop zero base x h = omega (arith, h)
value-digit_loop (suc fuel) base x h =
    let v = digit_value-digit (x % base_of base) (low_digit base x) in
    let sum = recompose base x in
    elim (Bool-cases (x / base_of base == 0)) [
      | inl last ↦
          let none_left : 0 ≡ x / base_of base = sym (==→eq (x / base_of base) 0 last) in
          rw last (
            ap (λ n. n + base_of base * 0) v
            ∙ ap (λ n. x % base_of base + base_of base * n) none_left
            ∙ sum)
      | inr more ↦
          let ih = value-digit_loop fuel base (x / base_of base) (halves base fuel x h) in
          rw more (
            ap
              (λ n.
                n + base_of base * value b'a' base (digit_loop fuel b'a' base (x / base_of base)))
              v
            ∙ ap (λ n. x % base_of base + base_of base * n) ih
            ∙ sum)
    ]

abbrev pub IsDigit : Base → ℕ → Type 0
IsDigit dec c = (b'0' ≤ c) × (c ≤ b'9')
IsDigit hex c = ((b'0' ≤ c) × (c ≤ b'9')) ⊎ ((b'a' ≤ c) × (c ≤ b'f'))

-- Digits, the lowest first, of which the highest is not 0.
abbrev pub Leading : Base → List ℕ → Type 0
Leading base [] = ⊥
Leading base (c ∷ []) = IsDigit base c × (c ≢ b'0')
Leading base (c ∷ d ∷ ds) = IsDigit base c × Leading base (d ∷ ds)

-- At least one digit, and no leading zeros, the lowest digit first.
abbrev pub Numeral : Base → List ℕ → Type 0
Numeral base [] = ⊥
Numeral base (c ∷ []) = IsDigit base c
Numeral base (c ∷ d ∷ ds) = IsDigit base c × Leading base (d ∷ ds)

Leading-cons :
    (base : Base) (c : ℕ) (ds : List ℕ) → IsDigit base c → Leading base ds → Leading base (c ∷ ds)
Leading-cons base c [] h l = absurd l
Leading-cons base c (d ∷ ds) h l = (h, l)

Numeral-cons :
    (base : Base) (c : ℕ) (ds : List ℕ) → IsDigit base c → Leading base ds → Numeral base (c ∷ ds)
Numeral-cons base c [] h l = absurd l
Numeral-cons base c (d ∷ ds) h l = (h, l)

digit-IsDigit : (base : Base) (x : ℕ) → IsDigit base (digit b'a' (x % base_of base))
digit-IsDigit dec x = ground arith
digit-IsDigit hex x = ground arith

digit_zero :
    (base : Base) (x : ℕ) → x / base_of base ≡ 0 → x ≢ 0 → digit b'a' (x % base_of base) ≢ b'0'
digit_zero dec x h ne = ground (arith, h, ne)
digit_zero hex x h ne = ground (arith, h, ne)

digit_loop-Leading :
    (fuel : ℕ) (base : Base) (x : ℕ)
    → x < 2 ^ fuel
    → x ≢ 0
    → Leading base (digit_loop fuel b'a' base x)
unfolding digit_loop
digit_loop-Leading zero base x h ne = absurd (omega (arith, h, ne))
digit_loop-Leading (suc fuel) base x h ne = elim (Bool-cases (x / base_of base == 0)) [
  | inl last ↦
      rw last (digit-IsDigit base x, digit_zero base x (==→eq (x / base_of base) 0 last) ne)
  | inr more ↦
      let ih =
        digit_loop-Leading fuel base (x / base_of base) (halves base fuel x h)
          (==→ne (x / base_of base) 0 more) in
      rw more (Leading-cons base _ _ (digit-IsDigit base x) ih)
]

digit_loop-Numeral :
    (fuel : ℕ) (base : Base) (x : ℕ)
    → x < 2 ^ suc fuel
    → Numeral base (digit_loop (suc fuel) b'a' base x)
unfolding digit_loop
digit_loop-Numeral fuel base x h = elim (Bool-cases (x / base_of base == 0)) [
  | inl last ↦ rw last (digit-IsDigit base x)
  | inr more ↦
      let rest =
        digit_loop-Leading fuel base (x / base_of base) (halves base fuel x h)
          (==→ne (x / base_of base) 0 more) in
      rw more (Numeral-cons base _ _ (digit-IsDigit base x) rest)
]

abbrev pub minus_sign : Bool → List ℕ
minus_sign minus = if minus then b'-' ∷ [] else []

abbrev pub magnitude : Bool → ℕ → ℕ
magnitude minus xx = if minus then 2 ^ 64 - xx else xx

is_big : (xx : ℕ) (sign : Bool) → (sign && negative xx) ≡ true → 2 ^ 63 ≤ xx
is_big xx sign m = ground (arith, m)

-- The kernel's printint keeps inside the 20 bytes of its buffer for every 64-bit number, signed or
-- not, in both bases. The buffer holds the digits of the number's magnitude, the lowest first, then
-- the minus sign of a negative one that is printed signed: at least one digit, all of them digits of
-- the base, and no leading zeros.
pub kernel_buf_lem :
    (xx : ℕ) (base : Base) (sign : Bool)
    → xx < 2 ^ 64
    → (digits : List ℕ) × (kernel_buf xx base sign ≡ digits ++ minus_sign (sign && negative xx))
      × Numeral base digits
      × (value b'a' base digits ≡ magnitude (sign && negative xx) xx)
      × (length (kernel_buf xx base sign) ≤ 20)
unfolding kernel_buf
kernel_buf_lem xx base sign h = elim (Bool-cases (sign && negative xx)) [
  | inr positive ↦ rw positive (
    digit_loop 64 b'a' base xx,
    sym (append-nil (digit_loop 64 b'a' base xx)),
    digit_loop-Numeral 63 base xx h,
    value-digit_loop 64 base xx h,
    digit_loop-length 64 19 b'a' base xx (unsigned base),
  )
  | inl minus ↦
      let big : 2 ^ 63 ≤ xx = is_big xx sign minus in
      let x = u64 (2 ^ 64 - xx) in
      let low : u64 (2 ^ 64 - xx) ≡ 2 ^ 64 - xx = omega (arith, big) in
      let d = digit_loop-length 64 18 b'a' base x (signed base big) in
      rw minus (
        digit_loop 64 b'a' base x,
        refl,
        digit_loop-Numeral 63 base x (omega arith),
        value-digit_loop 64 base x (omega arith) ∙ low,
        omega (arith, d, length-append {0} (digit_loop 64 b'a' base x) (b'-' ∷ [])),
      )
]
  where
    unsigned : (base : Base) → xx < power base 20
    unsigned dec = omega (arith, h)
    unsigned hex = omega (arith, h)

    signed : (base : Base) → 2 ^ 63 ≤ xx → u64 (2 ^ 64 - xx) < power base 19
    signed dec b = omega (arith, b)
    signed hex b = omega (arith, b)

-- What stands after the number: nothing, or no digit.
abbrev pub Stops : List ℕ → Type 0
Stops [] = Unit
Stops (c ∷ s) = (c < b'0') ⊎ (b'9' < c)

atoi_loop-stop : (n : ℕ) (s : List ℕ) → Stops s → atoi_loop n s ≡ n
unfolding atoi_loop
atoi_loop-stop n [] h = refl
atoi_loop-stop n (c ∷ s) h = rw (no_digit h) refl
  where
    no_digit : (c < b'0') ⊎ (b'9' < c) → (leb b'0' c && leb c b'9') ≡ false
    no_digit (inl l) = ground (arith, l)
    no_digit (inr u) = ground (arith, u)

atoi_loop-digit :
    (n d : ℕ) (s : List ℕ)
    → d < 10
    → n * 10 + d < 2 ^ 32
    → atoi_loop n (digit b'A' d ∷ s) ≡ atoi_loop (n * 10 + d) s
unfolding atoi_loop
atoi_loop-digit n d s h b =
    let at : digit b'A' d ≡ b'0' + d = ground (arith, h) in
    let is_digit : (leb b'0' (b'0' + d) && leb (b'0' + d) b'9') ≡ true = ground (arith, h) in
    let val : u32 (n * 10 + (b'0' + d) - b'0') ≡ n * 10 + d = omega (arith, b) in
    rw (at, atoi_loop, is_digit, val) refl

push_digit : (letter : ℕ) (buf s : List ℕ) → send (letter ∷ buf) ++ s ≡ send buf ++ letter ∷ s
unfolding send
push_digit letter buf s = append_assoc (send buf) (letter ∷ []) s

-- Reading the digits of `x` gives `x`.
read_digits :
    (fuel x : ℕ) (s : List ℕ)
    → x < 2 ^ fuel
    → x < 2 ^ 32
    → atoi_loop 0 (send (digit_loop fuel b'A' dec x) ++ s) ≡ atoi_loop x s
unfolding digit_loop send
read_digits zero x s f h = let is_zero : 0 ≡ x = omega (arith, f) in ap (λ n. atoi_loop n s) is_zero
read_digits (suc fuel) x s f h = elim (Bool-cases (x / 10 == 0)) [
  | inl last ↦
      let small : x / 10 ≡ 0 = ==→eq (x / 10) 0 last in
      let value : 0 * 10 + x % 10 ≡ x = omega (arith, small) in
      rw last
        (atoi_loop-digit 0 (x % 10) s (omega arith) (omega arith) ∙ ap (λ n. atoi_loop n s) value)
  | inr more ↦
      let d = digit b'A' (x % 10) in
      let rest = digit_loop fuel b'A' dec (x / 10) in
      let value : x / 10 * 10 + x % 10 ≡ x = omega arith in
      let read : atoi_loop 0 (send (d ∷ rest) ++ s) ≡ atoi_loop x s =
        ap (atoi_loop 0) (push_digit d rest s)
        ∙ read_digits fuel (x / 10) (d ∷ s) (omega (arith, f)) (omega (arith, h))
        ∙ atoi_loop-digit (x / 10) (x % 10) s (omega arith) (omega (arith, h))
        ∙ ap (λ n. atoi_loop n s) value in
      rw more read
]

-- atoi reads back a number that an int holds, once the printint of the library has printed it
-- unsigned in base ten, where no further digit follows.
pub atoi-user_printint :
    (x : ℕ) (s : List ℕ) → x < 2 ^ 31 → Stops s → atoi (user_printint x dec false ++ s) ≡ x
unfolding atoi user_printint user_buf
atoi-user_printint x s h stop =
    let low : u32 x ≡ x = omega (arith, h) in
    rw low (read_digits 64 x s (omega (arith, h)) (omega (arith, h)) ∙ atoi_loop-stop x s stop)
