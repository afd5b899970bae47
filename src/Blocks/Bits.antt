-- ===== src/Blocks/Bits.antt =====
-- The bits of a byte of the bitmap of kernel/fs.c.
use ntu_sc2005_xv.Prelude.{
  ℕ, zero, suc, ◌+◌, ◌*◌, ◌/◌, ◌%◌, ◌≡◌, ◌≢◌, refl, ap, ◌∙◌, true, false, arith,
}
use ntu_sc2005_xv.Blocks.{test_bit, set_bit, clear_bit}

half : (q w : ℕ) → (q * 2 + w % 2) / 2 ≡ q
half q w = omega arith

odd_half : (w : ℕ) → (w / 2 * 2 + 1) / 2 ≡ w / 2
odd_half w = omega arith

even_half : (w : ℕ) → (w / 2 * 2) / 2 ≡ w / 2
even_half w = omega arith

pub test-set_bit : (i w : ℕ) → test_bit i (set_bit i w) ≡ true
test-set_bit zero w = ground arith
test-set_bit (suc i) w = ap (test_bit i) (half (set_bit i (w / 2)) w) ∙ test-set_bit i (w / 2)

pub test-clear_bit : (i w : ℕ) → test_bit i (clear_bit i w) ≡ false
test-clear_bit zero w = ground arith
test-clear_bit (suc i) w = ap (test_bit i) (half (clear_bit i (w / 2)) w) ∙ test-clear_bit i (w / 2)

pub test-set_bit_ne : (i j w : ℕ) → i ≢ j → test_bit j (set_bit i w) ≡ test_bit j w
test-set_bit_ne zero zero w h = absurd (h refl)
test-set_bit_ne zero (suc j) w h = ap (test_bit j) (odd_half w)
test-set_bit_ne (suc i) zero w h = ground arith
test-set_bit_ne (suc i) (suc j) w h =
    ap (test_bit j) (half (set_bit i (w / 2)) w) ∙ test-set_bit_ne i j (w / 2) (λ e. h (ap suc e))

pub test-clear_bit_ne : (i j w : ℕ) → i ≢ j → test_bit j (clear_bit i w) ≡ test_bit j w
test-clear_bit_ne zero zero w h = absurd (h refl)
test-clear_bit_ne zero (suc j) w h = ap (test_bit j) (even_half w)
test-clear_bit_ne (suc i) zero w h = ground arith
test-clear_bit_ne (suc i) (suc j) w h =
    ap (test_bit j) (half (clear_bit i (w / 2)) w)
    ∙ test-clear_bit_ne i j (w / 2) (λ e. h (ap suc e))
