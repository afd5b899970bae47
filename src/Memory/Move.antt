-- ===== src/Memory/Move.antt =====
-- What memset, memmove and memcmp of kernel/string.c do, at each address.
use ntu_sc2005_xv.Prelude.{
  ℕ, zero, suc, ◌+◌, ◌-◌, ◌%◌, ◌≤◌, ◌<◌, ◌≡◌, refl, Bool, ◌↔◌, ◌⊎◌, ◌&&◌, ltb, leb, arith,
  if◌then◌else◌,
}
use ntu_sc2005_xv.Prelude.Maps.{update}
use ntu_sc2005_xv.Prelude.Int.{pos}
use ntu_sc2005_xv.Memory.{Mem, set_loop, memset, memcmp, copy_down, copy_up, memmove}

-- Whether `a` lies in the `n` bytes from `p`.
abbrev pub within : ℕ → ℕ → ℕ → Bool
within p n a = leb p a && ltb a (p + n)

copy_up_lem :
    (n s d : ℕ) (m : Mem) (a : ℕ)
    → (d ≤ s) ⊎ (s + n ≤ d)
    → copy_up n s d m a ≡ (if within d n a then m (s + (a - d)) else m a)
unfolding copy_up
copy_up_lem zero s d m a h = ground arith
copy_up_lem (suc n) s d m a h = ground (arith, copy_up_lem n (s + 1) (d + 1) (update m d (m s)) a)

copy_down_lem :
    (n s d e t : ℕ) (m : Mem) (a : ℕ)
    → s ≤ d
    → e ≡ s + n
    → t ≡ d + n
    → copy_down n e t m a ≡ (if within d n a then m (s + (a - d)) else m a)
unfolding copy_down
copy_down_lem zero s d e t m a h p q = ground arith
copy_down_lem (suc n) s d e t m a h p q =
    ground (arith, copy_down_lem n s d (e - 1) (t - 1) (update m (t - 1) (m (e - 1))) a)

-- Each of the `n` destination bytes gets the byte that its source held before the call, however
-- the two ranges overlap, and no other byte changes.
pub memmove_lem :
    (dst src n : ℕ) (m : Mem) (a : ℕ)
    → memmove dst src n m a ≡ (if within dst n a then m (src + (a - dst)) else m a)
unfolding memmove
memmove_lem dst src n m a =
    ground (arith, copy_up_lem n src dst m a, copy_down_lem n src dst (src + n) (dst + n) m a)

set_loop_lem :
    (n p c : ℕ) (m : Mem) (a : ℕ) → set_loop n p c m a ≡ (if within p n a then c % 256 else m a)
unfolding set_loop
set_loop_lem zero p c m a = ground arith
set_loop_lem (suc n) p c m a = ground (arith, set_loop_lem n (p + 1) c (update m p (c % 256)) a)

-- memset stores the low byte of `c` in the `n` bytes from `dst`, and nothing else.
pub memset_lem :
    (dst c n : ℕ) (m : Mem) (a : ℕ) → memset dst c n m a ≡ (if within dst n a then c % 256 else m a)
unfolding memset
memset_lem dst c n m a = set_loop_lem n dst c m a

-- The `n` bytes from two addresses are the same.
abbrev pub SameBytes : Mem → ℕ → ℕ → ℕ → Type 0
SameBytes m p q n = (i : ℕ) → i < n → m (p + i) ≡ m (q + i)

SameBytes-head : (m : Mem) (p q n : ℕ) → SameBytes m p q (suc n) → m p ≡ m q
SameBytes-head m p q n h = grind (arith, h 0)

memcmp-same : (m : Mem) (p q n : ℕ) → SameBytes m p q n → memcmp p q n m ≡ pos 0
unfolding memcmp
memcmp-same m p q zero h = refl
memcmp-same m p q (suc n) h = ground (
  arith,
  SameBytes-head m p q n h,
  memcmp-same m (p + 1) (q + 1) n (λ i lt. ground (arith, h (i + 1))),
)

memcmp-zero : (m : Mem) (p q n : ℕ) → memcmp p q n m ≡ pos 0 → SameBytes m p q n
unfolding memcmp
memcmp-zero m p q zero h i lt = absurd (omega arith)
memcmp-zero m p q (suc n) h zero lt = ground (arith, h)
memcmp-zero m p q (suc n) h (suc i) lt = ground (arith, memcmp-zero m (p + 1) (q + 1) n _ i)

-- memcmp returns 0 exactly when the two ranges hold the same bytes.
pub memcmp_iff : (m : Mem) (p q n : ℕ) → (memcmp p q n m ≡ pos 0) ↔ SameBytes m p q n
memcmp_iff m p q n = (memcmp-zero m p q n, memcmp-same m p q n)
