-- ===== src/Memory/Names.antt =====
-- What the string functions of kernel/string.c do with NUL-terminated names.
use ntu_sc2005_xv.Prelude.{
  ℕ, zero, suc, ◌+◌, ◌-◌, ◌≤◌, ◌<◌, ◌≡◌, ◌≢◌, refl, ◌↔◌, ◌⊎◌, Bool-cases, inl, inr, List, [], ◌∷◌,
  some, length, ◌==◌, arith, if◌then◌else◌,
}
use ntu_sc2005_xv.Prelude.Maps.{update}
use ntu_sc2005_xv.Prelude.Int.{pos}
use ntu_sc2005_xv.Memory.{
  Mem, strncmp, zero_fill, strncpy, safe_loop, safestrcpy, strlen_loop, strlen,
}
use ntu_sc2005_xv.Memory.Move.{within}

-- The name that at most `n` bytes from `p` hold: it ends before the first NUL.
abbrev pub cstr : ℕ → ℕ → Mem → List ℕ
cstr zero p m = []
cstr (suc n) p m = if m p == 0 then [] else m p ∷ cstr n (p + 1) m

-- The two ranges of `n` bytes have no byte in common.
abbrev pub Apart : ℕ → ℕ → ℕ → Type 0
Apart s t n = (s + n ≤ t) ⊎ (t + n ≤ s)

strncmp-zero : (m : Mem) (n p q : ℕ) → strncmp p q n m ≡ pos 0 → cstr n p m ≡ cstr n q m
unfolding strncmp
strncmp-zero m zero p q h = refl
strncmp-zero m (suc n) p q h = ground (arith, strncmp-zero m n (p + 1) (q + 1))

strncmp-same : (m : Mem) (n p q : ℕ) → cstr n p m ≡ cstr n q m → strncmp p q n m ≡ pos 0
unfolding strncmp
strncmp-same m zero p q h = refl
strncmp-same m (suc n) p q h = ground (arith, strncmp-same m n (p + 1) (q + 1))

-- strncmp returns 0 exactly when both ranges hold the same name, cut off at `n` bytes.
pub strncmp_iff : (m : Mem) (n p q : ℕ) → (strncmp p q n m ≡ pos 0) ↔ (cstr n p m ≡ cstr n q m)
strncmp_iff m n p q = (strncmp-zero m n p q, strncmp-same m n p q)

-- Byte `i` of the string at `t`, padded with NULs.
pub padded : Mem → ℕ → ℕ → ℕ
padded m t zero = m t
padded m t (suc i) = if m t == 0 then 0 else padded m (t + 1) i

padded-update :
    (m : Mem) (s v t i : ℕ) → (s < t) ⊎ (t + i < s) → padded (update m s v) t i ≡ padded m t i
unfolding padded
padded-update m s v t zero h = ground arith
padded-update m s v t (suc i) h = ground (arith, padded-update m s v (t + 1) i)

zero_fill_lem : (n s : ℕ) (m : Mem) (a : ℕ) → zero_fill n s m a ≡ (if within s n a then 0 else m a)
unfolding zero_fill
zero_fill_lem zero s m a = ground arith
zero_fill_lem (suc n) s m a = ground (arith, zero_fill_lem n (s + 1) (update m s 0) a)

padded-nul : (m : Mem) (t i : ℕ) → m t ≡ 0 → padded m t i ≡ 0
unfolding padded
padded-nul m t zero h = h
padded-nul m t (suc i) h = ground arith

padded-suc : (m : Mem) (t i : ℕ) → m t ≢ 0 → 0 < i → padded m t i ≡ padded m (t + 1) (i - 1)
unfolding padded
padded-suc m t zero h p = absurd (omega arith)
padded-suc m t (suc i) h p = ground arith

padded-head : (m : Mem) (t i : ℕ) → i ≡ 0 → padded m t i ≡ m t
unfolding padded
padded-head m t zero h = refl
padded-head m t (suc i) h = absurd (omega arith)

-- strncpy writes the `n` bytes from `s` and no others: the string at `t`, padded with NULs.
pub strncpy_lem :
    (m : Mem) (n s t a : ℕ)
    → Apart s t n
    → strncpy s t n m a ≡ (if within s n a then padded m t (a - s) else m a)
unfolding strncpy
strncpy_lem m zero s t a h = ground arith
strncpy_lem m (suc n) s t a h = ground (
  arith,
  zero_fill_lem n (s + 1) (update m s (m t)) a,
  strncpy_lem (update m s (m t)) n (s + 1) (t + 1) a,
  padded-update m s (m t) (t + 1) (a - (s + 1)),
  padded-nul m t (a - s),
  padded-suc m t (a - s),
  padded-head m t (a - s),
)

cstr-padded :
    (m m' : Mem) (n s t : ℕ)
    → ((i : ℕ) → i < n → m' (s + i) ≡ padded m t i)
    → cstr n s m' ≡ cstr n t m
unfolding padded
cstr-padded m m' zero s t h = refl
cstr-padded m m' (suc n) s t h = elim (Bool-cases (m t == 0)) [
  | inl z ↦ ground (arith, h 0)
  | inr nz ↦
      ground (arith, h 0, cstr-padded m m' n (s + 1) (t + 1) (λ i lt. ground (arith, h (suc i))))
]

-- A name that strncpy has copied to a range apart from its source reads back as the name itself,
-- cut off at `n` bytes.
pub cstr-strncpy : (m : Mem) (n s t : ℕ) → Apart s t n → cstr n s (strncpy s t n m) ≡ cstr n t m
cstr-strncpy m n s t h =
    cstr-padded m (strncpy s t n m) n s t λ i lt. ground (arith, strncpy_lem m n s t (s + i))

cstr-update : (m : Mem) (a v n t : ℕ) → (a < t) ⊎ (t + n ≤ a) → cstr n t (update m a v) ≡ cstr n t m
cstr-update m a v zero t h = refl
cstr-update m a v (suc n) t h = ground (arith, cstr-update m a v n (t + 1))

safe_loop_frame : (m : Mem) (n s t a : ℕ) → (a < s) ⊎ (s + n < a) → safe_loop s t n m a ≡ m a
unfolding safe_loop
safe_loop_frame m zero s t a h = ground arith
safe_loop_frame m (suc n) s t a h =
    ground (arith, safe_loop_frame (update m s (m t)) n (s + 1) (t + 1) a)

cstr-safe_loop :
    (m : Mem) (n s t : ℕ) → Apart s t (n + 1) → cstr (suc n) s (safe_loop s t n m) ≡ cstr n t m
unfolding safe_loop
cstr-safe_loop m zero s t h = ground arith
cstr-safe_loop m (suc n) s t h = ground (
  arith,
  safe_loop_frame (update m s (m t)) n (s + 1) (t + 1) s,
  cstr-safe_loop (update m s (m t)) n (s + 1) (t + 1),
  cstr-update m s (m t) n (t + 1),
)

safe_loop_nul :
    (m : Mem) (n s t : ℕ) → Apart s t (n + 1) → safe_loop s t n m (s + length (cstr n t m)) ≡ 0
unfolding safe_loop
safe_loop_nul m zero s t h = ground arith
safe_loop_nul m (suc n) s t h =
    ground
      (arith, safe_loop_nul (update m s (m t)) n (s + 1) (t + 1), cstr-update m s (m t) n (t + 1))

-- For n > 0 and ranges that do not overlap, safestrcpy leaves at `s` the name at `t`, cut off at
-- `n - 1` bytes, with a NUL right behind it, and changes no byte outside the `n` bytes from `s`.
pub safestrcpy_lem :
    (m : Mem) (n s t : ℕ)
    → Apart s t n
    → 0 < n
    → let m' = safestrcpy s t n m in
      (cstr n s m' ≡ cstr (n - 1) t m)
      × (m' (s + length (cstr (n - 1) t m)) ≡ 0)
      × ((a : ℕ) → (a < s) ⊎ (s + n ≤ a) → m' a ≡ m a)
unfolding safestrcpy
safestrcpy_lem m zero s t h p = absurd (omega arith)
safestrcpy_lem m (suc n) s t h p = (
  ground (arith, cstr-safe_loop m n s t),
  ground (arith, safe_loop_nul m n s t),
  λ a out. safe_loop_frame m n s t a (ground arith),
)

strlen_loop_lem :
    (m : Mem) (fuel s n k : ℕ)
    → n ≤ k
    → k < n + fuel
    → m (s + k) ≡ 0
    → ((i : ℕ) → n ≤ i → i < k → m (s + i) ≢ 0)
    → strlen_loop fuel s n m ≡ some k
unfolding strlen_loop
strlen_loop_lem m zero s n k l f z h = absurd (omega arith)
strlen_loop_lem m (suc fuel) s n k l f z h =
    ground (arith, h n, strlen_loop_lem m fuel s (n + 1) k _ _ z (λ i q lt. h i (omega arith) lt))

-- strlen returns the index of the first NUL: fuel beyond that index is enough.
pub strlen_lem :
    (m : Mem) (fuel s k : ℕ)
    → k < fuel
    → m (s + k) ≡ 0
    → ((i : ℕ) → i < k → m (s + i) ≢ 0)
    → strlen fuel s m ≡ some k
unfolding strlen
strlen_lem m fuel s k f z h =
    strlen_loop_lem m fuel s 0 k (omega arith) (omega arith) z (λ i q lt. h i lt)
