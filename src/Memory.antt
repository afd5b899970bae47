-- ===== src/Memory.antt =====
-- kernel/string.c over a memory of bytes. Pointers are addresses, and a byte is a number below 256.
-- As C demands of the caller, an object does not run over the end of the address space.
pub mod Move
pub mod Names
mod Tests
use ntu_sc2005_xv.Prelude.{
  ℕ, zero, suc, ◌+◌, ◌-◌, ◌%◌, Bool, not, ◌&&◌, Option, none, some, ltb, ◌==◌, if◌then◌else◌,
}
use ntu_sc2005_xv.Prelude.Maps.{update}
use ntu_sc2005_xv.Prelude.Int.{ℤ, pos, sub_ℕ}

-- The byte at each address.
abbrev pub Mem : Type 0
Mem = ℕ → ℕ

-- `for(i = 0; i < n; i++) cdst[i] = c;` from index `i` on, for `n` rounds
pub set_loop : ℕ → ℕ → ℕ → Mem → Mem
set_loop zero p c m = m
set_loop (suc n) p c m = set_loop n (p + 1) c (update m p (c % 256))

pub memset : ℕ → ℕ → ℕ → Mem → Mem
memset dst c n m = set_loop n dst c m

pub memcmp : ℕ → ℕ → ℕ → Mem → ℤ
memcmp s1 s2 zero m = pos 0
memcmp s1 s2 (suc n) m =
    let rest = memcmp (s1 + 1) (s2 + 1) n m in
    if not (m s1 == m s2) then sub_ℕ (m s1) (m s2) else rest

-- `while(n-- > 0) *--d = *--s;`
pub copy_down : ℕ → ℕ → ℕ → Mem → Mem
copy_down zero s d m = m
copy_down (suc n) s d m = copy_down n (s - 1) (d - 1) (update m (d - 1) (m (s - 1)))

-- `while(n-- > 0) *d++ = *s++;`
pub copy_up : ℕ → ℕ → ℕ → Mem → Mem
copy_up zero s d m = m
copy_up (suc n) s d m = copy_up n (s + 1) (d + 1) (update m d (m s))

pub memmove : ℕ → ℕ → ℕ → Mem → Mem
memmove dst src n m =
    if n == 0
    then m
    else if ltb src dst && ltb dst (src + n)
    then copy_down n (src + n) (dst + n) m
    else copy_up n src dst m

pub memcpy : ℕ → ℕ → ℕ → Mem → Mem
memcpy dst src n m = memmove dst src n m

pub strncmp : ℕ → ℕ → ℕ → Mem → ℤ
strncmp p q zero m = pos 0
strncmp p q (suc n) m =
    let rest = strncmp (p + 1) (q + 1) n m in
    if not (m p == 0) && m p == m q then rest else sub_ℕ (m p) (m q)

-- `while(n-- > 0) *s++ = 0;`
pub zero_fill : ℕ → ℕ → Mem → Mem
zero_fill zero s m = m
zero_fill (suc n) s m = zero_fill n (s + 1) (update m s 0)

pub strncpy : ℕ → ℕ → ℕ → Mem → Mem
strncpy s t zero m = m
strncpy s t (suc n) m =
    let m' = update m s (m t) in
    let rest = strncpy (s + 1) (t + 1) n m' in if m t == 0 then zero_fill n (s + 1) m' else rest

-- `while(--n > 0 && (*s++ = *t++) != 0) ; *s = 0;` with `n` already decremented
pub safe_loop : ℕ → ℕ → ℕ → Mem → Mem
safe_loop s t zero m = update m s 0
safe_loop s t (suc n) m =
    let m' = update m s (m t) in
    let rest = safe_loop (s + 1) (t + 1) n m' in if m t == 0 then update m' (s + 1) 0 else rest

pub safestrcpy : ℕ → ℕ → ℕ → Mem → Mem
safestrcpy s t zero m = m
safestrcpy s t (suc n) m = safe_loop s t n m

-- `for(n = 0; s[n]; n++) ;` with fuel; `none` means that the fuel ran out.
pub strlen_loop : ℕ → ℕ → ℕ → Mem → Option ℕ
strlen_loop zero s n m = none
strlen_loop (suc fuel) s n m =
    let rest = strlen_loop fuel s (n + 1) m in if m (s + n) == 0 then some n else rest

pub strlen : ℕ → ℕ → Mem → Option ℕ
strlen fuel s m = strlen_loop fuel s 0 m
