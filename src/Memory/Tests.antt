-- ===== src/Memory/Tests.antt =====
-- Runs of kernel/string.c, and its theorems at concrete memories.
use ntu_sc2005_xv.Prelude.{◌≡◌, refl, [], ◌∷◌, some, get_or}
use ntu_sc2005_xv.Prelude.Int.{negsuc}
use ntu_sc2005_xv.Memory.{
  Mem, copy_down, copy_up, memmove, strncmp, safe_loop, safestrcpy, strlen_loop, strlen,
}
use ntu_sc2005_xv.Memory.Move.{memmove_lem}

-- "ab\0ab/\0" from address 0 on, then zeros
abbrev bytes : Mem
bytes a = get_or (b'a' ∷ b'b' ∷ 0 ∷ b'a' ∷ b'b' ∷ b'/' ∷ 0 ∷ []) a 0

moves_down : memmove 1 0 2 bytes 2 ≡ b'b'
unfolding memmove copy_down copy_up
moves_down = refl

compares : strncmp 0 3 14 bytes ≡ negsuc 46
unfolding strncmp
compares = refl

copies_short : safestrcpy 20 3 3 bytes 21 ≡ b'b'
unfolding safestrcpy safe_loop
copies_short = refl

counts : strlen 10 3 bytes ≡ some 3
unfolding strlen strlen_loop
counts = refl

memmove_lem_example : memmove 1 0 2 bytes 2 ≡ b'b'
memmove_lem_example = memmove_lem 1 0 2 bytes 2
