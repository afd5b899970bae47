-- ===== src/File/Tests.antt =====
-- A run of kernel/file.c: a pipe is opened and duplicated.
use ntu_sc2005_xv.Prelude.{ℕ, ◌<◌, ◌≡◌, ◌≢◌, refl, [], ◌∷◌, count, true, false, none, some}
use ntu_sc2005_xv.Prelude.Maps.{update}
use ntu_sc2005_xv.File.{
  nfile, fd_none, fd_pipe, File, Ftable, alloc_loop, filealloc, filedup, fileclose,
}
use ntu_sc2005_xv.File.Refs.{System, open_file, set_up, duplicate, Reach, here, next, file_refs}

abbrev free_file : File
free_file = record {
  kind = fd_none;
  ref = 0;
  readable = false;
  writable = false;
  pipe = 0;
  ip = 0;
  off = 0;
  major = 0;
}

abbrev pipe_file : File
pipe_file = record free_file { kind = fd_pipe; ref = 1; writable = true; pipe = 7 }

abbrev zeros : Ftable
zeros _ = free_file

-- One descriptor for the pipe, and then two.
abbrev one : System
one = record {
  table = update (update zeros 0 (record free_file { ref = 1 })) 0 pipe_file;
  fds = 0 ∷ [];
}

abbrev two : System
two = record { table = update one.table 0 (record pipe_file { ref = 2 }); fds = 0 ∷ 0 ∷ [] }

allocates : filealloc zeros ≡ (some 0, update zeros 0 (record free_file { ref = 1 }))
unfolding filealloc alloc_loop
allocates = refl

duplicates : filedup 0 one.table ≡ some two.table
unfolding filedup
duplicates = refl

one_reached : Reach one
one_reached = next (next (here zeros (λ f. refl)) (open_file 0 allocates)) (set_up 0 pipe_file refl)

two_reached : Reach two
two_reached = next one_reached (duplicate [] [] 0 refl duplicates)

file_refs_example :
    ((two.table 0).ref ≡ count 0 two.fds)
    × (count 0 two.fds ≢ 0 → (filedup 0 two.table ≢ none) × (fileclose 0 two.table ≢ none))
    × ((g : ℕ) → (filealloc two.table).0 ≡ some g → count g two.fds ≡ 0)
    × ((filealloc two.table).0 ≡ none → 0 < nfile → count 0 two.fds ≢ 0)
file_refs_example = file_refs 0 two_reached
