-- ===== src/File.antt =====
-- kernel/file.c: the table of open files with its reference counts. Each function holds
-- `ftable.lock` while it uses the table, so a call is one step. Pipes and inodes are numbers.
pub mod Refs
mod Tests
use ntu_sc2005_xv.Prelude.{
  ℕ, zero, suc, ◌+◌, ◌-◌, Bool, true, false, Option, none, some, ◌==◌, ltb, if◌then◌else◌,
}
use ntu_sc2005_xv.Prelude.Maps.{update}

abbrev pub nfile : ℕ
nfile = 100

pub data Kind : Type 0 where
  fd_none fd_pipe fd_inode fd_device : Kind

-- `struct file`; `ref` is an `int`, and there are at most NPROC * NOFILE descriptors.
pub record File : Type 0 where
  pub kind : Kind
  pub ref : ℕ
  pub readable : Bool
  pub writable : Bool
  pub pipe : ℕ
  pub ip : ℕ
  pub off : ℕ
  pub major : ℕ

abbrev pub Ftable : Type 0
Ftable = ℕ → File

-- The loop of `filealloc` at file `f`, with `rest` to go.
pub alloc_loop : ℕ → ℕ → Ftable → Option ℕ × Ftable
alloc_loop zero f t = (none, t)
alloc_loop (suc rest) f t =
    let further = alloc_loop rest (f + 1) t in
    if (t f).ref == 0 then (some f, update t f (record (t f) { ref = 1 })) else further

pub filealloc : Ftable → Option ℕ × Ftable
filealloc t = alloc_loop nfile 0 t

-- `none` is a panic.
pub filedup : ℕ → Ftable → Option Ftable
filedup f t =
    if ltb (t f).ref 1 then none else some (update t f (record (t f) { ref = (t f).ref + 1 }))

-- What `fileclose` calls once it has released the table.
pub data Last : Type 0 where
  nothing : Last
  closes_pipe : ℕ → Bool → Last  -- `pipeclose(ff.pipe, ff.writable)`
  puts_inode : ℕ → Last  -- `iput(ff.ip)`, in a transaction

abbrev pub last_close : File → Kind → Last
last_close ff fd_none = nothing
last_close ff fd_pipe = closes_pipe ff.pipe ff.writable
last_close ff fd_inode = puts_inode ff.ip
last_close ff fd_device = puts_inode ff.ip

pub fileclose : ℕ → Ftable → Option (Last × Ftable)
fileclose f t =
    if ltb (t f).ref 1
    then none
    else (let left = (t f).ref - 1 in
        if ltb 0 left
        then some (nothing, update t f (record (t f) { ref = left }))
        else some
            (last_close (t f) (t f).kind, update t f (record (t f) { ref = 0; kind = fd_none })))
