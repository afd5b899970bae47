-- ===== src/Lib.antt =====
-- xv6 for RISC-V, a teaching operating system: its kernel in C under kernel/, the program that
-- makes a file system image under mkfs/, and user programs under user/. This library models
-- parts of the kernel as functions and step relations, and proves what these parts rely on from
-- each other.
--
-- How the parts hang together: kalloc.c hands out pages of memory, among others for pipes; a
-- spin lock guards the free list, the pipe, the log and every other shared structure, so that
-- what runs between acquire and release is one step of the models above it; the process table
-- has the states of processes, which sleep and wake each other through it; pipes carry bytes
-- between processes, and are reached through the counted files of file.c; the log makes the
-- block writes of a file system call atomic across crashes, on top of the buffers of bio.c.
-- string.c serves all of them.
--
-- Which file models what:
-- verification/Prelude.antt: numbers, lists, options, Booleans and updates of functions that the
--   files share.
-- verification/Memory.antt: kernel/string.c on a memory of bytes: one function for each C function
--   and one for each of its loops. Ranges do not wrap around the address space. Memory/Move:
--   memset, memmove, memcmp. Memory/Names: strncmp, strncpy, safestrcpy, strlen on names that end
--   with a NUL.
-- verification/Spinlock.antt: kernel/spinlock.c. push_off and pop_off are functions on the fields
--   of struct cpu; acquire, release and holding are a step relation, with one step for each access
--   to shared memory, over any number of CPUs. Spinlock/Nesting: nested push_off and pop_off.
--   Spinlock/Exclusion: the invariant of all interleavings. Memory is sequentially consistent, and
--   a process does not move to another CPU while it holds the lock.
-- verification/Pipe.antt: kernel/pipe.c. The indices wrap at 2^32. pipewrite and piperead are runs
--   between lock operations; they end with a return value or asleep. copyin and copyout of vm.c
--   and the flag of killed are parameters. Pipe/Contents: the bytes in the ring. Pipe/Write,
--   Pipe/Read: one run. Pipe/Stream: all interleavings.
-- verification/Kalloc.antt: kernel/kalloc.c. The free list lives in the words of the free pages.
--   The loop of freerange has fuel, and the theorem on kinit shows that the fuel given is enough.
--   Kalloc/FreeList: the list that the pointers form. Kalloc/Clients: the allocator with its
--   clients.
-- verification/Vm.antt: kernel/vm.c with the page-table macros of kernel/riscv.h, in the memory of
--   Kalloc: walk, walkaddr, mappages and uvmunmap; flags are read by division, and `|` of words
--   without a common bit is a sum. Vm/Space: uvmcreate, uvmalloc, uvmdealloc, uvmfree, uvmcopy,
--   uvmclear. Vm/Copy: copyout, copyin, copyinstr, with the bytes of a word in little-endian
--   order. The loops have fuel for their rounds. Vm/Tree: the tables that a root reaches. Vm/Grow,
--   Vm/Walk, Vm/Lookup, Vm/Entry: what one more table, a walk and a new entry change. Vm/Mapping,
--   Vm/Translate: mappages. Vm/Create: uvmcreate. Vm/Chunks, Vm/Strings: copyin and copyinstr.
--   Vm/Agree: kalloc and kfree beside a page table. Vm/Owned: the pages of user memory;
--   Vm/Release, Vm/Resize: uvmunmap and uvmdealloc; Vm/Claim, Vm/Enlarge: uvmalloc.
-- verification/Console.antt: kernel/console.c: the input ring with its read, write and edit index,
--   which wrap at 2^32. either_copyin, either_copyout and killed are parameters. Console/Lines:
--   what the ring holds. Console/Input: consoleintr against a terminal that keeps lists.
--   Console/Reading: consoleread.
-- verification/Sleeplock.antt: kernel/sleeplock.c: locks that processes hold across sleeps.
-- verification/Bio.antt: kernel/bio.c: the buffers with their list pointers. The searches of bget
--   have fuel for one round of the list, which Bio/Ring shows to be enough. Bio/Ring: the list
--   that the pointers make. Bio/Get, Bio/Release: bget and brelse, which keep it in order of last
--   use. Bio/Clients: processes that share the cache; Bio/Holders, Bio/Obtain, Bio/Keeps and
--   Bio/Invariant: the invariant; Bio/Exclusion: what a holder of a buffer can rely on.
-- verification/Proc.antt: kernel/proc.c: the process table; a pid and nextpid are the 32 bits of
--   an int. Proc/Loops, Proc/Reparent: wakeup and reparent process by process. Proc/Wait: the
--   searches of allocproc, kill and wait. Proc/Exit: exit. Proc/Family: all operations as steps;
--   Proc/Birth, Proc/Death: fork, exit and wait as steps; Proc/Lineage: what holds in every
--   reachable table. Proc/Sleep: sleep and wakeup a lock at a time, with a condition lock;
--   Proc/Waiting, Proc/Waking and Proc/Wakeups: its invariant. The results of kalloc,
--   proc_pagetable, uvmcopy and copyout are arguments.
-- verification/File.antt: kernel/file.c: filealloc, filedup and fileclose. File/Refs: the counts
--   against the open descriptors.
-- verification/Path.antt: kernel/fs.c: skipelem and the loop of namex over it, whose fuel is the
--   number of its rounds. Path/Elements: the elements of a path.
-- verification/Grep.antt: user/grep.c: the matcher, and the loop over the reads of a file. A
--   string is the list of its bytes before the NUL; the sizes that read returns are an argument.
--   Grep/Matching: what patterns mean. Grep/Reads: lines and reads.
-- verification/Printf.antt: kernel/printf.c and user/printf.c: printint, with fuel for 64 digits;
--   user/ulib.c: atoi. Printf/Digits: what the digits stand for, how many there are, and reading
--   them back. Printf/Format: printptr and printf of the kernel, with fuel for one round per byte
--   of the format. Printf/Pieces: what a format prints. Printf/Library: printptr and vprintf of
--   the library.
-- verification/Blocks.antt: kernel/fs.c: bzero, balloc and bfree on a disk that is a function from
--   block and index to byte. The outer loop has fuel for the blocks of the bitmap. Blocks/Bits:
--   bits of a byte. Blocks/Bitmap: the searches. Blocks/Alloc: what an allocation and a release
--   change.
-- verification/Log.antt: kernel/log.c, with bread, bwrite, bpin and bunpin of kernel/bio.c on a
--   cache that never recycles a buffer and has one for every block, so that bget does not panic
--   (in C it has NBUF = 30 buffers). end_op is the part up to its release of the lock and the part
--   from commit on, between which other operations go on. A block is a function from word index to
--   word; writes reach the disk until the power is used up, so that every crash point is a value
--   of power. Log/Replay: what recovery would make of a disk. Log/Steps: one round of each loop.
--   Log/Install, Log/Append: the loops of install_trans and write_log. Log/Recover: recovery,
--   again and again. Log/Commit: commit and crashes. Log/Absorb: log_write. Log/Reserve: the
--   reservations of begin_op. Log/Shortage: the room that a log of LOGSIZE blocks lacks.
--
-- Each Tests file runs definitions on small inputs and applies the theorems to concrete values.
--
-- Not modelled: inodes and directories, the system calls, exec, traps, the drivers of the
-- serial port and of the disk, the shell and most user programs. Hardware glue (plic.c, start.c,
-- assembly) and the test programs have no logic that a model would add to.
pub mod Prelude
pub mod Memory
pub mod Spinlock
pub mod Pipe
pub mod Kalloc
pub mod Vm
pub mod Console
pub mod Sleeplock
pub mod Bio
pub mod Proc
pub mod File
pub mod Path
pub mod Grep
pub mod Printf
pub mod Blocks
pub mod Log
