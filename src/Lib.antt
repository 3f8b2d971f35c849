-- ===== src/Lib.antt =====
-- The kernel of this repository (xv6 with swapping of processes and shared memory segments), modelled
-- from its C sources, with theorems that make its parts correct.
--
-- Parts, and the files that model them:
--   Bio       bio.c: the buffer cache and its ring, over the disk of memide.c
--   Console   console.c: the input ring with its line editing, the screen, printing of numbers
--   Fs        fs.c: the bitmap of blocks, inodes with their contents and their cache, directories, path
--             names
--   Grep      grep.c: the matcher for regular expressions
--   Kmem      kalloc.c: the free list of pages, threaded through the pages themselves
--   Log       log.c: the write-ahead log, with every state that the disk passes through
--   Pipe      pipe.c: the ring of 512 bytes and its sleeping readers and writers
--   Args      syscall.c: fetching the arguments of a system call
--   File      file.c: the table of open files, its reference counts, reads and writes
--   Proc      proc.c, proc.h: the process table, sleep and wakeup, kill, exit, wait, swapping out
--   Sh        sh.c: the parser of the shell
--   Shm       kalloc.c: shared memory segments and the processes attached to them
--   Spinlock  spinlock.c: acquire and release on many CPUs, pushcli and popcli
--   Strings   string.c: the memory and string routines
--   Sysfile   sysfile.c: the descriptors of a process, dup, close and pipe; pipealloc of pipe.c
--   Vm        vm.c: page tables in physical memory, the memory of a process and its copy
--   Base      shared names, the outcome of code that may panic, constants of param.h and mmu.h
--
-- How they interact: Proc takes kernel stacks from Kmem and gives them back in `wait`; Kmem and
-- Proc bracket their critical sections by `lock` and `unlock` of Base, the view of one CPU on a
-- lock, whose use of the shared word is in Spinlock. The channels that Pipe and Console wake are
-- those of `wakeup` in Proc. Sysfile calls the table of File, and leaves to its caller what
-- `fileclose` has still to give back. Bio gives the buffers that fs.c and log.c read and write. Fs
-- and Log see through it: Log has the disk and the dirty marks, Fs reads and writes blocks as the
-- cache shows them, and collects the blocks that it hands to `log_write`, whose panics are in Log.
-- Its blocks are those of one disk. Vm takes pages from Kmem, whose memory holds the tables. Shm
-- takes the pages of a segment from Kmem and maps them by Vm; the struct `shm` is laid out word by
-- word, so that an index out of bounds reaches the word it reaches in C.
--
-- Correspondence. A definition has the name of its C function. Memory and tables are functions of
-- the address or slot; a function that changes state returns the new state. `panic` is the outcome
-- of a call of panic. A result -1 is `none` where the function returns no other negative number. A
-- critical section is one step: functions are cut where they release a lock or sleep, so that the
-- step relations (Pipe.Fifo.Step, Proc.Pids.Step, Spinlock.Step) interleave these pieces in any
-- order. Unsigned arithmetic is taken modulo 2 ^ 32 where the source wraps.
--
-- Fuel. `freerange` runs on as many rounds as there are pages below the end of its range; `strlen`
-- on fuel that its theorem bounds by the length; `write_loop` on as much fuel as there are bytes,
-- which is enough since each round writes at least one, and the loops of `readi` and `writei` in
-- the same way. The loops of `bget` have a round for each buffer. The parser of Sh has fuel for two
-- calls at each character, which its theorem shows to be enough; `kill_line` has a round for each
-- character typed, `print_digits` one for each place of its buffer. The rounds of `balloc` are
-- those of its bitmap blocks, those of `dirlookup` the entries of the directory, those of Vm and
-- Shm the pages of the range; `namex` has a theorem that its fuel is enough. All other loops recur
-- on the rounds left.
--
-- Not modelled: the segments and registers of vm.c and its copies of bytes (inituvm, loaduvm,
-- copyout), the other devices, boot code, what the shell runs and the other user programs. `freevm`
-- is an argument of `wait_pass`, since a process here has no page table; the table `devsw` is an
-- argument of `readi` and `writei`; the inode and pipe operations that file.c calls are the fields
-- of `Backend`, whose inode operations `with_files` takes from Fs, and byte counts there are
-- lengths, so never negative. `swapOut` is not a step of Proc: of what a process has here it changes
-- nothing but by a `sleep` of its own, and what others do before `sleep` goes on is a relation
-- (Proc.Window.Meanwhile). The sector array of the log header is not bounded by LOGSIZE. The contents
-- of a kernel stack and saved registers are not part of a process here, and its open files only in
-- Sysfile, and `nextpid` is a number that does not overflow.
pub mod Args
pub mod Base
pub mod Bio
pub mod Console
pub mod File
pub mod Fs
pub mod Grep
pub mod Kmem
pub mod Log
pub mod Pipe
pub mod Proc
pub mod Sh
pub mod Shm
pub mod Spinlock
pub mod Strings
pub mod Sysfile
pub mod Vm
