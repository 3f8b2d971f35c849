-- ===== src/Proc.antt =====
-- proc.c and proc.h: the process table. A pointer to a process is its slot; `none` is the null pointer.
-- Each function is one stretch under `ptable.lock`; `sleep` is cut where it gives the lock back.
-- Not kept: the saved registers, the open files and the debugging name of a process.
pub mod Defs
pub mod Scan
pub mod Alloc
pub mod Sleep
pub mod Wait
pub mod Wakeup
pub mod Counter
pub mod Pids
pub mod Window
pub mod Swap
pub mod Exit
pub mod Reap
pub mod Names
mod Tests
