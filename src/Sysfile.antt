-- ===== src/Sysfile.antt =====
-- sysfile.c: the descriptors of a process, and the system calls that only move them; and `pipealloc` of pipe.c. An
-- argument is what `argint` gives for it, `none` where it fails; `page` is what a call of `kalloc` gives, `none` for 0.
mod Slots
mod Held
mod Counts
mod Give
mod Pipes
mod Tests
use os_ass.Base.{
  ℕ, zero, suc, ◌+◌, Bool, true, false, Option, none, some, List, [], ◌∷◌, leb, ltb, ◌==◌,
  if◌then◌else◌, update, Outcome, ok, panic, ◌>>=◌, ℤ, pos, negsuc,
}
use os_ass.File.Table.{File, fd_pipe, filealloc, filedup, fileclose, Closing}

abbrev pub nofile : ℕ
nofile = 16

-- the table of open files, and `proc->ofile`
pub record Descriptors : Type 0 where
  pub files : ℕ → File
  pub ofile : ℕ → Option ℕ

-- the descriptor and its file
unfoldable pub argfd : (ℕ → Option ℕ) → Option ℤ → Option (ℕ × ℕ)
argfd ofile none = none
argfd ofile (some (negsuc k)) = none
argfd ofile (some (pos fd)) =
    let file : Option (ℕ × ℕ) = elim (ofile fd) [ none ↦ none | some f ↦ some (fd, f) ] in
    if leb nofile fd then none else file

-- the first free descriptor from `fd` on, of `rounds`
unfoldable pub find_fd : (ℕ → Option ℕ) → ℕ → ℕ → Option ℕ
find_fd ofile fd zero = none
find_fd ofile fd (suc rounds) =
    let rest = find_fd ofile (fd + 1) rounds in elim (ofile fd) [ none ↦ some fd | some f ↦ rest ]

unfoldable pub fdalloc : (ℕ → Option ℕ) → ℕ → Option (ℕ × (ℕ → Option ℕ))
fdalloc ofile f = elim (find_fd ofile 0 nofile) [
  | none ↦ none
  | some fd ↦ some (fd, update ofile fd (some f))
]

-- `none` is -1.
unfoldable pub sys_dup : Descriptors → Option ℤ → Outcome (Option ℕ × Descriptors)
sys_dup s arg = elim (argfd s.ofile arg) [
  | none ↦ ok (none, s)
  | some (old, f) ↦ elim (fdalloc s.ofile f) [
    | none ↦ ok (none, s)
    | some (fd, ofile) ↦
        filedup s.files f >>= λ files. ok (some fd, record { files = files; ofile = ofile })
  ]
]

-- `true` for 0, with what is left to close.
unfoldable pub sys_close : Descriptors → Option ℤ → Outcome (Bool × Descriptors × List Closing)
sys_close s arg = elim (argfd s.ofile arg) [
  | none ↦ ok (false, s, [])
  | some (fd, f) ↦ fileclose s.files f >>= λ (files, todo).
      ok (true, record { files = files; ofile = update s.ofile fd none }, todo ∷ [])
]

-- a file made an end of the pipe at `p`
abbrev pub pipe_end : (ℕ → File) → ℕ → ℕ → Bool → ℕ → File
pipe_end files f p writable = update files f (record (files f) {
  type = fd_pipe;
  readable = if writable then false else true;
  writable = writable;
  pipe = p;
})

-- the two files, or none; and what is left to close
unfoldable pub pipealloc :
    (ℕ → File) → Option ℕ → Outcome (Option (ℕ × ℕ) × (ℕ → File) × List Closing)
pipealloc files page = elim (filealloc files) [
  | none ↦ ok (none, files, [])
  | some (f0, files0) ↦ elim (filealloc files0) [
    | none ↦ fileclose files0 f0 >>= λ (files1, todo). ok (none, files1, todo ∷ [])
    | some (f1, files1) ↦ elim page [
      | none ↦ fileclose files1 f0 >>= λ (files2, todo).
          fileclose files2 f1 >>= λ (files3, todo1). ok (none, files3, todo ∷ todo1 ∷ [])
      | some p ↦ ok (some (f0, f1), pipe_end (pipe_end files1 f0 p false) f1 p true, [])
    ]
  ]
]

-- the end of a `sys_pipe` that has no descriptors for its files
unfoldable pub close_both :
    (ℕ → File) → (ℕ → Option ℕ) → ℕ → ℕ → Outcome (Option (ℕ × ℕ) × Descriptors × List Closing)
close_both files ofile rf wf = fileclose files rf >>= λ (files1, todo).
    fileclose files1 wf >>= λ (files2, todo1).
    ok (none, record { files = files2; ofile = ofile }, todo ∷ todo1 ∷ [])

-- the descriptors for both files, or none
unfoldable pub give_fds :
    (ℕ → File) → (ℕ → Option ℕ) → ℕ → ℕ → Outcome (Option (ℕ × ℕ) × Descriptors × List Closing)
give_fds files ofile rf wf = elim (fdalloc ofile rf) [
  | none ↦ close_both files ofile rf wf
  | some (fd0, ofile1) ↦ elim (fdalloc ofile1 wf) [
    | none ↦ close_both files (update ofile1 fd0 none) rf wf
    | some (fd1, ofile2) ↦ ok (some (fd0, fd1), record { files = files; ofile = ofile2 }, [])
  ]
]

-- for an argument that `argptr` accepts: `fd[0]` and `fd[1]`, or -1
unfoldable pub sys_pipe :
    Descriptors → Option ℕ → Outcome (Option (ℕ × ℕ) × Descriptors × List Closing)
sys_pipe s page = pipealloc s.files page >>= λ (ends, files, todo). elim ends [
  | none ↦ ok (none, record s { files = files }, todo)
  | some (rf, wf) ↦ give_fds files s.ofile rf wf
]
