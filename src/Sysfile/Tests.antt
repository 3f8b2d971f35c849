-- ===== src/Sysfile/Tests.antt =====
-- Small runs of the calls on descriptors.
use os_ass.Base.{
  ℕ, ◌⊎◌, ◌≡◌, refl, arith, true, false, Option, none, some, [], ◌∷◌, if◌then◌else◌, ◌==◌, ok,
  panic, pos,
}
use os_ass.File.Table.{fd_inode, fd_none, find_free, filealloc, fileclose, Closing}
use os_ass.Sysfile.{
  Descriptors, argfd, find_fd, fdalloc, sys_dup, sys_close, pipealloc, close_both, give_fds,
  sys_pipe,
}
use os_ass.Sysfile.Slots.{open_files}
use os_ass.Sysfile.Pipes.{Failed, Made, sys_pipe_lem}
use os_ass.Sysfile.Held.{IsHeld, Dups, sys_dup_lem, Closes, sys_close_lem}

-- descriptor 0 is file 7, which another process holds too
abbrev opened : Descriptors
opened = record {
  files = λ f. record {
    type = if f == 7 then fd_inode else fd_none;
    ref = if f == 7 then 2 else 0;
    readable = true;
    writable = false;
    pipe = 0;
    ip = 3;
    off = 0;
  };
  ofile = λ fd. if fd == 0 then some 7 else none;
}

abbrev other : ℕ → ℕ
other f = if f == 7 then 1 else 0

opened-IsHeld : IsHeld opened other
unfolding open_files
opened-IsHeld f = ground arith

sys_dup_lem_example :
    (r : Option ℕ) × (s' : Descriptors) × (sys_dup opened (some (pos 0)) ≡ ok (r, s'))
    × Dups opened (some (pos 0)) other r s'
sys_dup_lem_example = sys_dup_lem opened (some (pos 0)) other opened-IsHeld

argfd_opened : argfd opened.ofile (some (pos 0)) ≡ some (0, 7)
unfolding argfd
argfd_opened = refl

sys_close_lem_example :
    (s' : Descriptors) × (todo : Closing) × (sys_close opened (some (pos 0))
      ≡ ok (true, s', todo ∷ []))
    × Closes opened other 0 7 s' todo
sys_close_lem_example = sys_close_lem opened (some (pos 0)) other 0 7 opened-IsHeld argfd_opened

-- one descriptor is free: `pipe` fails, and the files are free again
abbrev crowded : Descriptors
crowded = record opened { ofile = λ fd. if fd == 3 then none else some 7 }

abbrev refs_after : ℕ → Option ℕ
refs_after f = elim (sys_pipe crowded (some 0x1000)) [
  | panic ↦ none
  | ok (r, s, todo) ↦ elim r [ none ↦ some (s.files f).ref | some ends ↦ none ]
]

pipe_undone : (refs_after 0 ≡ some 0) × (refs_after 1 ≡ some 0) × (refs_after 7 ≡ some 2)
unfolding sys_pipe pipealloc give_fds close_both fdalloc find_fd filealloc find_free fileclose
pipe_undone = (refl, refl, refl)

sys_pipe_lem_example :
    Failed opened other (sys_pipe opened (some 0x1000))
    ⊎ Made opened other (some 0x1000) (sys_pipe opened (some 0x1000))
sys_pipe_lem_example = sys_pipe_lem opened other (some 0x1000) opened-IsHeld
