-- ===== src/File/Tests.antt =====
-- Small runs of the file table.
use os_ass.File.Table.{find_free, File, fd_none, fd_inode, filealloc}
use os_ass.File.Refs.{IsCounted}
use os_ass.Base.{ℕ, ◌≡◌, refl, arith, true, false, [], ◌∷◌, update, some}

abbrev closed : File
closed = record {
  type = fd_none;
  ref = 0;
  readable = false;
  writable = false;
  pipe = 0;
  ip = 0;
  off = 0;
}

-- a file open twice in slot 0
abbrev open_file : File
open_file = record {
  type = fd_inode;
  ref = 2;
  readable = true;
  writable = true;
  pipe = 0;
  ip = 1;
  off = 1;
}

abbrev files : ℕ → File
files = update (λ _. closed) 0 open_file

files-IsCounted : IsCounted files (0 ∷ 0 ∷ [])
files-IsCounted f = ground arith

abbrev next : ℕ → File
next = update files 1 (record closed { ref = 1 })

filealloc-files : filealloc files ≡ some (1, next)
unfolding filealloc find_free
filealloc-files = refl
