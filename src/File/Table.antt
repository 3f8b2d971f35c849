-- ===== src/File/Table.antt =====
-- `struct file`, `filealloc`, `filedup`, `fileclose`, `fileread` and `filewrite`.
use os_ass.Base.{
  ℕ, zero, suc, ◌+◌, ◌-◌, Bool, true, false, not, Option, none, some, List, [], ◌∷◌, take, drop,
  length, ltb, ◌==◌, if◌then◌else◌, update, u32, Outcome, ok, panic, ◌>>=◌, ℤ, pos, negsuc,
}

pub data FileType : Type 0 where
  fd_none fd_pipe fd_inode : FileType

pub record File : Type 0 where
  pub type : FileType
  pub ref : ℕ
  pub readable : Bool
  pub writable : Bool
  pub pipe : ℕ
  pub ip : ℕ
  pub off : ℕ

abbrev pub nfile : ℕ
nfile = 100

-- the first slot from `i` on with `ref == 0`, of `k` slots
unfoldable pub find_free : (ℕ → File) → ℕ → ℕ → Option ℕ
find_free files i zero = none
find_free files i (suc k) = if (files i).ref == 0 then some i else find_free files (i + 1) k

unfoldable pub filealloc : (ℕ → File) → Option (ℕ × (ℕ → File))
filealloc files = elim (find_free files 0 nfile) [
  | none ↦ none
  | some i ↦ some (i, update files i (record (files i) { ref = 1 }))
]

unfoldable pub filedup : (ℕ → File) → ℕ → Outcome (ℕ → File)
filedup files f =
    if ltb (files f).ref 1
    then panic
    else ok (update files f (record (files f) { ref = (files f).ref + 1 }))

-- what is left to do once the table is unlocked
pub data Closing : Type 0 where
  nothing : Closing
  close_pipe : ℕ → Bool → Closing
  put_inode : ℕ → Closing

abbrev pub closing : File → Closing
closing ff = elim ff.type [
  | fd_none ↦ nothing
  | fd_pipe ↦ close_pipe ff.pipe ff.writable
  | fd_inode ↦ put_inode ff.ip
]

unfoldable pub fileclose : (ℕ → File) → ℕ → Outcome ((ℕ → File) × Closing)
fileclose files f =
    if ltb (files f).ref 1
    then panic
    else if ltb 0 ((files f).ref - 1)
    then ok (update files f (record (files f) { ref = (files f).ref - 1 }), nothing)
    else ok (update files f (record (files f) { ref = 0; type = fd_none }), closing (files f))

-- `max`, of `filewrite`
abbrev pub max_write : ℕ
max_write = 1536

abbrev pub min_write : ℕ → ℕ
min_write n = if ltb max_write n then max_write else n

-- The state of the file system and of the pipes, with what file.c calls on it: each returns an `int`, or
-- panics. A write of an inode stands for the whole transaction from `begin_trans` to `commit_trans`.
pub record Backend (S : Type 0) : Type 0 where
  pub piperead : S → ℕ → ℕ → Outcome (ℤ × List ℕ × S)
  pub pipewrite : S → ℕ → List ℕ → Outcome (ℤ × S)
  pub readi : S → ℕ → ℕ → ℕ → Outcome (ℤ × List ℕ × S)
  pub writei : S → ℕ → List ℕ → ℕ → Outcome (ℤ × S)

module _ {S : Type 0} (b : Backend S) where
  -- the offset after a call that returned `r`
  abbrev pub moved : ℕ → ℤ → ℕ
  moved off (pos zero) = off
  moved off (pos (suc r)) = u32 (off + suc r)
  moved off (negsuc r) = off

  -- The result, the bytes read, the file and the state.
  unfoldable pub fileread : S → File → ℕ → Outcome (ℤ × List ℕ × File × S)
  fileread s f n = if not f.readable then ok (negsuc 0, [], f, s) else elim f.type [
    | fd_none ↦ panic
    | fd_pipe ↦ b.piperead s f.pipe n >>= λ (r, bytes, s'). ok (r, bytes, f, s')
    | fd_inode ↦ b.readi s f.ip f.off n >>= λ (r, bytes, s').
        ok (r, bytes, record f { off = moved f.off r }, s')
  ]

  -- one chunk of `filewrite`: what `writei` returned, the file and the state
  unfoldable pub write_chunk : S → File → List ℕ → Outcome (ℤ × File × S)
  write_chunk s f bytes =
      b.writei s f.ip bytes f.off >>= λ (r, s'). ok (r, record f { off = moved f.off r }, s')

  -- the loop of `filewrite` with `rest` still to write, on fuel; `true` when all was written
  unfoldable pub write_loop : ℕ → S → File → List ℕ → Outcome (Bool × File × S)
  write_loop zero s f [] = ok (true, f, s)
  write_loop zero s f (c ∷ cs) = panic
  write_loop (suc fuel) s f [] = ok (true, f, s)
  write_loop (suc fuel) s f (c ∷ cs) =
      let n1 = min_write (length (c ∷ cs)) in
      write_chunk s f (take n1 (c ∷ cs)) >>= λ (r, f', s').
      let rest = write_loop fuel s' f' (drop n1 (c ∷ cs)) in
      elim r [
        | negsuc _ ↦ ok (false, f', s')
        | pos m ↦ elim (m == n1) [ true ↦ rest | false ↦ panic ]
      ]

  unfoldable pub filewrite : S → File → List ℕ → Outcome (ℤ × File × S)
  filewrite s f bytes = if not f.writable then ok (negsuc 0, f, s) else elim f.type [
    | fd_none ↦ panic
    | fd_pipe ↦ b.pipewrite s f.pipe bytes >>= λ (r, s'). ok (r, f, s')
    | fd_inode ↦ write_loop (length bytes) s f bytes >>= λ out.
        ok (if out.0 then pos (length bytes) else negsuc 0, out.1, out.2)
  ]
