-- ===== src/Fs/Dirs.antt =====
-- Directories and path names: `dirlookup`, `dirlink`, `namex`.
use os_ass.Base.{
  half_bytes, store, take, drop, length, zero, suc, some, none, true, false, ok, panic, [], pos,
  negsuc, ℕ, Outcome, Option, Bool, List, get_or, ℤ, ◌+◌, ◌++◌, ◌>>=◌, if◌then◌else◌, not, ◌==◌,
  ◌*◌, ◌/◌, ltb, ◌&&◌,
}
use os_ass.Fs.{Fs}
use os_ass.Fs.Files.{Devices, readi, writei}
use os_ass.Fs.Icache.{iget, idup, ilock, iunlock, iput, iunlockput, zeros}
use os_ass.Fs.Names.{slash, dirsiz, skipelem}
use os_ass.Strings.{strncmp}

abbrev pub t_dir : ℕ
t_dir = 1

-- `sizeof(struct dirent)`: the inode number and the name
abbrev pub dirent_size : ℕ
dirent_size = 16

abbrev pub rootdev : ℕ
rootdev = 1

abbrev pub rootino : ℕ
rootino = 1

-- of two names of at most DIRSIZ bytes, with a 0 after a shorter one
unfoldable pub namecmp : List ℕ → List ℕ → ℤ
namecmp s t = strncmp (store (store (λ _. 0) 0 s) dirent_size t) 0 dirent_size dirsiz

abbrev pub is_zero : ℤ → Bool
is_zero (pos zero) = true
is_zero (pos (suc n)) = false
is_zero (negsuc n) = false

abbrev pub is_dirent : ℤ → Bool
is_dirent (pos n) = n == dirent_size
is_dirent (negsuc n) = false

-- `de.inum`, from the bytes of the entry
abbrev pub entry_inum : List ℕ → ℕ
entry_inum bytes = get_or 0 bytes 0 + 0x100 * get_or 0 bytes 1

-- `strncpy(de.name, name, DIRSIZ)`
abbrev pub entry_bytes : List ℕ → ℕ → List ℕ
entry_bytes name inum = half_bytes inum ++ take dirsiz (name ++ zeros dirsiz)

-- how `namex` ends
pub data Walk : Type 0 where
  -- the inode, and the last name taken from the path
  found : ℕ → List ℕ → Fs → Walk
  no_inode : Fs → Walk
  -- asleep on the busy inode
  blocked : ℕ → Fs → Walk
  -- the fuel is used up
  stuck : Walk

module _ (devsw : Devices) where
  -- the loop of `dirlookup` from `off` on, with `k` entries left
  unfoldable pub dirlookup_loop : Fs → ℕ → List ℕ → ℕ → ℕ → Outcome (Option (ℕ × ℕ) × Fs)
  dirlookup_loop s dp name off zero = ok (none, s)
  dirlookup_loop s dp name off (suc k) =
      let round = readi devsw s dp off dirent_size >>= λ (n, bytes, s1).
      let rest = dirlookup_loop s1 dp name (off + dirent_size) k in
      let inum = entry_inum bytes in
      if not (is_dirent n)
      then panic
      else if inum == 0
      then rest
      else if is_zero (namecmp name (drop 2 bytes))
      then (iget s1 (s1.inode dp).dev inum >>= λ (ip, s2). ok (some (ip, off), s2))
      else rest in
      if ltb off (s.inode dp).size then round else ok (none, s)

  -- the inode and the offset of its entry
  unfoldable pub dirlookup : Fs → ℕ → List ℕ → Outcome (Option (ℕ × ℕ) × Fs)
  dirlookup s dp name =
      if not ((s.inode dp).type == t_dir)
      then panic
      else dirlookup_loop s dp name 0 ((s.inode dp).size / dirent_size + 1)

  -- the loop of `dirlink`: the offset of the first empty entry, or the end
  unfoldable pub empty_entry : Fs → ℕ → ℕ → ℕ → Outcome (ℕ × Fs)
  empty_entry s dp off zero = ok (off, s)
  empty_entry s dp off (suc k) =
      let round = readi devsw s dp off dirent_size >>= λ (n, bytes, s1).
      let rest = empty_entry s1 dp (off + dirent_size) k in
      if not (is_dirent n) then panic else if entry_inum bytes == 0 then ok (off, s1) else rest in
      if ltb off (s.inode dp).size then round else ok (off, s)

  unfoldable pub add_entry : Fs → ℕ → List ℕ → ℕ → Outcome (ℤ × Fs)
  add_entry s dp name inum =
      empty_entry s dp 0 ((s.inode dp).size / dirent_size + 1) >>= λ (off, s1).
      writei devsw s1 dp (entry_bytes name inum) off >>= λ (n, s2).
      if is_dirent n then ok (pos 0, s2) else panic

  unfoldable pub dirlink : Fs → ℕ → List ℕ → ℕ → Outcome (ℤ × Fs)
  dirlink s dp name inum = dirlookup s dp name >>= λ (r, s1). elim r [
    | some (ip, _) ↦ iput s1 ip >>= λ s2. ok (negsuc 0, s2)
    | none ↦ add_entry s1 dp name inum
  ]

  -- one element of the path, in the locked inode `ip`: the next inode
  unfoldable pub walk_into : Fs → ℕ → List ℕ → Outcome (Option ℕ × Fs)
  walk_into s ip name = dirlookup s ip name >>= λ (r, s1). iunlockput s1 ip >>= λ s2. elim r [
    | none ↦ ok (none, s2)
    | some (next, _) ↦ ok (some next, s2)
  ]

  -- the loop of `namex`, on fuel
  unfoldable pub namex_loop : ℕ → Fs → ℕ → List ℕ → Bool → List ℕ → Outcome Walk
  namex_loop zero s ip path nameiparent name = ok stuck
  namex_loop (suc fuel) s ip path nameiparent name = elim (skipelem path) [
    | none ↦ if nameiparent then (iput s ip >>= λ s1. ok (no_inode s1)) else ok (found ip name s)
    | some (elem, rest) ↦ ilock s ip >>= λ locked. elim locked [
      | none ↦ ok (blocked ip s)
      | some s1 ↦
          if not ((s1.inode ip).type == t_dir)
          then (iunlockput s1 ip >>= λ s2. ok (no_inode s2))
          else if nameiparent && length rest == 0
          then (iunlock s1 ip >>= λ s2. ok (found ip elem s2))
          else (walk_into s1 ip elem >>= λ (next, s2). elim next [
            | none ↦ ok (no_inode s2)
            | some ip' ↦ namex_loop fuel s2 ip' rest nameiparent elem
          ])
    ]
  ]

  -- `cwd` is the slot of `proc->cwd`
  unfoldable pub namex : Fs → ℕ → List ℕ → Bool → Outcome Walk
  namex s cwd path nameiparent =
      let walk = λ (s1 : Fs) (ip : ℕ). namex_loop (length path + 1) s1 ip path nameiparent [] in
      if get_or 0 path 0 == slash
      then (iget s rootdev rootino >>= λ (ip, s1). walk s1 ip)
      else walk (idup s cwd) cwd

  abbrev pub namei : Fs → ℕ → List ℕ → Outcome Walk
  namei s cwd path = namex s cwd path false

  abbrev pub nameiparent : Fs → ℕ → List ℕ → Outcome Walk
  nameiparent s cwd path = namex s cwd path true
