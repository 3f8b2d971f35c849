-- ===== src/Fs/Files.antt =====
-- The blocks of an inode and what is stored in them: `bmap`, `itrunc`, `iupdate`, `readi`, `writei`.
use os_ass.Base.{
  half_bytes, zero, suc, some, none, ok, panic, [], pos, negsuc, ℕ, Outcome, Option, List, update,
  if◌then◌else◌, ◌+◌, ℤ, ◌++◌, ◌-◌, ◌>>=◌, word, word_bytes, store, ◌*◌, ◌==◌, ◌%◌, ltb, length,
  u32, leb, ◌/◌, load, take, ◌||◌, ◌&&◌, drop,
}
use os_ass.Fs.{Inode, Fs, bsize, log_block, set_inode, ipb, iblock, balloc, bfree}

abbrev pub ndirect : ℕ
ndirect = 12

abbrev pub nindirect : ℕ
nindirect = 128

abbrev pub maxfile : ℕ
maxfile = ndirect + nindirect

-- the words of `addrs`, `k` from `i` on
abbrev pub addr_bytes : (ℕ → ℕ) → ℕ → ℕ → List ℕ
addr_bytes addrs i zero = []
addr_bytes addrs i (suc k) = word_bytes (addrs i) ++ addr_bytes addrs (i + 1) k

-- `struct dinode`
abbrev pub dinode_bytes : Inode → List ℕ
dinode_bytes node =
    half_bytes node.type
    ++ half_bytes node.major
    ++ half_bytes node.minor
    ++ half_bytes node.nlink
    ++ word_bytes node.size
    ++ addr_bytes node.addrs 0 (ndirect + 1)

unfoldable pub iupdate : Fs → ℕ → Fs
iupdate s ip =
    let node = s.inode ip in
    let sector = iblock node.inum in
    log_block s sector (store (s.blocks sector) (node.inum % ipb * 64) (dinode_bytes node))

-- `ip->addrs[bn] = addr`
abbrev pub set_addr : Fs → ℕ → ℕ → ℕ → Fs
set_addr s ip bn addr =
    set_inode s ip (record (s.inode ip) { addrs = update (s.inode ip).addrs bn addr })

-- `ip->addrs[bn]`, allocated if it is 0
unfoldable pub load_addr : Fs → ℕ → ℕ → Outcome (ℕ × Fs)
load_addr s ip bn =
    if (s.inode ip).addrs bn == 0
    then (balloc s >>= λ taken. ok (taken.0, set_addr taken.1 ip bn taken.0))
    else ok ((s.inode ip).addrs bn, s)

-- `a[i]` of the indirect block, allocated if it is 0
unfoldable pub load_entry : Fs → ℕ → ℕ → Outcome (ℕ × Fs)
load_entry s sector i =
    if word (s.blocks sector) (4 * i) == 0
    then (balloc s >>= λ taken.
        let bytes = store (taken.1.blocks sector) (4 * i) (word_bytes taken.0) in
        ok (taken.0, log_block taken.1 sector bytes))
    else ok (word (s.blocks sector) (4 * i), s)

unfoldable pub bmap : Fs → ℕ → ℕ → Outcome (ℕ × Fs)
bmap s ip bn =
    if ltb bn ndirect
    then load_addr s ip bn
    else if ltb (bn - ndirect) nindirect
    then (load_addr s ip ndirect >>= λ indirect. load_entry indirect.1 indirect.0 (bn - ndirect))
    else panic

-- the first loop of `itrunc`, from `i` on with `k` rounds left
unfoldable pub free_direct : Fs → ℕ → ℕ → ℕ → Outcome Fs
free_direct s ip i zero = ok s
free_direct s ip i (suc k) =
    let addr = (s.inode ip).addrs i in
    let freed = if addr == 0 then ok s else (bfree s addr >>= λ s1. ok (set_addr s1 ip i 0)) in
    freed >>= λ s1. free_direct s1 ip (i + 1) k

-- the second loop, over the buffer of the indirect block
unfoldable pub free_entries : Fs → ℕ → ℕ → ℕ → Outcome Fs
free_entries s sector j zero = ok s
free_entries s sector j (suc k) =
    let addr = word (s.blocks sector) (4 * j) in
    let freed = if addr == 0 then ok s else bfree s addr in
    freed >>= λ s1. free_entries s1 sector (j + 1) k

unfoldable pub free_indirect : Fs → ℕ → Outcome Fs
free_indirect s ip =
    let sector = (s.inode ip).addrs ndirect in
    if sector == 0
    then ok s
    else (free_entries s sector 0 nindirect >>= λ s1.
        bfree s1 sector >>= λ s2. ok (set_addr s2 ip ndirect 0))

unfoldable pub itrunc : Fs → ℕ → Outcome Fs
itrunc s ip = free_direct s ip 0 ndirect >>= λ s1. free_indirect s1 ip >>= λ s2.
    ok (iupdate (set_inode s2 ip (record (s2.inode ip) { size = 0 })) ip)

abbrev pub t_dev : ℕ
t_dev = 3

abbrev pub ndev : ℕ
ndev = 10

-- `devsw`: what reads and writes the device with a major number
pub record Devices : Type 0 where
  pub read : ℕ → Option (Fs → ℕ → ℕ → ℤ × List ℕ × Fs)
  pub write : ℕ → Option (Fs → ℕ → List ℕ → ℤ × Fs)

-- the bytes of this round: up to the end of the block
abbrev pub chunk : ℕ → ℕ → ℕ
chunk off left = let room = bsize - off % bsize in if ltb left room then left else room

-- the loop of `readi` with `left` bytes to read, on fuel
unfoldable pub readi_loop : ℕ → Fs → ℕ → ℕ → ℕ → Outcome (List ℕ × Fs)
readi_loop zero s ip off left = if left == 0 then ok ([], s) else panic
readi_loop (suc fuel) s ip off left =
    let m = chunk off left in
    let round = bmap s ip (off / bsize) >>= λ found.
    readi_loop fuel found.1 ip (off + m) (left - m) >>= λ rest.
    ok (load (found.1.blocks found.0) (off % bsize) m ++ rest.0, rest.1) in
    if left == 0 then ok ([], s) else round

-- the loop of `writei`, on fuel
unfoldable pub writei_loop : ℕ → Fs → ℕ → ℕ → List ℕ → Outcome Fs
writei_loop zero s ip off src = if length src == 0 then ok s else panic
writei_loop (suc fuel) s ip off src =
    let m = chunk off (length src) in
    let round = bmap s ip (off / bsize) >>= λ found.
    let bytes = store (found.1.blocks found.0) (off % bsize) (take m src) in
    writei_loop fuel (log_block found.1 found.0 bytes) ip (off + m) (drop m src) in
    if length src == 0 then ok s else round

module _ (devsw : Devices) where
  -- A negative `major` is 2 ^ 15 or more here.
  unfoldable pub readi : Fs → ℕ → ℕ → ℕ → Outcome (ℤ × List ℕ × Fs)
  readi s ip off n =
      let node = s.inode ip in
      let n' = if ltb node.size (u32 (off + n)) then node.size - off else n in
      if node.type == t_dev
      then if leb ndev node.major then ok (negsuc 0, [], s) else elim (devsw.read node.major) [
        | none ↦ ok (negsuc 0, [], s)
        | some read ↦ ok (read s ip n)
      ]
      else if ltb node.size off || ltb (u32 (off + n)) off
      then ok (negsuc 0, [], s)
      else (readi_loop n' s ip off n' >>= λ got. ok (pos n', got.0, got.1))

  unfoldable pub writei : Fs → ℕ → List ℕ → ℕ → Outcome (ℤ × Fs)
  writei s ip src off =
      let node = s.inode ip in
      let n = length src in
      if node.type == t_dev
      then if leb ndev node.major then ok (negsuc 0, s) else elim (devsw.write node.major) [
        | none ↦ ok (negsuc 0, s)
        | some write ↦ ok (write s ip src)
      ]
      else if ltb node.size off || ltb (u32 (off + n)) off
      then ok (negsuc 0, s)
      else if ltb (maxfile * bsize) (u32 (off + n))
      then ok (negsuc 0, s)
      else (writei_loop n s ip off src >>= λ s1.
          if ltb 0 n && ltb (s1.inode ip).size (off + n)
          then ok (pos n, iupdate (set_inode s1 ip (record (s1.inode ip) { size = off + n })) ip)
          else ok (pos n, s1))
