-- ===== src/Fs/Icache.antt =====
-- The inode cache: `ialloc`, `iget`, `idup`, `ilock`, `iunlock`, `iput`. A function runs from one release
-- of `icache.lock` to the next as one step; the lock itself is not shown.
use os_ass.Base.{
  word, half, store, half_bytes, zero, suc, some, none, true, false, ok, panic, [], ◌∷◌, ℕ, Outcome,
  Option, Bool, List, ◌>>=◌, ◌==◌, ◌%◌, ◌-◌, ◌+◌, if◌then◌else◌, ◌*◌, not, ltb, ◌&&◌, ◌||◌,
}
use os_ass.Fs.{Block, Inode, Fs, log_block, set_inode, readsb, ipb, iblock}
use os_ass.Fs.Files.{iupdate, itrunc}

abbrev pub ninode : ℕ
ninode = 50

-- how the loop of `iget` ends: at the inode, or with the first slot that was free, if any
pub data Search : Type 0 where
  cached : ℕ → Search
  missing : Option ℕ → Search

abbrev pub remember : Option ℕ → ℕ → Inode → Option ℕ
remember none i node = if node.ref == 0 then some i else none
remember (some e) i node = some e

-- the loop of `iget` from slot `i` on, with `k` slots left
unfoldable pub search_cache : (ℕ → Inode) → ℕ → ℕ → ℕ → ℕ → Option ℕ → Search
search_cache inode dev inum i zero empty = missing empty
search_cache inode dev inum i (suc k) empty =
    let node = inode i in
    let rest = search_cache inode dev inum (i + 1) k (remember empty i node) in
    if ltb 0 node.ref && node.dev == dev && node.inum == inum then cached i else rest

unfoldable pub iget : Fs → ℕ → ℕ → Outcome (ℕ × Fs)
iget s dev inum = elim (search_cache s.inode dev inum 0 ninode none) [
  | cached i ↦ ok (i, set_inode s i (record (s.inode i) { ref = (s.inode i).ref + 1 }))
  | missing none ↦ panic
  | missing (some i) ↦
      let node = record (s.inode i) {
        dev = dev;
        inum = inum;
        ref = 1;
        busy = false;
        valid = false;
      } in
      ok (i, set_inode s i node)
]

unfoldable pub idup : Fs → ℕ → Fs
idup s ip = set_inode s ip (record (s.inode ip) { ref = (s.inode ip).ref + 1 })

-- `struct dinode` at an offset of a block, into the inode
abbrev pub load_dinode : Inode → Block → ℕ → Inode
load_dinode node bytes at = record node {
  type = half bytes at;
  major = half bytes (at + 2);
  minor = half bytes (at + 4);
  nlink = half bytes (at + 6);
  size = word bytes (at + 8);
  addrs = λ i. if ltb i 13 then word bytes (at + 12 + 4 * i) else node.addrs i;
  valid = true;
}

-- `none` when the inode is busy: the caller sleeps on it and calls again
unfoldable pub ilock : Fs → ℕ → Outcome (Option Fs)
ilock s ip =
    let node = record (s.inode ip) { busy = true } in
    let loaded = load_dinode node (s.blocks (iblock node.inum)) (node.inum % ipb * 64) in
    if ltb (s.inode ip).ref 1
    then panic
    else if (s.inode ip).busy
    then ok none
    else if node.valid
    then ok (some (set_inode s ip node))
    else if loaded.type == 0
    then panic
    else ok (some (set_inode s ip loaded))

unfoldable pub iunlock : Fs → ℕ → Outcome Fs
iunlock s ip =
    if not (s.inode ip).busy || ltb (s.inode ip).ref 1
    then panic
    else ok (set_inode s ip (record (s.inode ip) { busy = false }))

-- the last reference to an inode without links is going
abbrev pub dying : Inode → Bool
dying node = node.ref == 1 && node.valid && node.nlink == 0

-- the inode and its blocks are freed
unfoldable pub free_inode : Fs → ℕ → Outcome Fs
free_inode s ip = itrunc (set_inode s ip (record (s.inode ip) { busy = true })) ip >>= λ s1.
    let s2 = iupdate (set_inode s1 ip (record (s1.inode ip) { type = 0 })) ip in
    ok (set_inode s2 ip (record (s2.inode ip) { busy = false; valid = false }))

unfoldable pub drop_ref : Fs → ℕ → Fs
drop_ref s ip = set_inode s ip (record (s.inode ip) { ref = (s.inode ip).ref - 1 })

unfoldable pub iput : Fs → ℕ → Outcome Fs
iput s ip =
    if dying (s.inode ip)
    then if (s.inode ip).busy then panic else (free_inode s ip >>= λ s1. ok (drop_ref s1 ip))
    else ok (drop_ref s ip)

unfoldable pub iunlockput : Fs → ℕ → Outcome Fs
iunlockput s ip = iunlock s ip >>= λ s1. iput s1 ip

abbrev pub zeros : ℕ → List ℕ
zeros zero = []
zeros (suc n) = 0 ∷ zeros n

-- the loop of `ialloc` from `inum` on, with `k` inodes left
unfoldable pub ialloc_loop : Fs → ℕ → ℕ → ℕ → ℕ → Outcome (ℕ × Fs)
ialloc_loop s dev type inum zero = panic
ialloc_loop s dev type inum (suc k) =
    let rest = ialloc_loop s dev type (inum + 1) k in
    let sector = iblock inum in
    let at = inum % ipb * 64 in
    let bytes = store (store (s.blocks sector) at (zeros 64)) at (half_bytes type) in
    if half (s.blocks sector) at == 0 then iget (log_block s sector bytes) dev inum else rest

unfoldable pub ialloc : Fs → ℕ → ℕ → Outcome (ℕ × Fs)
ialloc s dev type = ialloc_loop s dev type 1 ((readsb s).ninodes - 1)

-- `struct stat`
pub record Stat : Type 0 where
  pub dev : ℕ
  pub ino : ℕ
  pub type : ℕ
  pub nlink : ℕ
  pub size : ℕ

abbrev pub stati : Fs → ℕ → Stat
stati s ip =
    let node = s.inode ip in
    record {
      dev = node.dev;
      ino = node.inum;
      type = node.type;
      nlink = node.nlink;
      size = node.size;
    }
