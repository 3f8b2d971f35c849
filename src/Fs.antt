-- ===== src/Fs.antt =====
-- fs.c: blocks, inodes, file contents, directories and path names on one disk. A block is its 512 bytes.
-- The buffer cache is seen through: a read gives the bytes that were last put into the buffer. The
-- code runs inside a transaction; `logged` holds the sectors that it has passed to `log_write`.
pub mod Bits
pub mod Bitmap
pub mod Alloc
pub mod Files
pub mod Words
pub mod Blocks
pub mod Mapping
pub mod Entry
pub mod Bmap
pub mod Contents
pub mod Reading
pub mod Chunk
pub mod Metadata
pub mod Writing
pub mod Writei
pub mod RoundTrip
pub mod Icache
pub mod Iget
pub mod Names
pub mod Elements
pub mod Dirs
pub mod Walk
mod Tests
use os_ass.Base.{
  ℕ, zero, suc, ◌+◌, ◌-◌, ◌*◌, ◌/◌, ◌%◌, ◌^◌, Bool, true, false, ◌&&◌, ◌||◌, not, Option, none,
  some, List, [], ◌∷◌, ltb, leb, ◌==◌, if◌then◌else◌, update, Outcome, ok, panic, ◌>>=◌, word,
  store,
}
use Prim.Native.Nat.{bit_and, bit_or}

abbrev pub Block : Type 0
Block = ℕ → ℕ

abbrev pub bsize : ℕ
bsize = 512

-- `struct inode`; `busy` and `valid` are the bits of `flags`.
pub record Inode : Type 0 where
  pub dev : ℕ
  pub inum : ℕ
  pub ref : ℕ
  pub busy : Bool
  pub valid : Bool
  pub type : ℕ
  pub major : ℕ
  pub minor : ℕ
  pub nlink : ℕ
  pub size : ℕ
  pub addrs : ℕ → ℕ

-- the disk through the buffer cache, the sectors logged (the last first), and `icache.inode`
pub record Fs : Type 0 where
  pub blocks : ℕ → Block
  pub logged : List ℕ
  pub inode : ℕ → Inode

-- new bytes in the buffer of the sector `b`, and `log_write` of it
abbrev pub log_block : Fs → ℕ → Block → Fs
log_block s b bytes = record s { blocks = update s.blocks b bytes; logged = b ∷ s.logged }

abbrev pub set_inode : Fs → ℕ → Inode → Fs
set_inode s ip node = record s { inode = update s.inode ip node }

pub record Superblock : Type 0 where
  pub size : ℕ
  pub nblocks : ℕ
  pub ninodes : ℕ
  pub nlog : ℕ

abbrev pub readsb : Fs → Superblock
readsb s = record {
  size = word (s.blocks 1) 0;
  nblocks = word (s.blocks 1) 4;
  ninodes = word (s.blocks 1) 8;
  nlog = word (s.blocks 1) 12;
}

abbrev pub bzero : Fs → ℕ → Fs
bzero s bno = log_block s bno (λ _. 0)

-- inodes of 64 bytes in a block
abbrev pub ipb : ℕ
ipb = 8

abbrev pub iblock : ℕ → ℕ
iblock i = i / ipb + 2

-- bits in a block
abbrev pub bpb : ℕ
bpb = 4096

abbrev pub bblock : ℕ → ℕ → ℕ
bblock b ninodes = b / bpb + ninodes / ipb + 3

-- `(data[bi/8] & m) == 0`, with `m = 1 << (bi % 8)`
abbrev pub bit_clear : Block → ℕ → Bool
bit_clear bytes bi = bit_and (bytes (bi / 8)) (2 ^ (bi % 8)) == 0

-- `data[bi/8] |= m`
abbrev pub set_bit : Block → ℕ → Block
set_bit bytes bi = update bytes (bi / 8) (bit_or (bytes (bi / 8)) (2 ^ (bi % 8)))

-- `data[bi/8] &= ~m`, on a byte
abbrev pub clear_bit : Block → ℕ → Block
clear_bit bytes bi = update bytes (bi / 8) (bit_and (bytes (bi / 8)) (255 - 2 ^ (bi % 8)))

-- The inner loop of `balloc` for the bitmap block of `b`, from `bi` on with `k` rounds left: the bit
-- that it finds clear, if any.
pub find_clear : Block → ℕ → ℕ → ℕ → ℕ → Option ℕ
find_clear bytes size b bi zero = none
find_clear bytes size b bi (suc k) =
    if not (ltb (b + bi) size)
    then none
    else if bit_clear bytes bi
    then some bi
    else find_clear bytes size b (bi + 1) k

-- the outer loop from `b` on, with `k` rounds left
pub balloc_loop : Fs → Superblock → ℕ → ℕ → Outcome (ℕ × Fs)
balloc_loop s sb b zero = panic
balloc_loop s sb b (suc k) =
    let next = balloc_loop s sb (b + bpb) k in
    let sector = bblock b sb.ninodes in
    if not (ltb b sb.size) then panic else elim (find_clear (s.blocks sector) sb.size b 0 bpb) [
      | none ↦ next
      | some bi ↦
          let s1 = log_block s sector (set_bit (s.blocks sector) bi) in
          ok (b + bi, bzero s1 (b + bi))
    ]

pub balloc : Fs → Outcome (ℕ × Fs)
balloc s = balloc_loop s (readsb s) 0 ((readsb s).size / bpb + 1)

pub bfree : Fs → ℕ → Outcome Fs
bfree s b =
    let sector = bblock b (readsb s).ninodes in
    let bi = b % bpb in
    if bit_clear (s.blocks sector) bi
    then panic
    else ok (log_block s sector (clear_bit (s.blocks sector) bi))
