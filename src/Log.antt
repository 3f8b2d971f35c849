-- ===== src/Log.antt =====
-- log.c: the write-ahead log. A block is its 128 words. A read of the disk gives what was written last:
-- the blocks that the code reads here (the header, the blocks of the log, and home blocks that it then
-- overwrites) are never changed in the buffer cache without a `bwrite`.
pub mod Words
pub mod Install
pub mod Crash
pub mod Commit
pub mod Trans
mod Tests
use os_ass.Base.{
  ℕ, zero, suc, ◌+◌, ◌-◌, ◌<◌, Bool, true, false, ◌||◌, not, Option, none, some, List, [], ◌∷◌, leb,
  ltb, ◌==◌, if◌then◌else◌, update, Outcome, ok, panic, ◌>>=◌,
}

abbrev pub logsize : ℕ
logsize = 10

abbrev pub Block : Type 0
Block = ℕ → ℕ

abbrev pub Disk : Type 0
Disk = ℕ → Block

-- `struct log` with its header `lh`, the disk, which home blocks have B_DIRTY set in the buffer
-- cache, and the contents of the disk after each write so far, the last write first.
pub record Log : Type 0 where
  pub start : ℕ
  pub size : ℕ
  pub busy : Bool
  pub n : ℕ  -- lh.n
  pub sector : ℕ → ℕ  -- lh.sector
  pub disk : Disk
  pub dirty : ℕ → Bool
  pub history : List Disk

-- `bwrite` of the block `b`; the disk driver clears B_DIRTY.
abbrev pub bwrite : Log → ℕ → Block → Log
bwrite l b v = record l {
  disk = update l.disk b v;
  dirty = update l.dirty b false;
  history = update l.disk b v ∷ l.history;
}

-- the loop of `install_trans` from `tail` on, with `k` rounds left
pub install_loop : Log → ℕ → ℕ → Log
install_loop l tail zero = l
install_loop l tail (suc k) =
    install_loop (bwrite l (l.sector tail) (l.disk (l.start + tail + 1))) (tail + 1) k

pub install_trans : Log → Log
install_trans l = install_loop l 0 l.n

-- the loop of `read_head`: word 0 of the header is `n`, word `i + 1` is `sector[i]`
pub read_sectors : Block → (ℕ → ℕ) → ℕ → ℕ → ℕ → ℕ
read_sectors hdr sec i zero = sec
read_sectors hdr sec i (suc k) = read_sectors hdr (update sec i (hdr (i + 1))) (i + 1) k

pub read_head : Log → Log
read_head l =
    let hdr = l.disk l.start in record l { n = hdr 0; sector = read_sectors hdr l.sector 0 (hdr 0) }

-- the loop of `write_head`
pub write_sectors : (ℕ → ℕ) → Block → ℕ → ℕ → Block
write_sectors sec hdr i zero = hdr
write_sectors sec hdr i (suc k) = write_sectors sec (update hdr (i + 1) (sec i)) (i + 1) k

pub write_head : Log → Log
write_head l = bwrite l l.start (write_sectors l.sector (update (l.disk l.start) 0 l.n) 0 l.n)

pub recover_from_log : Log → Log
recover_from_log l = write_head (record (install_trans (read_head l)) { n = 0 })

-- the zeroed `log` with `start` and `size` set
abbrev pub zeroed : ℕ → ℕ → Disk → Log
zeroed start size d = record {
  start = start;
  size = size;
  busy = false;
  n = 0;
  sector = λ _. 0;
  disk = d;
  dirty = λ _. false;
  history = [];
}

-- `initlog`, given the fields `size` and `nlog` of the superblock
pub initlog : ℕ → ℕ → Disk → Log
initlog sb_size nlog d = recover_from_log (zeroed (sb_size - nlog) nlog d)

-- One pass through the loop of `begin_trans`: `none` while another transaction is active.
pub begin_trans : Log → Option Log
begin_trans l = if l.busy then none else some (record l { busy = true })

-- The transaction is written, before the last lines give the log back.
pub commit_writes : Log → Log
commit_writes l =
    if ltb 0 l.n then write_head (record (install_trans (write_head l)) { n = 0 }) else l

pub commit_trans : Log → Log
commit_trans l = record (commit_writes l) { busy = false }

-- The first `i` with `sector[i] == b`, or `n`: the loop of `log_write` from `i` on, `k` rounds left.
pub find_sector : (ℕ → ℕ) → ℕ → ℕ → ℕ → ℕ
find_sector sec b i zero = i
find_sector sec b i (suc k) = if sec i == b then i else find_sector sec b (i + 1) k

-- `log_write` of a buffer for block `b` that holds `v`, past its two tests
pub append : Log → ℕ → Block → Log
append l b v =
    let i = find_sector l.sector b 0 l.n in
    let l1 = record l { sector = update l.sector i b } in
    let l2 = bwrite l1 (l.start + i + 1) v in
    record l2 { n = if i == l.n then l.n + 1 else l.n; dirty = update l2.dirty b true }

pub log_write : Log → ℕ → Block → Outcome Log
log_write l b v =
    if leb logsize l.n || leb (l.size - 1) l.n
    then panic
    else if not l.busy
    then panic
    else ok (append l b v)
