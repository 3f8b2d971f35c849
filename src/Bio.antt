-- ===== src/Bio.antt =====
-- bio.c: the buffer cache, a ring of buffers linked both ways; and the disk
-- driver of memide.c, which keeps the disk in memory. A function runs from one release of `bcache.lock`
-- to the next as one step; the lock itself is not shown.
pub mod Ring
pub mod Links
pub mod Lru
pub mod Coherent
pub mod Choice
pub mod Read
pub mod Write
pub mod Release
mod Tests
use os_ass.Base.{
  ℕ, zero, suc, ◌+◌, ◌^◌, ◌-◌, Bool, true, false, not, ◌&&◌, ◌||◌, Option, none, some, Outcome, ok,
  panic, ◌>>=◌, if◌then◌else◌, ◌==◌, ltb, update,
}

abbrev pub nbuf : ℕ
nbuf = 10

-- A buffer by its number; `head` is the number after the last.
abbrev pub head : ℕ
head = nbuf

-- the flags are B_BUSY, B_VALID, B_DIRTY
pub record Buf : Type 0 where
  pub busy : Bool
  pub valid : Bool
  pub dirty : Bool
  pub dev : ℕ
  pub sector : ℕ
  pub prev : ℕ
  pub next : ℕ
  pub data_of : ℕ → ℕ

pub record Bcache : Type 0 where
  pub buf : ℕ → Buf
  pub disk : ℕ → ℕ → ℕ
  pub disksize : ℕ

abbrev pub set_buf : Bcache → ℕ → Buf → Bcache
set_buf s b v = record s { buf = update s.buf b v }

abbrev pub set_next : Bcache → ℕ → ℕ → Bcache
set_next s b n = set_buf s b (record (s.buf b) { next = n })

abbrev pub set_prev : Bcache → ℕ → ℕ → Bcache
set_prev s b p = set_buf s b (record (s.buf b) { prev = p })

-- `b->next = head.next; b->prev = &head; head.next->prev = b; head.next = b;`
unfoldable pub push_front : Bcache → ℕ → Bcache
push_front s b =
    let s1 = set_next s b (s.buf head).next in
    let s2 = set_prev s1 b head in let s3 = set_prev s2 (s2.buf head).next b in set_next s3 head b

-- `b->next->prev = b->prev; b->prev->next = b->next;`
unfoldable pub unlink : Bcache → ℕ → Bcache
unlink s b =
    let s1 = set_prev s (s.buf b).next (s.buf b).prev in set_next s1 (s1.buf b).prev (s1.buf b).next

-- the loop of `binit` from `b` on, with `k` buffers left; `b->dev` is set between the links of `b`
unfoldable pub binit_loop : Bcache → ℕ → ℕ → Bcache
binit_loop s b zero = s
binit_loop s b (suc k) =
    let s1 = set_buf s b (record (s.buf b) { dev = 2 ^ 32 - 1 }) in
    binit_loop (push_front s1 b) (b + 1) k

unfoldable pub binit : Bcache → Bcache
binit s = binit_loop (set_next (set_prev s head head) head head) 0 nbuf

-- A loop over the ring along `link`, on fuel: the first buffer that passes the test.
unfoldable pub scan : (ℕ → ℕ) → (ℕ → Bool) → ℕ → ℕ → Option ℕ
scan link test b zero = none
scan link test b (suc fuel) =
    let rest = scan link test (link b) fuel in
    if b == head then none else if test b then some b else rest

-- the tests of the two loops of `bget`
abbrev pub holds : Bcache → ℕ → ℕ → ℕ → Bool
holds s dev sector b = (s.buf b).dev == dev && (s.buf b).sector == sector

abbrev pub idle : Bcache → ℕ → Bool
idle s b = not (s.buf b).busy && not (s.buf b).dirty

abbrev pub recycle : Bcache → ℕ → ℕ → ℕ → Bcache
recycle s b dev sector =
    set_buf s b
      (record (s.buf b) { dev = dev; sector = sector; busy = true; valid = false; dirty = false })

-- how `bget` ends, or that it sleeps on a busy buffer, to start again when it wakes
pub data Got : Type 0 where
  given : ℕ → Bcache → Got
  asleep : ℕ → Got

-- `bget` when the first loop has found the buffer, and when it has not
abbrev pub take_cached : Bcache → ℕ → Outcome Got
take_cached s b =
    if (s.buf b).busy
    then ok (asleep b)
    else ok (given b (set_buf s b (record (s.buf b) { busy = true })))

abbrev pub take_free : Bcache → ℕ → ℕ → Option ℕ → Outcome Got
take_free s dev sector none = panic
take_free s dev sector (some b) = ok (given b (recycle s b dev sector))

-- the body of `bget`, from what its two loops find
abbrev pub choose : Bcache → ℕ → ℕ → Option ℕ → Option ℕ → Outcome Got
choose s dev sector (some b) free = take_cached s b
choose s dev sector none free = take_free s dev sector free

unfoldable pub bget : Bcache → ℕ → ℕ → Outcome Got
bget s dev sector =
    let cached = scan (λ b. (s.buf b).next) (holds s dev sector) (s.buf head).next nbuf in
    let free = scan (λ b. (s.buf b).prev) (idle s) (s.buf head).prev nbuf in
    choose s dev sector cached free

-- of memide.c
unfoldable pub iderw : Bcache → ℕ → Outcome Bcache
iderw s b =
    let v = s.buf b in
    let clean = set_buf s b (record v { dirty = false; valid = true }) in
    if not v.busy
    then panic
    else if v.valid && not v.dirty
    then panic
    else if not (v.dev == 1)
    then panic
    else if not (ltb v.sector s.disksize)
    then panic
    else if v.dirty
    then ok (record clean { disk = update s.disk v.sector v.data_of })
    else ok (set_buf s b (record v { data_of = s.disk v.sector; valid = true }))

-- `if(!(b->flags & B_VALID)) iderw(b);`
abbrev pub fill : Got → Outcome Got
fill (asleep b) = ok (asleep b)
fill (given b s) = if (s.buf b).valid then ok (given b s) else (iderw s b >>= λ s1. ok (given b s1))

unfoldable pub bread : Bcache → ℕ → ℕ → Outcome Got
bread s dev sector = bget s dev sector >>= fill

unfoldable pub bwrite : Bcache → ℕ → Outcome Bcache
bwrite s b =
    if not (s.buf b).busy then panic else iderw (set_buf s b (record (s.buf b) { dirty = true })) b

unfoldable pub brelse : Bcache → ℕ → Outcome Bcache
brelse s b =
    let s1 = push_front (unlink s b) b in
    if not (s.buf b).busy then panic else ok (set_buf s1 b (record (s1.buf b) { busy = false }))
