-- ===== src/Pipe.antt =====
-- pipe.c: a ring of 512 bytes with 32-bit counters. A function is modelled from one `acquire` of
-- `p->lock` to the next `release` or `sleep`: a call that sleeps is resumed by the same function.
pub mod Queue
pub mod Write
pub mod Read
pub mod Fifo
mod Tests
use os_ass.Base.{
  ℕ, zero, suc, ◌+◌, ◌%◌, ◌^◌, Bool, true, false, ◌&&◌, ◌||◌, not, List, [], ◌∷◌, ◌++◌, ◌==◌,
  if◌then◌else◌, update, u32, length,
}

abbrev pub pipesize : ℕ
pipesize = 512

pub record Pipe : Type 0 where
  pub buf : ℕ → ℕ  -- `data`
  pub nread : ℕ
  pub nwrite : ℕ
  pub readopen : Bool
  pub writeopen : Bool

-- the channels `&p->nread` and `&p->nwrite`
pub data Chan : Type 0 where
  nread_chan nwrite_chan : Chan

-- how a call leaves the lock: with a result, with -1, or asleep on a channel
pub data Exit : Type 0 where
  returned : ℕ → Exit
  failed : Exit
  asleep : Chan → Exit

-- The pipe, the local variable `i`, the channels woken so far and the way out.
pub record WriteResult : Type 0 where
  pub pipe : Pipe
  pub i : ℕ
  pub woken : List Chan
  pub exit : Exit

-- The pipe, the bytes copied to `addr`, the channels woken and the way out.
pub record ReadResult : Type 0 where
  pub pipe : Pipe
  pub bytes : List ℕ
  pub woken : List Chan
  pub exit : Exit

-- what `pipealloc` stores in a page from `kalloc`, whose bytes are `junk`
pub init : (ℕ → ℕ) → Pipe
init junk = record { buf = junk; nread = 0; nwrite = 0; readopen = true; writeopen = true }

-- The new pipe, the channel woken, and whether the page of the pipe is freed.
pub pipeclose : Pipe → Bool → Pipe × Chan × Bool
pipeclose p writable =
    let p' = if writable then record p { writeopen = false } else record p { readopen = false } in
    (p', if writable then nread_chan else nwrite_chan, not p'.readopen && not p'.writeopen)

abbrev pub full : Pipe → Bool
full p = p.nwrite == u32 (p.nread + pipesize)

abbrev pub empty : Pipe → Bool
empty p = p.nread == p.nwrite

-- `p->data[p->nwrite++ % PIPESIZE] = c`
abbrev pub put : Pipe → ℕ → Pipe
put p c = record p { buf = update p.buf (p.nwrite % pipesize) c; nwrite = u32 (p.nwrite + 1) }

-- `pipewrite` from the loop's head on, with `addr[i..n)` still to write. Entered with `i = 0`, and
-- again with what is left after each sleep.
pub pipewrite : Bool → List ℕ → ℕ → Pipe → WriteResult
pipewrite killed [] i p = record { pipe = p; i = i; woken = nread_chan ∷ []; exit = returned i }
pipewrite killed (c ∷ cs) i p =
    let rest = pipewrite killed cs (i + 1) (put p c) in
    if full p
    then if not p.readopen || killed
      then record { pipe = p; i = i; woken = []; exit = failed }
      else record { pipe = p; i = i; woken = nread_chan ∷ []; exit = asleep nwrite_chan }
    else rest

-- the copying loop of `piperead`, with `n` rounds left
pub piperead_copy : ℕ → Pipe → List ℕ × Pipe
piperead_copy zero p = ([], p)
piperead_copy (suc n) p =
    let (cs, p') = piperead_copy n (record p { nread = u32 (p.nread + 1) }) in
    if empty p then ([], p) else (p.buf (p.nread % pipesize) ∷ cs, p')

-- `piperead` from its first loop on
pub piperead : Bool → ℕ → Pipe → ReadResult
piperead killed n p =
    if empty p && p.writeopen
    then if killed
      then record { pipe = p; bytes = []; woken = []; exit = failed }
      else record { pipe = p; bytes = []; woken = []; exit = asleep nread_chan }
    else let (cs, p') = piperead_copy n p in
      record { pipe = p'; bytes = cs; woken = nwrite_chan ∷ []; exit = returned (length cs) }
