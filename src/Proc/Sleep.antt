-- ===== src/Proc/Sleep.antt =====
-- `wakeup1`, `wakeup`, `kill`, `sleep`, `yield`, the choice of the scheduler, and the part of the
-- inswapper's loop that changes the table.
use os_ass.Base.{
  ℕ, zero, suc, ◌+◌, ◌-◌, ◌^◌, Bool, true, false, ◌&&◌, not, Option, none, some, ltb, ◌==◌,
  if◌then◌else◌, update, u32, Outcome, ok, panic, ◌>>=◌, lock, unlock, nproc,
}
use os_ass.Proc.Defs.{
  Ptable, sleeping, runnable, running, sleeping_suspended, runnable_suspended, is, set_state, find,
  Chan, null, same_chan,
}

-- The lines that `wakeup1`, `kill` share for a process that is swapped out.
abbrev pub wake_suspended : Ptable → ℕ → Ptable
wake_suspended t i =
    let t1 = set_state t i runnable_suspended in
    set_state (record t1 { swappedout = u32 (t.swappedout + 1) }) t.inswapper runnable

-- one round of `wakeup1`; `found_suspended` is 0 throughout
unfoldable pub wake_one : Ptable → Chan → ℕ → Ptable
wake_one t chan i =
    let p = t.procs i in
    if is p.state sleeping && same_chan p.chan chan
    then if p.swapping_out
      then record t { procs = update t.procs i (record p { woken_up = true }) }
      else set_state t i runnable
    else if is p.state sleeping_suspended && same_chan p.chan chan
    then wake_suspended t i
    else t

-- from slot `i` on, with `k` slots left
unfoldable pub wakeup_loop : Ptable → Chan → ℕ → ℕ → Ptable
wakeup_loop t chan i zero = t
wakeup_loop t chan i (suc k) = wakeup_loop (wake_one t chan i) chan (i + 1) k

unfoldable pub wakeup1 : Ptable → Chan → Ptable
wakeup1 t chan = wakeup_loop t chan 0 nproc

unfoldable pub wakeup : Ptable → Chan → Outcome Ptable
wakeup t chan = do
  h ← lock t.held
  let t1 = wakeup1 (record t { held = h }) chan
  h' ← unlock t1.held
  ok (record t1 { held = h' })

-- what `kill` does to the process it has found
unfoldable pub kill_at : Ptable → ℕ → Ptable
kill_at t i =
    let t1 = record t { procs = update t.procs i (record (t.procs i) { killed = true }) } in
    let s = (t.procs i).state in
    if is s sleeping
    then set_state t1 i runnable
    else if is s sleeping_suspended
    then wake_suspended t1 i
    else t1

-- the table under the lock, and whether the pid was found
unfoldable pub kill_locked : Ptable → ℕ → Bool × Ptable
kill_locked t pid = elim (find (λ p. p.pid == pid) t.procs 0 nproc) [
  | none ↦ (false, t)
  | some i ↦ (true, kill_at t i)
]

-- `some 0` is the result 0, `none` the result -1.
unfoldable pub kill : Ptable → ℕ → Outcome (Option ℕ × Ptable)
kill t pid = do
  h ← lock t.held
  let (found, t1) = kill_locked (record t { held = h }) pid
  h' ← unlock t1.held
  ok (if found then some 0 else none, record t1 { held = h' })

-- What `sched` is called with: the nesting depth `ncli` and whether interrupts are on.
unfoldable pub sched : Ptable → ℕ → ℕ → Bool → Outcome Ptable
sched t self ncli interruptible =
    if not t.held
    then panic
    else if not (ncli == 1)
    then panic
    else if is (t.procs self).state running
    then panic
    else if interruptible
    then panic
    else ok t

-- `yield` up to the switch
unfoldable pub yield_start : Ptable → ℕ → ℕ → Bool → Outcome Ptable
yield_start t self ncli interruptible = do
  h ← lock t.held
  sched (set_state (record t { held = h }) self runnable) self ncli interruptible

-- The scheduler at slot `i`, with the lock: `some` when it switches to that process.
unfoldable pub schedule_at : Ptable → ℕ → Option Ptable
schedule_at t i = if is (t.procs i).state runnable then some (set_state t i running) else none

-- `sleep` with the lock, up to `sched` or to `swapOut`: the table, and whether the process now swaps
-- itself out.
unfoldable pub sleep_start : Ptable → ℕ → Chan → Ptable × Bool
sleep_start t self chan =
    let p = record (t.procs self) { chan = chan; state = sleeping } in
    if t.swap_flag && ltb 3 p.pid
    then (
      record t { procs = update t.procs self (record p { woken_up = false; swapping_out = true }) },
      true,
    )
    else (record t { procs = update t.procs self p }, false)

-- `sleep` from the lock after `swapOut` to `sched`
unfoldable pub sleep_swapped : Ptable → ℕ → Ptable
sleep_swapped t self =
    let p = record (t.procs self) { swapping_out = false } in
    if p.woken_up
    then set_state
        (record t {
          procs = update t.procs self (record p { woken_up = false; state = runnable_suspended });
        })
        t.inswapper runnable
    else record t { procs = update t.procs self (record p { state = sleeping_suspended }) }

-- `proc->chan = 0`, after `sched`
unfoldable pub sleep_end : Ptable → ℕ → Ptable
sleep_end t self = record t { procs = update t.procs self (record (t.procs self) { chan = null }) }

-- the inswapper once the pages of slot `i` are back
unfoldable pub swapped_in : Ptable → ℕ → Ptable
swapped_in t i = record (set_state t i runnable) { swappedout = u32 (t.swappedout + 2 ^ 32 - 1) }

-- `swappedout > 0`, of an `int`
abbrev pub keeps_swapping : Ptable → Bool
keeps_swapping t = ltb 0 t.swappedout && ltb t.swappedout (2 ^ 31)

-- the inswapper goes to sleep
unfoldable pub inswapper_sleeps : Ptable → ℕ → Ptable
inswapper_sleeps t self = record t {
  procs =
      update t.procs self
        (record (t.procs self) { chan = Chan.proc_chan t.inswapper; state = sleeping });
}
