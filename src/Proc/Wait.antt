-- ===== src/Proc/Wait.antt =====
-- `exit` and `wait`.
use os_ass.Base.{
  ℕ, zero, suc, ◌+◌, Bool, true, false, ◌&&◌, ◌||◌, not, Option, none, some, ◌==◌, if◌then◌else◌,
  update, Outcome, ok, panic, ◌>>=◌, nproc,
}
use os_ass.Kmem.{Kmem, kfree}
use os_ass.Proc.Defs.{Proc, Ptable, unused, zombie, is, set_state, proc_chan, chan_of, same_proc}
use os_ass.Proc.Sleep.{wakeup1}

-- one round of `exit`'s loop over the table
unfoldable pub abandon_one : Ptable → ℕ → ℕ → Ptable
abandon_one t self i =
    let p = t.procs i in
    if same_proc p.parent self
    then (let t1 = record t { procs = update t.procs i (record p { parent = some t.initproc }) } in
        if is p.state zombie then wakeup1 t1 (proc_chan t.initproc) else t1)
    else t

unfoldable pub abandon_loop : Ptable → ℕ → ℕ → ℕ → Ptable
abandon_loop t self i zero = t
abandon_loop t self i (suc k) = abandon_loop (abandon_one t self i) self (i + 1) k

-- `exit` from the lock to `sched`; the process has closed its files before.
unfoldable pub exit_locked : Ptable → ℕ → Ptable
exit_locked t self =
    let t1 = wakeup1 t (chan_of (t.procs self).parent) in
    set_state (abandon_loop t1 self 0 nproc) self zombie

-- The test for `init` stands before the lock.
unfoldable pub exit : Ptable → ℕ → Outcome Ptable
exit t self = if self == t.initproc then panic else ok (exit_locked t self)

-- How a pass of `wait` ends: with the pid of a child, with -1, or asleep.
pub data WaitResult : Type 0 where
  reaped : ℕ → WaitResult
  no_child : WaitResult
  must_sleep : WaitResult

-- what `wait` leaves of a zombie
abbrev pub cleared : Proc → Proc
cleared p = record p { kstack = 0; state = unused; pid = 0; parent = none; killed = false }

-- The scan of `wait`: the first zombie child, and whether any child was met before it.
unfoldable pub find_zombie : (ℕ → Proc) → ℕ → Bool → ℕ → ℕ → Option ℕ × Bool
find_zombie procs self havekids i zero = (none, havekids)
find_zombie procs self havekids i (suc k) =
    let child = same_proc (procs i).parent self in
    if child && is (procs i).state zombie
    then (some i, true)
    else find_zombie procs self (havekids || child) (i + 1) k

-- `freevm` of vm.c enters as an argument.
module _ (end : ℕ) (freevm : Kmem → ℕ → Outcome Kmem) where
  -- after the scan
  unfoldable pub wait_found :
      Ptable → Kmem → ℕ → Option ℕ × Bool → Outcome (WaitResult × Ptable × Kmem)
  wait_found t k self (some i, havekids) = kfree end k (t.procs i).kstack >>= λ k1.
      freevm k1 (t.procs i).pgdir >>= λ k2.
      ok (reaped (t.procs i).pid, record t { procs = update t.procs i (cleared (t.procs i)) }, k2)
  wait_found t k self (none, havekids) =
      if not havekids || (t.procs self).killed then ok (no_child, t, k) else ok (must_sleep, t, k)

  -- one pass of `wait` with the lock
  unfoldable pub wait_pass : Ptable → Kmem → ℕ → Outcome (WaitResult × Ptable × Kmem)
  wait_pass t k self = wait_found t k self (find_zombie t.procs self false 0 nproc)
