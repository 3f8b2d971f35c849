-- ===== src/Spinlock.antt =====
-- spinlock.c: locks and the nesting of `cli`. A CPU is a number, 0 for the null pointer; its program
-- counter cuts `acquire` and `release` at each access to the shared lock.
pub mod Mutex
pub mod Cli
mod Tests
use os_ass.Base.{
  ℕ, ◌+◌, ◌-◌, ◌≡◌, ◌≢◌, Bool, true, false, ◌&&◌, not, ◌==◌, if◌then◌else◌, update, Outcome, ok,
  panic, ◌>>=◌,
}

-- `struct spinlock`, less its debugging fields
pub record Spinlock : Type 0 where
  pub locked : ℕ
  pub cpu : ℕ

abbrev pub initlock : Spinlock
initlock = record { locked = 0; cpu = 0 }

pub holding : Spinlock → ℕ → Bool
holding lk cpu = not (lk.locked == 0) && lk.cpu == cpu

-- The interrupt flag, `ncli` and `intena` of a CPU.
pub record Cpu : Type 0 where
  pub interrupts : Bool
  pub ncli : ℕ
  pub intena : Bool

pub pushcli : Cpu → Cpu
pushcli c = record c {
  interrupts = false;
  ncli = c.ncli + 1;
  intena = if c.ncli == 0 then c.interrupts else c.intena;
}

-- `--cpu->ncli < 0` is the test for 0 before.
pub popcli : Cpu → Outcome Cpu
popcli c =
    if c.interrupts
    then panic
    else if c.ncli == 0
    then panic
    else ok (record c {
      ncli = c.ncli - 1;
      interrupts = if c.ncli - 1 == 0 && c.intena then true else c.interrupts;
    })

-- Where a CPU stands: outside, spinning in `acquire`, past the exchange, in the critical section, or
-- in `release` before its exchange.
pub data Pc : Type 0 where
  idle : Pc
  spinning : Pc
  won : Pc
  critical : Pc
  releasing : Pc

-- One access to the lock by the CPU `c`. The panics of `acquire` and `release` are no steps: `enter`
-- needs that the test for `holding` fails, `leave` that it passes.
pub data Move (c : ℕ) (lk : Spinlock) : Pc → Spinlock → Pc → Type 0 where
  enter : holding lk c ≡ false → Move c lk idle lk spinning
  spin : lk.locked ≢ 0 → Move c lk spinning (record lk { locked = 1 }) spinning
  win : lk.locked ≡ 0 → Move c lk spinning (record lk { locked = 1 }) won
  sign : Move c lk won (record lk { cpu = c }) critical
  leave : holding lk c ≡ true → Move c lk critical (record lk { cpu = 0 }) releasing
  free : Move c lk releasing (record lk { locked = 0 }) idle

-- the CPUs that use one lock
pub record System : Type 0 where
  pub lock : Spinlock
  pub pc : ℕ → Pc

-- A CPU moves; CPUs are numbered from 1.
pub data Step (s : System) : System → Type 0 where
  move :
      (c : ℕ) {lk : Spinlock} {p : Pc}
      → c ≢ 0
      → Move c s.lock (s.pc c) lk p
      → Step s (record { lock = lk; pc = update s.pc c p })

abbrev pub start : System
start = record { lock = initlock; pc = λ _. idle }

pub data Reach : System → Type 0 where
  here : Reach start
  later : {s t : System} → Reach s → Step s t → Reach t
