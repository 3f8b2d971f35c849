-- ===== src/Proc/Defs.antt =====
-- `struct proc`, the process table and the global variables of proc.c.
use os_ass.Base.{
  ℕ, zero, suc, ◌+◌, ◌/◌, ◌%◌, ◌^◌, Bool, true, false, Option, none, some, List, [], ◌∷◌, ◌==◌,
  if◌then◌else◌, update,
}

pub data ProcState : Type 0 where
  unused embryo sleeping runnable running zombie sleeping_suspended runnable_suspended : ProcState

abbrev pub code : ProcState → ℕ
code unused = 0
code embryo = 1
code sleeping = 2
code runnable = 3
code running = 4
code zombie = 5
code sleeping_suspended = 6
code runnable_suspended = 7

-- `p->state == s`
abbrev pub is : ProcState → ProcState → Bool
is s t = code s == code t

-- What a process sleeps on: nothing, a process, or the address of some other object.
pub data Chan : Type 0 where
  null : Chan
  proc_chan : ℕ → Chan
  object : ℕ → Chan

abbrev pub same_chan : Chan → Chan → Bool
same_chan null null = true
same_chan (proc_chan i) (proc_chan j) = i == j
same_chan (object a) (object b) = a == b
same_chan _ _ = false

-- the channel of a process pointer that may be null
abbrev pub chan_of : Option ℕ → Chan
chan_of none = null
chan_of (some i) = proc_chan i

abbrev pub same_proc : Option ℕ → ℕ → Bool
same_proc none i = false
same_proc (some j) i = j == i

pub record Proc : Type 0 where
  pub sz : ℕ
  pub pgdir : ℕ
  pub kstack : ℕ
  pub state : ProcState
  pub pid : ℕ
  pub parent : Option ℕ
  pub chan : Chan
  pub killed : Bool
  pub swap_file_name : List ℕ
  pub swapping_out : Bool
  pub woken_up : Bool

-- `held`: this CPU holds `ptable.lock`. `swappedout` is the bit pattern of an `int`.
pub record Ptable : Type 0 where
  pub held : Bool
  pub procs : ℕ → Proc
  pub nextpid : ℕ
  pub swap_flag : Bool
  pub swappedout : ℕ
  pub initproc : ℕ
  pub inswapper : ℕ

-- `p->state = s`
abbrev pub set_state : Ptable → ℕ → ProcState → Ptable
set_state t i s = record t { procs = update t.procs i (record (t.procs i) { state = s }) }

-- `for(p = ptable.proc; p < &ptable.proc[NPROC]; p++) if(test p) break;`, from slot `i` on with `k`
-- slots left
unfoldable pub find : (Proc → Bool) → (ℕ → Proc) → ℕ → ℕ → Option ℕ
find test procs i zero = none
find test procs i (suc k) = if test (procs i) then some i else find test procs (i + 1) k

-- the bytes before the first NUL
unfoldable pub c_string : List ℕ → List ℕ
c_string [] = []
c_string (c ∷ cs) = if c == 0 then [] else c ∷ c_string cs

-- The name that `allocproc` makes from the pid; its first character is cut to a `char`.
unfoldable pub swap_name : ℕ → List ℕ
unfolding c_string
swap_name pid =
    c_string ((b'0' + pid / 10) % 2 ^ 8 ∷ (b'0' + pid % 10) ∷ b'.' ∷ b's' ∷ b'w' ∷ b'a' ∷ b'p' ∷ [])
