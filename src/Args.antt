-- ===== src/Args.antt =====
-- syscall.c: how a system call fetches its arguments from the memory of the process that made it.
pub mod Bounds
mod Tests
use os_ass.Base.{
  ℕ, zero, suc, ◌+◌, ◌-◌, ◌*◌, Option, none, some, Bool, ◌||◌, ltb, leb, ◌==◌, if◌then◌else◌, u32,
  word,
}

-- `proc->sz`, the saved `esp`, and the bytes of the process
pub record User : Type 0 where
  pub sz : ℕ
  pub esp : ℕ
  pub mem : ℕ → ℕ

pub fetchint : User → ℕ → Option ℕ
fetchint p addr =
    if leb p.sz addr || ltb p.sz (u32 (addr + 4)) then none else some (word p.mem addr)

-- the loop of `fetchstr`, with `k` addresses from `s` on before `ep`
pub find_nul : (ℕ → ℕ) → ℕ → ℕ → Option ℕ
find_nul mem s zero = none
find_nul mem s (suc k) = if mem s == 0 then some s else find_nul mem (s + 1) k

-- the pointer and the length
pub fetchstr : User → ℕ → Option (ℕ × ℕ)
fetchstr p addr =
    if leb p.sz addr
    then none
    else elim (find_nul p.mem addr (p.sz - addr)) [ none ↦ none | some s ↦ some (addr, s - addr) ]

pub argint : User → ℕ → Option ℕ
argint p n = fetchint p (u32 (p.esp + 4 + 4 * n))

-- `size` is the 32 bits of an `int`, as the addition reads it.
pub argptr : User → ℕ → ℕ → Option ℕ
argptr p n size = elim (argint p n) [
  | none ↦ none
  | some i ↦ if leb p.sz i || ltb p.sz (u32 (i + size)) then none else some i
]

pub argstr : User → ℕ → Option (ℕ × ℕ)
argstr p n = elim (argint p n) [ none ↦ none | some addr ↦ fetchstr p addr ]
