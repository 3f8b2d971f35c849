-- ===== src/Args/Tests.antt =====
-- A small process.
use os_ass.Base.{◌==◌, if◌then◌else◌, ℕ, ◌+◌, ◌≤◌, ◌<◌, ◌≡◌, refl, arith, some}
use os_ass.Args.{User, fetchint, find_nul, fetchstr, argint, argptr}
use os_ass.Args.Bounds.{argptr_lem}

abbrev byte : ℕ → ℕ
byte n = if n == 0 then 104 else if n == 1 then 105 else if n == 8 then 2 else 0

-- 16 bytes: the string `hi` at 0, the stack at 4, and the argument 2 on it
abbrev small_proc : User
small_proc = record { sz = 16; esp = 4; mem = byte }

argument : argint small_proc 0 ≡ some 2
unfolding argint fetchint
argument = refl

string : fetchstr small_proc 0 ≡ some (0, 2)
unfolding fetchstr find_nul
string = refl

argptr_lem_example :
    (argptr small_proc 0 14 ≡ some 2
      → (argint small_proc 0 ≡ some 2) × (2 < small_proc.sz) × (2 + 14 ≤ small_proc.sz))
    × (argint small_proc 0 ≡ some 2
        → 2 < small_proc.sz
        → 2 + 14 ≤ small_proc.sz
        → argptr small_proc 0 14 ≡ some 2)
argptr_lem_example = argptr_lem small_proc 0 14 2 (omega arith) (omega arith)
