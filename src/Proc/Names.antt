-- ===== src/Proc/Names.antt =====
-- The names of the swap files.
use os_ass.Base.{ℕ, ◌+◌, ◌<◌, ◌≡◌, arith}
use os_ass.Proc.Defs.{swap_name}

-- Below pid 2080 two processes never share a swap file.
pub swap_name-injective :
    (pid pid' : ℕ) → pid < 2080 → pid' < 2080 → swap_name pid ≡ swap_name pid' → pid ≡ pid'
unfolding swap_name
swap_name-injective pid pid' h h' e = ground arith

-- Pids that are 2560 apart share one, whatever they are.
swap_name-collides : (pid : ℕ) → swap_name (pid + 2560) ≡ swap_name pid
unfolding swap_name
swap_name-collides pid = ground arith
