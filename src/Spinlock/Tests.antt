-- ===== src/Spinlock/Tests.antt =====
-- Two CPUs and one lock.
use os_ass.Base.{ℕ, ◌≡◌, ◌≢◌, refl, arith, true, update}
use os_ass.Spinlock.{
  holding, idle, spinning, won, critical, System, Reach, here, later, move, enter, win, sign,
}
use os_ass.Spinlock.Mutex.{owns, inside, mutual_exclusion}

-- CPU 1 has the lock, CPU 2 spins.
abbrev contended : System
contended = record {
  lock = record { locked = 1; cpu = 1 };
  pc = update (update (update (update (λ _. idle) 1 spinning) 1 won) 1 critical) 2 spinning;
}

contended-Reach : Reach contended
unfolding holding
contended-Reach =
    later
      (later
        (later (later here (move 1 (omega arith) (enter refl))) (move 1 (omega arith) (win refl)))
        (move 1 (omega arith) sign))
      (move 2 (omega arith) (enter refl))

mutual_exclusion_example :
    ((c d : ℕ) → owns (contended.pc c) ≡ true → owns (contended.pc d) ≡ true → c ≡ d)
    × ((c : ℕ) → c ≢ 0 → holding contended.lock c ≡ inside (contended.pc c))
mutual_exclusion_example = mutual_exclusion {s = contended} contended-Reach
