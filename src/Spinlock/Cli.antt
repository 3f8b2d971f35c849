-- ===== src/Spinlock/Cli.antt =====
-- `pushcli` and `popcli` are matched.
use os_ass.Base.{ℕ, zero, suc, ◌+◌, ◌-◌, ◌≡◌, refl, arith, Bool, false, Outcome, ok, ◌>>=◌, ◌<◌}
use os_ass.Spinlock.{Cpu, pushcli, popcli}

pub push_times : ℕ → Cpu → Cpu
push_times zero c = c
push_times (suc n) c = push_times n (pushcli c)

pub pop_times : ℕ → Cpu → Outcome Cpu
pop_times zero c = ok c
pop_times (suc n) c = popcli c >>= pop_times n

-- outside every critical section
abbrev pub balanced : Bool → Bool → Cpu
balanced flag intena = record { interrupts = flag; ncli = 0; intena = intena }

push_times_lem :
    (n : ℕ) (c : Cpu)
    → 0 < c.ncli
    → c.interrupts ≡ false
    → push_times n c ≡ record c { ncli = c.ncli + n }
unfolding push_times pushcli
push_times_lem zero c h e = ground arith
push_times_lem (suc n) c h e = ground (arith, push_times_lem n (pushcli c))

-- the last call of `popcli` restores the flag
pop_all :
    (n : ℕ) (c : Cpu)
    → c.interrupts ≡ false
    → c.ncli ≡ suc n
    → pop_times (suc n) c ≡ ok (record c { interrupts = c.intena; ncli = 0 })
unfolding pop_times popcli
pop_all zero c e f = ground arith
pop_all (suc n) c e f =
    let rest = pop_all n (record c { ncli = c.ncli - 1 }) e (omega arith) in ground (arith, rest)

-- From outside every critical section, `n` calls of `pushcli`, one at least, turn interrupts off and
-- count to `n`; `n` of `popcli` then give the flag back as it was, with no panic.
push-pop :
    (n : ℕ) (flag intena : Bool)
    → 0 < n
    → ((push_times n (balanced flag intena)).interrupts ≡ false)
      × ((push_times n (balanced flag intena)).ncli ≡ n)
      × (pop_times n (push_times n (balanced flag intena)) ≡ ok (balanced flag flag))
push-pop zero flag intena h = absurd (omega arith)
push-pop (suc n) flag intena h =
    let pushed : Cpu = record { interrupts = false; ncli = 1; intena = flag } in
    let e : push_times (suc n) (balanced flag intena) ≡ record pushed { ncli = 1 + n } =
      unfold push_times pushcli in push_times_lem n pushed (omega arith) refl in
    rw e (refl, omega arith, pop_all n (record pushed { ncli = 1 + n }) refl (omega arith))
