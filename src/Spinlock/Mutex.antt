-- ===== src/Spinlock/Mutex.antt =====
-- Mutual exclusion.
use os_ass.Base.{ℕ, ◌≡◌, ◌≢◌, refl, arith, Bool, true, false, update, Bool-cases, inl, inr}
use os_ass.Spinlock.{
  Spinlock, holding, Pc, idle, spinning, won, critical, releasing, Move, enter, spin, win, sign,
  leave, free, System, move, Reach, here, later, initlock,
}

-- between the exchange of `acquire` and that of `release`
abbrev pub owns : Pc → Bool
owns idle = false
owns spinning = false
owns won = true
owns critical = true
owns releasing = true

-- in the critical section proper
abbrev pub inside : Pc → Bool
inside critical = true
inside _ = false

pub record Inv (lk : Spinlock) (pc : ℕ → Pc) : Type 0 where
  pub free : lk.locked ≡ 0 → (c : ℕ) → owns (pc c) ≡ false
  pub one : (c d : ℕ) → owns (pc c) ≡ true → owns (pc d) ≡ true → c ≡ d
  pub signed : (c : ℕ) → pc c ≡ critical → lk.cpu ≡ c
  pub stale : lk.cpu ≢ 0 → pc lk.cpu ≡ critical

at_self : (pc : ℕ → Pc) (c : ℕ) (p : Pc) → update pc c p c ≡ p
at_self pc c p = ground arith

-- Moves that neither take nor give up the lock.
quiet-Inv :
    (lk lk' : Spinlock) (pc : ℕ → Pc) (c : ℕ) (p : Pc)
    → owns (pc c) ≡ owns p
    → pc c ≢ critical
    → p ≢ critical
    → (lk'.locked ≡ 0 → lk.locked ≡ 0)
    → lk'.cpu ≡ lk.cpu
    → Inv lk pc
    → Inv lk' (update pc c p)
quiet-Inv lk lk' pc c p same out out' locked cpu v = record {
  free = λ h d. ground (arith, v.free (locked h) d);
  one = λ d e hd he. ground (arith, v.one d e);
  signed = λ d h. ground (arith, v.signed d, cpu);
  stale = λ h. ground (arith, v.stale, cpu);
}

Move-Inv :
    {lk lk' : Spinlock} {p p' : Pc} (pc : ℕ → Pc) (c : ℕ)
    → c ≢ 0
    → pc c ≡ p
    → Move c lk p lk' p'
    → Inv lk pc
    → Inv lk' (update pc c p')
Move-Inv {lk} pc c ne at (enter h) v =
    quiet-Inv lk lk pc c spinning (rw at) (rw at (λ q. cc)) (λ q. cc) (λ q. q) refl v
Move-Inv {lk} pc c ne at (spin h) v =
    quiet-Inv lk (record lk { locked = 1 }) pc c spinning (rw at) (rw at (λ q. cc)) (λ q. cc)
      (λ q. absurd (omega arith)) refl v
Move-Inv {lk} pc c ne at (win h) v = record {
  free = λ q d. absurd (omega arith);
  one = λ d e hd he. ground (arith, v.free h d, v.free h e);
  signed = λ d q. ground (arith, v.signed d);
  stale = λ q. ground (arith, v.stale, v.free h lk.cpu);
}
Move-Inv {lk} pc c ne at sign v = record {
  free = λ q d. ground (arith, v.free q c);
  one = λ d e hd he. ground (arith, v.one d e, v.one c e, v.one d c);
  signed = λ d q. ground (arith, v.signed d, v.one c d);
  stale = λ q. at_self pc c critical;
}
Move-Inv {lk} pc c ne at (leave h) v = record {
  free = λ q d. ground (arith, v.free q c);
  one = λ d e hd he. ground (arith, v.one d e, v.one c e, v.one d c);
  signed = λ d q. ground (arith, v.signed d, v.one c d);
  stale = λ q. absurd (q refl);
}
Move-Inv {lk} pc c ne at free v = record {
  free = λ q d. ground (arith, v.one c d);
  one = λ d e hd he. ground (arith, v.one d e);
  signed = λ d q. ground (arith, v.signed d);
  stale = λ q. ground (arith, v.stale q, v.one c lk.cpu);
}

start-Inv : Inv initlock (λ _. idle)
start-Inv = record {
  free = λ q d. refl;
  one = λ c d hc hd. cc;
  signed = λ c q. cc;
  stale = λ q. absurd (q refl);
}

Reach-Inv : {s : System} → Reach s → Inv s.lock s.pc
Reach-Inv here = start-Inv
Reach-Inv (later {s} r (move c ne m)) = Move-Inv s.pc c ne refl m (Reach-Inv r)

-- In every reachable state two CPUs are never between `acquire` and `release` together, and `holding`
-- answers true exactly for the CPU in the critical section: so an `acquire` by a CPU outside it and a
-- `release` inside it do not panic.
pub mutual_exclusion :
    {s : System}
    → Reach s
    → ((c d : ℕ) → owns (s.pc c) ≡ true → owns (s.pc d) ≡ true → c ≡ d)
      × ((c : ℕ) → c ≢ 0 → holding s.lock c ≡ inside (s.pc c))
unfolding holding
mutual_exclusion {s} r =
    let v = Reach-Inv r in
    (
      v.one,
      λ c ne. elim (Bool-cases (inside (s.pc c))) [
        | inl yes_in ↦
            let at : s.pc c ≡ critical = ground arith in
            let taken : s.lock.locked ≢ 0 = λ q. cc (v.free q c, at) in ground (arith, v.signed c)
        | inr out ↦ ground (arith, v.stale)
      ],
    )
