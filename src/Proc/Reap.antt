-- ===== src/Proc/Reap.antt =====
-- How a pass of `wait` ends.
use os_ass.Base.{
  ℕ, zero, suc, ◌+◌, ◌≤◌, ◌<◌, ◌≡◌, refl, arith, update, nproc, Option, none, some, Bool, true,
  false, ◌&&◌, ◌||◌, ◌⊎◌, inl, inr, Outcome, ok, Bool-cases, ℕ_discrete, bind_inv, subst, sym,
  ◌>>=◌, not,
}
use os_ass.Kmem.{Kmem, kfree}
use os_ass.Proc.Defs.{Proc, Ptable, zombie, is, same_proc}
use os_ass.Proc.Wait.{
  find_zombie, WaitResult, reaped, no_child, must_sleep, wait_found, wait_pass, cleared,
}

abbrev pub IsChild : (ℕ → Proc) → ℕ → ℕ → Type 0
IsChild procs self j = same_proc (procs j).parent self ≡ true

-- what the scan tells, of the slots `i` to `i + k - 1`
abbrev pub Scanned : (ℕ → Proc) → ℕ → Bool → ℕ → ℕ → Option ℕ × Bool → Type 0
Scanned procs self h i k (some r, b) =
    (r < i + k) × IsChild procs self r × (is (procs r).state zombie ≡ true)
Scanned procs self h i k (none, true) =
    ((h ≡ true) ⊎ ((j : ℕ) × (j < i + k) × IsChild procs self j))
    × ((j : ℕ) → i ≤ j → j < i + k → IsChild procs self j → is (procs j).state zombie ≡ false)
Scanned procs self h i k (none, false) =
    (h ≡ false) × ((j : ℕ) → i ≤ j → j < i + k → same_proc (procs j).parent self ≡ false)

Scanned-step :
    (procs : ℕ → Proc) (self : ℕ) (h : Bool) (i k : ℕ) (r : Option ℕ × Bool)
    → (same_proc (procs i).parent self && is (procs i).state zombie) ≡ false
    → Scanned procs self (h || same_proc (procs i).parent self) (i + 1) k r
    → Scanned procs self h i (suc k) r
Scanned-step procs self h i k (some r, b) e (lt, child, z) = (omega arith, child, z)
Scanned-step procs self h i k (none, true) e (any, quiet) = (
  elim any [
    | inl p ↦ elim (Bool-cases h) [ inl q ↦ inl q | inr q ↦ inr (i, omega arith, ground arith) ]
    | inr (j, lt, c) ↦ inr (j, omega arith, c)
  ],
  λ j lo hi c. elim (ℕ_discrete i j) [
    | yes here ↦ let c' : IsChild procs self i = rw here c in rw (← here) (ground arith)
    | no ne ↦ quiet j (omega arith) (omega arith) c
  ],
)
Scanned-step procs self h i k (none, false) e (no_one, quiet) = (
  ground arith,
  λ j lo hi. elim (ℕ_discrete i j) [
    | yes here ↦ rw (← here) (ground arith)
    | no ne ↦ quiet j (omega arith) (omega arith)
  ],
)

find_zombie-Scanned :
    (procs : ℕ → Proc) (self : ℕ) (h : Bool) (i k : ℕ)
    → Scanned procs self h i k (find_zombie procs self h i k)
unfolding find_zombie
find_zombie-Scanned procs self true i zero = (inl refl, λ j lo hi. absurd (omega arith))
find_zombie-Scanned procs self false i zero = (refl, λ j lo hi. absurd (omega arith))
find_zombie-Scanned procs self h i (suc k) =
    elim (Bool-cases (same_proc (procs i).parent self && is (procs i).state zombie)) [
      | inl hit ↦ rw hit (omega arith, ground arith, ground arith)
      | inr miss ↦ rw miss (
          Scanned-step procs self h i k _ miss
            (find_zombie-Scanned procs self (h || same_proc (procs i).parent self) (i + 1) k))
    ]

-- how a pass of `wait` may end, with the table after it
abbrev pub WaitSpec : Ptable → ℕ → WaitResult → Ptable → Type 0
WaitSpec t self (reaped pid) t' =
    (i : ℕ) × (i < nproc)
    × IsChild t.procs self i
    × (is (t.procs i).state zombie ≡ true)
    × (pid ≡ (t.procs i).pid)
    × (t' ≡ record t { procs = update t.procs i (cleared (t.procs i)) })
WaitSpec t self no_child t' =
    (t' ≡ t)
    × (((t.procs self).killed ≡ true)
        ⊎ ((j : ℕ) → j < nproc → same_proc (t.procs j).parent self ≡ false))
WaitSpec t self must_sleep t' =
    (t' ≡ t)
    × ((t.procs self).killed ≡ false)
    × ((j : ℕ) × (j < nproc) × IsChild t.procs self j)
    × ((j : ℕ) → j < nproc → IsChild t.procs self j → is (t.procs j).state zombie ≡ false)

module _ (end : ℕ) (freevm : Kmem → ℕ → Outcome Kmem) where
  wait_found-WaitSpec :
      (t : Ptable) (k : Kmem) (self : ℕ) (r : Option ℕ × Bool)
      → Scanned t.procs self false 0 nproc r
      → (res : WaitResult) (t' : Ptable) (k' : Kmem)
      → wait_found end freevm t k self r ≡ ok (res, t', k')
      → WaitSpec t self res t'
  unfolding wait_found
  wait_found-WaitSpec t k self (some i, b) (lt, child, z) res t' k' e =
      let (k1, e1, rest) = bind_inv (kfree end k (t.procs i).kstack) _ e in
      let (k2, e2, last) = bind_inv (freevm k1 (t.procs i).pgdir) _ rest in
      let same_res : reaped (t.procs i).pid ≡ res = cc in
      let same_t : record t { procs = update t.procs i (cleared (t.procs i)) } ≡ t' = cc in
      subst (λ x. WaitSpec t self x t') same_res (i, omega arith, child, z, refl, sym same_t)
  wait_found-WaitSpec t k self (none, true) (any, quiet) res t' k' e =
      elim (Bool-cases (t.procs self).killed) [
        | inl dead ↦
            let same_res : no_child ≡ res = ground arith in
            let same_t : t' ≡ t = ground arith in
            subst (λ x. WaitSpec t self x t') same_res (same_t, inl dead)
        | inr alive ↦
            let same_res : must_sleep ≡ res = ground arith in
            let same_t : t' ≡ t = ground arith in
            subst (λ x. WaitSpec t self x t') same_res
              (same_t, alive, child any, λ j lt c. quiet j (omega arith) (omega arith) c)
      ]
    where
      child :
          (◌≡◌ {A = Bool} false true) ⊎ ((j : ℕ) × (j < 0 + nproc) × IsChild t.procs self j)
          → (j : ℕ) × (j < nproc) × IsChild t.procs self j
      child (inl p) = absurd (cc)
      child (inr (j, lt, c)) = (j, omega arith, c)
  wait_found-WaitSpec t k self (none, false) (no_one, quiet) res t' k' e =
      let same_res : no_child ≡ res = ground arith in
      let same_t : t' ≡ t = ground arith in
      subst (λ x. WaitSpec t self x t') same_res
        (same_t, inr (λ j lt. quiet j (omega arith) (omega arith)))

  -- the page of its stack and its memory can be freed
  abbrev pub Frees : Ptable → Kmem → ℕ → Type 0
  Frees t k i =
      (k1 k2 : Kmem) × (kfree end k (t.procs i).kstack ≡ ok k1)
      × (freevm k1 (t.procs i).pgdir ≡ ok k2)

  wait_found-ok :
      (t : Ptable) (k : Kmem) (self : ℕ) (r : Option ℕ × Bool)
      → Scanned t.procs self false 0 nproc r
      → ((i : ℕ)
          → i < nproc
          → IsChild t.procs self i
          → is (t.procs i).state zombie ≡ true
          → Frees t k i)
      → (res : WaitResult) × (t' : Ptable) × (k' : Kmem) × (wait_found end freevm t k self r
          ≡ ok (res, t', k'))
  unfolding wait_found
  wait_found-ok t k self (some i, b) (lt, child, z) frees =
      let (k1, k2, e1, e2) = frees i (omega arith) child z in
      (
        reaped (t.procs i).pid,
        record t { procs = update t.procs i (cleared (t.procs i)) },
        k2,
        rw (e1, ◌>>=◌) (rw (e2, ◌>>=◌)),
      )
  wait_found-ok t k self (none, b) s frees = elim (Bool-cases (not b || (t.procs self).killed)) [
    | inl e ↦ (no_child, t, k, rw e)
    | inr e ↦ (must_sleep, t, k, rw e)
  ]

  -- A pass of `wait`, where the memory of its zombie children can be freed, ends in one of three ways.
  -- It reaps a zombie child and frees its slot; or it returns -1, when the process has no child or is
  -- killed; or it sleeps, when it has children and none is a zombie. Only the first changes the table.
  pub wait_pass_lem :
      (t : Ptable) (k : Kmem) (self : ℕ)
      → ((i : ℕ)
          → i < nproc
          → IsChild t.procs self i
          → is (t.procs i).state zombie ≡ true
          → Frees t k i)
      → (res : WaitResult) × (t' : Ptable) × (k' : Kmem) × (wait_pass end freevm t k self
          ≡ ok (res, t', k'))
        × WaitSpec t self res t'
  unfolding wait_pass
  wait_pass_lem t k self frees =
      let scan = find_zombie-Scanned t.procs self false 0 nproc in
      let (res, t', k', e) =
        wait_found-ok t k self (find_zombie t.procs self false 0 nproc) scan frees in
      (
        res,
        t',
        k',
        e,
        wait_found-WaitSpec t k self (find_zombie t.procs self false 0 nproc) scan res t' k' e,
      )
