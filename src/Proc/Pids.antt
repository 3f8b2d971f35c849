-- ===== src/Proc/Pids.antt =====
-- Processes in use have distinct pids: the operations on the table as steps in any order.
use os_ass.Base.{
  ℕ, ◌+◌, ◌<◌, ◌≡◌, ◌≢◌, refl, arith, update, nproc, Option, none, some, sym, Option-cases, false,
  true, ◌∙◌, inl, inr, subst,
}
use os_ass.Proc.Defs.{Ptable, unused, embryo, runnable, is, Chan, set_state, find}
use os_ass.Proc.Scan.{find-some, find-none}
use os_ass.Proc.Alloc.{claim, set_up}
use os_ass.Proc.Sleep.{
  wakeup1, kill_at, schedule_at, sleep_start, sleep_swapped, sleep_end, swapped_in,
  inswapper_sleeps,
}
use os_ass.Proc.Wait.{exit_locked, cleared}
use os_ass.Proc.Exit.{SwapperLive, wakeup1-Keeps, exit_locked_lem}

abbrev pub InUse : Ptable → ℕ → Type 0
InUse t j = is (t.procs j).state unused ≡ false

-- `claim` takes the first unused slot, with a fresh pid, and changes no other slot.
pub claim_lem :
    (t : Ptable) (i : ℕ) (t' : Ptable)
    → claim t ≡ some (i, t')
    → (i < nproc)
      × (is (t.procs i).state unused ≡ true)
      × ((j : ℕ) → j < i → InUse t j)
      × (t' ≡ record t {
        procs = update t.procs i (record (t.procs i) { state = embryo; pid = t.nextpid });
        nextpid = t.nextpid + 1;
      })
unfolding claim
claim_lem t i t' e = go (find (λ p. is p.state unused) t.procs 0 nproc) refl e
  where
    go :
        (r : Option ℕ)
        → find (λ p. is p.state unused) t.procs 0 nproc ≡ r
        → elim r as (λ x. Option (ℕ × Ptable)) [
          | none ↦ none
          | some s ↦ some (
            s,
            record t {
              procs = update t.procs s (record (t.procs s) { state = embryo; pid = t.nextpid });
              nextpid = t.nextpid + 1;
            },
          )
        ]
          ≡ some (i, t')
        → (i < nproc)
          × (is (t.procs i).state unused ≡ true)
          × ((j : ℕ) → j < i → InUse t j)
          × (t' ≡ record t {
            procs = update t.procs i (record (t.procs i) { state = embryo; pid = t.nextpid });
            nextpid = t.nextpid + 1;
          })
    go none q e = cc
    go (some s) q e =
        let (lo, hi, hit, before) = find-some (λ p. is p.state unused) t.procs 0 nproc q in
        let same : s ≡ i = cc in
        (
          omega (arith, same, hi),
          rw same at hit,
          λ j lt. before j (omega arith) (omega (arith, same)),
          cc same,
        )

-- `claim` gives up only when no slot is unused.
pub claim-none : (t : Ptable) → claim t ≡ none → (j : ℕ) → j < nproc → InUse t j
unfolding claim
claim-none t e j lt = elim (Option-cases (find (λ p. is p.state unused) t.procs 0 nproc)) [
  | inl q ↦ find-none (λ p. is p.state unused) t.procs 0 nproc q j (omega arith) (omega arith)
  | inr (s, q) ↦ ground arith
]

pub record IsTable (t : Ptable) : Type 0 where
  pub bounded : (j : ℕ) → j < nproc → InUse t j → (t.procs j).pid < t.nextpid
  pub distinct :
      (i j : ℕ)
      → i < nproc
      → j < nproc
      → InUse t i
      → InUse t j
      → (t.procs i).pid ≡ (t.procs j).pid
      → i ≡ j

-- Steps that give out no pid.
same_pids :
    (t t' : Ptable)
    → ((j : ℕ) → (t'.procs j).pid ≡ (t.procs j).pid)
    → ((j : ℕ) → InUse t' j → InUse t j)
    → t'.nextpid ≡ t.nextpid
    → IsTable t
    → IsTable t'
same_pids t t' pid used next v = record {
  bounded = λ j lt u. omega (arith, pid j, next, v.bounded j lt (used j u));
  distinct =
      λ i j hi hj ui uj e. v.distinct i j hi hj (used i ui) (used j uj) (sym (pid i) ∙ e ∙ pid j);
}

claim-IsTable : (t : Ptable) (i : ℕ) (t' : Ptable) → claim t ≡ some (i, t') → IsTable t → IsTable t'
claim-IsTable t i t' e v =
    let (lt, free, before, same) = claim_lem t i t' e in
    subst IsTable (sym same) (record {
      bounded = λ j h u. ground (arith, v.bounded j h);
      distinct =
          λ a b ha hb ua ub p. ground (arith, v.bounded a ha, v.bounded b hb, v.distinct a b ha hb);
    })

-- A step of the table: one stretch under `ptable.lock`, of any process, or of the inswapper.
pub data Step (t : Ptable) : Ptable → Type 0 where
  allocates : (i : ℕ) {t' : Ptable} → claim t ≡ some (i, t') → Step t t'
  sets_up : (i kstack : ℕ) → InUse t i → Step t (set_up t i kstack).1
  wakes : (chan : Chan) → SwapperLive t → Step t (wakeup1 t chan)
  kills : (i : ℕ) → SwapperLive t → InUse t i → Step t (kill_at t i)
  runs : (i : ℕ) {t' : Ptable} → schedule_at t i ≡ some t' → Step t t'
  yields : (i : ℕ) → InUse t i → Step t (set_state t i runnable)
  sleeps : (i : ℕ) (chan : Chan) → InUse t i → Step t (sleep_start t i chan).0
  swaps : (i : ℕ) → SwapperLive t → InUse t i → Step t (sleep_swapped t i)
  wakes_up : (i : ℕ) → Step t (sleep_end t i)
  swapped_back : (i : ℕ) → InUse t i → Step t (swapped_in t i)
  idles : (i : ℕ) → InUse t i → Step t (inswapper_sleeps t i)
  exits : (i : ℕ) → SwapperLive t → i ≢ t.initproc → InUse t i → Step t (exit_locked t i)
  reaps : (i : ℕ) → Step t (record t { procs = update t.procs i (cleared (t.procs i)) })

Step-IsTable : {t t' : Ptable} → Step t t' → IsTable t → IsTable t'
unfolding set_up kill_at schedule_at sleep_start sleep_swapped sleep_end swapped_in inswapper_sleeps
Step-IsTable {t} {t'} (allocates i e) v = claim-IsTable t i t' e v
Step-IsTable {t} (sets_up i kstack u) v =
    same_pids t (set_up t i kstack).1 (λ j. ground arith) (λ j h. ground arith) (ground arith) v
Step-IsTable {t} (wakes chan live) v =
    let k = wakeup1-Keeps t chan live in
    same_pids t (wakeup1 t chan) k.pid (λ j h. sym (k.used j) ∙ h) k.nextpid v
Step-IsTable {t} (kills i live u) v =
    same_pids t (kill_at t i) (λ j. ground arith) (λ j h. ground arith) (ground arith) v
Step-IsTable {t} {t'} (runs i e) v =
    same_pids t t' (λ j. ground arith) (λ j h. ground arith) (ground arith) v
Step-IsTable {t} (yields i u) v =
    same_pids t (set_state t i runnable) (λ j. ground arith) (λ j h. ground arith) refl v
Step-IsTable {t} (sleeps i chan u) v =
    same_pids t (sleep_start t i chan).0 (λ j. ground arith) (λ j h. ground arith) (ground arith) v
Step-IsTable {t} (swaps i live u) v =
    same_pids t (sleep_swapped t i) (λ j. ground arith) (λ j h. ground arith) (ground arith) v
Step-IsTable {t} (wakes_up i) v =
    same_pids t (sleep_end t i) (λ j. ground arith) (λ j h. ground arith) refl v
Step-IsTable {t} (swapped_back i u) v =
    same_pids t (swapped_in t i) (λ j. ground arith) (λ j h. ground arith) refl v
Step-IsTable {t} (idles i u) v =
    same_pids t (inswapper_sleeps t i) (λ j. ground arith) (λ j h. ground arith) refl v
Step-IsTable {t} (exits i live other u) v =
    let (z, parents, pids, used, next) = exit_locked_lem t i live other u in
    same_pids t (exit_locked t i) pids (λ j h. sym (used j) ∙ h) next v
Step-IsTable {t} (reaps i) v = record {
  bounded = λ j lt u. ground (arith, v.bounded j lt);
  distinct = λ a b ha hb ua ub p. ground (arith, v.distinct a b ha hb);
}

-- `ptable` is zero at first: every slot is unused.
pub data Reach (t0 : Ptable) : Ptable → Type 0 where
  here : Reach t0 t0
  later : {t t' : Ptable} → Reach t0 t → Step t t' → Reach t0 t'

-- From a table with no process in use, whatever steps are made in whatever order, two processes in
-- use never have the same pid, and every pid in use is below `nextpid`.
pub Reach-IsTable :
    {t0 t : Ptable} → ((j : ℕ) → is (t0.procs j).state unused ≡ true) → Reach t0 t → IsTable t
Reach-IsTable {t0} empty here = record {
  bounded = λ j lt u. ground (arith, empty j);
  distinct = λ i j hi hj ui uj e. ground (arith, empty i);
}
Reach-IsTable empty (later r st) = Step-IsTable st (Reach-IsTable empty r)
