-- ===== src/Proc/Wakeup.antt =====
-- What `wakeup1` and `kill` do to each process.
use os_ass.Base.{
  ℕ, zero, suc, ◌+◌, ◌≤◌, ◌<◌, ◌≡◌, ◌≢◌, refl, arith, leb, ltb, ◌==◌, if◌then◌else◌, ◌&&◌, true,
  nproc, subst, sym, ◌∙◌, ap, false, Bool-cases, Bool, inl, inr,
}
use os_ass.Proc.Defs.{
  Proc, Ptable, sleeping, runnable, sleeping_suspended, runnable_suspended, is, Chan, same_chan,
}
use os_ass.Proc.Sleep.{wake_one, wakeup_loop, wakeup1}

-- A sleeper on the channel becomes runnable, or is told so while it swaps itself out; one that is
-- swapped out becomes ready to be swapped in.
abbrev pub woken : Chan → Proc → Proc
woken chan p =
    if is p.state sleeping && same_chan p.chan chan
    then if p.swapping_out then record p { woken_up = true } else record p { state = runnable }
    else if is p.state sleeping_suspended && same_chan p.chan chan
    then record p { state = runnable_suspended }
    else p

pub wake_one-procs :
    (t : Ptable) (chan : Chan) (i j : ℕ)
    → j ≢ t.inswapper
    → (wake_one t chan i).procs j ≡ (if i == j then woken chan (t.procs j) else t.procs j)
unfolding wake_one
wake_one-procs t chan i j ne = ground arith

-- `wakeup1` changes the table and the counter only.
pub wake_one-rest :
    (t : Ptable) (chan : Chan) (i : ℕ)
    → ((wake_one t chan i).inswapper ≡ t.inswapper)
      × ((wake_one t chan i).initproc ≡ t.initproc)
      × ((wake_one t chan i).nextpid ≡ t.nextpid)
      × ((wake_one t chan i).held ≡ t.held)
unfolding wake_one
wake_one-rest t chan i = ground arith

pub wakeup_loop-inswapper :
    (t : Ptable) (chan : Chan) (i k : ℕ) → (wakeup_loop t chan i k).inswapper ≡ t.inswapper
unfolding wakeup_loop
wakeup_loop-inswapper t chan i zero = refl
wakeup_loop-inswapper t chan i (suc k) =
    wakeup_loop-inswapper (wake_one t chan i) chan (i + 1) k ∙ (wake_one-rest t chan i).0

pub wakeup_loop-procs :
    (t : Ptable) (chan : Chan) (i k j : ℕ)
    → j ≢ t.inswapper
    → (wakeup_loop t chan i k).procs j
      ≡ (if leb i j && ltb j (i + k) then woken chan (t.procs j) else t.procs j)
unfolding wakeup_loop
wakeup_loop-procs t chan i zero j ne = ground arith
wakeup_loop-procs t chan i (suc k) j ne = ground (
  arith,
  wakeup_loop-procs (wake_one t chan i) chan (i + 1) k j,
  wake_one-rest t chan i,
  wake_one-procs t chan i j,
)

inswapper_stays :
    (t : Ptable) (chan : Chan) (i k : ℕ)
    → (t.procs t.inswapper).state ≡ runnable
    → ((wakeup_loop t chan i k).procs t.inswapper).state ≡ runnable
unfolding wakeup_loop wake_one
inswapper_stays t chan i zero e = e
inswapper_stays t chan i (suc k) e =
    ground (arith, inswapper_stays (wake_one t chan i) chan (i + 1) k, wake_one-rest t chan i)

-- swapped out, and asleep on the channel
abbrev pub suspended_on : Chan → Proc → Bool
suspended_on chan p = is p.state sleeping_suspended && same_chan p.chan chan

-- a round for a process that is not swapped out changes its slot only
wake_one-quiet :
    (t : Ptable) (chan : Chan) (i j : ℕ)
    → suspended_on chan (t.procs i) ≡ false
    → (wake_one t chan i).procs j ≡ (if i == j then woken chan (t.procs j) else t.procs j)
unfolding wake_one
wake_one-quiet t chan i j quiet = ground arith

wakeup_loop-quiet :
    (t : Ptable) (chan : Chan) (i k j : ℕ)
    → ((m : ℕ) → i ≤ m → m < i + k → suspended_on chan (t.procs m) ≡ false)
    → (wakeup_loop t chan i k).procs j
      ≡ (if leb i j && ltb j (i + k) then woken chan (t.procs j) else t.procs j)
unfolding wakeup_loop
wakeup_loop-quiet t chan i zero j quiet = ground arith
wakeup_loop-quiet t chan i (suc k) j quiet =
    let here = quiet i (omega arith) (omega arith) in
    let rest = wakeup_loop-quiet (wake_one t chan i) chan (i + 1) k j (λ m lo hi.
      let same : (wake_one t chan i).procs m ≡ t.procs m =
        ground (arith, wake_one-quiet t chan i m here) in
      ap (suspended_on chan) same ∙ quiet m (omega arith) (omega arith)) in
    ground (arith, rest, wake_one-quiet t chan i j here)

wake_one-inswapper :
    (t : Ptable) (chan : Chan) (i : ℕ)
    → suspended_on chan (t.procs i) ≡ true
    → ((wake_one t chan i).procs t.inswapper).state ≡ runnable
unfolding wake_one
wake_one-inswapper t chan i e = ground arith

inswapper_woken :
    (t : Ptable) (chan : Chan) (i k j : ℕ)
    → i ≤ j
    → j < i + k
    → suspended_on chan (t.procs j) ≡ true
    → ((wakeup_loop t chan i k).procs t.inswapper).state ≡ runnable
unfolding wakeup_loop
inswapper_woken t chan i zero j lo hi e = absurd (omega arith)
inswapper_woken t chan i (suc k) j lo hi e =
    let t1 : Ptable = wake_one t chan i in
    let same : t1.inswapper ≡ t.inswapper = (wake_one-rest t chan i).0 in
    let goal : ((wakeup_loop t1 chan (i + 1) k).procs t1.inswapper).state ≡ runnable =
      elim (Bool-cases (suspended_on chan (t.procs i))) [
        | inl here ↦ inswapper_stays t1 chan (i + 1) k (
            subst (λ s. (t1.procs s).state ≡ runnable) (sym same)
              (wake_one-inswapper t chan i here))
        | inr quiet ↦
            let further : i ≢ j =
              λ q. cc (sym e ∙ ap (λ m. suspended_on chan (t.procs m)) (sym q) ∙ quiet) in
            let kept : t1.procs j ≡ t.procs j =
              ground (arith, wake_one-quiet t chan i j quiet, further) in
            inswapper_woken t1 chan (i + 1) k j (omega (arith, further)) (omega arith)
              (ap (suspended_on chan) kept ∙ e)
      ] in
    subst (λ s. ((wakeup_loop t1 chan (i + 1) k).procs s).state ≡ runnable) same goal

-- `wakeup1` wakes every process of the table but the inswapper that sleeps on the channel, swapped out or not, and
-- leaves each other process alone. If one of those that sleep on the channel, the inswapper with them, is
-- swapped out, the inswapper becomes runnable; otherwise the inswapper too is woken if it sleeps on the
-- channel, and left alone if not.
pub wakeup1_lem :
    (t : Ptable) (chan : Chan)
    → ((j : ℕ) → j < nproc → j ≢ t.inswapper → (wakeup1 t chan).procs j ≡ woken chan (t.procs j))
      × ((j : ℕ)
          → j < nproc
          → suspended_on chan (t.procs j) ≡ true
          → ((wakeup1 t chan).procs t.inswapper).state ≡ runnable)
      × (((j : ℕ) → j < nproc → suspended_on chan (t.procs j) ≡ false)
          → t.inswapper < nproc
          → (wakeup1 t chan).procs t.inswapper ≡ woken chan (t.procs t.inswapper))
unfolding wakeup1
wakeup1_lem t chan = (
  λ j lt ne. ground (arith, wakeup_loop-procs t chan 0 nproc j ne),
  λ j lt e. inswapper_woken t chan 0 nproc j (omega arith) (omega arith) e,
  λ quiet lt.
      ground
        (arith, wakeup_loop-quiet t chan 0 nproc t.inswapper (λ m lo hi. quiet m (omega arith))),
)
