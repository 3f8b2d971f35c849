-- ===== src/Proc/Counter.antt =====
-- `swappedout`, "counter for the number of procs in the RUNNABLE_SUSPENDED state".
use os_ass.Base.{
  ℕ, zero, suc, ◌+◌, ◌≤◌, ◌<◌, ◌≡◌, ◌≢◌, refl, arith, update, nproc, false, if◌then◌else◌, true,
  Bool-cases, ◌&&◌, inl, inr, ℕ_discrete,
}
use os_ass.Proc.Defs.{
  Proc, Ptable, sleeping, runnable, sleeping_suspended, runnable_suspended, is, Chan, same_chan,
}
use os_ass.Proc.Sleep.{wake_one, wakeup_loop, wakeup1, sleep_swapped, wake_suspended}

abbrev pub weight : Proc → ℕ
weight p = if is p.state runnable_suspended then 1 else 0

-- the number of processes that wait to be swapped in, in the first `n` slots
unfoldable pub waiting : (ℕ → Proc) → ℕ → ℕ
waiting procs zero = 0
waiting procs (suc n) = waiting procs n + weight (procs n)

waiting_beyond :
    (n : ℕ) (i : ℕ) (procs : ℕ → Proc) (new : Proc)
    → n ≤ i
    → waiting procs n ≡ waiting (update procs i new) n
unfolding waiting
waiting_beyond zero i procs new le = refl
waiting_beyond (suc n) i procs new le = ground (arith, waiting_beyond n i procs new)

-- a new process in slot `i` changes the number by the difference of the two weights
pub waiting-update :
    (procs : ℕ → Proc) (n i : ℕ) (new : Proc)
    → i < n
    → waiting procs n + weight new ≡ waiting (update procs i new) n + weight (procs i)
unfolding waiting
waiting-update procs zero i new lt = absurd (omega arith)
waiting-update procs (suc n) i new lt = elim (ℕ_discrete i n) [
  | yes top ↦ ground (arith, waiting_beyond n i procs new)
  | no lower ↦ ground (arith, waiting-update procs n i new (omega arith))
]

pub waiting-le : (procs : ℕ → Proc) (n : ℕ) → waiting procs n ≤ n
unfolding waiting
waiting-le procs zero = omega arith
waiting-le procs (suc n) = ground (arith, waiting-le procs n)

-- The counter is right, and the inswapper itself is never swapped out.
pub record IsCounted (t : Ptable) : Type 0 where
  pub counter : t.swappedout ≡ waiting t.procs nproc
  pub in_table : t.inswapper < nproc
  pub present : is (t.procs t.inswapper).state sleeping_suspended ≡ false
  pub resident : weight (t.procs t.inswapper) ≡ 0

-- the shared lines of `wakeup1` and `kill`
wake_suspended-IsCounted :
    (t : Ptable) (i : ℕ)
    → i < nproc
    → (t.procs i).state ≡ sleeping_suspended
    → IsCounted t
    → IsCounted (wake_suspended t i)
wake_suspended-IsCounted t i lt e c =
    let p : Proc = record (t.procs i) { state = runnable_suspended } in
    let procs1 : ℕ → Proc = update t.procs i p in
    let q : Proc = record (procs1 t.inswapper) { state = runnable } in
    let apart : i ≢ t.inswapper = ground (arith, c.present) in
    let one = waiting-update t.procs nproc i p lt in
    let two = waiting-update procs1 nproc t.inswapper q c.in_table in
    let all = waiting-le (update procs1 t.inswapper q) nproc in
    record {
      counter = ground (arith, one, two, all, c.counter, c.resident);
      in_table = c.in_table;
      present = ground arith;
      resident = ground arith;
    }

wake_one-IsCounted :
    (t : Ptable) (chan : Chan) (i : ℕ) → i < nproc → IsCounted t → IsCounted (wake_one t chan i)
unfolding wake_one
wake_one-IsCounted t chan i lt c =
    elim (Bool-cases (is (t.procs i).state sleeping_suspended && same_chan (t.procs i).chan chan)) [
      | inl hit ↦
          let e : (t.procs i).state ≡ sleeping_suspended = ground arith in
          let awake : (is (t.procs i).state sleeping && same_chan (t.procs i).chan chan) ≡ false =
            ground arith in
          rw (awake, hit) (wake_suspended-IsCounted t i lt e c)
      | inr miss ↦
          elim (Bool-cases (is (t.procs i).state sleeping && same_chan (t.procs i).chan chan)) [
            | inr other ↦ rw (other, miss) c
            | inl hit ↦
                let p : Proc = record (t.procs i) { woken_up = true } in
                let q : Proc = record (t.procs i) { state = runnable } in
                let one = waiting-update t.procs nproc i p lt in
                let two = waiting-update t.procs nproc i q lt in
                rw hit (record {
                  counter = ground (arith, one, two, c.counter);
                  in_table = ground (arith, c.in_table);
                  present = ground (arith, c.present);
                  resident = ground (arith, c.resident);
                })
          ]
    ]

wakeup_loop-IsCounted :
    (t : Ptable) (chan : Chan) (i k : ℕ)
    → i + k ≤ nproc
    → IsCounted t
    → IsCounted (wakeup_loop t chan i k)
unfolding wakeup_loop
wakeup_loop-IsCounted t chan i zero h c = c
wakeup_loop-IsCounted t chan i (suc k) h c =
    wakeup_loop-IsCounted (wake_one t chan i) chan (i + 1) k (omega arith)
      (wake_one-IsCounted t chan i (omega arith) c)

-- `wakeup1` keeps the counter right.
wakeup1-IsCounted : (t : Ptable) (chan : Chan) → IsCounted t → IsCounted (wakeup1 t chan)
unfolding wakeup1
wakeup1-IsCounted t chan c = wakeup_loop-IsCounted t chan 0 nproc (omega arith) c

-- A process that is woken while it swaps itself out waits to be swapped in, uncounted: from a right
-- counter, `sleep` leaves one that is too small by one.
sleep_swapped-uncounted :
    (t : Ptable) (self : ℕ)
    → IsCounted t
    → self < nproc
    → self ≢ t.inswapper
    → weight (t.procs self) ≡ 0
    → (t.procs self).woken_up ≡ true
    → let t' = sleep_swapped t self in waiting t'.procs nproc ≡ t'.swappedout + 1
unfolding sleep_swapped
sleep_swapped-uncounted t self c lt ne w e =
    let p : Proc = record (t.procs self) {
      swapping_out = false;
      woken_up = false;
      state = runnable_suspended;
    } in
    let procs1 : ℕ → Proc = update t.procs self p in
    let one = waiting-update t.procs nproc self p lt in
    let two =
      waiting-update procs1 nproc t.inswapper (record (procs1 t.inswapper) { state = runnable })
        c.in_table in
    rw e (ground (arith, one, two, c.counter, c.resident))
