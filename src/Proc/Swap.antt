-- ===== src/Proc/Swap.antt =====
-- A process that swaps itself out in `sleep` gives up `ptable.lock` meanwhile: what a `wakeup` or a `kill` in that
-- time comes to, and a `sleep` of its own in `swapOut`.
use os_ass.Base.{ℕ, ◌≡◌, ◌≢◌, refl, sym, ap, ◌∙◌, arith, true, false, Bool, ◌<◌, nproc}
use os_ass.Proc.Defs.{
  Proc, ProcState, Ptable, runnable, sleeping_suspended, runnable_suspended, Chan, null, object,
  same_chan, proc_chan,
}
use os_ass.Proc.Sleep.{sleep_start, sleep_swapped, sleep_end, wakeup1}
use os_ass.Proc.Wakeup.{woken, wakeup1_lem}
use os_ass.Proc.Window.{Meanwhile, Window, start-Window, Meanwhile-Window}

sleep_swapped-remembered :
    (u : Ptable) (self : ℕ)
    → self ≢ u.inswapper
    → (u.procs self).woken_up ≡ true
    → (((sleep_swapped u self).procs self).state ≡ runnable_suspended)
      × (((sleep_swapped u self).procs self).woken_up ≡ false)
      × (((sleep_swapped u self).procs u.inswapper).state ≡ runnable)
unfolding sleep_swapped
sleep_swapped-remembered u self ne e = ground arith

sleep_swapped-alone :
    (u : Ptable) (self : ℕ)
    → (u.procs self).woken_up ≡ false
    → (((sleep_swapped u self).procs self).state ≡ sleeping_suspended)
      × (((sleep_swapped u self).procs self).chan ≡ (u.procs self).chan)
      × (((sleep_swapped u self).procs self).killed ≡ (u.procs self).killed)
unfolding sleep_swapped
sleep_swapped-alone u self e = ground arith

module _ (t : Ptable) (self : ℕ) (chan : Chan) (lt : self < nproc) (ne : self ≢ t.inswapper)
    (on : t.swap_flag ≡ true) (big : 3 < (t.procs self).pid) where
  window :
      {w k : Bool} {u : Ptable}
      → Meanwhile self chan (sleep_start t self chan).0 w k u
      → Window self chan w k t.inswapper u
  window m = Meanwhile-Window lt ne (start-Window t self chan on big) m

-- Wakeups of any channel, kills of any process and other steps that leave the slot of the process alone come in any
-- order while a process swaps itself out in `sleep`, and it neither sleeps again in `swapOut` nor is scheduled. A
-- wakeup on its channel before any `kill` of it is not lost: in the end the process is ready to be
-- swapped in, with the mark of the wakeup cleared, and the inswapper is runnable.
pub wakeup_during_swap :
    (t : Ptable) (self : ℕ) (chan : Chan) (k : Bool) (u : Ptable)
    → self < nproc
    → self ≢ t.inswapper
    → t.swap_flag ≡ true
    → 3 < (t.procs self).pid
    → Meanwhile self chan (sleep_start t self chan).0 true k u
    → let t2 = sleep_swapped u self in
      ((t2.procs self).state ≡ runnable_suspended)
      × ((t2.procs self).woken_up ≡ false)
      × ((t2.procs t.inswapper).state ≡ runnable)
wakeup_during_swap t self chan k u lt ne on big m =
    let h = window t self chan lt ne on big m in
    let (state, cleared, inswapper) =
      sleep_swapped-remembered u self (λ q. ne (q ∙ h.same)) h.remembered in
    (state, cleared, ap (λ i. ((sleep_swapped u self).procs i).state) (sym h.same) ∙ inswapper)

-- Under the same conditions, a `kill` of the process that no wakeup on its channel came before is lost: the
-- process ends asleep and swapped out, with `killed` set.
pub kill_during_swap :
    (t : Ptable) (self : ℕ) (chan : Chan) (u : Ptable)
    → self < nproc
    → self ≢ t.inswapper
    → t.swap_flag ≡ true
    → 3 < (t.procs self).pid
    → Meanwhile self chan (sleep_start t self chan).0 false true u
    → let t2 = sleep_swapped u self in
      ((t2.procs self).killed ≡ true)
      × ((t2.procs self).state ≡ sleeping_suspended)
      × ((t2.procs self).chan ≡ chan)
kill_during_swap t self chan u lt ne on big m =
    let h = window t self chan lt ne on big m in
    let (state, channel, killed) = sleep_swapped-alone u self h.remembered in
    (killed ∙ h.killed refl, state, channel ∙ h.on)

sleep_swapped-unmarked :
    (u : Ptable) (self : ℕ)
    → self ≢ u.inswapper
    → ((sleep_swapped u self).procs self).woken_up ≡ false
unfolding sleep_swapped
sleep_swapped-unmarked u self ne = ground arith

sleep_end-slot :
    (v : Ptable) (self : ℕ) → (sleep_end v self).procs self ≡ record (v.procs self) { chan = null }
unfolding sleep_end
sleep_end-slot v self = ground arith

other_channel : (c : Chan) → c ≢ null → same_chan null c ≡ false
other_channel null ne = absurd (ne refl)
other_channel (proc_chan i) ne = refl
other_channel (object a) ne = refl

-- a process swapped out on no channel
woken-alone :
    (p : Proc) (c : Chan) → p.state ≡ sleeping_suspended → p.chan ≡ null → c ≢ null → woken c p ≡ p
woken-alone p c state on ne =
    let apart : same_chan p.chan c ≡ false = ap (λ x. same_chan x c) on ∙ other_channel c ne in
    rw (state, apart) refl

-- If a process swaps itself out in `sleep` and sleeps once more in `swapOut`, swapped out again, then the outer `sleep`
-- leaves it asleep and swapped out on the null channel, whatever was woken meanwhile: no `wakeup` of another channel
-- changes it. `u` is the table after the inner `swapOut`, and `v`, where its slot has got some state, the one in
-- which the inner `sleep` goes on.
nested_sleep-lost :
    (u v : Ptable) (self : ℕ) (s : ProcState)
    → self < nproc
    → self ≢ u.inswapper
    → self ≢ (sleep_swapped (sleep_end v self) self).inswapper
    → v.procs self ≡ record ((sleep_swapped u self).procs self) { state = s }
    → let t2 = sleep_swapped (sleep_end v self) self in
      ((t2.procs self).state ≡ sleeping_suspended)
      × ((t2.procs self).chan ≡ null)
      × ((c : Chan) → c ≢ null → (wakeup1 t2 c).procs self ≡ t2.procs self)
nested_sleep-lost u v self s lt ne ne2 slot =
    let outer = sleep_end v self in
    let ended = sleep_end-slot v self in
    let unmarked : (outer.procs self).woken_up ≡ false =
      ap (λ (p : Proc). p.woken_up) ended
      ∙ ap (λ (p : Proc). p.woken_up) slot
      ∙ sleep_swapped-unmarked u self ne in
    let (state, on, killed) = sleep_swapped-alone outer self unmarked in
    let channel = on ∙ ap (λ (p : Proc). p.chan) ended in
    let t2 = sleep_swapped outer self in
    (
      state,
      channel,
      λ c other.
          (wakeup1_lem t2 c).0 self lt ne2 ∙ woken-alone (t2.procs self) c state channel other,
    )
