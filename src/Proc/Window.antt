-- ===== src/Proc/Window.antt =====
-- What others do to a process while it swaps itself out in `sleep` without `ptable.lock`.
use os_ass.Base.{
  ℕ, ◌≡◌, ◌≢◌, refl, sym, ap, ◌∙◌, arith, true, false, Bool, ◌&&◌, ◌||◌, not, ◌<◌, ◌==◌,
  if◌then◌else◌, nproc, Bool-cases, inl, inr, ℕ_discrete, ==_refl, ==_ne,
}
use os_ass.Proc.Defs.{Proc, Ptable, sleeping, runnable, Chan, same_chan}
use os_ass.Proc.Sleep.{sleep_start, wakeup1, kill_at}
use os_ass.Proc.Wakeup.{woken, wakeup1_lem, wakeup_loop-inswapper}

-- What others do while the process `self`, asleep on `chan`, writes its pages: the table at first and in the end, whether
-- a `wakeup` on the channel came before any `kill`, and whether there was a `kill`. In between the process does not
-- sleep again, and is not scheduled.
pub data Meanwhile (self : ℕ) (chan : Chan) (t : Ptable) : Bool → Bool → Ptable → Type 0 where
  nothing : Meanwhile self chan t false false t
  wakes :
      {w k : Bool} {u : Ptable} (c : Chan)
      → Meanwhile self chan t w k u
      → Meanwhile self chan t (w || (not k && same_chan chan c)) k (wakeup1 u c)
  kills :
      {w k : Bool} {u : Ptable} (i : ℕ)
      → Meanwhile self chan t w k u
      → Meanwhile self chan t w (k || i == self) (kill_at u i)
  moves :
      {w k : Bool} {u : Ptable} (v : Ptable)
      → v.procs self ≡ u.procs self
      → v.inswapper ≡ u.inswapper
      → Meanwhile self chan t w k u
      → Meanwhile self chan t w k v

-- the slot of the process in that time
pub record Window (self : ℕ) (chan : Chan) (w k : Bool) (inswapper : ℕ) (u : Ptable) : Type 0 where
  pub on : (u.procs self).chan ≡ chan
  pub swapping : (u.procs self).swapping_out ≡ true
  pub remembered : (u.procs self).woken_up ≡ w
  pub state : (u.procs self).state ≡ (if k then runnable else sleeping)
  pub killed : k ≡ true → (u.procs self).killed ≡ true
  pub same : u.inswapper ≡ inswapper

pub start-Window :
    (t : Ptable) (self : ℕ) (chan : Chan)
    → t.swap_flag ≡ true
    → 3 < (t.procs self).pid
    → Window self chan false false t.inswapper (sleep_start t self chan).0
unfolding sleep_start
start-Window t self chan on big = record {
  on = ground arith;
  swapping = ground arith;
  remembered = ground arith;
  state = ground arith;
  killed = λ e. cc;
  same = ground arith;
}

or_false : (w : Bool) → (w || false) ≡ w
or_false true = refl
or_false false = refl

or_true : (w : Bool) → (w || true) ≡ true
or_true true = refl
or_true false = refl

-- a process that swaps itself out, and the mark of a wakeup
woken-slot :
    (p : Proc) (chan c : Chan) (w k : Bool)
    → p.chan ≡ chan
    → p.swapping_out ≡ true
    → p.woken_up ≡ w
    → p.state ≡ (if k then runnable else sleeping)
    → ((woken c p).chan ≡ chan)
      × ((woken c p).swapping_out ≡ true)
      × ((woken c p).woken_up ≡ w || (not k && same_chan chan c))
      × ((woken c p).state ≡ (if k then runnable else sleeping))
      × ((woken c p).killed ≡ p.killed)
woken-slot p chan c w true on swapping remembered state =
    rw state (on, swapping, remembered ∙ sym (or_false w), refl, refl)
woken-slot p chan c w false on swapping remembered state = elim (Bool-cases (same_chan p.chan c)) [
  | inl e ↦
      let here : same_chan chan c ≡ true = ap (λ x. same_chan x c) (sym on) ∙ e in
      rw (state, e, swapping) (on, refl, sym (ap (λ b. w || b) here ∙ or_true w), refl, refl)
  | inr e ↦
      let elsewhere : same_chan chan c ≡ false = ap (λ x. same_chan x c) (sym on) ∙ e in
      rw (state, e)
        (on, swapping, remembered ∙ sym (ap (λ b. w || b) elsewhere ∙ or_false w), refl, refl)
]

wakeup1-inswapper : (u : Ptable) (c : Chan) → (wakeup1 u c).inswapper ≡ u.inswapper
unfolding wakeup1
wakeup1-inswapper u c = wakeup_loop-inswapper u c 0 nproc

wake-Window :
    (self : ℕ) (chan c : Chan) (w k : Bool) (inswapper : ℕ) (u : Ptable)
    → self < nproc
    → self ≢ inswapper
    → Window self chan w k inswapper u
    → Window self chan (w || (not k && same_chan chan c)) k inswapper (wakeup1 u c)
wake-Window self chan c w k inswapper u lt ne h =
    let slot = (wakeup1_lem u c).0 self lt (λ q. ne (q ∙ h.same)) in
    let (on, swapping, remembered, state, killed) =
      woken-slot (u.procs self) chan c w k h.on h.swapping h.remembered h.state in
    record {
      on = ap (λ (p : Proc). p.chan) slot ∙ on;
      swapping = ap (λ (p : Proc). p.swapping_out) slot ∙ swapping;
      remembered = ap (λ (p : Proc). p.woken_up) slot ∙ remembered;
      state = ap (λ (p : Proc). p.state) slot ∙ state;
      killed = λ q. ap (λ (p : Proc). p.killed) slot ∙ killed ∙ h.killed q;
      same = wakeup1-inswapper u c ∙ h.same;
    }

kill_at_self :
    (u : Ptable) (self : ℕ) (k : Bool)
    → self ≢ u.inswapper
    → (u.procs self).state ≡ (if k then runnable else sleeping)
    → (kill_at u self).procs self ≡ record (u.procs self) { killed = true; state = runnable }
unfolding kill_at
kill_at_self u self true ne state = ground arith
kill_at_self u self false ne state = ground arith

kill_at_other :
    (u : Ptable) (self i : ℕ)
    → self ≢ u.inswapper
    → i ≢ self
    → (kill_at u i).procs self ≡ u.procs self
unfolding kill_at
kill_at_other u self i ne away = ground arith

kill_at-inswapper : (u : Ptable) (i : ℕ) → (kill_at u i).inswapper ≡ u.inswapper
unfolding kill_at
kill_at-inswapper u i = ground arith

kill-Window :
    (self : ℕ) (chan : Chan) (i : ℕ) (w k : Bool) (inswapper : ℕ) (u : Ptable)
    → self ≢ inswapper
    → Window self chan w k inswapper u
    → Window self chan w (k || i == self) inswapper (kill_at u i)
kill-Window self chan i w k inswapper u ne h = elim (ℕ_discrete i self) [
  | yes same ↦
      let slot =
        ap (λ j. (kill_at u j).procs self) same
        ∙ kill_at_self u self k (λ q. ne (q ∙ h.same)) h.state in
      let hit : (k || i == self) ≡ true = rw (same, ==_refl self) (or_true k) in
      rw hit (record {
        on = ap (λ (p : Proc). p.chan) slot ∙ h.on;
        swapping = ap (λ (p : Proc). p.swapping_out) slot ∙ h.swapping;
        remembered = ap (λ (p : Proc). p.woken_up) slot ∙ h.remembered;
        state = ap (λ (p : Proc). p.state) slot;
        killed = λ _. ap (λ (p : Proc). p.killed) slot;
        same = kill_at-inswapper u i ∙ h.same;
      })
  | no away ↦
      let slot = kill_at_other u self i (λ q. ne (q ∙ h.same)) away in
      let missed : (k || i == self) ≡ k = rw (==_ne i self away) (or_false k) in
      rw missed (record {
        on = ap (λ (p : Proc). p.chan) slot ∙ h.on;
        swapping = ap (λ (p : Proc). p.swapping_out) slot ∙ h.swapping;
        remembered = ap (λ (p : Proc). p.woken_up) slot ∙ h.remembered;
        state = ap (λ (p : Proc). p.state) slot ∙ h.state;
        killed = λ q. ap (λ (p : Proc). p.killed) slot ∙ h.killed q;
        same = kill_at-inswapper u i ∙ h.same;
      })
]

pub Meanwhile-Window :
    {self inswapper : ℕ} {chan : Chan} {t u : Ptable} {w k : Bool}
    → self < nproc
    → self ≢ inswapper
    → Window self chan false false inswapper t
    → Meanwhile self chan t w k u
    → Window self chan w k inswapper u
Meanwhile-Window lt ne h nothing = h
Meanwhile-Window {self} {inswapper} {chan} lt ne h (wakes {w = w} {k = k} {u = u} c m) =
    wake-Window self chan c w k inswapper u lt ne (Meanwhile-Window lt ne h m)
Meanwhile-Window {self} {inswapper} {chan} lt ne h (kills {w = w} {k = k} {u = u} i m) =
    kill-Window self chan i w k inswapper u ne (Meanwhile-Window lt ne h m)
Meanwhile-Window {self} {inswapper} {chan} lt ne h (moves {u = u} v e s m) =
    let d = Meanwhile-Window lt ne h m in
    record {
      on = ap (λ (p : Proc). p.chan) e ∙ d.on;
      swapping = ap (λ (p : Proc). p.swapping_out) e ∙ d.swapping;
      remembered = ap (λ (p : Proc). p.woken_up) e ∙ d.remembered;
      state = ap (λ (p : Proc). p.state) e ∙ d.state;
      killed = λ q. ap (λ (p : Proc). p.killed) e ∙ d.killed q;
      same = s ∙ d.same;
    }
