-- ===== src/Proc/Exit.antt =====
-- `exit` hands its children to init; what waking leaves alone.
use os_ass.Base.{
  ℕ, zero, suc, ◌+◌, ◌<◌, ◌≡◌, ◌≢◌, refl, arith, update, nproc, false, ◌∙◌, Option, none, some,
  if◌then◌else◌, subst, ◌==◌, sym, leb, ◌&&◌, ltb,
}
use os_ass.Proc.Defs.{Ptable, unused, zombie, is, Chan, proc_chan, chan_of, same_proc}
use os_ass.Proc.Sleep.{wake_one, wakeup_loop, wakeup1}
use os_ass.Proc.Wait.{abandon_one, abandon_loop, exit_locked}

-- No slot changes hands: pids, parents and what is in use stay the same.
pub record Keeps (t t' : Ptable) : Type 0 where
  pub pid : (j : ℕ) → (t'.procs j).pid ≡ (t.procs j).pid
  pub parent : (j : ℕ) → (t'.procs j).parent ≡ (t.procs j).parent
  pub used : (j : ℕ) → is (t'.procs j).state unused ≡ is (t.procs j).state unused
  pub nextpid : t'.nextpid ≡ t.nextpid
  pub initproc : t'.initproc ≡ t.initproc
  pub inswapper : t'.inswapper ≡ t.inswapper

-- the slot of the inswapper is in use
abbrev pub SwapperLive : Ptable → Type 0
SwapperLive t = is (t.procs t.inswapper).state unused ≡ false

Keeps-trans : {t u w : Ptable} → Keeps t u → Keeps u w → Keeps t w
Keeps-trans a b = record {
  pid = λ j. b.pid j ∙ a.pid j;
  parent = λ j. b.parent j ∙ a.parent j;
  used = λ j. b.used j ∙ a.used j;
  nextpid = b.nextpid ∙ a.nextpid;
  initproc = b.initproc ∙ a.initproc;
  inswapper = b.inswapper ∙ a.inswapper;
}

Keeps-SwapperLive : {t u : Ptable} → Keeps t u → SwapperLive t → SwapperLive u
Keeps-SwapperLive {t} {u} k live =
    subst (λ s. is (u.procs s).state unused ≡ false) (sym k.inswapper) (k.used t.inswapper ∙ live)

wake_one-Keeps : (t : Ptable) (chan : Chan) (i : ℕ) → SwapperLive t → Keeps t (wake_one t chan i)
unfolding wake_one
wake_one-Keeps t chan i live = record {
  pid = λ j. ground arith;
  parent = λ j. ground arith;
  used = λ j. ground arith;
  nextpid = ground arith;
  initproc = ground arith;
  inswapper = ground arith;
}

wakeup_loop-Keeps :
    (t : Ptable) (chan : Chan) (i k : ℕ) → SwapperLive t → Keeps t (wakeup_loop t chan i k)
unfolding wakeup_loop
wakeup_loop-Keeps t chan i zero live = record {
  pid = λ j. refl;
  parent = λ j. refl;
  used = λ j. refl;
  nextpid = refl;
  initproc = refl;
  inswapper = refl;
}
wakeup_loop-Keeps t chan i (suc k) live =
    let one = wake_one-Keeps t chan i live in
    Keeps-trans one
      (wakeup_loop-Keeps (wake_one t chan i) chan (i + 1) k (Keeps-SwapperLive one live))

pub wakeup1-Keeps : (t : Ptable) (chan : Chan) → SwapperLive t → Keeps t (wakeup1 t chan)
unfolding wakeup1
wakeup1-Keeps t chan live = wakeup_loop-Keeps t chan 0 nproc live

-- the new parent of a process when `self` exits
abbrev pub adopted : Ptable → ℕ → Option ℕ → Option ℕ
adopted t self parent = if same_proc parent self then some t.initproc else parent

adopted-other :
    (t : Ptable) (self : ℕ) (parent : Option ℕ)
    → self ≢ t.initproc
    → same_proc (adopted t self parent) self ≡ false
adopted-other t self none other = refl
adopted-other t self (some i) other = ground arith

-- what one round of `exit`'s loop leaves
record Abandoned (t : Ptable) (self i : ℕ) (t' : Ptable) : Type 0 where
  parent :
      (j : ℕ)
      → (t'.procs j).parent
        ≡ (if i == j then adopted t self (t.procs j).parent else (t.procs j).parent)
  pid : (j : ℕ) → (t'.procs j).pid ≡ (t.procs j).pid
  used : (j : ℕ) → is (t'.procs j).state unused ≡ is (t.procs j).state unused
  nextpid : t'.nextpid ≡ t.nextpid
  initproc : t'.initproc ≡ t.initproc
  inswapper : t'.inswapper ≡ t.inswapper

abandon_one-Abandoned :
    (t : Ptable) (self i : ℕ) → SwapperLive t → Abandoned t self i (abandon_one t self i)
unfolding abandon_one
abandon_one-Abandoned t self i live =
    let t1 : Ptable = record t {
      procs = update t.procs i (record (t.procs i) { parent = some t.initproc });
    } in
    let w = wakeup1-Keeps t1 (proc_chan t.initproc) (ground arith) in
    record {
      parent = λ j. ground (arith, w.parent j);
      pid = λ j. ground (arith, w.pid j);
      used = λ j. ground (arith, w.used j);
      nextpid = ground (arith, w.nextpid);
      initproc = ground (arith, w.initproc);
      inswapper = ground (arith, w.inswapper);
    }

-- What a stretch of the loop leaves: the children of `self` in slots `i` to `i + k - 1` are init's.
pub record Handed (t : Ptable) (self i k : ℕ) (t' : Ptable) : Type 0 where
  pub parent :
      (j : ℕ)
      → (t'.procs j).parent ≡ (
          if leb i j && ltb j (i + k)
          then adopted t self (t.procs j).parent
          else (t.procs j).parent)
  pub pid : (j : ℕ) → (t'.procs j).pid ≡ (t.procs j).pid
  pub used : (j : ℕ) → is (t'.procs j).state unused ≡ is (t.procs j).state unused
  pub nextpid : t'.nextpid ≡ t.nextpid
  pub initproc : t'.initproc ≡ t.initproc
  pub inswapper : t'.inswapper ≡ t.inswapper

abandon_loop-Handed :
    (t : Ptable) (self i k : ℕ) → SwapperLive t → Handed t self i k (abandon_loop t self i k)
unfolding abandon_loop
abandon_loop-Handed t self i zero live = record {
  parent = λ j. ground arith;
  pid = λ j. refl;
  used = λ j. refl;
  nextpid = refl;
  initproc = refl;
  inswapper = refl;
}
abandon_loop-Handed t self i (suc k) live =
    let t1 : Ptable = abandon_one t self i in
    let one = abandon_one-Abandoned t self i live in
    let live1 : SwapperLive t1 =
      subst (λ s. is (t1.procs s).state unused ≡ false) (sym one.inswapper)
        (one.used t.inswapper ∙ live) in
    let rest = abandon_loop-Handed t1 self (i + 1) k live1 in
    record {
      parent = λ j. ground (arith, rest.parent j, one.parent j, one.initproc);
      pid = λ j. rest.pid j ∙ one.pid j;
      used = λ j. rest.used j ∙ one.used j;
      nextpid = rest.nextpid ∙ one.nextpid;
      initproc = rest.initproc ∙ one.initproc;
      inswapper = rest.inswapper ∙ one.inswapper;
    }

-- `exit` makes the process a zombie and gives each of its children to init; no process of the table
-- is its child after that. Other parents, all pids and what else is in use stay as they were.
pub exit_locked_lem :
    (t : Ptable) (self : ℕ)
    → SwapperLive t
    → self ≢ t.initproc
    → is (t.procs self).state unused ≡ false
    → let t' = exit_locked t self in
      ((t'.procs self).state ≡ zombie)
      × ((j : ℕ)
          → j < nproc
          → ((t'.procs j).parent ≡ adopted t self (t.procs j).parent)
            × (same_proc (t'.procs j).parent self ≡ false))
      × ((j : ℕ) → (t'.procs j).pid ≡ (t.procs j).pid)
      × ((j : ℕ) → is (t'.procs j).state unused ≡ is (t.procs j).state unused)
      × (t'.nextpid ≡ t.nextpid)
unfolding exit_locked
exit_locked_lem t self live other used =
    let t1 : Ptable = wakeup1 t (chan_of (t.procs self).parent) in
    let woken = wakeup1-Keeps t (chan_of (t.procs self).parent) live in
    let handed = abandon_loop-Handed t1 self 0 nproc (Keeps-SwapperLive woken live) in
    (
      ground arith,
      λ j lt.
          let kept : ((exit_locked t self).procs j).parent ≡ adopted t self (t.procs j).parent =
            ground (arith, handed.parent j, woken.parent j, woken.initproc) in
          (kept, ground (arith, kept, adopted-other t self (t.procs j).parent other)),
      λ j. ground (arith, handed.pid j, woken.pid j),
      λ j. ground (arith, handed.used j, woken.used j, used),
      ground (arith, handed.nextpid, woken.nextpid),
    )
