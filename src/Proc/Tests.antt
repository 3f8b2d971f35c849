-- ===== src/Proc/Tests.antt =====
-- Small process tables.
use os_ass.Base.{
  ℕ, ◌<◌, ◌≡◌, ◌≢◌, refl, arith, [], true, false, none, some, update, nproc, ok, Outcome, subst,
}
use os_ass.Kmem.{Kmem, kfree, junk}
use os_ass.Proc.Defs.{
  Proc, Ptable, unused, embryo, zombie, sleeping, runnable, running, sleeping_suspended,
  runnable_suspended, is, null, object, same_proc, find,
}
use os_ass.Proc.Alloc.{claim}
use os_ass.Proc.Sleep.{wakeup1, kill_at, sleep_start, sleep_swapped}
use os_ass.Proc.Wait.{WaitResult, wait_pass, exit_locked}
use os_ass.Proc.Wakeup.{woken, suspended_on, wakeup1_lem}
use os_ass.Proc.Window.{nothing, wakes, kills}
use os_ass.Proc.Swap.{wakeup_during_swap, kill_during_swap}
use os_ass.Proc.Counter.{IsCounted, waiting}
use os_ass.Proc.Exit.{adopted, exit_locked_lem}
use os_ass.Proc.Reap.{IsChild, Frees, WaitSpec, wait_pass_lem}
use os_ass.Proc.Pids.{IsTable, allocates, here, later, Reach-IsTable}

abbrev blank : Proc
blank = record {
  sz = 0;
  pgdir = 0;
  kstack = 0;
  state = unused;
  pid = 0;
  parent = none;
  chan = null;
  killed = false;
  swap_file_name = [];
  swapping_out = false;
  woken_up = false;
}

abbrev table : (ℕ → Proc) → ℕ → Ptable
table procs next = record {
  held = true;
  procs = procs;
  nextpid = next;
  swap_flag = true;
  swappedout = 0;
  initproc = 0;
  inswapper = 1;
}

abbrev empty : Ptable
empty = table (λ _. blank) 1

abbrev with_init : Ptable
with_init = table (update (λ _. blank) 0 (record blank { state = embryo; pid = 1 })) 2

first_claim : claim empty ≡ some (0, with_init)
unfolding claim find
first_claim = refl

Reach-IsTable_example : IsTable with_init
Reach-IsTable_example =
    Reach-IsTable {t0 = empty} {t = with_init} (λ j. refl) (later here (allocates 0 first_claim))

-- init, the inswapper, a shell and two children of the shell: one asleep and swapped out, one a zombie
abbrev busy : Ptable
busy =
    table
      (update
        (update
          (update
            (update (update (λ _. blank) 0 (record blank { state = sleeping; pid = 1 })) 1
              (record blank { state = sleeping; pid = 2; parent = some 0 }))
            2 (record blank { state = running; pid = 3; parent = some 0 }))
          3
          (record blank { state = sleeping_suspended; pid = 4; parent = some 2; chan = object 9 }))
        4 (record blank { state = zombie; pid = 5; parent = some 2; kstack = 0x80300000 }))
      6

wakeup1_lem_example :
    ((j : ℕ)
      → j < nproc
      → j ≢ 1
      → (wakeup1 busy (object 9)).procs j ≡ woken (object 9) (busy.procs j))
    × ((j : ℕ)
        → j < nproc
        → suspended_on (object 9) (busy.procs j) ≡ true
        → ((wakeup1 busy (object 9)).procs 1).state ≡ runnable)
    × (((j : ℕ) → j < nproc → suspended_on (object 9) (busy.procs j) ≡ false)
        → 1 < nproc
        → (wakeup1 busy (object 9)).procs 1 ≡ woken (object 9) (busy.procs 1))
wakeup1_lem_example = wakeup1_lem busy (object 9)

busy-IsCounted : IsCounted busy
unfolding waiting
busy-IsCounted = record { counter = refl; in_table = omega arith; present = refl; resident = refl }

exit_locked_lem_example :
    let t' = exit_locked busy 2 in
    ((t'.procs 2).state ≡ zombie)
    × ((j : ℕ)
        → j < nproc
        → ((t'.procs j).parent ≡ adopted busy 2 (busy.procs j).parent)
          × (same_proc (t'.procs j).parent 2 ≡ false))
    × ((j : ℕ) → (t'.procs j).pid ≡ (busy.procs j).pid)
    × ((j : ℕ) → is (t'.procs j).state unused ≡ is (busy.procs j).state unused)
    × (t'.nextpid ≡ 6)
exit_locked_lem_example = exit_locked_lem busy 2 refl (omega arith) refl

-- an allocator that holds nothing, and a `freevm` that frees nothing more
abbrev no_pages : Kmem
no_pages = record { held = false; use_lock = true; freelist = 0; mem = λ _. 0 }

abbrev keep : Kmem → ℕ → Outcome Kmem
keep k pgdir = ok k

only_zombie :
    (i : ℕ)
    → i < nproc
    → IsChild busy.procs 2 i
    → is (busy.procs i).state zombie ≡ true
    → Frees 0x80100000 keep busy no_pages i
unfolding kfree
only_zombie i lt child z =
    let four : 4 ≡ i = ground arith in
    subst (Frees 0x80100000 keep busy no_pages) four (
      record no_pages {
        freelist = 0x80300000;
        mem = update (junk (λ _. 0) 0x80300000) 0x80300000 0;
      },
      _,
      refl,
      refl,
    )

wait_pass_lem_example :
    (res : WaitResult) × (t' : Ptable) × (k' : Kmem) × (wait_pass 0x80100000 keep busy no_pages 2
      ≡ ok (res, t', k'))
    × WaitSpec busy 2 res t'
wait_pass_lem_example = wait_pass_lem 0x80100000 keep busy no_pages 2 only_zombie

-- process 3 runs, and is about to sleep
abbrev awake : Ptable
awake = record busy { procs = update busy.procs 3 (record (busy.procs 3) { state = running }) }

-- a kill of another process and a wakeup of its channel while it swaps itself out, and then a kill
abbrev swapping : Ptable
swapping = (sleep_start awake 3 (object 9)).0

abbrev woken_first : Ptable
woken_first = kill_at (wakeup1 (kill_at swapping 2) (object 9)) 3

wakeup_during_swap_example :
    let t2 = sleep_swapped woken_first 3 in
    ((t2.procs 3).state ≡ runnable_suspended)
    × ((t2.procs 3).woken_up ≡ false)
    × ((t2.procs 1).state ≡ runnable)
wakeup_during_swap_example =
    wakeup_during_swap awake 3 (object 9) true woken_first (omega arith) (omega arith) refl
      (omega arith) (kills 3 (wakes (object 9) (kills 2 nothing)))

-- the kill comes first
abbrev killed_first : Ptable
killed_first = wakeup1 (kill_at swapping 3) (object 9)

kill_during_swap_example :
    let t2 = sleep_swapped killed_first 3 in
    ((t2.procs 3).killed ≡ true)
    × ((t2.procs 3).state ≡ sleeping_suspended)
    × ((t2.procs 3).chan ≡ object 9)
kill_during_swap_example =
    kill_during_swap awake 3 (object 9) killed_first (omega arith) (omega arith) refl (omega arith)
      (wakes (object 9) (kills 3 nothing))

-- woken while it swaps itself out
abbrev remembered : Ptable
remembered = record busy {
  procs =
      update busy.procs 3
        (record (busy.procs 3) { state = sleeping; swapping_out = true; woken_up = true });
}

remembered-IsCounted : IsCounted remembered
unfolding waiting
remembered-IsCounted = record {
  counter = refl;
  in_table = omega arith;
  present = refl;
  resident = refl;
}
