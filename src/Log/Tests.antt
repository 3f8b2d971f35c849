-- ===== src/Log/Tests.antt =====
-- A transaction of three writes to two blocks, and a crash.
use os_ass.Base.{
  ℕ, ◌≡◌, refl, inl, inr, arith, List, [], ◌∷◌, true, false, update, All, some, ok, ◌==◌,
  if◌then◌else◌, ℕ_discrete,
}
use os_ass.Log.{
  Log, Disk, Block, zeroed, append, find_sector, log_write, begin_trans, commit_trans,
  recover_from_log,
}
use os_ass.Log.Install.{Ready}
use os_ass.Log.Crash.{Stable, Ready-Stable}
use os_ass.Log.Commit.{OldOrNew, IsClear, recovery_lem}
use os_ass.Log.Trans.{log_writes, applied, transaction_atomic}

abbrev blank : Disk
blank = λ _ _. 0

-- the log in blocks 10 to 14
abbrev idle_log : Log
idle_log = zeroed 10 5 blank

idle_log-IsClear : IsClear blank idle_log
idle_log-IsClear = record { empty = refl; room = omega arith; clear = refl; same = λ a home. refl }

abbrev block : ℕ → Block
block v = λ _. v

abbrev writes : List (ℕ × Block)
writes = (3, block 7) ∷ (4, block 8) ∷ (3, block 9) ∷ []

abbrev open_log : Log
open_log = record idle_log { busy = true }

abbrev logged : Log
logged = append (append (append open_log 3 (block 7)) 4 (block 8)) 3 (block 9)

-- the third write is absorbed
two_blocks : (logged.n ≡ 2) × (logged.disk 11 0 ≡ 9)
unfolding append find_sector
two_blocks = (refl, refl)

begun : begin_trans idle_log ≡ some open_log
unfolding begin_trans
begun = refl

all_logged : log_writes open_log writes ≡ ok logged
unfolding log_writes log_write append find_sector
all_logged = refl

transaction_atomic_example :
    All (OldOrNew 10 5 blank (applied blank writes)) (commit_trans logged).history
    × IsClear (applied blank writes) (commit_trans logged)
    × ((commit_trans logged).busy ≡ false)
transaction_atomic_example =
    transaction_atomic blank idle_log open_log logged writes idle_log-IsClear refl begun all_logged
      (omega arith)

-- a crash after the commit of one block, before it is installed
abbrev crashed : Disk
crashed = update (update blank 10 (λ i. if i == 0 then 1 else 3)) 11 (block 7)

abbrev wanted : Disk
wanted = update crashed 3 (block 7)

crashed-Ready : Ready 10 5 1 (λ _. 3) wanted crashed
crashed-Ready = record {
  room = omega arith;
  count = refl;
  words = λ i h. ground arith;
  homes = λ i h. omega arith;
  blocks = λ i h. ground arith;
  views = λ a home. elim (ℕ_discrete 3 a) [
    | yes e ↦ inr (0, omega arith, e)
    | no ne ↦ inl (ground arith)
  ];
}

recovery_lem_example :
    let l = recover_from_log (zeroed 10 5 crashed) in
    IsClear wanted l × (l.start ≡ 10) × (l.size ≡ 5) × All (Stable 10 5 wanted) l.history
recovery_lem_example = recovery_lem 10 5 wanted crashed (Ready-Stable crashed-Ready)
