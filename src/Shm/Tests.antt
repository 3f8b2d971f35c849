-- ===== src/Shm/Tests.antt =====
-- Segments in a small memory: two free pages, a page directory, its table and a page of a process.
use os_ass.Base.{
  ℕ, zero, suc, ◌≤◌, ◌<◌, ◌≡◌, ◌≢◌, ◌==◌, if◌then◌else◌, refl, arith, false, List, [], ◌∷◌, take,
  drop, reverse, reverse_aux, get_or, update, none, some, pos, ok,
}
use os_ass.Kmem.{Kmem}
use os_ass.Kmem.Chain.{IsFree}
use os_ass.Shm.{Shm, num_of_segs, seg, pages_at, count_at, creat, shmget, shmdel, find_seg}
use os_ass.Shm.Attach.{Process, shmat}
use os_ass.Shm.Pages.{IsTaken}
use os_ass.Shm.Create.{IsRow, Created, shmget_lem}
use os_ass.Shm.Delete.{Deleted, shmdel_lem}
use os_ass.Shm.Faults.{shmat-bad_flag}
use os_ass.Vm.{walkpgdir}

abbrev start : ℕ
start = 0x80100000

-- the free pages, and those in use
abbrev free : List ℕ
free = 0x80202000 ∷ 0x80203000 ∷ []

abbrev page : ℕ
page = 0x80204000

abbrev memory : Kmem
memory = record {
  held = false;
  use_lock = false;
  freelist = 0x80202000;
  mem = λ a.
      if a == 0x80202000
      then 0x80203000
      else if a == 0x80205000
      then 0x206007
      else if a == 0x80206014
      then 0x204007
      else 0;
}

memory-IsFree : IsFree start memory free
memory-IsFree = record {
  idle = refl;
  chain = (
    refl,
    record { aligned = omega arith; above = omega arith; below = omega arith },
    (refl, record { aligned = omega arith; above = omega arith; below = omega arith }, refl),
  );
  distinct = ground arith;
}

abbrev no_segments : Shm
no_segments = record { kmem = memory; words = λ _. 0; held = false }

shmget_lem_example :
    (2 ≤ 2
      → (s' : Shm) × (shmget start no_segments (pos 3) 0x1800 creat none
          ≡ ok (some (s'.words (seg 3 0)), s'))
        × Created start no_segments 3 (take 2 free) (drop 2 free) s')
    × (2 < 2
        → (s' : Shm) × (shmget start no_segments (pos 3) 0x1800 creat none ≡ ok (none, s'))
          × IsFree start s'.kmem (reverse free)
          × ((a : ℕ) → (IsRow 3 a → ⊥) → s'.words a ≡ 0)
          × (s'.words (pages_at 3) ≡ 0)
          × (s'.held ≡ false))
shmget_lem_example =
    shmget_lem start no_segments 3 0x1800 free none memory-IsFree (omega arith) (omega arith) refl

-- one segment, of one page, under the key 3
abbrev one_segment : Shm
one_segment = record no_segments { words = update (update (λ _. 0) (seg 3 0) page) (pages_at 3) 1 }

page-IsTaken : IsTaken start (page ∷ []) free
page-IsTaken = record {
  real = (record { aligned = omega arith; above = omega arith; below = omega arith }, tt);
  apart = ground arith;
  distinct = ground arith;
}

segment-pages : (i : ℕ) → i < 1 → one_segment.words (seg 3 i) ≡ get_or 0 (page ∷ []) i
segment-pages zero lt = refl
segment-pages (suc i) lt = absurd (omega arith)

segment-first : (other : ℕ) → other < 3 → one_segment.words (seg other 0) ≢ page
segment-first other lt = ground arith

shmdel_lem_example :
    (0 < 0 → shmdel start one_segment page ≡ ok (none, one_segment))
    × (◌≡◌ {A = ℕ} 0 0
        → (s' : Shm) × (shmdel start one_segment page ≡ ok (some 1, s'))
          × Deleted start one_segment 3 (reverse_aux (page ∷ []) free) s')
shmdel_lem_example =
    shmdel_lem start one_segment page 3 (page ∷ []) free memory-IsFree page-IsTaken (omega arith)
      (omega arith) refl segment-pages refl segment-first

abbrev process : Process
process = record { pid = 5; sz = 0x6000; pgdir = 0x80205000; has_shm = 0 }

segment-found : find_seg one_segment.words page 0 num_of_segs ≡ some 3
unfolding find_seg
segment-found = refl

shmat-bad_flag_example :
    (p' : Process) × (s' : Shm) × (shmat one_segment process page 0 ≡ ok (none, p', s'))
    × (s'.words (count_at 3) ≡ 1)
    × ((end : ℕ) (u : Shm) → u.words ≡ s'.words → shmdel end u page ≡ ok (none, u))
shmat-bad_flag_example =
    shmat-bad_flag one_segment process page 0 3 refl segment-found (omega arith) (omega arith)
      (omega arith) (omega arith) (λ e. omega arith) (λ e. omega arith)

-- the segment has been deleted while the process has its page at 0x5000
abbrev deleted : Shm
deleted = record one_segment { words = update (λ _. 0) (seg 3 0) page }

deleted-found : find_seg deleted.words page 0 num_of_segs ≡ some 3
unfolding find_seg
deleted-found = refl

process-entry : walkpgdir memory 0x80205000 0x5000 false ≡ ok (0x80206014, memory)
unfolding walkpgdir
process-entry = refl
