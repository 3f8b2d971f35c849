-- ===== src/Shm.antt =====
-- kalloc.c: shared memory segments. `shm` is laid out word by word: `seg`, then `refs`, as the C arrays lie in
-- memory, so that an index out of bounds reaches the word that it reaches there.
pub mod Attach
mod Pages
mod Create
mod Delete
mod Faults
mod Tests
use os_ass.Base.{
  ℕ, zero, suc, ◌+◌, ◌-◌, ◌*◌, ◌/◌, ◌%◌, ◌^◌, Bool, true, false, not, ◌&&◌, ltb, leb, ◌==◌,
  if◌then◌else◌, Option, none, some, ℤ, pos, negsuc, update, Outcome, ok, panic, ◌>>=◌, lock,
  unlock, pgsize, page_round_up,
}
use os_ass.Kmem.{Kmem, kalloc, kfree}

abbrev pub num_of_segs : ℕ
num_of_segs = 100

-- `seg[key][i]`
abbrev pub seg : ℕ → ℕ → ℕ
seg key i = num_of_segs * key + i

-- `refs[key][0][j]`: who is attached, and at 64 how many
abbrev pub refs0 : ℕ → ℕ → ℕ
refs0 key j = num_of_segs * num_of_segs + 130 * key + j

-- `refs[key][1][j]`: at 64 the number of pages
abbrev pub refs1 : ℕ → ℕ → ℕ
refs1 key j = num_of_segs * num_of_segs + 130 * key + 65 + j

abbrev pub count_at : ℕ → ℕ
count_at key = refs0 key 64

abbrev pub pages_at : ℕ → ℕ
pages_at key = refs1 key 64

-- the allocator, the words of `shm`, and whether this CPU holds `shm.lock`
pub record Shm : Type 0 where
  pub kmem : Kmem
  pub words : ℕ → ℕ
  pub held : Bool

abbrev pub set_word : Shm → ℕ → ℕ → Shm
set_word s at v = record s { words = update s.words at v }

-- SHM_CREAT and the other flags
abbrev pub creat : ℕ
creat = 20

abbrev pub get : ℕ
get = 21

abbrev pub shm_rdonly : ℕ
shm_rdonly = 22

abbrev pub shm_rdwr : ℕ
shm_rdwr = 23

-- the loop that takes the pages of a segment, from `i` on with `rounds` left: where it stops
unfoldable pub take_pages : Shm → ℕ → ℕ → ℕ → Outcome (ℕ × Shm)
take_pages s key i zero = ok (i, s)
take_pages s key i (suc rounds) = kalloc s.kmem >>= λ (page, k).
    let s1 = set_word (record s { kmem = k }) (seg key i) page in
    let rest = take_pages s1 key (i + 1) rounds in if page == 0 then ok (i, s1) else rest

-- the search for a segment by its first page, from `key` on with `rounds` left
unfoldable pub find_seg : (ℕ → ℕ) → ℕ → ℕ → ℕ → Option ℕ
find_seg words shmid key zero = none
find_seg words shmid key (suc rounds) =
    let rest = find_seg words shmid (key + 1) rounds in
    if shmid == words (seg key 0) then some key else rest

module _ (end : ℕ) where
  -- the loop that gives pages back, from `j` on with `rounds` left
  unfoldable pub give_back : Shm → ℕ → ℕ → ℕ → Outcome Shm
  give_back s key j zero = ok s
  give_back s key j (suc rounds) = kfree end s.kmem (s.words (seg key j)) >>= λ k.
      give_back (record s { kmem = k }) key (j + 1) rounds

  -- CREAT in `shmget`
  unfoldable pub create : Shm → ℕ → ℕ → Outcome (Option ℕ × Shm)
  create s key size =
      let n = page_round_up size / pgsize in
      let created = take_pages s key 0 n >>= λ (i, s1).
      if i == n
      then ok (some (s1.words (seg key 0)), set_word s1 (pages_at key) n)
      else (give_back s1 key 0 i >>= λ s2. ok (none, s2)) in
      if s.words (pages_at key) == 0 then created else ok (none, s)

  -- `uninit` is what `ans` holds before it is set; `none` is -1.
  unfoldable pub shmget : Shm → ℤ → ℕ → ℕ → Option ℕ → Outcome (Option ℕ × Shm)
  shmget s (negsuc key) size flag uninit = ok (none, s)
  shmget s (pos key) size flag uninit =
      if ltb 1023 key
      then ok (none, s)
      else if flag == creat
      then create s key size
      else if flag == get
      then ok ((if s.words (pages_at key) == 0 then none else some (s.words (seg key 0))), s)
      else ok (uninit, s)

  -- the loop of `shmdel` over the pages, from `i` on with `rounds` left
  unfoldable pub delete_pages : Shm → ℕ → ℕ → ℕ → Outcome Shm
  delete_pages s key i zero = ok s
  delete_pages s key i (suc rounds) = kfree end s.kmem (s.words (seg key i)) >>= λ k.
      let s1 = set_word (record s { kmem = k }) (pages_at key) (s.words (pages_at key) - 1) in
      delete_pages s1 key (i + 1) rounds

  unfoldable pub delete : Shm → ℕ → Outcome (Option ℕ × Shm)
  delete s key =
      let n = s.words (pages_at key) in
      if ltb 0 (s.words (count_at key))
      then ok (none, s)
      else (delete_pages s key 0 n >>= λ s1. ok (some n, s1))

  unfoldable pub shmdel : Shm → ℕ → Outcome (Option ℕ × Shm)
  shmdel s shmid = elim (find_seg s.words shmid 0 num_of_segs) [
    | none ↦ ok (none, s)
    | some key ↦ delete s key
  ]
