-- ===== src/Shm/Faults.antt =====
-- Errors of `shmat` and `shmdt` that leave the segments in a state that they do not recover from.
use os_ass.Base.{
  ℕ, zero, suc, ◌+◌, ◌<◌, ◌≡◌, ◌≢◌, refl, ◌∙◌, arith, true, false, update, update_ne, update_self,
  ==_ne, ltb, leb, lt→ltb, Bool-cases, inl, inr, ok, panic, none, some, u32, pgsize, page_round_up,
  kernbase, p2v, ap,
}
use os_ass.Kmem.{Kmem}
use os_ass.Shm.{
  Shm, num_of_segs, seg, refs0, pages_at, count_at, shm_rdonly, shm_rdwr, find_seg, shmdel,
}
use os_ass.Shm.Attach.{
  Process, perm_for, attach_page, attach_loop, attach, shmat, some_page, detach_search, detach,
  shmdt, no_pages,
}
use os_ass.Shm.Delete.{refused}
use os_ass.Vm.{walkpgdir, pte_addr}

empty-search :
    (s : Shm) (r key : ℕ)
    → find_seg s.words r 0 num_of_segs ≡ some key
    → s.words (pages_at key) ≡ 0
    → detach_search s r ≡ no_pages
empty-search s r key found empty = rw (found, detach_search) (rw empty refl)

-- When `shmdt` finds that the page belongs to a segment without pages, it returns -1 with `shm.lock` held,
-- and the next `shmat` on this CPU panics in `acquire`.
shmdt-no_pages :
    (s : Shm) (p : Process) (addr pte key shmid flag : ℕ) (k : Kmem)
    → s.held ≡ false
    → walkpgdir s.kmem p.pgdir addr false ≡ ok (pte, k)
    → find_seg s.words (p2v (pte_addr (k.mem pte))) 0 num_of_segs ≡ some key
    → s.words (pages_at key) ≡ 0
    → (s' : Shm) × (shmdt s p addr ≡ ok (false, p, s'))
      × (s'.held ≡ true)
      × (shmat s' p shmid flag ≡ panic)
unfolding shmdt shmat detach
shmdt-no_pages s p addr pte key shmid flag k idle walked found empty =
    let s1 = record s { kmem = k; held = true } in
    let search = empty-search s1 (p2v (pte_addr (k.mem pte))) key found empty in
    (s1, rw (walked, idle, search) refl, refl, refl)

-- without permissions the loop of `shmat` only counts
attach_loop-idle :
    (s : Shm) (p : Process) (key flag i a rounds : ℕ)
    → perm_for flag ≡ none
    → (a' : ℕ) × (attach_loop s p key flag i a rounds ≡ ok (a', s))
unfolding attach_loop attach_page
attach_loop-idle s p key flag i a zero e = (a, refl)
attach_loop-idle s p key flag i a (suc rounds) e = elim (Bool-cases (ltb a kernbase)) [
  | inl t ↦
      let (a', rest) = attach_loop-idle s p key flag (i + 1) (a + pgsize) rounds e in
      (a', rw t (rw (e, attach_page) rest))
  | inr f ↦ (a, rw f refl)
]

-- the search reads the first words of the rows only
find_seg-same :
    (words words' : ℕ → ℕ) (shmid from rounds : ℕ)
    → ((key : ℕ) → key < from + rounds → words' (seg key 0) ≡ words (seg key 0))
    → find_seg words' shmid from rounds ≡ find_seg words shmid from rounds
unfolding find_seg
find_seg-same words words' shmid from zero same = refl
find_seg-same words words' shmid from (suc rounds) same =
    let rest =
      find_seg-same words words' shmid (from + 1) rounds (λ key lt. same key (omega arith)) in
    let here = same from (omega arith) in rw (here, rest) refl

-- `shmat` of an allocated segment, when the lock is free
shmat-attached :
    (s : Shm) (p : Process) (shmid flag key : ℕ)
    → s.held ≡ false
    → find_seg s.words shmid 0 num_of_segs ≡ some key
    → 0 < s.words (pages_at key)
    → (p1 : Process) (s2 : Shm)
    → attach (record s { held = true }) p key flag ≡ ok (none, p1, record s2 { held = true })
    → shmat s p shmid flag ≡ ok (none, p1, record s2 { held = false })
unfolding shmat
shmat-attached s p shmid flag key idle found some_pages p1 s2 e =
    rw (idle, found, shmat) (rw (lt→ltb 0 (s.words (pages_at key)) some_pages, e) refl)

-- `shmat` with a flag that is neither SHM_RDONLY nor SHM_RDWR returns -1, but it has counted the process
-- as attached. As long as the words of `shm` stay as it leaves them, whatever else has changed, `shmdel`
-- of the segment fails and changes nothing.
pub shmat-bad_flag :
    (s : Shm) (p : Process) (shmid flag key : ℕ)
    → s.held ≡ false
    → find_seg s.words shmid 0 num_of_segs ≡ some key
    → key < num_of_segs
    → p.pid < 64
    → 0 < s.words (pages_at key)
    → page_round_up p.sz + pgsize < kernbase
    → flag ≢ shm_rdonly
    → flag ≢ shm_rdwr
    → (p' : Process) × (s' : Shm) × (shmat s p shmid flag ≡ ok (none, p', s'))
      × (s'.words (count_at key) ≡ s.words (count_at key) + 1)
      × ((end : ℕ) (u : Shm) → u.words ≡ s'.words → shmdel end u shmid ≡ ok (none, u))
unfolding attach
shmat-bad_flag s p shmid flag key idle found lt small some_pages room not_ro not_rw =
    let count = s.words (count_at key) in
    let counted = update s.words (count_at key) (count + 1) in
    let words = update counted (refs0 key p.pid) 1 in
    let s2 = record s { words = words; held = true } in
    let s3 = record s { words = words; held = false } in
    let p1 = record p { has_shm = u32 (p.has_shm + 1) } in
    let here : words (count_at key) ≡ count + 1 =
      update_ne counted (refs0 key p.pid) (count_at key) 1 (λ e. omega arith)
      ∙ update_self s.words (count_at key) (count + 1) in
    let no_perm : perm_for flag ≡ none =
      rw (==_ne flag shm_rdonly not_ro, ==_ne flag shm_rdwr not_rw) refl in
    let (a', loop) =
      attach_loop-idle s2 p1 key flag 0 (page_round_up p.sz) (words (pages_at key)) no_perm in
    let fits : leb kernbase (page_round_up p.sz + pgsize) ≡ false = ground arith in
    let unset : some_page flag (words (pages_at key)) ≡ false = ground arith in
    (
      p1,
      s3,
      shmat-attached s p shmid flag key idle found some_pages p1 s2
          (rw fits (rw (loop, unset) refl)),
      here,
      λ end u same.
          refused end u shmid key
            (ap (λ w. find_seg w shmid 0 num_of_segs) same
              ∙ find_seg-same s.words words shmid 0 num_of_segs (λ k lk.
                update_ne counted (refs0 key p.pid) (seg k 0) 1 (λ e. omega arith)
                ∙ update_ne s.words (count_at key) (seg k 0) (count + 1) (λ e. omega arith))
              ∙ found)
            (omega (arith, here, ap (λ w. w (count_at key)) same)),
    )
