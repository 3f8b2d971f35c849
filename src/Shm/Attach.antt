-- ===== src/Shm/Attach.antt =====
-- kalloc.c: a process attaches a shared segment, detaches it, or exits with it. Addresses in a range that is
-- cleared do not pass 2 ^ 32.
use os_ass.Base.{
  ℕ, zero, suc, ◌+◌, ◌-◌, ◌*◌, ◌/◌, ◌^◌, Bool, true, false, ◌&&◌, ltb, leb, ◌==◌, if◌then◌else◌,
  Option, none, some, update, Outcome, ok, ◌>>=◌, lock, unlock, pgsize, page_round_up, kernbase,
  u32, v2p, p2v, ◌||◌,
}
use os_ass.Kmem.{Kmem}
use os_ass.Shm.{
  Shm, num_of_segs, seg, refs0, count_at, pages_at, set_word, shm_rdonly, shm_rdwr, find_seg,
}
use os_ass.Vm.{walkpgdir, mappages, present, pte_addr, pte_w, pte_u}

-- the fields of `struct proc` that matter here; `has_shm` by its 32 bits
pub record Process : Type 0 where
  pub pid : ℕ
  pub sz : ℕ
  pub pgdir : ℕ
  pub has_shm : ℕ

-- the permissions for a flag, if it is one of the two
abbrev pub perm_for : ℕ → Option ℕ
perm_for flag =
    if flag == shm_rdonly
    then some pte_u
    else if flag == shm_rdwr
    then some (pte_w + pte_u)
    else none

-- the switch of `shmat`, for page `i` at `a`; the result of `mappages` is not used
unfoldable pub attach_page : Shm → Process → ℕ → ℕ → ℕ → ℕ → Outcome Shm
attach_page s p key flag i a = elim (perm_for flag) [
  | none ↦ ok s
  | some perm ↦ mappages s.kmem p.pgdir a pgsize (v2p (s.words (seg key i))) perm >>= λ (_, k).
      ok (record s { kmem = k })
]

-- The loop of `shmat` from page `i` on, with `rounds` left: the address after the last page.
unfoldable pub attach_loop : Shm → Process → ℕ → ℕ → ℕ → ℕ → ℕ → Outcome (ℕ × Shm)
attach_loop s p key flag i a zero = ok (a, s)
attach_loop s p key flag i a (suc rounds) =
    let round = attach_page s p key flag i a >>= λ s1.
    attach_loop s1 p key flag (i + 1) (a + pgsize) rounds in
    if ltb a kernbase then round else ok (a, s)

-- the two words that count and mark the process
abbrev pub mark : Shm → ℕ → ℕ → ℕ → Shm
mark s key pid on = set_word s (refs0 key pid) on

-- whether the loop sets `forFlag`
abbrev pub some_page : ℕ → ℕ → Bool
some_page flag n = ltb 0 n && (flag == shm_rdonly || flag == shm_rdwr)

-- an allocated segment
unfoldable pub attach : Shm → Process → ℕ → ℕ → Outcome (Option ℕ × Process × Shm)
attach s p key flag =
    let a = page_round_up p.sz in
    let s1 = set_word s (count_at key) (s.words (count_at key) + 1) in
    let s2 = mark s1 key p.pid 1 in
    let n = s2.words (pages_at key) in
    let p1 = record p { has_shm = u32 (p.has_shm + 1) } in
    let attached = attach_loop s2 p1 key flag 0 a n >>= λ (a', s3).
    if some_page flag n then ok (some a, record p1 { sz = a' }, s3) else ok (none, p1, s3) in
    if leb kernbase (a + pgsize) then ok (none, p, s) else attached

-- `none` is -1.
unfoldable pub shmat : Shm → Process → ℕ → ℕ → Outcome (Option ℕ × Process × Shm)
shmat s p shmid flag = lock s.held >>= λ h.
    let s1 = record s { held = h } in
    let body : Outcome (Option ℕ × Process × Shm) = elim (find_seg s.words shmid 0 num_of_segs) [
      | none ↦ ok (none, p, s1)
      | some key ↦ if ltb 0 (s.words (pages_at key)) then attach s1 p key flag else ok (none, p, s1)
    ] in
    body >>= λ (r, p1, s2). unlock s2.held >>= λ h2. ok (r, p1, record s2 { held = h2 })

-- The loop of `shmdt` that clears the entries from `a` on below `top`, on fuel.
unfoldable pub clear_loop : ℕ → Kmem → ℕ → ℕ → ℕ → Outcome Kmem
clear_loop zero k pgdir a top = ok k
clear_loop (suc fuel) k pgdir a top =
    let round = walkpgdir k pgdir a false >>= λ (pte, k1).
    let a' = if pte == 0 then a + 1024 * pgsize else a + pgsize in
    clear_loop fuel (record k1 { mem = update k1.mem pte 0 }) pgdir a' top in
    if ltb a top then round else ok k

-- how the search of `shmdt` ends
pub data Detach : Type 0 where
  not_found : Detach
  no_references : Detach
  no_pages : Detach
  detached : ℕ → Detach

abbrev pub detach_search : Shm → ℕ → Detach
detach_search s r = elim (find_seg s.words r 0 num_of_segs) [
  | none ↦ not_found
  | some key ↦
      if ltb 0 (s.words (pages_at key))
      then if s.words (count_at key) == 0 then no_references else detached key
      else no_pages
]

-- `true` for 0, and `false` for -1. Two of the errors leave `shm.lock` held.
unfoldable pub detach : Shm → Process → ℕ → Detach → Outcome (Bool × Process × Shm)
detach s p addr not_found = unlock s.held >>= λ h. ok (false, p, record s { held = h })
detach s p addr no_references = ok (false, p, s)
detach s p addr no_pages = ok (false, p, s)
detach s p addr (detached key) =
    let s1 = set_word s (count_at key) (s.words (count_at key) - 1) in
    let s2 = mark s1 key p.pid 0 in
    let p1 = record p { has_shm = u32 (p.has_shm + 2 ^ 32 - 1) } in
    let n = s2.words (pages_at key) in
    unlock s2.held >>= λ h. clear_loop n s2.kmem p.pgdir addr (addr + n * pgsize) >>= λ k.
    ok (true, p1, record s2 { held = h; kmem = k })

unfoldable pub shmdt : Shm → Process → ℕ → Outcome (Bool × Process × Shm)
shmdt s p addr = walkpgdir s.kmem p.pgdir addr false >>= λ (pte, k).
    let r = p2v (pte_addr (k.mem pte)) in
    lock s.held >>= λ h.
    let s1 = record s { kmem = k; held = h } in detach s1 p addr (detach_search s1 r)

-- The inner loop of `deallocshm` from `a` on, on fuel: where it stops.
unfoldable pub release_loop : ℕ → Shm → Process → ℕ → ℕ → Outcome (ℕ × Shm)
release_loop zero s p key a = ok (a, s)
release_loop (suc fuel) s p key a =
    let round = walkpgdir s.kmem p.pgdir a false >>= λ (pte, k).
    let s1 = record s { kmem = k } in
    let a' = if pte == 0 then a + 1024 * pgsize else a + pgsize in
    let rest = release_loop fuel s1 p key a' in
    let n = s1.words (pages_at key) in
    let count = s1.words (count_at key) in
    let released = clear_loop n k p.pgdir a (a + n * pgsize) >>= λ k1.
    ok (a, set_word (record s1 { kmem = k1 }) (count_at key) (count - 1)) in
    if pte == 0
    then rest
    else if present (k.mem pte) && s1.words (seg key 0) == p2v (pte_addr (k.mem pte))
    then released
    else rest in
    if ltb a p.sz then round else ok (a, s)

-- The loop over the segments, from `key` on with `rounds` left; `a` goes on where the last search stopped.
unfoldable pub release_segs : Shm → Process → ℕ → ℕ → ℕ → Outcome Shm
release_segs s p a key zero = ok s
release_segs s p a key (suc rounds) =
    let found = release_loop (p.sz / pgsize + 1) s p key a >>= λ (a', s1).
    release_segs s1 p a' (key + 1) rounds in
    let rest = release_segs s p a (key + 1) rounds in
    if s.words (refs0 key p.pid) == 0 then rest else found

-- for the current process, whatever the argument `pid` of the source
unfoldable pub deallocshm : Shm → Process → Outcome Shm
deallocshm s p = lock s.held >>= λ h.
    release_segs (record s { held = h }) p 0 0 num_of_segs >>= λ s1.
    unlock s1.held >>= λ h1. ok (record s1 { held = h1 })
