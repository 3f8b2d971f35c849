-- ===== src/Shm/Delete.antt =====
-- `shmdel`: the pages of a segment that nobody has attached become free.
use os_ass.Base.{
  ℕ_discrete, ℕ, zero, suc, ◌+◌, ◌-◌, ◌≤◌, ◌<◌, ◌≡◌, ◌≢◌, refl, sym, ◌∙◌, subst, arith, List, [],
  ◌∷◌, reverse_aux, All-both, length, get_or, update_ne, update_self, ==_ne, ==_refl, lt→ltb, ok,
  none, some,
}
use os_ass.Kmem.Chain.{IsFree}
use os_ass.Kmem.Laws.{kfree-page}
use os_ass.Shm.{
  Shm, num_of_segs, seg, pages_at, count_at, set_word, find_seg, delete_pages, delete, shmdel,
}
use os_ass.Shm.Pages.{IsTaken}

-- the first key whose segment starts with the page
find_seg-first :
    (words : ℕ → ℕ) (shmid key from rounds : ℕ)
    → from ≤ key
    → key < from + rounds
    → words (seg key 0) ≡ shmid
    → ((other : ℕ) → from ≤ other → other < key → words (seg other 0) ≢ shmid)
    → find_seg words shmid from rounds ≡ some key
unfolding find_seg
find_seg-first words shmid key from zero le lt here before = absurd (omega arith)
find_seg-first words shmid key from (suc rounds) le lt here before = elim (ℕ_discrete from key) [
  | yes e ↦ rw (e, here, ==_refl shmid)
  | no ne ↦
      rw (==_ne shmid (words (seg from 0)) (λ q. before from (omega arith) (omega arith) (sym q))) (
        find_seg-first words shmid key (from + 1) rounds (omega arith) (omega arith) here
          (λ other lo hi. before other (omega arith) hi))
]

module _ (end : ℕ) where
  -- What `shmdel` has done to the segment of a key.
  pub record Deleted (s : Shm) (key : ℕ) (free : List ℕ) (s' : Shm) : Type 0 where
    pub alloc : IsFree end s'.kmem free
    pub gone : s'.words (pages_at key) ≡ 0
    pub others : (a : ℕ) → a ≢ pages_at key → s'.words a ≡ s.words a
    pub lock_kept : s'.held ≡ s.held

  delete_pages_lem :
      (s : Shm) (key i : ℕ) (xs free : List ℕ)
      → IsFree end s.kmem free
      → IsTaken end xs free
      → key < num_of_segs
      → i + length xs ≤ num_of_segs
      → s.words (pages_at key) ≡ length xs
      → ((j : ℕ) → j < length xs → s.words (seg key (i + j)) ≡ get_or 0 xs j)
      → (s' : Shm) × (delete_pages end s key i (length xs) ≡ ok s')
        × Deleted s key (reverse_aux xs free) s'
  unfolding delete_pages
  delete_pages_lem s key i [] free f t lt fits count at =
      (s, refl, record { alloc = f; gone = count; others = λ _ _. refl; lock_kept = refl })
  delete_pages_lem s key i (x ∷ xs) free f t lt fits count at =
      let here : s.words (seg key i) ≡ x =
        subst (λ m. s.words (seg key m) ≡ x) (omega arith) (at 0 (omega arith)) in
      let (k1, gave, f1, _) = kfree-page end s.kmem x free f t.real.0 t.apart.0 in
      let less = s.words (pages_at key) - 1 in
      let s1 = set_word (record s { kmem = k1 }) (pages_at key) less in
      let (s2, rest, d) =
        delete_pages_lem s1 key (i + 1) xs (x ∷ free) f1
          (record {
            real = t.real.1;
            apart = All-both (λ y (n : x ≢ y) a. ((λ e. n (sym e)), a)) xs t.distinct.0 t.apart.1;
            distinct = t.distinct.1;
          })
          lt (omega arith) (update_self s.words (pages_at key) less ∙ omega (arith, count))
          (λ j lj.
            update_ne s.words (pages_at key) (seg key (i + 1 + j)) less (λ e. omega arith)
            ∙ subst (λ m. s.words (seg key m) ≡ get_or 0 xs j) (omega arith)
                (at (suc j) (omega arith))) in
      (
        s2,
        rw (here, gave) rest,
        record {
          alloc = d.alloc;
          gone = d.gone;
          others =
              λ a ne. d.others a ne ∙ update_ne s.words (pages_at key) a less (λ e. ne (sym e));
          lock_kept = d.lock_kept;
        },
      )

  pub refused :
      (s : Shm) (shmid key : ℕ)
      → find_seg s.words shmid 0 num_of_segs ≡ some key
      → 0 < s.words (count_at key)
      → shmdel end s shmid ≡ ok (none, s)
  unfolding shmdel delete
  refused s shmid key found busy =
      rw (found, shmdel) (rw (lt→ltb 0 (s.words (count_at key)) busy) refl)

  deleted :
      (s s' : Shm) (shmid key n : ℕ)
      → find_seg s.words shmid 0 num_of_segs ≡ some key
      → s.words (count_at key) ≡ 0
      → s.words (pages_at key) ≡ n
      → delete_pages end s key 0 n ≡ ok s'
      → shmdel end s shmid ≡ ok (some n, s')
  unfolding shmdel delete
  deleted s s' shmid key n found idle count done = rw (found, shmdel) (rw (idle, count, done) refl)

  -- `shmdel` for the first key whose segment starts with the page `shmid`, and whose words name pages
  -- that the allocator may take back. With a process attached the result is -1 and nothing changes.
  -- Otherwise the result is the number of pages, each of them is free again, and the key has no segment.
  pub shmdel_lem :
      (s : Shm) (shmid key : ℕ) (pages free : List ℕ)
      → IsFree end s.kmem free
      → IsTaken end pages free
      → key < num_of_segs
      → length pages ≤ num_of_segs
      → s.words (pages_at key) ≡ length pages
      → ((i : ℕ) → i < length pages → s.words (seg key i) ≡ get_or 0 pages i)
      → s.words (seg key 0) ≡ shmid
      → ((other : ℕ) → other < key → s.words (seg other 0) ≢ shmid)
      → (0 < s.words (count_at key) → shmdel end s shmid ≡ ok (none, s))
        × (s.words (count_at key) ≡ 0
            → (s' : Shm) × (shmdel end s shmid ≡ ok (some (length pages), s'))
              × Deleted s key (reverse_aux pages free) s')
  unfolding shmdel delete
  shmdel_lem s shmid key pages free f t lt fits count at here before =
      let found =
        find_seg-first s.words shmid key 0 num_of_segs (omega arith) (omega arith) here
          (λ other _ hi. before other hi) in
      let (s', done, d) =
        delete_pages_lem s key 0 pages free f t lt (omega arith) count
          (λ i li. subst (λ m. s.words (seg key m) ≡ get_or 0 pages i) (omega arith) (at i li)) in
      (
        (λ busy. refused s shmid key found busy),
        (λ idle. (s', deleted s s' shmid key (length pages) found idle count done, d)),
      )
