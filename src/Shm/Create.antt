-- ===== src/Shm/Create.antt =====
-- `shmget` with CREAT: all the pages of the segment, or none.
use os_ass.Base.{
  ℕ, ◌+◌, ◌-◌, ◌/◌, ◌≤◌, ◌<◌, ◌≡◌, ◌==◌, refl, sym, ap, ◌∙◌, subst, arith, true, false, List, [],
  ◌∷◌, ◌++◌, reverse, All, All-map, length, length-append, length-take, take, drop, store,
  store-outside, store-inside, get_or, get_or-append, update_ne, update_self, if◌then◌else◌, ltb,
  leb, ◌&&◌, ltb→lt, lt→ltb, ltb_ge, leb→le, Bool-cases, ok, inl, inr, ◌⊎◌, Option, none, some, pos,
  pgsize, page_round_up,
}
use os_ass.Kmem.{Kmem}
use os_ass.Kmem.Chain.{IsPage, Chain, IsFree}
use os_ass.Shm.{Shm, num_of_segs, seg, pages_at, set_word, give_back, create, shmget, creat}
use os_ass.Shm.Pages.{noted, take_pages-enough, take_pages-short, IsTaken, give_back_lem}

-- the number of pages for a size
abbrev pub pages_for : ℕ → ℕ
pages_for size = page_round_up size / pgsize

-- the words of the row of a key, and its count of pages
abbrev pub IsRow : ℕ → ℕ → Type 0
IsRow key a = ((seg key 0 ≤ a) × (a < seg (key + 1) 0)) ⊎ (a ≡ pages_at key)

module _ (end : ℕ) where
  -- What `shmget` has done for a key that had no segment.
  pub record Created (s : Shm) (key : ℕ) (pages free : List ℕ) (s' : Shm) : Type 0 where
    pub alloc : IsFree end s'.kmem free
    pub seg_pages : (i : ℕ) → i < length pages → s'.words (seg key i) ≡ get_or 0 pages i
    pub count : s'.words (pages_at key) ≡ length pages
    pub others : (a : ℕ) → (IsRow key a → ⊥) → s'.words a ≡ s.words a
    pub lock_kept : s'.held ≡ s.held

  -- the free pages, as pages that may be given back
  free-IsTaken : (k : Kmem) (free : List ℕ) → IsFree end k free → IsTaken end free []
  free-IsTaken k free f = record {
    real = Chain-real k.mem k.freelist free f.chain;
    apart = All-map (λ x _. tt) free (Chain-real k.mem k.freelist free f.chain);
    distinct = f.distinct;
  }
    where
      Chain-real : (m : ℕ → ℕ) (p : ℕ) (xs : List ℕ) → Chain end m p xs → All (λ x. IsPage end x) xs
      Chain-real m p [] c = tt
      Chain-real m p (x ∷ xs) c = (c.1, Chain-real m (m x) xs c.2)

  module _ (s : Shm) (key size : ℕ) (free : List ℕ) (f : IsFree end s.kmem free)
      (lt : key < num_of_segs) (fits : pages_for size ≤ num_of_segs)
      (absent : s.words (pages_at key) ≡ 0) where
    -- words that are not in the row
    row-outside :
        (xs : List ℕ) (a : ℕ)
        → length xs ≤ num_of_segs
        → (IsRow key a → ⊥)
        → store s.words (seg key 0) xs a ≡ s.words a
    row-outside xs a le out =
        store-outside s.words (seg key 0) xs a
          (elim (Bool-cases (leb (seg key 0) a && ltb a (seg key 0 + length xs))) [
            | inl t ↦ absurd (out (inl (inside t)))
            | inr f ↦ f
          ])
      where
        inside :
            (leb (seg key 0) a && ltb a (seg key 0 + length xs)) ≡ true
            → (seg key 0 ≤ a) × (a < seg (key + 1) 0)
        inside t =
            let (l, r) : (leb (seg key 0) a ≡ true) × (ltb a (seg key 0 + length xs) ≡ true) =
              ground arith in
            (leb→le (seg key 0) a l, omega (arith, ltb→lt a (seg key 0 + length xs) r))

    row-inside :
        (xs : List ℕ) (i : ℕ)
        → i < length xs
        → store s.words (seg key 0) xs (seg key i) ≡ get_or 0 xs i
    row-inside xs i li =
        let at : seg key i ≡ seg key 0 + i = omega arith in
        ap (store s.words (seg key 0) xs) at ∙ store-inside s.words (seg key 0) xs i li

    create-enough :
        pages_for size ≤ length free
        → (s' : Shm) × (create end s key size ≡ ok (some (s'.words (seg key 0)), s'))
          × Created s key (take (pages_for size) free) (drop (pages_for size) free) s'
    unfolding create noted
    create-enough enough =
        let n = pages_for size in
        let (k, took, f1) = take_pages-enough end n s key 0 free f enough in
        let len : length (take n free) ≡ n = length-take n free enough in
        (
          set_word (noted end s key 0 (take n free) k) (pages_at key) n,
          (let all : (0 + n == n) ≡ true = ground arith in
              rw (absent, took)
                (rw all (
                  ap
                    (λ v.
                      ok (some v, set_word (noted end s key 0 (take n free) k) (pages_at key) n))
                    (sym (
                      update_ne (store s.words (seg key 0) (take n free)) (pages_at key) (seg key 0)
                        n (λ e. omega arith)))))),
          record {
            alloc = f1;
            seg_pages = λ i li.
                update_ne (store s.words (seg key 0) (take n free)) (pages_at key) (seg key i) n
                  (λ e. omega (arith, len, li, e))
                ∙ row-inside (take n free) i li;
            count =
                update_self (store s.words (seg key 0) (take n free)) (pages_at key) n ∙ sym len;
            others = λ a out.
                update_ne (store s.words (seg key 0) (take n free)) (pages_at key) a n
                  (λ e. out (inr (sym e)))
                ∙ row-outside (take n free) a (omega (arith, len)) out;
            lock_kept = refl;
          },
        )

    create-short :
        length free < pages_for size
        → (s' : Shm) × (create end s key size ≡ ok (none, s'))
          × IsFree end s'.kmem (reverse free)
          × ((a : ℕ) → (IsRow key a → ⊥) → s'.words a ≡ s.words a)
          × (s'.words (pages_at key) ≡ 0)
          × (s'.held ≡ s.held)
    unfolding create noted
    create-short short =
        let n = pages_for size in
        let (k, took, f1) = take_pages-short end n s key 0 free f short in
        let xs = free ++ 0 ∷ [] in
        let len : length xs ≡ length free + 1 = length-append free (0 ∷ []) in
        let s1 = noted end s key 0 xs k in
        let (k2, gave, f2) =
          give_back_lem end s1 key 0 free [] f1 (free-IsTaken s.kmem free f) (λ i li.
            ap (λ m. store s.words (seg key 0) xs (seg key m)) (omega arith)
            ∙ row-inside xs i (omega arith)
            ∙ get_or-append free (0 ∷ []) i
            ∙ ap (λ t. if t then get_or 0 free i else get_or 0 (0 ∷ []) (i - length free))
                (lt→ltb i (length free) li)) in
        let all_back : give_back end s1 key 0 (0 + length free) ≡ ok (record s1 { kmem = k2 }) =
          subst (λ m. give_back end s1 key 0 m ≡ ok (record s1 { kmem = k2 })) (omega arith) gave in
        (
          record s1 { kmem = k2 },
          (let some_missing : (0 + length free == n) ≡ false = ground arith in
              rw (absent, took) (rw (some_missing, all_back) refl)),
          f2,
          (λ a out. row-outside xs a (omega (arith, len)) out),
          (store-outside s.words (seg key 0) xs (pages_at key)
                (ground (arith, len, lt, fits, short))
              ∙ absent),
          refl,
        )

  -- CREAT for a key under 100 that has no segment, of at most 100 pages. With enough free pages the
  -- segment gets the first of them, in order, and its identifier is the first page. Otherwise the result is
  -- -1 and all pages are free again, in reverse order, and the key still has no segment. No word of `shm`
  -- outside the key's row of pages and its count changes, and `shm.lock` is not touched.
  pub shmget_lem :
      (s : Shm) (key size : ℕ) (free : List ℕ) (uninit : Option ℕ)
      → IsFree end s.kmem free
      → key < num_of_segs
      → pages_for size ≤ num_of_segs
      → s.words (pages_at key) ≡ 0
      → (pages_for size ≤ length free
          → (s' : Shm) × (shmget end s (pos key) size creat uninit
              ≡ ok (some (s'.words (seg key 0)), s'))
            × Created s key (take (pages_for size) free) (drop (pages_for size) free) s')
        × (length free < pages_for size
            → (s' : Shm) × (shmget end s (pos key) size creat uninit ≡ ok (none, s'))
              × IsFree end s'.kmem (reverse free)
              × ((a : ℕ) → (IsRow key a → ⊥) → s'.words a ≡ s.words a)
              × (s'.words (pages_at key) ≡ 0)
              × (s'.held ≡ s.held))
  unfolding shmget
  shmget_lem s key size free uninit f lt fits absent =
      let legal : ltb 1023 key ≡ false = ltb_ge 1023 key (omega arith) in
      (
        (λ enough. rw legal (create-enough s key size free f lt fits absent enough)),
        (λ short. rw legal (create-short s key size free f lt fits absent short)),
      )
