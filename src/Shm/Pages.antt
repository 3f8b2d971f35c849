-- ===== src/Shm/Pages.antt =====
-- The pages of a segment: taken from the free list, and given back.
use os_ass.Base.{
  ℕ, zero, suc, ◌+◌, ◌≤◌, ◌<◌, ◌≡◌, ◌≢◌, refl, sym, ap, ◌∙◌, subst, arith, List, [], ◌∷◌, ◌++◌,
  reverse_aux, All, All-both, length, take, drop, store, get_or, update, ==_ne, ok,
}
use os_ass.Kmem.{Kmem}
use os_ass.Kmem.Chain.{IsPage, IsFree, Distinct, IsPage-ne-zero}
use os_ass.Kmem.Laws.{kalloc-empty, kalloc-page, kfree-page}
use os_ass.Shm.{Shm, seg, set_word, take_pages, give_back}

module _ (end : ℕ) where
  -- the state after the pages `xs` are written down from index `i` on
  unfoldable pub noted : Shm → ℕ → ℕ → List ℕ → Kmem → Shm
  noted s key i xs k = record s { kmem = k; words = store s.words (seg key i) xs }

  noted-cons :
      (s : Shm) (key i x : ℕ) (xs : List ℕ) (k k' : Kmem)
      → noted (set_word (record s { kmem = k }) (seg key i) x) key (i + 1) xs k'
        ≡ noted s key i (x ∷ xs) k'
  unfolding noted store
  noted-cons s key i x xs k k' =
      let at : seg key (i + 1) ≡ seg key i + 1 = omega arith in
      ap (λ a. record s { kmem = k'; words = store (update s.words (seg key i) x) a xs }) at

  -- There are pages enough.
  pub take_pages-enough :
      (rounds : ℕ) (s : Shm) (key i : ℕ) (free : List ℕ)
      → IsFree end s.kmem free
      → rounds ≤ length free
      → (k : Kmem) × (take_pages s key i rounds
          ≡ ok (i + rounds, noted s key i (take rounds free) k))
        × IsFree end k (drop rounds free)
  unfolding take_pages noted store
  take_pages-enough zero s key i free f le = (s.kmem, ap (λ (j : ℕ). ok (j, s)) (omega arith), f)
  take_pages-enough (suc rounds) s key i [] f le = absurd (omega arith)
  take_pages-enough (suc rounds) s key i (x ∷ free) f le =
      let (k1, took, f1, _) = kalloc-page end s.kmem x free f in
      let s1 = set_word (record s { kmem = k1 }) (seg key i) x in
      let (k2, rest, f2) = take_pages-enough rounds s1 key (i + 1) free f1 (omega arith) in
      (
        k2,
        rw (took, ==_ne x 0 (IsPage-ne-zero end f.chain.1))
            (rest
              ∙ ap (λ (j : ℕ). ok (j, noted s1 key (i + 1) (take rounds free) k2)) (omega arith)
              ∙ ap (λ (t : Shm). ok (i + suc rounds, t))
                  (noted-cons s key i x (take rounds free) k1 k2)),
        f2,
      )

  -- There are not: the loop stops at the 0 that `kalloc` returns, which is written down too.
  pub take_pages-short :
      (rounds : ℕ) (s : Shm) (key i : ℕ) (free : List ℕ)
      → IsFree end s.kmem free
      → length free < rounds
      → (k : Kmem) × (take_pages s key i rounds
          ≡ ok (i + length free, noted s key i (free ++ 0 ∷ []) k))
        × IsFree end k []
  unfolding take_pages noted store
  take_pages-short zero s key i free f lt = absurd (omega arith)
  take_pages-short (suc rounds) s key i [] f lt = (
    s.kmem,
    rw (kalloc-empty end s.kmem f)
        (ap (λ (j : ℕ). ok (j, noted s key i (0 ∷ []) s.kmem)) (omega arith)),
    f,
  )
  take_pages-short (suc rounds) s key i (x ∷ free) f lt =
      let (k1, took, f1, _) = kalloc-page end s.kmem x free f in
      let s1 = set_word (record s { kmem = k1 }) (seg key i) x in
      let (k2, rest, f2) = take_pages-short rounds s1 key (i + 1) free f1 (omega arith) in
      (
        k2,
        rw (took, ==_ne x 0 (IsPage-ne-zero end f.chain.1))
            (rest
              ∙ ap (λ (j : ℕ). ok (j, noted s1 key (i + 1) (free ++ 0 ∷ []) k2)) (omega arith)
              ∙ ap (λ (t : Shm). ok (i + suc (length free), t))
                  (noted-cons s key i x (free ++ 0 ∷ []) k1 k2)),
        f2,
      )

  -- pages that may be given back: they are no free ones, and each is given back once
  pub record IsTaken (xs free : List ℕ) : Type 0 where
    pub real : All (λ x. IsPage end x) xs
    pub apart : All (λ x. All (λ y. x ≢ y) free) xs
    pub distinct : Distinct xs

  -- the loop that gives the pages back; words of `shm` do not change
  pub give_back_lem :
      (s : Shm) (key j : ℕ) (xs free : List ℕ)
      → IsFree end s.kmem free
      → IsTaken xs free
      → ((i : ℕ) → i < length xs → s.words (seg key (j + i)) ≡ get_or 0 xs i)
      → (k : Kmem) × (give_back end s key j (length xs) ≡ ok (record s { kmem = k }))
        × IsFree end k (reverse_aux xs free)
  unfolding give_back
  give_back_lem s key j [] free f t at = (s.kmem, refl, f)
  give_back_lem s key j (x ∷ xs) free f t at =
      let here : s.words (seg key j) ≡ x =
        subst (λ i. s.words (seg key i) ≡ x) (omega arith) (at 0 (omega arith)) in
      let (k1, gave, f1, _) = kfree-page end s.kmem x free f t.real.0 t.apart.0 in
      let (k2, rest, f2) =
        give_back_lem (record s { kmem = k1 }) key (j + 1) xs (x ∷ free) f1
          (record {
            real = t.real.1;
            apart = All-both (λ y (n : x ≢ y) a. ((λ e. n (sym e)), a)) xs t.distinct.0 t.apart.1;
            distinct = t.distinct.1;
          })
          (λ i lt.
            subst (λ m. s.words (seg key m) ≡ get_or 0 xs i) (omega arith)
              (at (suc i) (omega arith))) in
      (k2, rw (here, gave) rest, f2)
