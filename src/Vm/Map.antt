-- ===== src/Vm/Map.antt =====
-- `mappages`: the pages of a range get their entries, and no other translation changes.
use os_ass.Base.{
  ℕ, zero, suc, ◌+◌, ◌*◌, ◌≤◌, ◌<◌, ◌≡◌, ◌≢◌, sym, ap, ◌∙◌, subst, arith, Bool, true, false, List,
  [], pgsize, inl, inr, ◌⊎◌, Outcome, ok, panic,
}
use os_ass.Kmem.{Kmem}
use os_ass.Vm.{present}
use os_ass.Vm.Tables.{pte_of, pages, IsVm}

-- the entry of page `i` of a range
abbrev pub entry_for : ℕ → ℕ → ℕ → ℕ
entry_for pa perm i = pa + i * pgsize + perm + 1

abbrev pub IsOutside : ℕ → ℕ → ℕ → Type 0
IsOutside first count page = (page < first) ⊎ (first + count ≤ page)

-- the pages of a range: the first one, and those after it
split_index :
    (first count : ℕ) (P : ℕ → ℕ → Type 0)
    → P 0 first
    → ((j : ℕ) → j < count → P (suc j) (first + 1 + j))
    → (i : ℕ) → i < suc count
    → P i (first + i)
split_index first count P here after zero lt = subst (P 0) (omega arith) here
split_index first count P here after (suc j) lt =
    subst (P (suc j)) (omega arith) (after j (omega arith))

module _ (end pgdir perm : ℕ) where
  -- What `mappages` has done to `count` pages from `first` on, for physical memory from `pa` on.
  pub data Maps (k : Kmem) (first count pa : ℕ) : Outcome (Bool × Kmem) → Type 0 where
    mapped :
        {k' : Kmem} {free' : List ℕ}
        → IsVm end k' pgdir free'
        → ((i : ℕ) → i < count → present (pte_of k.mem pgdir (first + i)) ≡ false)
        → ((i : ℕ) → i < count → pte_of k'.mem pgdir (first + i) ≡ entry_for pa perm i)
        → ((page : ℕ)
            → page < pages
            → IsOutside first count page
            → pte_of k'.mem pgdir page ≡ pte_of k.mem pgdir page)
        → Maps k first count pa (ok (true, k'))
    no_memory :
        {k' : Kmem}
        → IsVm end k' pgdir []
        → ((i : ℕ)
            → i < count
            → (pte_of k'.mem pgdir (first + i) ≡ entry_for pa perm i)
              ⊎ (pte_of k'.mem pgdir (first + i) ≡ pte_of k.mem pgdir (first + i)))
        → ((page : ℕ)
            → page < pages
            → IsOutside first count page
            → pte_of k'.mem pgdir page ≡ pte_of k.mem pgdir page)
        → Maps k first count pa (ok (false, k'))
    remap :
        {i : ℕ}
        → i < count
        → present (pte_of k.mem pgdir (first + i)) ≡ true
        → Maps k first count pa panic

  -- the rest of the range, after its first page
  module _ (k k2 : Kmem) (first count pa : ℕ) (le : first + count < pages)
      (free : present (pte_of k.mem pgdir first) ≡ false)
      (now : pte_of k2.mem pgdir first ≡ entry_for pa perm 0)
      (others : (page : ℕ)
        → page < pages
        → page ≢ first
        → pte_of k2.mem pgdir page ≡ pte_of k.mem pgdir page) where
    later :
        (j : ℕ)
        → j < count
        → pte_of k2.mem pgdir (first + 1 + j) ≡ pte_of k.mem pgdir (first + 1 + j)
    later j lj = others (first + 1 + j) (omega arith) (omega arith)

    outer :
        (m : ℕ → ℕ)
        → ((page : ℕ)
            → page < pages
            → IsOutside (first + 1) count page
            → pte_of m pgdir page ≡ pte_of k2.mem pgdir page)
        → (page : ℕ) → page < pages
        → IsOutside first (suc count) page
        → pte_of m pgdir page ≡ pte_of k.mem pgdir page
    outer m same page lp out =
        same page lp (elim out [ inl b ↦ inl (omega arith) | inr a ↦ inr (omega arith) ])
        ∙ others page lp (elim out [ inl b ↦ (λ q. omega arith) | inr a ↦ (λ q. omega arith) ])

    kept :
        (m : ℕ → ℕ)
        → ((page : ℕ)
            → page < pages
            → IsOutside (first + 1) count page
            → pte_of m pgdir page ≡ pte_of k2.mem pgdir page)
        → pte_of m pgdir first ≡ entry_for pa perm 0
    kept m same = same first (omega arith) (inl (omega arith)) ∙ now

    pub Maps-suc :
        (o : Outcome (Bool × Kmem))
        → Maps k2 (first + 1) count (pa + pgsize) o
        → Maps k first (suc count) pa o
    Maps-suc _ (mapped {k' = k'} h unmapped done same) =
        mapped h
          (split_index first count (λ _ page. present (pte_of k.mem pgdir page) ≡ false) free
            (λ j lj. ap present (sym (later j lj)) ∙ unmapped j lj))
          (split_index first count (λ i page. pte_of k'.mem pgdir page ≡ entry_for pa perm i)
            (kept k'.mem same) (λ j lj. done j lj ∙ omega arith))
          (outer k'.mem same)
    Maps-suc _ (no_memory {k' = k'} h done same) =
        no_memory h
          (split_index first count
            (λ i page.
              (pte_of k'.mem pgdir page ≡ entry_for pa perm i)
              ⊎ (pte_of k'.mem pgdir page ≡ pte_of k.mem pgdir page))
            (inl (kept k'.mem same))
            (λ j lj. elim (done j lj) [
              | inl new ↦ inl (new ∙ omega arith)
              | inr old ↦ inr (old ∙ later j lj)
            ]))
          (outer k'.mem same)
    Maps-suc _ (remap {i = i} li found) = remap {i = suc i} (omega arith) (
        subst (λ page. present (pte_of k.mem pgdir page) ≡ true) (omega arith)
          (ap present (sym (later i li)) ∙ found))
