-- ===== src/Vm/Range.antt =====
-- The loop of `mappages`, round by round.
use os_ass.Base.{
  ℕ, zero, suc, ◌+◌, ◌-◌, ◌*◌, ◌/◌, ◌%◌, ◌^◌, ◌≤◌, ◌<◌, ◌≡◌, ◌≢◌, ◌==◌, if◌then◌else◌, refl, sym,
  ap, ◌∙◌, subst, arith, Bool, true, false, List, update, pgsize, u32, ==_ne, inl, inr, Bool-cases,
  Outcome, ok, panic, ◌>>=◌, page_round_down,
}
use os_ass.Kmem.{Kmem}
use os_ass.Kmem.Chain.{IsPage-ne-zero}
use os_ass.Vm.{present, walkpgdir, mappages_loop, mappages}
use os_ass.Vm.Bits.{bit_or-flags, bit_or-present}
use os_ass.Vm.Tables.{
  entry_of, pte_of, pages, IsVm, written-IsVm, written-pte, written-other, written,
}
use os_ass.Vm.Walk.{page_of, Walked, reached, exhausted, walkpgdir-Walked}
use os_ass.Vm.Map.{Maps, mapped, no_memory, remap, Maps-suc}
use Prim.Native.Nat.{bit_or}

module _ (end pgdir perm : ℕ) (few : perm < 8) (even : perm % 2 ≡ 0) where
  -- the entry that a round writes, and the state after it
  flagged : ℕ → ℕ
  flagged pa = bit_or (bit_or pa perm) 1

  flagged_sum : (pa : ℕ) → pa % pgsize ≡ 0 → flagged pa ≡ pa + perm + 1
  unfolding flagged
  flagged_sum pa aligned =
      let or : bit_or pa perm ≡ pa + perm = bit_or-flags pa perm (omega arith) few in
      ap (λ n. bit_or n 1) or ∙ bit_or-present (pa + perm) (omega arith)

  after : Kmem → ℕ → ℕ → Kmem
  after k pte pa = record k { mem = update k.mem pte (flagged pa) }

  -- the rest of the loop, once the entry is written
  go_on : ℕ → Kmem → ℕ → ℕ → ℕ → Outcome (Bool × Kmem)
  go_on fuel k2 first last pa =
      if first * pgsize == last
      then ok (true, k2)
      else mappages_loop fuel k2 pgdir (u32 (first * pgsize + pgsize)) last (u32 (pa + pgsize)) perm

  -- the body of the loop, once `walkpgdir` has given an entry
  after_walk : ℕ → ℕ → ℕ → ℕ → ℕ × Kmem → Outcome (Bool × Kmem)
  after_walk fuel first last pa (pte, k1) =
      if pte == 0
      then ok (false, k1)
      else if present (k1.mem pte)
      then panic
      else go_on fuel (after k1 pte pa) first last pa

  -- one round, from what the rest of the loop does
  after_walk-Maps :
      (n fuel : ℕ) (k : Kmem) (free : List ℕ) (first pa : ℕ) (o : Outcome (ℕ × Kmem))
      → IsVm end k pgdir free
      → first + n < pages
      → pa % pgsize ≡ 0
      → Walked end k pgdir free first o
      → ((k2 : Kmem) (free2 : List ℕ)
          → IsVm end k2 pgdir free2
          → Maps end pgdir perm k2
              (first + 1)
              n
              (pa + pgsize)
              (go_on fuel k2 first ((first + n) * pgsize) pa))
      → Maps end pgdir perm k first
          (suc n)
          pa
          (o >>= after_walk fuel first ((first + n) * pgsize) pa)
  unfolding after_walk after written
  after_walk-Maps n fuel k free first pa _ h le aligned (exhausted none_left) ih =
      no_memory (subst (IsVm end k pgdir) none_left h) (λ _ _. inr refl) (λ _ _ _. refl)
  after_walk-Maps n fuel k free first pa _ h le aligned
        (reached {k' = k1} {free' = free1} {pte = pte} h1 there at same) ih =
      let lt : first < pages = omega arith in
      let table = (h1.table first lt there).0 in
      let ne : pte ≢ 0 = λ z. IsPage-ne-zero end table (omega (arith, at, z)) in
      let old : k1.mem pte ≡ pte_of k.mem pgdir first =
        ap k1.mem at ∙ rw there refl ∙ same first lt in
      elim (Bool-cases (present (pte_of k.mem pgdir first))) [
        | inl found ↦
            rw (==_ne pte 0 ne, old, found)
              (remap {i = 0} (omega arith)
                (subst (λ page. present (pte_of k.mem pgdir page) ≡ true) (omega arith) found))
        | inr gone ↦
            let k2 = after k1 (entry_of k1.mem pgdir first) pa in
            let w = flagged pa in
            rw (==_ne pte 0 ne, ap present old ∙ gone)
              (subst
                (λ p.
                  Maps end pgdir perm k first (suc n) pa
                    (go_on fuel (after k1 p pa) first ((first + n) * pgsize) pa))
                (sym at)
                (Maps-suc end pgdir perm k k2 first n pa le gone
                  (written-pte end k1 pgdir free1 first w h1 lt there
                    ∙ flagged_sum pa aligned
                    ∙ omega arith)
                  (λ page lp ne.
                    written-other end k1 pgdir free1 first w h1 lt there page lp ne ∙ same page lp)
                  (go_on fuel k2 first ((first + n) * pgsize) pa)
                  (ih k2 free1 (written-IsVm end k1 pgdir free1 first w h1 lt there))))
      ]

  go_on-Maps :
      (n fuel : ℕ) (k : Kmem) (free : List ℕ) (first pa : ℕ)
      → IsVm end k pgdir free
      → first + n < pages
      → pa + n * pgsize < 2 ^ 32
      → ((n' : ℕ)
          → n ≡ suc n'
          → Maps end pgdir perm k (first + 1) (suc n') (pa + pgsize) (
              mappages_loop fuel k pgdir
                ((first + 1) * pgsize)
                ((first + 1 + n') * pgsize)
                (pa + pgsize)
                perm))
      → Maps end pgdir perm k
          (first + 1)
          n
          (pa + pgsize)
          (go_on fuel k first ((first + n) * pgsize) pa)
  unfolding go_on
  go_on-Maps zero fuel k free first pa h le small ih =
      let same : (first * pgsize == (first + 0) * pgsize) ≡ true = ground arith in
      rw same
        (mapped h (λ i li. absurd (omega arith)) (λ i li. absurd (omega arith)) (λ _ _ _. refl))
  go_on-Maps (suc n) fuel k free first pa h le small ih =
      let a : u32 (first * pgsize + pgsize) ≡ (first + 1) * pgsize = omega arith in
      let p : u32 (pa + pgsize) ≡ pa + pgsize = omega arith in
      let l : (first + suc n) * pgsize ≡ (first + 1 + n) * pgsize = omega arith in
      rw (==_ne (first * pgsize) ((first + suc n) * pgsize) (λ e. omega arith), a, p, l) (ih n refl)

  mappages_loop-Maps :
      (n fuel : ℕ) (k : Kmem) (free : List ℕ) (first pa : ℕ)
      → n < fuel
      → IsVm end k pgdir free
      → first + n < pages
      → pa % pgsize ≡ 0
      → pa + n * pgsize < 2 ^ 32
      → Maps end pgdir perm k first
          (suc n)
          pa
          (mappages_loop fuel k pgdir (first * pgsize) ((first + n) * pgsize) pa perm)
  unfolding mappages_loop after_walk after flagged go_on
  mappages_loop-Maps n zero k free first pa lt h le aligned small = absurd (omega arith)
  mappages_loop-Maps n (suc fuel) k free first pa lt h le aligned small =
      let here : page_of (first * pgsize) ≡ first = omega arith in
      after_walk-Maps n fuel k free first pa (walkpgdir k pgdir (first * pgsize) true) h le aligned
        (subst (λ page. Walked end k pgdir free page (walkpgdir k pgdir (first * pgsize) true)) here
          (walkpgdir-Walked end k pgdir free (first * pgsize) h))
        (λ k2 free2 h2. go_on-Maps n fuel k2 free2 first pa h2 le small (λ n' e.
          mappages_loop-Maps n' fuel k2 free2 (first + 1) (pa + pgsize) (omega arith) h2
            (omega arith) (omega arith) (omega arith)))

  -- `mappages` for a range that ends below 2 ^ 32 and physical memory from a page on. Either every page of
  -- the range, none of which had an entry, has one now: its physical page with the flags and PTE_P. Or the
  -- free pages have run out, with a part of the range mapped. No other page's translation changes.
  -- It panics only when a page of the range has an entry.
  pub mappages_lem :
      (k : Kmem) (free : List ℕ) (va size pa : ℕ)
      → IsVm end k pgdir free
      → 0 < size
      → va + size ≤ 2 ^ 32
      → pa % pgsize ≡ 0
      → pa + ((va + size - 1) / pgsize - va / pgsize) * pgsize < 2 ^ 32
      → Maps end pgdir perm k
          (va / pgsize)
          ((va + size - 1) / pgsize - va / pgsize + 1)
          pa
          (mappages k pgdir va size pa perm)
  unfolding mappages
  mappages_lem k free va size pa h some_bytes fits aligned small =
      let first = va / pgsize in
      let n = (va + size - 1) / pgsize - va / pgsize in
      let last : page_round_down (u32 (va + size + 2 ^ 32 - 1)) ≡ (first + n) * pgsize =
        omega arith in
      let fuel : u32 ((first + n) * pgsize + 2 ^ 32 - first * pgsize) / pgsize + 1 ≡ n + 1 =
        omega arith in
      let count : suc n ≡ n + 1 = omega arith in
      rw last (
        rw fuel (
          subst
            (λ c.
              Maps end pgdir perm k first c pa
                (mappages_loop (n + 1) k pgdir (first * pgsize) ((first + n) * pgsize) pa perm))
            count
            (mappages_loop-Maps n (n + 1) k free first pa (omega arith) h (omega arith) aligned
              small)))
