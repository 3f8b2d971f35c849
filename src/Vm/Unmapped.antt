-- ===== src/Vm/Unmapped.antt =====
-- `allocuvm` does not look at the result of `mappages`.
use os_ass.Base.{
  ℕ, zero, suc, ◌+◌, ◌-◌, ◌*◌, ◌/◌, ◌^◌, ◌<◌, ◌≡◌, leb, ltb, lt→ltb, ltb_ge, refl, sym, ap, ◌∙◌,
  subst, arith, true, false, [], ◌∷◌, pgsize, kernbase, v2p, u32, page_round_up, page_round_down,
  ==_ne, ok,
}
use os_ass.Kmem.{Kmem}
use os_ass.Kmem.Chain.{IsFree, IsPage-ne-zero}
use os_ass.Kmem.Laws.{kalloc-page}
use os_ass.Vm.{present, mappages_loop, mappages, alloc_loop, allocuvm, zero_page}
use os_ass.Vm.Tables.{pde_of, pte_of, IsVm}
use os_ass.Vm.Fresh.{zero_page-out}
use os_ass.Vm.Walk.{page_of, walkpgdir-full}

module _ (end : ℕ) (k : Kmem) (pgdir x page : ℕ) (h : IsVm end k pgdir (x ∷ []))
    (low : (page + 1) * pgsize < kernbase) (gone : present (pde_of k.mem pgdir page) ≡ false) where
  -- no page is left for the table
  mappages-fails :
      (k2 : Kmem)
      → IsFree end k2 []
      → present (pde_of k2.mem pgdir page) ≡ false
      → (pa perm : ℕ) → mappages k2 pgdir (page * pgsize) pgsize pa perm ≡ ok (false, k2)
  unfolding mappages mappages_loop
  mappages-fails k2 f absent pa perm =
      let a : page_round_down (page * pgsize) ≡ page * pgsize = omega arith in
      let last : page_round_down (u32 (page * pgsize + pgsize + 2 ^ 32 - 1)) ≡ page * pgsize =
        omega arith in
      let fuel : u32 (page * pgsize + 2 ^ 32 - page * pgsize) / pgsize + 1 ≡ suc zero =
        omega arith in
      let here : page ≡ page_of (page * pgsize) = omega arith in
      let full =
        walkpgdir-full end k2 pgdir (page * pgsize) f
          (subst (λ p. present (pde_of k2.mem pgdir p) ≡ false) here absent) in
      rw (a, last) (rw fuel (rw (full, mappages_loop) refl))

  -- With one free page left and no table for the next page of the process, `allocuvm` reports that the process
  -- has grown by this page, but the page has no entry, and the free page is lost.
  pub allocuvm-unmapped :
      (k' : Kmem) × (allocuvm end k pgdir (page * pgsize) ((page + 1) * pgsize)
        ≡ ok ((page + 1) * pgsize, k'))
      × (pte_of k'.mem pgdir page ≡ 0)
      × IsFree end k' []
  unfolding allocuvm alloc_loop
  allocuvm-unmapped =
      let (k1, took, f, same) = kalloc-page end k x [] h.alloc in
      let k2 = record k1 { mem = zero_page k1.mem x } in
      let f2 : IsFree end k2 [] = record { idle = f.idle; chain = f.chain; distinct = tt } in
      let pde : pde_of k2.mem pgdir page ≡ pde_of k.mem pgdir page =
        ap (λ m. zero_page m x (pgdir + 4 * (page / 1024))) same
        ∙ zero_page-out k.mem x pgdir (page / 1024) h.alloc.chain.1.aligned h.dir.aligned
            (λ e. h.dir_used.0 (sym e)) (omega arith) in
      let absent : present (pde_of k2.mem pgdir page) ≡ false = ap present pde ∙ gone in
      let over : leb kernbase ((page + 1) * pgsize) ≡ false = ground arith in
      let more : ltb ((page + 1) * pgsize) (page * pgsize) ≡ false = ltb_ge _ _ (omega arith) in
      let rounds : (page + 1) * pgsize / pgsize + 1 ≡ suc (suc page) = omega arith in
      let first : page_round_up (page * pgsize) ≡ page * pgsize = omega arith in
      let one : ltb (page * pgsize) ((page + 1) * pgsize) ≡ true = lt→ltb _ _ (omega arith) in
      let done : ltb (page * pgsize + pgsize) ((page + 1) * pgsize) ≡ false =
        ltb_ge _ _ (omega arith) in
      let fails = mappages-fails k2 f2 absent (v2p x) 6 in
      let ne = ==_ne x 0 (IsPage-ne-zero end h.alloc.chain.1) in
      (
        k2,
        rw (over, more)
            (rw (rounds, first) (rw (took, one, alloc_loop) (rw (ne, fails, done) refl))),
        rw absent refl,
        f2,
      )
