-- ===== src/Vm/Walk.antt =====
-- `walkpgdir`: the entry of an address, with a new table where there was none.
use os_ass.Base.{
  ℕ, ◌+◌, ◌*◌, ◌/◌, ◌%◌, ◌<◌, ◌≡◌, ◌==◌, if◌then◌else◌, not, refl, sym, ap, ◌∙◌, subst, arith, Bool,
  true, false, List, [], ◌∷◌, update, pgsize, p2v, v2p, u32, ==_ne, ==_refl, inl, inr, Bool-cases,
  Outcome, ok, ◌>>=◌,
}
use os_ass.Kmem.{Kmem, kalloc}
use os_ass.Kmem.Chain.{IsFree, IsPage-ne-zero}
use os_ass.Kmem.Laws.{kalloc-empty, kalloc-page}
use os_ass.Vm.{present, pte_addr, zero_page, pdx, ptx, walkpgdir}
use os_ass.Vm.Tables.{pde_of, entry_of, pte_of, pages, IsVm}
use os_ass.Vm.Fresh.{fresh, fresh-pde, fresh-pte, fresh-IsVm, pde_page}
use Prim.Native.Nat.{bit_or}

-- the page of an address
abbrev pub page_of : ℕ → ℕ
page_of va = u32 va / pgsize

pub page_of-lt : (va : ℕ) → page_of va < pages
page_of-lt va = omega arith

-- `walkpgdir` by the number of the page
walk_page : Kmem → ℕ → ℕ → Bool → Outcome (ℕ × Kmem)
walk_page k pgdir page alloc =
    if present (pde_of k.mem pgdir page)
    then ok (entry_of k.mem pgdir page, k)
    else if not alloc
    then ok (0, k)
    else (kalloc k >>= λ (pgtab, k1).
        let mem =
          update (zero_page k1.mem pgtab) (pgdir + 4 * (page / 1024)) (bit_or (v2p pgtab) 7) in
        if pgtab == 0 then ok (0, k1) else ok (pgtab + 4 * (page % 1024), record k1 { mem = mem }))

walkpgdir-page :
    (k : Kmem) (pgdir va : ℕ) (alloc : Bool)
    → walkpgdir k pgdir va alloc ≡ walk_page k pgdir (page_of va) alloc
unfolding walkpgdir walk_page
walkpgdir-page k pgdir va alloc =
    let d : pdx va ≡ page_of va / 1024 = omega arith in
    let t : ptx va ≡ page_of va % 1024 = omega arith in rw (d, t) refl

module _ (end : ℕ) where
  -- What `walkpgdir` with `alloc` gives for a page.
  pub data Walked (k : Kmem) (pgdir : ℕ) (free : List ℕ) (page : ℕ)
      : Outcome (ℕ × Kmem) → Type 0 where
    reached :
        {k' : Kmem} {free' : List ℕ} {pte : ℕ}
        → IsVm end k' pgdir free'
        → present (pde_of k'.mem pgdir page) ≡ true
        → pte ≡ entry_of k'.mem pgdir page
        → ((other : ℕ) → other < pages → pte_of k'.mem pgdir other ≡ pte_of k.mem pgdir other)
        → Walked k pgdir free page (ok (pte, k'))
    exhausted : free ≡ [] → Walked k pgdir free page (ok (0, k))

  fresh-Walked :
      (k : Kmem) (pgdir x : ℕ) (xs : List ℕ) (page : ℕ)
      → IsVm end k pgdir (x ∷ xs)
      → page < pages
      → present (pde_of k.mem pgdir page) ≡ false
      → Walked k pgdir (x ∷ xs) page (walk_page k pgdir page true)
  unfolding walk_page fresh
  fresh-Walked k pgdir x xs page h lt gone =
      let (k1, took, f, same) = kalloc-page end k x xs h.alloc in
      let ne = IsPage-ne-zero end h.alloc.chain.1 in
      let new = fresh end k pgdir x xs page h lt gone in
      let (_, on, at) = pde_page end x h.alloc.chain.1 h.small.0 in
      let pde : pde_of new pgdir page ≡ v2p x + 7 =
        fresh-pde end k pgdir x xs page h lt gone page lt ∙ rw (==_refl (page / 1024)) refl in
      rw (gone, took, ==_ne x 0 ne)
        (subst
          (λ m. Walked k pgdir (x ∷ xs) page (
            ok (
              x + 4 * (page % 1024),
              record k1 {
                mem = update (zero_page m x) (pgdir + 4 * (page / 1024)) (bit_or (v2p x) 7);
              },
            )))
          (sym same)
          (reached {k' = record k1 { mem = new }} {free' = xs}
            (fresh-IsVm end k pgdir x xs page h lt gone k1 f same) (ap present pde ∙ on)
            (ap (λ t. t + 4 * (page % 1024)) (sym (ap (λ d. p2v (pte_addr d)) pde ∙ at)))
            (fresh-pte end k pgdir x xs page h lt gone)))

  walk_page-Walked :
      (k : Kmem) (pgdir : ℕ) (free : List ℕ) (page : ℕ)
      → IsVm end k pgdir free
      → page < pages
      → Walked k pgdir free page (walk_page k pgdir page true)
  unfolding walk_page
  walk_page-Walked k pgdir free page h lt = elim (Bool-cases (present (pde_of k.mem pgdir page))) [
    | inl found ↦ rw found (reached h found refl (λ _ _. refl))
    | inr gone ↦ without free h gone
  ]
    where
      without :
          (free : List ℕ)
          → IsVm end k pgdir free
          → present (pde_of k.mem pgdir page) ≡ false
          → Walked k pgdir free page (walk_page k pgdir page true)
      without [] h gone = rw (gone, kalloc-empty end k h.alloc) (exhausted refl)
      without (x ∷ xs) h gone = fresh-Walked k pgdir x xs page h lt gone

  -- without a page for the table
  pub walkpgdir-full :
      (k : Kmem) (pgdir va : ℕ)
      → IsFree end k []
      → present (pde_of k.mem pgdir (page_of va)) ≡ false
      → walkpgdir k pgdir va true ≡ ok (0, k)
  unfolding walk_page
  walkpgdir-full k pgdir va f gone =
      walkpgdir-page k pgdir va true ∙ rw (gone, kalloc-empty end k f) refl

  pub walkpgdir-Walked :
      (k : Kmem) (pgdir : ℕ) (free : List ℕ) (va : ℕ)
      → IsVm end k pgdir free
      → Walked k pgdir free (page_of va) (walkpgdir k pgdir va true)
  walkpgdir-Walked k pgdir free va h =
      subst (Walked k pgdir free (page_of va)) (sym (walkpgdir-page k pgdir va true))
        (walk_page-Walked k pgdir free (page_of va) h (page_of-lt va))

-- Without `alloc`, `walkpgdir` changes nothing and gives the entry of the address, or 0.
pub walkpgdir-find :
    (k : Kmem) (pgdir va : ℕ)
    → walkpgdir k pgdir va false
      ≡ ok (
        (if present (pde_of k.mem pgdir (page_of va))
            then entry_of k.mem pgdir (page_of va)
            else 0),
        k,
      )
unfolding walk_page
walkpgdir-find k pgdir va =
    walkpgdir-page k pgdir va false
    ∙ elim (Bool-cases (present (pde_of k.mem pgdir (page_of va)))) [
      | inl found ↦ rw found refl
      | inr gone ↦ rw gone refl
    ]
