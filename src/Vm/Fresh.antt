-- ===== src/Vm/Fresh.antt =====
-- A new table for an entry of the directory that had none.
use os_ass.Base.{
  All-both, ℕ, ◌+◌, ◌*◌, ◌/◌, ◌%◌, ◌^◌, ◌<◌, ◌≡◌, ◌≢◌, ◌==◌, if◌then◌else◌, refl, sym, ap, ◌∙◌,
  subst, arith, true, false, List, ◌∷◌, All, update, update_ne, update_self, pgsize, p2v, v2p,
  ==_ne, ==_refl, inl, inr, Bool-cases, ℕ_discrete,
}
use os_ass.Kmem.{Kmem}
use os_ass.Kmem.Chain.{IsPage, Chain, IsFree}
use os_ass.Vm.{present, pte_addr, zero_page}
use os_ass.Vm.Bits.{bit_or-flags}
use os_ass.Vm.Tables.{
  pde_of, table_of, pte_of, pages, page_apart, IsVm, Chain-frame, Chain-aligned, Table, Apart,
}
use Prim.Native.Nat.{bit_or}

-- the words of a page that is cleared, and of the others
zero_page-in : (m : ℕ → ℕ) (v j : ℕ) → j < 1024 → zero_page m v (v + 4 * j) ≡ 0
zero_page-in m v j lt = ground arith

pub zero_page-out :
    (m : ℕ → ℕ) (v u j : ℕ)
    → v % pgsize ≡ 0
    → u % pgsize ≡ 0
    → v ≢ u
    → j < 1024
    → zero_page m v (u + 4 * j) ≡ m (u + 4 * j)
zero_page-out m v u j hv hu ne lt = ground arith

module _ (end : ℕ) where
  -- the entry for a page of the allocator
  pub pde_page :
      (x : ℕ)
      → IsPage end x
      → x < 2 ^ 32
      → (bit_or (v2p x) 7 ≡ v2p x + 7)
        × (present (v2p x + 7) ≡ true)
        × (p2v (pte_addr (v2p x + 7)) ≡ x)
  pde_page x h lt =
      let even : v2p x % 4096 ≡ 0 = omega (arith, h.aligned, h.below) in
      (
        bit_or-flags (v2p x) 7 (omega arith) (omega arith),
        ground arith,
        omega (arith, h.aligned, h.below),
      )

  module _ (k : Kmem) (pgdir x : ℕ) (xs : List ℕ) (page : ℕ) (h : IsVm end k pgdir (x ∷ xs))
      (lt : page < pages) (none_there : present (pde_of k.mem pgdir page) ≡ false) where
    -- the memory with the new table
    unfoldable pub fresh : ℕ → ℕ
    fresh = update (zero_page k.mem x) (pgdir + 4 * (page / 1024)) (bit_or (v2p x) 7)

    x-IsPage : IsPage end x
    x-IsPage = h.alloc.chain.1

    fresh-outside :
        (v j : ℕ)
        → v % pgsize ≡ 0
        → pgdir ≢ v
        → x ≢ v
        → j < 1024
        → fresh (v + 4 * j) ≡ k.mem (v + 4 * j)
    unfolding fresh
    fresh-outside v j aligned nd nx lj =
        update_ne (zero_page k.mem x) (pgdir + 4 * (page / 1024)) (v + 4 * j) (bit_or (v2p x) 7)
          (page_apart pgdir v (page / 1024) j h.dir.aligned aligned nd (omega arith) lj)
        ∙ zero_page-out k.mem x v j x-IsPage.aligned aligned nx lj

    fresh-inside : (j : ℕ) → j < 1024 → fresh (x + 4 * j) ≡ 0
    unfolding fresh
    fresh-inside j lj =
        update_ne (zero_page k.mem x) (pgdir + 4 * (page / 1024)) (x + 4 * j) (bit_or (v2p x) 7) (
          page_apart pgdir x (page / 1024) j h.dir.aligned x-IsPage.aligned h.dir_used.0
            (omega arith) lj)
        ∙ zero_page-in k.mem x j lj

    pub fresh-pde :
        (other : ℕ)
        → other < pages
        → pde_of fresh pgdir other
          ≡ (if page / 1024 == other / 1024 then v2p x + 7 else pde_of k.mem pgdir other)
    unfolding fresh
    fresh-pde other lo = elim (ℕ_discrete (page / 1024) (other / 1024)) [
      | yes same ↦
          rw (same, ==_refl (other / 1024))
            (update_self (zero_page k.mem x) (pgdir + 4 * (other / 1024)) (bit_or (v2p x) 7)
              ∙ (pde_page x x-IsPage h.small.0).0)
      | no away ↦ rw (==_ne (page / 1024) (other / 1024) away) (
          update_ne (zero_page k.mem x) (pgdir + 4 * (page / 1024)) (pgdir + 4 * (other / 1024))
            (bit_or (v2p x) 7) (λ e. away (omega arith))
          ∙ zero_page-out k.mem x pgdir (other / 1024) x-IsPage.aligned h.dir.aligned
              (λ e. h.dir_used.0 (sym e)) (omega arith))
    ]

    -- no translation changes
    pub fresh-pte :
        (other : ℕ) → other < pages → pte_of fresh pgdir other ≡ pte_of k.mem pgdir other
    fresh-pte other lo =
        ap (λ d. if present d then fresh (p2v (pte_addr d) + 4 * (other % 1024)) else 0)
          (fresh-pde other lo)
        ∙ elim (ℕ_discrete (page / 1024) (other / 1024)) [
          | yes same ↦
              let (_, on, at) = pde_page x x-IsPage h.small.0 in
              let gone : present (pde_of k.mem pgdir other) ≡ false =
                subst (λ d. present (k.mem (pgdir + 4 * d)) ≡ false) same none_there in
              rw (same, ==_refl (other / 1024), on, at, gone)
                (fresh-inside (other % 1024) (omega arith))
          | no away ↦
              rw (==_ne (page / 1024) (other / 1024) away)
                (elim (Bool-cases (present (pde_of k.mem pgdir other))) [
                  | inr gone ↦ rw gone refl
                  | inl found ↦
                      let (t, n, used) = h.table other lo found in
                      rw found (
                        fresh-outside (table_of k.mem pgdir other) (other % 1024) t.aligned n
                          (λ e. used.0 (sym e)) (omega arith))
                ])
        ]

    fresh-words : All (λ y. fresh y ≡ k.mem y) xs
    fresh-words =
        All-both
          (λ y aligned (n : (pgdir ≢ y) × (x ≢ y)).
            let first : y ≡ y + 4 * 0 = omega arith in
            ap fresh first ∙ fresh-outside y 0 aligned n.0 n.1 (omega arith) ∙ ap k.mem (sym first))
          xs (Chain-aligned end k.mem (k.mem x) xs h.alloc.chain.2)
          (All-both (λ y a b. (a, b)) xs h.dir_used.1 h.alloc.distinct.0)

    -- the entries of the directory, with the new one
    fresh-Table : (p : ℕ) → p < pages → Table end pgdir xs (pde_of fresh pgdir p)
    fresh-Table p lp =
        subst (Table end pgdir xs) (sym (fresh-pde p lp))
          (elim (ℕ_discrete (page / 1024) (p / 1024)) [
            | yes same ↦
                let (_, on, at) = pde_page x x-IsPage h.small.0 in
                rw (same, ==_refl (p / 1024))
                  (λ _.
                    subst (λ t. IsPage end t × (pgdir ≢ t) × All (λ y. t ≢ y) xs) (sym at)
                      (x-IsPage, h.dir_used.0, h.alloc.distinct.0))
            | no away ↦
                rw (==_ne (page / 1024) (p / 1024) away)
                  (λ found. let (t, n, used) = h.table p lp found in (t, n, used.1))
          ])

    -- an entry of the directory, by the index of the new one
    abbrev with_new : ℕ → ℕ
    with_new p = if page / 1024 == p / 1024 then v2p x + 7 else pde_of k.mem pgdir p

    with_new-Apart : (p q : ℕ) → p < pages → q < pages → Apart (with_new p) (with_new q) p q
    with_new-Apart p q lp lq =
        let (_, on, at) = pde_page x x-IsPage h.small.0 in
        elim (ℕ_discrete (page / 1024) (p / 1024)) [
          | yes sp ↦ elim (ℕ_discrete (page / 1024) (q / 1024)) [
            | yes sq ↦ λ _ _ _. sym sp ∙ sq
            | no nq ↦
                rw (==_ne (page / 1024) (q / 1024) nq, sp, ==_refl (p / 1024))
                  (λ _ found e. absurd ((h.table q lq found).2.0 (sym e ∙ at)))
          ]
          | no np ↦ elim (ℕ_discrete (page / 1024) (q / 1024)) [
            | yes sq ↦
                rw (==_ne (page / 1024) (p / 1024) np, sq, ==_refl (q / 1024))
                  (λ found _ e. absurd ((h.table p lp found).2.0 (e ∙ at)))
            | no nq ↦
                rw (==_ne (page / 1024) (p / 1024) np, ==_ne (page / 1024) (q / 1024) nq)
                  (h.apart p q lp lq)
          ]
        ]

    fresh-Apart :
        (p q : ℕ) → p < pages → q < pages → Apart (pde_of fresh pgdir p) (pde_of fresh pgdir q) p q
    fresh-Apart p q lp lq =
        subst (λ d. Apart d (pde_of fresh pgdir q) p q) (sym (fresh-pde p lp))
          (subst (λ d. Apart (with_new p) d p q) (sym (fresh-pde q lq)) (with_new-Apart p q lp lq))

    pub fresh-IsVm :
        (k' : Kmem)
        → IsFree end k' xs
        → k'.mem ≡ k.mem
        → IsVm end (record k' { mem = fresh }) pgdir xs
    fresh-IsVm k' f same = record {
      alloc = record {
        idle = f.idle;
        chain =
            Chain-frame end k.mem fresh k'.freelist xs fresh-words
              (subst (λ m. Chain end m k'.freelist xs) same f.chain);
        distinct = f.distinct;
      };
      small = h.small.1;
      dir = h.dir;
      dir_small = h.dir_small;
      dir_used = h.dir_used.1;
      table = fresh-Table;
      apart = fresh-Apart;
    }
