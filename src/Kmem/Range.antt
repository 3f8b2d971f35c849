-- ===== src/Kmem/Range.antt =====
-- `freerange` and the two phases of initialisation.
use os_ass.Base.{
  ℕ, zero, suc, ◌+◌, ◌-◌, ◌*◌, ◌/◌, ◌%◌, ◌≤◌, ◌<◌, ◌≡◌, refl, arith, List, [], ◌∷◌, pgsize,
  page_round_up, All, ok, ◌⊎◌, ◌≢◌, kernbase, ◌∙◌, phystop, inl, false, true,
}
use os_ass.Kmem.{Kmem, freerange_loop, freerange, kinit1, kinit2}
use os_ass.Kmem.Chain.{IsPage, IsFree}
use os_ass.Kmem.Laws.{kfree-page}

-- `n` pages from `p` on, pushed one after the other
unfoldable pub freed : ℕ → ℕ → List ℕ → List ℕ
freed p zero xs = xs
freed p (suc n) xs = freed (p + pgsize) n (p ∷ xs)

-- what is free lies outside `[p, vend)`
abbrev pub Outside : ℕ → ℕ → List ℕ → Type 0
Outside p vend xs = All (λ x. (x < p) ⊎ (vend ≤ x)) xs

Outside-fresh : (p vend : ℕ) (xs : List ℕ) → p < vend → Outside p vend xs → All (λ x. p ≢ x) xs
Outside-fresh p vend [] h o = tt
Outside-fresh p vend (x ∷ xs) h o = (omega arith, Outside-fresh p vend xs h o.1)

Outside-step : (p vend : ℕ) (xs : List ℕ) → Outside p vend xs → Outside (p + pgsize) vend xs
Outside-step p vend [] o = tt
Outside-step p vend (x ∷ xs) o = (omega arith, Outside-step p vend xs o.1)

-- a range of kernel addresses that the allocator may manage
pub record IsRange (end p vend : ℕ) : Type 0 where
  pub aligned : p % pgsize ≡ 0
  pub above : end ≤ p
  pub kernel : kernbase ≤ p
  pub below : vend ≤ kernbase + phystop

module _ (end : ℕ) where
  freerange_loop_lem :
      (fuel n : ℕ) (k : Kmem) (p vend : ℕ) (xs : List ℕ)
      → n ≤ fuel
      → p + n * pgsize ≤ vend
      → vend < p + (n + 1) * pgsize
      → IsRange end p vend
      → IsFree end k xs
      → Outside p vend xs
      → (k' : Kmem) × (freerange_loop end fuel k p vend ≡ ok k')
        × IsFree end k' (freed p n xs)
        × (k'.use_lock ≡ k.use_lock)
  unfolding freerange_loop freed
  freerange_loop_lem zero zero k p vend xs le lo hi r f o = (k, refl, f, refl)
  freerange_loop_lem zero (suc n) k p vend xs le lo hi r f o = absurd (omega arith)
  freerange_loop_lem (suc fuel) zero k p vend xs le lo hi r f o = (k, ground arith, f, refl)
  freerange_loop_lem (suc fuel) (suc n) k p vend xs le lo hi r f o =
      let page : IsPage end p = record {
        aligned = r.aligned;
        above = r.above;
        below = grind (arith, r.kernel, r.below);
      } in
      let (k1, e1, f1, u1) =
        kfree-page end k p xs f page (Outside-fresh p vend xs (omega arith) o) in
      let (k2, e2, f2, u2) =
        freerange_loop_lem fuel n k1 (p + pgsize) vend (p ∷ xs) (omega arith) (omega arith)
          (omega arith) (omega arith) f1 (omega arith, Outside-step p vend xs o) in
      (k2, ground arith, f2, u2 ∙ u1)

  -- `freerange` pushes exactly the whole pages of `[PGROUNDUP(vstart), vend)`, in ascending order:
  -- its fuel is enough. The range is one that the allocator may manage, nothing in it is free yet.
  pub freerange_lem :
      (k : Kmem) (vstart vend : ℕ) (xs : List ℕ)
      → page_round_up vstart ≤ vend
      → IsRange end (page_round_up vstart) vend
      → IsFree end k xs
      → Outside (page_round_up vstart) vend xs
      → (k' : Kmem) × (freerange end k vstart vend ≡ ok k')
        × IsFree end k' (freed (page_round_up vstart) ((vend - page_round_up vstart) / pgsize) xs)
        × (k'.use_lock ≡ k.use_lock)
  unfolding freerange
  freerange_lem k vstart vend xs le r f o =
      freerange_loop_lem (vend / pgsize) ((vend - page_round_up vstart) / pgsize) k
        (page_round_up vstart) vend xs (omega arith) (omega arith) (omega arith) r f o

Outside-freed :
    (p n q vend : ℕ) (xs : List ℕ)
    → p + n * pgsize ≤ q
    → Outside q vend xs
    → Outside q vend (freed p n xs)
unfolding freed
Outside-freed p zero q vend xs h o = o
Outside-freed p (suc n) q vend xs h o =
    Outside-freed (p + pgsize) n q vend (p ∷ xs) (omega arith) (inl (omega arith), o)

-- the pages of `freerange(vstart, vend)` on top of `xs`
abbrev pub range_pages : ℕ → ℕ → List ℕ → List ℕ
range_pages vstart vend xs =
    freed (page_round_up vstart) ((vend - page_round_up vstart) / pgsize) xs

-- `kinit1(end, mid)` on the zeroed `kmem`, then `kinit2(mid, top)`, as `main` makes them: the free
-- list holds every whole page from `end` to `top`, each once, and from then on `kmem.lock` is used.
kinit_lem :
    (end mid top : ℕ) (m : ℕ → ℕ)
    → IsRange end (page_round_up end) mid
    → IsRange end (page_round_up mid) top
    → page_round_up end ≤ mid
    → mid ≤ page_round_up mid
    → page_round_up mid ≤ top
    → (k1 k2 : Kmem) × (kinit1 end
          (record { held = false; use_lock = false; freelist = 0; mem = m })
          end
          mid
        ≡ ok k1)
      × (kinit2 end k1 mid top ≡ ok k2)
      × IsFree end k2 (range_pages mid top (range_pages end mid []))
      × (k2.use_lock ≡ true)
unfolding kinit1 kinit2
kinit_lem end mid top m r1 r2 h1 h2 h3 =
    let (k1, e1, f1, u1) =
      freerange_lem end (record { held = false; use_lock = false; freelist = 0; mem = m }) end mid
        [] h1 r1 (record { idle = refl; chain = refl; distinct = tt }) tt in
    let (k2, e2, f2, u2) = freerange_lem end k1 mid top (range_pages end mid []) h3 r2 f1 (
      Outside-freed (page_round_up end) ((mid - page_round_up end) / pgsize) (page_round_up mid) top
        [] (omega arith) tt) in
    (
      k1,
      record k2 { use_lock = true },
      e1,
      ground arith,
      record { idle = f2.idle; chain = f2.chain; distinct = f2.distinct },
      refl,
    )
