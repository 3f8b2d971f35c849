-- ===== src/Kmem/Laws.antt =====
-- `kalloc` and `kfree` against a stack of free pages.
use os_ass.Base.{ℕ, ◌≡◌, ◌≢◌, refl, arith, List, [], ◌∷◌, update, All, ok, subst}
use os_ass.Kmem.{Kmem, junk, kalloc, kfree}
use os_ass.Kmem.Chain.{IsPage, Chain, IsFree, IsPage-ne-zero, Chain-update}

module _ (end : ℕ) where
  -- `kalloc` on an empty free list returns 0 and changes nothing.
  pub kalloc-empty : (k : Kmem) → IsFree end k [] → kalloc k ≡ ok (0, k)
  unfolding kalloc
  kalloc-empty k f = ground arith

  -- `kalloc` takes the first free page, leaves the others free and changes no memory.
  pub kalloc-page :
      (k : Kmem) (x : ℕ) (xs : List ℕ)
      → IsFree end k (x ∷ xs)
      → (k' : Kmem) × (kalloc k ≡ ok (x, k')) × IsFree end k' xs × (k'.mem ≡ k.mem)
  unfolding kalloc
  kalloc-page k x xs f = (
    record k { freelist = k.mem x },
    ground (arith, IsPage-ne-zero end page),
    record { idle = f.idle; chain = f.chain.2; distinct = f.distinct.1 },
    refl,
  )
    where
      page : IsPage end x
      page = f.chain.1

  -- `kfree` of a page that is not free puts it in front of the free list.
  pub kfree-page :
      (k : Kmem) (v : ℕ) (xs : List ℕ)
      → IsFree end k xs
      → IsPage end v
      → All (λ x. v ≢ x) xs
      → (k' : Kmem) × (kfree end k v ≡ ok k') × IsFree end k' (v ∷ xs) × (k'.use_lock ≡ k.use_lock)
  unfolding kfree
  kfree-page k v xs f page fresh = (
    record k { freelist = v; mem = update (junk k.mem v) v k.freelist },
    ground arith,
    record {
      idle = f.idle;
      chain = (
        refl,
        page,
        subst (λ q. Chain end (update (junk k.mem v) v k.freelist) q xs) (ground arith)
            (Chain-update end k.mem v k.freelist k.freelist xs page fresh f.chain),
      );
      distinct = (fresh, f.distinct);
    },
    refl,
  )
