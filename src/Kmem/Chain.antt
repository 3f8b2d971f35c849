-- ===== src/Kmem/Chain.antt =====
-- The free list as a list of pages.
use os_ass.Base.{
  ℕ, ◌%◌, ◌≤◌, ◌<◌, ◌≡◌, ◌≢◌, false, arith, List, [], ◌∷◌, update, All, pgsize, phystop, v2p, subst,
  sym,
}
use os_ass.Kmem.{Kmem, junk}

-- every two elements differ
abbrev pub Distinct : List ℕ → Type 0
Distinct [] = Unit
Distinct (x ∷ xs) = All (λ y. x ≢ y) xs × Distinct xs

module _ (end : ℕ) where
  -- what `kfree` accepts: a page-aligned address of the memory that the kernel manages
  pub record IsPage (v : ℕ) : Type 0 where
    pub aligned : v % pgsize ≡ 0
    pub above : end ≤ v
    pub below : v2p v < phystop

  -- Following the first words from `p` meets just the pages of the list, and ends at 0.
  abbrev pub Chain : (ℕ → ℕ) → ℕ → List ℕ → Type 0
  Chain m p [] = p ≡ 0
  Chain m p (x ∷ xs) = (p ≡ x) × IsPage x × Chain m (m x) xs

  -- the allocator between two calls, with the free pages `xs`, the next one first
  pub record IsFree (k : Kmem) (xs : List ℕ) : Type 0 where
    pub idle : k.held ≡ false
    pub chain : Chain k.mem k.freelist xs
    pub distinct : Distinct xs

  pub IsPage-ne-zero : {v : ℕ} → IsPage v → v ≢ 0
  IsPage-ne-zero h = omega arith

  -- Writes inside the page `v` leave the first words of other pages alone.
  pub Chain-update :
      (m : ℕ → ℕ) (v w p : ℕ) (xs : List ℕ)
      → IsPage v
      → All (λ x. v ≢ x) xs
      → Chain m p xs
      → Chain (update (junk m v) v w) p xs
  Chain-update m v w p [] page fresh c = c
  Chain-update m v w p (x ∷ xs) page fresh c = (
    c.0,
    c.1,
    subst (λ q. Chain (update (junk m v) v w) q xs) (sym same)
        (Chain-update m v w (m x) xs page fresh.1 c.2),
  )
    where
      same : update (junk m v) v w x ≡ m x
      same = ground (arith, fresh.0, c.1)
