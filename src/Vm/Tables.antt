-- ===== src/Vm/Tables.antt =====
-- When the memory holds a page directory: its tables are pages of their own, apart from the free ones.
use os_ass.Base.{
  All-both, ℕ, ◌+◌, ◌*◌, ◌/◌, ◌%◌, ◌^◌, ◌<◌, ◌≡◌, ◌≢◌, if◌then◌else◌, refl, sym, ap, ◌∙◌, subst,
  arith, true, List, [], ◌∷◌, All, update, ℕ_discrete, update_ne, update_self, pgsize, p2v, inl,
  inr, Bool-cases,
}
use os_ass.Kmem.{Kmem}
use os_ass.Kmem.Chain.{IsPage, Chain, IsFree}
use os_ass.Vm.{present, pte_addr}

-- the entry of a page number in the directory, the table that it names, and the entry there
abbrev pub pde_of : (ℕ → ℕ) → ℕ → ℕ → ℕ
pde_of m pgdir page = m (pgdir + 4 * (page / 1024))

abbrev pub table_of : (ℕ → ℕ) → ℕ → ℕ → ℕ
table_of m pgdir page = p2v (pte_addr (pde_of m pgdir page))

abbrev pub entry_of : (ℕ → ℕ) → ℕ → ℕ → ℕ
entry_of m pgdir page = table_of m pgdir page + 4 * (page % 1024)

-- the entry of a page, and 0 where the directory has no table for it
abbrev pub pte_of : (ℕ → ℕ) → ℕ → ℕ → ℕ
pte_of m pgdir page = if present (pde_of m pgdir page) then m (entry_of m pgdir page) else 0

abbrev pub pages : ℕ
pages = 2 ^ 20

-- Words of two pages are at different addresses.
pub page_apart :
    (u v i j : ℕ)
    → u % pgsize ≡ 0
    → v % pgsize ≡ 0
    → u ≢ v
    → i < 1024
    → j < 1024
    → u + 4 * i ≢ v + 4 * j
page_apart u v i j hu hv ne hi hj e = ne (omega arith)

-- two entries of the directory name two tables
abbrev pub Apart : ℕ → ℕ → ℕ → ℕ → Type 0
Apart d e page other =
    present d ≡ true
    → present e ≡ true
    → p2v (pte_addr d) ≡ p2v (pte_addr e)
    → page / 1024 ≡ other / 1024

module _ (end : ℕ) where
  -- what holds of an entry of the directory
  abbrev pub Table : ℕ → List ℕ → ℕ → Type 0
  Table pgdir free d =
      present d ≡ true
      → IsPage end (p2v (pte_addr d))
        × (pgdir ≢ p2v (pte_addr d))
        × All (λ x. p2v (pte_addr d) ≢ x) free

  -- the allocator's page list, and the page directory with its tables
  pub record IsVm (k : Kmem) (pgdir : ℕ) (free : List ℕ) : Type 0 where
    pub alloc : IsFree end k free
    pub small : All (λ x. x < 2 ^ 32) free
    pub dir : IsPage end pgdir
    pub dir_small : pgdir < 2 ^ 32
    pub dir_used : All (λ x. pgdir ≢ x) free
    pub table : (page : ℕ) → page < pages → Table pgdir free (pde_of k.mem pgdir page)
    pub apart :
        (page other : ℕ)
        → page < pages
        → other < pages
        → Apart (pde_of k.mem pgdir page) (pde_of k.mem pgdir other) page other

  -- a change that leaves the first words of the free pages alone
  pub Chain-frame :
      (m m' : ℕ → ℕ) (p : ℕ) (xs : List ℕ)
      → All (λ x. m' x ≡ m x) xs
      → Chain end m p xs
      → Chain end m' p xs
  Chain-frame m m' p [] same c = c
  Chain-frame m m' p (x ∷ xs) same c =
      (c.0, c.1, subst (λ q. Chain end m' q xs) (sym same.0) (Chain-frame m m' (m x) xs same.1 c.2))

  pub Chain-aligned :
      (m : ℕ → ℕ) (p : ℕ) (xs : List ℕ) → Chain end m p xs → All (λ x. x % pgsize ≡ 0) xs
  Chain-aligned m p [] c = tt
  Chain-aligned m p (x ∷ xs) c = (c.1.aligned, Chain-aligned m (m x) xs c.2)

  -- A word of a page that is not free changes.
  module _ (k : Kmem) (free : List ℕ) (v i w : ℕ) where
    pub write-IsFree :
        IsFree end k free
        → v % pgsize ≡ 0
        → i < 1024
        → All (λ x. v ≢ x) free
        → IsFree end (record k { mem = update k.mem (v + 4 * i) w }) free
    write-IsFree f aligned lt used = record {
      idle = f.idle;
      chain =
          Chain-frame k.mem (update k.mem (v + 4 * i) w) k.freelist free
            (All-both
              (λ x a n.
                update_ne k.mem (v + 4 * i) x w
                  (λ e. page_apart v x i 0 aligned a n lt (omega arith) (e ∙ omega arith)))
              free (Chain-aligned k.mem k.freelist free f.chain) used)
            f.chain;
      distinct = f.distinct;
    }

  pub entries_apart :
      (k : Kmem) (pgdir : ℕ) (free : List ℕ)
      → IsVm k pgdir free
      → (page other : ℕ) → page < pages
      → other < pages
      → present (pde_of k.mem pgdir page) ≡ true
      → present (pde_of k.mem pgdir other) ≡ true
      → page ≢ other
      → entry_of k.mem pgdir page ≢ entry_of k.mem pgdir other
  entries_apart k pgdir free h page other lt lo there found ne e =
      let t = table_of k.mem pgdir page in
      let u = table_of k.mem pgdir other in
      let ht = (h.table page lt there).0.aligned in
      let hu = (h.table other lo found).0.aligned in
      elim (ℕ_discrete t u) [
        | yes same ↦
            let d = h.apart page other lt lo there found same in
            let i : page % 1024 ≡ other % 1024 = omega arith in ne (omega (arith, d, i))
        | no away ↦
            page_apart t u (page % 1024) (other % 1024) ht hu away (omega arith) (omega arith) e
      ]

  -- An entry of a table changes: the other translations stay.
  module _ (k : Kmem) (pgdir : ℕ) (free : List ℕ) (page w : ℕ) (h : IsVm k pgdir free)
      (lt : page < pages) (there : present (pde_of k.mem pgdir page) ≡ true) where
    unfoldable pub written : ℕ → ℕ
    written = update k.mem (entry_of k.mem pgdir page) w

    pub written-pde :
        (other : ℕ) → other < pages → pde_of written pgdir other ≡ pde_of k.mem pgdir other
    unfolding written
    written-pde other lo =
        let (t, n, _) = h.table page lt there in
        update_ne k.mem (entry_of k.mem pgdir page) (pgdir + 4 * (other / 1024)) w (λ e.
          page_apart pgdir (table_of k.mem pgdir page) (other / 1024) (page % 1024) h.dir.aligned
            t.aligned n (omega arith) (omega arith) (sym e))

    pub written-IsVm : IsVm (record k { mem = written }) pgdir free
    unfolding written
    written-IsVm =
        let (t, n, used) = h.table page lt there in
        record {
          alloc =
              write-IsFree k free (table_of k.mem pgdir page) (page % 1024) w h.alloc t.aligned
                (omega arith) used;
          small = h.small;
          dir = h.dir;
          dir_small = h.dir_small;
          dir_used = h.dir_used;
          table = λ p lp. subst (Table pgdir free) (sym (written-pde p lp)) (h.table p lp);
          apart = λ p q lp lq.
              subst (λ d. Apart d (pde_of written pgdir q) p q) (sym (written-pde p lp))
                (subst (λ d. Apart (pde_of k.mem pgdir p) d p q) (sym (written-pde q lq))
                  (h.apart p q lp lq));
        }

    pub written-pte : pte_of written pgdir page ≡ w
    unfolding written
    written-pte =
        ap (λ d. if present d then written (p2v (pte_addr d) + 4 * (page % 1024)) else 0)
          (written-pde page lt)
        ∙ rw there (update_self k.mem (entry_of k.mem pgdir page) w)

    pub written-other :
        (other : ℕ)
        → other < pages
        → other ≢ page
        → pte_of written pgdir other ≡ pte_of k.mem pgdir other
    unfolding written
    written-other other lo ne =
        ap (λ d. if present d then written (p2v (pte_addr d) + 4 * (other % 1024)) else 0)
          (written-pde other lo)
        ∙ elim (Bool-cases (present (pde_of k.mem pgdir other))) [
          | inr gone ↦ rw gone refl
          | inl found ↦ rw found (
              update_ne k.mem (entry_of k.mem pgdir page) (entry_of k.mem pgdir other) w
                (entries_apart k pgdir free h page other lt lo there found (λ q. ne (sym q))))
        ]
