-- ===== src/Vm.antt =====
-- vm.c: two-level page tables in the words of physical memory, over the allocator of kalloc.c. A page
-- table is given by its kernel address. `end` and `data`, which the linker defines, are parameters.
mod Bits
mod Tables
mod Fresh
mod Walk
mod Map
mod Range
mod User
mod Unmapped
mod Copy
mod Tests
use os_ass.Base.{
  ℕ, zero, suc, ◌+◌, ◌-◌, ◌*◌, ◌/◌, ◌%◌, ◌^◌, Bool, true, false, not, ◌&&◌, leb, ltb, ◌==◌,
  if◌then◌else◌, List, [], ◌∷◌, update, Outcome, ok, panic, ◌>>=◌, u32, pgsize, kernbase, phystop,
  page_round_up, page_round_down, v2p, p2v,
}
use os_ass.Kmem.{Kmem, kalloc, kfree}
use Prim.Native.Nat.{bit_or, bit_and}

abbrev pdx : ℕ → ℕ
pdx va = u32 va / 2 ^ 22

abbrev ptx : ℕ → ℕ
ptx va = u32 va / 2 ^ 12 % 1024

-- `pte & PTE_P`
abbrev pub present : ℕ → Bool
present pte = pte % 2 == 1

-- `pte & PTE_U`
abbrev user : ℕ → Bool
user pte = pte / 4 % 2 == 1

-- PTE_ADDR clears the low 12 bits
abbrev pub pte_addr : ℕ → ℕ
pte_addr pte = pte / pgsize * pgsize

abbrev pub pte_w : ℕ
pte_w = 2

abbrev pub pte_u : ℕ
pte_u = 4

-- `memset(v, 0, PGSIZE)`, on words
abbrev zero_page : (ℕ → ℕ) → ℕ → ℕ → ℕ
zero_page m v a = if leb v a && ltb a (v + pgsize) then 0 else m a

-- `memmove(v, w, PGSIZE)` of another page, on words
abbrev copy_page : (ℕ → ℕ) → ℕ → ℕ → ℕ → ℕ
copy_page m v w a = if leb v a && ltb a (v + pgsize) then m (w + (a - v)) else m a

-- the address of the entry, or 0
unfoldable pub walkpgdir : Kmem → ℕ → ℕ → Bool → Outcome (ℕ × Kmem)
walkpgdir k pgdir va alloc =
    let at = pgdir + 4 * pdx va in
    let pde = k.mem at in
    if present pde
    then ok (p2v (pte_addr pde) + 4 * ptx va, k)
    else if not alloc
    then ok (0, k)
    else (kalloc k >>= λ (pgtab, k1).
        let mem = update (zero_page k1.mem pgtab) at (bit_or (v2p pgtab) 7) in
        if pgtab == 0 then ok (0, k1) else ok (pgtab + 4 * ptx va, record k1 { mem = mem }))

-- The loop of `mappages`, on fuel: whether it has reached `last`.
pub mappages_loop : ℕ → Kmem → ℕ → ℕ → ℕ → ℕ → ℕ → Outcome (Bool × Kmem)
mappages_loop zero k pgdir a last pa perm = ok (false, k)
mappages_loop (suc fuel) k pgdir a last pa perm = walkpgdir k pgdir a true >>= λ (pte, k1).
    let k2 = record k1 { mem = update k1.mem pte (bit_or (bit_or pa perm) 1) } in
    let rest = mappages_loop fuel k2 pgdir (u32 (a + pgsize)) last (u32 (pa + pgsize)) perm in
    if pte == 0
    then ok (false, k1)
    else if present (k1.mem pte)
    then panic
    else if a == last
    then ok (true, k2)
    else rest

-- `true` for 0, and `false` for -1. The loop makes a round for each page from the first to the last.
pub mappages : Kmem → ℕ → ℕ → ℕ → ℕ → ℕ → Outcome (Bool × Kmem)
mappages k pgdir va size pa perm =
    let a = page_round_down va in
    let last = page_round_down (u32 (va + size + 2 ^ 32 - 1)) in
    mappages_loop (u32 (last + 2 ^ 32 - a) / pgsize + 1) k pgdir a last pa perm

module _ (end : ℕ) where
  -- one round of `deallocuvm` at `a`, and the next address
  dealloc_at : Kmem → ℕ → ℕ → Outcome (ℕ × Kmem)
  dealloc_at k pgdir a = walkpgdir k pgdir a false >>= λ (pte, k1).
      let pa = pte_addr (k1.mem pte) in
      if pte == 0
      then ok (u32 (a + 1024 * pgsize), k1)
      else if not (present (k1.mem pte))
      then ok (u32 (a + pgsize), k1)
      else if pa == 0
      then panic
      else (kfree end k1 (p2v pa) >>= λ k2.
          ok (u32 (a + pgsize), record k2 { mem = update k2.mem pte 0 }))

  -- the loop of `deallocuvm`, on fuel
  dealloc_loop : ℕ → Kmem → ℕ → ℕ → ℕ → Outcome Kmem
  dealloc_loop zero k pgdir a oldsz = ok k
  dealloc_loop (suc fuel) k pgdir a oldsz =
      let round = dealloc_at k pgdir a >>= λ (a', k1). dealloc_loop fuel k1 pgdir a' oldsz in
      if ltb a oldsz then round else ok k

  -- At most one round for each page below `oldsz`.
  deallocuvm : Kmem → ℕ → ℕ → ℕ → Outcome (ℕ × Kmem)
  deallocuvm k pgdir oldsz newsz =
      if leb oldsz newsz
      then ok (oldsz, k)
      else (dealloc_loop (oldsz / pgsize + 1) k pgdir (page_round_up newsz) oldsz >>= λ k1.
          ok (newsz, k1))

  -- The loop of `allocuvm` from `a` on, with `rounds` left.
  pub alloc_loop : ℕ → Kmem → ℕ → ℕ → ℕ → ℕ → Outcome (ℕ × Kmem)
  alloc_loop zero k pgdir a oldsz newsz = ok (newsz, k)
  alloc_loop (suc rounds) k pgdir a oldsz newsz =
      let round = kalloc k >>= λ (mem, k1).
      let k2 = record k1 { mem = zero_page k1.mem mem } in
      let mapped = mappages k2 pgdir a pgsize (v2p mem) (pte_w + pte_u) >>= λ (_, k3).
      alloc_loop rounds k3 pgdir (a + pgsize) oldsz newsz in
      if mem == 0 then (deallocuvm k1 pgdir newsz oldsz >>= λ (_, k3). ok (0, k3)) else mapped in
      if ltb a newsz then round else ok (newsz, k)

  pub allocuvm : Kmem → ℕ → ℕ → ℕ → Outcome (ℕ × Kmem)
  allocuvm k pgdir oldsz newsz =
      if leb kernbase newsz
      then ok (0, k)
      else if ltb newsz oldsz
      then ok (oldsz, k)
      else alloc_loop (newsz / pgsize + 1) k pgdir (page_round_up oldsz) oldsz newsz

  -- the loop of `freevm` from entry `i` on, with `rounds` left
  free_tables : ℕ → Kmem → ℕ → ℕ → Outcome Kmem
  free_tables zero k pgdir i = ok k
  free_tables (suc rounds) k pgdir i =
      let pde = k.mem (pgdir + 4 * i) in
      let freed = kfree end k (p2v (pte_addr pde)) >>= λ k1. free_tables rounds k1 pgdir (i + 1) in
      let rest = free_tables rounds k pgdir (i + 1) in if present pde then freed else rest

  freevm : Kmem → ℕ → Outcome Kmem
  freevm k pgdir =
      if pgdir == 0
      then panic
      else (deallocuvm k pgdir kernbase 0 >>= λ (_, k1).
          free_tables 1024 k1 pgdir 0 >>= λ k2. kfree end k2 pgdir)

-- clears PTE_U
clearpteu : Kmem → ℕ → ℕ → Outcome Kmem
clearpteu k pgdir uva = walkpgdir k pgdir uva false >>= λ (pte, k1).
    let cleared = if user (k1.mem pte) then k1.mem pte - pte_u else k1.mem pte in
    if pte == 0 then panic else ok (record k1 { mem = update k1.mem pte cleared })

-- When there is no table for the address, the source reads its entry at address 0.
pub uva2ka : Kmem → ℕ → ℕ → Outcome (ℕ × Kmem)
uva2ka k pgdir uva = walkpgdir k pgdir uva false >>= λ (pte, k1).
    let at = p2v (pte_addr (k1.mem pte)) in
    if not (present (k1.mem pte))
    then ok (0, k1)
    else if not (user (k1.mem pte))
    then ok (0, k1)
    else ok (at, k1)
