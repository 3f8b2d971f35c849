-- ===== src/Vm/Copy.antt =====
-- vm.c: the kernel's part of a page table, and the copy of a process's memory for `fork`.
use os_ass.Base.{
  ℕ, zero, suc, ◌+◌, ◌-◌, ◌/◌, ◌^◌, Bool, false, not, ltb, ◌==◌, if◌then◌else◌, List, [], ◌∷◌,
  Outcome, ok, panic, ◌>>=◌, u32, pgsize, kernbase, phystop, v2p, p2v,
}
use os_ass.Kmem.{Kmem, kalloc}
use os_ass.Vm.{walkpgdir, mappages, freevm, zero_page, copy_page, present, pte_addr, pte_w, pte_u}

-- a line of `kmap`
record Mapping : Type 0 where
  virt : ℕ
  phys_start : ℕ
  phys_end : ℕ
  perm : ℕ

abbrev extmem : ℕ
extmem = 0x100000

abbrev kernlink : ℕ
kernlink = kernbase + extmem

abbrev devspace : ℕ
devspace = 0xFE000000

module _ (end data_start : ℕ) where
  abbrev kmap : List Mapping
  kmap =
      record { virt = kernbase; phys_start = 0; phys_end = extmem; perm = pte_w }
      ∷ record { virt = kernlink; phys_start = v2p kernlink; phys_end = v2p data_start; perm = 0 }
      ∷ record { virt = data_start; phys_start = v2p data_start; phys_end = phystop; perm = pte_w }
      ∷ record { virt = devspace; phys_start = devspace; phys_end = 0; perm = pte_w }
      ∷ []

  -- the loop of `setupkvm`
  map_kernel : Kmem → ℕ → List Mapping → Outcome (ℕ × Kmem)
  map_kernel k pgdir [] = ok (pgdir, k)
  map_kernel k pgdir (m ∷ ms) =
      let size = u32 (m.phys_end + 2 ^ 32 - m.phys_start) in
      mappages k pgdir m.virt size m.phys_start m.perm >>= λ (mapped, k1).
      let rest = map_kernel k1 pgdir ms in if mapped then rest else ok (0, k1)

  setupkvm : Kmem → Outcome (ℕ × Kmem)
  setupkvm k = kalloc k >>= λ (pgdir, k1).
      let k2 = record k1 { mem = zero_page k1.mem pgdir } in
      if pgdir == 0
      then ok (0, k1)
      else if ltb devspace (p2v phystop)
      then panic
      else map_kernel k2 pgdir kmap

  -- one page of `copyuvm`: whether it is copied, or there is no memory left
  copy_at : Kmem → ℕ → ℕ → ℕ → Outcome (Bool × Kmem)
  copy_at k pgdir d i = walkpgdir k pgdir i false >>= λ (pte, k1).
      let pa = pte_addr (k1.mem pte) in
      if pte == 0
      then panic
      else if not (present (k1.mem pte))
      then panic
      else (kalloc k1 >>= λ (mem, k2).
          let k3 = record k2 { mem = copy_page k2.mem mem (p2v pa) } in
          if mem == 0 then ok (false, k2) else mappages k3 d i pgsize (v2p mem) (pte_w + pte_u))

  -- the loop of `copyuvm` from `i` on, with `rounds` left
  copy_loop : ℕ → Kmem → ℕ → ℕ → ℕ → ℕ → Outcome (ℕ × Kmem)
  copy_loop zero k pgdir d i sz = ok (d, k)
  copy_loop (suc rounds) k pgdir d i sz =
      let round = copy_at k pgdir d i >>= λ (copied, k1).
      let rest = copy_loop rounds k1 pgdir d (i + pgsize) sz in
      if copied then rest else (freevm end k1 d >>= λ k2. ok (0, k2)) in
      if ltb i sz then round else ok (d, k)

  copyuvm : Kmem → ℕ → ℕ → Outcome (ℕ × Kmem)
  copyuvm k pgdir sz = setupkvm k >>= λ (d, k1).
      let copied = copy_loop (sz / pgsize + 1) k1 pgdir d 0 sz in
      if d == 0 then ok (0, k1) else copied
