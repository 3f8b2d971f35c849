-- ===== src/Vm/Tests.antt =====
-- Page tables in a small memory: three free pages.
use os_ass.Base.{
  ap, ==_ne, ◌==◌, if◌then◌else◌, ◌<◌, ◌+◌, ◌*◌, ◌/◌, ℕ, ◌≡◌, refl, ok, true, false, Outcome, panic,
  [], ◌∷◌, arith,
}
use os_ass.Kmem.{Kmem, kalloc}
use os_ass.Kmem.Chain.{IsFree}
use os_ass.Vm.{present, walkpgdir, mappages, allocuvm}
use os_ass.Vm.Tables.{pde_of, pte_of, pages, IsVm}
use os_ass.Vm.Map.{Maps}
use os_ass.Vm.Range.{mappages_lem}
use os_ass.Vm.Unmapped.{allocuvm-unmapped}

abbrev memory : Kmem
memory = record {
  held = false;
  use_lock = false;
  freelist = 0x80202000;
  mem = λ a. if a == 0x80202000 then 0x80203000 else 0;
}

abbrev entry : Outcome (ℕ × Kmem) → ℕ
entry (ok (pte, k)) = pte
entry panic = 0

-- without a table there is no entry
walkpgdir-none : walkpgdir memory 0x80201000 0x5000 false ≡ ok (0, memory)
unfolding walkpgdir
walkpgdir-none = refl

-- the table of the address is the first free page
walkpgdir-fresh : entry (walkpgdir memory 0x80201000 0x5000 true) ≡ 0x80202014
unfolding walkpgdir kalloc
walkpgdir-fresh = refl

-- the directory is the page before the free ones, and empty
memory-empty : (page : ℕ) → page < pages → pde_of memory.mem 0x80201000 page ≡ 0
memory-empty page lt = rw (==_ne (0x80201000 + 4 * (page / 1024)) 0x80202000 (λ e. omega arith))

memory-gone : (page : ℕ) → page < pages → present (pde_of memory.mem 0x80201000 page) ≡ false
memory-gone page lt = ap present (memory-empty page lt)

abbrev start : ℕ
start = 0x80100000

memory-IsVm : IsVm start memory 0x80201000 (0x80202000 ∷ 0x80203000 ∷ [])
memory-IsVm = record {
  alloc = record {
    idle = refl;
    chain = (
      refl,
      record { aligned = omega arith; above = omega arith; below = omega arith },
      (refl, record { aligned = omega arith; above = omega arith; below = omega arith }, refl),
    );
    distinct = ground arith;
  };
  small = omega arith;
  dir = record { aligned = omega arith; above = omega arith; below = omega arith };
  dir_small = omega arith;
  dir_used = omega arith;
  table = λ page lt there. let gone = memory-gone page lt in cc;
  apart = λ page other lt lo there. let gone = memory-gone page lt in cc;
}

-- two pages for user code from the physical page 0x300000 on
mappages_lem_example :
    Maps start 0x80201000 6 memory 5 2 0x300000
      (mappages memory 0x80201000 0x5000 0x2000 0x300000 6)
mappages_lem_example =
    mappages_lem start 0x80201000 6 (omega arith) (omega arith) memory
      (0x80202000 ∷ 0x80203000 ∷ []) 0x5000 0x2000 0x300000 memory-IsVm (omega arith) (omega arith)
      (omega arith) (omega arith)

-- one page is left
abbrev last_page : Kmem
last_page = record memory { mem = λ _. 0 }

last_page-IsVm : IsVm start last_page 0x80201000 (0x80202000 ∷ [])
last_page-IsVm = record {
  alloc = record {
    idle = refl;
    chain =
        (refl, record { aligned = omega arith; above = omega arith; below = omega arith }, refl);
    distinct = ground arith;
  };
  small = omega arith;
  dir = record { aligned = omega arith; above = omega arith; below = omega arith };
  dir_small = omega arith;
  dir_used = omega arith;
  table = λ page lt there. cc;
  apart = λ page other lt lo there. cc;
}

allocuvm-unmapped_example :
    (k' : Kmem) × (allocuvm start last_page 0x80201000 0x3000 0x4000 ≡ ok (0x4000, k'))
    × (pte_of k'.mem 0x80201000 3 ≡ 0)
    × IsFree start k' []
allocuvm-unmapped_example =
    allocuvm-unmapped start last_page 0x80201000 0x80202000 3 last_page-IsVm (omega arith) refl
