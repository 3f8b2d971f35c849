-- ===== src/Base/Params.antt =====
-- The constants of param.h, memlayout.h and mmu.h that the code uses.
use Prim.Native.Nat.{ℕ, ◌+◌, ◌-◌, ◌*◌, ◌/◌, ◌%◌, ◌^◌}

-- `uint` arithmetic
abbrev pub u32 : ℕ → ℕ
u32 n = n % 2 ^ 32

abbrev pub pgsize : ℕ
pgsize = 4096

abbrev pub kernbase : ℕ
kernbase = 0x80000000

abbrev pub phystop : ℕ
phystop = 0xE000000

abbrev pub nproc : ℕ
nproc = 64

-- PGROUNDUP and PGROUNDDOWN: `& ~(PGSIZE-1)` clears the low 12 bits.
abbrev pub page_round_down : ℕ → ℕ
page_round_down a = a / pgsize * pgsize

abbrev pub page_round_up : ℕ → ℕ
page_round_up a = page_round_down (u32 (a + pgsize - 1))

-- `v2p` and `p2v`, on `uint`
abbrev pub v2p : ℕ → ℕ
v2p a = u32 (a + 2 ^ 32 - kernbase)

abbrev pub p2v : ℕ → ℕ
p2v a = u32 (a + kernbase)
