-- ===== src/Kmem.antt =====
-- kalloc.c: the physical page allocator. The free list runs through the first word of each free page,
-- so memory is part of the state. `end`, which the linker defines, is a parameter.
pub mod Chain
pub mod Laws
pub mod Range
mod Tests
use os_ass.Base.{
  ℕ, zero, suc, ◌+◌, ◌-◌, ◌/◌, ◌%◌, Bool, true, false, ◌&&◌, ◌||◌, not, leb, ltb, ◌==◌,
  if◌then◌else◌, update, Outcome, ok, panic, ◌>>=◌, lock, unlock, pgsize, phystop, page_round_up,
  v2p,
}

-- `kmem`, the words of physical memory by kernel address, and whether this CPU holds `kmem.lock`.
pub record Kmem : Type 0 where
  pub held : Bool
  pub use_lock : Bool
  pub freelist : ℕ
  pub mem : ℕ → ℕ

-- `memset(v, 1, PGSIZE)`, on words
abbrev pub junk : (ℕ → ℕ) → ℕ → ℕ → ℕ
junk m v a = if leb v a && ltb a (v + pgsize) then 0x01010101 else m a

-- `if(kmem.use_lock) acquire(&kmem.lock)`, and the same for `release`
abbrev pub lock_if : Bool → Bool → Outcome Bool
lock_if true held = lock held
lock_if false held = ok held

abbrev pub unlock_if : Bool → Bool → Outcome Bool
unlock_if true held = unlock held
unlock_if false held = ok held

unfoldable pub kalloc : Kmem → Outcome (ℕ × Kmem)
kalloc k = do
  h ← lock_if k.use_lock k.held
  let r = k.freelist
  let next = if r == 0 then k.freelist else k.mem r
  h' ← unlock_if k.use_lock h
  ok (r, record k { held = h'; freelist = next })

module _ (end : ℕ) where
  -- the test of `kfree`
  abbrev pub bad_page : ℕ → Bool
  bad_page v = not (v % pgsize == 0) || ltb v end || leb phystop (v2p v)

  unfoldable pub kfree : Kmem → ℕ → Outcome Kmem
  kfree k v = if bad_page v then panic else do
    let filled = junk k.mem v
    h ← lock_if k.use_lock k.held
    let linked = update filled v k.freelist
    h' ← unlock_if k.use_lock h
    ok (record k { held = h'; freelist = v; mem = linked })

  -- `for(; p + PGSIZE <= vend; p += PGSIZE) kfree(p);`, on fuel
  pub freerange_loop : ℕ → Kmem → ℕ → ℕ → Outcome Kmem
  freerange_loop zero k p vend = ok k
  freerange_loop (suc fuel) k p vend = elim (leb (p + pgsize) vend) [
    | true ↦ kfree k p >>= λ k'. freerange_loop fuel k' (p + pgsize) vend
    | false ↦ ok k
  ]

  -- The loop makes one round for each whole page below `vend` at most.
  pub freerange : Kmem → ℕ → ℕ → Outcome Kmem
  freerange k vstart vend = freerange_loop (vend / pgsize) k (page_round_up vstart) vend

  pub kinit1 : Kmem → ℕ → ℕ → Outcome Kmem
  kinit1 k vstart vend = freerange (record k { held = false; use_lock = false }) vstart vend

  pub kinit2 : Kmem → ℕ → ℕ → Outcome Kmem
  kinit2 k vstart vend = freerange k vstart vend >>= λ k'. ok (record k' { use_lock = true })
