-- ===== src/Proc/Alloc.antt =====
-- `allocproc`, with the page allocator that gives the kernel stack.
use os_ass.Base.{
  ℕ, Bool, Option, none, some, Outcome, ok, ◌>>=◌, lock, unlock, ◌+◌, ◌==◌, if◌then◌else◌, update,
  nproc,
}
use os_ass.Kmem.{Kmem, kalloc}
use os_ass.Proc.Defs.{Ptable, unused, embryo, is, find, swap_name}

-- the state change under the lock: the slot and the table
unfoldable pub claim : Ptable → Option (ℕ × Ptable)
claim t = elim (find (λ p. is p.state unused) t.procs 0 nproc) [
  | none ↦ none
  | some i ↦ some (
    i,
    record t {
      procs = update t.procs i (record (t.procs i) { state = embryo; pid = t.nextpid });
      nextpid = t.nextpid + 1;
    },
  )
]

-- the kernel stack and the name of the swap file, for the slot `i`
unfoldable pub set_up : Ptable → ℕ → ℕ → Option ℕ × Ptable
set_up t i kstack =
    if kstack == 0
    then (
      none,
      record t {
        procs = update t.procs i (record (t.procs i) { kstack = kstack; state = unused });
      },
    )
    else (
      some i,
      record t {
        procs =
            update t.procs i
              (record (t.procs i) { kstack = kstack; swap_file_name = swap_name (t.procs i).pid });
      },
    )

-- after the release: give up, or allocate the kernel stack
unfoldable pub continue_with :
    Ptable → Kmem → Bool → Option (ℕ × Ptable) → Outcome (Option ℕ × Ptable × Kmem)
continue_with t k h none = ok (none, record t { held = h }, k)
continue_with t k h (some (i, t')) =
    kalloc k >>= λ r. let (slot, t2) = set_up (record t' { held = h }) i r.0 in ok (slot, t2, r.1)

-- The slot allocated, or `none`, with the table and the page allocator. An `int` overflow of
-- `nextpid` is left out.
unfoldable pub allocproc : Ptable → Kmem → Outcome (Option ℕ × Ptable × Kmem)
allocproc t k = do
  h ← lock t.held
  h' ← unlock h
  continue_with t k h' (claim (record t { held = h }))
