-- ===== src/Fs/Walk.antt =====
-- `namex` ends: each round takes an element off the path.
use os_ass.Base.{
  length, zero, suc, some, none, true, false, ok, panic, [], ℕ, refl, arith, ◌≡◌, Outcome, Option,
  Bool, List, ◌<◌, ◌>>=◌, if◌then◌else◌, ◌≢◌, not, subst, ◌==◌, get_or, ◌&&◌, ◌+◌,
}
use os_ass.Fs.{Fs}
use os_ass.Fs.Files.{Devices}
use os_ass.Fs.Icache.{ilock, iget, iput, iunlock, iunlockput, idup}
use os_ass.Fs.Names.{skipelem, slash}
use os_ass.Fs.Elements.{Skips, nothing_left, next, skipelem_lem}
use os_ass.Fs.Dirs.{
  t_dir, rootdev, rootino, Walk, found, no_inode, blocked, stuck, walk_into, namex_loop, namex,
}

-- the walk ends, or the kernel panics on the way
abbrev Ends : Outcome Walk → Type 0
Ends panic = Unit
Ends (ok (found ip name s)) = Unit
Ends (ok (no_inode s)) = Unit
Ends (ok (blocked ip s)) = Unit
Ends (ok stuck) = ⊥

bind-Ends :
    {A : Type 0} (first : Outcome A) (rest : A → Outcome Walk)
    → ((a : A) → Ends (rest a))
    → Ends (first >>= rest)
bind-Ends panic rest h = tt
bind-Ends (ok a) rest h = h a

if-Ends : (test : Bool) (x y : Outcome Walk) → Ends x → Ends y → Ends (if test then x else y)
if-Ends true x y hx hy = hx
if-Ends false x y hx hy = hy

option-Ends :
    {A : Type 0} (o : Option A) (none_case : Outcome Walk) (some_case : A → Outcome Walk)
    → Ends none_case
    → ((a : A) → Ends (some_case a))
    → Ends (elim o [ none ↦ none_case | some a ↦ some_case a ])
option-Ends none x f h k = h
option-Ends (some a) x f h k = k a

module _ (devsw : Devices) where
  namex_loop-Ends :
      (fuel : ℕ) (s : Fs) (ip : ℕ) (path : List ℕ) (nameiparent : Bool) (name : List ℕ)
      → length path < fuel
      → Ends (namex_loop devsw fuel s ip path nameiparent name)
  unfolding namex_loop
  namex_loop-Ends zero s ip path nameiparent name h = absurd (omega arith)
  namex_loop-Ends (suc fuel) s ip path nameiparent name h =
      at (skipelem path) refl (skipelem_lem path)
        (λ s' ip' path' name' lt. namex_loop-Ends fuel s' ip' path' nameiparent name' lt)
    where
      at :
          (o : Option (List ℕ × List ℕ))
          → skipelem path ≡ o
          → Skips path o
          → ((s' : Fs) (ip' : ℕ) (path' : List ℕ) (name' : List ℕ)
              → length path' < fuel
              → Ends (namex_loop devsw fuel s' ip' path' nameiparent name'))
          → Ends (namex_loop devsw (suc fuel) s ip path nameiparent name)
      at none e (nothing_left _) ih =
          rw (e, namex_loop) (if-Ends nameiparent _ _ (bind-Ends (iput s ip) _ (λ s1. tt)) tt)
      at (some (elem, rest)) e (next _ _ shorter _) ih =
          rw (e, namex_loop)
            (bind-Ends (ilock s ip) _ λ locked. option-Ends locked _ _ tt λ s1.
              if-Ends (not ((s1.inode ip).type == t_dir)) _ _
                (bind-Ends (iunlockput s1 ip) _ (λ s2. tt))
                (if-Ends (nameiparent && length rest == 0) _ _
                  (bind-Ends (iunlock s1 ip) _ (λ s2. tt))
                  (bind-Ends (walk_into devsw s1 ip elem) _
                    λ (n, s2). option-Ends n _ _ tt (λ ip'. ih s2 ip' rest elem (omega arith)))))

  -- The lookup of a path name ends: the rounds that `namex` makes are never more than the path is long,
  -- so the fuel is never used up.
  pub namex-ne-stuck :
      (s : Fs) (cwd : ℕ) (path : List ℕ) (nameiparent : Bool)
      → namex devsw s cwd path nameiparent ≢ ok stuck
  unfolding namex
  namex-ne-stuck s cwd path nameiparent e = subst Ends e (
      if-Ends (get_or 0 path 0 == slash) _ _
        (bind-Ends (iget s rootdev rootino) _
          λ (ip, s1). namex_loop-Ends (length path + 1) s1 ip path nameiparent [] (omega arith))
        (namex_loop-Ends (length path + 1) (idup s cwd) cwd path nameiparent [] (omega arith)))
