-- ===== src/Sysfile/Slots.antt =====
-- What a process holds: the files of its descriptors, and how giving one out or taking one back changes that.
use os_ass.Base.{
  ℕ, zero, suc, ◌+◌, ◌≤◌, ◌<◌, ◌≡◌, refl, arith, Bool, true, false, Option, none, some, List, [],
  ◌∷◌, leb, if◌then◌else◌, update, ℤ, pos, negsuc, update_ne, subst, ℕ_discrete, ap, ◌∙◌, sym,
  update_self,
}
use os_ass.File.Refs.{count}
use os_ass.Sysfile.{nofile, argfd, find_fd}

abbrev pub push : Option ℕ → List ℕ → List ℕ
push none fs = fs
push (some f) fs = f ∷ fs

-- the files of the first `n` descriptors
unfoldable pub open_files : (ℕ → Option ℕ) → ℕ → List ℕ
open_files ofile zero = []
open_files ofile (suc n) = push (ofile n) (open_files ofile n)

count-push :
    (g : ℕ) (o : Option ℕ) (fs : List ℕ) → count g (push o fs) ≡ count g (push o []) + count g fs
count-push g none fs = omega arith
count-push g (some f) fs = ground arith

-- a descriptor more, with its value
open_files-last :
    (ofile : ℕ → Option ℕ) (n g : ℕ) (v : Option ℕ)
    → ofile n ≡ v
    → count g (open_files ofile (suc n)) ≡ count g (push v []) + count g (open_files ofile n)
unfolding open_files
open_files-last ofile n g v e =
    ap (λ o. count g (push o (open_files ofile n))) e ∙ count-push g v (open_files ofile n)

open_files-outside :
    (ofile : ℕ → Option ℕ) (fd n : ℕ) (v : Option ℕ)
    → n ≤ fd
    → open_files (update ofile fd v) n ≡ open_files ofile n
unfolding open_files
open_files-outside ofile fd zero v le = refl
open_files-outside ofile fd (suc n) v le =
    ap (λ o. push o (open_files (update ofile fd v) n)) (update_ne ofile fd n v (omega arith))
    ∙ ap (push (ofile n)) (open_files-outside ofile fd n v (omega arith))

-- a write to a descriptor exchanges its old value for the new one
pub count-update :
    (ofile : ℕ → Option ℕ) (fd n g : ℕ) (old new : Option ℕ)
    → fd < n
    → ofile fd ≡ old
    → count g (open_files (update ofile fd new) n) + count g (push old [])
      ≡ count g (push new []) + count g (open_files ofile n)
count-update ofile fd zero g old new lt e = absurd (omega arith)
count-update ofile fd (suc n) g old new lt e = elim (ℕ_discrete fd n) [
  | yes same ↦
      let last =
        open_files-last (update ofile fd new) n g new
          (ap (update ofile fd new) (sym same) ∙ update_self ofile fd new) in
      let before = open_files-last ofile n g old (ap ofile (sym same) ∙ e) in
      let rest = ap (count g) (open_files-outside ofile fd n new (omega arith)) in
      omega (arith, last, before, rest)
  | no ne ↦
      let last =
        open_files-last (update ofile fd new) n g (ofile n) (update_ne ofile fd n new ne) in
      let before = open_files-last ofile n g (ofile n) refl in
      omega (arith, last, before, count-update ofile fd n g old new (omega arith) e)
]

pub find_fd-some :
    (ofile : ℕ → Option ℕ) (fd rounds : ℕ) {r : ℕ}
    → find_fd ofile fd rounds ≡ some r
    → (r < fd + rounds) × (ofile r ≡ none)
unfolding find_fd
find_fd-some ofile fd zero e = cc
find_fd-some ofile fd (suc rounds) {r} e =
    at (ofile fd) refl (λ q. find_fd-some ofile (fd + 1) rounds q) e
  where
    at :
        (o : Option ℕ)
        → ofile fd ≡ o
        → (find_fd ofile (fd + 1) rounds ≡ some r → (r < fd + 1 + rounds) × (ofile r ≡ none))
        → (elim o as (λ _. Option ℕ) [ none ↦ some fd | some f ↦ find_fd ofile (fd + 1) rounds ])
          ≡ some r
        → (r < fd + suc rounds) × (ofile r ≡ none)
    at none free ih q = let same : fd ≡ r = cc in (omega arith, ap ofile (sym same) ∙ free)
    at (some f) taken ih q = let (lt, free) = ih q in (omega arith, free)

pub argfd-some :
    (ofile : ℕ → Option ℕ) (arg : Option ℤ) {fd f : ℕ}
    → argfd ofile arg ≡ some (fd, f)
    → (fd < nofile) × (ofile fd ≡ some f)
unfolding argfd
argfd-some ofile none e = cc
argfd-some ofile (some (negsuc k)) e = cc
argfd-some ofile (some (pos n)) {fd} {f} e = at (leb nofile n) refl (ofile n) refl e
  where
    at :
        (b : Bool)
        → leb nofile n ≡ b
        → (o : Option ℕ) → ofile n ≡ o
        → (if b
            then none
            else elim o as (λ _. Option (ℕ × ℕ)) [ none ↦ none | some f ↦ some (n, f) ])
          ≡ some (fd, f)
        → (fd < nofile) × (ofile fd ≡ some f)
    at true l o h q = cc
    at false l none h q = cc
    at false l (some k) h q =
        let same : n ≡ fd = cc in
        let file : k ≡ f = cc in
        (subst (λ m. m < nofile) same (ground arith), ap ofile (sym same) ∙ h ∙ ap some file)
