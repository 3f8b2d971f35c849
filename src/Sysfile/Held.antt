-- ===== src/Sysfile/Held.antt =====
-- The system calls that move descriptors keep the reference counts of the open files right.
use os_ass.Base.{
  ℕ, ◌+◌, ◌-◌, ◌<◌, ◌≡◌, refl, arith, Bool, true, false, Option, none, some, List, [], ◌∷◌, ltb,
  ◌==◌, if◌then◌else◌, update, ℤ, Outcome, ok, ◌>>=◌, subst, ap, sym, ◌∙◌, dec_lt,
}
use os_ass.File.Table.{File, filedup, fileclose, Closing, closing, nothing, fd_none}
use os_ass.File.Refs.{count}
use os_ass.Sysfile.{Descriptors, nofile, argfd, find_fd, fdalloc, sys_dup, sys_close}
use os_ass.Sysfile.Slots.{open_files, push, count-update, find_fd-some, argfd-some}

-- `ref` counts the descriptors of the process and those that others hold
abbrev pub IsHeld : Descriptors → (ℕ → ℕ) → Type 0
IsHeld s held = (g : ℕ) → (s.files g).ref ≡ count g (open_files s.ofile nofile) + held g

-- what `sys_dup` does
pub record Dups (s : Descriptors) (arg : Option ℤ) (held : ℕ → ℕ) (r : Option ℕ) (s' : Descriptors)
    : Type 0 where
  pub counted : IsHeld s' held
  pub failed : r ≡ none → s' ≡ s
  pub doubled :
      (fd : ℕ)
      → r ≡ some fd
      → (s.ofile fd ≡ none)
        × (old : ℕ) × (f : ℕ) × (s.ofile old ≡ some f)
        × (s'.ofile ≡ update s.ofile fd (some f))

-- the count of one file more or less
pub one : (f g : ℕ) → count g (push (some f) []) ≡ (if f == g then 1 else 0)
one f g = ground arith

open-counted :
    (s : Descriptors) (held : ℕ → ℕ) (fd f : ℕ)
    → IsHeld s held
    → fd < nofile
    → s.ofile fd ≡ some f
    → 0 < (s.files f).ref
open-counted s held fd f h lt e =
    let moved = count-update s.ofile fd nofile f (some f) none lt e in
    ground (arith, moved, one f f, h f)

pub fdalloc-some :
    (ofile : ℕ → Option ℕ) (f fd : ℕ) (ofile1 : ℕ → Option ℕ)
    → fdalloc ofile f ≡ some (fd, ofile1)
    → (fd < nofile) × (ofile fd ≡ none) × (ofile1 ≡ update ofile fd (some f))
unfolding fdalloc
fdalloc-some ofile f fd ofile1 e = at (find_fd ofile 0 nofile) refl e
  where
    at :
        (o : Option ℕ)
        → find_fd ofile 0 nofile ≡ o
        → (elim o as (λ _. Option (ℕ × (ℕ → Option ℕ))) [
          | none ↦ none
          | some r ↦ some (r, update ofile r (some f))
        ])
          ≡ some (fd, ofile1)
        → (fd < nofile) × (ofile fd ≡ none) × (ofile1 ≡ update ofile fd (some f))
    at none h q = cc
    at (some r) h q =
        let (lt, free) = find_fd-some ofile 0 nofile h in
        let same : r ≡ fd = cc in
        let table : update ofile r (some f) ≡ ofile1 = cc in
        (
          subst (λ k. k < nofile) same lt,
          ap ofile (sym same) ∙ free,
          sym table ∙ ap (λ k. update ofile k (some f)) same,
        )

filedup-ok :
    (files : ℕ → File) (f : ℕ)
    → 0 < (files f).ref
    → filedup files f ≡ ok (update files f (record (files f) { ref = (files f).ref + 1 }))
unfolding filedup
filedup-ok files f lt = let no : ltb (files f).ref 1 ≡ false = ground arith in rw no refl

dup-IsHeld :
    (s : Descriptors) (held : ℕ → ℕ) (fd f : ℕ)
    → IsHeld s held
    → fd < nofile
    → s.ofile fd ≡ none
    → IsHeld
        (record {
          files = update s.files f (record (s.files f) { ref = (s.files f).ref + 1 });
          ofile = update s.ofile fd (some f);
        })
        held
dup-IsHeld s held fd f h lt free g =
    let moved = count-update s.ofile fd nofile g none (some f) lt free in
    ground (arith, moved, one f g, h g, h f)

-- `dup` in a process whose files are counted right: it never panics, and keeps the counts right. If it returns -1 nothing
-- has changed. Otherwise it returns a descriptor that was free, which then stands for the file of another.
pub sys_dup_lem :
    (s : Descriptors) (arg : Option ℤ) (held : ℕ → ℕ)
    → IsHeld s held
    → (r : Option ℕ) × (s' : Descriptors) × (sys_dup s arg ≡ ok (r, s')) × Dups s arg held r s'
unfolding sys_dup
sys_dup_lem s arg held h = at (argfd s.ofile arg) refl
  where
    fails : Dups s arg held none s
    fails = record { counted = h; failed = λ _. refl; doubled = λ fd e. cc }

    given :
        (old f : ℕ)
        → old < nofile
        → s.ofile old ≡ some f
        → (q : Option (ℕ × (ℕ → Option ℕ))) → fdalloc s.ofile f ≡ q
        → (r : Option ℕ) × (s' : Descriptors) × ((elim q
              as (λ _. Outcome (Option ℕ × Descriptors)) [
                | none ↦ ok (none, s)
                | some (fd, ofile) ↦ filedup s.files f >>= λ files.
                    ok (some fd, record { files = files; ofile = ofile })
              ])
            ≡ ok (r, s'))
          × Dups s arg held r s'
    given old f lt e none q = (none, s, refl, fails)
    given old f lt e (some (fd, ofile1)) q =
        let (small, free, table) = fdalloc-some s.ofile f fd ofile1 q in
        let files1 = update s.files f (record (s.files f) { ref = (s.files f).ref + 1 }) in
        let dup = filedup-ok s.files f (open-counted s held old f h lt e) in
        (
          some fd,
          record { files = files1; ofile = update s.ofile fd (some f) },
          ap (λ o. o >>= λ files. ok (some fd, record { files = files; ofile = ofile1 })) dup
              ∙ ap (λ t. ok (some fd, record { files = files1; ofile = t })) table,
          record {
            counted = dup-IsHeld s held fd f h small free;
            failed = λ k. cc;
            doubled = λ fd1 k.
                let same : fd ≡ fd1 = cc in
                (ap s.ofile (sym same) ∙ free, old, f, e, ap (λ j. update s.ofile j (some f)) same);
          },
        )

    at :
        (o : Option (ℕ × ℕ))
        → argfd s.ofile arg ≡ o
        → (r : Option ℕ) × (s' : Descriptors) × ((elim o
              as (λ _. Outcome (Option ℕ × Descriptors)) [
                | none ↦ ok (none, s)
                | some (old, f) ↦ elim (fdalloc s.ofile f) [
                  | none ↦ ok (none, s)
                  | some (fd, ofile) ↦ filedup s.files f >>= λ files.
                      ok (some fd, record { files = files; ofile = ofile })
                ]
              ])
            ≡ ok (r, s'))
          × Dups s arg held r s'
    at none e = (none, s, refl, fails)
    at (some (old, f)) e =
        let (lt, full) = argfd-some s.ofile arg e in given old f lt full (fdalloc s.ofile f) refl

sys_close-found :
    (s : Descriptors) (arg : Option ℤ) (fd f : ℕ)
    → argfd s.ofile arg ≡ some (fd, f)
    → sys_close s arg ≡ (
        fileclose s.files f >>= λ (files, todo).
        ok (true, record { files = files; ofile = update s.ofile fd none }, todo ∷ []))
unfolding sys_close
sys_close-found s arg fd f e =
    ap
      (λ o. elim o as (λ _. Outcome (Bool × Descriptors × List Closing)) [
        | none ↦ ok (false, s, [])
        | some (n, g) ↦ fileclose s.files g >>= λ (files, todo).
            ok (true, record { files = files; ofile = update s.ofile n none }, todo ∷ [])
      ])
      e

-- what `sys_close` does with descriptor `fd` of file `f`
pub record Closes (s : Descriptors) (held : ℕ → ℕ) (fd f : ℕ) (s' : Descriptors) (todo : Closing)
    : Type 0 where
  pub counted : IsHeld s' held
  pub free : s'.ofile ≡ update s.ofile fd none
  pub shared : 1 < (s.files f).ref → todo ≡ nothing
  pub last : (s.files f).ref ≡ 1 → (todo ≡ closing (s.files f)) × ((s'.files f).ref ≡ 0)

-- `close` of an open descriptor, in a process whose files are counted right: it does not panic, frees the descriptor and
-- keeps the counts right. The pipe end or inode of the file is given back if this was the last descriptor of all, and
-- only then.
pub sys_close_lem :
    (s : Descriptors) (arg : Option ℤ) (held : ℕ → ℕ) (fd f : ℕ)
    → IsHeld s held
    → argfd s.ofile arg ≡ some (fd, f)
    → (s' : Descriptors) × (todo : Closing) × (sys_close s arg ≡ ok (true, s', todo ∷ []))
      × Closes s held fd f s' todo
unfolding fileclose
sys_close_lem s arg held fd f h e =
    let (lt, full) = argfd-some s.ofile arg e in
    let some_ref = open-counted s held fd f h lt full in
    let positive : ltb (s.files f).ref 1 ≡ false = ground arith in
    let counts : (g : ℕ)
        → count g (open_files (update s.ofile fd none) nofile) + (if f == g then 1 else 0)
          ≡ count g (open_files s.ofile nofile) =
      λ g.
        let moved = count-update s.ofile fd nofile g (some f) none lt full in
        omega (arith, moved, one f g) in
    elim (dec_lt 1 (s.files f).ref) [
      | yes more ↦
          let left : ltb 0 ((s.files f).ref - 1) ≡ true = ground arith in
          (
            record {
              files = update s.files f (record (s.files f) { ref = (s.files f).ref - 1 });
              ofile = update s.ofile fd none;
            },
            nothing,
            sys_close-found s arg fd f e ∙ rw (positive, left) refl,
            record {
              counted = λ g. ground (arith, counts g, h g);
              free = refl;
              shared = λ _. refl;
              last = λ k. absurd (omega arith);
            },
          )
      | no single ↦
          let left : ltb 0 ((s.files f).ref - 1) ≡ false = ground arith in
          (
            record {
              files = update s.files f (record (s.files f) { ref = 0; type = fd_none });
              ofile = update s.ofile fd none;
            },
            closing (s.files f),
            sys_close-found s arg fd f e ∙ rw (positive, left) refl,
            record {
              counted = λ g. ground (arith, counts g, h g);
              free = refl;
              shared = λ k. absurd (single k);
              last = λ k. (refl, ground arith);
            },
          )
    ]
