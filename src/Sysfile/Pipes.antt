-- ===== src/Sysfile/Pipes.antt =====
-- `pipe` gives two descriptors or changes nothing, and keeps the reference counts of the open files right.
use os_ass.Base.{
  ℕ, ◌≡◌, ◌≢◌, refl, sym, subst, arith, true, false, Option, none, some, List, [], ◌∷◌, update,
  update_ne, Outcome, ok, ◌>>=◌, ◌⊎◌, inl, inr,
}
use os_ass.File.Table.{File, fd_pipe, filealloc, find_free, fileclose, Closing, nfile}
use os_ass.File.Refs.{find_free-some}
use os_ass.Sysfile.{Descriptors, pipe_end, pipealloc, give_fds, sys_pipe}
use os_ass.Sysfile.Held.{IsHeld}
use os_ass.Sysfile.Counts.{bump, same_refs, alloc-IsHeld, close-IsHeld}
use os_ass.Sysfile.Give.{Undone, give_fds-IsHeld}

alloc-free :
    (files : ℕ → File) {f : ℕ} {files1 : ℕ → File}
    → filealloc files ≡ some (f, files1)
    → (files f).ref ≡ 0
unfolding filealloc
alloc-free files {f} {files1} e = at (find_free files 0 nfile) refl e
  where
    at :
        (o : Option ℕ)
        → find_free files 0 nfile ≡ o
        → (elim o as (λ _. Option (ℕ × (ℕ → File))) [
          | none ↦ none
          | some i ↦ some (i, update files i (record (files i) { ref = 1 }))
        ])
          ≡ some (f, files1)
        → (files f).ref ≡ 0
    at none q k = cc
    at (some i) q k =
        let same : i ≡ f = cc in
        subst (λ j. (files j).ref ≡ 0) same (find_free-some files 0 nfile {r = i} q).2

-- the two files of a pipe
abbrev pub AreEnds : (ℕ → File) → ℕ → ℕ → ℕ → Type 0
AreEnds files f0 f1 p =
    ((files f0).type ≡ fd_pipe)
    × ((files f0).pipe ≡ p)
    × ((files f0).readable ≡ true)
    × ((files f0).writable ≡ false)
    × ((files f1).type ≡ fd_pipe)
    × ((files f1).pipe ≡ p)
    × ((files f1).readable ≡ false)
    × ((files f1).writable ≡ true)

-- how `pipealloc` ends: all files as before, or two new references to the ends of a pipe
data Allocated (s : Descriptors) (held : ℕ → ℕ) (page : Option ℕ)
    : Outcome (Option (ℕ × ℕ) × (ℕ → File) × List Closing) → Type 0 where
  gone :
      (files : ℕ → File) (todo : List Closing)
      → IsHeld (record s { files = files }) held
      → Allocated s held page (ok (none, files, todo))
  ends :
      (f0 f1 p : ℕ) (files : ℕ → File)
      → IsHeld (record s { files = files }) (bump f0 (bump f1 held))
      → page ≡ some p
      → AreEnds files f0 f1 p
      → Allocated s held page (ok (some (f0, f1), files, []))

ends-AreEnds :
    (files : ℕ → File) (f0 f1 p : ℕ)
    → f0 ≢ f1
    → AreEnds (pipe_end (pipe_end files f0 p false) f1 p true) f0 f1 p
ends-AreEnds files f0 f1 p ne =
    let first =
      update_ne (pipe_end files f0 p false) f1 f0
        (pipe_end (pipe_end files f0 p false) f1 p true f1) (λ e. ne (sym e)) in
    ground (arith, ne)

pipealloc-Allocated :
    (s : Descriptors) (held : ℕ → ℕ) (page : Option ℕ)
    → IsHeld s held
    → Allocated s held page (pipealloc s.files page)
unfolding pipealloc
pipealloc-Allocated s held page h = first (filealloc s.files) refl
  where
    third :
        (f0 f1 : ℕ) (files : ℕ → File)
        → IsHeld (record s { files = files }) (bump f0 (bump f1 held))
        → f0 ≢ f1
        → (o : Option ℕ) → page ≡ o
        → Allocated s held page (elim o [
          | none ↦ fileclose files f0 >>= λ (files2, todo).
              fileclose files2 f1 >>= λ (files3, todo1). ok (none, files3, todo ∷ todo1 ∷ [])
          | some p ↦ ok (some (f0, f1), pipe_end (pipe_end files f0 p false) f1 p true, [])
        ])
    third f0 f1 files h2 ne none e =
        let (files2, todo2, e2, k2) =
          close-IsHeld (record s { files = files }) (bump f1 held) f0 h2 in
        let (files3, todo3, e3, k3) = close-IsHeld (record s { files = files2 }) held f1 k2 in
        rw (e2, e3) (gone files3 (todo2 ∷ todo3 ∷ []) k3)
    third f0 f1 files h2 ne (some p) e =
        ends f0 f1 p (pipe_end (pipe_end files f0 p false) f1 p true)
          (same_refs (record s { files = files }) (pipe_end (pipe_end files f0 p false) f1 p true)
            (bump f0 (bump f1 held)) (λ g. ground arith) h2)
          e (ends-AreEnds files f0 f1 p ne)

    second :
        (f0 : ℕ) (files0 : ℕ → File)
        → IsHeld (record s { files = files0 }) (bump f0 held)
        → (o : Option (ℕ × (ℕ → File))) → filealloc files0 ≡ o
        → Allocated s held page (elim o [
          | none ↦ fileclose files0 f0 >>= λ (files1, todo). ok (none, files1, todo ∷ [])
          | some (f1, files1) ↦ elim page [
            | none ↦ fileclose files1 f0 >>= λ (files2, todo).
                fileclose files2 f1 >>= λ (files3, todo1). ok (none, files3, todo ∷ todo1 ∷ [])
            | some p ↦ ok (some (f0, f1), pipe_end (pipe_end files1 f0 p false) f1 p true, [])
          ]
        ])
    second f0 files0 h1 none e =
        let (files1, todo, e1, k1) = close-IsHeld (record s { files = files0 }) held f0 h1 in
        rw e1 (gone files1 (todo ∷ []) k1)
    second f0 files0 h1 (some (f1, files1)) e =
        let h2 = alloc-IsHeld (record s { files = files0 }) (bump f0 held) h1 e in
        let free = alloc-free files0 e in
        third f0 f1 files1 (λ g. omega (arith, h2 g)) (λ same. ground (arith, h1 f1, free, same))
          page refl

    first :
        (o : Option (ℕ × (ℕ → File)))
        → filealloc s.files ≡ o
        → Allocated s held page (elim o [
          | none ↦ ok (none, s.files, [])
          | some (f0, files0) ↦ elim (filealloc files0) [
            | none ↦ fileclose files0 f0 >>= λ (files1, todo). ok (none, files1, todo ∷ [])
            | some (f1, files1) ↦ elim page [
              | none ↦ fileclose files1 f0 >>= λ (files2, todo).
                  fileclose files2 f1 >>= λ (files3, todo1). ok (none, files3, todo ∷ todo1 ∷ [])
              | some p ↦ ok (some (f0, f1), pipe_end (pipe_end files1 f0 p false) f1 p true, [])
            ]
          ]
        ])
    first none e = gone s.files [] h
    first (some (f0, files0)) e = second f0 files0 (alloc-IsHeld s held h e) (filealloc files0) refl

-- a call of `pipe` that has failed, with every descriptor as in `s`
abbrev pub Failed :
    Descriptors → (ℕ → ℕ) → Outcome (Option (ℕ × ℕ) × Descriptors × List Closing) → Type 0
Failed s held out = Undone s.ofile held out

-- a call of `pipe` that has put the ends of the pipe in `page` under two descriptors that were free
abbrev pub Made :
    Descriptors
    → (ℕ → ℕ)
    → Option ℕ
    → Outcome (Option (ℕ × ℕ) × Descriptors × List Closing)
    → Type 0
Made s held page out =
    (fd0 : ℕ) × (fd1 : ℕ) × (s' : Descriptors) × (f0 : ℕ) × (f1 : ℕ) × (p : ℕ) × (out
      ≡ ok (some (fd0, fd1), s', []))
    × IsHeld s' held
    × (s.ofile fd0 ≡ none)
    × (s.ofile fd1 ≡ none)
    × (fd0 ≢ fd1)
    × (s'.ofile fd0 ≡ some f0)
    × (s'.ofile fd1 ≡ some f1)
    × (page ≡ some p)
    × AreEnds s'.files f0 f1 p

-- `pipe` in a process whose files are counted right does not panic and keeps the counts right. Either it returns -1, and
-- every descriptor is as before; or it returns two descriptors that were free, the first for the end of the new
-- pipe that can only be read, the second for the one that can only be written.
pub sys_pipe_lem :
    (s : Descriptors) (held : ℕ → ℕ) (page : Option ℕ)
    → IsHeld s held
    → Failed s held (sys_pipe s page) ⊎ Made s held page (sys_pipe s page)
unfolding sys_pipe
sys_pipe_lem s held page h = at (pipealloc s.files page) (pipealloc-Allocated s held page h)
  where
    at :
        (o : Outcome (Option (ℕ × ℕ) × (ℕ → File) × List Closing))
        → Allocated s held page o
        → let out : Outcome (Option (ℕ × ℕ) × Descriptors × List Closing) =
            o >>= λ (two, files, todo). elim two [
              | none ↦ ok (none, record s { files = files }, todo)
              | some (rf, wf) ↦ give_fds files s.ofile rf wf
            ] in
          Failed s held out ⊎ Made s held page out
    at _ (gone files todo k) = inl (record s { files = files }, todo, refl, k, λ fd. refl)
    at _ (ends f0 f1 p files k e are) =
        elim (give_fds-IsHeld (record s { files = files }) held f0 f1 k) [
          | inl undone ↦ inl undone
          | inr (fd0, fd1, s1, out, k1, free0, free1, apart, at0, at1, same) ↦ inr (
            fd0,
            fd1,
            s1,
            f0,
            f1,
            p,
            out,
            k1,
            free0,
            free1,
            apart,
            at0,
            at1,
            e,
            subst (λ t. AreEnds t f0 f1 p) (sym same) are,
          )
        ]
