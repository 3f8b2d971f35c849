-- ===== src/Sysfile/Give.antt =====
-- The end of `sys_pipe`: descriptors for both files of a pipe, or for none.
use os_ass.Base.{
  ℕ, ◌<◌, ◌≡◌, ◌≢◌, refl, sym, ap, subst, ◌∙◌, arith, Option, none, some, List, [], ◌∷◌, update,
  update_self, update_ne, Outcome, ok, ◌⊎◌, inl, inr,
}
use os_ass.File.Table.{Closing}
use os_ass.Sysfile.{Descriptors, nofile, fdalloc, close_both, give_fds}
use os_ass.Sysfile.Held.{IsHeld, fdalloc-some}
use os_ass.Sysfile.Counts.{bump, close-IsHeld, give-IsHeld, take-IsHeld}

-- a call that has failed, with the descriptors as in `ofile`
abbrev pub Undone :
    (ℕ → Option ℕ) → (ℕ → ℕ) → Outcome (Option (ℕ × ℕ) × Descriptors × List Closing) → Type 0
Undone ofile held out =
    (s' : Descriptors) × (todo : List Closing) × (out ≡ ok (none, s', todo))
    × IsHeld s' held
    × ((fd : ℕ) → s'.ofile fd ≡ ofile fd)

close_both-IsHeld :
    (s : Descriptors) (held : ℕ → ℕ) (rf wf : ℕ) (ofile : ℕ → Option ℕ)
    → IsHeld s (bump rf (bump wf held))
    → ((fd : ℕ) → s.ofile fd ≡ ofile fd)
    → Undone ofile held (close_both s.files s.ofile rf wf)
unfolding close_both
close_both-IsHeld s held rf wf ofile h same =
    let (files1, todo1, e1, h1) = close-IsHeld s (bump wf held) rf h in
    let (files2, todo2, e2, h2) = close-IsHeld (record s { files = files1 }) held wf h1 in
    (record s { files = files2 }, todo1 ∷ todo2 ∷ [], rw (e1, e2) refl, h2, same)

-- a call that has given descriptors, free before, to both files
abbrev pub Given :
    Descriptors → (ℕ → ℕ) → ℕ → ℕ → Outcome (Option (ℕ × ℕ) × Descriptors × List Closing) → Type 0
Given s held rf wf out =
    (fd0 : ℕ) × (fd1 : ℕ) × (s' : Descriptors) × (out ≡ ok (some (fd0, fd1), s', []))
    × IsHeld s' held
    × (s.ofile fd0 ≡ none)
    × (s.ofile fd1 ≡ none)
    × (fd0 ≢ fd1)
    × (s'.ofile fd0 ≡ some rf)
    × (s'.ofile fd1 ≡ some wf)
    × (s'.files ≡ s.files)

some_ne : {f : ℕ} → some f ≢ none
some_ne e = cc

give_second :
    (s : Descriptors) (held : ℕ → ℕ) (rf wf fd0 : ℕ)
    → IsHeld s (bump rf (bump wf held))
    → fd0 < nofile
    → s.ofile fd0 ≡ none
    → (q : Option (ℕ × (ℕ → Option ℕ))) → fdalloc (update s.ofile fd0 (some rf)) wf ≡ q
    → let out : Outcome (Option (ℕ × ℕ) × Descriptors × List Closing) = elim q [
      | none ↦ close_both s.files (update (update s.ofile fd0 (some rf)) fd0 none) rf wf
      | some (fd1, ofile2) ↦ ok (some (fd0, fd1), record { files = s.files; ofile = ofile2 }, [])
    ] in
      Undone s.ofile held out ⊎ Given s held rf wf out
give_second s held rf wf fd0 h lt free none e =
    let first = give-IsHeld s (bump wf held) fd0 rf h lt free in
    let s1 = record s { ofile = update s.ofile fd0 (some rf) } in
    let back = take-IsHeld s1 (bump wf held) fd0 rf first lt (update_self s.ofile fd0 (some rf)) in
    inl (
      close_both-IsHeld (record s { ofile = update s1.ofile fd0 none }) held rf wf s.ofile back
        (λ fd. ground (arith, free)))
give_second s held rf wf fd0 h lt free (some (fd1, ofile2)) e =
    let first = give-IsHeld s (bump wf held) fd0 rf h lt free in
    let s1 = record s { ofile = update s.ofile fd0 (some rf) } in
    let (lt1, free1, table) = fdalloc-some s1.ofile wf fd1 ofile2 e in
    let apart : fd0 ≢ fd1 =
      λ same. some_ne (sym (update_self s.ofile fd0 (some rf)) ∙ ap s1.ofile same ∙ free1) in
    inr (
      fd0,
      fd1,
      record { files = s.files; ofile = ofile2 },
      refl,
      subst (λ t. IsHeld (record { files = s.files; ofile = t }) held) (sym table)
          (give-IsHeld s1 held fd1 wf first lt1 free1),
      free,
      sym (update_ne s.ofile fd0 fd1 (some rf) apart) ∙ free1,
      apart,
      ap (λ t. t fd0) table
          ∙ update_ne s1.ofile fd1 fd0 (some wf) (λ k. apart (sym k))
          ∙ update_self s.ofile fd0 (some rf),
      ap (λ t. t fd1) table ∙ update_self s1.ofile fd1 (some wf),
      refl,
    )

pub give_fds-IsHeld :
    (s : Descriptors) (held : ℕ → ℕ) (rf wf : ℕ)
    → IsHeld s (bump rf (bump wf held))
    → Undone s.ofile held (give_fds s.files s.ofile rf wf)
      ⊎ Given s held rf wf (give_fds s.files s.ofile rf wf)
unfolding give_fds
give_fds-IsHeld s held rf wf h = at (fdalloc s.ofile rf) refl
  where
    at :
        (o : Option (ℕ × (ℕ → Option ℕ)))
        → fdalloc s.ofile rf ≡ o
        → let out : Outcome (Option (ℕ × ℕ) × Descriptors × List Closing) = elim o [
          | none ↦ close_both s.files s.ofile rf wf
          | some (fd0, ofile1) ↦ elim (fdalloc ofile1 wf) [
            | none ↦ close_both s.files (update ofile1 fd0 none) rf wf
            | some (fd1, ofile2) ↦
                ok (some (fd0, fd1), record { files = s.files; ofile = ofile2 }, [])
          ]
        ] in
          Undone s.ofile held out ⊎ Given s held rf wf out
    at none e = inl (close_both-IsHeld s held rf wf s.ofile h (λ fd. refl))
    at (some (fd0, ofile1)) e =
        let (lt, free, table) = fdalloc-some s.ofile rf fd0 ofile1 e in
        subst
          (λ t.
            let out : Outcome (Option (ℕ × ℕ) × Descriptors × List Closing) = elim (fdalloc t wf) [
              | none ↦ close_both s.files (update t fd0 none) rf wf
              | some (fd1, ofile2) ↦
                  ok (some (fd0, fd1), record { files = s.files; ofile = ofile2 }, [])
            ] in
            Undone s.ofile held out ⊎ Given s held rf wf out)
          (sym table)
          (give_second s held rf wf fd0 h lt free (fdalloc (update s.ofile fd0 (some rf)) wf) refl)
