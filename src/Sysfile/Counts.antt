-- ===== src/Sysfile/Counts.antt =====
-- How an allocation, a close and a move of a descriptor change the reference counts.
use os_ass.Base.{
  ℕ, ◌+◌, ◌-◌, ◌<◌, ◌≡◌, refl, subst, ◌∙◌, arith, true, false, Option, none, some, ltb, ◌==◌,
  if◌then◌else◌, update, ok, dec_lt,
}
use os_ass.File.Table.{
  File, filealloc, find_free, fileclose, Closing, closing, nothing, fd_none, nfile,
}
use os_ass.File.Refs.{find_free-some}
use os_ass.Sysfile.{Descriptors, nofile}
use os_ass.Sysfile.Slots.{count-update}
use os_ass.Sysfile.Held.{IsHeld, one}

-- one reference more to `f`
abbrev pub bump : ℕ → (ℕ → ℕ) → ℕ → ℕ
bump f held g = (if f == g then 1 else 0) + held g

-- the count does not look at anything but `ref`
pub same_refs :
    (s : Descriptors) (files : ℕ → File) (held : ℕ → ℕ)
    → ((g : ℕ) → (files g).ref ≡ (s.files g).ref)
    → IsHeld s held
    → IsHeld (record s { files = files }) held
same_refs s files held e h g = e g ∙ h g

pub alloc-IsHeld :
    (s : Descriptors) (held : ℕ → ℕ) {f : ℕ} {files : ℕ → File}
    → IsHeld s held
    → filealloc s.files ≡ some (f, files)
    → IsHeld (record s { files = files }) (bump f held)
unfolding filealloc
alloc-IsHeld s held {f} {files} h e = at (find_free s.files 0 nfile) refl e
  where
    at :
        (o : Option ℕ)
        → find_free s.files 0 nfile ≡ o
        → (elim o as (λ _. Option (ℕ × (ℕ → File))) [
          | none ↦ none
          | some i ↦ some (i, update s.files i (record (s.files i) { ref = 1 }))
        ])
          ≡ some (f, files)
        → IsHeld (record s { files = files }) (bump f held)
    at none q k = cc
    at (some i) q k =
        let free = (find_free-some s.files 0 nfile {r = i} q).2 in
        let same : i ≡ f = cc in
        let table : update s.files i (record (s.files i) { ref = 1 }) ≡ files = cc in
        subst (λ t. IsHeld (record s { files = t }) (bump f held)) table
          (subst
            (λ j.
              IsHeld (record s { files = update s.files i (record (s.files i) { ref = 1 }) })
                (bump j held))
            same (λ g. ground (arith, h g, h i, free)))

pub close-IsHeld :
    (s : Descriptors) (held : ℕ → ℕ) (f : ℕ)
    → IsHeld s (bump f held)
    → (files : ℕ → File) × (todo : Closing) × (fileclose s.files f ≡ ok (files, todo))
      × IsHeld (record s { files = files }) held
unfolding fileclose
close-IsHeld s held f h =
    let positive : ltb (s.files f).ref 1 ≡ false = ground (arith, h f) in
    elim (dec_lt 1 (s.files f).ref) [
      | yes more ↦
          let left : ltb 0 ((s.files f).ref - 1) ≡ true = ground arith in
          (
            update s.files f (record (s.files f) { ref = (s.files f).ref - 1 }),
            nothing,
            rw (positive, left) refl,
            λ g. ground (arith, h g, h f),
          )
      | no single ↦
          let left : ltb 0 ((s.files f).ref - 1) ≡ false = ground arith in
          (
            update s.files f (record (s.files f) { ref = 0; type = fd_none }),
            closing (s.files f),
            rw (positive, left) refl,
            λ g. ground (arith, h g, h f),
          )
    ]

pub give-IsHeld :
    (s : Descriptors) (held : ℕ → ℕ) (fd f : ℕ)
    → IsHeld s (bump f held)
    → fd < nofile
    → s.ofile fd ≡ none
    → IsHeld (record s { ofile = update s.ofile fd (some f) }) held
give-IsHeld s held fd f h lt free g =
    let moved = count-update s.ofile fd nofile g none (some f) lt free in
    ground (arith, moved, one f g, h g)

pub take-IsHeld :
    (s : Descriptors) (held : ℕ → ℕ) (fd f : ℕ)
    → IsHeld s held
    → fd < nofile
    → s.ofile fd ≡ some f
    → IsHeld (record s { ofile = update s.ofile fd none }) (bump f held)
take-IsHeld s held fd f h lt full g =
    let moved = count-update s.ofile fd nofile g (some f) none lt full in
    ground (arith, moved, one f g, h g)
