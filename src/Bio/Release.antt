-- ===== src/Bio/Release.antt =====
-- `brelse` keeps the agreement of the cache with the disk.
use os_ass.Base.{
  ℕ, ◌≡◌, ◌==◌, inl, inr, if◌then◌else◌, sym, ap, ◌∙◌, subst, List, [], ◌∷◌, ◌++◌, ℕ_discrete,
  ==_ne, true, false, ok,
}
use os_ass.Bio.{Buf, Bcache, brelse}
use os_ass.Bio.Lru.{Released, brelse_lem}
use os_ass.Bio.Coherent.{In, IsCoherent, Clean}

In-moved : (c : ℕ) (ys : List ℕ) (b : ℕ) (zs : List ℕ) → In c (b ∷ ys ++ zs) → In c (ys ++ b ∷ zs)
In-moved c [] b zs h = h
In-moved c (y ∷ ys) b zs (inl e) = inr (In-moved c ys b zs (inl e))
In-moved c (y ∷ ys) b zs (inr (inl e)) = inl e
In-moved c (y ∷ ys) b zs (inr (inr m)) = inr (In-moved c ys b zs (inr m))

-- a buffer whose contents are on the disk unless it waits to be written
abbrev pub Flushed : (ℕ → ℕ → ℕ) → Buf → Type 0
Flushed disk v = v.valid ≡ true → v.dirty ≡ false → v.data_of ≡ disk v.sector

released-Clean :
    (s : Bcache) (xs : List ℕ) (b c : ℕ)
    → IsCoherent s xs
    → In c xs
    → Flushed s.disk (s.buf b)
    → Clean s.disk (record (s.buf c) { busy = if b == c then false else (s.buf c).busy })
released-Clean s xs b c h hc flushed = elim (ℕ_discrete b c) [
  | yes e ↦ λ valid dirty _. subst (λ k. Flushed s.disk (s.buf k)) e flushed valid dirty
  | no away ↦ rw (==_ne b c away) (h.clean c hc)
]

module _ (s s' : Bcache) (b : ℕ) (xs ys : List ℕ) where
  Released-IsCoherent :
      IsCoherent s xs
      → Released s b ys s'
      → ((c : ℕ) → In c (b ∷ ys) → In c xs)
      → Flushed s.disk (s.buf b)
      → IsCoherent s' (b ∷ ys)
  Released-IsCoherent h r among flushed = record {
    ring = r.ring;
    unique = λ c d hc hd m x y.
        h.unique c d (among c hc) (among d hd) (λ e. m (dev c ∙ e)) (sym (dev c) ∙ x ∙ dev d)
          (sym (sector c) ∙ y ∙ sector d);
    clean = λ c hc.
        subst (λ (w : Buf). Clean s'.disk w) (sym (r.kept c))
          (subst
            (λ (f : ℕ → ℕ → ℕ).
              Clean f (record (s.buf c) { busy = if b == c then false else (s.buf c).busy }))
            (sym r.disk) (released-Clean s xs b c h (among c hc) flushed));
    on_disk =
        λ c hc v. dev c ∙ h.on_disk c (among c hc) (sym (ap (λ (w : Buf). w.valid) (r.kept c)) ∙ v);
    dirty_valid = λ c hc v.
        ap (λ (w : Buf). w.dirty) (r.kept c)
        ∙ h.dirty_valid c (among c hc) (sym (ap (λ (w : Buf). w.valid) (r.kept c)) ∙ v);
  }
    where
      dev : (c : ℕ) → (s'.buf c).dev ≡ (s.buf c).dev
      dev c = ap (λ (w : Buf). w.dev) (r.kept c)

      sector : (c : ℕ) → (s'.buf c).sector ≡ (s.buf c).sector
      sector c = ap (λ (w : Buf). w.sector) (r.kept c)

-- `brelse` of a busy buffer does not panic and keeps the agreement of the cache with the disk, if the
-- contents of the buffer are those of the disk or it is marked to be written.
pub brelse-IsCoherent :
    (s : Bcache) (ys : List ℕ) (b : ℕ) (zs : List ℕ)
    → IsCoherent s (ys ++ b ∷ zs)
    → (s.buf b).busy ≡ true
    → Flushed s.disk (s.buf b)
    → (s' : Bcache) × (brelse s b ≡ ok s') × IsCoherent s' (b ∷ ys ++ zs)
brelse-IsCoherent s ys b zs h busy flushed =
    let (s', done, r) = brelse_lem s ys b zs h.ring busy in
    (
      s',
      done,
      Released-IsCoherent s s' b (ys ++ b ∷ zs) (ys ++ zs) h r (λ c. In-moved c ys b zs) flushed,
    )
