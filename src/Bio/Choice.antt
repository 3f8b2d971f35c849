-- ===== src/Bio/Choice.antt =====
-- Which buffer `bget` takes, and what it makes of it.
use os_ass.Base.{
  ℕ, ◌≡◌, ◌≢◌, ◌⊎◌, inl, inr, refl, sym, ap, ◌∙◌, subst, List, [], ◌∷◌, ◌++◌, All, reverse_aux,
  Bool, true, false, Bool-cases, none, some, Outcome, ok, panic, update_self, update_ne, arith,
  ℕ_discrete,
}
use os_ass.Bio.{Buf, Bcache, holds, idle, Got, given, asleep, bget, set_buf, recycle}
use os_ass.Bio.Lru.{IsRing, first, bget-first}

-- the buffer is for another sector
abbrev pub IsOther : Bcache → ℕ → ℕ → ℕ → Type 0
IsOther s dev sector b = ((s.buf b).dev ≢ dev) ⊎ ((s.buf b).sector ≢ sector)

-- the buffer is busy, or waits to be written
abbrev pub IsTaken : Bcache → ℕ → Type 0
IsTaken s b = ((s.buf b).busy ≡ true) ⊎ ((s.buf b).dirty ≡ true)

-- The cache `s'` is `s` but for buffer `b`, which has become `v`.
pub record Becomes (s : Bcache) (b : ℕ) (v : Buf) (s' : Bcache) : Type 0 where
  pub at : s'.buf b ≡ v
  pub others : (c : ℕ) → b ≢ c → s'.buf c ≡ s.buf c
  pub disk : (s'.disk ≡ s.disk) × (s'.disksize ≡ s.disksize)

-- What `bget` may do, with the buffers `xs` of the ring in the order of `next`.
pub data Gets (s : Bcache) (xs : List ℕ) (dev sector : ℕ) : Outcome Got → Type 0 where
  cached :
      (ys : List ℕ) (b : ℕ) (zs : List ℕ) (s' : Bcache)
      → xs ≡ ys ++ b ∷ zs
      → All (IsOther s dev sector) ys
      → ((s.buf b).dev ≡ dev) × ((s.buf b).sector ≡ sector)
      → (s.buf b).busy ≡ false
      → Becomes s b (record (s.buf b) { busy = true }) s'
      → Gets s xs dev sector (ok (given b s'))
  waits :
      (ys : List ℕ) (b : ℕ) (zs : List ℕ)
      → xs ≡ ys ++ b ∷ zs
      → All (IsOther s dev sector) ys
      → ((s.buf b).dev ≡ dev) × ((s.buf b).sector ≡ sector)
      → (s.buf b).busy ≡ true
      → Gets s xs dev sector (ok (asleep b))
  recycled :
      (ys : List ℕ) (b : ℕ) (zs : List ℕ) (s' : Bcache)
      → All (IsOther s dev sector) xs
      → xs ≡ ys ++ b ∷ zs
      → ((s.buf b).busy ≡ false) × ((s.buf b).dirty ≡ false)
      → All (IsTaken s) zs
      → Becomes s b
          (record (s.buf b) {
            dev = dev;
            sector = sector;
            busy = true;
            valid = false;
            dirty = false;
          })
          s'
      → Gets s xs dev sector (ok (given b s'))
  no_buffers : All (IsOther s dev sector) xs → All (IsTaken s) xs → Gets s xs dev sector panic

-- the first element that passes a test, or that none does
module _ (test : ℕ → Bool) where
  abbrev Fails : ℕ → Type 0
  Fails x = test x ≡ false

  first-split :
      (xs : List ℕ)
      → ((ys : List ℕ) × (b : ℕ) × (zs : List ℕ) × (first test xs ≡ some b)
          × (xs ≡ ys ++ b ∷ zs)
          × All Fails ys
          × (test b ≡ true))
        ⊎ ((first test xs ≡ none) × All Fails xs)
  first-split [] = inr (refl, tt)
  first-split (x ∷ xs) = elim (Bool-cases (test x)) [
    | inl e ↦ inl ([], x, xs, rw e refl, refl, tt, e)
    | inr e ↦ elim (first-split xs) [
      | inl (ys, b, zs, found, split, fails, passes) ↦
          inl (x ∷ ys, b, zs, rw e found, ap (λ l. x ∷ l) split, (e, fails), passes)
      | inr (nothing, fails) ↦ inr (rw e nothing, (e, fails))
    ]
  ]

  -- from the other end
  back-split :
      (xs acc : List ℕ)
      → ((ys : List ℕ) × (b : ℕ) × (zs : List ℕ) × (first test (reverse_aux xs acc) ≡ some b)
          × (xs ≡ ys ++ b ∷ zs)
          × All Fails zs
          × (test b ≡ true))
        ⊎ ((first test (reverse_aux xs acc) ≡ first test acc) × All Fails xs)
  back-split [] acc = inr (refl, tt)
  back-split (x ∷ xs) acc = elim (back-split xs (x ∷ acc)) [
    | inl (ys, b, zs, found, split, fails, passes) ↦
        inl (x ∷ ys, b, zs, found, ap (λ l. x ∷ l) split, fails, passes)
    | inr (nothing, fails) ↦ elim (Bool-cases (test x)) [
      | inl e ↦ inl ([], x, xs, nothing ∙ rw e refl, refl, fails, e)
      | inr e ↦ inr (nothing ∙ rw e refl, (e, fails))
    ]
  ]

All-weaken : {P Q : ℕ → Type 0} → ((x : ℕ) → P x → Q x) → (xs : List ℕ) → All P xs → All Q xs
All-weaken f [] h = tt
All-weaken f (x ∷ xs) h = (f x h.0, All-weaken f xs h.1)

holds-IsOther :
    (s : Bcache) (dev sector b : ℕ) → holds s dev sector b ≡ false → IsOther s dev sector b
holds-IsOther s dev sector b e = elim (ℕ_discrete (s.buf b).dev dev) [
  | no ne ↦ inl ne
  | yes d ↦ inr (λ q. ground arith)
]

idle-IsTaken : (s : Bcache) (b : ℕ) → idle s b ≡ false → IsTaken s b
idle-IsTaken s b e = elim (Bool-cases (s.buf b).busy) [
  | inl busy ↦ inl busy
  | inr free ↦ inr (ground arith)
]

changed-Becomes : (s : Bcache) (b : ℕ) (v : Buf) → Becomes s b v (set_buf s b v)
changed-Becomes s b v = record {
  at = update_self s.buf b v;
  others = λ c ne. update_ne s.buf b c v ne;
  disk = (refl, refl);
}

-- `bget`, where `xs` are the buffers of the ring from its head in the order of `next`. It looks for the first of them
-- that is for the sector: if that is not busy it is given, marked busy; otherwise `bget` sleeps on it. When none is
-- for the sector, the last of them that is neither busy nor dirty is given, for the sector now, busy, not valid
-- and not dirty; `bget` panics when there is none. Nothing else of the buffers and of the disk changes.
pub bget_lem :
    (s : Bcache) (xs : List ℕ) (dev sector : ℕ)
    → IsRing s xs
    → Gets s xs dev sector (bget s dev sector)
bget_lem s xs dev sector r =
    subst (Gets s xs dev sector) (sym (bget-first s xs dev sector r))
      (elim (first-split (holds s dev sector) xs) [
        | inl (ys, b, zs, found, split, others, here) ↦
            let is_for : ((s.buf b).dev ≡ dev) × ((s.buf b).sector ≡ sector) = ground arith in
            let others1 = All-weaken (holds-IsOther s dev sector) ys others in
            rw found (elim (Bool-cases (s.buf b).busy) [
              | inl busy ↦ rw busy (waits ys b zs split others1 is_for busy)
              | inr free ↦ rw free (
                  cached ys b zs (set_buf s b (record (s.buf b) { busy = true })) split others1
                    is_for free (changed-Becomes s b (record (s.buf b) { busy = true })))
            ])
        | inr (nothing, others) ↦
            let others1 = All-weaken (holds-IsOther s dev sector) xs others in
            rw nothing (elim (back-split (idle s) xs []) [
              | inl (ys, b, zs, found, split, taken, free) ↦ rw found (
                  recycled ys b zs (recycle s b dev sector) others1 split (ground arith)
                    (All-weaken (idle-IsTaken s) zs taken)
                    (changed-Becomes s b (record (s.buf b) {
                      dev = dev;
                      sector = sector;
                      busy = true;
                      valid = false;
                      dirty = false;
                    })))
              | inr (none_free, taken) ↦
                  rw none_free (no_buffers others1 (All-weaken (idle-IsTaken s) xs taken))
            ])
      ])
