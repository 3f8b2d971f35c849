-- ===== src/Bio/Read.antt =====
-- What `bread` gives is what the disk holds.
use os_ass.Base.{
  ℕ, ◌≡◌, ◌≢◌, ◌≤◌, ◌⊎◌, inl, inr, refl, sym, ap, ◌∙◌, subst, List, [], reverse, Bool-cases,
  ℕ_discrete, dec_lt, ==_ne, lt→ltb, ltb_ge, update_self, true, false, Option, none, some, Outcome,
  ok, panic, ◌>>=◌, arith,
}
use os_ass.Bio.{
  Buf, Bcache, set_buf, holds, idle, recycle, Got, given, asleep, choose, take_cached, iderw, fill,
  bread,
}
use os_ass.Bio.Lru.{first, bget-first}
use os_ass.Bio.Coherent.{
  In, IsCoherent, first-some, first-none, In-reverse_aux, In-reverse_aux-from, changed-IsCoherent,
}

-- What holds of the buffer `b` that `bread` gives, and of the cache after it.
pub record Read (s : Bcache) (xs : List ℕ) (dev sector b : ℕ) (s' : Bcache) : Type 0 where
  pub inside : In b xs
  pub busy : (s'.buf b).busy ≡ true
  pub same_dev : (s'.buf b).dev ≡ dev
  pub same_sector : (s'.buf b).sector ≡ sector
  pub valid : (s'.buf b).valid ≡ true
  pub contents : (s'.buf b).dirty ≡ false → (s'.buf b).data_of ≡ s.disk sector
  pub coherent : IsCoherent s' xs
  pub disk : s'.disk ≡ s.disk

pub data Reads (s : Bcache) (xs : List ℕ) (dev sector : ℕ) : Outcome Got → Type 0 where
  gives :
      {b : ℕ} {s' : Bcache} → Read s xs dev sector b s' → Reads s xs dev sector (ok (given b s'))
  sleeps :
      {b : ℕ}
      → In b xs
      → holds s dev sector b ≡ true
      → (s.buf b).busy ≡ true
      → Reads s xs dev sector (ok (asleep b))
  no_buffer :
      ((c : ℕ) → In c xs → (holds s dev sector c ≡ false) × (idle s c ≡ false))
      → Reads s xs dev sector panic
  no_sector : (dev ≢ 1) ⊎ (s.disksize ≤ sector) → Reads s xs dev sector panic

-- `iderw` of a buffer that is to be read
iderw-read :
    (s : Bcache) (b : ℕ)
    → (s.buf b).busy ≡ true
    → (s.buf b).valid ≡ false
    → (s.buf b).dirty ≡ false
    → ((iderw s b
          ≡ ok (set_buf s b (record (s.buf b) { data_of = s.disk (s.buf b).sector; valid = true })))
        × ((s.buf b).dev ≡ 1))
      ⊎ ((iderw s b ≡ panic) × (((s.buf b).dev ≢ 1) ⊎ (s.disksize ≤ (s.buf b).sector)))
unfolding iderw
iderw-read s b busy valid dirty = elim (ℕ_discrete (s.buf b).dev 1) [
  | yes d ↦ elim (dec_lt (s.buf b).sector s.disksize) [
    | yes lt ↦ inl (rw (busy, valid, dirty, d, lt→ltb _ _ lt) refl, d)
    | no ge ↦ inr (
      rw (busy, valid, d, ltb_ge (s.buf b).sector s.disksize (omega arith)) refl,
      inr (omega arith),
    )
  ]
  | no n ↦ inr (rw (busy, valid, ==_ne (s.buf b).dev 1 n) refl, inl n)
]

-- the rest of `bread`, when `bget` has given a buffer
fill-Reads :
    (s s1 : Bcache) (xs : List ℕ) (dev sector b : ℕ)
    → IsCoherent s1 xs
    → In b xs
    → (s1.buf b).busy ≡ true
    → (s1.buf b).dev ≡ dev
    → (s1.buf b).sector ≡ sector
    → s1.disk ≡ s.disk
    → s1.disksize ≡ s.disksize
    → ((s1.buf b).valid ≡ true → (s1.buf b).dirty ≡ false → (s1.buf b).data_of ≡ s.disk sector)
    → Reads s xs dev sector (fill (given b s1))
fill-Reads s s1 xs dev sector b h inside busy d n same size held =
    elim (Bool-cases (s1.buf b).valid) [
      | inl v ↦ rw v (
          gives (record {
            inside = inside;
            busy = busy;
            same_dev = d;
            same_sector = n;
            valid = v;
            contents = held v;
            coherent = h;
            disk = same;
          }))
      | inr v ↦ elim (iderw-read s1 b busy v (h.dirty_valid b inside v)) [
        | inl (read, one) ↦
            let full = record (s1.buf b) { data_of = s1.disk (s1.buf b).sector; valid = true } in
            let at = update_self s1.buf b full in
            rw (v, read)
              (gives (record {
                inside = inside;
                busy = ap (λ (w : Buf). w.busy) at ∙ busy;
                same_dev = ap (λ (w : Buf). w.dev) at ∙ d;
                same_sector = ap (λ (w : Buf). w.sector) at ∙ n;
                valid = ap (λ (w : Buf). w.valid) at;
                contents = λ _.
                    ap (λ (w : Buf). w.data_of) at
                    ∙ ap (λ (f : ℕ → ℕ → ℕ). f (s1.buf b).sector) same
                    ∙ ap s.disk n;
                coherent =
                    changed-IsCoherent s1 xs b full h busy refl refl (λ _. one) (λ z. cc)
                      (λ c hc _. h.unique b c inside hc);
                disk = same;
              }))
        | inr (fails, why) ↦
            rw (v, fails)
              (no_sector (elim why [
                | inl w ↦ inl (λ q. w (d ∙ q))
                | inr le ↦ inr (omega (arith, le, n, size))
              ]))
      ]
    ]

-- the same, with what `bget` changes written out
fill-changed :
    (s : Bcache) (xs : List ℕ) (dev sector b : ℕ) (v : Buf)
    → IsCoherent (set_buf s b v) xs
    → In b xs
    → v.busy ≡ true
    → v.dev ≡ dev
    → v.sector ≡ sector
    → (v.valid ≡ true → v.dirty ≡ false → v.data_of ≡ s.disk sector)
    → Reads s xs dev sector (fill (given b (set_buf s b v)))
fill-changed s xs dev sector b v h inside busy d n held =
    let at = update_self s.buf b v in
    fill-Reads s (set_buf s b v) xs dev sector b h inside (ap (λ (w : Buf). w.busy) at ∙ busy)
      (ap (λ (w : Buf). w.dev) at ∙ d) (ap (λ (w : Buf). w.sector) at ∙ n) refl refl
      (subst (λ (w : Buf). w.valid ≡ true → w.dirty ≡ false → w.data_of ≡ s.disk sector) (sym at)
        held)

module _ (s : Bcache) (xs : List ℕ) (dev sector : ℕ) (h : IsCoherent s xs) where
  cached-Reads :
      (b : ℕ)
      → In b xs
      → holds s dev sector b ≡ true
      → Reads s xs dev sector (take_cached s b >>= fill)
  cached-Reads b inside hold = elim (Bool-cases (s.buf b).busy) [
    | inl busy ↦ rw busy (sleeps inside hold busy)
    | inr free ↦
        let d : (s.buf b).dev ≡ dev = ground arith in
        let n : (s.buf b).sector ≡ sector = ground arith in
        let v = record (s.buf b) { busy = true } in
        rw free (
          fill-changed s xs dev sector b v
            (changed-IsCoherent s xs b v h refl refl refl (h.on_disk b inside)
              (h.dirty_valid b inside) (λ c hc _. h.unique b c inside hc))
            inside refl d n (λ valid dirty. h.clean b inside valid dirty free ∙ ap s.disk n))
  ]

  recycled-Reads :
      (b : ℕ)
      → In b xs
      → ((c : ℕ) → In c xs → holds s dev sector c ≡ false)
      → Reads s xs dev sector (fill (given b (recycle s b dev sector)))
  recycled-Reads b inside none_holds =
      let v = record (s.buf b) {
        dev = dev;
        sector = sector;
        busy = true;
        valid = false;
        dirty = false;
      } in
      fill-changed s xs dev sector b v
        (changed-IsCoherent s xs b v h refl refl refl (λ z. cc) (λ _. refl)
          (λ c hc _ _ d n. let miss = none_holds c hc in absurd (grind (arith, miss, d, n))))
        inside refl refl refl (λ z. cc)

  -- `bread` from what the list of the buffers gives
  choose-Reads :
      (cached free : Option ℕ)
      → first (holds s dev sector) xs ≡ cached
      → first (idle s) (reverse xs) ≡ free
      → Reads s xs dev sector (choose s dev sector cached free >>= fill)
  choose-Reads (some b) free e e2 =
      let (inside, hold) = first-some (holds s dev sector) xs {b = b} e in
      cached-Reads b inside hold
  choose-Reads none none e e2 = no_buffer λ c hc. (
    first-none (holds s dev sector) xs e c hc,
    first-none (idle s) (reverse xs) e2 c (In-reverse_aux-from c xs [] (inl hc)),
  )
  choose-Reads none (some b) e e2 =
      elim (In-reverse_aux b xs [] (first-some (idle s) (reverse xs) {b = b} e2).0) [
        | inl inside ↦ recycled-Reads b inside (first-none (holds s dev sector) xs e)
        | inr nowhere ↦ elim nowhere [ ]
      ]

-- In a cache where a sector has one buffer at most and idle buffers agree with the disk, `bread` gives a
-- busy and valid buffer of the sector, whose contents are those of the disk unless it waits to be
-- written, and the cache is such a cache again. Or it sleeps on the buffer of the sector, which is busy.
-- It panics only when no buffer holds the sector and each is busy or dirty, or when the sector
-- is not on the disk.
pub bread_lem :
    (s : Bcache) (xs : List ℕ) (dev sector : ℕ)
    → IsCoherent s xs
    → Reads s xs dev sector (bread s dev sector)
unfolding bread
bread_lem s xs dev sector h =
    subst (λ got. Reads s xs dev sector (got >>= fill)) (sym (bget-first s xs dev sector h.ring))
      (choose-Reads s xs dev sector h _ _ refl refl)
