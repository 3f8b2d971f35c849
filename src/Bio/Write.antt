-- ===== src/Bio/Write.antt =====
-- `bwrite` puts a buffer on the disk, and the cache still agrees with the disk.
use os_ass.Base.{
  ℕ, ◌≡◌, ◌≢◌, ◌≤◌, ◌⊎◌, inl, inr, if◌then◌else◌, not, refl, sym, ap, ◌∙◌, subst, List, ℕ_discrete,
  dec_lt, ==_ne, lt→ltb, ltb_ge, update, update_self, update_ne, true, false, ok, panic, arith,
}
use os_ass.Bio.{Buf, Bcache, set_buf, iderw, bwrite}
use os_ass.Bio.Coherent.{In, IsCoherent, changed-IsCoherent}

-- the buffer, when it is on the disk
abbrev pub written : Buf → Buf
written v = record v { dirty = false; valid = true }

-- A sector of the disk changes whose buffer is in use.
disk-IsCoherent :
    (s : Bcache) (xs : List ℕ) (b : ℕ) (bytes : ℕ → ℕ)
    → IsCoherent s xs
    → In b xs
    → (s.buf b).busy ≡ true
    → (s.buf b).dev ≡ 1
    → IsCoherent (record s { disk = update s.disk (s.buf b).sector bytes }) xs
disk-IsCoherent s xs b bytes h inside busy one = record {
  ring = record { linked = h.ring.linked; distinct = h.ring.distinct; count = h.ring.count };
  unique = h.unique;
  clean = λ c hc valid dirty free.
      h.clean c hc valid dirty free
      ∙ sym (
          update_ne s.disk (s.buf b).sector (s.buf c).sector bytes λ q.
            let same : b ≡ c =
              h.unique b c inside hc (λ e. omega arith) (one ∙ sym (h.on_disk c hc valid)) q in
            let used : (s.buf c).busy ≡ true = subst (λ k. (s.buf k).busy ≡ true) same busy in cc);
  on_disk = h.on_disk;
  dirty_valid = h.dirty_valid;
}

-- What `bwrite` of the buffer `b` has done.
pub record Written (s : Bcache) (xs : List ℕ) (b : ℕ) (s' : Bcache) : Type 0 where
  pub disk : s'.disk ≡ update s.disk (s.buf b).sector (s.buf b).data_of
  pub clean : s'.buf b ≡ written (s.buf b)
  pub others : (c : ℕ) → b ≢ c → s'.buf c ≡ s.buf c
  pub coherent : IsCoherent s' xs

-- `iderw` of a buffer that is to be written
iderw-write :
    (s : Bcache) (b : ℕ)
    → (s.buf b).busy ≡ true
    → (s.buf b).valid ≡ true
    → (s.buf b).dirty ≡ true
    → ((iderw s b
          ≡ ok (record (set_buf s b (written (s.buf b))) {
            disk = update s.disk (s.buf b).sector (s.buf b).data_of;
          }))
        × ((s.buf b).dev ≡ 1))
      ⊎ ((iderw s b ≡ panic) × (((s.buf b).dev ≢ 1) ⊎ (s.disksize ≤ (s.buf b).sector)))
unfolding iderw
iderw-write s b busy valid dirty = elim (ℕ_discrete (s.buf b).dev 1) [
  | yes d ↦ elim (dec_lt (s.buf b).sector s.disksize) [
    | yes lt ↦ inl (rw (busy, valid, dirty, d, lt→ltb _ _ lt) refl, d)
    | no ge ↦ inr (
      rw (busy, valid, dirty, d, ltb_ge (s.buf b).sector s.disksize (omega arith)) refl,
      inr (omega arith),
    )
  ]
  | no n ↦ inr (rw (busy, valid, dirty, ==_ne (s.buf b).dev 1 n) refl, inl n)
]

-- the state that `bwrite` leaves, from the one in which the buffer is marked dirty
written-Written :
    (s s1 : Bcache) (xs : List ℕ) (b : ℕ)
    → IsCoherent s1 xs
    → In b xs
    → (s1.buf b).busy ≡ true
    → (s1.buf b).dev ≡ 1
    → s1.disk ≡ s.disk
    → s1.buf b ≡ record (s.buf b) { dirty = true }
    → ((c : ℕ) → b ≢ c → s1.buf c ≡ s.buf c)
    → Written s xs b (record (set_buf s1 b (written (s1.buf b))) {
      disk = update s1.disk (s1.buf b).sector (s1.buf b).data_of;
    })
written-Written s s1 xs b h inside busy one same at others =
    let w = written (s1.buf b) in
    let s2 = set_buf s1 b w in
    let at2 = update_self s1.buf b w in
    let h2 =
      changed-IsCoherent s1 xs b w h busy refl refl (λ _. one) (λ z. cc)
        (λ c hc _. h.unique b c inside hc) in
    record {
      disk =
          ap (λ (f : ℕ → ℕ → ℕ). update f (s1.buf b).sector (s1.buf b).data_of) same
          ∙ ap (λ (v : Buf). update s.disk v.sector v.data_of) at;
      clean = at2 ∙ ap written at;
      others = λ c n. update_ne s1.buf b c w n ∙ others c n;
      coherent =
          subst (λ k. IsCoherent (record s2 { disk = update s1.disk k (s1.buf b).data_of }) xs)
            (ap (λ (v : Buf). v.sector) at2)
            (disk-IsCoherent s2 xs b (s1.buf b).data_of h2 inside
              (ap (λ (v : Buf). v.busy) at2 ∙ busy) (ap (λ (v : Buf). v.dev) at2 ∙ one));
    }

-- `bwrite` of a busy and valid buffer writes its contents to its sector, clears the mark that it waits
-- to be written, and keeps the agreement of the cache with the disk. It panics only when the sector
-- is not on the disk.
bwrite_lem :
    (s : Bcache) (xs : List ℕ) (b : ℕ)
    → IsCoherent s xs
    → In b xs
    → (s.buf b).busy ≡ true
    → (s.buf b).valid ≡ true
    → ((s' : Bcache) × (bwrite s b ≡ ok s') × Written s xs b s')
      ⊎ ((bwrite s b ≡ panic) × (((s.buf b).dev ≢ 1) ⊎ (s.disksize ≤ (s.buf b).sector)))
unfolding bwrite
bwrite_lem s xs b h inside busy valid =
    let marked = record (s.buf b) { dirty = true } in
    let s1 = set_buf s b marked in
    let at = update_self s.buf b marked in
    let busy1 : (s1.buf b).busy ≡ true = ap (λ (w : Buf). w.busy) at ∙ busy in
    let valid1 : (s1.buf b).valid ≡ true = ap (λ (w : Buf). w.valid) at ∙ valid in
    let h1 =
      changed-IsCoherent s xs b marked h busy refl refl (h.on_disk b inside) (λ z. cc)
        (λ c hc _. h.unique b c inside hc) in
    let called : bwrite s b ≡ iderw s1 b = ap (λ t. if not t then panic else iderw s1 b) busy in
    elim (iderw-write s1 b busy1 valid1 (ap (λ (w : Buf). w.dirty) at)) [
      | inl (done, one) ↦ inl (
        _,
        called ∙ done,
        written-Written s s1 xs b h1 inside busy1 one refl at (λ c n. update_ne s.buf b c marked n),
      )
      | inr (fails, why) ↦
          inr (called ∙ fails, subst (λ (w : Buf). (w.dev ≢ 1) ⊎ (s.disksize ≤ w.sector)) at why)
    ]
