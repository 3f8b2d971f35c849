-- ===== src/Fs/Bitmap.antt =====
-- The search of `balloc` for the first clear bit.
use os_ass.Base.{
  ℕ, Outcome, Bool, ◌≡◌, ◌<◌, some, none, false, ◌≤◌, panic, true, ok, ◌/◌, ◌+◌, ◌%◌, arith, ◌*◌,
  suc, Bool-cases, inl, ltb, inr, Option-cases, ℕ_discrete, zero, dec_lt, subst, ◌∙◌, ◌-◌,
}
use os_ass.Fs.{
  Block, Fs, readsb, log_block, bzero, bpb, ipb, bblock, bit_clear, set_bit, find_clear,
  balloc_loop, balloc,
}
use os_ass.Fs.Bits.{IsBytes}

-- the bit of the block `b` is clear
abbrev pub is_free : Fs → ℕ → Bool
is_free s b = bit_clear (s.blocks (bblock b (readsb s).ninodes)) (b % bpb)

-- the block after the bitmap
abbrev pub first_data : Fs → ℕ
first_data s = (readsb s).size / bpb + (readsb s).ninodes / ipb + 4

-- Buffers hold bytes, and the blocks up to the end of the bitmap are marked in use.
pub record IsFs (s : Fs) : Type 0 where
  pub bytes : (b : ℕ) → IsBytes (s.blocks b)
  pub reserved : (b : ℕ) → b < first_data s → is_free s b ≡ false

find_clear-some :
    (bytes : Block) (size b bi k : ℕ) {r : ℕ}
    → find_clear bytes size b bi k ≡ some r
    → (bi ≤ r)
      × (r < bi + k)
      × (b + r < size)
      × (bit_clear bytes r ≡ true)
      × ((j : ℕ) → bi ≤ j → j < r → bit_clear bytes j ≡ false)
unfolding find_clear
find_clear-some bytes size b bi zero e = cc
find_clear-some bytes size b bi (suc k) {r} e = elim (Bool-cases (ltb (b + bi) size)) [
  | inr out ↦ ground arith
  | inl inside ↦ elim (Bool-cases (bit_clear bytes bi)) [
    | inl hit ↦
        let here : bi ≡ r = ground arith in
        (omega arith, omega arith, ground arith, rw here at hit, λ j lo hi. absurd (omega arith))
    | inr miss ↦
        let later : find_clear bytes size b (bi + 1) k ≡ some r = ground arith in
        let (lo, hi, fits, hit, before) = find_clear-some bytes size b (bi + 1) k later in
        (
          omega arith,
          omega arith,
          fits,
          hit,
          λ j l h. elim (ℕ_discrete bi j) [
            | yes q ↦ rw q at miss
            | no away ↦ before j (omega arith) h
          ],
        )
  ]
]

find_clear-none :
    (bytes : Block) (size b bi k : ℕ)
    → find_clear bytes size b bi k ≡ none
    → (j : ℕ) → bi ≤ j
    → j < bi + k
    → b + j < size
    → bit_clear bytes j ≡ false
unfolding find_clear
find_clear-none bytes size b bi zero e j lo hi fits = absurd (omega arith)
find_clear-none bytes size b bi (suc k) e j lo hi fits = elim (Bool-cases (bit_clear bytes bi)) [
  | inl hit ↦ ground arith
  | inr miss ↦ elim (ℕ_discrete bi j) [
    | yes q ↦ rw q at miss
    | no away ↦
        find_clear-none bytes size b (bi + 1) k (ground arith) j (omega arith) (omega arith) fits
  ]
]

-- the state after the block `b` has been marked and zeroed
abbrev pub grabbed : Fs → ℕ → Fs
grabbed s b =
    let sector = bblock b (readsb s).ninodes in
    bzero (log_block s sector (set_bit (s.blocks sector) (b % bpb))) b

-- What `balloc` does: it takes the first free block, or panics where there is none.
pub data Allocates (s : Fs) : Outcome (ℕ × Fs) → Type 0 where
  full : ((j : ℕ) → j < (readsb s).size → is_free s j ≡ false) → Allocates s panic
  first :
      {b : ℕ}
      → b < (readsb s).size
      → is_free s b ≡ true
      → ((j : ℕ) → j < b → is_free s j ≡ false)
      → Allocates s (ok (b, grabbed s b))

-- block `b + bi` in the part of the bitmap that begins at `b`
module _ (s : Fs) (b bi : ℕ) (even : b % bpb ≡ 0) (small : bi < bpb) where
  same_block : (b + bi) / bpb ≡ b / bpb
  same_block = omega arith

  same_bit : (b + bi) % bpb ≡ bi
  same_bit = omega arith

  is_free_at : is_free s (b + bi) ≡ bit_clear (s.blocks (bblock b (readsb s).ninodes)) bi
  is_free_at = rw (same_block, same_bit)

  grabbed_at :
      grabbed s (b + bi)
      ≡ bzero
          (log_block s
            (bblock b (readsb s).ninodes)
            (set_bit (s.blocks (bblock b (readsb s).ninodes)) bi))
          (b + bi)
  grabbed_at = rw (same_block, same_bit)

-- where none of the first `n` bits of the part that begins at `b` is clear, nothing before is free
pass :
    (s : Fs) (b n : ℕ)
    → b % bpb ≡ 0
    → n ≤ bpb
    → ((j : ℕ) → j < b → j < (readsb s).size → is_free s j ≡ false)
    → ((j : ℕ)
        → j < n
        → b + j < (readsb s).size
        → bit_clear (s.blocks (bblock b (readsb s).ninodes)) j ≡ false)
    → (j : ℕ) → j < b + n
    → j < (readsb s).size
    → is_free s j ≡ false
pass s b n even most before marked j lt inside = elim (dec_lt j b) [
  | yes h ↦ before j h inside
  | no h ↦
      let at : b + (j - b) ≡ j = omega arith in
      subst (λ k. is_free s k ≡ false) at
        (is_free_at s b (j - b) even (omega arith) ∙ marked (j - b) (omega arith) (omega arith))
]

balloc_loop-Allocates :
    (s : Fs) (b k : ℕ)
    → b % bpb ≡ 0
    → (readsb s).size < b + k * bpb
    → ((j : ℕ) → j < b → j < (readsb s).size → is_free s j ≡ false)
    → Allocates s (balloc_loop s (readsb s) b k)
unfolding balloc_loop
balloc_loop-Allocates s b zero even fuel before = full (λ j h. before j (omega arith) h)
balloc_loop-Allocates s b (suc k) even fuel before = elim (Bool-cases (ltb b (readsb s).size)) [
  | inr out ↦ rw out (full (λ j h. before j (ground arith) h))
  | inl inside ↦
      elim (Option-cases
        (find_clear (s.blocks (bblock b (readsb s).ninodes)) (readsb s).size b 0 bpb)) [
          | inl e ↦
              rw (inside, e)
                (balloc_loop-Allocates s (b + bpb) k (omega arith) (omega arith) (
                  pass s b bpb even (omega arith) before λ j lt fits.
                    find_clear-none (s.blocks (bblock b (readsb s).ninodes)) (readsb s).size b 0 bpb
                      e j (omega arith) (omega arith) fits))
          | inr (bi, e) ↦
              let bytes = s.blocks (bblock b (readsb s).ninodes) in
              let (_, small, fits, hit, earlier) =
                find_clear-some bytes (readsb s).size b 0 bpb e in
              rw (inside, e)
                (subst (λ s'. Allocates s (ok (b + bi, s'))) (grabbed_at s b bi even small)
                  (first fits (is_free_at s b bi even small ∙ hit) (λ j lt.
                    pass s b bi even (omega arith) before (λ j' h f. earlier j' (omega arith) h) j
                      lt (omega arith))))
        ]
]

pub balloc-Allocates : (s : Fs) → Allocates s (balloc s)
unfolding balloc
balloc-Allocates s =
    balloc_loop-Allocates s 0 ((readsb s).size / bpb + 1) (omega arith) (omega arith)
      (λ j h. absurd (omega arith))
