-- ===== src/Fs/Alloc.antt =====
-- What `balloc` and `bfree` do to the blocks and to the bitmap.
use os_ass.Fs.Bitmap.{is_free, first_data, IsFs, grabbed, Allocates, full, first, balloc-Allocates}
use os_ass.Base.{
  ℕ, Outcome, Bool, ◌≡◌, ◌<◌, false, ◌≤◌, panic, true, ok, ◌/◌, ◌+◌, ◌%◌, arith, inl, inr,
  ℕ_discrete, refl, dec_lt, subst, ◌∙◌, if◌then◌else◌, ◌==◌, ◌≢◌, ==_refl, update, ==_ne, sym, ap,
  word, ◌⊎◌,
}
use os_ass.Fs.{
  Block, Fs, readsb, log_block, bpb, ipb, bblock, bit_clear, set_bit, clear_bit, balloc, bfree,
}
use os_ass.Fs.Bits.{
  IsBytes, bit_clear-set_bit, bit_clear-clear_bit, set_bit-IsBytes, clear_bit-IsBytes,
}

-- the blocks that a change of one bit may touch are those of the bitmap
pub bblock-bound :
    (s : Fs) (j : ℕ)
    → j < (readsb s).size
    → (2 < bblock j (readsb s).ninodes) × (bblock j (readsb s).ninodes < first_data s)
bblock-bound s j h = omega arith

-- two bits of the bitmap are the same bit just when they are in one block at one place
same_bits : (b j n : ℕ) → bblock b n ≡ bblock j n → (b % bpb == j % bpb) ≡ (b == j)
same_bits b j n e = elim (ℕ_discrete b j) [
  | yes q ↦ rw q (==_refl (j % bpb) ∙ sym (==_refl j))
  | no away ↦ ==_ne (b % bpb) (j % bpb) (omega arith) ∙ sym (==_ne b j away)
]

-- The bits after a change of one bit of the bitmap, in any block state that is otherwise the same
-- on the bitmap and the superblock.
one_bit :
    (s s' : Fs) (b : ℕ) (v : Bool) (change : Block → ℕ → Block)
    → ((bytes : Block) (bi j : ℕ)
        → IsBytes bytes
        → bit_clear (change bytes bi) j ≡ (if bi == j then v else bit_clear bytes j))
    → ((j : ℕ) → IsBytes (s.blocks j))
    → s'.blocks 1 ≡ s.blocks 1
    → (j : ℕ)
    → s'.blocks (bblock j (readsb s).ninodes)
      ≡ update s.blocks
          (bblock b (readsb s).ninodes)
          (change (s.blocks (bblock b (readsb s).ninodes)) (b % bpb))
          (bblock j (readsb s).ninodes)
    → is_free s' j ≡ (if b == j then v else is_free s j)
one_bit s s' b v change law bytes super j e =
    let n = (readsb s).ninodes in
    ap (λ m. bit_clear (s'.blocks (bblock j (word m 8))) (j % bpb)) super
    ∙ ap (λ m. bit_clear m (j % bpb)) e
    ∙ elim (ℕ_discrete (bblock b n) (bblock j n)) [
      | yes q ↦
          rw (q, ==_refl (bblock j n))
            (law (s.blocks (bblock j n)) (b % bpb) (j % bpb) (bytes (bblock j n))
              ∙ ap (λ t. if t then v else is_free s j) (same_bits b j n q))
      | no away ↦
          rw (==_ne (bblock b n) (bblock j n) away, ==_ne b j (λ q. away (ap (λ k. bblock k n) q)))
    ]

pub update-bytes :
    (blocks : ℕ → Block) (b : ℕ) (bytes : Block)
    → ((j : ℕ) → IsBytes (blocks j))
    → IsBytes bytes
    → (j : ℕ) → IsBytes (update blocks b bytes j)
update-bytes blocks b bytes all new j i = elim (ℕ_discrete b j) [
  | yes e ↦ rw (e, ==_refl j) (new i)
  | no n ↦ rw (==_ne b j n) (all j i)
]

-- The state after a block has been taken.
pub record Takes (s : Fs) (b : ℕ) (s' : Fs) : Type 0 where
  pub inside : b < (readsb s).size
  pub was_free : is_free s b ≡ true
  pub data_block : first_data s ≤ b
  pub marked :
      (j : ℕ) → j < (readsb s).size → is_free s' j ≡ (if b == j then false else is_free s j)
  pub zeroed : s'.blocks b ≡ (λ _. 0)
  -- only the block and a block of the bitmap change
  pub others : (j : ℕ) → j ≢ b → first_data s ≤ j → s'.blocks j ≡ s.blocks j
  pub before_bitmap : (j : ℕ) → j < 3 → s'.blocks j ≡ s.blocks j
  pub inodes : s'.inode ≡ s.inode
  pub valid : IsFs s'

module _ (s : Fs) (w : IsFs s) (b : ℕ) (inside : b < (readsb s).size)
    (free : is_free s b ≡ true) where
  -- a free block is past the bitmap
  free_data : first_data s ≤ b
  free_data = elim (dec_lt b (first_data s)) [
    | yes h ↦ let clash : true ≡ false = sym free ∙ w.reserved b h in cc
    | no h ↦ omega arith
  ]

  grabbed-low : (j : ℕ) → j < 3 → (grabbed s b).blocks j ≡ s.blocks j
  grabbed-low j h =
      rw (==_ne b j (omega (arith, free_data)), ==_ne (bblock b (readsb s).ninodes) j (omega arith))

  grabbed-bit :
      (j : ℕ)
      → j < (readsb s).size
      → is_free (grabbed s b) j ≡ (if b == j then false else is_free s j)
  grabbed-bit j h =
      one_bit s (grabbed s b) b false set_bit bit_clear-set_bit w.bytes
        (grabbed-low 1 (omega arith)) j
        (rw (==_ne b (bblock j (readsb s).ninodes) (omega (arith, free_data, bblock-bound s j h))))

  grabbed-IsFs : IsFs (grabbed s b)
  grabbed-IsFs = record {
    bytes =
        update-bytes _ b (λ _. 0)
          (update-bytes s.blocks (bblock b (readsb s).ninodes) _ w.bytes
            (set_bit-IsBytes _ (b % bpb) (w.bytes (bblock b (readsb s).ninodes))))
          (λ i. omega arith);
    reserved = λ j h.
        let h' : j < first_data s =
          subst (λ m. j < word m 0 / bpb + word m 8 / ipb + 4) (grabbed-low 1 (omega arith)) h in
        grabbed-bit j (omega (arith, free_data))
        ∙ rw (==_ne b j (omega (arith, free_data))) (w.reserved j h');
  }

  grabbed-Takes : Takes s b (grabbed s b)
  grabbed-Takes = record {
    inside = inside;
    was_free = free;
    data_block = free_data;
    marked = grabbed-bit;
    zeroed = rw (==_refl b);
    others = λ j away h. rw (
      ==_ne b j (λ q. away (sym q)),
      ==_ne (bblock b (readsb s).ninodes) j (omega (arith, bblock-bound s b inside)),
    );
    before_bitmap = grabbed-low;
    inodes = refl;
    valid = grabbed-IsFs;
  }

-- In a state whose superblock, inodes and bitmap are marked in use, `balloc` takes the lowest free
-- block: the block is zeroed and marked, no other bit of the bitmap changes, and no other block past
-- it. It panics exactly when no block is free.
pub balloc_lem :
    (s : Fs)
    → IsFs s
    → ((b : ℕ) × (s' : Fs) × (balloc s ≡ ok (b, s'))
        × Takes s b s'
        × ((j : ℕ) → j < b → is_free s j ≡ false))
      ⊎ ((balloc s ≡ panic) × ((j : ℕ) → j < (readsb s).size → is_free s j ≡ false))
balloc_lem s w = cases (balloc s) refl (balloc-Allocates s)
  where
    cases :
        (out : Outcome (ℕ × Fs))
        → balloc s ≡ out
        → Allocates s out
        → ((b : ℕ) × (s' : Fs) × (balloc s ≡ ok (b, s'))
            × Takes s b s'
            × ((j : ℕ) → j < b → is_free s j ≡ false))
          ⊎ ((balloc s ≡ panic) × ((j : ℕ) → j < (readsb s).size → is_free s j ≡ false))
    cases out e (full all) = inr (e, all)
    cases out e (first {b} inside free earlier) =
        inl (b, grabbed s b, e, grabbed-Takes s w b inside free, earlier)

-- `bfree` panics exactly on a block that is free already. Otherwise, of a data block, it clears the bit
-- of the block and no other bit, and changes no block past the bitmap.
bfree_lem :
    (s : Fs) (b : ℕ)
    → IsFs s
    → first_data s ≤ b
    → b < (readsb s).size
    → (is_free s b ≡ true → bfree s b ≡ panic)
      × (is_free s b ≡ false
          → (s' : Fs) × (bfree s b ≡ ok s')
            × IsFs s'
            × (s'.inode ≡ s.inode)
            × ((j : ℕ)
                → j < (readsb s).size
                → is_free s' j ≡ (if b == j then true else is_free s j))
            × ((j : ℕ) → first_data s ≤ j → s'.blocks j ≡ s.blocks j)
            × ((j : ℕ) → j < 3 → s'.blocks j ≡ s.blocks j))
unfolding bfree
bfree_lem s b w data_block inside = (
  λ free. rw free,
  λ used.
      let sector = bblock b (readsb s).ninodes in
      let s' : Fs = log_block s sector (clear_bit (s.blocks sector) (b % bpb)) in
      let low : (j : ℕ) → j < 3 → s'.blocks j ≡ s.blocks j =
        λ j h. rw (==_ne (bblock b (readsb s).ninodes) j (omega arith)) in
      let bits : (j : ℕ)
          → j < (readsb s).size
          → is_free s' j ≡ (if b == j then true else is_free s j) =
        λ j h.
          one_bit s s' b true clear_bit bit_clear-clear_bit w.bytes (low 1 (omega arith)) j refl in
      (
        s',
        rw used,
        record {
          bytes =
              update-bytes s.blocks sector _ w.bytes
                (clear_bit-IsBytes _ (b % bpb) (w.bytes sector));
          reserved = λ j h.
              let h' : j < first_data s =
                subst (λ m. j < word m 0 / bpb + word m 8 / ipb + 4) (low 1 (omega arith)) h in
              bits j (omega arith) ∙ rw (==_ne b j (omega arith)) (w.reserved j h');
        },
        refl,
        bits,
        λ j h. rw (==_ne (bblock b (readsb s).ninodes) j (omega (arith, bblock-bound s b inside))),
        low,
      ),
)
