-- ===== src/Fs/Blocks.antt =====
-- The blocks of a file: no two of its blocks are one, and all are marked in use.
use os_ass.Base.{
  word, ℕ_discrete, ap, true, false, ℕ, refl, arith, ◌≡◌, Bool, ◌≤◌, ◌≢◌, ◌<◌, ◌∙◌, subst,
  if◌then◌else◌, ltb, sym, update, ◌/◌, ==_ne, ◌%◌, ◌+◌, ◌==◌, ◌*◌, ==_refl, ◌-◌,
}
use os_ass.Fs.{Block, Fs, readsb, log_block, bpb, ipb, bblock, bit_clear}
use os_ass.Fs.Bits.{IsBytes}
use os_ass.Fs.Bitmap.{is_free, first_data, IsFs}
use os_ass.Fs.Alloc.{Takes, update-bytes, bblock-bound}
use os_ass.Fs.Files.{ndirect, maxfile}

-- the block with index `bn` of the file with these `addrs`, or 0
abbrev pub mapped : (ℕ → Block) → (ℕ → ℕ) → ℕ → ℕ
mapped blocks addrs bn =
    if ltb bn ndirect
    then addrs bn
    else if addrs ndirect == 0
    then 0
    else word (blocks (addrs ndirect)) (4 * (bn - ndirect))

-- a block past the bitmap that is marked in use
pub record IsData (s : Fs) (b : ℕ) : Type 0 where
  pub low : first_data s ≤ b
  pub inside : b < (readsb s).size
  pub used : is_free s b ≡ false

pub record IsFile (s : Fs) (addrs : ℕ → ℕ) : Type 0 where
  pub valid : IsFs s
  pub data_block :
      (i : ℕ) → i < maxfile → mapped s.blocks addrs i ≢ 0 → IsData s (mapped s.blocks addrs i)
  pub apart :
      (i j : ℕ)
      → i < maxfile
      → j < maxfile
      → mapped s.blocks addrs i ≢ 0
      → mapped s.blocks addrs i ≡ mapped s.blocks addrs j
      → i ≡ j
  pub table : addrs ndirect ≢ 0 → IsData s (addrs ndirect)
  pub table_apart :
      (i : ℕ) → i < maxfile → mapped s.blocks addrs i ≢ 0 → mapped s.blocks addrs i ≢ addrs ndirect

-- A write of a data block leaves the superblock and the bitmap alone.
module _ (s : Fs) (w : IsFs s) (sector : ℕ) (bytes : Block) (low : first_data s ≤ sector)
    (new : IsBytes bytes) where
  pub write-superblock : update s.blocks sector bytes 1 ≡ s.blocks 1
  write-superblock = rw (==_ne sector 1 (omega arith))

  pub write-free :
      (j : ℕ) → j < (readsb s).size → is_free (log_block s sector bytes) j ≡ is_free s j
  write-free j h =
      ap (λ m. bit_clear (update s.blocks sector bytes (bblock j (word m 8))) (j % bpb))
        write-superblock
      ∙ rw (==_ne sector (bblock j (readsb s).ninodes) (omega (arith, bblock-bound s j h)))

  pub write-IsFs : sector < (readsb s).size → IsFs (log_block s sector bytes)
  write-IsFs inside = record {
    bytes = update-bytes s.blocks sector bytes w.bytes new;
    reserved = λ j h.
        let h' : j < first_data s =
          subst (λ m. j < word m 0 / bpb + word m 8 / ipb + 4) write-superblock h in
        write-free j (omega arith) ∙ w.reserved j h';
  }

  pub write-IsData : {b : ℕ} → IsData s b → IsData (log_block s sector bytes) b
  write-IsData {b} d = record {
    low = subst (λ m. word m 0 / bpb + word m 8 / ipb + 4 ≤ b) (sym write-superblock) d.low;
    inside = subst (λ m. b < word m 0) (sym write-superblock) d.inside;
    used = write-free b d.inside ∙ d.used;
  }

else_false : (c x : Bool) → x ≡ false → (if c then false else x) ≡ false
else_false true x e = refl
else_false false x e = e

-- What taking a block leaves of a file.
module _ {s s' : Fs} {b : ℕ} (t : Takes s b s') where
  pub take-super : s'.blocks 1 ≡ s.blocks 1
  take-super = t.before_bitmap 1 (omega arith)

  pub take-IsData : {a : ℕ} → IsData s a → IsData s' a
  take-IsData {a} d = record {
    low = subst (λ m. word m 0 / bpb + word m 8 / ipb + 4 ≤ a) (sym take-super) d.low;
    inside = subst (λ m. a < word m 0) (sym take-super) d.inside;
    used = t.marked a d.inside ∙ else_false (b == a) (is_free s a) d.used;
  }

  pub taken-IsData : IsData s' b
  taken-IsData = record {
    low = subst (λ m. word m 0 / bpb + word m 8 / ipb + 4 ≤ b) (sym take-super) t.data_block;
    inside = subst (λ m. b < word m 0) (sym take-super) t.inside;
    used = t.marked b t.inside ∙ rw (==_refl b);
  }

  pub taken_ne : {a : ℕ} → IsData s a → a ≢ b
  taken_ne {a} d e =
      let clash : true ≡ false = sym t.was_free ∙ subst (λ k. is_free s k ≡ false) e d.used in cc

  pub take-block : {a : ℕ} → IsData s a → s'.blocks a ≡ s.blocks a
  take-block {a} d = t.others a (taken_ne d) d.low

  pub take-mapped :
      {addrs : ℕ → ℕ}
      → IsFile s addrs
      → (i : ℕ) → mapped s'.blocks addrs i ≡ mapped s.blocks addrs i
  take-mapped {addrs} f i = elim (ℕ_discrete (addrs ndirect) 0) [
    | yes e ↦ rw e
    | no n ↦
        ap
          (λ m.
            if ltb i ndirect
            then addrs i
            else if addrs ndirect == 0
            then 0
            else word m (4 * (i - ndirect)))
          (take-block (f.table n))
  ]

  pub take-IsFile : {addrs : ℕ → ℕ} → IsFile s addrs → IsFile s' addrs
  take-IsFile {addrs} f = record {
    valid = t.valid;
    data_block = λ i h n.
        subst (λ a. IsData s' a) (sym (take-mapped f i))
          (take-IsData (f.data_block i h (λ z. n (take-mapped f i ∙ z))));
    apart = λ i j hi hj n e.
        f.apart i j hi hj (λ z. n (take-mapped f i ∙ z))
          (sym (take-mapped f i) ∙ e ∙ take-mapped f j);
    table = λ n. take-IsData (f.table n);
    table_apart =
        λ i h n e. f.table_apart i h (λ z. n (take-mapped f i ∙ z)) (sym (take-mapped f i) ∙ e);
  }
