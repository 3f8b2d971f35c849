-- ===== src/Fs/Entry.antt =====
-- A new block in the table of a file.
use os_ass.Base.{
  word, store, word_bytes, ap, false, inl, inr, ℕ, refl, arith, ◌≡◌, ◌≢◌, ◌<◌, if◌then◌else◌, ◌*◌,
  ◌+◌, ◌∙◌, ◌==◌, Bool-cases, ==_refl, ltb, ==_ne, ltb→lt, sym, ◌-◌,
}
use os_ass.Fs.{Block, Fs, log_block}
use os_ass.Fs.Bits.{IsBytes}
use os_ass.Fs.Alloc.{Takes}
use os_ass.Fs.Files.{ndirect, nindirect, maxfile}
use os_ass.Fs.Words.{word-store, store-IsBytes, word_bytes-small, word-bound}
use os_ass.Fs.Blocks.{
  mapped, IsFile, write-IsFs, write-IsData, taken-IsData, take-mapped, take-IsFile,
}
use os_ass.Fs.Mapping.{Maps, assign-IsFile, unused, unused_table, same_blocks}

same_index : (i j : ℕ) → ltb j ndirect ≡ false → (i == j - ndirect) ≡ (i + ndirect == j)
same_index i j h = ground arith

not_direct : (i : ℕ) → ltb (i + ndirect) ndirect ≡ false
not_direct i = ground arith

back : (i : ℕ) → i + ndirect - ndirect ≡ i
back i = omega arith

pub indirect_at :
    (blocks : ℕ → Block) (addrs : ℕ → ℕ) (i : ℕ)
    → addrs ndirect ≢ 0
    → mapped blocks addrs (i + ndirect) ≡ word (blocks (addrs ndirect)) (4 * i)
indirect_at blocks addrs i there = rw (not_direct i, ==_ne (addrs ndirect) 0 there, back i)

-- the block `b`, put into the table at `i`
module _ (s : Fs) (addrs : ℕ → ℕ) (f : IsFile s addrs) (there : addrs ndirect ≢ 0) (b : ℕ) (s' : Fs)
    (t : Takes s b s') (i : ℕ) (small : i < nindirect) where
  abbrev pub entered : Fs
  entered = log_block s' (addrs ndirect) (store (s'.blocks (addrs ndirect)) (4 * i) (word_bytes b))

  f' : IsFile s' addrs
  f' = take-IsFile t f

  b_small : b < 0x100000000
  b_small = omega (arith, t.inside, word-bound (s.blocks 1) 0 (f.valid.bytes 1))

  new_bytes : IsBytes (store (s'.blocks (addrs ndirect)) (4 * i) (word_bytes b))
  new_bytes =
      store-IsBytes _ (4 * i) (word_bytes b) (f'.valid.bytes (addrs ndirect)) (word_bytes-small b)

  entered_now :
      (j : ℕ)
      → j < maxfile
      → mapped entered.blocks addrs j ≡ (if i + ndirect == j then b else mapped s'.blocks addrs j)
  entered_now j h = elim (Bool-cases (ltb j ndirect)) [
    | inl low ↦ rw (low, ==_ne (i + ndirect) j (omega (arith, ltb→lt j ndirect low)))
    | inr high ↦
        rw (high, ==_ne (addrs ndirect) 0 there, ==_refl (addrs ndirect))
          (word-store (s'.blocks (addrs ndirect)) i (j - ndirect) b b_small
            ∙ ap (λ t. if t then b else word (s'.blocks (addrs ndirect)) (4 * (j - ndirect)))
                (same_index i j high))
  ]

  pub entry-Maps :
      word (s.blocks (addrs ndirect)) (4 * i) ≡ 0 → Maps s addrs (i + ndirect) b entered addrs
  entry-Maps none_there =
      let low = (f'.table there).low in
      record {
        file =
            assign-IsFile s' entered addrs addrs (i + ndirect) b f'
              (write-IsFs s' f'.valid (addrs ndirect) _ low new_bytes (f'.table there).inside)
              (λ a d. write-IsData s' f'.valid (addrs ndirect) _ low new_bytes d) (taken-IsData t)
              (unused s addrs f b s' t) (unused_table s addrs f b s' t) entered_now refl;
        here = entered_now (i + ndirect) (omega arith) ∙ rw (==_refl (i + ndirect));
        given = λ z. absurd (omega (arith, t.data_block));
        kept = λ j h away. entered_now j h ∙ rw (==_ne (i + ndirect) j away) (take-mapped t f j);
        old = λ n. absurd (n (indirect_at s.blocks addrs i there ∙ none_there));
        fresh = λ _. rw (==_ne (addrs ndirect) b (unused_table s addrs f b s' t)) t.zeroed;
        same = λ j h n.
            rw (==_ne (addrs ndirect) (mapped s.blocks addrs j) (λ e. f.table_apart j h n (sym e)))
              (same_blocks s addrs f b s' t j h n);
        low = λ j h. rw (==_ne (addrs ndirect) j (omega arith)) (t.before_bitmap j h);
      }
