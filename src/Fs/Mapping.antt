-- ===== src/Fs/Mapping.antt =====
-- `bmap`: finding the block of a file with an index, allocated if there was none.
use os_ass.Base.{
  ℕ_discrete, inl, inr, ℕ, refl, arith, ◌≡◌, ◌<◌, ◌≢◌, if◌then◌else◌, ◌==◌, subst, ◌∙◌, ==_refl,
  ==_ne, sym, update, lt→ltb, Bool-cases, ltb, ltb→lt,
}
use os_ass.Fs.{Block, Inode, Fs, set_inode}
use os_ass.Fs.Bitmap.{IsFs}
use os_ass.Fs.Alloc.{Takes}
use os_ass.Fs.Files.{ndirect, maxfile}
use os_ass.Fs.Blocks.{
  mapped, IsData, IsFile, taken-IsData, taken_ne, take-block, take-mapped, take-IsFile,
}

-- the same blocks with another inode cache
module _ (s : Fs) (ip : ℕ) (node : Inode) where
  pub set_inode-IsFs : IsFs s → IsFs (set_inode s ip node)
  set_inode-IsFs w = record { bytes = w.bytes; reserved = w.reserved }

  pub set_inode-IsData : {a : ℕ} → IsData s a → IsData (set_inode s ip node) a
  set_inode-IsData d = record { low = d.low; inside = d.inside; used = d.used }

  pub set_inode-IsFile : {addrs : ℕ → ℕ} → IsFile s addrs → IsFile (set_inode s ip node) addrs
  set_inode-IsFile f = record {
    valid = set_inode-IsFs f.valid;
    data_block = λ i h n. set_inode-IsData (f.data_block i h n);
    apart = f.apart;
    table = λ n. set_inode-IsData (f.table n);
    table_apart = f.table_apart;
  }

-- A file that gets the block `b` at the index `bn`, and keeps its table.
module _ (s s2 : Fs) (addrs addrs2 : ℕ → ℕ) (bn b : ℕ) (f : IsFile s addrs) (valid : IsFs s2)
    (stays : (a : ℕ) → IsData s a → IsData s2 a) (new : IsData s b)
    (fresh : (i : ℕ) → i < maxfile → mapped s.blocks addrs i ≢ b) (fresh_table : addrs ndirect ≢ b)
    (now : (j : ℕ)
      → j < maxfile
      → mapped s2.blocks addrs2 j ≡ (if bn == j then b else mapped s.blocks addrs j))
    (table : addrs2 ndirect ≡ addrs ndirect) where
  at_bn : (j : ℕ) → j < maxfile → bn ≡ j → mapped s2.blocks addrs2 j ≡ b
  at_bn j h e = now j h ∙ rw (e, ==_refl j)

  elsewhere : (j : ℕ) → j < maxfile → bn ≢ j → mapped s2.blocks addrs2 j ≡ mapped s.blocks addrs j
  elsewhere j h n = now j h ∙ rw (==_ne bn j n)

  pub assign-IsFile : IsFile s2 addrs2
  assign-IsFile = record {
    valid = valid;
    data_block = λ j h n. elim (ℕ_discrete bn j) [
      | yes e ↦ subst (λ a. IsData s2 a) (sym (at_bn j h e)) (stays b new)
      | no o ↦
          subst (λ a. IsData s2 a) (sym (elsewhere j h o))
            (stays (mapped s.blocks addrs j) (f.data_block j h (λ z. n (elsewhere j h o ∙ z))))
    ];
    apart = λ i j hi hj n e. elim (ℕ_discrete bn i) [
      | yes p ↦ elim (ℕ_discrete bn j) [
        | yes q ↦ sym p ∙ q
        | no q ↦ absurd (fresh j hj (sym (elsewhere j hj q) ∙ sym e ∙ at_bn i hi p))
      ]
      | no p ↦ elim (ℕ_discrete bn j) [
        | yes q ↦ absurd (fresh i hi (sym (elsewhere i hi p) ∙ e ∙ at_bn j hj q))
        | no q ↦
            f.apart i j hi hj (λ z. n (elsewhere i hi p ∙ z))
              (sym (elsewhere i hi p) ∙ e ∙ elsewhere j hj q)
      ]
    ];
    table = λ n.
        subst (λ a. IsData s2 a) (sym table) (stays (addrs ndirect) (f.table (λ z. n (table ∙ z))));
    table_apart = λ i h n e. elim (ℕ_discrete bn i) [
      | yes p ↦ fresh_table (sym table ∙ sym e ∙ at_bn i h p)
      | no p ↦ f.table_apart i h (λ z. n (elsewhere i h p ∙ z)) (sym (elsewhere i h p) ∙ e ∙ table)
    ];
  }

-- What `bmap` of the index `bn` does to a file: `addr` is its block there, new and zeroed if there
-- was none; nothing else of the file changes.
pub record Maps (s : Fs) (addrs : ℕ → ℕ) (bn addr : ℕ) (s2 : Fs) (addrs2 : ℕ → ℕ) : Type 0 where
  pub file : IsFile s2 addrs2
  pub here : mapped s2.blocks addrs2 bn ≡ addr
  pub given : addr ≢ 0
  pub kept : (i : ℕ) → i < maxfile → bn ≢ i → mapped s2.blocks addrs2 i ≡ mapped s.blocks addrs i
  pub old : mapped s.blocks addrs bn ≢ 0 → addr ≡ mapped s.blocks addrs bn
  pub fresh : mapped s.blocks addrs bn ≡ 0 → s2.blocks addr ≡ (λ _. 0)
  pub same :
      (i : ℕ)
      → i < maxfile
      → mapped s.blocks addrs i ≢ 0
      → s2.blocks (mapped s.blocks addrs i) ≡ s.blocks (mapped s.blocks addrs i)
  pub low : (j : ℕ) → j < 3 → s2.blocks j ≡ s.blocks j

-- the blocks of a file after a write of `addrs[bn]`
direct_now :
    (blocks : ℕ → Block) (addrs : ℕ → ℕ) (bn b : ℕ)
    → bn < ndirect
    → (j : ℕ) → mapped blocks (update addrs bn b) j ≡ (if bn == j then b else mapped blocks addrs j)
direct_now blocks addrs bn b small j = elim (ℕ_discrete bn j) [
  | yes e ↦ rw (e, ==_refl j, lt→ltb j ndirect (omega arith))
  | no n ↦ rw (==_ne bn j n, ==_ne bn ndirect (omega arith))
]

-- a file whose block is there already
pub old-Maps :
    (s : Fs) (addrs : ℕ → ℕ) (bn : ℕ)
    → IsFile s addrs
    → mapped s.blocks addrs bn ≢ 0
    → Maps s addrs bn (mapped s.blocks addrs bn) s addrs
old-Maps s addrs bn f n = record {
  file = f;
  here = refl;
  given = n;
  kept = λ i h away. refl;
  old = λ _. refl;
  fresh = λ z. absurd (n z);
  same = λ i h n. refl;
  low = λ j h. refl;
}

module _ (s : Fs) (addrs : ℕ → ℕ) (f : IsFile s addrs) (b : ℕ) (s' : Fs) (t : Takes s b s') where
  pub unused : (i : ℕ) → i < maxfile → mapped s'.blocks addrs i ≢ b
  unused i h e = elim (ℕ_discrete (mapped s.blocks addrs i) 0) [
    | yes z ↦ absurd (omega (arith, t.data_block, take-mapped t f i))
    | no n ↦ taken_ne t (f.data_block i h n) (sym (take-mapped t f i) ∙ e)
  ]

  pub unused_table : addrs ndirect ≢ b
  unused_table e = elim (ℕ_discrete (addrs ndirect) 0) [
    | yes z ↦ absurd (omega (arith, t.data_block))
    | no n ↦ taken_ne t (f.table n) e
  ]

  pub same_blocks :
      (i : ℕ)
      → i < maxfile
      → mapped s.blocks addrs i ≢ 0
      → s'.blocks (mapped s.blocks addrs i) ≡ s.blocks (mapped s.blocks addrs i)
  same_blocks i h n = take-block t (f.data_block i h n)

  -- the new block becomes `addrs[bn]`
  pub direct-Maps :
      (bn : ℕ) → bn < ndirect → addrs bn ≡ 0 → Maps s addrs bn b s' (update addrs bn b)
  direct-Maps bn small none_there =
      let now : (j : ℕ)
          → j < maxfile
          → mapped s'.blocks (update addrs bn b) j
            ≡ (if bn == j then b else mapped s'.blocks addrs j) =
        λ j h. direct_now s'.blocks addrs bn b small j in
      record {
        file =
            assign-IsFile s' s' addrs (update addrs bn b) bn b (take-IsFile t f) t.valid (λ a d. d)
              (taken-IsData t) unused unused_table now (rw (==_ne bn ndirect (omega arith)));
        here = rw (lt→ltb bn ndirect small, ==_refl bn);
        given = λ z. absurd (omega (arith, t.data_block));
        kept = λ i h away. now i h ∙ rw (==_ne bn i away) (take-mapped t f i);
        old = λ n. absurd (n (rw (lt→ltb bn ndirect small) none_there));
        fresh = λ _. t.zeroed;
        same = same_blocks;
        low = t.before_bitmap;
      }

  -- the new block, full of zeros, becomes the table
  pub table_now :
      addrs ndirect ≡ 0
      → (j : ℕ) → mapped s'.blocks (update addrs ndirect b) j ≡ mapped s'.blocks addrs j
  table_now none_there j = elim (Bool-cases (ltb j ndirect)) [
    | inl small ↦ rw (small, ==_ne ndirect j (omega (arith, ltb→lt j ndirect small)))
    | inr big ↦ rw (big, none_there, t.zeroed, ==_ne b 0 (omega (arith, t.data_block)))
  ]

  pub table-IsFile : addrs ndirect ≡ 0 → IsFile s' (update addrs ndirect b)
  table-IsFile none_there = record {
    valid = t.valid;
    data_block = λ i h n.
        subst (λ a. IsData s' a) (sym (table_now none_there i))
          ((take-IsFile t f).data_block i h (λ z. n (table_now none_there i ∙ z)));
    apart = λ i j hi hj n e.
        (take-IsFile t f).apart i j hi hj (λ z. n (table_now none_there i ∙ z))
          (sym (table_now none_there i) ∙ e ∙ table_now none_there j);
    table = λ n. taken-IsData t;
    table_apart = λ i h n e. unused i h (sym (table_now none_there i) ∙ e);
  }
