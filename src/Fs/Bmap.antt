-- ===== src/Fs/Bmap.antt =====
-- `bmap`: every branch of it.
use os_ass.Base.{
  word, ℕ_discrete, ap, true, false, ok, panic, inl, inr, ℕ, refl, arith, ◌≡◌, Outcome, ◌≢◌, ◌<◌,
  ◌*◌, ◌+◌, ◌∙◌, Bool-cases, ==_refl, ltb, ==_ne, ltb→lt, sym, update, ◌-◌, lt→ltb, fun_ext, subst,
  ◌>>=◌, ◌≤◌,
}
use os_ass.Fs.{Block, Inode, Fs, readsb, set_inode, balloc}
use os_ass.Fs.Bitmap.{is_free}
use os_ass.Fs.Alloc.{Takes, balloc_lem}
use os_ass.Fs.Files.{ndirect, nindirect, maxfile, set_addr, load_addr, load_entry, bmap}
use os_ass.Fs.Blocks.{mapped, IsFile, take-super, take-mapped}
use os_ass.Fs.Mapping.{
  Maps, old-Maps, same_blocks, direct-Maps, table-IsFile, table_now, set_inode-IsFile,
}
use os_ass.Fs.Entry.{entry-Maps, indirect_at}

-- at most one block is free
abbrev pub AlmostFull : Fs → Type 0
AlmostFull s =
    (i j : ℕ)
    → i < (readsb s).size
    → j < (readsb s).size
    → is_free s i ≡ true
    → is_free s j ≡ true
    → i ≡ j

-- What a call of `bmap` may do: give the block, or panic for want of blocks.
pub data Found (s : Fs) (ip bn : ℕ) : Outcome (ℕ × Fs) → Type 0 where
  full : AlmostFull s → Found s ip bn panic
  found :
      {addr : ℕ} {s2 : Fs} {addrs2 : ℕ → ℕ}
      → Maps s (s.inode ip).addrs bn addr s2 addrs2
      → s2.inode ≡ update s.inode ip (record (s.inode ip) { addrs = addrs2 })
      → Found s ip bn (ok (addr, s2))

none_free : (s : Fs) → ((j : ℕ) → j < (readsb s).size → is_free s j ≡ false) → AlmostFull s
none_free s all i j hi hj fi fj = let clash : true ≡ false = sym fi ∙ all i hi in cc

-- no block is left after one has been taken
one_free :
    {s s' : Fs} {b : ℕ}
    → Takes s b s'
    → ((j : ℕ) → j < (readsb s').size → is_free s' j ≡ false)
    → AlmostFull s
one_free {s} {s'} {b} t all i j hi hj fi fj = sym (only i hi fi) ∙ only j hj fj
  where
    only : (k : ℕ) → k < (readsb s).size → is_free s k ≡ true → b ≡ k
    only k h free = elim (ℕ_discrete b k) [
      | yes e ↦ e
      | no n ↦
          let gone : is_free s' k ≡ false =
            all k (subst (λ m. k < word m 0) (sym (take-super t)) h) in
          let still : is_free s' k ≡ true = t.marked k h ∙ rw (==_ne b k n) free in
          let clash : true ≡ false = sym still ∙ gone in cc
    ]

Maps-set_inode :
    {s s2 : Fs} {addrs addrs2 : ℕ → ℕ} {bn addr : ℕ} (ip : ℕ) (node : Inode)
    → Maps s addrs bn addr s2 addrs2
    → Maps s addrs bn addr (set_inode s2 ip node) addrs2
Maps-set_inode {s2} ip node m = record {
  file = set_inode-IsFile s2 ip node m.file;
  here = m.here;
  given = m.given;
  kept = m.kept;
  old = m.old;
  fresh = m.fresh;
  same = m.same;
  low = m.low;
}

direct_at :
    (blocks : ℕ → Block) (addrs : ℕ → ℕ) (bn : ℕ) → bn < ndirect → mapped blocks addrs bn ≡ addrs bn
direct_at blocks addrs bn small = rw (lt→ltb bn ndirect small)

module _ (s : Fs) (ip bn : ℕ) where
  pub load_addr-old : (s.inode ip).addrs bn ≢ 0 → load_addr s ip bn ≡ ok ((s.inode ip).addrs bn, s)
  unfolding load_addr
  load_addr-old n = rw (==_ne ((s.inode ip).addrs bn) 0 n)

  load_addr-new :
      {b : ℕ} {s' : Fs}
      → (s.inode ip).addrs bn ≡ 0
      → balloc s ≡ ok (b, s')
      → load_addr s ip bn ≡ ok (b, set_addr s' ip bn b)
  unfolding load_addr
  load_addr-new z e = rw (z, e)

  load_addr-full : (s.inode ip).addrs bn ≡ 0 → balloc s ≡ panic → load_addr s ip bn ≡ panic
  unfolding load_addr
  load_addr-full z e = rw (z, e)

  -- the inodes as they are, but for the addresses of one
  same_inode : s.inode ≡ update s.inode ip (record (s.inode ip) { addrs = (s.inode ip).addrs })
  same_inode =
      fun_ext λ j. elim (ℕ_discrete ip j) [ yes e ↦ rw (e, ==_refl j) | no n ↦ rw (==_ne ip j n) ]

  load_addr-direct : IsFile s (s.inode ip).addrs → bn < ndirect → Found s ip bn (load_addr s ip bn)
  load_addr-direct f small = elim (ℕ_discrete ((s.inode ip).addrs bn) 0) [
    | yes z ↦ elim (balloc_lem s f.valid) [
      | inr (e, all) ↦ subst (Found s ip bn) (sym (load_addr-full z e)) (full (none_free s all))
      | inl (b, s', e, t, _) ↦ subst (Found s ip bn) (sym (load_addr-new z e)) (
          found (Maps-set_inode ip _ (direct-Maps s (s.inode ip).addrs f b s' t bn small z))
            (ap (λ f. update f ip (record (f ip) { addrs = update (f ip).addrs bn b })) t.inodes))
    ]
    | no n ↦ subst (Found s ip bn) (sym (load_addr-old n)) (
        found
          (subst (λ a. Maps s (s.inode ip).addrs bn a s (s.inode ip).addrs)
            (direct_at s.blocks (s.inode ip).addrs bn small)
            (old-Maps s (s.inode ip).addrs bn f
              (λ z. n (sym (direct_at s.blocks (s.inode ip).addrs bn small) ∙ z))))
          same_inode)
  ]

-- What `load_entry` may do, for a file that has its table.
data Entry (s : Fs) (addrs : ℕ → ℕ) (i : ℕ) : Outcome (ℕ × Fs) → Type 0 where
  none_left : ((j : ℕ) → j < (readsb s).size → is_free s j ≡ false) → Entry s addrs i panic
  got :
      {addr : ℕ} {s2 : Fs}
      → Maps s addrs (i + ndirect) addr s2 addrs
      → s2.inode ≡ s.inode
      → Entry s addrs i (ok (addr, s2))

load_entry-Entry :
    (s : Fs) (addrs : ℕ → ℕ) (i : ℕ)
    → IsFile s addrs
    → addrs ndirect ≢ 0
    → i < nindirect
    → Entry s addrs i (load_entry s (addrs ndirect) i)
unfolding load_entry
load_entry-Entry s addrs i f there small =
    elim (ℕ_discrete (word (s.blocks (addrs ndirect)) (4 * i)) 0) [
      | yes z ↦ rw (z) (elim (balloc_lem s f.valid) [
        | inr (e, all) ↦ rw (e) (none_left all)
        | inl (b, s', e, t, _) ↦ rw (e) (got (entry-Maps s addrs f there b s' t i small z) t.inodes)
      ])
      | no n ↦ rw (==_ne _ 0 n) (
          got
            (subst (λ a. Maps s addrs (i + ndirect) a s addrs) (indirect_at s.blocks addrs i there)
              (old-Maps s addrs (i + ndirect) f
                (λ z. n (sym (indirect_at s.blocks addrs i there) ∙ z))))
            refl)
    ]

-- a file whose table was made first
module _ (s : Fs) (addrs : ℕ → ℕ) (f : IsFile s addrs) (b : ℕ) (s' : Fs) (t : Takes s b s')
    (z : addrs ndirect ≡ 0) where
  same_map : (j : ℕ) → mapped s'.blocks (update addrs ndirect b) j ≡ mapped s.blocks addrs j
  same_map j = table_now s addrs f b s' t z j ∙ take-mapped t f j

  after_table :
      {bn addr : ℕ} {s2 : Fs} {addrs2 : ℕ → ℕ}
      → Maps s' (update addrs ndirect b) bn addr s2 addrs2
      → Maps s addrs bn addr s2 addrs2
  after_table {bn} {addr} {s2} m = record {
    file = m.file;
    here = m.here;
    given = m.given;
    kept = λ j h away. m.kept j h away ∙ same_map j;
    old = λ n. m.old (λ q. n (sym (same_map bn) ∙ q)) ∙ same_map bn;
    fresh = λ q. m.fresh (same_map bn ∙ q);
    same = λ j h n.
        subst (λ a. s2.blocks a ≡ s'.blocks a) (same_map j)
          (m.same j h (λ q. n (sym (same_map j) ∙ q)))
        ∙ same_blocks s addrs f b s' t j h n;
    low = λ j h. m.low j h ∙ t.before_bitmap j h;
  }

-- seen from a state with another inode cache
from_set_inode :
    {s : Fs} (ip : ℕ) (node : Inode) {addrs addrs2 : ℕ → ℕ} {bn addr : ℕ} {s2 : Fs}
    → Maps (set_inode s ip node) addrs bn addr s2 addrs2
    → Maps s addrs bn addr s2 addrs2
from_set_inode ip node m = record {
  file = m.file;
  here = m.here;
  given = m.given;
  kept = m.kept;
  old = m.old;
  fresh = m.fresh;
  same = m.same;
  low = m.low;
}

module _ (s : Fs) (ip i : ℕ) (f : IsFile s (s.inode ip).addrs) where
  Entry-Found :
      {out : Outcome (ℕ × Fs)} → Entry s (s.inode ip).addrs i out → Found s ip (i + ndirect) out
  Entry-Found (none_left all) = full (none_free s all)
  Entry-Found (got m e) = found m (e ∙ same_inode s ip (i + ndirect))

  table-Found :
      {out : Outcome (ℕ × Fs)} (b : ℕ) (s' : Fs)
      → Takes s b s'
      → (s.inode ip).addrs ndirect ≡ 0
      → Entry (set_addr s' ip ndirect b) (update (s.inode ip).addrs ndirect b) i out
      → Found s ip (i + ndirect) out
  table-Found b s' t z (none_left all) = full (one_free t all)
  table-Found b s' t z (got m e) =
      found (after_table s (s.inode ip).addrs f b s' t z (from_set_inode ip _ m)) (
        e
        ∙ ap (λ f. update f ip (record (f ip) { addrs = update (f ip).addrs ndirect b })) t.inodes)

-- the part of `bmap` past the direct blocks
bmap-table :
    (s : Fs) (ip i : ℕ)
    → IsFile s (s.inode ip).addrs
    → i < nindirect
    → Found s ip
        (i + ndirect)
        (load_addr s ip ndirect >>= λ indirect. load_entry indirect.1 indirect.0 i)
bmap-table s ip i f small = elim (ℕ_discrete ((s.inode ip).addrs ndirect) 0) [
  | yes z ↦ elim (balloc_lem s f.valid) [
    | inr (e, all) ↦ rw (load_addr-full s ip ndirect z e) (full (none_free s all))
    | inl (b, s', e, t, _) ↦ rw (load_addr-new s ip ndirect z e) (
        table-Found s ip i f b s' t z (
          load_entry-Entry (set_addr s' ip ndirect b) (update (s.inode ip).addrs ndirect b) i
            (set_inode-IsFile s' ip _ (table-IsFile s (s.inode ip).addrs f b s' t z))
            (λ q. absurd (omega (arith, t.data_block))) small))
  ]
  | no n ↦
      rw (load_addr-old s ip ndirect n)
        (Entry-Found s ip i f (load_entry-Entry s (s.inode ip).addrs i f n small))
]

-- `bmap` of a well-formed file, for an index that a file may have, gives the block that the file has
-- there, or a new and zeroed one that it keeps there; the file stays well-formed, and its other blocks
-- stay what they were. It panics only when at most one block is free. An index out of range panics.
pub bmap_lem :
    (s : Fs) (ip bn : ℕ)
    → IsFile s (s.inode ip).addrs
    → (bn < maxfile → Found s ip bn (bmap s ip bn)) × (maxfile ≤ bn → bmap s ip bn ≡ panic)
unfolding bmap
bmap_lem s ip bn f = (
  λ h. elim (Bool-cases (ltb bn ndirect)) [
    | inl small ↦ rw (small) (load_addr-direct s ip bn f (ltb→lt bn ndirect small))
    | inr big ↦
        let i = bn - ndirect in
        let at : bn - ndirect + ndirect ≡ bn = ground arith in
        rw (big, lt→ltb (bn - ndirect) nindirect (omega arith))
          (subst
            (λ k. Found s ip k (
              load_addr s ip ndirect >>= λ indirect.
              load_entry indirect.1 indirect.0 (bn - ndirect)))
            at (bmap-table s ip (bn - ndirect) f (omega arith)))
  ],
  λ h. ground arith,
)
