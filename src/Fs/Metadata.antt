-- ===== src/Fs/Metadata.antt =====
-- A write of an inode block: `iupdate` leaves the files as they are.
use os_ass.Base.{
  word, store, ℕ_discrete, ap, zero, suc, ℕ, refl, arith, ◌≡◌, ◌<◌, All, ◌%◌, ◌/◌, half_bytes,
  update, ◌≢◌, subst, All-append, if◌then◌else◌, ◌+◌, ltb, ==_ne, ◌∙◌, ◌*◌, word_bytes, sym, ◌==◌,
  ==_refl, ◌≤◌, ◌-◌, ◌++◌,
}
use os_ass.Fs.{Inode, Fs, bsize, set_inode, readsb, bblock, iblock, ipb, bpb, bit_clear}
use os_ass.Fs.Bits.{IsBytes}
use os_ass.Fs.Bitmap.{is_free, first_data, IsFs}
use os_ass.Fs.Alloc.{update-bytes}
use os_ass.Fs.Files.{maxfile, ndirect, iupdate, dinode_bytes, addr_bytes}
use os_ass.Fs.Words.{store-IsBytes, word_bytes-small}
use os_ass.Fs.Blocks.{mapped, IsData, IsFile}
use os_ass.Fs.Contents.{byte}

addr_bytes-small : (addrs : ℕ → ℕ) (i k : ℕ) → All (λ x. x < 256) (addr_bytes addrs i k)
addr_bytes-small addrs i zero = tt
addr_bytes-small addrs i (suc k) =
    All-append (λ x. x < 256) (word_bytes (addrs i)) (addr_bytes addrs (i + 1) k)
      (word_bytes-small (addrs i)) (addr_bytes-small addrs (i + 1) k)

half_bytes-small : (v : ℕ) → All (λ x. x < 256) (half_bytes v)
half_bytes-small v = omega arith

dinode_bytes-small : (node : Inode) → All (λ x. x < 256) (dinode_bytes node)
dinode_bytes-small node =
    let P = λ (x : ℕ). x < 256 in
    let l1 = addr_bytes node.addrs 0 (ndirect + 1) in
    let l2 = word_bytes node.size ++ l1 in
    let l3 = half_bytes node.nlink ++ l2 in
    let l4 = half_bytes node.minor ++ l3 in
    let l5 = half_bytes node.major ++ l4 in
    let h2 =
      All-append P (word_bytes node.size) l1 (word_bytes-small node.size)
        (addr_bytes-small node.addrs 0 (ndirect + 1)) in
    let h3 = All-append P (half_bytes node.nlink) l2 (half_bytes-small node.nlink) h2 in
    let h4 = All-append P (half_bytes node.minor) l3 (half_bytes-small node.minor) h3 in
    let h5 = All-append P (half_bytes node.major) l4 (half_bytes-small node.major) h4 in
    All-append P (half_bytes node.type) l5 (half_bytes-small node.type) h5

-- the state after `iupdate`, when the inode `ip` is `node`
module _ (s : Fs) (ip : ℕ) (node : Inode) (known : node.inum < (readsb s).ninodes) where
  abbrev pub updated : Fs
  updated = iupdate (set_inode s ip node) ip

  updated-blocks :
      (j : ℕ)
      → updated.blocks j
        ≡ update s.blocks
            (iblock node.inum)
            (store (s.blocks (iblock node.inum)) (node.inum % ipb * 64) (dinode_bytes node))
            j
  unfolding iupdate
  updated-blocks j = rw (==_refl ip)

  updated-other : (j : ℕ) → j ≢ iblock node.inum → updated.blocks j ≡ s.blocks j
  updated-other j n = updated-blocks j ∙ rw (==_ne (iblock node.inum) j (λ q. n (sym q)))

  pub updated-super : updated.blocks 1 ≡ s.blocks 1
  updated-super = updated-other 1 (omega arith)

  updated-free : (j : ℕ) → is_free updated j ≡ is_free s j
  updated-free j =
      ap (λ m. bit_clear (updated.blocks (bblock j (word m 8))) (j % bpb)) updated-super
      ∙ ap (λ m. bit_clear m (j % bpb)) (updated-other (bblock j (readsb s).ninodes) (omega arith))

  updated-IsFs : IsFs s → IsFs updated
  updated-IsFs w = record {
    bytes = λ j.
        subst (λ m. IsBytes m) (sym (updated-blocks j))
          (update-bytes s.blocks (iblock node.inum) _ w.bytes
            (store-IsBytes (s.blocks (iblock node.inum)) (node.inum % ipb * 64) (dinode_bytes node)
              (w.bytes (iblock node.inum)) (dinode_bytes-small node))
            j);
    reserved = λ j h.
        let h' : j < first_data s =
          subst (λ m. j < word m 0 / bpb + word m 8 / ipb + 4) updated-super h in
        updated-free j ∙ w.reserved j h';
  }

  updated-IsData : {a : ℕ} → IsData s a → IsData updated a
  updated-IsData {a} d = record {
    low = subst (λ m. word m 0 / bpb + word m 8 / ipb + 4 ≤ a) (sym updated-super) d.low;
    inside = subst (λ m. a < word m 0) (sym updated-super) d.inside;
    used = updated-free a ∙ d.used;
  }

  -- data blocks are past the inodes
  updated-data : {a : ℕ} → IsData s a → updated.blocks a ≡ s.blocks a
  updated-data {a} d = updated-other a (omega (arith, d.low))

  pub updated-inode : (j : ℕ) → updated.inode j ≡ update s.inode ip node j
  unfolding iupdate
  updated-inode j = refl

  module _ (addrs : ℕ → ℕ) (f : IsFile s addrs) where
    pub updated-mapped : (i : ℕ) → mapped updated.blocks addrs i ≡ mapped s.blocks addrs i
    updated-mapped i = elim (ℕ_discrete (addrs ndirect) 0) [
      | yes e ↦ rw e
      | no n ↦
          ap
            (λ m.
              if ltb i ndirect
              then addrs i
              else if addrs ndirect == 0
              then 0
              else word m (4 * (i - ndirect)))
            (updated-data (f.table n))
    ]

    pub updated-IsFile : IsFile updated addrs
    updated-IsFile = record {
      valid = updated-IsFs f.valid;
      data_block = λ i h n.
          subst (λ a. IsData updated a) (sym (updated-mapped i))
            (updated-IsData (f.data_block i h (λ z. n (updated-mapped i ∙ z))));
      apart = λ i j hi hj n e.
          f.apart i j hi hj (λ z. n (updated-mapped i ∙ z))
            (sym (updated-mapped i) ∙ e ∙ updated-mapped j);
      table = λ n. updated-IsData (f.table n);
      table_apart =
          λ i h n e. f.table_apart i h (λ z. n (updated-mapped i ∙ z)) (sym (updated-mapped i) ∙ e);
    }

    pub updated-byte :
        (off : ℕ) → off / bsize < maxfile → byte updated.blocks addrs off ≡ byte s.blocks addrs off
    updated-byte off h =
        rw (updated-mapped (off / bsize))
          (elim (ℕ_discrete (mapped s.blocks addrs (off / bsize)) 0) [
            | yes z ↦ rw z
            | no n ↦ rw (==_ne _ 0 n, updated-data (f.data_block (off / bsize) h n))
          ])
