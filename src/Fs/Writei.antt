-- ===== src/Fs/Writei.antt =====
-- `writei`, every branch of it, and what a later `readi` sees.
use os_ass.Base.{
  word, ap, u32, true, false, ok, panic, inl, inr, pos, negsuc, ℕ, refl, arith, ◌≡◌, Bool, List,
  ◌≢◌, ◌+◌, if◌then◌else◌, ◌≤◌, ◌<◌, length, ltb, ◌*◌, subst, sym, ◌/◌, ◌∙◌, dec_lt, All, ==_ne,
  ◌^◌, ==_refl, ◌⊎◌, ltb_ge, lt→ltb, ◌&&◌,
}
use os_ass.Fs.{Inode, Fs, bsize, readsb}
use os_ass.Fs.Files.{maxfile, writei, t_dev, Devices}
use os_ass.Fs.Blocks.{mapped, IsFile}
use os_ass.Fs.Contents.{byte}
use os_ass.Fs.Reading.{or_true}
use os_ass.Fs.Chunk.{addrs_of, overlay, Wrote}
use os_ass.Fs.Metadata.{
  updated, updated-mapped, updated-IsFile, updated-byte, updated-inode, updated-super,
}
use os_ass.Fs.Writing.{HasBlocks, writei_loop_lem}

-- A file that is no device, with an inode of the disk, and blocks for all its bytes.
pub record IsInode (s : Fs) (ip : ℕ) : Type 0 where
  pub file : IsFile s (addrs_of s ip)
  pub no_device : (s.inode ip).type ≢ t_dev
  pub known : (s.inode ip).inum < (readsb s).ninodes
  pub size : (s.inode ip).size ≤ maxfile * bsize
  pub backed : HasBlocks s ip 0 (s.inode ip).size

abbrev pub grown : ℕ → ℕ → ℕ
grown size end = if ltb size end then end else size

-- The state after `writei` of `src` at `off`.
pub record IsWritten (s : Fs) (ip off : ℕ) (src : List ℕ) (s2 : Fs) : Type 0 where
  pub valid : IsInode s2 ip
  pub size : (s2.inode ip).size ≡ grown (s.inode ip).size (off + length src)
  pub bytes :
      (j : ℕ)
      → j < maxfile * bsize
      → byte s2.blocks (addrs_of s2 ip) j ≡ overlay (byte s.blocks (addrs_of s ip)) off src j
  pub others : (j : ℕ) → j ≢ ip → s2.inode j ≡ s.inode j
  pub kept :
      (i : ℕ)
      → i < maxfile
      → mapped s.blocks (addrs_of s ip) i ≢ 0
      → mapped s2.blocks (addrs_of s2 ip) i ≢ 0

module _ (s : Fs) (ip off : ℕ) (src : List ℕ) (v : IsInode s ip) (in_file : off ≤ (s.inode ip).size)
    (fits : off + length src ≤ maxfile * bsize) (s1 : Fs) (w : Wrote s ip off src s1) where
  -- the inode of the file is as it was, but for its blocks
  size_same : (s1.inode ip).size ≡ (s.inode ip).size
  size_same = ap (λ (n : Inode). n.size) w.node

  type_same : (s1.inode ip).type ≡ (s.inode ip).type
  type_same = ap (λ (n : Inode). n.type) w.node

  known_still : (s1.inode ip).inum < (readsb s1).ninodes
  known_still =
      subst (λ m. (s1.inode ip).inum < word m 8) (sym w.superblock)
        (subst (λ k. k < (readsb s).ninodes) (sym (ap (λ (n : Inode). n.inum) w.node)) v.known)

  -- blocks for the old bytes and the new ones
  backed_still :
      (j : ℕ)
      → j < grown (s.inode ip).size (off + length src)
      → mapped s1.blocks (addrs_of s1 ip) (j / bsize) ≢ 0
  backed_still j h = elim (dec_lt j (s.inode ip).size) [
    | yes lt ↦ w.kept (j / bsize) (omega (arith, v.size)) (v.backed j (omega arith) (omega arith))
    | no ge ↦ w.there j (omega arith) (ground arith)
  ]

  kept-IsWritten : (off + length src ≤ (s.inode ip).size) → IsWritten s ip off src s1
  kept-IsWritten short =
      let same : grown (s.inode ip).size (off + length src) ≡ (s.inode ip).size = ground arith in
      record {
        valid = record {
          file = w.file;
          no_device = λ e. v.no_device (sym type_same ∙ e);
          known = known_still;
          size = omega (arith, v.size, size_same);
          backed = λ j lo hi. backed_still j (omega (arith, same, size_same));
        };
        size = size_same ∙ sym same;
        bytes = λ j h. w.bytes j (omega arith);
        others = w.others;
        kept = w.kept;
      }

  abbrev node : Inode
  node = record (s1.inode ip) { size = off + length src }

  abbrev s2 : Fs
  s2 = updated s1 ip node known_still

  inode_at : s2.inode ip ≡ node
  inode_at = updated-inode s1 ip node known_still ip ∙ rw (==_refl ip)

  addrs_at : addrs_of s2 ip ≡ addrs_of s1 ip
  addrs_at = ap (λ (n : Inode). n.addrs) inode_at

  size_at : (s2.inode ip).size ≡ off + length src
  size_at = ap (λ (n : Inode). n.size) inode_at

  grown-IsWritten : (s.inode ip).size < off + length src → IsWritten s ip off src s2
  grown-IsWritten long =
      let same : grown (s.inode ip).size (off + length src) ≡ off + length src = ground arith in
      record {
        valid = record {
          file =
              subst (λ a. IsFile s2 a) (sym addrs_at)
                (updated-IsFile s1 ip node known_still (addrs_of s1 ip) w.file);
          no_device =
              λ e. v.no_device (sym type_same ∙ sym (ap (λ (n : Inode). n.type) inode_at) ∙ e);
          known =
              subst (λ m. (s2.inode ip).inum < word m 8)
                (sym (updated-super s1 ip node known_still))
                (subst (λ k. k < (readsb s1).ninodes) (sym (ap (λ (n : Inode). n.inum) inode_at))
                  known_still);
          size = omega (arith, size_at);
          backed = λ j lo hi z. backed_still j (omega (arith, same, size_at)) (
              sym (updated-mapped s1 ip node known_still (addrs_of s1 ip) w.file (j / bsize))
              ∙ subst (λ a. mapped s2.blocks a (j / bsize) ≡ 0) addrs_at z);
        };
        size = size_at ∙ sym same;
        bytes = λ j h.
            ap (λ a. byte s2.blocks a j) addrs_at
            ∙ updated-byte s1 ip node known_still (addrs_of s1 ip) w.file j (omega arith)
            ∙ w.bytes j (omega arith);
        others = λ j n.
            updated-inode s1 ip node known_still j
            ∙ rw (==_ne ip j (λ q. n (sym q))) (w.others j n);
        kept = λ i h n z. w.kept i h n (
            sym (updated-mapped s1 ip node known_still (addrs_of s1 ip) w.file i)
            ∙ subst (λ a. mapped s2.blocks a i ≡ 0) addrs_at z);
      }

and_false : (a : Bool) → (a && false) ≡ false
and_false true = refl
and_false false = refl

-- `writei` to a file that is no device, from an offset in the file on, when the bytes end within the
-- largest file. It stores them over the bytes of the file from the offset on, returns their number, and
-- makes the file as long as that needs; no other byte of the file changes and the file stays
-- well-formed. It panics only if a block was missing for some byte. It returns -1 with nothing
-- changed when the offset is past the end of the file or the end is past the largest file.
pub writei_lem :
    (devsw : Devices) (s : Fs) (ip : ℕ) (src : List ℕ) (off : ℕ)
    → IsInode s ip
    → All (λ x. x < 256) src
    → length src < 2 ^ 32
    → (off ≤ (s.inode ip).size
        → off + length src ≤ maxfile * bsize
        → ((writei devsw s ip src off ≡ panic) × (HasBlocks s ip off (length src) → ⊥))
          ⊎ ((s2 : Fs) × (writei devsw s ip src off ≡ ok (pos (length src), s2))
              × IsWritten s ip off src s2))
      × ((s.inode ip).size < off → writei devsw s ip src off ≡ ok (negsuc 0, s))
      × (off ≤ (s.inode ip).size
          → maxfile * bsize < off + length src
          → writei devsw s ip src off ≡ ok (negsuc 0, s))
unfolding writei
writei_lem devsw s ip src off v small len = (
  λ h fits.
      let sum : u32 (off + length src) ≡ off + length src = omega (arith) in
      rw
        (
          ==_ne (s.inode ip).type t_dev v.no_device,
          sum,
          ltb_ge (s.inode ip).size off h,
          ltb_ge (off + length src) off (omega arith),
          ltb_ge (maxfile * bsize) (off + length src) fits,
        )
        (elim (writei_loop_lem (length src) s ip off src v.file (omega arith) fits small) [
          | inl (e, missing) ↦ rw e (inl (refl, missing))
          | inr (s1, e, w) ↦ rw e (elim (dec_lt (s.inode ip).size (off + length src)) [
            | yes long ↦
                let same = size_same s ip off src v h fits s1 w in
                rw
                  (
                    lt→ltb 0 (length src) (omega arith),
                    lt→ltb (s1.inode ip).size (off + length src) (omega arith),
                  )
                  (inr (
                    s2 s ip off src v h fits s1 w,
                    refl,
                    grown-IsWritten s ip off src v h fits s1 w long,
                  ))
            | no short ↦
                let same = size_same s ip off src v h fits s1 w in
                rw
                  (
                    ltb_ge (s1.inode ip).size (off + length src) (omega arith),
                    and_false (ltb 0 (length src)),
                  )
                  (inr (s1, refl, kept-IsWritten s ip off src v h fits s1 w (omega arith)))
          ])
        ]),
  λ past. rw (==_ne (s.inode ip).type t_dev v.no_device, lt→ltb (s.inode ip).size off past),
  λ h long. elim (dec_lt (off + length src) (2 ^ 32)) [
    | yes plain ↦
        let sum : u32 (off + length src) ≡ off + length src = omega arith in
        rw (
          ==_ne (s.inode ip).type t_dev v.no_device,
          sum,
          ltb_ge (s.inode ip).size off h,
          ltb_ge (off + length src) off (omega arith),
          lt→ltb (maxfile * bsize) (off + length src) long,
        )
    | no wraps ↦ rw (
      ==_ne (s.inode ip).type t_dev v.no_device,
      lt→ltb (u32 (off + length src)) off (omega (arith, v.size)),
      or_true,
    )
  ],
)
