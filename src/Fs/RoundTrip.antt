-- ===== src/Fs/RoundTrip.antt =====
-- What `writei` has stored, `readi` reads.
use os_ass.Base.{
  ap, ok, inl, inr, pos, ℕ, arith, ◌≡◌, List, ◌+◌, ◌≤◌, ◌<◌, length, ◌*◌, subst, sym, ◌∙◌, All,
  load-get_or, get_or, ◌-◌,
}
use os_ass.Fs.{Fs, bsize}
use os_ass.Fs.Files.{maxfile, writei, readi, Devices}
use os_ass.Fs.Contents.{byte}
use os_ass.Fs.Reading.{contents, clipped, readi_lem}
use os_ass.Fs.Chunk.{addrs_of, overlay}
use os_ass.Fs.Writei.{IsInode, IsWritten, grown, writei_lem}

overlay_inside :
    (old : ℕ → ℕ) (off : ℕ) (src : List ℕ) (i : ℕ)
    → i < length src
    → overlay old off src (off + i) ≡ get_or 0 src i
overlay_inside old off src i h =
    let at : off + i - off ≡ i = omega arith in ground (arith, ap (λ k. get_or 0 src k) at)

-- the end of what was written is in the file
reads_all : (size off n : ℕ) → clipped (grown size (off + n)) off n ≡ n
reads_all size off n = ground arith

end_in_file : (size off n : ℕ) → off ≤ size → off ≤ grown size (off + n)
end_in_file size off n h = ground arith

-- What `writei` has stored, `readi` reads: when a write of bytes to a well-formed file has returned
-- their number, a read of as many bytes at the same offset returns these bytes and changes nothing.
pub readi-writei :
    (devsw : Devices) (s : Fs) (ip : ℕ) (src : List ℕ) (off : ℕ) (s2 : Fs)
    → IsInode s ip
    → All (λ x. x < 256) src
    → off ≤ (s.inode ip).size
    → off + length src ≤ maxfile * bsize
    → writei devsw s ip src off ≡ ok (pos (length src), s2)
    → readi devsw s2 ip off (length src) ≡ ok (pos (length src), src, s2)
readi-writei devsw s ip src off s2 v small h fits e =
    elim ((writei_lem devsw s ip src off v small (omega arith)).0 h fits) [
      | inl (p, _) ↦ cc (sym p ∙ e)
      | inr (s3, e3, w3) ↦
          let same : s3 ≡ s2 = cc (sym e3 ∙ e) in
          let w : IsWritten s ip off src s2 = subst (λ x. IsWritten s ip off src x) same w3 in
          let n = length src in
          let k : clipped (s2.inode ip).size off n ≡ n =
            ap (λ z. clipped z off n) w.size ∙ reads_all (s.inode ip).size off n in
          let bytes : contents s2.blocks (addrs_of s2 ip) off n ≡ src =
            load-get_or (byte s2.blocks (addrs_of s2 ip)) off src (λ i lt.
              w.bytes (off + i) (omega arith)
              ∙ overlay_inside (byte s.blocks (addrs_of s ip)) off src i lt) in
          let read =
            (readi_lem devsw s2 ip off n w.valid.no_device w.valid.size
                (λ j lt. w.valid.backed j (omega arith) (omega arith)) (omega arith)).0
              (subst (λ z. off ≤ z) (sym w.size) (end_in_file (s.inode ip).size off n h))
              (omega arith) in
          read
          ∙ ap (λ z. ok (pos z, contents s2.blocks (addrs_of s2 ip) off z, s2)) k
          ∙ ap (λ b. ok (pos n, b, s2)) bytes
    ]
