-- ===== src/Fs/Chunk.antt =====
-- One round of `writei`: new bytes in one block of a file.
use os_ass.Base.{
  store, ℕ_discrete, ap, true, false, ok, panic, inl, inr, ℕ, refl, arith, ◌≡◌, Outcome, List, ◌≢◌,
  ◌/◌, ◌<◌, if◌then◌else◌, ◌∙◌, ◌⊎◌, ==_refl, ◌%◌, leb, ◌≤◌, ◌&&◌, subst, ◌+◌, ltb, length, sym,
  All, ==_ne, get_or, ◌-◌, Bool-cases, store-inside, store-outside, ◌==◌,
}
use os_ass.Fs.{Block, Fs, bsize, log_block}
use os_ass.Fs.Bits.{IsBytes}
use os_ass.Fs.Files.{maxfile, bmap}
use os_ass.Fs.Words.{store-IsBytes}
use os_ass.Fs.Blocks.{mapped, IsFile}
use os_ass.Fs.Mapping.{Maps}
use os_ass.Fs.Bmap.{Found, full, found, bmap_lem}
use os_ass.Fs.Contents.{byte, Maps-byte, written, written-mapped, written-IsFile, written-byte}

abbrev pub addrs_of : Fs → ℕ → (ℕ → ℕ)
addrs_of s ip = (s.inode ip).addrs

-- the bytes of a file with `src` written over them from `off` on
abbrev pub overlay : (ℕ → ℕ) → ℕ → List ℕ → ℕ → ℕ
overlay old off src j =
    if leb off j && ltb j (off + length src) then get_or 0 src (j - off) else old j

-- What writing `src` at `off` of the file `ip` has done to the state.
pub record Wrote (s : Fs) (ip off : ℕ) (src : List ℕ) (s2 : Fs) : Type 0 where
  pub file : IsFile s2 (addrs_of s2 ip)
  pub bytes :
      (j : ℕ)
      → j / bsize < maxfile
      → byte s2.blocks (addrs_of s2 ip) j ≡ overlay (byte s.blocks (addrs_of s ip)) off src j
  pub there :
      (j : ℕ) → off ≤ j → j < off + length src → mapped s2.blocks (addrs_of s2 ip) (j / bsize) ≢ 0
  pub kept :
      (i : ℕ)
      → i < maxfile
      → mapped s.blocks (addrs_of s ip) i ≢ 0
      → mapped s2.blocks (addrs_of s2 ip) i ≢ 0
  pub node : s2.inode ip ≡ record (s.inode ip) { addrs = addrs_of s2 ip }
  pub others : (j : ℕ) → j ≢ ip → s2.inode j ≡ s.inode j
  pub superblock : s2.blocks 1 ≡ s.blocks 1

-- `bmap` seen from the inode
pub record Step (s : Fs) (ip bn addr : ℕ) (s1 : Fs) : Type 0 where
  pub maps : Maps s (addrs_of s ip) bn addr s1 (addrs_of s1 ip)
  pub node : s1.inode ip ≡ record (s.inode ip) { addrs = addrs_of s1 ip }
  pub others : (j : ℕ) → j ≢ ip → s1.inode j ≡ s.inode j

abbrev Cases : Fs → ℕ → ℕ → Outcome (ℕ × Fs) → Type 0
Cases s ip bn out =
    (out ≡ panic) ⊎ ((addr : ℕ) × (s1 : Fs) × (out ≡ ok (addr, s1)) × Step s ip bn addr s1)

Found-Cases : {s : Fs} {ip bn : ℕ} {out : Outcome (ℕ × Fs)} → Found s ip bn out → Cases s ip bn out
Found-Cases (full _) = inl refl
Found-Cases {s} {ip} {bn} (found {addr} {s2} {addrs2} m e) =
    let node : s2.inode ip ≡ record (s.inode ip) { addrs = addrs2 } =
      ap (λ f. f ip) e ∙ rw (==_refl ip) in
    let same : addrs_of s2 ip ≡ addrs2 = ap (λ n. n.addrs) node in
    inr (
      addr,
      s2,
      refl,
      record {
        maps = subst (λ a. Maps s (addrs_of s ip) bn addr s2 a) (sym same) m;
        node = node ∙ ap (λ a. record (s.inode ip) { addrs = a }) (sym same);
        others = λ j n. ap (λ f. f j) e ∙ rw (==_ne ip j (λ q. n (sym q)));
      },
    )

pub bmap-Cases :
    (s : Fs) (ip bn : ℕ) → IsFile s (addrs_of s ip) → bn < maxfile → Cases s ip bn (bmap s ip bn)
bmap-Cases s ip bn f h = Found-Cases ((bmap_lem s ip bn f).0 h)

module _ (s : Fs) (ip off : ℕ) (xs : List ℕ) (h : off / bsize < maxfile)
    (room : off % bsize + length xs ≤ bsize) (small : All (λ x. x < 256) xs) (addr : ℕ) (s1 : Fs)
    (step : Step s ip (off / bsize) addr s1) where
  abbrev bn : ℕ
  bn = off / bsize

  abbrev a1 : ℕ → ℕ
  a1 = addrs_of s1 ip

  abbrev at : ℕ
  at = mapped s1.blocks a1 bn

  abbrev new : Block
  new = store (s1.blocks at) (off % bsize) xs

  at_ne : at ≢ 0
  at_ne z = step.maps.given (sym step.maps.here ∙ z)

  new-bytes :
      (j : ℕ)
      → j / bsize ≡ bn
      → new (j % bsize) ≡ (
          if leb off j && ltb j (off + length xs)
          then get_or 0 xs (j - off)
          else s1.blocks at (j % bsize))
  new-bytes j e = elim (Bool-cases (leb off j && ltb j (off + length xs))) [
    | inl inside ↦
        let i = j - off in
        let lt : i < length xs = ground arith in
        let place : off % bsize + i ≡ j % bsize = ground arith in
        rw inside (
          subst (λ k. new k ≡ get_or 0 xs (j - off)) place
            (store-inside (s1.blocks at) (off % bsize) xs i lt))
    | inr outside ↦
        rw outside (store-outside (s1.blocks at) (off % bsize) xs (j % bsize) (ground arith))
  ]

  chunk-bytes : IsBytes new
  chunk-bytes = store-IsBytes (s1.blocks at) (off % bsize) xs (step.maps.file.valid.bytes at) small

  chunk-at :
      (j : ℕ)
      → j / bsize < maxfile
      → byte (written s1 a1 step.maps.file bn h at_ne new chunk-bytes).blocks a1 j
        ≡ overlay (byte s.blocks (addrs_of s ip)) off xs j
  chunk-at j hj =
      written-byte s1 a1 step.maps.file bn h at_ne new chunk-bytes j hj
      ∙ elim (ℕ_discrete (j / bsize) bn) [
        | yes e ↦
            let test : (j / bsize == bn) ≡ true = rw e (==_refl bn) in
            let old : byte s1.blocks a1 j ≡ s1.blocks at (j % bsize) = rw (e, ==_ne at 0 at_ne) in
            rw test (
              new-bytes j e
              ∙ ap (λ v. if leb off j && ltb j (off + length xs) then get_or 0 xs (j - off) else v)
                  (sym old ∙ Maps-byte step.maps j hj))
        | no n ↦
            let outside : (leb off j && ltb j (off + length xs)) ≡ false = ground arith in
            rw (==_ne (j / bsize) bn n, outside) (Maps-byte step.maps j hj)
      ]

  abbrev after : Fs
  after = written s1 a1 step.maps.file bn h at_ne new chunk-bytes

  after-mapped : (i : ℕ) → mapped after.blocks a1 i ≡ mapped s1.blocks a1 i
  after-mapped = written-mapped s1 a1 step.maps.file bn h at_ne new chunk-bytes

  still_mapped :
      (i : ℕ) → i < maxfile → mapped s.blocks (addrs_of s ip) i ≢ 0 → mapped after.blocks a1 i ≢ 0
  still_mapped i hi n z = elim (ℕ_discrete bn i) [
    | yes e ↦ at_ne (subst (λ k. mapped s1.blocks a1 k ≡ 0) (sym e) (sym (after-mapped i) ∙ z))
    | no away ↦ n (sym (step.maps.kept i hi away) ∙ sym (after-mapped i) ∙ z)
  ]

  -- the round, with the block that `bmap` gave
  pub chunk-Wrote : Wrote s ip off xs (log_block s1 addr (store (s1.blocks addr) (off % bsize) xs))
  chunk-Wrote =
      subst (λ b. Wrote s ip off xs (log_block s1 b (store (s1.blocks b) (off % bsize) xs)))
        step.maps.here
        (record {
          file = written-IsFile s1 a1 step.maps.file bn h at_ne new chunk-bytes;
          bytes = chunk-at;
          there = λ j lo hi z.
              let same : j / bsize ≡ bn = omega arith in
              at_ne (sym (after-mapped bn) ∙ subst (λ k. mapped after.blocks a1 k ≡ 0) same z);
          kept = still_mapped;
          node = step.node;
          others = step.others;
          superblock =
              let low = (step.maps.file.data_block bn h at_ne).low in
              rw (==_ne at 1 (omega arith)) (step.maps.low 1 (omega arith));
        })
