-- ===== src/Fs/Contents.antt =====
-- The bytes of a file, as one sequence.
use os_ass.Base.{
  word, ℕ_discrete, ok, inl, inr, ℕ, arith, ◌≡◌, if◌then◌else◌, ◌/◌, ◌<◌, ◌≢◌, ◌==◌, subst, ◌%◌,
  ==_ne, sym, Bool-cases, ltb, ◌∙◌, ==_refl, ◌*◌, ◌-◌, lt→ltb,
}
use os_ass.Fs.{Block, Fs, bsize, log_block}
use os_ass.Fs.Bits.{IsBytes}
use os_ass.Fs.Files.{ndirect, nindirect, maxfile, load_entry, bmap}
use os_ass.Fs.Blocks.{mapped, IsData, IsFile, write-IsFs, write-IsData}
use os_ass.Fs.Mapping.{Maps}
use os_ass.Fs.Bmap.{load_addr-old}

-- the byte at `off`; 0 where the file has no block
abbrev pub byte : (ℕ → Block) → (ℕ → ℕ) → ℕ → ℕ
byte blocks addrs off =
    if mapped blocks addrs (off / bsize) == 0
    then 0
    else blocks (mapped blocks addrs (off / bsize)) (off % bsize)

-- `bmap` leaves the bytes of the file as they are
pub Maps-byte :
    {s s2 : Fs} {addrs addrs2 : ℕ → ℕ} {bn addr : ℕ}
    → Maps s addrs bn addr s2 addrs2
    → (off : ℕ) → off / bsize < maxfile
    → byte s2.blocks addrs2 off ≡ byte s.blocks addrs off
Maps-byte {s} {s2} {addrs} {addrs2} {bn} {addr} m off h =
    elim (ℕ_discrete (mapped s.blocks addrs (off / bsize)) 0) [
      | yes z ↦ elim (ℕ_discrete bn (off / bsize)) [
        | yes e ↦
            let at : mapped s2.blocks addrs2 (off / bsize) ≡ addr =
              subst (λ k. mapped s2.blocks addrs2 k ≡ addr) e m.here in
            let new : s2.blocks addr ≡ (λ _. 0) =
              m.fresh (subst (λ k. mapped s.blocks addrs k ≡ 0) (sym e) z) in
            rw (at, ==_ne addr 0 m.given, new, z)
        | no n ↦ rw (m.kept (off / bsize) h n, z)
      ]
      | no there ↦
          let same : mapped s2.blocks addrs2 (off / bsize) ≡ mapped s.blocks addrs (off / bsize) =
            elim (ℕ_discrete bn (off / bsize)) [
              | yes e ↦
                  subst (λ k. mapped s2.blocks addrs2 k ≡ mapped s.blocks addrs k) e
                    (m.here ∙ m.old (λ q. there (subst (λ k. mapped s.blocks addrs k ≡ 0) e q)))
              | no n ↦ m.kept (off / bsize) h n
            ] in
          rw (same, m.same (off / bsize) h there)
    ]

-- `bmap` of a block that is there changes nothing
pub bmap-old :
    (s : Fs) (ip bn : ℕ)
    → bn < maxfile
    → mapped s.blocks (s.inode ip).addrs bn ≢ 0
    → bmap s ip bn ≡ ok (mapped s.blocks (s.inode ip).addrs bn, s)
unfolding bmap load_entry
bmap-old s ip bn h there = elim (Bool-cases (ltb bn ndirect)) [
  | inl small ↦
      let n : (s.inode ip).addrs bn ≢ 0 = λ q. there (rw small q) in
      rw (small, load_addr-old s ip bn n)
  | inr big ↦
      let n : (s.inode ip).addrs ndirect ≢ 0 = λ q. there (rw (big, q)) in
      let m : word (s.blocks ((s.inode ip).addrs ndirect)) (4 * (bn - ndirect)) ≢ 0 =
        λ q. there (rw (big, ==_ne ((s.inode ip).addrs ndirect) 0 n) q) in
      rw (
        big,
        lt→ltb (bn - ndirect) nindirect (omega arith),
        load_addr-old s ip ndirect n,
        ==_ne _ 0 m,
        ==_ne ((s.inode ip).addrs ndirect) 0 n,
      )
]

-- New bytes in a block of the file: the file stays well-formed.
module _ (s : Fs) (addrs : ℕ → ℕ) (f : IsFile s addrs) (bn : ℕ) (h : bn < maxfile)
    (there : mapped s.blocks addrs bn ≢ 0) (bytes : Block) (new : IsBytes bytes) where
  abbrev pub written : Fs
  written = log_block s (mapped s.blocks addrs bn) bytes

  pub written-mapped : (i : ℕ) → mapped written.blocks addrs i ≡ mapped s.blocks addrs i
  written-mapped i =
      rw (==_ne (mapped s.blocks addrs bn) (addrs ndirect) (f.table_apart bn h there))

  pub written-IsFile : IsFile written addrs
  written-IsFile =
      let d = f.data_block bn h there in
      record {
        valid = write-IsFs s f.valid (mapped s.blocks addrs bn) bytes d.low new d.inside;
        data_block = λ i hi n.
            subst (λ a. IsData written a) (sym (written-mapped i))
              (write-IsData s f.valid (mapped s.blocks addrs bn) bytes d.low new
                (f.data_block i hi (λ z. n (written-mapped i ∙ z))));
        apart = λ i j hi hj n e.
            f.apart i j hi hj (λ z. n (written-mapped i ∙ z))
              (sym (written-mapped i) ∙ e ∙ written-mapped j);
        table = λ n. write-IsData s f.valid (mapped s.blocks addrs bn) bytes d.low new (f.table n);
        table_apart = λ i hi n e.
            f.table_apart i hi (λ z. n (written-mapped i ∙ z)) (sym (written-mapped i) ∙ e);
      }

  -- the bytes of the file afterwards
  pub written-byte :
      (off : ℕ)
      → off / bsize < maxfile
      → byte written.blocks addrs off
        ≡ (if off / bsize == bn then bytes (off % bsize) else byte s.blocks addrs off)
  written-byte off ho =
      rw (written-mapped (off / bsize)) (elim (ℕ_discrete (mapped s.blocks addrs (off / bsize)) 0) [
        | yes z ↦
            rw (
              z,
              ==_ne (off / bsize) bn (λ e. there (subst (λ k. mapped s.blocks addrs k ≡ 0) e z)),
            )
        | no n ↦ elim (ℕ_discrete (off / bsize) bn) [
          | yes e ↦ rw (
            e,
            ==_refl bn,
            ==_refl (mapped s.blocks addrs bn),
            ==_ne (mapped s.blocks addrs bn) 0 there,
          )
          | no away ↦ rw (
            ==_ne (off / bsize) bn away,
            ==_ne (mapped s.blocks addrs bn) (mapped s.blocks addrs (off / bsize))
                (λ q. away (f.apart (off / bsize) bn ho h n (sym q))),
          )
        ]
      ])
