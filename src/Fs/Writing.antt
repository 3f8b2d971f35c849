-- ===== src/Fs/Writing.antt =====
-- `writei` writes over the bytes of a file.
use os_ass.Base.{
  store, ap, zero, suc, false, ok, panic, [], ◌∷◌, inl, inr, ℕ, refl, arith, ◌≡◌, Outcome, List,
  ◌+◌, length, ◌≤◌, ◌*◌, ◌++◌, ◌<◌, ◌⊎◌, ◌/◌, All, ◌∙◌, ◌≢◌, if◌then◌else◌, leb, ◌&&◌, ltb, get_or,
  ◌-◌, dec_lt, length-append, get_or-append, sym, take, length-take, drop, length-drop, ◌==◌, ==_ne,
  ◌%◌, All-take, All-drop, subst, take-append-drop,
}
use os_ass.Fs.{Inode, Fs, bsize, log_block}
use os_ass.Fs.Files.{maxfile, chunk, writei_loop}
use os_ass.Fs.Blocks.{mapped, IsFile}
use os_ass.Fs.Contents.{byte, bmap-old}
use os_ass.Fs.Reading.{chunk_lem}
use os_ass.Fs.Chunk.{addrs_of, overlay, Wrote, bmap-Cases, chunk-Wrote}

overlay_nothing : (old : ℕ → ℕ) (off j : ℕ) → overlay old off [] j ≡ old j
overlay_nothing old off j = ground arith

-- nothing written
nothing-Wrote : (s : Fs) (ip off : ℕ) → IsFile s (addrs_of s ip) → Wrote s ip off [] s
nothing-Wrote s ip off f = record {
  file = f;
  bytes = λ j h. sym (overlay_nothing (byte s.blocks (addrs_of s ip)) off j);
  there = λ j lo hi. absurd (omega arith);
  kept = λ i h n. n;
  node = refl;
  others = λ j n. refl;
  superblock = refl;
}

pub overlay-append :
    (old : ℕ → ℕ) (off : ℕ) (xs ys : List ℕ) (j : ℕ)
    → overlay (overlay old off xs) (off + length xs) ys j ≡ overlay old off (xs ++ ys) j
overlay-append old off xs ys j =
    let at : j - off - length xs ≡ j - (off + length xs) = omega arith in
    ground (arith, get_or-append xs ys (j - off), length-append xs ys, ap (λ k. get_or 0 ys k) at)

-- one write after another
Wrote-append :
    {s s1 s2 : Fs} (ip off : ℕ) (xs ys : List ℕ)
    → off + length xs + length ys ≤ maxfile * bsize
    → Wrote s ip off xs s1
    → Wrote s1 ip (off + length xs) ys s2
    → Wrote s ip off (xs ++ ys) s2
Wrote-append {s} {s1} {s2} ip off xs ys fits v w = record {
  file = w.file;
  bytes = λ j h.
      w.bytes j h
      ∙ ap
          (λ x.
            if leb (off + length xs) j && ltb j (off + length xs + length ys)
            then get_or 0 ys (j - (off + length xs))
            else x)
          (v.bytes j h)
      ∙ overlay-append (byte s.blocks (addrs_of s ip)) off xs ys j;
  there = λ j lo hi. elim (dec_lt j (off + length xs)) [
    | yes h ↦ w.kept (j / bsize) (omega arith) (v.there j lo h)
    | no h ↦ w.there j (omega arith) (omega (arith, length-append xs ys))
  ];
  kept = λ i h n. w.kept i h (v.kept i h n);
  node = w.node ∙ ap (λ (n : Inode). record n { addrs = addrs_of s2 ip }) v.node;
  others = λ j n. w.others j n ∙ v.others j n;
  superblock = w.superblock ∙ v.superblock;
}

-- every block from `off` on is there, for `n` bytes
abbrev pub HasBlocks : Fs → ℕ → ℕ → ℕ → Type 0
HasBlocks s ip off n =
    (j : ℕ) → off ≤ j → j < off + n → mapped s.blocks (addrs_of s ip) (j / bsize) ≢ 0

-- The loop panics, which it does only if a block was missing, or writes all.
abbrev pub Loop : Fs → ℕ → ℕ → List ℕ → Outcome Fs → Type 0
Loop s ip off src out =
    ((out ≡ panic) × (HasBlocks s ip off (length src) → ⊥))
    ⊎ ((s2 : Fs) × (out ≡ ok s2) × Wrote s ip off src s2)

pub writei_loop_lem :
    (fuel : ℕ) (s : Fs) (ip off : ℕ) (src : List ℕ)
    → IsFile s (addrs_of s ip)
    → length src ≤ fuel
    → off + length src ≤ maxfile * bsize
    → All (λ x. x < 256) src
    → Loop s ip off src (writei_loop fuel s ip off src)
unfolding writei_loop
writei_loop_lem zero s ip off [] f h fits small = inr (s, refl, nothing-Wrote s ip off f)
writei_loop_lem (suc fuel) s ip off [] f h fits small = inr (s, refl, nothing-Wrote s ip off f)
writei_loop_lem zero s ip off (x ∷ xs) f h fits small = absurd (omega arith)
writei_loop_lem (suc fuel) s ip off (x ∷ xs) f h fits small =
    let src = x ∷ xs in
    let m = chunk off (length src) in
    let (some_left, most, room) = chunk_lem off (length src) (omega arith) in
    let len : length (take m src) ≡ m = length-take m src most in
    let left : length (drop m src) ≡ length src - m = length-drop m src in
    let test : (length src == 0) ≡ false = ==_ne (length src) 0 (omega arith) in
    elim (bmap-Cases s ip (off / bsize) f (omega arith)) [
      | inl e ↦
          rw (test, e)
            (inl (
              refl,
              λ has.
                  let found =
                    bmap-old s ip (off / bsize) (omega arith)
                      (has off (omega arith) (omega arith)) in
                  cc (sym e ∙ found),
            ))
      | inr (addr, s1, e, step) ↦
          let s2 = log_block s1 addr (store (s1.blocks addr) (off % bsize) (take m src)) in
          let w =
            chunk-Wrote s ip off (take m src) (omega arith) (omega arith)
              (All-take (λ y. y < 256) m src small) addr s1 step in
          let rest =
            writei_loop_lem fuel s2 ip (off + m) (drop m src) w.file (omega arith) (omega arith)
              (All-drop (λ y. y < 256) m src small) in
          rw (test, e)
            (elim rest [
              | inl (e2, missing) ↦ inl (
                e2,
                λ has.
                    missing λ j lo hi.
                      w.kept (j / bsize) (omega arith) (has j (omega arith) (omega arith)),
              )
              | inr (s3, e3, v) ↦ inr (
                s3,
                e3,
                subst (λ ys. Wrote s ip off ys s3) (take-append-drop m src)
                    (Wrote-append ip off (take m src) (drop m src) (omega arith) w
                      (subst (λ k. Wrote s2 ip (off + k) (drop m src) s3) (sym len) v)),
              )
            ])
    ]
