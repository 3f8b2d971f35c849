-- ===== src/File/Chunks.antt =====
-- `filewrite` of an inode of the file system against one write of all the bytes.
use os_ass.Base.{
  ℕ, zero, suc, ◌+◌, ◌≤◌, ◌<◌, ◌≡◌, ◌⊎◌, ◌*◌, ◌/◌, ◌^◌, inl, inr, refl, sym, ap, subst, ◌∙◌, arith,
  true, false, List, [], ◌∷◌, ◌++◌, All, All-take, All-drop, take, drop, take-append-drop, length,
  length-take, length-drop, length-append, Outcome, ok, panic, ◌>>=◌, ℤ, pos, ==_refl, leb, ltb,
  ◌&&◌, get_or, ◌-◌, if◌then◌else◌, Bool, ◌==◌, negsuc,
}
use os_ass.File.Table.{
  File, fd_inode, Backend, max_write, min_write, moved, write_loop, filewrite, write_chunk,
}
use os_ass.Fs.{Fs, bsize}
use os_ass.Fs.Files.{maxfile, writei, readi, Devices}
use os_ass.Fs.Contents.{byte}
use os_ass.Fs.Chunk.{addrs_of}
use os_ass.Fs.Writing.{HasBlocks, overlay-append}
use os_ass.Fs.Writei.{IsInode, IsWritten, grown, writei_lem}

-- The file system of fs.c, whose inodes are locked while they are read and written; the pipes are any.
abbrev pub with_files :
    Devices
    → (Fs → ℕ → ℕ → Outcome (ℤ × List ℕ × Fs))
    → (Fs → ℕ → List ℕ → Outcome (ℤ × Fs))
    → Backend Fs
with_files devsw piperead pipewrite = record {
  piperead = piperead;
  pipewrite = pipewrite;
  readi = readi devsw;
  writei = writei devsw;
}

-- one write after another
IsWritten-append :
    {s s1 s2 : Fs} (ip off : ℕ) (xs ys : List ℕ)
    → IsWritten s ip off xs s1
    → IsWritten s1 ip (off + length xs) ys s2
    → IsWritten s ip off (xs ++ ys) s2
IsWritten-append {s} {s1} {s2} ip off xs ys v w = record {
  valid = w.valid;
  size =
      w.size
      ∙ ap (λ z. grown z (off + length xs + length ys)) v.size
      ∙ ground (arith, length-append xs ys);
  bytes = λ j h.
      w.bytes j h
      ∙ ap
          (λ x.
            if leb (off + length xs) j && ltb j (off + length xs + length ys)
            then get_or 0 ys (j - (off + length xs))
            else x)
          (v.bytes j h)
      ∙ overlay-append (byte s.blocks (addrs_of s ip)) off xs ys j;
  others = λ j n. w.others j n ∙ v.others j n;
  kept = λ i h n. w.kept i h (v.kept i h n);
}

nothing-IsWritten :
    (s : Fs) (ip off : ℕ) → IsInode s ip → off ≤ (s.inode ip).size → IsWritten s ip off [] s
nothing-IsWritten s ip off v le = record {
  valid = v;
  size = ground arith;
  bytes = λ j h. ground arith;
  others = λ j n. refl;
  kept = λ i h n. n;
}

grown_reaches : (size n : ℕ) → n ≤ grown size n
grown_reaches size n = ground arith

min_write_lem : (n : ℕ) → (min_write n ≤ n) × (min_write n ≤ max_write) × (0 < n → 0 < min_write n)
min_write_lem n = ground arith

moved_lem :
    {S : Type 0} (b : Backend S) (off n : ℕ) → off + n < 2 ^ 32 → moved b off (pos n) ≡ off + n
moved_lem b off zero h = omega arith
moved_lem b off (suc n) h = omega arith

module _ (devsw : Devices) (piperead : Fs → ℕ → ℕ → Outcome (ℤ × List ℕ × Fs))
    (pipewrite : Fs → ℕ → List ℕ → Outcome (ℤ × Fs)) where
  abbrev files : Backend Fs
  files = with_files devsw piperead pipewrite

  -- a loop over `bytes`, as one write of them
  abbrev Loops : Fs → File → List ℕ → Outcome (Bool × File × Fs) → Type 0
  Loops s f bytes out =
      ((out ≡ panic) × (HasBlocks s f.ip f.off (length bytes) → ⊥))
      ⊎ ((s2 : Fs) × (out ≡ ok (true, record f { off = f.off + length bytes }, s2))
          × IsWritten s f.ip f.off bytes s2)

  write_chunk-panic :
      (s : Fs) (f : File) (bytes : List ℕ)
      → writei devsw s f.ip bytes f.off ≡ panic
      → write_chunk files s f bytes ≡ panic
  unfolding write_chunk
  write_chunk-panic s f bytes e =
      ap (λ o. o >>= λ (r, s'). ok (r, record f { off = moved files f.off r }, s')) e

  write_chunk-ok :
      (s s1 : Fs) (f : File) (bytes : List ℕ)
      → f.off + length bytes < 2 ^ 32
      → writei devsw s f.ip bytes f.off ≡ ok (pos (length bytes), s1)
      → write_chunk files s f bytes
        ≡ ok (pos (length bytes), record f { off = f.off + length bytes }, s1)
  unfolding write_chunk
  write_chunk-ok s s1 f bytes small e =
      ap (λ o. o >>= λ (r, s'). ok (r, record f { off = moved files f.off r }, s')) e
      ∙ ap (λ n. ok (pos (length bytes), record f { off = n }, s1))
          (moved_lem files f.off (length bytes) small)

  write_loop-nothing :
      (fuel : ℕ) (s : Fs) (f : File) → write_loop files fuel s f [] ≡ ok (true, f, s)
  unfolding write_loop
  write_loop-nothing zero s f = refl
  write_loop-nothing (suc fuel) s f = refl

  write_loop-stops :
      (fuel : ℕ) (s : Fs) (f : File) (c : ℕ) (cs : List ℕ)
      → write_chunk files s f (take (min_write (length (c ∷ cs))) (c ∷ cs)) ≡ panic
      → write_loop files (suc fuel) s f (c ∷ cs) ≡ panic
  unfolding write_loop
  write_loop-stops fuel s f c cs e = rw e refl

  write_loop-goes_on :
      (fuel n1 : ℕ) (s s1 : Fs) (f f1 : File) (c : ℕ) (cs : List ℕ)
      → n1 ≡ min_write (length (c ∷ cs))
      → write_chunk files s f (take (min_write (length (c ∷ cs))) (c ∷ cs)) ≡ ok (pos n1, f1, s1)
      → write_loop files (suc fuel) s f (c ∷ cs)
        ≡ write_loop files fuel s1 f1 (drop (min_write (length (c ∷ cs))) (c ∷ cs))
  unfolding write_loop
  write_loop-goes_on fuel n1 s s1 f f1 c cs same e =
      let whole : (n1 == min_write (length (c ∷ cs))) ≡ true =
        ap (λ k. k == min_write (length (c ∷ cs))) same ∙ ==_refl (min_write (length (c ∷ cs))) in
      rw e (
        ap
          (λ t. elim t as (λ _. Outcome (Bool × File × Fs)) [
            | true ↦ write_loop files fuel s1 f1 (drop (min_write (length (c ∷ cs))) (c ∷ cs))
            | false ↦ panic
          ])
          whole)

  -- a first chunk, and the loop over the others
  Loops-append :
      (s s1 : Fs) (f : File) (xs ys : List ℕ) (out : Outcome (Bool × File × Fs))
      → IsWritten s f.ip f.off xs s1
      → f.off + length xs + length ys ≤ maxfile * bsize
      → Loops s1 (record f { off = f.off + length xs }) ys out
      → Loops s f (xs ++ ys) out
  Loops-append s s1 f xs ys out w fits (inl (e, missing)) = inl (
    e,
    λ has. missing λ j lo hi.
        w.kept (j / bsize) (omega arith) (has j (omega arith) (omega (arith, length-append xs ys))),
  )
  Loops-append s s1 f xs ys out w fits (inr (s2, e, w2)) = inr (
    s2,
    e ∙ ap (λ n. ok (true, record f { off = n }, s2)) (omega (arith, length-append xs ys)),
    IsWritten-append f.ip f.off xs ys w w2,
  )

  nothing-Loops :
      (s : Fs) (f : File)
      → IsInode s f.ip
      → f.off ≤ (s.inode f.ip).size
      → Loops s f [] (ok (true, f, s))
  nothing-Loops s f v in_file = inr (
    s,
    ap (λ n. ok (true, record f { off = n }, s)) (omega arith),
    nothing-IsWritten s f.ip f.off v in_file,
  )

  write_loop_lem :
      (fuel : ℕ) (s : Fs) (f : File) (bytes : List ℕ)
      → length bytes ≤ fuel
      → IsInode s f.ip
      → All (λ x. x < 256) bytes
      → f.off ≤ (s.inode f.ip).size
      → f.off + length bytes ≤ maxfile * bsize
      → Loops s f bytes (write_loop files fuel s f bytes)
  write_loop_lem zero s f [] le v small in_file fits =
      subst (Loops s f []) (sym (write_loop-nothing zero s f)) (nothing-Loops s f v in_file)
  write_loop_lem zero s f (c ∷ cs) le v small in_file fits = absurd (omega arith)
  write_loop_lem (suc fuel) s f [] le v small in_file fits =
      subst (Loops s f []) (sym (write_loop-nothing (suc fuel) s f)) (nothing-Loops s f v in_file)
  write_loop_lem (suc fuel) s f (c ∷ cs) le v small in_file fits =
      let n1 = min_write (length (c ∷ cs)) in
      let xs = take n1 (c ∷ cs) in
      let ys = drop n1 (c ∷ cs) in
      let (most, bounded, some_left) = min_write_lem (length (c ∷ cs)) in
      let len : length xs ≡ n1 = length-take n1 (c ∷ cs) most in
      let left : length ys ≡ length (c ∷ cs) - n1 = length-drop n1 (c ∷ cs) in
      let whole : xs ++ ys ≡ c ∷ cs = take-append-drop n1 (c ∷ cs) in
      subst (λ zs. Loops s f zs (write_loop files (suc fuel) s f (c ∷ cs))) whole
        (elim ((writei_lem devsw s f.ip xs f.off v (All-take (λ x. x < 256) n1 (c ∷ cs) small)
            (omega arith)).0
          in_file (omega arith)) [
            | inl (e, missing) ↦ inl (
              write_loop-stops fuel s f c cs (write_chunk-panic s f xs e),
              λ has. missing λ j lo hi. has j lo (omega (arith, length-append xs ys)),
            )
            | inr (s1, e, w) ↦
                let f1 = record f { off = f.off + length xs } in
                let more =
                  write_loop_lem fuel s1 f1 ys (omega arith) w.valid
                    (All-drop (λ x. x < 256) n1 (c ∷ cs) small)
                    (omega (arith, w.size, grown_reaches (s.inode f.ip).size (f.off + length xs)))
                    (omega arith) in
                Loops-append s s1 f xs ys (write_loop files (suc fuel) s f (c ∷ cs)) w (omega arith)
                  (subst (Loops s1 f1 ys)
                    (sym (
                      write_loop-goes_on fuel (length xs) s s1 f f1 c cs len
                        (write_chunk-ok s s1 f xs (omega arith) e)))
                    more)
          ])

-- what `filewrite` returns after its loop
abbrev finish : {S : Type 0} → List ℕ → Outcome (Bool × File × S) → Outcome (ℤ × File × S)
finish bytes o = o >>= λ out. ok (if out.0 then pos (length bytes) else negsuc 0, out.1, out.2)

filewrite-loop :
    {S : Type 0} (b : Backend S) (s : S) (f : File) (bytes : List ℕ)
    → f.type ≡ fd_inode
    → f.writable ≡ true
    → filewrite b s f bytes ≡ finish bytes (write_loop b (length bytes) s f bytes)
unfolding filewrite
filewrite-loop b s f bytes inode writable = simp (writable, inode)

-- `filewrite` of bytes through a writable file of the file system, from an offset in the file on, when they end within the
-- largest file: its chunks do what one `writei` of all the bytes at the old offset does, and it returns their
-- number and moves the offset by it. It panics only if a block was missing for some byte.
pub filewrite_lem :
    (devsw : Devices) (piperead : Fs → ℕ → ℕ → Outcome (ℤ × List ℕ × Fs))
    (pipewrite : Fs → ℕ → List ℕ → Outcome (ℤ × Fs)) (s : Fs) (f : File) (bytes : List ℕ)
    → f.type ≡ fd_inode
    → f.writable ≡ true
    → IsInode s f.ip
    → All (λ x. x < 256) bytes
    → f.off ≤ (s.inode f.ip).size
    → f.off + length bytes ≤ maxfile * bsize
    → let out = filewrite (with_files devsw piperead pipewrite) s f bytes in
      ((out ≡ panic) × (HasBlocks s f.ip f.off (length bytes) → ⊥))
      ⊎ ((s2 : Fs) × (out ≡ ok (pos (length bytes), record f { off = f.off + length bytes }, s2))
          × IsWritten s f.ip f.off bytes s2)
filewrite_lem devsw piperead pipewrite s f bytes inode writable v small in_file fits =
    let b = with_files devsw piperead pipewrite in
    elim (write_loop_lem devsw piperead pipewrite (length bytes) s f bytes (omega arith) v small
      in_file fits) [
        | inl (e, missing) ↦
            inl (filewrite-loop b s f bytes inode writable ∙ ap (finish bytes) e, missing)
        | inr (s2, e, w) ↦
            inr (s2, filewrite-loop b s f bytes inode writable ∙ ap (finish bytes) e, w)
      ]
