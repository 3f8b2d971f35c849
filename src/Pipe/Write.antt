-- ===== src/Pipe/Write.antt =====
-- `pipewrite`: how many bytes it takes, how it ends, and whom it wakes.
use Prim.Native.Nat.{min}
use os_ass.Base.{
  ℕ, zero, suc, ◌+◌, ◌-◌, ◌<◌, ◌≡◌, refl, ◌∙◌, arith, Bool, ◌||◌, not, List, [], ◌∷◌, ◌++◌, ◌≢◌, ap,
  sym, Bool-cases, inl, inr, if◌then◌else◌, take, leb, length,
}
use mathlib.Core.List.{append-nil, append_assoc}
use os_ass.Pipe.{
  Pipe, Exit, returned, failed, asleep, nread_chan, nwrite_chan, pipesize, WriteResult, put, full,
  pipewrite,
}
use os_ass.Pipe.Queue.{IsPipe, count, contents, full-iff-count, put-IsPipe, contents-put}

-- how a call ends that has `n` bytes to write and room for `room`
abbrev pub write_exit : Bool → Bool → ℕ → ℕ → ℕ → Exit
write_exit killed readopen i n room =
    if leb n room
    then returned (i + n)
    else if not readopen || killed
    then failed
    else asleep nwrite_chan

-- what `pipewrite` does, from `i` with the bytes `cs` left
pub record Wrote (killed : Bool) (cs : List ℕ) (i : ℕ) (p : Pipe) (out : WriteResult) : Type 0 where
  pub valid : IsPipe out.pipe
  pub stopped : out.i ≡ i + min (length cs) (pipesize - count p)
  pub bytes : contents out.pipe ≡ contents p ++ take (pipesize - count p) cs
  pub exit : out.exit ≡ write_exit killed p.readopen i (length cs) (pipesize - count p)
  pub wakes : out.exit ≢ failed → out.woken ≡ nread_chan ∷ []
  pub ends : (out.pipe.readopen ≡ p.readopen) × (out.pipe.writeopen ≡ p.writeopen)
  pub reader : out.pipe.nread ≡ p.nread

take-nil : (n : ℕ) → take {A = ℕ} n [] ≡ []
take-nil zero = refl
take-nil (suc n) = refl

take-zero : (n : ℕ) (cs : List ℕ) → n ≡ 0 → take n cs ≡ []
take-zero zero cs e = refl
take-zero (suc n) cs e = absurd (omega arith)

take-suc : (n : ℕ) (c : ℕ) (cs : List ℕ) → 0 < n → take n (c ∷ cs) ≡ c ∷ take (n - 1) cs
take-suc zero c cs h = absurd (omega arith)
take-suc (suc n) c cs h = ap (λ k. c ∷ take k cs) (omega arith)

-- `pipewrite` on a valid pipe, with the bytes `cs` left to write, keeps it valid and appends to its
-- contents, in order, as many of `cs` as there is room for. It returns the count when all fit; else it
-- fails if the read end is closed or the process is killed, and sleeps otherwise. Unless it fails it
-- wakes the readers. It changes neither end nor the reader's counter.
pub pipewrite-Wrote :
    (killed : Bool) (cs : List ℕ) (i : ℕ) (p : Pipe)
    → IsPipe p
    → Wrote killed cs i p (pipewrite killed cs i p)
unfolding pipewrite
pipewrite-Wrote killed [] i p v = record {
  valid = v;
  stopped = omega arith;
  bytes =
      sym (ap (λ xs. contents p ++ xs) (take-nil (pipesize - count p)) ∙ append-nil (contents p));
  exit = ground arith;
  wakes = λ _. refl;
  ends = (refl, refl);
  reader = refl;
}
pipewrite-Wrote killed (c ∷ cs) i p v = elim (Bool-cases (full p)) [
  | inl e ↦
      let whole : count p ≡ pipesize = ground (arith, full-iff-count p v) in
      record {
        valid = ground arith;
        stopped = ground arith;
        bytes = ground (arith, take-zero (pipesize - count p) (c ∷ cs), append-nil (contents p));
        exit = ground arith;
        wakes = ground arith;
        ends = ground arith;
        reader = ground arith;
      }
  | inr e ↦
      let room : count p < pipesize = ground (arith, full-iff-count p v, v.fits) in
      let more = contents-put p c v e in
      let ih = pipewrite-Wrote killed cs (i + 1) (put p c) (put-IsPipe p c v e) in
      record {
        valid = ground (arith, ih.valid);
        stopped = ground (arith, ih.stopped, more.1);
        bytes = ground (
          arith,
          ih.bytes,
          more.0,
          more.1,
          take-suc (pipesize - count p) c cs,
          append_assoc (contents p) (c ∷ []) (take (pipesize - count p - 1) cs),
        );
        exit = ground (arith, ih.exit, more.1);
        wakes = ground (arith, ih.wakes);
        ends = ground (arith, ih.ends);
        reader = ground (arith, ih.reader);
      }
]
