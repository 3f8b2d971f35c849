-- ===== src/Pipe/Read.antt =====
-- `piperead`: the bytes it returns, how it ends, and whom it wakes.
use os_ass.Base.{
  ℕ, zero, suc, ◌≡◌, refl, arith, Bool, List, [], ◌∷◌, take, drop, Bool-cases, if◌then◌else◌,
  length, inl, inr,
}
use os_ass.Pipe.{
  Pipe, Exit, returned, failed, asleep, nread_chan, nwrite_chan, ReadResult, empty, piperead_copy,
  piperead,
}
use os_ass.Pipe.Queue.{IsPipe, contents, pop, contents-nil, contents-cons}

take-nil : (n : ℕ) → (take {A = ℕ} n [] ≡ []) × (drop {A = ℕ} n [] ≡ [])
take-nil zero = (refl, refl)
take-nil (suc n) = (refl, refl)

piperead_copy_lem :
    (n : ℕ) (p : Pipe)
    → IsPipe p
    → let (cs, p') = piperead_copy n p in
      IsPipe p'
      × (cs ≡ take n (contents p))
      × (contents p' ≡ drop n (contents p))
      × (p'.nwrite ≡ p.nwrite)
      × (p'.readopen ≡ p.readopen)
      × (p'.writeopen ≡ p.writeopen)
unfolding piperead_copy
piperead_copy_lem zero p v = (v, refl, refl, refl, refl, refl)
piperead_copy_lem (suc n) p v = elim (Bool-cases (empty p)) [
  | inl e ↦ let nothing = contents-nil p v e in ground (arith, nothing, take-nil (suc n))
  | inr e ↦
      let (v', eq) = contents-cons p v e in
      let ih = piperead_copy_lem n (pop p) v' in rw eq (ground (arith, ih))
]

-- how a call ends that asks for `n` bytes of the `xs`
abbrev pub read_exit : Bool → Bool → ℕ → List ℕ → Exit
read_exit killed writeopen n [] =
    if writeopen then if killed then failed else asleep nread_chan else returned 0
read_exit killed writeopen n (x ∷ xs) = returned (length (take n (x ∷ xs)))

-- what `piperead` does
pub record DidRead (killed : Bool) (n : ℕ) (p : Pipe) (out : ReadResult) : Type 0 where
  pub valid : IsPipe out.pipe
  pub taken : out.bytes ≡ take n (contents p)
  pub left : contents out.pipe ≡ drop n (contents p)
  pub exit : out.exit ≡ read_exit killed p.writeopen n (contents p)
  pub wakes : (k : ℕ) → out.exit ≡ returned k → out.woken ≡ nwrite_chan ∷ []
  pub ends : (out.pipe.readopen ≡ p.readopen) × (out.pipe.writeopen ≡ p.writeopen)
  pub writer : out.pipe.nwrite ≡ p.nwrite

-- `piperead` of `n` bytes on a valid pipe keeps it valid, takes the first `n` bytes of its contents, or
-- all, and leaves the rest. On an empty pipe with the write end open it fails if the process is
-- killed, and sleeps otherwise; in every other case it returns the count and wakes the writers. It
-- changes neither end nor the writer's counter.
pub piperead-DidRead :
    (killed : Bool) (n : ℕ) (p : Pipe) → IsPipe p → DidRead killed n p (piperead killed n p)
unfolding piperead
piperead-DidRead killed n p v =
    let copied = piperead_copy_lem n p v in
    elim (Bool-cases (empty p)) [
      | inl e ↦
          let nothing = contents-nil p v e in
          let nil = take-nil n in
          record {
            valid = ground (arith, copied);
            taken = ground (arith, copied, nothing, nil);
            left = ground (arith, copied, nothing, nil);
            exit = rw nothing (ground (arith, copied, nothing, nil));
            wakes = λ k. ground arith;
            ends = ground (arith, copied);
            writer = ground (arith, copied);
          }
      | inr e ↦
          let (v', eq) = contents-cons p v e in
          record {
            valid = ground (arith, copied);
            taken = ground (arith, copied);
            left = ground (arith, copied);
            exit = rw eq (ground (arith, copied, eq));
            wakes = λ k. ground arith;
            ends = ground (arith, copied);
            writer = ground (arith, copied);
          }
    ]
