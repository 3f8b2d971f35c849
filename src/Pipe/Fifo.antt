-- ===== src/Pipe/Fifo.antt =====
-- Any number of processes write to a pipe, read from it and close its ends, interleaved in any order.
use Prim.Native.Nat.{min}
use mathlib.Core.List.{append_assoc}
use os_ass.Base.{
  ℕ, zero, suc, ◌-◌, ◌≤◌, ◌≡◌, refl, ◌∙◌, arith, Bool, List, [], ◌∷◌, ◌++◌, take, drop,
  take-append-drop, sym, length, ap,
}
use os_ass.Pipe.{Pipe, init, pipeclose, pipewrite, piperead, pipesize}
use os_ass.Pipe.Queue.{IsPipe, count, contents, length-contents, contents-pipeclose, contents-init}
use os_ass.Pipe.Write.{pipewrite-Wrote}
use os_ass.Pipe.Read.{piperead-DidRead}

-- A pipe, the bytes that writers have put into it and the bytes that readers have got.
pub record System : Type 0 where
  pub pipe : Pipe
  pub sent : List ℕ
  pub got : List ℕ

-- the bytes that `pipewrite` has taken from `cs` when it leaves the lock
unfoldable pub accepted : Bool → List ℕ → ℕ → Pipe → List ℕ
accepted killed cs i p = take ((pipewrite killed cs i p).i - i) cs

-- One stretch under `p->lock`: a call of `pipewrite` or `piperead` or its going on after a sleep, or
-- a close.
pub data Step (s : System) : System → Type 0 where
  write :
      (killed : Bool) (cs : List ℕ) (i : ℕ)
      → Step s (record s {
        pipe = (pipewrite killed cs i s.pipe).pipe;
        sent = s.sent ++ accepted killed cs i s.pipe;
      })
  read :
      (killed : Bool) (n : ℕ)
      → Step s (record s {
        pipe = (piperead killed n s.pipe).pipe;
        got = s.got ++ (piperead killed n s.pipe).bytes;
      })
  close : (writable : Bool) → Step s (record s { pipe = (pipeclose s.pipe writable).0 })

abbrev pub start : (ℕ → ℕ) → System
start junk = record { pipe = init junk; sent = []; got = [] }

pub data Reach (junk : ℕ → ℕ) : System → Type 0 where
  here : Reach junk (start junk)
  later : {s t : System} → Reach junk s → Step s t → Reach junk t

-- nothing is lost, doubled or reordered
pub record InOrder (s : System) : Type 0 where
  pub valid : IsPipe s.pipe
  pub order : s.sent ≡ s.got ++ contents s.pipe

take-min : (n : ℕ) (cs : List ℕ) → take (min (length cs) n) cs ≡ take n cs
take-min n [] = take-none (min 0 n) ∙ sym (take-none n)
  where
    take-none : (k : ℕ) → take {A = ℕ} k [] ≡ []
    take-none k = elim k as (λ j. take {A = ℕ} j [] ≡ []) [ zero ↦ refl | suc j ↦ refl ]
take-min zero (c ∷ cs) = let e : min (suc (length cs)) 0 ≡ 0 = omega arith in rw e
take-min (suc n) (c ∷ cs) =
    let e : min (suc (length cs)) (suc n) ≡ suc (min (length cs) n) = omega arith in
    rw e (ap (λ xs. c ∷ xs) (take-min n cs))

Step-InOrder : {s t : System} → Step s t → InOrder s → InOrder t
unfolding accepted
Step-InOrder {s} (write killed cs i) o =
    let w = pipewrite-Wrote killed cs i s.pipe o.valid in
    let amount : (pipewrite killed cs i s.pipe).i - i ≡ min (length cs) (pipesize - count s.pipe) =
      omega (arith, w.stopped) in
    record {
      valid = w.valid;
      order =
          rw (amount, take-min, w.bytes, o.order)
            (append_assoc s.got (contents s.pipe) (take (pipesize - count s.pipe) cs));
    }
Step-InOrder {s} (read killed n) o =
    let r = piperead-DidRead killed n s.pipe o.valid in
    record {
      valid = r.valid;
      order =
          o.order
          ∙ rw (r.taken, r.left)
              (rw (append_assoc s.got (take n (contents s.pipe)) (drop n (contents s.pipe)))
                (ap (λ xs. s.got ++ xs) (sym (take-append-drop n (contents s.pipe)))));
    }
Step-InOrder {s} (close writable) o =
    let c = contents-pipeclose s.pipe writable o.valid in
    record { valid = c.0; order = o.order ∙ ap (λ xs. s.got ++ xs) (sym c.1) }

pub Reach-InOrder : {junk : ℕ → ℕ} {s : System} → Reach junk s → InOrder s
Reach-InOrder {junk} here = let c = contents-init junk in record { valid = c.0; order = sym c.1 }
Reach-InOrder (later r st) = Step-InOrder st (Reach-InOrder r)

-- In every reachable state the bytes that writers have put into the pipe are, in order, those that
-- readers have got followed by those in the pipe, and these are at most 512.
pub fifo :
    {junk : ℕ → ℕ} {s : System}
    → Reach junk s
    → (s.sent ≡ s.got ++ contents s.pipe) × (length (contents s.pipe) ≤ pipesize)
fifo {s} r =
    let o = Reach-InOrder r in (o.order, omega (arith, o.valid.fits, length-contents s.pipe))
