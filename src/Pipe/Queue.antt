-- ===== src/Pipe/Queue.antt =====
-- The bytes in a pipe, oldest first, and the invariant of its counters.
use os_ass.Base.{
  ℕ, zero, suc, ◌+◌, ◌-◌, ◌%◌, ◌^◌, ◌≤◌, ◌<◌, ◌≡◌, refl, arith, ◌==◌, List, [], ◌∷◌, ◌++◌, length,
  u32, false, update, true, Bool,
}
use os_ass.Pipe.{Pipe, pipesize, put, full, empty, init, pipeclose}

-- `nwrite - nread`, which wraps
abbrev pub count : Pipe → ℕ
count p = (p.nwrite + 2 ^ 32 - p.nread) % 2 ^ 32

pub record IsPipe (p : Pipe) : Type 0 where
  pub read_word : p.nread < 2 ^ 32
  pub write_word : p.nwrite < 2 ^ 32
  pub fits : count p ≤ pipesize

-- `n` bytes from counter `r` on
unfoldable pub window : (ℕ → ℕ) → ℕ → ℕ → List ℕ
window buf r zero = []
window buf r (suc n) = buf (r % pipesize) ∷ window buf (u32 (r + 1)) n

unfoldable pub contents : Pipe → List ℕ
contents p = window p.buf p.nread (count p)

length-window : (buf : ℕ → ℕ) (r n : ℕ) → length (window buf r n) ≡ n
unfolding window
length-window buf r zero = refl
length-window buf r (suc n) = omega (arith, length-window buf (u32 (r + 1)) n)

pub length-contents : (p : Pipe) → length (contents p) ≡ count p
unfolding contents
length-contents p = length-window p.buf p.nread (count p)

pub full-iff-count : (p : Pipe) → IsPipe p → full p ≡ (count p == pipesize)
full-iff-count p v = ground arith

pub empty-iff-count : (p : Pipe) → IsPipe p → empty p ≡ (count p == 0)
empty-iff-count p v = ground arith

-- The byte just past a window that does not fill the ring extends it.
window-update :
    (buf : ℕ → ℕ) (c r n w : ℕ)
    → n < pipesize
    → r < 2 ^ 32
    → w ≡ u32 (r + n)
    → window (update buf (w % pipesize) c) r (suc n) ≡ window buf r n ++ c ∷ []
unfolding window
window-update buf c r zero w lt word e = ground arith
window-update buf c r (suc n) w lt word e =
    ground (arith, window-update buf c (u32 (r + 1)) n w (omega arith) (omega arith) (omega arith))

pub put-IsPipe : (p : Pipe) (c : ℕ) → IsPipe p → full p ≡ false → IsPipe (put p c)
put-IsPipe p c v room = ground arith

pub contents-put :
    (p : Pipe) (c : ℕ)
    → IsPipe p
    → full p ≡ false
    → (contents (put p c) ≡ contents p ++ c ∷ []) × (count (put p c) ≡ count p + 1)
unfolding contents
contents-put p c v room =
    let more : count (put p c) ≡ suc (count p) = ground arith in
    (
      rw more (
          window-update p.buf c p.nread (count p) p.nwrite (ground arith) v.read_word
            (ground arith)),
      omega (arith, more),
    )

-- `p->nread++`
abbrev pub pop : Pipe → Pipe
pop p = record p { nread = u32 (p.nread + 1) }

pub contents-nil : (p : Pipe) → IsPipe p → empty p ≡ true → contents p ≡ []
unfolding contents window
contents-nil p v e =
    let none_left : count p ≡ 0 = ground (arith, empty-iff-count p v) in rw none_left

pub contents-cons :
    (p : Pipe)
    → IsPipe p
    → empty p ≡ false
    → IsPipe (pop p) × (contents p ≡ p.buf (p.nread % pipesize) ∷ contents (pop p))
unfolding contents window
contents-cons p v e =
    let less : count p ≡ suc (count (pop p)) = ground (arith, empty-iff-count p v) in
    (ground arith, rw less)

pub contents-init : (junk : ℕ → ℕ) → IsPipe (init junk) × (contents (init junk) ≡ [])
unfolding init contents window
contents-init junk = (omega arith, refl)

pub contents-pipeclose :
    (p : Pipe) (writable : Bool)
    → IsPipe p
    → IsPipe (pipeclose p writable).0 × (contents (pipeclose p writable).0 ≡ contents p)
unfolding pipeclose contents
contents-pipeclose p true v = (ground arith, refl)
contents-pipeclose p false v = (ground arith, refl)
