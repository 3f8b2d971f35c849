-- ===== src/Strings/Copy.antt =====
-- What `strncpy` and `safestrcpy` leave in memory, for strings that do not overlap.
use os_ass.Base.{
  ℕ, zero, suc, ◌+◌, ◌-◌, ◌≤◌, ◌<◌, ◌≡◌, refl, ◌∙◌, ◌⊎◌, inl, inr, ◌&&◌, ◌||◌, Bool, true, false,
  arith, ltb, ◌==◌, if◌then◌else◌, update, Bool-cases, ℤ, pos_part,
}
use os_ass.Strings.{fill_zero, strncpy_loop, strncpy, safestrcpy_loop, safestrcpy}
use os_ass.Strings.Move.{within}

-- the string at `t` ends within its first `k` bytes
unfoldable pub ends_before : (ℕ → ℕ) → ℕ → ℕ → Bool
ends_before m t zero = false
ends_before m t (suc k) = ends_before m t k || m (t + k) == 0

-- ranges of `n` bytes that do not meet
abbrev pub Disjoint : ℕ → ℕ → ℕ → Type 0
Disjoint s t n = (s + n ≤ t) ⊎ (t + n ≤ s)

fill_zero_lem : (m : ℕ → ℕ) (s n a : ℕ) → fill_zero m s n a ≡ (if within s n a then 0 else m a)
unfolding fill_zero
fill_zero_lem m s zero a = ground arith
fill_zero_lem m s (suc n) a = ground (arith, fill_zero_lem (update m s 0) (s + 1) n a)

-- the first byte splits off
ends_before-suc :
    (m : ℕ → ℕ) (t k : ℕ) → ends_before m t (suc k) ≡ (m t == 0 || ends_before m (t + 1) k)
unfolding ends_before
ends_before-suc m t zero = ground arith
ends_before-suc m t (suc k) = ground (arith, ends_before-suc m t k)

-- a write outside the string's bytes does not change where it ends
ends_before-update :
    (m : ℕ → ℕ) (t k s v : ℕ)
    → (s < t) ⊎ (t + k ≤ s)
    → ends_before (update m s v) t k ≡ ends_before m t k
unfolding ends_before
ends_before-update m t zero s v h = ground arith
ends_before-update m t (suc k) s v h = ground (arith, ends_before-update m t k s v (omega arith))

strncpy_loop_lem :
    (m : ℕ → ℕ) (s t n a : ℕ)
    → Disjoint s t n
    → strncpy_loop m s t n a
      ≡ (if within s n a then if ends_before m t (a - s) then 0 else m (t + (a - s)) else m a)
unfolding strncpy_loop
strncpy_loop_lem m s t zero a h = ground arith
strncpy_loop_lem m s t (suc n) a h = elim (Bool-cases (within (s + 1) n a)) [
  | inl later ↦
      let shift : a - s ≡ suc (a - (s + 1)) = ground arith in
      rw (shift, ends_before-suc)
        (ground (
          arith,
          fill_zero_lem (update m s (m t)) (s + 1) n a,
          ends_before-update m (t + 1) (a - (s + 1)) s (m t),
          strncpy_loop_lem (update m s (m t)) (s + 1) (t + 1) n a (omega arith),
        ))
  | inr other ↦ ground (
    arith,
    fill_zero_lem (update m s (m t)) (s + 1) n a,
    first,
    strncpy_loop_lem (update m s (m t)) (s + 1) (t + 1) n a (omega arith),
  )
]
  where
    first : ends_before m t 0 ≡ false
    first = unfold ends_before in refl

-- `strncpy` fills the `n` bytes at `s` with the string at `t` up to its NUL and with zeros after it,
-- and changes no other byte, if the two ranges do not meet. A negative `n` changes nothing.
pub strncpy_lem :
    (m : ℕ → ℕ) (s t : ℕ) (n : ℤ) (a : ℕ)
    → Disjoint s t (pos_part n)
    → strncpy m s t n a ≡ (
        if within s (pos_part n) a
        then if ends_before m t (a - s) then 0 else m (t + (a - s))
        else m a)
unfolding strncpy
strncpy_lem m s t n a h = strncpy_loop_lem m s t (pos_part n) a h

-- the number of bytes before the NUL, `n` at most
unfoldable pub prefix_length : (ℕ → ℕ) → ℕ → ℕ → ℕ
prefix_length m t zero = 0
prefix_length m t (suc n) = if m t == 0 then 0 else suc (prefix_length m (t + 1) n)

pub prefix_length-le : (m : ℕ → ℕ) (t n : ℕ) → prefix_length m t n ≤ n
unfolding prefix_length
prefix_length-le m t zero = omega arith
prefix_length-le m t (suc n) = ground (arith, prefix_length-le m (t + 1) n)

pub prefix_length-update :
    (m : ℕ → ℕ) (t n s v : ℕ)
    → (s < t) ⊎ (t + n ≤ s)
    → prefix_length (update m s v) t n ≡ prefix_length m t n
unfolding prefix_length
prefix_length-update m t zero s v h = ground arith
prefix_length-update m t (suc n) s v h =
    ground (arith, prefix_length-update m (t + 1) n s v (omega arith))

-- the string ends at once
safestrcpy_loop-nul :
    (m : ℕ → ℕ) (s t n : ℕ)
    → (m t == 0) ≡ true
    → (prefix_length m t (suc n) ≡ 0)
      × (safestrcpy_loop m s t (suc n) ≡ update (update m s (m t)) (s + 1) 0)
unfolding safestrcpy_loop prefix_length
safestrcpy_loop-nul m s t n e = (rw e, rw (e, safestrcpy_loop))

-- the string goes on
safestrcpy_loop-more :
    (m : ℕ → ℕ) (s t n : ℕ)
    → (m t == 0) ≡ false
    → (prefix_length m t (suc n) ≡ suc (prefix_length m (t + 1) n))
      × (safestrcpy_loop m s t (suc n) ≡ safestrcpy_loop (update m s (m t)) (s + 1) (t + 1) n)
unfolding safestrcpy_loop prefix_length
safestrcpy_loop-more m s t n e = (rw e, rw (e, safestrcpy_loop))

-- what `safestrcpy` leaves at `a` when `k` bytes come before the NUL
abbrev terminated : (ℕ → ℕ) → ℕ → ℕ → ℕ → ℕ → ℕ → ℕ
terminated m s t n k a =
    if within s k a
    then m (t + (a - s))
    else if a == s + k || (a == s + k + 1 && ltb k n)
    then 0
    else m a

terminated-suc :
    (m : ℕ → ℕ) (s t n k a : ℕ)
    → Disjoint s t (suc (suc n))
    → k ≤ n
    → terminated (update m s (m t)) (s + 1) (t + 1) n k a ≡ terminated m s t (suc n) (suc k) a
terminated-suc m s t n k a d h = ground arith

safestrcpy_loop_lem :
    (m : ℕ → ℕ) (s t n a : ℕ)
    → Disjoint s t (suc n)
    → safestrcpy_loop m s t n a ≡ terminated m s t n (prefix_length m t n) a
safestrcpy_loop_lem m s t zero a h = unfold safestrcpy_loop prefix_length in ground arith
safestrcpy_loop_lem m s t (suc n) a h = elim (Bool-cases (m t == 0)) [
  | inl e ↦ let both = safestrcpy_loop-nul m s t n e in rw (both.0, both.1) (ground arith)
  | inr e ↦
      let both = safestrcpy_loop-more m s t n e in
      rw (both.0, both.1)
        (safestrcpy_loop_lem (update m s (m t)) (s + 1) (t + 1) n a (omega arith)
          ∙ rw (prefix_length-update m (t + 1) n s (m t) (omega arith)) (
              terminated-suc m s t n (prefix_length m (t + 1) n) a h
                (prefix_length-le m (t + 1) n)))
]

-- `safestrcpy` with `n > 0` leaves a NUL-terminated string within the `n` bytes at `s`: the bytes of
-- `t` before its NUL, `n - 1` of them at most, then a NUL; it changes no byte outside `s[0..n)`.
safestrcpy_lem :
    (m : ℕ → ℕ) (s t : ℕ) (n : ℤ)
    → 0 < pos_part n
    → Disjoint s t (pos_part n)
    → let k = prefix_length m t (pos_part n - 1) in
      (k < pos_part n)
      × ((j : ℕ) → j < k → safestrcpy m s t n (s + j) ≡ m (t + j))
      × (safestrcpy m s t n (s + k) ≡ 0)
      × ((a : ℕ) → within s (pos_part n) a ≡ false → safestrcpy m s t n a ≡ m a)
unfolding safestrcpy
safestrcpy_lem m s t n h d =
    let bound = prefix_length-le m t (pos_part n - 1) in
    let at = λ (a : ℕ). safestrcpy_loop_lem m s t (pos_part n - 1) a (omega arith) in
    (
      omega (arith, bound),
      λ j lt. ground (arith, at (s + j)),
      ground (arith, at (s + prefix_length m t (pos_part n - 1))),
      λ a out. ground (arith, bound, at a),
    )
