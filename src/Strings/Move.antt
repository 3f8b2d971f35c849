-- ===== src/Strings/Move.antt =====
-- What `memset` and `memmove` leave in memory.
use os_ass.Base.{
  ℕ, zero, suc, ◌+◌, ◌-◌, ◌*◌, ◌/◌, ◌%◌, ◌≤◌, ◌<◌, ◌≡◌, ◌∙◌, ◌&&◌, ◌⊎◌, inl, inr, Bool, arith, leb,
  ltb, ◌==◌, if◌then◌else◌, update, Bool-cases,
}
use os_ass.Strings.{stosb, stosl, store_word, splat, memset, copy_down, copy_up, memmove}

-- the address `a` lies in `d[0..n)`
abbrev pub within : ℕ → ℕ → ℕ → Bool
within d n a = leb d a && ltb a (d + n)

pub stosb_lem :
    (m : ℕ → ℕ) (d c n a : ℕ) → stosb m d c n a ≡ (if within d n a then c % 256 else m a)
unfolding stosb
stosb_lem m d c zero a = ground arith
stosb_lem m d c (suc n) a = ground (arith, stosb_lem (update m d (c % 256)) (d + 1) c n a)

pub stosl_lem :
    (m : ℕ → ℕ) (d c n a : ℕ)
    → c < 256
    → stosl m d (splat c) n a ≡ (if within d (4 * n) a then c else m a)
unfolding stosl
stosl_lem m d c zero a h = ground arith
stosl_lem m d c (suc n) a h = ground (arith, stosl_lem (store_word m d (splat c)) (d + 4) c n a)

-- `memset` sets each of the `n` bytes to the low byte of `c`, whichever of its two stores it takes,
-- and changes no other byte.
pub memset_lem :
    (m : ℕ → ℕ) (dst c n a : ℕ) → memset m dst c n a ≡ (if within dst n a then c % 256 else m a)
unfolding memset
memset_lem m dst c n a = elim (Bool-cases (dst % 4 == 0 && n % 4 == 0)) [
  | inl e ↦ rw e (stosl_lem m dst (c % 256) (n / 4) a (omega arith) ∙ ground arith)
  | inr e ↦ rw e (stosb_lem m dst c n a)
]

-- Ascending copies are right unless the source starts below the destination and reaches into it.
pub copy_up_lem :
    (m : ℕ → ℕ) (d s n a : ℕ)
    → (d ≤ s) ⊎ (s + n ≤ d)
    → copy_up m d s n a ≡ (if within d n a then m (s + (a - d)) else m a)
unfolding copy_up
copy_up_lem m d s zero a h = ground arith
copy_up_lem m d s (suc n) a h =
    ground (arith, copy_up_lem (update m d (m s)) (d + 1) (s + 1) n a (omega arith))

-- Descending copies, with both pointers at the end, are right unless the source starts above.
pub copy_down_lem :
    (m : ℕ → ℕ) (d s n a : ℕ)
    → s ≤ d
    → copy_down m (d + n) (s + n) n a ≡ (if within d n a then m (s + (a - d)) else m a)
unfolding copy_down
copy_down_lem m d s zero a h = ground arith
copy_down_lem m d s (suc n) a h =
    let last_d : d + suc n - 1 ≡ d + n = omega arith in
    let last_s : s + suc n - 1 ≡ s + n = omega arith in
    rw (last_d, last_s) (ground (arith, copy_down_lem (update m (d + n) (m (s + n))) d s n a h))

-- `memmove` copies `n` bytes as they were before the call, however the two ranges overlap, and
-- changes no byte outside the destination.
pub memmove_lem :
    (m : ℕ → ℕ) (d s n a : ℕ) → memmove m d s n a ≡ (if within d n a then m (s + (a - d)) else m a)
unfolding memmove
memmove_lem m d s n a = elim (Bool-cases (ltb s d && ltb d (s + n))) [
  | inl e ↦ rw e (copy_down_lem m d s n a (ground arith))
  | inr e ↦ rw e (copy_up_lem m d s n a (ground arith))
]
