-- ===== src/Strings/Compare.antt =====
-- What `memcmp`, `strncmp` and `strlen` return.
use os_ass.Base.{
  ℕ, zero, suc, ◌+◌, ◌≤◌, ◌<◌, ◌≡◌, ◌≢◌, ◌↔◌, inl, inr, refl, some, arith, ◌==◌, Bool-cases, pos,
  sub_ℕ,
}
use os_ass.Strings.{memcmp, strncmp, strlen_loop, strlen}

abbrev pub SameBytes : (ℕ → ℕ) → ℕ → ℕ → ℕ → Type 0
SameBytes m s t n = (j : ℕ) → j < n → m (s + j) ≡ m (t + j)

-- The strings at `p` and `q`, cut at `n` bytes, are the same: they agree up to a common NUL.
pub data SameText (m : ℕ → ℕ) : ℕ → ℕ → ℕ → Type 0 where
  cut : (p q : ℕ) → SameText m p q 0
  nul : (p q n : ℕ) → m p ≡ 0 → m q ≡ 0 → SameText m p q (suc n)
  next : (p q n : ℕ) → m p ≢ 0 → m p ≡ m q → SameText m (p + 1) (q + 1) n → SameText m p q (suc n)

sub_ℕ-eq-zero : (a b : ℕ) → sub_ℕ a b ≡ pos 0 → a ≡ b
sub_ℕ-eq-zero a b h = ground arith

memcmp_sound : (m : ℕ → ℕ) (s t n : ℕ) → memcmp m s t n ≡ pos 0 → SameBytes m s t n
unfolding memcmp
memcmp_sound m s t zero h j lt = absurd (omega arith)
memcmp_sound m s t (suc n) h zero lt = ground (arith, sub_ℕ-eq-zero (m s) (m t))
memcmp_sound m s t (suc n) h (suc j) lt = ground (
  arith,
  sub_ℕ-eq-zero (m s) (m t),
  λ (e : memcmp m (s + 1) (t + 1) n ≡ pos 0). memcmp_sound m (s + 1) (t + 1) n e j (omega arith),
)

memcmp_complete : (m : ℕ → ℕ) (s t n : ℕ) → SameBytes m s t n → memcmp m s t n ≡ pos 0
unfolding memcmp
memcmp_complete m s t zero same = refl
memcmp_complete m s t (suc n) same =
    ground
      (arith, same 0, memcmp_complete m (s + 1) (t + 1) n (λ j lt. ground (arith, same (suc j))))

-- `memcmp` returns 0 exactly when the two ranges hold the same bytes.
pub memcmp_lem : (m : ℕ → ℕ) (s t n : ℕ) → (memcmp m s t n ≡ pos 0) ↔ SameBytes m s t n
memcmp_lem m s t n = (memcmp_sound m s t n, memcmp_complete m s t n)

strncmp_sound : (m : ℕ → ℕ) (p q n : ℕ) → strncmp m p q n ≡ pos 0 → SameText m p q n
unfolding strncmp
strncmp_sound m p q zero h = cut p q
strncmp_sound m p q (suc n) h = elim (Bool-cases (m p == 0)) [
  | inl e ↦ nul p q n (ground arith) (ground (arith, sub_ℕ-eq-zero (m p) (m q)))
  | inr e ↦ elim (Bool-cases (m p == m q)) [
    | inl e' ↦
        next p q n (ground arith) (ground arith) (strncmp_sound m (p + 1) (q + 1) n (ground arith))
    | inr e' ↦ absurd (ground (arith, sub_ℕ-eq-zero (m p) (m q)))
  ]
]

strncmp_complete : (m : ℕ → ℕ) (p q n : ℕ) → SameText m p q n → strncmp m p q n ≡ pos 0
unfolding strncmp
strncmp_complete m _ _ _ (cut p q) = refl
strncmp_complete m _ _ _ (nul p q n e e') = ground arith
strncmp_complete m _ _ _ (next p q n e e' s) =
    ground (arith, strncmp_complete m (p + 1) (q + 1) n s)

-- `strncmp` returns 0 exactly when the two strings are the same up to their NUL or to `n` bytes.
strncmp_lem : (m : ℕ → ℕ) (p q n : ℕ) → (strncmp m p q n ≡ pos 0) ↔ SameText m p q n
strncmp_lem m p q n = (strncmp_sound m p q n, strncmp_complete m p q n)

strlen_loop_lem :
    (fuel : ℕ) (m : ℕ → ℕ) (s k n : ℕ)
    → n ≤ k
    → k < n + fuel
    → ((j : ℕ) → j < k → m (s + j) ≢ 0)
    → m (s + k) ≡ 0
    → strlen_loop fuel m s n ≡ some k
unfolding strlen_loop
strlen_loop_lem zero m s k n le lt text end = absurd (omega arith)
strlen_loop_lem (suc fuel) m s k n le lt text end =
    ground (arith, text n, strlen_loop_lem fuel m s k (n + 1))

-- `strlen` returns the place of the first NUL, and more fuel than that is enough.
pub strlen_lem :
    (fuel : ℕ) (m : ℕ → ℕ) (s k : ℕ)
    → k < fuel
    → ((j : ℕ) → j < k → m (s + j) ≢ 0)
    → m (s + k) ≡ 0
    → strlen fuel m s ≡ some k
unfolding strlen
strlen_lem fuel m s k lt text end =
    strlen_loop_lem fuel m s k 0 (omega arith) (omega arith) text end
