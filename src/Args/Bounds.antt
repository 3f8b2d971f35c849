-- ===== src/Args/Bounds.antt =====
-- What the checks of syscall.c leave: addresses inside the process. A process is smaller than 2^31
-- bytes, since its memory ends below KERNBASE.
use os_ass.Base.{
  word, ℕ_discrete, ℕ, zero, suc, ◌+◌, ◌-◌, ◌≤◌, ◌<◌, ◌≡◌, ◌≢◌, arith, none, some, leb, kernbase,
  Bool-cases, Option-cases, inl, inr, ◌^◌,
}
use os_ass.Args.{User, fetchint, find_nul, fetchstr, argint, argptr}

-- In a process of at most KERNBASE bytes, `fetchint` gives a number exactly when its four bytes
-- lie in the process, and it is the number with these bytes, the lowest first.
pub fetchint_lem :
    (p : User) (addr : ℕ)
    → p.sz ≤ kernbase
    → (addr + 4 ≤ p.sz → fetchint p addr ≡ some (word p.mem addr))
      × (p.sz < addr + 4 → fetchint p addr ≡ none)
unfolding fetchint
fetchint_lem p addr small = ground arith

-- the string at an address: no byte before its end is 0
abbrev pub IsString : User → ℕ → ℕ → Type 0
IsString p addr n =
    (addr + n < p.sz) × (p.mem (addr + n) ≡ 0) × ((j : ℕ) → j < n → p.mem (addr + j) ≢ 0)

find_nul-some :
    (mem : ℕ → ℕ) (s k : ℕ) {r : ℕ}
    → find_nul mem s k ≡ some r
    → (s ≤ r) × (r < s + k) × (mem r ≡ 0) × ((j : ℕ) → s ≤ j → j < r → mem j ≢ 0)
unfolding find_nul
find_nul-some mem s zero e = cc
find_nul-some mem s (suc k) {r} e = elim (ℕ_discrete (mem s) 0) [
  | yes hit ↦
      let here : s ≡ r = ground arith in
      (omega arith, omega arith, rw here at hit, λ j lo hi. absurd (omega arith))
  | no miss ↦
      let (lo, hi, zero_at, before) = find_nul-some mem (s + 1) k {r = r} (ground arith) in
      (
        omega arith,
        omega arith,
        zero_at,
        λ j l h. elim (ℕ_discrete s j) [
          | yes q ↦ rw q at miss
          | no away ↦ before j (omega arith) h
        ],
      )
]

find_nul-none :
    (mem : ℕ → ℕ) (s k : ℕ) → find_nul mem s k ≡ none → (j : ℕ) → s ≤ j → j < s + k → mem j ≢ 0
unfolding find_nul
find_nul-none mem s zero e j lo hi = absurd (omega arith)
find_nul-none mem s (suc k) e j lo hi = elim (ℕ_discrete s j) [
  | yes q ↦ ground arith
  | no away ↦ find_nul-none mem (s + 1) k (ground arith) j (omega arith) (omega arith)
]

-- `fetchstr` gives the address it was asked for and a length only where a string of that length ends
-- inside the process, and fails only where no byte from the address to the end of the process is 0.
fetchstr_lem :
    (p : User) (addr : ℕ)
    → ((q n : ℕ) → fetchstr p addr ≡ some (q, n) → (q ≡ addr) × IsString p addr n)
      × (fetchstr p addr ≡ none → (j : ℕ) → addr ≤ j → j < p.sz → p.mem j ≢ 0)
unfolding fetchstr
fetchstr_lem p addr = elim (Bool-cases (leb p.sz addr)) [
  | inl out ↦ (λ q n e. ground arith, λ e j lo hi. ground arith)
  | inr within ↦ elim (Option-cases (find_nul p.mem addr (p.sz - addr))) [
    | inl f ↦ (
      λ q n e. ground arith,
      λ e j lo hi. find_nul-none p.mem addr (p.sz - addr) f j lo (ground arith),
    )
    | inr (s, f) ↦
        let (lo, hi, zero_at, before) = find_nul-some p.mem addr (p.sz - addr) f in
        (
          λ q n e.
              let found : (q ≡ addr) × (s ≡ addr + n) = ground arith in
              let (start, end) = found in
              (
                start,
                (
                  omega arith,
                  rw end at zero_at,
                  λ j lt. before (addr + j) (omega arith) (omega arith),
                ),
              ),
          λ e j. ground arith,
        )
  ]
]

-- `argptr` for a size that is not negative, in a process of at most KERNBASE bytes, gives a pointer
-- exactly when that is the argument on the stack, it lies in the process, and so does the whole block.
pub argptr_lem :
    (p : User) (n size i : ℕ)
    → p.sz ≤ kernbase
    → size < 2 ^ 31
    → (argptr p n size ≡ some i → (argint p n ≡ some i) × (i < p.sz) × (i + size ≤ p.sz))
      × (argint p n ≡ some i → i < p.sz → i + size ≤ p.sz → argptr p n size ≡ some i)
unfolding argptr
argptr_lem p n size i small nonneg = elim (Option-cases (argint p n)) [
  | inl q ↦ (λ e. ground arith, λ e h l. ground arith)
  | inr (a, q) ↦ (λ e. ground arith, λ e h l. ground arith)
]

-- In a process of at most KERNBASE bytes, `argptr` for a negative size -k gives every argument that lies
-- in the process and is k or more: the addition of the size wraps.
argptr-negative :
    (p : User) (n k i : ℕ)
    → p.sz ≤ kernbase
    → 0 < k
    → k ≤ i
    → i < p.sz
    → argint p n ≡ some i
    → argptr p n (2 ^ 32 - k) ≡ some i
unfolding argptr
argptr-negative p n k i small positive le within e = ground arith
