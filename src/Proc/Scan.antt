-- ===== src/Proc/Scan.antt =====
-- The first slot that passes a test.
use os_ass.Base.{
  ℕ, zero, suc, ◌+◌, ◌≤◌, ◌<◌, ◌≡◌, arith, Bool, true, false, none, some, Bool-cases, inl, inr,
  ℕ_discrete,
}
use os_ass.Proc.Defs.{Proc, find}

pub find-some :
    (test : Proc → Bool) (procs : ℕ → Proc) (i k : ℕ) {r : ℕ}
    → find test procs i k ≡ some r
    → (i ≤ r)
      × (r < i + k)
      × (test (procs r) ≡ true)
      × ((j : ℕ) → i ≤ j → j < r → test (procs j) ≡ false)
unfolding find
find-some test procs i zero e = cc
find-some test procs i (suc k) {r} e = elim (Bool-cases (test (procs i))) [
  | inl hit ↦
      let here : i ≡ r = ground arith in
      (omega arith, omega arith, rw here at hit, λ j lo hi. absurd (omega arith))
  | inr miss ↦
      let later : find test procs (i + 1) k ≡ some r = ground arith in
      let (lo, hi, hit, before) = find-some test procs (i + 1) k {r = r} later in
      (
        omega arith,
        omega arith,
        hit,
        λ j le lt. elim (ℕ_discrete i j) [
          | yes same ↦ rw same at miss
          | no ne ↦ before j (omega arith) lt
        ],
      )
]

pub find-none :
    (test : Proc → Bool) (procs : ℕ → Proc) (i k : ℕ)
    → find test procs i k ≡ none
    → (j : ℕ) → i ≤ j
    → j < i + k
    → test (procs j) ≡ false
unfolding find
find-none test procs i zero e j lo hi = absurd (omega arith)
find-none test procs i (suc k) e j lo hi = elim (Bool-cases (test (procs i))) [
  | inl hit ↦ ground arith
  | inr miss ↦ elim (ℕ_discrete i j) [
    | yes same ↦ rw same at miss
    | no ne ↦ find-none test procs (i + 1) k (ground arith) j (omega arith) (omega arith)
  ]
]
