-- ===== src/Vm/Bits.antt =====
-- Flags in the low bits of an entry: `|` of a page address and flags is their sum.
use os_ass.Base.{ℕ, zero, suc, ◌+◌, ◌*◌, ◌/◌, ◌%◌, ◌≤◌, ◌<◌, ◌≡◌, refl, arith, subst}
use Prim.Native.Nat.{bit_or, bit_or-bitwise, digits, max}

-- the digits of `a | b`, on a count of digits to go
abbrev or_on : ℕ → ℕ → ℕ → ℕ
or_on count a b = digits (λ rest. rest) max count a b

-- every count that covers the first number gives the same
or_on_any : (count other : ℕ) (a b : ℕ) → a ≤ count → a ≤ other → or_on count a b ≡ or_on other a b
or_on_any (suc count) (suc other) (suc a) b le le' =
    let half = or_on_any count other (suc a / 2) (b / 2) (omega arith) (omega arith) in
    omega (arith, half)
or_on_any (suc count) (suc other) zero b le le' = refl
or_on_any (suc count) zero zero b le le' = refl
or_on_any (suc count) zero (suc a) b le le' = absurd (omega arith)
or_on_any zero (suc other) zero b le le' = refl
or_on_any zero zero zero b le le' = refl
or_on_any zero other (suc a) b le le' = absurd (omega arith)

zero-bit_or : (b : ℕ) → bit_or 0 b ≡ b
zero-bit_or b = bit_or-bitwise 0 b

pub bit_or_step : (a b : ℕ) → bit_or a b ≡ bit_or (a / 2) (b / 2) * 2 + max (a % 2) (b % 2)
bit_or_step zero b = omega (arith, zero-bit_or b, zero-bit_or (b / 2))
bit_or_step (suc a) b =
    let half = or_on_any a (suc a / 2) (suc a / 2) (b / 2) (omega arith) (omega arith) in
    omega (arith, half, bit_or-bitwise (suc a) b, bit_or-bitwise (suc a / 2) (b / 2))

bit_or-zero_on : (count a : ℕ) → a ≤ count → bit_or a 0 ≡ a
bit_or-zero_on count zero le = zero-bit_or 0
bit_or-zero_on zero (suc a) le = absurd (omega arith)
bit_or-zero_on (suc count) (suc a) le =
    omega (arith, bit_or_step (suc a) 0, bit_or-zero_on count (suc a / 2) (omega arith))

bit_or-zero : (a : ℕ) → bit_or a 0 ≡ a
bit_or-zero a = bit_or-zero_on a a (omega arith)

-- three bits of flags
pub bit_or-flags : (a b : ℕ) → a % 8 ≡ 0 → b < 8 → bit_or a b ≡ a + b
bit_or-flags a b low few =
    let none_left : bit_or (a / 2 / 2 / 2) (b / 2 / 2 / 2) ≡ a / 2 / 2 / 2 =
      subst (λ n. bit_or (a / 2 / 2 / 2) n ≡ a / 2 / 2 / 2) (omega arith)
        (bit_or-zero (a / 2 / 2 / 2)) in
    omega (
      arith,
      none_left,
      bit_or_step a b,
      bit_or_step (a / 2) (b / 2),
      bit_or_step (a / 2 / 2) (b / 2 / 2),
    )

pub bit_or-present : (a : ℕ) → a % 2 ≡ 0 → bit_or a 1 ≡ a + 1
bit_or-present a even = omega (arith, bit_or_step a 1, bit_or-zero (a / 2))
