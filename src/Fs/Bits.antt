-- ===== src/Fs/Bits.antt =====
-- The bits of the bytes of the bitmap.
use os_ass.Base.{
  ℕ, zero, suc, ◌-◌, ◌/◌, ◌%◌, ◌^◌, ◌<◌, ◌≡◌, refl, arith, Bool, true, false, ◌&&◌, ltb, ◌==◌,
  if◌then◌else◌, update, ltb→lt, ℕ_discrete, ==_refl, ap, ◌∙◌, ==_ne, sym, subst,
}
use os_ass.Fs.{Block, bit_clear, set_bit, clear_bit}
use Prim.Native.Nat.{bit_and, bit_or}

-- the test passes at every number under the bound
passes : (ℕ → Bool) → ℕ → Bool
passes test zero = true
passes test (suc top) = if test top then passes test top else false

passes-at :
    (test : ℕ → Bool) (bound : ℕ) → passes test bound ≡ true → (k : ℕ) → k < bound → test k ≡ true
unfolding passes
passes-at test zero all k below = absurd (omega arith)
passes-at test (suc top) all k below = elim (ℕ_discrete top k) [
  | yes last ↦ subst (λ n. test n ≡ true) last (ground arith)
  | no earlier ↦ passes-at test top (ground arith) k (omega arith)
]

abbrev same : Bool → Bool → Bool
same true b = b
same false true = false
same false false = true

-- what the byte operations do to the bits of `x`
abbrev set_right : ℕ → ℕ → ℕ → Bool
set_right k j x =
    ltb (bit_or x (2 ^ k)) 256
    && same (bit_and (bit_or x (2 ^ k)) (2 ^ j) == 0)
        (if k == j then false else bit_and x (2 ^ j) == 0)

abbrev clear_right : ℕ → ℕ → ℕ → Bool
clear_right k j x =
    ltb (bit_and x (255 - 2 ^ k)) 256
    && same (bit_and (bit_and x (255 - 2 ^ k)) (2 ^ j) == 0)
        (if k == j then true else bit_and x (2 ^ j) == 0)

set_table : passes (λ k. passes (λ j. passes (set_right k j) 256) 8) 8 ≡ true
unfolding passes
set_table = refl

clear_table : passes (λ k. passes (λ j. passes (clear_right k j) 256) 8) 8 ≡ true
unfolding passes
clear_table = refl

same-eq : (a b : Bool) → same a b ≡ true → a ≡ b
same-eq true b h = ground arith
same-eq false true h = ground arith
same-eq false false h = ground arith

and_inv : (a b : Bool) → (a && b) ≡ true → (a ≡ true) × (b ≡ true)
and_inv a b h = ground arith

checked :
    (test : ℕ → ℕ → ℕ → Bool)
    → passes (λ k. passes (λ j. passes (test k j) 256) 8) 8 ≡ true
    → (k j x : ℕ) → k < 8
    → j < 8
    → x < 256
    → test k j x ≡ true
checked test table k j x hk hj hx =
    let places = passes-at (λ k. passes (λ j. passes (test k j) 256) 8) 8 table k hk in
    passes-at (test k j) 256 (passes-at (λ j. passes (test k j) 256) 8 places j hj) x hx

set_byte :
    (k j x : ℕ)
    → k < 8
    → j < 8
    → x < 256
    → (bit_or x (2 ^ k) < 256)
      × ((bit_and (bit_or x (2 ^ k)) (2 ^ j) == 0)
          ≡ (if k == j then false else bit_and x (2 ^ j) == 0))
set_byte k j x hk hj hx =
    let (small, bits) = and_inv _ _ (checked set_right set_table k j x hk hj hx) in
    (ltb→lt _ _ small, same-eq _ _ bits)

clear_byte :
    (k j x : ℕ)
    → k < 8
    → j < 8
    → x < 256
    → (bit_and x (255 - 2 ^ k) < 256)
      × ((bit_and (bit_and x (255 - 2 ^ k)) (2 ^ j) == 0)
          ≡ (if k == j then true else bit_and x (2 ^ j) == 0))
clear_byte k j x hk hj hx =
    let (small, bits) = and_inv _ _ (checked clear_right clear_table k j x hk hj hx) in
    (ltb→lt _ _ small, same-eq _ _ bits)

abbrev pub IsBytes : Block → Type 0
IsBytes bytes = (i : ℕ) → bytes i < 256

-- two bits of one byte are the same bit just when they have the same place in it
same_place : (bi j : ℕ) → bi / 8 ≡ j / 8 → (bi % 8 == j % 8) ≡ (bi == j)
same_place bi j e = elim (ℕ_discrete bi j) [
  | yes q ↦ rw q (==_refl (j % 8) ∙ sym (==_refl j))
  | no n ↦ ==_ne (bi % 8) (j % 8) (omega arith) ∙ sym (==_ne bi j n)
]

-- an update of the byte of one bit, seen at another bit
update_byte :
    (bytes : Block) (bi j : ℕ) (x : ℕ → ℕ) (b : Bool)
    → ((bit_and (x (bytes (j / 8))) (2 ^ (j % 8)) == 0)
        ≡ (if bi % 8 == j % 8 then b else bit_clear bytes j))
    → bit_clear (update bytes (bi / 8) (x (bytes (bi / 8)))) j
      ≡ (if bi == j then b else bit_clear bytes j)
update_byte bytes bi j x b bits = elim (ℕ_discrete (bi / 8) (j / 8)) [
  | yes e ↦
      ap (λ y. bit_and y (2 ^ (j % 8)) == 0) (rw (e, ==_refl (j / 8)))
      ∙ bits
      ∙ ap (λ t. if t then b else bit_clear bytes j) (same_place bi j e)
  | no n ↦ rw (==_ne (bi / 8) (j / 8) n, ==_ne bi j (λ q. n (ap (λ k. k / 8) q)))
]

pub bit_clear-set_bit :
    (bytes : Block) (bi j : ℕ)
    → IsBytes bytes
    → bit_clear (set_bit bytes bi) j ≡ (if bi == j then false else bit_clear bytes j)
bit_clear-set_bit bytes bi j h =
    update_byte bytes bi j (λ x. bit_or x (2 ^ (bi % 8))) false
      (set_byte (bi % 8) (j % 8) (bytes (j / 8)) (omega arith) (omega arith) (h (j / 8))).1

pub bit_clear-clear_bit :
    (bytes : Block) (bi j : ℕ)
    → IsBytes bytes
    → bit_clear (clear_bit bytes bi) j ≡ (if bi == j then true else bit_clear bytes j)
bit_clear-clear_bit bytes bi j h =
    update_byte bytes bi j (λ x. bit_and x (255 - 2 ^ (bi % 8))) true
      (clear_byte (bi % 8) (j % 8) (bytes (j / 8)) (omega arith) (omega arith) (h (j / 8))).1

update-IsBytes : (bytes : Block) (i x : ℕ) → IsBytes bytes → x < 256 → IsBytes (update bytes i x)
update-IsBytes bytes i x h small j = ground (arith, h j)

pub set_bit-IsBytes : (bytes : Block) (bi : ℕ) → IsBytes bytes → IsBytes (set_bit bytes bi)
set_bit-IsBytes bytes bi h =
    update-IsBytes bytes (bi / 8) _ h
      (set_byte (bi % 8) 0 (bytes (bi / 8)) (omega arith) (omega arith) (h (bi / 8))).0

pub clear_bit-IsBytes : (bytes : Block) (bi : ℕ) → IsBytes bytes → IsBytes (clear_bit bytes bi)
clear_bit-IsBytes bytes bi h =
    update-IsBytes bytes (bi / 8) _ h
      (clear_byte (bi % 8) 0 (bytes (bi / 8)) (omega arith) (omega arith) (h (bi / 8))).0
