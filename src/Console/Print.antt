-- ===== src/Console/Print.antt =====
-- console.c: `printint`, and the numerals that it writes. `xx` is its word of 32 bits.
use os_ass.Base.{
  ℕ, zero, suc, ◌+◌, ◌-◌, ◌*◌, ◌/◌, ◌%◌, ◌^◌, ◌≤◌, ◌<◌, ◌≡◌, refl, arith, ◌==◌, List, [], ◌∷◌, ◌++◌,
  length, u32, false, true, Bool, if◌then◌else◌, ltb, leb, reverse, ◌⊎◌, inl, inr, ◌&&◌, subst,
  length-append, reverse_aux, ℕ_discrete, dec_lt, ◌≢◌,
}

-- `digits[d]`
abbrev pub digit : ℕ → ℕ
digit d = if ltb d 10 then 48 + d else 87 + d

-- The loop that fills `buf`, the last digit first, on as many rounds as `buf` has room for.
unfoldable pub print_digits : ℕ → ℕ → ℕ → List ℕ
print_digits zero x base = []
print_digits (suc fuel) x base =
    let rest = print_digits fuel (x / base) base in
    digit (x % base) ∷ (if x / base == 0 then [] else rest)

abbrev pub is_negative : ℕ → Bool → Bool
is_negative xx sign = sign && leb (2 ^ 31) xx

-- the characters that go to `consputc`
unfoldable pub printint : ℕ → ℕ → Bool → List ℕ
printint xx base sign =
    let negative = is_negative xx sign in
    let x = if negative then u32 (2 ^ 32 - xx) else xx in
    let buf = print_digits 16 x base in reverse (if negative then buf ++ 45 ∷ [] else buf)

-- `c` is the character for the digit `d`: '0' to '9', 'a' to 'f'
abbrev pub IsChar : ℕ → ℕ → Type 0
IsChar d c = ((d < 10) × (c ≡ b'0' + d)) ⊎ ((10 ≤ d) × (d < 16) × (c ≡ b'a' + (d - 10)))

-- The characters are those of the number in a base, the last digit first and without a leading zero.
pub data Numeral (base : ℕ) : ℕ → List ℕ → Type 0 where
  last : {d c : ℕ} → d < base → IsChar d c → Numeral base d (c ∷ [])
  more :
      {d c x n : ℕ} {cs : List ℕ}
      → d < base
      → IsChar d c
      → 0 < x
      → Numeral base x cs
      → n ≡ d + base * x
      → Numeral base n (c ∷ cs)

-- the two bases that `cprintf` asks for
abbrev pub IsBase : ℕ → Type 0
IsBase base = (base ≡ 10) ⊎ (base ≡ 16)

digit-IsChar : (d : ℕ) → d < 16 → IsChar d (digit d)
digit-IsChar d lt = elim (dec_lt d 10) [
  | yes small ↦ inl (small, ground arith)
  | no big ↦ inr (omega arith, lt, ground arith)
]

-- a number by its last digit and the others
divided :
    (base x : ℕ)
    → IsBase base
    → (x ≡ x % base + base * (x / base))
      × (x % base < base)
      × (x % base < 16)
      × (x / base ≡ 0 → x % base ≡ x)
      × ((k : ℕ) → x < 10 ^ suc k → x / base < 10 ^ k)
divided base x (inl e) =
    rw e (omega arith, omega arith, omega arith, λ q. omega arith, λ k lt. omega arith)
divided base x (inr e) =
    rw e (omega arith, omega arith, omega arith, λ q. omega arith, λ k lt. omega arith)

-- a number below 10 ^ k that is not 0 has a place
positive_power : (k x : ℕ) → x < 10 ^ k → x ≢ 0 → 0 < k
positive_power zero x lt ne = omega arith
positive_power (suc k) x lt ne = omega arith

print_digits-Numeral :
    (k fuel base x : ℕ)
    → IsBase base
    → x < 10 ^ k
    → 0 < k
    → k ≤ fuel
    → Numeral base x (print_digits fuel x base) × (length (print_digits fuel x base) ≤ k)
unfolding print_digits
print_digits-Numeral zero fuel base x b lt some le = absurd (omega arith)
print_digits-Numeral (suc k) zero base x b lt some le = absurd (omega arith)
print_digits-Numeral (suc k) (suc fuel) base x b lt some le =
    let (whole, small, hex, single, shorter) = divided base x b in
    let char = digit-IsChar (x % base) hex in
    elim (ℕ_discrete (x / base) 0) [
      | yes e ↦
          let alone : x % base ≡ x = single e in
          let ends : (x / base == 0) ≡ true = ground arith in
          rw ends (
            subst (λ n. Numeral base n (digit (x % base) ∷ [])) alone (last small char),
            omega arith,
          )
      | no ne ↦
          let goes_on : (x / base == 0) ≡ false = ground arith in
          let (rest, few) =
            print_digits-Numeral k fuel base (x / base) b (shorter k lt)
              (positive_power k (x / base) (shorter k lt) ne) (omega arith) in
          rw goes_on (more small char (omega (arith, ne)) rest whole, omega (arith, few))
    ]

-- What `printint` writes: the sign, and the characters of a number.
pub record Prints (base : ℕ) (sign : List ℕ) (n : ℕ) (text : List ℕ) : Type 0 where
  pub characters : List ℕ
  pub form : text ≡ sign ++ reverse characters
  pub numeral : Numeral base n characters
  pub fits : length text ≤ 16

reverse_aux-last :
    (xs : List ℕ) (c : ℕ) (acc : List ℕ) → reverse_aux (xs ++ c ∷ []) acc ≡ c ∷ reverse_aux xs acc
reverse_aux-last [] c acc = refl
reverse_aux-last (x ∷ xs) c acc = reverse_aux-last xs c (x ∷ acc)

length-reverse_aux : (xs acc : List ℕ) → length (reverse_aux xs acc) ≡ length xs + length acc
length-reverse_aux [] acc = omega arith
length-reverse_aux (x ∷ xs) acc = omega (arith, length-reverse_aux xs (x ∷ acc))

-- `printint` of a 32-bit word in base 10 or 16. With `sign` set and the highest bit on it writes a minus sign and the
-- number that is the distance to 2 ^ 32; in every other case the number itself. A number is written in the base, with
-- the digits 0 to 9 and a to f, the highest first and without a leading zero. All is within the 16 characters of `buf`.
pub printint_lem :
    (xx base : ℕ) (sign : Bool)
    → xx < 2 ^ 32
    → (base ≡ 10) ⊎ (base ≡ 16)
    → (sign ≡ true → 2 ^ 31 ≤ xx → Prints base (b'-' ∷ []) (2 ^ 32 - xx) (printint xx base sign))
      × ((sign ≡ false) ⊎ (xx < 2 ^ 31) → Prints base [] xx (printint xx base sign))
unfolding printint
printint_lem xx base sign word b = (
  λ on high.
      let negative : is_negative xx sign ≡ true = ground arith in
      let word32 : u32 (2 ^ 32 - xx) ≡ 2 ^ 32 - xx = omega arith in
      let (numeral, few) =
        print_digits-Numeral 10 16 base (2 ^ 32 - xx) b (omega arith) (omega arith) (omega arith) in
      let ds = print_digits 16 (2 ^ 32 - xx) base in
      rw (negative, word32)
        (record {
          characters = ds;
          form = reverse_aux-last ds 45 [];
          numeral = numeral;
          fits =
              omega (arith, few, length-reverse_aux (ds ++ 45 ∷ []) [], length-append ds (45 ∷ []));
        }),
  λ plain.
      let positive : is_negative xx sign ≡ false = ground arith in
      let (numeral, few) =
        print_digits-Numeral 10 16 base xx b (omega arith) (omega arith) (omega arith) in
      let ds = print_digits 16 xx base in
      rw positive (record {
        characters = ds;
        form = refl;
        numeral = numeral;
        fits = omega (arith, few, length-reverse_aux ds []);
      }),
)
