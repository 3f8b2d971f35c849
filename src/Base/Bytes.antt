-- ===== src/Base/Bytes.antt =====
-- Numbers and strings in memory: bytes as numbers, the lowest byte of a word first.
use Prim.Native.Nat.{ℕ, zero, suc, ◌+◌, ◌-◌, ◌*◌, ◌/◌, ◌%◌, ◌<◌}
use mathlib.Core.Path.{◌≡◌, refl, ap, subst, ◌∙◌, sym}
use mathlib.Core.Bool.{◌&&◌, false}
use mathlib.Core.List.{List, [], ◌∷◌, ◌++◌}
use native.Mathlib.Omega.{arith}
use os_ass.Base.Tests.{ltb_ge, ltb, leb, if◌then◌else◌}
use os_ass.Base.Arrays.{update, length}

-- the `int` at an address, as its 32 bits
abbrev pub word : (ℕ → ℕ) → ℕ → ℕ
word mem a = mem a + 0x100 * mem (a + 1) + 0x10000 * mem (a + 2) + 0x1000000 * mem (a + 3)

-- the `short` at an address, as its 16 bits
abbrev pub half : (ℕ → ℕ) → ℕ → ℕ
half mem a = mem a + 0x100 * mem (a + 1)

-- the bytes `xs` from an address on
unfoldable pub store : (ℕ → ℕ) → ℕ → List ℕ → ℕ → ℕ
store mem a [] = mem
store mem a (x ∷ xs) = store (update mem a x) (a + 1) xs

-- `n` bytes from an address on
unfoldable pub load : (ℕ → ℕ) → ℕ → ℕ → List ℕ
load mem a zero = []
load mem a (suc n) = mem a ∷ load mem (a + 1) n

abbrev pub get_or : ℕ → List ℕ → ℕ → ℕ
get_or d [] i = d
get_or d (x ∷ xs) zero = x
get_or d (x ∷ xs) (suc i) = get_or d xs i

abbrev pub half_bytes : ℕ → List ℕ
half_bytes v = v % 0x100 ∷ v / 0x100 % 0x100 ∷ []

abbrev pub word_bytes : ℕ → List ℕ
word_bytes v = v % 0x100 ∷ v / 0x100 % 0x100 ∷ v / 0x10000 % 0x100 ∷ v / 0x1000000 % 0x100 ∷ []

pub load_zero : (mem : ℕ → ℕ) (a : ℕ) → load mem a 0 ≡ []
unfolding load
load_zero mem a = refl

pub store-outside :
    (mem : ℕ → ℕ) (a : ℕ) (xs : List ℕ) (j : ℕ)
    → (leb a j && ltb j (a + length xs)) ≡ false
    → store mem a xs j ≡ mem j
unfolding store
store-outside mem a [] j h = refl
store-outside mem a (x ∷ xs) j h = ground (arith, store-outside (update mem a x) (a + 1) xs j)

pub store-inside :
    (mem : ℕ → ℕ) (a : ℕ) (xs : List ℕ) (i : ℕ)
    → i < length xs
    → store mem a xs (a + i) ≡ get_or 0 xs i
unfolding store
store-inside mem a [] i h = absurd (omega arith)
store-inside mem a (x ∷ xs) zero h =
    ground (arith, store-outside (update mem a x) (a + 1) xs (a + 0))
store-inside mem a (x ∷ xs) (suc i) h = ground (arith, store-inside (update mem a x) (a + 1) xs i)

pub get_or-load : (mem : ℕ → ℕ) (a n i : ℕ) → i < n → get_or 0 (load mem a n) i ≡ mem (a + i)
unfolding load
get_or-load mem a zero i h = absurd (omega arith)
get_or-load mem a (suc n) zero h = ground arith
get_or-load mem a (suc n) (suc i) h = ground (arith, get_or-load mem (a + 1) n i)

pub length-load : (mem : ℕ → ℕ) (a n : ℕ) → length (load mem a n) ≡ n
unfolding load
length-load mem a zero = refl
length-load mem a (suc n) = omega (arith, length-load mem (a + 1) n)

native_zero_add : (n : ℕ) → 0 + n ≡ n
native_zero_add n = omega arith

native_add_zero : (n : ℕ) → n + 0 ≡ n
native_add_zero n = omega arith

suc_add : (m n : ℕ) → suc m + n ≡ suc (m + n)
suc_add m n = omega arith

add_suc : (a m : ℕ) → a + 1 + m ≡ a + suc m
add_suc a m = omega arith

pub load-append :
    (mem : ℕ → ℕ) (a m n : ℕ) → load mem a m ++ load mem (a + m) n ≡ load mem a (m + n)
unfolding load
load-append mem a zero n = rw (native_zero_add n, native_add_zero a)
load-append mem a (suc m) n =
    rw (suc_add m n, ← add_suc a m) (ap (λ xs. mem a ∷ xs) (load-append mem (a + 1) m n))

-- memories that agree on what is loaded
pub load_agree :
    (f g : ℕ → ℕ) (a b n : ℕ) → ((i : ℕ) → i < n → f (a + i) ≡ g (b + i)) → load f a n ≡ load g b n
unfolding load
load_agree f g a b zero h = refl
load_agree f g a b (suc n) h =
    ap (λ x. x ∷ load f (a + 1) n)
      (subst (λ k. f k ≡ g (b + 0)) (native_add_zero a) (h 0 (omega arith))
        ∙ ap g (native_add_zero b))
    ∙ ap (λ xs. g b ∷ xs)
        (load_agree f g (a + 1) (b + 1) n
          λ i lt. ap f (add_suc a i) ∙ h (suc i) (omega arith) ∙ ap g (sym (add_suc b i)))

sub_zero : (i : ℕ) → i ≡ i - 0
sub_zero i = omega arith

pub get_or-append :
    (xs ys : List ℕ) (i : ℕ)
    → get_or 0 (xs ++ ys) i
      ≡ (if ltb i (length xs) then get_or 0 xs i else get_or 0 ys (i - length xs))
get_or-append [] ys i = rw (ltb_ge i 0 (omega arith)) (ap (λ k. get_or 0 ys k) (sub_zero i))
get_or-append (x ∷ xs) ys zero = ground arith
get_or-append (x ∷ xs) ys (suc i) = get_or-append xs ys i ∙ ground arith

pub load-get_or :
    (f : ℕ → ℕ) (a : ℕ) (xs : List ℕ)
    → ((i : ℕ) → i < length xs → f (a + i) ≡ get_or 0 xs i)
    → load f a (length xs) ≡ xs
unfolding load
load-get_or f a [] h = refl
load-get_or f a (x ∷ xs) h =
    ap (λ y. y ∷ load f (a + 1) (length xs)) (ap f (sym (native_add_zero a)) ∙ h 0 (omega arith))
    ∙ ap (λ ys. x ∷ ys)
        (load-get_or f (a + 1) xs λ i lt. ap f (add_suc a i) ∙ h (suc i) (omega arith))
