-- ===== src/Fs/Words.antt =====
-- A word of the table in an indirect block, and the bytes that it is made of.
use os_ass.Base.{
  word, store, word_bytes, ℕ_discrete, [], ◌∷◌, ℕ, arith, ◌≡◌, List, All, ◌<◌, ◌*◌, ◌+◌,
  if◌then◌else◌, ◌==◌, ==_refl, ==_ne, ◌≢◌, update,
}
use os_ass.Fs.Bits.{IsBytes}

word_at : (mem : ℕ → ℕ) (a v : ℕ) → v < 0x100000000 → word (store mem a (word_bytes v)) a ≡ v
unfolding store
word_at mem a v h = ground arith

word_apart :
    (mem : ℕ → ℕ) (i j v : ℕ)
    → i ≢ j
    → word (store mem (4 * i) (word_bytes v)) (4 * j) ≡ word mem (4 * j)
unfolding store
word_apart mem i j v h = ground arith

-- the table after its entry `i` has been written
pub word-store :
    (mem : ℕ → ℕ) (i j v : ℕ)
    → v < 0x100000000
    → word (store mem (4 * i) (word_bytes v)) (4 * j) ≡ (if i == j then v else word mem (4 * j))
word-store mem i j v h = elim (ℕ_discrete i j) [
  | yes e ↦ rw (e, ==_refl j) (word_at mem (4 * j) v h)
  | no n ↦ rw (==_ne i j n) (word_apart mem i j v n)
]

pub store-IsBytes :
    (mem : ℕ → ℕ) (a : ℕ) (xs : List ℕ)
    → IsBytes mem
    → All (λ x. x < 256) xs
    → IsBytes (store mem a xs)
unfolding store
store-IsBytes mem a [] h k = h
store-IsBytes mem a (x ∷ xs) h k =
    store-IsBytes (update mem a x) (a + 1) xs (λ j. ground (arith, h j)) k.1

pub word_bytes-small : (v : ℕ) → All (λ x. x < 256) (word_bytes v)
word_bytes-small v = omega arith

pub word-bound : (mem : ℕ → ℕ) (a : ℕ) → IsBytes mem → word mem a < 0x100000000
word-bound mem a h = omega (arith, h a, h (a + 1), h (a + 2), h (a + 3))
