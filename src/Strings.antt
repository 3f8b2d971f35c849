-- ===== src/Strings.antt =====
-- string.c over a byte memory: `memset`, `memcmp`, `memmove`, `strncmp`, `strncpy`, `safestrcpy` and
-- `strlen`. A pointer is an address, and every function that writes returns the new memory.
-- The modules below say what each leaves in memory, and what it returns.
pub mod Move
pub mod Copy
pub mod Compare
mod Tests
use os_ass.Base.{
  ℕ, zero, suc, ◌+◌, ◌-◌, ◌*◌, ◌/◌, ◌%◌, ◌^◌, Bool, true, false, ◌&&◌, Option, none, some, ltb,
  ◌==◌, if◌then◌else◌, update, ℤ, pos, pos_part, sub_ℕ,
}

-- `stosb` of x86.h: `cnt` bytes
pub stosb : (ℕ → ℕ) → ℕ → ℕ → ℕ → ℕ → ℕ
stosb m d c zero = m
stosb m d c (suc cnt) = stosb (update m d (c % 256)) (d + 1) c cnt

-- a little-endian 32-bit store
abbrev pub store_word : (ℕ → ℕ) → ℕ → ℕ → ℕ → ℕ
store_word m d w =
    update
      (update (update (update m d (w % 256)) (d + 1) (w / 2 ^ 8 % 256)) (d + 2) (w / 2 ^ 16 % 256))
      (d + 3) (w / 2 ^ 24 % 256)

-- `stosl` of x86.h: `cnt` words
pub stosl : (ℕ → ℕ) → ℕ → ℕ → ℕ → ℕ → ℕ
stosl m d w zero = m
stosl m d w (suc cnt) = stosl (store_word m d w) (d + 4) w cnt

-- `(c<<24)|(c<<16)|(c<<8)|c`, of a byte: the fields do not overlap.
abbrev pub splat : ℕ → ℕ
splat c = c * 2 ^ 24 + c * 2 ^ 16 + c * 2 ^ 8 + c

pub memset : (ℕ → ℕ) → ℕ → ℕ → ℕ → ℕ → ℕ
memset m dst c n =
    if dst % 4 == 0 && n % 4 == 0 then stosl m dst (splat (c % 256)) (n / 4) else stosb m dst c n

pub memcmp : (ℕ → ℕ) → ℕ → ℕ → ℕ → ℤ
memcmp m s1 s2 zero = pos 0
memcmp m s1 s2 (suc n) = if m s1 == m s2 then memcmp m (s1 + 1) (s2 + 1) n else sub_ℕ (m s1) (m s2)

-- `while(n-- > 0) *--d = *--s;`
pub copy_down : (ℕ → ℕ) → ℕ → ℕ → ℕ → ℕ → ℕ
copy_down m d s zero = m
copy_down m d s (suc n) = copy_down (update m (d - 1) (m (s - 1))) (d - 1) (s - 1) n

-- `while(n-- > 0) *d++ = *s++;`
pub copy_up : (ℕ → ℕ) → ℕ → ℕ → ℕ → ℕ → ℕ
copy_up m d s zero = m
copy_up m d s (suc n) = copy_up (update m d (m s)) (d + 1) (s + 1) n

pub memmove : (ℕ → ℕ) → ℕ → ℕ → ℕ → ℕ → ℕ
memmove m d s n =
    if ltb s d && ltb d (s + n) then copy_down m (d + n) (s + n) n else copy_up m d s n

pub strncmp : (ℕ → ℕ) → ℕ → ℕ → ℕ → ℤ
strncmp m p q zero = pos 0
strncmp m p q (suc n) = elim (m p == 0) [
  | true ↦ sub_ℕ (m p) (m q)
  | false ↦ if m p == m q then strncmp m (p + 1) (q + 1) n else sub_ℕ (m p) (m q)
]

-- `while(n-- > 0) *s++ = 0;`
pub fill_zero : (ℕ → ℕ) → ℕ → ℕ → ℕ → ℕ
fill_zero m s zero = m
fill_zero m s (suc n) = fill_zero (update m s 0) (s + 1) n

-- both loops of `strncpy`, with `n` rounds left
pub strncpy_loop : (ℕ → ℕ) → ℕ → ℕ → ℕ → ℕ → ℕ
strncpy_loop m s t zero = m
strncpy_loop m s t (suc n) =
    let m' = update m s (m t) in
    elim (m t == 0) [ true ↦ fill_zero m' (s + 1) n | false ↦ strncpy_loop m' (s + 1) (t + 1) n ]

-- A negative `n` makes no round.
pub strncpy : (ℕ → ℕ) → ℕ → ℕ → ℤ → ℕ → ℕ
strncpy m s t n = strncpy_loop m s t (pos_part n)

-- `while(--n > 0 && (*s++ = *t++) != 0) ; *s = 0;`, with `n - 1` rounds left
pub safestrcpy_loop : (ℕ → ℕ) → ℕ → ℕ → ℕ → ℕ → ℕ
safestrcpy_loop m s t zero = update m s 0
safestrcpy_loop m s t (suc n) =
    let m' = update m s (m t) in
    elim (m t == 0) [ true ↦ update m' (s + 1) 0 | false ↦ safestrcpy_loop m' (s + 1) (t + 1) n ]

pub safestrcpy : (ℕ → ℕ) → ℕ → ℕ → ℤ → ℕ → ℕ
safestrcpy m s t n = if pos_part n == 0 then m else safestrcpy_loop m s t (pos_part n - 1)

-- `for(n = 0; s[n]; n++)`, on fuel: `none` when no NUL was met.
pub strlen_loop : ℕ → (ℕ → ℕ) → ℕ → ℕ → Option ℕ
strlen_loop zero m s n = none
strlen_loop (suc fuel) m s n = elim (m (s + n) == 0) [
  | true ↦ some n
  | false ↦ strlen_loop fuel m s (n + 1)
]

pub strlen : ℕ → (ℕ → ℕ) → ℕ → Option ℕ
strlen fuel m s = strlen_loop fuel m s 0
