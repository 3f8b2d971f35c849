-- ===== src/Console/Line.antt =====
-- The characters in the ring of the console: the finished lines and the line being typed, oldest first.
use os_ass.Base.{
  ℕ, zero, suc, ◌+◌, ◌-◌, ◌%◌, ◌^◌, ◌≤◌, ◌<◌, ◌≡◌, ◌≢◌, refl, arith, List, [], ◌∷◌, ◌++◌, length,
  u32, update, All, subst,
}
use os_ass.Console.{Input, input_buf, newline}

-- `w - r` and `e - w`, which wrap
abbrev pub ready_count : Input → ℕ
ready_count s = u32 (s.w + 2 ^ 32 - s.r)

abbrev pub edit_count : Input → ℕ
edit_count s = u32 (s.e + 2 ^ 32 - s.w)

-- `n` characters from counter `i` on
unfoldable pub window : (ℕ → ℕ) → ℕ → ℕ → List ℕ
window buf i zero = []
window buf i (suc n) = buf (i % input_buf) ∷ window buf (u32 (i + 1)) n

-- what readers may take, and the line that can still be edited
pub record Line : Type 0 where
  pub ready : List ℕ
  pub edit : List ℕ

abbrev pub line : Input → Line
line s = record { ready = window s.buf s.r (ready_count s); edit = window s.buf s.w (edit_count s) }

abbrev pub IsPlain : ℕ → Type 0
IsPlain c = c ≢ newline

pub record IsInput (s : Input) : Type 0 where
  pub words : (s.r < 2 ^ 32) × (s.w < 2 ^ 32) × (s.e < 2 ^ 32)
  pub fits : ready_count s + edit_count s ≤ input_buf
  pub plain : All IsPlain (line s).edit

pub length-window : (buf : ℕ → ℕ) (i n : ℕ) → length (window buf i n) ≡ n
unfolding window
length-window buf i zero = refl
length-window buf i (suc n) = omega (arith, length-window buf (u32 (i + 1)) n)

pub window-join :
    (buf : ℕ → ℕ) (i n m : ℕ)
    → i < 2 ^ 32
    → window buf i (n + m) ≡ window buf i n ++ window buf (u32 (i + n)) m
unfolding window
window-join buf i zero m word =
    let e : u32 (i + 0) ≡ i = omega arith in let base : 0 + m ≡ m = omega arith in rw (base, e) refl
window-join buf i (suc n) m word =
    let e : u32 (u32 (i + 1) + n) ≡ u32 (i + suc n) = omega arith in
    let more : suc n + m ≡ suc (n + m) = omega arith in
    rw (more, window-join buf (u32 (i + 1)) n m (omega arith), e) refl

-- one more character at the end
pub window-last :
    (buf : ℕ → ℕ) (i n : ℕ)
    → i < 2 ^ 32
    → window buf i (suc n) ≡ window buf i n ++ buf (u32 (i + n) % input_buf) ∷ []
unfolding window
window-last buf i n word =
    let e : n + 1 ≡ suc n = omega arith in
    subst (λ k. window buf i k ≡ window buf i n ++ window buf (u32 (i + n)) 1) e
      (window-join buf i n 1 word)

-- A write past a window, and less than a turn of the ring from its start, does not change it.
pub window-update :
    (buf : ℕ → ℕ) (c i n m : ℕ)
    → n ≤ m
    → m < input_buf
    → i < 2 ^ 32
    → window (update buf (u32 (i + m) % input_buf) c) i n ≡ window buf i n
unfolding window
window-update buf c i zero m le lt word = refl
window-update buf c i (suc n) zero le lt word = ground arith
window-update buf c i (suc n) (suc m) le lt word =
    let e : u32 (u32 (i + 1) + m) ≡ u32 (i + suc m) = omega arith in
    let rest = window-update buf c (u32 (i + 1)) n m (omega arith) (omega arith) (omega arith) in
    ground (
      arith,
      subst
          (λ j. window (update buf (j % input_buf) c) (u32 (i + 1)) n ≡ window buf (u32 (i + 1)) n)
          e rest,
    )
