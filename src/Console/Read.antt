-- ===== src/Console/Read.antt =====
-- `consoleread`: which bytes a reader gets, and how it ends.
use os_ass.Base.{
  ℕ, zero, suc, ◌+◌, ◌-◌, ◌%◌, ◌^◌, ◌≤◌, ◌<◌, ◌≡◌, ◌≢◌, refl, arith, ◌==◌, List, [], ◌∷◌, ◌++◌,
  length, u32, false, true, Bool, All, if◌then◌else◌, ap, ◌∙◌, Bool-cases, inl, inr, ltb, subst,
  sym,
}
use os_ass.Console.{Input, input_buf, newline, ctrl_d, consoleread, Ended, returned, failed, asleep}
use os_ass.Console.Line.{line, window, IsInput, ready_count}

-- a character inside a line
abbrev pub IsText : ℕ → Type 0
IsText c = (c ≢ newline) × (c ≢ ctrl_d)

-- How a reader with `n` bytes to go stops, after the characters `text` of a line, if `xs` was ready: with what bytes,
-- which end, and what stays ready.
pub data Stop (killed : Bool) (target n : ℕ) (xs text bytes : List ℕ) (ended : Ended) (ys : List ℕ)
    : Type 0 where
  full :
      length text ≡ n
      → xs ≡ text ++ ys
      → bytes ≡ text
      → ended ≡ returned target
      → Stop killed target n xs text bytes ended ys
  end_of_line :
      length text < n
      → xs ≡ text ++ newline ∷ ys
      → bytes ≡ text ++ newline ∷ []
      → ended ≡ returned (target - n + suc (length text))
      → Stop killed target n xs text bytes ended ys
  end_of_file :
      length text < n
      → n - length text < target
      → xs ≡ text ++ ys
      → (zs : List ℕ) → ys ≡ ctrl_d ∷ zs
      → bytes ≡ text
      → ended ≡ returned (target - n + length text)
      → Stop killed target n xs text bytes ended ys
  nothing_left :
      text ≡ []
      → n ≡ target
      → xs ≡ ctrl_d ∷ ys
      → bytes ≡ []
      → ended ≡ returned 0
      → Stop killed target n xs text bytes ended ys
  dry :
      length text < n
      → xs ≡ text
      → ys ≡ []
      → bytes ≡ text
      → ended ≡ (if killed then failed else asleep (n - length text))
      → Stop killed target n xs text bytes ended ys

pub record DidRead (killed : Bool) (target n : ℕ) (xs bytes : List ℕ) (ended : Ended) (ys : List ℕ)
    : Type 0 where
  pub text : List ℕ
  pub is_text : All IsText text
  pub stop : Stop killed target n xs text bytes ended ys

-- `input.r++`
abbrev next : Input → Input
next s = record s { r = u32 (s.r + 1) }

ready_first :
    (s : Input)
    → IsInput s
    → (s.r == s.w) ≡ false
    → IsInput (next s) × ((line s).ready ≡ s.buf (s.r % input_buf) ∷ (line (next s)).ready)
unfolding window
ready_first s v some =
    let less : ready_count s ≡ suc (ready_count (next s)) = ground (arith, v.words, v.fits) in
    (
      record {
        words = omega (arith, v.words);
        fits = omega (arith, less, v.fits);
        plain = v.plain;
      },
      rw less refl,
    )

ready_none : (s : Input) → (s.r == s.w) ≡ true → (line s).ready ≡ []
unfolding window
ready_none s e = let nothing : ready_count s ≡ 0 = ground arith in rw nothing refl

-- a character of the line before
more_text :
    {killed : Bool} {target n : ℕ} {xs bytes ys : List ℕ} {ended : Ended} (c : ℕ)
    → IsText c
    → suc n ≤ target
    → DidRead killed target n xs bytes ended ys
    → DidRead killed target (suc n) (c ∷ xs) (c ∷ bytes) ended ys
more_text {killed} {target} {n} c plain le d = record {
  text = c ∷ d.text;
  is_text = (plain, d.is_text);
  stop = longer d.stop;
}
  where
    longer :
        {text xs bytes ys : List ℕ} {ended : Ended}
        → Stop killed target n xs text bytes ended ys
        → Stop killed target (suc n) (c ∷ xs) (c ∷ text) (c ∷ bytes) ended ys
    longer (full l e b r) = full (ap suc l) (ap (λ zs. c ∷ zs) e) (ap (λ zs. c ∷ zs) b) r
    longer (end_of_line l e b r) =
        end_of_line (omega arith) (ap (λ zs. c ∷ zs) e) (ap (λ zs. c ∷ zs) b)
          (r ∙ ap returned (omega arith))
    longer (end_of_file l t e zs f b r) =
        end_of_file (omega arith) (omega arith) (ap (λ zs. c ∷ zs) e) zs f (ap (λ zs. c ∷ zs) b)
          (r ∙ ap returned (omega arith))
    longer (nothing_left t e f b r) = ground arith
    longer {text} (dry l e f b r) =
        let same : n - length text ≡ suc n - suc (length text) = omega arith in
        dry (omega arith) (ap (λ zs. c ∷ zs) e) f (ap (λ zs. c ∷ zs) b)
          (r ∙ ap (λ k. if killed then failed else asleep k) same)

-- the result of `consoleread`, on a ring
abbrev ReadOf : Bool → ℕ → ℕ → Input → List ℕ × Ended × Input → Type 0
ReadOf killed target n s (bytes, ended, s1) =
    IsInput s1
    × ((line s1).edit ≡ (line s).edit)
    × DidRead killed target n (line s).ready bytes ended (line s1).ready

-- the end of the count, and one round on each of its branches
read_none :
    (killed : Bool) (target : ℕ) (s : Input)
    → consoleread killed target 0 s ≡ ([], returned target, s)
unfolding consoleread
read_none killed target s = refl

read_dry :
    (killed : Bool) (target n : ℕ) (s : Input)
    → (s.r == s.w) ≡ true
    → consoleread killed target (suc n) s ≡ ([], (if killed then failed else asleep (suc n)), s)
unfolding consoleread
read_dry killed target n s e = rw e refl

read_eof :
    (killed : Bool) (target n : ℕ) (s : Input) (first : Bool)
    → IsInput s
    → (s.r == s.w) ≡ false
    → s.buf (s.r % input_buf) ≡ ctrl_d
    → ltb (suc n) target ≡ first
    → consoleread killed target (suc n) s
      ≡ ([], returned (target - suc n), if first then s else next s)
unfolding consoleread
read_eof killed target n s first v e d l =
    let back : u32 (u32 (s.r + 1) + 2 ^ 32 - 1) ≡ s.r = omega (arith, v.words) in
    rw (e, d, back, l) refl

read_line :
    (killed : Bool) (target n : ℕ) (s : Input)
    → (s.r == s.w) ≡ false
    → s.buf (s.r % input_buf) ≡ newline
    → consoleread killed target (suc n) s ≡ (newline ∷ [], returned (target - n), next s)
unfolding consoleread
read_line killed target n s e l = rw (e, l) refl

read_text :
    (killed : Bool) (target n : ℕ) (s : Input)
    → (s.r == s.w) ≡ false
    → (s.buf (s.r % input_buf) == ctrl_d) ≡ false
    → (s.buf (s.r % input_buf) == newline) ≡ false
    → let (cs, ended, s1) = consoleread killed target n (next s) in
      consoleread killed target (suc n) s ≡ (s.buf (s.r % input_buf) ∷ cs, ended, s1)
unfolding consoleread
read_text killed target n s e d l = rw (e, d, l) refl

-- A reader of the console with `n` of `target` bytes to go gets the characters of the first finished line, with its
-- newline, or `n` of them, in order, and leaves the rest; control-D ends the line without being read, and stays ready for
-- the next reader unless this one has got nothing. If it runs dry it sleeps, or fails if the process is killed.
-- The line being typed is left alone, and the ring stays valid.
pub consoleread_lem :
    (killed : Bool) (target n : ℕ) (s : Input)
    → IsInput s
    → n ≤ target
    → let (bytes, ended, s1) = consoleread killed target n s in
      IsInput s1
      × ((line s1).edit ≡ (line s).edit)
      × DidRead killed target n (line s).ready bytes ended (line s1).ready
consoleread_lem killed target zero s v le =
    subst (ReadOf killed target 0 s) (sym (read_none killed target s))
      (v, refl, record { text = []; is_text = tt; stop = full refl refl refl refl })
consoleread_lem killed target (suc n) s v le = elim (Bool-cases (s.r == s.w)) [
  | inl e ↦ subst (ReadOf killed target (suc n) s) (sym (read_dry killed target n s e)) (
    v,
    refl,
    record {
      text = [];
      is_text = tt;
      stop =
          dry (omega arith) (ready_none s e) (ready_none s e) refl
            (ap (λ k. if killed then failed else asleep k) (omega arith));
    },
  )
  | inr e ↦
      let (v1, first) = ready_first s v e in
      let ih = consoleread_lem killed target n (next s) v1 (omega arith) in
      let c = s.buf (s.r % input_buf) in
      elim (Bool-cases (c == ctrl_d)) [
        | inl d ↦
            let eof : c ≡ ctrl_d = ground arith in
            let head : (line s).ready ≡ ctrl_d ∷ (line (next s)).ready =
              first ∙ ap (λ x. x ∷ (line (next s)).ready) eof in
            elim (Bool-cases (ltb (suc n) target)) [
              | inl b ↦
                  subst (ReadOf killed target (suc n) s)
                    (sym (read_eof killed target n s true v e eof b))
                    (
                      v,
                      refl,
                      record {
                        text = [];
                        is_text = tt;
                        stop =
                            end_of_file (omega arith) (ground arith) refl (line (next s)).ready head
                              refl (ap returned (omega arith));
                      },
                    )
              | inr b ↦
                  subst (ReadOf killed target (suc n) s)
                    (sym (read_eof killed target n s false v e eof b))
                    (
                      v1,
                      refl,
                      record {
                        text = [];
                        is_text = tt;
                        stop = nothing_left refl (ground arith) head refl (ground arith);
                      },
                    )
            ]
        | inr d ↦ elim (Bool-cases (c == newline)) [
          | inl l ↦
              subst (ReadOf killed target (suc n) s)
                (sym (read_line killed target n s e (ground arith)))
                (
                  v1,
                  refl,
                  record {
                    text = [];
                    is_text = tt;
                    stop =
                        end_of_line (omega arith)
                          (first ∙ ap (λ x. x ∷ (line (next s)).ready) (ground arith)) refl
                          (ap returned (omega arith));
                  },
                )
          | inr l ↦
              subst (ReadOf killed target (suc n) s) (sym (read_text killed target n s e d l)) (
                ih.0,
                ih.1,
                subst
                    (λ xs.
                      DidRead killed target (suc n) xs
                        (c ∷ (consoleread killed target n (next s)).0)
                        (consoleread killed target n (next s)).1
                        (line (consoleread killed target n (next s)).2).ready)
                    (sym first) (more_text c (ground arith) le ih.2),
              )
        ]
      ]
]
