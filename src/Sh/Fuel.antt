-- ===== src/Sh/Fuel.antt =====
-- The parser of the shell ends: each of its calls that repeats another's work has less text.
use os_ass.Base.{
  ℕ, zero, suc, ◌+◌, ◌*◌, ◌≤◌, ◌<◌, ◌≡◌, ◌≢◌, refl, arith, Bool, true, false, List, [], ◌∷◌, ◌++◌,
  if◌then◌else◌, length, ◌-◌, leb,
}
use os_ass.Sh.{Token, end_of_text, operator, append, word, gettoken, peek}
use os_ass.Sh.Parser.{
  Cmd, Parse, parsed, syntax_error, stuck, ◌>>=◌, parseredirs, parseargs, parsesimple, parseback,
  parseblock, parseexec, parsepipe, parseline, parsecmd, backcmd, redirection, redirected, maxargs,
  execcmd, pipecmd, listcmd,
}
use os_ass.Sh.Words.{gettoken-shorter, peek-shorter}

-- the parse ends, and leaves at most `n` characters
data Ends {A : Type 0} (rest : A → List ℕ) (n : ℕ) : Parse A → Type 0 where
  ended : (a : A) → length (rest a) ≤ n → Ends rest n (parsed a)
  refused : Ends rest n syntax_error

bind-Ends :
    {A B : Type 0} {rest : A → List ℕ} {rest1 : B → List ℕ} {n m : ℕ} {first : Parse A}
    {next : A → Parse B}
    → Ends rest n first
    → ((a : A) → length (rest a) ≤ n → Ends rest1 m (next a))
    → Ends rest1 m (first >>= next)
bind-Ends (ended a l) h = h a l
bind-Ends refused h = refused

weaken :
    {A : Type 0} {rest : A → List ℕ} {n m : ℕ} {first : Parse A}
    → Ends rest n first
    → n ≤ m
    → Ends rest m first
weaken (ended a l) le = ended a (omega arith)
weaken refused le = refused

if-Ends :
    {A : Type 0} {rest : A → List ℕ} {n : ℕ} (test : Bool) {x y : Parse A}
    → (test ≡ true → Ends rest n x)
    → Ends rest n y
    → Ends rest n (if test then x else y)
if-Ends true hx hy = hx refl
if-Ends false hx hy = hy

abbrev left2 : {A : Type 0} → A × List ℕ → List ℕ
left2 (a, s) = s

abbrev left3 : {A B : Type 0} → A × B × List ℕ → List ℕ
left3 (a, b, s) = s

word-Ends :
    {A : Type 0} {rest : A → List ℕ} {n : ℕ} (tok : Token) {x y : Parse A}
    → Ends rest n x
    → (tok ≢ end_of_text → Ends rest n y)
    → Ends rest n (elim tok [
      | end_of_text ↦ x
      | word ↦ y
      | operator c ↦ syntax_error
      | append ↦ syntax_error
    ])
word-Ends end_of_text hx hy = hx
word-Ends word hx hy = hy (λ e. cc)
word-Ends (operator c) hx hy = refused
word-Ends append hx hy = refused

parseredirs-Ends :
    (fuel n : ℕ) (text : List ℕ) → length text ≤ n → n < fuel → Ends left2 n (parseredirs fuel text)
unfolding parseredirs
parseredirs-Ends zero n text le lt = absurd (omega arith)
parseredirs-Ends (suc fuel) n text le lt =
    let (kept, shorter) = peek-shorter text (60 ∷ 62 ∷ []) in
    let s = (peek text (60 ∷ 62 ∷ [])).1 in
    let s1 = (gettoken s).2 in
    let fewer = (gettoken-shorter s1).0 in
    if-Ends (peek text (60 ∷ 62 ∷ [])).0
      (λ found.
        let less = shorter found in
        word-Ends (gettoken s1).0 refused (λ _.
          bind-Ends
            (parseredirs-Ends fuel (n - 1) (gettoken s1).2 (omega (arith, le, less, fewer, kept))
              (omega (arith, le, less, fewer, kept, lt)))
            (λ (rs, s3) l.
              ended (redirection (gettoken s).0 (gettoken s1).1 ++ rs, s3) (omega (arith, l)))))
      (ended ([], s) (omega (arith, le, kept)))

parseargs-Ends :
    (fuel n argc : ℕ) (text : List ℕ)
    → length text ≤ n
    → n < fuel
    → Ends left3 n (parseargs fuel argc text)
unfolding parseargs
parseargs-Ends zero n argc text le lt = absurd (omega arith)
parseargs-Ends (suc fuel) n argc text le lt =
    let (kept, shorter) = peek-shorter text (124 ∷ 41 ∷ 38 ∷ 59 ∷ []) in
    let s = (peek text (124 ∷ 41 ∷ 38 ∷ 59 ∷ [])).1 in
    let (tok, arg, s1) = gettoken s in
    let (fewer, less) = gettoken-shorter s in
    if-Ends (peek text (124 ∷ 41 ∷ 38 ∷ 59 ∷ [])).0
      (λ _. ended ([], [], s) (omega (arith, le, kept)))
      (word-Ends (gettoken s).0 (ended ([], [], s1) (omega (arith, le, kept, fewer))) (λ some.
        if-Ends (leb maxargs (argc + 1)) (λ _. refused)
          (let gone = less some in
            bind-Ends
              (parseredirs-Ends fuel (n - 1) s1 (omega (arith, le, kept, gone))
                (omega (arith, le, kept, gone, lt)))
              (λ (rs, s2) l.
                bind-Ends
                  (parseargs-Ends fuel (n - 1) (argc + 1) s2 l (omega (arith, le, kept, gone, lt)))
                  (λ (args, qs, s3) l3. ended (arg ∷ args, rs ++ qs, s3) (omega (arith, l3)))))))

parsesimple-Ends :
    (fuel n : ℕ) (text : List ℕ) → length text ≤ n → n < fuel → Ends left2 n (parsesimple fuel text)
unfolding parsesimple
parsesimple-Ends fuel n text le lt = bind-Ends (parseredirs-Ends fuel n text le lt) (λ (rs, s) l.
    bind-Ends (parseargs-Ends fuel n 0 s l lt)
      (λ (args, qs, s1) l1. ended (redirected (execcmd args) (rs ++ qs), s1) l1))

parseback-Ends :
    (fuel n : ℕ) (cmd : Cmd) (text : List ℕ)
    → length text ≤ n
    → n < fuel
    → Ends left2 n (parseback fuel cmd text)
unfolding parseback
parseback-Ends zero n cmd text le lt = absurd (omega arith)
parseback-Ends (suc fuel) n cmd text le lt =
    let (kept, shorter) = peek-shorter text (38 ∷ []) in
    let s = (peek text (38 ∷ [])).1 in
    if-Ends (peek text (38 ∷ [])).0
      (λ found.
        let less = shorter found in
        weaken
          (parseback-Ends fuel (n - 1) (backcmd cmd) (gettoken s).2 (omega (arith, le, kept, less))
            (omega (arith, le, kept, less, lt)))
          (omega arith))
      (ended (cmd, s) (omega (arith, le, kept)))

-- what the parser of lines has to do for a block
abbrev LinesEnd : ℕ → (List ℕ → Parse (Cmd × List ℕ)) → Type 0
LinesEnd n parse_line =
    (text : List ℕ) (m : ℕ) → length text ≤ m → m < n → Ends left2 m (parse_line text)

parseblock-Ends :
    (fuel n : ℕ) (parse_line : List ℕ → Parse (Cmd × List ℕ)) (text : List ℕ)
    → LinesEnd n parse_line
    → length text ≤ n
    → n < fuel
    → Ends left2 n (parseblock fuel parse_line text)
unfolding parseblock
parseblock-Ends fuel n parse_line text lines le lt =
    let (before, opens) = peek-shorter text (40 ∷ []) in
    let s = (peek text (40 ∷ [])).1 in
    if-Ends (peek text (40 ∷ [])).0
      (λ opened.
        let less = opens opened in
        bind-Ends
          (lines (gettoken s).2 (n - 1) (omega (arith, le, before, less))
            (omega (arith, le, before, less)))
          (λ (cmd, s1) l.
            let (kept, shorter) = peek-shorter s1 (41 ∷ []) in
            let s2 = (peek s1 (41 ∷ [])).1 in
            if-Ends (peek s1 (41 ∷ [])).0
              (λ found.
                let gone = shorter found in
                bind-Ends
                  (parseredirs-Ends fuel n (gettoken s2).2 (omega (arith, l, kept, gone)) lt)
                  (λ (rs, s3) l2. ended (redirected cmd rs, s3) l2))
              refused))
      refused

parseexec-Ends :
    (fuel n : ℕ) (parse_line : List ℕ → Parse (Cmd × List ℕ)) (text : List ℕ)
    → LinesEnd n parse_line
    → length text ≤ n
    → n < fuel
    → Ends left2 n (parseexec fuel parse_line text)
unfolding parseexec
parseexec-Ends fuel n parse_line text lines le lt =
    let (kept, shorter) = peek-shorter text (40 ∷ []) in
    let s = (peek text (40 ∷ [])).1 in
    if-Ends (peek text (40 ∷ [])).0
      (λ _. parseblock-Ends fuel n parse_line s lines (omega (arith, le, kept)) lt)
      (parsesimple-Ends fuel n s (omega (arith, le, kept)) lt)

mutual
  unfolding parsepipe parseline

  parsepipe-Ends :
      (fuel n : ℕ) (text : List ℕ)
      → length text ≤ n
      → 2 * n + 1 < fuel
      → Ends left2 n (parsepipe fuel text)
  parsepipe-Ends zero n text le lt = absurd (omega arith)
  parsepipe-Ends (suc fuel) n text le lt =
      bind-Ends
        (parseexec-Ends fuel n (parseline fuel) text
          (λ t m l lm. parseline-Ends fuel m t l (omega (arith, lt, lm))) le (omega arith))
        (λ (cmd, s) l.
          let (kept, shorter) = peek-shorter s (124 ∷ []) in
          let s1 = (peek s (124 ∷ [])).1 in
          if-Ends (peek s (124 ∷ [])).0
            (λ found.
              let gone = shorter found in
              bind-Ends
                (parsepipe-Ends fuel (n - 1) (gettoken s1).2 (omega (arith, l, kept, gone))
                  (omega (arith, l, kept, gone, lt)))
                (λ (right, s2) l2. ended (pipecmd cmd right, s2) (omega (arith, l2))))
            (ended (cmd, s1) (omega (arith, l, kept))))

  parseline-Ends :
      (fuel n : ℕ) (text : List ℕ)
      → length text ≤ n
      → 2 * n + 2 < fuel
      → Ends left2 n (parseline fuel text)
  parseline-Ends zero n text le lt = absurd (omega arith)
  parseline-Ends (suc fuel) n text le lt =
      bind-Ends (parsepipe-Ends fuel n text le (omega arith)) (λ (first, s) l.
        bind-Ends (parseback-Ends fuel n first s l (omega arith)) (λ (cmd, s1) l1.
          let (kept, shorter) = peek-shorter s1 (59 ∷ []) in
          let s2 = (peek s1 (59 ∷ [])).1 in
          if-Ends (peek s1 (59 ∷ [])).0
            (λ found.
              let gone = shorter found in
              bind-Ends
                (parseline-Ends fuel (n - 1) (gettoken s2).2 (omega (arith, l1, kept, gone))
                  (omega (arith, l1, kept, gone, lt)))
                (λ (right, s3) l3. ended (listcmd cmd right, s3) (omega (arith, l3))))
            (ended (cmd, s2) (omega (arith, l1, kept)))))

bind-ne-stuck :
    {n : ℕ} {first : Parse (Cmd × List ℕ)} {next : Cmd × List ℕ → Parse Cmd}
    → Ends left2 n first
    → ((a : Cmd × List ℕ) → next a ≢ stuck)
    → (first >>= next) ≢ stuck
bind-ne-stuck (ended a l) h = h a
bind-ne-stuck refused h = λ e. cc

leftovers :
    (cmd : Cmd) (left : List ℕ)
    → (elim left as (λ _. Parse Cmd) [ [] ↦ parsed cmd | c ∷ cs ↦ syntax_error ]) ≢ stuck
leftovers cmd [] e = cc
leftovers cmd (c ∷ cs) e = cc

-- The parser of the shell ends on every text, with a command or with a syntax error: the fuel, twice the length of the
-- text and three, is enough.
pub parsecmd-ends : (text : List ℕ) → parsecmd text ≢ stuck
unfolding parsecmd
parsecmd-ends text =
    bind-ne-stuck
      (parseline-Ends (2 * length text + 3) (length text) text (omega arith) (omega arith))
      (λ (cmd, s). leftovers cmd (peek s []).1)
