-- ===== src/Sh/Words.antt =====
-- `gettoken` and `peek` of the shell, described without their loops.
use os_ass.Base.{
  ℕ, ◌+◌, ◌≤◌, ◌<◌, ◌≡◌, ◌≢◌, refl, arith, true, false, ◌||◌, List, [], ◌∷◌, ◌++◌, ◌==◌, All,
  length, Bool-cases, ◌∙◌, inl, ap, subst, inr, sym, length-append,
}
use os_ass.Sh.{
  Token, end_of_text, operator, append, word, gettoken, peek, space, symbol, skip_space, word_of,
  after_greater, scan_token, starts_among,
}

abbrev pub IsSpace : ℕ → Type 0
IsSpace c = space c ≡ true

abbrev pub IsLetter : ℕ → Type 0
IsLetter c = (space c ≡ false) × (symbol c ≡ false)

-- what comes next is of a kind, or nothing does
abbrev pub Next : (ℕ → Type 0) → List ℕ → Type 0
Next P [] = Unit
Next P (c ∷ text) = P c

-- the characters of a token, and what may come after them
abbrev pub IsToken : Token → List ℕ → List ℕ → Type 0
IsToken end_of_text cs after = (cs ≡ []) × (after ≡ [])
IsToken (operator c) cs after =
    (cs ≡ c ∷ []) × (symbol c ≡ true) × (c ≡ 62 → Next (λ d. d ≢ 62) after)
IsToken append cs after = cs ≡ 62 ∷ 62 ∷ []
IsToken word cs after = (cs ≢ []) × All IsLetter cs × Next (λ c. (space c || symbol c) ≡ true) after

-- a text: white space, the token, white space and the rest, which does not start with white space
pub record Splits (text : List ℕ) (tok : Token) (cs rest : List ℕ) : Type 0 where
  pub before : List ℕ
  pub after : List ℕ
  pub form : text ≡ before ++ (cs ++ (after ++ rest))
  pub blanks : All IsSpace before × All IsSpace after
  pub token : IsToken tok cs (after ++ rest)
  pub next : Next (λ c. space c ≡ false) rest

-- white space before a text
pub record Skipped (text rest : List ℕ) : Type 0 where
  pub blank : List ℕ
  pub form : text ≡ blank ++ rest
  pub all : All IsSpace blank
  pub next : Next (λ c. space c ≡ false) rest

pub skip_space_lem : (text : List ℕ) → Skipped text (skip_space text)
unfolding skip_space
skip_space_lem [] = record { blank = []; form = refl; all = tt; next = tt }
skip_space_lem (c ∷ text) = elim (Bool-cases (space c)) [
  | inl e ↦
      let rest = skip_space_lem text in
      rw e (record {
        blank = c ∷ rest.blank;
        form = ap (λ xs. c ∷ xs) rest.form;
        all = (e, rest.all);
        next = rest.next;
      })
  | inr e ↦ rw e (record { blank = []; form = refl; all = tt; next = e })
]

word_of_lem :
    (text : List ℕ)
    → let (cs, rest) = word_of text in
      (text ≡ cs ++ rest) × All IsLetter cs × Next (λ c. (space c || symbol c) ≡ true) rest
unfolding word_of
word_of_lem [] = (refl, tt, tt)
word_of_lem (c ∷ text) =
    let (form, letters, next) = word_of_lem text in
    elim (Bool-cases (space c)) [
      | inl e ↦ rw e (refl, tt, rw e refl)
      | inr e ↦ elim (Bool-cases (symbol c)) [
        | inl f ↦ rw (e, f) (refl, tt, rw (e, f) refl)
        | inr f ↦ rw (e, f) (ap (λ xs. c ∷ xs) form, ((e, f), letters), next)
      ]
    ]

after_greater_lem :
    (text : List ℕ)
    → let (tok, cs, rest) = after_greater text in (62 ∷ text ≡ cs ++ rest) × IsToken tok cs rest
unfolding after_greater symbol
after_greater_lem [] = (refl, (refl, refl, λ _. tt))
after_greater_lem (c ∷ text) = elim (Bool-cases (c == 62)) [
  | inl g ↦ let e : c ≡ 62 = ground arith in rw g (refl, ap (λ d. 62 ∷ d ∷ []) e)
  | inr g ↦ rw g (refl, (refl, refl, λ _. ground arith))
]

cons_ne : {c : ℕ} {cs : List ℕ} → c ∷ cs ≢ []
cons_ne e = cc

scan_word :
    (c : ℕ) (text : List ℕ)
    → space c ≡ false
    → symbol c ≡ false
    → let (cs, rest) = word_of (c ∷ text) in (c ∷ text ≡ cs ++ rest) × IsToken word cs rest
unfolding word_of
scan_word c text e f =
    let (form, letters, next) = word_of_lem text in
    rw (e, f) (ap (λ xs. c ∷ xs) form, ((λ k. cons_ne k), ((e, f), letters), next))

scan_token_lem :
    (text : List ℕ)
    → Next (λ c. space c ≡ false) text
    → let (tok, cs, rest) = scan_token text in (text ≡ cs ++ rest) × IsToken tok cs rest
unfolding scan_token
scan_token_lem [] n = (refl, (refl, refl))
scan_token_lem (c ∷ text) n = elim (Bool-cases (c == 62)) [
  | inl g ↦
      let e : c ≡ 62 = ground arith in
      rw g (
        subst
          (λ d.
            let (tok, cs, rest) = after_greater text in
            (d ∷ text ≡ cs ++ rest) × IsToken tok cs rest)
          (sym e) (after_greater_lem text))
  | inr g ↦ elim (Bool-cases (symbol c)) [
    | inl f ↦ rw (g, f) (refl, (refl, f, λ e. absurd (ground arith)))
    | inr f ↦ rw (g, f) (scan_word c text n f)
  ]
]

-- `gettoken` cuts a text into white space, a token, white space and the rest, which does not start with white space and
-- is what it leaves. The token is ">>", or one of the other symbols, where '>' is not followed by another; or a word of
-- characters that are neither, which ends at a symbol, at white space or with the text. There is none only at the end.
pub gettoken_lem : (text : List ℕ) → let (tok, cs, rest) = gettoken text in Splits text tok cs rest
unfolding gettoken
gettoken_lem text =
    let before = skip_space_lem text in
    let (form, token) = scan_token_lem (skip_space text) before.next in
    let after = skip_space_lem (scan_token (skip_space text)).2 in
    record {
      before = before.blank;
      after = after.blank;
      form =
          before.form
          ∙ ap (λ xs. before.blank ++ xs)
              (form ∙ ap (λ xs. (scan_token (skip_space text)).1 ++ xs) after.form);
      blanks = (before.all, after.all);
      token =
          subst (IsToken (scan_token (skip_space text)).0 (scan_token (skip_space text)).1)
            after.form token;
      next = after.next;
    }

token_length :
    (tok : Token) (cs after : List ℕ) → IsToken tok cs after → tok ≢ end_of_text → 0 < length cs
token_length end_of_text cs after t ne = absurd (ne refl)
token_length (operator c) cs after t ne = let e = ap length t.0 in omega arith
token_length append cs after t ne = let e = ap length t in omega arith
token_length word [] after t ne = absurd (t.0 refl)
token_length word (c ∷ cs) after t ne = omega arith

-- what is left is never longer, and shorter if there was a token
pub gettoken-shorter :
    (text : List ℕ)
    → let (tok, cs, rest) = gettoken text in
      (length rest ≤ length text) × (tok ≢ end_of_text → length rest < length text)
gettoken-shorter text =
    let (tok, cs, rest) = gettoken text in
    let split = gettoken_lem text in
    let whole : length text
        ≡ length split.before + (length cs + (length split.after + length rest)) =
      ap length split.form
      ∙ omega (
        arith,
        length-append split.before (cs ++ (split.after ++ rest)),
        length-append cs (split.after ++ rest),
        length-append split.after rest,
      ) in
    (
      omega (arith, whole),
      λ ne.
          let some = token_length tok cs (split.after ++ rest) split.token ne in
          omega (arith, whole, some),
    )

-- a text that starts with something else than white space has a token
gettoken-some : (c : ℕ) (text : List ℕ) → space c ≡ false → (gettoken (c ∷ text)).0 ≢ end_of_text
gettoken-some c text black e =
    let (tok, cs, rest) = gettoken (c ∷ text) in
    let split = gettoken_lem (c ∷ text) in
    at split.before split.blanks.0 split.form
      (subst (λ t. IsToken t cs (split.after ++ rest)) e split.token)
  where
    at :
        {cs after : List ℕ} (before : List ℕ)
        → All IsSpace before
        → c ∷ text ≡ before ++ (cs ++ after)
        → IsToken end_of_text cs after
        → ⊥
    at {after = after} [] blank form t = cons_ne (form ∙ ap (λ xs. xs ++ after) t.0 ∙ t.1)
    at (b ∷ bs) blank form t = cc

-- after a look at one of `toks`, `gettoken` shortens the text
pub peek-shorter :
    (text toks : List ℕ)
    → let (found, s) = peek text toks in
      (length s ≤ length text) × (found ≡ true → length (gettoken s).2 < length s)
unfolding peek starts_among
peek-shorter text toks =
    let skipped = skip_space_lem text in
    let whole : length text ≡ length skipped.blank + length (skip_space text) =
      ap length skipped.form ∙ length-append skipped.blank (skip_space text) in
    (omega (arith, whole), at (skip_space text) skipped.next)
  where
    at :
        (s : List ℕ)
        → Next (λ c. space c ≡ false) s
        → starts_among s toks ≡ true
        → length (gettoken s).2 < length s
    at [] next found = cc
    at (c ∷ s) next found = (gettoken-shorter (c ∷ s)).1 (gettoken-some c s next)
