-- ===== src/Grep/Match.antt =====
-- The matcher of grep.c against the meaning of the expressions.
use os_ass.Base.{
  ℕ, ◌≡◌, refl, arith, Bool, true, List, [], ◌∷◌, ◌++◌, ◌==◌, Bool-cases, inl, inr, ap, subst, sym,
  ◌∙◌,
}
use os_ass.Grep.{star, dollar, caret, matchstar, matchhere, match_anywhere, grep_match}
use os_ass.Grep.Regex.{
  Item, one, many, parse, stands_for, Starts, done, ended, this, enough, again, anchored, body,
  Found,
}

-- `matchstar` finds a start of `many c` when the rest finds a start of the items after it
matchstar_sound :
    (rest : List ℕ → Bool) (c : ℕ) (items : List Item) (ends : Bool)
    → ((t : List ℕ) → rest t ≡ true → Starts items ends t)
    → (text : List ℕ) → matchstar rest c text ≡ true
    → Starts (many c ∷ items) ends text
unfolding matchstar
matchstar_sound rest c items ends ih [] e = enough (ih [] e)
matchstar_sound rest c items ends ih (x ∷ text) e = elim (Bool-cases (rest (x ∷ text))) [
  | inl now ↦ enough (ih (x ∷ text) now)
  | inr later ↦ again (ground arith) (matchstar_sound rest c items ends ih text (ground arith))
]

matchstar_complete :
    (rest : List ℕ → Bool) (c : ℕ) (items : List Item) (ends : Bool)
    → ((t : List ℕ) → Starts items ends t → rest t ≡ true)
    → (text : List ℕ) → Starts (many c ∷ items) ends text
    → matchstar rest c text ≡ true
unfolding matchstar
matchstar_complete rest c items ends ih [] (enough m) = ih [] m
matchstar_complete rest c items ends ih (x ∷ text) (enough m) = rw (ih (x ∷ text) m)
matchstar_complete rest c items ends ih (x ∷ text) (again s m) =
    ground (arith, matchstar_complete rest c items ends ih text m)

matchhere_sound :
    (re text : List ℕ) → matchhere re text ≡ true → Starts (parse re).items (parse re).ends text
unfolding matchhere parse
matchhere_sound [] text e = done
matchhere_sound (c ∷ []) [] e = elim (Bool-cases (c == dollar)) [
  | inl q ↦ rw q ended
  | inr q ↦ ground arith
]
matchhere_sound (c ∷ []) (x ∷ text) e = elim (Bool-cases (c == dollar)) [
  | inl q ↦ ground arith
  | inr q ↦ rw q (this (ground arith) done)
]
matchhere_sound (c ∷ d ∷ re) [] e = elim (Bool-cases (d == star)) [
  | inl q ↦ rw q (
      matchstar_sound (matchhere re) c (parse re).items (parse re).ends (matchhere_sound re) []
        (ground arith))
  | inr q ↦ ground arith
]
matchhere_sound (c ∷ d ∷ re) (x ∷ text) e = elim (Bool-cases (d == star)) [
  | inl q ↦ rw q (
      matchstar_sound (matchhere re) c (parse re).items (parse re).ends (matchhere_sound re)
        (x ∷ text) (ground arith))
  | inr q ↦ rw q (this (ground arith) (matchhere_sound (d ∷ re) text (ground arith)))
]

this_inv :
    {c x : ℕ} {items : List Item} {ends : Bool} {text : List ℕ}
    → Starts (one c ∷ items) ends (x ∷ text)
    → (stands_for c x ≡ true) × Starts items ends text
this_inv (this h m) = (h, m)

not_here :
    {c : ℕ} {items : List Item} {ends : Bool} → Starts (one c ∷ items) ends [] → {A : Type 0} → A
not_here m = elim m [ ]

not_ended : {x : ℕ} {text : List ℕ} → Starts [] true (x ∷ text) → {A : Type 0} → A
not_ended m = elim m [ ]

matchhere_complete :
    (re text : List ℕ) → Starts (parse re).items (parse re).ends text → matchhere re text ≡ true
unfolding matchhere parse
matchhere_complete [] text m = refl
matchhere_complete (c ∷ []) [] m = elim (Bool-cases (c == dollar)) [
  | inl q ↦ q
  | inr q ↦ not_here (rw q at m)
]
matchhere_complete (c ∷ []) (x ∷ text) m = elim (Bool-cases (c == dollar)) [
  | inl q ↦ not_ended (rw q at m)
  | inr q ↦ rw q (let (h, _) = this_inv (rw q at m) in h)
]
matchhere_complete (c ∷ d ∷ re) [] m = elim (Bool-cases (d == star)) [
  | inl q ↦ rw q (
      matchstar_complete (matchhere re) c (parse re).items (parse re).ends (matchhere_complete re)
        [] (rw q at m))
  | inr q ↦ not_here (rw q at m)
]
matchhere_complete (c ∷ d ∷ re) (x ∷ text) m = elim (Bool-cases (d == star)) [
  | inl q ↦ rw q (
      matchstar_complete (matchhere re) c (parse re).items (parse re).ends (matchhere_complete re)
        (x ∷ text) (rw q at m))
  | inr q ↦ let (h, m') = this_inv (rw q at m) in rw (q, h) (matchhere_complete (d ∷ re) text m')
]

-- the items occur at some place of the text
abbrev Occurs : List ℕ → List ℕ → Type 0
Occurs re text =
    (before : List ℕ) × (after : List ℕ) × (text ≡ before ++ after)
    × Starts (parse re).items (parse re).ends after

match_anywhere_sound : (re text : List ℕ) → match_anywhere re text ≡ true → Occurs re text
unfolding match_anywhere
match_anywhere_sound re [] e = ([], [], refl, matchhere_sound re [] e)
match_anywhere_sound re (x ∷ text) e = elim (Bool-cases (matchhere re (x ∷ text))) [
  | inl here ↦ ([], x ∷ text, refl, matchhere_sound re (x ∷ text) here)
  | inr later ↦
      let (before, after, split, m) = match_anywhere_sound re text (ground arith) in
      (x ∷ before, after, ap (λ t. x ∷ t) split, m)
]

match_anywhere_complete :
    (re before after : List ℕ)
    → Starts (parse re).items (parse re).ends after
    → match_anywhere re (before ++ after) ≡ true
unfolding match_anywhere
match_anywhere_complete re [] [] m = matchhere_complete re [] m
match_anywhere_complete re [] (x ∷ after) m = rw (matchhere_complete re (x ∷ after) m)
match_anywhere_complete re (x ∷ before) after m =
    ground (arith, match_anywhere_complete re before after m)

-- `match` says yes exactly when the text has a part that the expression stands for, which an
-- expression that starts with `^` requires at the start and one that ends in `$` at the end.
pub grep_match_lem :
    (re text : List ℕ)
    → (grep_match re text ≡ true → Found re text) × (Found re text → grep_match re text ≡ true)
unfolding grep_match Found anchored body
grep_match_lem [] text = (
  λ e.
      let (before, after, split, m) = match_anywhere_sound [] text e in
      (before, after, split, λ q. ground arith, m),
  λ (before, after, split, _, m). rw split (match_anywhere_complete [] before after m),
)
grep_match_lem (c ∷ re) text = elim (Bool-cases (c == caret)) [
  | inl q ↦ rw q (
    λ e. ([], text, refl, λ _. refl, matchhere_sound re text e),
    λ (before, after, split, start, m). matchhere_complete re text (
        subst (λ t. Starts (parse re).items (parse re).ends t)
          (sym (split ∙ ap (λ b. b ++ after) (start refl))) m),
  )
  | inr q ↦ rw q (
    λ e.
        let (before, after, split, m) = match_anywhere_sound (c ∷ re) text e in
        (before, after, split, λ h. ground arith, m),
    λ (before, after, split, start, m). rw split (match_anywhere_complete (c ∷ re) before after m),
  )
]
