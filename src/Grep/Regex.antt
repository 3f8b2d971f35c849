-- ===== src/Grep/Regex.antt =====
-- The expressions that the matcher of grep.c understands, and the texts that they stand for.
use os_ass.Base.{ℕ, ◌≡◌, Bool, true, false, ◌||◌, List, [], ◌∷◌, ◌++◌, ◌==◌, if◌then◌else◌}
use os_ass.Grep.{star, dot, dollar, caret}

pub data Item : Type 0 where
  one : ℕ → Item
  many : ℕ → Item

-- An expression past its start: the items, and whether the text has to end after them.
pub record Regex : Type 0 where
  pub items : List Item
  pub ends : Bool

abbrev cons : Item → Regex → Regex
cons i r = record { items = i ∷ r.items; ends = r.ends }

unfoldable pub parse : List ℕ → Regex
parse [] = record { items = []; ends = false }
parse (c ∷ []) =
    if c == dollar
    then record { items = []; ends = true }
    else record { items = one c ∷ []; ends = false }
parse (c ∷ d ∷ re) = if d == star then cons (many c) (parse re) else cons (one c) (parse (d ∷ re))

-- the bytes that `c` stands for
abbrev pub stands_for : ℕ → ℕ → Bool
stands_for c x = c == dot || c == x

-- Some text from the start of this one on is what the items stand for; all of it if `ends`.
pub data Starts : List Item → Bool → List ℕ → Type 0 where
  done : {text : List ℕ} → Starts [] false text
  ended : Starts [] true []
  this :
      {c x : ℕ} {items : List Item} {ends : Bool} {text : List ℕ}
      → stands_for c x ≡ true
      → Starts items ends text
      → Starts (one c ∷ items) ends (x ∷ text)
  enough :
      {c : ℕ} {items : List Item} {ends : Bool} {text : List ℕ}
      → Starts items ends text
      → Starts (many c ∷ items) ends text
  again :
      {c x : ℕ} {items : List Item} {ends : Bool} {text : List ℕ}
      → stands_for c x ≡ true
      → Starts (many c ∷ items) ends text
      → Starts (many c ∷ items) ends (x ∷ text)

-- whether the expression starts with `^`, and what follows
unfoldable pub anchored : List ℕ → Bool
anchored [] = false
anchored (c ∷ re) = c == caret

unfoldable pub body : List ℕ → List ℕ
body [] = []
body (c ∷ re) = if c == caret then re else c ∷ re

-- The text has a part that the expression stands for, at its start if the expression is anchored.
unfoldable pub Found : List ℕ → List ℕ → Type 0
Found re text =
    (before : List ℕ) × (after : List ℕ) × (text ≡ before ++ after)
    × (anchored re ≡ true → before ≡ [])
    × Starts (parse (body re)).items (parse (body re)).ends after
