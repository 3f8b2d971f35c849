-- ===== src/Grep.antt =====
-- grep.c: the matcher for regular expressions. Expressions and texts are the bytes of a C string, less
-- the 0 at its end.
pub mod Regex
pub mod Match
mod Tests
use os_ass.Base.{ℕ, Bool, true, false, ◌&&◌, ◌||◌, not, List, [], ◌∷◌, ◌==◌, if◌then◌else◌}

abbrev pub star : ℕ
star = 0x2a

abbrev pub dot : ℕ
dot = 0x2e

abbrev pub dollar : ℕ
dollar = 0x24

abbrev pub caret : ℕ
caret = 0x5e

-- `matchstar`, given what `matchhere` answers for the expression after the star
pub matchstar : (List ℕ → Bool) → ℕ → List ℕ → Bool
matchstar rest c [] = rest []
matchstar rest c (x ∷ text) =
    let more = matchstar rest c text in
    if rest (x ∷ text) then true else if x == c || c == dot then more else false

pub matchhere : List ℕ → List ℕ → Bool
matchhere [] text = true
matchhere (c ∷ []) [] = c == dollar
matchhere (c ∷ []) (x ∷ text) = if c == dollar then false else c == dot || c == x
matchhere (c ∷ d ∷ re) [] = if d == star then matchstar (matchhere re) c [] else false
matchhere (c ∷ d ∷ re) (x ∷ text) =
    let next = matchhere (d ∷ re) text in
    if d == star
    then matchstar (matchhere re) c (x ∷ text)
    else if c == dot || c == x
    then next
    else false

-- the loop of `match`
pub match_anywhere : List ℕ → List ℕ → Bool
match_anywhere re [] = matchhere re []
match_anywhere re (x ∷ text) =
    let later = match_anywhere re text in if matchhere re (x ∷ text) then true else later

pub grep_match : List ℕ → List ℕ → Bool
grep_match [] text = match_anywhere [] text
grep_match (c ∷ re) text = if c == caret then matchhere re text else match_anywhere (c ∷ re) text
