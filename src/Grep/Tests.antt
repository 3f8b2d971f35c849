-- ===== src/Grep/Tests.antt =====
-- Small runs of the matcher.
use os_ass.Base.{◌≡◌, refl, true, false, List, [], ◌∷◌, ℕ}
use os_ass.Grep.{star, dot, dollar, caret, matchstar, matchhere, grep_match}
use os_ass.Grep.Regex.{Found}
use os_ass.Grep.Match.{grep_match_lem}

-- `^a.*b$`
abbrev expression : List ℕ
expression = caret ∷ 97 ∷ dot ∷ star ∷ 98 ∷ dollar ∷ []

-- `axb`
abbrev line : List ℕ
line = 97 ∷ 120 ∷ 98 ∷ []

found : grep_match expression line ≡ true
unfolding grep_match matchhere matchstar
found = refl

not_found : grep_match expression (120 ∷ line) ≡ false
unfolding grep_match matchhere matchstar
not_found = refl

grep_match_lem_example :
    (grep_match expression line ≡ true → Found expression line)
    × (Found expression line → grep_match expression line ≡ true)
grep_match_lem_example = grep_match_lem expression line
