-- ===== src/Sh.antt =====
-- sh.c: the parser of the shell. `text` is what is left from `*ps` to `es`, without the NUL at `es`; a word is its
-- characters. `malloc` is taken not to fail, and `panic` leaves the shell.
pub mod Parser
pub mod Words
mod Fuel
mod Tests
use os_ass.Base.{
  ℕ, zero, suc, ◌+◌, Bool, true, false, ◌&&◌, ◌||◌, not, List, [], ◌∷◌, ◌++◌, ◌==◌, if◌then◌else◌,
  ◌-◌,
}

-- `strchr`, whether the character is there
abbrev pub among : List ℕ → ℕ → Bool
among [] c = false
among (x ∷ xs) c = x == c || among xs c

-- " \t\r\n\v"
abbrev pub whitespace : List ℕ
whitespace = 32 ∷ 9 ∷ 13 ∷ 10 ∷ 11 ∷ []

unfoldable pub space : ℕ → Bool
space c = among whitespace c

-- "<|>&;()"
abbrev pub symbols : List ℕ
symbols = 60 ∷ 124 ∷ 62 ∷ 38 ∷ 59 ∷ 40 ∷ 41 ∷ []

unfoldable pub symbol : ℕ → Bool
symbol c = among symbols c

-- the loop over white space
unfoldable pub skip_space : List ℕ → List ℕ
skip_space [] = []
skip_space (c ∷ text) = let rest = skip_space text in if space c then rest else c ∷ text

-- the loop over the characters of a word: the word and what is left
unfoldable pub word_of : List ℕ → List ℕ × List ℕ
word_of [] = ([], [])
word_of (c ∷ text) =
    let (word, rest) = word_of text in
    if not (space c) && not (symbol c) then (c ∷ word, rest) else ([], c ∷ text)

-- the results of `gettoken`: 0, a symbol, '+' and 'a'
pub data Token : Type 0 where
  end_of_text : Token
  operator : ℕ → Token
  append : Token
  word : Token

-- after a '>'
unfoldable pub after_greater : List ℕ → Token × List ℕ × List ℕ
after_greater [] = (operator 62, 62 ∷ [], [])
after_greater (c ∷ text) =
    if c == 62 then (append, 62 ∷ c ∷ [], text) else (operator 62, 62 ∷ [], c ∷ text)

-- the switch: the token, the characters from `*q` to `*eq`, and what is left
unfoldable pub scan_token : List ℕ → Token × List ℕ × List ℕ
scan_token [] = (end_of_text, [], [])
scan_token (c ∷ text) =
    let (cs, rest) = word_of (c ∷ text) in
    if c == 62
    then after_greater text
    else if symbol c
    then (operator c, c ∷ [], text)
    else (word, cs, rest)

unfoldable pub gettoken : List ℕ → Token × List ℕ × List ℕ
gettoken text = let (tok, cs, rest) = scan_token (skip_space text) in (tok, cs, skip_space rest)

unfoldable pub starts_among : List ℕ → List ℕ → Bool
starts_among [] toks = false
starts_among (c ∷ text) toks = among toks c

-- whether the next character is one of `toks`, and what is left
unfoldable pub peek : List ℕ → List ℕ → Bool × List ℕ
peek text toks = (starts_among (skip_space text) toks, skip_space text)
