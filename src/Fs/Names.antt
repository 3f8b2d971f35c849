-- ===== src/Fs/Names.antt =====
-- Path names: `skipelem`. Strings without their 0.
use os_ass.Base.{take, some, none, [], ◌∷◌, ℕ, Option, List, if◌then◌else◌, ◌==◌}

abbrev pub slash : ℕ
slash = 0x2f

abbrev pub dirsiz : ℕ
dirsiz = 14

-- `while(*path == '/') path++;`
unfoldable pub skip_slashes : List ℕ → List ℕ
skip_slashes [] = []
skip_slashes (c ∷ path) = if c == slash then skip_slashes path else c ∷ path

-- `while(*path != '/' && *path != 0) path++;`: what is passed, and what is left
unfoldable pub split_elem : List ℕ → List ℕ × List ℕ
split_elem [] = ([], [])
split_elem (c ∷ path) =
    let (s, rest) = split_elem path in if c == slash then ([], c ∷ path) else (c ∷ s, rest)

-- the name, cut off at DIRSIZ bytes, and the path after it
unfoldable pub skipelem : List ℕ → Option (List ℕ × List ℕ)
skipelem path = elim (skip_slashes path) [
  | [] ↦ none
  | c ∷ rest ↦ let (s, left) = split_elem (c ∷ rest) in some (take dirsiz s, skip_slashes left)
]
