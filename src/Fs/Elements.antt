-- ===== src/Fs/Elements.antt =====
-- A path as the list of its elements, and `skipelem` as its head and tail.
use os_ass.Base.{
  take, length, some, none, true, false, [], ◌∷◌, inl, inr, ℕ, refl, arith, ◌≡◌, Option, List,
  if◌then◌else◌, ◌==◌, Bool-cases, ◌∙◌, sym, subst, ap, ◌<◌, ◌≤◌,
}
use os_ass.Fs.Names.{slash, dirsiz, skip_slashes, split_elem, skipelem}

-- the parts between slashes, the empty ones too
unfoldable pub parts : List ℕ → List (List ℕ)
parts [] = [] ∷ []
parts (c ∷ path) = elim (parts path) [
  | [] ↦ []
  | part ∷ rest ↦ if c == slash then [] ∷ part ∷ rest else (c ∷ part) ∷ rest
]

unfoldable pub nonempty : List (List ℕ) → List (List ℕ)
nonempty [] = []
nonempty ([] ∷ rest) = nonempty rest
nonempty ((c ∷ part) ∷ rest) = (c ∷ part) ∷ nonempty rest

-- what the path names, from the start down
abbrev pub elements : List ℕ → List (List ℕ)
elements path = nonempty (parts path)

parts-cons : (path : List ℕ) → (part : List ℕ) × (rest : List (List ℕ)) × (parts path ≡ part ∷ rest)
unfolding parts
parts-cons [] = ([], [], refl)
parts-cons (c ∷ path) =
    let (part, rest, e) = parts-cons path in
    elim (Bool-cases (c == slash)) [
      | inl s ↦ ([], part ∷ rest, rw (e, s))
      | inr o ↦ (c ∷ part, rest, rw (e, o))
    ]

elements-slash : (c : ℕ) (path : List ℕ) → (c == slash) ≡ true → elements (c ∷ path) ≡ elements path
unfolding parts nonempty
elements-slash c path s = let (part, rest, e) = parts-cons path in rw (e, s)

elements-skip_slashes : (path : List ℕ) → elements (skip_slashes path) ≡ elements path
unfolding skip_slashes
elements-skip_slashes [] = refl
elements-skip_slashes (c ∷ path) = elim (Bool-cases (c == slash)) [
  | inl s ↦ rw s (elements-skip_slashes path ∙ sym (elements-slash c path s))
  | inr o ↦ rw o
]

-- what is left after an element is empty or begins with a slash
parts-split :
    (path : List ℕ)
    → (rest : List (List ℕ)) × (parts path ≡ (split_elem path).0 ∷ rest)
      × (nonempty rest ≡ elements (split_elem path).1)
unfolding parts split_elem nonempty
parts-split [] = ([], refl, refl)
parts-split (c ∷ path) = elim (Bool-cases (c == slash)) [
  | inl s ↦
      let (part, rest, e) = parts-cons path in
      (part ∷ rest, rw (e, s), rw s (ap nonempty (sym e) ∙ sym (elements-slash c path s)))
  | inr o ↦ let (rest, e, r) = parts-split path in (rest, rw (e, o), rw o r)
]

skip_slashes-head :
    (path : List ℕ) {c : ℕ} {rest : List ℕ} → skip_slashes path ≡ c ∷ rest → (c == slash) ≡ false
unfolding skip_slashes
skip_slashes-head [] e = cc
skip_slashes-head (d ∷ path) {c} {rest} e = elim (Bool-cases (d == slash)) [
  | inl s ↦ skip_slashes-head path {rest = rest} (rw s at e)
  | inr o ↦ let same : d ≡ c = ground arith in subst (λ x. (x == slash) ≡ false) same o
]

length-skip_slashes : (path : List ℕ) → length (skip_slashes path) ≤ length path
unfolding skip_slashes
length-skip_slashes [] = omega arith
length-skip_slashes (c ∷ path) = ground (arith, length-skip_slashes path)

length-split_elem : (path : List ℕ) → length (split_elem path).1 ≤ length path
unfolding split_elem
length-split_elem [] = omega arith
length-split_elem (c ∷ path) = ground (arith, length-split_elem path)

-- the first element of a path that does not begin with a slash
module _ (c : ℕ) (path : List ℕ) (o : (c == slash) ≡ false) where
  split-cons : split_elem (c ∷ path) ≡ (c ∷ (split_elem path).0, (split_elem path).1)
  unfolding split_elem
  split-cons = rw o

  elements-cons : elements (c ∷ path) ≡ (c ∷ (split_elem path).0) ∷ elements (split_elem path).1
  unfolding nonempty
  elements-cons =
      let (rest, e, r) = parts-split (c ∷ path) in
      rw (e, split-cons)
        (ap (λ es. (c ∷ (split_elem path).0) ∷ es) (r ∙ ap (λ x. elements x.1) split-cons))

elements_nothing : elements [] ≡ []
unfolding parts nonempty
elements_nothing = refl

-- What `skipelem` gives for a path.
pub data Skips (path : List ℕ) : Option (List ℕ × List ℕ) → Type 0 where
  nothing_left : elements path ≡ [] → Skips path none
  next :
      {name rest elem : List ℕ}
      → elements path ≡ elem ∷ elements rest
      → name ≡ take dirsiz elem
      → length rest < length path
      -- the caller takes an empty rest for the end of the path
      → (elements rest ≡ [] → rest ≡ [])
      → Skips path (some (name, rest))

empty_rest : (path : List ℕ) → elements (skip_slashes path) ≡ [] → skip_slashes path ≡ []
empty_rest path e = at (skip_slashes path) refl
  where
    at : (p : List ℕ) → skip_slashes path ≡ p → skip_slashes path ≡ []
    at [] q = q
    at (c ∷ p) q =
        let o = skip_slashes-head path {c = c} {rest = p} q in
        let clash = sym (elements-cons c p o) ∙ ap elements (sym q) ∙ e in cc

-- `skipelem` gives nothing exactly for a path without elements. Otherwise it gives the first element, cut
-- off at 14 bytes, and a shorter path with the elements after it, which is empty when there are none.
pub skipelem_lem : (path : List ℕ) → Skips path (skipelem path)
unfolding skipelem
skipelem_lem path = at (skip_slashes path) refl
  where
    at : (p : List ℕ) → skip_slashes path ≡ p → Skips path (skipelem path)
    at [] q =
        rw (q, skipelem)
          (nothing_left (sym (elements-skip_slashes path) ∙ ap elements q ∙ elements_nothing))
    at (c ∷ p) q =
        let o = skip_slashes-head path {c = c} {rest = p} q in
        let left = (split_elem p).1 in
        let len : length (c ∷ p) ≤ length path =
          subst (λ x. length x ≤ length path) q (length-skip_slashes path) in
        rw (q, skipelem, split-cons c p o)
          (next
            (sym (elements-skip_slashes path)
              ∙ ap elements q
              ∙ elements-cons c p o
              ∙ ap (λ es. (c ∷ (split_elem p).0) ∷ es) (sym (elements-skip_slashes left)))
            refl (omega (arith, length-skip_slashes left, length-split_elem p)) (empty_rest left))
