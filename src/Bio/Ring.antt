-- ===== src/Bio/Ring.antt =====
-- The ring of buffers as a list, and the changes of its links.
use os_ass.Base.{
  All-both, ℕ, ◌≡◌, ◌≢◌, refl, sym, ap, ◌∙◌, subst, List, [], ◌∷◌, ◌++◌, All, All-map, reverse,
  reverse_aux, update, update_self, update_ne,
}

-- every two elements differ
abbrev pub Distinct : List ℕ → Type 0
Distinct [] = Unit
Distinct (x ∷ xs) = All (λ y. x ≢ y) xs × Distinct xs

-- Along `next` from `a` one meets the elements of the list and then `z`; and back along `prev`.
abbrev pub Seg : (ℕ → ℕ) → (ℕ → ℕ) → ℕ → List ℕ → ℕ → Type 0
Seg next prev a [] z = (next a ≡ z) × (prev z ≡ a)
Seg next prev a (x ∷ xs) z = (next a ≡ x) × (prev x ≡ a) × Seg next prev x xs z

-- Links that a segment does not read may change.
pub Seg-frame :
    (next prev next' prev' : ℕ → ℕ) (a : ℕ) (xs : List ℕ) (z : ℕ)
    → All (λ x. next' x ≡ next x) (a ∷ xs)
    → All (λ x. prev' x ≡ prev x) xs
    → prev' z ≡ prev z
    → Seg next prev a xs z
    → Seg next' prev' a xs z
Seg-frame next prev next' prev' a [] z n p pz h = (n.0 ∙ h.0, pz ∙ h.1)
Seg-frame next prev next' prev' a (x ∷ xs) z n p pz h =
    (n.0 ∙ h.0, p.0 ∙ h.1, Seg-frame next prev next' prev' x xs z n.1 p.1 pz h.2)

-- two links changed, at `b` and at `c`, leave the others alone
twice_ne : (f : ℕ → ℕ) (b c v w x : ℕ) → b ≢ x → c ≢ x → update (update f b v) c w x ≡ f x
twice_ne f b c v w x nb nc = update_ne (update f b v) c x w nc ∙ update_ne f b x v nb

-- A new first element.
pub Seg-push :
    (next prev : ℕ → ℕ) (a b n : ℕ) (xs : List ℕ)
    → a ≢ b
    → All (λ x. b ≢ x) xs
    → All (λ x. a ≢ x) xs
    → Distinct xs
    → next a ≡ n
    → Seg next prev a xs a
    → Seg (update (update next b n) a b) (update (update prev b a) n b) a (b ∷ xs) a
Seg-push next prev a b n [] ab bx ax d e h =
    let here : a ≡ n = sym h.0 ∙ e in
    (
      update_self (update next b n) a b,
      update_ne (update prev b a) n b b (λ q. ab (here ∙ q)) ∙ update_self prev b a,
      (
        update_ne (update next b n) a b b ab ∙ update_self next b n ∙ sym here,
        subst (λ m. update (update prev b a) m b a ≡ b) here (update_self (update prev b a) a b),
      ),
    )
Seg-push next prev a b n (x ∷ xs) ab bx ax d e h =
    let there : x ≡ n = sym h.0 ∙ e in
    let nb : n ≢ b = λ q. bx.0 (sym (there ∙ q)) in
    let n_fresh : All (λ y. n ≢ y) xs = subst (λ m. All (λ y. m ≢ y) xs) there d.0 in
    (
      update_self (update next b n) a b,
      update_ne (update prev b a) n b b nb ∙ update_self prev b a,
      (
        update_ne (update next b n) a b b ab ∙ update_self next b n ∙ sym there,
        subst (λ m. update (update prev b a) m b x ≡ b) there (update_self (update prev b a) x b),
        Seg-frame next prev _ _ x xs a (All-both (λ y. twice_ne next b a n b y) (x ∷ xs) bx ax)
            (All-both (λ y. twice_ne prev b n a b y) xs bx.1 n_fresh)
            (twice_ne prev b n a b a (λ q. ab (sym q)) (λ q. ax.0 (sym (there ∙ q)))) h.2,
      ),
    )

-- the neighbours of an element
prev-among :
    (next prev : ℕ → ℕ) (P : ℕ → Type 0) (a : ℕ) (ys : List ℕ) (b : ℕ) (zs : List ℕ) (z : ℕ)
    → Seg next prev a (ys ++ b ∷ zs) z
    → All P (a ∷ ys)
    → P (prev b)
prev-among next prev P a [] b zs z h p = subst P (sym h.1) p.0
prev-among next prev P a (y ∷ ys) b zs z h p = prev-among next prev P y ys b zs z h.2 p.1

next-among :
    (next prev : ℕ → ℕ) (P : ℕ → Type 0) (a : ℕ) (ys : List ℕ) (b : ℕ) (zs : List ℕ) (z : ℕ)
    → Seg next prev a (ys ++ b ∷ zs) z
    → All P zs
    → P z
    → P (next b)
next-among next prev P a [] b [] z h p q = subst P (sym h.2.0) q
next-among next prev P a [] b (x ∷ zs) z h p q = subst P (sym h.2.0) p.0
next-among next prev P a (y ∷ ys) b zs z h p q = next-among next prev P y ys b zs z h.2 p q

All-left : (P : ℕ → Type 0) (xs ys : List ℕ) → All P (xs ++ ys) → All P xs
All-left P [] ys h = tt
All-left P (x ∷ xs) ys h = (h.0, All-left P xs ys h.1)

All-right : (P : ℕ → Type 0) (xs ys : List ℕ) → All P (xs ++ ys) → All P ys
All-right P [] ys h = h
All-right P (x ∷ xs) ys h = All-right P xs ys h.1

All-flip : (a : ℕ) (xs : List ℕ) → All (λ x. a ≢ x) xs → All (λ x. x ≢ a) xs
All-flip a xs h = All-map (λ x n q. n (sym q)) xs h

-- The element after `a` leaves.
unlink-first :
    (next prev : ℕ → ℕ) (a b : ℕ) (zs : List ℕ) (z : ℕ)
    → Distinct (a ∷ b ∷ zs)
    → All (λ x. z ≢ x) (b ∷ zs)
    → Seg next prev b zs z
    → Seg (update next a (next b)) (update prev (next b) a) a zs z
unlink-first next prev a b [] z d f h =
    subst (λ n. Seg (update next a n) (update prev n a) a [] z) (sym h.0)
      (update_self next a z, update_self prev z a)
unlink-first next prev a b (x ∷ zs) z d f h =
    subst (λ n. Seg (update next a n) (update prev n a) a (x ∷ zs) z) (sym h.0)
      (
        update_self next a x,
        update_self prev x a,
        Seg-frame next prev _ _ x zs z
            (All-both (λ y (p : a ≢ y) (q : a ≢ y). update_ne next a y x p) (x ∷ zs) d.0.1 d.0.1)
            (All-both (λ y (p : x ≢ y) (q : x ≢ y). update_ne prev x y a p) zs d.1.1.0 d.1.1.0)
            (update_ne prev x z a (λ q. f.1.0 (sym q))) h.2,
      )

-- An element leaves.
pub Seg-unlink :
    (next prev : ℕ → ℕ) (a : ℕ) (ys : List ℕ) (b : ℕ) (zs : List ℕ) (z : ℕ)
    → Distinct (a ∷ ys ++ b ∷ zs)
    → All (λ x. z ≢ x) (ys ++ b ∷ zs)
    → Seg next prev a (ys ++ b ∷ zs) z
    → Seg (update next (prev b) (next b)) (update prev (next b) (prev b)) a (ys ++ zs) z
Seg-unlink next prev a [] b zs z d f h =
    subst (λ p. Seg (update next p (next b)) (update prev (next b) p) a zs z) (sym h.1)
      (unlink-first next prev a b zs z d f h.2)
Seg-unlink next prev a (y ∷ ys) b zs z d f h =
    let p : prev b ≢ a =
      prev-among next prev (λ m. m ≢ a) y ys b zs z h.2
        (All-left (λ m. m ≢ a) (y ∷ ys) (b ∷ zs) (All-flip a (y ∷ ys ++ b ∷ zs) d.0)) in
    let n : next b ≢ y =
      next-among next prev (λ m. m ≢ y) y ys b zs z h.2
        (All-right (λ m. m ≢ y) ys (b ∷ zs) (All-flip y (ys ++ b ∷ zs) d.1.0)).1 f.0 in
    (
      update_ne next (prev b) a (next b) p ∙ h.0,
      update_ne prev (next b) y (prev b) n ∙ h.1,
      Seg-unlink next prev y ys b zs z d.1 f.1 h.2,
    )

-- The way back: `acc` is what lies behind `c`, which is its first element.
abbrev Behind : (ℕ → ℕ) → (ℕ → ℕ) → ℕ → List ℕ → ℕ → Type 0
Behind next prev c [] w = c ≡ w
Behind next prev c (x ∷ acc) w = (c ≡ x) × Seg prev next x acc w

step_back :
    (next prev : ℕ → ℕ) (c z : ℕ) (acc : List ℕ) (w : ℕ)
    → next c ≡ z
    → prev z ≡ c
    → Behind next prev c acc w
    → Seg prev next z acc w
step_back next prev c z [] w n p h = (p ∙ h, ap next (sym h) ∙ n)
step_back next prev c z (x ∷ acc) w n p h = (p ∙ h.0, ap next (sym h.0) ∙ n, h.1)

Seg-back :
    (next prev : ℕ → ℕ) (c : ℕ) (xs : List ℕ) (z : ℕ) (acc : List ℕ) (w : ℕ)
    → Seg next prev c xs z
    → Behind next prev c acc w
    → Seg prev next z (reverse_aux xs acc) w
Seg-back next prev c [] z acc w h k = step_back next prev c z acc w h.0 h.1 k
Seg-back next prev c (x ∷ xs) z acc w h k =
    Seg-back next prev x xs z (x ∷ acc) w h.2 (refl, step_back next prev c x acc w h.0 h.1 k)

pub Seg-reverse :
    (next prev : ℕ → ℕ) (a : ℕ) (xs : List ℕ) (z : ℕ)
    → Seg next prev a xs z
    → Seg prev next z (reverse xs) a
Seg-reverse next prev a xs z h = Seg-back next prev a xs z [] a h refl
