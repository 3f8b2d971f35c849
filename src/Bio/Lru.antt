-- ===== src/Bio/Lru.antt =====
-- The ring keeps the order in which the buffers were used, and `bget` goes by it.
use os_ass.Base.{
  ℕ, zero, suc, ◌+◌, ◌≡◌, ◌≢◌, ◌≤◌, ◌==◌, if◌then◌else◌, refl, sym, ap, ◌∙◌, subst, List, [], ◌∷◌,
  ◌++◌, All, length, reverse, reverse_aux, fun_ext, ℕ_discrete, ==_refl, ==_ne, Bool, true, false,
  Option, none, some, ok, arith,
}
use os_ass.Bio.{
  nbuf, head, Buf, Bcache, set_buf, scan, holds, idle, choose, bget, push_front, unlink, brelse,
  binit, binit_loop,
}
use os_ass.Bio.Links.{
  next_of, prev_of, update-kept, unlinked, unlink-unlinked, push_front-unlinked, unlink-next,
  unlink-prev, push_front-next, push_front-prev, moved-disk,
}
use os_ass.Bio.Ring.{Distinct, Seg, Seg-push, Seg-unlink, Seg-reverse}

-- the buffers of the ring, from the head in the order of `next`
pub record IsRing (s : Bcache) (xs : List ℕ) : Type 0 where
  pub linked : Seg (next_of s) (prev_of s) head xs head
  pub distinct : Distinct (head ∷ xs)
  pub count : length xs ≤ nbuf

-- the buffers in the order that `binit` leaves them in
abbrev pub init_order : List ℕ
init_order = 9 ∷ 8 ∷ 7 ∷ 6 ∷ 5 ∷ 4 ∷ 3 ∷ 2 ∷ 1 ∷ 0 ∷ []

-- Whatever the memory of the cache holds before, `binit` links all ten buffers into a ring.
pub binit-IsRing : (s : Bcache) → IsRing (binit s) init_order
unfolding binit binit_loop push_front
binit-IsRing s = record { linked = ground arith; distinct = ground arith; count = omega arith }

-- the first element that passes the test
abbrev pub first : (ℕ → Bool) → List ℕ → Option ℕ
first test [] = none
first test (x ∷ xs) = if test x then some x else first test xs

scan-first :
    (link back : ℕ → ℕ) (test : ℕ → Bool) (a : ℕ) (xs : List ℕ) (fuel : ℕ)
    → Seg link back a xs head
    → All (λ x. head ≢ x) xs
    → length xs ≤ fuel
    → scan link test (link a) fuel ≡ first test xs
unfolding scan
scan-first link back test a [] zero h d le = refl
scan-first link back test a [] (suc fuel) h d le = rw h.0 refl
scan-first link back test a (x ∷ xs) zero h d le = absurd (omega arith)
scan-first link back test a (x ∷ xs) (suc fuel) h d le =
    let rest = scan-first link back test x xs fuel h.2 d.1 (omega arith) in
    rw h.0 (ground (arith, rest, d.0))

All-reverse_aux :
    (P : ℕ → Type 0) (xs acc : List ℕ) → All P xs → All P acc → All P (reverse_aux xs acc)
All-reverse_aux P [] acc h k = k
All-reverse_aux P (x ∷ xs) acc h k = All-reverse_aux P xs (x ∷ acc) h.1 (h.0, k)

length-reverse_aux : (xs acc : List ℕ) → length (reverse_aux xs acc) ≡ length xs + length acc
length-reverse_aux [] acc = omega arith
length-reverse_aux (x ∷ xs) acc = omega (arith, length-reverse_aux xs (x ∷ acc))

-- both loops of `bget`, on the list of the buffers
pub bget-first :
    (s : Bcache) (xs : List ℕ) (dev sector : ℕ)
    → IsRing s xs
    → bget s dev sector
      ≡ choose s dev sector (first (holds s dev sector) xs) (first (idle s) (reverse xs))
unfolding bget
bget-first s xs dev sector r =
    let next = λ (b : ℕ). (s.buf b).next in
    let prev = λ (b : ℕ). (s.buf b).prev in
    let there =
      scan-first next prev (holds s dev sector) head xs nbuf r.linked r.distinct.0 r.count in
    let back =
      scan-first prev next (idle s) head (reverse xs) nbuf
        (Seg-reverse next prev head xs head r.linked)
        (All-reverse_aux (λ x. head ≢ x) xs [] r.distinct.0 tt)
        (omega (arith, r.count, length-reverse_aux xs [])) in
    ap (λ c. choose s dev sector c (scan prev (idle s) (prev head) nbuf)) there
    ∙ ap (λ r. choose s dev sector (first (holds s dev sector) xs) r) back

-- the changes of the list of buffers
module _ (a b : ℕ) (zs : List ℕ) where
  All-split : (P : ℕ → Type 0) (ys : List ℕ) → All P (ys ++ b ∷ zs) → P b × All P (ys ++ zs)
  All-split P [] h = h
  All-split P (y ∷ ys) h = let (p, q) = All-split P ys h.1 in (p, (h.0, q))

  Distinct-split : (ys : List ℕ) → Distinct (ys ++ b ∷ zs) → Distinct (b ∷ ys ++ zs)
  Distinct-split [] d = d
  Distinct-split (y ∷ ys) d =
      let (fresh, e) = Distinct-split ys d.1 in
      let (yb, ys_fresh) = All-split (λ x. y ≢ x) ys d.0 in
      (((λ q. yb (sym q)), fresh), (ys_fresh, e))

  length-split : (ys : List ℕ) → length (ys ++ b ∷ zs) ≡ length (b ∷ ys ++ zs)
  length-split [] = refl
  length-split (y ∷ ys) = ap suc (length-split ys)

-- What `brelse` of `b` has done.
pub record Released (s : Bcache) (b : ℕ) (xs : List ℕ) (s' : Bcache) : Type 0 where
  pub ring : IsRing s' (b ∷ xs)
  pub kept :
      (c : ℕ)
      → unlinked (s'.buf c)
        ≡ unlinked (record (s.buf c) { busy = if b == c then false else (s.buf c).busy })
  pub disk : s'.disk ≡ s.disk

pub Seg-links :
    {n n' p p' : ℕ → ℕ}
    → n ≡ n'
    → p ≡ p'
    → (a : ℕ) (xs : List ℕ) (z : ℕ) → Seg n p a xs z
    → Seg n' p' a xs z
Seg-links {n' = n'} {p = p} e d a xs z h =
    subst (λ f. Seg n' f a xs z) d (subst (λ f. Seg f p a xs z) e h)

-- the links after `brelse`
moved-IsRing :
    (s : Bcache) (ys : List ℕ) (b : ℕ) (zs : List ℕ)
    → IsRing s (ys ++ b ∷ zs)
    → IsRing (push_front (unlink s b) b) (b ∷ ys ++ zs)
moved-IsRing s ys b zs r =
    let (head_b, head_xs) = All-split head b zs (λ x. head ≢ x) ys r.distinct.0 in
    let (b_xs, distinct) = Distinct-split head b zs ys r.distinct.1 in
    let s1 = unlink s b in
    let without : Seg (next_of s1) (prev_of s1) head (ys ++ zs) head =
      Seg-links (sym (unlink-next s b)) (sym (unlink-prev s b)) head (ys ++ zs) head
        (Seg-unlink (next_of s) (prev_of s) head ys b zs head r.distinct r.distinct.0 r.linked) in
    record {
      linked =
          Seg-links (sym (push_front-next s1 b)) (sym (push_front-prev s1 b (λ q. head_b (sym q))))
            head (b ∷ ys ++ zs) head
            (Seg-push (next_of s1) (prev_of s1) head b (next_of s1 head) (ys ++ zs) head_b b_xs
              head_xs distinct refl without);
      distinct = ((head_b, head_xs), (b_xs, distinct));
      count = subst (λ n. n ≤ nbuf) (length-split head b zs ys) r.count;
    }

freed-unlinked :
    (s s1 : Bcache) (b c : ℕ)
    → unlinked (s1.buf c) ≡ unlinked (s.buf c)
    → unlinked ((set_buf s1 b (record (s1.buf b) { busy = false })).buf c)
      ≡ unlinked (record (s.buf c) { busy = if b == c then false else (s.buf c).busy })
freed-unlinked s s1 b c same = elim (ℕ_discrete b c) [
  | yes e ↦ rw (e, ==_refl c) (ap (λ (v : Buf). record v { busy = false }) same)
  | no away ↦ rw (==_ne b c away) same
]

-- `brelse` of a busy buffer: it comes first in the ring and the others keep their order, the buffer
-- is not busy any more, and nothing else of the buffers and of the disk changes.
pub brelse_lem :
    (s : Bcache) (ys : List ℕ) (b : ℕ) (zs : List ℕ)
    → IsRing s (ys ++ b ∷ zs)
    → (s.buf b).busy ≡ true
    → (s' : Bcache) × (brelse s b ≡ ok s') × Released s b (ys ++ zs) s'
unfolding brelse
brelse_lem s ys b zs r busy =
    let s1 = push_front (unlink s b) b in
    let freed = record (s1.buf b) { busy = false } in
    let moved = moved-IsRing s ys b zs r in
    (
      set_buf s1 b freed,
      rw busy refl,
      record {
        ring = record {
          linked =
              Seg-links (sym (fun_ext λ c. update-kept (λ (w : Buf). w.next) s1.buf b freed c refl))
                (sym (fun_ext λ c. update-kept (λ (w : Buf). w.prev) s1.buf b freed c refl)) head
                (b ∷ ys ++ zs) head moved.linked;
          distinct = moved.distinct;
          count = moved.count;
        };
        kept = λ c.
            freed-unlinked s s1 b c (push_front-unlinked (unlink s b) b c ∙ unlink-unlinked s b c);
        disk = moved-disk s b;
      },
    )
