-- ===== src/Bio/Links.antt =====
-- The links and the rest of the buffers after the changes of bio.c.
use os_ass.Base.{
  ℕ, ◌≡◌, ◌≢◌, refl, sym, ap, ◌∙◌, update, update_ne, fun_ext, ℕ_discrete, arith, update_self,
}
use os_ass.Bio.{head, Buf, Bcache, set_next, set_prev, push_front, unlink}

abbrev pub next_of : Bcache → ℕ → ℕ
next_of s b = (s.buf b).next

abbrev pub prev_of : Bcache → ℕ → ℕ
prev_of s b = (s.buf b).prev

-- a part of a buffer that a change keeps
pub update-kept :
    {A : Type 0} (part : Buf → A) (f : ℕ → Buf) (b : ℕ) (v : Buf) (c : ℕ)
    → part v ≡ part (f b)
    → part (update f b v c) ≡ part (f c)
update-kept part f b v c h = elim (ℕ_discrete b c) [
  | yes e ↦
      ap (λ k. part (update f b v k)) (sym e)
      ∙ ap part (update_self f b v)
      ∙ h
      ∙ ap (λ k. part (f k)) e
  | no away ↦ ap part (update_ne f b c v away)
]

-- the buffer but for its links
abbrev pub unlinked : Buf → Buf
unlinked v = record v { prev = 0; next = 0 }

set_next-unlinked :
    (s : Bcache) (b n c : ℕ) → unlinked ((set_next s b n).buf c) ≡ unlinked (s.buf c)
set_next-unlinked s b n c = update-kept unlinked s.buf b _ c refl

set_prev-unlinked :
    (s : Bcache) (b p c : ℕ) → unlinked ((set_prev s b p).buf c) ≡ unlinked (s.buf c)
set_prev-unlinked s b p c = update-kept unlinked s.buf b _ c refl

-- `unlink` and `push_front` change links only
pub unlink-unlinked : (s : Bcache) (b c : ℕ) → unlinked ((unlink s b).buf c) ≡ unlinked (s.buf c)
unfolding unlink
unlink-unlinked s b c =
    let s1 = set_prev s (s.buf b).next (s.buf b).prev in
    set_next-unlinked s1 (s1.buf b).prev (s1.buf b).next c
    ∙ set_prev-unlinked s (s.buf b).next (s.buf b).prev c

pub push_front-unlinked :
    (s : Bcache) (b c : ℕ) → unlinked ((push_front s b).buf c) ≡ unlinked (s.buf c)
unfolding push_front
push_front-unlinked s b c =
    let s1 = set_next s b (s.buf head).next in
    let s2 = set_prev s1 b head in
    let s3 = set_prev s2 (s2.buf head).next b in
    set_next-unlinked s3 head b c
    ∙ set_prev-unlinked s2 (s2.buf head).next b c
    ∙ set_prev-unlinked s1 b head c
    ∙ set_next-unlinked s b (s.buf head).next c

module _ (s : Bcache) (b v : ℕ) where
  set_next-next : next_of (set_next s b v) ≡ update (next_of s) b v
  set_next-next = fun_ext λ c. ground arith

  set_prev-prev : prev_of (set_prev s b v) ≡ update (prev_of s) b v
  set_prev-prev = fun_ext λ c. ground arith

  set_next-prev : prev_of (set_next s b v) ≡ prev_of s
  set_next-prev = fun_ext λ c. update-kept (λ (w : Buf). w.prev) s.buf b _ c refl

  set_prev-next : next_of (set_prev s b v) ≡ next_of s
  set_prev-next = fun_ext λ c. update-kept (λ (w : Buf). w.next) s.buf b _ c refl

pub unlink-next :
    (s : Bcache) (b : ℕ) → next_of (unlink s b) ≡ update (next_of s) (prev_of s b) (next_of s b)
unfolding unlink
unlink-next s b =
    let s1 = set_prev s (s.buf b).next (s.buf b).prev in
    let n = set_prev-next s (s.buf b).next (s.buf b).prev in
    let p : prev_of s1 b ≡ prev_of s b =
      ap (λ (f : ℕ → ℕ). f b) (set_prev-prev s (s.buf b).next (s.buf b).prev) ∙ ground arith in
    set_next-next s1 (s1.buf b).prev (s1.buf b).next
    ∙ ap (λ (f : ℕ → ℕ). update f (prev_of s1 b) (f b)) n
    ∙ ap (λ m. update (next_of s) m (next_of s b)) p

pub unlink-prev :
    (s : Bcache) (b : ℕ) → prev_of (unlink s b) ≡ update (prev_of s) (next_of s b) (prev_of s b)
unfolding unlink
unlink-prev s b =
    let s1 = set_prev s (s.buf b).next (s.buf b).prev in
    set_next-prev s1 (s1.buf b).prev (s1.buf b).next ∙ set_prev-prev s (s.buf b).next (s.buf b).prev

pub push_front-next :
    (s : Bcache) (b : ℕ)
    → next_of (push_front s b) ≡ update (update (next_of s) b (next_of s head)) head b
unfolding push_front
push_front-next s b =
    let s1 = set_next s b (s.buf head).next in
    let s2 = set_prev s1 b head in
    let s3 = set_prev s2 (s2.buf head).next b in
    set_next-next s3 head b
    ∙ ap (λ (f : ℕ → ℕ). update f head b)
        (set_prev-next s2 (s2.buf head).next b
          ∙ set_prev-next s1 b head
          ∙ set_next-next s b (s.buf head).next)

pub push_front-prev :
    (s : Bcache) (b : ℕ)
    → b ≢ head
    → prev_of (push_front s b) ≡ update (update (prev_of s) b head) (next_of s head) b
unfolding push_front
push_front-prev s b ne =
    let s1 = set_next s b (s.buf head).next in
    let s2 = set_prev s1 b head in
    let s3 = set_prev s2 (s2.buf head).next b in
    let at_head : next_of s2 head ≡ next_of s head =
      ap (λ (f : ℕ → ℕ). f head) (set_prev-next s1 b head ∙ set_next-next s b (s.buf head).next)
      ∙ update_ne (next_of s) b head (next_of s head) ne in
    set_next-prev s3 head b
    ∙ set_prev-prev s2 (s2.buf head).next b
    ∙ ap (λ (f : ℕ → ℕ). update f (next_of s2 head) b)
        (set_prev-prev s1 b head
          ∙ ap (λ (f : ℕ → ℕ). update f b head) (set_next-prev s b (s.buf head).next))
    ∙ ap (λ n. update (update (prev_of s) b head) n b) at_head

pub moved-disk : (s : Bcache) (b : ℕ) → (push_front (unlink s b) b).disk ≡ s.disk
unfolding push_front unlink
moved-disk s b = refl
