-- ===== src/Bio/Coherent.antt =====
-- When the buffers agree with the disk: a sector has one buffer at most, and an idle one is on the disk.
use os_ass.Base.{
  ℕ, ◌-◌, ◌^◌, ◌≡◌, ◌≢◌, ◌⊎◌, inl, inr, sym, ◌∙◌, subst, fun_ext, List, [], ◌∷◌, reverse_aux,
  Bool-cases, ℕ_discrete, ==_refl, ==_ne, update, Bool, true, false, none, some, arith,
}
use os_ass.Bio.{head, Buf, Bcache, set_buf}
use os_ass.Bio.Links.{update-kept}
use os_ass.Bio.Lru.{IsRing, Seg-links, first}

-- the list has the element
abbrev pub In : ℕ → List ℕ → Type 0
In b [] = ⊥
In b (x ∷ xs) = (x ≡ b) ⊎ In b xs

-- the device of a buffer that holds no sector
abbrev pub no_dev : ℕ
no_dev = 2 ^ 32 - 1

pub record IsCoherent (s : Bcache) (xs : List ℕ) : Type 0 where
  pub ring : IsRing s xs
  -- a sector has one buffer at most
  pub unique :
      (b c : ℕ)
      → In b xs
      → In c xs
      → (s.buf b).dev ≢ no_dev
      → (s.buf b).dev ≡ (s.buf c).dev
      → (s.buf b).sector ≡ (s.buf c).sector
      → b ≡ c
  -- what nobody uses and is not to be written is on the disk
  pub clean :
      (b : ℕ)
      → In b xs
      → (s.buf b).valid ≡ true
      → (s.buf b).dirty ≡ false
      → (s.buf b).busy ≡ false
      → (s.buf b).data_of ≡ s.disk (s.buf b).sector
  pub on_disk : (b : ℕ) → In b xs → (s.buf b).valid ≡ true → (s.buf b).dev ≡ 1
  pub dirty_valid : (b : ℕ) → In b xs → (s.buf b).valid ≡ false → (s.buf b).dirty ≡ false

pub first-some :
    (test : ℕ → Bool) (xs : List ℕ) {b : ℕ} → first test xs ≡ some b → In b xs × (test b ≡ true)
first-some test [] e = ground arith
first-some test (x ∷ xs) {b} e = elim (Bool-cases (test x)) [
  | inl t ↦ let here : x ≡ b = ground arith in (inl here, subst (λ y. test y ≡ true) here t)
  | inr f ↦ let (later, t) = first-some test xs {b = b} (ground arith) in (inr later, t)
]

pub first-none :
    (test : ℕ → Bool) (xs : List ℕ) → first test xs ≡ none → (b : ℕ) → In b xs → test b ≡ false
first-none test [] e b h = elim h [ ]
first-none test (x ∷ xs) e b (inl here) = subst (λ y. test y ≡ false) here (ground arith)
first-none test (x ∷ xs) e b (inr later) = first-none test xs (ground arith) b later

pub In-reverse_aux : (b : ℕ) (xs acc : List ℕ) → In b (reverse_aux xs acc) → In b xs ⊎ In b acc
In-reverse_aux b [] acc h = inr h
In-reverse_aux b (x ∷ xs) acc h = elim (In-reverse_aux b xs (x ∷ acc) h) [
  | inl m ↦ inl (inr m)
  | inr (inl e) ↦ inl (inl e)
  | inr (inr m) ↦ inr m
]

pub In-reverse_aux-from : (b : ℕ) (xs acc : List ℕ) → In b xs ⊎ In b acc → In b (reverse_aux xs acc)
In-reverse_aux-from b [] acc (inl m) = elim m [ ]
In-reverse_aux-from b [] acc (inr m) = m
In-reverse_aux-from b (x ∷ xs) acc (inl (inl e)) = In-reverse_aux-from b xs (x ∷ acc) (inr (inl e))
In-reverse_aux-from b (x ∷ xs) acc (inl (inr m)) = In-reverse_aux-from b xs (x ∷ acc) (inl m)
In-reverse_aux-from b (x ∷ xs) acc (inr m) = In-reverse_aux-from b xs (x ∷ acc) (inr (inr m))

-- two buffers with one sector are the same
abbrev Alike : Buf → Buf → ℕ → ℕ → Type 0
Alike v w b c = v.dev ≢ no_dev → v.dev ≡ w.dev → v.sector ≡ w.sector → b ≡ c

-- a buffer that nobody uses, against the disk
abbrev pub Clean : (ℕ → ℕ → ℕ) → Buf → Type 0
Clean disk v = v.valid ≡ true → v.dirty ≡ false → v.busy ≡ false → v.data_of ≡ disk v.sector

-- A buffer in use may change, if its sector has no other buffer.
module _ (s : Bcache) (xs : List ℕ) (b : ℕ) (v : Buf) (h : IsCoherent s xs) where
  changed-Alike :
      ((c : ℕ) → In c xs → b ≢ c → Alike v (s.buf c) b c)
      → (c d : ℕ) → In c xs
      → In d xs
      → Alike (update s.buf b v c) (update s.buf b v d) c d
  changed-Alike alone c d hc hd = elim (ℕ_discrete b c) [
    | yes p ↦ elim (ℕ_discrete b d) [
      | yes q ↦ λ _ _ _. sym p ∙ q
      | no q ↦ rw (p, ==_refl c, ==_ne c d (λ z. q (p ∙ z))) (λ m x y. sym p ∙ alone d hd q m x y)
    ]
    | no p ↦ elim (ℕ_discrete b d) [
      | yes q ↦
          rw (==_ne b c p, q, ==_refl d)
            (λ m x y. sym (alone c hc p (λ z. m (x ∙ z)) (sym x) (sym y)) ∙ q)
      | no q ↦ rw (==_ne b c p, ==_ne b d q) (h.unique c d hc hd)
    ]
  ]

  pub changed-IsCoherent :
      v.busy ≡ true
      → v.next ≡ (s.buf b).next
      → v.prev ≡ (s.buf b).prev
      → (v.valid ≡ true → v.dev ≡ 1)
      → (v.valid ≡ false → v.dirty ≡ false)
      → ((c : ℕ) → In c xs → b ≢ c → Alike v (s.buf c) b c)
      → IsCoherent (set_buf s b v) xs
  changed-IsCoherent busy n p known pinned alone = record {
    ring = record {
      linked =
          Seg-links (sym (fun_ext λ c. update-kept (λ (w : Buf). w.next) s.buf b v c n))
            (sym (fun_ext λ c. update-kept (λ (w : Buf). w.prev) s.buf b v c p)) head xs head
            h.ring.linked;
      distinct = h.ring.distinct;
      count = h.ring.count;
    };
    unique = changed-Alike alone;
    clean = λ c hc. elim (ℕ_discrete b c) [
      | yes e ↦ rw (e, ==_refl c) (λ _ _ z. cc)
      | no away ↦ rw (==_ne b c away) (h.clean c hc)
    ];
    on_disk = λ c hc. elim (ℕ_discrete b c) [
      | yes e ↦ rw (e, ==_refl c) known
      | no away ↦ rw (==_ne b c away) (h.on_disk c hc)
    ];
    dirty_valid = λ c hc. elim (ℕ_discrete b c) [
      | yes e ↦ rw (e, ==_refl c) pinned
      | no away ↦ rw (==_ne b c away) (h.dirty_valid c hc)
    ];
  }
