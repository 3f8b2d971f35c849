-- ===== src/Fs/Iget.antt =====
-- `iget`: an inode of the disk has one slot of the cache at most.
use os_ass.Base.{
  ℕ_discrete, ap, zero, suc, some, none, false, ok, panic, inl, inr, ℕ, refl, arith, ◌≡◌, Option,
  ◌+◌, ◌<◌, Bool-cases, ◌≤◌, subst, ◌==◌, ltb, ◌&&◌, ◌∙◌, ==→eq, sym, ◌≢◌, ==_refl, ==_ne, ◌⊎◌,
  update,
}
use os_ass.Fs.{Inode, Fs, set_inode}
use os_ass.Fs.Icache.{ninode, Search, cached, missing, remember, search_cache, iget}

-- the slot holds the inode, and is in use
abbrev pub Holds : Inode → ℕ → ℕ → Type 0
Holds node dev inum = (0 < node.ref) × (node.dev ≡ dev) × (node.inum ≡ inum)

abbrev pub IsCache : (ℕ → Inode) → Type 0
IsCache inode =
    (i j : ℕ)
    → i < ninode
    → j < ninode
    → 0 < (inode j).ref
    → Holds (inode i) (inode j).dev (inode j).inum
    → i ≡ j

search_cached :
    (inode : ℕ → Inode) (dev inum i k : ℕ) (empty : Option ℕ) {r : ℕ}
    → search_cache inode dev inum i k empty ≡ cached r
    → (r < i + k) × Holds (inode r) dev inum
unfolding search_cache
search_cached inode dev inum i zero empty e = cc
search_cached inode dev inum i (suc k) empty {r} e =
    elim (Bool-cases (ltb 0 (inode i).ref && (inode i).dev == dev && (inode i).inum == inum)) [
      | inl hit ↦
          let here : i ≡ r = ground arith in
          (omega arith, subst (λ n. Holds (inode n) dev inum) here (ground arith))
      | inr miss ↦
          let (lt, h) =
            search_cached inode dev inum (i + 1) k (remember empty i (inode i)) (ground arith) in
          (subst (λ n. r < n) (omega arith) lt, h)
    ]

-- the slot that `remember` keeps is free
abbrev Kept : (ℕ → Inode) → ℕ → Option ℕ → Type 0
Kept inode n none = Unit
Kept inode n (some e) = (e < n) × ((inode e).ref ≡ 0)

remember-Kept :
    (inode : ℕ → Inode) (i : ℕ) (empty : Option ℕ)
    → Kept inode i empty
    → Kept inode (i + 1) (remember empty i (inode i))
remember-Kept inode i none h = elim (Bool-cases ((inode i).ref == 0)) [
  | inl z ↦ rw z (omega arith, ==→eq _ 0 z)
  | inr n ↦ rw n tt
]
remember-Kept inode i (some e) h = (omega arith, h.1)

remember-none :
    (empty : Option ℕ) (i : ℕ) (node : Inode)
    → remember empty i node ≡ none
    → (empty ≡ none) × (0 < node.ref)
remember-none none i node e = ground arith
remember-none (some x) i node e = ground arith

search_missing :
    (inode : ℕ → Inode) (dev inum i k : ℕ) (empty : Option ℕ) {o : Option ℕ}
    → search_cache inode dev inum i k empty ≡ missing o
    → Kept inode i empty
    → Kept inode (i + k) o
      × ((j : ℕ) → i ≤ j → j < i + k → Holds (inode j) dev inum → ⊥)
      × (o ≡ none → (empty ≡ none) × ((j : ℕ) → i ≤ j → j < i + k → 0 < (inode j).ref))
unfolding search_cache
search_missing inode dev inum i zero empty {o} e h =
    let same : empty ≡ o = ground arith in
    (
      subst (λ n. Kept inode n o) (omega arith) (subst (Kept inode i) same h),
      (λ j lo hi. absurd (omega arith)),
      λ n. (same ∙ n, λ j lo hi. absurd (omega arith)),
    )
search_missing inode dev inum i (suc k) empty {o} e h =
    elim (Bool-cases (ltb 0 (inode i).ref && (inode i).dev == dev && (inode i).inum == inum)) [
      | inl hit ↦ ground arith
      | inr miss ↦
          let (kept, none_there, full) =
            search_missing inode dev inum (i + 1) k (remember empty i (inode i)) {o = o}
              (ground arith) (remember-Kept inode i empty h) in
          (
            subst (λ n. Kept inode n o) (omega arith) kept,
            (λ j lo hi holds. elim (ℕ_discrete i j) [
              | yes q ↦
                  let at : Holds (inode i) dev inum =
                    subst (λ n. Holds (inode n) dev inum) (sym q) holds in
                  ground arith
              | no away ↦ none_there j (omega arith) (omega arith) holds
            ]),
            λ n.
                let (gone, later) = full n in
                let (was_none, used) = remember-none empty i (inode i) gone in
                (
                  was_none,
                  λ j lo hi. elim (ℕ_discrete i j) [
                    | yes q ↦ subst (λ m. 0 < (inode m).ref) q used
                    | no away ↦ later j (omega arith) (omega arith)
                  ],
                ),
          )
    ]

-- What `iget` has done when it gives the slot `i`.
pub record Got (s : Fs) (dev inum i : ℕ) (s' : Fs) : Type 0 where
  pub inside : i < ninode
  pub holds : Holds (s'.inode i) dev inum
  -- a slot that was in use held the inode already, and has one reference more
  pub shared : 0 < (s.inode i).ref → s'.inode i ≡ record (s.inode i) { ref = (s.inode i).ref + 1 }
  -- a slot that was free has one reference, and its contents are to be read
  pub recycled :
      (s.inode i).ref ≡ 0
      → ((s'.inode i).ref ≡ 1) × ((s'.inode i).valid ≡ false) × ((s'.inode i).busy ≡ false)
  pub others : (j : ℕ) → j ≢ i → s'.inode j ≡ s.inode j
  pub blocks : s'.blocks ≡ s.blocks
  pub unique : IsCache s'.inode

-- A slot gets an inode that no other slot holds.
update-IsCache :
    (inode : ℕ → Inode) (i : ℕ) (node : Inode)
    → IsCache inode
    → ((j : ℕ) → j < ninode → j ≢ i → Holds (inode j) node.dev node.inum → ⊥)
    → IsCache (update inode i node)
update-IsCache inode i node c alone a b ha hb used same = elim (ℕ_discrete i a) [
  | yes p ↦ elim (ℕ_discrete i b) [
    | yes q ↦ sym p ∙ q
    | no q ↦
        let at_a : update inode i node a ≡ node = rw (p, ==_refl a) in
        let at_b : update inode i node b ≡ inode b = rw (==_ne i b q) in
        let (_, d, n) =
          subst (λ x. Holds x (update inode i node b).dev (update inode i node b).inum) at_a same in
        let d' : node.dev ≡ (inode b).dev = d ∙ ap (λ (x : Inode). x.dev) at_b in
        let n' : node.inum ≡ (inode b).inum = n ∙ ap (λ (x : Inode). x.inum) at_b in
        absurd (
          alone b hb (λ z. q (sym z))
            (subst (λ x. 0 < x) (ap (λ (x : Inode). x.ref) at_b) used, sym d', sym n'))
  ]
  | no p ↦ elim (ℕ_discrete i b) [
    | yes q ↦
        let at_b : update inode i node b ≡ node = rw (q, ==_refl b) in
        let at_a : update inode i node a ≡ inode a = rw (==_ne i a p) in
        let (u, d, n) =
          subst (λ x. Holds x (update inode i node b).dev (update inode i node b).inum) at_a same in
        absurd (
          alone a ha (λ z. p (sym z))
            (u, d ∙ ap (λ (x : Inode). x.dev) at_b, n ∙ ap (λ (x : Inode). x.inum) at_b))
    | no q ↦
        let at_a : update inode i node a ≡ inode a = rw (==_ne i a p) in
        let at_b : update inode i node b ≡ inode b = rw (==_ne i b q) in
        let (u, d, n) =
          subst (λ x. Holds x (update inode i node b).dev (update inode i node b).inum) at_a same in
        c a b ha hb (subst (λ x. 0 < x) (ap (λ (x : Inode). x.ref) at_b) used)
          (u, d ∙ ap (λ (x : Inode). x.dev) at_b, n ∙ ap (λ (x : Inode). x.inum) at_b)
  ]
]

shared-Got :
    (s : Fs) (dev inum i : ℕ)
    → IsCache s.inode
    → i < ninode
    → Holds (s.inode i) dev inum
    → Got s dev inum i (set_inode s i (record (s.inode i) { ref = (s.inode i).ref + 1 }))
shared-Got s dev inum i c h holds = record {
  inside = h;
  holds = rw (==_refl i) (omega arith, holds.1, holds.2);
  shared = λ _. rw (==_refl i);
  recycled = λ z. absurd (omega (arith, holds.0));
  others = λ j n. rw (==_ne i j (λ q. n (sym q)));
  blocks = refl;
  unique = update-IsCache s.inode i _ c (λ j hj n there. n (c j i hj h holds.0 there));
}

recycled-Got :
    (s : Fs) (dev inum i : ℕ)
    → IsCache s.inode
    → i < ninode
    → (s.inode i).ref ≡ 0
    → ((j : ℕ) → j < ninode → Holds (s.inode j) dev inum → ⊥)
    → Got s dev inum i (
        set_inode s i
          (record (s.inode i) { dev = dev; inum = inum; ref = 1; busy = false; valid = false }))
recycled-Got s dev inum i c h free none_there = record {
  inside = h;
  holds = rw (==_refl i) (omega arith, refl, refl);
  shared = λ u. absurd (omega arith);
  recycled = λ _. rw (==_refl i) (refl, refl, refl);
  others = λ j n. rw (==_ne i j (λ q. n (sym q)));
  blocks = refl;
  unique = update-IsCache s.inode i _ c (λ j hj n there. none_there j hj there);
}

-- In a cache where no two slots in use hold the same inode, `iget` gives a slot that holds the inode
-- it was asked for: the one that held it, with a reference more, or a free one with one reference and
-- its flags clear. Nothing else changes, and still no two slots hold one inode. It panics only when
-- every slot is in use and none holds the inode.
pub iget_lem :
    (s : Fs) (dev inum : ℕ)
    → IsCache s.inode
    → ((i : ℕ) × (s' : Fs) × (iget s dev inum ≡ ok (i, s')) × Got s dev inum i s')
      ⊎ ((iget s dev inum ≡ panic)
          × ((j : ℕ) → j < ninode → (0 < (s.inode j).ref) × (Holds (s.inode j) dev inum → ⊥)))
unfolding iget
iget_lem s dev inum c = cases (search_cache s.inode dev inum 0 ninode none) refl
  where
    cases :
        (r : Search)
        → search_cache s.inode dev inum 0 ninode none ≡ r
        → ((i : ℕ) × (s' : Fs) × (iget s dev inum ≡ ok (i, s')) × Got s dev inum i s')
          ⊎ ((iget s dev inum ≡ panic)
              × ((j : ℕ) → j < ninode → (0 < (s.inode j).ref) × (Holds (s.inode j) dev inum → ⊥)))
    cases (cached i) e =
        let (inside, holds) = search_cached s.inode dev inum 0 ninode none e in
        inl (i, _, rw (e, iget), shared-Got s dev inum i c (omega arith) holds)
    cases (missing none) e =
        let (_, absent, full) = search_missing s.inode dev inum 0 ninode none e tt in
        inr (
          rw (e, iget),
          λ j h.
              ((full refl).1 j (omega arith) (omega arith), absent j (omega arith) (omega arith)),
        )
    cases (missing (some i)) e =
        let (kept, absent, _) = search_missing s.inode dev inum 0 ninode none e tt in
        inl (
          i,
          _,
          rw (e, iget),
          recycled-Got s dev inum i c (omega (arith, kept)) kept.1
              (λ j h. absent j (omega arith) (omega arith)),
        )
