-- ===== src/Log/Install.antt =====
-- What `install_trans` does on a disk whose header names the blocks of a committed transaction.
use os_ass.Base.{
  ℕ, zero, suc, ◌+◌, ◌≤◌, ◌<◌, ◌≡◌, ◌≢◌, refl, ◌⊎◌, inl, inr, arith, update, All, ℕ_discrete, ap,
  ◌∙◌,
}
use os_ass.Log.{Log, Disk, Block, bwrite, install_loop, install_trans}

-- outside the log
abbrev pub Home : ℕ → ℕ → ℕ → Type 0
Home start size a = (a < start) ⊎ (start + size ≤ a)

-- The header of the disk `d` names the `n` blocks `sec`, whose new contents stand in the log. With
-- these installed, the blocks outside the log are those of `v`.
pub record Ready (start size n : ℕ) (sec : ℕ → ℕ) (v d : Disk) : Type 0 where
  pub room : n < size
  pub count : d start 0 ≡ n
  pub words : (i : ℕ) → i < n → d start (i + 1) ≡ sec i
  pub homes : (i : ℕ) → i < n → Home start size (sec i)
  pub blocks : (i : ℕ) → i < n → d (start + i + 1) ≡ v (sec i)
  pub views : (a : ℕ) → Home start size a → (d a ≡ v a) ⊎ ((i : ℕ) × (i < n) × (sec i ≡ a))

abbrev pub ReadyLog : Disk → Log → Type 0
ReadyLog v l = Ready l.start l.size l.n l.sector v l.disk

pub update-block : (d : Disk) (b c : ℕ) (v : Block) → b ≢ c → update d b v c ≡ d c
update-block d b c v h = ground arith

pub update-same : (d : Disk) (b c : ℕ) (v : Block) → b ≡ c → update d b v c ≡ v
update-same d b c v h = ground arith

-- installing one block leaves the disk ready
install_one :
    {start size n : ℕ} {sec : ℕ → ℕ} {v d : Disk} (t : ℕ)
    → t < n
    → Ready start size n sec v d
    → Ready start size n sec v (update d (sec t) (d (start + t + 1)))
install_one {start} {size} {n} {sec} {v} {d} t lt r = record {
  room = r.room;
  count = rw (same start (omega (arith, r.room, r.homes t lt))) r.count;
  words = λ i h. rw (same start (omega (arith, r.room, r.homes t lt))) (r.words i h);
  homes = r.homes;
  blocks = λ i h. rw (same (start + i + 1) (omega (arith, r.room, r.homes t lt))) (r.blocks i h);
  views = λ a h. elim (ℕ_discrete (sec t) a) [
    | yes e ↦ inr (t, lt, e)
    | no ne ↦ rw (same a ne) (r.views a h)
  ];
}
  where
    same : (c : ℕ) → sec t ≢ c → update d (sec t) (d (start + t + 1)) c ≡ d c
    same c ne = update-block d (sec t) c (d (start + t + 1)) ne

-- The fields that `install_loop` leaves alone.
pub record SameHead (l l' : Log) : Type 0 where
  pub start : l'.start ≡ l.start
  pub size : l'.size ≡ l.size
  pub busy : l'.busy ≡ l.busy
  pub n : l'.n ≡ l.n
  pub sector : l'.sector ≡ l.sector

pub install_loop-SameHead : (l : Log) (t k : ℕ) → SameHead l (install_loop l t k)
unfolding install_loop
install_loop-SameHead l t zero = record {
  start = refl;
  size = refl;
  busy = refl;
  n = refl;
  sector = refl;
}
install_loop-SameHead l t (suc k) =
    let r = install_loop-SameHead (bwrite l (l.sector t) (l.disk (l.start + t + 1))) (t + 1) k in
    record { start = r.start; size = r.size; busy = r.busy; n = r.n; sector = r.sector }

-- Rounds `t` to `n - 1` leave the disk ready, and so does each of their writes.
install_loop-Ready :
    (P : Disk → Type 0) (v : Disk) (l : Log) (t k : ℕ)
    → t + k ≡ l.n
    → ReadyLog v l
    → ((d : Disk) → Ready l.start l.size l.n l.sector v d → P d)
    → All P l.history
    → Ready l.start l.size l.n l.sector v (install_loop l t k).disk
      × All P (install_loop l t k).history
unfolding install_loop
install_loop-Ready P v l t zero e r ready h = (r, h)
install_loop-Ready P v l t (suc k) e r ready h =
    let r' = install_one t (omega arith) r in
    install_loop-Ready P v (bwrite l (l.sector t) (l.disk (l.start + t + 1))) (t + 1) k
      (omega arith) r' ready (ready _ r', h)

-- After the last round the blocks outside the log are those of `v`.
install_loop-view :
    (v : Disk) (l : Log) (t k a : ℕ)
    → t + k ≡ l.n
    → ReadyLog v l
    → (l.disk a ≡ v a) ⊎ ((i : ℕ) × (t ≤ i) × (i < l.n) × (l.sector i ≡ a))
    → (install_loop l t k).disk a ≡ v a
unfolding install_loop
install_loop-view v l t zero a e r (inl h) = h
install_loop-view v l t zero a e r (inr (i, lo, hi, h)) = absurd (omega arith)
install_loop-view v l t (suc k) a e r todo =
    install_loop-view v (bwrite l (l.sector t) (l.disk (l.start + t + 1))) (t + 1) k a (omega arith)
      (install_one t (omega arith) r) (next todo)
  where
    next :
        (l.disk a ≡ v a) ⊎ ((i : ℕ) × (t ≤ i) × (i < l.n) × (l.sector i ≡ a))
        → (update l.disk (l.sector t) (l.disk (l.start + t + 1)) a ≡ v a)
          ⊎ ((i : ℕ) × (t + 1 ≤ i) × (i < l.n) × (l.sector i ≡ a))
    next todo = elim (ℕ_discrete (l.sector t) a) [
      | yes p ↦ inl (
          update-same l.disk (l.sector t) a (l.disk (l.start + t + 1)) p
          ∙ r.blocks t (omega arith)
          ∙ ap v p)
      | no ne ↦ elim todo [
        | inl h ↦ inl (update-block l.disk (l.sector t) a (l.disk (l.start + t + 1)) ne ∙ h)
        | inr (i, lo, hi, h) ↦ inr (i, later i lo h ne, hi, h)
      ]
    ]
      where
        later : (i : ℕ) → t ≤ i → l.sector i ≡ a → l.sector t ≢ a → t + 1 ≤ i
        later i lo h ne = elim (ℕ_discrete t i) [
          | yes p ↦ absurd (ne (ap l.sector p ∙ h))
          | no q ↦ omega arith
        ]

-- `install_trans` on a ready disk: the blocks outside the log become those of `v`, and every disk on
-- the way is ready.
pub install_trans_lem :
    (P : Disk → Type 0) (v : Disk) (l : Log)
    → ReadyLog v l
    → ((d : Disk) → Ready l.start l.size l.n l.sector v d → P d)
    → All P l.history
    → Ready l.start l.size l.n l.sector v (install_trans l).disk
      × All P (install_trans l).history
      × ((a : ℕ) → Home l.start l.size a → (install_trans l).disk a ≡ v a)
unfolding install_trans
install_trans_lem P v l r ready h =
    let (r', h') = install_loop-Ready P v l 0 l.n (omega arith) r ready h in
    (
      r',
      h',
      λ a home. install_loop-view v l 0 l.n a (omega arith) r (start_from a (r.views a home)),
    )
  where
    start_from :
        (a : ℕ)
        → (l.disk a ≡ v a) ⊎ ((i : ℕ) × (i < l.n) × (l.sector i ≡ a))
        → (l.disk a ≡ v a) ⊎ ((i : ℕ) × (0 ≤ i) × (i < l.n) × (l.sector i ≡ a))
    start_from a (inl e) = inl e
    start_from a (inr (i, lt, e)) = inr (i, omega arith, lt, e)
