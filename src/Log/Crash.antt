-- ===== src/Log/Crash.antt =====
-- Recovery after a crash, and the writes of `commit_trans` one by one.
use os_ass.Base.{ℕ, ◌+◌, ◌<◌, ◌≡◌, ◌≢◌, refl, ◌⊎◌, inl, inr, arith, update, ◌∙◌, sym, subst, ap}
use os_ass.Log.{
  Log, Disk, Block, zeroed, read_head, read_sectors, write_head, write_sectors, install_trans,
}
use os_ass.Log.Words.{read_sectors_lem, write_sectors_lem, write_sectors-zero}
use os_ass.Log.Install.{Home, Ready, ReadyLog, install_loop-SameHead, update-block, update-same}

-- The disk `d` is ready for `w`, with some header: recovery leaves the blocks of `w` outside the log.
abbrev pub Stable : ℕ → ℕ → Disk → Disk → Type 0
Stable start size w d = (n : ℕ) × (sec : ℕ → ℕ) × Ready start size n sec w d

-- the block that holds the header is not a home block
pub write_head-Home :
    (l : Log) (a : ℕ) → 0 < l.size → Home l.start l.size a → (write_head l).disk a ≡ l.disk a
unfolding write_head
write_head-Home l a h home = update-block l.disk l.start a _ (omega arith)

pub read_head-Ready :
    (start size n : ℕ) (sec : ℕ → ℕ) (v d : Disk)
    → Ready start size n sec v d
    → ReadyLog v (read_head (zeroed start size d))
unfolding read_head
read_head-Ready start size n sec v d r = record {
  room = omega (arith, r.room, r.count);
  count = refl;
  words = λ i h. sym (at i h);
  homes = λ i h. subst (Home start size) (sym (at i h ∙ r.words i (less h))) (r.homes i (less h));
  blocks = λ i h. r.blocks i (less h) ∙ ap v (sym (at i h ∙ r.words i (less h)));
  views = λ a home. found a (r.views a home);
}
  where
    less : {i : ℕ} → i < d start 0 → i < n
    less h = omega (arith, r.count)

    at : (i : ℕ) → i < d start 0 → read_sectors (d start) (λ _. 0) 0 (d start 0) i ≡ d start (i + 1)
    at i h = ground (arith, read_sectors_lem (d start) (λ _. 0) 0 (d start 0) i)

    found :
        (a : ℕ)
        → (d a ≡ v a) ⊎ ((i : ℕ) × (i < n) × (sec i ≡ a))
        → (d a ≡ v a)
          ⊎ ((i : ℕ) × (i < d start 0) × (read_sectors (d start) (λ _. 0) 0 (d start 0) i ≡ a))
    found a (inl e) = inl e
    found a (inr (i, lt, e)) =
        inr (i, omega (arith, r.count), at i (omega (arith, r.count)) ∙ r.words i lt ∙ e)

pub install_trans-start :
    (l : Log) → ((install_trans l).start ≡ l.start) × ((install_trans l).size ≡ l.size)
unfolding install_trans
install_trans-start l = let s = install_loop-SameHead l 0 l.n in (s.start, s.size)

-- A disk whose header counts no block is stable.
pub clear-Stable :
    (start size : ℕ) (v d : Disk)
    → 0 < size
    → d start 0 ≡ 0
    → ((a : ℕ) → Home start size a → d a ≡ v a)
    → Stable start size v d
clear-Stable start size v d room clear same = (
  0,
  λ _. 0,
  record {
    room = room;
    count = clear;
    words = λ i. omega arith;
    homes = λ i h. absurd (omega arith);
    blocks = λ i h. absurd (omega arith);
    views = λ a home. inl (same a home);
  },
)

pub Ready-Stable :
    {start size n : ℕ} {sec : ℕ → ℕ} {v d : Disk}
    → Ready start size n sec v d
    → Stable start size v d
Ready-Stable {n = n} {sec = sec} r = (n, sec, r)

-- An open transaction: the home blocks on disk are those of `d0`, the header on disk counts no block,
-- and the log holds what turns them into those of `v`.
pub record Pending (d0 v : Disk) (l : Log) : Type 0 where
  pub room : l.n < l.size
  pub clear : l.disk l.start 0 ≡ 0
  pub old : (a : ℕ) → Home l.start l.size a → l.disk a ≡ d0 a
  pub homes : (i : ℕ) → i < l.n → Home l.start l.size (l.sector i)
  pub blocks : (i : ℕ) → i < l.n → l.disk (l.start + i + 1) ≡ v (l.sector i)
  pub views :
      (a : ℕ) → Home l.start l.size a → (d0 a ≡ v a) ⊎ ((i : ℕ) × (i < l.n) × (l.sector i ≡ a))
  pub distinct : (i j : ℕ) → i < l.n → j < l.n → l.sector i ≡ l.sector j → i ≡ j

-- Writing the header commits: from here on the disk is ready for `v`.
pub write_head-Ready : (d0 v : Disk) (l : Log) → Pending d0 v l → ReadyLog v (write_head l)
unfolding write_head
write_head-Ready d0 v l p = record {
  room = p.room;
  count = rw (itself, write_sectors-zero) refl;
  words = λ i h. rw (itself, write_sectors_lem) (ground arith);
  homes = p.homes;
  blocks = λ i h. rw (other (l.start + i + 1) (omega arith)) (p.blocks i h);
  views = λ a home. rw (other a (omega (arith, p.room))) (moved a home (p.views a home));
}
  where
    header : Block
    header = write_sectors l.sector (update (l.disk l.start) 0 l.n) 0 l.n

    itself : update l.disk l.start header l.start ≡ header
    itself = update-same l.disk l.start l.start header refl

    other : (c : ℕ) → l.start ≢ c → update l.disk l.start header c ≡ l.disk c
    other c ne = update-block l.disk l.start c header ne

    moved :
        (a : ℕ)
        → Home l.start l.size a
        → (d0 a ≡ v a) ⊎ ((i : ℕ) × (i < l.n) × (l.sector i ≡ a))
        → (l.disk a ≡ v a) ⊎ ((i : ℕ) × (i < l.n) × (l.sector i ≡ a))
    moved a home (inl e) = inl (p.old a home ∙ e)
    moved a home (inr found) = inr found
