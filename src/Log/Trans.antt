-- ===== src/Log/Trans.antt =====
-- A whole transaction: `begin_trans`, any number of `log_write`s, `commit_trans`.
use os_ass.Base.{
  ◌>>=◌, bind_inv, All-map, ℕ, ◌+◌, ◌-◌, ◌≤◌, ◌<◌, ◌≡◌, ◌≢◌, refl, ◌⊎◌, inl, inr, arith, update,
  All, List, [], ◌∷◌, dec_lt, ℕ_discrete, if◌then◌else◌, subst, ◌==◌, ◌∙◌, sym, ap, Outcome, false,
  ok, some, All-map, true, bind_inv,
}
use mathlib.Core.Path.{subst₂}
use os_ass.Log.{
  Log, Disk, Block, find_sector, append, log_write, logsize, begin_trans, commit_trans,
  commit_writes,
}
use os_ass.Log.Words.{find_sector_lem}
use os_ass.Log.Install.{Home, update-same, update-block}
use os_ass.Log.Crash.{Stable, clear-Stable, Pending}
use os_ass.Log.Commit.{OldOrNew, IsClear, commit_writes-Committed}

-- `log_write` keeps the transaction pending, now for one more block.
module _ (d0 v : Disk) (l : Log) (b : ℕ) (x : Block) (p : Pending d0 v l)
    (home : Home l.start l.size b) (room : l.n < l.size - 1) where
  -- where the block goes in the log
  abbrev slot : ℕ
  slot = find_sector l.sector b 0 l.n

  abbrev count : ℕ
  count = if slot == l.n then l.n + 1 else l.n

  slot-le : slot ≤ l.n
  slot-le = omega (arith, (find_sector_lem l.sector b 0 l.n).1)

  -- no other entry of the log is for `b`
  only_slot : (j : ℕ) → j < count → slot ≢ j → (j < l.n) × (l.sector j ≢ b)
  only_slot j lt ne = (below, other)
    where
      below : j < l.n
      below = ground (arith, slot-le)

      other : l.sector j ≢ b
      other e = elim (find_sector_lem l.sector b 0 l.n).2 [
        | inl last ↦
            (find_sector_lem l.sector b 0 l.n).3 j (omega arith) (omega (arith, last, below)) e
        | inr hit ↦ elim (dec_lt j slot) [
          | yes before ↦ (find_sector_lem l.sector b 0 l.n).3 j (omega arith) before e
          | no after ↦ ne (p.distinct slot j (omega (arith, below)) below (hit ∙ sym e))
        ]
      ]

  -- an entry that is found is for `b`
  slot-hit : slot < l.n → l.sector slot ≡ b
  slot-hit lt = elim (find_sector_lem l.sector b 0 l.n).2 [
    | inl last ↦ absurd (omega arith)
    | inr hit ↦ hit
  ]

  append-Pending : Pending d0 (update v b x) (append l b x)
  unfolding append
  append-Pending = record {
    room = ground (arith, slot-le);
    clear = rw (apart l.start (omega arith)) p.clear;
    old = λ a h. rw (apart a (omega (arith, slot-le))) (p.old a h);
    homes = λ j lt. elim (ℕ_discrete slot j) [
      | yes e ↦ subst (Home l.start l.size) (sym (update-here j e)) home
      | no ne ↦
          subst (Home l.start l.size) (sym (update-there j ne)) (p.homes j (only_slot j lt ne).0)
    ];
    blocks = λ j lt. elim (ℕ_discrete slot j) [
      | yes e ↦ rw (update-here j e) (
          update-same l.disk (l.start + slot + 1) (l.start + j + 1) x (omega (arith, e))
          ∙ sym (update-same v b b x refl))
      | no ne ↦ rw (update-there j ne) (
          apart (l.start + j + 1) (λ q. ne (omega (arith, q)))
          ∙ p.blocks j (only_slot j lt ne).0
          ∙ sym (update-block v b (l.sector j) x (λ q. (only_slot j lt ne).1 (sym q))))
    ];
    views = λ a h. elim (ℕ_discrete b a) [
      | yes e ↦ inr (slot, ground (arith, slot-le), update-here slot refl ∙ e)
      | no ne ↦ kept a ne (p.views a h)
    ];
    distinct = λ i j hi hj e. elim (ℕ_discrete slot i) [
      | yes ei ↦ elim (ℕ_discrete slot j) [
        | yes ej ↦ sym ei ∙ ej
        | no nj ↦
            absurd ((only_slot j hj nj).1 (sym (update-there j nj) ∙ sym e ∙ update-here i ei))
      ]
      | no ni ↦ elim (ℕ_discrete slot j) [
        | yes ej ↦ absurd ((only_slot i hi ni).1 (sym (update-there i ni) ∙ e ∙ update-here j ej))
        | no nj ↦
            p.distinct i j (only_slot i hi ni).0 (only_slot j hj nj).0
              (sym (update-there i ni) ∙ e ∙ update-there j nj)
      ]
    ];
  }
    where
      apart : (c : ℕ) → l.start + slot + 1 ≢ c → update l.disk (l.start + slot + 1) x c ≡ l.disk c
      apart c ne = update-block l.disk (l.start + slot + 1) c x ne

      update-here : (j : ℕ) → slot ≡ j → update l.sector slot b j ≡ b
      update-here j e = ground arith

      update-there : (j : ℕ) → slot ≢ j → update l.sector slot b j ≡ l.sector j
      update-there j ne = ground arith

      kept :
          (a : ℕ)
          → b ≢ a
          → (d0 a ≡ v a) ⊎ ((i : ℕ) × (i < l.n) × (l.sector i ≡ a))
          → (d0 a ≡ update v b x a) ⊎ ((i : ℕ) × (i < count) × (update l.sector slot b i ≡ a))
      kept a ne (inl same) = inl (same ∙ sym (update-block v b a x ne))
      kept a ne (inr (i, lt, e)) = inr (
        i,
        ground (arith, slot-le),
        update-there i (λ q. ne (sym (slot-hit (rw q lt)) ∙ ap l.sector q ∙ e)) ∙ e,
      )

pub log_write-inv :
    (l : Log) (b : ℕ) (x : Block) {l' : Log}
    → log_write l b x ≡ ok l'
    → (l.n < logsize) × (l.n < l.size - 1) × (l.busy ≡ true) × (append l b x ≡ l')
unfolding log_write
log_write-inv l b x e = ground arith

-- the calls of `log_write` in a system call, in order
unfoldable pub log_writes : Log → List (ℕ × Block) → Outcome Log
log_writes l [] = ok l
log_writes l ((b, x) ∷ ws) = log_write l b x >>= λ l'. log_writes l' ws

-- the same writes, made at once
unfoldable pub applied : Disk → List (ℕ × Block) → Disk
applied d [] = d
applied d ((b, x) ∷ ws) = applied (update d b x) ws

append-head :
    (l : Log) (b : ℕ) (x : Block)
    → ((append l b x).start ≡ l.start) × ((append l b x).size ≡ l.size)
unfolding append
append-head l b x = (refl, refl)

append-history :
    (P : Disk → Type 0) (l : Log) (b : ℕ) (x : Block)
    → P (append l b x).disk
    → All P l.history
    → All P (append l b x).history
unfolding append
append-history P l b x p h = (p, h)

log_writes-Pending :
    (start size : ℕ) (d0 v : Disk) (l l' : Log) (ws : List (ℕ × Block))
    → l.start ≡ start
    → l.size ≡ size
    → Pending d0 v l
    → All (λ w. Home start size w.0) ws
    → All (Stable start size d0) l.history
    → log_writes l ws ≡ ok l'
    → Pending d0 (applied v ws) l'
      × (l'.start ≡ start)
      × (l'.size ≡ size)
      × All (Stable start size d0) l'.history
unfolding log_writes applied
log_writes-Pending start size d0 v l l' [] s z p homes h e =
    let same : l ≡ l' = cc in
    subst
      (λ k.
        Pending d0 v k × (k.start ≡ start) × (k.size ≡ size) × All (Stable start size d0) k.history)
      same (p, s, z, h)
log_writes-Pending start size d0 v l l' ((b, x) ∷ ws) s z p homes h e =
    let (l1, e1, e2) = bind_inv (log_write l b x) (λ k. log_writes k ws) e in
    let (small, room, busy, same) = log_write-inv l b x e1 in
    let p1 : Pending d0 (update v b x) (append l b x) =
      append-Pending d0 v l b x p (rw (s, z) homes.0) room in
    let (s1, z1) = append-head l b x in
    let start' : (append l b x).start ≡ start = s1 ∙ s in
    let size' : (append l b x).size ≡ size = z1 ∙ z in
    let stable : Stable start size d0 (append l b x).disk =
      rw (start', size') at (clear-Stable _ _ d0 _ (omega (arith, p1.room)) p1.clear p1.old) in
    log_writes-Pending start size d0 (update v b x) (append l b x) l' ws start' size' p1 homes.1
      (append-history (Stable start size d0) l b x stable h) (ap (λ k. log_writes k ws) same ∙ e2)

begin_trans-Pending :
    (d0 : Disk) (l l1 : Log)
    → IsClear d0 l
    → begin_trans l ≡ some l1
    → Pending d0 d0 l1 × (l1.start ≡ l.start) × (l1.size ≡ l.size) × (l1.history ≡ l.history)
unfolding begin_trans
begin_trans-Pending d0 l l1 c e =
    let (idle, same) = inv in
    subst (λ k. Pending d0 d0 k × (k.start ≡ l.start) × (k.size ≡ l.size) × (k.history ≡ l.history))
      same (opened, refl, refl, refl)
  where
    inv : (l.busy ≡ false) × (record l { busy = true } ≡ l1)
    inv = ground arith

    opened : Pending d0 d0 (record l { busy = true })
    opened = record {
      room = omega (arith, c.empty, c.room);
      clear = c.clear;
      old = c.same;
      homes = λ i lt. absurd (omega (arith, c.empty));
      blocks = λ i lt. absurd (omega (arith, c.empty));
      views = λ a home. inl refl;
      distinct = λ i j hi hj q. absurd (omega (arith, c.empty));
    }

commit_trans-IsClear :
    (v : Disk) (l : Log)
    → IsClear v (commit_writes l)
    → IsClear v (commit_trans l)
      × ((commit_trans l).busy ≡ false)
      × ((commit_trans l).history ≡ (commit_writes l).history)
unfolding commit_trans
commit_trans-IsClear v l c =
    (record { empty = c.empty; room = c.room; clear = c.clear; same = c.same }, refl, refl)

-- A transaction is atomic. From a log that is clear over the blocks of `d0`, let `begin_trans` start a
-- transaction, let `ws` be logged with no panic, and let `commit_trans` end it. After each disk write
-- on the way the disk is stable for the old blocks or for those with all of `ws` applied, and at the
-- end the log is clear over the new blocks, with no transaction active.
pub transaction_atomic :
    (d0 : Disk) (l l1 l2 : Log) (ws : List (ℕ × Block))
    → IsClear d0 l
    → l.history ≡ []
    → begin_trans l ≡ some l1
    → log_writes l1 ws ≡ ok l2
    → All (λ w. Home l.start l.size w.0) ws
    → All (OldOrNew l.start l.size d0 (applied d0 ws)) (commit_trans l2).history
      × IsClear (applied d0 ws) (commit_trans l2)
      × ((commit_trans l2).busy ≡ false)
transaction_atomic d0 l l1 l2 ws c fresh begun logged homes =
    let (p1, s1, z1, h1) = begin_trans-Pending d0 l l1 c begun in
    let (p2, s2, z2, h2) =
      log_writes-Pending l.start l.size d0 d0 l1 l2 ws s1 z1 p1 homes (rw (h1 ∙ fresh) tt) logged in
    let old : All (OldOrNew l2.start l2.size d0 (applied d0 ws)) l2.history =
      moved (sym s2) (sym z2) l2.history (All-map (λ d h. inl h) l2.history h2) in
    let done = commit_writes-Committed d0 (applied d0 ws) l2 p2 old in
    let (clear, idle, same) = commit_trans-IsClear (applied d0 ws) l2 done.clear in
    (rw same (moved s2 z2 (commit_writes l2).history done.crashes), clear, idle)
  where
    moved :
        {a a' b b' : ℕ}
        → a ≡ a'
        → b ≡ b'
        → (h : List Disk) → All (OldOrNew a b d0 (applied d0 ws)) h
        → All (OldOrNew a' b' d0 (applied d0 ws)) h
    moved p q h known = subst₂ (λ a b. All (OldOrNew a b d0 (applied d0 ws)) h) p q known
