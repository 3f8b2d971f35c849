-- ===== src/Log/Commit.antt =====
-- `commit_trans`: what is on disk after each of its writes, and at the end.
use os_ass.Base.{ℕ, ◌<◌, ◌≡◌, refl, ◌⊎◌, inl, inr, arith, update, All, ◌∙◌, Bool-cases, ltb}
use os_ass.Log.{
  Log, Disk, write_head, write_sectors, install_trans, commit_writes, recover_from_log, read_head,
  zeroed,
}
use os_ass.Log.Words.{write_sectors-zero}
use os_ass.Log.Install.{Home, Ready, ReadyLog, install_trans_lem, update-same}
use os_ass.Log.Crash.{
  read_head-Ready, Stable, Ready-Stable, clear-Stable, Pending, write_head-Home, write_head-Ready,
  install_trans-start,
}

-- The disk `d` is stable, for the old state or for the new one.
abbrev pub OldOrNew : ℕ → ℕ → Disk → Disk → Disk → Type 0
OldOrNew start size d0 v d = Stable start size d0 d ⊎ Stable start size v d

-- a log between transactions, with the blocks of `v` outside the log
pub record IsClear (v : Disk) (l : Log) : Type 0 where
  pub empty : l.n ≡ 0
  pub room : 0 < l.size
  pub clear : l.disk l.start 0 ≡ 0
  pub same : (a : ℕ) → Home l.start l.size a → l.disk a ≡ v a

write_head-history :
    (P : Disk → Type 0) (l : Log)
    → P (write_head l).disk
    → All P l.history
    → All P (write_head l).history
unfolding write_head
write_head-history P l p h = (p, h)

-- The fields that `write_head` leaves alone, and the count that it writes.
write_head-head :
    (l : Log)
    → ((write_head l).start ≡ l.start)
      × ((write_head l).size ≡ l.size)
      × ((write_head l).n ≡ l.n)
      × ((write_head l).disk l.start 0 ≡ l.n)
unfolding write_head
write_head-head l = (
  refl,
  refl,
  refl,
  rw
      (
        update-same l.disk l.start l.start
            (write_sectors l.sector (update (l.disk l.start) 0 l.n) 0 l.n) refl,
        write_sectors-zero,
      )
      refl,
)

-- erasing a committed and installed transaction
erase-IsClear :
    (v : Disk) (l : Log)
    → 0 < l.size
    → ((a : ℕ) → Home l.start l.size a → l.disk a ≡ v a)
    → IsClear v (write_head (record l { n = 0 }))
erase-IsClear v l room views =
    let l0 : Log = record l { n = 0 } in
    let (s, z, c, w) = write_head-head l0 in
    record {
      empty = c;
      room = rw z room;
      clear = rw s w;
      same = λ a home.
          let home' : Home l.start l.size a = rw (s, z) at home in
          write_head-Home l0 a room home' ∙ views a home';
    }

-- what the writes of a commit leave, from the log `l`
pub record Committed (d0 v : Disk) (l l' : Log) : Type 0 where
  pub clear : IsClear v l'
  pub start : l'.start ≡ l.start
  pub size : l'.size ≡ l.size
  pub crashes : All (OldOrNew l.start l.size d0 v) l'.history

commit-some :
    (d0 v : Disk) (l : Log)
    → Pending d0 v l
    → All (OldOrNew l.start l.size d0 v) l.history
    → Committed d0 v l (write_head (record (install_trans (write_head l)) { n = 0 }))
commit-some d0 v l p h =
    let l1 = write_head l in
    let (s1, z1, c1, w1) = write_head-head l in
    let P : Disk → Type 0 = OldOrNew l.start l.size d0 v in
    let ready : ReadyLog v l1 = write_head-Ready d0 v l p in
    let new : (d : Disk) → Ready l1.start l1.size l1.n l1.sector v d → P d =
      λ d r. inr (rw (s1, z1) at (Ready-Stable r)) in
    let (r2, h2, views) =
      install_trans_lem P v l1 ready new (write_head-history P l (new l1.disk ready) h) in
    let (s2, z2) = install_trans-start l1 in
    let start : (install_trans l1).start ≡ l.start = s2 ∙ s1 in
    let size : (install_trans l1).size ≡ l.size = z2 ∙ z1 in
    let done : IsClear v (write_head (record (install_trans l1) { n = 0 })) =
      erase-IsClear v (install_trans l1) (omega (arith, size, p.room))
        (λ a home. views a (rw (s2, z2) at home)) in
    let (s3, z3, c3, w3) = write_head-head (record (install_trans l1) { n = 0 }) in
    record {
      clear = done;
      start = s3 ∙ start;
      size = z3 ∙ size;
      crashes =
          write_head-history P (record (install_trans l1) { n = 0 })
            (inr
              (rw (s3 ∙ start, z3 ∙ size) at (clear-Stable _ _ v _ done.room done.clear done.same)))
            h2;
    }

-- a transaction that has logged no block
commit-none :
    (d0 v : Disk) (l : Log)
    → Pending d0 v l
    → l.n ≡ 0
    → All (OldOrNew l.start l.size d0 v) l.history
    → Committed d0 v l l
commit-none d0 v l p none_logged h = record {
  clear = record {
    empty = none_logged;
    room = omega (arith, p.room);
    clear = p.clear;
    same = λ a home. p.old a home ∙ untouched a (p.views a home);
  };
  start = refl;
  size = refl;
  crashes = h;
}
  where
    untouched : (a : ℕ) → (d0 a ≡ v a) ⊎ ((i : ℕ) × (i < l.n) × (l.sector i ≡ a)) → d0 a ≡ v a
    untouched a (inl same) = same
    untouched a (inr (i, lt, e)) = absurd (omega arith)

pub commit_writes-Committed :
    (d0 v : Disk) (l : Log)
    → Pending d0 v l
    → All (OldOrNew l.start l.size d0 v) l.history
    → Committed d0 v l (commit_writes l)
unfolding commit_writes
commit_writes-Committed d0 v l p h = elim (Bool-cases (ltb 0 l.n)) [
  | inl e ↦ rw e (commit-some d0 v l p h)
  | inr e ↦ rw e (commit-none d0 v l p (ground arith) h)
]

-- Recovery of a stable disk leaves the log clear over the blocks that the disk is stable for, and
-- after each of its writes the disk is stable for them still: it may crash any number of times.
pub recovery_lem :
    (start size : ℕ) (w d : Disk)
    → Stable start size w d
    → let l = recover_from_log (zeroed start size d) in
      IsClear w l × (l.start ≡ start) × (l.size ≡ size) × All (Stable start size w) l.history
unfolding recover_from_log read_head
recovery_lem start size w d (n, sec, r) =
    let l = read_head (zeroed start size d) in
    let ready = read_head-Ready start size n sec w d r in
    let (r', h, views) =
      install_trans_lem (Stable start size w) w l ready (λ d' r'. Ready-Stable r') tt in
    let (s, z) = install_trans-start l in
    let done : IsClear w (write_head (record (install_trans l) { n = 0 })) =
      erase-IsClear w (install_trans l) (omega (arith, z, r.room))
        (λ a home. views a (rw (s, z) at home)) in
    let (s', z', c', w') = write_head-head (record (install_trans l) { n = 0 }) in
    (
      done,
      s' ∙ s,
      z' ∙ z,
      write_head-history (Stable start size w) (record (install_trans l) { n = 0 })
          (rw (s' ∙ s, z' ∙ z) at (clear-Stable _ _ w _ done.room done.clear done.same)) h,
    )
