-- ===== src/Bio/Tests.antt =====
-- The cache as `binit` leaves it, and with a buffer in use.
use os_ass.Base.{ℕ, ◌≡◌, ◌++◌, refl, subst, All, List, true, false, ok, [], ◌∷◌, inl, inr, arith}
use os_ass.Bio.{Buf, Bcache, set_buf, binit, binit_loop, push_front, bget, bread, brelse}
use os_ass.Bio.Coherent.{In, no_dev, IsCoherent, changed-IsCoherent}
use os_ass.Bio.Read.{Reads, bread_lem}
use os_ass.Bio.Release.{Flushed, brelse-IsCoherent}
use os_ass.Bio.Choice.{Gets, bget_lem}
use os_ass.Bio.Lru.{init_order, binit-IsRing, Released, brelse_lem}

abbrev zero_buf : Buf
zero_buf = record {
  busy = false;
  valid = false;
  dirty = false;
  dev = 0;
  sector = 0;
  prev = 0;
  next = 0;
  data_of = λ _. 0;
}

abbrev zeroed : Bcache
zeroed = record { buf = λ _. zero_buf; disk = λ _ _. 0; disksize = 1000 }

abbrev start : Bcache
start = binit zeroed

bget_lem_example : Gets start init_order 1 7 (bget start 1 7)
bget_lem_example = bget_lem start init_order 1 7 (binit-IsRing zeroed)

All-In : (P : ℕ → Type 0) (xs : List ℕ) → All P xs → (b : ℕ) → In b xs → P b
All-In P [] h b m = elim m [ ]
All-In P (x ∷ xs) h b (inl e) = subst P e h.0
All-In P (x ∷ xs) h b (inr m) = All-In P xs h.1 b m

-- a buffer that nobody has used yet
abbrev IsNew : ℕ → Type 0
IsNew b =
    ((start.buf b).dev ≡ no_dev) × ((start.buf b).valid ≡ false) × ((start.buf b).dirty ≡ false)

start-IsNew : (b : ℕ) → In b init_order → IsNew b
unfolding binit binit_loop push_front
start-IsNew = All-In IsNew init_order (ground arith)

start-IsCoherent : IsCoherent start init_order
start-IsCoherent = record {
  ring = binit-IsRing zeroed;
  unique = λ b c hb hc m _ _. absurd (m (start-IsNew b hb).0);
  clean = λ b hb v _ _. let f = (start-IsNew b hb).1 in cc;
  on_disk = λ b hb v. let f = (start-IsNew b hb).1 in cc;
  dirty_valid = λ b hb _. (start-IsNew b hb).2;
}

bread_lem_example : Reads start init_order 1 7 (bread start 1 7)
bread_lem_example = bread_lem start init_order 1 7 start-IsCoherent

-- the buffer 0, at the end of the ring, in use for the sector 7
abbrev used : Buf
used = record (start.buf 0) { busy = true; valid = true; dev = 1; sector = 7 }

abbrev in_use : Bcache
in_use = set_buf start 0 used

zero_in : In 0 init_order
zero_in = inr (inr (inr (inr (inr (inr (inr (inr (inr (inl refl)))))))))

in_use-IsCoherent : IsCoherent in_use init_order
in_use-IsCoherent =
    changed-IsCoherent start init_order 0 used start-IsCoherent refl refl refl (λ _. refl) (λ z. cc)
      (λ c hc _ _ d _. let n = (start-IsNew c hc).0 in absurd (omega (arith, n, d)))

abbrev others : List ℕ
others = 9 ∷ 8 ∷ 7 ∷ 6 ∷ 5 ∷ 4 ∷ 3 ∷ 2 ∷ 1 ∷ []

brelse_lem_example : (s' : Bcache) × (brelse in_use 0 ≡ ok s') × Released in_use 0 (others ++ []) s'
brelse_lem_example = brelse_lem in_use others 0 [] in_use-IsCoherent.ring refl

in_use-Flushed : Flushed in_use.disk (in_use.buf 0)
unfolding binit binit_loop push_front
in_use-Flushed = λ _ _. refl

brelse-IsCoherent_example :
    (s' : Bcache) × (brelse in_use 0 ≡ ok s') × IsCoherent s' (0 ∷ others ++ [])
brelse-IsCoherent_example =
    brelse-IsCoherent in_use others 0 [] in_use-IsCoherent refl in_use-Flushed
