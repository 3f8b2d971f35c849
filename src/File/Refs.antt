-- ===== src/File/Refs.antt =====
-- Reference counting: `ref` is the number of descriptors that point to the file.
use os_ass.Base.{
  ℕ, zero, suc, ◌+◌, ◌-◌, ◌≤◌, ◌<◌, ◌≡◌, refl, arith, update, some, List, [], ◌∷◌, ok, ◌==◌,
  if◌then◌else◌, dec_lt,
}
use os_ass.File.Table.{File, fd_none, find_free, fileclose, Closing, nothing, closing}

-- how often `f` occurs among the open descriptors
abbrev pub count : ℕ → List ℕ → ℕ
count f [] = 0
count f (x ∷ xs) = if x == f then suc (count f xs) else count f xs

-- one descriptor of `f` less
abbrev pub erase : ℕ → List ℕ → List ℕ
erase f [] = []
erase f (x ∷ xs) = if x == f then xs else x ∷ erase f xs

-- every reference count is right
abbrev pub IsCounted : (ℕ → File) → List ℕ → Type 0
IsCounted files fds = (f : ℕ) → (files f).ref ≡ count f fds

pub find_free-some :
    (files : ℕ → File) (i k : ℕ) {r : ℕ}
    → find_free files i k ≡ some r
    → (i ≤ r) × (r < i + k) × ((files r).ref ≡ 0)
unfolding find_free
find_free-some files i zero e = cc
find_free-some files i (suc k) {r} e =
    ground
      (arith, λ (q : find_free files (i + 1) k ≡ some r). find_free-some files (i + 1) k {r = r} q)

count-erase :
    (f g : ℕ) (fds : List ℕ)
    → 0 < count f fds
    → count g (erase f fds) ≡ (if f == g then count g fds - 1 else count g fds)
count-erase f g [] h = absurd (omega arith)
count-erase f g (x ∷ xs) h = ground (arith, count-erase f g xs)

-- `fileclose` of an open descriptor does not panic and takes it away. When others are left nothing
-- else happens; when it was the last, the pipe end or the inode of the file is given back, and the
-- file has no type any more.
fileclose-IsCounted :
    (files : ℕ → File) (fds : List ℕ) (f : ℕ)
    → IsCounted files fds
    → 0 < count f fds
    → (files' : ℕ → File) × (todo : Closing) × (fileclose files f ≡ ok (files', todo))
      × IsCounted files' (erase f fds)
      × (1 < count f fds → todo ≡ nothing)
      × (count f fds ≡ 1 → (todo ≡ closing (files f)) × ((files' f).type ≡ fd_none))
unfolding fileclose
fileclose-IsCounted files fds f c h = elim (dec_lt 1 (count f fds)) [
  | yes more ↦ (
    update files f (record (files f) { ref = (files f).ref - 1 }),
    nothing,
    ground (arith, c f),
    λ g. ground (arith, c g, c f, count-erase f g fds h),
    λ _. refl,
    λ q. absurd (omega arith),
  )
  | no last ↦ (
    update files f (record (files f) { ref = 0; type = fd_none }),
    closing (files f),
    ground (arith, c f),
    λ g. ground (arith, c g, c f, count-erase f g fds h),
    λ q. absurd (last q),
    λ q. (refl, ground arith),
  )
]
