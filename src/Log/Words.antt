-- ===== src/Log/Words.antt =====
-- The loops over the header's words.
use os_ass.Base.{
  ℕ, zero, suc, ◌+◌, ◌≤◌, ◌<◌, ◌≡◌, ◌≢◌, refl, arith, leb, ltb, ◌&&◌, ◌⊎◌, if◌then◌else◌, update,
  inl, Bool-cases, ◌==◌, inr,
}
use os_ass.Log.{Block, read_sectors, write_sectors, find_sector}

pub read_sectors_lem :
    (hdr : Block) (sec : ℕ → ℕ) (i k j : ℕ)
    → read_sectors hdr sec i k j ≡ (if leb i j && ltb j (i + k) then hdr (j + 1) else sec j)
unfolding read_sectors
read_sectors_lem hdr sec i zero j = ground arith
read_sectors_lem hdr sec i (suc k) j =
    ground (arith, read_sectors_lem hdr (update sec i (hdr (i + 1))) (i + 1) k j)

pub write_sectors_lem :
    (sec : ℕ → ℕ) (hdr : Block) (i k j : ℕ)
    → write_sectors sec hdr i k (j + 1) ≡ (if leb i j && ltb j (i + k) then sec j else hdr (j + 1))
unfolding write_sectors
write_sectors_lem sec hdr i zero j = ground arith
write_sectors_lem sec hdr i (suc k) j =
    ground (arith, write_sectors_lem sec (update hdr (i + 1) (sec i)) (i + 1) k j)

-- word 0 is left alone
pub write_sectors-zero : (sec : ℕ → ℕ) (hdr : Block) (i k : ℕ) → write_sectors sec hdr i k 0 ≡ hdr 0
unfolding write_sectors
write_sectors-zero sec hdr i zero = refl
write_sectors-zero sec hdr i (suc k) =
    ground (arith, write_sectors-zero sec (update hdr (i + 1) (sec i)) (i + 1) k)

-- where the search of `log_write` stops
pub find_sector_lem :
    (sec : ℕ → ℕ) (b i k : ℕ)
    → (i ≤ find_sector sec b i k)
      × (find_sector sec b i k ≤ i + k)
      × ((find_sector sec b i k ≡ i + k) ⊎ (sec (find_sector sec b i k) ≡ b))
      × ((j : ℕ) → i ≤ j → j < find_sector sec b i k → sec j ≢ b)
unfolding find_sector
find_sector_lem sec b i zero = (omega arith, omega arith, inl (omega arith), λ j. omega arith)
find_sector_lem sec b i (suc k) =
    let (lo, hi, stop, before) = find_sector_lem sec b (i + 1) k in
    elim (Bool-cases (sec i == b)) [
      | inl e ↦ rw e (omega arith, omega arith, inr (ground arith), λ j. omega arith)
      | inr e ↦ rw e (omega arith, omega arith, ground arith, λ j le lt. ground (arith, before j))
    ]
