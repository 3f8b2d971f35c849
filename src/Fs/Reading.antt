-- ===== src/Fs/Reading.antt =====
-- `readi` reads the bytes of a file.
use os_ass.Base.{
  load, ℕ_discrete, ap, u32, zero, suc, true, false, ok, [], pos, negsuc, ℕ, refl, arith, ◌≡◌, Bool,
  List, ◌+◌, ◌++◌, ◌%◌, ◌≤◌, ◌*◌, ◌/◌, ◌<◌, ◌≢◌, ◌-◌, ==_ne, ◌∙◌, ◌^◌, if◌then◌else◌, load_agree,
  load-append, ltb, ◌||◌, ltb_ge, load_zero, lt→ltb,
}
use os_ass.Fs.{Block, Fs, bsize}
use os_ass.Fs.Files.{maxfile, t_dev, chunk, readi_loop, readi, Devices}
use os_ass.Fs.Blocks.{mapped}
use os_ass.Fs.Contents.{byte, bmap-old}

-- `n` bytes of the file from `off` on
abbrev pub contents : (ℕ → Block) → (ℕ → ℕ) → ℕ → ℕ → List ℕ
contents blocks addrs off n = load (byte blocks addrs) off n

-- the bytes in one block
load-contents :
    (blocks : ℕ → Block) (addrs : ℕ → ℕ) (off m : ℕ)
    → off % bsize + m ≤ bsize
    → mapped blocks addrs (off / bsize) ≢ 0
    → load (blocks (mapped blocks addrs (off / bsize))) (off % bsize) m
      ≡ contents blocks addrs off m
load-contents blocks addrs off m h there =
    load_agree (blocks (mapped blocks addrs (off / bsize))) (byte blocks addrs) (off % bsize) off m
      λ i lt.
        let block : (off + i) / bsize ≡ off / bsize = omega arith in
        let place : (off + i) % bsize ≡ off % bsize + i = omega arith in
        rw (block, place, ==_ne _ 0 there)

pub chunk_lem :
    (off left : ℕ)
    → 0 < left
    → (0 < chunk off left) × (chunk off left ≤ left) × (off % bsize + chunk off left ≤ bsize)
chunk_lem off left h = ground arith

readi_loop_lem :
    (fuel : ℕ) (s : Fs) (ip off left : ℕ)
    → left ≤ fuel
    → off + left ≤ maxfile * bsize
    → ((j : ℕ) → off ≤ j → j < off + left → mapped s.blocks (s.inode ip).addrs (j / bsize) ≢ 0)
    → readi_loop fuel s ip off left ≡ ok (contents s.blocks (s.inode ip).addrs off left, s)
unfolding readi_loop
readi_loop_lem zero s ip off left h fits there =
    let none_left : left ≡ 0 = omega arith in rw (none_left, load_zero)
readi_loop_lem (suc fuel) s ip off left h fits there = elim (ℕ_discrete left 0) [
  | yes z ↦ rw (z, load_zero)
  | no n ↦
      let m = chunk off left in
      let (some_read, most, room) = chunk_lem off left (omega arith) in
      let here = there off (omega arith) (omega arith) in
      let later =
        readi_loop_lem fuel s ip (off + m) (left - m) (omega arith) (omega arith)
          (λ j lo hi. there j (omega arith) (omega arith)) in
      let bytes = s.blocks (mapped s.blocks (s.inode ip).addrs (off / bsize)) in
      let file = byte s.blocks (s.inode ip).addrs in
      let all : load bytes (off % bsize) m ++ load file (off + m) (left - m) ≡ load file off left =
        ap (λ xs. xs ++ load file (off + m) (left - m))
          (load-contents s.blocks (s.inode ip).addrs off m room here)
        ∙ load-append file off m (left - m)
        ∙ ap (λ k. load file off k) (omega arith) in
      rw (==_ne left 0 n, bmap-old s ip (off / bsize) (omega arith) here, later)
        (ap (λ xs. ok (xs, s)) all)
]

-- the bytes that are read: to the end of the file at most
abbrev pub clipped : ℕ → ℕ → ℕ → ℕ
clipped size off n = if ltb size (off + n) then size - off else n

clipped_lem :
    (size off n : ℕ) → off ≤ size → (clipped size off n ≤ n) × (off + clipped size off n ≤ size)
clipped_lem size off n h = ground arith

pub or_true : (a : Bool) → (a || true) ≡ true
or_true true = refl
or_true false = refl

-- `readi` of a file that has blocks for all its bytes and is no device. From an offset in the file,
-- when offset and count do not add up to 2^32, it returns the bytes from there to the end of the file
-- or `n` of them, with their number; otherwise it returns -1. Nothing changes.
pub readi_lem :
    (devsw : Devices) (s : Fs) (ip off n : ℕ)
    → (s.inode ip).type ≢ t_dev
    → (s.inode ip).size ≤ maxfile * bsize
    → ((j : ℕ) → j < (s.inode ip).size → mapped s.blocks (s.inode ip).addrs (j / bsize) ≢ 0)
    → n < 2 ^ 32
    → (off ≤ (s.inode ip).size
        → off + n < 2 ^ 32
        → readi devsw s ip off n
          ≡ ok (
            pos (clipped (s.inode ip).size off n),
            contents s.blocks (s.inode ip).addrs off (clipped (s.inode ip).size off n),
            s,
          ))
      × ((s.inode ip).size < off → readi devsw s ip off n ≡ ok (negsuc 0, [], s))
      × (off < 2 ^ 32 → 2 ^ 32 ≤ off + n → readi devsw s ip off n ≡ ok (negsuc 0, [], s))
unfolding readi
readi_lem devsw s ip off n no_dev size there small = (
  λ h fits.
      let node = s.inode ip in
      let k = clipped node.size off n in
      let sum : u32 (off + n) ≡ off + n = omega arith in
      let (most, inside) = clipped_lem node.size off n h in
      rw (
        ==_ne node.type t_dev no_dev,
        sum,
        ltb_ge node.size off h,
        ltb_ge (off + n) off (omega arith),
        readi_loop_lem k s ip off k (omega arith) (omega arith) (λ j lo hi. there j (omega arith)),
      ),
  λ past. rw (==_ne (s.inode ip).type t_dev no_dev, lt→ltb (s.inode ip).size off past),
  λ h wraps.
      rw (==_ne (s.inode ip).type t_dev no_dev, lt→ltb (u32 (off + n)) off (omega arith), or_true),
)
