-- ===== src/Fs/Tests.antt =====
-- A disk of 16 blocks with 8 inodes: the superblock in block 1, inodes in 2, the bitmap in 4, data from 5 on.
use os_ass.Base.{
  zero, suc, none, some, ◌≢◌, true, false, ok, panic, [], ◌∷◌, pos, negsuc, ℕ, refl, arith, ◌≡◌,
  Outcome, List, ◌<◌, if◌then◌else◌, ◌==◌, ◌⊎◌, ◌≤◌, ◌+◌, ◌^◌, length, ◌*◌,
}
use os_ass.File.Table.{File, fd_inode, filewrite}
use os_ass.File.Chunks.{with_files, filewrite_lem}
use os_ass.Fs.{Block, Inode, Fs, bsize, readsb, find_clear, balloc_loop, balloc}
use os_ass.Fs.Bitmap.{is_free, IsFs}
use os_ass.Fs.Alloc.{Takes, balloc_lem}
use os_ass.Fs.Files.{maxfile, bmap, load_addr, writei_loop, writei, readi, iupdate, Devices}
use os_ass.Fs.Blocks.{mapped, IsFile}
use os_ass.Fs.Bmap.{Found, bmap_lem}
use os_ass.Fs.Reading.{contents, clipped, readi_lem}
use os_ass.Fs.Chunk.{addrs_of}
use os_ass.Fs.Writing.{HasBlocks}
use os_ass.Fs.Writei.{IsInode, IsWritten, writei_lem}
use os_ass.Fs.RoundTrip.{readi-writei}
use os_ass.Fs.Icache.{ninode, iget}
use os_ass.Fs.Iget.{Holds, IsCache, Got, iget_lem}
use os_ass.Fs.Names.{skip_slashes, split_elem, skipelem}
use os_ass.Fs.Elements.{Skips, skipelem_lem}
use os_ass.Fs.Dirs.{stuck, namex}
use os_ass.Fs.Walk.{namex-ne-stuck}

abbrev empty_file : Inode
empty_file = record {
  dev = 1;
  inum = 1;
  ref = 1;
  busy = true;
  valid = true;
  type = 2;
  major = 0;
  minor = 0;
  nlink = 1;
  size = 0;
  addrs = λ _. 0;
}

abbrev blocks : ℕ → Block
blocks b i =
    if b == 1
    then if i == 0 then 16 else if i == 8 then 8 else 0
    else if b == 4
    then if i == 0 then 0x1f else 0
    else 0

abbrev disk : Fs
disk = record { blocks = blocks; logged = []; inode = λ _. empty_file }

disk-reserved : (b : ℕ) → b < 5 → is_free disk b ≡ false
disk-reserved zero h = refl
disk-reserved (suc zero) h = refl
disk-reserved (suc (suc zero)) h = refl
disk-reserved (suc (suc (suc zero))) h = refl
disk-reserved (suc (suc (suc (suc zero)))) h = refl
disk-reserved (suc (suc (suc (suc (suc b))))) h = absurd (omega arith)

disk-IsFs : IsFs disk
disk-IsFs = record { bytes = λ b i. ground arith; reserved = λ b h. disk-reserved b (omega arith) }

-- the result of a call that does not panic
abbrev result : {A B : Type 0} → B → (A → B) → Outcome A → B
result d f panic = d
result d f (ok a) = f a

balloc_first : result 0 (λ r. r.0) (balloc disk) ≡ 5
unfolding balloc balloc_loop find_clear
balloc_first = refl

balloc_lem_example :
    ((b : ℕ) × (s' : Fs) × (balloc disk ≡ ok (b, s'))
      × Takes disk b s'
      × ((j : ℕ) → j < b → is_free disk j ≡ false))
    ⊎ ((balloc disk ≡ panic) × ((j : ℕ) → j < (readsb disk).size → is_free disk j ≡ false))
balloc_lem_example = balloc_lem disk disk-IsFs

no_blocks : (i : ℕ) → mapped blocks (λ _. 0) i ≡ 0
no_blocks i = ground arith

disk-IsFile : IsFile disk (λ _. 0)
disk-IsFile = record {
  valid = disk-IsFs;
  data_block = λ i h n. absurd (n (no_blocks i));
  apart = λ i j hi hj n e. absurd (n (no_blocks i));
  table = λ n. absurd (n refl);
  table_apart = λ i h n e. n (no_blocks i);
}

disk-IsInode : IsInode disk 0
disk-IsInode = record {
  file = disk-IsFile;
  no_device = omega arith;
  known = omega arith;
  size = omega arith;
  backed = λ j lo hi. absurd (omega arith);
}

abbrev no_devices : Devices
no_devices = record { read = λ _. none; write = λ _. none }

bmap_lem_example :
    (13 < maxfile → Found disk 0 13 (bmap disk 0 13)) × (maxfile ≤ 13 → bmap disk 0 13 ≡ panic)
bmap_lem_example = bmap_lem disk 0 13 disk-IsFile

abbrev hello : List ℕ
hello = 104 ∷ 105 ∷ []

writei_lem_example :
    (0 ≤ (disk.inode 0).size
      → 0 + length hello ≤ maxfile * bsize
      → ((writei no_devices disk 0 hello 0 ≡ panic) × (HasBlocks disk 0 0 (length hello) → ⊥))
        ⊎ ((s2 : Fs) × (writei no_devices disk 0 hello 0 ≡ ok (pos (length hello), s2))
            × IsWritten disk 0 0 hello s2))
    × ((disk.inode 0).size < 0 → writei no_devices disk 0 hello 0 ≡ ok (negsuc 0, disk))
    × (0 ≤ (disk.inode 0).size
        → maxfile * bsize < 0 + length hello
        → writei no_devices disk 0 hello 0 ≡ ok (negsuc 0, disk))
writei_lem_example = writei_lem no_devices disk 0 hello 0 disk-IsInode (omega arith) (omega arith)

abbrev after : Fs
after = result disk (λ r. r.1) (writei no_devices disk 0 hello 0)

written : writei no_devices disk 0 hello 0 ≡ ok (pos 2, after)
unfolding writei writei_loop bmap load_addr balloc balloc_loop find_clear iupdate
written = refl

readi-writei_example : readi no_devices after 0 0 2 ≡ ok (pos 2, hello, after)
readi-writei_example =
    readi-writei no_devices disk 0 hello 0 after disk-IsInode (omega arith) (omega arith)
      (omega arith) written

readi_lem_example :
    (5 ≤ (disk.inode 0).size
      → 5 + 3 < 2 ^ 32
      → readi no_devices disk 0 5 3
        ≡ ok (
          pos (clipped (disk.inode 0).size 5 3),
          contents disk.blocks (addrs_of disk 0) 5 (clipped (disk.inode 0).size 5 3),
          disk,
        ))
    × ((disk.inode 0).size < 5 → readi no_devices disk 0 5 3 ≡ ok (negsuc 0, [], disk))
    × (5 < 2 ^ 32 → 2 ^ 32 ≤ 5 + 3 → readi no_devices disk 0 5 3 ≡ ok (negsuc 0, [], disk))
readi_lem_example =
    readi_lem no_devices disk 0 5 3 (omega arith) (omega arith) (λ j h. absurd (omega arith))
      (omega arith)

abbrev unused : Inode
unused = record empty_file { ref = 0 }

-- the cache with the inode in slot 0
abbrev one_cached : Fs
one_cached = record disk { inode = λ i. if i == 0 then empty_file else unused }

one_cached-IsCache : IsCache one_cached.inode
one_cached-IsCache i zero hi hj used (u, _, _) = ground arith
one_cached-IsCache i (suc j) hi hj used h = absurd (grind (arith, used))

iget_lem_example :
    ((i : ℕ) × (s' : Fs) × (iget one_cached 1 1 ≡ ok (i, s')) × Got one_cached 1 1 i s')
    ⊎ ((iget one_cached 1 1 ≡ panic)
        × ((j : ℕ)
            → j < ninode
            → (0 < (one_cached.inode j).ref) × (Holds (one_cached.inode j) 1 1 → ⊥)))
iget_lem_example = iget_lem one_cached 1 1 one_cached-IsCache

-- "/a//b"
abbrev path : List ℕ
path = 0x2f ∷ 0x61 ∷ 0x2f ∷ 0x2f ∷ 0x62 ∷ []

skipelem-path : skipelem path ≡ some (0x61 ∷ [], 0x62 ∷ [])
unfolding skipelem skip_slashes split_elem
skipelem-path = refl

skipelem_lem_example : Skips path (skipelem path)
skipelem_lem_example = skipelem_lem path

namex-ne-stuck_example : namex no_devices one_cached 0 path false ≢ ok stuck
namex-ne-stuck_example = namex-ne-stuck no_devices one_cached 0 path false

-- `write(fd, "hi", 2)` to the file, with no pipes
abbrev open_file : File
open_file = record {
  type = fd_inode;
  ref = 1;
  readable = false;
  writable = true;
  pipe = 0;
  ip = 0;
  off = 0;
}

filewrite_lem_example :
    let out =
      filewrite
        (with_files no_devices (λ s p n. panic) (λ s p bytes. panic))
        disk
        open_file
        hello in
    ((out ≡ panic) × (HasBlocks disk 0 0 2 → ⊥))
    ⊎ ((s2 : Fs) × (out ≡ ok (pos 2, record open_file { off = 2 }, s2))
        × IsWritten disk 0 0 hello s2)
filewrite_lem_example =
    filewrite_lem no_devices (λ s p n. panic) (λ s p bytes. panic) disk open_file hello refl refl
      disk-IsInode (omega arith) (omega arith) (omega arith)
