-- ===== src/Ufs/Tests.antt =====
-- A small slice, with a file of two blocks and a directory.
use Prim.Native.Nat.{min}
use atari_sysv_sp.Base.{
  ℕ, zero, suc, true, ◌-◌, ◌^◌, ◌≡◌, refl, Option, none, some, List, [], ◌∷◌, ◌++◌, map, replicate,
  length, range_from, ◌==◌, inl, ap, sym, ◌∙◌, arith,
}
use atari_sysv_sp.Base.Mask.{and_word}
use atari_sysv_sp.Ufs.Disk.{Inode, Slice, IsSane, Bio}
use atari_sysv_sp.Ufs.Blocks.{bmap}
use atari_sysv_sp.Ufs.Blocks.Map.{tree, bmap_lem}
use atari_sysv_sp.Ufs.Files.{have, readfile}
use atari_sysv_sp.Ufs.Dirs.{named, ino_of, name_of, dirlookup, dirname}
use atari_sysv_sp.Ufs.Dirs.Entries.{Padded, IsEntry, pack, first}
use atari_sysv_sp.Ufs.Dirs.Search.{entries, HasBlocks, dirlookup_lem}
use atari_sysv_sp.Ufs.Mount.{
  Superblock, Mounts, IsMounts, count, mount_slice, free_drive, add_drive, slice_of_sb, is_ufs,
}
use atari_sysv_sp.Ufs.Scan.{Scanned, is_skipped, mount_parts, mount_parts_lem}
use atari_sysv_sp.Ufs.Path.{getname, Named, getname_lem}
use atari_sysv_sp.Ufs.Calls.{Drives, slice_of}
use atari_sysv_sp.Ufs.Disk.{Result, ok}
use atari_sysv_sp.Ufs.Files.Reads.{file_byte, IsReadable, readfile_lem}

-- A list of bytes as long as is wanted, zeros behind it.
abbrev fill : List ℕ → ℕ → List ℕ
fill bs zero = []
fill [] (suc n) = 0 ∷ fill [] n
fill (b ∷ bs) (suc n) = b ∷ fill bs n

length-fill : (bs : List ℕ) (n : ℕ) → length (fill bs n) ≡ n
length-fill bs zero = refl
length-fill [] (suc n) = ap suc (length-fill [] n)
length-fill (b ∷ bs) (suc n) = ap suc (length-fill bs n)

abbrev size_of : Option (List ℕ) → ℕ
size_of none = 0
size_of (some b) = length b

abbrev file : Inode
file = record {
  smode = 33188;
  nlink = 1;
  suid = 0;
  sgid = 0;
  size = 5000;
  atime = 0;
  mtime = 0;
  ctime = 0;
  db = 64 ∷ 0 ∷ replicate 10 0;
  ib = 0 ∷ 0 ∷ 0 ∷ [];
  blocks = 8;
  gen = 0;
  uid = 0;
  gid = 0;
  eftflag = 0;
}

-- A disk that has the same bytes everywhere: those of a directory with the entries "." and "a".
abbrev dot : Padded
dot = record {
  entry = record { ino = 2; reclen = 12; namlen = 1; name = 46 ∷ [] };
  pad = 0 ∷ 0 ∷ 0 ∷ [];
}

abbrev letter_a : Padded
letter_a = record {
  entry = record { ino = 300; reclen = 12; namlen = 1; name = 97 ∷ [] };
  pad = 0 ∷ 0 ∷ 0 ∷ [];
}

abbrev listing : List ℕ
listing =
    0 ∷ 0 ∷ 0 ∷ 2 ∷ 0 ∷ 12 ∷ 0 ∷ 1 ∷ 46 ∷ 0 ∷ 0 ∷ 0 ∷ 0 ∷ 0 ∷ 1 ∷ 44 ∷ 0 ∷ 12 ∷ 0 ∷ 1 ∷ 97 ∷ 0 ∷ 0
    ∷ 0 ∷ []

abbrev disk : Bio
disk = record { read = λ a n. some (fill listing n); dinode = λ bs. file }

abbrev directory : Inode
directory = record file { smode = 16877; size = 24 }

abbrev slice : Slice
slice = record {
  drv = 21;
  bsize = 4096;
  fsize = 1024;
  frag = 4;
  bshift = 12;
  nindir = 1024;
  inopb = 32;
  ipg = 64;
  fpg = 256;
  iblkno = 16;
  cgoffset = 0;
  cgmask = 2 ^ 32 - 1;
  dsize = 256;
  nbfree = 10;
  nffree = 3;
  nifree = 50;
  ncg = 1;
  root = file;
  volume = [];
}

slice-IsSane : IsSane slice
slice-IsSane = record {
  sizes = inl (refl, refl);
  fshift = 10;
  fshift_in = omega arith;
  fsize_is = refl;
  nindir_is = refl;
  inopb_is = refl;
}

file-IsReadable : IsReadable disk slice file
file-IsReadable = record {
  whole = λ a n {b} e. sym (ap size_of e) ∙ length-fill listing n;
  there = λ blk ne. (fill listing (have slice 5000 blk), refl);
}

readfile_example :
    readfile disk slice file 4000 200
    ≡ map (file_byte disk slice file) (range_from 4000 (min 200 (5000 - 4000)))
readfile_example =
    readfile_lem disk slice file slice-IsSane file-IsReadable (omega arith) 4000 200 (omega arith)

bmap_example : bmap disk slice file 1050 ≡ tree disk slice file 1050
bmap_example = bmap_lem disk slice file 1050 slice-IsSane (omega arith)

directory-IsReadable : IsReadable disk slice directory
directory-IsReadable = record {
  whole = λ a n {b} e. sym (ap size_of e) ∙ length-fill listing n;
  there = λ blk ne. (fill listing (have slice 24 blk), refl);
}

dot-IsEntry : IsEntry dot
dot-IsEntry = record {
  ino_fits = omega arith;
  reclen_fits = omega arith;
  namlen_is = refl;
  reclen_is = refl;
}

letter_a-IsEntry : IsEntry letter_a
letter_a-IsEntry = record {
  ino_fits = omega arith;
  reclen_fits = omega arith;
  namlen_is = refl;
  reclen_is = refl;
}

abbrev blocks : List (List Padded)
blocks = (dot ∷ letter_a ∷ []) ∷ []

on_disk : HasBlocks disk slice directory 0 blocks
unfolding file_byte bmap have pack and_word
on_disk = (omega arith, (dot-IsEntry, (letter_a-IsEntry, tt)), refl, refl)

dirlookup_example :
    (dirlookup disk slice directory (97 ∷ []) ≡ ino_of (first (named (97 ∷ [])) (entries blocks)))
    × (dirname disk slice directory 300 256
        ≡ name_of 256 (first (λ d. d.ino == 300) (entries blocks)))
dirlookup_example =
    dirlookup_lem disk slice directory blocks (97 ∷ []) 300 256 slice-IsSane directory-IsReadable
      (omega arith) on_disk

abbrev no_mounts : Mounts
no_mounts = record {
  ufs = λ d. none;
  nufs = 0;
  next_drive = 20;
  root_drv = none;
  drvbits = λ d. d == 2;
}

abbrev drives : Drives
drives d = some slice

drive-here : slice_of drives 21 ≡ ok slice
unfolding slice_of
drive-here = refl

getname_example :
    (r : Result (List ℕ)) × (getname disk drives
        (record { dev = 21; index = 2 })
        (record { dev = 21; index = 5 })
        64
      ≡ some r)
    × Named disk slice 2 5 63 [] r
getname_example =
    getname_lem disk drives (record { dev = 21; index = 2 }) (record { dev = 21; index = 5 }) 64
      drive-here

no_mounts-IsMounts : IsMounts 32 no_mounts
unfolding count
no_mounts-IsMounts = record { own = λ d s e. absurd cc; counted = refl; few = omega arith }

-- A superblock, a disk whose root is a directory, and a VTOC of a root slice at sector 8.
abbrev superblock : Superblock
superblock = record {
  iblkno = 16;
  cgoffset = 0;
  cgmask = 2 ^ 32 - 1;
  dsize = 256;
  ncg = 1;
  bsize = 4096;
  fsize = 1024;
  frag = 4;
  bshift = 12;
  nindir = 1024;
  inopb = 32;
  ipg = 64;
  fpg = 256;
  cs_nbfree = 10;
  cs_nifree = 50;
  cs_nffree = 3;
  magic = 0x011954;
}

abbrev root_disk : ℕ → Bio
root_disk i = record { read = λ a n. some []; dinode = λ bs. directory }

abbrev vtoc : List ℕ
vtoc = fill (fill [] 72 ++ (0 ∷ 2 ∷ 0 ∷ 0 ∷ 0 ∷ 0 ∷ 0 ∷ 8 ∷ 0 ∷ 0 ∷ 1 ∷ 0 ∷ [])) 512

one_mounted :
    (mount_parts root_disk (λ p. ok superblock) (λ d. true) 32 vtoc 0 2 (0, no_mounts)).0 ≡ 1
unfolding mount_parts mount_slice free_drive add_drive slice_of_sb is_skipped is_ufs
one_mounted = refl

mount_parts_example :
    Scanned root_disk
      (λ p. ok superblock)
      (λ d. true)
      32
      (0, no_mounts)
      (mount_parts root_disk (λ p. ok superblock) (λ d. true) 32 vtoc 0 2 (0, no_mounts))
mount_parts_example =
    mount_parts_lem root_disk (λ p. ok superblock) (λ d. true) 32 vtoc 0 2 (0, no_mounts)
      no_mounts-IsMounts
