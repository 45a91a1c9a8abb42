-- ===== src/Ufs/Stat.antt =====
-- mint/ufsxfs/ufs.c, what the calls tell of an inode: `ufs_getxattr` and `ufs_stat64`. FreeMiNT's own file
-- types (of the upper four bits), tests of a mode and attributes, which are not in the source, are an argument.
use atari_sysv_sp.Base.{ℕ, ◌+◌, ◌/◌, ◌%◌, Bool, ◌||◌, ◌==◌, if◌then◌else◌, get_or}
use atari_sysv_sp.Base.Words.{add_int, sub_int, div_int}
use atari_sysv_sp.Ufs.Disk.{Inode, Bio, Result, ok, ◌>>=◌}
use atari_sysv_sp.Ufs.Blocks.{iget}
use atari_sysv_sp.Ufs.Files.{file_type, iflnk}
use atari_sysv_sp.Ufs.Calls.{Drives, Cookie, slice_of}

-- S_IFLNK and so on, S_ISCHR and so on, FA_DIR and FA_RDONLY
pub record Modes : Type 0 where
  pub s_iflnk : ℕ
  pub s_ififo : ℕ
  pub s_ifsock : ℕ
  pub s_ischr : ℕ → Bool
  pub s_isblk : ℕ → Bool
  pub s_isdir : ℕ → Bool
  pub fa_dir : ℕ
  pub fa_rdonly : ℕ

abbrev ififo : ℕ
ififo = 1

abbrev ifsock : ℕ
ifsock = 12

abbrev with_type : ℕ → Inode → ℕ
with_type type ip = ip.smode % 4096 + type

-- The mode, with FreeMiNT's number for the types that have another one there.
unfoldable pub mode_of : Modes → Inode → ℕ
mode_of k ip =
    if file_type ip == iflnk
    then with_type k.s_iflnk ip
    else if file_type ip == ififo
    then with_type k.s_ififo ip
    else if file_type ip == ifsock
    then with_type k.s_ifsock ip
    else ip.smode

unfoldable pub uid_of : Inode → ℕ
uid_of ip = if ip.eftflag == 0 then ip.suid else ip.uid

unfoldable pub gid_of : Inode → ℕ
gid_of ip = if ip.eftflag == 0 then ip.sgid else ip.gid

-- The device of a special file.
unfoldable pub rdev_of : Modes → Inode → ℕ
rdev_of k ip = if k.s_ischr (mode_of k ip) || k.s_isblk (mode_of k ip) then get_or ip.db 0 0 else 0

-- XATTR: a time is its high and its low half.
pub record Xattr : Type 0 where
  pub mode : ℕ
  pub index : ℕ
  pub dev : ℕ
  pub rdev : ℕ
  pub nlink : ℕ
  pub uid : ℕ
  pub gid : ℕ
  pub size : ℕ
  pub blksize : ℕ
  pub nblocks : ℕ
  pub mtime : ℕ
  pub mdate : ℕ
  pub atime : ℕ
  pub adate : ℕ
  pub ctime : ℕ
  pub cdate : ℕ
  pub attr : ℕ

abbrev high : ℕ → ℕ
high t = t / 65536 % 65536

abbrev low : ℕ → ℕ
low t = t % 65536

unfoldable pub getxattr : Modes → Bio → Drives → Cookie → Result Xattr
getxattr k io ufs fc = (do
  s ← slice_of ufs fc.dev
  ip ← iget io s fc.index
  ok (record {
    mode = mode_of k ip;
    index = fc.index;
    dev = fc.dev;
    rdev = low (rdev_of k ip);
    nlink = ip.nlink;
    uid = low (uid_of ip);
    gid = low (gid_of ip);
    size = ip.size;
    blksize = s.bsize;
    nblocks = div_int (sub_int (add_int ip.blocks (s.bsize / 512)) 1) (s.bsize / 512);
    mtime = high ip.mtime;
    mdate = low ip.mtime;
    atime = high ip.atime;
    adate = low ip.atime;
    ctime = high ip.ctime;
    cdate = low ip.ctime;
    attr = if k.s_isdir (mode_of k ip) then k.fa_dir else k.fa_rdonly;
  }))

-- STAT, as far as it is filled in.
pub record Stat64 : Type 0 where
  pub st_dev : ℕ
  pub st_ino : ℕ
  pub st_mode : ℕ
  pub st_nlink : ℕ
  pub st_uid : ℕ
  pub st_gid : ℕ
  pub st_rdev : ℕ
  pub st_atime : ℕ
  pub st_mtime : ℕ
  pub st_ctime : ℕ
  pub st_size : ℕ
  pub st_blocks : ℕ
  pub st_blksize : ℕ
  pub st_gen : ℕ

unfoldable pub stat64 : Modes → Bio → Drives → Cookie → Result Stat64
stat64 k io ufs fc = (do
  s ← slice_of ufs fc.dev
  ip ← iget io s fc.index
  ok (record {
    st_dev = fc.dev;
    st_ino = fc.index;
    st_mode = mode_of k ip;
    st_nlink = ip.nlink;
    st_uid = uid_of ip;
    st_gid = gid_of ip;
    st_rdev = rdev_of k ip;
    st_atime = ip.atime;
    st_mtime = ip.mtime;
    st_ctime = ip.ctime;
    st_size = ip.size;
    st_blocks = ip.blocks;
    st_blksize = s.bsize;
    st_gen = ip.gen;
  }))
