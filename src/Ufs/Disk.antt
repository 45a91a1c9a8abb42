-- ===== src/Ufs/Disk.antt =====
-- mint/ufsxfs/ufs.c, the structures of a mounted slice and of the files on it. The buffer cache (bio)
-- is a parameter. A long is its 32-bit pattern.
use atari_sysv_sp.Base.{ℕ, ◌/◌, ◌^◌, ◌≤◌, ◌≡◌, ◌⊎◌, Option, List}

abbrev pub root_ino : ℕ
root_ino = 2

abbrev pub ndaddr : ℕ
ndaddr = 12

-- struct ufs_dinode, as far as it is read
pub record Inode : Type 0 where
  pub smode : ℕ
  pub nlink : ℕ
  pub suid : ℕ
  pub sgid : ℕ
  pub size : ℕ
  pub atime : ℕ
  pub mtime : ℕ
  pub ctime : ℕ
  pub db : List ℕ
  pub ib : List ℕ
  pub blocks : ℕ
  pub gen : ℕ
  pub uid : ℕ
  pub gid : ℕ
  pub eftflag : ℕ

-- UFS: a mounted slice
pub record Slice : Type 0 where
  pub drv : ℕ
  pub bsize : ℕ
  pub fsize : ℕ
  pub frag : ℕ
  pub bshift : ℕ
  pub nindir : ℕ
  pub inopb : ℕ
  pub ipg : ℕ
  pub fpg : ℕ
  pub iblkno : ℕ
  pub cgoffset : ℕ
  pub cgmask : ℕ
  pub dsize : ℕ
  pub nbfree : ℕ
  pub nffree : ℕ
  pub nifree : ℕ
  pub ncg : ℕ
  pub root : Inode
  pub volume : List ℕ

-- What `ufs_mount_slice` checks of a superblock (a block size from 4096 to 8192, and what follows
-- from it), with what mkfs sees to: the block size is the power of two of its shift, and the fragment
-- size is one too.
pub record IsSane (s : Slice) : Type 0 where
  pub sizes : ((s.bshift ≡ 12) × (s.bsize ≡ 4096)) ⊎ ((s.bshift ≡ 13) × (s.bsize ≡ 8192))
  pub fshift : ℕ
  pub fshift_in : fshift ≤ 13
  pub fsize_is : s.fsize ≡ 2 ^ fshift
  pub nindir_is : s.nindir ≡ s.bsize / 4
  pub inopb_is : s.inopb ≡ s.bsize / 128

-- The errors of the calls.
pub data Error : Type 0 where
  ebadarg eread enotdir enametoolong enoent erofs emediumtype emount einval eacces enmfiles enomem
        enosys :
      Error

pub data Result (A : Type 0) : Type 0 where
  ok : A → Result A
  err : Error → Result A

infixl 5 ◌>>=◌
abbrev pub ◌>>=◌ : {A B : Type 0} → Result A → (A → Result B) → Result B
ok a >>= f = f a
err e >>= f = err e

-- bio.read through the descriptor of a slice: the bytes at a fragment's address, or none; and how the
-- bytes of a dinode are read as one.
pub record Bio : Type 0 where
  pub read : ℕ → ℕ → Option (List ℕ)
  pub dinode : List ℕ → Inode
