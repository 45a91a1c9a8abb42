-- ===== src/Ufs/Blocks/Inodes.antt =====
-- `ufs_iget`: which inode numbers it takes, and where their dinodes lie.
use atari_sysv_sp.Base.{ℕ, ◌+◌, ◌*◌, ◌/◌, ◌%◌, ◌≤◌, ◌≡◌, ◌⊎◌, inl, inr, arith}
use atari_sysv_sp.Ufs.Disk.{Slice, IsSane}
use atari_sysv_sp.Ufs.Blocks.{inode_offset}

-- A dinode lies within the block that is read for it.
pub inode_offset_bounds : (s : Slice) (ino : ℕ) → IsSane s → inode_offset s ino + 128 ≤ s.bsize
unfolding inode_offset
inode_offset_bounds s ino v = go v.sizes v.inopb_is
  where
    go :
        ((s.bshift ≡ 12) × (s.bsize ≡ 4096)) ⊎ ((s.bshift ≡ 13) × (s.bsize ≡ 8192))
        → s.inopb ≡ s.bsize / 128
        → ino % s.inopb * 128 + 128 ≤ s.bsize
    go (inl h) e = let n : s.inopb ≡ 32 = omega arith in rw (n, h.1) (omega arith)
    go (inr h) e = let n : s.inopb ≡ 64 = omega arith in rw (n, h.1) (omega arith)
