-- ===== src/Ufs/Blocks.antt =====
-- mint/ufsxfs/ufs.c, where an inode and a file's block lie: `ufs_iget`, `ufs_bmap`.
pub mod Map
pub mod Inodes
use atari_sysv_sp.Base.{
  ℕ, zero, suc, ◌+◌, ◌-◌, ◌*◌, ◌/◌, ◌%◌, Bool, ◌||◌, not, Option, none, some, List, ◌==◌, ltb,
  if◌then◌else◌, get_or,
}
use atari_sysv_sp.Base.Buffer.{slice, longs}
use atari_sysv_sp.Base.Mask.{and_not}
use atari_sysv_sp.Base.Words.{word}
use atari_sysv_sp.Ufs.Disk.{
  Inode, Slice, Bio, root_ino, ndaddr, Result, ok, err, Error, ebadarg, eread,
}

-- The fragment address of the block that has inode ino.
unfoldable pub inode_frag : Slice → ℕ → ℕ
inode_frag s ino =
    let cg = ino / s.ipg in
    (s.fpg * cg + s.cgoffset * and_not cg s.cgmask + s.iblkno + ino % s.ipg / s.inopb * s.frag)
    % word

-- Its place in the block.
unfoldable pub inode_offset : Slice → ℕ → ℕ
inode_offset s ino = ino % s.inopb * 128

-- The result of the read.
inode_in : Bio → Slice → ℕ → Option (List ℕ) → Result Inode
inode_in io s ino none = err eread
inode_in io s ino (some block) = ok (io.dinode (slice block (inode_offset s ino) 128))

unfoldable pub iget : Bio → Slice → ℕ → Result Inode
unfolding inode_in
iget io s ino =
    if ino == root_ino
    then ok s.root
    else if ltb ino root_ino || not (ltb ino (s.ipg * s.ncg % word))
    then err ebadarg
    else inode_in io s ino (io.read (inode_frag s ino) s.bsize)

-- A level of indirection, with the block's number at that level and the blocks that an entry of it
-- spans.
pub record Level : Type 0 where
  pub level : ℕ
  pub n : ℕ
  pub per : ℕ

-- The `for` loop of `ufs_bmap`, with the rounds left; `none` is level == NIADDR.
find_level : ℕ → ℕ → ℕ → ℕ → ℕ → Option Level
find_level zero level nindir n per = none
find_level (suc rounds) level nindir n per =
    let next =
      find_level rounds (level + 1) nindir (n - per * nindir % word) (per * nindir % word) in
    if ltb n (per * nindir % word) then some (record { level = level; n = n; per = per }) else next

-- An entry of an indirect block.
entry : Option (List ℕ) → ℕ → ℕ
entry none idx = 0
entry (some block) idx = get_or (longs block) idx 0

-- The `while` loop, with `level + 1` as the rounds left. An indirect block that cannot be read gives
-- 0, as a hole does.
descend : Bio → Slice → ℕ → ℕ → ℕ → ℕ → ℕ
descend io s zero addr n per = addr
descend io s (suc rounds) addr n per =
    let below =
      descend io s rounds (entry (io.read addr s.bsize) (n / per)) (n % per) (per / s.nindir) in
    if addr == 0 then addr else below

from_level : Bio → Slice → Inode → Option Level → ℕ
from_level io s ip none = 0
from_level io s ip (some l) = descend io s (l.level + 1) (get_or ip.ib l.level 0) l.n l.per

unfoldable pub bmap : Bio → Slice → Inode → ℕ → ℕ
unfolding from_level descend entry find_level
bmap io s ip n =
    if ltb n ndaddr
    then get_or ip.db n 0
    else from_level io s ip (find_level 3 0 s.nindir (n - ndaddr) 1)
