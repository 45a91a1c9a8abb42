-- ===== src/Ufs/Files.antt =====
-- mint/ufsxfs/ufs.c, `ufs_readfile`, and the calls on an open file. A size or a position is the
-- pattern of a long; what is read is a list of bytes, its length the count returned.
pub mod Reads
use atari_sysv_sp.Base.{
  ℕ, zero, suc, ◌+◌, ◌-◌, ◌*◌, ◌/◌, ◌%◌, ◌^◌, Bool, not, Option, none, some, List, [], ◌∷◌, ◌++◌,
  ◌==◌, ltb, if◌then◌else◌, replicate, length,
}
use atari_sysv_sp.Base.Buffer.{slice}
use atari_sysv_sp.Base.Mask.{and_word, and_not}
use atari_sysv_sp.Base.Words.{word, lt_int, add_int, sub_int}
use atari_sysv_sp.Ufs.Disk.{
  Inode, Slice, Bio, Result, ok, err, ◌>>=◌, Error, erofs, eacces, einval, ebadarg,
}
use atari_sysv_sp.Ufs.Blocks.{iget, bmap}

-- The bytes of block blk that the file has: whole fragments, in the last block.
unfoldable pub have : Slice → ℕ → ℕ → ℕ
have s size blk =
    let left = size - blk * 2 ^ s.bshift in
    let bytes = if ltb s.bsize left then s.bsize else left in
    and_not (bytes + s.fsize - 1) (s.fsize - 1)

-- The bytes of one round, of a block that was read; zeros for a hole.
cut : ℕ → ℕ → Option (List ℕ) → Option (List ℕ)
cut off n none = none
cut off n (some b) = some (slice b off n)

part : Bio → ℕ → ℕ → ℕ → ℕ → Option (List ℕ)
part io frag have off n = if frag == 0 then some (replicate n 0) else cut off n (io.read frag have)

-- The loop, with fuel: a block that cannot be read ends it. (`stop` is the `break`.)
read_loop : Bio → Slice → Inode → ℕ → ℕ → ℕ → List ℕ
read_loop io s ip zero pos len = []
read_loop io s ip (suc fuel) pos len =
    let blk = pos / 2 ^ s.bshift in
    let off = and_word pos (s.bsize - 1) in
    let n = if ltb len (s.bsize - off) then len else s.bsize - off in
    let rest = read_loop io s ip fuel (pos + n) (len - n) in
    let round = part io (bmap io s ip blk) (have s ip.size blk) off n in
    if len == 0 then [] else elim round [ none ↦ [] | some bytes ↦ bytes ++ rest ]

unfoldable pub readfile : Bio → Slice → Inode → ℕ → ℕ → List ℕ
unfolding read_loop have part cut
readfile io s ip pos len =
    if not (lt_int pos ip.size)
    then []
    else let len' = if ltb (ip.size - pos) len then ip.size - pos else len in
      read_loop io s ip len' pos len'

-- An open file: its inode's number, the position, and the size when it was opened.
pub record OpenFile : Type 0 where
  pub index : ℕ
  pub rdonly : Bool
  pub pos : ℕ
  pub devinfo : ℕ

-- smode & UFS_IFMT
abbrev pub file_type : Inode → ℕ
file_type ip = ip.smode / 4096 % 16

abbrev pub ifdir : ℕ
ifdir = 4

abbrev pub ifreg : ℕ
ifreg = 8

abbrev pub iflnk : ℕ
iflnk = 10

unfoldable pub open_file : Bio → Slice → OpenFile → Result OpenFile
open_file io s f = if not f.rdonly then err erofs else (do
  ip ← iget io s f.index
  if not (file_type ip == ifreg) then err eacces else ok (record f { pos = 0; devinfo = ip.size }))

-- The bytes for the caller's buffer, and the file with its new position.
unfoldable pub read_file : Bio → Slice → OpenFile → ℕ → Result (List ℕ × OpenFile)
read_file io s f bytes = if not (lt_int 0 bytes) then ok ([], f) else (do
  ip ← iget io s f.index
  let got = readfile io s ip f.pos bytes
  ok (got, record f { pos = f.pos + length got }))

pub data Whence : Type 0 where
  seek_set seek_cur seek_end : Whence

abbrev pub target : OpenFile → ℕ → Whence → ℕ
target f off seek_set = off
target f off seek_cur = add_int off f.pos
target f off seek_end = add_int off f.devinfo

unfoldable pub lseek : OpenFile → ℕ → Whence → Result (ℕ × OpenFile)
lseek f off whence =
    if lt_int (target f off whence) 0
    then err ebadarg
    else ok (target f off whence, record f { pos = target f off whence })

-- FIONREAD
unfoldable pub fionread : OpenFile → ℕ
fionread f = sub_int f.devinfo f.pos
