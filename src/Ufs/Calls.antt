-- ===== src/Ufs/Calls.antt =====
-- mint/ufsxfs/ufs.c, the calls of the file system on a drive: what the kernel asks by a cookie. The
-- table of drives is a function; the kernel's constants that are not in the source are arguments.
use atari_sysv_sp.Base.{
  ℕ, zero, suc, ◌+◌, ◌*◌, ◌/◌, ◌%◌, Bool, ◌&&◌, ◌||◌, not, Option, none, some, List, [], ◌∷◌, ◌++◌,
  ◌==◌, ltb, leb, if◌then◌else◌, get_or, take, length,
}
use atari_sysv_sp.Base.Buffer.{bytes}
use atari_sysv_sp.Base.Words.{word, lt_int, sub_int}
use atari_sysv_sp.Ufs.Disk.{
  Inode, Slice, Bio, root_ino, Result, ok, err, ◌>>=◌, emediumtype, emount, enotdir, enametoolong,
  enoent, ebadarg, einval, eread, enmfiles,
}
use atari_sysv_sp.Ufs.Blocks.{iget}
use atari_sysv_sp.Ufs.Files.{readfile, file_type, ifdir, iflnk}
use atari_sysv_sp.Ufs.Dirs.{Direct, direct_at, dirlookup, same}

-- ufs[]: the slice of a drive
abbrev pub Drives : Type 0
Drives = ℕ → Option Slice

pub record Cookie : Type 0 where
  pub dev : ℕ
  pub index : ℕ

slice_or : Option Slice → Result Slice
slice_or none = err emediumtype
slice_or (some s) = ok s

unfoldable pub slice_of : Drives → ℕ → Result Slice
unfolding slice_or
slice_of ufs dev = slice_or (ufs dev)

-- A drive is not negative here.
unfoldable pub root : Drives → ℕ → ℕ → Result Cookie
root ufs num_drives drv = (do
  _ ← if leb num_drives drv then err emediumtype else slice_of ufs drv
  ok (record { dev = drv; index = root_ino }))

abbrev dot : ℕ
dot = 46

abbrev pub maxnamlen : ℕ
maxnamlen = 255

unfoldable pub lookup : Bio → Drives → Cookie → List ℕ → Result Cookie
unfolding slice_of
lookup io ufs dir name = (do
  s ← slice_of ufs dir.dev
  if same name [] || same name (dot ∷ [])
      then ok dir
      else if same name (dot ∷ dot ∷ []) && (dir.index == root_ino)
      then err emount
      else (do
        ip ← iget io s dir.index
        if not (file_type ip == ifdir)
            then err enotdir
            else if ltb maxnamlen (length name)
            then err enametoolong
            else (let ino = dirlookup io s ip name in
                if ino == 0 then err enoent else ok (record { dev = dir.dev; index = ino }))))

-- DIR, as far as it is used: the directory, TOS_SEARCH, and the position and size.
pub record Dir : Type 0 where
  pub fc : Cookie
  pub tos_search : Bool
  pub pos : ℕ
  pub size : ℕ

unfoldable pub opendir : Bio → Drives → Dir → Result Dir
opendir io ufs dirh = (do
  s ← slice_of ufs dirh.fc.dev
  ip ← iget io s dirh.fc.index
  if not (file_type ip == ifdir) then err enotdir else ok (record dirh { pos = 0; size = ip.size }))

-- What a call of readdir leaves in nm, with the entry's cookie.
pub record Listed : Type 0 where
  pub nm : List ℕ
  pub cookie : Cookie

-- A buffer's string: up to its first 0.
unfoldable pub c_string : List ℕ → List ℕ
c_string [] = []
c_string (c ∷ cs) = let rest = c_string cs in if c == 0 then [] else c ∷ rest

-- The end of a round that has an entry: the buffer's size is tested after the inode's number is put.
list_entry : Dir → ℕ → Direct → List ℕ → Result Listed × Dir
list_entry dirh nmlen d name =
    let next = record dirh { pos = dirh.pos + d.reclen } in
    let front = if dirh.tos_search then [] else bytes (d.ino ∷ []) in
    if ltb (length name) d.namlen
    then (err enmfiles, next)
    else if not (lt_int d.namlen (sub_int nmlen (length front)))
    then (err ebadarg, next)
    else (
      ok (record {
        nm = front ++ (c_string name ++ (0 ∷ []));
        cookie = record { dev = dirh.fc.dev; index = d.ino };
      }),
      next,
    )

-- The loop, with fuel; an entry takes 8 bytes at least.
readdir_from : Bio → Slice → Inode → ℕ → Dir → ℕ → Result Listed × Dir
readdir_from io s ip zero dirh nmlen = (err enmfiles, dirh)
readdir_from io s ip (suc fuel) dirh nmlen =
    let head = readfile io s ip dirh.pos 8 in
    let d = direct_at head in
    let name = readfile io s ip (dirh.pos + 8) d.namlen in
    let rest = readdir_from io s ip fuel (record dirh { pos = dirh.pos + d.reclen }) nmlen in
    if not (lt_int dirh.pos dirh.size)
    then (err enmfiles, dirh)
    else if ltb (length head) 8 || ltb d.reclen 8
    then (err enmfiles, dirh)
    else if not (d.ino == 0) && leb d.namlen maxnamlen
    then list_entry dirh nmlen d name
    else rest

readdir_at : Bio → Dir → ℕ → Result (Slice × Inode) → Result Listed × Dir
readdir_at io dirh nmlen (err e) = (err e, dirh)
readdir_at io dirh nmlen (ok (s, ip)) = readdir_from io s ip (suc dirh.size) dirh nmlen

-- The result, and the directory with its new position. nmlen is the pattern of an int.
unfoldable pub readdir : Bio → Drives → Dir → ℕ → Result Listed × Dir
unfolding readdir_from list_entry readdir_at
readdir io ufs dirh nmlen =
    readdir_at io dirh nmlen
      (do s ← slice_of ufs dirh.fc.dev; ip ← iget io s dirh.fc.index; ok (s, ip))

unfoldable pub rewinddir : Dir → Dir
rewinddir dirh = record dirh { pos = 0 }

unfoldable pub dfree : Drives → Cookie → Result (List ℕ)
dfree ufs dir = (do
  s ← slice_of ufs dir.dev
  ok ((s.nbfree * s.frag + s.nffree) % word ∷ s.dsize ∷ 512 ∷ s.fsize / 512 ∷ []))

-- The label's characters; the buffer takes them and the 0 behind them.
unfoldable pub readlabel : Drives → Cookie → ℕ → Result (List ℕ)
readlabel ufs dir namelen = (do
  s ← slice_of ufs dir.dev
  if leb namelen (length s.volume) then err ebadarg else ok s.volume)

-- The bytes of the link: in the inode (what would lie behind it is not there), or in the file.
link_bytes : Bio → Slice → Inode → ℕ → Result (List ℕ)
link_bytes io s ip n =
    let got = readfile io s ip 0 n in
    if ip.blocks == 0
    then ok (take n (bytes (ip.db ++ ip.ib)))
    else if length got == n
    then ok got
    else err eread

-- The drive letter's name of an absolute target, where a root slice is mounted; len is not negative.
link_target : Option ℕ → (ℕ → ℕ) → List ℕ → ℕ → ℕ → Result (List ℕ)
link_target none letter target n len = if leb len n then err ebadarg else ok (c_string target)
link_target (some drv) letter target n len =
    if not (get_or target 0 0 == 47)
    then (if leb len n then err ebadarg else ok (c_string target))
    else if ltb len 3 || leb len (n + 2)
    then err ebadarg
    else ok (letter drv ∷ 58 ∷ c_string target)

unfoldable pub readlink : Bio → Drives → Option ℕ → (ℕ → ℕ) → Cookie → ℕ → Result (List ℕ)
unfolding link_bytes link_target
readlink io ufs root_drv letter file len = (do
  s ← slice_of ufs file.dev
  ip ← iget io s file.index
  if not (file_type ip == iflnk)
      then err einval
      else if not (lt_int 0 ip.size) || not (lt_int ip.size 1024)
      then err ebadarg
      else (do target ← link_bytes io s ip ip.size; link_target root_drv letter target ip.size len))

-- FS_USAGE
pub record Usage : Type 0 where
  pub blocksize : ℕ
  pub blocks : ℕ
  pub free_blocks : ℕ
  pub inodes : ℕ
  pub free_inodes : ℕ

unfoldable pub fs_usage : Slice → Usage
fs_usage s = record {
  blocksize = s.fsize;
  blocks = s.dsize;
  free_blocks = (s.nbfree * s.frag + s.nffree) % word;
  inodes = s.ipg * s.ncg % word;
  free_inodes = s.nifree;
}
