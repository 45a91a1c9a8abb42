-- ===== src/Ufs/Dirs.antt =====
-- mint/ufsxfs/ufs.c, directories: `ufs_dirlookup`, `ufs_dirname`. A name is the list of its
-- characters; what lies behind the bytes of a block is read as zeros.
pub mod Entries
pub mod Search
use atari_sysv_sp.Base.{
  ℕ, zero, suc, ◌+◌, ◌-◌, ◌*◌, Bool, true, false, ◌&&◌, not, Option, none, some, List, [], ◌∷◌,
  ◌==◌, ltb, leb, if◌then◌else◌, get_or, take, drop, length,
}
use atari_sysv_sp.Base.Words.{word, lt_int}
use atari_sysv_sp.Ufs.Disk.{Inode, Slice, Bio, Result, ok, err, Error, enoent, ebadarg}
use atari_sysv_sp.Ufs.Files.{readfile}

-- struct ufs_direct, with the name as long as it says
pub record Direct : Type 0 where
  pub ino : ℕ
  pub reclen : ℕ
  pub namlen : ℕ
  pub name : List ℕ

abbrev pub short_at : List ℕ → ℕ → ℕ
short_at b i = get_or b i 0 * 256 + get_or b (i + 1) 0

abbrev pub direct_at : List ℕ → Direct
direct_at b = record {
  ino = short_at b 0 * 65536 + short_at b 2;
  reclen = short_at b 4;
  namlen = short_at b 6;
  name = take (short_at b 6) (drop 8 b);
}

-- How a block's loop ends: at an entry that is looked for, at a broken one, or at the end.
pub data Scan : Type 0 where
  hit : Direct → Scan
  broken : Scan
  over : Scan

-- The loop over the entries of a block, from offset off on.
pub scan : (Direct → Bool) → List ℕ → ℕ → ℕ → Scan
scan wanted b zero off = over
scan wanted b (suc fuel) off =
    let d = direct_at (drop off b) in
    let rest = scan wanted b fuel (off + d.reclen) in
    if not (leb (off + 8) (length b))
    then over
    else if ltb d.reclen 8
    then broken
    else if wanted d
    then hit d
    else rest

-- What a block's loop says, with what the blocks after it say: a broken entry ends the search.
after : Scan → Scan → Scan
after (hit d) rest = hit d
after broken rest = broken
after over rest = rest

-- The loop over the blocks; a block of which nothing is read ends it.
search_from : Bio → Slice → Inode → (Direct → Bool) → ℕ → ℕ → Scan
search_from io s dir wanted zero pos = over
search_from io s dir wanted (suc fuel) pos =
    let b = readfile io s dir pos s.bsize in
    let rest = search_from io s dir wanted fuel (pos + length b) in
    if not (lt_int pos dir.size)
    then over
    else if length b == 0
    then over
    else after (scan wanted b (length b) 0) rest

unfoldable pub search_dir : Bio → Slice → Inode → (Direct → Bool) → Scan
unfolding search_from scan after
search_dir io s dir wanted = search_from io s dir wanted dir.size 0

-- !memcmp, of strings as long
unfoldable pub same : List ℕ → List ℕ → Bool
same [] [] = true
same (x ∷ xs) (y ∷ ys) = (x == y) && same xs ys
same _ _ = false

abbrev pub named : List ℕ → Direct → Bool
named name d = not (d.ino == 0) && (d.namlen == length name) && same d.name name

abbrev pub ino_of : Scan → ℕ
ino_of (hit d) = d.ino
ino_of _ = 0

unfoldable pub dirlookup : Bio → Slice → Inode → List ℕ → ℕ
dirlookup io s dir name = ino_of (search_dir io s dir (named name))

abbrev pub name_of : ℕ → Scan → Result (List ℕ)
name_of max (hit d) = if leb max d.namlen then err ebadarg else ok d.name
name_of max _ = err enoent

unfoldable pub dirname : Bio → Slice → Inode → ℕ → ℕ → Result (List ℕ)
dirname io s dir ino max = name_of max (search_dir io s dir (λ d. d.ino == ino))
