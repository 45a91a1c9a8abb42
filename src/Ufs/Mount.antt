-- ===== src/Ufs/Mount.antt =====
-- mint/ufsxfs/ufs.c, how a slice with a UFS superblock becomes a drive: `ufs_free_drive`,
-- `ufs_mount_slice`. The disk and bio's descriptors are arguments; memory is always there. A long is its
-- 32-bit pattern.
use mathlib.Core.Path.{subst}
use atari_sysv_sp.Base.{
  ℕ, zero, suc, ◌+◌, ◌-◌, ◌*◌, ◌/◌, ◌≤◌, ◌<◌, ◌≡◌, ◌≢◌, inl, inr, refl, sym, ◌∙◌, ap, Bool, true,
  false, ◌&&◌, not, Option, none, some, List, [], ◌∷◌, ◌==◌, leb, if◌then◌else◌, if_true, if_false,
  arith, Bool-cases,
}
use atari_sysv_sp.Base.Buffer.{slice}
use atari_sysv_sp.Base.Words.{lt_int}
use atari_sysv_sp.Ufs.Disk.{
  Inode, Slice, Bio, root_ino, Error, Result, ok, err, ◌>>=◌, emediumtype, enomem, eread,
}
use atari_sysv_sp.Ufs.Files.{file_type, ifdir}

-- struct ufs_sb, as far as it is read
pub record Superblock : Type 0 where
  pub iblkno : ℕ
  pub cgoffset : ℕ
  pub cgmask : ℕ
  pub dsize : ℕ
  pub ncg : ℕ
  pub bsize : ℕ
  pub fsize : ℕ
  pub frag : ℕ
  pub bshift : ℕ
  pub nindir : ℕ
  pub inopb : ℕ
  pub ipg : ℕ
  pub fpg : ℕ
  pub cs_nbfree : ℕ
  pub cs_nifree : ℕ
  pub cs_nffree : ℕ
  pub magic : ℕ

-- ufs[], nufs, next_drive, root_drv, and the system's _drvbits
pub record Mounts : Type 0 where
  pub ufs : ℕ → Option Slice
  pub nufs : ℕ
  pub next_drive : ℕ
  pub root_drv : Option ℕ
  pub drvbits : ℕ → Bool

abbrev ufs_magic : ℕ
ufs_magic = 0x011954

abbrev pub ufs_max_drives : ℕ
ufs_max_drives = 8

-- What the superblock is checked for.
unfoldable pub is_ufs : Superblock → Bool
is_ufs sb =
    (sb.magic == ufs_magic)
    && not (lt_int sb.bsize 4096)
    && not (lt_int 8192 sb.bsize)
    && not (lt_int sb.fsize 512)
    && not (lt_int sb.bsize sb.fsize)
    && (sb.frag == sb.bsize / sb.fsize)
    && (sb.nindir == sb.bsize / 4)
    && (sb.inopb == sb.bsize / 128)
    && lt_int 0 sb.ipg
    && lt_int 0 sb.fpg
    && lt_int 0 sb.ncg

abbrev has_slice : Option Slice → Bool
has_slice none = false
has_slice (some s) = true

abbrev pub is_free : Mounts → ℕ → Bool
is_free m d = not (d == 20) && not (m.drvbits d) && not (has_slice (m.ufs d))

-- The loop, with the drives left.
unfoldable pub free_drive : Mounts → ℕ → ℕ → Option ℕ
free_drive m zero d = none
free_drive m (suc left) d =
    let rest = free_drive m left (suc d) in if is_free m d then some d else rest

-- The name of a slice without a label, by its tag: root, var, home, usr, ufs.
unfoldable pub default_volume : ℕ → List ℕ
default_volume tag =
    if tag == 2
    then 114 ∷ 111 ∷ 111 ∷ 116 ∷ []
    else if tag == 5
    then 118 ∷ 97 ∷ 114 ∷ []
    else if tag == 8
    then 104 ∷ 111 ∷ 109 ∷ 101 ∷ []
    else if tag == 4
    then 117 ∷ 115 ∷ 114 ∷ []
    else 117 ∷ 102 ∷ 115 ∷ []

abbrev volume_or : List ℕ → List ℕ → List ℕ
volume_or [] default = default
volume_or (c ∷ cs) default = c ∷ cs

-- The slice of a superblock, with its root inode.
unfoldable pub slice_of_sb : Superblock → ℕ → ℕ → List ℕ → Inode → Slice
slice_of_sb sb drv tag volume root = record {
  drv = drv;
  bsize = sb.bsize;
  fsize = sb.fsize;
  frag = sb.frag;
  bshift = sb.bshift;
  nindir = sb.nindir;
  inopb = sb.inopb;
  ipg = sb.ipg;
  fpg = sb.fpg;
  iblkno = sb.iblkno;
  cgoffset = sb.cgoffset;
  cgmask = sb.cgmask;
  dsize = sb.dsize;
  nbfree = sb.cs_nbfree;
  nffree = sb.cs_nffree;
  nifree = sb.cs_nifree;
  ncg = sb.ncg;
  root = root;
  volume = volume_or volume (default_volume tag);
}

root_in : Bio → Option (List ℕ) → Result Inode
root_in io none = err eread
root_in io (some b) = ok (io.dinode (slice b (root_ino * 128) 128))

-- The table with the new drive.
unfoldable pub add_drive : Mounts → ℕ → ℕ → Slice → Mounts
add_drive m drv tag s = record m {
  ufs = λ d. if d == drv then some s else m.ufs d;
  nufs = m.nufs + 1;
  next_drive = drv + 1;
  drvbits = λ d. if d == drv then true else m.drvbits d;
  root_drv = elim m.root_drv [ none ↦ (if tag == 2 then some drv else none) | some r ↦ some r ];
}

-- The search for a drive, and whether one more may be mounted.
drive_or : Option ℕ → ℕ → Result ℕ
drive_or none n = err enomem
drive_or (some drv) n = if leb ufs_max_drives n then err enomem else ok drv

-- `sb` is what the read of the superblock gives, `res_di` whether bio has a descriptor for a drive.
unfoldable pub mount_slice :
    Bio → (ℕ → Bool) → ℕ → Mounts → Result Superblock → ℕ → List ℕ → Result Mounts
unfolding drive_or root_in
mount_slice io res_di num_drives m read tag volume = (do
  sb ← read
  if not (is_ufs sb) then err emediumtype else (do
    drv ← drive_or (free_drive m (num_drives - m.next_drive) m.next_drive) m.nufs
    if not (res_di drv) then err enomem else (do
      root ← root_in io (io.read sb.iblkno sb.bsize)
      if not (file_type root == ifdir)
          then err emediumtype
          else ok (add_drive m drv tag (slice_of_sb sb drv tag volume root)))))

some-inj : {a b : ℕ} → some a ≡ some b → a ≡ b
some-inj {a} h = ap value h
  where
    value : Option ℕ → ℕ
    value none = a
    value (some x) = x

no_slice : (o : Option Slice) → has_slice o ≡ false → o ≡ none
no_slice none h = refl
no_slice (some s) h = absurd (cc)

-- The drive that is found is in range, is not U:, and nothing has it yet.
pub free_drive_lem :
    (m : Mounts) (left d : ℕ) {e : ℕ}
    → free_drive m left d ≡ some e
    → (d ≤ e) × (e < d + left) × (e ≢ 20) × (m.drvbits e ≡ false) × (m.ufs e ≡ none)
unfolding free_drive
free_drive_lem m zero d h = absurd (cc)
free_drive_lem m (suc left) d {e} h = elim (Bool-cases (is_free m d)) [
  | inl free ↦
      let e_is : d ≡ e = some-inj (sym (if_true _ _ free) ∙ h) in
      rw (← e_is) (
        omega arith,
        omega arith,
        (ground (arith, free)),
        (ground (arith, free)),
        no_slice (m.ufs d) (ground (arith, free)),
      )
  | inr taken ↦
      let (lo, hi, not_u, unset, none_there) =
        free_drive_lem m left (suc d) (sym (if_false _ _ taken) ∙ h) in
      (omega (arith, lo), omega (arith, hi), not_u, unset, none_there)
]

-- How many of the first n drives have a slice.
unfoldable pub count : (ℕ → Option Slice) → ℕ → ℕ
count ufs zero = 0
count ufs (suc n) = (if has_slice (ufs n) then 1 else 0) + count ufs n

-- The table of drives: each slice stands at its own drive; `nufs` is how many there are, eight at most.
pub record IsMounts (num_drives : ℕ) (m : Mounts) : Type 0 where
  pub own : (d : ℕ) (s : Slice) → m.ufs d ≡ some s → s.drv ≡ d
  pub counted : count m.ufs num_drives ≡ m.nufs
  pub few : m.nufs ≤ ufs_max_drives

count-above :
    (ufs : ℕ → Option Slice) (drv n : ℕ) (s : Slice)
    → n ≤ drv
    → count (λ d. if d == drv then some s else ufs d) n ≡ count ufs n
unfolding count
count-above ufs drv zero s h = refl
count-above ufs drv (suc n) s h =
    let other : (n == drv) ≡ false = ground arith in
    rw other
      (ap (λ k. (if has_slice (ufs n) then 1 else 0) + k) (count-above ufs drv n s (omega arith)))

-- One drive more.
count-add :
    (ufs : ℕ → Option Slice) (drv n : ℕ) (s : Slice)
    → drv < n
    → ufs drv ≡ none
    → count (λ d. if d == drv then some s else ufs d) n ≡ count ufs n + 1
unfolding count
count-add ufs drv zero s h free = absurd (omega arith)
count-add ufs drv (suc n) s h free = elim (Bool-cases (n == drv)) [
  | inl t ↦
      let here : n ≡ drv = ground (arith, t) in
      let empty : has_slice (ufs n) ≡ false = ap has_slice (ap ufs here ∙ free) in
      rw (t, empty) (omega (arith, count-above ufs drv n s (omega arith)))
  | inr f ↦
      let less : drv < n = ground (arith, f) in
      rw f (omega (arith, count-add ufs drv n s less free))
]

-- What was mounted is still there.
abbrev pub Kept : Mounts → Mounts → Type 0
Kept m m' = (d : ℕ) (s : Slice) → m.ufs d ≡ some s → m'.ufs d ≡ some s

then-ok :
    {A B : Type 0} (r : Result A) (f : A → Result B) {b : B}
    → (r >>= f) ≡ ok b
    → (a : A) × (r ≡ ok a) × (f a ≡ ok b)
then-ok (ok a) f h = (a, refl, h)
then-ok (err e) f h = absurd cc

unless-ok :
    {A : Type 0} (c : Bool) (e : Error) (r : Result A) {a : A}
    → (if not c then err e else r) ≡ ok a
    → (c ≡ true) × (r ≡ ok a)
unless-ok true e r h = (refl, h)
unless-ok false e r h = absurd cc

drive_or-ok :
    (o : Option ℕ) (n : ℕ) {drv : ℕ} → drive_or o n ≡ ok drv → (o ≡ some drv) × (n < ufs_max_drives)
unfolding drive_or
drive_or-ok none n h = absurd cc
drive_or-ok (some d) n {drv} h = elim (Bool-cases (leb ufs_max_drives n)) [
  | inl t ↦ absurd (let x = sym (if_true (err enomem) (ok d) t) ∙ h in cc)
  | inr f ↦ (
    ap (λ r. elim r [ ok x ↦ some x | err e ↦ none ]) (sym (if_false (err enomem) (ok d) f) ∙ h),
    ground (arith, f),
  )
]

ok-inj : {a b : Mounts} → ok a ≡ ok b → a ≡ b
ok-inj {a} h = ap (λ r. elim r [ ok x ↦ x | err e ↦ a ]) h

-- The table with one more drive, which nothing had.
added :
    (num_drives : ℕ) (m : Mounts) (drv tag : ℕ) (s : Slice)
    → IsMounts num_drives m
    → drv < num_drives
    → s.drv ≡ drv
    → m.nufs < ufs_max_drives
    → m.ufs drv ≡ none
    → IsMounts num_drives (add_drive m drv tag s)
      × Kept m (add_drive m drv tag s)
      × ((add_drive m drv tag s).nufs ≡ m.nufs + 1)
unfolding add_drive
added num_drives m drv tag s w below at room free = (
  record {
    own = λ d s' e. elim (Bool-cases (d == drv)) [
      | inl t ↦
          let here : d ≡ drv = ground (arith, t) in
          let is : some s ≡ some s' = sym (if_true _ _ t) ∙ e in
          ap (λ o. elim o [ none ↦ drv | some x ↦ x.drv ]) (sym is) ∙ at ∙ sym here
      | inr f ↦ w.own d s' (sym (if_false (some s) (m.ufs d) f) ∙ e)
    ];
    counted = count-add m.ufs drv num_drives s below free ∙ ap (λ k. k + 1) w.counted;
    few = omega (arith, room);
  },
  λ d s' e. elim (Bool-cases (d == drv)) [
    | inl t ↦
        let here : d ≡ drv = ground (arith, t) in
        absurd (let x = sym e ∙ ap m.ufs here ∙ free in cc)
    | inr f ↦ if_false (some s) (m.ufs d) f ∙ e
  ],
  refl,
)

-- A slice that is mounted takes a drive that nothing had, and changes no other.
pub mount_slice_lem :
    (io : Bio) (res_di : ℕ → Bool) (num_drives : ℕ) (m : Mounts) (read : Result Superblock)
    (tag : ℕ) (volume : List ℕ) {m' : Mounts}
    → IsMounts num_drives m
    → mount_slice io res_di num_drives m read tag volume ≡ ok m'
    → IsMounts num_drives m' × Kept m m' × (m'.nufs ≡ m.nufs + 1)
unfolding mount_slice slice_of_sb
mount_slice_lem io res_di num_drives m read tag volume {m'} w h =
    let made : Superblock → ℕ → Inode → Mounts =
      λ sb drv root. add_drive m drv tag (slice_of_sb sb drv tag volume root) in
    let rooted : Superblock → ℕ → Inode → Result Mounts = λ sb drv root.
      if not (file_type root == ifdir) then err emediumtype else ok (made sb drv root) in
    let found : Superblock → Result Inode = λ sb. root_in io (io.read sb.iblkno sb.bsize) in
    let driven : Superblock → ℕ → Result Mounts =
      λ sb drv. if not (res_di drv) then err enomem else found sb >>= rooted sb drv in
    let drive = drive_or (free_drive m (num_drives - m.next_drive) m.next_drive) m.nufs in
    let (sb, h0, h1) =
      then-ok read (λ sb. if not (is_ufs sb) then err emediumtype else drive >>= driven sb) h in
    let (u, h2) = unless-ok (is_ufs sb) emediumtype (drive >>= driven sb) h1 in
    let (drv, h3, h4) = then-ok drive (driven sb) h2 in
    let (b, h5) = unless-ok (res_di drv) enomem (found sb >>= rooted sb drv) h4 in
    let (root, h6, h7) = then-ok (found sb) (rooted sb drv) h5 in
    let (k, h8) = unless-ok (file_type root == ifdir) emediumtype (ok (made sb drv root)) h7 in
    let (free, few) = drive_or-ok _ m.nufs h3 in
    let (lo, hi, no_u, unused, none_there) = free_drive_lem m _ m.next_drive free in
    subst (λ x. IsMounts num_drives x × Kept m x × (x.nufs ≡ m.nufs + 1)) (ok-inj h8)
      (added num_drives m drv tag (slice_of_sb sb drv tag volume root) w (omega arith) refl few
        none_there)
