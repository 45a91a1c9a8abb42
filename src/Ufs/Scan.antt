-- ===== src/Ufs/Scan.antt =====
-- mint/ufsxfs/ufs.c, the slices of a device (`ufs_scan_device`): the Atari root sector, the VTOC of its
-- UNX partition, and the mount of every slice that may be one. What the disk reads give is an argument, and
-- so is what bio has of each slice.
use atari_sysv_sp.Base.{
  ℕ, zero, suc, ◌+◌, ◌*◌, ◌%◌, ◌^◌, ◌≡◌, refl, Bool, true, false, ◌&&◌, ◌||◌, not, Option, none,
  some, List, ◌==◌, ltb, if◌then◌else◌, get_or, arith,
}
use atari_sysv_sp.Base.Buffer.{slice}
use atari_sysv_sp.Base.Words.{lt_int}
use atari_sysv_sp.Ufs.Disk.{Bio, Result, ok, err, emediumtype}
use atari_sysv_sp.Ufs.Dirs.{short_at}
use atari_sysv_sp.Ufs.Calls.{c_string}
use atari_sysv_sp.Ufs.Mount.{IsMounts, Kept, mount_slice_lem, Superblock, Mounts, mount_slice}

abbrev long_at : List ℕ → ℕ → ℕ
long_at b i = short_at b i * 65536 + short_at b (i + 2)

-- struct vtoc_part
pub record Part : Type 0 where
  pub tag : ℕ
  pub flag : ℕ
  pub start : ℕ
  pub size : ℕ

abbrev pub part_at : List ℕ → ℕ → Part
part_at b i = record {
  tag = short_at b (72 + 12 * i);
  flag = short_at b (74 + 12 * i);
  start = long_at b (76 + 12 * i);
  size = long_at b (80 + 12 * i);
}

-- The first of the four entries that is in use and is an "UNX" one.
unfoldable pub find_unx : List ℕ → ℕ → ℕ → Option ℕ
find_unx sec i zero = none
find_unx sec i (suc n) =
    let at = 454 + 12 * i in
    let rest = find_unx sec (i + 1) n in
    if get_or sec at 0 % 2 == 1
      && get_or sec (at + 1) 0 == 85
      && get_or sec (at + 2) 0 == 78
      && get_or sec (at + 3) 0 == 88
    then some (long_at sec (at + 4))
    else rest

-- A slice that is no file system's: empty, swap, backup, or not to be mounted.
unfoldable pub is_skipped : Part → Bool
is_skipped p =
    not (lt_int 0 p.size) || not (lt_int 0 p.start) || p.tag == 3 || p.tag == 7 || p.flag % 2 == 1

module _ (io : ℕ → Bio) (sb : Part → Result Superblock) (res_di : ℕ → Bool) (num_drives : ℕ) where
  -- The loop over the VTOC's slices from the i-th on, with those mounted so far.
  unfoldable pub mount_parts : List ℕ → ℕ → ℕ → ℕ × Mounts → ℕ × Mounts
  mount_parts sec i zero m = m
  mount_parts sec i (suc n) m =
      let p = part_at sec i in
      let mounted =
        mount_slice (io i) res_di num_drives m.1 (sb p) p.tag (c_string (slice sec 20 8)) in
      let next : ℕ × Mounts =
        if is_skipped p then m else elim mounted [ err e ↦ m | ok m' ↦ (m.0 + 1, m') ] in
      mount_parts sec (i + 1) n next

  -- The sectors' reads; whether the VTOC is sane, and what became of its slices.
  unfoldable pub scan_device : Result ℕ → (ℕ → Result (List ℕ)) → Mounts → Result ℕ × Mounts
  scan_device inq read m =
      let vtoc : List ℕ → Result ℕ × Mounts = λ sec.
        let n = short_at sec 30 in
        let (found, m') = mount_parts sec 0 n (0, m) in
        if not (long_at sec 12 == 1611521774) || n == 0 || ltb 16 n
        then (err emediumtype, m)
        else (if found == 0 then err emediumtype else ok found, m') in
      elim inq [
        | err e ↦ (err e, m)
        | ok bs ↦ if not (bs == 512) then (err emediumtype, m) else elim (read 0) [
          | err e ↦ (err e, m)
          | ok sec ↦ elim (find_unx sec 0 4) [
            | none ↦ (err emediumtype, m)
            | some unx ↦ elim (read ((unx + 2) % 2 ^ 32)) [
              | err e ↦ (err e, m)
              | ok sec' ↦ vtoc sec'
            ]
          ]
        ]
      ]

  -- What becomes of the table, and of the count.
  abbrev pub Scanned : ℕ × Mounts → ℕ × Mounts → Type 0
  Scanned m x = IsMounts num_drives x.1 × Kept m.1 x.1 × (x.0 + m.1.nufs ≡ m.0 + x.1.nufs)

  part_lem :
      (sec : List ℕ) (i : ℕ) (m : ℕ × Mounts) (r : Result Mounts)
      → IsMounts num_drives m.1
      → ((m' : Mounts)
          → r ≡ ok m'
          → IsMounts num_drives m' × Kept m.1 m' × (m'.nufs ≡ m.1.nufs + 1))
      → (b : Bool) → Scanned m (if b then m else elim r [ err e ↦ m | ok m' ↦ (m.0 + 1, m') ])
  part_lem sec i m r w h true = (w, λ d s e. e, refl)
  part_lem sec i m (err x) w h false = (w, λ d s e. e, refl)
  part_lem sec i m (ok m') w h false = let (v, k, n) = h m' refl in (v, k, omega (arith, n))

  -- The loop over the slices of a VTOC, whatever it holds, keeps every slice at the drive that it names,
  -- and `nufs` the number of drives that have one, eight at most; what was mounted before is still there,
  -- and the count that it gives is that of the drives that have a slice now and had none.
  pub mount_parts_lem :
      (sec : List ℕ) (i n : ℕ) (m : ℕ × Mounts)
      → IsMounts num_drives m.1
      → Scanned m (mount_parts sec i n m)
  unfolding mount_parts
  mount_parts_lem sec i zero m w = (w, λ d s e. e, refl)
  mount_parts_lem sec i (suc n) m w =
      let p = part_at sec i in
      let volume = c_string (slice sec 20 8) in
      let mounted = mount_slice (io i) res_di num_drives m.1 (sb p) p.tag volume in
      let next : ℕ × Mounts =
        if is_skipped p then m else elim mounted [ err e ↦ m | ok m' ↦ (m.0 + 1, m') ] in
      let (v, k, c) =
        part_lem sec i m mounted w
          (λ m' e. mount_slice_lem (io i) res_di num_drives m.1 (sb p) p.tag volume w e)
          (is_skipped p) in
      let (v', k', c') = mount_parts_lem sec (i + 1) n next v in
      (v', λ d s e. k' d s (k d s e), omega (arith, c, c'))
