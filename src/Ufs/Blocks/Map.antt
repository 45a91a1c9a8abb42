-- ===== src/Ufs/Blocks/Map.antt =====
-- `ufs_bmap` against the tree of indirect blocks that it walks.
use atari_sysv_sp.Base.{
  ℕ, ◌-◌, ◌/◌, ◌%◌, ◌^◌, ◌≤◌, ◌<◌, ◌≡◌, ◌⊎◌, inl, inr, sym, ◌∙◌, ap, true, false, some, ◌==◌, ltb,
  if◌then◌else◌, if_true, if_false, get_or, arith, Bool-cases,
}
use atari_sysv_sp.Ufs.Disk.{Inode, Slice, IsSane, Bio, ndaddr}
use atari_sysv_sp.Ufs.Blocks.{find_level, entry, descend, from_level, bmap}

-- Entry idx of the indirect block at addr; 0 below a hole, and where the block cannot be read.
pub below : Bio → Slice → ℕ → ℕ → ℕ
below io s addr idx = if addr == 0 then 0 else entry (io.read addr s.bsize) idx

-- The address of block n by the tree: direct, behind one indirect block, or behind two.
pub tree : Bio → Slice → Inode → ℕ → ℕ
tree io s ip n =
    let m = n - ndaddr in
    let far = m - s.nindir in
    if ltb n ndaddr
    then get_or ip.db n 0
    else if ltb m s.nindir
    then below io s (get_or ip.ib 0 0) m
    else below io s (below io s (get_or ip.ib 1 0) (far / s.nindir)) (far % s.nindir)

pub nindir_cases : {s : Slice} → IsSane s → (s.nindir ≡ 1024) ⊎ (s.nindir ≡ 2048)
nindir_cases {s} v = go v.sizes v.nindir_is
  where
    go :
        ((s.bshift ≡ 12) × (s.bsize ≡ 4096)) ⊎ ((s.bshift ≡ 13) × (s.bsize ≡ 8192))
        → s.nindir ≡ s.bsize / 4
        → (s.nindir ≡ 1024) ⊎ (s.nindir ≡ 2048)
    go (inl h) e = inl (omega arith)
    go (inr h) e = inr (omega arith)

find_level_near :
    (nindir m : ℕ)
    → (nindir ≡ 1024) ⊎ (nindir ≡ 2048)
    → m < nindir
    → find_level 3 0 nindir m 1 ≡ some (record { level = 0; n = m; per = 1 })
unfolding find_level
find_level_near nindir m (inl e) h = rw e (ground arith)
find_level_near nindir m (inr e) h = rw e (ground arith)

find_level_far :
    (nindir m : ℕ)
    → (nindir ≡ 1024) ⊎ (nindir ≡ 2048)
    → nindir ≤ m
    → m < 2 ^ 19
    → find_level 3 0 nindir m 1 ≡ some (record { level = 1; n = m - nindir; per = nindir })
unfolding find_level
find_level_far nindir m (inl e) h l = rw e (ground arith)
find_level_far nindir m (inr e) h l = rw e (ground arith)

module _ (io : Bio) (s : Slice) where
  descend_one : (addr n : ℕ) → descend io s 1 addr n 1 ≡ below io s addr n
  unfolding descend below
  descend_one addr n = ground arith

  descend_two :
      (addr n : ℕ)
      → 1 ≤ s.nindir
      → descend io s 2 addr n s.nindir ≡ below io s (below io s addr (n / s.nindir)) (n % s.nindir)
  unfolding descend below
  descend_two addr n h =
      let unit : s.nindir / s.nindir ≡ 1 = grind arith in
      let whole : n % s.nindir / 1 ≡ n % s.nindir = omega arith in rw (unit, whole) (ground arith)

  -- Block n of a file, of those below 2 GB, is where the tree of direct and indirect blocks has it, with two
  -- levels of indirection at most. (Of a slice as mkfs makes it.)
  pub bmap_lem : (ip : Inode) (n : ℕ) → IsSane s → n < 2 ^ 19 → bmap io s ip n ≡ tree io s ip n
  unfolding bmap tree
  bmap_lem ip n v h = elim (Bool-cases (ltb n ndaddr)) [
    | inl direct ↦ if_true _ _ direct ∙ sym (if_true _ _ direct)
    | inr indirect ↦
        if_false _ _ indirect
        ∙ behind (Bool-cases (ltb (n - ndaddr) s.nindir))
        ∙ sym (if_false _ _ indirect)
  ]
    where
      behind :
          (ltb (n - ndaddr) s.nindir ≡ true) ⊎ (ltb (n - ndaddr) s.nindir ≡ false)
          → from_level io s ip (find_level 3 0 s.nindir (n - ndaddr) 1) ≡ (
              if ltb (n - ndaddr) s.nindir
              then below io s (get_or ip.ib 0 0) (n - ndaddr)
              else below io s
                  (below io s (get_or ip.ib 1 0) ((n - ndaddr - s.nindir) / s.nindir))
                  ((n - ndaddr - s.nindir) % s.nindir))
      behind (inl near) =
          ap (from_level io s ip)
            (find_level_near s.nindir (n - ndaddr) (nindir_cases v) (ground arith))
          ∙ descend_one (get_or ip.ib 0 0) (n - ndaddr)
          ∙ sym (if_true _ _ near)
      behind (inr far) =
          ap (from_level io s ip)
            (find_level_far s.nindir (n - ndaddr) (nindir_cases v) (ground arith) (omega arith))
          ∙ descend_two (get_or ip.ib 1 0) (n - ndaddr - s.nindir) (ground (arith, nindir_cases v))
          ∙ sym (if_false _ _ far)

-- Behind two indirect blocks, the entries that are looked at lie in them.
pub tree_bounds :
    (s : Slice) (n : ℕ)
    → IsSane s
    → n < 2 ^ 19
    → ((n - ndaddr - s.nindir) / s.nindir < s.nindir)
      × ((n - ndaddr - s.nindir) % s.nindir < s.nindir)
tree_bounds s n v hi = go s.nindir (nindir_cases v)
  where
    go : (k : ℕ) → (k ≡ 1024) ⊎ (k ≡ 2048) → ((n - ndaddr - k) / k < k) × ((n - ndaddr - k) % k < k)
    go k (inl e) = rw e (omega arith)
    go k (inr e) = rw e (omega arith)
