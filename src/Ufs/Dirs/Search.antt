-- ===== src/Ufs/Dirs/Search.antt =====
-- The searches of a directory, over its blocks.
use Prim.Native.Nat.{min}
use atari_sysv_sp.Base.{
  ℕ, zero, suc, ◌+◌, ◌-◌, ◌^◌, ◌≤◌, ◌<◌, ◌≡◌, ◌⊎◌, inl, inr, refl, sym, ◌∙◌, ap, Bool, true, false,
  not, List, [], ◌∷◌, ◌++◌, map, range_from, ◌==◌, if◌then◌else◌, if_true, if_false, length, arith,
  Bool-cases,
}
use atari_sysv_sp.Base.Words.{lt_int}
use atari_sysv_sp.Ufs.Disk.{Inode, Slice, IsSane, Bio}
use atari_sysv_sp.Ufs.Files.{readfile}
use atari_sysv_sp.Ufs.Files.Reads.{file_byte, IsReadable, readfile_lem}
use atari_sysv_sp.Ufs.Dirs.{
  Direct, Scan, over, scan, after, search_from, search_dir, named, ino_of, dirlookup, name_of,
  dirname,
}
use atari_sysv_sp.Ufs.Dirs.Entries.{Padded, AllEntries, pack, first, scan_lem}

abbrev pub entries : List (List Padded) → List Padded
entries [] = []
entries (b ∷ bs) = b ++ entries bs

length-range : (f : ℕ → ℕ) (a n : ℕ) → length (map f (range_from a n)) ≡ n
length-range f a zero = refl
length-range f a (suc n) = ap suc (length-range f (suc a) n)

first-append :
    (wanted : Direct → Bool) (ps qs : List Padded)
    → first wanted (ps ++ qs) ≡ after (first wanted ps) (first wanted qs)
unfolding first after
first-append wanted [] qs = refl
first-append wanted (p ∷ ps) qs = elim (Bool-cases (wanted p.entry)) [
  | inl t ↦ if_true _ _ t ∙ sym (ap (λ r. after r (first wanted qs)) (if_true _ _ t))
  | inr f ↦
      if_false _ _ f
      ∙ first-append wanted ps qs
      ∙ sym (ap (λ r. after r (first wanted qs)) (if_false _ _ f))
]

module _ (io : Bio) (s : Slice) (dir : Inode) where
  abbrev got : ℕ → ℕ
  got pos = min s.bsize (dir.size - pos)

  -- The directory's bytes from pos on hold these entries, block by block.
  abbrev pub HasBlocks : ℕ → List (List Padded) → Type 0
  HasBlocks pos [] = pos ≡ dir.size
  HasBlocks pos (b ∷ bs) =
      (pos < dir.size)
      × AllEntries b
      × (map (file_byte io s dir) (range_from pos (got pos)) ≡ pack b)
      × HasBlocks (pos + got pos) bs

  size : ((s.bshift ≡ 12) × (s.bsize ≡ 4096)) ⊎ ((s.bshift ≡ 13) × (s.bsize ≡ 8192)) → 1 ≤ s.bsize
  size (inl h) = omega (arith, h.1)
  size (inr h) = omega (arith, h.1)

  module _ (v : IsSane s) (r : IsReadable io s dir) (small : dir.size < 2 ^ 31)
      (wanted : Direct → Bool) where
    search_from_lem :
        (bs : List (List Padded)) (fuel pos : ℕ)
        → HasBlocks pos bs
        → dir.size ≤ pos + fuel
        → search_from io s dir wanted fuel pos ≡ first wanted (entries bs)
    unfolding search_from first
    search_from_lem [] zero pos h l = refl
    search_from_lem [] (suc fuel) pos h l =
        let past : lt_int pos dir.size ≡ false = ground arith in if_true _ _ (ap not past)
    search_from_lem (b ∷ bs) zero pos h l = absurd (omega (arith, h.0))
    search_from_lem (b ∷ bs) (suc fuel) pos (before, good, is, next) l =
        let inside : lt_int pos dir.size ≡ true = ground arith in
        let block : readfile io s dir pos s.bsize ≡ pack b =
          readfile_lem io s dir v r small pos s.bsize (omega arith) ∙ is in
        let long : length (pack b) ≡ got pos =
          ap length (sym is) ∙ length-range (file_byte io s dir) pos (got pos) in
        let positive : (length (pack b) == 0) ≡ false = ground (arith, long, sane_size) in
        if_false _ _ (ap not inside)
        ∙ ap taken block
        ∙ if_false _ _ positive
        ∙ ap (λ c. after c (search_from io s dir wanted fuel (pos + length (pack b))))
            (scan_lem wanted (pack b) b (length (pack b)) 0 good refl (omega arith) (omega arith))
        ∙ ap (λ k. after (first wanted b) (search_from io s dir wanted fuel (pos + k))) long
        ∙ ap (after (first wanted b))
            (search_from_lem bs fuel (pos + got pos) next (omega (arith, sane_size)))
        ∙ sym (first-append wanted b (entries bs))
      where
        sane_size : 1 ≤ s.bsize
        sane_size = size v.sizes

        taken : List ℕ → Scan
        taken c =
            if length c == 0
            then over
            else after (scan wanted c (length c) 0)
                (search_from io s dir wanted fuel (pos + length c))

  -- A name looked up in a directory gives the inode of its first live entry of that name, or 0, and an
  -- inode's name is that of its first entry, or an error when there is none or the buffer is too small:
  -- for a directory whose blocks hold well-formed entries.
  pub dirlookup_lem :
      (bs : List (List Padded)) (name : List ℕ) (ino max : ℕ)
      → IsSane s
      → IsReadable io s dir
      → dir.size < 2 ^ 31
      → HasBlocks 0 bs
      → (dirlookup io s dir name ≡ ino_of (first (named name) (entries bs)))
        × (dirname io s dir ino max ≡ name_of max (first (λ d. d.ino == ino) (entries bs)))
  unfolding dirlookup dirname search_dir
  dirlookup_lem bs name ino max v r small h = (
    ap ino_of (search_from_lem v r small (named name) bs dir.size 0 h (omega arith)),
    ap (name_of max) (search_from_lem v r small (λ d. d.ino == ino) bs dir.size 0 h (omega arith)),
  )
