-- ===== src/Ufs/Files/Reads.antt =====
-- `ufs_readfile` against the bytes of the file: what is asked for, up to the end of the file.
use Prim.Native.Nat.{min}
use atari_sysv_sp.Base.{
  ℕ, zero, suc, ◌+◌, ◌-◌, ◌*◌, ◌/◌, ◌%◌, ◌^◌, ◌≤◌, ◌<◌, ◌≡◌, ◌≢◌, ◌⊎◌, inl, inr, refl, sym, ◌∙◌, ap,
  true, false, not, Option, none, some, List, [], ◌++◌, map, ◌==◌, ==_iff, ltb, if◌then◌else◌,
  if_true, if_false, get_or, length, range_from, arith, Bool-cases, ℕ_discrete,
}
use atari_sysv_sp.Base.Ranges.{map-range_shift, map-range_append, slice_lem, replicate_lem}
use atari_sysv_sp.Base.Mask.{and_word, and_word_mask, pow_pos}
use atari_sysv_sp.Base.Words.{lt_int}
use atari_sysv_sp.Ufs.Disk.{Inode, Slice, IsSane, Bio}
use atari_sysv_sp.Ufs.Blocks.{bmap}
use atari_sysv_sp.Ufs.Files.{have, cut, part, read_loop, readfile}

byte_at : Option (List ℕ) → ℕ → ℕ
byte_at none i = 0
byte_at (some b) i = get_or b i 0

-- Byte p of a file: 0 in a hole, else a byte of the block that the disk has for it.
unfoldable pub file_byte : Bio → Slice → Inode → ℕ → ℕ
unfolding byte_at
file_byte io s ip p =
    let blk = p / 2 ^ s.bshift in
    if bmap io s ip blk == 0
    then 0
    else byte_at (io.read (bmap io s ip blk) (have s ip.size blk)) (p % 2 ^ s.bshift)

-- The cache gives as many bytes as it is asked for, and every block of the file can be read.
pub record IsReadable (io : Bio) (s : Slice) (ip : Inode) : Type 0 where
  pub whole : (a n : ℕ) {b : List ℕ} → io.read a n ≡ some b → length b ≡ n
  pub there :
      (blk : ℕ)
      → bmap io s ip blk ≢ 0
      → (b : List ℕ) × (io.read (bmap io s ip blk) (have s ip.size blk) ≡ some b)

abbrev pub IsBlockSize : ℕ → Type 0
IsBlockSize k = (k ≡ 4096) ⊎ (k ≡ 8192)

same_block :
    (k pos n i : ℕ)
    → IsBlockSize k
    → pos % k + n ≤ k
    → i < n
    → ((pos + i) / k ≡ pos / k) × ((pos + i) % k ≡ pos % k + i)
same_block k pos n i (inl e) = rw e (λ h l. omega arith)
same_block k pos n i (inr e) = rw e (λ h l. omega arith)

pub block_size : {s : Slice} → IsSane s → (2 ^ s.bshift ≡ s.bsize) × IsBlockSize (2 ^ s.bshift)
block_size {s} v = go v.sizes
  where
    go :
        ((s.bshift ≡ 12) × (s.bsize ≡ 4096)) ⊎ ((s.bshift ≡ 13) × (s.bsize ≡ 8192))
        → (2 ^ s.bshift ≡ s.bsize) × IsBlockSize (2 ^ s.bshift)
    go (inl h) = rw (h.0, h.1) (refl, inl refl)
    go (inr h) = rw (h.0, h.1) (refl, inr refl)

module _ (io : Bio) (s : Slice) (ip : Inode) where
  file_byte-block :
      (p blk i : ℕ)
      → p / 2 ^ s.bshift ≡ blk
      → p % 2 ^ s.bshift ≡ i
      → file_byte io s ip p ≡ (
          if bmap io s ip blk == 0
          then 0
          else byte_at (io.read (bmap io s ip blk) (have s ip.size blk)) i)
  unfolding file_byte
  file_byte-block p blk i e f = rw (e, f) refl

  -- One round gets the n bytes from pos on, where they lie in one block.
  part_lem :
      (pos n blk off : ℕ)
      → IsSane s
      → IsReadable io s ip
      → blk ≡ pos / 2 ^ s.bshift
      → off ≡ pos % 2 ^ s.bshift
      → off + n ≤ 2 ^ s.bshift
      → off + n ≤ have s ip.size blk
      → part io (bmap io s ip blk) (have s ip.size blk) off n
        ≡ some (map (file_byte io s ip) (range_from pos n))
  unfolding part cut byte_at
  part_lem pos n blk off v r eb eo fits got = elim (ℕ_discrete (bmap io s ip blk) 0) [
    | yes hole ↦
        let t : (bmap io s ip blk == 0) ≡ true = (==_iff _ _).1 hole in
        if_true _ _ t
        ∙ ap some (
            replicate_lem n pos
            ∙ map-range_shift (λ _. 0) (file_byte io s ip) pos pos n
                (λ i l. sym (inside i l ∙ if_true _ _ t)))
    | no data_block ↦
        let f : (bmap io s ip blk == 0) ≡ false = ground arith in
        let (b, e) = r.there blk data_block in
        let long : off + n ≤ length b = rw (r.whole _ _ e) got in
        if_false _ _ f
        ∙ ap (cut off n) e
        ∙ ap some (
            slice_lem b off n long
            ∙ map-range_shift (λ i. get_or b i 0) (file_byte io s ip) off pos n
                (λ i l. sym (inside i l ∙ if_false _ _ f ∙ ap (λ o. byte_at o (off + i)) e)))
  ]
    where
      inside :
          (i : ℕ)
          → i < n
          → file_byte io s ip (pos + i) ≡ (
              if bmap io s ip blk == 0
              then 0
              else byte_at (io.read (bmap io s ip blk) (have s ip.size blk)) (off + i))
      inside i l =
          let (p, q) = same_block (2 ^ s.bshift) pos n i (block_size v).1 (rw (← eo) fits) l in
          file_byte-block (pos + i) blk (off + i) (p ∙ sym eb) (q ∙ rw eo refl)

  -- The cache is asked for at least the bytes of the block that the file has.
  have_bounds :
      (blk e : ℕ)
      → IsSane s
      → e ≤ 2 ^ s.bshift
      → blk * 2 ^ s.bshift + e ≤ ip.size
      → e ≤ have s ip.size blk
  unfolding have
  have_bounds blk e v fits inside =
      rw (wanted_eq, v.fsize_is)
        (rw
          (and_word_mask v.fshift (wanted (ip.size - blk * 2 ^ s.bshift) + 2 ^ v.fshift - 1)
            (omega (arith, v.fshift_in)))
          (whole (2 ^ v.fshift) (wanted (ip.size - blk * 2 ^ s.bshift)) (pow_pos v.fshift)
            (enough (omega arith))))
    where
      wanted : ℕ → ℕ
      wanted left = if ltb s.bsize left then s.bsize else left

      wanted_eq :
          (if ltb s.bsize (ip.size - blk * 2 ^ s.bshift)
            then s.bsize
            else ip.size - blk * 2 ^ s.bshift)
          ≡ wanted (ip.size - blk * 2 ^ s.bshift)
      wanted_eq = refl

      enough : {left : ℕ} → e ≤ left → e ≤ wanted left
      enough {left} h = elim (Bool-cases (ltb s.bsize left)) [
        | inl t ↦ rw (if_true _ _ t, ← (block_size v).0) fits
        | inr f ↦ rw (if_false _ _ f) h
      ]

      whole : (k x : ℕ) → 1 ≤ k → e ≤ x → e ≤ x + k - 1 - (x + k - 1) % k
      whole k x h l = grind arith

  -- The bytes of a round lie in one block.
  abbrev chunk : ℕ → ℕ → ℕ
  chunk pos len =
      if ltb len (s.bsize - and_word pos (s.bsize - 1))
      then len
      else s.bsize - and_word pos (s.bsize - 1)

  offset_lem : (pos : ℕ) → IsSane s → and_word pos (s.bsize - 1) ≡ pos % 2 ^ s.bshift
  offset_lem pos v = rw (← (block_size v).0) (and_word_mask s.bshift pos (shift v.sizes))
    where
      shift :
          ((s.bshift ≡ 12) × (s.bsize ≡ 4096)) ⊎ ((s.bshift ≡ 13) × (s.bsize ≡ 8192))
          → s.bshift ≤ 32
      shift (inl h) = omega (arith, h.0)
      shift (inr h) = omega (arith, h.0)

  module _ (v : IsSane s) (r : IsReadable io s ip) (small : ip.size < 2 ^ 31) where
    -- A round that gets n bytes, and the rounds after it.
    round_lem :
        (pos len n blk off : ℕ)
        → blk ≡ pos / 2 ^ s.bshift
        → off ≡ pos % 2 ^ s.bshift
        → off + n ≤ 2 ^ s.bshift
        → n ≤ len
        → pos + len ≤ ip.size
        → (elim (part io (bmap io s ip blk) (have s ip.size blk) off n) [
          | none ↦ []
          | some got ↦ got ++ map (file_byte io s ip) (range_from (pos + n) (len - n))
        ])
          ≡ map (file_byte io s ip) (range_from pos len)
    round_lem pos len n blk off eb eo fits le inside =
        let got = part_lem pos n blk off v r eb eo fits (have_bounds blk (off + n) v fits there) in
        rw got (
          sym (map-range_append (file_byte io s ip) pos n (len - n))
          ∙ ap (λ k. map (file_byte io s ip) (range_from pos k)) (omega arith))
      where
        place : (p k b o : ℕ) → IsBlockSize k → b ≡ p / k → o ≡ p % k → b * k + o ≡ p
        place p k b o (inl e) = rw e (λ x y. omega arith)
        place p k b o (inr e) = rw e (λ x y. omega arith)

        there : blk * 2 ^ s.bshift + (off + n) ≤ ip.size
        there = omega (arith, place pos (2 ^ s.bshift) blk off (block_size v).1 eb eo)

    chunk_bounds :
        (pos len : ℕ)
        → len ≢ 0
        → (1 ≤ chunk pos len)
          × (chunk pos len ≤ len)
          × (and_word pos (s.bsize - 1) + chunk pos len ≤ 2 ^ s.bshift)
    chunk_bounds pos len h =
        rw (offset_lem pos v, ← (block_size v).0) (go (2 ^ s.bshift) (block_size v).1)
      where
        go :
            (k : ℕ)
            → IsBlockSize k
            → (1 ≤ (if ltb len (k - pos % k) then len else k - pos % k))
              × ((if ltb len (k - pos % k) then len else k - pos % k) ≤ len)
              × (pos % k + (if ltb len (k - pos % k) then len else k - pos % k) ≤ k)
        go k (inl e) = rw e (elim (Bool-cases (ltb len (4096 - pos % 4096))) [
          | inl t ↦ rw (if_true _ _ t) (omega arith, omega arith, ground arith)
          | inr f ↦ rw (if_false _ _ f) (omega arith, ground arith, omega arith)
        ])
        go k (inr e) = rw e (elim (Bool-cases (ltb len (8192 - pos % 8192))) [
          | inl t ↦ rw (if_true _ _ t) (omega arith, omega arith, ground arith)
          | inr f ↦ rw (if_false _ _ f) (omega arith, ground arith, omega arith)
        ])

    read_loop_lem :
        (fuel pos len : ℕ)
        → len ≤ fuel
        → pos + len ≤ ip.size
        → read_loop io s ip fuel pos len ≡ map (file_byte io s ip) (range_from pos len)
    unfolding read_loop
    read_loop_lem zero pos zero h inside = refl
    read_loop_lem zero pos (suc len) h inside = absurd (omega arith)
    read_loop_lem (suc fuel) pos zero h inside = refl
    read_loop_lem (suc fuel) pos (suc len) h inside =
        let (some_bytes, le, fits) = chunk_bounds pos (suc len) (omega arith) in
        let n = chunk pos (suc len) in
        if_false _ _ positive
        ∙ ap
            (after (
              part io (bmap io s ip (pos / 2 ^ s.bshift)) (have s ip.size (pos / 2 ^ s.bshift))
                (and_word pos (s.bsize - 1)) n))
            (read_loop_lem fuel (pos + n) (suc len - n) (omega arith) (omega arith))
        ∙ round_lem pos (suc len) n (pos / 2 ^ s.bshift) (and_word pos (s.bsize - 1)) refl
            (offset_lem pos v) fits le inside
      where
        positive : (suc len == 0) ≡ false
        positive = ground arith

        after : Option (List ℕ) → List ℕ → List ℕ
        after got rest = elim got [ none ↦ [] | some bytes ↦ bytes ++ rest ]

    -- A read gets the bytes of the file from a position on, holes as zeros: as many as were asked for, or
    -- all up to the end of the file. (Of a slice as mkfs makes it, blocks that can be read, and a file
    -- under 2 GB.)
    pub readfile_lem :
        (pos len : ℕ)
        → pos < 2 ^ 31
        → readfile io s ip pos len
          ≡ map (file_byte io s ip) (range_from pos (min len (ip.size - pos)))
    unfolding readfile
    readfile_lem pos len h = elim (Bool-cases (lt_int pos ip.size)) [
      | inl before ↦
          let inside : pos < ip.size = ground arith in
          let wanted : (if ltb (ip.size - pos) len then ip.size - pos else len)
              ≡ min len (ip.size - pos) =
            ground arith in
          if_false _ _ (ap not before)
          ∙ ap (λ k. read_loop io s ip k pos k) wanted
          ∙ read_loop_lem (min len (ip.size - pos)) pos (min len (ip.size - pos)) (omega arith)
              (omega arith)
      | inr past ↦
          let none_left : min len (ip.size - pos) ≡ 0 = ground arith in
          if_true _ _ (ap not past)
          ∙ ap (λ k. map (file_byte io s ip) (range_from pos k)) (sym none_left)
    ]
