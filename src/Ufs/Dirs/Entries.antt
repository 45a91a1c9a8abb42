-- ===== src/Ufs/Dirs/Entries.antt =====
-- A directory as a list of entries, and what a search of its bytes finds.
use atari_sysv_sp.Base.{
  ℕ, zero, suc, ◌+◌, ◌*◌, ◌/◌, ◌%◌, ◌^◌, ◌≤◌, ◌<◌, ◌≡◌, refl, sym, ◌∙◌, ap, Bool, true, false, not,
  List, [], ◌∷◌, ◌++◌, ltb, leb, if◌then◌else◌, if_true, if_false, take, drop, length,
  length-append, append_assoc, arith,
}
use atari_sysv_sp.Base.Buffer.{take_front, drop_front}
use atari_sysv_sp.Base.Suffix.{drop-drop}
use atari_sysv_sp.Ufs.Dirs.{Direct, direct_at, Scan, hit, broken, over, scan}

-- An entry's bytes: the header, the name, and what pads it to reclen.
pub packed : Direct → List ℕ → List ℕ → List ℕ
packed d pad rest =
    d.ino / 16777216
    ∷ d.ino / 65536 % 256
    ∷ d.ino / 256 % 256
    ∷ d.ino % 256
    ∷ d.reclen / 256
    ∷ d.reclen % 256
    ∷ d.namlen / 256
    ∷ d.namlen % 256
    ∷ (d.name ++ (pad ++ rest))

pub record Padded : Type 0 where
  pub entry : Direct
  pub pad : List ℕ

pub record IsEntry (p : Padded) : Type 0 where
  pub ino_fits : p.entry.ino < 2 ^ 32
  pub reclen_fits : p.entry.reclen < 2 ^ 16
  pub namlen_is : p.entry.namlen ≡ length p.entry.name
  pub reclen_is : p.entry.reclen ≡ 8 + (p.entry.namlen + length p.pad)

unfoldable pub pack : List Padded → List ℕ
unfolding packed
pack [] = []
pack (p ∷ ps) = packed p.entry p.pad (pack ps)

abbrev pub AllEntries : List Padded → Type 0
AllEntries [] = Unit
AllEntries (p ∷ ps) = IsEntry p × AllEntries ps

-- The first entry that is looked for.
unfoldable pub first : (Direct → Bool) → List Padded → Scan
first wanted [] = over
first wanted (p ∷ ps) = let rest = first wanted ps in if wanted p.entry then hit p.entry else rest

direct_at-packed :
    (d : Direct) (pad rest : List ℕ) → d.namlen ≡ length d.name → direct_at (packed d pad rest) ≡ d
unfolding packed
direct_at-packed d pad rest h =
    let i : (d.ino / 16777216 * 256 + d.ino / 65536 % 256) * 65536
          + (d.ino / 256 % 256 * 256 + d.ino % 256)
        ≡ d.ino =
      omega arith in
    let r : d.reclen / 256 * 256 + d.reclen % 256 ≡ d.reclen = omega arith in
    let l : d.namlen / 256 * 256 + d.namlen % 256 ≡ d.namlen = omega arith in
    let n : take d.namlen (d.name ++ (pad ++ rest)) ≡ d.name =
      take_front d.namlen d.name (pad ++ rest) (sym h) in
    rw (i, r, l, n) refl

length-packed :
    (p : Padded) (rest : List ℕ)
    → IsEntry p
    → length (packed p.entry p.pad rest) ≡ p.entry.reclen + length rest
unfolding packed
length-packed p rest v = omega (
  arith,
  v.namlen_is,
  v.reclen_is,
  length-append p.entry.name (p.pad ++ rest),
  length-append p.pad rest,
)

drop-packed :
    (p : Padded) (rest : List ℕ)
    → IsEntry p
    → drop p.entry.reclen (packed p.entry p.pad rest) ≡ rest
unfolding packed
drop-packed p rest v =
    let front =
      p.entry.ino / 16777216
      ∷ p.entry.ino / 65536 % 256
      ∷ p.entry.ino / 256 % 256
      ∷ p.entry.ino % 256
      ∷ p.entry.reclen / 256
      ∷ p.entry.reclen % 256
      ∷ p.entry.namlen / 256
      ∷ p.entry.namlen % 256
      ∷ (p.entry.name ++ p.pad) in
    let long : length front ≡ p.entry.reclen =
      omega (arith, v.namlen_is, v.reclen_is, length-append p.entry.name p.pad) in
    rw (← append_assoc p.entry.name p.pad rest) (drop_front p.entry.reclen front rest long)

pub scan_lem :
    (wanted : Direct → Bool) (b : List ℕ) (ps : List Padded) (fuel off : ℕ)
    → AllEntries ps
    → drop off b ≡ pack ps
    → off + length (pack ps) ≡ length b
    → length (pack ps) ≤ fuel
    → scan wanted b fuel off ≡ first wanted ps
unfolding scan first pack
scan_lem wanted b [] zero off v at end h = refl
scan_lem wanted b [] (suc fuel) off v at end h =
    let past : leb (off + 8) (length b) ≡ false = ground arith in if_true _ _ (ap not past)
scan_lem wanted b (p ∷ ps) zero off v at end h =
    absurd (omega (arith, length-packed p (pack ps) v.0, v.0.reclen_is))
scan_lem wanted b (p ∷ ps) (suc fuel) off v at end h =
    let long = length-packed p (pack ps) v.0 in
    let present : leb (off + 8) (length b) ≡ true = ground (arith, long, v.0.reclen_is) in
    let whole : ltb p.entry.reclen 8 ≡ false = ground (arith, v.0.reclen_is) in
    let next =
      drop-drop off p.entry.reclen b ∙ ap (drop p.entry.reclen) at ∙ drop-packed p (pack ps) v.0 in
    if_false _ _ (ap not present)
    ∙ ap looked (ap direct_at at ∙ direct_at-packed p.entry p.pad (pack ps) v.0.namlen_is)
    ∙ if_false _ _ whole
    ∙ ap (λ r. if wanted p.entry then hit p.entry else r)
        (scan_lem wanted b ps fuel (off + p.entry.reclen) v.1 next (omega (arith, long))
          (omega (arith, long, v.0.reclen_is)))
  where
    looked : Direct → Scan
    looked d =
        if ltb d.reclen 8
        then broken
        else if wanted d
        then hit d
        else scan wanted b fuel (off + d.reclen)
