-- ===== src/Tlk/Info.antt =====
-- driver-tlk/tlk.c, `tlkdriverinfo`: what prtconf is told of the adapters. `reach` is how many bytes of
-- the caller's buffer copyout() can write.
use atari_sysv_sp.Base.{
  ℕ, zero, suc, ◌+◌, ◌-◌, ◌*◌, ◌≤◌, ◌≡◌, inl, inr, refl, ◌∙◌, Bool, false, Bool-cases, not, ◌&&◌,
  Option, none, some, List, [], ◌∷◌, ◌++◌, ◌==◌, ltb, if◌then◌else◌, replicate, length, arith,
}
use atari_sysv_sp.Tlk.{r_istat, r_ostat, Link, Errno, ok, efault, einval}
use atari_sysv_sp.Tlk.Control.{Tlk, tlk_fpga, answer}

pub record Xedt : Type 0 where
  pub name : List ℕ
  pub unit : ℕ
  pub ksize : ℕ

abbrev pub xedt_size : ℕ
xedt_size = 72

-- strncpy() into x_name[64], which was cleared.
unfoldable pub x_name : List ℕ → List ℕ
x_name s = s ++ replicate (64 - length s) 0

unfoldable pub xedt : ℕ → Xedt
xedt zero = record {
  name = x_name (
      84 ∷ 114 ∷ 97 ∷ 110 ∷ 115 ∷ 112 ∷ 117 ∷ 116 ∷ 101 ∷ 114 ∷ 32 ∷ 108 ∷ 105 ∷ 110 ∷ 107 ∷ 32 ∷ 97
      ∷ 100 ∷ 97 ∷ 112 ∷ 116 ∷ 101 ∷ 114 ∷ 32 ∷ 40 ∷ 67 ∷ 48 ∷ 49 ∷ 49 ∷ 41 ∷ 44 ∷ 32 ∷ 84 ∷ 82 ∷ 65
      ∷ 77 ∷ []);
  unit = 0;
  ksize = 0;
}
xedt (suc i) = record {
  name = x_name (
      65 ∷ 84 ∷ 87 ∷ 56 ∷ 48 ∷ 48 ∷ 47 ∷ 50 ∷ 32 ∷ 70 ∷ 80 ∷ 71 ∷ 65 ∷ 32 ∷ 108 ∷ 105 ∷ 110 ∷ 107
      ∷ 44 ∷ 32 ∷ 84 ∷ 52 ∷ 50 ∷ 53 ∷ 32 ∷ 52 ∷ 48 ∷ 32 ∷ 77 ∷ 72 ∷ 122 ∷ []);
  unit = 1;
  ksize = 5120;
}

-- What is left of a call: its result, the count and the entries in the caller's buffer, the adapters.
pub record Info (H : Type 0) : Type 0 where
  pub error : Errno
  pub count : Option ℕ
  pub entries : List Xedt
  pub tlk : Tlk
  pub hw : H

-- The units whose adapters answer.
unfoldable pub units : Bool → Bool → List ℕ
units c011 fpga = (if c011 then 0 ∷ [] else []) ++ (if fpga then 1 ∷ [] else [])

-- The entries for the units, from an offset in the buffer on.
unfoldable pub copy_entries : ℕ → ℕ → List ℕ → Errno × List Xedt
copy_entries reach at [] = (ok, [])
copy_entries reach at (i ∷ is) =
    let (e, xs) = copy_entries reach (at + xedt_size) is in
    if ltb reach (at + xedt_size) then (efault, []) else (e, xedt i ∷ xs)

module _ {H : Type 0} (links : ℕ → Link H) (id_long : ℕ → Option ℕ) where
  unfoldable pub tlkdriverinfo : ℕ → ℕ → ℕ → Tlk → H → Info H
  tlkdriverinfo cmd len reach t h =
      let t' = if not t.fpga.opened then tlk_fpga id_long t else t in
      let (c011, h1) = answer (links t'.c011.base) (r_istat ∷ r_ostat ∷ []) h in
      let (fpga, h2) = answer (links t'.fpga.base) (r_istat ∷ r_ostat ∷ []) h1 in
      let is = units c011 fpga in
      let n = length is in
      let (e, xs) = copy_entries reach 4 is in
      if not (cmd == 76)
      then record { error = einval; count = none; entries = []; tlk = t; hw = h }
      else if (not (len == 4)) && (not (len == 4 + n * xedt_size))
      then record { error = einval; count = none; entries = []; tlk = t'; hw = h2 }
      else if ltb reach 4
      then record { error = efault; count = none; entries = []; tlk = t'; hw = h2 }
      else if len == 4
      then record { error = ok; count = some n; entries = []; tlk = t'; hw = h2 }
      else record { error = e; count = some n; entries = xs; tlk = t'; hw = h2 }

copy_entries-fits :
    (reach at : ℕ) (is : List ℕ)
    → at + length is * xedt_size ≤ reach
    → ((copy_entries reach at is).0 ≡ ok) × (length (copy_entries reach at is).1 ≡ length is)
unfolding copy_entries
copy_entries-fits reach at [] h = (refl, refl)
copy_entries-fits reach at (i ∷ is) h =
    let fits : ltb reach (at + xedt_size) ≡ false = ground arith in
    let (e, n) = copy_entries-fits reach (at + xedt_size) is (omega arith) in
    rw fits (e, omega (arith, n))

module _ {H : Type 0} (links : ℕ → Link H) (id_long : ℕ → Option ℕ) (t : Tlk) (h : H) where
  -- A caller that asks for the count and then, with the adapters and the hardware as they were, for as many
  -- entries, in a buffer of their size, is given that many.
  pub tlkdriverinfo_lem :
      (n reach : ℕ)
      → (tlkdriverinfo links id_long 76 4 4 t h).count ≡ some n
      → 4 + n * xedt_size ≤ reach
      → ((tlkdriverinfo links id_long 76 (4 + n * xedt_size) reach t h).error ≡ ok)
        × (length (tlkdriverinfo links id_long 76 (4 + n * xedt_size) reach t h).entries ≡ n)
  unfolding tlkdriverinfo
  tlkdriverinfo_lem n reach c fits =
      let t' = if not t.fpga.opened then tlk_fpga id_long t else t in
      let (c011, h1) = answer (links t'.c011.base) (r_istat ∷ r_ostat ∷ []) h in
      let is = units c011 (answer (links t'.fpga.base) (r_istat ∷ r_ostat ∷ []) h1).0 in
      let counted : length is ≡ n = cc in
      let right_size : ((not (4 + n * xedt_size == 4))
            && (not (4 + n * xedt_size == 4 + length is * xedt_size)))
          ≡ false =
        ground (arith, counted) in
      let reached : ltb reach 4 ≡ false = ground (arith, fits) in
      let (good, all) = copy_entries-fits reach 4 is (omega (arith, counted, fits)) in
      rw (right_size, reached)
        (elim (Bool-cases (4 + n * xedt_size == 4)) [
          | inl e ↦ rw e (refl, ground (arith, e))
          | inr f ↦ rw f (good, all ∙ counted)
        ])
