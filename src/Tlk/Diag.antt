-- ===== src/Tlk/Diag.antt =====
-- driver-tlk/tlk.c, `tlk_diag`: the timing of the link (TLK_DIAG). C's `int` and `long` are 32-bit
-- patterns; `lbolt` is the kernel's clock tick, and the polls have fuel, `rounds`.
pub mod Ends
use atari_sysv_sp.Base.{
  ℕ, zero, suc, ◌+◌, ◌-◌, ◌*◌, ◌/◌, ◌%◌, ◌≤◌, ◌<◌, ◌^◌, ◌≡◌, ◌≢◌, inl, inr, refl, sym, Bool, true,
  false, Bool-cases, not, ◌&&◌, ◌||◌, Option, none, some, List, [], ◌∷◌, ◌++◌, ◌==◌, ltb, leb,
  if◌then◌else◌, get_or, length, arith,
}
use atari_sysv_sp.Base.Words.{word, lt_int, add_int, sub_int, div_int}
use atari_sysv_sp.Tlk.{
  Reg, r_in, r_out, r_istat, r_ostat, Link, Errno, ok, efault, einval, eperm, waiting, is_set,
}

abbrev pub diag_limit : ℕ
diag_limit = 2000000

-- The diagnosis that goes back to the caller.
pub record Diagnosis : Type 0 where
  pub n : ℕ
  pub nspoll : ℕ
  pub polls : List ℕ
  pub samples : List ℕ

-- What a poll counts against the limit, after a pause of so many loops.
unfoldable pub weight : ℕ → ℕ
weight pause = add_int 1 (div_int pause 2)

abbrev pub poke : List ℕ
poke = 0 ∷ 0 ∷ 1 ∷ 0 ∷ 128 ∷ 120 ∷ 86 ∷ 52 ∷ 18 ∷ []

abbrev pub mul_int : ℕ → ℕ → ℕ
mul_int a b = a * b % word

-- The copyout() at the end.
abbrev pub told : Bool → Diagnosis → Errno × Option Diagnosis
told false d = (efault, none)
told true d = (ok, some d)

module _ {H : Type 0} (l : Link H) where
  -- The polls of a byte, with c of them made: their number, `none` when the fuel ends, and whether the
  -- register was ready.
  unfoldable pub poll_from : ℕ → Reg → ℕ → ℕ → ℕ → H → Option ℕ × H
  poll_from zero reg w total c h = (none, h)
  poll_from (suc rounds) reg w total c h =
      let (v, h1) = l.look reg h in
      let rest = poll_from rounds reg w total (c + 1) h1 in
      if not (lt_int (add_int total (mul_int c w)) diag_limit)
      then (some c, h)
      else if is_set v
      then (some c, h1)
      else rest

  unfoldable pub sample : ℕ → Reg → H → List ℕ × H
  sample zero reg h = ([], h)
  sample (suc n) reg h =
      let (v, h1) = l.look reg h in let (vs, h2) = sample n reg h1 in (v ∷ vs, h2)

  -- One data access: a byte in, or a byte of the command out.
  unfoldable pub access : Bool → ℕ → H → List ℕ × H
  access input b h =
      let (v, h1) = l.look r_in h in if input then (v ∷ [], h1) else ([], l.store r_out b h)

  -- The loop over the bytes that are left of 64, `n` of them timed; `none` when the fuel ends.
  unfoldable pub time_bytes : ℕ → Bool → ℕ → ℕ → ℕ → ℕ → H → Option (List ℕ × List ℕ) × H
  time_bytes rounds input w zero n total h = (some ([], []), h)
  time_bytes rounds input w (suc left) n total h =
      let (c, h1) = poll_from rounds (if input then r_istat else r_ostat) w total 0 h in
      let (d, h2) = access input (get_or poke (n % 9) 0) h1 in
      elim c [
        | none ↦ (none, h1)
        | some c ↦
            let total = add_int total (mul_int c w) in
            let (rest, h3) = time_bytes rounds input w left (n + 1) total h2 in
            if not (lt_int total diag_limit)
            then (some ([], []), h1)
            else (elim rest [ none ↦ none | some (cs, ds) ↦ some (c ∷ cs, d ++ ds) ], h3)
      ]

  -- The polls that are timed against the clock tick.
  unfoldable pub calibrate : Reg → H → H
  calibrate reg h = (sample 400000 reg h).1

  -- `readable` and `writable` are whether copyin() and copyout() can reach the caller's struct; `paused` is
  -- its n, and h's `lbolt` the tick.
  unfoldable pub tlk_diag :
      ℕ → ℕ → (H → ℕ) → Bool → Bool → ℕ → ℕ → H → (Errno × Option Diagnosis) × H
  tlk_diag rounds hz lbolt readable writable mode paused h =
      let input = (mode == 1) || (mode == 3) || (mode == 5) in
      let reg = if input then r_istat else r_ostat in
      let w = weight (if mode == 5 then paused else 0) in
      let (c, h1) = poll_from rounds reg 1 0 0 h in
      let (d, h2) = access input 0 h1 in
      let (raw, h3) = sample 64 reg h2 in
      let k1 = calibrate reg h in
      let nspoll = div_int (mul_int (sub_int (lbolt k1) (lbolt h)) (1000000 / hz)) 400 in
      let (timed, k2) = time_bytes rounds input w 64 0 0 k1 in
      if not readable
      then ((efault, none), h)
      else if lt_int mode 1 || lt_int 5 mode
      then ((einval, none), h)
      else if (mode == 3) || (mode == 4)
      then (elim c [
        | none ↦ ((waiting, none), h1)
        | some c ↦
            (told writable (record { n = 64; nspoll = 0; polls = c ∷ []; samples = raw }), h3)
      ])
      else (elim timed [
        | none ↦ ((waiting, none), k2)
        | some (cs, ds) ↦ (
          told writable (record { n = length cs; nspoll = nspoll; polls = cs; samples = ds }),
          k2,
        )
      ])

  -- TLK_DIAG of `tlkioctl`, which asks for root.
  unfoldable pub diag_request :
      ℕ → ℕ → (H → ℕ) → Bool → Bool → Bool → ℕ → ℕ → H → (Errno × Option Diagnosis) × H
  diag_request rounds hz lbolt root readable writable mode paused h =
      if not root
      then ((eperm, none), h)
      else tlk_diag rounds hz lbolt readable writable mode paused h
