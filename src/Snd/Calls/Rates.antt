-- ===== src/Snd/Calls/Rates.antt =====
-- The settings: the rate, and the wait for a frame interrupt that goes with it.
use atari_sysv_sp.Base.{
  ℕ, ◌/◌, ◌%◌, ◌≤◌, ◌<◌, ◌≡◌, inl, inr, refl, ap, ltb, ltb→lt, false, Bool-cases, zero, suc, get_or,
  arith,
}
use native.Mathlib.Nat.{le_trans}
use atari_sysv_sp.Snd.{Sound, rates, snd_setquiet}
use atari_sysv_sp.Snd.Calls.{distance, nearer, best_rate, set_rate}

abbrev far : ℕ → ℕ → ℕ
far arg i = distance arg (get_or rates i 0)

nearer_lem :
    (arg b i : ℕ)
    → b < 4
    → i < 4
    → (nearer arg b i < 4)
      × (far arg (nearer arg b i) ≤ far arg b)
      × (far arg (nearer arg b i) ≤ far arg i)
nearer_lem arg b i hb hi = elim (Bool-cases (ltb (far arg i) (far arg b))) [
  | inl closer ↦
      let lt = ltb→lt (far arg i) (far arg b) closer in
      rw closer (hi, omega (arith, lt), omega arith)
  | inr not_closer ↦ rw not_closer (hb, omega arith, not_lt (far arg i) (far arg b) not_closer)
]
  where
    not_lt : (x y : ℕ) → ltb x y ≡ false → y ≤ x
    not_lt x y h = ground arith

best_rate_lem : (arg i : ℕ) → i < 4 → (best_rate arg < 4) × (far arg (best_rate arg) ≤ far arg i)
unfolding best_rate
best_rate_lem arg i h =
    let one = nearer_lem arg 0 1 (omega arith) (omega arith) in
    let two = nearer_lem arg (nearer arg 0 1) 2 one.0 (omega arith) in
    let three = nearer_lem arg (nearer arg (nearer arg 0 1) 2) 3 two.0 (omega arith) in
    (three.0, cases i h one two three)
  where
    cases :
        (i : ℕ)
        → i < 4
        → (nearer arg 0 1 < 4)
          × (far arg (nearer arg 0 1) ≤ far arg 0)
          × (far arg (nearer arg 0 1) ≤ far arg 1)
        → (nearer arg (nearer arg 0 1) 2 < 4)
          × (far arg (nearer arg (nearer arg 0 1) 2) ≤ far arg (nearer arg 0 1))
          × (far arg (nearer arg (nearer arg 0 1) 2) ≤ far arg 2)
        → (nearer arg (nearer arg (nearer arg 0 1) 2) 3 < 4)
          × (far arg (nearer arg (nearer arg (nearer arg 0 1) 2) 3)
              ≤ far arg (nearer arg (nearer arg 0 1) 2))
          × (far arg (nearer arg (nearer arg (nearer arg 0 1) 2) 3) ≤ far arg 3)
        → far arg (nearer arg (nearer arg (nearer arg 0 1) 2) 3) ≤ far arg i
    cases zero h a b c = le_trans c.1 (le_trans b.1 a.1)
    cases (suc zero) h a b c = le_trans c.1 (le_trans b.1 a.2)
    cases (suc (suc zero)) h a b c = le_trans c.1 b.2
    cases (suc (suc (suc zero))) h a b c = c.2
    cases (suc (suc (suc (suc i)))) h a b c = absurd (omega (arith, h))

-- The rate that SND_SETRATE sets is one of the hardware's four, none of them is nearer to the rate that
-- was asked for, and it is the rate that the call returns and the DMA is told; mono stays mono and stereo
-- stereo.
pub set_rate_lem :
    (hertz arg i : ℕ) (d : Sound)
    → i < 4
    → (distance arg (set_rate hertz arg d).1 ≤ distance arg (get_or rates i 0))
      × ((set_rate hertz arg d).1 ≡ get_or rates ((set_rate hertz arg d).0.mode % 4) 0)
      × ((set_rate hertz arg d).0.dma.mode ≡ (set_rate hertz arg d).0.mode)
      × ((set_rate hertz arg d).0.mode / 128 % 2 ≡ d.mode / 128 % 2)
unfolding set_rate snd_setquiet
set_rate_lem hertz arg i d h =
    let (small, best) = best_rate_lem arg i h in
    (best, ap (λ k. get_or rates k 0) (omega (arith, small)), refl, omega (arith, small))
