-- ===== src/Tlk/Diag/Ends.antt =====
-- How long the diagnosis polls: whether the limit on its polls ends it.
use atari_sysv_sp.Base.{
  ℕ, zero, suc, ◌+◌, ◌-◌, ◌*◌, ◌%◌, ◌≤◌, ◌<◌, ◌^◌, ◌≡◌, ◌≢◌, inl, inr, refl, sym, Bool, true, false,
  Bool-cases, not, ◌||◌, Option, none, some, ◌==◌, if◌then◌else◌, get_or, arith,
}
use atari_sysv_sp.Base.Words.{lt_int, add_int}
use atari_sysv_sp.Tlk.{Reg, r_istat, r_ostat, Link, waiting, is_set}
use atari_sysv_sp.Tlk.Diag.{
  diag_limit, Diagnosis, told, weight, poke, mul_int, poll_from, access, calibrate, time_bytes,
  tlk_diag,
}

module _ {H : Type 0} (l : Link H) where
  -- While a poll counts something, the polls of a byte end at the limit at the latest.
  poll_from-ends :
      (rounds : ℕ) (reg : Reg) (w total c : ℕ) (h : H)
      → 1 ≤ w
      → w ≤ 10 ^ 8
      → total + c * w ≤ diag_limit + w
      → diag_limit + 1 < rounds + c
      → (poll_from l rounds reg w total c h).0 ≢ none
  unfolding poll_from
  poll_from-ends zero reg w total zero h lo hi k e = absurd (omega arith)
  poll_from-ends zero reg w total (suc c) h lo hi k e =
      let one_more : suc c * w ≡ c * w + w = grind arith in
      let counts : c ≤ c * w = grind arith in absurd (omega (arith, one_more, counts, k, e))
  poll_from-ends (suc rounds) reg w total c h lo hi k e =
      let one_more : (c + 1) * w ≡ c * w + w = grind arith in
      let plain : add_int total (mul_int c w) ≡ total + c * w = omega arith in
      elim (Bool-cases (not (lt_int (add_int total (mul_int c w)) diag_limit))) [
        | inl t ↦ rw t (λ z. absurd cc)
        | inr f ↦ rw f (elim (Bool-cases (is_set (l.look reg h).0)) [
          | inl t ↦ rw t (λ z. absurd cc)
          | inr g ↦
              let below : total + c * w < diag_limit = ground (arith, plain, f, k, hi) in
              rw g (
                poll_from-ends rounds reg w total (c + 1) (l.look reg h).1 lo hi
                  (omega (arith, one_more, below)) (omega arith))
        ])
      ]

  poll_from-bound :
      (rounds : ℕ) (reg : Reg) (w total c : ℕ) (h : H) {made : ℕ}
      → w ≤ 10 ^ 8
      → total + c * w ≤ diag_limit + w
      → (poll_from l rounds reg w total c h).0 ≡ some made
      → total + made * w ≤ diag_limit + w
  unfolding poll_from
  poll_from-bound zero reg w total c h hi k = λ z. absurd cc
  poll_from-bound (suc rounds) reg w total c h {made} hi k =
      let one_more : (c + 1) * w ≡ c * w + w = grind arith in
      let plain : add_int total (mul_int c w) ≡ total + c * w = omega arith in
      elim (Bool-cases (not (lt_int (add_int total (mul_int c w)) diag_limit))) [
        | inl t ↦ rw t (λ z. let e : c ≡ made = cc in rw (sym e) k)
        | inr f ↦ rw f (elim (Bool-cases (is_set (l.look reg h).0)) [
          | inl t ↦ rw t (λ z. let e : c ≡ made = cc in rw (sym e) k)
          | inr g ↦
              let below : total + c * w < diag_limit = ground (arith, plain, f, k, hi) in
              rw g (
                poll_from-bound rounds reg w total (c + 1) (l.look reg h).1 hi
                  (omega (arith, one_more, below)))
        ])
      ]

  -- While a poll counts nothing, only the link ends them.
  poll_from-stuck :
      (rounds : ℕ) (reg : Reg) (total c : ℕ) (h : H)
      → ((k : H) → is_set (l.look reg k).0 ≡ false)
      → total < diag_limit
      → (poll_from l rounds reg 0 total c h).0 ≡ none
  unfolding poll_from
  poll_from-stuck zero reg total c h quiet k = refl
  poll_from-stuck (suc rounds) reg total c h quiet k =
      let below : not (lt_int (add_int total (mul_int c 0)) diag_limit) ≡ false = ground arith in
      rw (below, quiet h) (poll_from-stuck rounds reg total (c + 1) (l.look reg h).1 quiet k)

  time_bytes-stuck :
      (rounds left n : ℕ) (h : H)
      → ((k : H) → is_set (l.look r_istat k).0 ≡ false)
      → (time_bytes l rounds true 0 (suc left) n 0 h).0 ≡ none
  unfolding time_bytes
  time_bytes-stuck rounds left n h quiet =
      rw (time_bytes, poll_from-stuck rounds r_istat 0 0 h quiet (omega arith)) refl

  -- With a pause of -2, the diagnosis of a link that has no byte never ends, whatever the fuel: a poll
  -- counts nothing against the limit.
  pub tlk_diag-stuck :
      (rounds hz : ℕ) (lbolt : H → ℕ) (writable : Bool) (h : H)
      → ((k : H) → is_set (l.look r_istat k).0 ≡ false)
      → (tlk_diag l rounds hz lbolt true writable 5 (2 ^ 32 - 2) h).0.0 ≡ waiting
  unfolding tlk_diag weight
  tlk_diag-stuck rounds hz lbolt writable h quiet =
      rw (time_bytes-stuck rounds 63 0 (calibrate l r_istat h) quiet) refl

  found_some : {A : Type 0} (m : Option A) → m ≢ none → (a : A) × (m ≡ some a)
  found_some none h = absurd (h refl)
  found_some (some a) h = (a, refl)

  module _ (rounds : ℕ) (enough : diag_limit + 1 < rounds) where
    time_bytes-ends :
        (left : ℕ) (input : Bool) (w n total : ℕ) (h : H)
        → 1 ≤ w
        → w ≤ 10 ^ 8
        → total < diag_limit
        → (time_bytes l rounds input w left n total h).0 ≢ none
    unfolding time_bytes
    time_bytes-ends zero input w n total h lo hi k = λ z. absurd cc
    time_bytes-ends (suc left) input w n total h lo hi k =
        let reg = if input then r_istat else r_ostat in
        let (c, e) =
          found_some (poll_from l rounds reg w total 0 h).0
            (poll_from-ends rounds reg w total 0 h lo hi (omega arith) (omega arith)) in
        let h2 =
          (access l input (get_or poke (n % 9) 0) (poll_from l rounds reg w total 0 h).1).1 in
        let total' = add_int total (mul_int c w) in
        elim (Bool-cases (not (lt_int total' diag_limit))) [
          | inl t ↦ rw (time_bytes, e, t) (λ z. absurd cc)
          | inr f ↦
              let bound = poll_from-bound rounds reg w total 0 h hi (omega arith) e in
              let below : total' < diag_limit = ground (arith, bound, f, hi) in
              let (rest, e') =
                found_some (time_bytes l rounds input w left (n + 1) total' h2).0
                  (time_bytes-ends left input w (n + 1) total' h2 lo hi below) in
              rw (time_bytes, e, f, e') (λ z. absurd cc)
        ]

    weight-range : (p : ℕ) → p ≤ 10 ^ 8 → (1 ≤ weight p) × (weight p ≤ 10 ^ 8)
    unfolding weight
    weight-range p h = (ground arith, ground arith)

    told-ends : (writable : Bool) (d : Diagnosis) → (told writable d).0 ≢ waiting
    told-ends true d z = absurd cc
    told-ends false d z = absurd cc

    -- With a pause of 0 to 10 ^ 8 loops, the diagnosis ends, whatever the link does: as many polls as the
    -- limit says, and two more, are enough for every byte.
    pub tlk_diag-ends :
        (hz : ℕ) (lbolt : H → ℕ) (readable writable : Bool) (mode paused : ℕ) (h : H)
        → paused ≤ 10 ^ 8
        → (tlk_diag l rounds hz lbolt readable writable mode paused h).0.0 ≢ waiting
    unfolding tlk_diag
    tlk_diag-ends hz lbolt readable writable mode paused h small =
        let input = (mode == 1) || (mode == 3) || (mode == 5) in
        let reg = if input then r_istat else r_ostat in
        let pause : ℕ = if mode == 5 then paused else 0 in
        let small' : pause ≤ 10 ^ 8 = ground (arith, small) in
        let (lo, hi) = weight-range pause small' in
        let (c, e) = found_some (poll_from l rounds reg 1 0 0 h).0 (
          poll_from-ends rounds reg 1 0 0 h (omega arith) (omega arith) (omega arith)
            (omega arith)) in
        let k1 = calibrate l reg h in
        let (timed, e') =
          found_some (time_bytes l rounds input (weight pause) 64 0 0 k1).0
            (time_bytes-ends 64 input (weight pause) 0 0 k1 lo hi (omega arith)) in
        elim (Bool-cases (not readable)) [
          | inl t ↦ rw t (λ z. absurd cc)
          | inr f ↦ rw f (elim (Bool-cases (lt_int mode 1 || lt_int 5 mode)) [
            | inl t ↦ rw t (λ z. absurd cc)
            | inr g ↦ rw g (elim (Bool-cases ((mode == 3) || (mode == 4))) [
              | inl t ↦ rw (t, e) (told-ends writable _)
              | inr u ↦ rw (u, e') (told-ends writable _)
            ])
          ])
        ]
