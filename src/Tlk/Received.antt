-- ===== src/Tlk/Received.antt =====
-- What a read takes from the link: `taken` is what the hardware has given.
use atari_sysv_sp.Base.{
  ℕ, zero, suc, ◌-◌, ◌≤◌, ◌≡◌, ◌⊎◌, inl, inr, refl, sym, ◌∙◌, ap, true, Bool-cases, not, ◌&&◌, List,
  [], ◌∷◌, ◌++◌, append_assoc, append-nil, ◌==◌, ltb, if◌then◌else◌, length, length-append, arith,
}
use atari_sysv_sp.Base.Words.{lt_int, add_int}
use atari_sysv_sp.Tlk.{
  r_in, r_istat, Link, spin_polls, chunk, ok, efault, is_set, spin, wait_from, tlk_wait,
}
use atari_sysv_sp.Tlk.Ready.{IsReady, IsHeld, spin-IsReady, wait_from-IsReady}
use atari_sysv_sp.Tlk.Move.{Read, is_ok, receive, read_from, tlkread}

-- A link whose input register gives the next byte of the line where the status says that one is there (and
-- something else where not); the status stays ready until then.
pub record IsReceiver {H : Type 0} (l : Link H) (taken : H → List ℕ) : Type 0 where
  pub taken-in :
      (h : H) → IsReady l r_istat h → taken (l.look r_in h).1 ≡ taken h ++ (l.look r_in h).0 ∷ []
  pub taken-look : (h : H) → taken (l.look r_istat h).1 ≡ taken h
  pub taken-tick : (h : H) → taken (l.tick h).1 ≡ taken h
  pub held : IsHeld l r_istat

module _ {H : Type 0} (l : Link H) (taken : H → List ℕ) (v : IsReceiver l taken) where
  taken-spin : (n : ℕ) (h : H) → taken (spin l r_istat n h).1 ≡ taken h
  unfolding spin
  taken-spin zero h = refl
  taken-spin (suc n) h = elim (Bool-cases (is_set (l.look r_istat h).0)) [
    | inl t ↦ rw t (v.taken-look h)
    | inr f ↦ rw f (taken-spin n (l.look r_istat h).1 ∙ v.taken-look h)
  ]

  taken-wait_from :
      (rounds timeout ticks : ℕ) (h : H)
      → taken (wait_from l rounds r_istat timeout ticks h).1 ≡ taken h
  unfolding wait_from
  taken-wait_from zero timeout ticks h = refl
  taken-wait_from (suc rounds) timeout ticks h =
      let (ready, h1) = spin l r_istat spin_polls h in
      let (signal, h2) = l.tick h1 in
      let spun = taken-spin spin_polls h in
      let slept = v.taken-tick h1 ∙ spun in
      let later =
        taken-wait_from rounds timeout (if timeout == 0 then ticks else add_int ticks 1) h2 in
      elim (Bool-cases ready) [
        | inl t ↦ rw t spun
        | inr f ↦ rw f (elim (Bool-cases (not (timeout == 0) && not (lt_int ticks timeout))) [
          | inl t ↦ rw t spun
          | inr g ↦
              rw g (elim (Bool-cases signal) [ inl t ↦ rw t slept | inr u ↦ rw u (later ∙ slept) ])
        ])
      ]

  receive_lem :
      (n : ℕ) (h : H)
      → (taken (receive l n h).1 ≡ taken h ++ (receive l n h).0) × (length (receive l n h).0 ≤ n)
  unfolding receive
  receive_lem zero h = (sym (append-nil (taken h)), omega arith)
  receive_lem (suc n) h =
      let (ready, h1) = spin l r_istat spin_polls h in
      let (b, h2) = l.look r_in h1 in
      let (bs, h3) = receive l n h2 in
      let (more, le) = receive_lem n h2 in
      elim (Bool-cases ready) [
        | inl t ↦ rw t (
          more
              ∙ ap (λ s. s ++ bs)
                  (v.taken-in h1 (spin-IsReady l r_istat v.held spin_polls h t)
                    ∙ ap (λ s. s ++ b ∷ []) (taken-spin spin_polls h))
              ∙ append_assoc (taken h) (b ∷ []) bs,
          omega (arith, le),
        )
        | inr f ↦ rw f (taken-spin spin_polls h ∙ sym (append-nil (taken h)), omega arith)
      ]

  receive-some :
      (n : ℕ) (h : H) → 1 ≤ n → is_set (l.look r_istat h).0 ≡ true → 1 ≤ length (receive l n h).0
  unfolding receive spin
  receive-some zero h le t = absurd (omega arith)
  receive-some (suc n) h le t = rw t (omega arith)

  -- The bytes taken are those handed over, and no others unless the user's buffer is bad.
  abbrev pub Reads : ℕ → H → Read H → Type 0
  Reads want h r =
      (lost : List ℕ) × (taken r.hw ≡ taken h ++ (r.got ++ lost))
      × (length r.got ≤ want)
      × ((lost ≡ []) ⊎ (r.error ≡ efault))

  read_from-Reads : (fuel good resid : ℕ) (h : H) → Reads resid h (read_from l fuel good resid h)
  unfolding read_from
  read_from-Reads fuel good zero h = ([], sym (append-nil (taken h)), omega arith, inl refl)
  read_from-Reads zero good (suc resid) h = ([], sym (append-nil (taken h)), omega arith, inl refl)
  read_from-Reads (suc fuel) good (suc resid) h =
      let n = if ltb (suc resid) chunk then suc resid else chunk in
      let n_le : n ≤ suc resid = ground arith in
      let (bs, h1) = receive l n h in
      let (took, le) = receive_lem n h in
      let rest = read_from l fuel (good - length bs) (suc resid - n) h1 in
      let (lost, more, le', bad) = read_from-Reads fuel (good - length bs) (suc resid - n) h1 in
      elim (Bool-cases (ltb good (length bs))) [
        | inl t ↦ rw t (bs, took, omega arith, inr refl)
        | inr g ↦ rw g (elim (Bool-cases (ltb (length bs) n)) [
          | inl t ↦ rw t (
            [],
            took ∙ ap (λ r. taken h ++ r) (sym (append-nil bs)),
            omega (arith, le, n_le),
            inl refl,
          )
          | inr u ↦ rw u (
            lost,
            more
                ∙ ap (λ s. s ++ (rest.got ++ lost)) took
                ∙ append_assoc (taken h) bs (rest.got ++ lost)
                ∙ ap (λ r. taken h ++ r) (sym (append_assoc bs rest.got lost)),
            omega (arith, le, le', n_le, length-append bs rest.got),
            bad,
          )
        ])
      ]

  read_from-some :
      (fuel good resid : ℕ) (h : H)
      → 1 ≤ resid
      → is_set (l.look r_istat h).0 ≡ true
      → (read_from l fuel good resid h).error ≡ ok
      → 1 ≤ length (read_from l fuel good resid h).got
  unfolding read_from
  read_from-some fuel good zero h le s = absurd (omega arith)
  read_from-some zero good (suc resid) h le s = λ e. absurd cc
  read_from-some (suc fuel) good (suc resid) h le s =
      let n = if ltb (suc resid) chunk then suc resid else chunk in
      let some : 1 ≤ length (receive l n h).0 = receive-some n h (ground arith) s in
      let (bs, h1) = receive l n h in
      elim (Bool-cases (ltb good (length bs))) [
        | inl t ↦ rw t (λ e. absurd cc)
        | inr g ↦ rw g (elim (Bool-cases (ltb (length bs) n)) [
          | inl t ↦ rw t (λ e. some)
          | inr u ↦ rw u (λ e. omega (
            arith,
            some,
            length-append bs (read_from l fuel (good - length bs) (suc resid - n) h1).got,
          ))
        ])
      ]

  -- A read takes from the link just what it hands over, the number of bytes asked for at most, and a read
  -- of some bytes that succeeds hands over at least one. Only a read into a bad buffer loses bytes. (The
  -- input register gives a byte of the line only where the status is ready, which it then stays.)
  pub tlkread_lem :
      (rounds timeout good want : ℕ) (h : H)
      → Reads want h (tlkread l rounds timeout good want h)
        × (1 ≤ want
            → (tlkread l rounds timeout good want h).error ≡ ok
            → 1 ≤ length (tlkread l rounds timeout good want h).got)
  unfolding tlkread tlk_wait is_ok
  tlkread_lem rounds timeout good want h =
      let (e, h1) = wait_from l rounds r_istat timeout 0 h in
      let same = taken-wait_from rounds timeout 0 h in
      let then_ready = wait_from-IsReady l r_istat v.held rounds timeout 0 h in
      let (lost, more, le, bad) = read_from-Reads want good want h1 in
      elim (Bool-cases (is_ok e)) [
        | inl t ↦ rw t (
          (lost, more ∙ ap (λ s. s ++ ((read_from l want good want h1).got ++ lost)) same, le, bad),
          λ some. read_from-some want good want h1 some (then_ready t),
        )
        | inr f ↦ rw f (
          ([], same ∙ sym (append-nil (taken h)), omega arith, inl refl),
          λ some e. absurd (let z = sym (ap is_ok e) ∙ f in cc),
        )
      ]
