-- ===== src/Tlk/Waits.antt =====
-- The waits end: fuel for the ticks of the time limit is enough.
use atari_sysv_sp.Base.{
  ℕ, zero, suc, ◌+◌, ◌-◌, ◌≤◌, ◌<◌, ◌^◌, ◌≡◌, inl, inr, Bool, true, false, Bool-cases, not, ◌||◌,
  List, [], ◌∷◌, ◌==◌, ltb, if◌then◌else◌, take, drop, length, arith,
}
use atari_sysv_sp.Base.Suffix.{length-drop}
use atari_sysv_sp.Base.Words.{lt_int, add_int}
use atari_sysv_sp.Tlk.{
  Reg, r_out, r_istat, r_ostat, Link, spin_polls, chunk, Errno, ok, efault, eio, eintr, einval,
  enxio, ebusy, eperm, waiting, is_set, spin, wait_from, tlk_wait,
}
use atari_sysv_sp.Tlk.Move.{
  is_ok, given_up, out_ready, send, write_from, tlkwrite, receive, read_from, tlkread,
}

abbrev pub Ends : Errno → Type 0
Ends waiting = ⊥
Ends _ = Unit

given_up-Ends : (e : Errno) → Ends e → Ends (given_up e)
unfolding given_up
given_up-Ends ok h = tt
given_up-Ends efault h = tt
given_up-Ends waiting h = h
given_up-Ends eio h = tt
given_up-Ends eintr h = tt
given_up-Ends einval h = tt
given_up-Ends enxio h = tt
given_up-Ends ebusy h = tt
given_up-Ends eperm h = tt

module _ {H : Type 0} (l : Link H) (timeout : ℕ) (some_limit : 1 ≤ timeout)
    (small : timeout < 2 ^ 31) where
  wait_from-Ends :
      (rounds : ℕ) (reg : Reg) (ticks : ℕ) (h : H)
      → ticks ≤ timeout
      → timeout < rounds + ticks
      → Ends (wait_from l rounds reg timeout ticks h).0
  unfolding wait_from
  wait_from-Ends zero reg ticks h le lt = absurd (omega arith)
  wait_from-Ends (suc rounds) reg ticks h le lt =
      let (ready, h1) = spin l reg spin_polls h in
      let (signal, h2) = l.tick h1 in
      let limit : (timeout == 0) ≡ false = ground arith in
      elim (Bool-cases ready) [
        | inl t ↦ rw t tt
        | inr f ↦
            rw (f, limit)
              (elim (Bool-cases (not (lt_int ticks timeout))) [
                | inl t ↦ rw t tt
                | inr g ↦ rw g (elim (Bool-cases signal) [
                  | inl t ↦ rw t tt
                  | inr u ↦
                      let more : ticks < timeout = ground (arith, g) in
                      rw u
                        (wait_from-Ends rounds reg (add_int ticks 1) h2 (omega arith) (omega arith))
                ])
              ])
      ]

  out_ready-Ends : (rounds : ℕ) (h : H) → timeout < rounds → Ends (out_ready l rounds timeout h).0
  unfolding out_ready tlk_wait
  out_ready-Ends rounds h e = elim (Bool-cases (is_set (l.look r_ostat h).0)) [
    | inl t ↦ rw t tt
    | inr f ↦
        rw f (wait_from-Ends rounds r_ostat 0 (l.look r_ostat h).1 (omega arith) (omega arith))
  ]

  module _ (rounds : ℕ) (enough : timeout < rounds) where
    send-Ends : (bs : List ℕ) (h : H) → Ends (send l rounds timeout bs h).error
    unfolding send
    send-Ends [] h = tt
    send-Ends (b ∷ bs) h = elim (Bool-cases (is_ok (out_ready l rounds timeout h).0)) [
      | inl t ↦ rw t (send-Ends bs (l.store r_out b (out_ready l rounds timeout h).1))
      | inr f ↦ rw f (out_ready-Ends rounds h enough)
    ]

    write_from-Ends :
        (fuel : ℕ) (some_done : Bool) (good : ℕ) (bs : List ℕ) (h : H)
        → length bs ≤ fuel
        → Ends (write_from l fuel rounds timeout some_done good bs h).error
    unfolding write_from
    write_from-Ends fuel some_done good [] h f = tt
    write_from-Ends zero some_done good (b ∷ bs) h f = absurd (omega arith)
    write_from-Ends (suc fuel) some_done good (b ∷ bs) h f =
        let buf = take chunk (b ∷ bs) in
        let w = send l rounds timeout buf h in
        elim (Bool-cases (ltb good (length buf))) [
          | inl t ↦ rw t tt
          | inr g ↦ rw g (elim (Bool-cases (is_ok w.error)) [
            | inl t ↦ rw t (
                write_from-Ends fuel true (good - length buf) (drop chunk (b ∷ bs)) w.hw
                  (omega (arith, length-drop chunk (b ∷ bs))))
            | inr u ↦ rw u (elim (Bool-cases (some_done || ltb w.resid (length buf))) [
              | inl t ↦ rw t (given_up-Ends w.error (send-Ends buf h))
              | inr o ↦ rw o (send-Ends buf h)
            ])
          ])
        ]

    -- With a time limit of `timeout` ticks, 1 or more, a write returns, whatever the link does: `timeout`
    -- + 1 rounds of polls and a tick's sleep are enough for every wait.
    pub tlkwrite-Ends :
        (good : ℕ) (bs : List ℕ) (h : H) → Ends (tlkwrite l rounds timeout good bs h).error
    unfolding tlkwrite
    tlkwrite-Ends good bs h = write_from-Ends (length bs) false good bs h (omega arith)

    read_from-Ends :
        (fuel good resid : ℕ) (h : H) → resid ≤ fuel → Ends (read_from l fuel good resid h).error
    unfolding read_from
    read_from-Ends fuel good zero h f = tt
    read_from-Ends zero good (suc resid) h f = absurd (omega arith)
    read_from-Ends (suc fuel) good (suc resid) h f =
        let n = if ltb (suc resid) chunk then suc resid else chunk in
        let (bs, h1) = receive l n h in
        let some_bytes : 1 ≤ n = ground arith in
        elim (Bool-cases (ltb good (length bs))) [
          | inl t ↦ rw t tt
          | inr g ↦ rw g (elim (Bool-cases (ltb (length bs) n)) [
            | inl t ↦ rw t tt
            | inr u ↦ rw u (
                read_from-Ends fuel (good - length bs) (suc resid - n) h1
                  (omega (arith, some_bytes)))
          ])
        ]

    -- So does a read.
    pub tlkread-Ends : (good want : ℕ) (h : H) → Ends (tlkread l rounds timeout good want h).error
    unfolding tlkread tlk_wait
    tlkread-Ends good want h =
        let (e, h1) = wait_from l rounds r_istat timeout 0 h in
        elim (Bool-cases (is_ok e)) [
          | inl t ↦ rw t (read_from-Ends want good want h1 (omega arith))
          | inr f ↦ rw f (wait_from-Ends rounds r_istat 0 h (omega arith) (omega arith))
        ]
