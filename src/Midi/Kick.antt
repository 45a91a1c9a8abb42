-- ===== src/Midi/Kick.antt =====
-- The loop of `midi_kick`, and the reasons for which bytes may wait in the ring.
use atari_sysv_sp.Base.{
  ℕ, zero, suc, ◌-◌, ◌≤◌, ◌<◌, ◌≡◌, ◌≢◌, ◌⊎◌, inl, inr, refl, sym, ◌∙◌, ap, Bool, true, false, ◌&&◌,
  ltb, Option, none, some, List, [], ◌∷◌, ◌==◌, if◌then◌else◌, arith, Bool-cases,
}
use atari_sysv_sp.Base.Words.{lt_int, sub_int}
use atari_sysv_sp.Midi.{
  Device, ring_size, wait_byte, used, quiet, resume, Clock, Round, again, done, take_wait,
  rest_until, send, offer, round, kick_from, midi_kick,
}
use atari_sysv_sp.Midi.Valid.{IsValid, device, round-IsValid}

-- Bytes wait in the ring only while the transmit interrupt is on, while a wait is marked, or while a wait
-- command has yet to get its count.
unfoldable pub Works : Device → Type 0
Works d =
    (d.head ≡ d.tail)
    ⊎ (d.sending ≡ true)
    ⊎ (d.waiting ≡ true)
    ⊎ ((d.timed ≡ true) × (d.ring d.head ≡ wait_byte) × (used d ≡ 1))

-- A wait has a timeout pending, asked for the ticks from now to the time that is due, and its identifier.
pub record IsTimed (k : Clock) (now : ℕ) (d : Device) : Type 0 where
  pub marked : d.waiting ≡ true
  pub later : lt_int now d.due ≡ true
  pub asked : d.timer ≡ some (sub_int d.due now)
  pub tid_is : d.tid ≡ k.timeout (sub_int d.due now)

-- What resumes the bytes that wait in the ring, at the end of a kick.
unfoldable pub Resumes : Clock → ℕ → Device → Type 0
Resumes k now d =
    (d.head ≡ d.tail)
    ⊎ (d.sending ≡ true)
    ⊎ IsTimed k now d
    ⊎ ((d.timed ≡ true) × (d.ring d.head ≡ wait_byte) × (used d ≡ 1))

pub Resumes-Works : (k : Clock) (now : ℕ) (d : Device) → Resumes k now d → Works d
unfolding Resumes Works
Resumes-Works k now d (inl e) = inl e
Resumes-Works k now d (inr (inl s)) = inr (inl s)
Resumes-Works k now d (inr (inr (inl t))) = inr (inr (inl t.marked))
Resumes-Works k now d (inr (inr (inr w))) = inr (inr (inr w))

-- A round that goes on has fewer than n bytes left.
abbrev Progress : Clock → ℕ → ℕ → Round → Type 0
Progress k now n (again d) = used d < n
Progress k now n (done d) = Resumes k now d

resume-sending : (d : Device) → (resume d).sending ≡ true
unfolding resume
resume-sending d = ground arith

resume-Resumes : (k : Clock) (now : ℕ) (d : Device) → Resumes k now (resume d)
unfolding Resumes
resume-Resumes k now d = inr (inl (resume-sending d))

used_of_ne : {d : Device} → IsValid d → d.head ≢ d.tail → 1 ≤ used d
used_of_ne v ne = omega arith

due-quiet : (d : Device) → (quiet d).due ≡ d.due
unfolding quiet
due-quiet d = ground arith

module _ (k : Clock) where
  used-send : {d : Device} → IsValid d → d.head ≢ d.tail → used (send k d) ≡ used d - 1
  unfolding send
  used-send v ne = ground arith

  used-take_wait :
      (now : ℕ) {d : Device} → IsValid d → 2 ≤ used d → used (take_wait k now d) ≡ used d - 2
  unfolding take_wait
  used-take_wait now v two = omega arith

  offer-Progress :
      (now : ℕ) {d : Device} (ready : List Bool)
      → IsValid d
      → d.head ≢ d.tail
      → Progress k now (used d) (offer k d ready)
  unfolding offer
  offer-Progress now {d} [] v ne = resume-Resumes k now d
  offer-Progress now {d} (false ∷ ready) v ne = resume-Resumes k now (record d { ready = ready })
  offer-Progress now {d} (true ∷ ready) v ne = omega (
    arith,
    used_of_ne v ne,
    used-send {d = record d { ready = ready }}
        (record { head_in = v.head_in; tail_in = v.tail_in; ctrl_is = v.ctrl_is }) ne,
  )

  rest_until-Progress :
      (now : ℕ) (d : Device) (n : ℕ) → used d < n → Progress k now n (rest_until k now d)
  unfolding rest_until Resumes
  rest_until-Progress now d n h = elim (Bool-cases (lt_int now d.due)) [
    | inl later ↦ rw later (
        inr (
          inr (
            inl (record {
              marked = refl;
              later = ap (lt_int now) (due-quiet d) ∙ later;
              asked = ap (λ t. some (sub_int t now)) (sym (due-quiet d));
              tid_is = ap (λ t. k.timeout (sub_int t now)) (sym (due-quiet d));
            }))))
    | inr late ↦ rw late h
  ]

  quiet-Resumes_empty : (now : ℕ) (d : Device) → d.head ≡ d.tail → Resumes k now (quiet d)
  unfolding Resumes quiet
  quiet-Resumes_empty now d e = inl (ground arith)

  quiet-Resumes_short :
      (now : ℕ) (d : Device)
      → IsValid d
      → d.head ≢ d.tail
      → (d.timed && d.ring d.head == wait_byte) ≡ true
      → ltb (used d) 2 ≡ true
      → Resumes k now (quiet d)
  unfolding Resumes quiet
  quiet-Resumes_short now d v ne w short = inr (inr (inr (ground (arith, used_of_ne v ne))))

  waiting-Progress :
      (now : ℕ) {d : Device}
      → IsValid d
      → d.head ≢ d.tail
      → (d.timed && d.ring d.head == wait_byte) ≡ true
      → Progress k now
          (used d)
          (if ltb (used d) 2 then done (quiet d) else rest_until k now (take_wait k now d))
  waiting-Progress now {d} v ne w = elim (Bool-cases (ltb (used d) 2)) [
    | inl short ↦ rw short (quiet-Resumes_short now d v ne w short)
    | inr long ↦
        let two : 2 ≤ used d = ground arith in
        rw long (
          rest_until-Progress now (take_wait k now d) (used d)
            (omega (arith, used-take_wait now v two)))
  ]

  -- Each round returns with the port at work or at rest for a reason, or takes bytes from the ring.
  round-Progress : (now : ℕ) {d : Device} → IsValid d → Progress k now (used d) (round k now d)
  unfolding round
  round-Progress now {d} v = elim (Bool-cases (d.head == d.tail)) [
    | inl e ↦ rw e (quiet-Resumes_empty now d (ground arith))
    | inr ne ↦
        let ne' : d.head ≢ d.tail = ground arith in
        rw ne (elim (Bool-cases (d.timed && d.ring d.head == wait_byte)) [
          | inl w ↦ rw w (waiting-Progress now v ne' w)
          | inr b ↦ rw b (offer-Progress now d.ready v ne')
        ])
  ]

  abbrev Returns : ℕ → Option Device → Type 0
  Returns now none = ⊥
  Returns now (some d) = IsValid d × Resumes k now d

  go_round :
      (fuel now n : ℕ) (r : Round)
      → IsValid (device r)
      → Progress k now n r
      → ((d : Device) → IsValid d → used d < n → Returns now (kick_from k fuel now d))
      → Returns now (elim r [ again d' ↦ kick_from k fuel now d' | done d' ↦ some d' ])
  go_round fuel now n (again d) v p next = next d v p
  go_round fuel now n (done d) v p next = (v, p)

  kick_from-Returns :
      (fuel now : ℕ) (d : Device) → IsValid d → used d < fuel → Returns now (kick_from k fuel now d)
  unfolding kick_from
  kick_from-Returns zero now d v h = absurd (omega arith)
  kick_from-Returns (suc fuel) now d v h =
      go_round fuel now (used d) (round k now d) (round-IsValid k now v) (round-Progress now v)
        (λ d' v' h'. kick_from-Returns fuel now d' v' (omega arith))

  -- `midi_kick` always returns: the loop takes at least a byte from the ring in each round that goes
  -- on. It leaves the ring and the control register valid, and bytes waiting only where the transmit
  -- interrupt is on, where a timeout is pending that was asked for the ticks up to the time that is due (and
  -- that is still to come), or where a wait command lacks its count.
  pub midi_kick_lem :
      (now : ℕ) {d : Device}
      → IsValid d
      → (d' : Device) × (midi_kick k now d ≡ some d') × IsValid d' × Resumes k now d'
  midi_kick_lem now {d} v =
      returned (midi_kick k now d)
        (unfold midi_kick in kick_from-Returns ring_size now d v (omega arith)) refl
    where
      returned :
          (o : Option Device)
          → Returns now o
          → midi_kick k now d ≡ o
          → (d' : Device) × (midi_kick k now d ≡ some d') × IsValid d' × Resumes k now d'
      returned none h e = absurd h
      returned (some d') h e = (d', e, h.0, h.1)
