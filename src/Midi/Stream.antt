-- ===== src/Midi/Stream.antt =====
-- The stream of bytes through the device: what the port has got, and what the ring has for it.
use atari_sysv_sp.Base.{
  ℕ, zero, suc, ◌+◌, ◌-◌, ◌%◌, ◌≤◌, ◌≡◌, ◌≢◌, inl, inr, refl, sym, ap, ◌∙◌, Bool, true, false, ◌&&◌,
  ltb, Option, none, some, List, [], ◌∷◌, ◌++◌, append_assoc, append-nil, ◌==◌, if◌then◌else◌,
  arith, Bool-cases,
}
use atari_sysv_sp.Base.Words.{lt_int, sub_int}
use atari_sysv_sp.Midi.{
  Device, ring_size, wait_byte, used, quiet, resume, Clock, Round, again, done, take_wait,
  rest_until, send, offer, round, kick_from, midi_kick,
}
use atari_sysv_sp.Midi.Valid.{IsValid, device, round-IsValid}

-- The n bytes of the ring from index h on.
unfoldable pub window : (ℕ → ℕ) → ℕ → ℕ → List ℕ
window ring h zero = []
window ring h (suc n) = ring h ∷ window ring ((h + 1) % ring_size) n

unfoldable pub contents : Device → List ℕ
unfolding window
contents d = window d.ring d.head (used d)

-- The bytes of a timed stream that are to be played: all but the wait commands.
unfoldable pub played : List ℕ → List ℕ
played [] = []
played (b ∷ []) = if b == wait_byte then [] else b ∷ []
played (b ∷ c ∷ rest) =
    let after_wait = played rest in
    let after_byte = played (c ∷ rest) in if b == wait_byte then after_wait else b ∷ after_byte

unfoldable pub music : Bool → List ℕ → List ℕ
unfolding played
music true bs = played bs
music false bs = bs

-- What the port has got, with what the ring still has for it.
unfoldable pub stream : Device → List ℕ
unfolding music contents
stream d = d.sent ++ music d.timed (contents d)

window_of_ne_zero :
    (ring : ℕ → ℕ) (h n : ℕ)
    → n ≢ 0
    → window ring h n ≡ ring h ∷ window ring ((h + 1) % ring_size) (n - 1)
unfolding window
window_of_ne_zero ring h zero ne = absurd (ne refl)
window_of_ne_zero ring h (suc n) ne = ap (λ k. window ring h (suc k)) (omega arith)

music-cons :
    (timed : Bool) (b : ℕ) (bs : List ℕ)
    → (timed && b == wait_byte) ≡ false
    → music timed (b ∷ bs) ≡ b ∷ music timed bs
unfolding music played
music-cons true b [] h = ground arith
music-cons true b (c ∷ bs) h = ground arith
music-cons false b bs h = refl

music_wait :
    (timed : Bool) (b n : ℕ) (bs : List ℕ)
    → (timed && b == wait_byte) ≡ true
    → music timed (b ∷ n ∷ bs) ≡ music timed bs
unfolding music played
music_wait true b n bs h = ground arith
music_wait false b n bs h = absurd (cc)

-- The stream before bytes that are yet to come, with whether it is timed.
unfoldable pub flow : List ℕ → Device → Bool × List ℕ
unfolding music contents
flow more d = (d.timed, d.sent ++ music d.timed (contents d ++ more))

module _ (more : List ℕ) where
  flow-quiet : (d : Device) → flow more (quiet d) ≡ flow more d
  unfolding quiet flow contents
  flow-quiet d = elim (Bool-cases d.sending) [ inl on ↦ rw on refl | inr off ↦ rw off refl ]

  flow-resume : (d : Device) → flow more (resume d) ≡ flow more d
  unfolding resume flow contents
  flow-resume d = elim (Bool-cases d.sending) [ inl on ↦ rw on refl | inr off ↦ rw off refl ]

module _ (k : Clock) (more : List ℕ) where
  -- A byte moves from the ring to the port.
  flow-send :
      {d : Device}
      → IsValid d
      → d.head ≢ d.tail
      → (d.timed && d.ring d.head == wait_byte) ≡ false
      → flow more (send k d) ≡ flow more d
  unfolding send
  flow-send {d} v ne b = flow-resume more _ ∙ moved
    where
      left : used d - 1 ≡ sub_int d.tail ((d.head + 1) % ring_size) % ring_size
      left = omega arith

      some_left : used d ≢ 0
      some_left = omega arith

      moved :
          flow more (record d {
            head = (d.head + 1) % ring_size;
            sent = d.sent ++ (d.ring d.head ∷ []);
            st = record d.st { bytes = d.st.bytes + 1 };
          })
          ≡ flow more d
      moved =
          unfold flow contents in
          rw
            (
              window_of_ne_zero d.ring d.head (used d) some_left,
              music-cons d.timed (d.ring d.head) _ b,
              left,
              append_assoc,
            )
            refl

  -- A wait command leaves the ring, and nothing else does.
  flow-take_wait :
      (now : ℕ) {d : Device}
      → IsValid d
      → 2 ≤ used d
      → (d.timed && d.ring d.head == wait_byte) ≡ true
      → flow more (take_wait k now d) ≡ flow more d
  unfolding take_wait flow contents
  flow-take_wait now {d} v two w =
      rw
        (
          window_of_ne_zero d.ring d.head (used d) some_left,
          window_of_ne_zero d.ring ((d.head + 1) % ring_size) (used d - 1) more_left,
          music_wait d.timed (d.ring d.head) (d.ring ((d.head + 1) % ring_size)) _ w,
          next,
          left,
        )
        refl
    where
      some_left : used d ≢ 0
      some_left = omega arith

      more_left : used d - 1 ≢ 0
      more_left = omega arith

      next : ((d.head + 1) % ring_size + 1) % ring_size ≡ (d.head + 2) % ring_size
      next = omega arith

      left : used d - 1 - 1 ≡ sub_int d.tail ((d.head + 2) % ring_size) % ring_size
      left = omega arith

  flow-rest_until : (now : ℕ) (d : Device) → flow more (device (rest_until k now d)) ≡ flow more d
  unfolding rest_until
  flow-rest_until now d = elim (Bool-cases (lt_int now d.due)) [
    | inl later ↦ rw later (unfold flow contents in flow-quiet more d)
    | inr late ↦ rw late (unfold flow contents in refl)
  ]

  flow-offer :
      {d : Device} (ready : List Bool)
      → IsValid d
      → d.head ≢ d.tail
      → (d.timed && d.ring d.head == wait_byte) ≡ false
      → flow more (device (offer k d ready)) ≡ flow more d
  unfolding offer
  flow-offer {d} [] v ne b = flow-resume more d
  flow-offer {d} (false ∷ ready) v ne b =
      flow-resume more (record d { ready = ready }) ∙ unfold flow contents in refl
  flow-offer {d} (true ∷ ready) v ne b =
      flow-send {d = record d { ready = ready }}
        (record { head_in = v.head_in; tail_in = v.tail_in; ctrl_is = v.ctrl_is }) ne b
      ∙ unfold flow contents in refl

  flow-waiting :
      (now : ℕ) {d : Device}
      → IsValid d
      → d.head ≢ d.tail
      → (d.timed && d.ring d.head == wait_byte) ≡ true
      → flow more
          (device (if ltb (used d) 2 then done (quiet d) else rest_until k now (take_wait k now d)))
        ≡ flow more d
  flow-waiting now {d} v ne w = elim (Bool-cases (ltb (used d) 2)) [
    | inl short ↦ rw short (flow-quiet more d)
    | inr long ↦
        let two : 2 ≤ used d = ground arith in
        rw long (flow-rest_until now (take_wait k now d) ∙ flow-take_wait now v two w)
  ]

  flow-round : (now : ℕ) {d : Device} → IsValid d → flow more (device (round k now d)) ≡ flow more d
  unfolding round
  flow-round now {d} v = elim (Bool-cases (d.head == d.tail)) [
    | inl e ↦ rw e (flow-quiet more d)
    | inr ne ↦
        let ne' : d.head ≢ d.tail = ground arith in
        rw ne (elim (Bool-cases (d.timed && d.ring d.head == wait_byte)) [
          | inl w ↦ rw w (flow-waiting now v ne' w)
          | inr b ↦ rw b (flow-offer d.ready v ne' b)
        ])
  ]

  abbrev SameFlow : Device → Option Device → Type 0
  SameFlow d none = Unit
  SameFlow d (some d') = flow more d' ≡ flow more d

  SameFlow-round :
      (fuel now : ℕ) (d : Device) (r : Round)
      → IsValid (device r)
      → flow more (device r) ≡ flow more d
      → ((e : Device) → IsValid e → SameFlow e (kick_from k fuel now e))
      → SameFlow d (elim r [ again d' ↦ kick_from k fuel now d' | done d' ↦ some d' ])
  SameFlow-round fuel now d (again e) v s next = change (kick_from k fuel now e) (next e v)
    where
      change : (o : Option Device) → SameFlow e o → SameFlow d o
      change none h = tt
      change (some d') h = h ∙ s
  SameFlow-round fuel now d (done e) v s next = s

  kick_from-SameFlow : (fuel now : ℕ) (d : Device) → IsValid d → SameFlow d (kick_from k fuel now d)
  unfolding kick_from
  kick_from-SameFlow zero now d v = tt
  kick_from-SameFlow (suc fuel) now d v =
      SameFlow-round fuel now d (round k now d) (round-IsValid k now v) (flow-round now v)
        (λ e w. kick_from-SameFlow fuel now e w)

  pub flow-midi_kick :
      (now : ℕ) {d d' : Device}
      → IsValid d
      → midi_kick k now d ≡ some d'
      → flow more d' ≡ flow more d
  unfolding midi_kick
  flow-midi_kick now {d} {d'} v e = rw e at (kick_from-SameFlow ring_size now d v)

module _ (k : Clock) where
  -- However far `midi_kick` gets, what the port has got and what the ring still has for it make up
  -- the same bytes as before, in order; of a timed stream these are all but the wait commands.
  pub stream-midi_kick :
      (now : ℕ) {d d' : Device} → IsValid d → midi_kick k now d ≡ some d' → stream d' ≡ stream d
  unfolding stream flow
  stream-midi_kick now {d} {d'} v e =
      let no_more : (d : Device) → d.sent ++ music d.timed (contents d ++ []) ≡ stream d =
        λ d. ap (λ cs. d.sent ++ music d.timed cs) (append-nil (contents d)) in
      sym (no_more d') ∙ ap (λ f. f.1) (flow-midi_kick k [] now v e) ∙ no_more d
