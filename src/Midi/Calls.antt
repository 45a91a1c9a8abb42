-- ===== src/Midi/Calls.antt =====
-- The entry points around `midi_kick`: write(), the clock, the interrupt, open, close and flush.
use atari_sysv_sp.Base.{
  ℕ, zero, suc, ◌+◌, ◌*◌, ◌/◌, ◌%◌, ◌^◌, ◌≤◌, ◌<◌, ◌≡◌, inl, inr, refl, sym, ap, ap₂, ◌∙◌, Bool,
  true, false, ◌&&◌, not, none, some, List, [], ◌∷◌, ◌++◌, append_assoc, append-nil, ◌==◌, ==_iff,
  if◌then◌else◌, if_true, length, arith, Bool-cases,
}
use atari_sysv_sp.Base.Words.{sub_int}
use atari_sysv_sp.Midi.{
  Device, ring_size, used, room, Clock, ms_to_ticks, midi_kick, midi_wake, midi_tick, enqueue,
  write_chunk, ok, midiopen, flush,
}
use atari_sysv_sp.Midi.Valid.{IsValid}
use atari_sysv_sp.Midi.Kick.{Works, Resumes-Works, midi_kick_lem}
use atari_sysv_sp.Midi.Stream.{window, contents, music, stream, stream-midi_kick}

window-enqueue :
    (ring : ℕ → ℕ) (b n h t : ℕ)
    → h < ring_size
    → suc n < ring_size
    → t ≡ (h + n) % ring_size
    → window (λ i. if i == t then b else ring i) h (suc n) ≡ window ring h n ++ (b ∷ [])
unfolding window
window-enqueue ring b zero h t hh hn e =
    let same : h ≡ t = omega arith in rw ((==_iff h t).1 same) refl
window-enqueue ring b (suc n) h t hh hn e =
    ap₂ ◌∷◌ (ground arith)
      (window-enqueue ring b n ((h + 1) % ring_size) t (omega arith) (omega arith) (omega arith))

put_byte : ℕ → Device → Device
put_byte b d = record d {
  ring = λ i. if i == d.tail then b else d.ring i;
  tail = (d.tail + 1) % ring_size;
}

put_byte-room : (b : ℕ) {d : Device} → IsValid d → 1 ≤ room d → suc (room (put_byte b d)) ≡ room d
unfolding put_byte
put_byte-room b v h = omega arith

put_byte-IsValid : (b : ℕ) {d : Device} → IsValid d → IsValid (put_byte b d)
unfolding put_byte
put_byte-IsValid b v = omega arith

contents-put_byte :
    (b : ℕ) {d : Device} → IsValid d → 1 ≤ room d → contents (put_byte b d) ≡ contents d ++ (b ∷ [])
unfolding put_byte contents
contents-put_byte b {d} v h =
    rw more (window-enqueue d.ring b (used d) d.head d.tail v.head_in (omega arith) (omega arith))
  where
    more : sub_int ((d.tail + 1) % ring_size) d.head % ring_size ≡ suc (used d)
    more = omega arith

-- What `enqueue` keeps, and what it adds.
pub record Enqueued (bs : List ℕ) (d d' : Device) : Type 0 where
  pub valid : IsValid d'
  pub holds : contents d' ≡ contents d ++ bs
  pub same_sent : d'.sent ≡ d.sent
  pub same_timed : d'.timed ≡ d.timed

pub enqueue_lem :
    (bs : List ℕ) {d : Device} → IsValid d → length bs ≤ room d → Enqueued bs d (enqueue bs d)
unfolding enqueue put_byte
enqueue_lem [] {d} v h = record {
  valid = v;
  holds = sym (append-nil (contents d));
  same_sent = refl;
  same_timed = refl;
}
enqueue_lem (b ∷ bs) {d} v h =
    let room_left : length bs ≤ room (put_byte b d) = omega (arith, put_byte-room b v) in
    let rest = enqueue_lem bs {d = put_byte b d} (put_byte-IsValid b v) room_left in
    record {
      valid = rest.valid;
      holds =
          rest.holds
          ∙ (rw (contents-put_byte b v (omega arith)) (append_assoc (contents d) (b ∷ []) bs));
      same_sent = rest.same_sent;
      same_timed = rest.same_timed;
    }

stream-parts :
    (d : Device) {sent cs : List ℕ} {timed : Bool}
    → d.sent ≡ sent
    → d.timed ≡ timed
    → contents d ≡ cs
    → stream d ≡ sent ++ music timed cs
unfolding stream
stream-parts d p q r = λ i. p i ++ music (q i) (r i)

module _ (k : Clock) where
  kept :
      (now : ℕ) {d : Device}
      → IsValid d
      → (d' : Device) × (midi_kick k now d ≡ some d')
        × IsValid d'
        × Works d'
        × (stream d' ≡ stream d)
  kept now {d} v =
      let (d', e, v', w) = midi_kick_lem k now v in
      (d', e, v', Resumes-Works k now d' w, stream-midi_kick k now v e)

  -- Writing a chunk for which the ring has room: the call comes back; what the port got before, the
  -- ring's bytes and then the chunk are what the port has got and the ring still holds; and the bytes
  -- that wait are being sent or have a reason to wait.
  pub write_chunk_lem :
      (now : ℕ) (bs : List ℕ) {d : Device}
      → IsValid d
      → length bs ≤ room d
      → (d' : Device) × (write_chunk k now bs d ≡ some d')
        × IsValid d'
        × Works d'
        × (stream d' ≡ d.sent ++ music d.timed (contents d ++ bs))
  unfolding write_chunk
  write_chunk_lem now bs {d} v h =
      elim (Bool-cases (not (enqueue bs d).sending && not (enqueue bs d).waiting)) [
        | inl idle ↦ let (d', e, v', w, s) = kept now q.valid in (d', rw idle e, v', w, s ∙ whole)
        | inr busy ↦ (enqueue bs d, rw busy refl, q.valid, works busy, whole)
      ]
    where
      q : Enqueued bs d (enqueue bs d)
      q = enqueue_lem bs v h

      whole : stream (enqueue bs d) ≡ d.sent ++ music d.timed (contents d ++ bs)
      whole = stream-parts (enqueue bs d) q.same_sent q.same_timed q.holds

      works :
          (not (enqueue bs d).sending && not (enqueue bs d).waiting) ≡ false → Works (enqueue bs d)
      works b =
          unfold Works in
          elim (Bool-cases (enqueue bs d).sending) [
            | inl on ↦ inr (inl on)
            | inr off ↦ inr (inr (inl (ground arith)))
          ]

  -- A tick of the clock resumes the port: the stream is the same, and the bytes that wait in an open
  -- device's ring are being sent afterwards, or have a reason to wait.
  pub midi_tick_lem :
      (now : ℕ) {d : Device}
      → IsValid d
      → d.opened ≡ true
      → (d' : Device) × (midi_tick k now d ≡ some d')
        × IsValid d'
        × Works d'
        × (stream d' ≡ stream d)
  unfolding midi_tick
  midi_tick_lem now {d} v o =
      elim (Bool-cases (d.opened && (not (d.head == d.tail) && not d.sending && not d.waiting))) [
        | inl stuck ↦
            let (d', e, v', w, s) =
              kept now {d = record d { st = record d.st { kicks = d.st.kicks + 1 } }}
                (record { head_in = v.head_in; tail_in = v.tail_in; ctrl_is = v.ctrl_is }) in
            (d', rw stuck e, v', w, s ∙ unfold stream in refl)
        | inr well ↦ (d, rw well refl, v, at_work well, refl)
      ]
    where
      at_work :
          (d.opened && (not (d.head == d.tail) && not d.sending && not d.waiting)) ≡ false → Works d
      at_work b =
          unfold Works in
          elim (Bool-cases (d.head == d.tail)) [
            | inl e ↦ inl (ground arith)
            | inr ne ↦ elim (Bool-cases d.sending) [
              | inl on ↦ inr (inl on)
              | inr off ↦ inr (inr (inl (ground arith)))
            ]
          ]

  -- The end of a wait resumes the port: the stream is the same, and the bytes that wait in an open
  -- device's ring are being sent afterwards, or have a reason to wait.
  pub midi_wake_lem :
      (now : ℕ) {d : Device}
      → IsValid d
      → d.opened ≡ true
      → (d' : Device) × (midi_wake k now d ≡ some d')
        × IsValid d'
        × Works d'
        × (stream d' ≡ stream d)
  unfolding midi_wake
  midi_wake_lem now {d} v o =
      let (d', e, v', w, s) =
        kept now {d = record d { waiting = false; tid = 0; timer = none }}
          (record { head_in = v.head_in; tail_in = v.tail_in; ctrl_is = v.ctrl_is }) in
      (d', if_true _ _ o ∙ e, v', w, s ∙ unfold stream in refl)

-- The split of `ms_to_ticks` into seconds and the rest loses nothing: as long as it does not
-- overflow, the ticks are the milliseconds' at hertz ticks a second, rounded down.
pub ms_to_ticks_lem :
    (hertz ms : ℕ) → ms * hertz / 1000 < 2 ^ 32 → ms_to_ticks hertz ms ≡ ms * hertz / 1000
unfolding ms_to_ticks
ms_to_ticks_lem hertz ms h =
    let whole : ms ≡ ms / 1000 * 1000 + ms % 1000 = omega arith in
    let ticks : ms * hertz ≡ ms / 1000 * hertz * 1000 + ms % 1000 * hertz =
      ap (λ (t : ℕ). t * hertz) whole ∙ omega arith in
    omega (arith, ticks)

music-nil : (timed : Bool) → music timed [] ≡ []
unfolding music
music-nil true = refl
music-nil false = refl

pub contents-empty : (d : Device) → d.head ≡ d.tail → contents d ≡ []
unfolding contents
contents-empty d e = let none_used : used d ≡ 0 = omega arith in rw none_used refl

stream-empty : (d : Device) → d.head ≡ d.tail → stream d ≡ d.sent
stream-empty d e =
    stream-parts d refl refl (contents-empty d e)
    ∙ ap (λ bs. d.sent ++ bs) (music-nil d.timed)
    ∙ append-nil d.sent

midiopen_fields :
    (minor now : ℕ) (chr : Bool) (d : Device) {d' : Device}
    → midiopen minor chr now d ≡ ok d'
    → ((d.opened ≡ false) × (d'.opened ≡ true) × IsValid d')
      × (d'.head ≡ d'.tail)
      × (d'.sent ≡ d.sent)
      × (d'.sending ≡ false)
      × (d'.timed ≡ (minor == 1))
unfolding midiopen
midiopen_fields minor now chr d {d'} h = ground arith

-- An open that succeeds found the device closed, and makes it valid, empty and silent, timed for
-- minor 1 and raw for minor 0.
pub midiopen_lem :
    (minor now : ℕ) (chr : Bool) (d : Device) {d' : Device}
    → midiopen minor chr now d ≡ ok d'
    → ((d.opened ≡ false) × (d'.opened ≡ true) × IsValid d')
      × (stream d' ≡ d.sent)
      × (d'.sending ≡ false)
      × (d'.timed ≡ (minor == 1))
midiopen_lem minor now chr d {d'} h =
    let (states, e, sent, silent, timed) = midiopen_fields minor now chr d h in
    (states, stream-empty d' e ∙ sent, silent, timed)

flush_fields :
    (now : ℕ) {d : Device}
    → IsValid d
    → IsValid (flush now d)
      × ((flush now d).head ≡ (flush now d).tail)
      × ((flush now d).sent ≡ d.sent)
      × ((flush now d).sending ≡ false)
      × ((flush now d).waiting ≡ false)
      × ((flush now d).opened ≡ d.opened)
unfolding flush
flush_fields now v = ground arith

-- A flush drops what the ring holds: the port gets nothing more of it, and is silent.
pub flush_lem :
    (now : ℕ) {d : Device}
    → IsValid d
    → IsValid (flush now d)
      × (stream (flush now d) ≡ d.sent)
      × ((flush now d).sending ≡ false)
      × ((flush now d).waiting ≡ false)
      × ((flush now d).opened ≡ d.opened)
flush_lem now {d} v =
    let (v', e, sent, silent, idle, o) = flush_fields now v in
    (v', stream-empty (flush now d) e ∙ sent, silent, idle, o)
