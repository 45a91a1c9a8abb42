-- ===== src/Midi/Life.antt =====
-- The life of an open port as steps: chunks written, ticks, the ends of waits and interrupts, with the
-- chip's answers in between.
use mathlib.Core.Path.{subst}
use atari_sysv_sp.Base.{
  ℕ, ◌≤◌, ◌≡◌, refl, sym, ap, ◌∙◌, Bool, true, false, some, List, [], ◌++◌, append_assoc,
  append-nil, if◌then◌else◌, if_true, length,
}
use atari_sysv_sp.Midi.{
  Device, room, Clock, midi_kick, midi_wake, midi_tick, serve, enqueue, write_chunk,
}
use atari_sysv_sp.Midi.Valid.{IsValid}
use atari_sysv_sp.Midi.Kick.{midi_kick_lem}
use atari_sysv_sp.Midi.Stream.{contents, music, stream, flow, flow-midi_kick}
use atari_sysv_sp.Midi.Calls.{enqueue_lem, contents-empty}

-- A port from the time when its ring was empty and it had been sent `base`, with all that was written
-- since.
pub data Run (k : Clock) (timed : Bool) (base : List ℕ) : Device → List ℕ → Type 0 where
  began :
      {d : Device}
      → IsValid d
      → d.head ≡ d.tail
      → d.timed ≡ timed
      → d.sent ≡ base
      → Run k timed base d []
  answered :
      {d : Device} {ws : List ℕ} (answers : List Bool)
      → Run k timed base d ws
      → Run k timed base (record d { ready = answers }) ws
  wrote :
      {d d' : Device} {ws : List ℕ} (now : ℕ) (bs : List ℕ)
      → Run k timed base d ws
      → length bs ≤ room d
      → write_chunk k now bs d ≡ some d'
      → Run k timed base d' (ws ++ bs)
  ticked :
      {d d' : Device} {ws : List ℕ} (now : ℕ)
      → Run k timed base d ws
      → midi_tick k now d ≡ some d'
      → Run k timed base d' ws
  woke :
      {d d' : Device} {ws : List ℕ} (now : ℕ)
      → Run k timed base d ws
      → midi_wake k now d ≡ some d'
      → Run k timed base d' ws
  served :
      {d d' : Device} {ws : List ℕ} (now : ℕ)
      → Run k timed base d ws
      → d.opened ≡ true
      → serve k now d ≡ some d'
      → Run k timed base d' ws

-- A step that keeps the stream, whatever comes after it.
abbrev Keeps : Device → Device → Type 0
Keeps d d' = IsValid d' × ((more : List ℕ) → flow more d' ≡ flow more d)

-- All that was written, before whatever is yet to come.
abbrev pub Flows : Bool → List ℕ → Device → List ℕ → Type 0
Flows timed base d ws =
    IsValid d × ((more : List ℕ) → flow more d ≡ (timed, base ++ music timed (ws ++ more)))

module _ (k : Clock) where
  -- The form of every step: a kick, or none.
  step-Keeps :
      (d : Device) (now : ℕ) (b : Bool) {d1 d2 d' : Device}
      → Keeps d d1
      → Keeps d d2
      → (if b then midi_kick k now d1 else some d2) ≡ some d'
      → Keeps d d'
  step-Keeps d now true {d1} {d2} {d'} (v1, f1) q e =
      let (d'', e', v', w) = midi_kick_lem k now v1 in
      let same : d'' ≡ d' = let p = sym e' ∙ e in cc in
      (subst IsValid same v', λ more. flow-midi_kick k more now v1 e ∙ f1 more)
  step-Keeps d now false {d1} {d2} {d'} p q e = let same : d2 ≡ d' = cc in subst (Keeps d) same q

  midi_tick-Keeps : (now : ℕ) {d d' : Device} → IsValid d → midi_tick k now d ≡ some d' → Keeps d d'
  unfolding midi_tick flow contents
  midi_tick-Keeps now {d} v =
      step-Keeps d now _
        (record { head_in = v.head_in; tail_in = v.tail_in; ctrl_is = v.ctrl_is }, λ more. refl)
        (v, λ more. refl)

  midi_wake-Keeps : (now : ℕ) {d d' : Device} → IsValid d → midi_wake k now d ≡ some d' → Keeps d d'
  unfolding midi_wake flow contents
  midi_wake-Keeps now {d} v =
      step-Keeps d now _
        (record { head_in = v.head_in; tail_in = v.tail_in; ctrl_is = v.ctrl_is }, λ more. refl)
        (record { head_in = v.head_in; tail_in = v.tail_in; ctrl_is = v.ctrl_is }, λ more. refl)

  serve-Keeps :
      (now : ℕ) {d d' : Device} → IsValid d → d.opened ≡ true → serve k now d ≡ some d' → Keeps d d'
  unfolding serve flow contents
  serve-Keeps now {d} v o e =
      step-Keeps d now true {d2 = d}
        (record { head_in = v.head_in; tail_in = v.tail_in; ctrl_is = v.ctrl_is }, λ more. refl)
        (v, λ more. refl) (sym (if_true _ _ o) ∙ e)

  write_chunk-Keeps :
      (d : Device) (now : ℕ) (bs : List ℕ) {d' : Device}
      → IsValid (enqueue bs d)
      → write_chunk k now bs d ≡ some d'
      → Keeps (enqueue bs d) d'
  unfolding write_chunk
  write_chunk-Keeps d now bs v = step-Keeps (enqueue bs d) now _ (v, λ more. refl) (v, λ more. refl)

  module _ (timed : Bool) (base : List ℕ) where
    goes_on :
        (ws : List ℕ) {d d' : Device} → Flows timed base d ws → Keeps d d' → Flows timed base d' ws
    goes_on ws (v, f) (v', same) = (v', λ more. same more ∙ f more)

    pub Run-Flows : {d : Device} {ws : List ℕ} → Run k timed base d ws → Flows timed base d ws
    unfolding flow contents
    Run-Flows (began {d} v e t s) =
        (v, λ more i. (t i, s i ++ music (t i) (contents-empty d e i ++ more)))
    Run-Flows (answered {d} answers r) =
        let (v, f) = Run-Flows r in
        (record { head_in = v.head_in; tail_in = v.tail_in; ctrl_is = v.ctrl_is }, f)
    Run-Flows (wrote {d} {d'} {ws} now bs r fits e) =
        let (v, f) = Run-Flows r in
        let q = enqueue_lem bs v fits in
        goes_on (ws ++ bs)
          (
            q.valid,
            λ more.
                (λ i. (q.same_timed i, q.same_sent i ++ music (q.same_timed i) (q.holds i ++ more)))
                ∙ ap (λ cs. (d.timed, d.sent ++ music d.timed cs))
                    (append_assoc (contents d) bs more)
                ∙ f (bs ++ more)
                ∙ ap (λ cs. (timed, base ++ music timed cs)) (sym (append_assoc ws bs more)),
          )
          (write_chunk-Keeps d now bs q.valid e)
    Run-Flows (ticked {d} {d'} {ws} now r e) =
        let (v, f) = Run-Flows r in goes_on ws (v, f) (midi_tick-Keeps now v e)
    Run-Flows (woke {d} {d'} {ws} now r e) =
        let (v, f) = Run-Flows r in goes_on ws (v, f) (midi_wake-Keeps now v e)
    Run-Flows (served {d} {d'} {ws} now r o e) =
        let (v, f) = Run-Flows r in goes_on ws (v, f) (serve-Keeps now v o e)

    -- Whatever the order of writes, ticks, ends of waits and interrupts: what the port has got since its
    -- ring was empty, and what the ring still has for it, are the bytes written, in order; of a timed stream
    -- all but the wait commands, wherever the writes cut it.
    pub stream-Run :
        {d : Device} {ws : List ℕ} → Run k timed base d ws → stream d ≡ base ++ music timed ws
    unfolding stream flow
    stream-Run {d} {ws} r =
        let f = (Run-Flows r).1 [] in
        sym (ap (λ cs. d.sent ++ music d.timed cs) (append-nil (contents d)))
        ∙ ap (λ p. p.1) f
        ∙ ap (λ cs. base ++ music timed cs) (append-nil ws)
