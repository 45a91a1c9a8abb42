-- ===== src/Midi.antt =====
-- driver-midi/midi.c, the driver of the MIDI port: the ring between write() and the transmit
-- interrupt, and the timed stream's waits. The device record holds the driver's `midi` and what it
-- has told the hardware and the kernel. lbolt is the argument `now` where it is read; it stands still
-- at spl6. C's 32-bit arithmetic is written out.
pub mod Valid
pub mod Kick
pub mod Stream
pub mod Calls
pub mod Life
pub mod Control
pub mod Writing
pub mod Tests
use atari_sysv_sp.Base.{
  ℕ, zero, suc, ◌+◌, ◌-◌, ◌*◌, ◌/◌, ◌%◌, Bool, true, false, not, ◌&&◌, ◌||◌, Option, none, some,
  List, [], ◌∷◌, ◌++◌, ◌==◌, ltb, leb, if◌then◌else◌, length, take, drop,
}
use atari_sysv_sp.Base.Maybe.{◌>>=◌}
use atari_sysv_sp.Base.Words.{word, lt_int, add_int, sub_int}

-- CR_IDLE, CR_SEND, RING, BOUNCE, WAIT, SNAP_TICKS
abbrev pub cr_idle : ℕ
cr_idle = 0x15

abbrev pub cr_send : ℕ
cr_send = 0x35

abbrev pub ring_size : ℕ
ring_size = 8192

abbrev pub bounce : ℕ
bounce = 512

abbrev pub wait_byte : ℕ
wait_byte = 0xf9

abbrev pub snap_ticks : ℕ
snap_ticks = 4

pub record Stats : Type 0 where
  pub bytes : ℕ
  pub intrs : ℕ
  pub waits : ℕ
  pub late : ℕ
  pub snaps : ℕ
  pub kicks : ℕ

-- The first fields are those of `midi`. `ready` holds the answers (S_TDRE) of the coming reads of the
-- status, and the port is busy when they run out. `ctrl` is the last control written, `sent` the
-- bytes written to the port, `timer` the ticks that a pending wait was asked for.
pub record Device : Type 0 where
  pub opened : Bool
  pub timed : Bool
  pub hooked : Bool
  pub ring : ℕ → ℕ
  pub head : ℕ
  pub tail : ℕ
  pub sending : Bool
  pub waiting : Bool
  pub tid : ℕ
  pub start : ℕ
  pub due_ms : ℕ
  pub due : ℕ
  pub st : Stats
  pub ready : List Bool
  pub ctrl : ℕ
  pub sent : List ℕ
  pub timer : Option ℕ

-- USED() and FREE()
abbrev pub used : Device → ℕ
used d = sub_int d.tail d.head % ring_size

abbrev pub room : Device → ℕ
room d = ring_size - 1 - used d

unfoldable pub quiet : Device → Device
quiet d = if d.sending then record d { ctrl = cr_idle; sending = false } else d

-- `ACIA_CTRL = CR_SEND` where the interrupt is not on yet
unfoldable pub resume : Device → Device
resume d = if d.sending then d else record d { ctrl = cr_send; sending = true }

-- The loop of `midiwrite` that puts a chunk into the ring.
unfoldable pub enqueue : List ℕ → Device → Device
enqueue [] d = d
enqueue (b ∷ bs) d =
    enqueue bs (record d {
      ring = λ i. if i == d.tail then b else d.ring i;
      tail = (d.tail + 1) % ring_size;
    })

-- The kernel: `hertz`, and the identifier that timeout() gives for a number of ticks.
pub record Clock : Type 0 where
  pub hertz : ℕ
  pub timeout : ℕ → ℕ

-- For ms that is not negative.
unfoldable pub ms_to_ticks : ℕ → ℕ → ℕ
ms_to_ticks hertz ms = (ms / 1000 * hertz + ms % 1000 * hertz / 1000) % word

-- A round of the loop of `midi_kick`: it goes round again, or returns.
pub data Round : Type 0 where
  again done : Device → Round

module _ (k : Clock) where
  -- A wait command whose count is in the ring: the timeline moves on to its end.
  unfoldable pub take_wait : ℕ → Device → Device
  unfolding ms_to_ticks
  take_wait now d =
      let behind = lt_int (add_int d.due snap_ticks) now in
      let start = if behind then now else d.start in
      let origin = if behind then 0 else d.due_ms in
      let due_ms = add_int origin (d.ring ((d.head + 1) % ring_size)) in
      record d {
        start = start;
        due_ms = due_ms;
        due = add_int start (ms_to_ticks k.hertz due_ms);
        head = (d.head + 2) % ring_size;
        st = record d.st {
          snaps = if behind then d.st.snaps + 1 else d.st.snaps;
          waits = d.st.waits + 1;
        };
      }

  -- ... and if that is still to come, the port rests until then.
  unfoldable pub rest_until : ℕ → Device → Round
  unfolding quiet
  rest_until now d =
      if lt_int now d.due
      then done (record (quiet d) {
        waiting = true;
        tid = k.timeout (sub_int d.due now);
        timer = some (sub_int d.due now);
      })
      else again (record d { st = record d.st { late = d.st.late + 1 } })

  -- `ACIA_DATA = b`
  unfoldable pub send : Device → Device
  unfolding resume
  send d = resume (record d {
    head = (d.head + 1) % ring_size;
    sent = d.sent ++ (d.ring d.head ∷ []);
    st = record d.st { bytes = d.st.bytes + 1 };
  })

  -- A byte for the port, with the answers of the status reads to come.
  unfoldable pub offer : Device → List Bool → Round
  unfolding send resume
  offer d [] = done (resume d)
  offer d (false ∷ ready) = done (resume (record d { ready = ready }))
  offer d (true ∷ ready) = again (send (record d { ready = ready }))

  unfoldable pub round : ℕ → Device → Round
  unfolding quiet take_wait rest_until offer
  round now d =
      if d.head == d.tail
      then done (quiet d)
      else if d.timed && d.ring d.head == wait_byte
      then (if ltb (used d) 2 then done (quiet d) else rest_until now (take_wait now d))
      else offer d d.ready

  -- The loop, with fuel; `none` means that the fuel ran out.
  unfoldable pub kick_from : ℕ → ℕ → Device → Option Device
  unfolding round
  kick_from zero now d = none
  kick_from (suc fuel) now d = elim (round now d) [
    | again d' ↦ kick_from fuel now d'
    | done d' ↦ some d'
  ]

  unfoldable pub midi_kick : ℕ → Device → Option Device
  unfolding kick_from
  midi_kick now d = kick_from ring_size now d

  -- A timed wait is over.
  unfoldable pub midi_wake : ℕ → Device → Option Device
  unfolding midi_kick
  midi_wake now d =
      let d' = record d { waiting = false; tid = 0; timer = none } in
      if d.opened then midi_kick now d' else some d'

  -- What `midi_tick` does once a tick; it then asks for the next tick if the port is open.
  unfoldable pub midi_tick : ℕ → Device → Option Device
  unfolding midi_kick
  midi_tick now d =
      if d.opened && (not (d.head == d.tail) && not d.sending && not d.waiting)
      then midi_kick now (record d { st = record d.st { kicks = d.st.kicks + 1 } })
      else some d

  -- What `midiint` does in one round for the MIDI chip where that asserts the interrupt.
  unfoldable pub serve : ℕ → Device → Option Device
  unfolding midi_kick
  serve now d =
      if d.opened
      then midi_kick now (record d { st = record d.st { intrs = d.st.intrs + 1 } })
      else some (record d { ctrl = cr_idle })

  -- A chunk for which there is room.
  unfoldable pub write_chunk : ℕ → List ℕ → Device → Option Device
  unfolding enqueue midi_kick
  write_chunk now bs d =
      let d' = enqueue bs d in
      if not d'.sending && not d'.waiting then midi_kick now d' else some d'

-- The outcome of a call: the device with an error number or 0 (and the value for `rvalp`).
pub data Error : Type 0 where
  enxio ebusy eintr efault einval : Error

pub data Outcome : Type 0 where
  ok : Device → Outcome
  fails : Error → Device → Outcome

no_stats : Stats
no_stats = record { bytes = 0; intrs = 0; waits = 0; late = 0; snaps = 0; kicks = 0 }

-- `midiopen` of a minor device; the second argument is otyp == OTYP_CHR.
unfoldable pub midiopen : ℕ → Bool → ℕ → Device → Outcome
unfolding no_stats
midiopen minor chr now d =
    if not (minor == 0) && not (minor == 1) || not chr
    then fails enxio d
    else if d.opened
    then fails ebusy d
    else ok (record d {
      timed = minor == 1;
      head = 0;
      tail = 0;
      sending = false;
      waiting = false;
      tid = 0;
      start = now;
      due_ms = 0;
      due = now;
      st = no_stats;
      ctrl = cr_idle;
      hooked = true;
      opened = true;
    })

-- Cancel a pending wait.
unfoldable pub cancel : Device → Device
cancel d = record d {
  timer = if d.waiting && not (d.tid == 0) then none else d.timer;
  waiting = false;
  tid = 0;
}

-- `midiclose`, after its wait for the ring to empty.
unfoldable pub midiclose : Device → Device
unfolding cancel quiet
midiclose d = record (cancel (quiet d)) { head = 0; tail = 0; opened = false }

-- MIDI_FLUSH
unfoldable pub flush : ℕ → Device → Device
unfolding cancel quiet
flush now d = record (quiet (cancel (record d { head = d.tail }))) {
  start = now;
  due_ms = 0;
  due = now;
}
