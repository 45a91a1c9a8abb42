-- ===== src/Midi/Tests.antt =====
-- The MIDI driver at concrete devices.
use atari_sysv_sp.Base.{
  ◌+◌, ◌≡◌, refl, true, false, none, some, [], ◌∷◌, ◌++◌, ◌==◌, if◌then◌else◌, arith,
}
use atari_sysv_sp.Midi.{Device, Stats, Clock, midi_kick, midiopen, ok, wait_byte, cr_idle}
use atari_sysv_sp.Midi.Valid.{IsValid}
use atari_sysv_sp.Midi.Kick.{Resumes, midi_kick_lem}
use atari_sysv_sp.Midi.Stream.{stream, stream-midi_kick, music}
use atari_sysv_sp.Midi.Life.{Run, began, stream-Run}
use atari_sysv_sp.Midi.Control.{Written, midiwrite}
use atari_sysv_sp.Midi.Writing.{Ends, midiwrite_lem}

abbrev clock : Clock
clock = record { hertz = 100; timeout = λ t. t + 1 }

abbrev zeroed : Stats
zeroed = record { bytes = 0; intrs = 0; waits = 0; late = 0; snaps = 0; kicks = 0 }

-- A closed device, and one opened raw with a byte in the ring and a port that takes it.
abbrev closed : Device
closed = record {
  opened = false;
  timed = false;
  hooked = false;
  ring = λ i. 7;
  head = 3;
  tail = 4;
  sending = false;
  waiting = false;
  tid = 0;
  start = 0;
  due_ms = 0;
  due = 0;
  st = zeroed;
  ready = true ∷ [];
  ctrl = cr_idle;
  sent = [];
  timer = none;
}

abbrev playing : Device
playing = record closed { opened = true }

-- A timed stream: a wait of 7 ms at the head of the ring, then a byte.
abbrev timed_stream : Device
timed_stream = record playing {
  timed = true;
  head = 0;
  tail = 3;
  ring = λ i. if i == 0 then wait_byte else 7;
  due = 100;
  start = 100;
}

abbrev finished : Device
finished = record playing { head = 4; ready = []; sent = 7 ∷ []; st = record zeroed { bytes = 1 } }

abbrev opened_at : Device
opened_at = record closed {
  timed = true;
  head = 0;
  tail = 0;
  start = 9;
  due = 9;
  hooked = true;
  opened = true;
}

playing-IsValid : IsValid playing
playing-IsValid = record { head_in = omega arith; tail_in = omega arith; ctrl_is = refl }

timed_stream-IsValid : IsValid timed_stream
timed_stream-IsValid = record { head_in = omega arith; tail_in = omega arith; ctrl_is = refl }

midi_kick_example :
    (d' : Device) × (midi_kick clock 90 timed_stream ≡ some d') × IsValid d' × Resumes clock 90 d'
midi_kick_example = midi_kick_lem clock 90 timed_stream-IsValid

kick_playing : midi_kick clock 0 playing ≡ some finished
unfolding midi_kick
kick_playing = refl

stream-midi_kick_example : stream finished ≡ stream playing
stream-midi_kick_example = stream-midi_kick clock 0 playing-IsValid kick_playing

opening : midiopen 1 true 9 closed ≡ ok opened_at
unfolding midiopen
opening = refl

-- A write of two bytes to an idle port.
abbrev idle : Device
idle = record playing { head = 4 }

idle-Run : Run clock false [] idle []
idle-Run =
    began (record { head_in = omega arith; tail_in = omega arith; ctrl_is = refl }) refl refl refl

abbrev two_bytes : Written
two_bytes = midiwrite clock (λ bs. true) (λ n. 5) [] (1 ∷ 2 ∷ []) idle

a_write : Ends clock false [] [] (1 ∷ 2 ∷ []) two_bytes
a_write = midiwrite_lem clock false [] (λ bs. true) (λ n. 5) [] (1 ∷ 2 ∷ []) tt idle-Run

midiwrite_example : Ends clock false [] [] (1 ∷ 2 ∷ []) two_bytes
midiwrite_example = midiwrite_lem clock false [] (λ bs. true) (λ n. 5) [] (1 ∷ 2 ∷ []) tt idle-Run

stream-Run_example : stream two_bytes.device ≡ [] ++ music false ([] ++ a_write.0)
stream-Run_example = stream-Run clock false [] a_write.2
