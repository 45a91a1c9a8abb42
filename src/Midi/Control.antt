-- ===== src/Midi/Control.antt =====
-- driver-midi/midi.c, the calls with their sleeps: `midiwrite`, `midiclose`, `midiioctl` and the loop of
-- `midiint`. A sleep gives a signal, or what has become of the device meanwhile; lbolt is a function of the
-- rounds left.
use atari_sysv_sp.Base.{
  ℕ, zero, suc, ◌+◌, ◌*◌, Bool, not, Option, none, some, List, [], ◌∷◌, ◌==◌, ltb, if◌then◌else◌,
  take, drop, length,
}
use atari_sysv_sp.Base.Maybe.{◌>>=◌}
use atari_sysv_sp.Midi.{
  Device, Stats, ring_size, bounce, used, room, Clock, Error, eintr, efault, einval, serve,
  write_chunk, midiclose, flush,
}

-- A sleep: a signal, or what has become of the device.
abbrev pub Wake : Type 0
Wake = Option (Device → Device)

-- How a write ends; `asleep` where it has not come back yet.
pub data Status : Type 0 where
  finished interrupted faulted asleep : Status

pub record Written : Type 0 where
  pub status : Status
  pub left : List ℕ
  pub device : Device

abbrev pub piece : List ℕ → ℕ
piece bs = if ltb (length bs) bounce then length bs else bounce

abbrev pub count_wakes : List Wake → ℕ
count_wakes [] = 0
count_wakes (w ∷ wakes) = suc (count_wakes wakes)

-- Sleeps until the ring is empty, `limit` at most.
unfoldable pub empty_out : ℕ → List Wake → Device → Status × Device
empty_out zero wakes d = (finished, d)
empty_out (suc limit) [] d = if d.head == d.tail then (finished, d) else (asleep, d)
empty_out (suc limit) (none ∷ wakes) d =
    if d.head == d.tail then (finished, d) else (interrupted, d)
empty_out (suc limit) (some f ∷ wakes) d =
    let rest = empty_out limit wakes (f d) in if d.head == d.tail then (finished, d) else rest

-- The whole of `midiclose`: a signal ends the wait, too. `none` while it sleeps.
unfoldable pub close : ℕ → List Wake → Device → Option Device
close hertz wakes d =
    let (s, d') = empty_out (5 * hertz) wakes d in
    elim s [
      | finished ↦ some (midiclose d')
      | interrupted ↦ some (midiclose d')
      | faulted ↦ some (midiclose d')
      | asleep ↦ none
    ]

pub data Request : Type 0 where
  flush_ring getqueued drain stats getring unknown : Request

-- What a request leaves; MIDI_STATS copies the counts out, the bytes that are queued and the ticks a second.
pub data Reply : Type 0 where
  done : ℕ → Device → Reply
  counts : Stats → ℕ → ℕ → Device → Reply
  refused : Error → Device → Reply
  sleeping : Device → Reply

-- `copied` is whether copyout() can reach the caller's struct.
unfoldable pub midiioctl : ℕ → ℕ → Request → Bool → List Wake → Device → Reply
midiioctl hertz now flush_ring copied wakes d = done 0 (flush now d)
midiioctl hertz now getqueued copied wakes d = done (used d) d
midiioctl hertz now drain copied wakes d =
    let (s, d') = empty_out (30 * hertz) wakes d in
    elim s [
      | finished ↦ done 0 d'
      | interrupted ↦ refused eintr d'
      | faulted ↦ refused efault d'
      | asleep ↦ sleeping d'
    ]
midiioctl hertz now stats copied wakes d =
    if copied then counts d.st (used d) hertz d else refused efault d
midiioctl hertz now getring copied wakes d = done ring_size d
midiioctl hertz now unknown copied wakes d = refused einval d

module _ (k : Clock) where
  -- The rounds of `midiint`, each with whether the MIDI chip asserts the interrupt; the keyboard's handler
  -- does not touch the device.
  unfoldable pub midiint : ℕ → List Bool → Device → Option Device
  midiint now [] d = some d
  midiint now (irq ∷ rounds) d = (do
    d' ← if irq then serve k now d else some d
    midiint now rounds d')

  -- The loops of `midiwrite`, on the rounds that may yet be taken and the sleeps to come: a round either
  -- sleeps or puts a chunk into the ring. `readable bs` is whether uiomove can take a chunk of bs.
  unfoldable pub write_from : (List ℕ → Bool) → (ℕ → ℕ) → ℕ → List Wake → List ℕ → Device → Written
  write_from readable lbolt zero wakes bs d = record { status = asleep; left = bs; device = d }
  write_from readable lbolt (suc fuel) wakes bs d =
      let slept : Written = elim wakes [
        | [] ↦ record { status = asleep; left = bs; device = d }
        | w ∷ later ↦ elim w [
          | none ↦ record { status = interrupted; left = bs; device = d }
          | some f ↦ write_from readable lbolt fuel later bs (f d)
        ]
      ] in
      let put : Written = elim (write_chunk k (lbolt fuel) (take (piece bs) bs) d) [
        | none ↦ record { status = asleep; left = bs; device = d }
        | some d' ↦ write_from readable lbolt fuel wakes (drop (piece bs) bs) d'
      ] in
      if length bs == 0
      then record { status = finished; left = []; device = d }
      else if ltb (room d) (piece bs)
      then slept
      else if not (readable bs)
      then record { status = faulted; left = bs; device = d }
      else put

  -- A round takes a byte at least, or a sleep.
  unfoldable pub midiwrite : (List ℕ → Bool) → (ℕ → ℕ) → List Wake → List ℕ → Device → Written
  unfolding write_from
  midiwrite readable lbolt wakes bs d =
      write_from readable lbolt (suc (length bs + count_wakes wakes)) wakes bs d
