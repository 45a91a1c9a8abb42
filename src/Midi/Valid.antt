-- ===== src/Midi/Valid.antt =====
-- The invariant of the device: the ring's indices, and the control register.
use atari_sysv_sp.Base.{
  ℕ, ◌<◌, ◌≡◌, Bool, true, false, Option, none, some, List, [], ◌∷◌, if◌then◌else◌, arith,
}
use atari_sysv_sp.Midi.{
  Device, ring_size, cr_idle, cr_send, quiet, Clock, Round, again, done, take_wait, rest_until,
  offer, round,
}

pub record IsValid (d : Device) : Type 0 where
  pub head_in : d.head < ring_size
  pub tail_in : d.tail < ring_size
  pub ctrl_is : d.ctrl ≡ (if d.sending then cr_send else cr_idle)

abbrev pub device : Round → Device
device (again d) = d
device (done d) = d

abbrev pub Holds : (Device → Type 0) → Option Device → Type 0
Holds P none = Unit
Holds P (some d) = P d

pub quiet-IsValid : {d : Device} → IsValid d → IsValid (quiet d)
unfolding quiet
quiet-IsValid v = ground arith

module _ (k : Clock) where
  take_wait-IsValid : (now : ℕ) {d : Device} → IsValid d → IsValid (take_wait k now d)
  unfolding take_wait
  take_wait-IsValid now v = omega arith

  rest_until-IsValid : (now : ℕ) {d : Device} → IsValid d → IsValid (device (rest_until k now d))
  unfolding rest_until
  rest_until-IsValid now v = ground arith

  offer-IsValid : {d : Device} (ready : List Bool) → IsValid d → IsValid (device (offer k d ready))
  unfolding offer
  offer-IsValid [] v = ground arith
  offer-IsValid (false ∷ ready) v = ground arith
  offer-IsValid (true ∷ ready) v = ground arith

  pub round-IsValid : (now : ℕ) {d : Device} → IsValid d → IsValid (device (round k now d))
  round-IsValid now {d} v =
      unfold round in
      ground (
        arith,
        quiet-IsValid v,
        rest_until-IsValid now (take_wait-IsValid now v),
        offer-IsValid d.ready v,
      )
