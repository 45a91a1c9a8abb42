-- ===== src/Snd/Control.antt =====
-- driver-snd/snd.c, the waits for the ring to play out (`sndclose`, SND_DRAIN) and the requests of
-- `sndioctl` but SND_DIAG and SND_BEEP, which leave the device's state as it is.
use atari_sysv_sp.Base.{
  ℕ, zero, suc, ◌*◌, ◌<◌, ◌≡◌, inl, inr, refl, sym, Bool, Bool-cases, not, Option, none, some, List,
  [], ◌∷◌, ◌==◌, if◌then◌else◌, length, arith,
}
use atari_sysv_sp.Snd.{Sound, Stats, ring_size}
use atari_sysv_sp.Snd.Calls.{
  Error, einval, Outcome, ok, fails, Wake, sndclose, set_rate, set_stereo, set_volume, get_delay,
  get_space,
}

-- How a wait ends.
pub data Wait : Type 0 where
  over interrupted asleep : Wait

-- Sleeps until nothing is filled, `limit` at most.
unfoldable pub play_out : ℕ → List Wake → Sound → Wait × Sound
play_out zero wakes d = (over, d)
play_out (suc limit) [] d = if d.filled == 0 then (over, d) else (asleep, d)
play_out (suc limit) (none ∷ wakes) d = if d.filled == 0 then (over, d) else (interrupted, d)
play_out (suc limit) (some f ∷ wakes) d =
    let rest = play_out limit wakes (f d) in if d.filled == 0 then (over, d) else rest

-- The whole of `sndclose`: a signal ends the wait, too. `none` while it sleeps.
unfoldable pub close : ℕ → List Wake → Sound → Option Sound
close hertz wakes d =
    let (w, d') = play_out (5 * hertz) wakes d in
    elim w [ over ↦ some (sndclose d') | interrupted ↦ some (sndclose d') | asleep ↦ none ]

pub data Request : Type 0 where
  setrate setstereo drain getspace getdelay getring setvolume stats test getunderruns unknown :
      Request

-- What a request leaves; SND_STATS copies the device's counts out, and whether the chain runs.
pub data Reply : Type 0 where
  done : ℕ → Sound → Reply
  counts : Stats → Bool → Sound → Reply
  refused : Error → Sound → Reply
  eperm : Sound → Reply
  eintr : Sound → Reply
  efault : Sound → Reply
  sleeping : Sound → Reply

unfoldable pub reply : Outcome → Reply
reply (ok d) = done 0 d
reply (fails e d) = refused e d

unfoldable pub stop_events : Sound → Sound
stop_events d = record d { dma = record d.dma { tacr = 0 } }

-- A request's argument is an `int` as a pattern, that of SND_SETRATE not negative; `root` is whether the
-- caller is root, `copied` whether copyout() can reach its struct.
unfoldable pub sndioctl : ℕ → Request → ℕ → Bool → Bool → List Wake → Sound → Reply
sndioctl hertz setrate arg root copied wakes d =
    let (d', rate) = set_rate hertz arg d in done rate d'
sndioctl hertz setstereo arg root copied wakes d = done 0 (set_stereo hertz (not (arg == 0)) d)
sndioctl hertz drain arg root copied wakes d =
    let (w, d') = play_out (30 * hertz) wakes d in
    elim w [ over ↦ done 0 d' | interrupted ↦ eintr d' | asleep ↦ sleeping d' ]
sndioctl hertz getspace arg root copied wakes d = done (get_space d) d
sndioctl hertz getdelay arg root copied wakes d = done (get_delay d) d
sndioctl hertz getring arg root copied wakes d = done ring_size d
sndioctl hertz setvolume arg root copied wakes d = reply (set_volume arg d)
sndioctl hertz stats arg root copied wakes d = if copied then counts d.st d.chained d else efault d
sndioctl hertz test arg root copied wakes d =
    if not root then eperm d else done 0 (if arg == 1 then stop_events d else d)
sndioctl hertz getunderruns arg root copied wakes d = done d.underruns d
sndioctl hertz unknown arg root copied wakes d = refused einval d

-- A wait that is over before its limit has played the ring out.
play_out-over :
    (limit : ℕ) (wakes : List Wake) (d : Sound)
    → length wakes < limit
    → (play_out limit wakes d).0 ≡ over
    → (play_out limit wakes d).1.filled ≡ 0
unfolding play_out
play_out-over zero wakes d h = absurd (omega arith)
play_out-over (suc limit) [] d h = elim (Bool-cases (d.filled == 0)) [
  | inl t ↦ rw t (λ e. ground (arith, t))
  | inr f ↦ rw f (λ e. absurd cc)
]
play_out-over (suc limit) (none ∷ wakes) d h = elim (Bool-cases (d.filled == 0)) [
  | inl t ↦ rw t (λ e. ground (arith, t))
  | inr f ↦ rw f (λ e. absurd cc)
]
play_out-over (suc limit) (some f ∷ wakes) d h = elim (Bool-cases (d.filled == 0)) [
  | inl t ↦ rw t (λ e. ground (arith, t))
  | inr g ↦ rw g (play_out-over limit wakes (f d) (omega arith))
]

drained :
    (w : Wait) (value : ℕ) (d d' : Sound)
    → (elim w as (λ x. Reply) [ over ↦ done 0 d | interrupted ↦ eintr d | asleep ↦ sleeping d ])
      ≡ done value d'
    → (w ≡ over) × (d ≡ d')
drained over value d d' e = (refl, cc)
drained interrupted value d d' e = absurd cc
drained asleep value d d' e = absurd cc

-- SND_DRAIN that succeeds after less than half a minute of ticks leaves nothing to play.
pub drain_lem :
    (hertz arg value : ℕ) (root copied : Bool) (wakes : List Wake) (d d' : Sound)
    → length wakes < 30 * hertz
    → sndioctl hertz drain arg root copied wakes d ≡ done value d'
    → d'.filled ≡ 0
unfolding sndioctl
drain_lem hertz arg value root copied wakes d d' h e =
    let (o, same) =
      drained (play_out (30 * hertz) wakes d).0 value (play_out (30 * hertz) wakes d).1 d' e in
    rw (sym same) (play_out-over (30 * hertz) wakes d h o)
