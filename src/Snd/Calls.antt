-- ===== src/Snd/Calls.antt =====
-- driver-snd/snd.c, the driver's entry points: sndopen, the end of sndclose, sndwrite and sndioctl's
-- settings. A sleep gives a signal, or what ticks and interrupts have made of the device meanwhile.
pub mod Rates
use atari_sysv_sp.Base.{
  ℕ, zero, suc, ◌+◌, ◌-◌, ◌*◌, ◌/◌, ◌%◌, Bool, true, false, not, ◌&&◌, ◌||◌, Option, none, some,
  List, [], ◌∷◌, ◌==◌, ltb, leb, if◌then◌else◌, get_or, take, drop, length,
}
use atari_sysv_sp.Base.Words.{lt_int}
use atari_sysv_sp.Snd.{
  Sound, Dma, ring_size, bounce, rates, room, put_piece, snd_setquiet, snd_start,
}

pub data Error : Type 0 where
  enxio ebusy enomem einval : Error

pub data Outcome : Type 0 where
  ok : Sound → Outcome
  fails : Error → Sound → Outcome

-- `sndinit`: mono at 25033 Hz, 0 dB
unfoldable pub sndinit : Sound → Sound
sndinit d = record d { mode = 0x80 + 2; volume = 40 }

-- `sndopen`; the arguments are the minor device and otyp == OTYP_CHR.
unfoldable pub sndopen : ℕ → ℕ → Bool → Sound → Outcome
sndopen hertz minor chr d =
    if not (minor == 0) || not chr
    then fails enxio d
    else if d.opened
    then fails ebusy d
    else if not d.present
    then fails enomem d
    else ok
        (record (snd_start hertz (record d { opened = true; underruns = 0 })) { ticking = true })

-- `sndclose`, after its wait for the ring to play out.
unfoldable pub sndclose : Sound → Sound
sndclose d = record d {
  dma = record d.dma { ctrl = 0; tacr = 0 };
  chained = false;
  unchain_at = 0;
  opened = false;
  ticking = false;
}

-- `sndstart`, with the physical address of the ring if there was one: it must lie in the first 4 MB, at
-- an even address.
unfoldable pub sndstart : Option ℕ → Sound → Sound
sndstart none d = record d { present = false }
sndstart (some phys) d = record d {
  phys = phys;
  present = leb (phys + ring_size) 0x400000 && (phys % 2 == 0);
}

-- How a write ends; `asleep` where it has not come back yet.
pub data Status : Type 0 where
  finished eintr efault asleep : Status

-- A write that has ended: what is left of the user's bytes, and the device.
pub record Written : Type 0 where
  pub status : Status
  pub left : List ℕ
  pub device : Sound

-- A sleep: a signal, or what has become of the device.
abbrev pub Wake : Type 0
Wake = Option (Sound → Sound)

abbrev piece : List ℕ → ℕ
piece bs = if ltb (length bs) bounce then length bs else bounce

-- The two loops of `sndwrite`, on the pieces that may yet be taken and the sleeps to come: a round either
-- sleeps or puts a piece into the ring. `readable bs` is whether uiomove can take a piece of bs.
write_from : (List ℕ → Bool) → ℕ → List Wake → List ℕ → Sound → Written
write_from readable zero wakes bs d = record { status = asleep; left = bs; device = d }
write_from readable (suc fuel) wakes bs d =
    let rest =
      write_from readable fuel wakes (drop (piece bs) bs) (put_piece (take (piece bs) bs) d) in
    let slept : Written = elim wakes [
      | [] ↦ record { status = asleep; left = bs; device = d }
      | w ∷ later ↦ elim w [
        | none ↦ record { status = eintr; left = bs; device = d }
        | some f ↦ write_from readable fuel later bs (f d)
      ]
    ] in
    if length bs == 0
    then record { status = finished; left = []; device = d }
    else if ltb (room d) (piece bs)
    then slept
    else if not (readable bs)
    then record { status = efault; left = bs; device = d }
    else rest

abbrev count_wakes : List Wake → ℕ
count_wakes [] = 0
count_wakes (w ∷ wakes) = suc (count_wakes wakes)

-- A round takes a byte at least, or a sleep.
unfoldable pub sndwrite : (List ℕ → Bool) → List Wake → List ℕ → Sound → Written
unfolding write_from
sndwrite readable wakes bs d = write_from readable (suc (length bs + count_wakes wakes)) wakes bs d

-- |arg - rate|
abbrev pub distance : ℕ → ℕ → ℕ
distance arg rate = if ltb rate arg then arg - rate else rate - arg

-- A round of SND_SETRATE's loop: the nearer rate, the earlier one of two as near.
abbrev pub nearer : ℕ → ℕ → ℕ → ℕ
nearer arg best i =
    if ltb (distance arg (get_or rates i 0)) (distance arg (get_or rates best 0)) then i else best

-- For a rate that is not negative.
unfoldable pub best_rate : ℕ → ℕ
best_rate arg = nearer arg (nearer arg (nearer arg 0 1) 2) 3

-- The mode's register and the wait for a frame interrupt follow the mode.
set_mode : ℕ → ℕ → Sound → Sound
set_mode hertz mode d =
    snd_setquiet hertz (record d { mode = mode; dma = record d.dma { mode = mode } })

-- SND_SETRATE, with the rate that it returns
unfoldable pub set_rate : ℕ → ℕ → Sound → Sound × ℕ
unfolding set_mode
set_rate hertz arg d =
    (set_mode hertz (d.mode / 128 % 2 * 128 + best_rate arg) d, get_or rates (best_rate arg) 0)

-- SND_SETSTEREO
unfoldable pub set_stereo : ℕ → Bool → Sound → Sound
unfolding set_mode
set_stereo hertz stereo d = set_mode hertz (d.mode % 4 + (if stereo then 0 else 128)) d

-- SND_SETVOLUME
unfoldable pub set_volume : ℕ → Sound → Outcome
set_volume arg d =
    if lt_int arg 0 || lt_int 40 arg then fails einval d else ok (record d { volume = arg })

-- SND_GETDELAY, SND_GETSPACE
abbrev pub get_delay : Sound → ℕ
get_delay d = d.gap + d.filled

abbrev pub get_space : Sound → ℕ
get_space d = ring_size - 2 - d.gap - d.filled
