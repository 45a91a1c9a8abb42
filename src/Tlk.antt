-- ===== src/Tlk.antt =====
-- driver-tlk/tlk.c: the transputer links. The registers and the kernel's sleep are an interface, `Link`,
-- on a state of the hardware; a wait without a time limit may never end and has fuel, `rounds`. Child
-- modules: Tlk/Move the data path, Tlk/Control open, reset and ioctl, Tlk/Sent and Tlk/Received what
-- write and read do to the byte streams, Tlk/Opening the guard of open.
pub mod Info
pub mod Diag
pub mod Move
pub mod Control
pub mod Ready
pub mod Received
pub mod Opening
pub mod Told
pub mod Sent
pub mod Waits
mod Tests
use atari_sysv_sp.Base.{
  ℕ, zero, suc, ◌+◌, ◌-◌, ◌*◌, ◌%◌, ◌/◌, ◌≡◌, Bool, true, false, not, ◌&&◌, Option, List, [], ◌∷◌,
  ◌++◌, ◌==◌, if◌then◌else◌,
}
use atari_sysv_sp.Base.Words.{word, lt_int, add_int, sub_int}

pub data Reg : Type 0 where
  r_in : Reg
  r_out : Reg
  r_istat : Reg
  r_ostat : Reg
  r_reset : Reg
  r_anal : Reg

-- What the driver uses of a link: the registers directly, the registers through ioprobe() (`none` and
-- false for a bus error), and a sleep of a tick, with whether a signal came.
pub record Link (H : Type 0) : Type 1 where
  pub look : Reg → H → ℕ × H
  pub store : Reg → ℕ → H → H
  pub rd : Reg → H → Option ℕ × H
  pub wr : Reg → ℕ → H → Bool × H
  pub tick : H → Bool × H

abbrev pub spin_polls : ℕ
spin_polls = 400

abbrev pub chunk : ℕ
chunk = 256

-- How a call ends; `waiting` when the fuel ends first.
pub data Errno : Type 0 where
  ok : Errno
  efault : Errno
  eio : Errno
  eintr : Errno
  einval : Errno
  enxio : Errno
  ebusy : Errno
  eperm : Errno
  waiting : Errno

abbrev pub is_set : ℕ → Bool
is_set v = v % 2 == 1

module _ {H : Type 0} (l : Link H) where
  -- Polls of a status register until it is ready, n at most.
  unfoldable pub spin : Reg → ℕ → H → Bool × H
  spin reg zero h = (false, h)
  spin reg (suc n) h =
      let (v, h1) = l.look reg h in
      let rest = spin reg n h1 in if is_set v then (true, h1) else rest

  -- `timeout` is a C `int` of ticks, 0 for none.
  unfoldable pub wait_from : ℕ → Reg → ℕ → ℕ → H → Errno × H
  wait_from zero reg timeout ticks h = (waiting, h)
  wait_from (suc rounds) reg timeout ticks h =
      let (ready, h1) = spin reg spin_polls h in
      let (signal, h2) = l.tick h1 in
      let rest =
        wait_from rounds reg timeout (if timeout == 0 then ticks else add_int ticks 1) h2 in
      if ready
      then (ok, h1)
      else if not (timeout == 0) && not (lt_int ticks timeout)
      then (eio, h1)
      else if signal
      then (eintr, h2)
      else rest

  unfoldable pub tlk_wait : ℕ → ℕ → Reg → H → Errno × H
  tlk_wait rounds timeout reg h = wait_from rounds reg timeout 0 h
