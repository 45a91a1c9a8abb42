-- ===== src/Dp.antt =====
-- driver-dp/dp.c, the DaynaPORT network driver. Dp has the SCSI half: the commands and the queue of the
-- SCSI core, with `dp_kick`, `dpSTART`'s start of the head and `dpstrategy`. Dp/Streams has the frames of
-- both directions, Dp/Done the completion of a command, Dp/Proto the DLPI requests, Dp/Open the calls that
-- open and close. What putnext() gives to a module above is a log; what that module answers is a later
-- step.
pub mod Streams
pub mod Done
pub mod Proto
pub mod Open
pub mod Close
pub mod Receive
pub mod Rounds
pub mod Queues
pub mod Saps
pub mod Polls
pub mod Table
pub mod Turns
pub mod Finish
pub mod Sends
pub mod Requests
pub mod Bringup
pub mod Opening
pub mod Life
pub mod Promises
pub mod Unload
pub mod Drains
pub mod Info
mod Tests
use atari_sysv_sp.Base.{
  ℕ, zero, suc, ◌+◌, ◌-◌, ◌*◌, ◌/◌, ◌%◌, Bool, true, false, not, ◌&&◌, ◌||◌, Option, none, some,
  List, [], ◌∷◌, ◌++◌, ◌==◌, if◌then◌else◌, length,
}

-- A command as it is issued: the opcode, the control byte and the length.
pub record Command : Type 0 where
  pub op : ℕ
  pub ctl : ℕ
  pub count : ℕ

-- What stands in the core's queue: `dpabuf`, or the buf of a synchronous command.
pub data Buf : Type 0 where
  async : Buf
  sync : Command → Buf

-- DP_SETTLE's and the callout's ticks stand on the kernel's HZ, an argument.
abbrev pub max_errs : ℕ
max_errs = 3

abbrev pub rx_ask : ℕ
rx_ask = 3072

abbrev pub rx_mode : ℕ
rx_mode = 192

abbrev pub set_op : ℕ
set_op = 14

abbrev pub tx_op : ℕ
tx_op = 10

abbrev pub rx_op : ℕ
rx_op = 8

-- The variables of the SCSI half. `tx` is the frame staged in dptx, none of them empty; `flight` is what
-- dpabuf asks for, `done` its B_DONE with its B_ERROR; `queue` and `active` are those of the core's sj_tab
-- entry, and `issued` what went to sj_jobentry().
pub record Scsi : Type 0 where
  pub up : Bool
  pub busy : Bool
  pub tx : List ℕ
  pub rxwant : Bool
  pub idle : ℕ
  pub reinit : ℕ
  pub errs : ℕ
  pub settle : ℕ
  pub flight : Command
  pub done : Option Bool
  pub queue : List Buf
  pub active : Bool
  pub issued : List Command

abbrev pub is_empty : {A : Type 0} → List A → Bool
is_empty [] = true
is_empty (x ∷ xs) = false

unfoldable pub command_of : Scsi → Buf → Command
command_of d async = d.flight
command_of d (sync c) = c

-- `dpSTART` behind its check for a finished dpabuf: the head is issued, or the queue rests.
unfoldable pub start_head : Scsi → Scsi
start_head d = elim d.queue [
  | [] ↦ record d { active = false }
  | b ∷ bs ↦ record d { active = true; issued = d.issued ++ command_of d b ∷ [] }
]

-- What is due: a step of the re-bring-up, the staged frame, a receive.
unfoldable pub due : Scsi → Option Command
due d =
    if not (d.reinit == 0)
    then some (record { op = set_op; ctl = if d.reinit == 1 then 128 else 0; count = 0 })
    else if not (is_empty d.tx)
    then some (record { op = tx_op; ctl = 0; count = length d.tx })
    else if d.rxwant
    then some (record { op = rx_op; ctl = rx_mode; count = rx_ask })
    else none

unfoldable pub enqueue : Command → Scsi → Scsi
enqueue c d = record d { busy = true; flight = c; done = none; queue = d.queue ++ async ∷ [] }

-- `dpabuf` is not done where it is queued, so `dpSTART` only starts the head here.
unfoldable pub dp_kick : Bool → Scsi → Scsi
dp_kick start d = elim (due d) [
  | none ↦ d
  | some c ↦
      let d' = enqueue c d in
      if d.busy || not d.up then d else if start && not d.active then start_head d' else d'
]

-- `dpstrategy`, for a synchronous command, where no finished dpabuf waits.
unfoldable pub dpstrategy : Command → Scsi → Scsi
dpstrategy c d =
    let d' = record d { queue = d.queue ++ sync c ∷ [] } in if d.active then d' else start_head d'
