-- ===== src/Dp/Done.antt =====
-- driver-dp/dp.c, the end of the asynchronous command: `dp_async_done` with the frames that a receive
-- brings, and `dpSTART`. `rx` is the memory from dprx on as the command left it, `now` is lbolt.
use atari_sysv_sp.Base.{
  ℕ, zero, suc, ◌+◌, ◌-◌, ◌*◌, ◌/◌, ◌%◌, Bool, true, false, not, ◌&&◌, ◌||◌, Option, none, some,
  List, [], ◌∷◌, ◌==◌, ltb, leb, if◌then◌else◌, get_or,
}
use atari_sysv_sp.Base.Buffer.{slice}
use atari_sysv_sp.Base.Words.{lt_int, add_int, sub_int}
use atari_sysv_sp.Dp.{Scsi, async, sync, max_errs, rx_ask, set_op, tx_op, dp_kick, start_head}
use atari_sysv_sp.Dp.Streams.{Dp, minors_max, granted, asked, ierror, oerror, en_rproc, en_wproc}

unfoldable pub with_scsi : (Scsi → Scsi) → Dp → Dp
with_scsi f d = record d { scsi = f d.scsi }

unfoldable pub ipacket : Dp → Dp
ipacket d = record d { counts = record d.counts { ipackets = d.counts.ipackets + 1 } }

unfoldable pub opacket : Dp → Dp
opacket d = record d { counts = record d.counts { opackets = d.counts.opackets + 1 } }

-- The header's length, the mark of a dropped packet, and the mark of another frame behind this one.
abbrev pub frame_length : List ℕ → ℕ → ℕ
frame_length rx h = get_or rx h 0 * 256 + get_or rx (h + 1) 0

abbrev pub is_wedged : List ℕ → ℕ → Bool
is_wedged rx h =
    get_or rx (h + 2) 0 == 255
    && get_or rx (h + 3) 0 == 255
    && get_or rx (h + 4) 0 == 255
    && get_or rx (h + 5) 0 == 255

abbrev pub has_more : List ℕ → ℕ → Bool
has_more rx h = get_or rx (h + 5) 0 / 16 % 2 == 1

-- A frame of n bytes behind the header at h; its last four are the CRC.
unfoldable pub take_frame : List ℕ → ℕ → ℕ → Dp → Dp
take_frame rx h n d =
    if leb 18 n && granted d
    then en_rproc (slice rx (h + 6) (n - 4)) (ipacket (asked d))
    else ierror (if leb 18 n then asked d else d)

-- The loop over the frames from the header at h on, `got` of them so far, with fuel.
unfoldable pub receive : ℕ → List ℕ → ℕ → ℕ → Dp → ℕ × Dp
receive zero rx h got d = (got, d)
receive (suc fuel) rx h got d =
    let n = frame_length rx h in
    let d' = take_frame rx h n d in
    let rest = receive fuel rx (h + (6 + n)) (got + 1) d' in
    if is_wedged rx h
    then (got, ierror (with_scsi (λ s. record s { rxwant = false; reinit = 2 }) d))
    else if n == 0 || ltb 1524 n
    then (got, d)
    else if has_more rx h && leb (h + (6 + n) + 6) rx_ask
    then rest
    else (got + 1, d')

-- Failures outside the window after an enable are counted; the third in a row resets the adapter.
unfoldable pub count_errs : ℕ → Bool → Scsi → Scsi
count_errs now err s =
    let counted = err && not (lt_int (sub_int now s.settle) 0) in
    let errs = if counted then s.errs + 1 else s.errs in
    if counted && leb max_errs errs
    then record s { errs = errs; reinit = 2 }
    else record s { errs = if err then errs else 0 }

unfoldable pub reinit_done : ℕ → ℕ → Scsi → Scsi
reinit_done hz now s =
    let left = s.reinit - 1 in
    if left == 0
    then record s { reinit = 0; settle = add_int now (hz / 2); errs = 0 }
    else record s { reinit = left }

unfoldable pub tx_done : Bool → Dp → Dp
tx_done err d =
    let d1 = with_scsi (λ s. record s { tx = [] }) d in
    let d2 = if err then oerror d1 else opacket d1 in
    let d3 = if d2.wqcnt == 0 then d2 else en_wproc (2 * minors_max) d2 in
    with_scsi (λ s. record s { rxwant = true }) d3

-- More may be queued after a frame; after none the timer looks again.
unfoldable pub after_receive : ℕ → Scsi → Scsi
after_receive got s =
    if not (got == 0)
    then record s { idle = 0 }
    else if s.reinit == 0
    then record s { rxwant = false; idle = s.idle + 1 }
    else s

unfoldable pub rx_done : List ℕ → Dp → Dp
rx_done rx d = let (got, d') = receive rx_ask rx 0 0 d in with_scsi (after_receive got) d'

unfoldable pub rx_failed : Dp → Dp
rx_failed d = ierror (with_scsi (λ s. record s { rxwant = false }) d)

module _ (hz : ℕ) where
  unfoldable pub dp_async_done : ℕ → Bool → List ℕ → Dp → Dp
  dp_async_done now err rx d =
      let d1 = with_scsi (λ s. record s { busy = false }) d in
      let d2 = with_scsi (count_errs now err) d1 in
      let op = d.scsi.flight.op in
      with_scsi (dp_kick false) (
        if op == set_op
        then with_scsi (reinit_done hz now) d1
        else if op == tx_op
        then tx_done err d2
        else if err
        then rx_failed d2
        else rx_done rx d2)

  unfoldable pub dp_start : ℕ → List ℕ → Dp → Dp
  dp_start now rx d =
      let d' : Option Bool → Dp = λ o. elim o [
        | none ↦ d
        | some err ↦ if d.scsi.busy then dp_async_done now err rx d else d
      ] in
      with_scsi start_head (d' d.scsi.done)

  -- What the core does, by the comment above `dpSTART`, where the command at the head ends: it takes it
  -- off the queue, marks it done, and calls `dpSTART`.
  unfoldable pub complete : ℕ → Bool → List ℕ → Dp → Dp
  complete now err rx d = elim d.scsi.queue [
    | [] ↦ d
    | b ∷ bs ↦
        let done : Option Bool = elim b [ async ↦ some err | sync c ↦ d.scsi.done ] in
        dp_start now rx (with_scsi (λ s. record s { queue = bs; done = done }) d)
  ]
