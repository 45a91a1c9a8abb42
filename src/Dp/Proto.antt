-- ===== src/Dp/Proto.antt =====
-- driver-dp/dp.c, the DLPI requests of a minor (`en_proto`) and the other messages of its write queue
-- (`enwput`, `en_ioctl`), with the service procedure of the read queue (`enrsrv`).
use atari_sysv_sp.Base.{
  ℕ, ◌+◌, ◌/◌, ◌%◌, Bool, true, not, ◌&&◌, ◌||◌, none, some, List, [], ◌∷◌, ◌++◌, ◌==◌, leb,
  if◌then◌else◌,
}
use atari_sysv_sp.Dp.{is_empty, dp_kick}
use atari_sysv_sp.Dp.Streams.{
  Blocks, unbound, bound, is_bound, minors_max, Message, unitdata_ind, uderror_ind, error_ack,
  bind_ack, ok_ack, info_ack, ioc_ack, ioc_nak, flushed, Dp, bound_to, granted, asked, set_minor,
  put_up, en_send_up, dp_xmit,
}
use atari_sysv_sp.Dp.Done.{with_scsi}

-- A request, and the block it came in: its size, and whether it is shared.
pub data Request : Type 0 where
  bind : ℕ → Request
  unbind : Request
  info : Request
  unitdata : List ℕ → Blocks → Request
  unknown : ℕ → Request

pub record Block : Type 0 where
  pub size : ℕ
  pub shared : Bool

-- An ioctl: whether its block is whole, its command, and the bytes of its first data block, 0 without one.
pub record Ioctl : Type 0 where
  pub whole : Bool
  pub transparent : Bool
  pub cmd : ℕ
  pub room : ℕ

-- A message on a write queue; FLUSHW and FLUSHR of a flush.
pub data Down : Type 0 where
  proto : Request → Block → Down
  ioctl : Ioctl → Down
  flush : Bool → Bool → Down
  other : Down

abbrev pub get_addr : ℕ
get_addr = 17665

-- DL_BIND_REQ and so on, DL_NOTINIT and so on: the numbers of sys/dlpi.h, which is not in the source.
pub record Numbers : Type 0 where
  pub bind_req : ℕ
  pub unbind_req : ℕ
  pub info_req : ℕ
  pub unitdata_req : ℕ
  pub notinit : ℕ
  pub outstate : ℕ
  pub syserr : ℕ
  pub undeliverable : ℕ
  pub enomem : ℕ

-- `en_reuse`: whether there is a block of that size for the answer, and the allocb() where it is needed.
unfoldable pub can_reuse : ℕ → Block → Dp → Bool
can_reuse size b d = (not b.shared && leb size b.size) || granted d

unfoldable pub en_reuse : ℕ → Block → Dp → Dp
en_reuse size b d = if not b.shared && leb size b.size then d else asked d

unfoldable pub en_error_ack : Block → ℕ → ℕ → ℕ → ℕ → Dp → Dp
en_error_ack b m prim dlerr unixerr d =
    if can_reuse 16 b d
    then put_up m (error_ack prim dlerr unixerr) (en_reuse 16 b d)
    else en_reuse 16 b d

-- Whether all the bytes are those of dp_bcast.
unfoldable pub is_broadcast : List ℕ → Bool
is_broadcast [] = true
is_broadcast (x ∷ xs) = x == 255 && is_broadcast xs

-- A broadcast is also heard by its sender, where there is memory for the copy.
unfoldable pub loop_back : ℕ → List ℕ → Blocks → Dp → Dp
loop_back m dst payload d =
    let d1 = asked d in
    if not (is_broadcast dst)
    then d
    else if not (granted d) || is_empty payload
    then d1
    else if granted d1
    then en_send_up m (unitdata_ind dst d.enaddr payload) (asked d1)
    else asked d1

-- The frame goes out at once, or behind those that wait.
unfoldable pub send : ℕ → Blocks → Dp → Dp
send m f d =
    let queued : Dp → Dp = λ d'.
      set_minor m (record (d'.minors m) { frames = (d'.minors m).frames ++ f ∷ [] })
        (record d' { wqcnt = d'.wqcnt + 1 }) in
    let (taken, d1) = dp_xmit f d in
    if not (d.wqcnt == 0) then queued d else if taken then d1 else queued d1

unfoldable pub header : List ℕ → List ℕ → ℕ → List ℕ
header dst src sap = dst ++ src ++ sap / 256 % 256 ∷ sap % 256 ∷ []

module _ (n : Numbers) where
  unfoldable pub primitive : Request → ℕ
  primitive (bind sap) = n.bind_req
  primitive unbind = n.unbind_req
  primitive info = n.info_req
  primitive (unitdata dst payload) = n.unitdata_req
  primitive (unknown prim) = prim

  -- The answer x of a request; an error where there is no block for it.
  unfoldable pub answer : ℕ → Request → Block → ℕ → Message → Dp → Dp
  answer size r b m x d =
      if can_reuse size b d
      then put_up m x (en_reuse size b d)
      else en_error_ack b m (primitive r) n.syserr n.enomem (en_reuse size b d)

  unfoldable pub en_bind : ℕ → ℕ → Block → Dp → Dp
  en_bind m sap b d =
      let d' = set_minor m (record (d.minors m) { state = bound; sap = sap }) d in
      if is_bound (d.minors m).state
      then en_error_ack b m n.bind_req n.outstate 0 d
      else elim (bound_to d.minors sap 0 minors_max) [
        | some i ↦ en_error_ack b m n.bind_req 0 0 d
        | none ↦ answer 30 (bind sap) b m (bind_ack sap d.enaddr) d'
      ]

  unfoldable pub en_unbind : ℕ → Block → Dp → Dp
  en_unbind m b d =
      let d' = set_minor m (record (d.minors m) { state = unbound; sap = 0 }) d in
      if is_bound (d.minors m).state
      then answer 8 unbind b m (ok_ack n.unbind_req) d'
      else en_error_ack b m n.unbind_req n.outstate 0 d

  unfoldable pub en_info : ℕ → Block → Dp → Dp
  en_info m b d =
      let state = (d.minors m).state in
      answer 70 info b m (info_ack state (if is_bound state then some d.enaddr else none)) d

  unfoldable pub en_unitdata : ℕ → List ℕ → Blocks → Dp → Dp
  en_unitdata m dst payload d =
      let d' = loop_back m dst payload d in
      if not (is_bound (d.minors m).state)
      then put_up m (uderror_ind n.outstate) d
      else if granted d'
      then send m (header dst d.enaddr (d.minors m).sap ∷ payload) (asked d')
      else put_up m (uderror_ind n.undeliverable) (asked d')

  unfoldable pub en_proto : ℕ → Request → Block → Dp → Dp
  en_proto m r b d =
      let run : Request → Dp = λ r'. elim r' [
        | bind sap ↦ en_bind m sap b d
        | unbind ↦ en_unbind m b d
        | info ↦ en_info m b d
        | unitdata dst payload ↦ en_unitdata m dst payload d
        | unknown prim ↦ d
      ] in
      if d.running then run r else en_error_ack b m (primitive r) n.notinit 0 d

  -- `en_ioctl`: the answer carries the address in the six bytes of the request's block, or of a new one.
  unfoldable pub en_ioctl : ℕ → Ioctl → Dp → Dp
  en_ioctl m c d =
      if not (c.whole && not c.transparent && c.cmd == get_addr)
      then put_up m (ioc_nak none) d
      else if c.room == 6
      then put_up m (ioc_ack d.enaddr) d
      else if granted d
      then put_up m (ioc_ack d.enaddr) (asked d)
      else put_up m (ioc_nak (some n.enomem)) (asked d)

  -- `enwput`. What it flushes are the frames, and the read queue, where nothing ever waits.
  unfoldable pub enwput : ℕ → Down → Dp → Dp
  enwput m (proto r b) d = en_proto m r b d
  enwput m (ioctl c) d = en_ioctl m c d
  enwput m (flush write read) d =
      let d' = if write then set_minor m (record (d.minors m) { frames = [] }) d else d in
      if read then put_up m flushed d' else d'
  enwput m other d = d

unfoldable pub enrsrv : Dp → Dp
enrsrv d = with_scsi (λ s. dp_kick true (record s { rxwant = true })) d
