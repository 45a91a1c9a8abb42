-- ===== src/Dp/Streams.antt =====
-- driver-dp/dp.c, frames down to the adapter (`dp_xmit`, `en_wproc`) and up to the minors (`en_mkind`,
-- `en_send_up`, `en_rproc`).
use atari_sysv_sp.Base.{
  ℕ, zero, suc, ◌+◌, ◌-◌, ◌*◌, Bool, true, false, not, ◌&&◌, ◌||◌, Option, none, some, List, [],
  ◌∷◌, ◌++◌, ◌==◌, ltb, leb, if◌then◌else◌, get_or, take, drop, replicate, length,
}
use atari_sysv_sp.Base.Buffer.{slice}
use atari_sysv_sp.Dp.{Scsi, is_empty, dp_kick}

-- A message on its way down: the header block and the data blocks behind it.
abbrev pub Blocks : Type 0
Blocks = List (List ℕ)

-- DL_UNBOUND and DL_IDLE
pub data Dlpi : Type 0 where
  unbound bound : Dlpi

abbrev pub is_bound : Dlpi → Bool
is_bound unbound = false
is_bound bound = true

-- `opened` is whether min_rdq is set, `frames` the write queue.
pub record Minor : Type 0 where
  pub opened : Bool
  pub state : Dlpi
  pub sap : ℕ
  pub frames : List Blocks

abbrev pub minors_max : ℕ
minors_max = 8

-- What goes up to a module above.
pub data Message : Type 0 where
  unitdata_ind : List ℕ → List ℕ → Blocks → Message
  uderror_ind : ℕ → Message
  error_ack : ℕ → ℕ → ℕ → Message
  bind_ack : ℕ → List ℕ → Message
  ok_ack : ℕ → Message
  info_ack : Dlpi → Option (List ℕ) → Message
  ioc_ack : List ℕ → Message
  ioc_nak : Option ℕ → Message
  flushed : Message

pub record Counts : Type 0 where
  pub ipackets : ℕ
  pub ierrors : ℕ
  pub opackets : ℕ
  pub oerrors : ℕ

-- The driver: en_min, en_if, dp_pollq as a minor, dpjob as its target, and the SCSI half. `answers` are those of the coming
-- allocb() and canput(), yes when they run out; `sent_up` is what went up, with its minor.
pub record Dp : Type 0 where
  pub minors : ℕ → Minor
  pub pollq : Option ℕ
  pub job : Option ℕ
  pub running : Bool
  pub enaddr : List ℕ
  pub counts : Counts
  pub wqcnt : ℕ
  pub nextmin : ℕ
  pub answers : List Bool
  pub sent_up : List (ℕ × Message)
  pub scsi : Scsi

unfoldable pub granted : Dp → Bool
granted d = elim d.answers [ [] ↦ true | a ∷ as' ↦ a ]

unfoldable pub asked : Dp → Dp
asked d = record d { answers = drop 1 d.answers }

unfoldable pub set_minor : ℕ → Minor → Dp → Dp
set_minor m v d = record d { minors = λ i. if i == m then v else d.minors i }

unfoldable pub put_up : ℕ → Message → Dp → Dp
put_up m x d = record d { sent_up = d.sent_up ++ (m, x) ∷ [] }

unfoldable pub ierror : Dp → Dp
ierror d = record d { counts = record d.counts { ierrors = d.counts.ierrors + 1 } }

unfoldable pub oerror : Dp → Dp
oerror d = record d { counts = record d.counts { oerrors = d.counts.oerrors + 1 } }

-- `en_send_up`: dropped where the module above is full.
unfoldable pub en_send_up : ℕ → Message → Dp → Dp
en_send_up m x d = if granted d then put_up m x (asked d) else asked d

-- The minor that is bound to a type: the first of the loop.
unfoldable pub bound_to : (ℕ → Minor) → ℕ → ℕ → ℕ → Option ℕ
bound_to minors type i zero = none
bound_to minors type i (suc n) =
    let rest = bound_to minors type (i + 1) n in
    if (minors i).sap == type && is_bound (minors i).state then some i else rest

abbrev pub frame_type : List ℕ → ℕ
frame_type f = get_or f 12 0 * 256 + get_or f 13 0

-- A received frame goes to the minor that is bound to its type.
unfoldable pub en_rproc : List ℕ → Dp → Dp
en_rproc f d = elim (bound_to d.minors (frame_type f) 0 minors_max) [
  | none ↦ ierror d
  | some m ↦
      let x = unitdata_ind (take 6 f) (slice f 6 6) (drop 14 f ∷ []) in
      if not (d.minors m).opened
      then ierror d
      else if granted d
      then en_send_up m x (asked d)
      else asked d
]

-- The blocks in dptx, unless they are more than a frame.
unfoldable pub gather : ℕ → Blocks → Option (List ℕ)
gather len [] = some []
gather len (b ∷ bs) =
    let rest = gather (len + length b) bs in
    if ltb 1514 (len + length b) && not (length b == 0)
    then none
    else elim rest [ none ↦ none | some f ↦ some (b ++ f) ]

abbrev pub pad : List ℕ → List ℕ
pad f = f ++ replicate (60 - length f) 0

-- `dp_xmit`; true where the frame is taken, which a frame of no use is, too.
unfoldable pub dp_xmit : Blocks → Dp → Bool × Dp
dp_xmit m d =
    let stage : List ℕ → Dp =
      λ f. record d { scsi = dp_kick true (record d.scsi { tx = pad f }) } in
    if not (is_empty d.scsi.tx) || not d.scsi.up then (false, d) else (elim (gather 0 m) [
      | none ↦ (true, oerror d)
      | some f ↦ if ltb (length f) 14 then (true, oerror d) else (true, stage f)
    ])

unfoldable pub next_minor : ℕ → ℕ
next_minor m = if leb minors_max (m + 1) then 0 else m + 1

-- `en_wproc`: the minors' queues in turn, for so many tries.
unfoldable pub en_wproc : ℕ → Dp → Dp
en_wproc zero d = d
en_wproc (suc tries) d =
    let m = next_minor d.nextmin in
    let d1 = record d { nextmin = m } in
    let next = en_wproc tries d1 in
    if d.wqcnt == 0 then d else if not (d.minors m).opened then next else elim (d.minors m).frames [
      | [] ↦ next
      | f ∷ fs ↦
          let (taken, d2) = dp_xmit f d1 in
          let rest = en_wproc tries (
            set_minor m (record (d.minors m) { frames = fs })
              (record d2 { wqcnt = d2.wqcnt - 1 })) in
          if taken then rest else d2
    ]
