-- ===== src/Dp/Open.antt =====
-- driver-dp/dp.c, what opens and closes: the search of the bus (`dpfind`), the bring-up (`dp_linit`),
-- `enopen`. Dp/Close has what ends it. The bus is the table of targets;
-- what the commands of the bring-up return is the card's.
use atari_sysv_sp.Base.{
  ℕ, zero, suc, ◌+◌, Bool, true, false, not, ◌&&◌, ◌||◌, Option, none, some, List, [], ◌==◌, ltb,
  if◌then◌else◌, get_or, take, drop,
}
use atari_sysv_sp.Dp.{set_op, Scsi, start_head, dpstrategy}
use atari_sysv_sp.Dp.Streams.{unbound, Minor, minors_max, Dp, set_minor}

-- sj_badstart, dpSTART, and another driver's
pub data Start : Type 0 where
  bad mine foreign : Start

-- A target as the core inquired it.
pub record Job : Type 0 where
  pub dtype : ℕ
  pub inqdata : List ℕ
  pub startf : Start

abbrev pub Bus : Type 0
Bus = ℕ → Option Job

abbrev pub is_foreign : Start → Bool
is_foreign bad = false
is_foreign mine = false
is_foreign foreign = true

-- A processor whose vendor starts with "Day" and that no other driver has.
unfoldable pub is_dayna : Job → Bool
is_dayna j =
    j.dtype == 3
    && get_or j.inqdata 8 0 == 68
    && get_or j.inqdata 9 0 == 97
    && get_or j.inqdata 10 0 == 121
    && not (is_foreign j.startf)

unfoldable pub set_startf : ℕ → Start → Bus → Bus
set_startf t f bus i = elim (bus i) [
  | none ↦ none
  | some j ↦ some (if i == t then record j { startf = f } else j)
]

-- The loop over the n targets from t on.
unfoldable pub find_from : Bus → ℕ → ℕ → Option ℕ
find_from bus t zero = none
find_from bus t (suc n) =
    let rest = find_from bus (t + 1) n in
    elim (bus t) [ none ↦ rest | some j ↦ if is_dayna j then some t else rest ]

unfoldable pub dpfind : Bus → Option ℕ × Bus
dpfind bus = elim (find_from bus 0 8) [
  | none ↦ (none, bus)
  | some t ↦ (some t, set_startf t mine bus)
]

-- What the enable command returns, and what the two reads of each attempt bring.
pub record Card : Type 0 where
  pub enables : Bool
  pub reads : ℕ → ℕ → Option (List ℕ)

-- The end of a synchronous command, by the comment above `dpSTART`: the core takes it off the queue and
-- has what is behind it started.
unfoldable pub finish_head : Scsi → Scsi
finish_head s = start_head (record s { queue = drop 1 s.queue })

unfoldable pub dpcmd : ℕ → ℕ → ℕ → Scsi → Scsi
dpcmd op ctl count s = finish_head (dpstrategy (record { op = op; ctl = ctl; count = count }) s)

-- The attempts to read the address: 22 bytes, else 18; so many attempts more, and none is left at the end.
unfoldable pub read_mac : Card → ℕ → ℕ → Scsi → Option (List ℕ) × Scsi
read_mac c t zero s = (none, dpcmd set_op 0 0 s)
read_mac c t (suc n) s =
    let s1 = dpcmd 9 0 22 s in
    let s2 = dpcmd 9 0 18 s1 in
    let rest = read_mac c (t + 1) n s2 in
    elim (c.reads t 22) [
      | some mac ↦ (some mac, s1)
      | none ↦ elim (c.reads t 18) [ some mac ↦ (some mac, s2) | none ↦ rest ]
    ]

unfoldable pub bring_up : Card → ℕ → Dp → Dp
bring_up c now d =
    let s1 = dpcmd set_op 128 0 d.scsi in
    let (mac, s2) = read_mac c 0 101 s1 in
    if c.enables
    then elim mac [
      | none ↦ record d { scsi = s2 }
      | some a ↦ record d {
        enaddr = take 6 a;
        running = true;
        scsi = record s2 { idle = 0; reinit = 0; errs = 0; settle = now; up = true };
      }
    ]
    else record d { scsi = s1 }

unfoldable pub dp_linit : Card → ℕ → Bus → Dp → Bus × Dp
dp_linit c now bus d =
    let (found, bus') = dpfind bus in
    if d.running then (bus, d) else elim d.job [
      | some t ↦ (bus, bring_up c now d)
      | none ↦ elim found [
        | none ↦ (bus', d)
        | some t ↦ (bus', bring_up c now (record d { job = some t }))
      ]
    ]

-- How a queue is opened: MODOPEN, CLONEOPEN, or a minor by its number.
pub data Open : Type 0 where
  modopen cloneopen : Open
  minor : ℕ → Open

pub data Opened : Type 0 where
  failed : ℕ → Opened
  again : Opened
  opened_minor : ℕ → Opened

abbrev pub einval : ℕ
einval = 22

abbrev pub enospc : ℕ
enospc = 28

-- The first of the n minors from i on whose being open is `want`.
unfoldable pub first_minor : Bool → (ℕ → Minor) → ℕ → ℕ → Option ℕ
first_minor want minors i zero = none
first_minor want minors i (suc n) =
    let rest = first_minor want minors (i + 1) n in
    if want && (minors i).opened || not want && not (minors i).opened then some i else rest

abbrev pub in_range : ℕ → Option ℕ
in_range m = if ltb m minors_max then some m else none

abbrev pub no_poll : Option ℕ → Bool
no_poll none = true
no_poll (some q) = false

-- The minor's own reset; its queue is a new one.
unfoldable pub set_open : ℕ → Dp → Dp
set_open m d =
    set_minor m (record { opened = true; state = unbound; sap = 0; frames = [] })
      (record d { pollq = if no_poll d.pollq then some m else d.pollq })

-- `known` is whether the queue has its q_ptr already.
unfoldable pub enopen : Card → ℕ → Open → Bool → Bus → Dp → Opened × (Bus × Dp)
enopen c now o known bus d =
    let start : ℕ → Option ℕ → Opened × (Bus × Dp) = λ errno found. elim found [
      | none ↦ (failed errno, (bus, d))
      | some m ↦ let (bus', d') = dp_linit c now bus d in (opened_minor m, (bus', set_open m d'))
    ] in
    let opening : Opened × (Bus × Dp) = if known then (again, (bus, d)) else elim o [
      | modopen ↦ (failed einval, (bus, d))
      | cloneopen ↦ start enospc (first_minor false d.minors 0 minors_max)
      | minor m ↦ start einval (in_range m)
    ] in
    elim o [ modopen ↦ (failed einval, (bus, d)) | cloneopen ↦ opening | minor m ↦ opening ]
