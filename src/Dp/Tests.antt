-- ===== src/Dp/Tests.antt =====
-- The network driver at a concrete adapter.
use atari_sysv_sp.Base.{
  ℕ, ◌-◌, ◌≤◌, ◌≡◌, refl, sym, ap, true, false, Option, none, some, inr, List, [], ◌∷◌, ◌++◌, ◌==◌,
  ◌/◌, ◌%◌, take, drop, replicate, if◌then◌else◌, length, arith,
}
use atari_sysv_sp.Dp.{
  rx_ask, tx_op, async, is_empty, due, enqueue, command_of, start_head, dp_kick, dpstrategy,
}
use atari_sysv_sp.Dp.Streams.{
  unbound, is_bound, Dp, minors_max, set_minor, granted, asked, put_up, bound_to, gather, dp_xmit,
  unitdata_ind, en_rproc,
}
use atari_sysv_sp.Dp.Done.{with_scsi, dp_async_done, complete}
use atari_sysv_sp.Dp.Proto.{
  bind, unitdata, Block, Down, proto, Numbers, can_reuse, en_reuse, is_broadcast, loop_back, send,
  header, answer, en_bind, en_unitdata, en_proto, enwput,
}
use atari_sysv_sp.Dp.Open.{
  Bus, bad, Card, find_from, dpfind, finish_head, dpcmd, read_mac, bring_up, dp_linit, cloneopen,
  first_minor, set_open, enopen, is_dayna,
}
use atari_sysv_sp.Dp.Queues.{total}
use atari_sysv_sp.Dp.Sends.{size}
use atari_sysv_sp.Dp.Bringup.{IsCard}
use atari_sysv_sp.Dp.Life.{IsFresh, Run, began, opened, wrote, answered}
use atari_sysv_sp.Dp.Promises.{Run-Waits, Run-Goes, Run-Apart, en_rproc_lem}
use atari_sysv_sp.Dp.Drains.{complete-wqcnt}
use atari_sysv_sp.Dp.Unload.{Search, dpfind_lem}
use atari_sysv_sp.Dp.Receive.{Packet, IsPacket, packed, deliver, rx_done_lem}
use atari_sysv_sp.Dp.Close.{enclose}
use atari_sysv_sp.Base.Buffer.{slice}

abbrev fresh : Dp
fresh = record {
  minors = λ i. record { opened = false; state = unbound; sap = 0; frames = [] };
  pollq = none;
  job = none;
  running = false;
  enaddr = [];
  counts = record { ipackets = 0; ierrors = 0; opackets = 0; oerrors = 0 };
  wqcnt = 0;
  nextmin = 0;
  answers = [];
  sent_up = [];
  scsi = record {
    up = false;
    busy = false;
    tx = [];
    rxwant = false;
    idle = 0;
    reinit = 0;
    errs = 0;
    settle = 0;
    flight = record { op = 0; ctl = 0; count = 0 };
    done = none;
    queue = [];
    active = false;
    issued = [];
  };
}

abbrev inquiry : List ℕ
inquiry =
    3 ∷ 0 ∷ 1 ∷ 0 ∷ 31 ∷ 0 ∷ 0 ∷ 0 ∷ 68 ∷ 97 ∷ 121 ∷ 110 ∷ 97 ∷ 32 ∷ 32 ∷ 32 ∷ 83 ∷ 67 ∷ 83 ∷ 73
    ∷ 47 ∷ 76 ∷ 105 ∷ 110 ∷ 107 ∷ []

-- The adapter at id 4.
abbrev bus : Bus
bus t = if t == 4 then some (record { dtype = 3; inqdata = inquiry; startf = bad }) else none

abbrev card : Card
card = record { enables = true; reads = λ t n. some (0 ∷ 128 ∷ 25 ∷ 1 ∷ 2 ∷ 3 ∷ []) }

card-IsCard : IsCard card
card-IsCard t n a e = omega (arith, sym (ap size_of e))
  where
    size_of : Option (List ℕ) → ℕ
    size_of none = 0
    size_of (some x) = length x

abbrev numbers : Numbers
numbers = record {
  bind_req = 1;
  unbind_req = 2;
  info_req = 0;
  unitdata_req = 7;
  notinit = 8;
  outstate = 3;
  syserr = 4;
  undeliverable = 10;
  enomem = 12;
}

fresh-IsFresh : IsFresh fresh
fresh-IsFresh = record {
  no_minor = λ i. (refl, refl, refl);
  no_poll_yet = refl;
  not_running = refl;
  none_waits = refl;
  none_staged = refl;
  is_down = refl;
  is_idle = refl;
  none_queued = refl;
  core_rests = refl;
}

abbrev block : Block
block = record { size = 64; shared = false }

abbrev ping : Down
ping = proto (unitdata (1 ∷ 2 ∷ 3 ∷ 4 ∷ 5 ∷ 6 ∷ []) ((7 ∷ 8 ∷ []) ∷ [])) block

-- Opened, bound to IP, and one frame sent, and another.
abbrev up : Dp
up = (enopen card 0 cloneopen false bus fresh).1.1

abbrev ip : Dp
ip = enwput numbers 0 (proto (bind 2048) block) up

abbrev one : Dp
one = enwput numbers 0 ping ip

abbrev two : Dp
two = enwput numbers 0 ping one

up-Run : Run 100 numbers up
up-Run = opened card 0 cloneopen bus card-IsCard (began fresh-IsFresh) tt

up-opened : (up.minors 0).opened ≡ true
unfolding enopen first_minor dp_linit set_open set_minor
up-opened = refl

ip-Run : Run 100 numbers ip
ip-Run = wrote 0 (proto (bind 2048) block) up-Run (omega arith) up-opened tt

ip-opened : (ip.minors 0).opened ≡ true
unfolding enopen first_minor dp_linit dpfind find_from is_dayna bring_up read_mac dpcmd dpstrategy
    finish_head start_head command_of set_open set_minor enwput en_proto en_bind bound_to answer
    can_reuse en_reuse put_up
ip-opened = refl

one-Run : Run 100 numbers one
unfolding size
one-Run = wrote 0 ping ip-Run (omega arith) ip-opened (refl, omega arith)

one-opened : (one.minors 0).opened ≡ true
unfolding enopen first_minor dp_linit dpfind find_from is_dayna bring_up read_mac dpcmd dpstrategy
    finish_head start_head command_of set_open set_minor enwput en_proto en_bind bound_to answer
    can_reuse en_reuse put_up en_unitdata loop_back is_broadcast granted asked header send gather
    dp_xmit dp_kick due enqueue
one-opened = refl

two-Run : Run 100 numbers two
unfolding size
two-Run = wrote 0 ping one-Run (omega arith) one-opened (refl, omega arith)

two-waits : total two.minors minors_max ≡ 1
unfolding enopen first_minor dp_linit dpfind find_from is_dayna bring_up read_mac dpcmd dpstrategy
    finish_head start_head command_of set_open set_minor enwput en_proto en_bind bound_to answer
    can_reuse en_reuse put_up en_unitdata loop_back is_broadcast granted asked header send gather
    dp_xmit dp_kick due enqueue total
two-waits = refl

Run-Waits_example :
    (is_empty two.scsi.tx ≡ false) × (two.scsi.queue ≡ async ∷ []) × (two.scsi.active ≡ true)
Run-Waits_example = Run-Waits 100 numbers two-Run (λ z. omega (arith, z, two-waits))

two-up : (two.scsi.up ≡ true) × (two.scsi.busy ≡ true) × (two.scsi.flight.op ≡ tx_op)
unfolding enopen first_minor dp_linit dpfind find_from is_dayna bring_up read_mac dpcmd dpstrategy
    finish_head start_head command_of set_open set_minor enwput en_proto en_bind bound_to answer
    can_reuse en_reuse put_up en_unitdata loop_back is_broadcast granted asked header send gather
    dp_xmit dp_kick due enqueue
two-up = (refl, refl, refl)

two-staged : is_empty two.scsi.tx ≡ false
unfolding enopen first_minor dp_linit dpfind find_from is_dayna bring_up read_mac dpcmd dpstrategy
    finish_head start_head command_of set_open set_minor enwput en_proto en_bind bound_to answer
    can_reuse en_reuse put_up en_unitdata loop_back is_broadcast granted asked header send gather
    dp_xmit dp_kick due enqueue
two-staged = refl

Run-Goes_example :
    (two.scsi.busy ≡ true)
    × (two.scsi.queue ≡ async ∷ [])
    × (two.scsi.active ≡ true)
    × (two.scsi.done ≡ none)
Run-Goes_example =
    Run-Goes 100 numbers two-Run two-up.0
      (inr (λ e. let x = ap is_empty e in let y = two-staged in cc))

complete-wqcnt_example :
    (total (complete 100 7 false [] two).minors minors_max ≡ total two.minors minors_max - 1)
    × ((complete 100 7 false [] two).wqcnt ≡ two.wqcnt - 1)
complete-wqcnt_example = complete-wqcnt 100 7 numbers false [] two-Run two-up.1 two-up.2

ip-bound : (is_bound (ip.minors 0).state ≡ true) × ((ip.minors 0).sap ≡ 2048)
unfolding enopen first_minor dp_linit dpfind find_from is_dayna bring_up read_mac dpcmd dpstrategy
    finish_head start_head command_of set_open set_minor enwput en_proto en_bind bound_to answer
    can_reuse en_reuse put_up
ip-bound = (refl, refl)

abbrev ip_minor : ℕ
ip_minor = 0

Run-Apart_example : ip_minor ≡ 0
Run-Apart_example =
    Run-Apart 100 numbers ip-Run ip_minor 0 (omega arith) (omega arith) ip-bound.0 ip-bound.0 refl

abbrev ready : Dp
ready = record ip { answers = true ∷ true ∷ [] }

-- An IP frame of four bytes.
abbrev received : List ℕ
received = 0 ∷ 128 ∷ 25 ∷ 1 ∷ 2 ∷ 3 ∷ 0 ∷ 1 ∷ 2 ∷ 3 ∷ 4 ∷ 5 ∷ 8 ∷ 0 ∷ 9 ∷ 8 ∷ 7 ∷ 6 ∷ []

en_rproc_example :
    en_rproc received ready
    ≡ put_up 0
        (unitdata_ind (take 6 received) (slice received 6 6) (drop 14 received ∷ []))
        (record ready { answers = [] })
en_rproc_example =
    en_rproc_lem 100 numbers (answered (true ∷ true ∷ []) ip-Run) 0 received [] (omega arith)
      ip-bound.0 ip-bound.1 refl

abbrev shut : Dp
shut = enclose 0 up

dpfind_example : Search bus 0 8 (dpfind bus).0
dpfind_example = dpfind_lem bus

-- A frame of 60 bytes as the adapter packs it, another behind it.
abbrev frame_of : ℕ → Packet
frame_of marks = record {
  a = 0;
  b = 0;
  c = 0;
  marks = marks;
  frame = replicate 60 1;
  crc = 1 ∷ 2 ∷ 3 ∷ 4 ∷ [];
}

frame-IsPacket : (marks : ℕ) → IsPacket (marks / 16 % 2 == 1) (frame_of marks)
frame-IsPacket marks = record {
  whole = omega arith;
  fits = omega arith;
  crc_in = refl;
  marked = refl;
  sound = refl;
}

abbrev receiving : Dp
receiving = record fresh {
  scsi = record fresh.scsi { flight = record { op = 8; ctl = 192; count = 3072 } };
}

packed_short : length (packed (frame_of 16 ∷ frame_of 0 ∷ [])) ≤ rx_ask
unfolding packed
packed_short = omega arith

rx_done_example :
    dp_async_done 100 7 false (packed (frame_of 16 ∷ frame_of 0 ∷ []) ++ []) receiving
    ≡ with_scsi
        (λ s. dp_kick false (record s { idle = 0 }))
        (deliver
          (frame_of 16 ∷ frame_of 0 ∷ [])
          (with_scsi (λ s. record s { busy = false; errs = 0 }) receiving))
rx_done_example =
    rx_done_lem 100 7 (frame_of 16) (frame_of 0 ∷ []) [] receiving refl
      (frame-IsPacket 16, (frame-IsPacket 0, tt)) packed_short
