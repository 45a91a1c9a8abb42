-- ===== src/Dp/Drains.antt =====
-- driver-dp/dp.c, the count of waiting frames at the end of a transmit command.
use mathlib.Core.Path.{subst}
use atari_sysv_sp.Base.{
  ℕ, ◌-◌, ◌*◌, ◌≡◌, refl, sym, ◌∙◌, ap, Bool, true, false, Bool-cases, inl, inr, some, List, [],
  ◌==◌, if◌then◌else◌, if_true, if_false, arith,
}
use atari_sysv_sp.Dp.{set_op, tx_op}
use atari_sysv_sp.Dp.Streams.{set_minor, Dp, minors_max, oerror, en_wproc}
use atari_sysv_sp.Dp.Done.{with_scsi, opacket, count_errs, tx_done, dp_async_done, complete}
use atari_sysv_sp.Dp.Proto.{Numbers}
use atari_sysv_sp.Dp.Rounds.{IsHeld}
use atari_sysv_sp.Dp.Queues.{total, stage}
use atari_sysv_sp.Dp.Queues.Wproc.{Turn, none_found, sent, en_wproc_lem}
use atari_sysv_sp.Dp.Table.{
  IsTable, IsMid, core, scsi-core, wqcnt-core, IsTable-core, core-if, core-oerror, core-opacket,
  IsMid-with_scsi,
}
use atari_sysv_sp.Dp.Turns.{all_visited}
use atari_sysv_sp.Dp.Finish.{
  cleared-IsTable, cleared-IsHeld, taken-IsMid, count_errs-Same, complete-busy,
}
use atari_sysv_sp.Dp.Life.{Run, completed, Run-IsRunning}

-- A search takes a frame where one waits.
turn-wqcnt : (d d' : Dp) → IsTable d → Turn (2 * minors_max) d d' → d'.wqcnt ≡ d.wqcnt - 1
unfolding stage set_minor
turn-wqcnt d d' w (none_found k (inl z)) = omega (arith, z)
turn-wqcnt d d' w (none_found k (inr h)) = omega (arith, all_visited d w h)
turn-wqcnt d d' w (sent m k f fs x l c v) = refl

-- ... and a transmit command's end does.
wproc-wqcnt :
    (d : Dp)
    → IsTable d
    → IsHeld d.scsi
    → d.scsi.tx ≡ []
    → (if d.wqcnt == 0 then d else en_wproc (2 * minors_max) d).wqcnt ≡ d.wqcnt - 1
wproc-wqcnt d w v t =
    let count : Dp → ℕ = λ x. x.wqcnt in
    elim (Bool-cases (d.wqcnt == 0)) [
      | inl z ↦
          ap count (if_true d (en_wproc (2 * minors_max) d) z)
          ∙ (let none_waits : d.wqcnt ≡ 0 = ground (arith, z) in omega (arith, none_waits))
      | inr f ↦
          ap count (if_false d (en_wproc (2 * minors_max) d) f)
          ∙ turn-wqcnt d _ w
              (en_wproc_lem (2 * minors_max) d t v.held_up (λ i o. (w.ordered.shut i o).1) w.fit)
    ]

tx_done-wqcnt : (err : Bool) (d : Dp) → IsMid d → (tx_done err d).wqcnt ≡ d.wqcnt - 1
unfolding tx_done with_scsi
tx_done-wqcnt err d w =
    let d1 = with_scsi (λ s. record s { tx = [] }) d in
    let d2 = if err then oerror d1 else opacket d1 in
    let e : core d2 ≡ core d1 =
      core-if err (oerror d1) (opacket d1) (core-oerror d1) (core-opacket d1) in
    wproc-wqcnt d2 (IsTable-core (cleared-IsTable d w) e)
      (subst IsHeld (sym (scsi-core d1 d2 e)) (cleared-IsHeld d w))
      (ap (λ x. x.tx) (scsi-core d1 d2 e))
    ∙ ap (λ k. k - 1) (wqcnt-core d1 d2 e)

wqcnt_lem :
    (hz now : ℕ) (n : Numbers) (err : Bool) (rx : List ℕ) {d : Dp}
    → Run hz n d
    → d.scsi.busy ≡ true
    → d.scsi.flight.op ≡ tx_op
    → (complete hz now err rx d).wqcnt ≡ d.wqcnt - 1
unfolding dp_async_done with_scsi
wqcnt_lem hz now n err rx {d} r b op =
    let count : Dp → ℕ = λ x. x.wqcnt in
    let w = Run-IsRunning hz n r in
    let d1 = with_scsi (λ s. record s { busy = false; queue = []; done = some err }) d in
    let d2 = with_scsi (count_errs now err) d1 in
    let w2 =
      IsMid-with_scsi (count_errs now err) d1 (count_errs-Same now err d1.scsi)
        (taken-IsMid d (some err) w b) in
    let no_set : (d.scsi.flight.op == set_op) ≡ false = ground (arith, op) in
    let is_tx : (d.scsi.flight.op == tx_op) ≡ true = ground (arith, op) in
    ap count (complete-busy hz now err rx d w b)
    ∙ ap count (if_false _ _ no_set ∙ if_true (tx_done err d2) _ is_tx)
    ∙ tx_done-wqcnt err d2 w2

-- In every state of a run with a transmit command in flight, the command's end, with an error or without,
-- takes exactly one frame off the write queues, if one waits there, and one off their count. (In the run
-- no message flushes a write queue or sends more than 1500 bytes of data or to an address that is not six
-- bytes; the adapter's address has six bytes or more; and a minor that is opened by its number is not
-- open.)
pub complete-wqcnt :
    (hz now : ℕ) (n : Numbers) (err : Bool) (rx : List ℕ) {d : Dp}
    → Run hz n d
    → d.scsi.busy ≡ true
    → d.scsi.flight.op ≡ tx_op
    → (total (complete hz now err rx d).minors minors_max ≡ total d.minors minors_max - 1)
      × ((complete hz now err rx d).wqcnt ≡ d.wqcnt - 1)
complete-wqcnt hz now n err rx {d} r b op =
    let one = wqcnt_lem hz now n err rx r b op in
    let before : d.wqcnt ≡ total d.minors minors_max = (Run-IsRunning hz n r).table.counted in
    let after : (complete hz now err rx d).wqcnt
        ≡ total (complete hz now err rx d).minors minors_max =
      (Run-IsRunning hz n (completed now err rx r)).table.counted in
    (omega (arith, one, before, after), one)
