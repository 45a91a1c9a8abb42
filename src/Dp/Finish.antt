-- ===== src/Dp/Finish.antt =====
-- driver-dp/dp.c, a whole completion (`complete`, `dp_async_done`) on the whole driver.
use mathlib.Core.Path.{subst}
use atari_sysv_sp.Base.{
  ℕ, zero, suc, ◌+◌, ◌*◌, ◌≡◌, refl, sym, ◌∙◌, ap, Bool, true, false, Bool-cases, ◌&&◌, ◌||◌, inl,
  inr, Option, some, List, [], ◌∷◌, ◌==◌, ltb, leb, if◌then◌else◌, if_true, arith,
}
use atari_sysv_sp.Dp.{Buf, async, sync, Scsi, is_empty, rx_ask, set_op, tx_op, dp_kick, start_head}
use atari_sysv_sp.Dp.Streams.{Dp, oerror, minors_max, en_wproc}
use atari_sysv_sp.Dp.Done.{
  with_scsi, opacket, frame_length, is_wedged, has_more, take_frame, receive, count_errs,
  reinit_done, tx_done, after_receive, rx_done, rx_failed, dp_async_done, dp_start, complete,
}
use atari_sysv_sp.Dp.Rounds.{queue_of, IsHeld, dp_kick-Keeps, start_head-Keeps, done-IsSound}
use atari_sysv_sp.Dp.Table.{
  IsTable, IsRunning, IsMid, Same, core-ierror, core-oerror, core-opacket, core-if, core-take_frame,
  IsMid-core, IsTable-core, scsi-core, core, IsMid-with_scsi,
}
use atari_sysv_sp.Dp.Turns.{en_wproc-IsMid}

Same-but :
    (s : Scsi) (rxwant : Bool) (idle reinit errs settle : ℕ)
    → Same s
        (record s { rxwant = rxwant; idle = idle; reinit = reinit; errs = errs; settle = settle })
Same-but s rxwant idle reinit errs settle = record {
  up_same = refl;
  busy_same = refl;
  tx_same = refl;
  active_same = refl;
  queue_same = refl;
  done_same = refl;
}

Same-if : (b : Bool) {s : Scsi} (x y : Scsi) → Same s x → Same s y → Same s (if b then x else y)
Same-if true x y p q = p
Same-if false x y p q = q

IsMid-if : (b : Bool) (x y : Dp) → IsMid x → IsMid y → IsMid (if b then x else y)
IsMid-if true x y p q = p
IsMid-if false x y p q = q

IsMid-if_pair : (b : Bool) (x y : ℕ × Dp) → IsMid x.1 → IsMid y.1 → IsMid (if b then x else y).1
IsMid-if_pair true x y p q = p
IsMid-if_pair false x y p q = q

pub count_errs-Same : (now : ℕ) (err : Bool) (s : Scsi) → Same s (count_errs now err s)
unfolding count_errs
count_errs-Same now err s =
    Same-if _ _ _ (Same-but s s.rxwant s.idle 2 _ s.settle)
      (Same-but s s.rxwant s.idle s.reinit _ s.settle)

reinit_done-Same : (hz now : ℕ) (s : Scsi) → Same s (reinit_done hz now s)
unfolding reinit_done
reinit_done-Same hz now s =
    Same-if _ _ _ (Same-but s s.rxwant s.idle 0 0 _) (Same-but s s.rxwant s.idle _ s.errs s.settle)

after_receive-Same : (got : ℕ) (s : Scsi) → Same s (after_receive got s)
unfolding after_receive
after_receive-Same got s = Same-if _ _ _ (Same-but s s.rxwant 0 s.reinit s.errs s.settle) (
    Same-if _ _ _ (Same-but s false _ s.reinit s.errs s.settle)
      (Same-but s s.rxwant s.idle s.reinit s.errs s.settle))

receive-IsMid :
    (fuel : ℕ) (rx : List ℕ) (h got : ℕ) (d : Dp) → IsMid d → IsMid (receive fuel rx h got d).1
unfolding receive
receive-IsMid zero rx h got d w = w
receive-IsMid (suc fuel) rx h got d w =
    let n = frame_length rx h in
    let taken = IsMid-core w (core-take_frame rx h n d) in
    let s = d.scsi in
    IsMid-if_pair (is_wedged rx h) _ _
      (IsMid-core
        (IsMid-with_scsi (λ x. record x { rxwant = false; reinit = 2 }) d
          (Same-but s false s.idle 2 s.errs s.settle) w)
        (core-ierror _))
      (IsMid-if_pair (n == 0 || ltb 1524 n) _ _ w (
        IsMid-if_pair (has_more rx h && leb (h + (6 + n) + 6) rx_ask) _ _
          (receive-IsMid fuel rx (h + (6 + n)) (got + 1) (take_frame rx h n d) taken) taken))

rx_done-IsMid : (rx : List ℕ) (d : Dp) → IsMid d → IsMid (rx_done rx d)
unfolding rx_done
rx_done-IsMid rx d w =
    let r = receive rx_ask rx 0 0 d in
    IsMid-with_scsi (after_receive r.0) r.1 (after_receive-Same r.0 r.1.scsi)
      (receive-IsMid rx_ask rx 0 0 d w)

rx_failed-IsMid : (d : Dp) → IsMid d → IsMid (rx_failed d)
unfolding rx_failed
rx_failed-IsMid d w =
    let s = d.scsi in
    IsMid-core
      (IsMid-with_scsi (λ x. record x { rxwant = false }) d
        (Same-but s false s.idle s.reinit s.errs s.settle) w)
      (core-ierror _)

-- The staged frame is gone, and the next one is looked for.
wproc-IsMid :
    (d : Dp)
    → IsTable d
    → IsHeld d.scsi
    → d.scsi.tx ≡ []
    → IsMid (if d.wqcnt == 0 then d else en_wproc (2 * minors_max) d)
wproc-IsMid d w v t = elim (Bool-cases (d.wqcnt == 0)) [
  | inl z ↦
      rw z
        (record { mid_table = w; mid_held = v; mid_staged = λ n. absurd (n (ground (arith, z))) })
  | inr n ↦ rw n (en_wproc-IsMid d w v t)
]

pub cleared-IsTable : (d : Dp) → IsMid d → IsTable (with_scsi (λ s. record s { tx = [] }) d)
unfolding with_scsi
cleared-IsTable d w =
    let t = w.mid_table in
    record {
      ordered = t.ordered;
      counted = t.counted;
      fit = t.fit;
      alive = t.alive;
      addressed = t.addressed;
    }

pub cleared-IsHeld : (d : Dp) → IsMid d → IsHeld (with_scsi (λ s. record s { tx = [] }) d).scsi
unfolding with_scsi
cleared-IsHeld d w =
    let v = w.mid_held in
    record {
      held_queued = v.held_queued;
      held = v.held;
      held_up = v.held_up;
      held_undone = v.held_undone;
    }

tx_done-IsMid : (err : Bool) (d : Dp) → IsMid d → IsMid (tx_done err d)
unfolding tx_done with_scsi
tx_done-IsMid err d w =
    let d1 = with_scsi (λ s. record s { tx = [] }) d in
    let d2 = if err then oerror d1 else opacket d1 in
    let e : core d2 ≡ core d1 =
      core-if err (oerror d1) (opacket d1) (core-oerror d1) (core-opacket d1) in
    let d3 = if d2.wqcnt == 0 then d2 else en_wproc (2 * minors_max) d2 in
    IsMid-with_scsi (λ s. record s { rxwant = true }) d3
      (Same-but d3.scsi true d3.scsi.idle d3.scsi.reinit d3.scsi.errs d3.scsi.settle)
      (wproc-IsMid d2 (IsTable-core (cleared-IsTable d w) e)
        (subst IsHeld (sym (scsi-core d1 d2 e)) (cleared-IsHeld d w))
        (ap (λ x. x.tx) (scsi-core d1 d2 e)))

-- The end of a completion: what is due is queued, and the head is started.
finish-IsRunning :
    (d : Dp) → IsMid d → IsRunning (with_scsi start_head (with_scsi (dp_kick false) d))
unfolding with_scsi
finish-IsRunning d w =
    let (tx, up) = dp_kick-Keeps false d.scsi in
    let (tx', up') = start_head-Keeps (dp_kick false d.scsi) in
    let t = w.mid_table in
    record {
      table = record {
        ordered = t.ordered;
        counted = t.counted;
        fit = t.fit;
        alive = t.alive ∙ sym (up' ∙ up);
        addressed = t.addressed;
      };
      sound = done-IsSound d.scsi w.mid_held;
      staged = λ n. ap is_empty (tx' ∙ tx) ∙ w.mid_staged n;
    }

async_done-IsRunning :
    (hz now : ℕ) (err : Bool) (rx : List ℕ) (d : Dp)
    → IsMid (with_scsi (λ s. record s { busy = false }) d)
    → IsRunning (with_scsi start_head (dp_async_done hz now err rx d))
unfolding dp_async_done
async_done-IsRunning hz now err rx d w =
    let d1 = with_scsi (λ s. record s { busy = false }) d in
    let d2 = with_scsi (count_errs now err) d1 in
    let w2 = IsMid-with_scsi (count_errs now err) d1 (count_errs-Same now err d1.scsi) w in
    finish-IsRunning _ (
      IsMid-if (d.scsi.flight.op == set_op) _ _
        (IsMid-with_scsi (reinit_done hz now) d1 (reinit_done-Same hz now d1.scsi) w)
        (IsMid-if (d.scsi.flight.op == tx_op) _ _ (tx_done-IsMid err d2 w2)
          (IsMid-if err _ _ (rx_failed-IsMid d2 w2) (rx_done-IsMid rx d2 w2))))

-- The completed command is taken off the queue.
pub taken-IsMid :
    (d : Dp) (ends : Option Bool)
    → IsRunning d
    → d.scsi.busy ≡ true
    → IsMid (with_scsi (λ s. record s { busy = false; queue = []; done = ends }) d)
unfolding with_scsi
taken-IsMid d ends w b =
    let t = w.table in
    record {
      mid_table = record {
        ordered = t.ordered;
        counted = t.counted;
        fit = t.fit;
        alive = t.alive;
        addressed = t.addressed;
      };
      mid_held = record {
        held_queued = refl;
        held = w.sound.head ∙ b;
        held_up = elim (Bool-cases d.scsi.up) [
          | inl u ↦ u
          | inr f ↦ absurd (let q = (w.sound.still f).1 in cc)
        ];
        held_undone = λ h. absurd cc;
      };
      mid_staged = w.staged;
    }

-- `complete`, with the queue as an argument.
ended : ℕ → ℕ → Bool → List ℕ → Dp → List Buf → Dp
ended hz now err rx d [] = d
ended hz now err rx d (x ∷ xs) =
    let done : Option Bool = elim x [ async ↦ some err | sync c ↦ d.scsi.done ] in
    dp_start hz now rx (with_scsi (λ s. record s { queue = xs; done = done }) d)

-- What a completion is while dpabuf is queued.
pub complete-busy :
    (hz now : ℕ) (err : Bool) (rx : List ℕ) (d : Dp)
    → IsRunning d
    → d.scsi.busy ≡ true
    → complete hz now err rx d
      ≡ with_scsi start_head (
          dp_async_done hz now err rx (with_scsi (λ s. record s { queue = []; done = some err }) d))
unfolding complete dp_start with_scsi ended
complete-busy hz now err rx d w b =
    let d0 = with_scsi (λ s. record s { queue = []; done = some err }) d in
    ap (ended hz now err rx d) (w.sound.queued ∙ ap queue_of b)
    ∙ ap (with_scsi start_head) (if_true (dp_async_done hz now err rx d0) d0 b)

-- ... and while nothing is.
pub complete-idle :
    (hz now : ℕ) (err : Bool) (rx : List ℕ) (d : Dp)
    → IsRunning d
    → d.scsi.busy ≡ false
    → complete hz now err rx d ≡ d
unfolding complete ended
complete-idle hz now err rx d w f = ap (ended hz now err rx d) (w.sound.queued ∙ ap queue_of f)

pub complete-IsRunning :
    (hz now : ℕ) (err : Bool) (rx : List ℕ) (d : Dp)
    → IsRunning d
    → IsRunning (complete hz now err rx d)
unfolding with_scsi
complete-IsRunning hz now err rx d w = elim (Bool-cases d.scsi.busy) [
  | inr f ↦ subst IsRunning (sym (complete-idle hz now err rx d w f)) w
  | inl b ↦
      let d0 = with_scsi (λ s. record s { queue = []; done = some err }) d in
      subst IsRunning (sym (complete-busy hz now err rx d w b))
        (async_done-IsRunning hz now err rx d0 (taken-IsMid d (some err) w b))
]
