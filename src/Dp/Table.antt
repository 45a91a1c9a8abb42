-- ===== src/Dp/Table.antt =====
-- driver-dp/dp.c, what holds of the whole driver between its steps and inside a completion.
use mathlib.Core.Path.{subst}
use atari_sysv_sp.Base.{
  ℕ, ◌≡◌, ◌≢◌, refl, sym, ◌∙◌, ap, Bool, true, false, Option-cases, not, ◌&&◌, inl, inr, none, List,
  [], leb, if◌then◌else◌, length,
}
use atari_sysv_sp.Dp.{Scsi, is_empty}
use atari_sysv_sp.Dp.Streams.{
  Message, Dp, granted, asked, put_up, ierror, oerror, en_send_up, bound_to, frame_type, en_rproc,
  minors_max,
}
use atari_sysv_sp.Dp.Done.{with_scsi, ipacket, opacket, take_frame}
use atari_sysv_sp.Dp.Rounds.{queue_of, IsSound, IsHeld}
use atari_sysv_sp.Dp.Queues.{total, AllFit}
use atari_sysv_sp.Dp.Saps.{IsOrdered}

-- The count is that of the frames that wait, each of them fits, and the interface runs with its address.
pub record IsTable (d : Dp) : Type 0 where
  pub ordered : IsOrdered d.minors d.pollq
  pub counted : d.wqcnt ≡ total d.minors 8
  pub fit : (i : ℕ) → AllFit (d.minors i).frames
  pub alive : d.running ≡ d.scsi.up
  pub addressed : d.running ≡ true → length d.enaddr ≡ 6

-- While frames wait, one is staged.
abbrev pub IsStaged : Dp → Type 0
IsStaged d = d.wqcnt ≢ 0 → is_empty d.scsi.tx ≡ false

-- Between the steps
pub record IsRunning (d : Dp) : Type 0 where
  pub table : IsTable d
  pub sound : IsSound d.scsi
  pub staged : IsStaged d

-- ... and inside a completion.
pub record IsMid (d : Dp) : Type 0 where
  pub mid_table : IsTable d
  pub mid_held : IsHeld d.scsi
  pub mid_staged : IsStaged d

-- The driver without its statistics, its memory and what went up.
unfoldable pub core : Dp → Dp
core d = record d {
  counts = record { ipackets = 0; ierrors = 0; opackets = 0; oerrors = 0 };
  job = none;
  nextmin = 0;
  answers = [];
  sent_up = [];
}

pub IsTable-core : {d d' : Dp} → IsTable d → core d' ≡ core d → IsTable d'
unfolding core
IsTable-core {d} {d'} w e =
    let c : IsTable (core d) = record {
      ordered = w.ordered;
      counted = w.counted;
      fit = w.fit;
      alive = w.alive;
      addressed = w.addressed;
    } in
    let c' = subst IsTable (sym e) c in
    record {
      ordered = c'.ordered;
      counted = c'.counted;
      fit = c'.fit;
      alive = c'.alive;
      addressed = c'.addressed;
    }

pub scsi-core : (d d' : Dp) → core d' ≡ core d → d'.scsi ≡ d.scsi
unfolding core
scsi-core d d' e = ap (λ x. x.scsi) e

pub wqcnt-core : (d d' : Dp) → core d' ≡ core d → d'.wqcnt ≡ d.wqcnt
unfolding core
wqcnt-core d d' e = ap (λ x. x.wqcnt) e

pub minors-core : (d d' : Dp) → core d' ≡ core d → d'.minors ≡ d.minors
unfolding core
minors-core d d' e = ap (λ x. x.minors) e

pub running_same : (d d' : Dp) → core d' ≡ core d → d'.running ≡ d.running
unfolding core
running_same d d' e = ap (λ x. x.running) e

pub IsMid-core : {d d' : Dp} → IsMid d → core d' ≡ core d → IsMid d'
unfolding core
IsMid-core {d} {d'} w e = record {
  mid_table = IsTable-core w.mid_table e;
  mid_held = subst IsHeld (ap (λ x. x.scsi) (sym e)) w.mid_held;
  mid_staged = subst IsStaged (sym e) w.mid_staged;
}

pub IsRunning-core : {d d' : Dp} → IsRunning d → core d' ≡ core d → IsRunning d'
unfolding core
IsRunning-core {d} {d'} w e = record {
  table = IsTable-core w.table e;
  sound = subst IsSound (ap (λ x. x.scsi) (sym e)) w.sound;
  staged = subst IsStaged (sym e) w.staged;
}

-- What goes up, and what is lost on the way, changes nothing else.
pub core-asked : (d : Dp) → core (asked d) ≡ core d
unfolding core asked
core-asked d = refl

pub core-answers : (answers : List Bool) (d : Dp) → core (record d { answers = answers }) ≡ core d
unfolding core
core-answers answers d = refl

pub core-put_up : (m : ℕ) (x : Message) (d : Dp) → core (put_up m x d) ≡ core d
unfolding core put_up
core-put_up m x d = refl

pub core-ierror : (d : Dp) → core (ierror d) ≡ core d
unfolding core ierror
core-ierror d = refl

pub core-oerror : (d : Dp) → core (oerror d) ≡ core d
unfolding core oerror
core-oerror d = refl

pub core-opacket : (d : Dp) → core (opacket d) ≡ core d
unfolding core opacket
core-opacket d = refl

core-ipacket : (d : Dp) → core (ipacket d) ≡ core d
unfolding core ipacket
core-ipacket d = refl

pub core-if :
    (b : Bool) (x y : Dp) {c : Dp} → core x ≡ c → core y ≡ c → core (if b then x else y) ≡ c
core-if true x y e f = e
core-if false x y e f = f

pub core-en_send_up : (m : ℕ) (x : Message) (d : Dp) → core (en_send_up m x d) ≡ core d
unfolding en_send_up
core-en_send_up m x d =
    core-if (granted d) _ _ (core-put_up m x (asked d) ∙ core-asked d) (core-asked d)

pub core-en_rproc : (f : List ℕ) (d : Dp) → core (en_rproc f d) ≡ core d
unfolding en_rproc
core-en_rproc f d = elim (Option-cases (bound_to d.minors (frame_type f) 0 minors_max)) [
  | inl e ↦ rw (en_rproc, e) (core-ierror d)
  | inr (m, e) ↦
      rw (en_rproc, e)
        (core-if (not (d.minors m).opened) _ _ (core-ierror d)
          (core-if (granted d) _ _ (core-en_send_up m _ (asked d) ∙ core-asked d) (core-asked d)))
]

pub core-take_frame : (rx : List ℕ) (h n : ℕ) (d : Dp) → core (take_frame rx h n d) ≡ core d
unfolding take_frame
core-take_frame rx h n d =
    core-if (leb 18 n && granted d) _ _
      (core-en_rproc _ (ipacket (asked d)) ∙ core-ipacket (asked d) ∙ core-asked d)
      (core-ierror _ ∙ core-if (leb 18 n) _ _ (core-asked d) refl)

-- A change of the SCSI half's other variables.
pub record Same (s s' : Scsi) : Type 0 where
  pub up_same : s'.up ≡ s.up
  pub busy_same : s'.busy ≡ s.busy
  pub tx_same : s'.tx ≡ s.tx
  pub active_same : s'.active ≡ s.active
  pub queue_same : s'.queue ≡ s.queue
  pub done_same : s'.done ≡ s.done

pub IsMid-with_scsi :
    (f : Scsi → Scsi) (d : Dp) → Same d.scsi (f d.scsi) → IsMid d → IsMid (with_scsi f d)
unfolding with_scsi
IsMid-with_scsi f d s w = record {
  mid_table = record {
    ordered = w.mid_table.ordered;
    counted = w.mid_table.counted;
    fit = w.mid_table.fit;
    alive = w.mid_table.alive ∙ sym s.up_same;
    addressed = w.mid_table.addressed;
  };
  mid_held = record {
    held_queued = s.queue_same ∙ w.mid_held.held_queued ∙ ap queue_of (sym s.busy_same);
    held = s.active_same ∙ w.mid_held.held;
    held_up = s.up_same ∙ w.mid_held.held_up;
    held_undone = λ b. s.done_same ∙ w.mid_held.held_undone (sym s.busy_same ∙ b);
  };
  mid_staged = λ n. ap is_empty s.tx_same ∙ w.mid_staged n;
}
