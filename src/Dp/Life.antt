-- ===== src/Dp/Life.antt =====
-- driver-dp/dp.c, the driver's life as steps: minors opened and closed, messages on their queues, the
-- poll's service procedure, and the ends of commands, with the answers of the kernel in between.
use mathlib.Core.Path.{subst}
use atari_sysv_sp.Base.{ℕ, ◌<◌, ◌≡◌, sym, ◌∙◌, ap, Bool, true, false, none, List, []}
use atari_sysv_sp.Dp.{is_empty}
use atari_sysv_sp.Dp.Streams.{is_bound, Dp}
use atari_sysv_sp.Dp.Done.{with_scsi, complete}
use atari_sysv_sp.Dp.Proto.{Down, Numbers, enwput, enrsrv}
use atari_sysv_sp.Dp.Open.{Bus, Card, Open, enopen}
use atari_sysv_sp.Dp.Close.{enclose}
use atari_sysv_sp.Dp.Rounds.{queue_of, dp_kick-IsSound, dp_kick-Keeps}
use atari_sysv_sp.Dp.Queues.{AllFit, total-empty}
use atari_sysv_sp.Dp.Table.{IsRunning, core-answers, IsRunning-core}
use atari_sysv_sp.Dp.Finish.{complete-IsRunning}
use atari_sysv_sp.Dp.Requests.{IsPolite, enwput-IsRunning}
use atari_sysv_sp.Dp.Bringup.{IsCard}
use atari_sysv_sp.Dp.Opening.{IsNew, enopen-IsRunning, enclose-IsRunning}

-- Before the first open: no minor is open, and nothing is queued.
pub record IsFresh (d : Dp) : Type 0 where
  pub no_minor :
      (i : ℕ)
      → ((d.minors i).opened ≡ false)
        × (is_bound (d.minors i).state ≡ false)
        × ((d.minors i).frames ≡ [])
  pub no_poll_yet : d.pollq ≡ none
  pub not_running : d.running ≡ false
  pub none_waits : d.wqcnt ≡ 0
  pub none_staged : d.scsi.tx ≡ []
  pub is_down : d.scsi.up ≡ false
  pub is_idle : d.scsi.busy ≡ false
  pub none_queued : d.scsi.queue ≡ []
  pub core_rests : d.scsi.active ≡ false

module _ (hz : ℕ) (n : Numbers) where
  pub data Run : Dp → Type 0 where
    began : {d : Dp} → IsFresh d → Run d
    answered : {d : Dp} (answers : List Bool) → Run d → Run (record d { answers = answers })
    opened :
        {d : Dp} (c : Card) (now : ℕ) (o : Open) (bus : Bus)
        → IsCard c
        → Run d
        → IsNew o d
        → Run (enopen c now o false bus d).1.1
    closed : {d : Dp} (m : ℕ) → Run d → m < 8 → Run (enclose m d)
    wrote :
        {d : Dp} (m : ℕ) (x : Down)
        → Run d
        → m < 8
        → (d.minors m).opened ≡ true
        → IsPolite n x
        → Run (enwput n m x d)
    polled : {d : Dp} → Run d → Run (enrsrv d)
    completed :
        {d : Dp} (now : ℕ) (err : Bool) (rx : List ℕ) → Run d → Run (complete hz now err rx d)

  fresh-IsRunning : (d : Dp) → IsFresh d → IsRunning d
  fresh-IsRunning d f = record {
    table = record {
      ordered = record {
        apart = λ i j li lj bi bj s. absurd (let x = (f.no_minor i).1 in cc);
        shut = λ i o. ((f.no_minor i).1, (f.no_minor i).2);
        poll_none = λ e i l. (f.no_minor i).0;
        poll_some = λ q e. absurd (let x = f.no_poll_yet in cc);
      };
      counted = f.none_waits ∙ sym (total-empty 8 d.minors (λ i l. (f.no_minor i).2));
      fit = λ i. subst AllFit (sym (f.no_minor i).2) tt;
      alive = f.not_running ∙ sym f.is_down;
      addressed = λ r. absurd (let x = f.not_running in cc);
    };
    sound = record {
      queued = f.none_queued ∙ ap queue_of (sym f.is_idle);
      head = f.core_rests ∙ sym f.is_idle;
      going = λ b u. absurd (let x = f.is_down in cc);
      still = λ u. (f.none_staged, f.is_idle);
      undone = λ b. absurd (let x = f.is_idle in cc);
    };
    staged = λ w. absurd (w f.none_waits);
  }

  enrsrv-IsRunning : (d : Dp) → IsRunning d → IsRunning (enrsrv d)
  unfolding enrsrv with_scsi
  enrsrv-IsRunning d w =
      let s = record d.scsi { rxwant = true } in
      let (tx, up) = dp_kick-Keeps true s in
      let t = w.table in
      record {
        table = record {
          ordered = t.ordered;
          counted = t.counted;
          fit = t.fit;
          alive = t.alive ∙ sym up;
          addressed = t.addressed;
        };
        sound = dp_kick-IsSound s w.sound.queued w.sound.head w.sound.still w.sound.undone;
        staged = λ z. ap is_empty tx ∙ w.staged z;
      }

  pub Run-IsRunning : {d : Dp} → Run d → IsRunning d
  Run-IsRunning (began {d} f) = fresh-IsRunning d f
  Run-IsRunning (answered {d} answers r) = IsRunning-core (Run-IsRunning r) (core-answers answers d)
  Run-IsRunning (opened {d} c now o bus good r new) =
      enopen-IsRunning c now o bus d good (Run-IsRunning r) new
  Run-IsRunning (closed {d} m r l) = enclose-IsRunning m d (Run-IsRunning r) l
  Run-IsRunning (wrote {d} m x r l o p) = enwput-IsRunning n m x d (Run-IsRunning r) l o p
  Run-IsRunning (polled {d} r) = enrsrv-IsRunning d (Run-IsRunning r)
  Run-IsRunning (completed {d} now err rx r) = complete-IsRunning hz now err rx d (Run-IsRunning r)
