-- ===== src/Dp/Turns.antt =====
-- driver-dp/dp.c, `en_wproc` on the whole driver.
use mathlib.Core.Path.{subst}
use atari_sysv_sp.Base.{
  ℕ, ◌*◌, ◌<◌, ◌≡◌, refl, sym, ◌∙◌, ap, true, false, Bool-cases, inl, inr, Option, List, [], ◌==◌,
  length, arith,
}
use atari_sysv_sp.Dp.Streams.{Blocks, Minor, Dp, set_minor, minors_max, pad, en_wproc}
use atari_sysv_sp.Dp.Rounds.{IsHeld, dp_kick-IsHeld, dp_kick-Keeps}
use atari_sysv_sp.Dp.Queues.{
  with_minor, total-with_minor, total-empty, AllFit, stage, stage-busy, visit, visited,
}
use atari_sysv_sp.Dp.Queues.Wproc.{Turn, none_found, sent, en_wproc_lem}
use atari_sysv_sp.Dp.Saps.{IsOrdered, with_minor-IsOrdered}
use atari_sysv_sp.Dp.Table.{IsTable, IsMid}

-- The queue of one minor changes; a minor that is not open has none.
pub frames-IsOrdered :
    {minors : ℕ → Minor} {pollq : Option ℕ} (m : ℕ) (fs : List Blocks)
    → IsOrdered minors pollq
    → m < 8
    → ((minors m).opened ≡ false → fs ≡ [])
    → IsOrdered (with_minor m (record (minors m) { frames = fs }) minors) pollq
frames-IsOrdered {minors} m fs w l shut =
    with_minor-IsOrdered m (record (minors m) { frames = fs }) w refl
      (λ o. ((w.shut m o).0, shut o)) (λ b j lj bj s. w.apart j m lj l bj b s)

pub fit-with_minor :
    (m : ℕ) (v : Minor) (minors : ℕ → Minor)
    → ((i : ℕ) → AllFit (minors i).frames)
    → AllFit v.frames
    → (i : ℕ) → AllFit (with_minor m v minors i).frames
fit-with_minor m v minors h a i = elim (Bool-cases (i == m)) [ inl t ↦ rw t a | inr f ↦ rw f (h i) ]

-- In so many tries the turn comes to every minor.
pub all_visited :
    (d : Dp)
    → IsTable d
    → ((j : ℕ) → j < 2 * minors_max → (d.minors (visit j d.nextmin)).frames ≡ [])
    → d.wqcnt ≡ 0
all_visited d w h =
    w.counted
    ∙ total-empty 8 d.minors (λ i l.
      let (j, b, e) = visited i d.nextmin l in
      ap (λ x. (d.minors x).frames) (sym e) ∙ h j (omega (arith, b)))

-- The search ends where a frame is staged, or where none waits.
pub turn-IsMid :
    (d d' : Dp) → IsTable d → IsHeld d.scsi → d.scsi.tx ≡ [] → Turn (2 * minors_max) d d' → IsMid d'
unfolding set_minor stage
turn-IsMid d d' w v t (none_found k (inl z)) = record {
  mid_table = record {
    ordered = w.ordered;
    counted = w.counted;
    fit = w.fit;
    alive = w.alive;
    addressed = w.addressed;
  };
  mid_held = v;
  mid_staged = λ n. absurd (n z);
}
turn-IsMid d d' w v t (none_found k (inr h)) = record {
  mid_table = record {
    ordered = w.ordered;
    counted = w.counted;
    fit = w.fit;
    alive = w.alive;
    addressed = w.addressed;
  };
  mid_held = v;
  mid_staged = λ n. absurd (n (all_visited d w h));
}
turn-IsMid d d' w v t (sent m k f fs x l c x_fits) =
    let v' : Minor = record (d.minors m) { frames = fs } in
    record {
      mid_table = record {
        ordered =
            frames-IsOrdered m fs w.ordered l (λ o. absurd (let s = (w.ordered.shut m o).1 in cc));
        counted = omega (arith, total-with_minor 8 m v' d.minors l, ap length c, w.counted);
        fit = fit-with_minor m v' d.minors w.fit (subst AllFit c (w.fit m)).1;
        alive = w.alive ∙ sym (dp_kick-Keeps true (record d.scsi { tx = pad x })).1;
        addressed = w.addressed;
      };
      mid_held =
          dp_kick-IsHeld true (record d.scsi { tx = pad x })
            (record {
              held_queued = v.held_queued;
              held = v.held;
              held_up = v.held_up;
              held_undone = v.held_undone;
            });
      mid_staged = λ n. stage-busy x d x_fits.long;
    }

pub en_wproc-IsMid :
    (d : Dp) → IsTable d → IsHeld d.scsi → d.scsi.tx ≡ [] → IsMid (en_wproc (2 * minors_max) d)
en_wproc-IsMid d w v t =
    turn-IsMid d _ w v t
      (en_wproc_lem (2 * minors_max) d t v.held_up (λ i o. (w.ordered.shut i o).1) w.fit)
