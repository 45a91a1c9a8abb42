-- ===== src/Dp/Sends.antt =====
-- driver-dp/dp.c, a frame on its way down: staged, or behind the others on its queue.
use mathlib.Core.Path.{subst}
use atari_sysv_sp.Base.{
  ℕ, ◌+◌, ◌≤◌, ◌<◌, ◌≡◌, refl, sym, ◌∙◌, ap, Bool, true, false, Bool-cases, not, ◌&&◌, ◌||◌, inl,
  inr, some, List, [], ◌∷◌, ◌++◌, ◌==◌, ltb, if◌then◌else◌, if_true, if_false, length,
  length-append, arith,
}
use atari_sysv_sp.Dp.{is_empty}
use atari_sysv_sp.Dp.Streams.{Blocks, Minor, Dp, set_minor, gather, pad, dp_xmit}
use atari_sysv_sp.Dp.Proto.{send}
use atari_sysv_sp.Dp.Rounds.{are_none, dp_kick-IsSound, dp_kick-Keeps}
use atari_sysv_sp.Dp.Queues.{
  total-with_minor, Fits, AllFit, stage, stage-busy, dp_xmit-Fits, dp_xmit-staged,
}
use atari_sysv_sp.Dp.Table.{IsRunning}
use atari_sysv_sp.Dp.Turns.{frames-IsOrdered, fit-with_minor}

-- The bytes of the blocks, and how many.
pub joined : Blocks → List ℕ
joined [] = []
joined (b ∷ bs) = b ++ joined bs

unfoldable pub size : Blocks → ℕ
size [] = 0
size (b ∷ bs) = length b + size bs

length-joined : (bs : Blocks) → length (joined bs) ≡ size bs
unfolding joined size
length-joined [] = refl
length-joined (b ∷ bs) = omega (arith, length-append b (joined bs), length-joined bs)

gather_lem : (len : ℕ) (bs : Blocks) → len + size bs ≤ 1514 → gather len bs ≡ some (joined bs)
unfolding gather joined size
gather_lem len [] h = refl
gather_lem len (b ∷ bs) h =
    let inside : (ltb 1514 (len + length b) && not (length b == 0)) ≡ false = ground (arith, h) in
    rw (inside, gather_lem (len + length b) bs (omega (arith, h))) refl

pub blocks-Fits : (bs : Blocks) → 14 ≤ size bs → size bs ≤ 1514 → Fits bs (joined bs)
blocks-Fits bs lo hi = record {
  gathered = gather_lem 0 bs (omega (arith, hi));
  long = omega (arith, lo, length-joined bs);
}

AllFit-append :
    (fs : List Blocks) (f : Blocks) (x : List ℕ) → AllFit fs → Fits f x → AllFit (fs ++ f ∷ [])
AllFit-append [] f x a v = ((x, v), tt)
AllFit-append (g ∷ fs) f x a v = (a.0, AllFit-append fs f x a.1 v)

-- A frame goes behind the others.
unfoldable queued : ℕ → Blocks → Dp → Dp
queued m f d =
    set_minor m (record (d.minors m) { frames = (d.minors m).frames ++ f ∷ [] })
      (record d { wqcnt = d.wqcnt + 1 })

queued-IsRunning :
    (m : ℕ) (f : Blocks) (x : List ℕ) (d : Dp)
    → IsRunning d
    → m < 8
    → (d.minors m).opened ≡ true
    → Fits f x
    → is_empty d.scsi.tx ≡ false
    → IsRunning (queued m f d)
unfolding queued set_minor
queued-IsRunning m f x d w l o v busy =
    let fs = (d.minors m).frames ++ f ∷ [] in
    let v' : Minor = record (d.minors m) { frames = fs } in
    let t = w.table in
    record {
      table = record {
        ordered = frames-IsOrdered m fs t.ordered l (λ e. absurd cc);
        counted = omega (
          arith,
          total-with_minor 8 m v' d.minors l,
          t.counted,
          length-append (d.minors m).frames (f ∷ []),
        );
        fit =
            fit-with_minor m v' d.minors t.fit (AllFit-append (d.minors m).frames f x (t.fit m) v);
        alive = t.alive;
        addressed = t.addressed;
      };
      sound = w.sound;
      staged = λ n. busy;
    }

-- A frame is staged, and the queue started.
stage-IsRunning :
    (x : List ℕ) (d : Dp) → IsRunning d → d.scsi.up ≡ true → 14 ≤ length x → IsRunning (stage x d)
unfolding stage
stage-IsRunning x d w u long =
    let s = record d.scsi { tx = pad x } in
    let t = w.table in
    record {
      table = record {
        ordered = t.ordered;
        counted = t.counted;
        fit = t.fit;
        alive = t.alive ∙ sym (dp_kick-Keeps true s).1;
        addressed = t.addressed;
      };
      sound = dp_kick-IsSound s w.sound.queued w.sound.head (λ f. absurd cc) w.sound.undone;
      staged = λ n. stage-busy x d long;
    }

pub send-IsRunning :
    (m : ℕ) (f : Blocks) (x : List ℕ) (d : Dp)
    → IsRunning d
    → m < 8
    → (d.minors m).opened ≡ true
    → Fits f x
    → d.running ≡ true
    → IsRunning (send m f d)
unfolding send queued
send-IsRunning m f x d w l o v r =
    let u : d.scsi.up ≡ true = sym w.table.alive ∙ r in
    elim (Bool-cases (d.wqcnt == 0)) as (λ c. IsRunning (send m f d)) [
      | inr n ↦
          let waits = w.staged (λ z. ground (arith, z, n)) in
          subst IsRunning (sym (if_true (queued m f d) _ (ap not n)))
            (queued-IsRunning m f x d w l o v waits)
      | inl z ↦
          let behind : Bool × Dp → Dp = λ p. if p.0 then p.1 else queued m f p.1 in
          let first : send m f d ≡ behind (dp_xmit f d) = if_false (queued m f d) _ (ap not z) in
          elim (Bool-cases (is_empty d.scsi.tx)) as (λ c. IsRunning (send m f d)) [
            | inr n ↦
                let full = ap (λ b. not b || not d.scsi.up) n in
                subst IsRunning (sym (first ∙ ap behind (dp_xmit-staged f d full)))
                  (queued-IsRunning m f x d w l o v n)
            | inl e ↦
                subst IsRunning
                  (sym (first ∙ ap behind (dp_xmit-Fits f x d v (are_none d.scsi.tx e) u)))
                  (stage-IsRunning x d w u v.long)
          ]
    ]
