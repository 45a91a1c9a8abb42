-- ===== src/Dp/Opening.antt =====
-- driver-dp/dp.c, a minor from `enopen` to `enclose`, on the whole driver.
use mathlib.Core.Path.{subst}
use atari_sysv_sp.Base.{
  ℕ, ◌-◌, ◌<◌, ◌≡◌, refl, sym, ◌∙◌, ap, ap₂, true, false, Bool-cases, Option-cases, inl, inr,
  Option, none, some, List, [], ◌∷◌, ltb, if◌then◌else◌, if_true, if_false, length, arith,
}
use atari_sysv_sp.Dp.Streams.{Blocks, minors_max, Dp, set_minor}
use atari_sysv_sp.Dp.Open.{
  Bus, Card, dpfind, bring_up, dp_linit, Open, modopen, cloneopen, minor, Opened, opened_minor,
  failed, einval, enospc, first_minor, in_range, set_open, enopen,
}
use atari_sysv_sp.Dp.Close.{drain, polls, hand_poll, enclose}
use atari_sysv_sp.Dp.Queues.{total-with_minor}
use atari_sysv_sp.Dp.Saps.{first_minor-some}
use atari_sysv_sp.Dp.Polls.{clean, open-IsOrdered, close-IsOrdered}
use atari_sysv_sp.Dp.Table.{IsRunning}
use atari_sysv_sp.Dp.Turns.{fit-with_minor}
use atari_sysv_sp.Dp.Bringup.{IsCard, bring_up-IsRunning, bring_up-minors}

-- The driver runs, with the minors of before.
abbrev Starts : Dp → Bus × Dp → Type 0
Starts d p = IsRunning p.1 × (p.1.minors ≡ d.minors)

dp_linit_lem :
    (c : Card) (now : ℕ) (bus : Bus) (d : Dp)
    → IsCard c
    → IsRunning d
    → Starts d (dp_linit c now bus d)
unfolding dp_linit
dp_linit_lem c now bus d good w =
    let p = dpfind bus in
    let started : Option ℕ → Option ℕ → Bus × Dp = λ job found. elim job [
      | some t ↦ (bus, bring_up c now d)
      | none ↦ elim found [
        | none ↦ (p.1, d)
        | some t ↦ (p.1, bring_up c now (record d { job = some t }))
      ]
    ] in
    elim (Bool-cases d.running) as (λ x. Starts d (dp_linit c now bus d)) [
      | inl t ↦ subst (Starts d) (sym (if_true (bus, d) (started d.job p.0) t)) (w, refl)
      | inr r ↦
          subst (Starts d) (sym (if_false (bus, d) (started d.job p.0) r))
            (elim (Option-cases d.job) as (λ x. Starts d (started d.job p.0)) [
              | inr (t, e) ↦
                  subst (Starts d) (sym (ap (λ x. started x p.0) e))
                    (bring_up-IsRunning c now d d.job good w r, bring_up-minors c now d)
              | inl e ↦ elim (Option-cases p.0) as (λ x. Starts d (started d.job p.0)) [
                | inl f ↦ subst (Starts d) (sym (ap₂ started e f)) (w, refl)
                | inr (t, f) ↦ subst (Starts d) (sym (ap₂ started e f)) (
                  bring_up-IsRunning c now d (some t) good w r,
                  bring_up-minors c now (record d { job = some t }),
                )
              ]
            ])
    ]

set_open-IsRunning :
    (m : ℕ) (d : Dp) → IsRunning d → m < 8 → (d.minors m).opened ≡ false → IsRunning (set_open m d)
unfolding set_open set_minor
set_open-IsRunning m d w l o =
    let t = w.table in
    record {
      table = record {
        ordered = open-IsOrdered m t.ordered l;
        counted = omega (
          arith,
          total-with_minor 8 m (clean true) d.minors l,
          t.counted,
          ap length (t.ordered.shut m o).1,
        );
        fit = fit-with_minor m (clean true) d.minors t.fit tt;
        alive = t.alive;
        addressed = t.addressed;
      };
      sound = w.sound;
      staged = w.staged;
    }

drain_lem : (fs : List Blocks) (n : ℕ) → drain fs n ≡ n - length fs
unfolding drain
drain_lem [] n = omega arith
drain_lem (f ∷ fs) n = drain_lem fs (n - 1) ∙ omega arith

hand_poll_lem :
    (m : ℕ) (d : Dp)
    → hand_poll m d ≡ record d {
      pollq = if polls d.pollq m then first_minor true d.minors 0 minors_max else d.pollq;
    }
unfolding hand_poll
hand_poll_lem m d = elim (Bool-cases (polls d.pollq m)) [
  | inl t ↦ if_true _ d t ∙ ap (λ p. record d { pollq = p }) (sym (if_true _ _ t))
  | inr f ↦ if_false _ d f ∙ ap (λ p. record d { pollq = p }) (sym (if_false _ _ f))
]

pub enclose-IsRunning : (m : ℕ) (d : Dp) → IsRunning d → m < 8 → IsRunning (enclose m d)
unfolding enclose set_minor
enclose-IsRunning m d w l =
    let t = w.table in
    let few = drain_lem (d.minors m).frames d.wqcnt in
    subst IsRunning (sym (hand_poll_lem m _)) (record {
      table = record {
        ordered = close-IsOrdered m t.ordered;
        counted = omega (arith, total-with_minor 8 m (clean false) d.minors l, t.counted, few);
        fit = fit-with_minor m (clean false) d.minors t.fit tt;
        alive = t.alive;
        addressed = t.addressed;
      };
      sound = w.sound;
      staged = λ n. w.staged (λ z. n (omega (arith, few, z)));
    })

-- What a queue that is opened anew asks for is not open.
abbrev pub IsNew : Open → Dp → Type 0
IsNew modopen d = Unit
IsNew cloneopen d = Unit
IsNew (minor m) d = (d.minors m).opened ≡ false

pub enopen-IsRunning :
    (c : Card) (now : ℕ) (o : Open) (bus : Bus) (d : Dp)
    → IsCard c
    → IsRunning d
    → IsNew o d
    → IsRunning (enopen c now o false bus d).1.1
unfolding enopen
enopen-IsRunning c now o bus d good w isNew = run o isNew
  where
    start : ℕ → Option ℕ → Opened × (Bus × Dp)
    start errno none = (failed errno, (bus, d))
    start errno (some m) =
        let (bus', d') = dp_linit c now bus d in (opened_minor m, (bus', set_open m d'))

    opens :
        (errno : ℕ) (found : Option ℕ)
        → ((m : ℕ) → found ≡ some m → (m < 8) × ((d.minors m).opened ≡ false))
        → IsRunning (start errno found).1.1
    opens errno none h = w
    opens errno (some m) h =
        let (v, same) = dp_linit_lem c now bus d good w in
        let (l, shut) = h m refl in
        set_open-IsRunning m (dp_linit c now bus d).1 v l (ap (λ x. (x m).opened) same ∙ shut)

    run : (o : Open) → IsNew o d → IsRunning (enopen c now o false bus d).1.1
    run modopen n = w
    run cloneopen n =
        opens enospc (first_minor false d.minors 0 minors_max)
          (λ m e. let (l, f) = first_minor-some false d.minors 0 8 m e in (omega (arith, l), f))
    run (minor m) n = opens einval (in_range m) (λ q e. elim (Bool-cases (ltb m minors_max)) [
      | inl t ↦
          let same : m ≡ q = ground (arith, e, t) in
          (ground (arith, t, same), ap (λ x. (d.minors x).opened) (sym same) ∙ n)
      | inr f ↦ absurd (let x = sym (if_false (some m) none f) ∙ e in cc)
    ])
