-- ===== src/Dp/Unload.antt =====
-- driver-dp/dp.c, the adapter's job from `dpfind` to the module's unload.
use mathlib.Core.Path.{subst}
use atari_sysv_sp.Base.{
  ℕ, zero, suc, ◌+◌, ◌≤◌, ◌<◌, ◌≡◌, refl, sym, ◌∙◌, ap, true, false, Bool-cases, Option-cases, inl,
  inr, ◌⊎◌, Option, none, some, get_or, arith,
}
use atari_sysv_sp.Dp.Streams.{Dp}
use atari_sysv_sp.Dp.Open.{
  Start, bad, mine, foreign, is_foreign, Job, Bus, is_dayna, set_startf, find_from, dpfind,
}
use atari_sysv_sp.Dp.Saps.{at_or_behind}
use atari_sysv_sp.Dp.Bringup.{IsRest}

-- A processor device whose vendor begins with "Day", with no driver or with this one.
pub record IsAdapter (j : Job) : Type 0 where
  pub processor : j.dtype ≡ 3
  pub letter_d : get_or j.inqdata 8 0 ≡ 68
  pub letter_a : get_or j.inqdata 9 0 ≡ 97
  pub letter_y : get_or j.inqdata 10 0 ≡ 121
  pub ours : (j.startf ≡ bad) ⊎ (j.startf ≡ mine)

-- A target with the adapter that no other driver has.
abbrev pub IsDayna : Bus → ℕ → Type 0
IsDayna bus t = (j : Job) × (bus t ≡ some j) × IsAdapter j

not_foreign : (s : Start) → is_foreign s ≡ false → (s ≡ bad) ⊎ (s ≡ mine)
not_foreign bad h = inl refl
not_foreign mine h = inr refl
not_foreign foreign h = absurd cc

ours_is : (s : Start) → (s ≡ bad) ⊎ (s ≡ mine) → is_foreign s ≡ false
ours_is s (inl e) = ap is_foreign e
ours_is s (inr e) = ap is_foreign e

is_dayna-IsAdapter : (j : Job) → is_dayna j ≡ true → IsAdapter j
unfolding is_dayna
is_dayna-IsAdapter j h = record {
  processor = ground (arith, h);
  letter_d = ground (arith, h);
  letter_a = ground (arith, h);
  letter_y = ground (arith, h);
  ours = not_foreign j.startf (ground (arith, h));
}

IsAdapter-is_dayna : (j : Job) → IsAdapter j → is_dayna j ≡ true
unfolding is_dayna
IsAdapter-is_dayna j v =
    let ours : is_foreign j.startf ≡ false = ours_is j.startf v.ours in
    ground (arith, ours, v.processor, v.letter_d, v.letter_a, v.letter_y)

-- What a search may say: the first such target, or that there is none.
pub data Search (bus : Bus) (t n : ℕ) (found : Option ℕ) : Type 0 where
  first :
      (u : ℕ)
      → found ≡ some u
      → t ≤ u
      → u < t + n
      → IsDayna bus u
      → ((v : ℕ) → t ≤ v → v < u → ¬ IsDayna bus v)
      → Search bus t n found
  absent : found ≡ none → ((v : ℕ) → t ≤ v → v < t + n → ¬ IsDayna bus v) → Search bus t n found

skipped :
    (bus : Bus) (t n : ℕ) {found found' : Option ℕ}
    → ¬ IsDayna bus t
    → found ≡ found'
    → Search bus (t + 1) n found'
    → Search bus t (suc n) found
skipped bus t n not_here e (first u f lo hi is before) =
    first u (e ∙ f) (omega arith) (omega arith) is (λ v a b. elim (at_or_behind t v a) [
      | inl s ↦ subst (λ x. ¬ IsDayna bus x) s not_here
      | inr c ↦ before v c b
    ])
skipped bus t n not_here e (absent f before) = absent (e ∙ f) (λ v a b. elim (at_or_behind t v a) [
  | inl s ↦ subst (λ x. ¬ IsDayna bus x) s not_here
  | inr c ↦ before v c (omega arith)
])

find_from_lem : (bus : Bus) (t n : ℕ) → Search bus t n (find_from bus t n)
unfolding find_from
find_from_lem bus t zero = absent refl (λ v lo hi. absurd (omega arith))
find_from_lem bus t (suc n) =
    let rest = find_from_lem bus (t + 1) n in
    elim (Option-cases (bus t)) as (λ x. Search bus t (suc n) (find_from bus t (suc n))) [
      | inl e ↦
          skipped bus t n (λ (j, f, h). absurd (let x = sym e ∙ f in cc)) (rw (find_from, e) refl)
            rest
      | inr (j, e) ↦
          elim (Bool-cases (is_dayna j)) as (λ x. Search bus t (suc n) (find_from bus t (suc n))) [
            | inl h ↦
                first t (rw (find_from, e, h) refl) (omega arith) (omega arith)
                  (j, e, is_dayna-IsAdapter j h) (λ v a b. absurd (omega arith))
            | inr h ↦
                skipped bus t n
                  (λ (k, f, g).
                    let same : j ≡ k = some-inj (sym e ∙ f) in
                    absurd (let x = ap is_dayna same in let y = IsAdapter-is_dayna k g in cc))
                  (rw (find_from, e, h) refl) rest
          ]
    ]
  where
    some-inj : {j k : Job} → some j ≡ some k → j ≡ k
    some-inj {j} h = ap (λ o. elim o [ none ↦ j | some x ↦ x ]) h

-- The search of the bus finds the lowest of the eight targets that is a processor whose vendor begins with
-- "Day" and that has no driver yet, or this one; and none only where there is no such target.
pub dpfind_lem : (bus : Bus) → Search bus 0 8 (dpfind bus).0
unfolding dpfind
dpfind_lem bus = subst (Search bus 0 8) (sym (same (find_from bus 0 8))) (find_from_lem bus 0 8)
  where
    same :
        (o : Option ℕ)
        → (elim o as (λ x. Option ℕ × Bus) [
          | none ↦ (none, bus)
          | some t ↦ (some t, set_startf t mine bus)
        ]).0
          ≡ o
    same none = refl
    same (some t) = refl

-- The driver is off the adapter.
pub record IsFreed (d : Dp) : Type 0 where
  pub at_rest : IsRest d.scsi
  pub none_waiting : d.wqcnt ≡ 0
  pub stopped : d.running ≡ false
  pub no_job : d.job ≡ none
