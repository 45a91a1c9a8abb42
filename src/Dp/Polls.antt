-- ===== src/Dp/Polls.antt =====
-- driver-dp/dp.c, the minor that has the poll, from `enopen` to `enclose`.
use atari_sysv_sp.Base.{
  ℕ, ◌<◌, ◌≡◌, refl, sym, ◌∙◌, ap, Bool, true, false, Bool-cases, inl, inr, Option, none, some, [],
  ◌==◌, if◌then◌else◌, if_false, arith,
}
use atari_sysv_sp.Dp.Streams.{Minor, unbound, is_bound, minors_max}
use atari_sysv_sp.Dp.Open.{first_minor, no_poll}
use atari_sysv_sp.Dp.Close.{polls}
use atari_sysv_sp.Dp.Queues.{with_minor}
use atari_sysv_sp.Dp.Saps.{IsOrdered, first_minor-none, first_minor-some, pick, apart-with_minor}

-- An unused minor, just opened or closed.
abbrev pub clean : Bool → Minor
clean opened = record { opened = opened; state = unbound; sap = 0; frames = [] }

opens :
    (m : ℕ) (minors : ℕ → Minor) (i : ℕ)
    → (minors i).opened ≡ true
    → (with_minor m (clean true) minors i).opened ≡ true
opens m minors i o = elim (pick m (clean true) minors i) [
  | inl (e, f) ↦ ap (λ x. x.opened) f
  | inr f ↦ ap (λ x. x.opened) f ∙ o
]

opened_self : (m : ℕ) (o : Bool) (minors : ℕ → Minor) → (with_minor m (clean o) minors m).opened ≡ o
opened_self m o minors = let t : (m == m) ≡ true = ground arith in rw t refl

shut_clean :
    {minors : ℕ → Minor} {pollq : Option ℕ} (m : ℕ) (o : Bool)
    → IsOrdered minors pollq
    → (i : ℕ) → (with_minor m (clean o) minors i).opened ≡ false
    → (is_bound (with_minor m (clean o) minors i).state ≡ false)
      × ((with_minor m (clean o) minors i).frames ≡ [])
shut_clean m o w i = elim (Bool-cases (i == m)) [
  | inl t ↦ rw t (λ e. (refl, refl))
  | inr f ↦ rw f (w.shut i)
]

-- A minor opens; it has the poll where none had.
pub open-IsOrdered :
    {minors : ℕ → Minor} {pollq : Option ℕ} (m : ℕ)
    → IsOrdered minors pollq
    → m < 8
    → IsOrdered (with_minor m (clean true) minors) (if no_poll pollq then some m else pollq)
open-IsOrdered {minors} {pollq = none} m w l = record {
  apart = apart-with_minor m (clean true) w (λ b. absurd cc);
  shut = shut_clean m true w;
  poll_none = λ e. absurd cc;
  poll_some = λ q e.
      let s : m ≡ q = ground (arith, e) in
      (
        omega (arith, s),
        ap (λ x. (with_minor m (clean true) minors x).opened) (sym s) ∙ opened_self m true minors,
      );
}
open-IsOrdered {minors} {pollq = some p} m w l = record {
  apart = apart-with_minor m (clean true) w (λ b. absurd cc);
  shut = shut_clean m true w;
  poll_none = λ e. absurd cc;
  poll_some = λ q e. let (b, o) = w.poll_some q e in (b, opens m minors q o);
}

-- A minor closes; its poll goes to the first that is open still.
pub close-IsOrdered :
    {minors : ℕ → Minor} {pollq : Option ℕ} (m : ℕ)
    → IsOrdered minors pollq
    → IsOrdered (with_minor m (clean false) minors) (
        if polls pollq m
        then first_minor true (with_minor m (clean false) minors) 0 minors_max
        else pollq)
close-IsOrdered {minors} {pollq} m w =
    let minors' = with_minor m (clean false) minors in
    let ends : (p : Option ℕ)
        → (p ≡ none → (i : ℕ) → i < 8 → (minors' i).opened ≡ false)
        → ((q : ℕ) → p ≡ some q → (q < 8) × ((minors' q).opened ≡ true))
        → IsOrdered minors' p =
      λ p n s. record {
        apart = apart-with_minor m (clean false) w (λ b. absurd cc);
        shut = shut_clean m false w;
        poll_none = n;
        poll_some = s;
      } in
    elim (Bool-cases (polls pollq m)) [
      | inl t ↦ rw t (
          ends (first_minor true minors' 0 minors_max)
            (λ e i l. first_minor-none true minors' 0 8 e i (omega arith) (omega (arith, l)))
            (λ q e. let (l, o) = first_minor-some true minors' 0 8 q e in (omega (arith, l), o)))
      | inr f ↦ rw f (
          ends pollq
            (λ e i l. elim (pick m (clean false) minors i) [
              | inl (a, b) ↦ ap (λ x. x.opened) b
              | inr b ↦ ap (λ x. x.opened) b ∙ w.poll_none e i l
            ])
            (λ q e.
              let (l, o) = w.poll_some q e in
              let other : (q == m) ≡ false = sym (ap (λ p. polls p m) e) ∙ f in
              (l, ap (λ x. x.opened) (if_false (clean false) (minors q) other) ∙ o)))
    ]
