-- ===== src/Dp/Saps.antt =====
-- driver-dp/dp.c, the table of the minors: who is bound to which type, and who has the poll.
use atari_sysv_sp.Base.{
  ℕ, zero, suc, ◌+◌, ◌≤◌, ◌<◌, ◌≡◌, ◌≢◌, refl, sym, ◌∙◌, ap, Bool, true, false, Bool-cases, not,
  ◌&&◌, ◌||◌, inl, inr, ◌⊎◌, Option, none, some, [], ◌==◌, if◌then◌else◌, if_true, if_false, arith,
}
use atari_sysv_sp.Dp.Streams.{Minor, is_bound, bound_to}
use atari_sysv_sp.Dp.Open.{first_minor}
use atari_sysv_sp.Dp.Queues.{with_minor}

-- No two minors are bound to one type, a minor that is not open is bound to nothing and has no frames,
-- and the poll is an open minor's, as long as there is one.
pub record IsOrdered (minors : ℕ → Minor) (pollq : Option ℕ) : Type 0 where
  pub apart :
      (i j : ℕ)
      → i < 8
      → j < 8
      → is_bound (minors i).state ≡ true
      → is_bound (minors j).state ≡ true
      → (minors i).sap ≡ (minors j).sap
      → i ≡ j
  pub shut :
      (i : ℕ)
      → (minors i).opened ≡ false
      → (is_bound (minors i).state ≡ false) × ((minors i).frames ≡ [])
  pub poll_none : pollq ≡ none → (i : ℕ) → i < 8 → (minors i).opened ≡ false
  pub poll_some : (q : ℕ) → pollq ≡ some q → (q < 8) × ((minors q).opened ≡ true)

-- A search's first element.
not_first :
    (b : Bool) (i : ℕ) (rest : Option ℕ)
    → (if b then some i else rest) ≡ none
    → (b ≡ false) × (rest ≡ none)
not_first true i rest e = absurd cc
not_first false i rest e = (refl, e)

is_first :
    (b : Bool) (i m : ℕ) (rest : Option ℕ)
    → (if b then some i else rest) ≡ some m
    → ((b ≡ true) × (i ≡ m)) ⊎ (rest ≡ some m)
is_first true i m rest e = inl (refl, ground (arith, e))
is_first false i m rest e = inr e

wants : (want o : Bool) → (want && o || not want && not o) ≡ true → o ≡ want
wants true true h = refl
wants true false h = absurd cc
wants false true h = absurd cc
wants false false h = refl

wants_not : (want o : Bool) → (want && o || not want && not o) ≡ false → o ≡ not want
wants_not true true h = absurd cc
wants_not true false h = refl
wants_not false true h = refl
wants_not false false h = absurd cc

pub at_or_behind : (i k : ℕ) → i ≤ k → (i ≡ k) ⊎ (i + 1 ≤ k)
at_or_behind i k h = elim (Bool-cases (i == k)) [
  | inl t ↦ inl (ground (arith, t))
  | inr f ↦ inr (ground (arith, f))
]

-- The searches of the table.
pub bound_to-none :
    (minors : ℕ → Minor) (type i n : ℕ)
    → bound_to minors type i n ≡ none
    → (k : ℕ) → i ≤ k
    → k < i + n
    → is_bound (minors k).state ≡ true
    → (minors k).sap ≢ type
unfolding bound_to
bound_to-none minors type i zero e k lo hi b = absurd (omega arith)
bound_to-none minors type i (suc n) e k lo hi b =
    let (f, r) = not_first _ i (bound_to minors type (i + 1) n) e in
    elim (at_or_behind i k lo) [
      | inl s ↦ λ t.
          let u : (minors i).sap ≡ type = ap (λ x. (minors x).sap) s ∙ t in
          let v : is_bound (minors i).state ≡ true = ap (λ x. is_bound (minors x).state) s ∙ b in
          absurd (ground (arith, f, u, v))
      | inr l ↦ bound_to-none minors type (i + 1) n r k l (omega arith) b
    ]

pub bound_to-some :
    (minors : ℕ → Minor) (type i n m : ℕ)
    → bound_to minors type i n ≡ some m
    → (m < i + n) × (is_bound (minors m).state ≡ true) × ((minors m).sap ≡ type)
unfolding bound_to
bound_to-some minors type i zero m e = absurd cc
bound_to-some minors type i (suc n) m e = elim (is_first _ i m (bound_to minors type (i + 1) n) e) [
  | inl (t, s) ↦ (
    omega (arith, s),
    ap (λ x. is_bound (minors x).state) (sym s) ∙ ground (arith, t),
    ap (λ x. (minors x).sap) (sym s) ∙ ground (arith, t),
  )
  | inr r ↦ let (l, b, q) = bound_to-some minors type (i + 1) n m r in (omega (arith, l), b, q)
]

pub first_minor-none :
    (want : Bool) (minors : ℕ → Minor) (i n : ℕ)
    → first_minor want minors i n ≡ none
    → (k : ℕ) → i ≤ k
    → k < i + n
    → (minors k).opened ≡ not want
unfolding first_minor
first_minor-none want minors i zero e k lo hi = absurd (omega arith)
first_minor-none want minors i (suc n) e k lo hi =
    let (f, r) = not_first _ i (first_minor want minors (i + 1) n) e in
    elim (at_or_behind i k lo) [
      | inl s ↦ ap (λ x. (minors x).opened) (sym s) ∙ wants_not want (minors i).opened f
      | inr l ↦ first_minor-none want minors (i + 1) n r k l (omega arith)
    ]

pub first_minor-some :
    (want : Bool) (minors : ℕ → Minor) (i n m : ℕ)
    → first_minor want minors i n ≡ some m
    → (m < i + n) × ((minors m).opened ≡ want)
unfolding first_minor
first_minor-some want minors i zero m e = absurd cc
first_minor-some want minors i (suc n) m e =
    elim (is_first _ i m (first_minor want minors (i + 1) n) e) [
      | inl (t, s) ↦
          (omega (arith, s), ap (λ x. (minors x).opened) (sym s) ∙ wants want (minors i).opened t)
      | inr r ↦ let (l, o) = first_minor-some want minors (i + 1) n m r in (omega (arith, l), o)
    ]

pub pick :
    (m : ℕ) (v : Minor) (minors : ℕ → Minor) (i : ℕ)
    → ((i ≡ m) × (with_minor m v minors i ≡ v)) ⊎ (with_minor m v minors i ≡ minors i)
pick m v minors i = elim (Bool-cases (i == m)) [
  | inl t ↦ inl (ground (arith, t), if_true _ _ t)
  | inr f ↦ inr (if_false _ _ f)
]

-- A minor that nothing else is bound to the type of.
abbrev pub IsAlone : ℕ → Minor → (ℕ → Minor) → Type 0
IsAlone m v minors =
    is_bound v.state ≡ true
    → (j : ℕ) → j < 8
    → is_bound (minors j).state ≡ true
    → (minors j).sap ≡ v.sap
    → j ≡ m

pub apart-with_minor :
    {minors : ℕ → Minor} {pollq : Option ℕ} (m : ℕ) (v : Minor)
    → IsOrdered minors pollq
    → IsAlone m v minors
    → (i j : ℕ) → i < 8
    → j < 8
    → is_bound (with_minor m v minors i).state ≡ true
    → is_bound (with_minor m v minors j).state ≡ true
    → (with_minor m v minors i).sap ≡ (with_minor m v minors j).sap
    → i ≡ j
apart-with_minor {minors} m v w alone i j li lj bi bj s =
    let state : Minor → Bool = λ x. is_bound x.state in
    let sap : Minor → ℕ = λ x. x.sap in
    elim (pick m v minors i) [
      | inl (ei, fi) ↦ elim (pick m v minors j) [
        | inl (ej, fj) ↦ ei ∙ sym ej
        | inr fj ↦
            ei
            ∙ sym (
                alone (sym (ap state fi) ∙ bi) j lj (sym (ap state fj) ∙ bj)
                  (sym (ap sap fj) ∙ sym s ∙ ap sap fi))
      ]
      | inr fi ↦ elim (pick m v minors j) [
        | inl (ej, fj) ↦
            alone (sym (ap state fj) ∙ bj) i li (sym (ap state fi) ∙ bi)
              (sym (ap sap fi) ∙ s ∙ ap sap fj)
            ∙ sym ej
        | inr fj ↦
            w.apart i j li lj (sym (ap state fi) ∙ bi) (sym (ap state fj) ∙ bj)
              (sym (ap sap fi) ∙ s ∙ ap sap fj)
      ]
    ]

-- One minor of an ordered table changes.
pub with_minor-IsOrdered :
    {minors : ℕ → Minor} {pollq : Option ℕ} (m : ℕ) (v : Minor)
    → IsOrdered minors pollq
    → v.opened ≡ (minors m).opened
    → (v.opened ≡ false → (is_bound v.state ≡ false) × (v.frames ≡ []))
    → IsAlone m v minors
    → IsOrdered (with_minor m v minors) pollq
with_minor-IsOrdered {minors} {pollq} m v w same shut alone = record {
  apart = apart-with_minor m v w alone;
  shut = λ i. elim (Bool-cases (i == m)) [ inl t ↦ rw t shut | inr f ↦ rw f (w.shut i) ];
  poll_none = λ e i l. elim (Bool-cases (i == m)) [
    | inl t ↦
        let at : i ≡ m = ground (arith, t) in
        rw t (same ∙ ap (λ x. (minors x).opened) (sym at) ∙ w.poll_none e i l)
    | inr f ↦ rw f (w.poll_none e i l)
  ];
  poll_some = λ q e.
      let (l, o) = w.poll_some q e in
      (
        l,
        elim (Bool-cases (q == m)) [
          | inl t ↦
              let at : q ≡ m = ground (arith, t) in
              rw t (same ∙ ap (λ x. (minors x).opened) (sym at) ∙ o)
          | inr f ↦ rw f o
        ],
      );
}
