-- ===== src/Tlk/Opening.antt =====
-- The guard of open, and the adapters' state over the calls.
use atari_sysv_sp.Base.{
  ℕ, zero, suc, ◌<◌, ◌≡◌, ◌≢◌, ◌⊎◌, inl, inr, refl, sym, ◌∙◌, ap, Bool, true, false, Bool-cases,
  not, ◌&&◌, ◌||◌, Option, none, some, List, [], ◌∷◌, ◌++◌, ◌==◌, leb, if◌then◌else◌, arith,
}
use atari_sysv_sp.Tlk.{Reg, r_in, r_out, r_istat, r_ostat, r_reset, r_anal, Link, ok, enxio, is_set}
use atari_sysv_sp.Tlk.Control.{
  Adapter, Tlk, adapter, with_adapter, set_opened, set_base, window, tlk_fpga, answer, probe_all,
  tlkopen,
}

-- A register that bus-errors, whatever the state.
abbrev pub IsDead : {H : Type 0} → Link H → Reg → Type 0
IsDead {H} l r = (h : H) → (l.rd r h).0 ≡ none

-- What open probes in the state h: every register, the input data only if its status is not ready.
abbrev pub IsProbed : {H : Type 0} → Link H → Reg → H → Type 0
IsProbed l r_in h = (v : ℕ) × ((l.rd r_istat h).0 ≡ some v) × (is_set v ≡ false)
IsProbed l _ h = Unit

module _ {H : Type 0} where
  both_false :
      (v : Option ℕ) (a : Bool × H) (b : ℕ → Bool × H)
      → a.0 ≡ false
      → ((x : ℕ) → (b x).0 ≡ false)
      → (elim v as (λ x. Bool × H) [ none ↦ a | some x ↦ b x ]).0 ≡ false
  both_false none a b p q = p
  both_false (some x) a b p q = q x

adapter-with_adapter : (t : Tlk) (m : ℕ) (a : Adapter) → adapter (with_adapter t m a) m ≡ a
unfolding adapter with_adapter
adapter-with_adapter t zero a = refl
adapter-with_adapter t (suc m) a = refl

other_adapter :
    (t : Tlk) (m k : ℕ) (a : Adapter)
    → m < 2
    → k < 2
    → k ≢ m
    → adapter (with_adapter t m a) k ≡ adapter t k
unfolding adapter with_adapter
other_adapter t zero zero a hm hk n = absurd (n refl)
other_adapter t zero (suc k) a hm hk n = refl
other_adapter t (suc m) zero a hm hk n = refl
other_adapter t (suc m) (suc k) a hm hk n = absurd (n (omega arith))

module _ {H : Type 0} (l : Link H) where
  answer-dead :
      (rs : List Reg) (r : Reg) (qs : List Reg) (h : H)
      → IsDead l r
      → (answer l (rs ++ r ∷ qs) h).0 ≡ false
  unfolding answer
  answer-dead [] r qs h d = rw (d h) refl
  answer-dead (x ∷ rs) r qs h d =
      both_false (l.rd x h).0 _ _ refl (λ v. answer-dead rs r qs (l.rd x h).1 d)

  after-dead :
      (h : H)
      → (answer l (r_ostat ∷ r_out ∷ r_reset ∷ r_anal ∷ []) (l.rd r_istat h).1).0 ≡ false
      → (probe_all l h).0 ≡ false
  unfolding probe_all
  after-dead h e =
      let (all, h2) = answer l (r_ostat ∷ r_out ∷ r_reset ∷ r_anal ∷ []) (l.rd r_istat h).1 in
      let last : ℕ → Bool × H = λ v.
        if not all
        then (false, h2)
        else if not (is_set v)
        then answer l (r_in ∷ []) h2
        else (true, h2) in
      both_false (l.rd r_istat h).0 (false, (l.rd r_istat h).1) last refl (λ v. rw e refl)

  probe_all-dead : (r : Reg) (h : H) → IsDead l r → IsProbed l r h → (probe_all l h).0 ≡ false
  unfolding probe_all
  probe_all-dead r_istat h d p = rw (probe_all, d h) refl
  probe_all-dead r_ostat h d p = after-dead h (answer-dead [] r_ostat _ _ d)
  probe_all-dead r_out h d p = after-dead h (answer-dead (r_ostat ∷ []) r_out _ _ d)
  probe_all-dead r_reset h d p = after-dead h (answer-dead (r_ostat ∷ r_out ∷ []) r_reset _ _ d)
  probe_all-dead r_anal h d p =
      after-dead h (answer-dead (r_ostat ∷ r_out ∷ r_reset ∷ []) r_anal [] _ d)
  probe_all-dead r_in h d (v, i, f) =
      let h1 = (l.rd r_istat h).1 in
      let h2 = (answer l (r_ostat ∷ r_out ∷ r_reset ∷ r_anal ∷ []) h1).1 in
      rw (probe_all, i)
        (elim (Bool-cases (not (answer l (r_ostat ∷ r_out ∷ r_reset ∷ r_anal ∷ []) h1).0)) [
          | inl t ↦ rw t refl
          | inr g ↦ rw (g, f) (answer-dead [] r_in [] h2 d)
        ])

module _ {H : Type 0} (links : ℕ → Link H) (id_long : ℕ → Option ℕ) (hz : ℕ) where
  -- The adapters when open probes.
  abbrev found : ℕ → Tlk → Tlk
  found m t = if (m == 1) && not (adapter t m).opened then tlk_fpga id_long t else t

  opened-tlk_fpga :
      (t : Tlk) (k : ℕ) → (adapter (tlk_fpga id_long t) k).opened ≡ (adapter t k).opened
  unfolding tlk_fpga adapter with_adapter set_base
  opened-tlk_fpga t k = go (window id_long (4276092928 ∷ 4273995776 ∷ [])) refl k
    where
      go :
          (w : Option ℕ)
          → window id_long (4276092928 ∷ 4273995776 ∷ []) ≡ w
          → (k : ℕ) → (adapter (tlk_fpga id_long t) k).opened ≡ (adapter t k).opened
      go none h k = rw (tlk_fpga, h) refl
      go (some top) h zero = rw (tlk_fpga, h) refl
      go (some top) h (suc k) = rw (tlk_fpga, h) refl

  opened-found : (m : ℕ) (t : Tlk) (k : ℕ) → (adapter (found m t) k).opened ≡ (adapter t k).opened
  opened-found m t k = elim (Bool-cases ((m == 1) && not (adapter t m).opened)) [
    | inl e ↦ rw e (opened-tlk_fpga t k)
    | inr f ↦ rw f refl
  ]

  -- Open refuses a link of which a register that it probes bus-errors, and opens nothing.
  pub tlkopen-refuses :
      (m : ℕ) (chr : Bool) (t : Tlk) (h : H) (r : Reg)
      → IsDead (links (adapter (found m t) m).base) r
      → IsProbed (links (adapter (found m t) m).base) r h
      → ((tlkopen links id_long hz m chr t h).error ≡ enxio)
        × ((k : ℕ)
            → (adapter (tlkopen links id_long hz m chr t h).tlk k).opened ≡ (adapter t k).opened)
  unfolding tlkopen
  tlkopen-refuses m chr t h r d p =
      let all : (probe_all (links (adapter (found m t) m).base) h).0 ≡ false =
        probe_all-dead (links (adapter (found m t) m).base) r h d p in
      elim (Bool-cases (leb 2 m || not chr)) [
        | inl e ↦ rw e (refl, λ k. refl)
        | inr f ↦ rw (f, all) (refl, opened-found m t)
      ]

  -- Open succeeds only on a link that is not open, and then that one is open and no other has changed; a
  -- call that fails leaves every link as open as it was.
  pub tlkopen-excludes :
      (m : ℕ) (chr : Bool) (t : Tlk) (h : H)
      → (((tlkopen links id_long hz m chr t h).error ≡ ok)
          × ((adapter t m).opened ≡ false)
          × ((adapter (tlkopen links id_long hz m chr t h).tlk m).opened ≡ true)
          × ((k : ℕ)
              → k < 2
              → k ≢ m
              → (adapter (tlkopen links id_long hz m chr t h).tlk k).opened ≡ (adapter t k).opened))
        ⊎ (((tlkopen links id_long hz m chr t h).error ≢ ok)
            × ((k : ℕ)
                → (adapter (tlkopen links id_long hz m chr t h).tlk k).opened
                  ≡ (adapter t k).opened))
  unfolding tlkopen set_opened
  tlkopen-excludes m chr t h = elim (Bool-cases (leb 2 m || not chr)) [
    | inl e ↦ rw e (inr (λ e. absurd cc, λ k. refl))
    | inr f ↦ rw f (elim (Bool-cases (not (probe_all (links (adapter (found m t) m).base) h).0)) [
      | inl e ↦ rw e (inr (λ e. absurd cc, opened-found m t))
      | inr g ↦ rw g (elim (Bool-cases (adapter (found m t) m).opened) [
        | inl e ↦ rw e (inr (λ e. absurd cc, opened-found m t))
        | inr n ↦ rw n (
            inl (
              refl,
              sym (opened-found m t m) ∙ n,
              ap (λ a. a.opened)
                  (adapter-with_adapter (found m t) m (set_opened true (adapter (found m t) m))),
              λ k two other.
                  ap (λ a. a.opened)
                    (other_adapter (found m t) m k (set_opened true (adapter (found m t) m))
                      (ground (arith, f)) two other)
                  ∙ opened-found m t k,
            ))
      ])
    ])
  ]
