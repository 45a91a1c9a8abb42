-- ===== src/Dp/Queues/Wproc.antt =====
-- driver-dp/dp.c, the turns that `en_wproc` gives the minors: it looks on from the minor it sent for last.
use mathlib.Core.Path.{subst}
use atari_sysv_sp.Base.{
  ℕ, zero, suc, ◌-◌, ◌<◌, ◌≡◌, refl, sym, ◌∙◌, ap, true, false, Bool-cases, not, ◌||◌, inl, inr,
  ◌⊎◌, List, [], ◌∷◌, ◌==◌, if◌then◌else◌, if_false, arith,
}
use atari_sysv_sp.Dp.{is_empty}
use atari_sysv_sp.Dp.Streams.{Blocks, Dp, set_minor, dp_xmit, next_minor, en_wproc}
use atari_sysv_sp.Dp.Queues.{
  Fits, AllFit, visit, stage, stage-busy, List-cases, dp_xmit-Fits, dp_xmit-staged,
  next_minor-bound,
}

-- What `en_wproc` does: no frame is found where the turns come to, or one of them is staged.
pub data Turn (tries : ℕ) (d : Dp) : Dp → Type 0 where
  none_found :
      (k : ℕ)
      → (d.wqcnt ≡ 0) ⊎ ((j : ℕ) → j < tries → (d.minors (visit j d.nextmin)).frames ≡ [])
      → Turn tries d (record d { nextmin = k })
  sent :
      (m k : ℕ) (f : Blocks) (fs : List Blocks) (x : List ℕ)
      → m < 8
      → (d.minors m).frames ≡ f ∷ fs
      → Fits f x
      → Turn tries d
          (record (set_minor m
            (record (d.minors m) { frames = fs })
            (record (stage x d) { wqcnt = d.wqcnt - 1 })) { nextmin = k })

-- While a frame is staged, the turn only moves on.
staged-stays :
    (tries : ℕ) (d : Dp)
    → is_empty d.scsi.tx ≡ false
    → (k : ℕ) × (en_wproc tries d ≡ record d { nextmin = k })
unfolding en_wproc
staged-stays zero d h = (d.nextmin, refl)
staged-stays (suc tries) d h =
    let m = next_minor d.nextmin in
    let d1 = record d { nextmin = m } in
    let (k, e) = staged-stays tries d1 h in
    let full : (not (is_empty d.scsi.tx) || not d.scsi.up) ≡ true =
      ap (λ b. not b || not d.scsi.up) h in
    elim (Bool-cases (d.wqcnt == 0)) [
      | inl t ↦ (d.nextmin, rw (en_wproc, t) refl)
      | inr w ↦ elim (Bool-cases (d.minors m).opened) [
        | inr f ↦ (k, rw (en_wproc, w, f) e)
        | inl o ↦ elim (List-cases (d.minors m).frames) [
          | inl n ↦ (k, rw (en_wproc, w, o, n) e)
          | inr (f, (fs, c)) ↦ (m, rw (en_wproc, w, o, c, dp_xmit-staged f d1 full) refl)
        ]
      ]
    ]

-- The lines after the first of a search.
later :
    (tries : ℕ) (d : Dp) {d' : Dp}
    → (d.minors (next_minor d.nextmin)).frames ≡ []
    → Turn tries (record d { nextmin = next_minor d.nextmin }) d'
    → Turn (suc tries) d d'
unfolding stage set_minor visit
later tries d n (none_found k (inl z)) = none_found k (inl z)
later tries d n (none_found k (inr h)) = none_found k (
    inr (λ j l.
      elim j as (λ i. i < suc tries → (d.minors (visit i d.nextmin)).frames ≡ []) [
        | zero ↦ λ i. n
        | suc i ↦ λ li. h i (omega arith)
      ]
        l))
later tries d n (sent m k f fs x b c v) = sent m k f fs x b c v

-- The turn comes to a minor whose frame fits.
found :
    (tries : ℕ) (d : Dp) (f : Blocks) (fs : List Blocks) (x : List ℕ)
    → (d.wqcnt == 0) ≡ false
    → (d.minors (next_minor d.nextmin)).opened ≡ true
    → (d.minors (next_minor d.nextmin)).frames ≡ f ∷ fs
    → Fits f x
    → d.scsi.tx ≡ []
    → d.scsi.up ≡ true
    → Turn (suc tries) d (en_wproc (suc tries) d)
unfolding en_wproc set_minor stage
found tries d f fs x w o c v t u =
    let m = next_minor d.nextmin in
    let d1 = record d { nextmin = m } in
    let d2 =
      set_minor m (record (d.minors m) { frames = fs })
        (record (stage x d1) { wqcnt = d.wqcnt - 1 }) in
    let (k, e) = staged-stays tries d2 (stage-busy x d1 v.long) in
    let sending : en_wproc (suc tries) d ≡ record d2 { nextmin = k } =
      if_false _ _ w
      ∙ if_false _ _ (ap not o)
      ∙ ap (after m d1 (en_wproc tries d1)) c
      ∙ ap
          (λ p.
            if p.0
            then en_wproc tries (
                set_minor m (record (d.minors m) { frames = fs })
                  (record p.1 { wqcnt = p.1.wqcnt - 1 }))
            else p.1)
          (dp_xmit-Fits f x d1 v t u)
      ∙ e in
    subst (Turn (suc tries) d) (sym sending) (sent m k f fs x (next_minor-bound d.nextmin) c v)
  where
    after : ℕ → Dp → Dp → List Blocks → Dp
    after m d1 next [] = next
    after m d1 next (g ∷ gs) =
        let (taken, d3) = dp_xmit g d1 in
        if taken
        then en_wproc tries
            (set_minor m (record (d.minors m) { frames = gs }) (record d3 { wqcnt = d3.wqcnt - 1 }))
        else d3

pub en_wproc_lem :
    (tries : ℕ) (d : Dp)
    → d.scsi.tx ≡ []
    → d.scsi.up ≡ true
    → ((i : ℕ) → (d.minors i).opened ≡ false → (d.minors i).frames ≡ [])
    → ((i : ℕ) → AllFit (d.minors i).frames)
    → Turn tries d (en_wproc tries d)
unfolding en_wproc
en_wproc_lem zero d t u shut fit = none_found d.nextmin (inr (λ j h. absurd (omega arith)))
en_wproc_lem (suc tries) d t u shut fit =
    let m = next_minor d.nextmin in
    let d1 = record d { nextmin = m } in
    let rest = en_wproc_lem tries d1 t u shut fit in
    elim (Bool-cases (d.wqcnt == 0)) as (λ w. Turn (suc tries) d (en_wproc (suc tries) d)) [
      | inl z ↦
          subst (Turn (suc tries) d) (rw (en_wproc, z) refl)
            (none_found d.nextmin (inl (ground (arith, z))))
      | inr w ↦
          elim (Bool-cases (d.minors m).opened)
            as (λ w. Turn (suc tries) d (en_wproc (suc tries) d)) [
              | inr f ↦
                  subst (Turn (suc tries) d) (rw (en_wproc, w, f) refl)
                    (later tries d (shut m f) rest)
              | inl o ↦
                  elim (List-cases (d.minors m).frames)
                    as (λ w. Turn (suc tries) d (en_wproc (suc tries) d)) [
                      | inl n ↦
                          subst (Turn (suc tries) d) (rw (en_wproc, w, o, n) refl)
                            (later tries d n rest)
                      | inr (f, (fs, c)) ↦
                          let (x, v) = (subst AllFit c (fit m)).0 in
                          found tries d f fs x w o c v t u
                    ]
            ]
    ]
