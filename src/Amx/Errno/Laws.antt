-- ===== src/Amx/Errno/Laws.antt =====
-- The table of error numbers, read backwards.
use atari_sysv_sp.Base.{
  ℕ, ◌-◌, ◌≤◌, ◌<◌, Bool, true, false, not, ◌&&◌, ◌||◌, List, [], ◌∷◌, ◌==◌, leb, if◌then◌else◌,
  ◌≡◌, refl, sym, ◌∙◌, ◌⊎◌, ==_iff, Bool-cases, inl, inr, arith,
}
use atari_sysv_sp.Base.Words.{lt_int}
use atari_sysv_sp.Base.Loop.{any, all_below, all_below_sound}
use atari_sysv_sp.Amx.Errno.{errmap, err_out_from, err_out}

-- The reading of the table from AMIX to ASV, as the specification of `err_out` wants it.
pub undo_from : List (ℕ × ℕ) → ℕ → ℕ
undo_from [] e = e
undo_from ((asv, amix) ∷ rows) e = if amix == e then asv else undo_from rows e

-- Whether the table has a row for ASV's error e.
pub is_mapped : ℕ → List (ℕ × ℕ) → Bool
is_mapped e [] = false
is_mapped e ((asv, amix) ∷ rows) = asv == e || is_mapped e rows

mapped-lt :
    (e : ℕ) (rows : List (ℕ × ℕ))
    → any (λ row. leb 243 row.0) rows ≡ false
    → is_mapped e rows ≡ true
    → e < 243
unfolding is_mapped any
mapped-lt e [] h m = absurd (cc)
mapped-lt e ((asv, amix) ∷ rows) h m = ground (arith, mapped-lt e rows)

errors_small : any (λ row. leb 243 row.0) errmap ≡ false
unfolding any
errors_small = refl

abbrev is_undone : ℕ → Bool
is_undone e = not (is_mapped e errmap) || undo_from errmap (err_out e) == e

undone_table : all_below 243 is_undone ≡ true
unfolding all_below err_out undo_from is_mapped
undone_table = refl

err_out_from-unmapped :
    (rows : List (ℕ × ℕ)) (e : ℕ) → is_mapped e rows ≡ false → err_out_from rows e ≡ e
unfolding is_mapped err_out_from
err_out_from-unmapped [] e h = refl
err_out_from-unmapped ((asv, amix) ∷ rows) e h = ground (arith, err_out_from-unmapped rows e)

-- AMIX's number for ASV's error: what they have in common stays, and of the rest each run of numbers has
-- its shift.
abbrev pub amix_errno : ℕ → ℕ
amix_errno e =
    if leb 130 e && leb e 134
    then e - 35
    else if leb 135 e && leb e 149
    then e - 15
    else if leb 150 e && leb e 153
    then e - 7
    else if e == 156 || e == 157
    then e - 9
    else if leb 237 e && leb e 242
    then e - 100
    else if e == 128
    then 150
    else if e == 129
    then 149
    else if e == 158
    then 93
    else if e == 160
    then 94
    else if e == 162
    then 151
    else if e == 235
    then 135
    else e

amix_table : all_below 243 (λ e. err_out e == amix_errno e) ≡ true
unfolding all_below err_out
amix_table = refl

unmapped_of_large :
    (e : ℕ) (rows : List (ℕ × ℕ))
    → any (λ row. leb 243 row.0) rows ≡ false
    → 243 ≤ e
    → is_mapped e rows ≡ false
unfolding is_mapped any
unmapped_of_large e [] h l = refl
unmapped_of_large e ((asv, amix) ∷ rows) h l = ground (arith, unmapped_of_large e rows)

amix_errno-large : (e : ℕ) → 243 ≤ e → amix_errno e ≡ e
amix_errno-large e l = ground arith

err_out-large : (e : ℕ) → 243 ≤ e → err_out e ≡ e
unfolding err_out
err_out-large e l =
    let same : err_out_from errmap e ≡ e =
      err_out_from-unmapped errmap e (unmapped_of_large e errmap errors_small l) in
    rw same (either (lt_int e 128))
  where
    either : (b : Bool) → (if b then e else e) ≡ e
    either true = refl
    either false = refl

-- The table is that of the runs of numbers.
pub err_out-amix_errno : (e : ℕ) → err_out e ≡ amix_errno e
err_out-amix_errno e = elim (ltb_or_le e) [
  | inl small ↦
      (==_iff _ _).0 (all_below_sound 243 (λ e. err_out e == amix_errno e) e amix_table small)
  | inr large ↦ err_out-large e large ∙ sym (amix_errno-large e large)
]
  where
    ltb_or_le : (n : ℕ) → (n < 243) ⊎ (243 ≤ n)
    ltb_or_le n = elim (Bool-cases (leb 243 n)) [
      | inl l ↦ inr (ground (arith, l))
      | inr s ↦ inl (ground (arith, s))
    ]

-- Each error of ASV that the table has goes to an AMIX error from which the table gives it back, so
-- no two of them are confused; any other error number is left as it is.
pub err_out_lem :
    (e : ℕ) → (if is_mapped e errmap then undo_from errmap (err_out e) else err_out e) ≡ e
unfolding err_out
err_out_lem e = elim (Bool-cases (is_mapped e errmap)) [
  | inl m ↦ rw m (
      ground
        (arith, all_below_sound 243 is_undone e undone_table (mapped-lt e errmap errors_small m)))
  | inr u ↦ rw u (ground (arith, err_out_from-unmapped errmap e u))
]
