-- ===== src/Ntp/Records/Dry.antt =====
-- The dry run (-n) beside the run that writes.
use atari_sysv_sp.Base.{
  ℕ, ◌≡◌, inl, inr, refl, ap, Bool, true, false, Bool-cases, not, Option, none, some, List, [], ◌∷◌,
  ◌==◌, if◌then◌else◌, drop,
}
use atari_sysv_sp.Base.Words.{add_int}
use atari_sysv_sp.Ntp.Records.{
  Entry, early_window, last_boot, around, are_early, Shift, shift_from, unmoved, shift_file, Adm,
  shift_named, shift_records,
}

-- The shift that leaves the file as it is.
abbrev pub told : List Entry → Shift → Shift
told es s = record { file = es; count = s.count; early = s.early }

shift_file-told :
    (log : Bool) (d t0 now : ℕ) (early : Bool) (es : List Entry)
    → shift_file log d t0 true now early es ≡ told es (shift_file log d t0 false now early es)
unfolding shift_file shift_from unmoved
shift_file-told log d t0 now early es = go (last_boot 0 none es) refl
  where
    go :
        (found : Option (ℕ × ℕ))
        → last_boot 0 none es ≡ found
        → shift_file log d t0 true now early es ≡ told es (shift_file log d t0 false now early es)
    go none h = rw (shift_file, h) refl
    go (some (boot, tb)) h =
        let late =
          are_early d tb
            (around tb (add_int tb early_window) now false (drop (if log then boot else 0) es)) in
        rw (shift_file, h)
          (elim (Bool-cases (not (t0 == 0))) [
            | inl t ↦ rw t refl
            | inr f ↦ rw f (elim (Bool-cases (not log)) [
              | inl l ↦
                  rw l (elim (Bool-cases (not early)) [ inl e ↦ rw e refl | inr e ↦ rw e refl ])
              | inr l ↦
                  rw l (elim (Bool-cases (not late)) [ inl e ↦ rw e refl | inr e ↦ rw e refl ])
            ])
          ])

-- What a run tells of a file.
abbrev pub report : Option Shift → Option ℕ
report none = none
report (some s) = some s.count

abbrev pub told_named : Option (List Entry) → Option Shift → Option Shift
told_named (some es) (some s) = some (told es s)
told_named _ s = s

shift_named-told :
    (log : Bool) (d t0 now : ℕ) (early : Bool) (f : Option (List Entry))
    → shift_named log d t0 true now early f ≡ (
      told_named f (shift_named log d t0 false now early f).0,
      (shift_named log d t0 false now early f).1,
    )
unfolding shift_named
shift_named-told log d t0 now early none = refl
shift_named-told log d t0 now early (some es) =
    ap (λ s. (some s, s.early)) (shift_file-told log d t0 now early es)

-- What a dry run makes of the four files: what the run makes of them, the files as they were.
abbrev pub told_all : Adm → List (Option Shift) → List (Option Shift)
told_all adm (a ∷ b ∷ c ∷ d ∷ []) =
    told_named adm.wtmp a
    ∷ told_named adm.utmp b
    ∷ told_named adm.wtmpx c
    ∷ told_named adm.utmpx d
    ∷ []
told_all adm ss = ss

-- A dry run writes nothing, and tells of every file what the run that writes would: whether it is there,
-- the number of the records, and whether they are early, for the files after it.
pub shift_records-dry :
    (d t0 now : ℕ) (adm : Adm)
    → shift_records d t0 true now adm ≡ told_all adm (shift_records d t0 false now adm)
unfolding shift_records
shift_records-dry d t0 now adm = elim (Bool-cases (d == 0)) [
  | inl t ↦ rw t refl
  | inr f ↦
      let a = shift_named true d t0 false now false adm.wtmp in
      let b = shift_named false d t0 false now a.1 adm.utmp in
      let c = shift_named true d t0 false now b.1 adm.wtmpx in
      rw
        (
          f,
          shift_named-told true d t0 now false adm.wtmp,
          shift_named-told false d t0 now a.1 adm.utmp,
          shift_named-told true d t0 now b.1 adm.wtmpx,
          shift_named-told false d t0 now c.1 adm.utmpx,
        )
        refl
]
