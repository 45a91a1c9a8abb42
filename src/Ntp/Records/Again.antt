-- ===== src/Ntp/Records/Again.antt =====
-- A second run over a log file that a first one has moved.
use atari_sysv_sp.Base.{
  ℕ, ◌+◌, ◌-◌, ◌^◌, ◌≤◌, ◌<◌, ◌≡◌, ◌≢◌, ◌⊎◌, inl, inr, refl, ◌∙◌, ap, ap₂, Bool, true, false,
  Bool-cases, not, ◌&&◌, ◌||◌, Option, none, some, List, [], ◌∷◌, ◌++◌, ◌==◌, drop, length, arith,
}
use atari_sysv_sp.Base.Buffer.{drop_front, take_front}
use atari_sysv_sp.Base.Words.{lt_int, add_int, sub_int}
use atari_sysv_sp.Ntp.Records.{
  Kind, empty, boot_time, other, Entry, is_empty, is_boot, early_window, last_boot, around,
  magnitude, are_early, shifted, moves, shift_all, count_moves, Shift, shift_from, unmoved,
  shift_file,
}

abbrev pub HasNoBoot : List Entry → Type 0
HasNoBoot [] = Unit
HasNoBoot (e ∷ es) = (is_boot e.kind ≡ false) × HasNoBoot es

last_boot-HasNoBoot :
    (es : List Entry) (i : ℕ) (found : Option (ℕ × ℕ)) → HasNoBoot es → last_boot i found es ≡ found
unfolding last_boot
last_boot-HasNoBoot [] i found h = refl
last_boot-HasNoBoot (e ∷ es) i found (n, h) = rw n (last_boot-HasNoBoot es (i + 1) found h)

last_boot_lem :
    (xs : List Entry) (b : Entry) (ys : List Entry) (i : ℕ) (found : Option (ℕ × ℕ))
    → is_boot b.kind ≡ true
    → HasNoBoot ys
    → last_boot i found (xs ++ b ∷ ys) ≡ some (i + length xs, b.stamp)
unfolding last_boot
last_boot_lem [] b ys i found h n =
    rw (last_boot, h)
      (last_boot-HasNoBoot ys (i + 1) (some (i, b.stamp)) n
        ∙ ap (λ k. some (k, b.stamp)) (omega arith))
last_boot_lem (x ∷ xs) b ys i found h n =
    last_boot_lem xs b ys (i + 1) _ h n ∙ ap (λ k. some (k, b.stamp)) (omega arith)

-- The next record is not after `tnext`.
around_lem :
    (es : List Entry) (tb hi tnext k : ℕ) (before : Bool)
    → lt_int tnext k ≡ true
    → lt_int (around tb hi tnext before es).0 k ≡ true
unfolding around
around_lem [] tb hi tnext k before h = h
around_lem (e ∷ es) tb hi tnext k before h = elim (Bool-cases (is_empty e.kind)) [
  | inl t ↦ rw t (around_lem es tb hi tnext k before h)
  | inr f ↦ rw f (elim (Bool-cases (lt_int e.stamp tb)) [
    | inl t ↦ rw t (around_lem es tb hi tnext k true h)
    | inr g ↦ rw g (elim (Bool-cases (lt_int hi e.stamp && lt_int e.stamp tnext)) [
      | inl t ↦
          let sooner : lt_int e.stamp k ≡ true = ground (arith, t, h) in
          rw t (around_lem es tb hi e.stamp k before sooner)
      | inr u ↦ rw u (around_lem es tb hi tnext k before h)
    ])
  ])
]

shifted-kind : (d tb hi : ℕ) (e : Entry) → (shifted d tb hi e).kind ≡ e.kind
unfolding shifted
shifted-kind d tb hi e =
    elim (Bool-cases (is_empty e.kind || lt_int e.stamp tb || lt_int hi e.stamp)) [
      | inl t ↦ rw t refl
      | inr f ↦ rw f refl
    ]

shift_all-HasNoBoot :
    (d tb hi : ℕ) (es : List Entry) → HasNoBoot es → HasNoBoot (shift_all d tb hi es)
unfolding shift_all
shift_all-HasNoBoot d tb hi [] h = tt
shift_all-HasNoBoot d tb hi (e ∷ es) (n, h) =
    (ap is_boot (shifted-kind d tb hi e) ∙ n, shift_all-HasNoBoot d tb hi es h)

-- Nothing is moved between tb and an earlier hi.
count_moves-zero : (tb hi : ℕ) (es : List Entry) → lt_int hi tb ≡ true → count_moves tb hi es ≡ 0
unfolding count_moves moves
count_moves-zero tb hi [] h = refl
count_moves-zero tb hi (e ∷ es) h =
    let out : (is_empty e.kind || lt_int e.stamp tb || lt_int hi e.stamp) ≡ true = ground arith in
    rw (out, count_moves-zero tb hi es h) refl

boot-full : (k : Kind) → is_boot k ≡ true → is_empty k ≡ false
unfolding is_boot is_empty
boot-full empty h = absurd cc
boot-full boot_time h = refl
boot-full other h = refl

-- A log file whose records are not early is left alone.
late-unmoved :
    (d now p tb : ℕ) (dry early : Bool) (es : List Entry)
    → last_boot 0 none es ≡ some (p, tb)
    → are_early d tb (around tb (add_int tb early_window) now false (drop p es)) ≡ false
    → shift_file true d 0 dry now early es ≡ unmoved false es
unfolding shift_file
late-unmoved d now p tb dry early es l e = rw (shift_file, l, e) refl

-- The offset ahead of the boot is out of reach of the next record.
soon-late :
    (d tb now : ℕ) (es : List Entry)
    → 1 ≤ d
    → tb + d + d < 2 ^ 31
    → now + early_window < tb + d + d
    → are_early d (tb + d) (around (tb + d) (add_int (tb + d) early_window) now false es) ≡ false
unfolding are_early magnitude
soon-late d tb now es pos small soon =
    let forward : lt_int 0 d ≡ true = ground arith in
    let plain : lt_int d 0 ≡ false = ground arith in
    let k = sub_int (add_int (tb + d) d) early_window in
    let k_is : k ≡ tb + d + d - early_window = omega arith in
    let next : lt_int now k ≡ true = ground (arith, k_is) in
    rw
      (
        are_early,
        forward,
        plain,
        around_lem es (tb + d) (add_int (tb + d) early_window) now k false next,
      )
      refl

module _ (d : ℕ) (xs : List Entry) (b : Entry) (ys : List Entry) (isb : is_boot b.kind ≡ true)
    (n : HasNoBoot ys) (pos : 1 ≤ d) (small : b.stamp + d + d < 2 ^ 31) where
  abbrev moved : ℕ → List Entry
  moved hi = xs ++ shift_all d b.stamp hi (b ∷ ys)

  -- The boot record itself has moved.
  shifted-boot : (hi : ℕ) → lt_int hi b.stamp ≡ false → (shifted d b.stamp hi b).stamp ≡ b.stamp + d
  unfolding shifted
  shifted-boot hi h =
      let stays : (is_empty b.kind || lt_int b.stamp b.stamp || lt_int hi b.stamp) ≡ false =
        ground (arith, boot-full b.kind isb) in
      rw stays (omega arith)

  last_boot-moved :
      (hi : ℕ)
      → lt_int hi b.stamp ≡ false
      → last_boot 0 none (moved hi) ≡ some (length xs, b.stamp + d)
  unfolding shift_all
  last_boot-moved hi h =
      last_boot_lem xs (shifted d b.stamp hi b) (shift_all d b.stamp hi ys) 0 none
        (ap is_boot (shifted-kind d b.stamp hi b) ∙ isb) (shift_all-HasNoBoot d b.stamp hi ys n)
      ∙ ap₂ (λ k t. some (k, t)) (omega arith) (shifted-boot hi h)

  moved-again :
      (hi now : ℕ) (dry early : Bool)
      → lt_int hi b.stamp ≡ false
      → now + early_window < b.stamp + d + d
      → shift_file true d 0 dry now early (moved hi) ≡ unmoved false (moved hi)
  moved-again hi now dry early h soon =
      late-unmoved d now (length xs) (b.stamp + d) dry early (moved hi) (last_boot-moved hi h)
        (soon-late d b.stamp now _ pos small soon)

  shift_from-again :
      (hi now : ℕ) (early dry early' : Bool)
      → now + early_window < b.stamp + d + d
      → (shift_from d false (length xs) b.stamp hi early (xs ++ b ∷ ys)).count ≢ 0
      → shift_file true d 0 dry now early'
          (shift_from d false (length xs) b.stamp hi early (xs ++ b ∷ ys)).file
        ≡ unmoved false (shift_from d false (length xs) b.stamp hi early (xs ++ b ∷ ys)).file
  unfolding shift_from
  shift_from-again hi now early dry early' soon =
      rw (take_front (length xs) xs (b ∷ ys) refl, drop_front (length xs) xs (b ∷ ys) refl)
        (λ some_move. elim (Bool-cases (lt_int hi b.stamp)) [
          | inl t ↦ absurd (some_move (count_moves-zero b.stamp hi (b ∷ ys) t))
          | inr f ↦ moved-again hi now dry early' f soon
        ])

  -- A run leaves the file alone or moves what stands from the boot record on.
  abbrev Runs : Shift → Type 0
  Runs s =
      ((early : Bool) × (s ≡ unmoved early (xs ++ b ∷ ys)))
      ⊎ ((hi : ℕ) × (early : Bool) × (s
            ≡ shift_from d false (length xs) b.stamp hi early (xs ++ b ∷ ys)))

  shift_file-Runs :
      (t0 now : ℕ) (early : Bool) → Runs (shift_file true d t0 false now early (xs ++ b ∷ ys))
  unfolding shift_file
  shift_file-Runs t0 now early =
      let tb = b.stamp in
      let es = xs ++ b ∷ ys in
      let late =
        are_early d tb (around tb (add_int tb early_window) now false (drop (0 + length xs) es)) in
      let place : 0 + length xs ≡ length xs = omega arith in
      rw (shift_file, last_boot_lem xs b ys 0 none isb n)
        (elim (Bool-cases (not (t0 == 0))) [
          | inl t ↦ rw t (
              inr (
                add_int t0 1,
                early,
                ap (λ k. shift_from d false k tb (add_int t0 1) early es) place,
              ))
          | inr f ↦ rw f (elim (Bool-cases (not late)) [
            | inl t ↦ rw t (inl (late, refl))
            | inr g ↦ rw g (
                inr (
                  add_int tb early_window,
                  late,
                  ap (λ k. shift_from d false k tb (add_int tb early_window) late es) place,
                ))
          ])
        ])

  -- A run with a step forward that has moved records of a log file leaves nothing to a second -u, if that
  -- comes before the time that is the offset less a quarter of an hour after the moved boot record. (b is
  -- the last boot record, and the times stay below 2 ^ 31.)
  pub shift_file-again :
      (t0 now now' : ℕ) (early dry early' : Bool)
      → now' + early_window < b.stamp + d + d
      → (shift_file true d t0 false now early (xs ++ b ∷ ys)).count ≢ 0
      → shift_file true d 0 dry now' early'
          (shift_file true d t0 false now early (xs ++ b ∷ ys)).file
        ≡ unmoved false (shift_file true d t0 false now early (xs ++ b ∷ ys)).file
  unfolding unmoved
  shift_file-again t0 now now' early dry early' soon = elim (shift_file-Runs t0 now early) [
    | inl (e, h) ↦ rw h (λ some_move. absurd (some_move refl))
    | inr (hi, e, h) ↦ rw h (shift_from-again hi now' e dry early' soon)
  ]
