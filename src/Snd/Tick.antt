-- ===== src/Snd/Tick.antt =====
-- A tick on the queue: what has played leaves it, and a block that is played again is waited out.
use atari_sysv_sp.Base.{
  ℕ, ◌+◌, ◌-◌, ◌≤◌, ◌<◌, ◌≡◌, ◌⊎◌, inl, inr, refl, sym, ◌∙◌, ap, true, false, not, ◌&&◌, List, [],
  ◌==◌, ltb, leb, if◌then◌else◌, if_true, if_false, drop, length, arith, Bool-cases,
}
use atari_sysv_sp.Snd.{
  Sound, ring_size, used, clear, account, advance, replays, replayed, whole_ring, watch,
  snd_unchain, snd_tick,
}
use atari_sysv_sp.Base.Suffix.{length-drop, drop-end}
use atari_sysv_sp.Snd.Copy.{clear_lem}
use atari_sysv_sp.Snd.Queue.{ahead, Queued, Plays, ahead-past, ahead_lem}

ahead-nil : (gap k : ℕ) → ahead gap [] k ≡ 0
ahead-nil gap k = ground arith

-- The ring after n bytes from the play position on are cleared.
cleared :
    {ring : ℕ → ℕ} {c w gap filled : ℕ} {bs : List ℕ} (p j : ℕ)
    → Queued ring c w gap filled bs
    → p < ring_size
    → j < ring_size
    → clear ring c (used c p) j ≡ ahead (gap - used c p) (drop (used c p - gap) bs) (used p j)
cleared {ring} {c} {w} {gap} {filled} {bs} p j v hp hj =
    clear_lem ring c (used c p) j v.cpos_in hj (omega arith)
    ∙ elim (Bool-cases (ltb (used c j) (used c p))) [
      | inl gone ↦
          let far : gap - used c p + length (drop (used c p - gap) bs) ≤ used p j =
            ground (arith, length-drop (used c p - gap) bs, v.fits, v.filled_is, v.cpos_in, gone) in
          if_true _ _ gone
          ∙ sym (ahead-past (gap - used c p) (drop (used c p - gap) bs) (used p j) far)
      | inr left ↦
          let from_here : used c j - used c p ≡ used p j = ground (arith, v.cpos_in, left) in
          if_false _ _ left
          ∙ v.at j hj
          ∙ ahead_lem gap bs (used c p) (used c j) (ground arith)
          ∙ ap (ahead (gap - used c p) (drop (used c p - gap) bs)) from_here
    ]

-- What has played leaves it at its front, and is silence from then on.
pub advance-Plays :
    (d : Sound) {bs : List ℕ} (p : ℕ)
    → Plays d bs
    → p < ring_size
    → Plays (advance p d) (drop (used d.cpos p - d.gap) bs)
unfolding advance account
advance-Plays d {bs} p v hp = elim (Bool-cases (ltb (d.gap + d.filled) (used d.cpos p))) [
  | inl under ↦
      let gone = drop-end (used d.cpos p - d.gap) bs (ground (arith, v.filled_is, under)) in
      rw (under, gone)
        (record {
          cpos_in = hp;
          wpos_is = omega arith;
          fits = omega arith;
          filled_is = refl;
          at = λ j hj.
              cleared p j v hp hj
              ∙ ap (λ e. ahead (d.gap - used d.cpos p) e (used p j)) gone
              ∙ ahead-nil _ (used p j)
              ∙ sym (ahead-nil _ (used p j));
        })
  | inr over ↦ rw over (elim (Bool-cases (ltb d.gap (used d.cpos p))) [
    | inl some ↦ rw some (record {
      cpos_in = hp;
      wpos_is = ground (arith, v.wpos_is, v.fits, v.cpos_in);
      fits = ground (arith, v.fits);
      filled_is = ground (arith, v.filled_is, length-drop (used d.cpos p - d.gap) bs);
      at = λ j hj.
          cleared p j v hp hj
          ∙ ap (λ g. ahead g (drop (used d.cpos p - d.gap) bs) (used p j)) (ground (arith, some));
    })
    | inr none ↦ rw none (record {
      cpos_in = hp;
      wpos_is = ground (arith, v.wpos_is, v.fits, v.cpos_in);
      fits = ground (arith, v.fits);
      filled_is = ground (arith, v.filled_is, length-drop (used d.cpos p - d.gap) bs);
      at = λ j hj. cleared p j v hp hj;
    })
  ])
]

-- A block played again is silence to wait out, where there was room for it.
pub replayed-Plays :
    (d : Sound) {bs : List ℕ} (p : ℕ)
    → Plays d bs
    → p < ring_size
    → (replays p d ≡ true → used p d.cpos + d.gap + d.filled ≤ ring_size - 2)
    → Plays (replayed p d) bs
unfolding replayed
replayed-Plays d {bs} p v hp room_left = elim (Bool-cases (replays p d)) [
  | inl back ↦ rw back (again (room_left back))
  | inr on ↦ rw on v
]
  where
    shift :
        (j : ℕ)
        → j < ring_size
        → used p d.cpos + d.gap + d.filled ≤ ring_size - 2
        → (ltb (used p j) (used p d.cpos) ≡ true) ⊎ (ltb (used p j) (used p d.cpos) ≡ false)
        → ahead d.gap bs (used d.cpos j) ≡ ahead (d.gap + used p d.cpos) bs (used p j)
    shift j hj h (inl new) =
        let silent : ltb (used p j) (d.gap + used p d.cpos) ≡ true = ground (arith, new) in
        ahead-past d.gap bs (used d.cpos j) (ground (arith, new, h, v.filled_is, v.cpos_in))
        ∙ sym (if_true _ _ silent)
    shift j hj h (inr old) =
        let place : used p j - used p d.cpos ≡ used d.cpos j = ground (arith, old, v.cpos_in) in
        let same : d.gap + used p d.cpos - used p d.cpos ≡ d.gap = omega arith in
        let whole : used p d.cpos - (d.gap + used p d.cpos) ≡ 0 = omega arith in
        sym (
          ahead_lem (d.gap + used p d.cpos) bs (used p d.cpos) (used p j) (ground (arith, old))
          ∙ rw (place, same, whole) refl)

    again :
        used p d.cpos + d.gap + d.filled ≤ ring_size - 2
        → Queued d.ring p d.wpos (d.gap + used p d.cpos) d.filled bs
    again h = record {
      cpos_in = hp;
      wpos_is = ground (arith, v.wpos_is, v.cpos_in, h);
      fits = omega (arith, h);
      filled_is = v.filled_is;
      at = λ j hj. v.at j hj ∙ shift j hj h (Bool-cases (ltb (used p j) (used p d.cpos)));
    }

-- A tick takes out of the queue what has played, and leaves it alone where a block was played again.
abbrev pub gone : ℕ → Sound → ℕ
gone p d = if replays p d then 0 else used d.cpos p - d.gap

whole_ring-Plays : (d : Sound) {bs : List ℕ} (p : ℕ) → Plays d bs → Plays (whole_ring p d) bs
unfolding whole_ring
whole_ring-Plays d p v = elim (Bool-cases (not (d.unchain_at == 0) && leb d.unchain_at p)) [
  | inl last ↦ rw last v
  | inr not_yet ↦ rw not_yet v
]

watch-Plays : (d : Sound) {bs : List ℕ} → Plays d bs → Plays (watch d) bs
unfolding watch snd_unchain
watch-Plays d v = elim (Bool-cases (not d.chained)) [
  | inl loose ↦ rw loose v
  | inr chain ↦ rw chain (elim (Bool-cases (not (d.st.intrs == d.lastintrs))) [
    | inl alive ↦ rw alive v
    | inr still ↦ rw still (elim (Bool-cases (ltb d.quietmax (d.quiet + 1))) [
      | inl lost ↦ rw lost v
      | inr wait ↦ rw wait v
    ])
  ])
]

gone_lem :
    (p : ℕ) (d : Sound)
    → used (whole_ring p (replayed p d)).cpos p - (whole_ring p (replayed p d)).gap ≡ gone p d
unfolding replayed whole_ring
gone_lem p d = elim (Bool-cases (replays p d)) [
  | inl back ↦ rw back (elim (Bool-cases (not (d.unchain_at == 0) && leb d.unchain_at p)) [
    | inl last ↦ rw last (omega arith)
    | inr not_yet ↦ rw not_yet (omega arith)
  ])
  | inr on ↦ rw on (elim (Bool-cases (not (d.unchain_at == 0) && leb d.unchain_at p)) [
    | inl last ↦ rw last refl
    | inr not_yet ↦ rw not_yet refl
  ])
]

-- A tick takes from the queue's front the bytes that have played since the last one and no others, and
-- what it passes is silent; a block played again delays the queue, provided that it and the queue fit
-- into the ring together.
pub snd_tick-Plays :
    (d : Sound) {bs : List ℕ} (p : ℕ)
    → Plays d bs
    → p < ring_size
    → (replays p d ≡ true → used p d.cpos + d.gap + d.filled ≤ ring_size - 2)
    → Plays (snd_tick p d) (drop (gone p d) bs)
unfolding snd_tick
snd_tick-Plays d {bs} p v hp room_left =
    let started = whole_ring-Plays (replayed p d) p (replayed-Plays d p v hp room_left) in
    rw (← gone_lem p d) (
      watch-Plays (advance p (whole_ring p (replayed p d)))
        (advance-Plays (whole_ring p (replayed p d)) p started hp))
