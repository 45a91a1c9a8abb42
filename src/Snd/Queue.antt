-- ===== src/Snd/Queue.antt =====
-- The ring as a queue: the silence ahead, then what is written and not yet played, then silence.
use atari_sysv_sp.Base.{
  ℕ, zero, suc, ◌+◌, ◌-◌, ◌%◌, ◌≤◌, ◌<◌, ◌≡◌, ◌⊎◌, inl, inr, refl, sym, ◌∙◌, ap, true, false, ◌&&◌,
  List, [], ◌∷◌, ◌++◌, ltb, leb, if◌then◌else◌, if_true, if_false, get_or, drop, length,
  length-append, arith, Bool-cases,
}
use atari_sysv_sp.Snd.{Sound, ring_size, used, copy_in, room, put_piece}
use atari_sysv_sp.Base.Suffix.{get_or-drop}
use atari_sysv_sp.Snd.Copy.{copy_in_lem}

-- The byte k places ahead of the play position.
abbrev pub ahead : ℕ → List ℕ → ℕ → ℕ
ahead gap bs k = if ltb k gap then 0 else get_or bs (k - gap) 0

-- The ring holds `gap` zeros from the play position on, the bytes bs, and zeros all the way round.
pub record Queued (ring : ℕ → ℕ) (cpos wpos gap filled : ℕ) (bs : List ℕ) : Type 0 where
  pub cpos_in : cpos < ring_size
  pub wpos_is : wpos ≡ (cpos + gap + filled) % ring_size
  pub fits : gap + filled ≤ ring_size - 2
  pub filled_is : filled ≡ length bs
  pub at : (j : ℕ) → j < ring_size → ring j ≡ ahead gap bs (used cpos j)

abbrev pub Plays : Sound → List ℕ → Type 0
Plays d bs = Queued d.ring d.cpos d.wpos d.gap d.filled bs

get_or-end : (bs : List ℕ) (i : ℕ) → length bs ≤ i → get_or bs i 0 ≡ 0
get_or-end [] i h = refl
get_or-end (b ∷ bs) zero h = absurd (omega arith)
get_or-end (b ∷ bs) (suc i) h = get_or-end bs i (omega arith)

get_or-append_left :
    (bs cs : List ℕ) (i : ℕ) → i < length bs → get_or (bs ++ cs) i 0 ≡ get_or bs i 0
get_or-append_left [] cs i h = absurd (omega arith)
get_or-append_left (b ∷ bs) cs zero h = refl
get_or-append_left (b ∷ bs) cs (suc i) h = get_or-append_left bs cs i (omega arith)

get_or-append_right : (bs cs : List ℕ) (i : ℕ) → get_or (bs ++ cs) (length bs + i) 0 ≡ get_or cs i 0
get_or-append_right [] cs i = ap (λ k. get_or cs k 0) (omega arith)
get_or-append_right (b ∷ bs) cs i =
    ap (λ k. get_or (b ∷ (bs ++ cs)) k 0) {y = suc (length bs + i)} (omega arith)
    ∙ get_or-append_right bs cs i

pub ahead-past : (gap : ℕ) (bs : List ℕ) (k : ℕ) → gap + length bs ≤ k → ahead gap bs k ≡ 0
ahead-past gap bs k h = ground (arith, get_or-end bs (k - gap))

ahead-data : (gap : ℕ) (bs : List ℕ) (k : ℕ) → gap ≤ k → ahead gap bs k ≡ get_or bs (k - gap) 0
ahead-data gap bs k h = ground arith

-- The queue's byte after n more have played.
pub ahead_lem :
    (gap : ℕ) (bs : List ℕ) (n k : ℕ)
    → n ≤ k
    → ahead gap bs k ≡ ahead (gap - n) (drop (n - gap) bs) (k - n)
ahead_lem gap bs n k h = elim (Bool-cases (ltb k gap)) [
  | inl silent ↦
      let still : ltb (k - n) (gap - n) ≡ true = ground arith in
      if_true _ _ silent ∙ sym (if_true _ _ still)
  | inr loud ↦
      let still : ltb (k - n) (gap - n) ≡ false = ground arith in
      let place : k - gap ≡ n - gap + (k - n - (gap - n)) = ground arith in
      if_false _ _ loud
      ∙ ap (λ i. get_or bs i 0) place
      ∙ sym (get_or-drop (n - gap) (k - n - (gap - n)) bs 0)
      ∙ sym (if_false _ _ still)
]

ahead-append :
    (gap : ℕ) (bs new : List ℕ) (k : ℕ)
    → (if leb (gap + length bs) k && ltb k (gap + length bs + length new)
        then get_or new (k - (gap + length bs)) 0
        else ahead gap bs k)
      ≡ ahead gap (bs ++ new) k
ahead-append gap bs new k = elim (Bool-cases (ltb k gap)) [
  | inl silent ↦
      let before : (leb (gap + length bs) k && ltb k (gap + length bs + length new)) ≡ false =
        ground arith in
      if_false _ _ before ∙ if_true _ _ silent ∙ sym (if_true _ _ silent)
  | inr loud ↦ elim (Bool-cases (ltb k (gap + length bs))) [
    | inl old ↦
        let before : (leb (gap + length bs) k && ltb k (gap + length bs + length new)) ≡ false =
          ground arith in
        if_false _ _ before
        ∙ if_false _ _ loud
        ∙ sym (get_or-append_left bs new (k - gap) (ground arith))
        ∙ sym (if_false _ _ loud)
    | inr later ↦
        let place : length bs + (k - (gap + length bs)) ≡ k - gap = ground arith in
        after (Bool-cases (ltb k (gap + length bs + length new))) later loud
        ∙ sym (get_or-append_right bs new (k - (gap + length bs)))
        ∙ ap (λ i. get_or (bs ++ new) i 0) place
        ∙ sym (if_false _ _ loud)
  ]
]
  where
    after :
        (ltb k (gap + length bs + length new) ≡ true)
          ⊎ (ltb k (gap + length bs + length new) ≡ false)
        → ltb k (gap + length bs) ≡ false
        → ltb k gap ≡ false
        → (if leb (gap + length bs) k && ltb k (gap + length bs + length new)
            then get_or new (k - (gap + length bs)) 0
            else ahead gap bs k)
          ≡ get_or new (k - (gap + length bs)) 0
    after (inl inside) later loud =
        let test : (leb (gap + length bs) k && ltb k (gap + length bs + length new)) ≡ true =
          ground arith in
        if_true _ _ test
    after (inr past) later loud =
        let test : (leb (gap + length bs) k && ltb k (gap + length bs + length new)) ≡ false =
          ground arith in
        if_false _ _ test
        ∙ ahead-past gap bs k (ground arith)
        ∙ sym (get_or-end new (k - (gap + length bs)) (ground arith))

-- A piece joins the queue at its end.
pub put_piece-Plays :
    (d : Sound) {bs : List ℕ} (new : List ℕ)
    → Plays d bs
    → length new ≤ room d
    → Plays (put_piece new d) (bs ++ new)
unfolding put_piece
put_piece-Plays d {bs} new v h = record {
  cpos_in = v.cpos_in;
  wpos_is = (copied 0 (omega arith)).1 ∙ omega (arith, v.wpos_is);
  fits = omega (arith, v.fits);
  filled_is = omega (arith, v.filled_is, length-append bs new);
  at = λ j hj. (copied j hj).0 ∙ place j hj;
}
  where
    copied :
        (j : ℕ)
        → j < ring_size
        → ((copy_in (length new) new d.wpos d.ring).0 j
            ≡ (if ltb (used d.wpos j) (length new) then get_or new (used d.wpos j) 0 else d.ring j))
          × ((copy_in (length new) new d.wpos d.ring).1 ≡ (d.wpos + length new) % ring_size)
    copied j hj =
        copy_in_lem (length new) new d.wpos d.ring j (omega arith) (omega (arith, v.wpos_is)) hj
          (omega arith)

    place :
        (j : ℕ)
        → j < ring_size
        → (if ltb (used d.wpos j) (length new) then get_or new (used d.wpos j) 0 else d.ring j)
          ≡ ahead d.gap (bs ++ new) (used d.cpos j)
    place j hj = elim (Bool-cases (ltb (used d.wpos j) (length new))) [
      | inl inside ↦
          let test : (leb (d.gap + length bs) (used d.cpos j)
                && ltb (used d.cpos j) (d.gap + length bs + length new))
              ≡ true =
            ground (arith, v.wpos_is, v.filled_is, v.fits, v.cpos_in, inside) in
          let same : used d.wpos j ≡ used d.cpos j - (d.gap + length bs) =
            ground (arith, v.wpos_is, v.filled_is, v.fits, v.cpos_in, inside) in
          if_true _ _ inside
          ∙ ap (λ i. get_or new i 0) same
          ∙ sym (if_true _ _ test)
          ∙ ahead-append d.gap bs new (used d.cpos j)
      | inr outside ↦
          let test : (leb (d.gap + length bs) (used d.cpos j)
                && ltb (used d.cpos j) (d.gap + length bs + length new))
              ≡ false =
            ground (arith, v.wpos_is, v.filled_is, v.fits, v.cpos_in, outside) in
          if_false _ _ outside
          ∙ v.at j hj
          ∙ sym (if_false _ _ test)
          ∙ ahead-append d.gap bs new (used d.cpos j)
    ]
