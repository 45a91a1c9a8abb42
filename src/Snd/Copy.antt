-- ===== src/Snd/Copy.antt =====
-- The ring byte by byte: what the loops of `snd_tick` and `sndwrite` leave at an offset.
use atari_sysv_sp.Base.{
  ℕ, zero, suc, ◌+◌, ◌-◌, ◌%◌, ◌≤◌, ◌<◌, ◌≡◌, ◌⊎◌, inl, inr, sym, ◌∙◌, ap, true, false, ◌&&◌, List,
  ◌==◌, ltb, leb, if◌then◌else◌, if_true, if_false, get_or, drop, length, arith, Bool-cases,
}
use atari_sysv_sp.Base.Suffix.{length-drop, get_or-drop}
use atari_sysv_sp.Snd.{ring_size, used, clear, chunk, copied, copy_in}

-- n bytes from c on are zero, the others as they were.
pub clear_lem :
    (ring : ℕ → ℕ) (c n j : ℕ)
    → c < ring_size
    → j < ring_size
    → n ≤ ring_size
    → clear ring c n j ≡ (if ltb (used c j) n then 0 else ring j)
unfolding clear
clear_lem ring c zero j hc hj hn = ground arith
clear_lem ring c (suc n) j hc hj hn =
    clear_lem (λ i. if i == c then 0 else ring i) ((c + 1) % ring_size) n j (omega arith) hj
      (omega arith)
    ∙ ground arith

-- The two parts of a copy: c bytes up to the ring's end or the piece's, and what follows.
abbrev Part : ℕ → ℕ → ℕ → Type 0
Part w n c = (w + c ≡ ring_size) ⊎ ((c ≡ n) × (w + c ≤ ring_size))

module _ (bs : List ℕ) (w c j x : ℕ) where
  abbrev later : ℕ
  later = used ((w + c) % ring_size) j

  merge :
      w < ring_size
      → j < ring_size
      → length bs < ring_size
      → c ≤ length bs
      → Part w (length bs) c
      → (if ltb later (length bs - c)
          then get_or bs (c + later) 0
          else if leb w j && ltb j (w + c)
          then get_or bs (j - w) 0
          else x)
        ≡ (if ltb (used w j) (length bs) then get_or bs (used w j) 0 else x)
  merge hw hj hn hc part = elim (Bool-cases (ltb later (length bs - c))) [
    | inl second ↦
        let place : c + later ≡ used w j = ground (arith, part, second) in
        let inside : ltb (used w j) (length bs) ≡ true = ground (arith, place, second) in
        if_true _ _ second ∙ ap (λ k. get_or bs k 0) place ∙ sym (if_true _ _ inside)
    | inr not_second ↦ if_false _ _ not_second ∙ elim (Bool-cases (leb w j && ltb j (w + c))) [
      | inl first ↦
          let place : j - w ≡ used w j = ground (arith, part, first) in
          let inside : ltb (used w j) (length bs) ≡ true = ground (arith, part, first) in
          if_true _ _ first ∙ ap (λ k. get_or bs k 0) place ∙ sym (if_true _ _ inside)
      | inr neither ↦
          let outside : ltb (used w j) (length bs) ≡ false =
            ground (arith, part, neither, not_second) in
          if_false _ _ neither ∙ sym (if_false _ _ outside)
    ]
  ]

-- A piece shorter than the ring is in the ring from w on, around its end; the other bytes are as they
-- were, and w moves on by the piece.
pub copy_in_lem :
    (fuel : ℕ) (bs : List ℕ) (w : ℕ) (ring : ℕ → ℕ) (j : ℕ)
    → length bs ≤ fuel
    → w < ring_size
    → j < ring_size
    → length bs < ring_size
    → ((copy_in fuel bs w ring).0 j
        ≡ (if ltb (used w j) (length bs) then get_or bs (used w j) 0 else ring j))
      × ((copy_in fuel bs w ring).1 ≡ (w + length bs) % ring_size)
unfolding copy_in
copy_in_lem zero bs w ring j hf hw hj hn =
    let none_left : ltb (used w j) (length bs) ≡ false = ground arith in
    (sym (if_false _ _ none_left), omega arith)
copy_in_lem (suc fuel) bs w ring j hf hw hj hn = elim (Bool-cases (length bs == 0)) [
  | inl empty ↦
      let none_left : ltb (used w j) (length bs) ≡ false = ground (arith, empty) in
      (
        ap (λ r. r.0 j) (if_true (ring, w) next empty) ∙ sym (if_false _ _ none_left),
        ap (λ r. r.1) (if_true (ring, w) next empty) ∙ ground (arith, empty),
      )
  | inr more ↦
      let c = chunk bs w in
      let part : Part w (length bs) c = ground arith in
      let some : 1 ≤ c = ground (arith, more) in
      let le : c ≤ length bs = ground arith in
      let left = length-drop c bs in
      let rest =
        copy_in_lem fuel (drop c bs) ((w + c) % ring_size) (copied ring bs w) j
          (omega (arith, left)) (omega arith) hj (omega (arith, left)) in
      (
        ap (λ r. r.0 j) (if_false (ring, w) next more)
            ∙ rest.0
            ∙ ap
                (λ m.
                  if ltb (later bs w c j 0) m
                  then get_or (drop c bs) (later bs w c j 0) 0
                  else copied ring bs w j)
                left
            ∙ ap (λ v. if ltb (later bs w c j 0) (length bs - c) then v else copied ring bs w j)
                (get_or-drop c (later bs w c j 0) bs 0)
            ∙ merge bs w c j (ring j) hw hj hn le part,
        ap (λ r. r.1) (if_false (ring, w) next more) ∙ rest.1 ∙ omega (arith, left, le),
      )
]
  where
    next : (ℕ → ℕ) × ℕ
    next = copy_in fuel (drop (chunk bs w) bs) ((w + chunk bs w) % ring_size) (copied ring bs w)
