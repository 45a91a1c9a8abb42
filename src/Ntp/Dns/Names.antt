-- ===== src/Ntp/Dns/Names.antt =====
-- Names in a message, as labels that end in the root or in a pointer, and the way over them.
use atari_sysv_sp.Base.{
  ℕ, zero, suc, ◌+◌, ◌/◌, ◌%◌, ◌≤◌, ◌<◌, ◌≡◌, sym, ◌∙◌, ap, true, false, not, some, List, [], ◌∷◌,
  ◌++◌, append_assoc, ◌==◌, ltb, if_true, if_false, get_or, drop, length, length-append, arith,
}
use atari_sysv_sp.Base.Suffix.{at_cursor, past, length-drop}
use atari_sysv_sp.Ntp.Dns.{skip_from, skipname}

-- How a name ends.
pub data Tail : Type 0 where
  root : Tail
  pointer : ℕ → ℕ → Tail

unfoldable pub tail_bytes : Tail → List ℕ
tail_bytes root = 0 ∷ []
tail_bytes (pointer hi lo) = hi ∷ lo ∷ []

unfoldable pub name_bytes : List (List ℕ) → Tail → List ℕ
unfolding tail_bytes
name_bytes [] t = tail_bytes t
name_bytes (l ∷ ls) t = length l ∷ (l ++ name_bytes ls t)

abbrev pub IsTail : Tail → Type 0
IsTail root = Unit
IsTail (pointer hi lo) = hi / 64 % 4 ≡ 3

abbrev pub AllLabels : List (List ℕ) → Type 0
AllLabels [] = Unit
AllLabels (l ∷ ls) = (1 ≤ length l) × (length l ≤ 63) × AllLabels ls

module _ (m : List ℕ) where
  skip_label :
      (fuel o b : ℕ)
      → o < length m
      → get_or m o 0 ≡ b
      → 1 ≤ b
      → b ≤ 63
      → skip_from (suc fuel) m o ≡ skip_from fuel m (o + (b + 1))
  unfolding skip_from
  skip_label fuel o b i e lo hi =
      let inside : not (ltb o (length m)) ≡ false = ground arith in
      let live : (b == 0) ≡ false = ground arith in
      let short : (b / 64 % 4 == 3) ≡ false = ground arith in
      if_false _ _ inside ∙ rw e (if_false _ _ live ∙ if_false _ _ short)

  skip_tail :
      (fuel o : ℕ) (t : Tail) (rest : List ℕ)
      → IsTail t
      → drop o m ≡ tail_bytes t ++ rest
      → skip_from (suc fuel) m o ≡ some (o + length (tail_bytes t))
  unfolding skip_from tail_bytes
  skip_tail fuel o root rest v h =
      let (i, e, n) = at_cursor m o h in
      let inside : not (ltb o (length m)) ≡ false = ground arith in
      let last : (get_or m o 0 == 0) ≡ true = ground (arith, e) in
      if_false _ _ inside ∙ if_true _ _ last
  skip_tail fuel o (pointer hi lo) rest v h =
      let (i, e, n) = at_cursor m o h in
      let inside : not (ltb o (length m)) ≡ false = ground arith in
      let live : (get_or m o 0 == 0) ≡ false = ground (arith, e, v) in
      let jump : (get_or m o 0 / 64 % 4 == 3) ≡ true = ground (arith, e, v) in
      if_false _ _ inside ∙ if_false _ _ live ∙ if_true _ _ jump

  skip_from_lem :
      (ls : List (List ℕ)) (fuel o : ℕ) (t : Tail) (rest : List ℕ)
      → AllLabels ls
      → IsTail t
      → length ls < fuel
      → drop o m ≡ name_bytes ls t ++ rest
      → skip_from fuel m o ≡ some (o + length (name_bytes ls t))
  unfolding name_bytes
  skip_from_lem ls zero o t rest a v f h = absurd (omega arith)
  skip_from_lem [] (suc fuel) o t rest a v f h = skip_tail fuel o t rest v h
  skip_from_lem (l ∷ ls) (suc fuel) o t rest a v f h =
      let (i, e, n) = at_cursor m o h in
      let on =
        past m (o + 1) l (name_bytes ls t ++ rest) (n ∙ append_assoc l (name_bytes ls t) rest) in
      let place : o + 1 + length l ≡ o + (length l + 1) = omega arith in
      skip_label fuel o (length l) i e a.0 a.1
      ∙ skip_from_lem ls fuel (o + (length l + 1)) t rest a.2 v (omega arith)
          (ap (λ k. drop k m) (sym place) ∙ on)
      ∙ ap some (omega (arith, length-append l (name_bytes ls t)))

  pub labels_short : (ls : List (List ℕ)) (t : Tail) → length ls < length (name_bytes ls t)
  unfolding name_bytes tail_bytes
  labels_short [] root = omega arith
  labels_short [] (pointer hi lo) = omega arith
  labels_short (l ∷ ls) t = omega (arith, labels_short ls t, length-append l (name_bytes ls t))

  -- The way over a name that stands in a message ends right behind it.
  pub skipname_lem :
      (ls : List (List ℕ)) (t : Tail) (o : ℕ) (rest : List ℕ)
      → AllLabels ls
      → IsTail t
      → drop o m ≡ name_bytes ls t ++ rest
      → skipname m o ≡ some (o + length (name_bytes ls t))
  unfolding skipname
  skipname_lem ls t o rest a v h =
      skip_from_lem ls (suc (length m)) o t rest a v
        (omega (
          arith,
          labels_short ls t,
          ap length h,
          length-drop o m,
          length-append (name_bytes ls t) rest,
        ))
        h
