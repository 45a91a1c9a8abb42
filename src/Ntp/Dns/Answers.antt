-- ===== src/Ntp/Dns/Answers.antt =====
-- The answer to a query: its resource records, and the addresses that are taken from them.
use atari_sysv_sp.Base.{
  ℕ, zero, suc, ◌+◌, ◌*◌, ◌/◌, ◌%◌, ◌≤◌, ◌<◌, ◌≡◌, refl, sym, ◌∙◌, ap, ap₂, Bool, true, false,
  Bool-cases, ◌&&◌, ◌||◌, inl, inr, List, [], ◌∷◌, ◌++◌, ◌==◌, ltb, if◌then◌else◌, if_false, get_or,
  take, drop, length, length-append, arith,
}
use atari_sysv_sp.Base.Buffer.{take_front}
use atari_sysv_sp.Base.Suffix.{length-drop, at_cursor, past}
use atari_sysv_sp.Ntp.Dns.{short_at, rdlen, is_address, answers_from, dns_answer}
use atari_sysv_sp.Ntp.Dns.Names.{Tail, IsTail, name_bytes, AllLabels, labels_short, skipname_lem}

-- A resource record; `about` is its class and its time to live.
pub record Resource : Type 0 where
  pub labels : List (List ℕ)
  pub tail : Tail
  pub type_hi : ℕ
  pub type_lo : ℕ
  pub about : List ℕ
  pub rdata : List ℕ

pub record IsResource (a : Resource) : Type 0 where
  pub labels_in : AllLabels a.labels
  pub tail_in : IsTail a.tail
  pub about_in : length a.about ≡ 6
  pub rdata_in : length a.rdata < 65536

unfoldable pub fields : Resource → List ℕ → List ℕ
fields a rest =
    a.type_hi
    ∷ a.type_lo
    ∷ (a.about ++ (length a.rdata / 256 ∷ length a.rdata % 256 ∷ (a.rdata ++ rest)))

-- The records as they are sent.
unfoldable pub packed : List Resource → List ℕ → List ℕ
packed [] rest = rest
packed (a ∷ rs) rest = name_bytes a.labels a.tail ++ fields a (packed rs rest)

abbrev pub AllResources : List Resource → Type 0
AllResources [] = Unit
AllResources (a ∷ rs) = IsResource a × AllResources rs

abbrev pub is_host : Resource → Bool
is_host a = (a.type_hi * 256 + a.type_lo == 1) && (length a.rdata == 4)

-- The addresses among them, in order.
unfoldable pub addresses : List Resource → List (List ℕ)
addresses [] = []
addresses (a ∷ rs) = if is_host a then a.rdata ∷ addresses rs else addresses rs

module _ (m : List ℕ) where
  -- The fields behind a name.
  fields_lem :
      (o : ℕ) (a : Resource) (rest : List ℕ)
      → IsResource a
      → drop o m ≡ fields a rest
      → (is_address m o ≡ is_host a)
        × (rdlen m o ≡ length a.rdata)
        × (drop (o + 10) m ≡ a.rdata ++ rest)
        × (o + 10 + length a.rdata ≤ length m)
  unfolding fields
  fields_lem o a rest v h =
      let (i0, e0, h1) = at_cursor m o h in
      let (i1, e1, h2) = at_cursor m (o + 1) h1 in
      let h3 = past m (o + 1 + 1) a.about _ h2 in
      let eight : o + 1 + 1 + length a.about ≡ o + 8 = omega (arith, v.about_in) in
      let (i2, e2, h4) = at_cursor m (o + 8) (ap (λ k. drop k m) (sym eight) ∙ h3) in
      let nine : o + 8 + 1 ≡ o + 9 = omega arith in
      let (i3, e3, h5) = at_cursor m (o + 8 + 1) h4 in
      let ten : o + 8 + 1 + 1 ≡ o + 10 = omega arith in
      let len : rdlen m o ≡ length a.rdata =
        ap₂ (λ x y. x * 256 + y) e2 e3 ∙ omega (arith, v.rdata_in) in
      let h6 = ap (λ k. drop k m) (sym ten) ∙ h5 in
      (
        ap₂ (λ x y. (x == 1) && (y == 4)) (ap₂ (λ x y. x * 256 + y) e0 e1) len,
        len,
        h6,
        omega (arith, i3, ap length h6, length-drop (o + 10) m, length-append a.rdata rest),
      )

  -- From an offset at which the records stand, the loop finds their addresses, `max` at most.
  answers_from_lem :
      (rs : List Resource) (max o : ℕ) (rest : List ℕ)
      → AllResources rs
      → drop o m ≡ packed rs rest
      → answers_from m (length rs) max o ≡ take max (addresses rs)
  unfolding answers_from packed addresses
  answers_from_lem [] zero o rest a h = refl
  answers_from_lem [] (suc max) o rest a h = refl
  answers_from_lem (r ∷ rs) zero o rest a h = refl
  answers_from_lem (r ∷ rs) (suc max) o rest (v, a) h =
      let o' = o + length (name_bytes r.labels r.tail) in
      let named =
        skipname_lem m r.labels r.tail o (fields r (packed rs rest)) v.labels_in v.tail_in h in
      let (address, len, behind, inside) =
        fields_lem o' r (packed rs rest) v (past m o (name_bytes r.labels r.tail) _ h) in
      let after = past m (o' + 10) r.rdata (packed rs rest) behind in
      let within : (ltb (length m) (o' + 10) || ltb (length m) (o' + 10 + length r.rdata)) ≡ false =
        ground (arith, inside) in
      rw (answers_from, named, address, len)
        (if_false _ _ within ∙ elim (Bool-cases (is_host r)) [
          | inl t ↦
              let four : length r.rdata ≡ 4 = ground (arith, t) in
              rw t (
                ap₂ (◌∷◌) (ap (take 4) behind ∙ take_front 4 r.rdata (packed rs rest) four)
                  (answers_from_lem rs max (o' + 10 + length r.rdata) rest a after))
          | inr f ↦ rw f (answers_from_lem rs (suc max) (o' + 10 + length r.rdata) rest a after)
        ])

-- An answer that has the query's id and tells of no error, and that holds one question, of any name and
-- four bytes, and then resource records, as many as its count says, gives the addresses among them, in
-- order, `max` at most.
pub dns_answer_lem :
    (q r : List ℕ) (ls : List (List ℕ)) (t : Tail) (asked : List ℕ) (rs : List Resource)
    (rest : List ℕ) (max : ℕ)
    → get_or r 0 0 ≡ get_or q 0 0
    → get_or r 1 0 ≡ get_or q 1 0
    → get_or r 3 0 % 16 ≡ 0
    → short_at r 6 ≡ length rs
    → AllLabels ls
    → IsTail t
    → length asked ≡ 4
    → AllResources rs
    → drop 12 r ≡ name_bytes ls t ++ (asked ++ packed rs rest)
    → dns_answer q r max ≡ take max (addresses rs)
unfolding dns_answer
dns_answer_lem q r ls t asked rs rest max i0 i1 ok count a v four all h =
    let there : ltb (length r) 12 ≡ false = ground (
      arith,
      length-drop 12 r,
      ap length h,
      labels_short r ls t,
      length-append (name_bytes ls t) (asked ++ packed rs rest),
    ) in
    let same0 : (get_or r 0 0 == get_or q 0 0) ≡ true = ground (arith, i0) in
    let same1 : (get_or r 1 0 == get_or q 1 0) ≡ true = ground (arith, i1) in
    let fine : (get_or r 3 0 % 16 == 0) ≡ true = ground (arith, ok) in
    let behind = past r (12 + length (name_bytes ls t)) asked _ (past r 12 (name_bytes ls t) _ h) in
    rw (there, same0, same1, fine, skipname_lem r ls t 12 _ a v h, count)
      (answers_from_lem r rs max (12 + length (name_bytes ls t) + 4) rest all
        (ap (λ k. drop (12 + length (name_bytes ls t) + k) r) (sym four) ∙ behind))
