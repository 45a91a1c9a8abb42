-- ===== src/Ntp/Dns/Query.antt =====
-- The query for a name: its labels, in a message that a way over the name leaves at the type.
use atari_sysv_sp.Base.{
  ℕ, zero, suc, ◌+◌, ◌-◌, ◌≤◌, ◌≡◌, ◌≢◌, ◌⊎◌, inl, inr, refl, sym, ◌∙◌, ap, Bool-cases, ◌||◌, some,
  List, [], ◌∷◌, ◌++◌, append_assoc, ◌==◌, ltb, if_true, if_false, drop, length, length-append,
  arith,
}
use atari_sysv_sp.Base.Maybe.{>>=-eq-some}
use atari_sysv_sp.Ntp.Dns.{dot, label, after_label, labels_from, header, dns_query, skipname}
use atari_sysv_sp.Ntp.Dns.Names.{root, tail_bytes, name_bytes, AllLabels, skipname_lem}

-- A name as text, each label with its dot.
unfoldable pub spell : List (List ℕ) → List ℕ
spell [] = []
spell (l ∷ ls) = l ++ dot ∷ spell ls

-- The last dot may be left out.
abbrev pub IsSpelling : List (List ℕ) → List ℕ → Type 0
IsSpelling ls name = (spell ls ≡ name) ⊎ (spell ls ≡ name ++ dot ∷ [])

abbrev pub IsCut : List ℕ → Type 0
IsCut name =
    (label name ++ dot ∷ after_label name ≡ name) ⊎ ((label name ≡ name) × (after_label name ≡ []))

label-IsCut : (name : List ℕ) → IsCut name
unfolding label after_label
label-IsCut [] = inr (refl, refl)
label-IsCut (c ∷ cs) = elim (Bool-cases (c == dot)) [
  | inl t ↦
      let e : c ≡ dot = ground (arith, t) in
      rw (if_true [] (c ∷ label cs) t, if_true cs (after_label cs) t, e) (inl refl)
  | inr f ↦
      rw (if_false [] (c ∷ label cs) f, if_false cs (after_label cs) f)
        (elim (label-IsCut cs) [ inl h ↦ inl (ap (◌∷◌ c) h) | inr h ↦ inr (ap (◌∷◌ c) h.0, h.1) ])
]

abbrev pub Labels : ℕ → List ℕ → List ℕ → Type 0
Labels n name bs =
    (ls : List (List ℕ)) × AllLabels ls
    × IsSpelling ls name
    × (bs ++ (0 ∷ []) ≡ name_bytes ls root)
    × (n + length bs + 5 ≤ 512)

-- No label is empty.
spell-length : (ls : List (List ℕ)) → AllLabels ls → length (spell ls) ≢ 1
unfolding spell
spell-length [] a h = absurd cc
spell-length (l ∷ ls) a h = omega (arith, a.0, h, length-append l (dot ∷ spell ls))

-- A spelling of what follows the first label is one of the name.
spell_first :
    (name : List ℕ) (ls : List (List ℕ))
    → AllLabels ls
    → IsSpelling ls (after_label name)
    → IsSpelling (label name ∷ ls) name
unfolding spell
spell_first name ls a s = elim (label-IsCut name) [
  | inl h ↦ elim s [
    | inl s ↦ inl (ap (λ r. label name ++ dot ∷ r) s ∙ h)
    | inr s ↦ inr (
        ap (λ r. label name ++ dot ∷ r) s
        ∙ sym (append_assoc (label name) (dot ∷ after_label name) (dot ∷ []))
        ∙ ap (λ r. r ++ dot ∷ []) h)
  ]
  | inr h ↦ elim s [
    | inl s ↦ inr (ap (λ r. label name ++ dot ∷ r) (s ∙ h.1) ∙ ap (λ r. r ++ dot ∷ []) h.0)
    | inr s ↦ absurd (spell-length ls a (ap length (s ∙ ap (λ r. r ++ dot ∷ []) h.1)))
  ]
]

labels_from_lem :
    (fuel n : ℕ) (name : List ℕ) {bs : List ℕ}
    → n + 5 ≤ 512
    → labels_from fuel n name ≡ some bs
    → Labels n name bs
unfolding labels_from name_bytes tail_bytes spell
labels_from_lem fuel n [] {bs} room h =
    let e : [] ≡ bs = cc in rw (sym e) ([], tt, inl refl, refl, omega arith)
labels_from_lem zero n (c ∷ cs) room h = absurd cc
labels_from_lem (suc fuel) n (c ∷ cs) {bs} room h =
    let l = length (label (c ∷ cs)) in
    elim (Bool-cases ((l == 0) || ltb 63 l || ltb 512 (n + l + 6))) [
      | inl t ↦ absurd (let e = sym (if_true _ _ t) ∙ h in cc)
      | inr f ↦
          let some_label : 1 ≤ l = ground (arith, f) in
          let short : l ≤ 63 = ground (arith, f) in
          let fits : n + l + 6 ≤ 512 = ground (arith, f) in
          let (rest, r, e) = >>=-eq-some _ _ (sym (if_false _ _ f) ∙ h) in
          let (ls, a, s, b, k) =
            labels_from_lem fuel (n + (l + 1)) (after_label (c ∷ cs)) (omega arith) r in
          let e' : l ∷ (label (c ∷ cs) ++ rest) ≡ bs = cc in
          rw (sym e') (
            label (c ∷ cs) ∷ ls,
            (some_label, short, a),
            spell_first (c ∷ cs) ls a s,
            ap (◌∷◌ l)
                (append_assoc (label (c ∷ cs)) rest (0 ∷ []) ∙ ap (λ r. label (c ∷ cs) ++ r) b),
            omega (arith, length-append (label (c ∷ cs)) rest),
          )
    ]

-- A query that is made for a name fits the buffer and holds the name as labels that spell it, and the
-- way over them ends at the question's type.
pub dns_query_lem :
    (id : ℕ) (name q : List ℕ)
    → dns_query id name ≡ some q
    → (ls : List (List ℕ)) × AllLabels ls
      × IsSpelling ls name
      × (q ≡ header id ++ (name_bytes ls root ++ (0 ∷ 1 ∷ 0 ∷ 1 ∷ [])))
      × (length q ≤ 512)
      × (skipname q 12 ≡ some (length q - 4))
unfolding dns_query header
dns_query_lem id name q h =
    let (bs, r, e) = >>=-eq-some (labels_from (length name) 12 name) _ h in
    let (ls, a, s, b, k) = labels_from_lem (length name) 12 name (omega arith) r in
    let named : q ≡ header id ++ (name_bytes ls root ++ (0 ∷ 1 ∷ 0 ∷ 1 ∷ [])) =
      let question : bs ++ (0 ∷ 0 ∷ 1 ∷ 0 ∷ 1 ∷ []) ≡ name_bytes ls root ++ (0 ∷ 1 ∷ 0 ∷ 1 ∷ []) =
        sym (append_assoc bs (0 ∷ []) (0 ∷ 1 ∷ 0 ∷ 1 ∷ []))
        ∙ ap (λ r. r ++ (0 ∷ 1 ∷ 0 ∷ 1 ∷ [])) b in
      let made : header id ++ (bs ++ (0 ∷ 0 ∷ 1 ∷ 0 ∷ 1 ∷ [])) ≡ q = cc in
      sym made ∙ ap (λ r. header id ++ r) question in
    let long : length (name_bytes ls root) ≡ length bs + 1 =
      sym (ap length b) ∙ length-append bs (0 ∷ []) in
    let size : length q ≡ length bs + 17 =
      ap length named ∙ omega (arith, length-append (name_bytes ls root) (0 ∷ 1 ∷ 0 ∷ 1 ∷ [])) in
    (
      ls,
      a,
      s,
      named,
      omega arith,
      skipname_lem q ls root 12 (0 ∷ 1 ∷ 0 ∷ 1 ∷ []) a tt (ap (drop 12) named)
          ∙ ap some (omega arith),
    )
