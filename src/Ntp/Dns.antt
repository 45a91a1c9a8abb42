-- ===== src/Ntp/Dns.antt =====
-- tools/ttntp/ttntp.c, `resolve` and `skipname`: the DNS query for a name, and the addresses in the
-- answer. A message is the list of its bytes, an address its four bytes; inet_addr, the sockets and
-- resolv.conf are not modelled.
pub mod Names
pub mod Query
pub mod Answers
use atari_sysv_sp.Base.{
  ℕ, zero, suc, ◌+◌, ◌-◌, ◌*◌, ◌/◌, ◌%◌, Bool, not, ◌&&◌, ◌||◌, Option, none, some, List, [], ◌∷◌,
  ◌++◌, ◌==◌, ltb, leb, if◌then◌else◌, get_or, take, drop, replicate, length,
}
use atari_sysv_sp.Base.Buffer.{slice}
use atari_sysv_sp.Base.Maybe.{◌>>=◌}

-- The offset after the name at o, with fuel: each round moves on.
pub skip_from : ℕ → List ℕ → ℕ → Option ℕ
skip_from zero m o = none
skip_from (suc fuel) m o =
    let b = get_or m o 0 in
    let rest = skip_from fuel m (o + (b + 1)) in
    if not (ltb o (length m))
    then none
    else if b == 0
    then some (o + 1)
    else if b / 64 % 4 == 3
    then some (o + 2)
    else rest

unfoldable pub skipname : List ℕ → ℕ → Option ℕ
unfolding skip_from
skipname m o = skip_from (suc (length m)) m o

abbrev dot : ℕ
dot = 46

-- The label at the front of a name, and what follows its dot: strchr.
unfoldable pub label : List ℕ → List ℕ
label [] = []
label (c ∷ cs) = let rest = label cs in if c == dot then [] else c ∷ rest

unfoldable pub after_label : List ℕ → List ℕ
after_label [] = []
after_label (c ∷ cs) = let rest = after_label cs in if c == dot then cs else rest

-- The loop over the labels of a name, n the bytes so far, with fuel; `none` refuses the name.
pub labels_from : ℕ → ℕ → List ℕ → Option (List ℕ)
labels_from fuel n [] = some []
labels_from zero n (c ∷ cs) = none
labels_from (suc fuel) n (c ∷ cs) =
    let l = length (label (c ∷ cs)) in
    let rest = labels_from fuel (n + (l + 1)) (after_label (c ∷ cs)) in
    if (l == 0) || ltb 63 l || ltb 512 (n + l + 6)
    then none
    else (do bs ← rest; some (l ∷ (label (c ∷ cs) ++ bs)))

-- The header: the id, recursion desired, one question.
unfoldable pub header : ℕ → List ℕ
header id = id / 256 % 256 ∷ id % 256 ∷ 1 ∷ 0 ∷ 0 ∷ 1 ∷ 0 ∷ 0 ∷ 0 ∷ 0 ∷ 0 ∷ 0 ∷ []

unfoldable pub dns_query : ℕ → List ℕ → Option (List ℕ)
unfolding labels_from
dns_query id name = (do
  bs ← labels_from (length name) 12 name
  some (header id ++ (bs ++ (0 ∷ 0 ∷ 1 ∷ 0 ∷ 1 ∷ []))))

abbrev pub short_at : List ℕ → ℕ → ℕ
short_at m i = get_or m i 0 * 256 + get_or m (i + 1) 0

-- The answer whose name ends before o: its data's length and, if it is an address, the address.
abbrev pub rdlen : List ℕ → ℕ → ℕ
rdlen m o = short_at m (o + 8)

abbrev pub is_address : List ℕ → ℕ → Bool
is_address m o = (short_at m o == 1) && (rdlen m o == 4)

-- The loop over the answers that are left, for at most `max` addresses.
unfoldable pub answers_from : List ℕ → ℕ → ℕ → ℕ → List (List ℕ)
answers_from m zero max o = []
answers_from m (suc left) zero o = []
answers_from m (suc left) (suc max) o = elim (skipname m o) [
  | none ↦ []
  | some o' ↦
      let next = o' + 10 + rdlen m o' in
      let found = slice m (o' + 10) 4 ∷ answers_from m left max next in
      let other = answers_from m left (suc max) next in
      if ltb (length m) (o' + 10) || ltb (length m) next
      then []
      else if is_address m o'
      then found
      else other
]

-- What `resolve` makes of the answer r to the query q: its id must be the query's, and it must not tell
-- of an error.
unfoldable pub dns_answer : List ℕ → List ℕ → ℕ → List (List ℕ)
dns_answer q r max =
    if ltb (length r) 12
      || not (get_or r 0 0 == get_or q 0 0)
      || not (get_or r 1 0 == get_or q 1 0)
      || not (get_or r 3 0 % 16 == 0)
    then []
    else elim (skipname r 12) [ none ↦ [] | some o ↦ answers_from r (short_at r 6) max (o + 4) ]
