-- ===== src/Amx/Contexts/Laws.antt =====
-- The table of contexts as the number of times it has each.
use atari_sysv_sp.Base.{
  ℕ, zero, suc, ◌+◌, ◌≤◌, ◌<◌, ◌≡◌, ◌≢◌, refl, ap, ◌∙◌, Bool, true, false, ◌&&◌, some, List, [],
  ◌∷◌, ◌==◌, leb, if◌then◌else◌, length, length-set, set, get_or, arith, Option-cases, inl, inr,
}
use atari_sysv_sp.Amx.Contexts.{
  nuc, Slot, Table, free, find_free, uctake, matches, give_from, ucgive,
}

pub record IsValid (t : Table) : Type 0 where
  pub size : length t.slots ≡ nuc
  pub next_in : t.next < nuc

-- How many contexts of process p at address uc the table holds.
pub count : ℕ → ℕ → List Slot → ℕ
count p uc [] = 0
count p uc (s ∷ ss) = (if matches p uc s then 1 else 0) + count p uc ss

find_free-lt :
    (i : ℕ) (ss : List Slot) {j : ℕ} → find_free i ss ≡ some j → (i ≤ j) × (j < i + length ss)
unfolding find_free
find_free-lt i [] h = absurd (cc)
find_free-lt i (s ∷ ss) {j} h = ground (arith, find_free-lt (suc i) ss {j = j})

free_slot-lt : (ss : List Slot) {i : ℕ} → find_free 0 ss ≡ some i → i < length ss
free_slot-lt ss h = omega (arith, (find_free-lt 0 ss h).1)

-- Delivering a signal keeps the table in shape.
pub uctake-IsValid : {t : Table} (p uc : ℕ) → IsValid t → IsValid (uctake t p uc)
unfolding uctake
uctake-IsValid {t} p uc v = elim (Option-cases (find_free 0 t.slots)) [
  | inl full ↦ rw full (ground (arith, length-set t.slots t.next (record { p = p; uc = uc })))
  | inr (i, e) ↦ rw e (ground (arith, length-set t.slots i (record { p = p; uc = uc })))
]

length-give_from : (p uc : ℕ) (ss : List Slot) → length (give_from p uc ss).1 ≡ length ss
unfolding give_from
length-give_from p uc [] = refl
length-give_from p uc (s ∷ ss) = ground (arith, length-give_from p uc ss)

pub ucgive-IsValid : {t : Table} (p uc : ℕ) → IsValid t → IsValid (ucgive t p uc).1
unfolding ucgive
ucgive-IsValid {t} p uc v = ground (arith, length-give_from p uc t.slots)

abbrev pub one_if : Bool → ℕ
one_if b = if b then 1 else 0

count-set :
    (q v i : ℕ) (ss : List Slot) (s : Slot)
    → i < length ss
    → count q v (set ss i s) + one_if (matches q v (get_or ss i free))
      ≡ count q v ss + one_if (matches q v s)
unfolding count
count-set q v i [] s h = absurd (omega arith)
count-set q v zero (x ∷ ss) s h = omega arith
count-set q v (suc i) (x ∷ ss) s h = omega (arith, count-set q v i ss s (omega arith))

give_from-count :
    (p uc q v : ℕ) (ss : List Slot)
    → q ≢ 0
    → count q v (give_from p uc ss).1 + one_if ((give_from p uc ss).0 && (p == q && uc == v))
      ≡ count q v ss
unfolding give_from count
give_from-count p uc q v [] h = refl
give_from-count p uc q v (s ∷ ss) h = ground (arith, give_from-count p uc q v ss)

give_from-found : (p uc : ℕ) (ss : List Slot) → (give_from p uc ss).0 ≡ leb 1 (count p uc ss)
unfolding give_from count
give_from-found p uc [] = refl
give_from-found p uc (s ∷ ss) = ground (arith, give_from-found p uc ss)

-- `ucgive` says whether the table holds the context, and takes that one entry out and no other.
pub ucgive_lem :
    (t : Table) (p uc q v : ℕ)
    → q ≢ 0
    → ((ucgive t p uc).0 ≡ leb 1 (count p uc t.slots))
      × (count q v (ucgive t p uc).1.slots
            + one_if (leb 1 (count p uc t.slots) && (p == q && uc == v))
          ≡ count q v t.slots)
unfolding ucgive
ucgive_lem t p uc q v h = (
  give_from-found p uc t.slots,
  rw (← give_from-found p uc t.slots) (give_from-count p uc q v t.slots h),
)

slot_free :
    (q v i : ℕ) (ss : List Slot) (k j : ℕ)
    → q ≢ 0
    → j ≡ k + i
    → find_free k ss ≡ some j
    → matches q v (get_or ss i free) ≡ false
unfolding find_free
slot_free q v i [] k j h e f = ground arith
slot_free q v zero (s ∷ ss) k j h e f = ground (arith, find_free-lt (suc k) ss {j = j})
slot_free q v (suc i) (s ∷ ss) k j h e f =
    ground (arith, slot_free q v i ss (suc k) j h (omega arith))

-- While a slot is free no context is forgotten: `uctake` adds its own and keeps the others.
pub uctake_lem :
    (t : Table) (p uc q v : ℕ) {i : ℕ}
    → q ≢ 0
    → find_free 0 t.slots ≡ some i
    → count q v (uctake t p uc).slots ≡ one_if (p == q && uc == v) + count q v t.slots
unfolding uctake
uctake_lem t p uc q v {i} h e = rw e (
    omega (
      arith,
      count-set q v i t.slots (record { p = p; uc = uc }) (free_slot-lt t.slots e),
      ap one_if (slot_free q v i t.slots 0 i h (omega arith) e),
    ))

matches_self : (p uc : ℕ) → matches p uc (record { p = p; uc = uc }) ≡ true
matches_self p uc = ground arith

count-set_self :
    (p uc i : ℕ) (ss : List Slot)
    → i < length ss
    → 1 ≤ count p uc (set ss i (record { p = p; uc = uc }))
unfolding count
count-set_self p uc i [] h = absurd (omega arith)
count-set_self p uc zero (s ∷ ss) h = ground (arith, matches_self p uc)
count-set_self p uc (suc i) (s ∷ ss) h = omega (arith, count-set_self p uc i ss (omega arith))

count-uctake : {t : Table} (p uc : ℕ) → IsValid t → 1 ≤ count p uc (uctake t p uc).slots
unfolding uctake
count-uctake {t} p uc v = elim (Option-cases (find_free 0 t.slots)) [
  | inl full ↦ rw full (count-set_self p uc t.next t.slots (omega arith))
  | inr (i, e) ↦ rw e (count-set_self p uc i t.slots (free_slot-lt t.slots e))
]

-- A context is remembered from the signal's delivery on, also where the table is full and the
-- oldest entry gives way.
pub ucgive-uctake : {t : Table} (p uc : ℕ) → IsValid t → (ucgive (uctake t p uc) p uc).0 ≡ true
unfolding ucgive
ucgive-uctake {t} p uc v =
    give_from-found p uc (uctake t p uc).slots ∙ ground (arith, count-uctake p uc v)
