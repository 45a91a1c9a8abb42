-- ===== src/Dp/Queues.antt =====
-- driver-dp/dp.c, the write queues of the minors: how many frames wait, the frame that is staged, and the
-- order in which `en_wproc` comes to the minors.
use atari_sysv_sp.Base.{
  ℕ, zero, suc, ◌+◌, ◌-◌, ◌%◌, ◌≤◌, ◌<◌, ◌≡◌, refl, sym, ◌∙◌, ap, ap₂, Bool, true, false,
  Bool-cases, not, ◌||◌, inl, inr, ◌⊎◌, some, List, [], ◌∷◌, ◌==◌, ltb, if◌then◌else◌, length,
  arith,
}
use atari_sysv_sp.Dp.{Scsi, is_empty, dp_kick}
use atari_sysv_sp.Dp.Rounds.{dp_kick-Keeps}
use atari_sysv_sp.Dp.Streams.{Blocks, Minor, Dp, gather, pad, dp_xmit, next_minor}
pub mod Wproc

-- The frames on the queues of the first n minors.
unfoldable pub total : (ℕ → Minor) → ℕ → ℕ
total minors zero = 0
total minors (suc n) = length (minors n).frames + total minors n

abbrev pub with_minor : ℕ → Minor → (ℕ → Minor) → ℕ → Minor
with_minor m v minors i = if i == m then v else minors i

-- A frame that dp_xmit puts on the wire.
pub record Fits (f : Blocks) (x : List ℕ) : Type 0 where
  pub gathered : gather 0 f ≡ some x
  pub long : 14 ≤ length x

abbrev pub AllFit : List Blocks → Type 0
AllFit [] = Unit
AllFit (f ∷ fs) = ((x : List ℕ) × Fits f x) × AllFit fs

total-above :
    (n m : ℕ) (v : Minor) (minors : ℕ → Minor)
    → n ≤ m
    → total (with_minor m v minors) n ≡ total minors n
unfolding total
total-above zero m v minors h = refl
total-above (suc n) m v minors h =
    let other : (n == m) ≡ false = ground arith in
    rw other (ap (λ k. length (minors n).frames + k) (total-above n m v minors (omega arith)))

-- One minor's queue changes.
pub total-with_minor :
    (n m : ℕ) (v : Minor) (minors : ℕ → Minor)
    → m < n
    → total (with_minor m v minors) n + length (minors m).frames ≡ total minors n + length v.frames
unfolding total
total-with_minor zero m v minors h = absurd (omega arith)
total-with_minor (suc n) m v minors h = elim (Bool-cases (n == m)) [
  | inl t ↦
      let same : n ≡ m = ground arith in
      rw t (
        ap (λ k. length v.frames + total (with_minor m v minors) n + length (minors k).frames)
          (sym same)
        ∙ omega (arith, total-above n m v minors (omega (arith, same))))
  | inr f ↦
      let less : m < n = ground arith in rw f (omega (arith, total-with_minor n m v minors less))
]

pub total-empty :
    (n : ℕ) (minors : ℕ → Minor) → ((i : ℕ) → i < n → (minors i).frames ≡ []) → total minors n ≡ 0
unfolding total
total-empty zero minors h = refl
total-empty (suc n) minors h =
    rw (h n (omega arith)) (omega (arith, total-empty n minors (λ i l. h i (omega arith))))

-- A staged frame, and one that stays on its queue.
unfoldable pub stage : List ℕ → Dp → Dp
stage x d = record d { scsi = dp_kick true (record d.scsi { tx = pad x }) }

pub dp_xmit-Fits :
    (f : Blocks) (x : List ℕ) (d : Dp)
    → Fits f x
    → d.scsi.tx ≡ []
    → d.scsi.up ≡ true
    → dp_xmit f d ≡ (true, stage x d)
unfolding dp_xmit stage
dp_xmit-Fits f x d v t u =
    let ready = ap₂ (λ a b. not (is_empty a) || not b) t u in
    let long : ltb (length x) 14 ≡ false = ground (arith, v.long) in
    rw (dp_xmit, ready, v.gathered, long) refl

pub dp_xmit-staged :
    (f : Blocks) (d : Dp)
    → (not (is_empty d.scsi.tx) || not d.scsi.up) ≡ true
    → dp_xmit f d ≡ (false, d)
unfolding dp_xmit
dp_xmit-staged f d h = rw (dp_xmit, h) refl

pub List-cases :
    {A : Type 0} (xs : List A) → (xs ≡ []) ⊎ ((x : A) × ((ys : List A) × (xs ≡ x ∷ ys)))
List-cases [] = inl refl
List-cases (x ∷ xs) = inr (x, (xs, refl))

-- The minor that the turn comes to after j others.
pub visit : ℕ → ℕ → ℕ
visit zero n = next_minor n
visit (suc j) n = visit j (next_minor n)

pub next_minor-bound : (n : ℕ) → next_minor n < 8
unfolding next_minor
next_minor-bound n = ground arith

next_minor-mod : (n : ℕ) → n < 8 → next_minor n ≡ (n + 1) % 8
unfolding next_minor
next_minor-mod n h = ground arith

visit_lem : (j n : ℕ) → visit j n ≡ (next_minor n + j) % 8
unfolding visit
visit_lem zero n = omega (arith, next_minor-bound n)
visit_lem (suc j) n =
    visit_lem j (next_minor n) ∙ omega (arith, next_minor-mod (next_minor n) (next_minor-bound n))

pub visited : (m n : ℕ) → m < 8 → (j : ℕ) × (j < 8) × (visit j n ≡ m)
visited m n h =
    let b = next_minor-bound n in
    (
      (m + 8 - next_minor n) % 8,
      omega arith,
      visit_lem ((m + 8 - next_minor n) % 8) n ∙ omega arith,
    )

abbrev pub is_ready : Scsi → Bool
is_ready s = not (not (is_empty s.tx) || not s.up)

pub stage-busy : (x : List ℕ) (d : Dp) → 14 ≤ length x → is_empty (stage x d).scsi.tx ≡ false
unfolding stage
stage-busy x d h = ap is_empty (dp_kick-Keeps true (record d.scsi { tx = pad x })).0 ∙ start x h
  where
    start : (x : List ℕ) → 14 ≤ length x → is_empty (pad x) ≡ false
    start [] h = absurd (omega arith)
    start (b ∷ bs) h = refl
