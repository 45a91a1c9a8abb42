-- ===== src/Base/Loop.antt =====
-- A counted loop that looks for a round, `for (x = i; x < i + n; x++) if (p (x)) ...`, and tables
-- that are checked at every index.
use Prim.Native.Nat.{ℕ, zero, suc, ◌+◌, ◌≤◌, ◌<◌}
use mathlib.Core.Path.{◌≡◌, refl, ap₂}
use mathlib.Core.Logic.{inl, inr}
use mathlib.Core.Bool.{Bool, true, false, ◌&&◌, ◌||◌}
use mathlib.Core.List.{List, [], ◌∷◌}
use native.Mathlib.Omega.{arith}
use atari_sysv_sp.Base.Lists.{range_from}
use atari_sysv_sp.Base.Tests.{Bool-cases}

-- Whether some round of the list passes the test.
unfoldable pub any {ℓ} : {A : Type ℓ} → (A → Bool) → List A → Bool
any p [] = false
any p (x ∷ xs) = p x || any p xs

pub any-range_elim :
    (p : ℕ → Bool) (i n : ℕ)
    → any p (range_from i n) ≡ true
    → (x : ℕ) × (i ≤ x) × (x < i + n) × (p x ≡ true)
unfolding any
any-range_elim p i zero h = absurd (cc)
any-range_elim p i (suc n) h = elim (Bool-cases (p i)) [
  | inl t ↦ (i, omega arith, omega arith, t)
  | inr f ↦
      let (x, lo, hi, t) = any-range_elim p (suc i) n (ground (arith)) in
      (x, omega arith, omega arith, t)
]

pub any-range_intro :
    (p : ℕ → Bool) (i n x : ℕ) → i ≤ x → x < i + n → p x ≡ true → any p (range_from i n) ≡ true
unfolding any
any-range_intro p i zero x lo hi t = absurd (omega arith)
any-range_intro p i (suc n) x lo hi t = ground (arith, any-range_intro p (suc i) n x)

pub any-range_ext :
    (p q : ℕ → Bool) (i n : ℕ)
    → ((x : ℕ) → i ≤ x → x < i + n → p x ≡ q x)
    → any p (range_from i n) ≡ any q (range_from i n)
unfolding any
any-range_ext p q i zero h = refl
any-range_ext p q i (suc n) h =
    ap₂ ◌||◌ (h i (omega arith) (omega arith))
      (any-range_ext p q (suc i) n (λ x lo hi. h x (omega arith) (omega arith)))

-- Whether every index below n passes: a table's property by evaluation.
unfoldable pub all_below : ℕ → (ℕ → Bool) → Bool
all_below zero p = true
all_below (suc n) p = p n && all_below n p

pub all_below_sound : (n : ℕ) (p : ℕ → Bool) (x : ℕ) → all_below n p ≡ true → x < n → p x ≡ true
unfolding all_below
all_below_sound zero p x h l = absurd (omega arith)
all_below_sound (suc n) p x h l = ground (arith, all_below_sound n p x)
