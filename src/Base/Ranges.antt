-- ===== src/Base/Ranges.antt =====
-- Lists as functions of an index: `map f` of a range, cut and joined.
use Prim.Native.Nat.{ℕ, zero, suc, ◌+◌, ◌≤◌, ◌<◌}
use mathlib.Core.Path.{◌≡◌, refl, ap, ap₂, ◌∙◌}
use mathlib.Core.List.{List, [], ◌∷◌, ◌++◌, map}
use native.Mathlib.Omega.{arith}
use atari_sysv_sp.Base.Lists.{length, get_or, range_from, replicate}
use atari_sysv_sp.Base.Buffer.{slice}

pub map-range_shift :
    (f g : ℕ → ℕ) (a c n : ℕ)
    → ((i : ℕ) → i < n → f (a + i) ≡ g (c + i))
    → map f (range_from a n) ≡ map g (range_from c n)
map-range_shift f g a c zero h = refl
map-range_shift f g a c (suc n) h = ap₂ ◌∷◌ (rw (first a, first c) at (h 0 (omega arith))) (
    map-range_shift f g (suc a) (suc c) n
      (λ i l. rw (next a i, next c i) (h (suc i) (omega arith))))
  where
    first : (x : ℕ) → x + 0 ≡ x
    first x = omega arith

    next : (x i : ℕ) → suc x + i ≡ x + suc i
    next x i = omega arith

pub map-range_append :
    (f : ℕ → ℕ) (a n m : ℕ)
    → map f (range_from a (n + m)) ≡ map f (range_from a n) ++ map f (range_from (a + n) m)
map-range_append f a zero m =
    let e : a + 0 ≡ a = omega arith in let z : 0 + m ≡ m = omega arith in rw (e, z) refl
map-range_append f a (suc n) m =
    let s : suc n + m ≡ suc (n + m) = omega arith in
    let t : a + suc n ≡ suc a + n = omega arith in
    rw (s, t) (ap (◌∷◌ (f a)) (map-range_append f (suc a) n m))

pub slice_lem :
    (b : List ℕ) (off n : ℕ)
    → off + n ≤ length b
    → slice b off n ≡ map (λ i. get_or b i 0) (range_from off n)
slice_lem b off zero h = refl
slice_lem [] off (suc n) h = absurd (omega arith)
slice_lem (x ∷ b) zero (suc n) h = ap (◌∷◌ x) (
    slice_lem b 0 n (omega arith)
    ∙ map-range_shift (λ i. get_or b i 0) (λ i. get_or (x ∷ b) i 0) 0 1 n (λ i l. one i))
  where
    one : (i : ℕ) → get_or b (0 + i) 0 ≡ get_or (x ∷ b) (1 + i) 0
    one i = let z : 0 + i ≡ i = omega arith in let s : 1 + i ≡ suc i = omega arith in rw (z, s) refl
slice_lem (x ∷ b) (suc off) (suc n) h =
    slice_lem b off (suc n) (omega arith)
    ∙ map-range_shift (λ i. get_or b i 0) (λ i. get_or (x ∷ b) i 0) off (suc off) (suc n)
        (λ i l. one i)
  where
    one : (i : ℕ) → get_or b (off + i) 0 ≡ get_or (x ∷ b) (suc off + i) 0
    one i = let s : suc off + i ≡ suc (off + i) = omega arith in rw s refl

pub replicate_lem : (n a : ℕ) → replicate {A = ℕ} n 0 ≡ map (λ (i : ℕ). 0) (range_from a n)
replicate_lem zero a = refl
replicate_lem (suc n) a = ap (◌∷◌ 0) (replicate_lem n (suc a))
