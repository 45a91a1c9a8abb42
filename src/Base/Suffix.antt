-- ===== src/Base/Suffix.antt =====
-- The elements of a list from an offset on: `drop`, as a cursor in a buffer.
use Prim.Native.Nat.{ℕ, zero, suc, ◌+◌, ◌-◌, ◌≤◌, ◌<◌}
use mathlib.Core.Path.{◌≡◌, refl, sym, ap, ◌∙◌}
use mathlib.Core.List.{List, [], ◌∷◌, ◌++◌}
use native.Mathlib.Omega.{arith}
use atari_sysv_sp.Base.Buffer.{drop_front}
use atari_sysv_sp.Base.Lists.{length, get_or, take, drop}

module _ {ℓ} {A : Type ℓ} where
  pub length-drop : (n : ℕ) (xs : List A) → length (drop n xs) ≡ length xs - n
  length-drop zero xs = omega arith
  length-drop (suc n) [] = omega arith
  length-drop (suc n) (x ∷ xs) = omega (arith, length-drop n xs)

  pub length-take_le : (n : ℕ) (xs : List A) → length (take n xs) ≤ n
  length-take_le zero xs = omega arith
  length-take_le (suc n) [] = omega arith
  length-take_le (suc n) (x ∷ xs) = omega (arith, length-take_le n xs)

  pub length-take : (n : ℕ) (xs : List A) → n ≤ length xs → length (take n xs) ≡ n
  length-take zero xs h = refl
  length-take (suc n) [] h = absurd (omega arith)
  length-take (suc n) (x ∷ xs) h = ap suc (length-take n xs (omega arith))

  pub get_or-drop : (n i : ℕ) (xs : List A) (d : A) → get_or (drop n xs) i d ≡ get_or xs (n + i) d
  get_or-drop zero i xs d = ap (λ k. get_or xs k d) (omega arith)
  get_or-drop (suc n) i [] d = refl
  get_or-drop (suc n) i (x ∷ xs) d =
      get_or-drop n i xs d ∙ ap (λ k. get_or (x ∷ xs) k d) {x = suc (n + i)} (omega arith)

  pub take-drop : (n : ℕ) (xs : List A) → take n xs ++ drop n xs ≡ xs
  take-drop zero xs = refl
  take-drop (suc n) [] = refl
  take-drop (suc n) (x ∷ xs) = ap (◌∷◌ x) (take-drop n xs)

  pub drop-drop : (a c : ℕ) (xs : List A) → drop (a + c) xs ≡ drop c (drop a xs)
  drop-drop zero c xs = let z : 0 + c ≡ c = omega arith in rw z refl
  drop-drop (suc a) zero [] = let z : suc a + 0 ≡ suc a = omega arith in rw z refl
  drop-drop (suc a) (suc c) [] = let s : suc a + suc c ≡ suc (a + suc c) = omega arith in rw s refl
  drop-drop (suc a) c (x ∷ xs) =
      let s : suc a + c ≡ suc (a + c) = omega arith in rw s (drop-drop a c xs)

  pub drop-end : (n : ℕ) (xs : List A) → length xs ≤ n → drop n xs ≡ []
  drop-end zero [] h = refl
  drop-end zero (x ∷ xs) h = absurd (omega arith)
  drop-end (suc n) [] h = refl
  drop-end (suc n) (x ∷ xs) h = drop-end n xs (omega arith)

-- What stands at a cursor.
pub at_cursor :
    (m : List ℕ) (o : ℕ) {x : ℕ} {xs : List ℕ}
    → drop o m ≡ x ∷ xs
    → (o < length m) × (get_or m o 0 ≡ x) × (drop (o + 1) m ≡ xs)
at_cursor m o {x} {xs} h = (
  omega (arith, length-drop o m, ap length h),
  ap (λ k. get_or m k 0) (omega arith) ∙ sym (get_or-drop o 0 m 0) ∙ ap (λ l. get_or l 0 0) h,
  drop-drop o 1 m ∙ ap (drop 1) h,
)

-- ... and past a piece of it.
pub past : (m : List ℕ) (o : ℕ) (xs ys : List ℕ) → drop o m ≡ xs ++ ys → drop (o + length xs) m ≡ ys
past m o xs ys h =
    drop-drop o (length xs) m ∙ ap (drop (length xs)) h ∙ drop_front (length xs) xs ys refl

-- ... and any of the elements there.
pub behind_cursor :
    (m : List ℕ) (o i : ℕ) {xs : List ℕ} → drop o m ≡ xs → get_or m (o + i) 0 ≡ get_or xs i 0
behind_cursor m o i h = sym (get_or-drop o i m 0) ∙ ap (λ l. get_or l i 0) h
