-- ===== src/Base/Buffer.antt =====
-- Byte buffers: bcopy's source and destination, and big-endian longs in bytes.
use Prim.Native.Nat.{ℕ, zero, suc, ◌+◌, ◌*◌, ◌/◌, ◌%◌, ◌≤◌, ◌<◌}
use mathlib.Core.Path.{◌≡◌, refl, ap}
use mathlib.Core.List.{List, [], ◌∷◌, ◌++◌}
use native.Mathlib.Omega.{arith}
use atari_sysv_sp.Base.Lists.{length, take, drop}

module _ {ℓ} {A : Type ℓ} where
  -- The n elements from `from` on.
  abbrev pub slice : List A → ℕ → ℕ → List A
  slice xs from n = take n (drop from xs)

  -- The buffer with vs written at offset i; what would fall outside is dropped.
  abbrev pub put : List A → ℕ → List A → List A
  put [] i vs = []
  put (x ∷ xs) zero [] = x ∷ xs
  put (x ∷ xs) zero (v ∷ vs) = v ∷ put xs zero vs
  put (x ∷ xs) (suc i) vs = x ∷ put xs i vs

  pub put_start : (xs vs : List A) → length vs ≤ length xs → put xs 0 vs ≡ vs ++ drop (length vs) xs
  put_start [] [] h = refl
  put_start [] (v ∷ vs) h = absurd (omega arith)
  put_start (x ∷ xs) [] h = refl
  put_start (x ∷ xs) (v ∷ vs) h = ap (◌∷◌ v) (put_start xs vs (omega arith))

  pub take_front : (n : ℕ) (xs ys : List A) → length xs ≡ n → take n (xs ++ ys) ≡ xs
  take_front zero [] ys h = refl
  take_front zero (x ∷ xs) ys h = absurd (omega arith)
  take_front (suc n) [] ys h = absurd (omega arith)
  take_front (suc n) (x ∷ xs) ys h = ap (◌∷◌ x) (take_front n xs ys (omega arith))

  pub take_all : (n : ℕ) (xs : List A) → length xs ≡ n → take n xs ≡ xs
  take_all zero [] h = refl
  take_all zero (x ∷ xs) h = absurd (omega arith)
  take_all (suc n) [] h = refl
  take_all (suc n) (x ∷ xs) h = ap (◌∷◌ x) (take_all n xs (omega arith))

  pub drop_front : (n : ℕ) (xs ys : List A) → length xs ≡ n → drop n (xs ++ ys) ≡ ys
  drop_front zero [] ys h = refl
  drop_front zero (x ∷ xs) ys h = absurd (omega arith)
  drop_front (suc n) [] ys h = absurd (omega arith)
  drop_front (suc n) (x ∷ xs) ys h = drop_front n xs ys (omega arith)

  pub drop_front_suc :
      (n : ℕ) (xs : List A) (y : A) (ys : List A) → length xs ≡ n → drop (suc n) (xs ++ y ∷ ys) ≡ ys
  drop_front_suc zero [] y ys h = refl
  drop_front_suc zero (x ∷ xs) y ys h = absurd (omega arith)
  drop_front_suc (suc n) [] y ys h = absurd (omega arith)
  drop_front_suc (suc n) (x ∷ xs) y ys h = drop_front_suc n xs y ys (omega arith)

-- The bytes of longs, most significant first.
pub bytes : List ℕ → List ℕ
bytes [] = []
bytes (w ∷ ws) = w / 16777216 % 256 ∷ w / 65536 % 256 ∷ w / 256 % 256 ∷ w % 256 ∷ bytes ws

pub longs : List ℕ → List ℕ
longs (a ∷ b ∷ c ∷ d ∷ rest) = (((a * 256 + b) * 256 + c) * 256 + d) ∷ longs rest
longs _ = []

abbrev pub AllWords : List ℕ → Type 0
AllWords [] = Unit
AllWords (w ∷ ws) = (w < 4294967296) × AllWords ws

pub longs-bytes : (ws : List ℕ) → AllWords ws → longs (bytes ws) ≡ ws
unfolding longs bytes
longs-bytes [] h = refl
longs-bytes (w ∷ ws) h = ground (arith, longs-bytes ws h.1)
