-- ===== src/Base/Bits.antt =====
-- The bits of an unsigned word: `w & (1 << i)`, `w |= 1 << i`, `w & ~(1 << i)` and a word's sign,
-- digit by digit, so that the laws go by recursion on the bit's number.
use Prim.Native.Nat.{ℕ, zero, suc, ◌+◌, ◌-◌, ◌*◌, ◌/◌, ◌%◌, ◌^◌, ◌≤◌, ◌<◌}
use mathlib.Core.Path.{◌≡◌, refl}
use mathlib.Core.Bool.{Bool, false, not, ◌&&◌, ◌||◌}
use native.Mathlib.Omega.{arith}
use native.Mathlib.Nat.{pow-suc}
use atari_sysv_sp.Base.Tests.{◌==◌, if◌then◌else◌}

-- (w >> i) & 1
unfoldable pub bit : ℕ → ℕ → Bool
bit w zero = w % 2 == 1
bit w (suc i) = bit (w / 2) i

-- w | (1 << i)
unfoldable pub set_bit : ℕ → ℕ → ℕ
set_bit w zero = if w % 2 == 1 then w else w + 1
set_bit w (suc i) = 2 * set_bit (w / 2) i + w % 2

-- w & ~(1 << i)
unfoldable pub clear_bit : ℕ → ℕ → ℕ
clear_bit w zero = w - w % 2
clear_bit w (suc i) = 2 * clear_bit (w / 2) i + w % 2

set_low_half : (w : ℕ) → (if w % 2 == 1 then w else w + 1) / 2 ≡ w / 2
set_low_half w = ground arith

digit_half : (a w : ℕ) → (2 * a + w % 2) / 2 ≡ a
digit_half a w = omega arith

suc-== : (i j : ℕ) → (suc i == suc j) ≡ (i == j)
suc-== i j = ground arith

-- Setting bit i leaves the other bits alone.
pub bit-set_bit : (w i j : ℕ) → bit (set_bit w i) j ≡ (i == j) || bit w j
unfolding bit set_bit
bit-set_bit w zero zero = ground arith
bit-set_bit w zero (suc j) = rw (set_low_half w) (ground arith)
bit-set_bit w (suc i) zero = ground arith
bit-set_bit w (suc i) (suc j) =
    rw (digit_half (set_bit (w / 2) i) w, suc-==, bit-set_bit (w / 2) i j)

clear_low_half : (w : ℕ) → (w - w % 2) / 2 ≡ w / 2
clear_low_half w = omega arith

-- Clearing bit i leaves the other bits alone.
pub bit-clear_bit : (w i j : ℕ) → bit (clear_bit w i) j ≡ not (i == j) && bit w j
unfolding bit clear_bit
bit-clear_bit w zero zero = ground arith
bit-clear_bit w zero (suc j) = ground (arith, clear_low_half w)
bit-clear_bit w (suc i) zero = ground arith
bit-clear_bit w (suc i) (suc j) =
    rw (digit_half (clear_bit (w / 2) i) w, suc-==, bit-clear_bit (w / 2) i j)

pub bit_zero : (i : ℕ) → bit 0 i ≡ false
unfolding bit
bit_zero zero = refl
bit_zero (suc i) = bit_zero i

pub set_bit-lt : (k w i : ℕ) → i < k → w < 2 ^ k → set_bit w i < 2 ^ k
unfolding set_bit
set_bit-lt zero w i h l = absurd (omega arith)
set_bit-lt (suc k) w zero h l = ground (arith, pow-suc 2 k)
set_bit-lt (suc k) w (suc i) h l =
    omega (arith, pow-suc 2 k, set_bit-lt k (w / 2) i (omega arith) (omega (arith, pow-suc 2 k)))

-- Words of k bits with the same bits are equal.
pub bit_ext : (k x y : ℕ) → x < 2 ^ k → y < 2 ^ k → ((i : ℕ) → i < k → bit x i ≡ bit y i) → x ≡ y
unfolding bit
bit_ext zero x y hx hy h = omega arith
bit_ext (suc k) x y hx hy h = ground (
  arith,
  h 0 (omega arith),
  bit_ext k (x / 2) (y / 2) (omega (arith, pow-suc 2 k)) (omega (arith, pow-suc 2 k))
      (λ i l. h (suc i) (omega arith)),
)

pub clear_bit-le : (w i : ℕ) → clear_bit w i ≤ w
unfolding clear_bit
clear_bit-le w zero = omega arith
clear_bit-le w (suc i) = omega (arith, clear_bit-le (w / 2) i)

digit_low : (a w : ℕ) → (2 * a + w % 2) % 2 ≡ w % 2
digit_low a w = omega arith

pub clear_bit-clear_bit : (w i : ℕ) → clear_bit (clear_bit w i) i ≡ clear_bit w i
unfolding clear_bit
clear_bit-clear_bit w zero = omega arith
clear_bit-clear_bit w (suc i) =
    rw
      (
        digit_half (clear_bit (w / 2) i) w,
        digit_low (clear_bit (w / 2) i) w,
        clear_bit-clear_bit (w / 2) i,
      )
      refl
