-- ===== src/Base/Mask.antt =====
-- C's `&` on 32-bit words, digit by digit, and what it is with a mask of low ones.
use Prim.Native.Nat.{ℕ, zero, suc, ◌+◌, ◌-◌, ◌*◌, ◌/◌, ◌%◌, ◌^◌, ◌≤◌, min}
use mathlib.Core.Path.{◌≡◌, refl, sym}
use native.Mathlib.Omega.{arith}
use native.Mathlib.Nat.{pow-suc}

and_bits : ℕ → ℕ → ℕ → ℕ
and_bits zero x y = 0
and_bits (suc n) x y = 2 * and_bits n (x / 2) (y / 2) + min (x % 2) (y % 2)

-- x & y
unfoldable pub and_word : ℕ → ℕ → ℕ
unfolding and_bits
and_word x y = and_bits 32 x y

-- x & ~y
abbrev pub and_not : ℕ → ℕ → ℕ
and_not x y = x - and_word x y

pub pow_pos : (k : ℕ) → 1 ≤ 2 ^ k
pow_pos zero = omega arith
pow_pos (suc k) = omega (arith, pow-suc 2 k, pow_pos k)

mod_double : (x p : ℕ) → 1 ≤ p → x % (2 * p) ≡ 2 * (x / 2 % p) + x % 2
mod_double x p h = grind arith

and_bits-zero : (n x : ℕ) → and_bits n x 0 ≡ 0
unfolding and_bits
and_bits-zero zero x = refl
and_bits-zero (suc n) x = omega (arith, and_bits-zero n (x / 2))

and_bits_mask : (n k x : ℕ) → k ≤ n → and_bits n x (2 ^ k - 1) ≡ x % 2 ^ k
unfolding and_bits
and_bits_mask zero zero x h = omega arith
and_bits_mask zero (suc k) x h = absurd (omega arith)
and_bits_mask (suc n) zero x h = omega (arith, and_bits-zero n (x / 2))
and_bits_mask (suc n) (suc k) x h =
    let half : (2 ^ suc k - 1) / 2 ≡ 2 ^ k - 1 = omega (arith, pow-suc 2 k, pow_pos k) in
    let low : min (x % 2) ((2 ^ suc k - 1) % 2) ≡ x % 2 = omega (arith, pow-suc 2 k, pow_pos k) in
    let double : 2 ^ suc k ≡ 2 * 2 ^ k = omega (arith, pow-suc 2 k) in
    rw half (
      rw (and_bits_mask n k (x / 2) (omega arith))
        (rw low (rw double (sym (mod_double x (2 ^ k) (pow_pos k))))))

-- A mask of k ones takes the remainder by 2 ^ k.
pub and_word_mask : (k x : ℕ) → k ≤ 32 → and_word x (2 ^ k - 1) ≡ x % 2 ^ k
unfolding and_word
and_word_mask k x h = and_bits_mask 32 k x h
