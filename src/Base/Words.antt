-- ===== src/Base/Words.antt =====
-- C's 32-bit `int` and `long` as bit patterns below 2 ^ 32.
use Prim.Native.Nat.{ℕ, ◌+◌, ◌-◌, ◌/◌, ◌%◌, ◌^◌}
use mathlib.Core.Bool.{Bool}
use atari_sysv_sp.Base.Tests.{ltb, if◌then◌else◌}

abbrev pub word : ℕ
word = 2 ^ 32

-- a < b for signed a and b
abbrev pub lt_int : ℕ → ℕ → Bool
lt_int a b = ltb ((a + 2 ^ 31) % word) ((b + 2 ^ 31) % word)

abbrev pub add_int : ℕ → ℕ → ℕ
add_int a b = (a + b) % word

abbrev pub sub_int : ℕ → ℕ → ℕ
sub_int a b = (a + word - b) % word

-- C's division of an `int` a by a positive constant, towards 0
abbrev pub div_int : ℕ → ℕ → ℕ
div_int a k = if lt_int a 0 then sub_int 0 (sub_int 0 a / k) else a / k
