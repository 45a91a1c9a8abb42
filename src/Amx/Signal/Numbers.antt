-- ===== src/Amx/Signal/Numbers.antt =====
-- What the translation of signal numbers keeps.
use atari_sysv_sp.Base.{
  ℕ, ◌+◌, if◌then◌else◌, ◌≤◌, ◌<◌, ◌≡◌, refl, true, ◌&&◌, ◌||◌, ◌==◌, leb, ==_iff, arith,
}
use atari_sysv_sp.Base.Loop.{all_below, all_below_sound}
use atari_sysv_sp.Amx.Signal.{sig_in, sig_out}

round_trip : all_below 32 (λ n. sig_out (sig_in n) == n) ≡ true
unfolding all_below sig_out sig_in
round_trip = refl

in_range : all_below 32 (λ n. n == 0 || leb 1 (sig_in n) && leb (sig_in n) 38) ≡ true
unfolding all_below sig_in
in_range = refl

-- Every AMIX signal number that is translated for ASV is translated back to itself.
pub sig_out-sig_in : (n : ℕ) → n < 32 → sig_out (sig_in n) ≡ n
sig_out-sig_in n h =
    (==_iff _ _).0 (all_below_sound 32 (λ n. sig_out (sig_in n) == n) n round_trip h)

-- An AMIX signal is a signal of ASV.
pub sig_in_bounds : (n : ℕ) → 1 ≤ n → n < 32 → (1 ≤ sig_in n) × (sig_in n ≤ 38)
sig_in_bounds n lo hi =
    ground
      (arith, all_below_sound 32 (λ n. n == 0 || leb 1 (sig_in n) && leb (sig_in n) 38) n in_range)

-- ASV's numbers for AMIX's signals: SIGURG (21), SIGIO and SIGXCPU's group have moved.
abbrev pub asv_signal : ℕ → ℕ
asv_signal n =
    if n == 21
    then 33
    else if n == 28 || n == 29
    then n + 9
    else if n == 30 || n == 31
    then n + 5
    else n

asv_table : all_below 32 (λ n. sig_in n == asv_signal n) ≡ true
unfolding all_below sig_in
asv_table = refl

pub sig_in-asv_signal : (n : ℕ) → n < 32 → sig_in n ≡ asv_signal n
sig_in-asv_signal n h =
    (==_iff _ _).0 (all_below_sound 32 (λ n. sig_in n == asv_signal n) n asv_table h)
