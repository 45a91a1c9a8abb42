-- ===== src/Amx/Signal/Flags.antt =====
-- The flags of sigaction and the status of wait().
use atari_sysv_sp.Base.{
  ℕ, ◌+◌, ◌-◌, ◌*◌, ◌/◌, ◌%◌, ◌<◌, ◌≡◌, ◌≢◌, refl, ◌∙◌, Bool, true, not, ◌⊎◌, ==_iff, ◌&&◌, ◌||◌,
  ◌==◌, ltb, arith, List, [], ◌∷◌, if◌then◌else◌, ℕ_discrete, inl, inr,
}
use atari_sysv_sp.Base.Bits.{bit, set_bit, bit-set_bit, bit_zero}
use atari_sysv_sp.Base.Loop.{any, all_below, all_below_sound}
use atari_sysv_sp.Amx.Signal.{
  sig_out, saf, saflags_in_from, saflags_out_from, saflags_in, saflags_out, wstat_out,
}

bit-saflags_in_from :
    (f r : ℕ) (rows : List (ℕ × ℕ)) (j : ℕ)
    → bit (saflags_in_from f r rows) j ≡ bit r j || any (λ row. (row.1 == j) && bit f row.0) rows
unfolding saflags_in_from any
bit-saflags_in_from f r [] j = ground arith
bit-saflags_in_from f r ((x, y) ∷ rows) j = ground (
  arith,
  bit-saflags_in_from f (set_bit r y) rows j,
  bit-saflags_in_from f r rows j,
  bit-set_bit r y j,
)

bit-saflags_out_from :
    (f r : ℕ) (rows : List (ℕ × ℕ)) (j : ℕ)
    → bit (saflags_out_from f r rows) j ≡ bit r j || any (λ row. (row.0 == j) && bit f row.1) rows
unfolding saflags_out_from any
bit-saflags_out_from f r [] j = ground arith
bit-saflags_out_from f r ((x, y) ∷ rows) j = ground (
  arith,
  bit-saflags_out_from f (set_bit r x) rows j,
  bit-saflags_out_from f r rows j,
  bit-set_bit r x j,
)

-- The bits of the flags that both systems have, as AMIX numbers them.
abbrev pub is_known : ℕ → Bool
is_known j = ltb j 5 || j == 16 || j == 17

bit-saflags_in : (f j : ℕ) → bit (saflags_in f) j ≡ any (λ row. (row.1 == j) && bit f row.0) saf
unfolding saflags_in
bit-saflags_in f j = bit-saflags_in_from f 0 saf j ∙ rw (bit_zero j) refl

-- The flags of a sigaction that went to ASV and came back are its flags, less those that are not in
-- the table.
pub saflags_out-saflags_in : (f j : ℕ) → bit (saflags_out (saflags_in f)) j ≡ is_known j && bit f j
unfolding saflags_out any
saflags_out-saflags_in f j =
    bit-saflags_out_from (saflags_in f) 0 saf j
    ∙ rw (bit_zero j) (simp (bit-saflags_in f) (ground arith))

abbrev sig_out_fits : ℕ → Bool
sig_out_fits s =
    ltb (sig_out s) 256
    && (not (ltb s 128) || ltb (sig_out s) 128)
    && (s == 0 || not (sig_out s == 0))
    && (s == 127 || not (sig_out s == 127))

sig_out_table : all_below 256 sig_out_fits ≡ true
unfolding all_below sig_out
sig_out_table = refl

sig_out-fits : (s : ℕ) → s < 256 → sig_out_fits s ≡ true
sig_out-fits s h = all_below_sound 256 sig_out_fits s sig_out_table h

-- What a status of wait() says: the signal that stopped the process; the signal that killed it, with
-- the bits above it (the core flag); or an exit status.
pub data Ending : Type 0 where
  stopped : ℕ → Ending
  killed : ℕ → ℕ → Ending
  exited : ℕ → Ending

pub ending : ℕ → Ending
ending st =
    if st % 256 == 127
    then stopped (st / 256)
    else if st % 128 == 0
    then exited st
    else killed (st % 128) (st / 128)

pub amix_ending : Ending → Ending
amix_ending (stopped s) = stopped (sig_out s)
amix_ending (killed s rest) = killed (sig_out s) rest
amix_ending (exited st) = exited st

ending-stopped : (s : ℕ) → ending (s * 256 + 127) ≡ stopped s
unfolding ending
ending-stopped s = ground arith

ending-killed :
    (s r : ℕ) → s < 128 → s ≢ 0 → (r * 128 + s) % 256 ≢ 127 → ending (r * 128 + s) ≡ killed s r
unfolding ending
ending-killed s r h nz ne = ground arith

ending_of_stopped : (st : ℕ) → st % 256 ≡ 127 → ending st ≡ stopped (st / 256)
unfolding ending
ending_of_stopped st e = ground arith

ending_of_exited : (st : ℕ) → st % 128 ≡ 0 → ending st ≡ exited st
unfolding ending
ending_of_exited st e = ground arith

ending_of_killed :
    (st : ℕ) → st % 256 ≢ 127 → st % 128 ≢ 0 → ending st ≡ killed (st % 128) (st / 128)
unfolding ending
ending_of_killed st ne nz = ground arith

move_stop :
    (st s : ℕ) → st < 65536 → st % 256 ≡ 127 → st - st / 256 % 256 * 256 + s * 256 ≡ s * 256 + 127
move_stop st s h e = omega arith

move_kill : (st s : ℕ) → st - st % 128 + s ≡ st / 128 * 128 + s
move_kill st s = omega arith

core_bit :
    (st s : ℕ)
    → s < 128
    → st % 256 ≢ 127
    → (st % 128 ≡ 127) ⊎ (s ≢ 127)
    → (st / 128 * 128 + s) % 256 ≢ 127
core_bit st s h ne (inl e) = omega arith
core_bit st s h ne (inr n) = omega arith

sig_out-ne :
    (s : ℕ)
    → s < 128
    → s ≢ 0
    → (sig_out s < 128) × (sig_out s ≢ 0) × ((s ≡ 127) ⊎ (sig_out s ≢ 127))
sig_out-ne s h nz = elim (ℕ_discrete s 127) [
  | yes e ↦ ground (arith, sig_out-fits s (omega arith))
  | no ne ↦ ground (arith, sig_out-fits s (omega arith))
]

wstat_out-stopped :
    (st : ℕ) → st < 65536 → st % 256 ≡ 127 → wstat_out st ≡ sig_out (st / 256) * 256 + 127
unfolding wstat_out
wstat_out-stopped st h e =
    let top : st / 256 % 256 ≡ st / 256 = omega arith in
    rw ((==_iff _ _).1 e, move_stop st _ h e, top) refl

wstat_out-killed :
    (st : ℕ) → st % 256 ≢ 127 → st % 128 ≢ 0 → wstat_out st ≡ st / 128 * 128 + sig_out (st % 128)
unfolding wstat_out
wstat_out-killed st ne nz = ground (arith, move_kill st (sig_out (st % 128)))

wstat_out-exited : (st : ℕ) → st % 128 ≡ 0 → wstat_out st ≡ st
unfolding wstat_out
wstat_out-exited st e = ground arith

-- A process that stopped, was killed or exited is reported so to its AMIX parent: the signal under
-- its AMIX number, the other bits (the core flag, an exit status) as they were.
pub ending-wstat_out : (st : ℕ) → st < 65536 → ending (wstat_out st) ≡ amix_ending (ending st)
unfolding amix_ending
ending-wstat_out st h = elim (ℕ_discrete (st % 256) 127) [
  | yes e ↦ rw (wstat_out-stopped st h e, ending-stopped, ending_of_stopped st e) refl
  | no ne ↦ elim (ℕ_discrete (st % 128) 0) [
    | yes z ↦ rw (wstat_out-exited st z, ending_of_exited st z) refl
    | no nz ↦
        let (lt, nz', ne') = sig_out-ne (st % 128) (omega arith) nz in
        rw (wstat_out-killed st ne nz, ending_of_killed st ne nz)
          (ending-killed (sig_out (st % 128)) (st / 128) lt nz' (core_bit st _ lt ne ne'))
  ]
]
