-- ===== src/Amx/Signal.antt =====
-- driver-amix/amx.c, the signals: numbers, sets of signals, the flags of sigaction, wait statuses.
-- An `int` is its 32-bit pattern; a set is an array of longs.
pub mod Numbers
pub mod Masks
pub mod Flags
use atari_sysv_sp.Base.{
  ℕ, ◌+◌, ◌-◌, ◌*◌, ◌/◌, ◌%◌, Bool, true, false, not, ◌&&◌, ◌||◌, Option, none, some, List, [], ◌∷◌,
  ◌==◌, ltb, leb, if◌then◌else◌, get_or, set, range_from,
}
use atari_sysv_sp.Base.Bits.{bit, set_bit}
use atari_sysv_sp.Base.Words.{lt_int}

-- AMX_NSIG and ASV_NSIG
abbrev pub amx_nsig : ℕ
amx_nsig = 32

abbrev pub asv_nsig : ℕ
asv_nsig = 65

-- The ASV number of each AMIX signal.
abbrev pub sig_a2k : List ℕ
sig_a2k =
    0 ∷ 1 ∷ 2 ∷ 3 ∷ 4 ∷ 5 ∷ 6 ∷ 7 ∷ 8 ∷ 9 ∷ 10 ∷ 11 ∷ 12 ∷ 13 ∷ 14 ∷ 15 ∷ 16 ∷ 17 ∷ 18 ∷ 19 ∷ 20
    ∷ 33 ∷ 22 ∷ 23 ∷ 24 ∷ 25 ∷ 26 ∷ 27 ∷ 37 ∷ 38 ∷ 35 ∷ 36 ∷ []

unfoldable pub sig_in : ℕ → ℕ
sig_in s = if lt_int 0 s && lt_int s amx_nsig then get_or sig_a2k s 0 else s

-- The loop of `sig_out` over the table.
find_sig : ℕ → List ℕ → Option ℕ
find_sig s [] = none
find_sig s (i ∷ is) = if get_or sig_a2k i 0 == s then some i else find_sig s is

abbrev found_or : Option ℕ → ℕ → ℕ
found_or none s = s
found_or (some i) s = i

unfoldable pub sig_out : ℕ → ℕ
unfolding find_sig
sig_out s =
    if lt_int s 21 || not (lt_int s 22) && not (lt_int 27 s)
    then s
    else if s == 34
    then 22
    else found_or (find_sig s (range_from 21 11)) s

-- KWORD and the bit that KBIT sets, counted from the word's low end.
abbrev pub kword : ℕ → ℕ
kword n = (n - 1) / 32

abbrev pub kbit : ℕ → ℕ
kbit n = 31 - (n - 1) % 32

-- k[KWORD(s)] & KBIT(s)
abbrev pub has : List ℕ → ℕ → Bool
has k s = bit (get_or k (kword s) 0) (kbit s)

-- k[KWORD(s)] |= KBIT(s)
pub add_sig : List ℕ → ℕ → List ℕ
add_sig k s = set k (kword s) (set_bit (get_or k (kword s) 0) (kbit s))

-- The rounds of `mask_in`: n runs over the list.
pub mask_in_from : List ℕ → List ℕ → List ℕ → List ℕ
mask_in_from a k [] = k
mask_in_from a k (n ∷ ns) =
    mask_in_from a (if bit (get_or a 0 0) (n - 1) then add_sig k (sig_in n) else k) ns

unfoldable pub mask_in : List ℕ → List ℕ
unfolding mask_in_from add_sig sig_in
mask_in a = mask_in_from a (0 ∷ 0 ∷ []) (range_from 1 31)

-- One round of `mask_out`: what signal s adds to a[0].
abbrev pub out_bit : List ℕ → ℕ → ℕ → ℕ
out_bit k w s =
    if has k s && (ltb 0 (sig_out s) && leb (sig_out s) 32) then set_bit w (sig_out s - 1) else w

pub mask_out_from : List ℕ → ℕ → List ℕ → ℕ
mask_out_from k w [] = w
mask_out_from k w (s ∷ ss) = mask_out_from k (out_bit k w s) ss

unfoldable pub mask_out : List ℕ → List ℕ
unfolding mask_out_from sig_out
mask_out k = mask_out_from k 0 (range_from 1 64) ∷ 0 ∷ 0 ∷ 0 ∷ []

-- The rows of `saf`, each flag by its bit: (AMIX, ASV).
abbrev pub saf : List (ℕ × ℕ)
saf = (0, 16) ∷ (1, 17) ∷ (2, 18) ∷ (3, 19) ∷ (4, 20) ∷ (16, 1) ∷ (17, 0) ∷ []

-- The loop of `saflags` in each direction.
pub saflags_in_from : ℕ → ℕ → List (ℕ × ℕ) → ℕ
saflags_in_from f r [] = r
saflags_in_from f r ((x, y) ∷ rows) = saflags_in_from f (if bit f x then set_bit r y else r) rows

pub saflags_out_from : ℕ → ℕ → List (ℕ × ℕ) → ℕ
saflags_out_from f r [] = r
saflags_out_from f r ((x, y) ∷ rows) = saflags_out_from f (if bit f y then set_bit r x else r) rows

-- saflags (f, 0, 1)
unfoldable pub saflags_in : ℕ → ℕ
unfolding saflags_in_from
saflags_in f = saflags_in_from f 0 saf

-- saflags (f, 1, 0)
unfoldable pub saflags_out : ℕ → ℕ
unfolding saflags_out_from
saflags_out f = saflags_out_from f 0 saf

-- A status of wait(), below 2 ^ 16: 0177 in the low byte means stopped, another value of the low
-- seven bits means killed.
unfoldable pub wstat_out : ℕ → ℕ
unfolding sig_out
wstat_out st =
    if st % 256 == 127
    then st - (st / 256 % 256) * 256 + sig_out (st / 256 % 256) * 256
    else if not (st % 128 == 0)
    then st - st % 128 + sig_out (st % 128)
    else st
