-- ===== src/Amx/Struct.antt =====
-- driver-amix/amx.c, the structures that pass between AMIX and the kernel, as their longs or, where
-- the fields are bytes (termios, utsname), as their bytes. Each function gives the buffer that it
-- fills.
pub mod Layout
pub mod Context
use atari_sysv_sp.Base.{
  ℕ, ◌+◌, ◌*◌, Bool, ◌&&◌, not, List, [], ◌∷◌, ◌++◌, ◌==◌, if◌then◌else◌, get_or, set, replicate,
  take, drop, range_from,
}
use atari_sysv_sp.Base.Bits.{clear_bit}
use atari_sysv_sp.Base.Buffer.{slice, put}
use atari_sysv_sp.Base.Words.{lt_int}
use atari_sysv_sp.Amx.Signal.{sig_out, mask_in, mask_out, saflags_in, saflags_out}

-- struct sigaction: AMIX { flags; handler; mask[4]; resv[2] }, ASV { handler; mask[2]; flags }
unfoldable pub sa_in : List ℕ → List ℕ
sa_in a = get_or a 1 0 ∷ (mask_in (slice a 2 4) ++ (saflags_in (get_or a 0 0) ∷ []))

unfoldable pub sa_out : List ℕ → List ℕ
sa_out k = saflags_out (get_or k 3 0) ∷ get_or k 0 0 ∷ (mask_out (slice k 1 2) ++ (0 ∷ 0 ∷ []))

-- for (i = ...) a[i] = k[i], over the indices of the list.
copy_longs : List ℕ → List ℕ → List ℕ → List ℕ
copy_longs k a [] = a
copy_longs k a (i ∷ is) = copy_longs k (set a i (get_or k i 0)) is

-- The first argument is SIGCLD, from the system's headers; `a` is what the buffer holds before.
unfoldable pub si_out : ℕ → List ℕ → List ℕ → List ℕ
unfolding copy_longs
si_out sigcld k a =
    let copied = copy_longs k a (range_from 3 29) in
    let signo = set copied 0 (sig_out (get_or k 0 0)) in
    let swapped = set (set signo 1 (get_or k 2 0)) 2 (get_or k 1 0) in
    if get_or k 0 0 == sigcld && (not (lt_int (get_or k 2 0) 2) && not (lt_int 6 (get_or k 2 0)))
    then set swapped 5 (sig_out (get_or k 5 0))
    else swapped

-- stat version 2: `k` holds the 26 longs that are read, the result the 34 of SVR4.
unfoldable pub st_out : List ℕ → List ℕ
unfolding copy_longs
st_out k =
    let zeros = replicate 34 0 in
    let front = set (set zeros 0 (get_or k 0 0)) 4 (get_or k 1 0) in
    let modes = set (set front 5 (get_or k 2 0)) 6 (get_or k 3 0) in
    let owners = set (set modes 7 (get_or k 4 0)) 8 (get_or k 5 0) in
    copy_longs k (set (set owners 9 (get_or k 6 0)) 12 (get_or k 7 0)) (range_from 14 12)

-- termios: four longs of flags, then (on ASV) a pad byte, then 19 control characters.
abbrev pub tios_flags : ℕ
tios_flags = 16

abbrev pub tios_nccs : ℕ
tios_nccs = 19

unfoldable pub tios_in : List ℕ → List ℕ
tios_in a = take tios_flags a ++ (0 ∷ slice a tios_flags tios_nccs)

unfoldable pub tios_out : List ℕ → List ℕ
tios_out k = take tios_flags k ++ slice k (tios_flags + 1) tios_nccs

-- utsname: five fields of 256 bytes on ASV, of 257 on AMIX. The list holds the rounds left.
uts_fields : List ℕ → List ℕ → List ℕ → List ℕ
uts_fields k a [] = a
uts_fields k a (i ∷ is) = uts_fields k (put a (i * 257) (slice k (i * 256) 256)) is

unfoldable pub uts_out : List ℕ → List ℕ
unfolding uts_fields
uts_out k = uts_fields k (replicate 1285 0) (range_from 0 5)

-- ucontext, 256 longs: flags, link, sigmask (4 longs on AMIX, 2 on ASV), stack (3), mcontext.
unfoldable pub uc_in : List ℕ → List ℕ
uc_in a =
    let flags = set (replicate 256 0) 0 (clear_bit (get_or a 0 0) 3) in
    let link = set flags 1 (get_or a 1 0) in
    let mask = put link 2 (mask_in (slice a 2 4)) in
    let stack = put mask 4 (slice a 6 3) in put stack 7 (slice a 9 247)

unfoldable pub uc_out : List ℕ → List ℕ
uc_out k =
    let flags = set (replicate 256 0) 0 (clear_bit (get_or k 0 0) 3) in
    let link = set flags 1 (get_or k 1 0) in
    let mask = put link 2 (mask_out (slice k 2 2)) in
    let stack = put mask 6 (slice k 4 3) in put stack 9 (slice k 7 247)
