-- ===== src/Ntp/Records.antt =====
-- tools/ttntp/ttntp.c, `shift_file`, `shift_records`: the login records that init wrote before the
-- clock was set, moved by the clock's step. A file is the list of its records and a position in it counts
-- records; a time is a 32-bit `long` as a pattern. Writes succeed.
pub mod Again
pub mod Dry
use atari_sysv_sp.Base.{
  ℕ, zero, suc, ◌+◌, ◌-◌, ◌*◌, Bool, true, false, not, ◌&&◌, ◌||◌, Option, none, some, List, [],
  ◌∷◌, ◌++◌, ◌==◌, if◌then◌else◌, take, drop,
}
use atari_sysv_sp.Base.Words.{word, lt_int, add_int, sub_int}

-- ut_type, as far as the code tells its values apart.
pub data Kind : Type 0 where
  empty : Kind
  boot_time : Kind
  other : Kind

pub record Entry : Type 0 where
  pub kind : Kind
  pub stamp : ℕ

unfoldable pub is_empty : Kind → Bool
is_empty empty = true
is_empty boot_time = false
is_empty other = false

unfoldable pub is_boot : Kind → Bool
is_boot empty = false
is_boot boot_time = true
is_boot other = false

abbrev pub early_window : ℕ
early_window = 900

-- The place and the stamp of the last boot record, from position i on.
unfoldable pub last_boot : ℕ → Option (ℕ × ℕ) → List Entry → Option (ℕ × ℕ)
last_boot i found [] = found
last_boot i found (e ∷ es) =
    last_boot (i + 1) (if is_boot e.kind then some (i, e.stamp) else found) es

-- The stamp of the next record after hi, `tnext` at the latest, and whether one is before tb.
unfoldable pub around : ℕ → ℕ → ℕ → Bool → List Entry → ℕ × Bool
around tb hi tnext before [] = (tnext, before)
around tb hi tnext before (e ∷ es) =
    let t = e.stamp in
    let skip = around tb hi tnext before es in
    let stamped_before = around tb hi tnext true es in
    let sooner = around tb hi t before es in
    if is_empty e.kind
    then skip
    else if lt_int t tb
    then stamped_before
    else if lt_int hi t && lt_int t tnext
    then sooner
    else skip

unfoldable pub magnitude : ℕ → ℕ
magnitude delta = if lt_int delta 0 then sub_int 0 delta else delta

-- Whether the boot's early records are still where the wrong clock put them.
unfoldable pub are_early : ℕ → ℕ → ℕ × Bool → Bool
are_early delta tb (tnext, before) =
    if lt_int 0 delta
    then not (lt_int tnext (sub_int (add_int tb (magnitude delta)) early_window))
    else before

unfoldable pub shifted : ℕ → ℕ → ℕ → Entry → Entry
shifted delta tb hi e =
    if is_empty e.kind || lt_int e.stamp tb || lt_int hi e.stamp
    then e
    else record { kind = e.kind; stamp = add_int e.stamp delta }

unfoldable pub moves : ℕ → ℕ → Entry → ℕ
moves tb hi e = if is_empty e.kind || lt_int e.stamp tb || lt_int hi e.stamp then 0 else 1

-- The loop that moves the stamps, and the number of records that it moves.
unfoldable pub shift_all : ℕ → ℕ → ℕ → List Entry → List Entry
shift_all delta tb hi [] = []
shift_all delta tb hi (e ∷ es) = shifted delta tb hi e ∷ shift_all delta tb hi es

unfoldable pub count_moves : ℕ → ℕ → List Entry → ℕ
count_moves tb hi [] = 0
count_moves tb hi (e ∷ es) = moves tb hi e + count_moves tb hi es

-- What a run makes of a file: the file, the number of records and `early`.
pub record Shift : Type 0 where
  pub file : List Entry
  pub count : ℕ
  pub early : Bool

-- The second part of `shift_file`, from position pos on.
unfoldable pub shift_from : ℕ → Bool → ℕ → ℕ → ℕ → Bool → List Entry → Shift
shift_from delta dry pos tb hi early es = record {
  file = if dry then es else take pos es ++ shift_all delta tb hi (drop pos es);
  count = count_moves tb hi (drop pos es);
  early = early;
}

unfoldable pub unmoved : Bool → List Entry → Shift
unmoved early es = record { file = es; count = 0; early = early }

-- `log` is true of wtmp and wtmpx, t0 0 for -u, `now` the time.
unfoldable pub shift_file : Bool → ℕ → ℕ → Bool → ℕ → Bool → List Entry → Shift
shift_file log delta t0 dry now early es = elim (last_boot 0 none es) [
  | none ↦ unmoved early es
  | some (boot, tb) ↦
      let pos = if log then boot else 0 in
      let hi = add_int tb early_window in
      let early' = are_early delta tb (around tb hi now false (drop pos es)) in
      if not (t0 == 0)
      then shift_from delta dry pos tb (add_int t0 1) early es
      else if not log
      then (if not early then unmoved early es else shift_from delta dry pos tb hi early es)
      else if not early'
      then unmoved early' es
      else shift_from delta dry pos tb hi early' es
]

-- The files in /var/adm, `none` one that is not there.
pub record Adm : Type 0 where
  pub wtmp : Option (List Entry)
  pub utmp : Option (List Entry)
  pub wtmpx : Option (List Entry)
  pub utmpx : Option (List Entry)

unfoldable pub shift_named :
    Bool → ℕ → ℕ → Bool → ℕ → Bool → Option (List Entry) → Option Shift × Bool
shift_named log delta t0 dry now early none = (none, early)
shift_named log delta t0 dry now early (some es) =
    let s = shift_file log delta t0 dry now early es in (some s, s.early)

-- The four files in turn, with `early` from one to the next.
unfoldable pub shift_records : ℕ → ℕ → Bool → ℕ → Adm → List (Option Shift)
shift_records delta t0 dry now adm =
    let (wtmp, early) = shift_named true delta t0 dry now false adm.wtmp in
    let (utmp, early) = shift_named false delta t0 dry now early adm.utmp in
    let (wtmpx, early) = shift_named true delta t0 dry now early adm.wtmpx in
    let (utmpx, early) = shift_named false delta t0 dry now early adm.utmpx in
    if delta == 0 then [] else wtmp ∷ utmp ∷ wtmpx ∷ utmpx ∷ []
