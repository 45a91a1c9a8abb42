-- ===== src/Amx/Errno.antt =====
-- driver-amix/amx.c, error numbers and the names of pathconf.
pub mod Laws
use atari_sysv_sp.Base.{
  ℕ, Bool, true, false, not, ◌&&◌, ◌||◌, Option, none, some, List, [], ◌∷◌, ◌==◌, ltb,
  if◌then◌else◌, ◌≡◌, ◌≢◌, refl, arith, ==_iff,
}
use atari_sysv_sp.Base.Words.{lt_int}
use atari_sysv_sp.Base.Loop.{all_below, all_below_sound}

-- (ASV, AMIX)
abbrev pub errmap : List (ℕ × ℕ)
errmap =
    (128, 150)
    ∷ (129, 149)
    ∷ (130, 95)
    ∷ (131, 96)
    ∷ (132, 97)
    ∷ (133, 98)
    ∷ (134, 99)
    ∷ (135, 120)
    ∷ (136, 121)
    ∷ (137, 122)
    ∷ (138, 123)
    ∷ (139, 124)
    ∷ (140, 125)
    ∷ (141, 126)
    ∷ (142, 127)
    ∷ (143, 128)
    ∷ (144, 129)
    ∷ (145, 130)
    ∷ (146, 131)
    ∷ (147, 132)
    ∷ (148, 133)
    ∷ (149, 134)
    ∷ (150, 143)
    ∷ (151, 144)
    ∷ (152, 145)
    ∷ (153, 146)
    ∷ (156, 147)
    ∷ (157, 148)
    ∷ (158, 93)
    ∷ (160, 94)
    ∷ (162, 151)
    ∷ (235, 135)
    ∷ (237, 137)
    ∷ (238, 138)
    ∷ (239, 139)
    ∷ (240, 140)
    ∷ (241, 141)
    ∷ (242, 142)
    ∷ []

-- The loop of `err_out` over the rows.
err_out_from : List (ℕ × ℕ) → ℕ → ℕ
err_out_from [] e = e
err_out_from ((asv, amix) ∷ rows) e = if asv == e then amix else err_out_from rows e

unfoldable pub err_out : ℕ → ℕ
unfolding err_out_from
err_out e = if lt_int e 128 then e else err_out_from errmap e

-- _PC_NO_TRUNC, _PC_VDISABLE and _PC_CHOWN_RESTRICTED
unfoldable pub pc_in : ℕ → ℕ
pc_in n = if n == 7 then 8 else if n == 8 then 9 else if n == 9 then 7 else n
