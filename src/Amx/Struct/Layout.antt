-- ===== src/Amx/Struct/Layout.antt =====
-- The fields of the two layouts of a structure.
use atari_sysv_sp.Base.{
  ℕ, ◌≡◌, refl, ◌∙◌, ap, ap₂, List, [], ◌∷◌, ◌++◌, ◌^◌, ◌<◌, length, get_or, replicate, arith,
}
use atari_sysv_sp.Base.Bits.{clear_bit}
use atari_sysv_sp.Base.Buffer.{take_front, take_all, drop_front, drop_front_suc}
use atari_sysv_sp.Amx.Signal.{mask_in, mask_out, saflags_in, saflags_out}
use atari_sysv_sp.Amx.Signal.Masks.{mask_out-mask_in, mask_in_words}
use atari_sysv_sp.Amx.Struct.{sa_in, sa_out, st_out, tios_in, tios_out}

-- What stat() tells of a file.
pub record Stat : Type 0 where
  pub dev : ℕ
  pub ino : ℕ
  pub mode : ℕ
  pub nlink : ℕ
  pub uid : ℕ
  pub gid : ℕ
  pub rdev : ℕ
  pub size : ℕ
  pub atime : ℕ × ℕ
  pub mtime : ℕ × ℕ
  pub ctime : ℕ × ℕ
  pub blksize : ℕ
  pub blocks : ℕ
  pub fstype : ℕ × ℕ × ℕ × ℕ

-- What both layouts have from byte 56 on: the times, st_blksize, st_blocks, st_fstype.
stat_tail : Stat → List ℕ
stat_tail s =
    s.atime.0 ∷ s.atime.1 ∷ s.mtime.0 ∷ s.mtime.1 ∷ s.ctime.0 ∷ s.ctime.1 ∷ s.blksize ∷ s.blocks
    ∷ s.fstype.0 ∷ s.fstype.1 ∷ s.fstype.2 ∷ s.fstype.3 ∷ []

-- The first 104 bytes of ASV's struct stat: the front packed, six longs p, the tail.
unfoldable pub asv_stat : Stat → ℕ × ℕ × ℕ × ℕ × ℕ × ℕ → List ℕ
unfolding stat_tail
asv_stat s p =
    s.dev
    ∷ s.ino
    ∷ s.mode
    ∷ s.nlink
    ∷ s.uid
    ∷ s.gid
    ∷ s.rdev
    ∷ s.size
    ∷ p.0
    ∷ p.1
    ∷ p.2
    ∷ p.3
    ∷ p.4
    ∷ p.5
    ∷ stat_tail s

-- SVR4's: st_pad1[3] after st_dev, st_pad2[2] before st_size, a pad after it, eight at the end.
pub svr4_stat : Stat → List ℕ
unfolding stat_tail
svr4_stat s =
    s.dev
    ∷ 0
    ∷ 0
    ∷ 0
    ∷ s.ino
    ∷ s.mode
    ∷ s.nlink
    ∷ s.uid
    ∷ s.gid
    ∷ s.rdev
    ∷ 0
    ∷ 0
    ∷ s.size
    ∷ 0
    ∷ (stat_tail s ++ replicate 8 0)

-- What ASV tells of a file in its layout the AMIX program reads in SVR4's: each field has its
-- value, the pads are zero, and what ASV has between the size and the times is not passed on.
pub st_out-asv_stat : (s : Stat) (p : ℕ × ℕ × ℕ × ℕ × ℕ × ℕ) → st_out (asv_stat s p) ≡ svr4_stat s
unfolding st_out asv_stat svr4_stat
st_out-asv_stat s p = refl

get_or-last : (k : List ℕ) (x : ℕ) → length k ≡ 2 → get_or (k ++ x ∷ []) 2 0 ≡ x
get_or-last [] x h = absurd (omega arith)
get_or-last (a ∷ []) x h = absurd (omega arith)
get_or-last (a ∷ b ∷ []) x h = refl
get_or-last (a ∷ b ∷ c ∷ k) x h = absurd (omega arith)

-- A struct sigaction handed to the kernel and read back is as it was, less the flags and signals
-- that are not translated and what stood in the reserved words.
pub sa_out-sa_in :
    (flags handler m0 m1 m2 m3 r0 r1 : ℕ)
    → m0 < 2 ^ 32
    → sa_out (sa_in (flags ∷ handler ∷ m0 ∷ m1 ∷ m2 ∷ m3 ∷ r0 ∷ r1 ∷ []))
      ≡ saflags_out (saflags_in flags) ∷ handler ∷ clear_bit m0 31 ∷ 0 ∷ 0 ∷ 0 ∷ 0 ∷ 0 ∷ []
unfolding sa_in sa_out
sa_out-sa_in flags handler m0 m1 m2 m3 r0 r1 h =
    let k = mask_in (m0 ∷ m1 ∷ m2 ∷ m3 ∷ []) in
    let two : length k ≡ 2 = rw mask_in_words refl in
    ap₂ (λ f ms. saflags_out f ∷ handler ∷ (ms ++ (0 ∷ 0 ∷ [])))
      (get_or-last k (saflags_in flags) two)
      (ap mask_out (take_front 2 k (saflags_in flags ∷ []) two)
        ∙ mask_out-mask_in (m0 ∷ m1 ∷ m2 ∷ m3 ∷ []) h)

-- termios goes to ASV, with its pad byte, and back unchanged.
pub tios_out-tios_in :
    (flags cc : List ℕ)
    → length flags ≡ 16
    → length cc ≡ 19
    → tios_out (tios_in (flags ++ cc)) ≡ flags ++ cc
unfolding tios_in tios_out
tios_out-tios_in flags cc hf hc =
    let cut = take_front 16 flags cc hf in
    let rest = drop_front 16 flags cc hf in
    rw
      (
        cut,
        rest,
        take_all 19 cc hc,
        take_front 16 flags (0 ∷ cc) hf,
        drop_front_suc 16 flags 0 cc hf,
        take_all 19 cc hc,
      )
      refl
