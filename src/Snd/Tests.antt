-- ===== src/Snd/Tests.antt =====
-- The sound driver at concrete devices.
use atari_sysv_sp.Base.{ℕ, ◌+◌, ◌*◌, ◌/◌, ◌%◌, ◌≡◌, refl, true, false, [], ◌∷◌, ◌++◌, arith}
use atari_sysv_sp.Snd.{
  Sound, ring_size, block, no_stats, snd_start, snd_setquiet, put_piece, sndintr,
}
use atari_sysv_sp.Snd.Run.{Run, left}
use atari_sysv_sp.Snd.Chain.{IsChained, sndintr_lem}
use atari_sysv_sp.Snd.Calls.{sndwrite}

abbrev closed : Sound
closed = record {
  opened = false;
  present = true;
  ring = λ i. 9;
  phys = 4096;
  mode = 130;
  wpos = 0;
  cpos = 0;
  filled = 0;
  gap = 0;
  ticking = false;
  underruns = 0;
  volume = 40;
  chained = false;
  nextblk = 0;
  inwork = false;
  lastintrs = 0;
  quiet = 0;
  quietmax = 0;
  unchain_at = 0;
  st = no_stats;
  dma = record { ctrl = 0; mode = 130; base = 0; end = 0; tacr = 0 };
}

-- Opened, with three bytes written.
abbrev three : Sound
three = put_piece (1 ∷ 2 ∷ 3 ∷ []) (snd_start 100 closed)

-- As the DMA comes to the first of them, 512 bytes of silence on.
abbrev IsSilentTo : ℕ → Type 0
IsSilentTo n = Run 100 three n ([] ++ (1 ∷ 2 ∷ 3 ∷ [])) []

-- A write that is done at once.
all_written : (sndwrite (λ bs. true) [] (4 ∷ 5 ∷ []) three).left ≡ []
unfolding sndwrite snd_start snd_setquiet put_piece
all_written = refl

-- The chain that an open device plays, at the start of its second block.
abbrev chained : Sound
chained = record closed {
  opened = true;
  chained = true;
  nextblk = 1024;
  dma = record { ctrl = 3; mode = 130; base = 5120; end = 6144; tacr = 8 };
}

chained-IsChained : IsChained chained
chained-IsChained = record { next_in = omega arith; aligned = refl; base_is = refl; end_is = refl }

sndintr_example :
    IsChained (sndintr 1030 chained)
    × ((sndintr 1030 chained).nextblk ≡ (1030 / block + 1) * block % ring_size)
sndintr_example = sndintr_lem 1030 chained (omega arith) refl refl refl chained-IsChained
