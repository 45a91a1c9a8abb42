-- ===== src/Snd.antt =====
-- driver-snd/snd.c, the DMA sound: the ring that the hardware plays, what write() puts into it and what
-- the tick takes out. The record holds the driver's `snd` and what it has told the DMA and Timer A. The
-- play position `p` (snd_ppos) is an argument where it is read; the ring is a function of the offset.
-- The MICROWIRE and the PSG are not modelled.
pub mod Copy
pub mod Queue
pub mod Tick
pub mod Run
pub mod Chain
pub mod Calls
pub mod Control
mod Tests
use atari_sysv_sp.Base.{
  ℕ, zero, suc, ◌+◌, ◌-◌, ◌*◌, ◌/◌, ◌%◌, Bool, true, false, not, ◌&&◌, ◌||◌, List, [], ◌∷◌, ◌==◌,
  ltb, leb, if◌then◌else◌, get_or, drop, length,
}
use atari_sysv_sp.Base.Words.{word, sub_int}

-- RING, LEAD, BLOCK, BOUNCE
abbrev pub ring_size : ℕ
ring_size = 65536

abbrev pub lead : ℕ
lead = 512

abbrev pub block : ℕ
block = 1024

abbrev pub bounce : ℕ
bounce = 1024

-- struct snd_stats, without `chained`, which SND_STATS fills in
pub record Stats : Type 0 where
  pub intrs : ℕ
  pub late : ℕ
  pub skips : ℕ
  pub fallbacks : ℕ
  pub block : ℕ
  pub repeats : ℕ

-- R_CTRL, R_MODE, the frame that is queued (R_BASE, R_END), and Timer A's control
pub record Dma : Type 0 where
  pub ctrl : ℕ
  pub mode : ℕ
  pub base : ℕ
  pub end : ℕ
  pub tacr : ℕ

-- `snd`; `present` is whether the ring was allocated, `ticking` whether a tick is asked for.
pub record Sound : Type 0 where
  pub opened : Bool
  pub present : Bool
  pub ring : ℕ → ℕ
  pub phys : ℕ
  pub mode : ℕ
  pub wpos : ℕ
  pub cpos : ℕ
  pub filled : ℕ
  pub gap : ℕ
  pub ticking : Bool
  pub underruns : ℕ
  pub volume : ℕ
  pub chained : Bool
  pub nextblk : ℕ
  pub inwork : Bool
  pub lastintrs : ℕ
  pub quiet : ℕ
  pub quietmax : ℕ
  pub unchain_at : ℕ
  pub st : Stats
  pub dma : Dma

-- USED(a, b)
abbrev pub used : ℕ → ℕ → ℕ
used a b = sub_int b a % ring_size

abbrev pub rates : List ℕ
rates = 6258 ∷ 12517 ∷ 25033 ∷ 50066 ∷ []

-- snd_setaddr (R_BASE, ...) and snd_setaddr (R_END, ...): an address is even.
abbrev pub frame : ℕ → ℕ → Dma → Dma
frame from to dma = record dma { base = from - from % 2; end = to - to % 2 }

-- `sndintr`'s part up to the mixer's place: `inwork` is set where the interrupt came into its own work.
unfoldable pub sndintr : ℕ → Sound → Sound
sndintr p d =
    let gone = leb block (used d.nextblk p) in
    let at = if gone then p - p % block else d.nextblk in
    let nb = (at + block) % ring_size in
    if not d.opened || not d.chained then d else record d {
      nextblk = nb;
      dma = frame (d.phys + nb) (d.phys + nb + block) d.dma;
      st = record d.st {
        intrs = d.st.intrs + 1;
        skips = if gone then d.st.skips + 1 else d.st.skips;
        late = if d.inwork then d.st.late + 1 else d.st.late;
      };
    }

-- `hertz` is the kernel's; the rate and whether the mode is mono are in the mode's bits.
unfoldable pub quiet_ticks : ℕ → ℕ → ℕ
quiet_ticks hertz mode =
    let bps = get_or rates (mode % 4) 0 * (if mode / 128 % 2 == 1 then 1 else 2) in
    (2 * block * hertz + bps - 1) / bps + 2

unfoldable pub snd_setquiet : ℕ → Sound → Sound
snd_setquiet hertz d = record d { quietmax = quiet_ticks hertz d.mode }

unfoldable pub snd_unchain : Sound → Sound
snd_unchain d =
    let nb = (d.nextblk + block) % ring_size in
    record d {
      chained = false;
      unchain_at = nb;
      dma = record (frame (d.phys + nb) (d.phys + ring_size) d.dma) { tacr = 0 };
    }

-- A block was played again: the position went back.
abbrev pub replays : ℕ → Sound → Bool
replays p d = (d.chained || not (d.unchain_at == 0)) && ltb (ring_size / 2) (used d.cpos p)

unfoldable pub replayed : ℕ → Sound → Sound
replayed p d =
    if replays p d
    then record d {
      st = record d.st { repeats = d.st.repeats + 1 };
      gap = d.gap + used p d.cpos;
      cpos = p;
    }
    else d

-- The last frame of the chain has begun: the whole ring is queued.
unfoldable pub whole_ring : ℕ → Sound → Sound
whole_ring p d =
    if not (d.unchain_at == 0) && leb d.unchain_at p
    then record d { unchain_at = 0; dma = frame d.phys (d.phys + ring_size) d.dma }
    else d

-- The loop that zeroes n bytes from offset c on.
pub clear : (ℕ → ℕ) → ℕ → ℕ → ℕ → ℕ
clear ring c zero = ring
clear ring c (suc n) = clear (λ i. if i == c then 0 else ring i) ((c + 1) % ring_size) n

-- What has played, n bytes up to p, is taken from the gap and then from the data.
unfoldable pub account : ℕ → ℕ → Sound → Sound
account p n d =
    let w = (p + lead) % ring_size in
    let restart = w - w % 2 in
    if ltb (d.gap + d.filled) n
    then record d {
      underruns = if d.filled == 0 then d.underruns else d.underruns + 1;
      wpos = restart;
      gap = used p restart;
      filled = 0;
    }
    else if ltb d.gap n
    then record d { filled = d.filled - (n - d.gap); gap = 0 }
    else record d { gap = d.gap - n }

-- No frame interrupt for too long: the chain is given up.
unfoldable pub watch : Sound → Sound
unfolding snd_unchain
watch d =
    if not d.chained
    then d
    else if not (d.st.intrs == d.lastintrs)
    then record d { lastintrs = d.st.intrs; quiet = 0 }
    else if ltb d.quietmax (d.quiet + 1)
    then snd_unchain
        (record d { quiet = d.quiet + 1; st = record d.st { fallbacks = d.st.fallbacks + 1 } })
    else record d { quiet = d.quiet + 1 }

-- The part of `snd_tick` that accounts for what has played since the last one.
unfoldable pub advance : ℕ → Sound → Sound
unfolding clear account
advance p d =
    let n = used d.cpos p in
    record (account p n (record d { ring = clear d.ring d.cpos n })) { cpos = p }

unfoldable pub snd_tick : ℕ → Sound → Sound
unfolding replayed whole_ring advance watch
snd_tick p d =
    let d' = watch (advance p (whole_ring p (replayed p d))) in record d' { ticking = d'.opened }

no_stats : Stats
no_stats = record { intrs = 0; late = 0; skips = 0; fallbacks = 0; block = block; repeats = 0 }

-- `snd_start`, with the second block queued behind the first.
unfoldable pub snd_start : ℕ → Sound → Sound
unfolding no_stats snd_setquiet
snd_start hertz d = snd_setquiet hertz (record d {
  ring = λ i. 0;
  cpos = 0;
  filled = 0;
  wpos = lead;
  gap = lead;
  st = no_stats;
  lastintrs = 0;
  quiet = 0;
  unchain_at = 0;
  inwork = false;
  nextblk = block;
  chained = true;
  dma =
      frame (d.phys + block) (d.phys + 2 * block)
        (record d.dma { ctrl = 3; mode = d.mode; tacr = 8 });
})

-- The room for a write: RING - 2 - gap - filled, a negative number as 0.
abbrev pub room : Sound → ℕ
room d = ring_size - 2 - d.gap - d.filled

-- One bcopy of `sndwrite`'s loop: how much, and what it leaves in the ring.
abbrev pub chunk : List ℕ → ℕ → ℕ
chunk bs w = if ltb (ring_size - w) (length bs) then ring_size - w else length bs

abbrev pub copied : (ℕ → ℕ) → List ℕ → ℕ → ℕ → ℕ
copied ring bs w i = if leb w i && ltb i (w + chunk bs w) then get_or bs (i - w) 0 else ring i

-- The loop, with fuel.
pub copy_in : ℕ → List ℕ → ℕ → (ℕ → ℕ) → (ℕ → ℕ) × ℕ
copy_in zero bs w ring = (ring, w)
copy_in (suc fuel) bs w ring =
    let rest =
      copy_in fuel (drop (chunk bs w) bs) ((w + chunk bs w) % ring_size) (copied ring bs w) in
    if length bs == 0 then (ring, w) else rest

-- A piece for which there is room.
unfoldable pub put_piece : List ℕ → Sound → Sound
unfolding copy_in
put_piece bs d =
    let (ring, w) = copy_in (length bs) bs d.wpos d.ring in
    record d { ring = ring; wpos = w; filled = d.filled + length bs }
