-- ===== src/Snd/Run.antt =====
-- The life of an open device as steps: the DMA takes bytes from the ring one by one; pieces are written,
-- ticks and frame interrupts come between them.
use atari_sysv_sp.Base.{
  ℕ, ◌+◌, ◌-◌, ◌%◌, ◌≤◌, ◌<◌, ◌≡◌, Bool, true, false, ◌&&◌, List, [], ◌∷◌, ◌++◌, ltb, leb,
  if◌then◌else◌, drop, length,
}
use atari_sysv_sp.Snd.{
  Sound, ring_size, used, replays, snd_tick, snd_start, sndintr, room, put_piece,
}

-- Whether the place p is one of the data, behind the silence ahead.
abbrev is_data : ℕ → Sound → Bool
is_data p d = leb d.gap (used d.cpos p) && ltb (used d.cpos p) (d.gap + d.filled)

-- The byte that the DMA takes at p, as it stands there then; the silence around the data is left out.
abbrev pub heard : ℕ → Sound → List ℕ
heard p d = if is_data p d then d.ring p ∷ [] else []

-- A device after it was opened, with the place that the DMA plays next, all that was written and all that
-- was heard. A piece is written before the DMA has passed the end of the data. A block is played again
-- before the data after it has begun, and where it and the queue fit into the ring.
pub data Run (hertz : ℕ) : Sound → ℕ → List ℕ → List ℕ → Type 0 where
  started : (d : Sound) → Run hertz (snd_start hertz d) 0 [] []
  wrote :
      {d : Sound} {p : ℕ} {ws hs : List ℕ} (new : List ℕ)
      → Run hertz d p ws hs
      → used d.cpos p ≤ d.gap + d.filled
      → length new ≤ room d
      → Run hertz (put_piece new d) p (ws ++ new) hs
  played :
      {d : Sound} {p : ℕ} {ws hs : List ℕ}
      → Run hertz d p ws hs
      → used d.cpos p + 1 < ring_size
      → Run hertz d ((p + 1) % ring_size) ws (hs ++ heard p d)
  ticked :
      {d : Sound} {p : ℕ} {ws hs : List ℕ}
      → Run hertz d p ws hs
      → replays p d ≡ false
      → Run hertz (snd_tick p d) p ws hs
  repeated :
      {d : Sound} {p : ℕ} {ws hs : List ℕ} (back : ℕ)
      → Run hertz d p ws hs
      → used d.cpos p ≤ d.gap
      → back < ring_size
      → replays back d ≡ true
      → used back d.cpos + d.gap + d.filled ≤ ring_size - 2
      → Run hertz (snd_tick back d) back ws hs
  interrupted :
      {d : Sound} {p : ℕ} {ws hs : List ℕ} → Run hertz d p ws hs → Run hertz (sndintr p d) p ws hs

-- What is still to play: the data behind the place p.
abbrev pub left : ℕ → Sound → List ℕ → List ℕ
left p d bs = drop (used d.cpos p - d.gap) bs
