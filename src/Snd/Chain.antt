-- ===== src/Snd/Chain.antt =====
-- The chain of blocks that the frame interrupt keeps ahead of the DMA.
use atari_sysv_sp.Base.{ℕ, ◌+◌, ◌*◌, ◌/◌, ◌%◌, ◌<◌, ◌≡◌, inl, inr, true, leb, arith, Bool-cases}
use atari_sysv_sp.Snd.{Sound, ring_size, block, used, sndintr, snd_start, snd_setquiet}

-- The frame that is queued is a whole block of the ring, `nextblk`.
pub record IsChained (d : Sound) : Type 0 where
  pub next_in : d.nextblk < ring_size
  pub aligned : d.nextblk % block ≡ 0
  pub base_is : d.dma.base ≡ d.phys + d.nextblk
  pub end_is : d.dma.end ≡ d.phys + d.nextblk + block

-- A frame interrupt of the chain queues the block after the one that the DMA is in, wherever that is, the
-- first one after the last: a whole block, at its place in the ring. (The ring is at an even address.)
pub sndintr_lem :
    (p : ℕ) (d : Sound)
    → p < ring_size
    → d.phys % 2 ≡ 0
    → d.opened ≡ true
    → d.chained ≡ true
    → IsChained d
    → IsChained (sndintr p d) × ((sndintr p d).nextblk ≡ (p / block + 1) * block % ring_size)
unfolding sndintr
sndintr_lem p d hp even o c v =
    rw (o, c)
      (elim (Bool-cases (leb block (used d.nextblk p))) [
        | inl gone ↦ rw gone (
          record {
            next_in = omega arith;
            aligned = omega arith;
            base_is = omega (arith, even);
            end_is = omega (arith, even);
          },
          omega arith,
        )
        | inr here ↦ rw here (
          record {
            next_in = omega arith;
            aligned = omega (arith, v.aligned);
            base_is = omega (arith, even, v.aligned);
            end_is = omega (arith, even, v.aligned);
          },
          ground (arith, here, v.aligned, v.next_in),
        )
      ])

pub snd_start-IsChained : (hertz : ℕ) (d : Sound) → d.phys % 2 ≡ 0 → IsChained (snd_start hertz d)
unfolding snd_start snd_setquiet
snd_start-IsChained hertz d even = record {
  next_in = omega arith;
  aligned = omega arith;
  base_is = omega (arith, even);
  end_is = omega (arith, even);
}
