-- ===== src/Tlk/Move.antt =====
-- driver-tlk/tlk.c, `tlkread` and `tlkwrite`. A request is its bytes, or the number it asks for; `good`
-- is how many of the user's bytes uiomove() can reach.
use atari_sysv_sp.Base.{
  ℕ, zero, suc, ◌+◌, ◌-◌, Bool, true, false, ◌||◌, List, [], ◌∷◌, ◌++◌, ltb, if◌then◌else◌, take,
  drop, length,
}
use atari_sysv_sp.Tlk.{
  r_in, r_out, r_istat, r_ostat, Link, spin_polls, chunk, Errno, ok, efault, waiting, is_set, spin,
  tlk_wait,
}

-- What write() leaves: the result, the bytes that it gives back (uio_resid), the hardware.
pub record Write (H : Type 0) : Type 0 where
  pub error : Errno
  pub resid : ℕ
  pub hw : H

-- What read() leaves: the result, the bytes that it has handed over, the hardware.
pub record Read (H : Type 0) : Type 0 where
  pub error : Errno
  pub got : List ℕ
  pub hw : H

unfoldable pub is_ok : Errno → Bool
is_ok ok = true
is_ok _ = false

-- The result of a write that ends after some bytes; one that still waits has none.
unfoldable pub given_up : Errno → Errno
given_up waiting = waiting
given_up _ = ok

module _ {H : Type 0} (l : Link H) where
  -- The wait that a byte's turn starts with: none if the status is ready.
  unfoldable pub out_ready : ℕ → ℕ → H → Errno × H
  out_ready rounds timeout h =
      let (v, h1) = l.look r_ostat h in
      if is_set v then (ok, h1) else tlk_wait l rounds timeout r_ostat h1

  -- The loop over a chunk; `resid` is what is left of it.
  unfoldable pub send : ℕ → ℕ → List ℕ → H → Write H
  send rounds timeout [] h = record { error = ok; resid = 0; hw = h }
  send rounds timeout (b ∷ bs) h =
      let (e, h1) = out_ready rounds timeout h in
      let rest = send rounds timeout bs (l.store r_out b h1) in
      if is_ok e then rest else record { error = e; resid = length (b ∷ bs); hw = h1 }

  -- The loop over the chunks, with fuel; `some_done` when bytes have been sent.
  unfoldable pub write_from : ℕ → ℕ → ℕ → Bool → ℕ → List ℕ → H → Write H
  write_from fuel rounds timeout some_done good [] h = record { error = ok; resid = 0; hw = h }
  write_from zero rounds timeout some_done good (b ∷ bs) h = record {
    error = waiting;
    resid = length (b ∷ bs);
    hw = h;
  }
  write_from (suc fuel) rounds timeout some_done good (b ∷ bs) h =
      let buf = take chunk (b ∷ bs) in
      let left = drop chunk (b ∷ bs) in
      let w = send rounds timeout buf h in
      let rest = write_from fuel rounds timeout true (good - length buf) left w.hw in
      let sent = some_done || ltb w.resid (length buf) in
      if ltb good (length buf)
      then record { error = efault; resid = length (b ∷ bs); hw = h }
      else if is_ok w.error
      then rest
      else record {
        error = if sent then given_up w.error else w.error;
        resid = length left + w.resid;
        hw = w.hw;
      }

  unfoldable pub tlkwrite : ℕ → ℕ → ℕ → List ℕ → H → Write H
  tlkwrite rounds timeout good bs h = write_from (length bs) rounds timeout false good bs h

  -- The loop over a chunk: bytes while they keep coming closely, n at most.
  unfoldable pub receive : ℕ → H → List ℕ × H
  receive zero h = ([], h)
  receive (suc n) h =
      let (ready, h1) = spin l r_istat spin_polls h in
      let (b, h2) = l.look r_in h1 in
      let (bs, h3) = receive n h2 in if ready then (b ∷ bs, h3) else ([], h1)

  -- The loop over the chunks of the `resid` bytes that are left to read, with fuel.
  unfoldable pub read_from : ℕ → ℕ → ℕ → H → Read H
  read_from fuel good zero h = record { error = ok; got = []; hw = h }
  read_from zero good (suc resid) h = record { error = waiting; got = []; hw = h }
  read_from (suc fuel) good (suc resid) h =
      let n = if ltb (suc resid) chunk then suc resid else chunk in
      let (bs, h1) = receive n h in
      let rest = read_from fuel (good - length bs) (suc resid - n) h1 in
      if ltb good (length bs)
      then record { error = efault; got = []; hw = h1 }
      else if ltb (length bs) n
      then record { error = ok; got = bs; hw = h1 }
      else record { error = rest.error; got = bs ++ rest.got; hw = rest.hw }

  unfoldable pub tlkread : ℕ → ℕ → ℕ → ℕ → H → Read H
  tlkread rounds timeout good want h =
      let (e, h1) = tlk_wait l rounds timeout r_istat h in
      if is_ok e then read_from want good want h1 else record { error = e; got = []; hw = h1 }
