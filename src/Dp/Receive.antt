-- ===== src/Dp/Receive.antt =====
-- driver-dp/dp.c, what a receive brings: the frames that the adapter packed into its answer.
use atari_sysv_sp.Base.{
  ℕ, zero, suc, ◌+◌, ◌-◌, ◌*◌, ◌/◌, ◌%◌, ◌≤◌, ◌<◌, ◌≡◌, refl, sym, ◌∙◌, ap, ap₂, Bool, true, false,
  Bool-cases, not, ◌&&◌, ◌||◌, inl, inr, List, [], ◌∷◌, ◌++◌, append_assoc, ◌==◌, ltb, leb,
  if◌then◌else◌, if_true, if_false, get_or, take, drop, length, length-append, arith,
}
use atari_sysv_sp.Base.Buffer.{slice, take_front}
use atari_sysv_sp.Base.Suffix.{past, behind_cursor}
use atari_sysv_sp.Dp.{rx_ask, set_op, tx_op, rx_op, dp_kick}
use atari_sysv_sp.Dp.Streams.{Dp, granted, asked, ierror, en_rproc}
use atari_sysv_sp.Dp.Done.{
  with_scsi, ipacket, frame_length, is_wedged, has_more, take_frame, receive, after_receive,
  rx_done, count_errs, dp_async_done,
}

-- A frame as the adapter sends it: three bytes of the header that say nothing here, the byte with the
-- mark, the frame, and its CRC.
pub record Packet : Type 0 where
  pub a : ℕ
  pub b : ℕ
  pub c : ℕ
  pub marks : ℕ
  pub frame : List ℕ
  pub crc : List ℕ

-- Another frame follows where `more` says so, and the header is not the mark of a dropped packet.
pub record IsPacket (more : Bool) (p : Packet) : Type 0 where
  pub whole : 14 ≤ length p.frame
  pub fits : length p.frame ≤ 1520
  pub crc_in : length p.crc ≡ 4
  pub marked : (p.marks / 16 % 2 == 1) ≡ more
  pub sound : (p.a == 255 && p.b == 255 && p.c == 255 && p.marks == 255) ≡ false

abbrev pub header : Packet → List ℕ
header p = (length p.frame + 4) / 256 ∷ (length p.frame + 4) % 256 ∷ p.a ∷ p.b ∷ p.c ∷ p.marks ∷ []

abbrev pub packet : Packet → List ℕ
packet p = header p ++ (p.frame ++ p.crc)

unfoldable pub packed : List Packet → List ℕ
packed [] = []
packed (p ∷ ps) = packet p ++ packed ps

abbrev pub are_some : List Packet → Bool
are_some [] = false
are_some (p ∷ ps) = true

abbrev pub AllPackets : List Packet → Type 0
AllPackets [] = Unit
AllPackets (p ∷ ps) = IsPacket (are_some ps) p × AllPackets ps

-- What is to happen: every frame counted and given to its minor, as long as there is memory for it.
unfoldable pub deliver : List Packet → Dp → Dp
deliver [] d = d
deliver (p ∷ ps) d =
    let d' = asked d in
    if granted d then deliver ps (en_rproc p.frame (ipacket d')) else deliver ps (ierror d')

length-packet : (p : Packet) → length p.crc ≡ 4 → length (packet p) ≡ 6 + (length p.frame + 4)
length-packet p h = omega (arith, h, length-append p.frame p.crc)

module _ (rx : List ℕ) (h : ℕ) (p : Packet) (rest : List ℕ) where
  -- The header at h, and what is behind it.
  header_lem :
      length p.frame ≤ 1520
      → drop h rx ≡ packet p ++ rest
      → (frame_length rx h ≡ length p.frame + 4)
        × (is_wedged rx h ≡ (p.a == 255 && p.b == 255 && p.c == 255 && p.marks == 255))
        × (has_more rx h ≡ (p.marks / 16 % 2 == 1))
  header_lem fits e =
      let zero_off : h + 0 ≡ h = omega arith in
      let e0 = ap (λ k. get_or rx k 0) (sym zero_off) ∙ behind_cursor rx h 0 e in
      let e1 = behind_cursor rx h 1 e in
      let e5 = behind_cursor rx h 5 e in
      (
        ap₂ (λ x y. x * 256 + y) e0 e1 ∙ omega arith,
        ap₂ (λ x y. x && y)
            (ap₂ (λ x y. x && y)
              (ap₂ (λ x y. (x == 255) && (y == 255)) (behind_cursor rx h 2 e)
                (behind_cursor rx h 3 e))
              (ap (λ x. x == 255) (behind_cursor rx h 4 e)))
            (ap (λ x. x == 255) e5),
        ap (λ x. x / 16 % 2 == 1) e5,
      )

  slice-frame : drop h rx ≡ packet p ++ rest → slice rx (h + 6) (length p.frame + 4 - 4) ≡ p.frame
  slice-frame e =
      let n : length p.frame + 4 - 4 ≡ length p.frame = omega arith in
      let at : drop (h + 6) rx ≡ p.frame ++ (p.crc ++ rest) =
        past rx h (header p) _ e ∙ append_assoc p.frame p.crc rest in
      ap₂ take n at ∙ take_front (length p.frame) p.frame (p.crc ++ rest) refl

  take_frame-deliver :
      (d : Dp)
      → 14 ≤ length p.frame
      → drop h rx ≡ packet p ++ rest
      → (ps : List Packet)
      → deliver ps (take_frame rx h (length p.frame + 4) d) ≡ deliver (p ∷ ps) d
  unfolding take_frame deliver
  take_frame-deliver d whole e ps =
      let long : leb 18 (length p.frame + 4) ≡ true = ground arith in
      elim (Bool-cases (granted d)) [
        | inl t ↦
            rw (long, t) (ap (λ f. deliver ps (en_rproc f (ipacket (asked d)))) (slice-frame e))
        | inr f ↦ rw (long, f) refl
      ]

  behind :
      length p.crc ≡ 4
      → drop h rx ≡ packet p ++ rest
      → drop (h + (6 + (length p.frame + 4))) rx ≡ rest
  behind four e =
      ap (λ k. drop (h + k) rx) (sym (length-packet p four)) ∙ past rx h (packet p) rest e

packed_long : (p : Packet) (ps : List Packet) → 6 ≤ length (packed (p ∷ ps))
unfolding packed
packed_long p ps = omega arith

-- The loop, from a header on.
receive_lem :
    (fuel : ℕ) (rx : List ℕ) (h got : ℕ) (p : Packet) (ps : List Packet) (rest : List ℕ) (d : Dp)
    → AllPackets (p ∷ ps)
    → length ps < fuel
    → h + length (packed (p ∷ ps)) ≤ rx_ask
    → drop h rx ≡ packed (p ∷ ps) ++ rest
    → receive fuel rx h got d ≡ (got + length (p ∷ ps), deliver (p ∷ ps) d)
unfolding packed receive deliver
receive_lem zero rx h got p ps rest d all f room e = absurd (omega arith)
receive_lem (suc fuel) rx h got p [] rest d (v, all) f room e =
    let e' = e ∙ append_assoc (packet p) [] rest in
    let (len, wedged, more) = header_lem rx h p rest v.fits e' in
    let sane : ((length p.frame + 4 == 0) || ltb 1524 (length p.frame + 4)) ≡ false =
      ground (arith, v.fits) in
    rw (receive, wedged, v.sound, len, sane, more, v.marked)
      (ap (λ x. (got + 1, x)) (take_frame-deliver rx h p rest d v.whole e' []))
receive_lem (suc fuel) rx h got p (q ∷ ps) rest d (v, all) f room e =
    let e' = e ∙ append_assoc (packet p) (packed (q ∷ ps)) rest in
    let (len, wedged, more) = header_lem rx h p (packed (q ∷ ps) ++ rest) v.fits e' in
    let sane : ((length p.frame + 4 == 0) || ltb 1524 (length p.frame + 4)) ≡ false =
      ground (arith, v.fits) in
    let h' = h + (6 + (length p.frame + 4)) in
    let n = length-packet p v.crc_in in
    let behind_room : h' + length (packed (q ∷ ps)) ≤ rx_ask =
      omega (arith, n, length-append (packet p) (packed (q ∷ ps))) in
    let next : leb (h' + 6) rx_ask ≡ true = ground (arith, behind_room, packed_long q ps) in
    rw (receive, wedged, v.sound, len, sane, more, v.marked, next)
      (receive_lem fuel rx h' (got + 1) q ps rest (take_frame rx h (length p.frame + 4) d) all
          (omega arith) behind_room (behind rx h p (packed (q ∷ ps) ++ rest) v.crc_in e')
        ∙ ap₂ (λ k x. (k, x)) (omega arith)
            (take_frame-deliver rx h p (packed (q ∷ ps) ++ rest) d v.whole e' (q ∷ ps)))

length-packed : (ps : List Packet) → length ps ≤ length (packed ps)
unfolding packed
length-packed [] = omega arith
length-packed (p ∷ ps) = omega (arith, length-packed ps, length-append (packet p) (packed ps))

-- The completion of a receive without an error.
async_done-rx :
    (hz now : ℕ) (rx : List ℕ) (d : Dp)
    → d.scsi.flight.op ≡ rx_op
    → dp_async_done hz now false rx d
      ≡ with_scsi
          (dp_kick false)
          (rx_done rx (with_scsi (λ s. record s { busy = false; errs = 0 }) d))
unfolding dp_async_done with_scsi count_errs
async_done-rx hz now rx d op =
    let no_set : (d.scsi.flight.op == set_op) ≡ false = ground (arith, op) in
    let no_tx : (d.scsi.flight.op == tx_op) ≡ false = ground (arith, op) in
    ap (with_scsi (dp_kick false)) (if_false _ _ no_set ∙ if_false _ _ no_tx)

rx_done-packed :
    (p : Packet) (ps : List Packet) (rest : List ℕ) (d : Dp)
    → AllPackets (p ∷ ps)
    → length (packed (p ∷ ps)) ≤ rx_ask
    → rx_done (packed (p ∷ ps) ++ rest) d
      ≡ with_scsi (λ s. record s { idle = 0 }) (deliver (p ∷ ps) d)
unfolding rx_done with_scsi after_receive
rx_done-packed p ps rest d all room =
    let fuel : length ps < rx_ask = omega (arith, length-packed (p ∷ ps)) in
    let done =
      receive_lem rx_ask (packed (p ∷ ps) ++ rest) 0 0 p ps rest d all fuel (omega (arith, room))
        refl in
    let some_got : not (0 + length (p ∷ ps) == 0) ≡ true = ground arith in
    ap (λ r. with_scsi (after_receive r.0) r.1) done
    ∙ ap (λ s. record (deliver (p ∷ ps) d) { scsi = s }) (if_true _ _ some_got)

-- The end of a receive that succeeded with one frame at least: every frame that the adapter packed into its
-- answer, 3072 bytes of it at most, is counted and goes to the minor of its type, in order, and is an error
-- where there is no memory for it; the count of failures and that of empty polls start again, and what is
-- due now is queued.
pub rx_done_lem :
    (hz now : ℕ) (p : Packet) (ps : List Packet) (rest : List ℕ) (d : Dp)
    → d.scsi.flight.op ≡ rx_op
    → AllPackets (p ∷ ps)
    → length (packed (p ∷ ps)) ≤ rx_ask
    → dp_async_done hz now false (packed (p ∷ ps) ++ rest) d
      ≡ with_scsi
          (λ s. dp_kick false (record s { idle = 0 }))
          (deliver (p ∷ ps) (with_scsi (λ s. record s { busy = false; errs = 0 }) d))
unfolding with_scsi
rx_done_lem hz now p ps rest d op all room =
    async_done-rx hz now (packed (p ∷ ps) ++ rest) d op
    ∙ ap (with_scsi (dp_kick false)) (rx_done-packed p ps rest _ all room)
