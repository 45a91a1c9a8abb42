-- ===== src/Tlk/Sent.antt =====
-- What a write puts on the link: `sent` is what the hardware has taken.
use atari_sysv_sp.Base.{
  ℕ, zero, suc, ◌+◌, ◌-◌, ◌≤◌, ◌<◌, ◌≡◌, inl, inr, refl, sym, ◌∙◌, ap, ap₂, Bool, true, false,
  Bool-cases, not, ◌&&◌, List, [], ◌∷◌, ◌++◌, append_assoc, append-nil, ◌==◌, ltb, take, drop,
  length, length-append, arith,
}
use atari_sysv_sp.Base.Suffix.{length-drop, take-drop}
use atari_sysv_sp.Base.Words.{lt_int}
use atari_sysv_sp.Tlk.{
  Reg, r_out, r_ostat, Link, spin_polls, chunk, is_set, spin, wait_from, tlk_wait,
}
use atari_sysv_sp.Tlk.Ready.{IsReady, IsHeld, wait_from-IsReady}
use atari_sysv_sp.Tlk.Move.{Write, is_ok, out_ready, send, write_from, tlkwrite}
use atari_sysv_sp.Tlk.Told.{Told, Told-later, Told-chunk}

-- A link whose output register puts a byte on the line where the status says that it may (and may lose it
-- where not), and where nothing else does; the status stays ready until then.
pub record IsSender {H : Type 0} (l : Link H) (sent : H → List ℕ) : Type 0 where
  pub sent-store :
      (b : ℕ) (h : H) → IsReady l r_ostat h → sent (l.store r_out b h) ≡ sent h ++ b ∷ []
  pub sent-look : (r : Reg) (h : H) → sent (l.look r h).1 ≡ sent h
  pub sent-tick : (h : H) → sent (l.tick h).1 ≡ sent h
  pub held : IsHeld l r_ostat

module _ {H : Type 0} (l : Link H) (sent : H → List ℕ) (v : IsSender l sent) where
  sent-spin : (reg : Reg) (n : ℕ) (h : H) → sent (spin l reg n h).1 ≡ sent h
  unfolding spin
  sent-spin reg zero h = refl
  sent-spin reg (suc n) h = elim (Bool-cases (is_set (l.look reg h).0)) [
    | inl t ↦ rw t (v.sent-look reg h)
    | inr f ↦ rw f (sent-spin reg n (l.look reg h).1 ∙ v.sent-look reg h)
  ]

  sent-wait_from :
      (rounds : ℕ) (reg : Reg) (timeout ticks : ℕ) (h : H)
      → sent (wait_from l rounds reg timeout ticks h).1 ≡ sent h
  unfolding wait_from
  sent-wait_from zero reg timeout ticks h = refl
  sent-wait_from (suc rounds) reg timeout ticks h =
      let (ready, h1) = spin l reg spin_polls h in
      let (signal, h2) = l.tick h1 in
      let spun = sent-spin reg spin_polls h in
      let slept = v.sent-tick h1 ∙ spun in
      elim (Bool-cases ready) [
        | inl t ↦ rw t spun
        | inr f ↦ rw f (elim (Bool-cases (not (timeout == 0) && not (lt_int ticks timeout))) [
          | inl t ↦ rw t spun
          | inr g ↦ rw g (elim (Bool-cases signal) [
            | inl t ↦ rw t slept
            | inr u ↦ rw u (sent-wait_from rounds reg timeout _ h2 ∙ slept)
          ])
        ])
      ]

  sent-out_ready : (rounds timeout : ℕ) (h : H) → sent (out_ready l rounds timeout h).1 ≡ sent h
  unfolding out_ready tlk_wait
  sent-out_ready rounds timeout h = elim (Bool-cases (is_set (l.look r_ostat h).0)) [
    | inl t ↦ rw t (v.sent-look r_ostat h)
    | inr f ↦
        rw f (sent-wait_from rounds r_ostat timeout 0 (l.look r_ostat h).1 ∙ v.sent-look r_ostat h)
  ]

  out_ready-IsReady :
      (rounds timeout : ℕ) (h : H)
      → is_ok (out_ready l rounds timeout h).0 ≡ true
      → IsReady l r_ostat (out_ready l rounds timeout h).1
  unfolding out_ready tlk_wait
  out_ready-IsReady rounds timeout h = elim (Bool-cases (is_set (l.look r_ostat h).0)) [
    | inl t ↦ rw t (λ e. v.held h t)
    | inr f ↦ rw f (wait_from-IsReady l r_ostat v.held rounds timeout 0 (l.look r_ostat h).1)
  ]

  -- The bytes of bs without the last `left` are sent.
  abbrev pub Sends : ℕ → List ℕ → H → H → Type 0
  Sends left bs h h' =
      (front : List ℕ) × (rest : List ℕ) × (bs ≡ front ++ rest)
      × (length rest ≡ left)
      × (sent h' ≡ sent h ++ front)

  send-Sends :
      (rounds timeout : ℕ) (bs : List ℕ) (h : H)
      → Sends (send l rounds timeout bs h).resid bs h (send l rounds timeout bs h).hw
        × (is_ok (send l rounds timeout bs h).error ≡ true → (send l rounds timeout bs h).resid ≡ 0)
  unfolding send
  send-Sends rounds timeout [] h = (([], [], refl, refl, sym (append-nil (sent h))), λ e. refl)
  send-Sends rounds timeout (b ∷ bs) h =
      let h1 = (out_ready l rounds timeout h).1 in
      let waited = sent-out_ready rounds timeout h in
      let ((front, rest, cut, len, more), done) =
        send-Sends rounds timeout bs (l.store r_out b h1) in
      elim (Bool-cases (is_ok (out_ready l rounds timeout h).0)) [
        | inl t ↦
            let all : sent (send l rounds timeout bs (l.store r_out b h1)).hw
                ≡ sent h ++ b ∷ front =
              more
              ∙ ap (λ s. s ++ front)
                  (v.sent-store b h1 (out_ready-IsReady rounds timeout h t)
                    ∙ ap (λ s. s ++ b ∷ []) waited)
              ∙ append_assoc (sent h) (b ∷ []) front in
            rw t ((b ∷ front, rest, ap (◌∷◌ b) cut, len, all), done)
        | inr f ↦ rw f (
          ([], b ∷ bs, refl, refl, waited ∙ sym (append-nil (sent h))),
          λ e. absurd (let n = sym e ∙ f in cc),
        )
      ]

length-nil : (xs : List ℕ) → length xs ≡ 0 → xs ≡ []
length-nil [] h = refl
length-nil (x ∷ xs) h = absurd (omega arith)

module _ {H : Type 0} (l : Link H) (sent : H → List ℕ) (v : IsSender l sent) where
  abbrev pub Writes : Bool → List ℕ → H → Write H → Type 0
  Writes some_done bs h w =
      Sends l sent v w.resid bs h w.hw × Told w.error some_done (length bs) w.resid

  write_from-Writes :
      (fuel rounds timeout : ℕ) (some_done : Bool) (good : ℕ) (bs : List ℕ) (h : H)
      → length bs ≤ fuel
      → Writes some_done bs h (write_from l fuel rounds timeout some_done good bs h)
  unfolding write_from
  write_from-Writes fuel rounds timeout true good [] h f =
      (([], [], refl, refl, sym (append-nil (sent h))), tt)
  write_from-Writes fuel rounds timeout false good [] h f =
      (([], [], refl, refl, sym (append-nil (sent h))), inl refl)
  write_from-Writes zero rounds timeout some_done good (b ∷ bs) h f = absurd (omega arith)
  write_from-Writes (suc fuel) rounds timeout some_done good (b ∷ bs) h f =
      let buf = take chunk (b ∷ bs) in
      let left = drop chunk (b ∷ bs) in
      let whole : buf ++ left ≡ b ∷ bs = take-drop chunk (b ∷ bs) in
      let size : length buf + length left ≡ length (b ∷ bs) =
        sym (length-append buf left) ∙ ap length whole in
      let fewer : length left < length (b ∷ bs) = omega (arith, length-drop chunk (b ∷ bs)) in
      let w = send l rounds timeout buf h in
      let ((front, rest, cut, len, more), done) = send-Sends l sent v rounds timeout buf h in
      let ((front', rest', cut', len', more'), told) =
        write_from-Writes fuel rounds timeout true (good - length buf) left w.hw (omega arith) in
      elim (Bool-cases (ltb good (length buf))) [
        | inl t ↦ rw t (([], b ∷ bs, refl, refl, sym (append-nil (sent h))), tt)
        | inr g ↦ rw g (elim (Bool-cases (is_ok w.error)) [
          | inl t ↦
              let buf_is : buf ≡ front =
                cut ∙ ap (λ r. front ++ r) (length-nil rest (len ∙ done t)) ∙ append-nil front in
              rw t (
                (
                  front ++ front',
                  rest',
                  sym whole ∙ ap₂ (◌++◌) buf_is cut' ∙ sym (append_assoc front front' rest'),
                  len',
                  more' ∙ ap (λ s. s ++ front') more ∙ append_assoc (sent h) front front',
                ),
                Told-later _ some_done (length (b ∷ bs)) (length left) _ told
                    (omega (arith, len', ap length cut', length-append front' rest')),
              )
          | inr u ↦
              let kept : w.resid ≤ length buf =
                omega (arith, len, ap length cut, length-append front rest) in
              rw u (
                (
                  front,
                  rest ++ left,
                  sym whole ∙ ap (λ r. r ++ left) cut ∙ append_assoc front rest left,
                  omega (arith, len, length-append rest left),
                  more,
                ),
                Told-chunk w.error some_done (length (b ∷ bs)) (length left) (length buf) w.resid u
                    kept size,
              )
        ])
      ]

  -- A write sends the front of its bytes and gives back the number of the rest. It tells of success only
  -- if something was sent or nothing was asked for, and of a time-out or a signal only if nothing was
  -- sent. (A store to the output register sends where the status is ready, which it then stays until the
  -- store, and may lose the byte where it is not; nothing else sends.)
  pub tlkwrite_lem :
      (rounds timeout good : ℕ) (bs : List ℕ) (h : H)
      → Writes false bs h (tlkwrite l rounds timeout good bs h)
  unfolding tlkwrite
  tlkwrite_lem rounds timeout good bs h =
      write_from-Writes (length bs) rounds timeout false good bs h (omega arith)
