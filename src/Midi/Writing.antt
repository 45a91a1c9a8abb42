-- ===== src/Midi/Writing.antt =====
-- A whole write(), with its sleeps, in the life of an open port.
use mathlib.Core.Path.{subst}
use atari_sysv_sp.Base.{
  ℕ, zero, suc, ◌+◌, ◌≤◌, ◌<◌, ◌≡◌, inl, inr, refl, sym, ◌∙◌, ap, Bool, true, false, not, none,
  some, List, [], ◌∷◌, ◌++◌, append-nil, append_assoc, ◌==◌, ltb, ltb→lt, take, drop, length, arith,
  Bool-cases,
}
use atari_sysv_sp.Base.Suffix.{length-drop, length-take_le, take-drop}
use atari_sysv_sp.Midi.{Device, room, Clock}
use atari_sysv_sp.Midi.Calls.{write_chunk_lem}
use atari_sysv_sp.Midi.Life.{Run, wrote, Run-Flows}
use atari_sysv_sp.Midi.Control.{
  Wake, Status, finished, interrupted, faulted, asleep, Written, piece, count_wakes, write_from,
  midiwrite,
}

module _ (k : Clock) (timed : Bool) (base : List ℕ) where
  -- What happens while the writer sleeps is ticks, interrupts and the ends of waits: nothing is written.
  abbrev pub Steady : List Wake → Type 0
  Steady [] = Unit
  Steady (none ∷ wakes) = Steady wakes
  Steady (some f ∷ wakes) =
      ((d : Device) (ws : List ℕ) → Run k timed base d ws → Run k timed base (f d) ws)
      × Steady wakes

  -- Where a write of bs has got to: the bytes that are not left were written, in order; it has finished
  -- only with nothing left, and sleeps only for want of room.
  abbrev pub Ends : List ℕ → List ℕ → Written → Type 0
  Ends ws bs r =
      (written : List ℕ) × (bs ≡ written ++ r.left)
      × Run k timed base r.device (ws ++ written)
      × (r.status ≡ finished → r.left ≡ [])
      × (r.status ≡ asleep → room r.device < piece r.left)

  stays :
      {d : Device} {ws : List ℕ} (bs : List ℕ) (s : Status)
      → Run k timed base d ws
      → (s ≡ finished → bs ≡ [])
      → (s ≡ asleep → room d < piece bs)
      → Ends ws bs (record { status = s; left = bs; device = d })
  stays {d} {ws} bs s r w a =
      ([], refl, subst (λ l. Run k timed base d l) (sym (append-nil ws)) r, w, a)

  goes_on :
      (ws : List ℕ) {bs : List ℕ} {r : Written} (n : ℕ)
      → Ends (ws ++ take n bs) (drop n bs) r
      → Ends ws bs r
  goes_on ws {bs} {r} n (written, cut, run, whole, waits) = (
    take n bs ++ written,
    sym (take-drop n bs)
        ∙ ap (λ l. take n bs ++ l) cut
        ∙ sym (append_assoc (take n bs) written r.left),
    subst (λ l. Run k timed base r.device l) (append_assoc ws (take n bs) written) run,
    whole,
    waits,
  )

  empty_of : (bs : List ℕ) → (length bs == 0) ≡ true → [] ≡ bs
  empty_of [] h = refl
  empty_of (b ∷ bs) h = absurd (ground arith)

  -- The branch that sleeps, for the rounds after it.
  slept_lem :
      (readable : List ℕ → Bool) (lbolt : ℕ → ℕ) (fuel : ℕ) (wakes : List Wake) (bs : List ℕ)
      {d : Device} {ws : List ℕ}
      → room d < piece bs
      → Steady wakes
      → Run k timed base d ws
      → ((later : List Wake) (d' : Device)
          → count_wakes later < count_wakes wakes
          → Steady later
          → Run k timed base d' ws
          → Ends ws bs (write_from k readable lbolt fuel later bs d'))
      → Ends ws bs (elim wakes as (λ x. Written) [
        | [] ↦ record { status = asleep; left = bs; device = d }
        | w ∷ later ↦ elim w as (λ x. Written) [
          | none ↦ record { status = interrupted; left = bs; device = d }
          | some f ↦ write_from k readable lbolt fuel later bs (f d)
        ]
      ])
  slept_lem readable lbolt fuel [] bs full st r next =
      stays bs asleep r (λ e. absurd cc) (λ e. full)
  slept_lem readable lbolt fuel (none ∷ later) bs full st r next =
      stays bs interrupted r (λ e. absurd cc) (λ e. absurd cc)
  slept_lem readable lbolt fuel (some f ∷ later) bs {d} {ws} full st r next =
      next later (f d) (omega arith) st.1 (st.0 d ws r)

  piece_bounds : (bs : List ℕ) → (length bs == 0) ≡ false → (1 ≤ piece bs) × (piece bs ≤ length bs)
  piece_bounds bs h = ground arith

  roomy : (x y n : ℕ) → n ≤ y → ltb x y ≡ false → n ≤ x
  roomy x y n l f = ground arith

  write_from_lem :
      (readable : List ℕ → Bool) (lbolt : ℕ → ℕ) (fuel : ℕ) (wakes : List Wake) (bs : List ℕ)
      {d : Device} {ws : List ℕ}
      → length bs + count_wakes wakes < fuel
      → Steady wakes
      → Run k timed base d ws
      → Ends ws bs (write_from k readable lbolt fuel wakes bs d)
  unfolding write_from
  write_from_lem readable lbolt zero wakes bs h st r = absurd (omega arith)
  write_from_lem readable lbolt (suc fuel) wakes bs {d} {ws} h st r =
      elim (Bool-cases (length bs == 0)) [
        | inl empty ↦ rw empty (
            subst (λ l. Ends ws l (record { status = finished; left = []; device = d }))
              (empty_of bs empty) (stays [] finished r (λ e. refl) (λ e. absurd cc)))
        | inr more ↦ rw more (elim (Bool-cases (ltb (room d) (piece bs))) [
          | inl full ↦ rw full (
              slept_lem readable lbolt fuel wakes bs (ltb→lt _ _ full) st r (λ later d' l st' r'.
                write_from_lem readable lbolt fuel later bs (omega (arith, h, l)) st' r'))
          | inr fits ↦ rw fits (elim (Bool-cases (not (readable bs))) [
            | inl bad ↦ rw bad (stays bs faulted r (λ e. absurd cc) (λ e. absurd cc))
            | inr good ↦
                let small =
                  roomy (room d) (piece bs) (length (take (piece bs) bs))
                    (length-take_le (piece bs) bs) fits in
                let (d', e, v', w, s) =
                  write_chunk_lem k (lbolt fuel) (take (piece bs) bs) (Run-Flows k timed base r).0
                    small in
                rw (good, e)
                  (goes_on ws (piece bs) (
                    write_from_lem readable lbolt fuel wakes (drop (piece bs) bs)
                      (omega (arith, h, piece_bounds bs more, length-drop (piece bs) bs)) st
                      (wrote (lbolt fuel) (take (piece bs) bs) r small e)))
          ])
        ])
      ]

  -- However it ends, a write has put into the ring exactly what it does not leave, in order and while the
  -- port went on sending: all of it where it finishes; and it waits only while there is no room.
  pub midiwrite_lem :
      (readable : List ℕ → Bool) (lbolt : ℕ → ℕ) (wakes : List Wake) (bs : List ℕ) {d : Device}
      {ws : List ℕ}
      → Steady wakes
      → Run k timed base d ws
      → Ends ws bs (midiwrite k readable lbolt wakes bs d)
  unfolding midiwrite
  midiwrite_lem readable lbolt wakes bs st r =
      write_from_lem readable lbolt (suc (length bs + count_wakes wakes)) wakes bs (omega arith) st
        r
