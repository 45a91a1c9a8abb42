-- ===== src/Tlk/Tests.antt =====
-- The link driver at a concrete card.
use atari_sysv_sp.Base.{
  ℕ, ◌-◌, ◌≤◌, ◌<◌, ◌^◌, ◌≡◌, ◌≢◌, ◌⊎◌, refl, true, false, Option, none, some, List, [], ◌∷◌, ◌++◌,
  length, take, if◌then◌else◌, if_true, arith,
}
use atari_sysv_sp.Tlk.{
  Reg, r_in, r_out, r_istat, r_ostat, r_reset, r_anal, Link, ok, enxio, waiting, is_set,
}
use atari_sysv_sp.Tlk.Move.{tlkwrite, tlkread}
use atari_sysv_sp.Tlk.Control.{adapter, tlkinit, tlkopen}
use atari_sysv_sp.Tlk.Diag.{tlk_diag}
use atari_sysv_sp.Tlk.Sent.{IsSender, Writes, tlkwrite_lem}
use atari_sysv_sp.Tlk.Received.{IsReceiver, Reads, tlkread_lem}
use atari_sysv_sp.Tlk.Waits.{Ends, tlkwrite-Ends}
use atari_sysv_sp.Tlk.Opening.{tlkopen-refuses, tlkopen-excludes}
use atari_sysv_sp.Tlk.Diag.Ends.{tlk_diag-stuck, tlk_diag-ends}

-- A card with the bytes that wait in it, those it has given and those it has taken; it takes two bytes, and
-- loses what is stored when it takes none.
record Card : Type 0 where
  full : List ℕ
  given : List ℕ
  sent : List ℕ

abbrev next_byte : List ℕ → ℕ
next_byte [] = 0
next_byte (b ∷ bs) = b

abbrev later_bytes : List ℕ → List ℕ
later_bytes [] = []
later_bytes (b ∷ bs) = bs

abbrev has_byte : List ℕ → ℕ
has_byte [] = 0
has_byte (b ∷ bs) = 1

abbrev takes : List ℕ → ℕ
takes (a ∷ b ∷ bs) = 0
takes _ = 1

abbrev look_card : Reg → Card → ℕ × Card
look_card r_in c = (
  next_byte c.full,
  record { full = later_bytes c.full; given = c.given ++ take 1 c.full; sent = c.sent },
)
look_card r_istat c = (has_byte c.full, c)
look_card r_ostat c = (takes c.sent, c)
look_card _ c = (0, c)

abbrev store_card : Reg → ℕ → Card → Card
store_card r_out b c = record {
  full = c.full;
  given = c.given;
  sent = if is_set (takes c.sent) then c.sent ++ b ∷ [] else c.sent;
}
store_card _ b c = c

-- Its analyse register bus-errors.
abbrev probe_card : Reg → Card → Option ℕ × Card
probe_card r_anal c = (none, c)
probe_card _ c = (some 0, c)

abbrev link : Link Card
link = record {
  look = look_card;
  store = store_card;
  rd = probe_card;
  wr = λ r b c. (true, c);
  tick = λ c. (false, c);
}

link-IsSender : IsSender link (λ c. c.sent)
link-IsSender = record {
  sent-store = λ b c h. if_true _ _ h;
  sent-look = looked;
  sent-tick = λ c. refl;
  held = λ c h. h;
}
  where
    looked : (r : Reg) (c : Card) → (look_card r c).1.sent ≡ c.sent
    looked r_in c = refl
    looked r_out c = refl
    looked r_istat c = refl
    looked r_ostat c = refl
    looked r_reset c = refl
    looked r_anal c = refl

link-IsReceiver : IsReceiver link (λ c. c.given)
link-IsReceiver = record {
  taken-in = λ c. gave c.full c.given;
  taken-look = λ c. refl;
  taken-tick = λ c. refl;
  held = λ c h. h;
}
  where
    gave :
        (full given : List ℕ)
        → is_set (has_byte full) ≡ true
        → given ++ take 1 full ≡ given ++ next_byte full ∷ []
    gave [] given h = absurd cc
    gave (b ∷ bs) given h = refl

abbrev card : Card
card = record { full = 8 ∷ 9 ∷ []; given = []; sent = [] }

tlkwrite_example :
    Writes link
      (λ c. c.sent)
      link-IsSender
      false
      (4 ∷ 5 ∷ 6 ∷ [])
      card
      (tlkwrite link 3 2 9 (4 ∷ 5 ∷ 6 ∷ []) card)
tlkwrite_example = tlkwrite_lem link (λ c. c.sent) link-IsSender 3 2 9 (4 ∷ 5 ∷ 6 ∷ []) card

tlkread_example :
    Reads link (λ c. c.given) link-IsReceiver 5 card (tlkread link 3 2 9 5 card)
    × (1 ≤ 5 → (tlkread link 3 2 9 5 card).error ≡ ok → 1 ≤ length (tlkread link 3 2 9 5 card).got)
tlkread_example = tlkread_lem link (λ c. c.given) link-IsReceiver 3 2 9 5 card

tlkwrite-Ends_example : Ends (tlkwrite link 3 2 9 (4 ∷ 5 ∷ 6 ∷ []) card).error
tlkwrite-Ends_example =
    tlkwrite-Ends link 2 (omega arith) (omega arith) 3 (omega arith) 9 (4 ∷ 5 ∷ 6 ∷ []) card

abbrev links : ℕ → Link Card
links b = link

abbrev no_id : ℕ → Option ℕ
no_id a = none

tlkopen-refuses_example :
    ((tlkopen links no_id 100 0 true (tlkinit 100) card).error ≡ enxio)
    × ((k : ℕ)
        → (adapter (tlkopen links no_id 100 0 true (tlkinit 100) card).tlk k).opened
          ≡ (adapter (tlkinit 100) k).opened)
tlkopen-refuses_example =
    tlkopen-refuses links no_id 100 0 true (tlkinit 100) card r_anal (λ c. refl) tt

tlkopen-excludes_example :
    (((tlkopen links no_id 100 0 true (tlkinit 100) card).error ≡ ok)
      × ((adapter (tlkinit 100) 0).opened ≡ false)
      × ((adapter (tlkopen links no_id 100 0 true (tlkinit 100) card).tlk 0).opened ≡ true)
      × ((k : ℕ)
          → k < 2
          → k ≢ 0
          → (adapter (tlkopen links no_id 100 0 true (tlkinit 100) card).tlk k).opened
            ≡ (adapter (tlkinit 100) k).opened))
    ⊎ (((tlkopen links no_id 100 0 true (tlkinit 100) card).error ≢ ok)
        × ((k : ℕ)
            → (adapter (tlkopen links no_id 100 0 true (tlkinit 100) card).tlk k).opened
              ≡ (adapter (tlkinit 100) k).opened))
tlkopen-excludes_example = tlkopen-excludes links no_id 100 0 true (tlkinit 100) card

-- A link that never has a byte.
abbrev quiet : Link Card
quiet = record {
  look = λ r c. (0, c);
  store = store_card;
  rd = probe_card;
  wr = λ r b c. (true, c);
  tick = λ c. (false, c);
}

tlk_diag-stuck_example : (tlk_diag quiet 5 100 (λ c. 0) true true 5 (2 ^ 32 - 2) card).0.0 ≡ waiting
tlk_diag-stuck_example = tlk_diag-stuck quiet 5 100 (λ c. 0) true card (λ c. refl)

tlk_diag-ends_example : (tlk_diag quiet 2000002 100 (λ c. 0) true true 5 10 card).0.0 ≢ waiting
tlk_diag-ends_example =
    tlk_diag-ends quiet 2000002 (omega arith) 100 (λ c. 0) true true 5 10 card (omega arith)
