-- ===== src/Dhcp/Options.antt =====
-- The options of a reply: `parse` against the list of options that a server wrote, and the exchange.
use atari_sysv_sp.Base.{
  ℕ, zero, suc, ◌≤◌, ◌≡◌, ◌≢◌, refl, ◌∙◌, ap, false, List, [], ◌∷◌, ◌++◌, ◌==◌, ltb, if_false, take,
  length, length-append, arith,
}
use atari_sysv_sp.Base.Buffer.{take_front, drop_front}
use atari_sysv_sp.Dhcp.{Reply, option_in, options_in}

-- An option as a server writes it: a code and its value, or a byte of padding.
pub data Written : Type 0 where
  pad : Written
  option : ℕ → List ℕ → Written

unfoldable pub write : List Written → List ℕ → List ℕ
write [] rest = rest
write (pad ∷ os) rest = 0 ∷ write os rest
write (option code v ∷ os) rest = code ∷ length v ∷ (v ++ write os rest)

abbrev pub AllOptions : List Written → Type 0
AllOptions [] = Unit
AllOptions (pad ∷ os) = AllOptions os
AllOptions (option code v ∷ os) = (code ≢ 0) × (code ≢ 255) × AllOptions os

-- The options, one after the other.
pub applied : List Written → Reply → Reply
applied [] r = r
applied (pad ∷ os) r = applied os r
applied (option code v ∷ os) r = applied os (option_in code v r)

options_pad :
    (fuel : ℕ) (o : List ℕ) (r : Reply) → options_in (suc fuel) (0 ∷ o) r ≡ options_in fuel o r
unfolding options_in
options_pad zero [] r = refl
options_pad (suc fuel) [] r = refl
options_pad fuel (n ∷ o) r = refl

-- Options, padding between them, up to the end mark, whatever follows it: `parse` takes them all, in
-- their order. (The mark is not the last byte of the datagram, the codes are not 0 or 255, and the
-- fuel is the length.)
pub options_lem :
    (os : List Written) (x : ℕ) (junk : List ℕ) (r : Reply) (fuel : ℕ)
    → AllOptions os
    → length (write os (255 ∷ x ∷ junk)) ≤ fuel
    → options_in fuel (write os (255 ∷ x ∷ junk)) r ≡ applied os r
unfolding write applied options_in
options_lem [] x junk r (suc fuel) h l = refl
options_lem [] x junk r zero h l = absurd (omega arith)
options_lem (pad ∷ os) x junk r zero h l = absurd (omega arith)
options_lem (option code v ∷ os) x junk r zero h l = absurd (omega arith)
options_lem (pad ∷ os) x junk r (suc fuel) h l =
    options_pad fuel (write os (255 ∷ x ∷ junk)) r ∙ options_lem os x junk r fuel h (omega arith)
options_lem (option code v ∷ os) x junk r (suc fuel) h l =
    let stop : (code == 255) ≡ false = ground arith in
    let skip : (code == 0) ≡ false = ground arith in
    let more = write os (255 ∷ x ∷ junk) in
    let long : ltb (length (v ++ more)) (length v) ≡ false = ground (arith, length-append v more) in
    if_false _ _ stop
    ∙ if_false _ _ skip
    ∙ if_false _ _ long
    ∙ ap (λ o. options_in fuel o (option_in code (take (length v) (v ++ more)) r))
        (drop_front (length v) v more refl)
    ∙ ap (λ w. options_in fuel more (option_in code w r)) (take_front (length v) v more refl)
    ∙ options_lem os x junk (option_in code v r) fuel h.2 (omega (arith, length-append v more))
