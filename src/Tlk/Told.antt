-- ===== src/Tlk/Told.antt =====
-- What the result of a write tells of the bytes that it gives back.
use atari_sysv_sp.Base.{
  ℕ, ◌+◌, ◌≤◌, ◌<◌, ◌≡◌, ◌⊎◌, inl, inr, refl, Bool, true, false, Bool-cases, ◌||◌, ltb,
  if◌then◌else◌, arith,
}
use atari_sysv_sp.Tlk.{Errno, ok, efault, eio, eintr, einval, enxio, ebusy, eperm, waiting}
use atari_sysv_sp.Tlk.Move.{is_ok, given_up}

-- What the result e of a write of n bytes tells of the r bytes that it gives back.
abbrev pub Told : Errno → Bool → ℕ → ℕ → Type 0
Told ok false n r = (n ≡ 0) ⊎ (r < n)
Told ok true n r = Unit
Told efault some_done n r = Unit
Told waiting some_done n r = Unit
Told _ some_done n r = (some_done ≡ false) × (r ≡ n)

pub Told-later :
    (e : Errno) (some_done : Bool) (n n' r : ℕ) → Told e true n' r → r < n → Told e some_done n r
Told-later ok false n n' r t h = inr h
Told-later ok true n n' r t h = tt
Told-later efault some_done n n' r t h = tt
Told-later waiting some_done n n' r t h = tt
Told-later eio some_done n n' r t h = absurd cc
Told-later eintr some_done n n' r t h = absurd cc
Told-later einval some_done n n' r t h = absurd cc
Told-later enxio some_done n n' r t h = absurd cc
Told-later ebusy some_done n n' r t h = absurd cc
Told-later eperm some_done n n' r t h = absurd cc

Told-given_up : (e : Errno) (n r : ℕ) → r < n → Told (given_up e) false n r
unfolding given_up
Told-given_up ok n r h = inr h
Told-given_up efault n r h = inr h
Told-given_up waiting n r h = tt
Told-given_up eio n r h = inr h
Told-given_up eintr n r h = inr h
Told-given_up einval n r h = inr h
Told-given_up enxio n r h = inr h
Told-given_up ebusy n r h = inr h
Told-given_up eperm n r h = inr h

Told-given_up_later : (e : Errno) (n r : ℕ) → Told (given_up e) true n r
unfolding given_up
Told-given_up_later ok n r = tt
Told-given_up_later efault n r = tt
Told-given_up_later waiting n r = tt
Told-given_up_later eio n r = tt
Told-given_up_later eintr n r = tt
Told-given_up_later einval n r = tt
Told-given_up_later enxio n r = tt
Told-given_up_later ebusy n r = tt
Told-given_up_later eperm n r = tt

Told-none : (e : Errno) (n r : ℕ) → is_ok e ≡ false → r ≡ n → Told e false n r
unfolding is_ok
Told-none ok n r f h = absurd cc
Told-none efault n r f h = tt
Told-none waiting n r f h = tt
Told-none eio n r f h = (refl, h)
Told-none eintr n r f h = (refl, h)
Told-none einval n r f h = (refl, h)
Told-none enxio n r f h = (refl, h)
Told-none ebusy n r f h = (refl, h)
Told-none eperm n r f h = (refl, h)

-- A chunk in which a wait failed: k of its b bytes are left, and a of the chunks behind it.
pub Told-chunk :
    (e : Errno) (some_done : Bool) (n a b k : ℕ)
    → is_ok e ≡ false
    → k ≤ b
    → b + a ≡ n
    → Told (if some_done || ltb k b then given_up e else e) some_done n (a + k)
Told-chunk e true n a b k f h s = Told-given_up_later e n (a + k)
Told-chunk e false n a b k f h s = elim (Bool-cases (ltb k b)) [
  | inl t ↦ rw t (Told-given_up e n (a + k) (ground (arith, t, s)))
  | inr g ↦ rw g (Told-none e n (a + k) f (ground (arith, g, h, s)))
]
