-- ===== src/Amx/Signal/Masks.antt =====
-- Sets of signals: `mask_in` and `mask_out`, bit by bit.
use atari_sysv_sp.Base.{
  ℕ, zero, suc, ◌+◌, ◌-◌, ◌/◌, ◌%◌, ◌^◌, ◌≤◌, ◌<◌, ◌≡◌, refl, sym, ◌∙◌, ap, Bool, true, false, ◌&&◌,
  ◌||◌, ◌==◌, ltb, leb, arith, List, [], ◌∷◌, length, get_or, get_or-set_self, get_or-set_ne,
  length-set, range_from, ℕ_discrete, Bool-cases, inl, inr,
}
use atari_sysv_sp.Base.Bits.{
  bit, set_bit, clear_bit, bit-set_bit, bit-clear_bit, bit_ext, bit_zero, set_bit-lt, clear_bit-le,
}
use atari_sysv_sp.Base.Loop.{any, any-range_elim, any-range_intro, any-range_ext}
use atari_sysv_sp.Amx.Signal.{
  sig_in, sig_out, kword, kbit, has, add_sig, mask_in_from, mask_in, out_bit, mask_out_from,
  mask_out,
}
use atari_sysv_sp.Amx.Signal.Numbers.{sig_out-sig_in, sig_in_bounds, asv_signal, sig_in-asv_signal}

-- A signal's word and bit determine it.
same_place : (s t : ℕ) → 1 ≤ s → 1 ≤ t → kword s ≡ kword t → (kbit s == kbit t) ≡ (s == t)
same_place s t hs ht e = ground arith

length-add_sig : (k : List ℕ) (s : ℕ) → length (add_sig k s) ≡ length k
unfolding add_sig
length-add_sig k s = length-set k (kword s) _

-- Adding signal s to a set of two words adds s alone.
pub has-add_sig :
    (k : List ℕ) (s t : ℕ)
    → length k ≡ 2
    → 1 ≤ s
    → s ≤ 64
    → 1 ≤ t
    → has (add_sig k s) t ≡ (s == t) || has k t
unfolding add_sig
has-add_sig k s t hk lo hi ht = elim (ℕ_discrete (kword s) (kword t)) [
  | yes e ↦
      rw
        (
          ← e,
          get_or-set_self k (kword s) (set_bit (get_or k (kword s) 0) (kbit s)) 0 (omega arith),
          bit-set_bit,
          same_place s t lo ht e,
        )
        refl
  | no ne ↦ rw (get_or-set_ne k (set_bit (get_or k (kword s) 0) (kbit s)) 0 ne) (ground arith)
]

-- Whether AMIX signal n of the set a is ASV's signal t.
pub comes_from : List ℕ → ℕ → ℕ → Bool
comes_from a t n = (sig_in n == t) && bit (get_or a 0 0) (n - 1)

has-mask_in_from :
    (a k : List ℕ) (i n t : ℕ)
    → length k ≡ 2
    → 1 ≤ i
    → i + n ≤ 32
    → 1 ≤ t
    → has (mask_in_from a k (range_from i n)) t ≡ has k t || any (comes_from a t) (range_from i n)
unfolding mask_in_from any comes_from
has-mask_in_from a k i zero t hk lo hi ht = ground arith
has-mask_in_from a k i (suc n) t hk lo hi ht = elim (Bool-cases (bit (get_or a 0 0) (i - 1))) [
  | inl on ↦ ground (
    arith,
    on,
    has-mask_in_from a (add_sig k (sig_in i)) (suc i) n t,
    length-add_sig k (sig_in i),
    has-add_sig k (sig_in i) t,
    sig_in_bounds i,
  )
  | inr off ↦ ground (arith, off, has-mask_in_from a k (suc i) n t)
]

has-empty : (t : ℕ) → has (0 ∷ 0 ∷ []) t ≡ false
has-empty t = ground (arith, no_bits (kword t), bit_zero (kbit t))
  where
    no_bits : (w : ℕ) → ◌≡◌ {A = ℕ} (get_or (0 ∷ 0 ∷ []) w 0) 0
    no_bits zero = refl
    no_bits (suc zero) = refl
    no_bits (suc (suc w)) = refl

has-mask_in_table :
    (a : List ℕ) (t : ℕ) → 1 ≤ t → has (mask_in a) t ≡ any (comes_from a t) (range_from 1 31)
unfolding mask_in
has-mask_in_table a t ht =
    has-mask_in_from a (0 ∷ 0 ∷ []) 1 31 t refl (omega arith) (omega arith) ht
    ∙ rw (has-empty t) refl

-- Whether signal t is in one of ASV's sets: the most significant bit of a word is its first signal.
abbrev pub is_member : List ℕ → ℕ → Bool
is_member k t = bit (get_or k ((t - 1) / 32) 0) (31 - (t - 1) % 32)

-- Whether an AMIX set has signal n that ASV numbers t: the least significant bit is signal 1.
abbrev pub is_sent_as : List ℕ → ℕ → ℕ → Bool
is_sent_as a t n = (asv_signal n == t) && bit (get_or a 0 0) (n - 1)

-- ASV's signal t is in the translated set exactly when an AMIX signal n in 1..31 that ASV numbers t has its
-- bit, n - 1, in the first word of the AMIX set; ASV's first signal has the top bit of its word.
pub has-mask_in :
    (a : List ℕ) (t : ℕ) → 1 ≤ t → is_member (mask_in a) t ≡ any (is_sent_as a t) (range_from 1 31)
unfolding comes_from
has-mask_in a t ht =
    has-mask_in_table a t ht
    ∙ any-range_ext (comes_from a t) (is_sent_as a t) 1 31
        (λ n lo hi. ap (λ s. (s == t) && bit (get_or a 0 0) (n - 1)) (sig_in-asv_signal n hi))

-- Whether ASV's signal s of the set k puts bit j into the AMIX set.
puts : List ℕ → ℕ → ℕ → Bool
puts k j s = has k s && (ltb 0 (sig_out s) && leb (sig_out s) 32) && (sig_out s - 1 == j)

bit-mask_out_from :
    (k : List ℕ) (w i n j : ℕ)
    → bit (mask_out_from k w (range_from i n)) j ≡ bit w j || any (puts k j) (range_from i n)
unfolding mask_out_from any puts
bit-mask_out_from k w i zero j = ground arith
bit-mask_out_from k w i (suc n) j =
    ground (arith, bit-mask_out_from k (out_bit k w i) (suc i) n j, bit-set_bit w (sig_out i - 1) j)

mask_out_from-lt : (k : List ℕ) (w : ℕ) (ss : List ℕ) → w < 2 ^ 32 → mask_out_from k w ss < 2 ^ 32
unfolding mask_out_from
mask_out_from-lt k w [] h = h
mask_out_from-lt k w (s ∷ ss) h =
    mask_out_from-lt k (out_bit k w s) ss (ground (arith, set_bit-lt 32 w (sig_out s - 1)))

came_back :
    (a : List ℕ) (j s n : ℕ)
    → puts (mask_in a) j s ≡ true
    → comes_from a s n ≡ true
    → 1 ≤ n
    → n < 32
    → bit (clear_bit (get_or a 0 0) 31) j ≡ true
unfolding puts comes_from
came_back a j s n p q lo hi =
    ground (arith, p, q, sig_out-sig_in n hi, bit-clear_bit (get_or a 0 0) 31 j)

has_of_puts : (k : List ℕ) (j s : ℕ) → puts k j s ≡ true → has k s ≡ true
unfolding puts
has_of_puts k j s p = ground arith

goes_in :
    (a : List ℕ) (j : ℕ)
    → j < 31
    → bit (get_or a 0 0) j ≡ true
    → has (mask_in a) (sig_in (suc j)) ≡ true
unfolding comes_from
goes_in a j h b =
    has-mask_in_table a (sig_in (suc j)) (sig_in_bounds (suc j) (omega arith) (omega arith)).0
    ∙ any-range_intro (comes_from a (sig_in (suc j))) 1 31 (suc j) (omega arith) (omega arith)
        (ground arith)

goes_back :
    (a : List ℕ) (j : ℕ)
    → j < 31
    → bit (get_or a 0 0) j ≡ true
    → any (puts (mask_in a) j) (range_from 1 64) ≡ true
unfolding puts
goes_back a j h b =
    let (lo, hi) = sig_in_bounds (suc j) (omega arith) (omega arith) in
    any-range_intro (puts (mask_in a) j) 1 64 (sig_in (suc j)) lo (omega arith)
      (ground (arith, goes_in a j h b, sig_out-sig_in (suc j)))

-- The bit of AMIX signal j + 1 in a set that went to ASV and came back.
bit-round_trip :
    (a : List ℕ) (j : ℕ)
    → j < 32
    → any (puts (mask_in a) j) (range_from 1 64) ≡ bit (clear_bit (get_or a 0 0) 31) j
bit-round_trip a j h = elim (Bool-cases (any (puts (mask_in a) j) (range_from 1 64))) [
  | inl t ↦
      let (s, lo, hi, p) = any-range_elim (puts (mask_in a) j) 1 64 t in
      let (n, lo', hi', q) =
        any-range_elim (comes_from a s) 1 31
          (sym (has-mask_in_table a s lo) ∙ has_of_puts (mask_in a) j s p) in
      t ∙ sym (came_back a j s n p q lo' hi')
  | inr f ↦ ground (arith, f, bit-clear_bit (get_or a 0 0) 31 j, goes_back a j)
]

-- A set of AMIX signals translated for ASV and back is the set, with the words after the first
-- cleared, and signal 32 (which AMIX does not have) dropped.
pub mask_out-mask_in :
    (a : List ℕ)
    → get_or a 0 0 < 2 ^ 32
    → mask_out (mask_in a) ≡ clear_bit (get_or a 0 0) 31 ∷ 0 ∷ 0 ∷ 0 ∷ []
unfolding mask_out
mask_out-mask_in a h = ap (λ w. w ∷ 0 ∷ 0 ∷ 0 ∷ []) (bit_ext 32 _ _ lt lt' (λ j hj. same j hj))
  where
    lt : mask_out_from (mask_in a) 0 (range_from 1 64) < 2 ^ 32
    lt = mask_out_from-lt (mask_in a) 0 (range_from 1 64) (omega arith)

    lt' : clear_bit (get_or a 0 0) 31 < 2 ^ 32
    lt' = omega (arith, clear_bit-le (get_or a 0 0) 31)

    same :
        (j : ℕ)
        → j < 32
        → bit (mask_out_from (mask_in a) 0 (range_from 1 64)) j
          ≡ bit (clear_bit (get_or a 0 0) 31) j
    same j hj = bit-mask_out_from (mask_in a) 0 1 64 j ∙ rw (bit_zero j) (bit-round_trip a j hj)

length-mask_in_from : (a k ns : List ℕ) → length (mask_in_from a k ns) ≡ length k
unfolding mask_in_from
length-mask_in_from a k [] = refl
length-mask_in_from a k (n ∷ ns) = elim (Bool-cases (bit (get_or a 0 0) (n - 1))) [
  | inl on ↦ rw on (length-mask_in_from a (add_sig k (sig_in n)) ns ∙ length-add_sig k (sig_in n))
  | inr off ↦ rw off (length-mask_in_from a k ns)
]

two_words : (k : List ℕ) → length k ≡ 2 → k ≡ get_or k 0 0 ∷ get_or k 1 0 ∷ []
two_words [] h = absurd (omega arith)
two_words (x ∷ []) h = absurd (omega arith)
two_words (x ∷ y ∷ []) h = refl
two_words (x ∷ y ∷ z ∷ k) h = absurd (omega arith)

-- The set that `mask_in` fills has two words.
pub mask_in_words : (a : List ℕ) → mask_in a ≡ get_or (mask_in a) 0 0 ∷ get_or (mask_in a) 1 0 ∷ []
mask_in_words a =
    two_words (mask_in a) (unfold mask_in in length-mask_in_from a (0 ∷ 0 ∷ []) (range_from 1 31))
