-- ===== src/Amx/Struct/Context.antt =====
-- The two layouts of ucontext: the wider signal mask moves what follows it by two longs.
use atari_sysv_sp.Base.{
  ℕ, ◌≡◌, refl, sym, ◌∙◌, ap, List, [], ◌∷◌, ◌++◌, ◌^◌, ◌<◌, length, get_or, replicate, append-nil,
  arith,
}
use atari_sysv_sp.Base.Bits.{clear_bit, clear_bit-clear_bit}
use atari_sysv_sp.Base.Buffer.{put_start, take_all, take_front}
use atari_sysv_sp.Amx.Signal.{mask_in, mask_out}
use atari_sysv_sp.Amx.Signal.Masks.{mask_out-mask_in, mask_in_words}
use atari_sysv_sp.Amx.Struct.{uc_in, uc_out}

-- An ASV ucontext: flags, link, the two words of the mask, the stack, the machine's context, and the
-- two longs at the end.
asv_uc : ℕ → ℕ → ℕ → ℕ → ℕ × ℕ × ℕ → List ℕ → ℕ → ℕ → List ℕ
asv_uc flags link k0 k1 stack mc x y =
    flags ∷ link ∷ k0 ∷ k1 ∷ stack.0 ∷ stack.1 ∷ stack.2 ∷ (mc ++ (x ∷ y ∷ []))

-- An AMIX ucontext, with four words of mask.
pub amix_uc : ℕ → ℕ → List ℕ → ℕ × ℕ × ℕ → List ℕ → List ℕ
amix_uc flags link mask stack mc =
    flags
    ∷ link
    ∷ get_or mask 0 0
    ∷ get_or mask 1 0
    ∷ get_or mask 2 0
    ∷ get_or mask 3 0
    ∷ stack.0
    ∷ stack.1
    ∷ stack.2
    ∷ mc

uc_in-amix_uc :
    (flags link : ℕ) (mask : List ℕ) (stack : ℕ × ℕ × ℕ) (mc : List ℕ) (k0 k1 : ℕ)
    → length mc ≡ 247
    → mask_in (get_or mask 0 0 ∷ get_or mask 1 0 ∷ get_or mask 2 0 ∷ get_or mask 3 0 ∷ [])
      ≡ k0 ∷ k1 ∷ []
    → uc_in (amix_uc flags link mask stack mc) ≡ asv_uc (clear_bit flags 3) link k0 k1 stack mc 0 0
unfolding uc_in asv_uc amix_uc
uc_in-amix_uc flags link mask stack mc k0 k1 h e =
    rw (e, take_all 247 mc h, put_start (replicate 249 0) mc (omega arith), h) refl

uc_out-asv_uc :
    (flags link k0 k1 : ℕ) (stack : ℕ × ℕ × ℕ) (mc : List ℕ) (x y m : ℕ)
    → length mc ≡ 247
    → mask_out (k0 ∷ k1 ∷ []) ≡ m ∷ 0 ∷ 0 ∷ 0 ∷ []
    → uc_out (asv_uc flags link k0 k1 stack mc x y)
      ≡ amix_uc (clear_bit flags 3) link (m ∷ 0 ∷ 0 ∷ 0 ∷ []) stack mc
unfolding uc_out asv_uc amix_uc
uc_out-asv_uc flags link k0 k1 stack mc x y m h e =
    rw
      (
        e,
        take_front 247 mc (x ∷ y ∷ []) h,
        put_start (replicate 247 0) mc (omega arith),
        h,
        append-nil,
      )
      refl

-- A context that is translated for ASV and back, as setcontext and then getcontext do, has the link, the
-- stack and the machine's registers (247 longs) as they were, in place; bit 3 of the flags (which means
-- another thing on each system) is cleared, and so are what is no AMIX signal in the mask and the mask's
-- other words.
pub uc_out-uc_in :
    (flags link m0 m1 m2 m3 : ℕ) (stack : ℕ × ℕ × ℕ) (mc : List ℕ)
    → length mc ≡ 247
    → m0 < 2 ^ 32
    → uc_out (uc_in (amix_uc flags link (m0 ∷ m1 ∷ m2 ∷ m3 ∷ []) stack mc))
      ≡ amix_uc (clear_bit flags 3) link (clear_bit m0 31 ∷ 0 ∷ 0 ∷ 0 ∷ []) stack mc
uc_out-uc_in flags link m0 m1 m2 m3 stack mc h hm =
    let mask = m0 ∷ m1 ∷ m2 ∷ m3 ∷ [] in
    let e = mask_in_words mask in
    ap uc_out (uc_in-amix_uc flags link mask stack mc _ _ h e)
    ∙ uc_out-asv_uc (clear_bit flags 3) link _ _ stack mc 0 0 (clear_bit m0 31) h
        (ap mask_out (sym e) ∙ mask_out-mask_in mask hm)
    ∙ ap (λ f. amix_uc f link (clear_bit m0 31 ∷ 0 ∷ 0 ∷ 0 ∷ []) stack mc)
        (clear_bit-clear_bit flags 3)
