-- ===== src/Amx/Gate/Registers.antt =====
-- What the gate does to the registers of the AMIX program.
use atari_sysv_sp.Base.{
  ℕ, zero, suc, ◌≡◌, ◌≢◌, ◌⊎◌, refl, ◌∙◌, Bool, true, false, Option, none, some, List, [], ◌∷◌,
  ◌==◌, if◌then◌else◌, take, drop, arith, ==_iff, Bool-cases, inl, inr,
}
use atari_sysv_sp.Base.Loop.{any}
use atari_sysv_sp.Amx.Machine.{
  Machine, Kernel, Prepared, Post, nothing, wait, d0, d1, paramstoregs, update, load_regs,
  save_regs,
}
use atari_sysv_sp.Amx.Finish.{pass_out, finish}
use atari_sysv_sp.Amx.Gate.{
  after_call, amx_trap0, arg_count, native_call, converted, restore, amix_error, returned, gate,
}

abbrev regs_of : {Mem : Type 0} → Machine Mem → Option (Machine Mem) → ℕ → ℕ
regs_of m none = m.regs
regs_of m (some m') = m'.regs

drop-save_regs :
    (n : ℕ) (f : ℕ → ℕ) (rs : List ℕ) → drop n (save_regs f rs) ≡ save_regs f (drop n rs)
unfolding save_regs
drop-save_regs zero f rs = refl
drop-save_regs (suc n) f [] = refl
drop-save_regs (suc n) f (r ∷ rs) = drop-save_regs n f rs

-- What was saved comes back in the slots it came from, and in no others.
load_regs-save_regs :
    (f g : ℕ → ℕ) (rs : List ℕ) (r : ℕ)
    → load_regs f rs (save_regs g rs) r ≡ (if any (λ s. s == r) rs then g r else f r)
unfolding load_regs save_regs any
load_regs-save_regs f g [] r = refl
load_regs-save_regs f g (s ∷ rs) r = elim (Bool-cases (s == r)) [
  | inl e ↦
      let eq : s ≡ r = (==_iff s r).0 e in
      load_regs-save_regs (update f s (g s)) g rs r ∙ rw (e, eq) (same (any (λ t. t == r) rs) (g r))
  | inr ne ↦ load_regs-save_regs (update f s (g s)) g rs r ∙ rw ne refl
]
  where
    same : (b : Bool) (x : ℕ) → (if b then x else x) ≡ x
    same true x = refl
    same false x = refl

any-take :
    {A : Type 0} (p : A → Bool) (n : ℕ) (xs : List A) → any p (take n xs) ≡ true → any p xs ≡ true
unfolding any
any-take p zero xs h = absurd (cc)
any-take p (suc n) [] h = absurd (cc)
any-take p (suc n) (x ∷ xs) h = ground (arith, any-take p n xs)

callee_saved :
    (r : ℕ) → any (λ s. s == r) (2 ∷ 10 ∷ 3 ∷ 11 ∷ 4 ∷ 12 ∷ 5 ∷ []) ≡ true → (r ≢ d0) × (r ≢ d1)
unfolding any
callee_saved r h = ground arith

-- The registers that a call with n arguments borrows beyond the scratch ones.
abbrev pub borrowed : ℕ → ℕ → Bool
borrowed n r = any (λ s. s == r) (drop 3 (take n paramstoregs))

borrowed_ne : (n r : ℕ) → borrowed n r ≡ true → (r ≢ d0) × (r ≢ d1)
unfolding any
borrowed_ne zero r b = absurd (cc)
borrowed_ne (suc zero) r b = absurd (cc)
borrowed_ne (suc (suc zero)) r b = absurd (cc)
borrowed_ne (suc (suc (suc n))) r b =
    callee_saved r (any-take (λ s. s == r) n (2 ∷ 10 ∷ 3 ∷ 11 ∷ 4 ∷ 12 ∷ 5 ∷ []) b)

module _ {Mem : Type 0} (k : Kernel Mem) where
  pass_out-regs :
      (m : Machine Mem) (from len : ℕ) (f : List ℕ → List ℕ) (to r : ℕ)
      → regs_of m (pass_out k m from len f to) r ≡ m.regs r
  unfolding pass_out
  pass_out-regs m from len f to r = ground arith

  finish-regs :
      (m : Machine Mem) (post : Post) (tmp ksrc ubuf r : ℕ)
      → r ≢ d1
      → regs_of m (finish k m post tmp ksrc ubuf) r ≡ m.regs r
  unfolding finish
  finish-regs m nothing tmp ksrc ubuf r ne = refl
  finish-regs m wait tmp ksrc ubuf r ne = ground arith
  finish-regs m _ tmp ksrc ubuf r ne = pass_out-regs m _ _ _ _ r

  restore-regs :
      (g : ℕ → ℕ) (n : ℕ) (m : Machine Mem) (r : ℕ)
      → borrowed n r ≡ true
      → (restore k g n m).regs r ≡ g r
  unfolding restore
  restore-regs g n m r b =
      rw (drop-save_regs 3 g (take n paramstoregs))
        (load_regs-save_regs m.regs g (drop 3 (take n paramstoregs)) r ∙ rw b refl)

  pub d0-restore : (g : ℕ → ℕ) (n : ℕ) (m : Machine Mem) → (restore k g n m).regs d0 ≡ m.regs d0
  unfolding restore
  d0-restore g n m = rw (drop-save_regs 3 g (take n paramstoregs)) (
      load_regs-save_regs m.regs g (drop 3 (take n paramstoregs)) d0
      ∙ unborrowed (Bool-cases (borrowed n d0)))
    where
      unborrowed :
          (borrowed n d0 ≡ true) ⊎ (borrowed n d0 ≡ false)
          → (if borrowed n d0 then g d0 else m.regs d0) ≡ m.regs d0
      unborrowed (inl b) = absurd ((borrowed_ne n d0 b).0 refl)
      unborrowed (inr b) = rw b refl

  amix_error-regs : (m : Machine Mem) (r : ℕ) → r ≢ d0 → (amix_error k m).regs r ≡ m.regs r
  unfolding amix_error
  amix_error-regs m r ne = ground arith

  converted-regs :
      (o : Option (Machine Mem)) (m : Machine Mem) (r : ℕ)
      → r ≢ d0
      → regs_of m o r ≡ m.regs r
      → (converted k o m).regs r ≡ m.regs r
  unfolding converted
  converted-regs none m r ne e = ground arith
  converted-regs (some m') m r ne e = e

  returned-regs :
      (g : ℕ → ℕ) (n tmp : ℕ) (p : Prepared Mem) (m : Machine Mem) (c : Bool) (r : ℕ)
      → borrowed n r ≡ true
      → r ≢ d0
      → r ≢ d1
      → (returned k g n tmp p m c).regs r ≡ g r
  unfolding returned
  returned-regs g n tmp p m true r b n0 n1 =
      amix_error-regs (restore k g n m) r n0 ∙ restore-regs g n m r b
  returned-regs g n tmp p m false r b n0 n1 =
      converted-regs (finish k (restore k g n m) p.post tmp p.ksrc p.ubuf) (restore k g n m) r n0
        (finish-regs (restore k g n m) p.post tmp p.ksrc p.ubuf r n1)
      ∙ restore-regs g n m r b

  after_call-regs :
      (g : ℕ → ℕ) (pc n tmp : ℕ) (p : Prepared Mem) (m : Machine Mem) (r : ℕ)
      → borrowed n r ≡ true
      → r ≢ d0
      → r ≢ d1
      → (after_call k g pc n tmp p m).pc ≡ pc
      → (after_call k g pc n tmp p m).regs r ≡ g r
  unfolding after_call
  after_call-regs g pc n tmp p m r b n0 n1 e =
      ground (arith, returned-regs g n tmp p m m.carry r b n0 n1)

  gate-regs :
      (m : Machine Mem) (n tmp : ℕ) (o : Option (Prepared Mem)) (r : ℕ)
      → borrowed n r ≡ true
      → r ≢ d0
      → r ≢ d1
      → (gate k m n tmp o).0.pc ≡ m.pc
      → (gate k m n tmp o).0.regs r ≡ m.regs r
  unfolding gate
  gate-regs m n tmp none r b n0 n1 e = ground arith
  gate-regs m n tmp (some p) r b n0 n1 e =
      after_call-regs m.regs m.pc n tmp p (k.svr4_trap10 (native_call k m n tmp p)).0 r b n0 n1 e

  -- A system call after which the program goes on behind its trap (the program counter is as it was) leaves
  -- the registers that the AMIX ABI has callee save (d2 to d5, a2 to a4) as they were, as far as the gate
  -- borrowed them for arguments, whatever else the kernel did, and whether the call failed, was refused or
  -- succeeded. (Nothing is said of a call that leaves with a new program counter: one that is restarted,
  -- setcontext, exec.)
  pub regs-amx_trap0 :
      (m : Machine Mem) (r : ℕ)
      → borrowed (arg_count k (m.regs d0)) r ≡ true
      → (amx_trap0 k m).0.pc ≡ m.pc
      → (amx_trap0 k m).0.regs r ≡ m.regs r
  unfolding amx_trap0
  regs-amx_trap0 m r b e =
      let (n0, n1) = borrowed_ne (arg_count k (m.regs d0)) r b in gate-regs _ _ _ _ r b n0 n1 e
