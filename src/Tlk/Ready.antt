-- ===== src/Tlk/Ready.antt =====
-- The status registers: a wait that succeeds has seen the register ready, and it stays so.
use atari_sysv_sp.Base.{
  ℕ, zero, suc, ◌≡◌, inl, inr, true, Bool-cases, not, ◌&&◌, ◌==◌, if◌then◌else◌,
}
use atari_sysv_sp.Base.Words.{lt_int, add_int}
use atari_sysv_sp.Tlk.{Reg, Link, spin_polls, is_set, spin, wait_from}
use atari_sysv_sp.Tlk.Move.{is_ok}

-- The next read of the register finds it ready.
abbrev pub IsReady : {H : Type 0} → Link H → Reg → H → Type 0
IsReady l reg h = is_set (l.look reg h).0 ≡ true

-- A register that is ready stays ready while it is only read.
abbrev pub IsHeld : {H : Type 0} → Link H → Reg → Type 0
IsHeld {H} l reg = (h : H) → IsReady l reg h → IsReady l reg (l.look reg h).1

module _ {H : Type 0} (l : Link H) (reg : Reg) (held : IsHeld l reg) where
  pub spin-IsReady : (n : ℕ) (h : H) → (spin l reg n h).0 ≡ true → IsReady l reg (spin l reg n h).1
  unfolding spin
  spin-IsReady zero h = λ e. absurd cc
  spin-IsReady (suc n) h = elim (Bool-cases (is_set (l.look reg h).0)) [
    | inl t ↦ rw t (λ e. held h t)
    | inr f ↦ rw f (spin-IsReady n (l.look reg h).1)
  ]

  pub wait_from-IsReady :
      (rounds timeout ticks : ℕ) (h : H)
      → is_ok (wait_from l rounds reg timeout ticks h).0 ≡ true
      → IsReady l reg (wait_from l rounds reg timeout ticks h).1
  unfolding wait_from is_ok
  wait_from-IsReady zero timeout ticks h = λ e. absurd cc
  wait_from-IsReady (suc rounds) timeout ticks h =
      let (ready, h1) = spin l reg spin_polls h in
      let (signal, h2) = l.tick h1 in
      let later =
        wait_from-IsReady rounds timeout (if timeout == 0 then ticks else add_int ticks 1) h2 in
      elim (Bool-cases ready) [
        | inl t ↦ rw t (λ e. spin-IsReady spin_polls h t)
        | inr f ↦ rw f (elim (Bool-cases (not (timeout == 0) && not (lt_int ticks timeout))) [
          | inl t ↦ rw t (λ e. absurd cc)
          | inr g ↦
              rw g (elim (Bool-cases signal) [ inl t ↦ rw t (λ e. absurd cc) | inr u ↦ rw u later ])
        ])
      ]
