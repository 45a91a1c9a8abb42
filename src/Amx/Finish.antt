-- ===== src/Amx/Finish.antt =====
-- driver-amix/amx.c, `amx_trap0` after svr4_trap10 has come back without an error: the results as
-- AMIX wants them. `none` is the way out with EFAULT.
use atari_sysv_sp.Base.{ℕ, Option, some, List, replicate}
use atari_sysv_sp.Base.Buffer.{bytes, longs}
use atari_sysv_sp.Base.Maybe.{◌>>=◌}
use atari_sysv_sp.Amx.Signal.{mask_out, wstat_out}
use atari_sysv_sp.Amx.Struct.{sa_out, si_out, st_out, tios_out, uts_out, uc_out}
use atari_sysv_sp.Amx.Machine.{
  Machine, Kernel, d1, update, Post, nothing, stat, sigmask, sigaction, siginfo, tcgets, uname,
  context, wait,
}

module _ {Mem : Type 0} (k : Kernel Mem) where
  -- Copy len bytes from the scratch space, convert them, and write the result to the caller.
  unfoldable pub pass_out : Machine Mem → ℕ → ℕ → (List ℕ → List ℕ) → ℕ → Option (Machine Mem)
  pass_out m from len convert to = do
    b ← k.copyin m.mem from len
    mem ← k.copyout m.mem to (convert b)
    some (record m { mem = mem })

  -- The switch on `post`. `si_out` fills all of its buffer, whatever that holds.
  unfoldable pub finish : Machine Mem → Post → ℕ → ℕ → ℕ → Option (Machine Mem)
  unfolding pass_out
  finish m nothing tmp ksrc ubuf = some m
  finish m wait tmp ksrc ubuf = some (record m { regs = update m.regs d1 (wstat_out (m.regs d1)) })
  finish m stat tmp ksrc ubuf = pass_out m tmp 104 (λ b. bytes (st_out (longs b))) ubuf
  finish m sigmask tmp ksrc ubuf = pass_out m ksrc 8 (λ b. bytes (mask_out (longs b))) ubuf
  finish m sigaction tmp ksrc ubuf = pass_out m ksrc 16 (λ b. bytes (sa_out (longs b))) ubuf
  finish m siginfo tmp ksrc ubuf =
      pass_out m tmp 128 (λ b. bytes (si_out k.sigcld (longs b) (replicate 32 0))) ubuf
  finish m tcgets tmp ksrc ubuf = pass_out m tmp 36 tios_out ubuf
  finish m uname tmp ksrc ubuf = pass_out m tmp 1280 uts_out ubuf
  finish m context tmp ksrc ubuf = pass_out m tmp 1024 (λ b. bytes (uc_out (longs b))) ubuf
