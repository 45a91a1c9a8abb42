-- ===== src/Amx/Prepare.antt =====
-- driver-amix/amx.c, `amx_trap0` up to the call of svr4_trap10: the arguments of an AMIX system call
-- as ASV wants them. `none` is the branch `err = EFAULT`. The kernel-side work buffers (kmem_alloc)
-- are not modelled.
use atari_sysv_sp.Base.{
  ℕ, ◌-◌, ◌+◌, ◌%◌, Bool, true, false, not, ◌&&◌, ◌||◌, Option, some, List, ◌==◌, leb,
  if◌then◌else◌, get_or, set,
}
use atari_sysv_sp.Base.Buffer.{bytes, longs}
use atari_sysv_sp.Base.Maybe.{◌>>=◌}
use atari_sysv_sp.Base.Words.{add_int, lt_int}
use atari_sysv_sp.Amx.Signal.{sig_in, mask_in}
use atari_sysv_sp.Amx.Errno.{pc_in}
use atari_sysv_sp.Amx.Struct.{sa_in, tios_in, uc_in}
use atari_sysv_sp.Amx.Contexts.{Table, ucgive}
use atari_sysv_sp.Amx.Machine.{
  Kernel, Post, stat, sigmask, sigaction, siginfo, tcgets, uname, context, wait, Prepared,
}

-- TCGETS and TCSETSF: 'T' << 8 with 13 and 16
abbrev pub ioc_tcgets : ℕ
ioc_tcgets = 0x540d

abbrev pub ioc_tcsetsf : ℕ
ioc_tcsetsf = 0x5410

module _ {Mem : Type 0} (k : Kernel Mem) where
  -- Copy len bytes in, convert them, and write the result to the scratch space.
  unfoldable pub pass_in : Mem → ℕ → ℕ → (List ℕ → List ℕ) → ℕ → Option Mem
  pass_in mem addr len convert tmp = do a ← k.copyin mem addr len; k.copyout mem tmp (convert a)

  -- For an argument that is a null pointer nothing is copied, and it stays.
  pass_arg : Prepared Mem → ℕ → ℕ → (List ℕ → List ℕ) → ℕ → Option (Prepared Mem)
  pass_arg p i len convert tmp = if get_or p.args i 0 == 0 then some p else do
    mem ← pass_in p.mem (get_or p.args i 0) len convert tmp
    some (record p { args = set p.args i tmp; mem = mem })

  -- The result goes to the scratch space first, at ksrc.
  unfoldable pub result_arg : Prepared Mem → ℕ → ℕ → Post → Prepared Mem
  result_arg p i ksrc post = record p {
    args = set p.args i ksrc;
    post = post;
    ubuf = get_or p.args i 0;
    ksrc = ksrc;
  }

  unfoldable pub result_arg? : Prepared Mem → ℕ → ℕ → Post → Prepared Mem
  unfolding result_arg
  result_arg? p i ksrc post = if get_or p.args i 0 == 0 then p else result_arg p i ksrc post

  -- `how`: SIG_BLOCK and its fellows are 1..3 on AMIX and 0..2 on ASV.
  abbrev pub how_in : ℕ → ℕ
  how_in how = if leb 1 how && leb how 3 then how - 1 else how

  sigprocmask : Prepared Mem → ℕ → Option (Prepared Mem)
  unfolding pass_arg pass_in result_arg?
  sigprocmask p tmp = do
    let p' : Prepared Mem = record p { args = set p.args 0 (how_in (get_or p.args 0 0)) }
    q ← pass_arg p' 1 16 (λ a. bytes (mask_in (longs a))) tmp
    some (result_arg? q 2 (add_int tmp 8) sigmask)

  sigsuspend : Prepared Mem → ℕ → Option (Prepared Mem)
  unfolding pass_in
  sigsuspend p tmp = do
    mem ← pass_in p.mem (get_or p.args 0 0) 16 (λ a. bytes (mask_in (longs a))) tmp
    some (record p { args = set p.args 0 tmp; mem = mem })

  sigaction_call : Prepared Mem → ℕ → Option (Prepared Mem)
  unfolding pass_arg pass_in result_arg?
  sigaction_call p tmp = do
    let p' : Prepared Mem = record p { args = set p.args 0 (sig_in (get_or p.args 0 0)) }
    q ← pass_arg p' 1 32 (λ a. bytes (sa_in (longs a))) tmp
    some (result_arg? q 2 (add_int tmp 16) sigaction)

  -- getcontext, and setcontext: the context that a signal delivered is ASV's already, and goes back
  -- as it is.
  setcontext : Prepared Mem → ℕ → Bool × Table → Option (Prepared Mem)
  unfolding pass_in
  setcontext p tmp (true, ucs) = some (record p { ucs = ucs })
  setcontext p tmp (false, ucs) = do
    mem ← pass_in p.mem (get_or p.args 1 0) 1024 (λ a. bytes (uc_in (longs a))) tmp
    some (record p { args = set p.args 1 tmp; mem = mem; ucs = ucs })

  context_call : Prepared Mem → ℕ → ℕ → Option (Prepared Mem)
  unfolding setcontext result_arg
  context_call p tmp proc =
      if get_or p.args 0 0 == 0
      then some (result_arg p 1 tmp context)
      else if get_or p.args 0 0 == 1
      then setcontext p tmp (ucgive p.ucs proc (get_or p.args 1 0))
      else some p

  stat_call : Prepared Mem → ℕ → Option (Prepared Mem)
  unfolding result_arg
  stat_call p tmp = some (if get_or p.args 0 0 == 2 then result_arg p 2 tmp stat else p)

  ioctl_call : Prepared Mem → ℕ → Option (Prepared Mem)
  unfolding pass_in result_arg
  ioctl_call p tmp =
      if get_or p.args 1 0 == ioc_tcgets
      then some (result_arg p 2 tmp tcgets)
      else if lt_int ioc_tcgets (get_or p.args 1 0) && not (lt_int ioc_tcsetsf (get_or p.args 1 0))
      then (do
        mem ← pass_in p.mem (get_or p.args 2 0) 35 tios_in tmp
        some (record p { args = set p.args 2 tmp; mem = mem }))
      else some p

  -- The second switch of `amx_trap0`, on the call's number.
  unfoldable pub prepare : ℕ → Prepared Mem → ℕ → ℕ → Option (Prepared Mem)
  unfolding sigprocmask sigsuspend sigaction_call context_call stat_call ioctl_call result_arg
      result_arg?
  prepare num p tmp proc =
      let arg = λ (i : ℕ). get_or p.args i 0 in
      if num == 37 || num == 108
      then some (record p { args = set p.args 1 (sig_in (arg 1)) })
      else if num == 48
      then some (record p { args = set p.args 0 (arg 0 - arg 0 % 256 + sig_in (arg 0 % 256)) })
      else if num == 95
      then sigprocmask p tmp
      else if num == 96
      then sigsuspend p tmp
      else if num == 99
      then some (result_arg? p 1 tmp sigmask)
      else if num == 98
      then sigaction_call p tmp
      else if num == 107
      then some (result_arg? p 2 tmp siginfo)
      else if num == 7
      then some (record p { post = wait })
      else if num == 100
      then context_call p tmp proc
      else if num == 123 || num == 124 || num == 125
      then stat_call p tmp
      else if num == 54
      then ioctl_call p tmp
      else if num == 135
      then some (result_arg p 0 tmp uname)
      else if num == 113 || num == 118
      then some (record p { args = set p.args 1 (pc_in (arg 1)) })
      else some p
