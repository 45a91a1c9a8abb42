-- ===== src/Amx/Gate.antt =====
-- driver-amix/amx.c, `amx_trap0`, the gate, and `amx_sendsig`, the delivery of a signal.
pub mod Registers
pub mod Returns
mod Tests
use atari_sysv_sp.Base.{
  ℕ, ◌+◌, ◌-◌, ◌*◌, ◌%◌, Bool, true, false, not, ◌&&◌, Option, none, some, List, [], ◌∷◌, ◌==◌, ltb,
  if◌then◌else◌, take, drop, replicate,
}
use atari_sysv_sp.Base.Buffer.{bytes, longs}
use atari_sysv_sp.Base.Words.{word, add_int, sub_int}
use atari_sysv_sp.Amx.Signal.{sig_out}
use atari_sysv_sp.Amx.Errno.{err_out}
use atari_sysv_sp.Amx.Struct.{si_out}
use atari_sysv_sp.Amx.Contexts.{uctake}
use atari_sysv_sp.Amx.Machine.{
  Machine, Kernel, Ops, svr4, amx, other, Prepared, nothing, d0, usp, paramstoregs, nregargs,
  update, load_regs, save_regs,
}
use atari_sysv_sp.Amx.Prepare.{prepare}
use atari_sysv_sp.Amx.Finish.{finish}

-- The first trap #0 moves a process to amx_ops.
abbrev pub adopt : Ops → Ops
adopt svr4 = amx
adopt amx = amx
adopt other = other

-- `fp[D0] = err_out (e)`, and the carry bit
abbrev pub fail : {Mem : Type 0} → Machine Mem → ℕ → Machine Mem
fail m e = record m { regs = update m.regs d0 (err_out e); carry = true }

module _ {Mem : Type 0} (k : Kernel Mem) where
  -- The number of arguments that are passed.
  pub arg_count : ℕ → ℕ
  arg_count num =
      let n = if ltb num k.sysentsize then k.sy_narg num else 0 in
      if ltb nregargs n then nregargs else n

  -- The arguments from the user's stack, zeros for a bad stack.
  read_args : Option (List ℕ) → ℕ → List ℕ
  read_args none n = replicate n 0
  read_args (some bs) n = longs bs

  pub stack_args : Machine Mem → ℕ → List ℕ
  stack_args m n =
      if n == 0 then [] else read_args (k.copyin m.mem (add_int (m.regs usp) 4) (n * 4)) n

  -- sp, 64 bytes below the stack pointer and a multiple of 4, less SCRATCH.
  pub scratch : Machine Mem → ℕ
  scratch m = let sp = sub_int (m.regs usp) 64 in sub_int (sp - sp % 4) 2048

  -- What follows the call: `m` is the machine after it, `regs` the registers before.
  converted : Option (Machine Mem) → Machine Mem → Machine Mem
  converted (some m') m = m'
  converted none m = fail m k.efault

  -- The registers borrowed beyond the first three, put back.
  pub restore : (ℕ → ℕ) → ℕ → Machine Mem → Machine Mem
  restore regs n m =
      let rs = take n paramstoregs in
      record m { regs = load_regs m.regs (drop 3 rs) (drop 3 (save_regs regs rs)) }

  -- The error that the call came back with.
  amix_error : Machine Mem → Machine Mem
  amix_error m = record m { regs = update m.regs d0 (err_out (m.regs d0)) }

  -- The call has come back, with the carry bit (an error) or without.
  returned : (ℕ → ℕ) → ℕ → ℕ → Prepared Mem → Machine Mem → Bool → Machine Mem
  returned regs n tmp p m true = amix_error (restore regs n m)
  returned regs n tmp p m false =
      converted (finish k (restore regs n m) p.post tmp p.ksrc p.ubuf) (restore regs n m)

  after_call : (ℕ → ℕ) → ℕ → ℕ → ℕ → Prepared Mem → Machine Mem → Machine Mem
  after_call regs pc n tmp p m = if not (m.pc == pc) then m else returned regs n tmp p m m.carry

  -- The machine that svr4_trap10 is given.
  pub native_call : Machine Mem → ℕ → ℕ → Prepared Mem → Machine Mem
  native_call m n tmp p = record m {
    regs = load_regs m.regs (take n paramstoregs) p.args;
    mem = k.grow p.mem tmp;
    ucs = p.ucs;
  }

  pub gate : Machine Mem → ℕ → ℕ → Option (Prepared Mem) → Machine Mem × ℕ
  gate m n tmp none = (fail m k.efault, 0)
  gate m n tmp (some p) =
      let (m', rv) = k.svr4_trap10 (native_call m n tmp p) in
      (after_call m.regs m.pc n tmp p m', rv)

  pub amx_trap0 : Machine Mem → Machine Mem × ℕ
  amx_trap0 m0 =
      let m = record m0 { calls = add_int m0.calls 1; ops = adopt m0.ops } in
      let n = arg_count (m.regs d0) in
      let tmp = scratch m in
      let p : Prepared Mem = record {
        args = stack_args m n;
        post = nothing;
        ubuf = 0;
        ksrc = tmp;
        mem = m.mem;
        ucs = m.ucs;
      } in
      gate m n tmp (prepare k (m.regs d0) p tmp m.proc)

  -- The siginfo that the handler will see, if it has one.
  info_out : Machine Mem → ℕ → Option (List ℕ) → Mem
  info_out m info none = m.mem
  info_out m info (some b) =
      elim (k.copyout m.mem info (bytes (si_out k.sigcld (longs b) (replicate 32 0)))) [
        | none ↦ m.mem
        | some mem ↦ mem
      ]

  -- The handler's arguments, after sendsig has built its frame: the signal's AMIX number, the
  -- context remembered, the siginfo translated.
  delivered : Machine Mem → ℕ → Machine Mem
  delivered m sig =
      let sp = m.regs usp in
      let named = record m { mem = k.suword m.mem (add_int sp 4) (sig_out sig) } in
      let info = k.fuword named.mem (add_int sp 8) in
      let taken = record named { ucs = uctake m.ucs m.proc (k.fuword named.mem (add_int sp 12)) } in
      if not (info == 0) && not (info == word - 1)
      then record taken { mem = info_out taken info (k.copyin taken.mem info 128) }
      else taken

  pub amx_sendsig : Machine Mem → ℕ → ℕ → ℕ → Machine Mem × ℕ
  amx_sendsig m sig sip hdlr =
      let (m', rv) = k.sendsig m sig sip hdlr in
      if rv == 0 then (m', rv) else (delivered m' sig, rv)
