-- ===== src/Amx/Gate/Returns.antt =====
-- The gate's scratch space, and the ways back to the AMIX program.
use atari_sysv_sp.Base.{ℕ, ◌+◌, ◌%◌, ◌≤◌, ◌<◌, ◌≡◌, ◌≢◌, refl, true, some, ◌^◌, arith}
use atari_sysv_sp.Base.Buffer.{bytes, longs-bytes, AllWords}
use atari_sysv_sp.Amx.Errno.Laws.{amix_errno, err_out-amix_errno}
use atari_sysv_sp.Amx.Machine.{Machine, Kernel, Prepared, stat, d0, usp}
use atari_sysv_sp.Amx.Finish.{finish}
use atari_sysv_sp.Amx.Struct.Layout.{Stat, asv_stat, svr4_stat, st_out-asv_stat}
use atari_sysv_sp.Amx.Gate.Registers.{d0-restore}
use atari_sysv_sp.Amx.Gate.{gate, scratch, native_call, after_call, returned, restore, amix_error}

module _ {Mem : Type 0} (k : Kernel Mem) where
  -- The 2048 bytes of scratch space are a multiple of 4 away from 0 and lie under the 64 bytes below
  -- the user's stack pointer, at most 3 bytes further down.
  pub scratch_bounds :
      (m : Machine Mem)
      → m.regs usp < 2 ^ 32
      → 2115 ≤ m.regs usp
      → (scratch k m % 4 ≡ 0)
        × (scratch k m + 2048 + 64 ≤ m.regs usp)
        × (m.regs usp < scratch k m + 2048 + 64 + 4)
  unfolding scratch
  scratch_bounds m h lo = omega arith

  restore-carry :
      (g : ℕ → ℕ) (n : ℕ) (m : Machine Mem)
      → ((restore k g n m).carry ≡ m.carry) × ((restore k g n m).mem ≡ m.mem)
  unfolding restore
  restore-carry g n m = (refl, refl)

  -- A call that failed and came back to the program: D0 has the AMIX number of the kernel's error, by the
  -- runs in which the two systems number their errors, the carry bit is set, and the memory is as the
  -- kernel left it. (`m'` is the machine that svr4_trap10 gives back.)
  pub gate-error :
      (m : Machine Mem) (n tmp : ℕ) (p : Prepared Mem) {m' : Machine Mem} {rv : ℕ}
      → k.svr4_trap10 (native_call k m n tmp p) ≡ (m', rv)
      → m'.pc ≡ m.pc
      → m'.carry ≡ true
      → ((gate k m n tmp (some p)).0.regs d0 ≡ amix_errno (m'.regs d0))
        × ((gate k m n tmp (some p)).0.carry ≡ true)
        × ((gate k m n tmp (some p)).0.mem ≡ m'.mem)
        × ((gate k m n tmp (some p)).1 ≡ rv)
  unfolding gate after_call returned amix_error
  gate-error m n tmp p {m'} {rv} e same c = ground (
    arith,
    err_out-amix_errno (m'.regs d0),
    e,
    d0-restore k m.regs n m',
    restore-carry m.regs n m',
  )

  -- A call that the kernel restarts, or that left for another program (setcontext, exec): the gate
  -- touches nothing of the machine that svr4_trap10 gives back.
  pub gate_left :
      (m : Machine Mem) (n tmp : ℕ) (p : Prepared Mem) {m' : Machine Mem} {rv : ℕ}
      → k.svr4_trap10 (native_call k m n tmp p) ≡ (m', rv)
      → m'.pc ≢ m.pc
      → gate k m n tmp (some p) ≡ (m', rv)
  unfolding gate after_call
  gate_left m n tmp p {m'} {rv} e ne = ground (arith, e)

  -- stat(), lstat() and fstat(): where the kernel has left what it tells of a file in its own layout,
  -- the caller's buffer gets the same in SVR4's.
  pub finish_stat :
      (m : Machine Mem) (s : Stat) (pad : ℕ × ℕ × ℕ × ℕ × ℕ × ℕ) (tmp ksrc ubuf : ℕ) {mem : Mem}
      → AllWords (asv_stat s pad)
      → k.copyin m.mem tmp 104 ≡ some (bytes (asv_stat s pad))
      → k.copyout m.mem ubuf (bytes (svr4_stat s)) ≡ some mem
      → finish k m stat tmp ksrc ubuf ≡ some (record m { mem = mem })
  unfolding finish
  finish_stat m s pad tmp ksrc ubuf w i o =
      rw (i, longs-bytes (asv_stat s pad) w, st_out-asv_stat s pad, o) refl
