-- ===== src/Amx/Machine.antt =====
-- driver-amix/amx.c, what the system call gate sees of the machine. The kernel around it
-- (svr4_trap10, sysent, copyin, copyout, grow, sendsig, fuword, suword) is a parameter. A register
-- slot is its number, and the registers are a function of it.
use atari_sysv_sp.Base.{ℕ, Bool, Option, List, [], ◌∷◌, ◌==◌, if◌then◌else◌}
use atari_sysv_sp.Amx.Contexts.{Table}

-- The slots D0, D1 and USP, and paramstoregs.
abbrev pub d0 : ℕ
d0 = 0

abbrev pub d1 : ℕ
d1 = 1

abbrev pub usp : ℕ
usp = 15

abbrev pub paramstoregs : List ℕ
paramstoregs = 8 ∷ 1 ∷ 9 ∷ 2 ∷ 10 ∷ 3 ∷ 11 ∷ 4 ∷ 12 ∷ 5 ∷ []

abbrev pub nregargs : ℕ
nregargs = 10

-- Which table of system calls a process goes through.
pub data Ops : Type 0 where
  svr4 amx other : Ops

-- What the gate sees of the machine: the trap's frame (its registers, the carry bit of SR, the PC),
-- the user's memory, the process and its table of calls, `amx_uctab` and `amx_calls`.
pub record Machine (Mem : Type 0) : Type 0 where
  pub regs : ℕ → ℕ
  pub carry : Bool
  pub pc : ℕ
  pub mem : Mem
  pub proc : ℕ
  pub ops : Ops
  pub ucs : Table
  pub calls : ℕ

-- What the gate calls in the kernel, and the numbers of the system's headers that it uses.
pub record Kernel (Mem : Type 0) : Type 0 where
  -- sysent: the number of calls, and sy_narg of each
  pub sysentsize : ℕ
  pub sy_narg : ℕ → ℕ
  -- `copyin mem addr len`, the bytes there, or none for a bad address
  pub copyin : Mem → ℕ → ℕ → Option (List ℕ)
  -- `copyout mem addr bytes`, or none for a bad address
  pub copyout : Mem → ℕ → List ℕ → Option Mem
  pub grow : Mem → ℕ → Mem
  pub svr4_trap10 : Machine Mem → Machine Mem × ℕ
  -- the frame that a delivered signal has on the user's stack
  pub sendsig : Machine Mem → ℕ → ℕ → ℕ → Machine Mem × ℕ
  pub fuword : Mem → ℕ → ℕ
  pub suword : Mem → ℕ → ℕ → Mem
  pub efault : ℕ
  pub sigcld : ℕ

-- What to do after the call: POST_NONE and so on.
pub data Post : Type 0 where
  nothing stat sigmask sigaction siginfo tcgets uname context wait : Post

-- What the translation of the arguments leaves for the call: the arguments, what to do after it, the
-- caller's buffer, where the kernel writes its own, the memory and the contexts.
pub record Prepared (Mem : Type 0) : Type 0 where
  pub args : List ℕ
  pub post : Post
  pub ubuf : ℕ
  pub ksrc : ℕ
  pub mem : Mem
  pub ucs : Table

abbrev pub update : (ℕ → ℕ) → ℕ → ℕ → ℕ → ℕ
update f i v j = if i == j then v else f j

-- fp[rs[i]] = vs[i], for each i
unfoldable pub load_regs : (ℕ → ℕ) → List ℕ → List ℕ → ℕ → ℕ
load_regs f [] vs = f
load_regs f (r ∷ rs) [] = f
load_regs f (r ∷ rs) (v ∷ vs) = load_regs (update f r v) rs vs

-- vs[i] = fp[rs[i]]
unfoldable pub save_regs : (ℕ → ℕ) → List ℕ → List ℕ
save_regs f [] = []
save_regs f (r ∷ rs) = f r ∷ save_regs f rs
