-- ===== src/Amx/Gate/Tests.antt =====
-- The gate and its translations on concrete machines.
use atari_sysv_sp.Base.{
  ℕ, ◌≡◌, ◌≢◌, refl, true, false, some, List, [], ◌∷◌, ◌==◌, if◌then◌else◌, replicate, range_from,
  arith,
}
use atari_sysv_sp.Base.Bits.{clear_bit}
use atari_sysv_sp.Base.Buffer.{bytes, AllWords}
use atari_sysv_sp.Base.Loop.{any}
use atari_sysv_sp.Amx.Errno.Laws.{amix_errno}
use atari_sysv_sp.Amx.Signal.{mask_in, mask_out}
use atari_sysv_sp.Amx.Signal.Masks.{is_member, is_sent_as, has-mask_in, mask_out-mask_in}
use atari_sysv_sp.Amx.Struct.{uc_in, uc_out}
use atari_sysv_sp.Amx.Struct.Context.{amix_uc, uc_out-uc_in}
use atari_sysv_sp.Amx.Struct.Layout.{Stat, asv_stat}
use atari_sysv_sp.Amx.Contexts.{empty, find_free}
use atari_sysv_sp.Amx.Contexts.Laws.{IsValid}
use atari_sysv_sp.Amx.Machine.{Machine, Kernel, Prepared, nothing, svr4, d0, usp}
use atari_sysv_sp.Amx.Gate.{
  gate, amx_trap0, native_call, arg_count, after_call, returned, amix_error, restore,
}
use atari_sysv_sp.Amx.Prepare.{prepare}
use atari_sysv_sp.Amx.Gate.Registers.{borrowed, regs-amx_trap0}
use atari_sysv_sp.Amx.Gate.Returns.{gate-error}

-- A kernel whose memory is one buffer, each of whose calls gives the error 11.
abbrev kernel : Kernel (List ℕ)
kernel = record {
  sysentsize = 200;
  sy_narg = λ n. 6;
  copyin = λ mem addr n. some mem;
  copyout = λ mem addr bs. some bs;
  grow = λ mem addr. mem;
  svr4_trap10 = λ m. (record m { regs = λ r. if r == d0 then 11 else 9; carry = true }, 0);
  sendsig = λ m sig sip hdlr. (m, 1);
  fuword = λ mem addr. 0;
  suword = λ mem addr v. mem;
  efault = 14;
  sigcld = 18;
}

-- One that leaves for another program.
abbrev leaving : Kernel (List ℕ)
leaving = record kernel { svr4_trap10 = λ m. (record m { pc = 8192 }, 0) }

-- getpid, with the stack at 1 MB.
abbrev machine : Machine (List ℕ)
machine = record {
  regs = λ r. if r == d0 then 20 else if r == usp then 1048576 else r;
  carry = false;
  pc = 4096;
  mem = replicate 24 0;
  proc = 1;
  ops = svr4;
  ucs = empty;
  calls = 0;
}

abbrev call : Prepared (List ℕ)
call = record {
  args = 1 ∷ 2 ∷ 3 ∷ 4 ∷ 5 ∷ 6 ∷ [];
  post = nothing;
  ubuf = 0;
  ksrc = 0;
  mem = [];
  ucs = empty;
}

borrows : borrowed (arg_count kernel 20) 10 ≡ true
unfolding arg_count any
borrows = refl

comes_back : (amx_trap0 kernel machine).0.pc ≡ machine.pc
unfolding amx_trap0 gate prepare after_call native_call returned amix_error restore
comes_back = refl

regs-amx_trap0_example : (amx_trap0 kernel machine).0.regs 10 ≡ 10
regs-amx_trap0_example = regs-amx_trap0 kernel machine 10 borrows comes_back

abbrev failed : Machine (List ℕ)
failed = (kernel.svr4_trap10 (native_call kernel machine 6 0 call)).0

stays : failed.pc ≡ machine.pc
unfolding native_call
stays = refl

gate-error_example :
    ((gate kernel machine 6 0 (some call)).0.regs d0 ≡ amix_errno (failed.regs d0))
    × ((gate kernel machine 6 0 (some call)).0.carry ≡ true)
    × ((gate kernel machine 6 0 (some call)).0.mem ≡ failed.mem)
    × ((gate kernel machine 6 0 (some call)).1 ≡ 0)
gate-error_example = gate-error kernel machine 6 0 call refl stays refl

abbrev gone : Machine (List ℕ)
gone = (leaving.svr4_trap10 (native_call leaving machine 6 0 call)).0

elsewhere : gone.pc ≢ machine.pc
unfolding native_call
elsewhere = λ e. absurd (omega (arith, e))

abbrev file_stat : Stat
file_stat = record {
  dev = 1;
  ino = 2;
  mode = 33188;
  nlink = 1;
  uid = 100;
  gid = 100;
  rdev = 0;
  size = 5000;
  atime = (10, 0);
  mtime = (20, 0);
  ctime = (30, 0);
  blksize = 8192;
  blocks = 10;
  fstype = (1, 2, 3, 4);
}

abbrev told : Machine (List ℕ)
told = record machine { mem = bytes (asv_stat file_stat (0, 0, 0, 0, 0, 0)) }

stat_words : AllWords (asv_stat file_stat (0, 0, 0, 0, 0, 0))
unfolding asv_stat
stat_words = ground arith

uc_out-uc_in_example :
    uc_out (uc_in (amix_uc 15 0 (2147483649 ∷ 7 ∷ 0 ∷ 0 ∷ []) (1, 2, 3) (range_from 0 247)))
    ≡ amix_uc
        (clear_bit 15 3)
        0
        (clear_bit 2147483649 31 ∷ 0 ∷ 0 ∷ 0 ∷ [])
        (1, 2, 3)
        (range_from 0 247)
uc_out-uc_in_example =
    uc_out-uc_in 15 0 2147483649 7 0 0 (1, 2, 3) (range_from 0 247) refl (omega arith)

mask_out-mask_in_example :
    mask_out (mask_in (2147483653 ∷ 9 ∷ 9 ∷ 9 ∷ [])) ≡ clear_bit 2147483653 31 ∷ 0 ∷ 0 ∷ 0 ∷ []
mask_out-mask_in_example = mask_out-mask_in (2147483653 ∷ 9 ∷ 9 ∷ 9 ∷ []) (omega arith)

has-mask_in_example :
    is_member (mask_in (5 ∷ 0 ∷ 0 ∷ 0 ∷ [])) 3
    ≡ any (is_sent_as (5 ∷ 0 ∷ 0 ∷ 0 ∷ []) 3) (range_from 1 31)
has-mask_in_example = has-mask_in (5 ∷ 0 ∷ 0 ∷ 0 ∷ []) 3 (omega arith)

empty-IsValid : IsValid empty
empty-IsValid = record { size = refl; next_in = omega arith }

first_free : find_free 0 empty.slots ≡ some 0
unfolding find_free
first_free = refl
