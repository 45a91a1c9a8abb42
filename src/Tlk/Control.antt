-- ===== src/Tlk/Control.antt =====
-- driver-tlk/tlk.c, the adapters' state and the calls that change it: `tlkinit`, `tlk_fpga`, `tlkopen`,
-- `tlkclose`, `tlk_reset` and `tlkioctl` without TLK_DIAG. The hardware at an address is a `Link`, and
-- `id_long` the long that ioprobe() reads at an address, if it answers.
use atari_sysv_sp.Base.{
  ℕ, zero, suc, ◌+◌, ◌-◌, ◌*◌, ◌%◌, Bool, true, false, not, ◌&&◌, ◌||◌, Option, none, some, List,
  [], ◌∷◌, ◌==◌, leb, if◌then◌else◌,
}
use atari_sysv_sp.Base.Words.{word, lt_int, div_int}
use atari_sysv_sp.Tlk.{
  Reg, r_in, r_out, r_istat, r_ostat, r_reset, r_anal, Link, Errno, ok, eio, einval, enxio, ebusy,
  eperm, is_set,
}

pub record Adapter : Type 0 where
  pub base : ℕ
  pub opened : Bool
  pub timeout : ℕ
  pub pace : ℕ

-- tlk[]
pub record Tlk : Type 0 where
  pub c011 : Adapter
  pub fpga : Adapter

unfoldable pub adapter : Tlk → ℕ → Adapter
adapter t zero = t.c011
adapter t (suc m) = t.fpga

unfoldable pub with_adapter : Tlk → ℕ → Adapter → Tlk
with_adapter t zero a = record { c011 = a; fpga = t.fpga }
with_adapter t (suc m) a = record { c011 = t.c011; fpga = a }

unfoldable pub set_opened : Bool → Adapter → Adapter
set_opened b a = record { base = a.base; opened = b; timeout = a.timeout; pace = a.pace }

unfoldable pub set_base : ℕ → Adapter → Adapter
set_base b a = record { base = b; opened = a.opened; timeout = a.timeout; pace = a.pace }

unfoldable pub fresh_adapter : ℕ → ℕ → Adapter
fresh_adapter hz b = record { base = b; opened = false; timeout = 2 * hz; pace = 0 }

unfoldable pub tlkinit : ℕ → Tlk
tlkinit hz = record { c011 = fresh_adapter hz 4278188736; fpga = fresh_adapter hz 4276091584 }

abbrev pub id_block : ℕ
id_block = 543387757

-- The first of the windows' tops whose id block answers.
unfoldable pub window : (ℕ → Option ℕ) → List ℕ → Option ℕ
window id_long [] = none
window id_long (top ∷ tops) = elim (id_long (top - 3584 + 24)) [
  | none ↦ window id_long tops
  | some id ↦ let rest = window id_long tops in if id == id_block then some top else rest
]

unfoldable pub tlk_fpga : (ℕ → Option ℕ) → Tlk → Tlk
tlk_fpga id_long t = elim (window id_long (4276092928 ∷ 4273995776 ∷ [])) [
  | none ↦ t
  | some top ↦ with_adapter t 1 (set_base (top - 1344) t.fpga)
]

-- The result of a call, the value it returns, the adapters and the hardware.
pub record Done (H : Type 0) : Type 0 where
  pub error : Errno
  pub value : ℕ
  pub tlk : Tlk
  pub hw : H

module _ {H : Type 0} (l : Link H) where
  -- Whether the registers answer, in turn up to the first that does not.
  unfoldable pub answer : List Reg → H → Bool × H
  answer [] h = (true, h)
  answer (r ∷ rs) h =
      let (v, h1) = l.rd r h in
      let rest = answer rs h1 in elim v [ none ↦ (false, h1) | some x ↦ rest ]

  -- The probes of open: the input data only when it holds nothing.
  unfoldable pub probe_all : H → Bool × H
  probe_all h =
      let (is, h1) = l.rd r_istat h in
      let (all, h2) = answer (r_ostat ∷ r_out ∷ r_reset ∷ r_anal ∷ []) h1 in
      let data_in = answer (r_in ∷ []) h2 in
      elim is [
        | none ↦ (false, h1)
        | some v ↦ if not all then (false, h2) else if not (is_set v) then data_in else (true, h2)
      ]

  -- At most n bytes that are left in the input register.
  unfoldable pub drain : ℕ → H → Errno × H
  drain zero h = (ok, h)
  drain (suc n) h =
      let (is, h1) = l.rd r_istat h in
      let (v, h2) = l.rd r_in h1 in
      let rest = drain n h2 in
      elim is [
        | none ↦ (eio, h1)
        | some s ↦ if not (is_set s) then (ok, h1) else elim v [ none ↦ (eio, h2) | some b ↦ rest ]
      ]

  unfoldable pub tlk_reset : Bool → H → Errno × H
  tlk_reset analyse h =
      let (w0, h0) = l.wr r_reset 1 h in
      let (w1, h1) = l.wr r_anal (if analyse then 1 else 0) h0 in
      let h2 = (l.tick (l.tick h1).1).1 in
      let (w2, h3) = l.wr r_reset 0 h2 in
      let h4 = (l.tick h3).1 in
      if not w0
      then (eio, h0)
      else if not w1
      then (eio, h1)
      else if not w2
      then (eio, h3)
      else drain 64 h4

unfoldable pub ticks_of : ℕ → ℕ → ℕ
ticks_of hz arg = if arg == 0 then 0 else div_int ((arg * hz + 999) % word) 1000

-- TLK_RESET and its like: the low byte of the request.
pub data Request : Type 0 where
  reset : Request
  analyse : Request
  status : Request
  set_timeout : Request
  set_pace : Request
  unknown : Request

module _ {H : Type 0} (links : ℕ → Link H) (id_long : ℕ → Option ℕ) (hz : ℕ) where
  -- `chr` is otyp == OTYP_CHR.
  unfoldable pub tlkopen : ℕ → Bool → Tlk → H → Done H
  tlkopen m chr t h =
      let t' = if (m == 1) && not (adapter t m).opened then tlk_fpga id_long t else t in
      let a = adapter t' m in
      let (all, h1) = probe_all (links a.base) h in
      if leb 2 m || not chr
      then record { error = enxio; value = 0; tlk = t; hw = h }
      else if not all
      then record { error = enxio; value = 0; tlk = t'; hw = h1 }
      else if a.opened
      then record { error = ebusy; value = 0; tlk = t'; hw = h1 }
      else record { error = ok; value = 0; tlk = with_adapter t' m (set_opened true a); hw = h1 }

  unfoldable pub tlkclose : ℕ → Tlk → Tlk
  tlkclose m t = with_adapter t m (set_opened false (adapter t m))

  -- TLK_ST_IN, TLK_ST_OUT and TLK_ST_ERROR.
  unfoldable pub status_bits : ℕ → ℕ → ℕ → ℕ
  status_bits i o e = i % 2 + o % 2 * 2 + e % 2 * 4

  unfoldable pub tlkioctl : ℕ → Request → ℕ → Bool → Tlk → H → Done H
  tlkioctl m reset arg root t h =
      let (e, h1) = tlk_reset (links (adapter t m).base) false h in
      record { error = e; value = 0; tlk = t; hw = h1 }
  tlkioctl m analyse arg root t h =
      let (e, h1) = tlk_reset (links (adapter t m).base) true h in
      record { error = e; value = 0; tlk = t; hw = h1 }
  tlkioctl m status arg root t h =
      let l = links (adapter t m).base in
      let (i, h1) = l.look r_istat h in
      let (o, h2) = l.look r_ostat h1 in
      let (e, h3) = l.look r_reset h2 in
      record { error = ok; value = status_bits i o e; tlk = t; hw = h3 }
  tlkioctl m set_timeout arg root t h =
      let a = adapter t m in
      let a' : Adapter = record {
        base = a.base;
        opened = a.opened;
        timeout = ticks_of hz arg;
        pace = a.pace;
      } in
      if lt_int arg 0
      then record { error = einval; value = 0; tlk = t; hw = h }
      else record { error = ok; value = 0; tlk = with_adapter t m a'; hw = h }
  tlkioctl m set_pace arg root t h =
      let a = adapter t m in
      let a' : Adapter = record {
        base = a.base;
        opened = a.opened;
        timeout = a.timeout;
        pace = arg;
      } in
      if not root
      then record { error = eperm; value = 0; tlk = t; hw = h }
      else if lt_int arg 0 || lt_int 100000 arg
      then record { error = einval; value = 0; tlk = t; hw = h }
      else record { error = ok; value = a.pace; tlk = with_adapter t m a'; hw = h }
  tlkioctl m unknown arg root t h = record { error = einval; value = 0; tlk = t; hw = h }
