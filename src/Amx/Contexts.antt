-- ===== src/Amx/Contexts.antt =====
-- driver-amix/amx.c, `amx_uctab`: the contexts of delivered signals, by process, until they come
-- back through setcontext. A process is its address, and 0 marks a free slot.
pub mod Laws
use atari_sysv_sp.Base.{
  ℕ, zero, suc, ◌+◌, ◌%◌, Bool, true, false, ◌&&◌, Option, none, some, List, [], ◌∷◌, ◌==◌,
  if◌then◌else◌, set, replicate,
}

-- AMX_NUC
abbrev pub nuc : ℕ
nuc = 64

pub record Slot : Type 0 where
  pub p : ℕ
  pub uc : ℕ

-- amx_uctab and amx_ucnext
pub record Table : Type 0 where
  pub slots : List Slot
  pub next : ℕ

abbrev pub free : Slot
free = record { p = 0; uc = 0 }

abbrev pub empty : Table
empty = record { slots = replicate nuc free; next = 0 }

-- The loop of `uctake`: the index of the first free slot.
unfoldable pub find_free : ℕ → List Slot → Option ℕ
find_free i [] = none
find_free i (s ∷ ss) = if s.p == 0 then some i else find_free (suc i) ss

take_at : Table → Slot → Option ℕ → Table
take_at t s (some i) = record t { slots = set t.slots i s }
take_at t s none = record { slots = set t.slots t.next s; next = (t.next + 1) % nuc }

unfoldable pub uctake : Table → ℕ → ℕ → Table
unfolding find_free take_at
uctake t p uc = take_at t (record { p = p; uc = uc }) (find_free 0 t.slots)

abbrev pub matches : ℕ → ℕ → Slot → Bool
matches p uc s = s.p == p && s.uc == uc

-- The loop of `ucgive`: whether a slot is the process's context, and the slots without the first.
pub give_from : ℕ → ℕ → List Slot → Bool × List Slot
give_from p uc [] = (false, [])
give_from p uc (s ∷ ss) =
    let rest = give_from p uc ss in
    if matches p uc s then (true, free ∷ ss) else (rest.0, s ∷ rest.1)

unfoldable pub ucgive : Table → ℕ → ℕ → Bool × Table
unfolding give_from
ucgive t p uc = let given = give_from p uc t.slots in (given.0, record t { slots = given.1 })
