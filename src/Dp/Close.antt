-- ===== src/Dp/Close.antt =====
-- driver-dp/dp.c, what ends a use: `enclose`, the callout `dp_poll`, and the module's unload.
use atari_sysv_sp.Base.{
  ℕ, ◌-◌, ◌/◌, Bool, true, false, ◌||◌, Option, none, some, List, [], ◌∷◌, ◌==◌, ltb, if◌then◌else◌,
}
use atari_sysv_sp.Dp.{set_op}
use atari_sysv_sp.Dp.Streams.{Blocks, unbound, minors_max, Dp, set_minor}
use atari_sysv_sp.Dp.Done.{with_scsi}
use atari_sysv_sp.Dp.Open.{bad, Bus, set_startf, dpcmd, first_minor}

-- The count after the frames that were never sent.
unfoldable pub drain : List Blocks → ℕ → ℕ
drain [] wqcnt = wqcnt
drain (f ∷ fs) wqcnt = drain fs (wqcnt - 1)

abbrev pub polls : Option ℕ → ℕ → Bool
polls none m = false
polls (some q) m = q == m

-- The poll of a minor that closes goes to the first that is open.
unfoldable pub hand_poll : ℕ → Dp → Dp
hand_poll m d =
    if polls d.pollq m then record d { pollq = first_minor true d.minors 0 minors_max } else d

unfoldable pub enclose : ℕ → Dp → Dp
enclose m d =
    let d' = record d { wqcnt = drain (d.minors m).frames d.wqcnt } in
    hand_poll m (set_minor m (record { opened = false; state = unbound; sap = 0; frames = [] }) d')

-- The callout: the minor whose service procedure it enables, and the ticks to the next.
unfoldable pub dp_poll : ℕ → Dp → Option (Option ℕ × ℕ)
dp_poll hz d =
    let ticks = if ltb 100 d.scsi.idle then hz / 20 else 1 in
    if d.scsi.up then some (d.pollq, if ltb ticks 1 then 1 else ticks) else none

abbrev pub is_some : Option ℕ → Bool
is_some none = false
is_some (some t) = true

abbrev pub disable : Dp → Dp
disable d = if d.running then record (with_scsi (dpcmd set_op 0 0) d) { running = false } else d

-- `dp_unload`; false is EBUSY.
unfoldable pub dp_unload : Bus → Dp → Bool × (Bus × Dp)
dp_unload bus d =
    let d' = disable (with_scsi (λ s. record s { up = false }) d) in
    if is_some (first_minor true d.minors 0 minors_max) || d.scsi.busy
    then (false, (bus, d))
    else elim d.job [
      | none ↦ (true, (bus, d'))
      | some t ↦ (true, (set_startf t bad bus, record d' { job = none }))
    ]
