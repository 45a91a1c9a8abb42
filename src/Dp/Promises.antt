-- ===== src/Dp/Promises.antt =====
-- driver-dp/dp.c, the states that the driver's steps reach, seen from outside.
use atari_sysv_sp.Base.{
  ℕ, ◌+◌, ◌<◌, ◌≡◌, ◌≢◌, sym, ◌∙◌, ap, Bool, true, false, not, Bool-cases, Option-cases, inl, inr,
  ◌⊎◌, Option, none, some, List, [], ◌∷◌, if◌then◌else◌, if_true, if_false, length, take, drop,
  arith,
}
use atari_sysv_sp.Base.Buffer.{slice}
use atari_sysv_sp.Dp.{async, is_empty}
use atari_sysv_sp.Dp.Streams.{
  is_bound, unitdata_ind, Dp, minors_max, granted, asked, set_minor, put_up, ierror, en_send_up,
  bound_to, frame_type, en_rproc,
}
use atari_sysv_sp.Dp.Proto.{flush, Numbers, enwput}
use atari_sysv_sp.Dp.Rounds.{queue_of}
use atari_sysv_sp.Dp.Queues.{total, with_minor, total-with_minor}
use atari_sysv_sp.Dp.Saps.{bound_to-none, bound_to-some}
use atari_sysv_sp.Dp.Life.{Run, Run-IsRunning}

first_answer : List Bool → Bool
first_answer [] = true
first_answer (a ∷ as') = a

-- A frame that a minor is found for, with memory and room.
delivered :
    (m : ℕ) (f : List ℕ) (answers : List Bool) (d : Dp)
    → bound_to d.minors (frame_type f) 0 minors_max ≡ some m
    → (d.minors m).opened ≡ true
    → d.answers ≡ true ∷ true ∷ answers
    → en_rproc f d
      ≡ put_up m
          (unitdata_ind (take 6 f) (slice f 6 6) (drop 14 f ∷ []))
          (record d { answers = answers })
unfolding en_rproc en_send_up granted asked first_answer
delivered m f answers d hit o a =
    let x = unitdata_ind (take 6 f) (slice f 6 6) (drop 14 f ∷ []) in
    let room : granted d ≡ true = ap first_answer a in
    let room_above : granted (asked d) ≡ true = ap (λ l. first_answer (drop 1 l)) a in
    ap found hit
    ∙ if_false _ _ (ap not o)
    ∙ if_true _ _ room
    ∙ if_true _ _ room_above
    ∙ ap (λ l. put_up m x (record d { answers = drop 1 (drop 1 l) })) a
  where
    found : Option ℕ → Dp
    found none = ierror d
    found (some i) =
        let x = unitdata_ind (take 6 f) (slice f 6 6) (drop 14 f ∷ []) in
        if not (d.minors i).opened
        then ierror d
        else if granted d
        then en_send_up i x (asked d)
        else asked d

module _ (hz : ℕ) (n : Numbers) {d : Dp} (r : Run hz n d) where
  -- In every state of a run, two minors that are bound to the same type are the same minor. (In the run no
  -- message flushes a write queue or sends more than 1500 bytes of data or to an address that is not six
  -- bytes; the adapter's address has six bytes or more; and a minor that is opened by its number is not
  -- open.)
  pub Run-Apart :
      (i j : ℕ)
      → i < minors_max
      → j < minors_max
      → is_bound (d.minors i).state ≡ true
      → is_bound (d.minors j).state ≡ true
      → (d.minors i).sap ≡ (d.minors j).sap
      → i ≡ j
  Run-Apart = (Run-IsRunning hz n r).table.ordered.apart

  -- In every state of a run, if_wqcnt is the number of frames on the write queues of the minors, together.
  -- (In the run no message flushes a write queue or sends more than 1500 bytes of data or to an address that
  -- is not six bytes; the adapter's address has six bytes or more; and a minor that is opened by its number
  -- is not open.)
  pub Run-Counted : d.wqcnt ≡ total d.minors minors_max
  Run-Counted = (Run-IsRunning hz n r).table.counted

  -- In every state of a run with the interface up, a frame that is staged or a re-bring-up that is due has
  -- the asynchronous command in the core's queue, alone, at work, and not done. (In the run no message
  -- flushes a write queue or sends more than 1500 bytes of data or to an address that is not six bytes; the
  -- adapter's address has six bytes or more; and a minor that is opened by its number is not open.)
  pub Run-Goes :
      d.scsi.up ≡ true
      → (d.scsi.reinit ≢ 0) ⊎ (d.scsi.tx ≢ [])
      → (d.scsi.busy ≡ true)
        × (d.scsi.queue ≡ async ∷ [])
        × (d.scsi.active ≡ true)
        × (d.scsi.done ≡ none)
  Run-Goes u due =
      let s = (Run-IsRunning hz n r).sound in
      let busy : d.scsi.busy ≡ true = elim (Bool-cases d.scsi.busy) [
        | inl t ↦ t
        | inr f ↦ let (z, e) = s.going f u in absurd (elim due [ inl a ↦ a z | inr b ↦ b e ])
      ] in
      (busy, s.queued ∙ ap queue_of busy, s.head ∙ busy, s.undone busy)

  -- In every state of a run where a frame waits on a write queue, another one is staged, the asynchronous
  -- command is the core's queue, and the core is at work on it. (In the run no message flushes a write queue
  -- or sends more than 1500 bytes of data or to an address that is not six bytes; the adapter's address has
  -- six bytes or more; and a minor that is opened by its number is not open.)
  pub Run-Waits :
      total d.minors minors_max ≢ 0
      → (is_empty d.scsi.tx ≡ false) × (d.scsi.queue ≡ async ∷ []) × (d.scsi.active ≡ true)
  Run-Waits waits =
      let w = Run-IsRunning hz n r in
      let t = w.staged (λ z. waits (sym w.table.counted ∙ z)) in
      let up : d.scsi.up ≡ true = elim (Bool-cases d.scsi.up) [
        | inl u ↦ u
        | inr f ↦ absurd (let e = ap is_empty (w.sound.still f).0 in cc)
      ] in
      let g = Run-Goes up (inr (λ e. let x = ap is_empty e in cc)) in (t, g.1, g.2)

  -- In every state of a run with a minor open, the poll's queue is that of an open minor. (In the run no
  -- message flushes a write queue or sends more than 1500 bytes of data or to an address that is not six
  -- bytes; the adapter's address has six bytes or more; and a minor that is opened by its number is not
  -- open.)
  pub Run-Polls :
      (m : ℕ)
      → m < minors_max
      → (d.minors m).opened ≡ true
      → (q : ℕ) × (d.pollq ≡ some q) × (q < minors_max) × ((d.minors q).opened ≡ true)
  Run-Polls m l o =
      let w = (Run-IsRunning hz n r).table.ordered in
      elim (Option-cases d.pollq) [
        | inl e ↦ absurd (let x = w.poll_none e m l in cc)
        | inr (q, e) ↦ let (b, a) = w.poll_some q e in (q, e, b, a)
      ]

  -- In every state of a run, a frame whose type a minor is bound to goes up to that minor and to no other,
  -- with its addresses in front, where there is memory for them and room above; nothing else of the driver
  -- changes. (In the run no message flushes a write queue or sends more than 1500 bytes of data or to an
  -- address that is not six bytes; the adapter's address has six bytes or more; and a minor that is opened
  -- by its number is not open.)
  pub en_rproc_lem :
      (m : ℕ) (f : List ℕ) (answers : List Bool)
      → m < minors_max
      → is_bound (d.minors m).state ≡ true
      → (d.minors m).sap ≡ frame_type f
      → d.answers ≡ true ∷ true ∷ answers
      → en_rproc f d
        ≡ put_up m
            (unitdata_ind (take 6 f) (slice f 6 6) (drop 14 f ∷ []))
            (record d { answers = answers })
  en_rproc_lem m f answers l b s a =
      let w = (Run-IsRunning hz n r).table.ordered in
      let opened : (d.minors m).opened ≡ true = elim (Bool-cases (d.minors m).opened) [
        | inl t ↦ t
        | inr o ↦ absurd (let x = (w.shut m o).0 in cc)
      ] in
      let hit : bound_to d.minors (frame_type f) 0 minors_max ≡ some m =
        elim (Option-cases (bound_to d.minors (frame_type f) 0 minors_max)) [
          | inl e ↦
              absurd
                (bound_to-none d.minors (frame_type f) 0 8 e m (omega arith) (omega (arith, l)) b s)
          | inr (i, e) ↦
              let (li, bi, si) = bound_to-some d.minors (frame_type f) 0 8 i e in
              e ∙ ap some (w.apart i m (omega (arith, li)) l bi b (si ∙ sym s))
        ] in
      delivered m f answers d hit opened a

  emptied :
      (m : ℕ)
      → m < minors_max
      → d.wqcnt
        ≡ total (with_minor m (record (d.minors m) { frames = [] }) d.minors) minors_max
          + length (d.minors m).frames
  emptied m l =
      omega
        (arith, Run-Counted, total-with_minor 8 m (record (d.minors m) { frames = [] }) d.minors l)

  pub flush_lem :
      (m : ℕ) (read : Bool)
      → m < minors_max
      → (enwput n m (flush true read) d).wqcnt
        ≡ total (enwput n m (flush true read) d).minors minors_max + length (d.minors m).frames
  unfolding enwput set_minor put_up
  flush_lem m true l = emptied m l
  flush_lem m false l = emptied m l
