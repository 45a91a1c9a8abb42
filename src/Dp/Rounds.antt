-- ===== src/Dp/Rounds.antt =====
-- driver-dp/dp.c, the rounds of the one asynchronous command, from `dp_kick` to `dpSTART`.
use mathlib.Core.Path.{subst}
use atari_sysv_sp.Base.{
  ℕ, ◌≡◌, refl, sym, ◌∙◌, ap, Bool, true, false, Bool-cases, Option-cases, not, ◌&&◌, inl, inr,
  none, some, List, [], ◌∷◌, ◌++◌, if◌then◌else◌, if_true, if_false, arith,
}
use atari_sysv_sp.Dp.{
  Command, Buf, async, Scsi, is_empty, command_of, due, enqueue, start_head, dp_kick,
}

abbrev pub queue_of : Bool → List Buf
queue_of busy = if busy then async ∷ [] else []

-- Between the steps: the queue is dpabuf or nothing, the core is at work on it, and nothing but a receive
-- is left to do while it is not queued.
pub record IsSound (s : Scsi) : Type 0 where
  pub queued : s.queue ≡ queue_of s.busy
  pub head : s.active ≡ s.busy
  pub going : s.busy ≡ false → s.up ≡ true → (s.reinit ≡ 0) × (s.tx ≡ [])
  pub still : s.up ≡ false → (s.tx ≡ []) × (s.busy ≡ false)
  pub undone : s.busy ≡ true → s.done ≡ none

-- Inside a completion, whose end starts the head.
pub record IsHeld (s : Scsi) : Type 0 where
  pub held_queued : s.queue ≡ queue_of s.busy
  pub held : s.active ≡ true
  pub held_up : s.up ≡ true
  pub held_undone : s.busy ≡ true → s.done ≡ none

pub are_none : (xs : List ℕ) → is_empty xs ≡ true → xs ≡ []
are_none [] h = refl
are_none (x ∷ xs) h = absurd (cc)

due-nothing : (s : Scsi) → due s ≡ none → (s.reinit ≡ 0) × (s.tx ≡ []) × (s.rxwant ≡ false)
unfolding due
due-nothing s e =
    let tests : (s.reinit ≡ 0) × (is_empty s.tx ≡ true) × (s.rxwant ≡ false) = ground (arith, e) in
    (tests.0, are_none s.tx tests.1, tests.2)

-- What a kick does: nothing, or dpabuf is queued.
pub data Kick (b : Bool) (s : Scsi) : Type 0 where
  nothing : due s ≡ none → dp_kick b s ≡ s → Kick b s
  on_its_way : s.busy ≡ true → dp_kick b s ≡ s → Kick b s
  down : s.up ≡ false → dp_kick b s ≡ s → Kick b s
  kicked :
      (c : Command)
      → s.busy ≡ false
      → s.up ≡ true
      → due s ≡ some c
      → dp_kick b s ≡ (if b && not s.active then start_head (enqueue c s) else enqueue c s)
      → Kick b s

pub Kick-cases : (b : Bool) (s : Scsi) → Kick b s
unfolding dp_kick
Kick-cases b s = elim (Option-cases (due s)) [
  | inl e ↦ nothing e (rw (dp_kick, e) refl)
  | inr (c, e) ↦ elim (Bool-cases s.busy) [
    | inl t ↦ on_its_way t (rw (dp_kick, e, t) refl)
    | inr f ↦ elim (Bool-cases s.up) [
      | inl u ↦ kicked c f u e (rw (dp_kick, e, f, u) refl)
      | inr g ↦ down g (rw (dp_kick, e, f, g) refl)
    ]
  ]
]

enqueue-IsHeld : (c : Command) (s : Scsi) → IsHeld s → s.busy ≡ false → IsHeld (enqueue c s)
unfolding enqueue
enqueue-IsHeld c s v f = record {
  held_queued = rw (v.held_queued, f) refl;
  held = v.held;
  held_up = v.held_up;
  held_undone = λ h. refl;
}

pub dp_kick-IsHeld : (b : Bool) (s : Scsi) → IsHeld s → IsHeld (dp_kick b s)
dp_kick-IsHeld b s v = elim (Kick-cases b s) [
  | nothing n e ↦ subst IsHeld (sym e) v
  | on_its_way t e ↦ subst IsHeld (sym e) v
  | down g e ↦ subst IsHeld (sym e) v
  | kicked c f u n e ↦
      let later : (b && not s.active) ≡ false = ground (arith, v.held) in
      subst IsHeld (sym (e ∙ if_false _ _ later)) (enqueue-IsHeld c s v f)
]

-- `start_head`, with the queue as an argument.
head_of : Scsi → List Buf → Scsi
head_of s [] = record s { active = false }
head_of s (b ∷ bs) = record s { active = true; issued = s.issued ++ command_of s b ∷ [] }

pub start_head-empty : (s : Scsi) → s.queue ≡ [] → start_head s ≡ record s { active = false }
unfolding start_head head_of
start_head-empty s e = ap (head_of s) e

pub start_head-cons :
    (s : Scsi) (b : Buf) (bs : List Buf)
    → s.queue ≡ b ∷ bs
    → start_head s ≡ record s { active = true; issued = s.issued ++ command_of s b ∷ [] }
unfolding start_head head_of
start_head-cons s b bs e = ap (head_of s) e

pub start_head-next :
    (s : Scsi)
    → s.queue ≡ async ∷ []
    → start_head s ≡ record s { active = true; issued = s.issued ++ s.flight ∷ [] }
unfolding command_of
start_head-next s e = start_head-cons s async [] e

-- A kick while nothing is queued.
kicked-IsSound :
    (c : Command) (s : Scsi) → s.queue ≡ [] → s.up ≡ true → IsSound (start_head (enqueue c s))
unfolding enqueue
kicked-IsSound c s q u =
    let e : (enqueue c s).queue ≡ async ∷ [] = ap (λ l. l ++ async ∷ []) q in
    subst IsSound (sym (start_head-next (enqueue c s) e)) (record {
      queued = e;
      head = refl;
      going = λ b. absurd cc;
      still = λ g. absurd cc;
      undone = λ b. refl;
    })

-- The end of a completion: the head of the queue is started, or the queue rests.
held-IsSound :
    (s : Scsi) → IsHeld s → (s.busy ≡ false → (s.reinit ≡ 0) × (s.tx ≡ [])) → IsSound (start_head s)
held-IsSound s v g = elim (Bool-cases s.busy) [
  | inl t ↦
      let e : s.queue ≡ async ∷ [] = v.held_queued ∙ ap queue_of t in
      subst IsSound (sym (start_head-next s e)) (record {
        queued = v.held_queued;
        head = sym t;
        going = λ b u. g b;
        still = λ u. absurd (let w = v.held_up in cc);
        undone = v.held_undone;
      })
  | inr f ↦
      let e : s.queue ≡ [] = v.held_queued ∙ ap queue_of f in
      subst IsSound (sym (start_head-empty s e)) (record {
        queued = v.held_queued;
        head = sym f;
        going = λ b u. g b;
        still = λ u. absurd (let w = v.held_up in cc);
        undone = v.held_undone;
      })
]

pub done-IsSound : (s : Scsi) → IsHeld s → IsSound (start_head (dp_kick false s))
unfolding enqueue
done-IsSound s v =
    let v' = dp_kick-IsHeld false s v in
    held-IsSound (dp_kick false s) v' (λ idle. elim (Kick-cases false s) [
      | nothing n e ↦
          let (r, t, w) = due-nothing s n in (ap (λ x. x.reinit) e ∙ r, ap (λ x. x.tx) e ∙ t)
      | on_its_way t e ↦ absurd (let w = ap (λ x. x.busy) e in cc)
      | down g e ↦ absurd (let w = v.held_up in cc)
      | kicked c f u n e ↦ absurd (let w = ap (λ x. x.busy) e in cc)
    ])

-- A kick that may start the queue.
pub dp_kick-IsSound :
    (s : Scsi)
    → s.queue ≡ queue_of s.busy
    → s.active ≡ s.busy
    → (s.up ≡ false → (s.tx ≡ []) × (s.busy ≡ false))
    → (s.busy ≡ true → s.done ≡ none)
    → IsSound (dp_kick true s)
dp_kick-IsSound s q a st un = elim (Kick-cases true s) [
  | nothing n e ↦
      let (r, t, w) = due-nothing s n in
      subst IsSound (sym e)
        (record { queued = q; head = a; going = λ b u. (r, t); still = st; undone = un })
  | on_its_way t e ↦
      subst IsSound (sym e)
        (record { queued = q; head = a; going = λ b. absurd cc; still = st; undone = un })
  | down g e ↦
      subst IsSound (sym e)
        (record { queued = q; head = a; going = λ b u. absurd cc; still = st; undone = un })
  | kicked c f u n e ↦
      let idle : (true && not s.active) ≡ true = ground (arith, a, f) in
      subst IsSound (sym (e ∙ if_true _ _ idle)) (kicked-IsSound c s (q ∙ ap queue_of f) u)
]

-- What a kick leaves as it is.
abbrev pub Keeps : Scsi → Scsi → Type 0
Keeps s s' = (s'.tx ≡ s.tx) × (s'.up ≡ s.up)

head_of-Keeps : (s : Scsi) (q : List Buf) → Keeps s (head_of s q)
unfolding head_of
head_of-Keeps s [] = (refl, refl)
head_of-Keeps s (b ∷ bs) = (refl, refl)

pub start_head-Keeps : (s : Scsi) → Keeps s (start_head s)
unfolding start_head head_of
start_head-Keeps s = head_of-Keeps s s.queue

start-Keeps : (b : Bool) (s : Scsi) → Keeps s (if b then start_head s else s)
start-Keeps true s = start_head-Keeps s
start-Keeps false s = (refl, refl)

pub dp_kick-Keeps : (b : Bool) (s : Scsi) → Keeps s (dp_kick b s)
unfolding enqueue
dp_kick-Keeps b s = elim (Kick-cases b s) [
  | nothing n e ↦ subst (Keeps s) (sym e) (refl, refl)
  | on_its_way t e ↦ subst (Keeps s) (sym e) (refl, refl)
  | down g e ↦ subst (Keeps s) (sym e) (refl, refl)
  | kicked c f u n e ↦ subst (Keeps s) (sym e) (start-Keeps (b && not s.active) (enqueue c s))
]
