-- ===== src/Dp/Bringup.antt =====
-- driver-dp/dp.c, the bring-up (`bring_up`, `read_mac`) on the whole driver.
use mathlib.Core.Path.{subst}
use atari_sysv_sp.Base.{
  ℕ, zero, suc, ◌+◌, ◌≤◌, ◌≡◌, ◌≢◌, refl, sym, ◌∙◌, ap, ap₂, Bool, true, false, Bool-cases,
  Option-cases, inl, inr, Option, none, some, List, [], ◌∷◌, ◌++◌, if◌then◌else◌, if_true, if_false,
  length, take, drop,
}
use atari_sysv_sp.Base.Suffix.{length-take}
use atari_sysv_sp.Dp.{Command, sync, set_op, Scsi, is_empty, command_of, dpstrategy}
use atari_sysv_sp.Dp.Streams.{Dp}
use atari_sysv_sp.Dp.Open.{Card, finish_head, dpcmd, read_mac, bring_up}
use atari_sysv_sp.Dp.Rounds.{queue_of, IsSound, start_head-empty, start_head-cons}
use atari_sysv_sp.Dp.Table.{IsRunning}

-- The SCSI half before the interface is up.
pub record IsRest (s : Scsi) : Type 0 where
  pub none_queued : s.queue ≡ []
  pub rests : s.active ≡ false
  pub not_busy : s.busy ≡ false
  pub no_frame : s.tx ≡ []
  pub is_down : s.up ≡ false

pub dpcmd-IsRest : (op ctl count : ℕ) (s : Scsi) → IsRest s → IsRest (dpcmd op ctl count s)
unfolding dpcmd finish_head dpstrategy command_of
dpcmd-IsRest op ctl count s w =
    let c : Command = record { op = op; ctl = ctl; count = count } in
    let s1 = record s { queue = s.queue ++ sync c ∷ [] } in
    let s2 = record s1 { active = true; issued = s.issued ++ c ∷ [] } in
    let strategy : dpstrategy c s ≡ s2 =
      if_false s1 _ w.rests
      ∙ start_head-cons s1 (sync c) [] (ap (λ q. q ++ sync c ∷ []) w.none_queued) in
    let q : drop 1 s2.queue ≡ [] = ap (λ q. drop 1 (q ++ sync c ∷ [])) w.none_queued in
    subst IsRest
      (sym (ap finish_head strategy ∙ start_head-empty (record s2 { queue = drop 1 s2.queue }) q))
      (record {
        none_queued = q;
        rests = refl;
        not_busy = w.not_busy;
        no_frame = w.no_frame;
        is_down = w.is_down;
      })

-- An address has six bytes at least.
abbrev pub IsCard : Card → Type 0
IsCard c = (t n : ℕ) (a : List ℕ) → c.reads t n ≡ some a → 6 ≤ length a

sound-IsRest : (s : Scsi) → IsSound s → s.up ≡ false → IsRest s
sound-IsRest s w u =
    let (t, b) = w.still u in
    record {
      none_queued = w.queued ∙ ap queue_of b;
      rests = w.head ∙ b;
      not_busy = b;
      no_frame = t;
      is_down = u;
    }

-- The attempts leave the core at rest, and an address that they bring is whole.
abbrev Brings : Option (List ℕ) × Scsi → Type 0
Brings r = IsRest r.1 × ((a : List ℕ) → r.0 ≡ some a → 6 ≤ length a)

read_mac_lem : (c : Card) (t n : ℕ) (s : Scsi) → IsCard c → IsRest s → Brings (read_mac c t n s)
unfolding read_mac
read_mac_lem c t zero s good w = (dpcmd-IsRest set_op 0 0 s w, λ a e. absurd cc)
read_mac_lem c t (suc n) s good w =
    let s1 = dpcmd 9 0 22 s in
    let w1 = dpcmd-IsRest 9 0 22 s w in
    let s2 = dpcmd 9 0 18 s1 in
    let w2 = dpcmd-IsRest 9 0 18 s1 w1 in
    let got : Option (List ℕ) → Option (List ℕ) → Option (List ℕ) × Scsi = λ x y. elim x [
      | some mac ↦ (some mac, s1)
      | none ↦ elim y [ some mac ↦ (some mac, s2) | none ↦ read_mac c (t + 1) n s2 ]
    ] in
    elim (Option-cases (c.reads t 22)) as (λ x. Brings (got (c.reads t 22) (c.reads t 18))) [
      | inr (a, e) ↦
          subst Brings (sym (ap (λ x. got x (c.reads t 18)) e)) (w1, λ a' e'. good t 22 a' (e ∙ e'))
      | inl e ↦
          elim (Option-cases (c.reads t 18)) as (λ x. Brings (got (c.reads t 22) (c.reads t 18))) [
            | inr (a, e') ↦ subst Brings (sym (ap₂ got e e')) (w2, λ a' f. good t 18 a' (e' ∙ f))
            | inl e' ↦ subst Brings (sym (ap₂ got e e')) (read_mac_lem c (t + 1) n s2 good w2)
          ]
    ]

-- The SCSI half of a running driver is another one at rest: the interface is still down, or it is up now.
down-IsRunning :
    (d : Dp) (s : Scsi) (job : Option ℕ)
    → IsRunning d
    → d.running ≡ false
    → IsRest s
    → IsRunning (record d { scsi = s; job = job })
down-IsRunning d s job w r v =
    let t = w.table in
    let none_waits : d.wqcnt ≢ 0 → is_empty s.tx ≡ false = λ n. absurd (
      let x = w.staged n in
      let y = (w.sound.still (sym t.alive ∙ r)).0 in let z = ap is_empty y in cc) in
    record {
      table = record {
        ordered = t.ordered;
        counted = t.counted;
        fit = t.fit;
        alive = r ∙ sym v.is_down;
        addressed = t.addressed;
      };
      sound = record {
        queued = v.none_queued ∙ ap queue_of (sym v.not_busy);
        head = v.rests ∙ sym v.not_busy;
        going = λ b u. absurd (let x = v.is_down in cc);
        still = λ u. (v.no_frame, v.not_busy);
        undone = λ b. absurd (let x = v.not_busy in cc);
      };
      staged = none_waits;
    }

up-IsRunning :
    (d : Dp) (s : Scsi) (job : Option ℕ) (a : List ℕ) (now : ℕ)
    → IsRunning d
    → d.running ≡ false
    → IsRest s
    → 6 ≤ length a
    → IsRunning (record d {
      job = job;
      enaddr = take 6 a;
      running = true;
      scsi = record s { idle = 0; reinit = 0; errs = 0; settle = now; up = true };
    })
up-IsRunning d s job a now w r v six =
    let t = w.table in
    let none_waits : d.wqcnt ≢ 0 → is_empty s.tx ≡ false = λ n. absurd (
      let x = w.staged n in
      let y = (w.sound.still (sym t.alive ∙ r)).0 in let z = ap is_empty y in cc) in
    record {
      table = record {
        ordered = t.ordered;
        counted = t.counted;
        fit = t.fit;
        alive = refl;
        addressed = λ e. length-take 6 a six;
      };
      sound = record {
        queued = v.none_queued ∙ ap queue_of (sym v.not_busy);
        head = v.rests ∙ sym v.not_busy;
        going = λ b u. (refl, v.no_frame);
        still = λ u. absurd cc;
        undone = λ b. absurd (let x = v.not_busy in cc);
      };
      staged = none_waits;
    }

pub bring_up-IsRunning :
    (c : Card) (now : ℕ) (d : Dp) (job : Option ℕ)
    → IsCard c
    → IsRunning d
    → d.running ≡ false
    → IsRunning (bring_up c now (record d { job = job }))
unfolding bring_up
bring_up-IsRunning c now d job good w r =
    let v = sound-IsRest d.scsi w.sound (sym w.table.alive ∙ r) in
    let s1 = dpcmd set_op 128 0 d.scsi in
    let v1 = dpcmd-IsRest set_op 128 0 d.scsi v in
    let (v2, six) = read_mac_lem c 0 101 s1 good v1 in
    let p = read_mac c 0 101 s1 in
    let ends : Option (List ℕ) → Dp = λ mac. elim mac [
      | none ↦ record d { job = job; scsi = p.1 }
      | some a ↦ record d {
        job = job;
        enaddr = take 6 a;
        running = true;
        scsi = record p.1 { idle = 0; reinit = 0; errs = 0; settle = now; up = true };
      }
    ] in
    elim (Bool-cases c.enables) as (λ x. IsRunning (bring_up c now (record d { job = job }))) [
      | inr f ↦ subst IsRunning (sym (if_false (ends p.0) _ f)) (down-IsRunning d s1 job w r v1)
      | inl t ↦
          subst IsRunning (sym (if_true (ends p.0) _ t))
            (elim (Option-cases p.0) as (λ x. IsRunning (ends p.0)) [
              | inl e ↦ subst IsRunning (sym (ap ends e)) (down-IsRunning d p.1 job w r v2)
              | inr (a, e) ↦
                  subst IsRunning (sym (ap ends e)) (up-IsRunning d p.1 job a now w r v2 (six a e))
            ])
    ]

pub bring_up-minors : (c : Card) (now : ℕ) (d : Dp) → (bring_up c now d).minors ≡ d.minors
unfolding bring_up
bring_up-minors c now d = tested c.enables p.0
  where
    p : Option (List ℕ) × Scsi
    p = read_mac c 0 101 (dpcmd set_op 128 0 d.scsi)

    ends : Option (List ℕ) → Dp
    ends none = record d { scsi = p.1 }
    ends (some a) = record d {
      enaddr = take 6 a;
      running = true;
      scsi = record p.1 { idle = 0; reinit = 0; errs = 0; settle = now; up = true };
    }

    tested :
        (b : Bool) (o : Option (List ℕ))
        → (if b then ends o else record d { scsi = dpcmd set_op 128 0 d.scsi }).minors ≡ d.minors
    tested true none = refl
    tested true (some a) = refl
    tested false o = refl
