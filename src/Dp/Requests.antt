-- ===== src/Dp/Requests.antt =====
-- driver-dp/dp.c, the messages of the write queues (`enwput`), on the whole driver.
use atari_sysv_sp.Base.{
  ℕ, ◌+◌, ◌/◌, ◌%◌, ◌≤◌, ◌<◌, ◌≡◌, refl, ◌∙◌, ap, ap₂, Bool, true, false, Option-cases, not, ◌&&◌,
  ◌||◌, inl, inr, none, some, List, [], ◌∷◌, ◌++◌, ◌==◌, leb, if◌then◌else◌, length, length-append,
  arith,
}
use atari_sysv_sp.Dp.{is_empty}
use atari_sysv_sp.Dp.Streams.{
  Blocks, Dlpi, unbound, bound, is_bound, Minor, minors_max, Message, bind_ack, ok_ack, ioc_ack,
  ioc_nak, Dp, granted, asked, set_minor, bound_to,
}
use atari_sysv_sp.Dp.Proto.{
  Request, bind, unbind, info, unitdata, unknown, Block, Ioctl, Down, proto, ioctl, flush, other,
  Numbers, can_reuse, en_reuse, en_error_ack, is_broadcast, loop_back, header, answer, en_bind,
  en_unbind, en_info, en_unitdata, en_proto, en_ioctl, enwput, get_addr,
}
use atari_sysv_sp.Dp.Queues.{total-with_minor}
use atari_sysv_sp.Dp.Saps.{with_minor-IsOrdered, bound_to-none}
use atari_sysv_sp.Dp.Table.{
  IsRunning, core, core-asked, core-put_up, core-if, core-en_send_up, minors-core, running_same,
  IsRunning-core,
}
use atari_sysv_sp.Dp.Turns.{fit-with_minor}
use atari_sysv_sp.Dp.Sends.{size, joined, blocks-Fits, send-IsRunning}

core-en_reuse : (n : ℕ) (b : Block) (d : Dp) → core (en_reuse n b d) ≡ core d
unfolding en_reuse
core-en_reuse n b d = core-if (not b.shared && leb n b.size) d (asked d) refl (core-asked d)

core-en_error_ack :
    (b : Block) (m prim dlerr unixerr : ℕ) (d : Dp)
    → core (en_error_ack b m prim dlerr unixerr d) ≡ core d
unfolding en_error_ack
core-en_error_ack b m prim dlerr unixerr d =
    core-if (can_reuse 16 b d) _ _ (core-put_up m _ (en_reuse 16 b d) ∙ core-en_reuse 16 b d)
      (core-en_reuse 16 b d)

core-loop_back :
    (m : ℕ) (dst : List ℕ) (payload : Blocks) (d : Dp) → core (loop_back m dst payload d) ≡ core d
unfolding loop_back
core-loop_back m dst payload d =
    let d1 = asked d in
    let two = core-asked d1 ∙ core-asked d in
    core-if (not (is_broadcast dst)) d _ refl (
      core-if (not (granted d) || is_empty payload) d1 _ (core-asked d)
        (core-if (granted d1) _ _ (core-en_send_up m _ (asked d1) ∙ two) two))

-- A minor's state or type changes, and nothing of its queue.
minor-IsRunning :
    (m : ℕ) (state : Dlpi) (sap : ℕ) (d : Dp)
    → IsRunning d
    → m < 8
    → (d.minors m).opened ≡ true
    → (is_bound state ≡ true
        → (j : ℕ) → j < 8
        → is_bound (d.minors j).state ≡ true
        → (d.minors j).sap ≡ sap
        → j ≡ m)
    → IsRunning (set_minor m (record (d.minors m) { state = state; sap = sap }) d)
unfolding set_minor
minor-IsRunning m state sap d w l o alone =
    let v : Minor = record (d.minors m) { state = state; sap = sap } in
    let t = w.table in
    record {
      table = record {
        ordered = with_minor-IsOrdered m v t.ordered refl (λ f. absurd cc) alone;
        counted = omega (arith, total-with_minor 8 m v d.minors l, t.counted);
        fit = fit-with_minor m v d.minors t.fit (t.fit m);
        alive = t.alive;
        addressed = t.addressed;
      };
      sound = w.sound;
      staged = w.staged;
    }

length-header :
    (dst src : List ℕ) (sap : ℕ)
    → length dst ≡ 6
    → length src ≡ 6
    → length (header dst src sap) ≡ 14
unfolding header
length-header dst src sap a b =
    let low : List ℕ = sap / 256 % 256 ∷ sap % 256 ∷ [] in
    length-append (dst ++ src) low
    ∙ ap (λ k. k + 2) (length-append dst src ∙ ap₂ (λ x y. x + y) a b)

module _ (n : Numbers) where
  core-answer :
      (size : ℕ) (r : Request) (b : Block) (m : ℕ) (x : Message) (d : Dp)
      → core (answer n size r b m x d) ≡ core d
  unfolding answer
  core-answer size r b m x d =
      core-if (can_reuse size b d) _ _
        (core-put_up m x (en_reuse size b d) ∙ core-en_reuse size b d)
        (core-en_error_ack b m _ _ _ (en_reuse size b d) ∙ core-en_reuse size b d)

  IsRunning-if :
      (b : Bool) (x y : Dp)
      → (b ≡ true → IsRunning x)
      → (b ≡ false → IsRunning y)
      → IsRunning (if b then x else y)
  IsRunning-if true x y p q = p refl
  IsRunning-if false x y p q = q refl

  en_bind-IsRunning :
      (m sap : ℕ) (b : Block) (d : Dp)
      → IsRunning d
      → m < 8
      → (d.minors m).opened ≡ true
      → IsRunning (en_bind n m sap b d)
  unfolding en_bind
  en_bind-IsRunning m sap b d w l o =
      IsRunning-if (is_bound (d.minors m).state) _ _
        (λ t. IsRunning-core w (core-en_error_ack b m _ _ _ d))
        (λ f. elim (Option-cases (bound_to d.minors sap 0 minors_max)) [
          | inr (i, e) ↦ rw e (IsRunning-core w (core-en_error_ack b m _ _ _ d))
          | inl e ↦ rw e (
              IsRunning-core
                (minor-IsRunning m bound sap d w l o (λ t j lj bj s.
                  absurd
                    (bound_to-none d.minors sap 0 8 e j (omega arith) (omega (arith, lj)) bj s)))
                (core-answer 30 (bind sap) b m (bind_ack sap d.enaddr) _))
        ])

  en_unbind-IsRunning :
      (m : ℕ) (b : Block) (d : Dp)
      → IsRunning d
      → m < 8
      → (d.minors m).opened ≡ true
      → IsRunning (en_unbind n m b d)
  unfolding en_unbind
  en_unbind-IsRunning m b d w l o =
      IsRunning-if (is_bound (d.minors m).state) _ _
        (λ t.
          IsRunning-core (minor-IsRunning m unbound 0 d w l o (λ u. absurd cc))
            (core-answer 8 unbind b m (ok_ack n.unbind_req) _))
        (λ f. IsRunning-core w (core-en_error_ack b m _ _ _ d))

  en_unitdata-IsRunning :
      (m : ℕ) (dst : List ℕ) (payload : Blocks) (d : Dp)
      → IsRunning d
      → m < 8
      → (d.minors m).opened ≡ true
      → d.running ≡ true
      → length dst ≡ 6
      → size payload ≤ 1500
      → IsRunning (en_unitdata n m dst payload d)
  unfolding en_unitdata size
  en_unitdata-IsRunning m dst payload d w l o r six fits =
      let d' = loop_back m dst payload d in
      let e : core (asked d') ≡ core d = core-asked d' ∙ core-loop_back m dst payload d in
      let head = header dst d.enaddr (d.minors m).sap in
      let fourteen = length-header dst d.enaddr (d.minors m).sap six (w.table.addressed r) in
      let frame = head ∷ payload in
      IsRunning-if (not (is_bound (d.minors m).state)) _ _
        (λ f. IsRunning-core w (core-put_up m _ d))
        (λ t.
          IsRunning-if (granted d') _ _
            (λ g.
              send-IsRunning m frame (joined frame) (asked d') (IsRunning-core w e) l
                (ap (λ x. (x m).opened) (minors-core d (asked d') e) ∙ o)
                (blocks-Fits frame (omega (arith, fourteen)) (omega (arith, fourteen, fits)))
                (running_same d (asked d') e ∙ r))
            (λ g. IsRunning-core w (core-put_up m _ (asked d') ∙ e)))

  -- A message that keeps the queue: a frame within the size that `en_info` gives, and no flush of frames.
  abbrev pub IsPolite : Down → Type 0
  IsPolite (proto (unitdata dst payload) b) = (length dst ≡ 6) × (size payload ≤ 1500)
  IsPolite (proto r b) = Unit
  IsPolite (ioctl c) = Unit
  IsPolite (flush write read) = write ≡ false
  IsPolite other = Unit

  en_proto-IsRunning :
      (m : ℕ) (r : Request) (b : Block) (d : Dp)
      → IsRunning d
      → m < 8
      → (d.minors m).opened ≡ true
      → IsPolite (proto r b)
      → IsRunning (en_proto n m r b d)
  unfolding en_proto en_info
  en_proto-IsRunning m r b d w l o p =
      IsRunning-if d.running _ _ (λ t. run r t p)
        (λ f. IsRunning-core w (core-en_error_ack b m _ _ _ d))
    where
      run :
          (r : Request)
          → d.running ≡ true
          → IsPolite (proto r b)
          → IsRunning (elim r [
            | bind sap ↦ en_bind n m sap b d
            | unbind ↦ en_unbind n m b d
            | info ↦ en_info n m b d
            | unitdata dst payload ↦ en_unitdata n m dst payload d
            | unknown prim ↦ d
          ])
      run (bind sap) t p = en_bind-IsRunning m sap b d w l o
      run unbind t p = en_unbind-IsRunning m b d w l o
      run info t p = IsRunning-core w (core-answer 70 info b m _ d)
      run (unitdata dst payload) t p = en_unitdata-IsRunning m dst payload d w l o t p.0 p.1
      run (unknown prim) t p = w

  core-en_ioctl : (m : ℕ) (c : Ioctl) (d : Dp) → core (en_ioctl n m c d) ≡ core d
  unfolding en_ioctl
  core-en_ioctl m c d =
      core-if (not (c.whole && not c.transparent && c.cmd == get_addr)) _ _
        (core-put_up m (ioc_nak none) d)
        (core-if (c.room == 6) _ _ (core-put_up m (ioc_ack d.enaddr) d) (
          core-if (granted d) _ _ (core-put_up m (ioc_ack d.enaddr) (asked d) ∙ core-asked d)
            (core-put_up m (ioc_nak (some n.enomem)) (asked d) ∙ core-asked d)))

  pub enwput-IsRunning :
      (m : ℕ) (x : Down) (d : Dp)
      → IsRunning d
      → m < 8
      → (d.minors m).opened ≡ true
      → IsPolite x
      → IsRunning (enwput n m x d)
  unfolding enwput
  enwput-IsRunning m (proto r b) d w l o p = en_proto-IsRunning m r b d w l o p
  enwput-IsRunning m (ioctl c) d w l o p = IsRunning-core w (core-en_ioctl m c d)
  enwput-IsRunning m (flush write read) d w l o p =
      rw p (IsRunning-core w (core-if read _ _ (core-put_up m _ d) refl))
  enwput-IsRunning m other d w l o p = w
