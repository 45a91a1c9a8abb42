-- ===== src/Dhcp/Exchange.antt =====
-- The loop of `exchange` and the rounds of main.
use atari_sysv_sp.Base.{
  ℕ, zero, suc, ◌+◌, ◌≡◌, ◌⊎◌, inl, inr, refl, sym, ◌∙◌, ap, true, ◌||◌, Option, none, some, List,
  [], ◌∷◌, ◌==◌, ==_iff, take, length, length-append, if_true, if_false, Bool-cases, arith,
}
use atari_sysv_sp.Base.Buffer.{take_front}
use atari_sysv_sp.Dhcp.Incoming.{IsReplyTo, parse-IsReplyTo}
use atari_sysv_sp.Dhcp.{
  Client, Lease, Round, Ending, leased, again, requested, next_xid, offered, round, negotiate,
  dhcp_offer, dhcp_ack, parse, kept, await, dhcp_nak,
}

-- A datagram of the list has the property.
abbrev pub Some : (List ℕ → Type 0) → List (List ℕ) → Type 0
Some P [] = ⊥
Some P (pkt ∷ pkts) = P pkt ⊎ Some P pkts

abbrev type_of : ℕ → Option (ℕ × Lease) → ℕ
type_of d none = d
type_of d (some (t, l)) = t

good_type : (u want : ℕ) → ((u == want) || (u == dhcp_nak)) ≡ true → (u ≡ want) ⊎ (u ≡ dhcp_nak)
good_type u want h = ground arith

kept_lem :
    (want : ℕ) (o rest : Option (ℕ × Lease)) {t : ℕ} {l : Lease}
    → kept want o rest ≡ some (t, l)
    → (rest ≡ some (t, l)) ⊎ ((o ≡ some (t, l)) × ((t ≡ want) ⊎ (t ≡ dhcp_nak)))
kept_lem want none rest h = inl h
kept_lem want (some (u, k)) rest {t} {l} h = elim (Bool-cases ((u == want) || (u == dhcp_nak))) [
  | inl good ↦
      let same : some (u, k) ≡ some (t, l) = sym (if_true _ _ good) ∙ h in
      let u_is : u ≡ t = ap (type_of u) same in inr (same, rw (← u_is) (good_type u want good))
  | inr bad ↦ inl (sym (if_false _ _ bad) ∙ h)
]

-- What an exchange gives is in a datagram that came, a reply to the client; it has the type that was
-- waited for, or is a refusal.
pub await_lem :
    (c : Client) (want : ℕ) (pkts : List (List ℕ)) {t : ℕ} {l : Lease}
    → await c want pkts ≡ some (t, l)
    → Some (λ pkt. parse c pkt ≡ some (t, l)) pkts × ((t ≡ want) ⊎ (t ≡ dhcp_nak))
unfolding await
await_lem c want [] h = absurd (cc)
await_lem c want (pkt ∷ pkts) {t} {l} h = elim (kept_lem want (parse c pkt) (await c want pkts) h) [
  | inl later ↦ let (there, type) = await_lem c want pkts later in (inr there, type)
  | inr (here, type) ↦ (inl here, type)
]

-- A client with the same address and the same transaction, but for the last byte, which counts the rounds.
pub record IsLater (c c' : Client) : Type 0 where
  pub same_mac : c'.mac ≡ c.mac
  pub same_xid : take 3 c'.xid ≡ take 3 c.xid
  pub xid_is : length c'.xid ≡ 4

-- An acknowledgement of the lease, to this client in one of its rounds.
abbrev pub IsAck : Client → Lease → List ℕ → Type 0
IsAck c l pkt =
    (c' : Client) × IsLater c c' × IsReplyTo c' l pkt × (parse c' pkt ≡ some (dhcp_ack, l))

-- ... came in one of the rounds.
abbrev pub Acked : Client → Lease → List Round → Type 0
Acked c l [] = ⊥
Acked c l (r ∷ rs) = Some (IsAck c l) r.acks ⊎ Acked c l rs

-- What the end of a round says of the round.
abbrev Explained : Client → Round → Ending → Type 0
Explained c r (leased l) = Some (λ pkt. parse c pkt ≡ some (dhcp_ack, l)) r.acks
Explained c r (again c') = IsLater c c'

Some-map :
    {P Q : List ℕ → Type 0} (pkts : List (List ℕ))
    → ((pkt : List ℕ) → P pkt → Q pkt)
    → Some P pkts
    → Some Q pkts
Some-map [] f h = h
Some-map (pkt ∷ pkts) f (inl here) = inl (f pkt here)
Some-map (pkt ∷ pkts) f (inr there) = inr (Some-map pkts f there)

IsLater-self : (c : Client) → length c.xid ≡ 4 → IsLater c c
IsLater-self c w = record { same_mac = refl; same_xid = refl; xid_is = w }

IsLater-then : {a b c : Client} → IsLater a b → IsLater b c → IsLater a c
IsLater-then v w = record {
  same_mac = w.same_mac ∙ v.same_mac;
  same_xid = w.same_xid ∙ v.same_xid;
  xid_is = w.xid_is;
}

next_xid-IsLater : (c : Client) → length c.xid ≡ 4 → IsLater c (next_xid c)
unfolding next_xid
next_xid-IsLater c w = record {
  same_mac = refl;
  same_xid = take_front 3 (take 3 c.xid) _ (length-take 3 c.xid w);
  xid_is = length-append (take 3 c.xid) _ ∙ ap (λ n. n + 1) (length-take 3 c.xid w);
}
  where
    length-take : (n : ℕ) (bs : List ℕ) → length bs ≡ n + 1 → length (take n bs) ≡ n
    length-take zero bs h = refl
    length-take (suc n) [] h = absurd (omega arith)
    length-take (suc n) (b ∷ bs) h = ap suc (length-take n bs (omega arith))

Acked-later :
    {c c' : Client} (l : Lease) (rs : List Round) → IsLater c c' → Acked c' l rs → Acked c l rs
Acked-later l [] v h = h
Acked-later l (r ∷ rs) v (inl here) =
    inl (Some-map r.acks (λ pkt (c, w, to, is). (c, IsLater-then v w, to, is)) here)
Acked-later l (r ∷ rs) v (inr there) = inr (Acked-later l rs v there)

requested_lem :
    (c : Client) (r : Round) (o : Option (ℕ × Lease))
    → await c dhcp_ack r.acks ≡ o
    → length c.xid ≡ 4
    → Explained c r (requested c o)
unfolding requested
requested_lem c r none e w = next_xid-IsLater c w
requested_lem c r (some (t, l)) e w = elim (Bool-cases (t == dhcp_ack)) [
  | inl ack ↦
      let t_is : t ≡ dhcp_ack = (==_iff _ _).0 ack in
      rw ack (rw (← t_is) (await_lem c dhcp_ack r.acks e).0)
  | inr other ↦ rw other (next_xid-IsLater c w)
]

round_lem : (c : Client) (r : Round) → length c.xid ≡ 4 → Explained c r (round c r).1
unfolding round offered
round_lem c r w = go (await c dhcp_offer r.offers)
  where
    go : (o : Option (ℕ × Lease)) → Explained c r (offered c r o).1
    go none = IsLater-self c w
    go (some (t, l)) = elim (Bool-cases (t == dhcp_offer)) [
      | inl offer ↦ rw offer (requested_lem c r (await c dhcp_ack r.acks) refl w)
      | inr other ↦ rw other (IsLater-self c w)
    ]

lease_of : Lease → Option Lease → Lease
lease_of d none = d
lease_of d (some l) = l

ending_lem :
    (c : Client) (r : Round) (rs : List Round) {l : Lease} (e : Ending)
    → length c.xid ≡ 4
    → Explained c r e
    → ((c' : Client) → length c'.xid ≡ 4 → negotiate c' rs ≡ some l → Acked c' l rs)
    → (elim e [ leased k ↦ some k | again c' ↦ negotiate c' rs ]) ≡ some l
    → Acked c l (r ∷ rs)
unfolding lease_of
ending_lem c r rs {l} (leased k) w x next h =
    let same : k ≡ l = ap (lease_of k) h in
    inl
      (Some-map r.acks (λ pkt e. (c, IsLater-self c w, parse-IsReplyTo c pkt e, e)) (rw (← same) x))
ending_lem c r rs {l} (again c') w x next h = inr (Acked-later l rs x (next c' x.xid_is h))

-- A lease that the client takes was acknowledged to it: in one of the rounds a datagram came that is an IP
-- datagram to UDP port 68 with a BOOTP reply to the client's Ethernet address and transaction (but for its
-- last byte, which counts rounds), with the lease's address, and that `parse` takes for an acknowledgement
-- of this lease. (The transaction has four bytes.)
pub negotiate_lem :
    (c : Client) (rs : List Round) {l : Lease}
    → length c.xid ≡ 4
    → negotiate c rs ≡ some l
    → Acked c l rs
unfolding negotiate
negotiate_lem c [] w h = absurd (cc)
negotiate_lem c (r ∷ rs) {l} w h =
    ending_lem c r rs (round c r).1 w (round_lem c r w) (λ c'. negotiate_lem c' rs) h
