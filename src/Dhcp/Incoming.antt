-- ===== src/Dhcp/Incoming.antt =====
-- dhcpc/dhcpc.c, what `parse` asks of a datagram before it takes it for a reply to the client.
use atari_sysv_sp.Base.{
  ℕ, zero, suc, ◌+◌, ◌-◌, ◌*◌, ◌/◌, ◌%◌, ◌≤◌, ◌≡◌, inl, inr, refl, sym, ◌∙◌, ap, ap₂, Bool, true,
  false, Bool-cases, not, ◌||◌, Option, none, some, List, [], ◌∷◌, ◌==◌, ltb, if◌then◌else◌, get_or,
  take, drop, length, arith,
}
use atari_sysv_sp.Base.Buffer.{slice}
use atari_sysv_sp.Ufs.Dirs.{same}
use atari_sysv_sp.Dhcp.{
  bootpc, Client, Lease, no_lease, Reply, option_in, options_in, is_reply, parse,
}

-- Where the BOOTP message begins: behind the IP header, as long as it says, and the eight bytes of UDP's.
abbrev pub message_at : List ℕ → ℕ
message_at pkt = get_or pkt 0 0 % 16 * 4 + 8

-- A UDP datagram of IPv4 for port 68, with a BOOTP reply to the client that has the lease's address.
pub record IsReplyTo (c : Client) (l : Lease) (pkt : List ℕ) : Type 0 where
  pub ip4 : get_or pkt 0 0 / 16 ≡ 4
  pub udp : get_or pkt 9 0 ≡ 17
  pub port : get_or pkt (message_at pkt - 6) 0 * 256 + get_or pkt (message_at pkt - 5) 0 ≡ 68
  pub whole : message_at pkt + 240 ≤ length pkt
  pub reply : get_or (drop (message_at pkt) pkt) 0 0 ≡ 2
  pub xid_is : slice (drop (message_at pkt) pkt) 4 4 ≡ c.xid
  pub mac_is : slice (drop (message_at pkt) pkt) 28 6 ≡ c.mac
  pub addr_is : slice (drop (message_at pkt) pkt) 16 4 ≡ l.addr

same_lem : (xs ys : List ℕ) → same xs ys ≡ true → xs ≡ ys
unfolding same
same_lem [] [] h = refl
same_lem [] (y ∷ ys) h = absurd cc
same_lem (x ∷ xs) [] h = absurd cc
same_lem (x ∷ xs) (y ∷ ys) h = ap₂ ◌∷◌ (ground (arith, h)) (same_lem xs ys (ground (arith, h)))

-- No option changes the address.
addr-option_in :
    (code : ℕ) (v : List ℕ) (r : Reply) → (option_in code v r).lease.addr ≡ r.lease.addr
unfolding option_in
addr-option_in code v r = ground arith

addr-options_in :
    (fuel : ℕ) (o : List ℕ) (r : Reply) → (options_in fuel o r).lease.addr ≡ r.lease.addr
unfolding options_in
addr-options_in zero o r = refl
addr-options_in (suc fuel) [] r = refl
addr-options_in (suc fuel) (code ∷ []) r = refl
addr-options_in (suc fuel) (code ∷ n ∷ o) r =
    let next = addr-options_in fuel (n ∷ o) r in
    let rest =
      addr-options_in fuel (drop n o) (option_in code (take n o) r)
      ∙ addr-option_in code (take n o) r in
    elim (Bool-cases (code == 255)) [
      | inl t ↦ rw t refl
      | inr f ↦ rw f (elim (Bool-cases (code == 0)) [
        | inl t ↦ rw t next
        | inr g ↦
            rw g (elim (Bool-cases (ltb (length o) n)) [ inl t ↦ rw t refl | inr u ↦ rw u rest ])
      ])
    ]

unless-some :
    {A : Type 0} (b : Bool) (o : Option A) {a : A}
    → (if b then none else o) ≡ some a
    → (b ≡ false) × (o ≡ some a)
unless-some true o h = absurd cc
unless-some false o h = (refl, h)

lease_in :
    (o : Option ℕ) (l : Lease) {t : ℕ} {l' : Lease}
    → elim o as (λ x. Option (ℕ × Lease)) [ none ↦ none | some t ↦ some (t, l) ] ≡ some (t, l')
    → l ≡ l'
lease_in none l h = absurd cc
lease_in (some u) l h = ap (λ o. elim o [ none ↦ l | some p ↦ p.1 ]) h

-- What `parse` takes is such a reply.
pub parse-IsReplyTo :
    (c : Client) (pkt : List ℕ) {t : ℕ} {l : Lease} → parse c pkt ≡ some (t, l) → IsReplyTo c l pkt
unfolding parse is_reply
parse-IsReplyTo c pkt {t} {l} h =
    let hl = get_or pkt 0 0 % 16 * 4 in
    let u = drop (hl + 8) pkt in
    let o = drop 240 u in
    let r0 : Reply = record { type = none; lease = record no_lease { addr = slice u 16 4 } } in
    let r = options_in (length o) o r0 in
    let given : Option (ℕ × Lease) = elim r.type [ none ↦ none | some t ↦ some (t, r.lease) ] in
    let is : Option (ℕ × Lease) = if not (is_reply c u) then none else given in
    let for_us : Option (ℕ × Lease) =
      if not (get_or pkt (hl + 2) 0 * 256 + get_or pkt (hl + 3) 0 == bootpc) then none else is in
    let long_enough : Option (ℕ × Lease) =
      if ltb (length pkt) (hl + 8 + 240) then none else for_us in
    let (header, h1) =
      unless-some
        (ltb (length pkt) 20 || not (get_or pkt 0 0 / 16 == 4) || not (get_or pkt 9 0 == 17))
        long_enough h in
    let (long, h2) = unless-some (ltb (length pkt) (hl + 8 + 240)) for_us h1 in
    let (port, h3) =
      unless-some (not (get_or pkt (hl + 2) 0 * 256 + get_or pkt (hl + 3) 0 == bootpc)) is h2 in
    let (reply, h4) = unless-some (not (is_reply c u)) given h3 in
    let taken = lease_in r.type r.lease h4 in
    let at : message_at pkt - 6 ≡ get_or pkt 0 0 % 16 * 4 + 2 = omega arith in
    let at' : message_at pkt - 5 ≡ get_or pkt 0 0 % 16 * 4 + 3 = omega arith in
    record {
      ip4 = ground (arith, header);
      udp = ground (arith, header);
      port = rw (at, at') (ground (arith, port));
      whole = ground (arith, long);
      reply = ground (arith, reply);
      xid_is = same_lem (slice u 4 4) c.xid (ground (arith, reply));
      mac_is = same_lem (slice u 28 6) c.mac (ground (arith, reply));
      addr_is = sym (addr-options_in (length o) o r0) ∙ ap (λ l. l.addr) taken;
    }
