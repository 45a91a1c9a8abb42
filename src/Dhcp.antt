-- ===== src/Dhcp.antt =====
-- dhcpc/dhcpc.c, the messages of the DHCP client and the exchange of them. A datagram is the list of
-- its bytes; what the network delivers is an argument.
pub mod Message
pub mod Options
pub mod Incoming
pub mod Exchange
mod Tests
use atari_sysv_sp.Base.{
  ℕ, zero, suc, ◌+◌, ◌-◌, ◌*◌, ◌/◌, ◌%◌, ◌^◌, Bool, ◌&&◌, ◌||◌, not, Option, none, some, List, [],
  ◌∷◌, ◌++◌, ◌==◌, ltb, leb, if◌then◌else◌, get_or, take, drop, replicate, length,
}
use atari_sysv_sp.Base.Buffer.{slice}
use atari_sysv_sp.Ufs.Dirs.{same}

abbrev pub bootps : ℕ
bootps = 67

abbrev pub bootpc : ℕ
bootpc = 68

abbrev pub dhcp_discover : ℕ
dhcp_discover = 1

abbrev pub dhcp_offer : ℕ
dhcp_offer = 2

abbrev pub dhcp_request : ℕ
dhcp_request = 3

abbrev pub dhcp_ack : ℕ
dhcp_ack = 5

abbrev pub dhcp_nak : ℕ
dhcp_nak = 6

-- struct lease; dns has the ndns first entries, domain the string.
pub record Lease : Type 0 where
  pub addr : List ℕ
  pub mask : List ℕ
  pub router : List ℕ
  pub server : List ℕ
  pub dns : List (List ℕ)
  pub domain : List ℕ
  pub secs : ℕ

-- memset(l, 0, sizeof *l)
abbrev pub no_lease : Lease
no_lease = record {
  addr = replicate 4 0;
  mask = replicate 4 0;
  router = replicate 4 0;
  server = replicate 4 0;
  dns = [];
  domain = [];
  secs = 0;
}

-- The sum of the 16-bit words, the last one filled up with a zero.
sum_words : List ℕ → ℕ
sum_words (a ∷ b ∷ rest) = a * 256 + b + sum_words rest
sum_words (a ∷ []) = a * 256
sum_words [] = 0

-- while (s >> 16), with fuel
fold_carry : ℕ → ℕ → ℕ
fold_carry zero s = s
fold_carry (suc fuel) s =
    let rest = fold_carry fuel (s % 65536 + s / 65536) in if s / 65536 == 0 then s else rest

-- ~s & 0xffff; an unsigned long that is folded twice has no carry any more.
unfoldable pub cksum : List ℕ → ℕ
unfolding sum_words fold_carry
cksum p = 65535 - fold_carry 3 (sum_words p % 2 ^ 32) % 65536

-- What the client knows of itself.
pub record Client : Type 0 where
  pub mac : List ℕ
  pub xid : List ℕ
  pub node : List ℕ

-- The offered address and the server's, in a request only.
asked : ℕ → Lease → List ℕ
asked t l = if t == dhcp_request then 50 ∷ 4 ∷ (l.addr ++ (54 ∷ 4 ∷ l.server)) else []

host : List ℕ → List ℕ
host node = if ltb 0 (length node) && ltb (length node) 64 then 12 ∷ length node ∷ node else []

-- The options of a message of type t, from u[240] on.
options_out : Client → ℕ → Lease → List ℕ
options_out c t l =
    53 ∷ 1 ∷ t ∷ (asked t l ++ (55 ∷ 5 ∷ 1 ∷ 3 ∷ 6 ∷ 15 ∷ 51 ∷ (host c.node ++ (255 ∷ []))))

-- u: the BOOTP message, filled up to its minimum
unfilled : Client → List ℕ → List ℕ
unfilled c options =
    1
    ∷ 1
    ∷ 6
    ∷ 0
    ∷ (c.xid
        ++ (0
            ∷ 0
            ∷ 128
            ∷ (replicate 17 0 ++ (c.mac ++ (replicate 202 0 ++ (99 ∷ 130 ∷ 83 ∷ 99 ∷ options))))))

unfoldable pub bootp : Client → ℕ → Lease → List ℕ
unfolding unfilled options_out asked host
bootp c t l = let u = unfilled c (options_out c t l) in u ++ replicate (300 - length u) 0

-- The IP header, with what stands in ipp[10] and ipp[11].
ip_header : ℕ → ℕ → ℕ → List ℕ
ip_header ulen hi lo =
    69
    ∷ 0
    ∷ (20 + ulen) / 256 % 256
    ∷ (20 + ulen) % 256
    ∷ 0
    ∷ 0
    ∷ 0
    ∷ 0
    ∷ 64
    ∷ 17
    ∷ hi
    ∷ lo
    ∷ 0
    ∷ 0
    ∷ 0
    ∷ 0
    ∷ 255
    ∷ 255
    ∷ 255
    ∷ 255
    ∷ []

unfoldable pub build : Client → ℕ → Lease → List ℕ
unfolding ip_header
build c t l =
    let u = bootp c t l in
    let ulen = 8 + length u in
    let sum = cksum (ip_header ulen 0 0) in
    ip_header ulen (sum / 256 % 256) (sum % 256)
    ++ (0 ∷ bootpc ∷ 0 ∷ bootps ∷ ulen / 256 % 256 ∷ ulen % 256 ∷ 0 ∷ 0 ∷ u)

-- The servers of option 6, three at most.
dns_in : ℕ → List ℕ → List (List ℕ)
dns_in (suc left) (a ∷ b ∷ c ∷ d ∷ rest) = (a ∷ b ∷ c ∷ d ∷ []) ∷ dns_in left rest
dns_in _ _ = []

-- The type so far (none is -1) and the lease.
pub record Reply : Type 0 where
  pub type : Option ℕ
  pub lease : Lease

-- Option `code` with the value v: the `switch`.
unfoldable pub option_in : ℕ → List ℕ → Reply → Reply
unfolding dns_in
option_in code v r =
    let n = length v in
    let l = r.lease in
    let four = leb 4 n in
    if code == 1
    then (if four then record r { lease = record l { mask = take 4 v } } else r)
    else if code == 3
    then (if four then record r { lease = record l { router = take 4 v } } else r)
    else if code == 6
    then record r { lease = record l { dns = dns_in 3 v } }
    else if code == 15
    then (if ltb 0 n && ltb n 128 then record r { lease = record l { domain = v } } else r)
    else if code == 51
    then (if four
        then record r {
          lease = record l {
            secs =
                get_or v 0 0 * 16777216 + get_or v 1 0 * 65536 + get_or v 2 0 * 256 + get_or v 3 0;
          };
        }
        else r)
    else if code == 53
    then (if leb 1 n then record r { type = some (get_or v 0 0) } else r)
    else if code == 54
    then (if four then record r { lease = record l { server = take 4 v } } else r)
    else r

-- The loop over the options, o the bytes from the pointer to the end, with fuel.
unfoldable pub options_in : ℕ → List ℕ → Reply → Reply
options_in (suc fuel) (code ∷ n ∷ o) r =
    let next = options_in fuel (n ∷ o) r in
    let rest = options_in fuel (drop n o) (option_in code (take n o) r) in
    if code == 255 then r else if code == 0 then next else if ltb (length o) n then r else rest
options_in _ _ r = r

-- A BOOTP reply to the client: u[0], xid, mac, and the cookie.
unfoldable pub is_reply : Client → List ℕ → Bool
is_reply c u =
    (get_or u 0 0 == 2)
    && same (slice u 4 4) c.xid
    && same (slice u 28 6) c.mac
    && same (slice u 236 4) (99 ∷ 130 ∷ 83 ∷ 99 ∷ [])

-- The type, with the lease filled in, or none.
unfoldable pub parse : Client → List ℕ → Option (ℕ × Lease)
parse c pkt =
    let hl = get_or pkt 0 0 % 16 * 4 in
    let u = drop (hl + 8) pkt in
    let o = drop 240 u in
    let r =
      options_in (length o) o
        (record { type = none; lease = record no_lease { addr = slice u 16 4 } }) in
    if ltb (length pkt) 20 || not (get_or pkt 0 0 / 16 == 4) || not (get_or pkt 9 0 == 17)
    then none
    else if ltb (length pkt) (hl + 8 + 240)
    then none
    else if not (get_or pkt (hl + 2) 0 * 256 + get_or pkt (hl + 3) 0 == bootpc)
    then none
    else if not (is_reply c u)
    then none
    else elim r.type [ none ↦ none | some t ↦ some (t, r.lease) ]

-- A round of the loop of `exchange`: a reply of the type that is waited for, or a refusal, ends it.
abbrev pub kept : ℕ → Option (ℕ × Lease) → Option (ℕ × Lease) → Option (ℕ × Lease)
kept want none rest = rest
kept want (some (t, l)) rest = if (t == want) || (t == dhcp_nak) then some (t, l) else rest

-- The loop, on the datagrams that come before the end of the wait.
unfoldable pub await : Client → ℕ → List (List ℕ) → Option (ℕ × Lease)
await c want [] = none
await c want (pkt ∷ pkts) = let rest = await c want pkts in kept want (parse c pkt) rest

-- What comes after the discover of a round and, where an offer came, after the request.
pub record Round : Type 0 where
  pub offers : List (List ℕ)
  pub acks : List (List ℕ)

-- xid[3]++
unfoldable pub next_xid : Client → Client
next_xid c = record c { xid = take 3 c.xid ++ ((get_or c.xid 3 0 + 1) % 256 ∷ []) }

-- How a round ends: with a lease, or with the client for the next one.
pub data Ending : Type 0 where
  leased : Lease → Ending
  again : Client → Ending

requested : Client → Option (ℕ × Lease) → Ending
requested c none = again (next_xid c)
requested c (some (t, l)) = if t == dhcp_ack then leased l else again (next_xid c)

-- The messages of the round, and its end.
offered : Client → Round → Option (ℕ × Lease) → List (List ℕ) × Ending
offered c r none = (build c dhcp_discover no_lease ∷ [], again c)
offered c r (some (t, l)) =
    if t == dhcp_offer
    then (
      build c dhcp_discover no_lease ∷ build c dhcp_request l ∷ [],
      requested c (await c dhcp_ack r.acks),
    )
    else (build c dhcp_discover no_lease ∷ [], again c)

unfoldable pub round : Client → Round → List (List ℕ) × Ending
unfolding offered requested
round c r = offered c r (await c dhcp_offer r.offers)

-- The `for` loop of main: the rounds that begin before the end of the time.
unfoldable pub negotiate : Client → List Round → Option Lease
negotiate c [] = none
negotiate c (r ∷ rs) = elim (round c r).1 [ leased l ↦ some l | again c' ↦ negotiate c' rs ]

-- No netmask given: that of the address's class.
unfoldable pub classful : Lease → Lease
classful l =
    let a = get_or l.addr 0 0 in
    if get_or l.mask 0 0 == 0
    then record l {
      mask = 255 ∷ (if leb 128 a then 255 else 0) ∷ (if leb 192 a then 255 else 0) ∷ drop 3 l.mask;
    }
    else l
