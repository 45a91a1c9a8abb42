-- ===== src/Dhcp/Tests.antt =====
-- Messages of a client, the options of a reply, and an exchange.
use atari_sysv_sp.Base.{
  ℕ, ◌%◌, ◌≤◌, ◌≡◌, ◌≢◌, ◌↔◌, ◌⊎◌, refl, none, some, List, [], ◌∷◌, ◌++◌, replicate, take, length,
  arith,
}
use atari_sysv_sp.Ufs.Dirs.{same}
use atari_sysv_sp.Dhcp.{
  Client, Lease, no_lease, Reply, option_in, options_in, is_reply, parse, await, build, cksum,
  dhcp_request, dhcp_ack, Round, round, negotiate,
}
use atari_sysv_sp.Dhcp.Message.{IsClient, IsLease, word_total, length-build, cksum-build}
use atari_sysv_sp.Dhcp.Options.{Written, pad, option, write, AllOptions, applied, options_lem}
use atari_sysv_sp.Dhcp.Exchange.{Acked, negotiate_lem}

abbrev client : Client
client = record {
  mac = 8 ∷ 0 ∷ 46 ∷ 1 ∷ 2 ∷ 3 ∷ [];
  xid = 1 ∷ 2 ∷ 3 ∷ 4 ∷ [];
  node = replicate 60 97;
}

client-IsClient : IsClient client
client-IsClient = record { mac_is = refl; xid_is = refl; node_fits = omega arith }

no_lease-IsLease : IsLease no_lease
no_lease-IsLease = record { addr_is = refl; server_is = refl }

length-build_example :
    (length (build client dhcp_request no_lease) ≤ 348)
    ↔ ((dhcp_request ≢ dhcp_request) ⊎ (60 ≤ 55))
length-build_example = length-build client dhcp_request no_lease client-IsClient no_lease-IsLease

cksum-build_example :
    (word_total 10 (take 20 (build client dhcp_request no_lease)) % 65535 ≡ 0)
    × (cksum (take 20 (build client dhcp_request no_lease)) ≡ 0)
cksum-build_example = cksum-build client dhcp_request no_lease client-IsClient no_lease-IsLease

abbrev reply : Reply
reply = record { type = none; lease = no_lease }

abbrev written : List Written
written = option 53 (2 ∷ []) ∷ pad ∷ option 1 (255 ∷ 255 ∷ 255 ∷ 0 ∷ []) ∷ []

written-AllOptions : AllOptions written
written-AllOptions = ground arith

short : length (write written (255 ∷ 0 ∷ [])) ≤ 20
unfolding write
short = omega arith

options_example : options_in 20 (write written (255 ∷ 0 ∷ [])) reply ≡ applied written reply
options_example = options_lem written 0 [] reply 20 written-AllOptions short

abbrev reply_of : ℕ → List ℕ
reply_of t =
    2
    ∷ 1
    ∷ 6
    ∷ 0
    ∷ (client.xid
        ++ (replicate 8 0
            ++ (10
                ∷ 0
                ∷ 0
                ∷ 7
                ∷ (replicate 8 0
                    ++ (client.mac
                        ++ (replicate 202 0
                            ++ (99 ∷ 130 ∷ 83 ∷ 99 ∷ 53 ∷ 1 ∷ t ∷ 255 ∷ 0 ∷ [])))))))

-- A reply of type t that gives the client the address 10.0.0.7.
abbrev datagram : ℕ → List ℕ
datagram t =
    69
    ∷ 0
    ∷ 0
    ∷ 0
    ∷ 0
    ∷ 0
    ∷ 0
    ∷ 0
    ∷ 64
    ∷ 17
    ∷ (replicate 10 0 ++ (0 ∷ 67 ∷ 0 ∷ 68 ∷ 0 ∷ 0 ∷ 0 ∷ 0 ∷ reply_of t))

abbrev lease : Lease
lease = record no_lease { addr = 10 ∷ 0 ∷ 0 ∷ 7 ∷ [] }

abbrev rounds : List Round
rounds =
    record { offers = []; acks = [] }
    ∷ record { offers = datagram 2 ∷ []; acks = datagram 2 ∷ datagram 5 ∷ [] }
    ∷ []

second_reply : await client dhcp_ack (datagram 2 ∷ datagram 5 ∷ []) ≡ some (dhcp_ack, lease)
unfolding await parse options_in option_in is_reply same
second_reply = refl

second_round : negotiate client rounds ≡ some lease
unfolding negotiate round await parse options_in option_in is_reply same
second_round = refl

negotiate_example : Acked client lease rounds
negotiate_example = negotiate_lem client rounds refl second_round
