-- ===== src/Dhcp/Message.antt =====
-- The messages that the client builds: their checksum and their size.
use Prim.Native.Nat.{max}
use atari_sysv_sp.Base.{
  ℕ, zero, suc, ◌+◌, ◌-◌, ◌*◌, ◌/◌, ◌%◌, ◌^◌, ◌≤◌, ◌<◌, ◌≡◌, ◌≢◌, ◌↔◌, ◌⊎◌, inl, inr, refl, sym,
  ◌∙◌, ap, ◌&&◌, List, [], ◌∷◌, ◌++◌, ◌==◌, ==_iff, ltb, if◌then◌else◌, if_true, if_false, get_or,
  take, replicate, length, length-append, arith, Bool-cases,
}
use atari_sysv_sp.Dhcp.{
  Client, Lease, dhcp_request, cksum, fold_carry, sum_words, asked, host, unfilled, options_out,
  bootp, ip_header, build,
}

-- The fields have the sizes of their arrays.
pub record IsClient (c : Client) : Type 0 where
  pub mac_is : length c.mac ≡ 6
  pub xid_is : length c.xid ≡ 4
  pub node_fits : length c.node < 64

pub record IsLease (l : Lease) : Type 0 where
  pub addr_is : length l.addr ≡ 4
  pub server_is : length l.server ≡ 4

fold_lem :
    (s : ℕ) → s < 2 ^ 20 → fold_carry 3 s ≡ (let a = s % 65536 + s / 65536 in a % 65536 + a / 65536)
unfolding fold_carry
fold_lem s h = ground arith

length-replicate : (n : ℕ) → length (replicate {A = ℕ} n 0) ≡ n
length-replicate zero = refl
length-replicate (suc n) = ap suc (length-replicate n)

abbrev asked_size : ℕ → ℕ
asked_size t = if t == dhcp_request then 12 else 0

length-asked : (t : ℕ) (l : Lease) → IsLease l → length (asked t l) ≡ asked_size t
unfolding asked
length-asked t l w = elim (Bool-cases (t == dhcp_request)) [
  | inl yes_request ↦
      ap length (if_true _ _ yes_request)
      ∙ omega (arith, length-append l.addr (54 ∷ 4 ∷ l.server), w.addr_is, w.server_is)
      ∙ sym (if_true _ _ yes_request)
  | inr no_request ↦ ap length (if_false _ _ no_request) ∙ sym (if_false _ _ no_request)
]

abbrev host_size : ℕ → ℕ
host_size n = if ltb 0 n && ltb n 64 then 2 + n else 0

length-host : (node : List ℕ) → length (host node) ≡ host_size (length node)
unfolding host
length-host node = elim (Bool-cases (ltb 0 (length node) && ltb (length node) 64)) [
  | inl named ↦ ap length (if_true _ _ named) ∙ omega arith ∙ sym (if_true _ _ named)
  | inr unnamed ↦ ap length (if_false _ _ unnamed) ∙ sym (if_false _ _ unnamed)
]

abbrev options_size : Client → ℕ → ℕ
options_size c t = 11 + asked_size t + host_size (length c.node)

length-options :
    (c : Client) (t : ℕ) (l : Lease) → IsLease l → length (options_out c t l) ≡ options_size c t
unfolding options_out
length-options c t l w = omega (
  arith,
  length-append (asked t l) (55 ∷ 5 ∷ 1 ∷ 3 ∷ 6 ∷ 15 ∷ 51 ∷ (host c.node ++ (255 ∷ []))),
  length-append (host c.node) (255 ∷ []),
  length-asked t l w,
  length-host c.node,
)

length-unfilled :
    (c : Client) (options : List ℕ)
    → IsClient c
    → length (unfilled c options) ≡ 240 + length options
unfolding unfilled
length-unfilled c options v = omega (
  arith,
  length-append c.xid (
      0
      ∷ 0
      ∷ 128
      ∷ (replicate 17 0 ++ (c.mac ++ (replicate 202 0 ++ (99 ∷ 130 ∷ 83 ∷ 99 ∷ options))))),
  length-append c.mac (replicate 202 0 ++ (99 ∷ 130 ∷ 83 ∷ 99 ∷ options)),
  v.mac_is,
  v.xid_is,
  length-append (replicate 202 0) (99 ∷ 130 ∷ 83 ∷ 99 ∷ options),
  length-replicate 202,
)

length-bootp :
    (c : Client) (t : ℕ) (l : Lease)
    → IsClient c
    → IsLease l
    → length (bootp c t l) ≡ max 300 (240 + options_size c t)
unfolding bootp
length-bootp c t l v w =
    let u = unfilled c (options_out c t l) in
    omega (
      arith,
      length-append u (replicate (300 - length u) 0),
      length-replicate (300 - length u),
      length-unfilled c (options_out c t l) v,
      length-options c t l w,
    )

module _ (n : ℕ) (h : n < 64) where
  host_bounds : host_size n ≤ 2 + n
  host_bounds = ground arith

  request_fits : 348 - 320 + max 300 (240 + (11 + 12 + host_size n)) ≤ 348 → n ≤ 55
  request_fits l = ground arith

-- A message fits into exchange's buffer of 348 bytes, unless it is a request of a node whose name has
-- more than 55 characters: then it does not. (Of fields as long as their arrays, and a node's name of at
-- most 63 characters.)
pub length-build :
    (c : Client) (t : ℕ) (l : Lease)
    → IsClient c
    → IsLease l
    → (length (build c t l) ≤ 348) ↔ ((t ≢ dhcp_request) ⊎ (length c.node ≤ 55))
unfolding build ip_header
length-build c t l v w = rw (length-bootp c t l v w) (elim (Bool-cases (t == dhcp_request)) [
  | inl yes_request ↦
      let size : asked_size t ≡ 12 = if_true _ _ yes_request in
      (
        (λ h. inr (request_fits (length c.node) v.node_fits (omega (arith, h, size)))),
        (λ h. elim h [
          | inl not_it ↦ absurd (not_it ((==_iff _ _).0 yes_request))
          | inr short ↦ omega (arith, host_bounds (length c.node) v.node_fits, size)
        ]),
      )
  | inr no_request ↦
      let size : asked_size t ≡ 0 = if_false _ _ no_request in
      (
        (λ h. inl (λ e. absurd (ground arith))),
        (λ h. omega (arith, host_bounds (length c.node) v.node_fits, v.node_fits, size)),
      )
])

sum-header :
    (ulen hi lo : ℕ)
    → ulen < 1000
    → sum_words (ip_header ulen hi lo) ≡ 165155 + ulen + (hi * 256 + lo)
unfolding sum_words ip_header
sum-header ulen hi lo h = omega arith

cksum-plain :
    (ulen hi lo c : ℕ)
    → ulen < 1000
    → hi * 256 + lo ≡ c
    → c < 65536
    → cksum (ip_header ulen hi lo)
      ≡ 65535
        - (let a = (165155 + ulen + c) % 65536 + (165155 + ulen + c) / 65536 in
            (a % 65536 + a / 65536) % 65536)
unfolding cksum
cksum-plain ulen hi lo c h e l =
    let total : sum_words (ip_header ulen hi lo) % 2 ^ 32 ≡ 165155 + ulen + c =
      omega (arith, sum-header ulen hi lo h) in
    rw total (rw (fold_lem (165155 + ulen + c) (omega arith)) refl)

header_lem :
    (ulen : ℕ)
    → ulen < 1000
    → cksum
        (ip_header ulen (cksum (ip_header ulen 0 0) / 256 % 256) (cksum (ip_header ulen 0 0) % 256))
      ≡ 0
header_lem ulen h =
    let c = cksum (ip_header ulen 0 0) in
    let plain : c ≡ 31450 - ulen = cksum-plain ulen 0 0 0 h refl (omega arith) ∙ omega arith in
    cksum-plain ulen (c / 256 % 256) (c % 256) (31450 - ulen) h (omega (arith, plain)) (omega arith)
    ∙ omega arith

-- The n 16-bit words of a header, high byte first.
abbrev pub word_total : ℕ → List ℕ → ℕ
word_total zero bs = 0
word_total (suc n) bs = get_or bs (2 * n) 0 * 256 + get_or bs (2 * n + 1) 0 + word_total n bs

word_total-header :
    (ulen hi lo : ℕ)
    → ulen < 1000
    → word_total 10 (ip_header ulen hi lo) ≡ 165155 + ulen + (hi * 256 + lo)
unfolding ip_header
word_total-header ulen hi lo h = omega arith

total_lem :
    (ulen : ℕ)
    → ulen < 1000
    → word_total 10 (
          ip_header ulen
            (cksum (ip_header ulen 0 0) / 256 % 256)
            (cksum (ip_header ulen 0 0) % 256))
        % 65535
      ≡ 0
total_lem ulen h =
    let c = cksum (ip_header ulen 0 0) in
    let plain : c ≡ 31450 - ulen = cksum-plain ulen 0 0 0 h refl (omega arith) ∙ omega arith in
    let total = word_total-header ulen (c / 256 % 256) (c % 256) h in
    rw total (omega (arith, plain))

asked_bounds : (t : ℕ) → asked_size t ≤ 12
asked_bounds t = ground arith

-- The IP header of a message is valid: its ten words, the checksum among them, add up to a multiple of
-- 65535, which is 0 in ones' complement arithmetic; and `cksum` finds it so.
pub cksum-build :
    (c : Client) (t : ℕ) (l : Lease)
    → IsClient c
    → IsLease l
    → (word_total 10 (take 20 (build c t l)) % 65535 ≡ 0) × (cksum (take 20 (build c t l)) ≡ 0)
unfolding build
cksum-build c t l v w =
    let small : 8 + length (bootp c t l) < 1000 =
      omega
        (arith, length-bootp c t l v w, host_bounds (length c.node) v.node_fits, asked_bounds t) in
    (total_lem (8 + length (bootp c t l)) small, header_lem (8 + length (bootp c t l)) small)
