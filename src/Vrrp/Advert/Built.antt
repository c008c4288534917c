-- ===== src/Vrrp/Advert/Built.antt =====
-- keepalived/vrrp/vrrp.c: the packet that is built has a right checksum, and a right checksum is what
-- the check of a receiver asks for.
use keepalived.Common.{
  ℕ, ◌+◌, ◌*◌, ◌-◌, ◌%◌, ◌^◌, ◌<◌, ◌≤◌, false, ◌==◌, ==_iff, ◌≡◌, ◌⊎◌, refl, sym, ap, ◌∙◌, subst,
  if◌then◌else◌, if_true, if_false, if_both, List, [], ◌∷◌, All, inl, inr, arith,
}
use keepalived.Sockaddr.{af_inet}
use keepalived.Vrrp.Packet.{auth_ah, auth_pass}
use keepalived.Vrrp.Checksum.{add_words, in_csum, fold_carries}
use keepalived.Vrrp.Checksum.Inverse.{sum_of, sum_of-append, add_words_sum}
use keepalived.Vrrp.Checksum.Update.{IsFull, fold_carries-IsFull, fold_carries_complement}
use keepalived.Vrrp.Advert.{
  concat, Buffer, Sender, words, ipv4_phdr, vrrp_pkt_len, first_daddr, vrrp_build_ip4,
  vrrp_build_ipsecah, v2_header, vrrp_build_vrrp_v2, v3_header, ipv4_csum, vrrp_build_vrrp_v3,
  vrrp_build_vrrp, vrrp_build_pkt,
}
use keepalived.Vrrp.Advert.Valid.{IsValid, cover, addresses}
use keepalived.Vrrp.Advert.Accepted.{IsReady, outer}

-- The protocol and the length, in the pseudo header.
unfoldable pub tail_of : Sender → ℕ
tail_of v = 112 + vrrp_pkt_len v % 2 ^ 16

sum-ipv4_phdr : (v : Sender) (b : Buffer) → sum_of (ipv4_phdr v b) ≡ addresses b + tail_of v
unfolding ipv4_phdr tail_of
sum-ipv4_phdr v b = omega arith

sum-words :
    (b : Buffer)
    → sum_of (words b)
      ≡ ((b.version * 16 + 1) * 2 ^ 8 + b.vrid)
        + ((b.priority * 2 ^ 8 + b.naddr) + (b.third + (b.chksum + sum_of b.body)))
unfolding words
sum-words b = omega arith

phdr_small :
    (v : Sender) (b : Buffer)
    → b.saddr < 2 ^ 32
    → b.daddr < 2 ^ 32
    → addresses b + tail_of v < 2 ^ 20
unfolding tail_of
phdr_small v b h k = omega arith

add-ipv4_phdr :
    (v : Sender) (b : Buffer)
    → b.saddr < 2 ^ 32
    → b.daddr < 2 ^ 32
    → add_words (ipv4_phdr v b) 0 ≡ addresses b + tail_of v
add-ipv4_phdr v b h k =
    let s = phdr_small v b h k in
    let e = sum-ipv4_phdr v b in add_words_sum (ipv4_phdr v b) 0 (omega arith) ∙ omega arith

-- The sum with which a receiver starts: that of the pseudo header, in version 3.
unfoldable pub start_of : Sender → Buffer → ℕ
start_of v b = if v.version == 2 then 0 else add_words (ipv4_phdr v b) 0

start_small :
    (v : Sender) (b : Buffer)
    → b.saddr < 2 ^ 32
    → b.daddr < 2 ^ 32
    → (start_of v b ≡ (if v.version == 2 then 0 else addresses b + tail_of v))
      × (start_of v b < 2 ^ 20)
unfolding start_of
start_small v b h k =
    let e = add-ipv4_phdr v b h k in
    let s = phdr_small v b h k in
    (
      ap (λ x. if v.version == 2 then 0 else x) e,
      if_both (λ x. x < 2 ^ 20) (v.version == 2) 0 _ (omega arith) (omega arith),
    )

-- The words of a valid packet have the checksum 0.
pub in_csum-IsValid :
    (v : Sender) (b : Buffer)
    → IsValid v.version (tail_of v) b
    → in_csum (words b) (start_of v b) ≡ 0
unfolding in_csum cover
in_csum-IsValid v b s =
    let e = start_small v b s.saddr s.daddr in
    let w = sum-words b in
    let i = s.priority in
    let j = s.naddr in
    let k = s.chksum in
    let l = s.small in
    let total : start_of v b + sum_of (words b) ≡ cover v.version (tail_of v) b =
      omega (arith, e.0) in
    let small : start_of v b + sum_of (words b) < 2 ^ 32 - 2 ^ 16 = omega (arith, e.1) in
    ap (λ x. 2 ^ 16 - 1 - fold_carries x % 2 ^ 16)
      (add_words_sum (words b) (start_of v b) (omega arith))
    ∙ fold_carries-IsFull (start_of v b + sum_of (words b)) small (subst IsFull (sym total) s.full)

-- A packet of which all but the checksum is in place.
record IsDraft (v : Sender) (b : Buffer) : Type 0 where
  chksum : b.chksum ≡ 0
  priority : b.priority < 2 ^ 8
  naddr : b.naddr < 2 ^ 8
  saddr : b.saddr < 2 ^ 32
  daddr : b.daddr < 2 ^ 32
  small : ((b.version * 16 + 1) * 2 ^ 8 + b.vrid) + (b.third + sum_of b.body) < 2 ^ 30

-- The checksum of the draft completes it.
filled :
    (v : Sender) (b : Buffer)
    → IsDraft v b
    → IsValid v.version (tail_of v) (record b { chksum = in_csum (words b) (start_of v b) })
unfolding in_csum cover
filled v b d =
    let e = start_small v b d.saddr d.daddr in
    let w = sum-words b in
    let z = d.chksum in
    let i = d.priority in
    let j = d.naddr in
    let l = d.small in
    let s = start_of v b + sum_of (words b) in
    let a : add_words (words b) (start_of v b) ≡ s =
      add_words_sum (words b) (start_of v b) (omega (arith, e.1)) in
    let c = 2 ^ 16 - 1 - fold_carries (add_words (words b) (start_of v b)) % 2 ^ 16 in
    let f = fold_carries_complement s (omega arith) (omega (arith, e.1)) in
    let g = subst (λ x. IsFull (s + (2 ^ 16 - 1 - fold_carries x % 2 ^ 16))) (sym a) f in
    record {
      full = subst IsFull (omega (arith, e.0)) g;
      chksum = omega arith;
      priority = d.priority;
      naddr = d.naddr;
      saddr = d.saddr;
      daddr = d.daddr;
      small = d.small;
    }

-- What the configuration gives: 8-bit numbers, 32-bit addresses, and so few addresses of the instance
-- that the sum of the words fits.
pub record IsConfigured (v : Sender) : Type 0 where
  pub family : v.family ≡ af_inet
  pub version : (v.version ≡ 2) ⊎ (v.version ≡ 3)
  pub priority : v.effective_priority < 2 ^ 8
  pub vrid : v.vrid < 2 ^ 8
  pub auth_type : v.auth_type < 2 ^ 8
  pub saddr : v.saddr < 2 ^ 32
  pub mcast_daddr : v.mcast_daddr < 2 ^ 32
  pub peers : All (λ x. x < 2 ^ 32) v.unicast_peer
  pub few : sum_of (concat v.vip) + sum_of v.auth_data < 2 ^ 28
  pub covered : v.v3_checksum_as_v2 ≡ false

first_daddr_lt :
    (v : Sender) (peers : List ℕ)
    → v.mcast_daddr < 2 ^ 32
    → All (λ x. x < 2 ^ 32) peers
    → first_daddr v peers < 2 ^ 32
unfolding first_daddr
first_daddr_lt v [] h a = h
first_daddr_lt v (p ∷ r) h a = a.0

v2_header-IsDraft :
    (v : Sender) (b : Buffer) → IsConfigured v → IsDraft v (v2_header v (vrrp_build_ip4 v b))
unfolding v2_header vrrp_build_ip4
v2_header-IsDraft v b c =
    let password = if v.auth_type == auth_pass then v.auth_data else 0 ∷ 0 ∷ 0 ∷ 0 ∷ [] in
    let extra = if v.family == af_inet then password else [] in
    let p : sum_of extra ≤ sum_of v.auth_data =
      if_both (λ q. sum_of q ≤ sum_of v.auth_data) (v.family == af_inet) password []
        (if_both (λ q. sum_of q ≤ sum_of v.auth_data) (v.auth_type == auth_pass) v.auth_data
          (0 ∷ 0 ∷ 0 ∷ 0 ∷ []) (omega arith) (omega arith))
        (omega arith) in
    let s = sum_of-append (concat v.vip) extra in
    let few = c.few in
    let i = c.vrid in
    let j = c.auth_type in
    record {
      chksum = refl;
      priority = c.priority;
      naddr = omega arith;
      saddr = c.saddr;
      daddr = first_daddr_lt v v.unicast_peer c.mcast_daddr c.peers;
      small = omega arith;
    }

v3_header-IsDraft :
    (v : Sender) (b : Buffer) → IsConfigured v → IsDraft v (v3_header v (vrrp_build_ip4 v b))
unfolding v3_header vrrp_build_ip4
v3_header-IsDraft v b c =
    let few = c.few in
    let i = c.vrid in
    record {
      chksum = refl;
      priority = c.priority;
      naddr = omega arith;
      saddr = c.saddr;
      daddr = first_daddr_lt v v.unicast_peer c.mcast_daddr c.peers;
      small = omega arith;
    }

longer :
    (version tail l : ℕ) (b : Buffer)
    → IsValid version tail b
    → IsValid version tail (record b { tot_len = l })
unfolding cover
longer version tail l b s = record {
  full = s.full;
  chksum = s.chksum;
  priority = s.priority;
  naddr = s.naddr;
  saddr = s.saddr;
  daddr = s.daddr;
  small = s.small;
}

start_is :
    (v : Sender) (n : Buffer)
    → start_of v n ≡ (if v.version == 2 then 0 else add_words (ipv4_phdr v n) 0)
unfolding start_of
start_is v n = refl

build-IsValid :
    (v : Sender) (b : Buffer)
    → IsConfigured v
    → IsValid v.version (tail_of v) (vrrp_build_vrrp v (vrrp_build_ip4 v b))
unfolding vrrp_build_vrrp vrrp_build_vrrp_v2 vrrp_build_vrrp_v3 ipv4_csum
build-IsValid v b c =
    let Q = IsValid v.version (tail_of v) in
    let n = v2_header v (vrrp_build_ip4 v b) in
    let m = v3_header v (vrrp_build_ip4 v b) in
    let four = (==_iff v.family af_inet).1 c.family in
    elim c.version [
      | inl two ↦
          subst Q
            (sym (
              if_false (v.version == 3) _ _ (other 2 3 two)
              ∙ if_true (v.family == af_inet) _ n four))
            (subst (λ x. Q (record n { chksum = in_csum (words n) x })) (start_two n two)
              (filled v n (v2_header-IsDraft v b c)))
      | inr three ↦
          subst Q
            (sym (
              if_true (v.version == 3) _ _ (other 3 3 three)
              ∙ if_true (v.family == af_inet) _ m four))
            (subst (λ x. Q (record m { chksum = in_csum (words m) x }))
              (start_three m three ∙ sym (if_false v.v3_checksum_as_v2 0 _ c.covered))
              (filled v m (v3_header-IsDraft v b c)))
    ]
  where
    other : (a z : ℕ) → v.version ≡ a → (v.version == z) ≡ (a == z)
    other a z e = ap (λ x. x == z) e

    start_two : (n : Buffer) → v.version ≡ 2 → start_of v n ≡ 0
    start_two n e = start_is v n ∙ if_true (v.version == 2) 0 _ (other 2 2 e)

    start_three : (n : Buffer) → v.version ≡ 3 → start_of v n ≡ add_words (ipv4_phdr v n) 0
    start_three n e = start_is v n ∙ if_false (v.version == 2) 0 _ (other 3 2 e)

-- Of a configured instance over IPv4 and an HMAC of any kind, vrrp_build_pkt leaves a packet whose
-- checksum is right, in version 2 over the message and in version 3 over the pseudo header too.
pub vrrp_build_pkt-IsReady :
    (hmac_md5 : Buffer → ℕ) (v : Sender)
    → IsConfigured v
    → IsReady (tail_of v) (vrrp_build_pkt hmac_md5 v)
unfolding vrrp_build_pkt vrrp_build_ipsecah
vrrp_build_pkt-IsReady hmac_md5 v c =
    let b = vrrp_build_vrrp v (vrrp_build_ip4 v v.send_buffer) in
    let s = build-IsValid v v.send_buffer c in
    let n = record b { tot_len = (b.tot_len + 24) % 2 ^ 16; spi = b.saddr } in
    subst (IsReady (tail_of v))
      (sym (if_true (v.family == af_inet) _ _ ((==_iff v.family af_inet).1 c.family)))
      (if_both (λ (x : Buffer). IsReady (tail_of v) (record v { send_buffer = x }))
        (v.auth_type == auth_ah) _ b
        (ready (
          longer v.version (tail_of v) ((b.tot_len + 24) % 2 ^ 16) _
            (outer v.version (tail_of v) b.ip_id b.saddr b.seq_number (hmac_md5 n) b s)))
        (ready s))
  where
    ready :
        {b : Buffer}
        → IsValid v.version (tail_of v) b
        → IsReady (tail_of v) (record v { send_buffer = b })
    ready s = record { family = c.family; valid = s; saddr = c.saddr }
