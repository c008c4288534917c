-- ===== src/Vrrp/Packet.antt =====
-- keepalived/vrrp/vrrp.c: the check of a received packet, in a build with authentication and without
-- the compatibility mode for unicast checksums. The statistics and the comparison of the addresses,
-- which only logs, are left out.
pub mod Rules
use keepalived.Common.{
  ℕ, ◌+◌, ◌-◌, ◌*◌, ◌%◌, Bool, true, false, not, ◌&&◌, ◌||◌, ltb, leb, ◌==◌, if◌then◌else◌, Option,
  none, some, List, [], ◌∷◌,
}
use keepalived.Timer.{timer_hz}
use keepalived.Sockaddr.{Sockaddr, af_inet, af_inet6}
use keepalived.Vrrp.Instance.{prio_owner}
use keepalived.Vrrp.Checksum.{add_words, in_csum}

-- VRRP_PACKET_OK, VRRP_PACKET_KO, VRRP_PACKET_DROP
pub data Verdict : Type 0 where
  ok ko drop : Verdict

-- VRRP_AUTH_NONE, VRRP_AUTH_PASS, VRRP_AUTH_AH
abbrev pub auth_none : ℕ
auth_none = 0

abbrev pub auth_pass : ℕ
auth_pass = 1

abbrev pub auth_ah : ℕ
auth_ah = 2

-- unicast_peer_t
pub record UnicastPeer : Type 0 where
  pub address : Sockaddr
  pub min_ttl : ℕ
  pub max_ttl : ℕ

-- What the check reads of vrrp_t; `rx_ttl_hl` is `none` for -1.
pub record Receiver : Type 0 where
  pub family : ℕ
  pub version : ℕ
  pub auth_type : ℕ
  pub adver_int : ℕ
  pub effective_priority : ℕ
  pub owner_ignore_adverts : Bool
  pub v3_checksum_as_v2 : Bool
  pub unicast : Bool
  pub check_unicast_src : Bool
  pub unicast_peer : List UnicastPeer
  pub pkt_saddr : Sockaddr
  pub rx_ttl_hl : Option ℕ
  pub multicast_pkt : Bool

-- A received packet: the fields of its headers, the 16-bit words that the checksum covers with those of
-- the pseudo header of version 3, and what memcmp, the next header of IPsec AH and vrrp_in_chk_ipsecah
-- say of it.
pub record Packet : Type 0 where
  pub buflen : ℕ
  pub ihl : ℕ
  pub protocol_ah : Bool
  pub tot_len : ℕ
  pub daddr_multicast : Bool
  pub version : ℕ
  pub type : ℕ
  pub naddr : ℕ
  pub auth_type : ℕ
  pub adver_int : ℕ
  pub words : List ℕ
  pub ipv4_phdr : List ℕ
  pub passwd_matches : Bool
  pub ah_next_vrrp : Bool
  pub ah_matches : Bool

unfoldable pub expected_vrrp_pkt_len : Packet → ℕ → ℕ
expected_vrrp_pkt_len p family =
    if family == af_inet
    then 8 + (if p.version == 2 then 8 else 0) + p.naddr * 4
    else if family == af_inet6
    then 8 + p.naddr * 16
    else 8

-- ETH_ZLEN - ETH_HLEN
abbrev eth_payload : ℕ
eth_payload = 46

abbrev vlan_tag_size : ℕ
vlan_tag_size = 4

-- Bytes after the packet that fill an Ethernet frame, less some VLAN tags.
abbrev pub is_padding : ℕ → ℕ → Bool
is_padding buflen len =
    ltb len buflen
    && ((buflen - len) % vlan_tag_size
        == (vlan_tag_size - eth_payload % vlan_tag_size) % vlan_tag_size)

unfoldable pub expected_len : Receiver → Packet → ℕ
expected_len v p =
    (if v.family == af_inet then p.ihl + (if v.auth_type == auth_ah then 24 else 0) else 0)
    + expected_vrrp_pkt_len p v.family

unfoldable pub is_length_ok : Receiver → Packet → Bool
is_length_ok v p =
    p.buflen == expected_len v p
    || ltb (expected_len v p) eth_payload && is_padding p.buflen (expected_len v p)

unfoldable pub is_max_ttl : Option ℕ → Bool
is_max_ttl none = true
is_max_ttl (some n) = n == 255

unfoldable pub is_ttl_ok : Receiver → Bool
is_ttl_ok v = v.unicast || is_max_ttl v.rx_ttl_hl

-- Version 2: the authentication and the interval.
unfoldable pub check_v2 : Receiver → Packet → Verdict
check_v2 v p =
    if not (p.auth_type == auth_ah)
      && not (p.auth_type == auth_pass)
      && not (p.auth_type == auth_none)
    then Verdict.ko
    else if not (v.auth_type == p.auth_type)
    then Verdict.ko
    else if v.auth_type == auth_pass && not p.passwd_matches
    then Verdict.ko
    else if v.auth_type == auth_ah && not p.ah_next_vrrp
    then Verdict.drop
    else if v.auth_type == auth_ah && not p.ah_matches
    then Verdict.ko
    else if not (v.adver_int == p.adver_int * timer_hz)
    then Verdict.drop
    else Verdict.ok

unfoldable pub is_tot_len_ok : Receiver → Packet → Bool
is_tot_len_ok v p =
    not (v.family == af_inet)
    || p.tot_len == p.buflen
    || leb p.buflen eth_payload && is_padding p.buflen p.tot_len

unfoldable pub is_csum_ok : Receiver → Packet → Bool
is_csum_ok v p =
    not (v.family == af_inet)
    || (if v.version == 3
        then v.v3_checksum_as_v2 || in_csum p.words (add_words p.ipv4_phdr 0) == 0
        else in_csum p.words 0 == 0)

unfoldable pub is_cast_ok : Receiver → Packet → Bool
is_cast_ok v p =
    if v.family == af_inet && p.daddr_multicast || v.family == af_inet6 && v.multicast_pkt
    then not v.unicast
    else v.unicast

unfoldable pub within_ttl : UnicastPeer → Option ℕ → Bool
within_ttl up none = true
within_ttl up (some n) = not (ltb n up.min_ttl || ltb up.max_ttl n)

unfoldable pub check_ttl_hl : Receiver → UnicastPeer → Bool
check_ttl_hl v up = within_ttl up v.rx_ttl_hl

-- The first peer with the address of the sender decides.
unfoldable pub check_peers : Receiver → List UnicastPeer → Verdict
check_peers v [] = Verdict.ko
check_peers v (up ∷ r) =
    let rest = check_peers v r in
    if v.pkt_saddr.addr == up.address.addr
    then (if check_ttl_hl v up then Verdict.ok else Verdict.drop)
    else rest

-- The checks after that of the version.
unfoldable pub check_rest : Receiver → Packet → Verdict
check_rest v p =
    if not (p.type == 1)
    then Verdict.ko
    else if not (is_tot_len_ok v p)
    then Verdict.ko
    else if not (is_csum_ok v p)
    then Verdict.ko
    else if not (is_cast_ok v p)
    then Verdict.ko
    else if v.owner_ignore_adverts && v.effective_priority == prio_owner
    then Verdict.drop
    else if v.unicast && v.check_unicast_src
    then check_peers v v.unicast_peer
    else Verdict.ok

-- The next check, unless one has decided.
unfoldable pub and_then : Verdict → Verdict → Verdict
and_then Verdict.ok b = b
and_then Verdict.ko b = Verdict.ko
and_then Verdict.drop b = Verdict.drop

unfoldable pub vrrp_check_packet : Receiver → Packet → Verdict
vrrp_check_packet v p =
    if not (v.family == af_inet) && not (v.family == af_inet6)
    then Verdict.ko
    else if v.family == af_inet
        && not (if p.protocol_ah then v.auth_type == auth_ah else not (v.auth_type == auth_ah))
    then Verdict.ko
    else if not (is_length_ok v p)
    then Verdict.ko
    else if not (is_ttl_ok v)
    then Verdict.ko
    else if not (p.version == v.version)
    then Verdict.ko
    else and_then (if v.version == 2 then check_v2 v p else Verdict.ok) (check_rest v p)
