-- ===== src/Vrrp/Packet/Rules.antt =====
-- The rules of reception, one by one, on the fields of the packet.
use keepalived.Common.{
  ℕ, ◌+◌, ◌-◌, ◌*◌, ◌%◌, ◌≤◌, ◌<◌, ◌≡◌, ◌≢◌, ◌⊎◌, true, false, not, ◌==◌, if◌then◌else◌, Option,
  none, some, List, [], ◌∷◌,
}
use keepalived.Timer.{timer_hz}
use keepalived.Sockaddr.{af_inet, af_inet6}
use keepalived.Vrrp.Instance.{prio_owner}
use keepalived.Vrrp.Checksum.{add_words, in_csum}
use keepalived.Vrrp.Packet.{UnicastPeer, Receiver, Packet, auth_none, auth_pass, auth_ah}

pub record IsAuthentic (v : Receiver) (p : Packet) : Type 0 where
  pub same_type : p.auth_type ≡ v.auth_type
  pub known :
      (v.auth_type ≡ auth_none)
      ⊎ ((v.auth_type ≡ auth_pass) × (p.passwd_matches ≡ true))
      ⊎ ((v.auth_type ≡ auth_ah) × (p.ah_next_vrrp ≡ true) × (p.ah_matches ≡ true))
  pub interval : v.adver_int ≡ p.adver_int * timer_hz

-- Bytes after a packet of n bytes that fill an Ethernet frame of 46 bytes, less any number of VLAN tags
-- of 4 bytes.
abbrev pub IsFilled : ℕ → ℕ → Type 0
IsFilled buflen n = (n < buflen) × ((buflen - n) % 4 ≡ 2)

-- The bytes of an advert: in IPv4 the IP header, that of IPsec AH, the VRRP header with or without the
-- password, and the addresses; in IPv6 the VRRP header and the addresses.
abbrev pub advert_bytes : Receiver → Packet → ℕ
advert_bytes v p =
    if v.family == af_inet6
    then 8 + p.naddr * 16
    else p.ihl
      + (if v.auth_type == auth_ah then 24 else 0)
      + (if p.version == 2 then 16 else 8)
      + p.naddr * 4

abbrev pub HasLength : Receiver → Packet → Type 0
HasLength v p =
    (p.buflen ≡ advert_bytes v p) ⊎ ((advert_bytes v p < 46) × IsFilled p.buflen (advert_bytes v p))

abbrev pub HasTtl : Receiver → Type 0
HasTtl v = (v.unicast ≡ true) ⊎ (v.rx_ttl_hl ≡ none) ⊎ (v.rx_ttl_hl ≡ some 255)

-- Each byte that the IPv4 header counts has come, and no others but those that fill the frame.
abbrev pub HasTotal : Receiver → Packet → Type 0
HasTotal v p =
    (v.family ≢ af_inet) ⊎ (p.tot_len ≡ p.buflen) ⊎ ((p.buflen ≤ 46) × IsFilled p.buflen p.tot_len)

-- In IPv4 the sum of the words, with the pseudo header in version 3, is right; the flag for the checksum
-- of version 2 takes the rule away in version 3. The kernel checks it in IPv6.
abbrev pub HasSum : Receiver → Packet → Type 0
HasSum v p =
    (v.family ≢ af_inet)
    ⊎ ((v.version ≡ 3)
        × ((v.v3_checksum_as_v2 ≡ true) ⊎ (in_csum p.words (add_words p.ipv4_phdr 0) ≡ 0)))
    ⊎ ((v.version ≢ 3) × (in_csum p.words 0 ≡ 0))

-- A unicast instance takes unicast packets alone, and any other one multicast packets alone.
abbrev pub HasCast : Receiver → Packet → Type 0
HasCast v p =
    ((v.family ≡ af_inet) × (p.daddr_multicast ≡ not v.unicast))
    ⊎ ((v.family ≡ af_inet6) × (v.multicast_pkt ≡ not v.unicast))

-- The TTL, where it is known, is in the range of the peer.
unfoldable pub IsWithin : UnicastPeer → Option ℕ → Type 0
IsWithin up none = Unit
IsWithin up (some n) = (up.min_ttl ≤ n) × (n ≤ up.max_ttl)

-- The first peer with the address of the sender is one from which the TTL is in range.
unfoldable pub IsKnown : Receiver → List UnicastPeer → Type 0
IsKnown v [] = ⊥
IsKnown v (up ∷ ups) =
    ((v.pkt_saddr.addr ≡ up.address.addr) × IsWithin up v.rx_ttl_hl)
    ⊎ ((v.pkt_saddr.addr ≢ up.address.addr) × IsKnown v ups)

-- The rules that every version has, after its own.
pub record IsAdvert (v : Receiver) (p : Packet) : Type 0 where
  pub advert : p.type ≡ 1
  pub total : HasTotal v p
  pub sums : HasSum v p
  pub cast : HasCast v p
  pub heeded : (v.owner_ignore_adverts ≡ false) ⊎ (v.effective_priority ≢ prio_owner)
  pub known : (v.unicast ≡ false) ⊎ (v.check_unicast_src ≡ false) ⊎ IsKnown v v.unicast_peer

pub record IsReceived (v : Receiver) (p : Packet) : Type 0 where
  pub family : (v.family ≡ af_inet) ⊎ (v.family ≡ af_inet6)
  pub header : (v.family ≡ af_inet6) ⊎ (p.protocol_ah ≡ (v.auth_type == auth_ah))
  pub length : HasLength v p
  pub ttl : HasTtl v
  pub version : p.version ≡ v.version
  pub authentic : (v.version ≢ 2) ⊎ IsAuthentic v p
  pub advert : IsAdvert v p
