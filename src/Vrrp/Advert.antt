-- ===== src/Vrrp/Advert.antt =====
-- keepalived/vrrp/vrrp.c: the building and the updating of the packet that an instance sends, in a build
-- with authentication and without the compatibility mode for unicast checksums. Words are in host order.
-- The digest of IPsec AH is an argument.
pub mod Valid
pub mod Accepted
pub mod Built
pub mod Sent
pub mod Chain
use keepalived.Common.{
  ℕ, ◌+◌, ◌*◌, ◌/◌, ◌%◌, ◌^◌, Bool, true, false, not, ◌&&◌, ◌||◌, ltb, ◌==◌, if◌then◌else◌, Option,
  none, some, is_some, List, [], ◌∷◌, ◌++◌, length,
}
use keepalived.Timer.{timer_hz, timer_centi_hz}
use keepalived.Sockaddr.{af_inet, af_inet6}
use keepalived.Vrrp.Checksum.{
  add_words, in_csum, csum_incremental_update16, csum_incremental_update32,
}
use keepalived.Vrrp.Packet.{auth_none, auth_pass, auth_ah}

-- The send buffer: of the IPv4 header what varies, of the AH header what varies, and the VRRP header,
-- whose third word is the authentication and the interval, or the interval of version 3. `body` is the
-- addresses and the password, in words.
pub record Buffer : Type 0 where
  pub tot_len : ℕ
  pub ip_id : ℕ
  pub protocol_ah : Bool
  pub saddr : ℕ
  pub daddr : ℕ
  pub spi : ℕ
  pub seq_number : ℕ
  pub auth_data : ℕ
  pub version : ℕ
  pub vrid : ℕ
  pub priority : ℕ
  pub naddr : ℕ
  pub third : ℕ
  pub chksum : ℕ
  pub body : List ℕ

-- What of vrrp_t has to do with it. `vip` is the addresses in their words; `saddr` is that of
-- VRRP_PKT_SADDR; `unicast_peer` is the addresses of the peers, none without unicast.
pub record Sender : Type 0 where
  pub family : ℕ
  pub version : ℕ
  pub vrid : ℕ
  pub effective_priority : ℕ
  pub vip : List (List ℕ)
  pub auth_type : ℕ
  pub auth_data : List ℕ
  pub adver_int : ℕ
  pub saddr : ℕ
  pub saddr_from_config : Bool
  pub mcast_daddr : ℕ
  pub unicast_peer : List ℕ
  pub v3_checksum_as_v2 : Bool
  pub ip_id : ℕ
  pub seq_number : ℕ
  pub cycle : Bool
  pub send_buffer : Buffer

unfoldable pub concat : List (List ℕ) → List ℕ
concat [] = []
concat (a ∷ r) = a ++ concat r

unfoldable pub vrrp_pkt_len : Sender → ℕ
vrrp_pkt_len v =
    if v.family == af_inet
    then 8 + (if v.version == 2 then 8 else 0) + length v.vip * 4
    else if v.family == af_inet6
    then 8 + length v.vip * 16
    else 8

unfoldable pub vrrp_adv_len : Sender → ℕ
vrrp_adv_len v =
    vrrp_pkt_len v
    + (if v.family == af_inet then 20 + (if v.auth_type == auth_ah then 24 else 0) else 0)

-- The type is VRRP_PKT_ADVERT.
abbrev pub first_word : Buffer → ℕ
first_word b = (b.version * 16 + 1) * 2 ^ 8 + b.vrid

abbrev pub second_word : Buffer → ℕ
second_word b = b.priority * 2 ^ 8 + b.naddr

-- The words that the checksum covers.
unfoldable pub words : Buffer → List ℕ
words b = first_word b ∷ second_word b ∷ b.third ∷ b.chksum ∷ b.body

-- ipv4_phdr_t
unfoldable pub ipv4_phdr : Sender → Buffer → List ℕ
ipv4_phdr v b =
    b.saddr / 2 ^ 16
    ∷ b.saddr % 2 ^ 16
    ∷ b.daddr / 2 ^ 16
    ∷ b.daddr % 2 ^ 16
    ∷ 112
    ∷ vrrp_pkt_len v % 2 ^ 16
    ∷ []

-- The first peer, or the group.
unfoldable pub first_daddr : Sender → List ℕ → ℕ
first_daddr v [] = v.mcast_daddr
first_daddr v (a ∷ r) = a

unfoldable pub vrrp_build_ip4 : Sender → Buffer → Buffer
vrrp_build_ip4 v b = record b {
  tot_len = (20 + vrrp_pkt_len v) % 2 ^ 16;
  ip_id = 0;
  protocol_ah = v.auth_type == auth_ah;
  saddr = v.saddr;
  daddr = first_daddr v v.unicast_peer;
}

unfoldable pub vrrp_build_ipsecah : (Buffer → ℕ) → Buffer → Buffer
vrrp_build_ipsecah hmac_md5 b =
    let n = record b { tot_len = (b.tot_len + 24) % 2 ^ 16; spi = b.saddr } in
    record n { auth_data = hmac_md5 n }

unfoldable pub v2_header : Sender → Buffer → Buffer
v2_header v b = record b {
  version = 2;
  vrid = v.vrid;
  priority = v.effective_priority;
  naddr = length v.vip % 2 ^ 8;
  third = v.auth_type * 2 ^ 8 + v.adver_int / timer_hz % 2 ^ 8;
  chksum = 0;
  body =
      concat v.vip
      ++ (if v.family == af_inet
          then (if v.auth_type == auth_pass then v.auth_data else 0 ∷ 0 ∷ 0 ∷ 0 ∷ [])
          else []);
}

unfoldable pub vrrp_build_vrrp_v2 : Sender → Buffer → Buffer
vrrp_build_vrrp_v2 v b =
    let n = v2_header v b in
    if v.family == af_inet then record n { chksum = in_csum (words n) 0 } else n

unfoldable pub v3_header : Sender → Buffer → Buffer
v3_header v b = record b {
  version = 3;
  vrid = v.vrid;
  priority = v.effective_priority;
  naddr = length v.vip % 2 ^ 8;
  third = v.adver_int / timer_centi_hz % 2 ^ 12;
  chksum = 0;
  body = concat v.vip;
}

-- vrrp->ipv4_csum
unfoldable pub ipv4_csum : Sender → Buffer → ℕ
ipv4_csum v b = if v.v3_checksum_as_v2 then 0 else add_words (ipv4_phdr v b) 0

unfoldable pub vrrp_build_vrrp_v3 : Sender → Buffer → Buffer
vrrp_build_vrrp_v3 v b =
    let n = v3_header v b in
    if v.family == af_inet then record n { chksum = in_csum (words n) (ipv4_csum v n) } else n

unfoldable pub vrrp_build_vrrp : Sender → Buffer → Buffer
vrrp_build_vrrp v b = if v.version == 3 then vrrp_build_vrrp_v3 v b else vrrp_build_vrrp_v2 v b

unfoldable pub vrrp_build_pkt : (Buffer → ℕ) → Sender → Sender
vrrp_build_pkt hmac_md5 v =
    if v.family == af_inet
    then (let b = vrrp_build_vrrp v (vrrp_build_ip4 v v.send_buffer) in
        record v {
          send_buffer = if v.auth_type == auth_ah then vrrp_build_ipsecah hmac_md5 b else b;
        })
    else if v.family == af_inet6
    then record v { send_buffer = vrrp_build_vrrp v v.send_buffer }
    else v

-- The priority, and with IPv4 the checksum after it.
unfoldable pub update_priority : ℕ → Sender → Buffer → Buffer
update_priority prio v b =
    if b.priority == prio
    then b
    else if v.family == af_inet
    then (let n = record b { priority = prio } in
        record n { chksum = csum_incremental_update16 b.chksum (second_word b) (second_word n) })
    else record b { priority = prio }

unfoldable pub update_daddr : Option ℕ → Sender → Buffer → Buffer
update_daddr none v b = b
update_daddr (some new_daddr) v b =
    if v.version == 2
    then record b { daddr = new_daddr }
    else if b.daddr == new_daddr
    then b
    else record b {
      chksum = csum_incremental_update32 b.chksum b.daddr new_daddr;
      daddr = new_daddr;
    }

unfoldable pub update_saddr : Sender → Buffer → Buffer
update_saddr v b =
    if v.saddr_from_config || b.saddr == v.saddr
    then b
    else if v.version == 2
    then record b { saddr = v.saddr }
    else record b { chksum = csum_incremental_update32 b.chksum b.saddr v.saddr; saddr = v.saddr }

-- vrrp->ip_id, an int of 32 bits that is taken to wrap.
unfoldable pub next_id : ℕ → ℕ
next_id n = if (n + 1) % 2 ^ 32 == 0 then 1 else (n + 1) % 2 ^ 32

unfoldable pub update_id : Option ℕ → Sender → Sender
update_id (some _) v = v
update_id none v = record v {
  ip_id = next_id v.ip_id;
  send_buffer = record v.send_buffer { ip_id = next_id v.ip_id % 2 ^ 16 };
}

-- The sequence number of IPsec AH, which stays once it has come to its end.
unfoldable pub update_seq : Option ℕ → Sender → Sender
update_seq (some _) v = v
update_seq none v =
    if ltb 4294967293 v.seq_number
    then record v { cycle = true; send_buffer = record v.send_buffer { seq_number = v.seq_number } }
    else record v {
      seq_number = v.seq_number + 1;
      send_buffer = record v.send_buffer { seq_number = v.seq_number + 1 };
    }

-- A call without an address is the last for the packet where there is one peer at most.
unfoldable pub is_final : Option ℕ → List ℕ → Bool
is_final (some _) peers = true
is_final none [] = true
is_final none (a ∷ []) = true
is_final none (a ∷ b ∷ r) = false

unfoldable pub update_ah : (Buffer → ℕ) → Option ℕ → Bool → Sender → Sender
update_ah hmac_md5 addr moved v =
    let b = v.send_buffer in
    let n =
      update_seq addr
        (record v { send_buffer = if moved then record b { spi = b.saddr } else b }) in
    if is_final addr v.unicast_peer
    then record n {
      send_buffer = record n.send_buffer {
        auth_data = hmac_md5 (record n.send_buffer { auth_data = 0 });
      };
    }
    else n

-- `new_saddr` is set where the source address has changed, of version 3.
unfoldable pub is_moved : Sender → Buffer → Bool
is_moved v b =
    not (v.saddr_from_config || b.saddr == v.saddr) && not (v.version == 2) && not (v.saddr == 0)

unfoldable pub vrrp_update_pkt : (Buffer → ℕ) → ℕ → Option ℕ → Sender → Sender
vrrp_update_pkt hmac_md5 prio addr v =
    let b = update_priority prio v v.send_buffer in
    if v.family == af_inet
    then (let n =
          update_id addr (record v { send_buffer = update_saddr v (update_daddr addr v b) }) in
        if v.auth_type == auth_ah then update_ah hmac_md5 addr (is_moved v b) n else n)
    else record v { send_buffer = b }

-- The packets to the peers, and the sender after them.
unfoldable pub send_to_peers : (Buffer → ℕ) → ℕ → List ℕ → Sender → List Buffer × Sender
send_to_peers hmac_md5 prio [] v = ([], v)
send_to_peers hmac_md5 prio (a ∷ r) v =
    let n = if v.family == af_inet then vrrp_update_pkt hmac_md5 prio (some a) v else v in
    let rest = send_to_peers hmac_md5 prio r n in (n.send_buffer ∷ rest.0, rest.1)

unfoldable pub send_all : (Buffer → ℕ) → ℕ → List ℕ → Sender → List Buffer × Sender
send_all hmac_md5 prio [] v = (v.send_buffer ∷ [], v)
send_all hmac_md5 prio (a ∷ r) v = send_to_peers hmac_md5 prio (a ∷ r) v

-- What vrrp_send_adv sends with an open socket: one packet to the group, or one to each peer.
unfoldable pub send_pkts : (Buffer → ℕ) → ℕ → Sender → List Buffer × Sender
send_pkts hmac_md5 prio v =
    let n = vrrp_update_pkt hmac_md5 prio none v in send_all hmac_md5 prio n.unicast_peer n
