-- ===== src/Vrrp/Tests/Packets.antt =====
-- The theorems on a concrete packet.
use keepalived.Common.{◌≡◌, refl, true, false, some, [], ◌∷◌}
use keepalived.Sockaddr.{af_inet}
use keepalived.Vrrp.Checksum.{in_csum, add_words, fold_carries}
use keepalived.Vrrp.Packet.{
  Verdict, Receiver, Packet, auth_none, vrrp_check_packet, is_length_ok, expected_len,
  expected_vrrp_pkt_len, is_max_ttl, is_ttl_ok, check_v2, check_rest, is_tot_len_ok, is_csum_ok,
  is_cast_ok, and_then,
}

abbrev receiver : Receiver
receiver = record {
  family = af_inet;
  version = 2;
  auth_type = auth_none;
  adver_int = 1000000;
  effective_priority = 150;
  owner_ignore_adverts = false;
  v3_checksum_as_v2 = false;
  unicast = false;
  check_unicast_src = false;
  unicast_peer = [];
  pkt_saddr = record { ss_family = af_inet; addr = 1 };
  rx_ttl_hl = some 255;
  multicast_pkt = false;
}

abbrev packet : Packet
packet = record {
  buflen = 40;
  ihl = 20;
  protocol_ah = false;
  tot_len = 40;
  daddr_multicast = true;
  version = 2;
  type = 1;
  naddr = 1;
  auth_type = auth_none;
  adver_int = 1;
  words = 8449 ∷ 25601 ∷ 1 ∷ 47698 ∷ 49320 ∷ 1 ∷ [];
  ipv4_phdr = [];
  passwd_matches = false;
  ah_next_vrrp = false;
  ah_matches = false;
}

accepted : vrrp_check_packet receiver packet ≡ Verdict.ok
unfolding vrrp_check_packet is_length_ok expected_len expected_vrrp_pkt_len is_ttl_ok is_max_ttl
    check_v2 check_rest is_tot_len_ok is_csum_ok in_csum add_words fold_carries is_cast_ok and_then
accepted = refl
