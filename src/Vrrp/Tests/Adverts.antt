-- ===== src/Vrrp/Tests/Adverts.antt =====
-- keepalived/vrrp/vrrp.c: the adverts of an instance with two unicast peers.
use keepalived.Common.{◌≡◌, refl, false, true, [], ◌∷◌, map, All, inr, arith}
use keepalived.Sockaddr.{af_inet}
use keepalived.Vrrp.Advert.{Buffer, Sender, concat, vrrp_build_pkt, send_pkts}
use keepalived.Vrrp.Advert.Accepted.{IsReady}
use keepalived.Vrrp.Advert.Built.{tail_of, IsConfigured}
use keepalived.Vrrp.Advert.Sent.{recipients}
use keepalived.Vrrp.Advert.Chain.{Judged, send_pkts-vrrp_build_pkt}

abbrev zeroes : Buffer
zeroes = record {
  tot_len = 0;
  ip_id = 0;
  protocol_ah = false;
  saddr = 0;
  daddr = 0;
  spi = 0;
  seq_number = 0;
  auth_data = 0;
  version = 0;
  vrid = 0;
  priority = 0;
  naddr = 0;
  third = 0;
  chksum = 0;
  body = [];
}

-- 10.0.0.1, with the address 10.0.0.100 and the peers 10.0.0.2 and 10.0.0.3
abbrev sender : Sender
sender = record {
  family = af_inet;
  version = 3;
  vrid = 51;
  effective_priority = 100;
  vip = (2560 ∷ 100 ∷ []) ∷ [];
  auth_type = 0;
  auth_data = [];
  adver_int = 1000000;
  saddr = 167772161;
  saddr_from_config = true;
  mcast_daddr = 3758096402;
  unicast_peer = 167772162 ∷ 167772163 ∷ [];
  v3_checksum_as_v2 = false;
  ip_id = 0;
  seq_number = 0;
  cycle = false;
  send_buffer = zeroes;
}

configured : IsConfigured sender
unfolding concat
configured = record {
  family = refl;
  version = inr refl;
  priority = omega arith;
  vrid = omega arith;
  auth_type = omega arith;
  saddr = omega arith;
  mcast_daddr = omega arith;
  peers = (omega arith, (omega arith, tt));
  few = omega arith;
  covered = refl;
}

-- The priority 0 with which the instance stops.
send_pkts-vrrp_build_pkt_example :
    All (Judged sender 0) (send_pkts (λ b. 0) 0 (vrrp_build_pkt (λ b. 0) sender)).0
    × (map (λ (b : Buffer). b.daddr) (send_pkts (λ b. 0) 0 (vrrp_build_pkt (λ b. 0) sender)).0
        ≡ recipients (167772162 ∷ 167772163 ∷ []) sender.mcast_daddr)
    × IsReady (tail_of sender) (send_pkts (λ b. 0) 0 (vrrp_build_pkt (λ b. 0) sender)).1
send_pkts-vrrp_build_pkt_example =
    send_pkts-vrrp_build_pkt (λ b. 0) 0 sender configured (omega arith)
