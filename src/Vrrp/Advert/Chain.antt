-- ===== src/Vrrp/Advert/Chain.antt =====
-- keepalived/vrrp/vrrp.c: from the packet that is built to those that are sent.
use keepalived.Common.{
  ℕ, ◌<◌, ◌^◌, ◌≡◌, refl, sym, ap, ◌∙◌, subst, if_both, ◌==◌, List, [], ◌∷◌, map, All, arith,
}
use keepalived.Sockaddr.{af_inet, af_inet6}
use keepalived.Vrrp.Checksum.{in_csum}
use keepalived.Vrrp.Advert.{
  Buffer, Sender, words, first_daddr, vrrp_build_ip4, vrrp_build_ipsecah, v2_header,
  vrrp_build_vrrp_v2, v3_header, vrrp_build_vrrp_v3, vrrp_build_vrrp, vrrp_build_pkt, send_pkts,
}
use keepalived.Vrrp.Advert.Accepted.{IsReady}
use keepalived.Vrrp.Advert.Built.{
  tail_of, start_of, in_csum-IsValid, IsConfigured, vrrp_build_pkt-IsReady,
}
use keepalived.Vrrp.Advert.Sent.{Right, recipients, send_pkts-Right}

-- What the building leaves of the sender.
built_same :
    (hmac_md5 : Buffer → ℕ) (v : Sender)
    → ((vrrp_build_pkt hmac_md5 v).version ≡ v.version)
      × ((vrrp_build_pkt hmac_md5 v).unicast_peer ≡ v.unicast_peer)
unfolding vrrp_build_pkt
built_same hmac_md5 v =
    let Q = λ (x : Sender). (x.version ≡ v.version) × (x.unicast_peer ≡ v.unicast_peer) in
    if_both Q (v.family == af_inet) _ _ (refl, refl)
      (if_both Q (v.family == af_inet6) _ v (refl, refl) (refl, refl))

-- Over IPv4 the packet that is built is for the first peer or for the group.
built_daddr :
    (hmac_md5 : Buffer → ℕ) (v : Sender)
    → v.family ≡ af_inet
    → (vrrp_build_pkt hmac_md5 v).send_buffer.daddr ≡ first_daddr v v.unicast_peer
unfolding vrrp_build_pkt vrrp_build_ipsecah vrrp_build_vrrp vrrp_build_vrrp_v2 vrrp_build_vrrp_v3
    v2_header v3_header vrrp_build_ip4
built_daddr hmac_md5 v f = ground arith

recipients_first :
    (v : Sender) (peers : List ℕ)
    → recipients peers (first_daddr v peers) ≡ recipients peers v.mcast_daddr
unfolding recipients first_daddr
recipients_first v [] = refl
recipients_first v (a ∷ r) = refl

-- A packet as a receiver judges it: its words have the checksum 0, those of the pseudo header of the
-- packet counted in version 3, and it has the priority.
unfoldable pub Judged : Sender → ℕ → Buffer → Type 0
Judged v prio b = (in_csum (words b) (start_of v b) ≡ 0) × (b.priority ≡ prio)

judge :
    (v : Sender) (prio : ℕ) (bs : List Buffer)
    → All (Right v.version (tail_of v) prio) bs
    → All (Judged v prio) bs
unfolding Judged
judge v prio [] a = tt
judge v prio (b ∷ r) a = ((in_csum-IsValid v b a.0.0, a.0.1), judge v prio r a.1)

-- An instance over IPv4, of either version, which is configured without v3_checksum_as_v2 and whose
-- addresses and password are so few that the sum of their words is below 2 ^ 28, builds its packet once;
-- then every advert that it sends, with any priority of 8 bits, goes to its multicast group or to each of
-- its unicast peers in their order, with that priority and a checksum that its receiver accepts, whatever
-- the HMAC is; and the packet stays ready for the next one.
pub send_pkts-vrrp_build_pkt :
    (hmac_md5 : Buffer → ℕ) (prio : ℕ) (v : Sender)
    → IsConfigured v
    → prio < 2 ^ 8
    → All (Judged v prio) (send_pkts hmac_md5 prio (vrrp_build_pkt hmac_md5 v)).0
      × (map (λ (b : Buffer). b.daddr) (send_pkts hmac_md5 prio (vrrp_build_pkt hmac_md5 v)).0
          ≡ recipients v.unicast_peer v.mcast_daddr)
      × IsReady (tail_of v) (send_pkts hmac_md5 prio (vrrp_build_pkt hmac_md5 v)).1
send_pkts-vrrp_build_pkt hmac_md5 prio v c p =
    let n = vrrp_build_pkt hmac_md5 v in
    let e = built_same hmac_md5 v in
    let h =
      send_pkts-Right hmac_md5 (tail_of v) prio n p
        (subst (All (λ x. x < 2 ^ 32)) (sym e.1) c.peers) (vrrp_build_pkt-IsReady hmac_md5 v c) in
    (
      judge v prio _
          (subst (λ x. All (Right x (tail_of v) prio) (send_pkts hmac_md5 prio n).0) e.0 h.0),
      h.1
          ∙ ap (λ x. recipients x n.send_buffer.daddr) e.1
          ∙ ap (recipients v.unicast_peer) (built_daddr hmac_md5 v c.family)
          ∙ recipients_first v v.unicast_peer,
      h.2,
    )
