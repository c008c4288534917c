-- ===== src/Vrrp/Advert/Sent.antt =====
-- keepalived/vrrp/vrrp.c: to whom vrrp_send_adv sends, with which priority, and under which checksum.
use keepalived.Common.{
  ℕ, ◌^◌, ◌<◌, Bool, ◌||◌, ltb, ◌==◌, ==_iff, ◌≡◌, refl, sym, ap, ◌∙◌, subst, if◌then◌else◌,
  if_true, if_false, if_both, Bool-cases, Option, none, some, List, [], ◌∷◌, map, All, inl, inr,
}
use keepalived.Sockaddr.{af_inet}
use keepalived.Vrrp.Packet.{auth_ah}
use keepalived.Vrrp.Advert.{
  Buffer, Sender, update_priority, update_daddr, update_saddr, update_id, update_seq, update_ah,
  is_final, vrrp_update_pkt, send_to_peers, send_all, send_pkts,
}
use keepalived.Vrrp.Advert.Valid.{IsValid, asked}
use keepalived.Vrrp.Advert.Accepted.{IsReady, vrrp_update_pkt-IsReady}

-- What the receiver is told, and what the sender goes on with.
record Told (b : Buffer) (v n : Sender) : Type 0 where
  priority : n.send_buffer.priority ≡ b.priority
  daddr : n.send_buffer.daddr ≡ b.daddr
  peers : n.unicast_peer ≡ v.unicast_peer
  family : n.family ≡ v.family
  version : n.version ≡ v.version

update_id-Told : (a : Option ℕ) (b : Buffer) (v n : Sender) → Told b v n → Told b v (update_id a n)
unfolding update_id
update_id-Told none b v n t = record {
  priority = t.priority;
  daddr = t.daddr;
  peers = t.peers;
  family = t.family;
  version = t.version;
}
update_id-Told (some a) b v n t = t

update_seq-Told :
    (a : Option ℕ) (b : Buffer) (v n : Sender) → Told b v n → Told b v (update_seq a n)
unfolding update_seq
update_seq-Told (some a) b v n t = t
update_seq-Told none b v n t =
    if_both (Told b v) (ltb 4294967293 n.seq_number) _ _
      (record {
        priority = t.priority;
        daddr = t.daddr;
        peers = t.peers;
        family = t.family;
        version = t.version;
      })
      (record {
        priority = t.priority;
        daddr = t.daddr;
        peers = t.peers;
        family = t.family;
        version = t.version;
      })

update_ah-Told :
    (hmac_md5 : Buffer → ℕ) (a : Option ℕ) (moved : Bool) (b : Buffer) (v n : Sender)
    → Told b v n
    → Told b v (update_ah hmac_md5 a moved n)
unfolding update_ah
update_ah-Told hmac_md5 a moved b v n t =
    let x = n.send_buffer in
    let w = record n { send_buffer = if moved then record x { spi = x.saddr } else x } in
    let h = update_seq-Told a b v w (
      if_both (λ (y : Buffer). Told b v (record n { send_buffer = y })) moved
        (record x { spi = x.saddr }) x
        (record {
          priority = t.priority;
          daddr = t.daddr;
          peers = t.peers;
          family = t.family;
          version = t.version;
        })
        t) in
    if_both (Told b v) (is_final a n.unicast_peer) _ (update_seq a w)
      (record {
        priority = h.priority;
        daddr = h.daddr;
        peers = h.peers;
        family = h.family;
        version = h.version;
      })
      h

priority-update_priority :
    (prio : ℕ) (v : Sender) (b : Buffer) → (update_priority prio v b).priority ≡ prio
unfolding update_priority
priority-update_priority prio v b = elim (Bool-cases (b.priority == prio)) [
  | inl e ↦ ap (λ (x : Buffer). x.priority) (if_true _ b _ e) ∙ (==_iff b.priority prio).0 e
  | inr e ↦
      ap (λ (x : Buffer). x.priority) (if_false _ b _ e)
      ∙ if_both (λ (x : Buffer). x.priority ≡ prio) (v.family == af_inet) _ _ refl refl
]

daddr-update_priority :
    (prio : ℕ) (v : Sender) (b : Buffer) → (update_priority prio v b).daddr ≡ b.daddr
unfolding update_priority
daddr-update_priority prio v b =
    if_both (λ (x : Buffer). x.daddr ≡ b.daddr) (b.priority == prio) b _ refl
      (if_both (λ (x : Buffer). x.daddr ≡ b.daddr) (v.family == af_inet) _ _ refl refl)

-- The destination that a call leaves.
unfoldable pub destination : Option ℕ → ℕ → ℕ
destination none d = d
destination (some a) d = a

told-update_daddr :
    (a : Option ℕ) (v : Sender) (b : Buffer)
    → ((update_daddr a v b).priority ≡ b.priority)
      × ((update_daddr a v b).daddr ≡ destination a b.daddr)
unfolding update_daddr destination
told-update_daddr none v b = (refl, refl)
told-update_daddr (some a) v b =
    if_both (λ (x : Buffer). (x.priority ≡ b.priority) × (x.daddr ≡ a)) (v.version == 2) _ _
      (refl, refl)
      (elim (Bool-cases (b.daddr == a)) [
        | inl e ↦
            subst (λ (x : Buffer). (x.priority ≡ b.priority) × (x.daddr ≡ a))
              (sym (if_true (b.daddr == a) b _ e)) (refl, (==_iff b.daddr a).0 e)
        | inr e ↦
            subst (λ (x : Buffer). (x.priority ≡ b.priority) × (x.daddr ≡ a))
              (sym (if_false (b.daddr == a) b _ e)) (refl, refl)
      ])

told-update_saddr :
    (v : Sender) (b : Buffer)
    → ((update_saddr v b).priority ≡ b.priority) × ((update_saddr v b).daddr ≡ b.daddr)
unfolding update_saddr
told-update_saddr v b =
    let Q = λ (x : Buffer). (x.priority ≡ b.priority) × (x.daddr ≡ b.daddr) in
    if_both Q (v.saddr_from_config || b.saddr == v.saddr) b _ (refl, refl)
      (if_both Q (v.version == 2) _ _ (refl, refl) (refl, refl))

pub vrrp_update_pkt_told :
    (hmac_md5 : Buffer → ℕ) (prio : ℕ) (a : Option ℕ) (v : Sender)
    → v.family ≡ af_inet
    → ((vrrp_update_pkt hmac_md5 prio a v).send_buffer.priority ≡ prio)
      × ((vrrp_update_pkt hmac_md5 prio a v).send_buffer.daddr ≡ destination a v.send_buffer.daddr)
      × ((vrrp_update_pkt hmac_md5 prio a v).unicast_peer ≡ v.unicast_peer)
      × ((vrrp_update_pkt hmac_md5 prio a v).version ≡ v.version)
unfolding vrrp_update_pkt
vrrp_update_pkt_told hmac_md5 prio a v i =
    let b = update_priority prio v v.send_buffer in
    let d = update_daddr a v b in
    let e = update_saddr v d in
    let w = record v { send_buffer = e } in
    let n = update_id a w in
    let t =
      update_id-Told a e v w
        (record { priority = refl; daddr = refl; peers = refl; family = refl; version = refl }) in
    let k =
      if_both (Told e v) (v.auth_type == auth_ah) _ n (update_ah-Told hmac_md5 a _ e v n t) t in
    let z = told-update_saddr v d in
    let y = told-update_daddr a v b in
    subst
      (λ (x : Sender).
        (x.send_buffer.priority ≡ prio)
        × (x.send_buffer.daddr ≡ destination a v.send_buffer.daddr)
        × (x.unicast_peer ≡ v.unicast_peer)
        × (x.version ≡ v.version))
      (sym (if_true (v.family == af_inet) _ _ ((==_iff v.family af_inet).1 i)))
      (
        k.priority ∙ z.0 ∙ y.0 ∙ priority-update_priority prio v v.send_buffer,
        k.daddr ∙ z.1 ∙ y.1 ∙ ap (destination a) (daddr-update_priority prio v v.send_buffer),
        k.peers,
        k.version,
      )

-- A packet of that priority whose checksum is right.
abbrev pub Right : ℕ → ℕ → ℕ → Buffer → Type 0
Right version tail prio b = IsValid version tail b × (b.priority ≡ prio)

module _ (version tail prio : ℕ) (hmac_md5 : Buffer → ℕ) (p : prio < 2 ^ 8) where
  send_to_peers-Right :
      (peers : List ℕ) (v : Sender)
      → v.version ≡ version
      → IsReady tail v
      → All (λ x. x < 2 ^ 32) peers
      → All (Right version tail prio) (send_to_peers hmac_md5 prio peers v).0
        × (map (λ (b : Buffer). b.daddr) (send_to_peers hmac_md5 prio peers v).0 ≡ peers)
        × IsReady tail (send_to_peers hmac_md5 prio peers v).1
  unfolding send_to_peers destination asked
  send_to_peers-Right [] v e r q = (tt, refl, r)
  send_to_peers-Right (a ∷ rest) v e r q =
      let n = vrrp_update_pkt hmac_md5 prio (some a) v in
      let t = vrrp_update_pkt_told hmac_md5 prio (some a) v r.family in
      let s = vrrp_update_pkt-IsReady tail hmac_md5 prio (some a) v p (q.0, tt) r in
      let h = send_to_peers-Right rest n (t.3 ∙ e) s q.1 in
      subst
        (λ (x : Sender).
          All (Right version tail prio) (x.send_buffer ∷ (send_to_peers hmac_md5 prio rest x).0)
          × (map (λ (b : Buffer). b.daddr) (x.send_buffer ∷ (send_to_peers hmac_md5 prio rest x).0)
              ≡ a ∷ rest)
          × IsReady tail (send_to_peers hmac_md5 prio rest x).1)
        (sym (if_true (v.family == af_inet) n v ((==_iff v.family af_inet).1 r.family)))
        (
          ((subst (λ y. IsValid y tail n.send_buffer) (t.3 ∙ e) s.valid, t.0), h.0),
          cons_both (t.1) h.1,
          h.2,
        )
    where
      cons_both : {x y : ℕ} {xs ys : List ℕ} → x ≡ y → xs ≡ ys → x ∷ xs ≡ y ∷ ys
      cons_both h k = cc

-- The peers, or else whom the packet was for.
unfoldable pub recipients : List ℕ → ℕ → List ℕ
recipients [] d = d ∷ []
recipients (a ∷ r) d = a ∷ r

module _ (version tail prio : ℕ) (hmac_md5 : Buffer → ℕ) (p : prio < 2 ^ 8) where
  send_all-Right :
      (peers : List ℕ) (v : Sender)
      → v.version ≡ version
      → IsReady tail v
      → v.send_buffer.priority ≡ prio
      → All (λ x. x < 2 ^ 32) peers
      → All (Right version tail prio) (send_all hmac_md5 prio peers v).0
        × (map (λ (b : Buffer). b.daddr) (send_all hmac_md5 prio peers v).0
            ≡ recipients peers v.send_buffer.daddr)
        × IsReady tail (send_all hmac_md5 prio peers v).1
  unfolding send_all recipients
  send_all-Right [] v e r k q =
      (((subst (λ y. IsValid y tail v.send_buffer) e r.valid, k), tt), refl, r)
  send_all-Right (a ∷ rest) v e r k q =
      send_to_peers-Right version tail prio hmac_md5 p (a ∷ rest) v e r q

-- A sender over IPv4 whose packet has a right checksum sends one packet to the group, or one to each of
-- its unicast peers in their order; each has the priority that is asked for and a right checksum (in
-- version 3 over the pseudo header with its own destination), and the packet stays right for the
-- next advert, although only what changes is looked at.
pub send_pkts-Right :
    (hmac_md5 : Buffer → ℕ) (tail prio : ℕ) (v : Sender)
    → prio < 2 ^ 8
    → All (λ x. x < 2 ^ 32) v.unicast_peer
    → IsReady tail v
    → All (Right v.version tail prio) (send_pkts hmac_md5 prio v).0
      × (map (λ (b : Buffer). b.daddr) (send_pkts hmac_md5 prio v).0
          ≡ recipients v.unicast_peer v.send_buffer.daddr)
      × IsReady tail (send_pkts hmac_md5 prio v).1
unfolding send_pkts destination asked
send_pkts-Right hmac_md5 tail prio v p q r =
    let n = vrrp_update_pkt hmac_md5 prio none v in
    let t = vrrp_update_pkt_told hmac_md5 prio none v r.family in
    let s = vrrp_update_pkt-IsReady tail hmac_md5 prio none v p tt r in
    let h =
      send_all-Right v.version tail prio hmac_md5 p n.unicast_peer n t.3 s t.0
        (subst (All (λ x. x < 2 ^ 32)) (sym t.2) q) in
    (
      h.0,
      h.1 ∙ ap (recipients n.unicast_peer) t.1 ∙ ap (λ x. recipients x v.send_buffer.daddr) t.2,
      h.2,
    )
