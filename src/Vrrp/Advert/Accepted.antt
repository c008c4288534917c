-- ===== src/Vrrp/Advert/Accepted.antt =====
-- keepalived/vrrp/vrrp.c: what an instance sends over IPv4, and what the check of a receiver says of it.
use keepalived.Common.{
  ℕ, ◌+◌, ◌%◌, ◌^◌, ◌<◌, Bool, true, ltb, ◌==◌, ◌≡◌, if◌then◌else◌, if_both, Option, none, some,
  All,
}
use keepalived.Sockaddr.{af_inet}
use keepalived.Vrrp.Packet.{auth_ah}
use keepalived.Vrrp.Advert.{
  Buffer, Sender, update_priority, update_daddr, update_saddr, next_id, update_id, update_seq,
  update_ah, is_final, vrrp_update_pkt,
}
use keepalived.Vrrp.Advert.Valid.{
  IsValid, cover, asked, update_priority-IsValid, update_daddr-IsValid, update_saddr-IsValid,
}

-- A sender whose packet is right, over IPv4.
pub record IsReady (tail : ℕ) (v : Sender) : Type 0 where
  pub family : v.family ≡ af_inet
  pub valid : IsValid v.version tail v.send_buffer
  pub saddr : v.saddr < 2 ^ 32

with_buffer :
    (tail : ℕ) (b : Buffer) (v : Sender)
    → IsReady tail v
    → IsValid v.version tail b
    → IsReady tail (record v { send_buffer = b })
with_buffer tail b v r s = record { family = r.family; valid = s; saddr = r.saddr }

-- The identification and the AH header are not covered.
pub outer :
    (version tail id spi seq auth : ℕ) (b : Buffer)
    → IsValid version tail b
    → IsValid version tail (record b { ip_id = id; spi = spi; seq_number = seq; auth_data = auth })
unfolding cover
outer version tail id spi seq auth b s = record {
  full = s.full;
  chksum = s.chksum;
  priority = s.priority;
  naddr = s.naddr;
  small = s.small;
  saddr = s.saddr;
  daddr = s.daddr;
}

update_id-IsReady :
    (tail : ℕ) (a : Option ℕ) (v : Sender) → IsReady tail v → IsReady tail (update_id a v)
unfolding update_id
update_id-IsReady tail none v r =
    let b = v.send_buffer in
    record {
      family = r.family;
      valid =
          outer v.version tail (next_id v.ip_id % 2 ^ 16) b.spi b.seq_number b.auth_data b r.valid;
      saddr = r.saddr;
    }
update_id-IsReady tail (some a) v r = r

ah_field :
    (tail seq auth spi n : ℕ) (c : Bool) (v : Sender)
    → IsReady tail v
    → IsReady tail (record v {
      seq_number = n;
      cycle = c;
      send_buffer = record v.send_buffer { spi = spi; seq_number = seq; auth_data = auth };
    })
ah_field tail seq auth spi n c v r =
    let b = v.send_buffer in
    record {
      family = r.family;
      valid = outer v.version tail b.ip_id spi seq auth b r.valid;
      saddr = r.saddr;
    }

update_seq-IsReady :
    (tail : ℕ) (a : Option ℕ) (v : Sender) → IsReady tail v → IsReady tail (update_seq a v)
unfolding update_seq
update_seq-IsReady tail (some a) v r = r
update_seq-IsReady tail none v r =
    let b = v.send_buffer in
    if_both (IsReady tail) (ltb 4294967293 v.seq_number) _ _
      (ah_field tail v.seq_number b.auth_data b.spi v.seq_number true v r)
      (ah_field tail (v.seq_number + 1) b.auth_data b.spi (v.seq_number + 1) v.cycle v r)

update_ah-IsReady :
    (tail : ℕ) (hmac_md5 : Buffer → ℕ) (a : Option ℕ) (moved : Bool) (v : Sender)
    → IsReady tail v
    → IsReady tail (update_ah hmac_md5 a moved v)
unfolding update_ah
update_ah-IsReady tail hmac_md5 a moved v r =
    let b = v.send_buffer in
    let w = record v { send_buffer = if moved then record b { spi = b.saddr } else b } in
    let n = update_seq a w in
    let h = update_seq-IsReady tail a w (
      if_both (λ (x : Buffer). IsReady tail (record v { send_buffer = x })) moved
        (record b { spi = b.saddr }) b
        (ah_field tail b.seq_number b.auth_data b.saddr v.seq_number v.cycle v r) r) in
    if_both (IsReady tail) (is_final a v.unicast_peer) _ n
      (ah_field tail n.send_buffer.seq_number _ n.send_buffer.spi n.seq_number n.cycle n h) h

pub vrrp_update_pkt-IsReady :
    (tail : ℕ) (hmac_md5 : Buffer → ℕ) (prio : ℕ) (a : Option ℕ) (v : Sender)
    → prio < 2 ^ 8
    → All (λ x. x < 2 ^ 32) (asked a)
    → IsReady tail v
    → IsReady tail (vrrp_update_pkt hmac_md5 prio a v)
unfolding vrrp_update_pkt
vrrp_update_pkt-IsReady tail hmac_md5 prio a v p q r =
    let b = update_priority prio v v.send_buffer in
    let s = update_priority-IsValid tail v v.send_buffer r.valid prio r.family p in
    let d = update_daddr a v b in
    let e = update_saddr-IsValid tail v d (update_daddr-IsValid tail v b s a q) r.saddr in
    let n = update_id a (record v { send_buffer = update_saddr v d }) in
    let h =
      update_id-IsReady tail a (record v { send_buffer = update_saddr v d })
        (with_buffer tail (update_saddr v d) v r e) in
    if_both (IsReady tail) (v.family == af_inet) _ _
      (if_both (IsReady tail) (v.auth_type == auth_ah) _ n (update_ah-IsReady tail hmac_md5 a _ n h)
        h)
      (with_buffer tail b v r s)
