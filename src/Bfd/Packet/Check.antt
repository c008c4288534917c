-- ===== src/Bfd/Packet/Check.antt =====
-- Which control packets are accepted, and that the packets of keepalived are among them.
use keepalived.Common.{◌≤◌, ◌≡◌, ◌≢◌, ◌↔◌, ◌⊎◌, false, ◌&&◌, arith}
use keepalived.Bfd.Session.{Packet, State}
use keepalived.Bfd.Packet.{hdr_size, bfd_version_1, bfd_check_packet}

-- The rules of RFC 5880 section 6.8.6 that the process applies, and its two own.
pub record IsValid (p : Packet) : Type 0 where
  pub long_enough : hdr_size ≤ p.len
  pub length_agrees : p.hdr.len ≡ p.len
  pub version_known : p.hdr.version ≡ bfd_version_1
  pub mult_nonzero : p.hdr.detect_mult ≢ 0
  pub one_to_one : p.hdr.multipoint ≡ false
  pub my_discr_nonzero : p.hdr.local_discr ≢ 0
  pub your_discr :
      (p.hdr.remote_discr ≢ 0) ⊎ ((p.hdr.state ≡ State.down) ⊎ (p.hdr.state ≡ State.admin_down))
  pub no_poll_final : (p.hdr.poll && p.hdr.final) ≡ false
  pub diag_known : p.hdr.diag ≤ 8

check-IsValid : (p : Packet) (s : State) → p.hdr.state ≡ s → bfd_check_packet p ≡ false → IsValid p
unfolding bfd_check_packet
check-IsValid p State.down e h = ground arith
check-IsValid p _ e h = ground arith

IsValid-check : (p : Packet) (s : State) → p.hdr.state ≡ s → IsValid p → bfd_check_packet p ≡ false
unfolding bfd_check_packet
IsValid-check p State.down e v = ground arith
IsValid-check p _ e v = ground arith

-- A packet is accepted exactly when it obeys every rule.
pub bfd_check_packet_iff : (p : Packet) → (bfd_check_packet p ≡ false) ↔ IsValid p
bfd_check_packet_iff p = (check-IsValid p p.hdr.state refl', IsValid-check p p.hdr.state refl')
  where
    refl' : p.hdr.state ≡ p.hdr.state
    refl' = cc
