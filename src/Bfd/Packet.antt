-- ===== src/Bfd/Packet.antt =====
-- keepalived/bfd/bfd.c: building and checking of control packets.
pub mod Check
pub mod Wire
use keepalived.Common.{
  ℕ, ◌+◌, ◌%◌, ◌^◌, Bool, true, false, not, ◌&&◌, ◌||◌, ltb, leb, ◌==◌, if◌then◌else◌,
}
use keepalived.Bfd.Session.{Bfd, Header, Packet, State, is_up, is_down, is_admin_down}
use keepalived.Bfd.ByteOrder.{htonl}
use keepalived.Bfd.Diag

-- sizeof (bfdhdr_t)
abbrev pub hdr_size : ℕ
hdr_size = 24

abbrev pub bfd_version_1 : ℕ
bfd_version_1 = 1

-- The session changes too: a poll gives way to a final.
unfoldable pub clear_poll : Bfd → Bfd
clear_poll b = if b.poll && b.final then record b { poll = false } else b

unfoldable pub build_header : Bfd → Header
build_header b = record {
  diag = b.local_diag % 2 ^ 5;
  version = bfd_version_1;
  multipoint = false;
  demand = b.local_demand;
  auth = false;
  cplane = false;
  final = b.final;
  poll = b.poll;
  state = b.local_state;
  detect_mult = b.local_detect_mult;
  len = hdr_size;
  local_discr = htonl b.local_discr;
  remote_discr = htonl b.remote_discr;
  min_tx_intv =
      if is_up b.local_state then htonl b.local_min_tx_intv else htonl b.local_idle_tx_intv;
  min_rx_intv = htonl b.local_min_rx_intv;
  min_echo_rx_intv = 0;
}

-- The source address and the TTL are those of the socket.
unfoldable pub bfd_build_packet : Bfd → Packet × Bfd
unfolding clear_poll build_header
bfd_build_packet b =
    let b' = clear_poll b in
    (
      record {
        hdr = build_header b';
        src_addr = b.src_addr;
        dst_addr = b.nbr_addr;
        ttl = b.ttl;
        len = hdr_size;
      },
      b',
    )

-- `true` where the packet is to be discarded.
unfoldable pub bfd_check_packet : Packet → Bool
bfd_check_packet pkt =
    let h = pkt.hdr in
    if ltb pkt.len hdr_size
    then true
    else if not (h.len == pkt.len)
    then true
    else if not (h.version == bfd_version_1)
    then true
    else if h.detect_mult == 0
    then true
    else if h.multipoint
    then true
    else if h.local_discr == 0
    then true
    else if h.remote_discr == 0 && not (is_down h.state) && not (is_admin_down h.state)
    then true
    else if h.poll && h.final
    then true
    else if not (leb h.diag Diag.last_valid)
    then true
    else false

unfoldable pub bfd_check_packet_ttl : Packet → Bfd → Bool
bfd_check_packet_ttl pkt b = not (pkt.ttl == 0) && ltb (b.max_hops + pkt.ttl) b.ttl
