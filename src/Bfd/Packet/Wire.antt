-- ===== src/Bfd/Packet/Wire.antt =====
-- What keepalived sends is accepted by keepalived, and tells the neighbour the session's state.
use keepalived.Common.{◌≤◌, ◌<◌, ◌^◌, ◌≡◌, ◌≢◌, ◌⊎◌, true, false, arith, if◌then◌else◌}
use keepalived.Bfd.ByteOrder.{ntohl-htonl, htonl_nonzero}
use keepalived.Bfd.Session.{Bfd, is_up, is_down}
use keepalived.Bfd.Packet.{bfd_check_packet, bfd_build_packet}
use keepalived.Bfd.Handle.{take_header}

-- The members of bfd_t that a packet carries have the widths of their types.
pub record HasWidths (b : Bfd) : Type 0 where
  pub diag : b.local_diag < 2 ^ 5
  pub discr : b.local_discr < 2 ^ 32
  pub peer : b.remote_discr < 2 ^ 32
  pub tx : b.local_min_tx_intv < 2 ^ 32
  pub idle : b.local_idle_tx_intv < 2 ^ 32
  pub rx : b.local_min_rx_intv < 2 ^ 32

-- A session that may send: it is configured, has a discriminator, and knows the neighbour's unless
-- it is Down.
pub record CanSend (b : Bfd) : Type 0 where
  pub mult : b.local_detect_mult ≢ 0
  pub discr : b.local_discr ≢ 0
  pub peer : (b.remote_discr ≢ 0) ⊎ (is_down b.local_state ≡ true)
  pub diag : b.local_diag ≤ 8
  pub widths : HasWidths b

-- A packet that is built by a session that may send, and whose members have the widths of their types,
-- passes the check.
pub bfd_check_packet-bfd_build_packet :
    (b : Bfd) → CanSend b → bfd_check_packet (bfd_build_packet b).0 ≡ false
unfolding bfd_check_packet bfd_build_packet
bfd_check_packet-bfd_build_packet b v =
    let mine = htonl_nonzero b.local_discr v.widths.discr v.discr in
    let yours = htonl_nonzero b.remote_discr v.widths.peer in ground arith

-- What a receiver knows after it took the header in.
pub record Knows (sender receiver : Bfd) : Type 0 where
  pub state : receiver.remote_state ≡ sender.local_state
  pub discr : receiver.remote_discr ≡ sender.local_discr
  pub diag : receiver.remote_diag ≡ sender.local_diag
  pub rx : receiver.remote_min_rx_intv ≡ sender.local_min_rx_intv
  pub tx :
      receiver.remote_min_tx_intv
      ≡ (if is_up sender.local_state then sender.local_min_tx_intv else sender.local_idle_tx_intv)
  pub mult : receiver.remote_detect_mult ≡ sender.local_detect_mult
  pub demand : receiver.remote_demand ≡ sender.local_demand
  pub poll : receiver.poll ≡ (if sender.final then false else receiver.poll)

-- The receiver of a packet, whose numbers are in network order, knows the sender's state and parameters;
-- its own poll is over if the packet answers it.
pub take_header-bfd_build_packet :
    (sender receiver : Bfd)
    → HasWidths sender
    → Knows sender (take_header (bfd_build_packet sender).0.hdr receiver)
unfolding take_header bfd_build_packet
take_header-bfd_build_packet sender receiver w =
    let discr = ntohl-htonl sender.local_discr w.discr in
    let tx = ntohl-htonl sender.local_min_tx_intv w.tx in
    let idle = ntohl-htonl sender.local_idle_tx_intv w.idle in
    let rx = ntohl-htonl sender.local_min_rx_intv w.rx in let diag = w.diag in ground arith
