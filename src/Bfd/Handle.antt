-- ===== src/Bfd/Handle.antt =====
-- keepalived/bfd/bfd_scheduler.c: `bfd_handle_packet`, in the order of the source. The logging
-- and the dump of the timers are left out.
pub mod Safety
pub mod Fsm
pub mod Detect
use keepalived.Common.{
  ℕ, ◌*◌, ◌%◌, ◌^◌, Bool, true, false, not, ◌&&◌, ◌||◌, ltb, ◌==◌, if◌then◌else◌, Option, none,
  some, ◌>>=◌, ◌>>◌, is_some, suc, ◌+◌,
}
use keepalived.Bfd.ByteOrder.{ntohl}
use keepalived.Bfd.Diag
use keepalived.Bfd.Session.{
  Bfd, Ctx, Header, Packet, State, is_up, is_down, is_init, is_admin_down, with_session,
}
use keepalived.Bfd.State.{
  bfd_update_local_tx_intv, bfd_update_remote_tx_intv, bfd_idle_local_tx_intv,
}
use keepalived.Bfd.Packet.{bfd_check_packet_ttl}
use keepalived.Bfd.Socket.{bfd_open_fd_out}
use keepalived.Bfd.Timers.{
  bfd_sender_scheduled, bfd_sender_schedule, bfd_sender_cancel, bfd_sender_reschedule,
  bfd_expire_scheduled, bfd_expire_reschedule, bfd_open_fd_out_scheduled, bfd_open_fd_out_cancel,
}
use keepalived.Bfd.Machine.{bfd_state_init, bfd_state_up, bfd_state_down}

-- What the packet says of the neighbour; a final bit ends the poll.
unfoldable pub take_header : Header → Bfd → Bfd
take_header h b = record b {
  remote_discr = ntohl h.local_discr;
  remote_state = h.state;
  remote_diag = h.diag;
  remote_min_rx_intv = ntohl h.min_rx_intv;
  remote_min_tx_intv = ntohl h.min_tx_intv;
  remote_demand = h.demand;
  remote_detect_mult = h.detect_mult;
  poll = if h.final then false else b.poll;
}

unfoldable pub update_intervals : Header → Bfd → Bfd
unfolding bfd_update_local_tx_intv bfd_idle_local_tx_intv bfd_update_remote_tx_intv
update_intervals h b =
    if is_up b.local_state && (h.poll || h.final) || not (is_up b.local_state)
    then bfd_update_remote_tx_intv (
        if is_up b.remote_state && (is_init b.local_state || is_up b.local_state)
        then bfd_update_local_tx_intv b
        else bfd_idle_local_tx_intv b)
    else b

-- The products are of a uint8_t and a uint32_t, so they are computed in 32 bits.
unfoldable pub update_detect_times : Bfd → Bfd
update_detect_times b = record b {
  local_detect_time = b.remote_detect_mult * b.remote_tx_intv % 2 ^ 32;
  remote_detect_time = b.local_detect_mult * b.local_tx_intv % 2 ^ 32;
}

-- The BFD state machine, on the local state that the packet met.
unfoldable pub run_machine : Ctx → Option Ctx
run_machine c =
    if is_admin_down c.s.remote_state && not (is_down c.s.local_state)
    then bfd_state_down c Diag.nbr_signalled_down
    else if is_down c.s.local_state
    then (if is_down c.s.remote_state
        then bfd_state_init c
        else if is_init c.s.remote_state
        then bfd_state_up c
        else some c)
    else if is_init c.s.local_state
    then (if is_init c.s.remote_state || is_up c.s.remote_state then bfd_state_up c else some c)
    else if is_up c.s.local_state
    then (if is_down c.s.remote_state then bfd_state_down c Diag.nbr_signalled_down else some c)
    else some c

abbrev pub demand_holds : Bfd → Bool
demand_holds b = b.remote_demand && is_up b.local_state && is_up b.remote_state

-- The sender stops while the neighbour is in demand mode and both ends are up, and runs otherwise.
unfoldable pub apply_demand : Ctx → Option Ctx
unfolding bfd_sender_scheduled bfd_sender_cancel
apply_demand c =
    if demand_holds c.s
    then (if bfd_sender_scheduled c.s
        then (do b ← bfd_sender_cancel c.s; some (with_session c b))
        else some c)
    else if not (bfd_sender_scheduled c.s)
    then bfd_sender_schedule c
    else some c

-- A poll is answered by a packet with the final bit, sent from the event list.
unfoldable pub answer_poll : Header → Ctx → Ctx
answer_poll h c =
    if h.poll then record c { s = record (c.s) { final = true }; queued = suc c.queued } else c

unfoldable pub mark_seen : Ctx → Option Ctx
unfolding bfd_expire_scheduled bfd_expire_reschedule
mark_seen c = do
  let b = record (c.s) { last_seen = c.now }
  b' ←
      if is_up b.local_state && bfd_expire_scheduled b
      then bfd_expire_reschedule c.now b
      else some b
  some (with_session c b')

-- The socket is open: its retry is cancelled.
unfoldable pub open_done : Ctx → Option (Bool × Ctx)
unfolding bfd_open_fd_out_scheduled bfd_open_fd_out_cancel
open_done d = do
  b ← if bfd_open_fd_out_scheduled d.s then bfd_open_fd_out_cancel d.s else some (d.s)
  d' ← bfd_state_init (with_session d b)
  some (true, d')

-- A session in AdminDown tries to open its socket, and starts from Init where that succeeds;
-- `false` where the packet is to be discarded.
unfoldable pub leave_admin_down : Ctx → Option (Bool × Ctx)
unfolding open_done
leave_admin_down c =
    if is_admin_down c.s.local_state
    then (do (closed, c₁) ← bfd_open_fd_out c; if closed then some (false, c₁) else open_done c₁)
    else some (true, c)

-- The sender runs sooner where its interval became shorter.
unfoldable pub hasten_sender : ℕ → Ctx → Option Ctx
unfolding bfd_sender_scheduled
hasten_sender old_tx c =
    if ltb c.s.local_tx_intv old_tx && bfd_sender_scheduled c.s
    then bfd_sender_reschedule c
    else some c

-- A packet that is not discarded, from the saving of the old timers on.
unfoldable pub process_packet : Header → Ctx → Option Ctx
unfolding take_header update_intervals update_detect_times
process_packet h c = do
  let b = update_detect_times (update_intervals h (take_header h c.s))
  c₁ ← hasten_sender c.s.local_tx_intv (with_session c b)
  c₂ ← run_machine c₁
  c₃ ← apply_demand c₂
  mark_seen (answer_poll h c₃)

-- The handler once the packet has passed its checks and its session is found.
unfoldable pub handle_session : Packet → Ctx → Option Ctx
unfolding bfd_check_packet_ttl
handle_session pkt c =
    if not (c.s.max_hops == 255) && bfd_check_packet_ttl pkt c.s
    then some c
    else if pkt.hdr.auth
    then some c
    else (do
      (opened, c') ← leave_admin_down c
      if opened then process_packet pkt.hdr c' else some c')
