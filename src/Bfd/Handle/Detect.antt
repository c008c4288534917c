-- ===== src/Bfd/Handle/Detect.antt =====
-- The intervals that follow from a packet.
use keepalived.Common.{◌≤◌, ◌≡◌, true, false, not, ◌||◌, arith}
use keepalived.Bfd.ByteOrder.{ntohl}
use keepalived.Bfd.Session.{Bfd, Header, is_up}
use keepalived.Bfd.State.{larger}
use keepalived.Bfd.Handle.{update_intervals, take_header}

-- Outside Up, and on a poll or its answer, the intervals are negotiated: the neighbour is expected
-- no faster than the session wants, and the session sends no faster than the neighbour wants.
pub update_intervals_negotiated :
    (h : Header) (b : Bfd)
    → (not (is_up b.local_state) || (h.poll || h.final)) ≡ true
    → let d = update_intervals h (take_header h b) in
      (d.remote_tx_intv ≡ larger b.local_min_rx_intv (ntohl h.min_tx_intv))
      × (ntohl h.min_rx_intv ≤ d.local_tx_intv)
      × (is_up h.state ≡ false → b.local_idle_tx_intv ≤ d.local_tx_intv)
unfolding update_intervals take_header
update_intervals_negotiated h b due = ground arith
