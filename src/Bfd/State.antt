-- ===== src/Bfd/State.antt =====
-- keepalived/bfd/bfd.c: transmit intervals, the poll flag, copying and resetting of the state.
use keepalived.Common.{ℕ, Bool, true, false, not, ltb, if◌then◌else◌, Option, some, ◌>>=◌}
use keepalived.Timer.{timer_zero}
use keepalived.Bfd.Session.{Bfd, Ctx, with_session, State}
use keepalived.Bfd.Diag
use keepalived.Bfd.Random.{bfd_get_random_discr}

-- a > b ? a : b
unfoldable pub larger : ℕ → ℕ → ℕ
larger a b = if ltb b a then a else b

unfoldable pub bfd_update_local_tx_intv : Bfd → Bfd
unfolding larger
bfd_update_local_tx_intv b = record b {
  local_tx_intv = larger b.local_min_tx_intv b.remote_min_rx_intv;
}

unfoldable pub bfd_update_remote_tx_intv : Bfd → Bfd
unfolding larger
bfd_update_remote_tx_intv b = record b {
  remote_tx_intv = larger b.local_min_rx_intv b.remote_min_tx_intv;
}

unfoldable pub bfd_idle_local_tx_intv : Bfd → Bfd
unfolding larger
bfd_idle_local_tx_intv b = record b {
  local_tx_intv = larger b.local_idle_tx_intv b.remote_min_rx_intv;
}

unfoldable pub bfd_set_poll : Bfd → Bfd
bfd_set_poll b = if not b.final then record b { poll = true } else b

-- bfd_copy_state with all_fields false
unfoldable pub copy_state_vars : Bfd → Bfd → Bfd
copy_state_vars b old = record b {
  local_state = old.local_state;
  remote_state = old.remote_state;
  remote_discr = old.remote_discr;
  remote_diag = old.remote_diag;
  local_demand = old.local_demand;
  remote_demand = old.remote_demand;
  poll = old.poll;
  final = old.final;
}

unfoldable pub bfd_copy_state : Bfd → Bfd → Bool → Bfd
unfolding copy_state_vars
bfd_copy_state b old all_fields =
    let c = copy_state_vars b old in
    if all_fields
    then record c {
      local_diag = old.local_diag;
      local_discr = old.local_discr;
      remote_min_tx_intv = old.remote_min_tx_intv;
      remote_min_rx_intv = old.remote_min_rx_intv;
      remote_detect_mult = old.remote_detect_mult;
      local_tx_intv = old.local_tx_intv;
      remote_tx_intv = old.remote_tx_intv;
      local_detect_time = old.local_detect_time;
      remote_detect_time = old.remote_detect_time;
      last_seen = old.last_seen;
    }
    else c

unfoldable pub bfd_copy_sands : Bfd → Bfd → Bfd
bfd_copy_sands b old = record b {
  sands_out = old.sands_out;
  sands_exp = old.sands_exp;
  sands_rst = old.sands_rst;
}

-- The constant bfd0: `bfd_copy_state` reads these fields of it alone, so the others are taken from
-- the session itself.
unfoldable pub bfd0 : Bfd → Bfd
bfd0 b = record b {
  local_state = State.down;
  remote_state = State.down;
  local_discr = 0;
  remote_discr = 0;
  local_diag = Diag.no_diag;
  remote_diag = Diag.no_diag;
  remote_min_tx_intv = 0;
  remote_min_rx_intv = 0;
  local_demand = false;
  remote_demand = false;
  remote_detect_mult = 0;
  poll = false;
  final = false;
  local_tx_intv = 0;
  remote_tx_intv = 0;
  local_detect_time = 0;
  remote_detect_time = 0;
  last_seen = timer_zero;
}

unfoldable pub bfd_init_state : Ctx → Option Ctx
unfolding bfd_copy_state bfd0
bfd_init_state c = do
  let b = bfd_copy_state c.s (bfd0 c.s) true
  (d, c') ← bfd_get_random_discr (with_session c b)
  some (with_session c' (record b { local_discr = d; local_tx_intv = b.local_idle_tx_intv }))

unfoldable pub bfd_reset_state : Bfd → Bfd
unfolding bfd_copy_state bfd0 bfd_idle_local_tx_intv
bfd_reset_state b = bfd_idle_local_tx_intv (bfd_copy_state b (bfd0 b) false)
