-- ===== src/Bfd/Tests/Sessions.antt =====
-- Sessions at concrete values, for the tests.
use keepalived.Common.{ℕ, true, false, none, some, [], ◌∷◌}
use keepalived.Common.Int.{pos}
use keepalived.Timer.{Timeval, timer_never}
use keepalived.Bfd.Session.{Bfd, Ctx, Sockaddr, State, Thread, Net, bound}

abbrev pub instant : ℕ → Timeval
instant s = record { tv_sec = pos s; tv_usec = 0 }

abbrev pub timer_at : ℕ → Thread
timer_at s = record { sands = instant s; ready = false }

abbrev pub address : ℕ → Sockaddr
address a = record { ss_family = 2; addr = a }

-- A session that is up, with its detection timer due at second 105.
abbrev pub up_session : Bfd
up_session = record {
  iname = "one";
  nbr_addr = address 2;
  src_addr = address 1;
  local_min_rx_intv = 10000;
  local_min_tx_intv = 10000;
  local_idle_tx_intv = 1000000;
  local_detect_mult = 5;
  ttl = 255;
  max_hops = 0;
  passive = false;
  multihop = false;
  vrrp = true;
  checker = false;
  fd_out = some 7;
  thread_open_fd_out = none;
  thread_out = some (timer_at 101);
  sands_out = timer_never;
  thread_exp = some (timer_at 105);
  sands_exp = timer_never;
  thread_rst = none;
  sands_rst = timer_never;
  send_error = false;
  local_state = State.up;
  remote_state = State.up;
  local_discr = 1;
  remote_discr = 9;
  local_diag = 0;
  remote_diag = 0;
  remote_min_tx_intv = 10000;
  remote_min_rx_intv = 10000;
  local_demand = false;
  remote_demand = false;
  remote_detect_mult = 5;
  poll = false;
  final = false;
  local_tx_intv = 10000;
  remote_tx_intv = 10000;
  local_detect_time = 50000;
  remote_detect_time = 50000;
  last_seen = instant 100;
}

abbrev pub net_ok : Net
net_ok = record {
  socket = some 8;
  local_port_range = none;
  bind = λ _. bound;
  setsockopt = true;
  sendto = true;
}

abbrev pub around : Bfd → Ctx
around b = record {
  s = b;
  discrs = 3 ∷ [];
  now = instant 100;
  random = λ _. 5;
  net = net_ok;
  vrrp_running = true;
  checker_running = false;
  reload = false;
  wire = [];
  events = [];
  queued = 0;
}

abbrev pub up_ctx : Ctx
up_ctx = around up_session
