-- ===== src/Bfd/Tests.antt =====
-- Sessions at concrete values: the theorems of the folder applied to them, and runs of the code.
mod Sessions
use keepalived.Common.{
  ℕ, zero, suc, ◌*◌, ◌^◌, ◌≤◌, ◌<◌, ◌≡◌, ◌≢◌, ◌↔◌, refl, inl, true, false, none, some, [], ◌∷◌,
  arith, Succeeds, All, ◌>>=◌,
}
use keepalived.Common.Int.{pos, ◌-ℤ◌}
use keepalived.Timer.{Timeval, timer_never, timer_add_long, timersub, timer_long}
use keepalived.Bfd.ByteOrder.{htonl, ntohl}
use keepalived.Bfd.Session.{Bfd, Ctx, Header, Packet, Sockaddr, State, Thread, Net, bound, is_up}
use keepalived.Bfd.Tests.Sessions.{instant, timer_at, up_session, around, up_ctx}
use keepalived.Bfd.Random.{try_discr, tries, bfd_get_random_discr, rand_intv}
use keepalived.Bfd.Random.Bounds.{rand_intv_bounds}
use keepalived.Bfd.Random.Fresh.{FreeWithin, bfd_get_random_discr_fresh}
use keepalived.Bfd.State.{larger}
use keepalived.Bfd.Packet.{bfd_check_packet, bfd_build_packet}
use keepalived.Bfd.Packet.Check.{IsValid, bfd_check_packet_iff}
use keepalived.Bfd.Packet.Wire.{
  HasWidths, CanSend, Knows, bfd_check_packet-bfd_build_packet, take_header-bfd_build_packet,
}
use keepalived.Bfd.Timers.{thread_time_to_wakeup, tx_delay, bfd_expire_suspend, bfd_expire_resume}
use keepalived.Bfd.Timers.Delay.{tx_delay_bounds, bfd_expire_resume-bfd_expire_suspend}
use keepalived.Bfd.Socket.{bfd_open_fd_out, open_socket, bind_out}
use keepalived.Bfd.Machine.{bfd_expire_thread, bfd_open_fd_out_thread}
use keepalived.Bfd.Machine.Invariant.{IsRunning, LuckyFor, later, Runs}
use keepalived.Bfd.Machine.Demand.{
  IsSilent, IsStale, bfd_expire_thread-IsSilent, bfd_open_fd_out_thread-IsStale,
}
use keepalived.Bfd.Handle.{take_header, update_intervals, update_detect_times, run_machine}
use keepalived.Bfd.Handle.Fsm.{Follows, run_machine-Follows}
use keepalived.Bfd.Handle.Detect.{update_intervals_negotiated}
use keepalived.Bfd.Workers.Reload.{AllWake, reload_session, reload_session-IsRunning}
use keepalived.Bfd.System.{expire_due, run_happening, here, Reach-run_happening}

up-IsRunning : IsRunning up_session
up-IsRunning = record {
  exp = refl;
  rst = refl;
  out = refl;
  fd = refl;
  awake_out = refl;
  awake_exp = refl;
  awake_rst = refl;
  diag = omega arith;
}

later-const : (n k : ℕ) → later n (λ _. 5) k ≡ 5
later-const zero k = refl
later-const (suc n) k = later-const n k

-- The number 5 gives the discriminator 10, which nobody uses.
five_is_free : try_discr (1 ∷ 3 ∷ []) (instant 100) 5 ≡ 10
unfolding try_discr
five_is_free = refl

up-IsLucky : LuckyFor (1 ∷ 3 ∷ []) (instant 100) (λ _. 5)
unfolding tries
up-IsLucky start = (0, omega arith, λ e. omega (arith, five_is_free, rw (later-const start 0) at e))

up-FreeWithin : FreeWithin tries (1 ∷ 3 ∷ []) (instant 100) (λ _. 5)
unfolding tries
up-FreeWithin = (0, omega arith, λ e. omega (arith, five_is_free))

Reach-run_happening_example : Runs (run_happening expire_due up_ctx)
Reach-run_happening_example =
    Reach-run_happening {c = up_ctx} {d = up_ctx} expire_due up-IsRunning here up-IsLucky refl

run_machine-Follows_example : Succeeds (run_machine up_ctx) (Follows State.up State.up up_ctx)
run_machine-Follows_example = run_machine-Follows up_ctx up-IsRunning up-IsLucky refl

bfd_get_random_discr_fresh_example :
    (d : ℕ) × (rest : ℕ → ℕ) × (bfd_get_random_discr up_ctx
      ≡ some (d, record up_ctx { random = rest }))
    × (d ≢ 0)
    × (d ≢ 1)
    × All (λ x. x ≢ d) (3 ∷ [])
bfd_get_random_discr_fresh_example = bfd_get_random_discr_fresh up_ctx up-FreeWithin

up-HasWidths : HasWidths up_session
up-HasWidths = record {
  diag = omega arith;
  discr = omega arith;
  peer = omega arith;
  tx = omega arith;
  idle = omega arith;
  rx = omega arith;
}

up-CanSend : CanSend up_session
up-CanSend = record {
  mult = omega arith;
  discr = omega arith;
  peer = inl (omega arith);
  diag = omega arith;
  widths = up-HasWidths;
}

abbrev up_packet : Packet
up_packet = (bfd_build_packet up_session).0

bfd_check_packet-bfd_build_packet_example : bfd_check_packet up_packet ≡ false
bfd_check_packet-bfd_build_packet_example = bfd_check_packet-bfd_build_packet up_session up-CanSend

bfd_check_packet_iff_example : (bfd_check_packet up_packet ≡ false) ↔ IsValid up_packet
bfd_check_packet_iff_example = bfd_check_packet_iff up_packet

take_header-bfd_build_packet_example : Knows up_session (take_header up_packet.hdr up_session)
take_header-bfd_build_packet_example =
    take_header-bfd_build_packet up_session up_session up-HasWidths

tx_delay_bounds_example : (7500 ≤ (tx_delay up_ctx).0) × ((tx_delay up_ctx).0 ≤ 9000)
tx_delay_bounds_example = tx_delay_bounds up_ctx (omega arith) (omega arith) (omega arith)

bfd_expire_resume-bfd_expire_suspend_example :
    Succeeds (bfd_expire_suspend (instant 100) up_session >>= bfd_expire_resume (instant 200)) (λ r.
      (r.thread_exp ≡ some (record { sands = timer_add_long (instant 200) 5000000; ready = false }))
      × (r.sands_exp ≡ timer_never))
bfd_expire_resume-bfd_expire_suspend_example =
    bfd_expire_resume-bfd_expire_suspend (instant 100) (instant 200) up_session (timer_at 105)
      5000000 refl refl (omega arith) (omega arith) refl (omega arith) (omega arith)

abbrev slow_session : Bfd
slow_session = record up_session { remote_detect_mult = 255; remote_tx_intv = 60000000 }

-- 255 intervals of a minute become less than 43 minutes.
slow_session_time : (update_detect_times slow_session).local_detect_time ≡ 2415098112
unfolding update_detect_times
slow_session_time = refl

abbrev polling : Header
polling = record {
  diag = 0;
  version = 1;
  multipoint = false;
  demand = false;
  auth = false;
  cplane = false;
  final = false;
  poll = true;
  state = State.up;
  detect_mult = 3;
  len = 24;
  local_discr = htonl 9;
  remote_discr = htonl 1;
  min_tx_intv = htonl 50000;
  min_rx_intv = htonl 20000;
  min_echo_rx_intv = 0;
}

update_intervals_negotiated_example :
    let d = update_intervals polling (take_header polling up_session) in
    (d.remote_tx_intv ≡ larger 10000 (ntohl (htonl 50000)))
    × (ntohl (htonl 20000) ≤ d.local_tx_intv)
    × (is_up State.up ≡ false → 1000000 ≤ d.local_tx_intv)
update_intervals_negotiated_example = update_intervals_negotiated polling up_session refl

abbrev demand_ctx : Ctx
demand_ctx = around (record up_session { thread_out = none; remote_demand = true })

demand-IsRunning : IsRunning demand_ctx.s
demand-IsRunning = record {
  exp = refl;
  rst = refl;
  out = refl;
  fd = refl;
  awake_out = refl;
  awake_exp = refl;
  awake_rst = refl;
  diag = omega arith;
}

bfd_expire_thread-IsSilent_example : Succeeds (bfd_expire_thread demand_ctx) (λ d. IsSilent d.s)
bfd_expire_thread-IsSilent_example =
    bfd_expire_thread-IsSilent demand_ctx demand-IsRunning up-IsLucky refl refl refl

-- Taken down since its socket could not be opened; the retry is due.
abbrev down_session : Bfd
down_session = record up_session {
  local_state = State.admin_down;
  fd_out = none;
  thread_out = none;
  thread_exp = none;
  thread_open_fd_out = some (timer_at 100);
  src_addr = record { ss_family = 0; addr = 0 };
}

down-IsRunning : IsRunning down_session
down-IsRunning = record {
  exp = refl;
  rst = refl;
  out = refl;
  fd = refl;
  awake_out = refl;
  awake_exp = refl;
  awake_rst = refl;
  diag = omega arith;
}

down_opens :
    bfd_open_fd_out (around down_session)
    ≡ some (false, around (record down_session { fd_out = some 8 }))
unfolding bfd_open_fd_out open_socket bind_out
down_opens = refl

abbrev new_session : Bfd
new_session = record up_session {
  fd_out = none;
  thread_out = none;
  thread_exp = none;
  local_min_rx_intv = 20000;
}

-- The timers of the session that is up are due after 1 and after 5 seconds.
up-AllWake : AllWake (instant 100) up_session
unfolding thread_time_to_wakeup timersub timer_long ◌-ℤ◌
up-AllWake = record { wake_out = λ e. omega arith; wake_exp = λ e. omega arith; wake_rst = tt }

reload_session-IsRunning_example :
    Succeeds (reload_session (instant 100) up_session new_session up_ctx 8) (λ d. IsRunning d.s)
reload_session-IsRunning_example =
    reload_session-IsRunning (instant 100) up_session new_session up_ctx 8 up-IsRunning refl
      up-AllWake (record { out = refl; exp = refl; rst = refl; open_fd = refl; fd = refl })
