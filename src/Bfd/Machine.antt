-- ===== src/Bfd/Machine.antt =====
-- keepalived/bfd/bfd_scheduler.c: the state change handlers, the handlers of the timers, and
-- keepalived/bfd/bfd_event.c: the events to the other processes.
pub mod Invariant
pub mod Demand
use keepalived.Common.{
  ℕ, ◌+◌, ◌*◌, Bool, true, false, not, ◌&&◌, ◌||◌, leb, ◌==◌, if◌then◌else◌, Option, none, some,
  ◌>>=◌, ◌>>◌, assert, is_some, List, [], ◌∷◌, ◌++◌,
}
use keepalived.Timer.{timer_hz, timer_never}
use keepalived.Bfd.Diag
use keepalived.Bfd.Session.{
  Bfd, Ctx, Thread, State, Pipe, Event, is_up, is_down, is_init, is_admin_down, with_session,
}
use keepalived.Bfd.Random.{bfd_get_random_discr}
use keepalived.Bfd.State.{bfd_idle_local_tx_intv, bfd_set_poll, bfd_reset_state}
use keepalived.Bfd.Packet.{bfd_build_packet}
use keepalived.Bfd.Socket.{bfd_open_fd_out}
use keepalived.Bfd.Timers.{
  thread_add_timer, bfd_sender_scheduled, bfd_sender_schedule, bfd_sender_cancel,
  bfd_expire_scheduled, bfd_expire_schedule, bfd_expire_cancel, bfd_reset_scheduled,
  bfd_reset_schedule, bfd_reset_cancel,
}

-- What the other processes are told: Up, or Down for every other state.
abbrev pub event_state : Bfd → State
event_state b = if is_up b.local_state then State.up else State.down

unfoldable pub events_of : Ctx → List Event
events_of c =
    (if c.vrrp_running && c.s.vrrp then event Pipe.vrrp_pipe ∷ [] else [])
    ++ (if c.checker_running && c.s.checker then event Pipe.checker_pipe ∷ [] else [])
  where
    event : Pipe → Event
    event p = record { pipe = p; iname = c.s.iname; state = event_state c.s; sent_time = c.now }

unfoldable pub bfd_event_send : Ctx → Ctx
unfolding events_of
bfd_event_send c = record c { events = c.events ++ events_of c }

unfoldable pub bfd_state_fall : Ctx → Bool → Option Ctx
unfolding bfd_idle_local_tx_intv bfd_expire_scheduled bfd_expire_cancel
bfd_state_fall c send_event = do
  let b = bfd_idle_local_tx_intv c.s
  b' ← if bfd_expire_scheduled b then bfd_expire_cancel b else some b
  let c' = with_session c b'
  some (if send_event && not (is_admin_down b'.remote_state) then bfd_event_send c' else c')

-- A session that leaves Up takes a new discriminator.
unfoldable pub renew_discr : Ctx → Option Ctx
renew_discr c =
    if is_up c.s.local_state
    then (do
      (d, c') ← bfd_get_random_discr c
      some (with_session c' (record (c'.s) { local_discr = d })))
    else some c

unfoldable pub bfd_state_down : Ctx → ℕ → Option Ctx
unfolding bfd_reset_schedule bfd_sender_scheduled bfd_sender_cancel
bfd_state_down c diag = do
  assert (leb diag Diag.last_valid)
  c₁ ← renew_discr c
  b ← bfd_reset_schedule c.now (record (c₁.s) { local_state = State.down; local_diag = diag })
  b' ← if b.passive && bfd_sender_scheduled b then bfd_sender_cancel b else some b
  bfd_state_fall (with_session c₁ b') (is_up c.s.local_state)

unfoldable pub bfd_state_admindown : Ctx → Option Ctx
unfolding bfd_sender_scheduled bfd_sender_cancel
bfd_state_admindown c = do
  let b = record (c.s) { local_state = State.admin_down; local_diag = Diag.admin_down }
  b' ← if bfd_sender_scheduled b then bfd_sender_cancel b else some b
  bfd_state_fall (with_session c b') false

unfoldable pub bfd_state_rise : Ctx → Option Ctx
unfolding bfd_reset_scheduled bfd_reset_cancel bfd_expire_scheduled bfd_expire_schedule
bfd_state_rise c = do
  let b = record (c.s) { local_diag = Diag.no_diag }
  b' ← if bfd_reset_scheduled b then bfd_reset_cancel b else some b
  b'' ← if not (bfd_expire_scheduled b') then bfd_expire_schedule c.now b' else some b'
  some (with_session c b'')

unfoldable pub bfd_state_up : Ctx → Option Ctx
unfolding bfd_set_poll
bfd_state_up c = do
  c' ← bfd_state_rise (with_session c (record (c.s) { local_state = State.up }))
  let b = c'.s
  let b' = if not (b.local_idle_tx_intv == b.local_min_tx_intv) then bfd_set_poll b else b
  some (bfd_event_send (with_session c' b'))

unfoldable pub bfd_state_init : Ctx → Option Ctx
unfolding bfd_sender_scheduled
bfd_state_init c = do
  assert (not (is_up c.s.local_state))
  c' ← bfd_state_rise (with_session c (record (c.s) { local_state = State.init }))
  if c'.s.passive && not (bfd_sender_scheduled c'.s) then bfd_sender_schedule c' else some c'

-- bfd_sender_thread, run by its timer (`true`) or as an event (`false`).
unfoldable pub bfd_sender_thread : Ctx → Bool → Option Ctx
unfolding bfd_build_packet
bfd_sender_thread c by_timer = do
  assert (not (is_admin_down c.s.local_state))
  let b = if by_timer then record (c.s) { thread_out = none } else c.s
  let (pkt, b') = bfd_build_packet b
  assert (is_some b'.fd_out)
  let b'' = record b' { send_error = not c.net.sendto; final = false }
  let c' = record c { s = b''; wire = if c.net.sendto then c.wire ++ pkt ∷ [] else c.wire }
  if by_timer then bfd_sender_schedule c' else some c'

unfoldable pub bfd_expire_thread : Ctx → Option Ctx
bfd_expire_thread c = do
  assert (is_up c.s.local_state || is_init c.s.local_state)
  bfd_state_down (with_session c (record (c.s) { thread_exp = none; remote_discr = 0 }))
      Diag.expired

unfoldable pub bfd_reset_thread : Ctx → Option Ctx
unfolding bfd_reset_state
bfd_reset_thread c = do
  assert (is_some c.s.thread_rst)
  some (with_session c (bfd_reset_state (record (c.s) { thread_rst = none })))

unfoldable pub bfd_open_fd_out_thread : Ctx → Option Ctx
bfd_open_fd_out_thread c =
    if is_some c.s.fd_out
    then some c
    else (do (closed, c') ← bfd_open_fd_out c; if closed then some (retry c') else restart c')
  where
    retry : Ctx → Ctx
    retry d =
        with_session d
          (record (d.s) { thread_open_fd_out = some (thread_add_timer d.now (60 * timer_hz)) })

    restart : Ctx → Option Ctx
    restart d =
        let d' =
          with_session d (record (d.s) { local_state = State.down; sands_out = timer_never }) in
        if not d'.s.passive then bfd_sender_schedule d' else some d'
