-- ===== src/Bfd/Workers.antt =====
-- keepalived/bfd/bfd_scheduler.c and bfd_data.c: one session's part of the start of the process
-- and of a reload, in which the timers are suspended and the state is copied to the new session.
pub mod Reload
use Prim.Native.String.{String}
use keepalived.Common.{
  ℕ, suc, ◌*◌, Bool, true, false, not, ◌&&◌, ◌||◌, ◌==◌, if◌then◌else◌, Option, none, some, ◌>>=◌,
  ◌>>◌, is_some,
}
use keepalived.Timer.{Timeval, timer_hz}
use keepalived.Bfd.Session.{Bfd, Ctx, State, is_admin_down, with_session}
use keepalived.Bfd.State.{bfd_copy_state, bfd_copy_sands, bfd_set_poll}
use keepalived.Bfd.Socket.{bfd_open_fd_out}
use keepalived.Bfd.Timers.{
  thread_add_timer, bfd_sender_scheduled, bfd_sender_schedule, bfd_sender_suspend,
  bfd_sender_suspended, bfd_sender_resume, bfd_sender_discard, bfd_expire_scheduled,
  bfd_expire_suspend, bfd_expire_suspended, bfd_expire_resume, bfd_expire_discard,
  bfd_reset_scheduled, bfd_reset_suspend, bfd_reset_suspended, bfd_reset_resume, bfd_reset_discard,
  bfd_open_fd_out_scheduled, bfd_open_fd_out_cancel,
}
use keepalived.Bfd.Machine.{bfd_state_admindown, bfd_event_send}

unfoldable pub bfd_cmp_timers : Bfd → Bfd → Bool
bfd_cmp_timers old b =
    not (old.local_min_rx_intv == b.local_min_rx_intv)
    || not (old.local_min_tx_intv == b.local_min_tx_intv)

-- bfd_complete_init, for a session that the old configuration has too.
unfoldable pub inherit : Bfd → Bfd → Bfd
unfolding bfd_copy_state bfd_copy_sands bfd_cmp_timers bfd_set_poll
inherit old b =
    let c = bfd_copy_sands (bfd_copy_state b old true) old in
    if bfd_cmp_timers old c then bfd_set_poll c else c

-- bfd_open_fds
unfoldable pub open_session : Ctx → Option Ctx
open_session c = do
  (closed, c') ← bfd_open_fd_out c
  if closed then bfd_state_admindown c' else some c'

unfoldable pub register_sender : Ctx → Option Ctx
unfolding bfd_sender_suspended bfd_sender_discard bfd_sender_resume
register_sender c =
    if bfd_sender_suspended c.s
    then (do
      b ←
          if is_admin_down c.s.local_state
          then bfd_sender_discard c.s
          else bfd_sender_resume c.now c.s
      some (with_session c b))
    else if not (is_admin_down c.s.local_state) && not c.s.passive
    then bfd_sender_schedule c
    else some c

unfoldable pub register_expire : Timeval → Bfd → Option Bfd
unfolding bfd_expire_suspended bfd_expire_discard bfd_expire_resume
register_expire now b =
    if bfd_expire_suspended b
    then (if is_admin_down b.local_state then bfd_expire_discard b else bfd_expire_resume now b)
    else some b

unfoldable pub register_reset : Timeval → Bfd → Option Bfd
unfolding bfd_reset_suspended bfd_reset_discard bfd_reset_resume
register_reset now b =
    if bfd_reset_suspended b
    then (if is_admin_down b.local_state then bfd_reset_discard b else bfd_reset_resume now b)
    else some b

-- The end of the loop body: the event, the retry of the socket, and the first packet.
unfoldable pub register_rest : Ctx → Ctx
unfolding bfd_event_send
register_rest c =
    let d = bfd_event_send c in
    let e =
      if is_admin_down d.s.local_state && not (is_some d.s.fd_out)
      then with_session d
          (record (d.s) { thread_open_fd_out = some (thread_add_timer d.now (60 * timer_hz)) })
      else d in
    if not e.reload && not e.s.passive && not (is_admin_down e.s.local_state)
    then record e { queued = suc e.queued }
    else e

-- The body of the loop of bfd_register_workers.
unfoldable pub register_session : Ctx → Option Ctx
register_session c = do
  c' ← register_sender c
  b ← register_expire c'.now c'.s
  b' ← register_reset c'.now b
  some (register_rest (with_session c' b'))

-- The body of the loop of bfd_dispatcher_release.
unfoldable pub release_session : Timeval → Bfd → Option Bfd
unfolding bfd_sender_scheduled bfd_sender_suspend bfd_expire_scheduled bfd_expire_suspend
    bfd_reset_scheduled bfd_reset_suspend bfd_open_fd_out_scheduled bfd_open_fd_out_cancel
release_session now b = do
  b₁ ← if bfd_sender_scheduled b then bfd_sender_suspend now b else some b
  b₂ ← if bfd_expire_scheduled b₁ then bfd_expire_suspend now b₁ else some b₁
  b₃ ← if bfd_reset_scheduled b₂ then bfd_reset_suspend now b₂ else some b₂
  b₄ ← if bfd_open_fd_out_scheduled b₃ then bfd_open_fd_out_cancel b₃ else some b₃
  some (record b₄ { fd_out = none })
