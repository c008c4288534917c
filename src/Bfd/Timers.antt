-- ===== src/Bfd/Timers.antt =====
-- keepalived/bfd/bfd_scheduler.c: the sender, expiry and reset timers of a session: scheduling,
-- cancelling, and suspending over a reload. `none` is a failed assertion.
pub mod Delay
use keepalived.Common.{
  ℕ, ◌+◌, ◌-◌, ◌/◌, ◌%◌, ◌^◌, Bool, true, false, not, ◌||◌, ltb, leb, ◌==◌, if◌then◌else◌, Option,
  none, some, ◌>>=◌, ◌>>◌, assert, is_some,
}
use keepalived.Common.Int.{ltb_ℤ, ◌==ℤ◌}
use keepalived.Timer.{
  Timeval, timer_never, timer_disabled, timer_add_long, timersub, timer_long, timer_hz,
}
use keepalived.Bfd.Session.{Bfd, Ctx, Thread, State, is_up, with_session}
use keepalived.Bfd.Random.{rand_intv, take_random}

-- thread_add_timer; with TIMER_NEVER the microseconds are left unset in the source.
unfoldable pub thread_add_timer : Timeval → ℕ → Thread
thread_add_timer now timer =
    if timer == timer_never
    then record { sands = record { tv_sec = timer_disabled; tv_usec = 0 }; ready = false }
    else record { sands = timer_add_long now timer; ready = false }

-- timer_thread_update_timeout leaves a timer that is ready to run alone.
unfoldable pub timer_thread_update_timeout : Timeval → Thread → ℕ → Thread
timer_thread_update_timeout now t timer =
    if t.ready then t else record t { sands = timer_add_long now timer }

abbrev pub is_past : Timeval → Timeval → Bool
is_past now sands =
    if ltb_ℤ sands.tv_sec now.tv_sec
    then true
    else if sands.tv_sec ==ℤ now.tv_sec
    then leb sands.tv_usec now.tv_usec
    else false

unfoldable pub thread_time_to_wakeup : Timeval → Thread → ℕ
thread_time_to_wakeup now t = if is_past now t.sands then 1 else timer_long (timersub t.sands now)

-- The jitter, and the next state of the random numbers.
unfoldable pub get_jitter : Ctx → ℕ × Ctx
unfolding take_random
get_jitter c =
    let min_jitter = if c.s.local_detect_mult == 0 then 0 else c.s.local_tx_intv / 10 in
    let (r, c') = take_random c in (rand_intv min_jitter (c.s.local_tx_intv / 4) r, c')

-- local_tx_intv less the jitter, as unsigned 32-bit numbers.
unfoldable pub tx_delay : Ctx → ℕ × Ctx
unfolding get_jitter
tx_delay c = let (j, c') = get_jitter c in ((c.s.local_tx_intv + 2 ^ 32 - j) % 2 ^ 32, c')

unfoldable pub bfd_sender_scheduled : Bfd → Bool
bfd_sender_scheduled b = is_some b.thread_out

unfoldable pub bfd_sender_schedule : Ctx → Option Ctx
unfolding tx_delay thread_add_timer
bfd_sender_schedule c = do
  assert (not (is_some c.s.thread_out))
  let (delay, c') = tx_delay c
  some (with_session c' (record (c.s) { thread_out = some (thread_add_timer c.now delay) }))

unfoldable pub bfd_sender_cancel : Bfd → Option Bfd
bfd_sender_cancel b = do assert (is_some b.thread_out); some (record b { thread_out = none })

unfoldable pub bfd_sender_reschedule : Ctx → Option Ctx
unfolding tx_delay timer_thread_update_timeout
bfd_sender_reschedule c = do
  t ← c.s.thread_out
  let (delay, c') = tx_delay c
  some (
      with_session c'
        (record (c.s) { thread_out = some (timer_thread_update_timeout c.now t delay) }))

unfoldable pub bfd_sender_suspend : Timeval → Bfd → Option Bfd
unfolding bfd_sender_cancel
bfd_sender_suspend now b = do
  t ← b.thread_out
  assert (b.sands_out == timer_never)
  bfd_sender_cancel (record b { sands_out = thread_time_to_wakeup now t })

unfoldable pub bfd_sender_resume : Timeval → Bfd → Option Bfd
unfolding thread_add_timer
bfd_sender_resume now b = do
  assert (not (is_some b.thread_out))
  assert (not (b.sands_out == timer_never))
  some (
      if not b.passive || is_up b.local_state
      then record b {
        thread_out = some (thread_add_timer now b.sands_out);
        sands_out = timer_never;
      }
      else record b { sands_out = timer_never })

unfoldable pub bfd_sender_suspended : Bfd → Bool
bfd_sender_suspended b = not (b.sands_out == timer_never)

unfoldable pub bfd_sender_discard : Bfd → Option Bfd
bfd_sender_discard b = do
  assert (not (b.sands_out == timer_never))
  some (record b { sands_out = timer_never })

unfoldable pub bfd_expire_scheduled : Bfd → Bool
bfd_expire_scheduled b = is_some b.thread_exp

unfoldable pub bfd_expire_schedule : Timeval → Bfd → Option Bfd
unfolding thread_add_timer
bfd_expire_schedule now b = do
  assert (not (is_some b.thread_exp))
  some (record b { thread_exp = some (thread_add_timer now b.local_detect_time) })

unfoldable pub bfd_expire_cancel : Bfd → Option Bfd
bfd_expire_cancel b = do assert (is_some b.thread_exp); some (record b { thread_exp = none })

unfoldable pub bfd_expire_reschedule : Timeval → Bfd → Option Bfd
unfolding timer_thread_update_timeout
bfd_expire_reschedule now b = do
  t ← b.thread_exp
  some (record b { thread_exp = some (timer_thread_update_timeout now t b.local_detect_time) })

unfoldable pub bfd_expire_suspend : Timeval → Bfd → Option Bfd
unfolding bfd_expire_cancel
bfd_expire_suspend now b = do
  t ← b.thread_exp
  assert (b.sands_exp == timer_never)
  bfd_expire_cancel (record b { sands_exp = thread_time_to_wakeup now t })

unfoldable pub bfd_expire_resume : Timeval → Bfd → Option Bfd
unfolding thread_add_timer
bfd_expire_resume now b = do
  assert (not (is_some b.thread_exp))
  assert (not (b.sands_exp == timer_never))
  some (record b { thread_exp = some (thread_add_timer now b.sands_exp); sands_exp = timer_never })

unfoldable pub bfd_expire_suspended : Bfd → Bool
bfd_expire_suspended b = not (b.sands_exp == timer_never)

unfoldable pub bfd_expire_discard : Bfd → Option Bfd
bfd_expire_discard b = do
  assert (not (b.sands_exp == timer_never))
  some (record b { sands_exp = timer_never })

unfoldable pub bfd_reset_scheduled : Bfd → Bool
bfd_reset_scheduled b = is_some b.thread_rst

unfoldable pub bfd_reset_schedule : Timeval → Bfd → Option Bfd
unfolding thread_add_timer
bfd_reset_schedule now b = do
  assert (not (is_some b.thread_rst))
  some (record b { thread_rst = some (thread_add_timer now b.local_detect_time) })

unfoldable pub bfd_reset_cancel : Bfd → Option Bfd
bfd_reset_cancel b = do assert (is_some b.thread_rst); some (record b { thread_rst = none })

unfoldable pub bfd_reset_suspend : Timeval → Bfd → Option Bfd
unfolding bfd_reset_cancel
bfd_reset_suspend now b = do
  t ← b.thread_rst
  assert (b.sands_rst == timer_never)
  bfd_reset_cancel (record b { sands_rst = thread_time_to_wakeup now t })

unfoldable pub bfd_reset_resume : Timeval → Bfd → Option Bfd
unfolding thread_add_timer
bfd_reset_resume now b = do
  assert (not (is_some b.thread_rst))
  assert (not (b.sands_rst == timer_never))
  some (record b { thread_rst = some (thread_add_timer now b.sands_rst); sands_rst = timer_never })

unfoldable pub bfd_reset_suspended : Bfd → Bool
bfd_reset_suspended b = not (b.sands_rst == timer_never)

unfoldable pub bfd_reset_discard : Bfd → Option Bfd
bfd_reset_discard b = do
  assert (not (b.sands_rst == timer_never))
  some (record b { sands_rst = timer_never })

unfoldable pub bfd_open_fd_out_scheduled : Bfd → Bool
bfd_open_fd_out_scheduled b = is_some b.thread_open_fd_out

unfoldable pub bfd_open_fd_out_cancel : Bfd → Option Bfd
bfd_open_fd_out_cancel b = do
  assert (is_some b.thread_open_fd_out)
  some (record b { thread_open_fd_out = none })
