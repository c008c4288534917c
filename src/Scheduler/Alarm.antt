-- ===== src/Scheduler/Alarm.antt =====
-- lib/scheduler.c: the time that the timerfd is set to.
use keepalived.Common.{ℕ, ◌*◌, ◌^◌, ◌-◌, Bool, not, ◌&&◌, ◌||◌, ◌==◌, if◌then◌else◌, List, [], ◌∷◌}
use keepalived.Common.Int.{ℤ, pos, ltb_ℤ, ◌==ℤ◌}
use keepalived.Timer.{Timeval, timer_zero, timer_lt, timersub}
use keepalived.Scheduler.{Thread, Master, is_disabled}

unfoldable pub timerisset : Timeval → Bool
timerisset a = not ((a.tv_sec ==ℤ pos 0) && (a.tv_usec == 0))

unfoldable pub thread_update_timer : List Thread → Timeval → Timeval
thread_update_timer [] timer_min = timer_min
thread_update_timer (first ∷ _) timer_min =
    if is_disabled first
    then timer_min
    else if not (timerisset timer_min) || not (timer_lt timer_min first.sands)
    then first.sands
    else timer_min

-- The value returned, and the it_value that timerfd_settime is given.
pub record Alarm : Type 0 where
  pub earliest : Timeval
  pub tv_sec : ℤ
  pub tv_nsec : ℕ

unfoldable pub earliest_timer : Master → Timeval
earliest_timer m = thread_update_timer m.child (
    thread_update_timer m.read
      (thread_update_timer m.write (thread_update_timer m.timer timer_zero)))

-- How long there is to wait from now.
unfoldable pub timer_wait : Timeval → Timeval → Timeval
timer_wait now earliest =
    if timerisset earliest
    then (let wait = timersub earliest now in
        if ltb_ℤ wait.tv_sec (pos 0) then timer_zero else wait)
    else record { tv_sec = pos (2 ^ 63 - 1); tv_usec = 0 }

unfoldable pub thread_set_timer : Timeval → Master → Alarm
thread_set_timer now m =
    let earliest = earliest_timer m in
    let wait = timer_wait now earliest in
    record {
      earliest = earliest;
      tv_sec = wait.tv_sec;
      tv_nsec = if not (timerisset wait) then 1 else wait.tv_usec * 1000;
    }
