-- ===== src/Timer.antt =====
-- lib/timer.h and lib/timer.c: time values, intervals and the order of the timer trees.
-- Seconds are integers with no bound: the signed overflow of a 64-bit time_t is not modelled.
-- `timersub`, `timeradd` and `timercmp` of <sys/time.h> are written out.
pub mod Laws
pub mod Order
pub mod Clock
mod Tests
use keepalived.Common.{
  ℕ, ◌+◌, ◌-◌, ◌*◌, ◌/◌, ◌%◌, ◌^◌, Bool, true, false, ◌&&◌, ◌||◌, ltb, leb, ◌==◌, if◌then◌else◌,
}
use keepalived.Common.Int.{ℤ, pos, negsuc, ◌+ℤ◌, ◌-ℤ◌, ltb_ℤ, ◌==ℤ◌}

abbrev pub timer_hz : ℕ
timer_hz = 1000000

abbrev pub timer_centi_hz : ℕ
timer_centi_hz = 10000

abbrev pub ulong_mod : ℕ
ulong_mod = 2 ^ 64

-- ULONG_MAX
abbrev pub timer_never : ℕ
timer_never = 2 ^ 64 - 1

-- LONG_MIN
abbrev pub timer_disabled : ℤ
timer_disabled = negsuc (2 ^ 63 - 1)

pub record Timeval : Type 0 where
  pub tv_sec : ℤ
  pub tv_usec : ℕ

abbrev pub timer_zero : Timeval
timer_zero = record { tv_sec = pos 0; tv_usec = 0 }

unfoldable pub timer_add_long : Timeval → ℕ → Timeval
timer_add_long a b =
    if b == timer_never
    then record { tv_sec = timer_disabled; tv_usec = timer_hz - 1 }
    else (let usec = a.tv_usec + b % timer_hz in
        let sec = a.tv_sec +ℤ pos (b / timer_hz) in
        if leb timer_hz usec
        then record { tv_sec = sec +ℤ pos 1; tv_usec = usec - timer_hz }
        else record { tv_sec = sec; tv_usec = usec })

unfoldable pub timer_sub_long : Timeval → ℕ → Timeval
timer_sub_long a b =
    if ltb a.tv_usec (b % timer_hz)
    then record {
      tv_sec = a.tv_sec -ℤ pos 1 -ℤ pos (b / timer_hz);
      tv_usec = a.tv_usec + timer_hz - b % timer_hz;
    }
    else record { tv_sec = a.tv_sec -ℤ pos (b / timer_hz); tv_usec = a.tv_usec - b % timer_hz }

unfoldable pub timersub : Timeval → Timeval → Timeval
timersub a b =
    if ltb a.tv_usec b.tv_usec
    then record {
      tv_sec = a.tv_sec -ℤ b.tv_sec -ℤ pos 1;
      tv_usec = a.tv_usec + timer_hz - b.tv_usec;
    }
    else record { tv_sec = a.tv_sec -ℤ b.tv_sec; tv_usec = a.tv_usec - b.tv_usec }

unfoldable pub timeradd : Timeval → Timeval → Timeval
timeradd a b =
    let usec = a.tv_usec + b.tv_usec in
    if leb timer_hz usec
    then record { tv_sec = a.tv_sec +ℤ b.tv_sec +ℤ pos 1; tv_usec = usec - timer_hz }
    else record { tv_sec = a.tv_sec +ℤ b.tv_sec; tv_usec = usec }

-- timercmp(a, b, <)
unfoldable pub timer_lt : Timeval → Timeval → Bool
timer_lt a b = if a.tv_sec ==ℤ b.tv_sec then ltb a.tv_usec b.tv_usec else ltb_ℤ a.tv_sec b.tv_sec

-- The conversion of a signed 64-bit number to unsigned long.
unfoldable pub to_ulong : ℤ → ℕ
to_ulong (pos n) = n % ulong_mod
to_ulong (negsuc n) = ulong_mod - 1 - n % ulong_mod

unfoldable pub timer_long : Timeval → ℕ
unfolding to_ulong
timer_long a = (to_ulong a.tv_sec * timer_hz + a.tv_usec) % ulong_mod

-- `time_now` is the first argument of the next three.
unfoldable pub timer_sub_now : Timeval → Timeval → Timeval
timer_sub_now time_now a = timersub a time_now

unfoldable pub timer_add_now : Timeval → Timeval → Timeval
timer_add_now time_now a = timeradd time_now a

unfoldable pub timer_cmp_now_diff : Timeval → Timeval → ℕ → Bool
unfolding timeradd timer_lt
timer_cmp_now_diff time_now a diff_hz =
    timer_lt
      (timeradd (record { tv_sec = pos (diff_hz / timer_hz); tv_usec = diff_hz % timer_hz }) a)
      time_now

-- RB_TIMER_LESS: a timer that is disabled comes after every other.
unfoldable pub timer_less : Timeval → Timeval → Bool
timer_less a b =
    if a.tv_sec ==ℤ timer_disabled
    then false
    else if b.tv_sec ==ℤ timer_disabled
    then true
    else if a.tv_sec ==ℤ b.tv_sec
    then ltb a.tv_usec b.tv_usec
    else ltb_ℤ a.tv_sec b.tv_sec

-- RB_TIMER_CMP, as an integer; the conversion of the difference to int is not modelled.
unfoldable pub timer_cmp : Timeval → Timeval → ℤ
timer_cmp a b =
    if a.tv_sec ==ℤ timer_disabled
    then (if b.tv_sec ==ℤ timer_disabled then pos 0 else pos 1)
    else if b.tv_sec ==ℤ timer_disabled
    then negsuc 0
    else if a.tv_sec ==ℤ b.tv_sec
    then pos a.tv_usec -ℤ pos b.tv_usec
    else a.tv_sec -ℤ b.tv_sec
