-- ===== src/Timer/Clock.antt =====
-- lib/timer.c: the clock that every timer reads. The readings of `clock_gettime` are arguments:
-- the monotonic clock, and the realtime clock before and after the reading of the monotonic one.
use keepalived.Common.{
  ℕ, ◌+◌, ◌-◌, ◌*◌, ◌/◌, ◌%◌, ◌≤◌, ◌<◌, ◌≡◌, ◌⊎◌, ◌↔◌, arith, ltb, ◌==◌, if◌then◌else◌,
}
use keepalived.Common.Int.{ℤ, pos, negsuc, pos_part, neg_part, ◌+ℤ◌, ◌-ℤ◌, sub_ℕ}
use keepalived.Timer.{Timeval, timer_hz}

abbrev pub nsec_per_sec : ℕ
nsec_per_sec = 1000000000

-- struct timespec
pub record Timespec : Type 0 where
  pub tv_sec : ℤ
  pub tv_nsec : ℕ

-- Division by 2 of a signed number, towards 0.
half : ℤ → ℤ
half (pos n) = pos (n / 2)
half (negsuc n) = sub_ℕ 0 ((n + 1) / 2)

-- The lowest bit.
low_bit : ℤ → ℕ
low_bit (pos n) = n % 2
low_bit (negsuc n) = (n + 1) % 2

mean_realtime : Timespec → Timespec → Timespec
unfolding half low_bit ◌+ℤ◌
mean_realtime realtime realtime_1 =
    let nsec = (realtime.tv_nsec + realtime_1.tv_nsec) / 2 in
    let sec = half (realtime.tv_sec +ℤ realtime_1.tv_sec) in
    if low_bit sec == low_bit realtime_1.tv_sec
    then record { tv_sec = sec; tv_nsec = nsec }
    else record { tv_sec = sec; tv_nsec = nsec + nsec_per_sec / 2 }

minus_mono : Timespec → Timespec → Timespec
unfolding ◌-ℤ◌
minus_mono realtime mono =
    if ltb realtime.tv_nsec mono.tv_nsec
    then record {
      tv_sec = realtime.tv_sec -ℤ pos 1 -ℤ mono.tv_sec;
      tv_nsec = realtime.tv_nsec + nsec_per_sec - mono.tv_nsec;
    }
    else record {
      tv_sec = realtime.tv_sec -ℤ mono.tv_sec;
      tv_nsec = realtime.tv_nsec - mono.tv_nsec;
    }

-- With TIME_T_ADD_OVERFLOWS undefined, as for the 64-bit time_t.
unfoldable pub set_mono_offset : Timespec → Timespec → Timespec → Timespec
unfolding mean_realtime minus_mono
set_mono_offset realtime mono realtime_1 = minus_mono (mean_realtime realtime realtime_1) mono

-- TIMESPEC_TO_TIMEVAL
timespec_to_timeval : Timespec → Timeval
timespec_to_timeval t = record { tv_sec = t.tv_sec; tv_usec = t.tv_nsec / 1000 }

-- The offset is set once, on the first call; `cur` is the reading of the monotonic clock.
unfoldable pub monotonic_gettimeofday : Timespec → Timespec → Timeval
unfolding timespec_to_timeval ◌+ℤ◌
monotonic_gettimeofday mono_offset cur =
    let sec = cur.tv_sec +ℤ mono_offset.tv_sec in
    let nsec = cur.tv_nsec + mono_offset.tv_nsec in
    if ltb nsec_per_sec nsec
    then timespec_to_timeval (record { tv_sec = sec +ℤ pos 1; tv_nsec = nsec - nsec_per_sec })
    else timespec_to_timeval (record { tv_sec = sec; tv_nsec = nsec })

-- Nanoseconds of a time, above 0 and below it.
abbrev pub nsecs : Timespec → ℕ
nsecs t = pos_part t.tv_sec * nsec_per_sec + t.tv_nsec

abbrev pub nsec_debt : Timespec → ℕ
nsec_debt t = neg_part t.tv_sec * nsec_per_sec

abbrev pub IsNormalNs : Timespec → Type 0
IsNormalNs t = t.tv_nsec < nsec_per_sec

mean_realtime_value :
    (r s : ℕ) (realtime realtime_1 : Timespec)
    → realtime.tv_sec ≡ pos r
    → realtime_1.tv_sec ≡ pos s
    → (s ≡ r) ⊎ (s ≡ r + 1)
    → let t = mean_realtime realtime realtime_1 in
      (nsecs t ≡ (nsecs realtime + nsecs realtime_1) / 2) × (nsec_debt t ≡ 0)
unfolding mean_realtime
mean_realtime_value r s realtime realtime_1 er es d = rw (er, es, mean_realtime) (ground arith)

minus_mono_value :
    (t mono : Timespec)
    → IsNormalNs mono
    → nsecs (minus_mono t mono) + nsecs mono + nsec_debt t
      ≡ nsecs t + nsec_debt mono + nsec_debt (minus_mono t mono)
unfolding minus_mono
minus_mono_value t mono n = ground arith

-- The offset is half the sum of the two realtime readings (rounded down) less the monotonic
-- reading, if the readings are at or after 0 seconds, the monotonic one is normal, and the later
-- realtime reading shows the same second or the next one.
pub set_mono_offset_mean :
    (r m s : ℕ) (realtime mono realtime_1 : Timespec)
    → realtime.tv_sec ≡ pos r
    → mono.tv_sec ≡ pos m
    → realtime_1.tv_sec ≡ pos s
    → IsNormalNs mono
    → (s ≡ r) ⊎ (s ≡ r + 1)
    → let o = set_mono_offset realtime mono realtime_1 in
      nsecs o + nsecs mono ≡ (nsecs realtime + nsecs realtime_1) / 2 + nsec_debt o
unfolding set_mono_offset
set_mono_offset_mean r m s realtime mono realtime_1 er em es n d =
    let (mean, no_debt) = mean_realtime_value r s realtime realtime_1 er es d in
    let taken = minus_mono_value (mean_realtime realtime realtime_1) mono n in ground arith

-- For a normal offset and a normal reading: the result is their sum in
-- whole microseconds, and its microseconds reach a whole second exactly when the nanoseconds add
-- up to one second.
pub monotonic_gettimeofday_value :
    (o cur : Timespec)
    → IsNormalNs o
    → IsNormalNs cur
    → let t = monotonic_gettimeofday o cur in
      ((pos_part t.tv_sec * nsec_per_sec
          + t.tv_usec * 1000
          + (cur.tv_nsec + o.tv_nsec) % 1000
          + nsec_debt o
          + nsec_debt cur
        ≡ nsecs o + nsecs cur + neg_part t.tv_sec * nsec_per_sec))
      × (t.tv_usec ≤ timer_hz)
      × ((t.tv_usec ≡ timer_hz) ↔ (cur.tv_nsec + o.tv_nsec ≡ nsec_per_sec))
unfolding monotonic_gettimeofday
monotonic_gettimeofday_value o cur n_o n_cur =
    (ground arith, ground arith, (λ h. ground arith, λ h. ground arith))
