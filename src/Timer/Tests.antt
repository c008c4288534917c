-- ===== src/Timer/Tests.antt =====
-- The theorems on times at concrete values.
use keepalived.Common.{ℕ, false, ◌≡◌, ◌≤◌, ◌↔◌, ◌+◌, ◌*◌, ◌/◌, ◌%◌, inr, refl, arith}
use keepalived.Common.Int.{pos, pos_part, neg_part}
use keepalived.Timer.{Timeval, timer_hz, timer_less}
use keepalived.Timer.Clock.{
  Timespec, set_mono_offset, monotonic_gettimeofday, nsecs, nsec_debt, nsec_per_sec,
  set_mono_offset_mean, monotonic_gettimeofday_value,
}

abbrev late : Timeval
late = record { tv_sec = pos 100; tv_usec = 700000 }

abbrev later : Timeval
later = record { tv_sec = pos 101; tv_usec = 200000 }

late_is_not_less : timer_less late late ≡ false
unfolding timer_less
late_is_not_less = refl

abbrev time : ℕ → ℕ → Timespec
time s n = record { tv_sec = pos s; tv_nsec = n }

-- The realtime readings lie on both sides of a full second.
set_mono_offset_mean_example :
    let o = set_mono_offset (time 100 999999000) (time 7 500000000) (time 101 3000) in
    nsecs o + nsecs (time 7 500000000)
    ≡ (nsecs (time 100 999999000) + nsecs (time 101 3000)) / 2 + nsec_debt o
set_mono_offset_mean_example =
    set_mono_offset_mean 100 7 101 (time 100 999999000) (time 7 500000000) (time 101 3000) refl refl
      refl (omega arith) (inr refl)

monotonic_gettimeofday_value_example :
    let t = monotonic_gettimeofday (time 93 400000000) (time 7 600000000) in
    ((pos_part t.tv_sec * nsec_per_sec
        + t.tv_usec * 1000
        + (600000000 + 400000000) % 1000
        + nsec_debt (time 93 400000000)
        + nsec_debt (time 7 600000000)
      ≡ nsecs (time 93 400000000) + nsecs (time 7 600000000) + neg_part t.tv_sec * nsec_per_sec))
    × (t.tv_usec ≤ timer_hz)
    × ((t.tv_usec ≡ timer_hz) ↔ (600000000 + 400000000 ≡ nsec_per_sec))
monotonic_gettimeofday_value_example =
    monotonic_gettimeofday_value (time 93 400000000) (time 7 600000000) (omega arith) (omega arith)

-- The result then has a million microseconds.
whole_second :
    monotonic_gettimeofday (time 93 400000000) (time 7 600000000)
    ≡ record { tv_sec = pos 100; tv_usec = 1000000 }
unfolding monotonic_gettimeofday
whole_second = refl
