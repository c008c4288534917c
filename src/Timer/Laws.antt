-- ===== src/Timer/Laws.antt =====
-- Arithmetic of time values, in microseconds.
use keepalived.Common.{ℕ, ◌+◌, ◌*◌, ◌<◌, ◌≡◌, ◌≢◌, ◌↔◌, true, arith}
use keepalived.Common.Int.{pos_part, neg_part, ◌+ℤ◌, ◌-ℤ◌}
use keepalived.Timer.{
  Timeval, timer_hz, timer_never, ulong_mod, timer_add_long, timer_sub_long, timersub, timeradd,
  timer_lt, timer_long, timer_cmp_now_diff,
}

-- The microseconds are below one second.
abbrev pub IsNormal : Timeval → Type 0
IsNormal a = a.tv_usec < timer_hz

-- Microseconds since the epoch: those of the seconds above 0 and those of the seconds below it.
abbrev pub usecs : Timeval → ℕ
usecs a = pos_part a.tv_sec * timer_hz + a.tv_usec

abbrev pub debt : Timeval → ℕ
debt a = neg_part a.tv_sec * timer_hz

-- `a` lies `d` microseconds after `b`.
abbrev pub After : Timeval → ℕ → Timeval → Type 0
After a d b = usecs a + debt b ≡ usecs b + debt a + d

-- For a normal time and an interval other than TIMER_NEVER: the sum is normal, and lies the interval
-- after the time.
pub timer_add_long_value :
    (a : Timeval) (b : ℕ)
    → IsNormal a
    → b ≢ timer_never
    → IsNormal (timer_add_long a b) × After (timer_add_long a b) b a
unfolding timer_add_long ◌+ℤ◌
timer_add_long_value a b n h = ground arith

-- For a normal time: the difference is normal, and lies the interval before the time.
pub timer_sub_long_value :
    (a : Timeval) (b : ℕ)
    → IsNormal a
    → IsNormal (timer_sub_long a b) × After a b (timer_sub_long a b)
unfolding timer_sub_long ◌-ℤ◌
timer_sub_long_value a b n = ground arith

-- A time is known by its microseconds.
pub eq_of_usecs :
    (a b : Timeval) → IsNormal a → IsNormal b → usecs a + debt b ≡ usecs b + debt a → a ≡ b
eq_of_usecs a b na nb h = ground arith

-- For a normal time and an interval other than TIMER_NEVER, taking the interval off again restores
-- the time.
pub timer_sub_long-timer_add_long :
    (a : Timeval) (b : ℕ) → IsNormal a → b ≢ timer_never → timer_sub_long (timer_add_long a b) b ≡ a
timer_sub_long-timer_add_long a b n h =
    let (n', later) = timer_add_long_value a b n h in
    let (n'', earlier) = timer_sub_long_value (timer_add_long a b) b n' in
    eq_of_usecs _ a n'' n (omega arith)

pub timer_lt_iff :
    (a b : Timeval)
    → IsNormal a
    → IsNormal b
    → (timer_lt a b ≡ true) ↔ (usecs a + debt b < usecs b + debt a)
unfolding timer_lt
timer_lt_iff a b na nb = (λ h. ground arith, λ h. ground arith)

pub timersub_value :
    (a b : Timeval)
    → IsNormal a
    → IsNormal b
    → IsNormal (timersub a b)
      × (usecs (timersub a b) + usecs b + debt a ≡ usecs a + debt b + debt (timersub a b))
unfolding timersub ◌-ℤ◌
timersub_value a b na nb = ground arith

pub timeradd_value :
    (a b : Timeval)
    → IsNormal a
    → IsNormal b
    → IsNormal (timeradd a b)
      × (usecs (timeradd a b) + debt a + debt b ≡ usecs a + usecs b + debt (timeradd a b))
unfolding timeradd ◌+ℤ◌
timeradd_value a b na nb = ground arith

-- For normal times, the interval between them as an unsigned long, as long as it fits one.
pub timer_long-timersub :
    (a b : Timeval) (d : ℕ)
    → IsNormal a
    → IsNormal b
    → After a d b
    → d < ulong_mod
    → timer_long (timersub a b) ≡ d
unfolding timer_long timersub ◌-ℤ◌
timer_long-timersub a b d na nb h small = ground arith

-- For normal times, the test holds exactly when the time plus the interval is before now.
pub timer_cmp_now_diff_iff :
    (now a : Timeval) (d : ℕ)
    → IsNormal now
    → IsNormal a
    → (timer_cmp_now_diff now a d ≡ true) ↔ (usecs a + debt now + d < usecs now + debt a)
unfolding timer_cmp_now_diff ◌+ℤ◌
timer_cmp_now_diff_iff now a d nn na = (λ h. ground arith, λ h. ground arith)
