-- ===== src/Bfd/Timers/Delay.antt =====
-- How long the sender waits, and how suspended timers come back.
use keepalived.Common.{
  ℕ, ◌-◌, ◌/◌, ◌^◌, ◌≤◌, ◌<◌, ◌≡◌, ◌≢◌, false, ◌==◌, none, some, arith, Succeeds, Succeeds->>=,
  ◌>>=◌,
}
use keepalived.Timer.{Timeval, timer_never, ulong_mod, timer_add_long}
use keepalived.Timer.Laws.{IsNormal, After, timer_long-timersub}
use keepalived.Bfd.Session.{Bfd, Ctx, Thread}
use keepalived.Bfd.Random.Bounds.{rand_intv_bounds}
use keepalived.Bfd.Timers.{
  tx_delay, get_jitter, thread_time_to_wakeup, is_past, bfd_expire_suspend, bfd_expire_resume,
}

jitter_bounds :
    (c : Ctx)
    → c.s.local_tx_intv < 2 ^ 32
    → c.random 0 < 2 ^ 31
    → c.s.local_detect_mult ≢ 0
    → (c.s.local_tx_intv / 10 ≤ (get_jitter c).0) × ((get_jitter c).0 ≤ c.s.local_tx_intv / 4)
unfolding get_jitter
jitter_bounds c small r mult =
    let e : (c.s.local_detect_mult == 0) ≡ false = ground arith in
    rw e (
      rand_intv_bounds (c.s.local_tx_intv / 10) (c.s.local_tx_intv / 4) (c.random 0) (omega arith)
        (omega arith) r)

-- For a 32-bit interval, a number of random() and a nonzero multiplier: the next packet goes out after 75% to 90% of the interval, up to the rounding of the two parts
-- that are taken off.
pub tx_delay_bounds :
    (c : Ctx)
    → c.s.local_tx_intv < 2 ^ 32
    → c.random 0 < 2 ^ 31
    → c.s.local_detect_mult ≢ 0
    → (c.s.local_tx_intv - c.s.local_tx_intv / 4 ≤ (tx_delay c).0)
      × ((tx_delay c).0 ≤ c.s.local_tx_intv - c.s.local_tx_intv / 10)
unfolding tx_delay
tx_delay_bounds c small r mult =
    let (low, high) = jitter_bounds c small r mult in (omega arith, omega arith)

-- The time to the wakeup of a timer that is due after `now`.
time_to_wakeup_value :
    (now : Timeval) (t : Thread) (d : ℕ)
    → IsNormal now
    → IsNormal t.sands
    → After t.sands d now
    → 0 < d
    → d < ulong_mod
    → thread_time_to_wakeup now t ≡ d
unfolding thread_time_to_wakeup
time_to_wakeup_value now t d n₁ n₂ later pos small =
    let e : is_past now t.sands ≡ false = ground arith in
    rw e (timer_long-timersub t.sands now d n₂ n₁ later small)

abbrev Suspends : ℕ → Bfd → Bfd → Type 0
Suspends d b m = (m.thread_exp ≡ none) × (m.sands_exp ≡ d)

suspend_value :
    (now : Timeval) (b : Bfd) (t : Thread) (d : ℕ)
    → b.thread_exp ≡ some t
    → b.sands_exp ≡ timer_never
    → thread_time_to_wakeup now t ≡ d
    → Succeeds (bfd_expire_suspend now b) (Suspends d b)
unfolding bfd_expire_suspend
suspend_value now b t d due awake wake = ground arith

resume_value :
    (later : Timeval) (b : Bfd) (d : ℕ)
    → b.thread_exp ≡ none
    → b.sands_exp ≡ d
    → d ≢ timer_never
    → Succeeds (bfd_expire_resume later b) (λ r.
      (r.thread_exp ≡ some (record { sands = timer_add_long later d; ready = false }))
      × (r.sands_exp ≡ timer_never))
unfolding bfd_expire_resume
resume_value later b d off kept real = ground arith

-- For normal times and a session that is not suspended: a detection timer that is due d microseconds
-- after the suspension, above 0 and below TIMER_NEVER, is due d microseconds after the resumption.
pub bfd_expire_resume-bfd_expire_suspend :
    (now later : Timeval) (b : Bfd) (t : Thread) (d : ℕ)
    → b.thread_exp ≡ some t
    → b.sands_exp ≡ timer_never
    → IsNormal now
    → IsNormal t.sands
    → After t.sands d now
    → 0 < d
    → d < timer_never
    → Succeeds (bfd_expire_suspend now b >>= bfd_expire_resume later) (λ r.
      (r.thread_exp ≡ some (record { sands = timer_add_long later d; ready = false }))
      × (r.sands_exp ≡ timer_never))
bfd_expire_resume-bfd_expire_suspend now later b t d due awake n₁ n₂ after pos small =
    Succeeds->>= (Suspends d b) _ (bfd_expire_suspend now b) (bfd_expire_resume later)
      (suspend_value now b t d due awake
        (time_to_wakeup_value now t d n₁ n₂ after pos (omega arith)))
      (λ m s. resume_value later m d s.0 s.1 (λ e. omega arith))
