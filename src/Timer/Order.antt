-- ===== src/Timer/Order.antt =====
-- The order of the timer trees: RB_TIMER_LESS and RB_TIMER_CMP of lib/timer.h.
use keepalived.Common.{◌≡◌, ◌≢◌, ◌↔◌, ◌⊎◌, true, false, arith}
use keepalived.Common.Int.{pos, ◌-ℤ◌, ◌<ℤ◌}
use keepalived.Timer.{Timeval, timer_disabled, timer_less, timer_cmp}

pub timer_less_irrefl : (a : Timeval) → timer_less a a ≡ false
unfolding timer_less
timer_less_irrefl a = ground arith

pub timer_less_trans :
    (a b c : Timeval) → timer_less a b ≡ true → timer_less b c ≡ true → timer_less a c ≡ true
unfolding timer_less
timer_less_trans a b c p q = ground arith

-- Two times of which neither comes first are equal, or both are disabled.
pub timer_less_total :
    (a b : Timeval)
    → timer_less a b ≡ false
    → timer_less b a ≡ false
    → (a ≡ b) ⊎ ((a.tv_sec ≡ timer_disabled) × (b.tv_sec ≡ timer_disabled))
unfolding timer_less
timer_less_total a b p q = ground arith

-- The order never ranks a disabled timer before another one.
pub timer_less_disabled :
    (a b : Timeval)
    → a.tv_sec ≡ timer_disabled
    → (timer_less a b ≡ false) × ((timer_less b a ≡ true) ↔ (b.tv_sec ≢ timer_disabled))
unfolding timer_less
timer_less_disabled a b h = (ground arith, (λ k. ground arith, λ k. ground arith))

-- The order of RB_TIMER_LESS holds exactly where RB_TIMER_CMP is below 0, and the converse order
-- exactly where it is above 0.
pub timer_cmp-timer_less :
    (a b : Timeval)
    → ((timer_less a b ≡ true) ↔ (timer_cmp a b <ℤ pos 0))
      × ((timer_less b a ≡ true) ↔ (pos 0 <ℤ timer_cmp a b))
unfolding timer_less timer_cmp ◌-ℤ◌
timer_cmp-timer_less a b =
    ((λ h. ground arith, λ h. ground arith), (λ h. ground arith, λ h. ground arith))
