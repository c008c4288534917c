-- ===== src/Vrrp/Timers/Election.antt =====
-- Of the backups that hear no master, the one with the highest priority is due first.
use keepalived.Common.{ℕ, ◌+◌, ◌-◌, ◌*◌, ◌/◌, ◌≤◌, ◌<◌, ◌≡◌, ◌≢◌, ◌⊎◌, ◌^◌, arith}
use keepalived.Timer.{timer_centi_hz}
use keepalived.Vrrp.Instance.{Vrrp, prio_owner}
use keepalived.Vrrp.Timers.{ms_down_timer, timer_skew, timer_skew_calc}

-- The limits of the configuration: the interval of version 2 is below 256 seconds, that of version 3
-- is 10 ms to 40.95 seconds. The configuration allows 1 to 100 adverts to be missed, and with many of
-- them and a long interval the product does not fit the 32 bits, so that it is a condition that it does,
-- with 41 seconds for the skew.
pub record HasTimers (v : Vrrp) : Type 0 where
  pub interval :
      ((v.version ≡ 2) × (v.master_adver_int ≤ 255000000))
      ⊎ ((v.version ≡ 3) × (timer_centi_hz ≤ v.master_adver_int) × (v.master_adver_int ≤ 40950000))
  pub fits : v.down_timer_adverts * v.master_adver_int + 41000000 < 2 ^ 32

factor_lt : (a b c : ℕ) → a < b → a * c + c ≤ b * c
factor_lt a b c h = grind arith

factor_le : (b c m : ℕ) → b ≤ 256 → c ≤ m → b * c ≤ 256 * m
factor_le b c m h k = grind arith

skew_lt :
    (v w : Vrrp)
    → HasTimers v
    → w.version ≡ v.version
    → w.master_adver_int ≡ v.master_adver_int
    → (x y : ℕ) → x < y
    → y ≤ 256
    → (timer_skew_calc w x < timer_skew_calc v y) × (timer_skew_calc v y ≤ 41000000)
unfolding timer_skew_calc
skew_lt v w h e₁ e₂ x y lt le =
    let c = v.master_adver_int / timer_centi_hz in
    let step = factor_lt x y c lt in let top = factor_le y c 4095 le in ground arith

-- Of two instances with the same intervals, neither of them the address owner, the one with the
-- higher priority has the shorter down timer, without an overflow, so that it is due first where they
-- start together: if the adverts that may be missed, times the interval, and 41 seconds fit 32 bits of
-- microseconds, and the interval is within the limits of its version.
pub ms_down_timer-lt :
    (v w : Vrrp)
    → HasTimers v
    → w.version ≡ v.version
    → w.master_adver_int ≡ v.master_adver_int
    → w.down_timer_adverts ≡ v.down_timer_adverts
    → v.base_priority ≢ prio_owner
    → w.base_priority ≢ prio_owner
    → v.effective_priority < w.effective_priority
    → w.effective_priority < 256
    → (ms_down_timer w < ms_down_timer v)
      × (ms_down_timer v ≡ v.down_timer_adverts * v.master_adver_int + timer_skew v)
unfolding ms_down_timer timer_skew
ms_down_timer-lt v w h e₁ e₂ e₃ nv nw lt bound =
    let skew =
      skew_lt v w h e₁ e₂ (256 - w.effective_priority) (256 - v.effective_priority) (omega arith)
        (omega arith) in
    let fits = h.fits in ground arith
